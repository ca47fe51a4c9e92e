-- ===== src/KontrolClient.antt =====
-- kontrolclient.go: the calls of a kite to Kontrol, and the loop that keeps it registered.
pub mod Registering
pub mod Renewal
use kite.Common.{
  ltb, leb, nat_beq, if◌then◌else◌, nat_beq_iff, Bool-cases, Option-cases, Result-cases, Eq, ◌==◌,
  ==_iff, ==_refl, nat_eq, Text, codes, text_beq, text_beq_iff, text_eq, is_empty, contains_byte,
  has_prefix, has_prefix-append, trim_space, contains_text, count_byte, cut_at, split_n, split,
  part, cut_at_here, cut_at-append, cut_at-none, split_n-append, split-append, split_whole,
  count_byte-append, count_byte_zero, count_byte_none, count_byte_here, Result, ok, err, ◌>>=◌,
  ◌>>◌, ℕ, zero, suc, ◌+◌, ◌-◌, ◌*◌, ◌/◌, ◌%◌, ◌^◌, ◌≤◌, ◌<◌, ◌≡◌, refl, sym, ap, ◌∙◌, ◌≢◌, ◌↔◌,
  ◌⊎◌, inl, inr, Bool, true, false, ◌&&◌, ◌||◌, not, Option, none, some, List, [], ◌∷◌, ◌++◌, map,
  append_assoc, append-nil, arith,
}
use kite.Protocol.{Kite, KiteWithToken}
use kite.Client.{Client, Auth, new_client}

-- The type `kontrolClient`: the credential of its client, if it was set up, and whether
-- `readyConnected` is closed; with the field `KontrolKey` of the configuration.
pub record KontrolClient : Type 0 where
  pub client : Option Auth
  pub connected : Bool
  pub kontrol_key : Text

-- What a call gives: it waits for the connection as long as there is none, or it has a result.
pub data Called (A : Type 0) : Type 0 where
  waits_for_connection : Called A
  call_error : Text → Called A
  called : A → Called A

-- `SetupKontrolClient`, with the url of Kontrol and the kite key.
unfoldable pub setup_kontrol_client : Text → Text → KontrolClient → KontrolClient × Result Text Unit
setup_kontrol_client kontrol_url kite_key k = of_client k.client
  where
    of_client : Option Auth → KontrolClient × Result Text Unit
    of_client (some a) = (k, ok tt)
    of_client none =
        if is_empty kontrol_url
        then (k, err (codes "no kontrol URL given in config"))
        else (record k { client = some (record { type = codes "kiteKey"; key = kite_key }) }, ok tt)

-- A call once the client is set up; `tell` is what TellWithTimeout and the decoding of its result
-- give.
abbrev pub tell_when_ready : {A : Type 0} → Result Text A → Bool → Called A
tell_when_ready tell false = waits_for_connection
tell_when_ready (err e) true = call_error e
tell_when_ready (ok a) true = called a

abbrev pub after_setup :
    {A : Type 0} → Result Text A → KontrolClient × Result Text Unit → KontrolClient × Called A
after_setup tell (k, err e) = (k, call_error e)
after_setup tell (k, ok _) = (k, tell_when_ready tell k.connected)

-- `GetToken`, `GetTokenForce` and `Register` are such calls.
unfoldable pub call_kontrol :
    {A : Type 0} → Text → Text → Result Text A → KontrolClient → KontrolClient × Called A
unfolding setup_kontrol_client
call_kontrol kontrol_url kite_key tell k =
    after_setup tell (setup_kontrol_client kontrol_url kite_key k)

-- `GetKey`: the key is also that of the configuration.
abbrev pub with_key : KontrolClient × Called Text → KontrolClient × Called Text
with_key (k, called key) = (record k { kontrol_key = key }, called key)
with_key (k, waits_for_connection) = (k, waits_for_connection)
with_key (k, call_error e) = (k, call_error e)

unfoldable pub get_key :
    Text → Text → Result Text Text → KontrolClient → KontrolClient × Called Text
unfolding call_kontrol
get_key kontrol_url kite_key tell k = with_key (call_kontrol kontrol_url kite_key tell k)

-- `TellKontrolWithTimeout`, which waits for the connection no longer than the timeout.
abbrev or_timeout : {A : Type 0} → Called A → Called A
or_timeout waits_for_connection = call_error (codes "Timed out registering to kontrol")
or_timeout (call_error e) = call_error e
or_timeout (called a) = called a

unfoldable pub tell_kontrol :
    {A : Type 0} → Text → Text → Result Text A → KontrolClient → KontrolClient × Called A
unfolding call_kontrol
tell_kontrol kontrol_url kite_key tell k =
    let after = call_kontrol kontrol_url kite_key tell k in (after.0, or_timeout after.1)

module _ (F S : Type 0) where
  -- A client for a kite that Kontrol named, and whether its token is renewed.
  pub record KiteClient : Type 0 where
    pub client : Client F S
    pub kite : Kite
    pub renewed : Bool

  abbrev pub is_token : Result Text ℕ → Bool
  is_token (ok valid_until) = true
  is_token (err e) = false

  -- The loops of `getKites`; `parse` is that of the token renewer.
  unfoldable pub kite_clients : (Text → Result Text ℕ) → List KiteWithToken → List KiteClient
  kite_clients parse [] = []
  kite_clients parse (k ∷ ks) =
      record {
        client = record (new_client F S k.url) {
          auth = some (record { type = codes "token"; key = k.token });
        };
        kite = k.kite;
        renewed = is_token (parse k.token);
      }
      ∷ kite_clients parse ks

  abbrev some_clients : List KiteClient → Called (List KiteClient)
  some_clients [] = call_error (codes "no kites availabile")
  some_clients (c ∷ cs) = called (c ∷ cs)

  abbrev clients_of :
      (Text → Result Text ℕ) → Called (List KiteWithToken) → Called (List KiteClient)
  clients_of parse waits_for_connection = waits_for_connection
  clients_of parse (call_error e) = call_error e
  clients_of parse (called ks) = some_clients (kite_clients parse ks)

  -- `GetKites` and `getKites`
  unfoldable pub get_kites :
      (Text → Result Text ℕ)
      → Text
      → Text
      → Result Text (List KiteWithToken)
      → KontrolClient
      → KontrolClient × Called (List KiteClient)
  unfolding call_kontrol kite_clients
  get_kites parse kontrol_url kite_key tell k =
      let after = call_kontrol kontrol_url kite_key tell k in (after.0, clients_of parse after.1)
