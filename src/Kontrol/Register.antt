-- ===== src/Kontrol/Register.antt =====
-- kontrol/handlers.go and kontrol/http.go: the registration of a kite, up to the point where its
-- value is in the storage, and the key pair that it is registered with. The proofs are in the module
-- below.
pub mod Stored
use kite.Common.{
  ltb, leb, nat_beq, if◌then◌else◌, nat_beq_iff, Bool-cases, Option-cases, Result-cases, Eq, ◌==◌,
  ==_iff, ==_refl, nat_eq, Text, codes, text_beq, text_beq_iff, text_eq, is_empty, contains_byte,
  has_prefix, has_prefix-append, trim_space, contains_text, count_byte, cut_at, split_n, split,
  part, cut_at_here, cut_at-append, cut_at-none, split_n-append, split-append, split_whole,
  count_byte-append, count_byte_zero, count_byte_none, count_byte_here, Result, ok, err, ◌>>=◌,
  ◌>>◌, ℕ, zero, suc, ◌+◌, ◌-◌, ◌*◌, ◌/◌, ◌%◌, ◌^◌, ◌≤◌, ◌<◌, ◌≡◌, refl, sym, ap, ◌∙◌, ◌≢◌, ◌↔◌,
  ◌⊎◌, inl, inr, Bool, true, false, ◌&&◌, ◌||◌, not, Option, none, some, List, [], ◌∷◌, ◌++◌, map,
  append_assoc, append-nil, arith,
}
use kite.Protocol.{Kite, Field, Auth, RegisterResult, RegisterValue}
use kite.Kontrol.KeyPair.{KeyPair, KeyPairError, KeyPairStorage, key_deleted}
use kite.Kontrol.Keys.{Keys, KeysError, self_pair}
use kite.Kontrol.QueryKey.{KeyError, validate_kite_key}

pub data RegisterError : Type 0 where
  unexpected_type bad_arguments bad_token not_authenticated picker_failed : Text → RegisterError
  empty_url invalid_url no_authentication_key nil_key_storage internal_error : RegisterError
  bad_kite : KeyError → RegisterError

-- What registration needs beside its state. `extract` finds the Kontrol key in the claims of a kite
-- key; `resign private key token` is the token signed anew with that Kontrol key in its claims, if
-- the private key can be read and used (package jwt-go). `authenticate_key` is
-- `AuthenticateSimpleKiteKey`, `order` the order in which Go ranges over the fields of a kite, and
-- `W` all that `Storage.Upsert` reads and changes; it says whether it succeeded.
pub record Setup : Type 1 where
  pub st : KeyPairStorage
  pub fresh : st.State
  pub W : Type 0
  pub verifies : Text → Text → Bool
  pub own_kite_key : Text
  pub picker : Option (Result Text KeyPair)
  pub extract : Text → Result Text Text
  pub resign : Text → Text → Text → Option Text
  pub authenticate_key : Text → Result Text Text
  pub parse_url : Text → Bool
  pub order : List Field
  pub upsert : Kite → RegisterValue → W → W × Bool
  pub heartbeat_interval : ℕ

-- The key pair of a registration, the new kite key, which is empty if there is none, and the Kontrol
-- key that the claims hold by then.
pub record Chosen : Type 0 where
  pub pair : KeyPair
  pub kite_key : Text
  pub claims_key : Text

module _ (setup : Setup) where
  open setup use {
    st, fresh, W, verifies, own_kite_key, picker, extract, resign, authenticate_key, parse_url,
    order, upsert, heartbeat_interval,
  }

  pub record Registry : Type 0 where
    pub keys : Keys st fresh
    pub world : W

  -- What `updateKeyWithKeyPair` writes into the claims, and the token that it signs.
  unfoldable pub updated_key : Text → KeyPair → Text
  updated_key claims_key kp = if is_empty claims_key then claims_key else kp.public

  abbrev or_empty : Option Text → Text
  or_empty none = []
  or_empty (some t) = t

  unfoldable pub update_key_with_pair : Text → Text → KeyPair → Text
  unfolding updated_key
  update_key_with_pair token claims_key kp =
      or_empty (resign kp.private (updated_key claims_key kp) token)

  abbrev pub picked : Text → Text → Result RegisterError Chosen
  picked token claims_key = elim picker [
    | none ↦ err no_authentication_key
    | some (err e) ↦ err (picker_failed e)
    | some (ok kp) ↦ ok (record {
      pair = kp;
      kite_key = update_key_with_pair token claims_key kp;
      claims_key = updated_key claims_key kp;
    })
  ]

  -- What `updateKey` finds, and otherwise the picked key: a new kite key that is empty counts as
  -- none, but the claims have been changed.
  abbrev pub updated :
      Text
      → Text
      → Registry
      → Keys st fresh × Result KeysError KeyPair
      → Registry × Result RegisterError Chosen
  updated token claims_key s (keys, err e) = (record s { keys = keys }, picked token claims_key)
  updated token claims_key s (keys, ok kp) = (
    record s { keys = keys },
    if is_empty (update_key_with_pair token claims_key kp)
        then picked token (updated_key claims_key kp)
        else ok (record {
          pair = kp;
          kite_key = update_key_with_pair token claims_key kp;
          claims_key = updated_key claims_key kp;
        }),
  )

  abbrev pub by_public :
      Text
      → Text
      → Registry
      → Keys st fresh
      → Result KeyPairError KeyPair
      → Registry × Result RegisterError Chosen
  by_public token claims_key s keys (ok kp) =
      (record s { keys = keys }, ok (record { pair = kp; kite_key = []; claims_key = claims_key }))
  by_public token claims_key s keys (err key_deleted) =
      updated token claims_key s (self_pair st fresh verifies own_kite_key keys)
  by_public token claims_key s keys (err e) = (record s { keys = keys }, picked token claims_key)

  abbrev pub in_key_storage :
      Text → Text → Registry → Option st.State → Registry × Result RegisterError Chosen
  in_key_storage token claims_key s none = (s, err nil_key_storage)
  in_key_storage token claims_key s (some keys) =
      let (keys', r) = st.get_key_from_public claims_key keys in
      by_public token claims_key s (record s.keys { key_pair = some keys' }) r

  -- `getOrUpdateKeyPub` for the Kontrol key in the claims of a kite key.
  unfoldable pub get_or_update_key_pub :
      Text → Text → Registry → Registry × Result RegisterError Chosen
  unfolding update_key_with_pair
  get_or_update_key_pub token claims_key s = in_key_storage token claims_key s s.keys.key_pair

  abbrev pub result_of : Text → Text → Chosen → RegisterResult
  result_of url seen_key c = record {
    url = url;
    heartbeat_interval = 0;
    error = [];
    public_key = if seen_key == c.pair.public then [] else c.pair.public;
    kite_key = c.kite_key;
  }

  abbrev pub upserted :
      RegisterResult → Registry → W × Bool → Registry × Result RegisterError RegisterResult
  upserted res s (w, true) = (record s { world = w }, ok res)
  upserted res s (w, false) = (record s { world = w }, err internal_error)

  abbrev pub validated :
      RegisterResult
      → Kite
      → Chosen
      → Registry
      → Result KeyError Unit
      → Registry × Result RegisterError RegisterResult
  validated res kite c s (err e) = (s, err (bad_kite e))
  validated res kite c s (ok _) =
      upserted res s (upsert kite (record { url = res.url; key_id = c.pair.id }) s.world)

  -- What both handlers do with the chosen key; `seen c` is the Kontrol key that they compare with
  -- the public key of the pair.
  abbrev pub with_chosen :
      (Chosen → Text)
      → Text
      → Kite
      → Registry × Result RegisterError Chosen
      → Registry × Result RegisterError RegisterResult
  with_chosen seen url kite (s, err e) = (s, err e)
  with_chosen seen url kite (s, ok c) =
      validated (result_of url (seen c) c) kite c s (validate_kite_key order kite)

  abbrev pub extracted :
      (Text → Chosen → Text)
      → Text
      → Text
      → Kite
      → Registry
      → Result Text Text
      → Registry × Result RegisterError RegisterResult
  extracted seen token url kite s (err e) = (s, err (bad_token e))
  extracted seen token url kite s (ok claims_key) =
      with_chosen (seen claims_key) url kite (get_or_update_key_pub token claims_key s)

  abbrev pub with_url :
      Text → Kite → Registry → Result Text Text → Registry × Result RegisterError RegisterResult
  with_url token kite s (err e) = (s, err (bad_arguments e))
  with_url token kite s (ok url) =
      if is_empty url
      then (s, err empty_url)
      else if not (parse_url url)
      then (s, err invalid_url)
      else extracted (λ claims_key c. claims_key) token url kite s (extract token)

  -- `HandleRegister` of a request with its authentication, its arguments and its kite, up to the
  -- updater. It compares the key that the claims held at first.
  unfoldable pub handle_register :
      Auth → Result Text Text → Kite → Registry → Registry × Result RegisterError RegisterResult
  unfolding get_or_update_key_pub
  handle_register auth args kite s =
      if not (auth.type == codes "kiteKey")
      then (s, err (unexpected_type auth.type))
      else with_url auth.key kite s args

  abbrev pub with_interval :
      Registry × Result RegisterError RegisterResult
      → Registry × Result RegisterError RegisterResult
  with_interval (s, err e) = (s, err e)
  with_interval (s, ok res) = (s, ok (record res { heartbeat_interval = heartbeat_interval }))

  abbrev pub authenticated :
      Text
      → Text
      → Kite
      → Registry
      → Result Text Text
      → Registry × Result RegisterError RegisterResult
  authenticated token url kite s (err e) = (s, err (not_authenticated e))
  authenticated token url kite s (ok username) = with_interval (
      extracted (λ claims_key c. c.claims_key) token url (record kite { username = username }) s
        (extract token))

  -- `HandleRegisterHTTP` of a body that has been decoded, up to the heartbeat timer. It compares the
  -- key that the claims hold once `getOrUpdateKeyPub` is done with them.
  unfoldable pub handle_register_http :
      Auth → Text → Kite → Registry → Registry × Result RegisterError RegisterResult
  unfolding get_or_update_key_pub
  handle_register_http auth url kite s =
      if not (auth.type == codes "kiteKey")
      then (s, err (unexpected_type auth.type))
      else if is_empty url
      then (s, err empty_url)
      else authenticated auth.key url kite s (authenticate_key auth.key)
