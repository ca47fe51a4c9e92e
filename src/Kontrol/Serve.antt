-- ===== src/Kontrol/Serve.antt =====
-- kontrol/handlers.go: the handlers that answer queries for kites and tokens, over the key pairs and
-- the token cache of Kontrol. The proofs are in the module below.
pub mod Tokens
use kite.Common.{
  ltb, leb, nat_beq, if◌then◌else◌, nat_beq_iff, Bool-cases, Option-cases, Result-cases, Eq, ◌==◌,
  ==_iff, ==_refl, nat_eq, Text, codes, text_beq, text_beq_iff, text_eq, is_empty, contains_byte,
  has_prefix, has_prefix-append, trim_space, contains_text, count_byte, cut_at, split_n, split,
  part, cut_at_here, cut_at-append, cut_at-none, split_n-append, split-append, split_whole,
  count_byte-append, count_byte_zero, count_byte_none, count_byte_here, Result, ok, err, ◌>>=◌,
  ◌>>◌, ℕ, zero, suc, ◌+◌, ◌-◌, ◌*◌, ◌/◌, ◌%◌, ◌^◌, ◌≤◌, ◌<◌, ◌≡◌, refl, sym, ap, ◌∙◌, ◌≢◌, ◌↔◌,
  ◌⊎◌, inl, inr, Bool, true, false, ◌&&◌, ◌||◌, not, Option, none, some, List, [], ◌∷◌, ◌++◌, map,
  append_assoc, append-nil, arith,
}
use kite.Protocol.{KontrolQuery, KiteWithToken}
use kite.Kontrol.KeyPair.{KeyPair, KeyPairError, KeyPairStorage, key_deleted}
use kite.Kontrol.Keys.{Keys, KeysError, self_pair}
use kite.Kontrol.Token.{
  TokenRequest, Claims, TokenSettings, TokenCache, TokenError, generate_token, expire,
}
use kite.Kontrol.QueryKey.{get_audience}

pub data ServeError : Type 0 where
  bad_arguments storage_failed picker_failed : Text → ServeError
  no_authentication_key more_than_one_kite no_kites nil_key_storage : ServeError
  token_failed : TokenError → ServeError

-- What the handlers need beside their state: the storage of key pairs and the one that Kontrol makes
-- where none is set, package jwt-go (`verifies` as in `self_pair`), Kontrol's settings, its own kite
-- key and username, what the field `MachineKeyPicker` answers for the request, and `Storage.Get`.
pub record Setup : Type 1 where
  pub st : KeyPairStorage
  pub fresh : st.State
  pub PrivateKey : Type 0
  pub parse_private : Text → Option PrivateKey
  pub sign : PrivateKey → Claims → Option Text
  pub settings : TokenSettings
  pub verifies : Text → Text → Bool
  pub kite_key : Text
  pub issuer : Text
  pub picker : Option (Result Text KeyPair)
  pub storage_get : KontrolQuery → Result Text (List KiteWithToken)

module _ (setup : Setup) where
  open setup use {
    st, fresh, PrivateKey, parse_private, sign, settings, verifies, kite_key, issuer, picker,
    storage_get,
  }

  -- The state of Kontrol that the handlers change.
  pub record Serving : Type 0 where
    pub keys : Keys st fresh
    pub tokens : TokenCache

  -- `pickKey`; what a picker answers for the request is given.
  unfoldable pub pick_key : Result ServeError KeyPair
  pick_key = elim picker [
    | none ↦ err no_authentication_key
    | some (ok kp) ↦ ok kp
    | some (err e) ↦ err (picker_failed e)
  ]

  -- What `KeyPair` answers in place of a deleted pair; without one a key is picked.
  abbrev pub own_or_picked :
      Serving → Keys st fresh × Result KeysError KeyPair → Serving × Result ServeError KeyPair
  own_or_picked s (keys, ok kp) = (record s { keys = keys }, ok kp)
  own_or_picked s (keys, err e) = (record s { keys = keys }, pick_key)

  abbrev pub with_found :
      Serving → Keys st fresh → Result KeyPairError KeyPair → Serving × Result ServeError KeyPair
  with_found s keys (ok kp) = (record s { keys = keys }, ok kp)
  with_found s keys (err key_deleted) = own_or_picked s (self_pair st fresh verifies kite_key keys)
  with_found s keys (err e) = (record s { keys = keys }, pick_key)

  abbrev pub in_storage : Text → Serving → Option st.State → Serving × Result ServeError KeyPair
  in_storage id s none = (s, err nil_key_storage)
  in_storage id s (some keys) =
      let (keys', r) = st.get_key_from_id id keys in
      with_found s (record s.keys { key_pair = some keys' }) r

  -- `getOrUpdateKeyID`; a storage that is nil ends it with a panic, here an error.
  unfoldable pub get_or_update_key_id : Text → Serving → Serving × Result ServeError KeyPair
  unfolding pick_key
  get_or_update_key_id id s = in_storage id s s.keys.key_pair

  abbrev pub token_request : KontrolQuery → Text → Bool → KeyPair → TokenRequest
  token_request q username force kp = record {
    audience = get_audience q;
    username = username;
    issuer = issuer;
    key_pair = kp;
    force = force;
  }

  abbrev pub kept : Serving → TokenCache × Result TokenError Text → Serving × Result ServeError Text
  kept s (tokens, ok t) = (record s { tokens = tokens }, ok t)
  kept s (tokens, err e) = (record s { tokens = tokens }, err (token_failed e))

  abbrev pub sign_for :
      KontrolQuery
      → Text
      → Bool
      → ℕ
      → Option Text
      → Serving × Result ServeError KeyPair
      → Serving × Result ServeError Text
  sign_for q username force now uuid (s, err e) = (s, err e)
  sign_for q username force now uuid (s, ok kp) = kept s (
      generate_token parse_private sign settings now uuid (token_request q username force kp)
        (expire now s.tokens))

  -- The token for a kite whose key has the given id, at time `now`. The timers that have fired have
  -- emptied their entries of the cache.
  unfoldable pub token_for :
      KontrolQuery
      → Text
      → Bool
      → ℕ
      → Option Text
      → Text
      → Serving
      → Serving × Result ServeError Text
  unfolding get_or_update_key_id
  token_for q username force now uuid id s =
      sign_for q username force now uuid (get_or_update_key_id id s)

  abbrev pub with_rest :
      KiteWithToken
      → Serving × Result ServeError (List KiteWithToken)
      → Serving × Result ServeError (List KiteWithToken)
  with_rest kite (s, ok kites) = (s, ok (kite ∷ kites))
  with_rest kite (s, err e) = (s, err e)

  abbrev pub with_token :
      KiteWithToken
      → (Serving → Serving × Result ServeError (List KiteWithToken))
      → Serving × Result ServeError Text
      → Serving × Result ServeError (List KiteWithToken)
  with_token kite rest (s, err e) = (s, err e)
  with_token kite rest (s, ok t) = with_rest (record kite { token = t }) (rest s)

  -- The loop of `HandleGetKites`. `uuid` is what uuid.NewV4 returns at each kite.
  unfoldable pub tokens_for :
      KontrolQuery
      → Text
      → ℕ
      → (KiteWithToken → Option Text)
      → List KiteWithToken
      → Serving
      → Serving × Result ServeError (List KiteWithToken)
  unfolding token_for
  tokens_for q username now uuid [] s = (s, ok [])
  tokens_for q username now uuid (kite ∷ kites) s =
      with_token kite (tokens_for q username now uuid kites)
        (token_for q username false now (uuid kite) kite.key_id s)

  -- `HandleGetKites` of a request from `username`.
  unfoldable pub handle_get_kites :
      Result Text KontrolQuery
      → Text
      → ℕ
      → (KiteWithToken → Option Text)
      → Serving
      → Serving × Result ServeError (List KiteWithToken)
  unfolding tokens_for
  handle_get_kites (err e) username now uuid s = (s, err (bad_arguments e))
  handle_get_kites (ok q) username now uuid s = elim (storage_get q) [
    | err e ↦ (s, err (storage_failed e))
    | ok kites ↦ tokens_for q username now uuid kites s
  ]

  abbrev pub only_kite :
      KontrolQuery
      → Text
      → Bool
      → ℕ
      → Option Text
      → Serving
      → Result Text (List KiteWithToken)
      → Serving × Result ServeError Text
  only_kite q username force now uuid s (err e) = (s, err (storage_failed e))
  only_kite q username force now uuid s (ok []) = (s, err no_kites)
  only_kite q username force now uuid s (ok (kite ∷ [])) =
      token_for q username force now uuid kite.key_id s
  only_kite q username force now uuid s (ok (kite ∷ other ∷ kites)) = (s, err more_than_one_kite)

  -- `HandleGetToken`; the arguments are a query and the flag `Force`.
  unfoldable pub handle_get_token :
      Result Text (KontrolQuery × Bool)
      → Text
      → ℕ
      → Option Text
      → Serving
      → Serving × Result ServeError Text
  unfolding token_for
  handle_get_token (err e) username now uuid s = (s, err (bad_arguments e))
  handle_get_token (ok (q, force)) username now uuid s =
      only_kite q username force now uuid s (storage_get q)
