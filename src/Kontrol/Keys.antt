-- ===== src/Kontrol/Keys.antt =====
-- kontrol/kontrol.go: the key pairs that Kontrol holds. The proofs are in the modules below.
pub mod Pairs
pub mod Self
use kite.Common.{
  length, ltb, leb, nat_beq, if◌then◌else◌, nat_beq_iff, Bool-cases, Option-cases, Result-cases, Eq,
  ◌==◌, ==_iff, ==_refl, nat_eq, Text, codes, text_beq, text_beq_iff, text_eq, is_empty,
  contains_byte, has_prefix, has_prefix-append, trim_space, contains_text, count_byte, cut_at,
  split_n, split, part, cut_at_here, cut_at-append, cut_at-none, split_n-append, split-append,
  split_whole, count_byte-append, count_byte_zero, count_byte_none, count_byte_here, Result, ok,
  err, ◌>>=◌, ◌>>◌, ℕ, zero, suc, ◌+◌, ◌-◌, ◌*◌, ◌/◌, ◌%◌, ◌^◌, ◌≤◌, ◌<◌, ◌≡◌, refl, sym, ap, ◌∙◌,
  ◌≢◌, ◌↔◌, ◌⊎◌, inl, inr, Bool, true, false, ◌&&◌, ◌||◌, not, Option, none, some, List, [], ◌∷◌,
  ◌++◌, map, append_assoc, append-nil, arith,
}
use kite.Kontrol.KeyPair.{KeyPair, KeyPairError, key_deleted, KeyPairStorage, validate}

pub data KeysError : Type 0 where
  storage_not_initialized both_empty public_key_not_found no_self_key_pair no_matching_key_pair :
      KeysError
  no_uuid : KeysError
  storage_error : KeyPairError → KeysError

abbrev pub is_key_deleted : KeyPairError → Bool
is_key_deleted key_deleted = true
is_key_deleted _ = false

abbrev next_index : Option ℕ → Option ℕ
next_index none = none
next_index (some i) = some (suc i)

-- The first index at which a text stands.
unfoldable pub index_of : Text → List Text → Option ℕ
index_of p [] = none
index_of p (q ∷ qs) = let rest = next_index (index_of p qs) in if q == p then some 0 else rest

-- append(xs[:i], xs[i+1:]...)
unfoldable pub remove_at {ℓ} : {A : Type ℓ} → ℕ → List A → List A
remove_at i [] = []
remove_at zero (x ∷ xs) = xs
remove_at (suc i) (x ∷ xs) = x ∷ remove_at i xs

-- The loop of `KeyPair`: the indices below the first argument, from the last down.
unfoldable pub last_verifying : (Text → Bool) → List Text → ℕ → Option ℕ
last_verifying verifies publics zero = none
last_verifying verifies publics (suc i) =
    let rest = last_verifying verifies publics i in
    if verifies (part publics i) then some i else rest

abbrev lifted : {A : Type 0} → Result KeyPairError A → Result KeysError A
lifted (ok a) = ok a
lifted (err e) = err (storage_error e)

-- `fresh` is the storage in memory that Kontrol makes where none is set.
module _ (st : KeyPairStorage) (fresh : st.State) where
  -- The fields of `Kontrol` for its key pairs.
  pub record Keys : Type 0 where
    pub key_pair : Option st.State
    pub last_ids : List Text
    pub last_public : List Text
    pub last_private : List Text
    pub self_key_pair : Option KeyPair

  abbrev storage_or_fresh : Option st.State → st.State
  storage_or_fresh none = fresh
  storage_or_fresh (some s) = s

  abbrev stored : Keys → st.State × Result KeyPairError Unit → Keys × Result KeysError Unit
  stored k (s, r) = (record k { key_pair = some s }, lifted r)

  abbrev after_validate :
      KeyPair → Keys → st.State → Result KeyPairError Unit → Keys × Result KeysError Unit
  after_validate kp k s (err e) = (k, err (storage_error e))
  after_validate kp k s (ok _) = stored k (st.add_key kp s)

  -- `AddKeyPair`, from where the id is known.
  unfoldable pub add_with_id : Text → Text → Text → Keys → Keys × Result KeysError Unit
  add_with_id id public private k =
      let s = storage_or_fresh k.key_pair in
      let kp : KeyPair = record {
        id = id;
        public = trim_space public;
        private = trim_space private;
      } in
      let k' : Keys = record k {
        key_pair = some s;
        last_ids = k.last_ids ++ id ∷ [];
        last_public = k.last_public ++ trim_space public ∷ [];
        last_private = k.last_private ++ trim_space private ∷ [];
      } in
      after_validate kp k' s (validate kp)

  abbrev add_with_uuid : Option Text → Text → Text → Keys → Keys × Result KeysError Unit
  add_with_uuid none public private k =
      (record k { key_pair = some (storage_or_fresh k.key_pair) }, err no_uuid)
  add_with_uuid (some i) public private k = add_with_id i public private k

  -- `AddKeyPair`. `uuid` is what uuid.NewV4 returns.
  unfoldable pub add_key_pair :
      Option Text → Text → Text → Text → Keys → Keys × Result KeysError Unit
  unfolding add_with_id
  add_key_pair uuid id public private k =
      if is_empty id then add_with_uuid uuid public private k else add_with_id id public private k

  abbrev remove_index : Option ℕ → Keys → Keys × Result KeysError Unit
  remove_index none k = (k, err public_key_not_found)
  remove_index (some i) k = (
    record k {
      last_ids = remove_at i k.last_ids;
      last_public = remove_at i k.last_public;
      last_private = remove_at i k.last_private;
    },
    ok tt,
  )

  abbrev after_delete :
      KeyPair → Keys → st.State × Result KeyPairError Unit → Keys × Result KeysError Unit
  after_delete pair k (s, ok _) =
      remove_index (index_of pair.public k.last_public) (record k { key_pair = some s })
  after_delete pair k (s, err e) =
      if is_key_deleted e
      then remove_index (index_of pair.public k.last_public) (record k { key_pair = some s })
      else (record k { key_pair = some s }, err (storage_error e))

  abbrev after_lookup : Keys → st.State × Result KeyPairError KeyPair → Keys × Result KeysError Unit
  after_lookup k (s, err e) = (record k { key_pair = some s }, err (storage_error e))
  after_lookup k (s, ok pair) =
      after_delete pair k
        (st.delete_key (record { id = pair.id; public = pair.public; private = [] }) s)

  abbrev delete_in : Text → Text → Keys → Option st.State → Keys × Result KeysError Unit
  delete_in id public k none = (k, err storage_not_initialized)
  delete_in id public k (some s) =
      if is_empty id && is_empty public
      then (k, err both_empty)
      else if is_empty public
      then after_lookup k (st.get_key_from_id id s)
      else after_lookup k (st.get_key_from_public public s)

  -- `DeleteKeyPair`
  unfoldable pub delete_key_pair : Text → Text → Keys → Keys × Result KeysError Unit
  unfolding index_of remove_at
  delete_key_pair id public k = delete_in id public k k.key_pair

  abbrev pub at_index : Keys → ℕ → KeyPair
  at_index k i = record {
    id = part k.last_ids i;
    public = part k.last_public i;
    private = part k.last_private i;
  }

  abbrev found_self : Keys → Option ℕ → Keys × Result KeysError KeyPair
  found_self k none = (k, err no_matching_key_pair)
  found_self k (some i) = (record k { self_key_pair = some (at_index k i) }, ok (at_index k i))

  -- `KeyPair`. `verifies` says whether Kontrol's kite key is one signed for a public key (package
  -- jwt-go).
  unfoldable pub self_pair : (Text → Text → Bool) → Text → Keys → Keys × Result KeysError KeyPair
  unfolding last_verifying
  self_pair verifies kite_key k = elim k.self_key_pair [
    | some pair ↦ (k, ok pair)
    | none ↦
        if is_empty kite_key || nat_beq (length k.last_public) 0
        then (k, err no_self_key_pair)
        else found_self k (last_verifying (verifies kite_key) k.last_public (length k.last_public))
  ]

  abbrev deleted_is_ok : Result KeyPairError Unit → Result KeyPairError Unit
  deleted_is_ok (ok _) = ok tt
  deleted_is_ok (err e) = if is_key_deleted e then ok tt else err e

  -- `Verify`: the public key of a deleted pair is let through.
  unfoldable pub verify : Text → st.State → st.State × Result KeyPairError Unit
  verify public s = let (s', r) = st.is_valid public s in (s', deleted_is_ok r)
