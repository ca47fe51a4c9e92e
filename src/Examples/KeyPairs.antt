-- ===== src/Examples/KeyPairs.antt =====
-- Key pairs and their storages at concrete values, over a cache that is an association list.
use kite.Common.{
  text_beq_iff, nat_eq, Text, codes, text_beq, text_eq, trim_space, ok, ℕ, ◌≡◌, refl, Bool, true,
  Option, none, some, [], ◌∷◌, arith,
}
use kite.Common.Dict.{Dict, lookup, insert, remove, lookup-insert, lookup-remove}
use kite.Kontrol.KeyPair.{
  mem_delete_key, cached_storage, KeyPair, validate, KeyPairStorage, Cache, MemState, mem_add_key,
  mem_get_key_from_id, mem_is_valid, mem_storage,
}
use kite.Kontrol.KeyPair.Memory.{mem_is_valid-mem_delete_key}
use kite.Kontrol.KeyPair.Sequences.{deletes, gets, answers, IsFilled, answers-cached_storage}
use kite.Kontrol.Keys.{Keys, add_key_pair, delete_key_pair, self_pair}
use kite.Kontrol.Keys.Pairs.{IsAligned, appended_to, pairs, pairs-add_key_pair}
use kite.Kontrol.Keys.Pairs.Deleted.{looked_up, Outcome, pairs-delete_key_pair}
use kite.Kontrol.Keys.Self.{LastBelow, Answer, self_pair-LastBelow}

abbrev list_cache : Cache
list_cache = record {
  Entries = Dict Text KeyPair;
  get = lookup;
  set = insert;
  delete = remove;
  get-set = λ k j v c. lookup-insert k j v c;
  get-delete = λ k j c. lookup-remove k j c;
}

abbrev first : KeyPair
first = record { id = codes "1"; public = codes "pub1"; private = codes "priv1" }

abbrev empty : MemState list_cache
empty = record { id = []; public = [] }

-- One pair in memory.
abbrev stored : MemState list_cache
stored = record { id = (first.id, first) ∷ []; public = (first.public, first) ∷ [] }

stored_by_add : mem_add_key list_cache first empty ≡ (stored, ok tt)
unfolding mem_add_key validate insert
stored_by_add = refl

abbrev memory : KeyPairStorage
memory = mem_storage list_cache

validate-first : validate first ≡ ok tt
unfolding validate
validate-first = refl

stored_get : mem_get_key_from_id list_cache (codes "1") stored ≡ ok first
unfolding mem_get_key_from_id lookup text_beq
stored_get = refl

stored_is_valid : mem_is_valid list_cache (codes "pub1") stored ≡ ok tt
unfolding mem_is_valid lookup text_beq
stored_is_valid = refl

abbrev no_keys : Keys memory empty
no_keys = record {
  key_pair = none;
  last_ids = [];
  last_public = [];
  last_private = [];
  self_key_pair = none;
}

abbrev one_key : Keys memory empty
one_key = record {
  key_pair = some stored;
  last_ids = codes "1" ∷ [];
  last_public = codes "pub1" ∷ [];
  last_private = codes "priv1" ∷ [];
  self_key_pair = none;
}

one_key_by_add :
    add_key_pair memory empty none (codes "1") (codes "pub1") (codes "priv1") no_keys
    ≡ (one_key, ok tt)
unfolding add_key_pair mem_add_key validate insert trim_space
one_key_by_add = refl

abbrev after_add : Keys memory empty
after_add = (add_key_pair memory empty none (codes "1") (codes "pub1") (codes "priv1") no_keys).0

pairs-add_key_pair_example :
    IsAligned memory empty after_add
    × (pairs memory empty after_add
        ≡ appended_to memory empty
            (pairs memory empty no_keys)
            (codes "pub1")
            (codes "priv1")
            (some (codes "1")))
pairs-add_key_pair_example =
    pairs-add_key_pair memory empty none (codes "1") (codes "pub1") (codes "priv1") no_keys
      (record { ids = refl; privates = refl })

pairs-delete_key_pair_example :
    Outcome memory empty one_key
      (looked_up memory empty (codes "1") [] stored)
      (delete_key_pair memory empty (codes "1") [] one_key)
pairs-delete_key_pair_example =
    pairs-delete_key_pair memory empty (codes "1") [] one_key stored
      (record { ids = refl; privates = refl }) refl refl

abbrev any_key : Text → Text → Bool
any_key kite_key public = true

self_pair-LastBelow_example :
    (o : Option ℕ) × LastBelow (any_key (codes "key")) (codes "pub1" ∷ []) 1 o
    × Answer memory empty any_key
        (codes "key")
        one_key
        o
        (self_pair memory empty any_key (codes "key") one_key)
self_pair-LastBelow_example =
    self_pair-LastBelow memory empty any_key (codes "key") one_key refl refl (omega arith)

self_pair-first : (self_pair memory empty any_key (codes "key") one_key).1 ≡ ok first
unfolding self_pair
self_pair-first = refl

both_stored-IsFilled : IsFilled list_cache empty stored
unfolding lookup validate
both_stored-IsFilled = record {
  hits = λ i k h. cc;
  own = λ i k h. ground (arith, text_beq_iff (codes "1") i);
  are_valid = λ i k h. ground arith;
}

-- The backend's pair is looked up, deleted, and looked up again.
answers-cached_storage_example :
    answers
      (cached_storage memory memory)
      (gets (codes "1") ∷ deletes first refl ∷ gets (codes "1") ∷ [])
      (empty, stored)
    ≡ answers memory (gets (codes "1") ∷ deletes first refl ∷ gets (codes "1") ∷ []) stored
answers-cached_storage_example =
    answers-cached_storage list_cache
      (gets (codes "1") ∷ deletes first refl ∷ gets (codes "1") ∷ []) empty stored
      both_stored-IsFilled

mem_is_valid-mem_delete_key_example :
    mem_is_valid list_cache
      (codes "pub1")
      (mem_delete_key list_cache first (mem_add_key list_cache first empty).0).0
    ≡ ok tt
mem_is_valid-mem_delete_key_example =
    mem_is_valid-mem_delete_key list_cache first empty validate-first
