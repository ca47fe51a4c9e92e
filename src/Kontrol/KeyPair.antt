-- ===== src/Kontrol/KeyPair.antt =====
-- kontrol/keypair.go: key pairs, the interface of their storages, the storage in memory and the one
-- that puts a cache before a backend. The proofs are in the modules below.
pub mod Memory
pub mod Cached
pub mod Sequences
use kite.Common.{
  ltb, leb, nat_beq, if◌then◌else◌, nat_beq_iff, Bool-cases, Option-cases, Eq, ◌==◌, ==_iff,
  ==_refl, nat_eq, Text, codes, text_beq, text_beq_iff, text_eq, is_empty, contains_byte,
  has_prefix, has_prefix-append, contains_text, count_byte, cut_at, split_n, split, part,
  cut_at_here, cut_at-append, cut_at-none, split_n-append, split-append, split_whole,
  count_byte-append, count_byte_zero, count_byte_none, count_byte_here, Result, ok, err, ◌>>=◌,
  ◌>>◌, ℕ, zero, suc, ◌+◌, ◌-◌, ◌*◌, ◌/◌, ◌%◌, ◌^◌, ◌≤◌, ◌<◌, ◌≡◌, refl, sym, ap, ◌∙◌, ◌≢◌, ◌↔◌,
  ◌⊎◌, inl, inr, Bool, true, false, ◌&&◌, ◌||◌, not, Option, none, some, List, [], ◌∷◌, ◌++◌, map,
  append_assoc, append-nil, arith,
}

pub record KeyPair : Type 0 where
  pub id : Text
  pub public : Text
  pub private : Text

pub data KeyPairError : Type 0 where
  empty_id empty_public empty_private not_found key_deleted : KeyPairError
  other_error : Text → KeyPairError

-- `KeyPair.Validate`
unfoldable pub validate : KeyPair → Result KeyPairError Unit
validate k =
    if is_empty k.id
    then err empty_id
    else if is_empty k.public
    then err empty_public
    else if is_empty k.private
    then err empty_private
    else ok tt

-- The interface `KeyPairStorage`. A method returns the state that it leaves, on an error too.
pub record KeyPairStorage : Type 1 where
  pub State : Type 0
  pub add_key : KeyPair → State → State × Result KeyPairError Unit
  pub delete_key : KeyPair → State → State × Result KeyPairError Unit
  pub get_key_from_id : Text → State → State × Result KeyPairError KeyPair
  pub get_key_from_public : Text → State → State × Result KeyPairError KeyPair
  pub is_valid : Text → State → State × Result KeyPairError Unit

-- What the program uses of github.com/koding/cache: a cache without expiry, as `NewMemory` makes it.
pub record Cache : Type 1 where
  pub Entries : Type 0
  pub get : Text → Entries → Option KeyPair
  pub set : Text → KeyPair → Entries → Entries
  pub delete : Text → Entries → Entries
  pub get-set :
      (k j : Text) (v : KeyPair) (c : Entries)
      → get j (set k v c) ≡ (if k == j then some v else get j c)
  pub get-delete :
      (k j : Text) (c : Entries) → get j (delete k c) ≡ (if k == j then none else get j c)

abbrev pub found : Option KeyPair → Result KeyPairError KeyPair
found none = err not_found
found (some k) = ok k

-- An error, or nothing: `_, err := …; return err`.
abbrev pub only_error : Result KeyPairError KeyPair → Result KeyPairError Unit
only_error (ok k) = ok tt
only_error (err e) = err e

module _ (c : Cache) where
  open c use {Entries, get, set, delete}

  -- `MemKeyPairStorage`
  pub record MemState : Type 0 where
    pub id : Entries
    pub public : Entries

  abbrev mem_after_validate :
      KeyPair → MemState → Result KeyPairError Unit → MemState × Result KeyPairError Unit
  mem_after_validate k s (err e) = (s, err e)
  mem_after_validate k s (ok _) =
      (record { id = set k.id k s.id; public = set k.public k s.public }, ok tt)

  unfoldable pub mem_add_key : KeyPair → MemState → MemState × Result KeyPairError Unit
  mem_add_key k s = mem_after_validate k s (validate k)

  -- Both `GetKeyFrom…` methods: what is stored is a key pair, so the type test succeeds.
  unfoldable pub mem_get_key_from_id : Text → MemState → Result KeyPairError KeyPair
  mem_get_key_from_id i s = found (get i s.id)

  unfoldable pub mem_get_key_from_public : Text → MemState → Result KeyPairError KeyPair
  mem_get_key_from_public p s = found (get p s.public)

  abbrev mem_delete_found :
      KeyPair → MemState → Result KeyPairError KeyPair → MemState × Result KeyPairError Unit
  mem_delete_found k s (err e) = (s, err e)
  mem_delete_found k s (ok stored) =
      (record { id = delete k.id s.id; public = delete stored.public s.public }, ok tt)

  unfoldable pub mem_delete_key : KeyPair → MemState → MemState × Result KeyPairError Unit
  unfolding mem_get_key_from_id
  mem_delete_key k s =
      if is_empty k.public
      then mem_delete_found k s (mem_get_key_from_id k.id s)
      else (record s { id = delete k.id s.id }, ok tt)

  unfoldable pub mem_is_valid : Text → MemState → Result KeyPairError Unit
  unfolding mem_get_key_from_public
  mem_is_valid p s = only_error (mem_get_key_from_public p s)

  abbrev pub mem_storage : KeyPairStorage
  mem_storage = record {
    State = MemState;
    add_key = mem_add_key;
    delete_key = mem_delete_key;
    get_key_from_id = λ i s. (s, mem_get_key_from_id i s);
    get_key_from_public = λ p s. (s, mem_get_key_from_public p s);
    is_valid = λ p s. (s, mem_is_valid p s);
  }

-- `CachedStorage`. Its state is that of the cache and that of the backend.
module _ (cache backend : KeyPairStorage) where
  abbrev pub Both : Type 0
  Both = cache.State × backend.State

  abbrev then_cache :
      {A : Type 0}
      → backend.State × Result KeyPairError Unit
      → (backend.State → Both × Result KeyPairError A)
      → Both
      → Both × Result KeyPairError A
  then_cache (b, err e) f s = ((s.0, b), err e)
  then_cache (b, ok _) f s = f b

  abbrev in_cache :
      {A : Type 0}
      → backend.State
      → cache.State × Result KeyPairError A
      → Both × Result KeyPairError A
  in_cache b (c, r) = ((c, b), r)

  unfoldable pub cached_add_key : KeyPair → Both → Both × Result KeyPairError Unit
  cached_add_key k s = then_cache (backend.add_key k s.1) (λ b. in_cache b (cache.add_key k s.0)) s

  unfoldable pub cached_delete_key : KeyPair → Both → Both × Result KeyPairError Unit
  cached_delete_key k s =
      then_cache (backend.delete_key k s.1) (λ b. in_cache b (cache.delete_key k s.0)) s

  abbrev after_fill :
      KeyPair
      → backend.State
      → cache.State × Result KeyPairError Unit
      → Both × Result KeyPairError KeyPair
  after_fill k b (c, err e) = ((c, b), err e)
  after_fill k b (c, ok _) = ((c, b), ok k)

  abbrev after_backend :
      cache.State → backend.State × Result KeyPairError KeyPair → Both × Result KeyPairError KeyPair
  after_backend c (b, err e) = ((c, b), err e)
  after_backend c (b, ok k) = after_fill k b (cache.add_key k c)

  abbrev after_cache :
      (cache.State → Both × Result KeyPairError KeyPair)
      → backend.State
      → cache.State × Result KeyPairError KeyPair
      → Both × Result KeyPairError KeyPair
  after_cache miss b (c, ok k) = ((c, b), ok k)
  after_cache miss b (c, err e) = miss c

  unfoldable pub cached_get_key_from_id : Text → Both → Both × Result KeyPairError KeyPair
  cached_get_key_from_id i s =
      after_cache (λ c. after_backend c (backend.get_key_from_id i s.1)) s.1
        (cache.get_key_from_id i s.0)

  unfoldable pub cached_get_key_from_public : Text → Both → Both × Result KeyPairError KeyPair
  cached_get_key_from_public p s =
      after_cache (λ c. after_backend c (backend.get_key_from_public p s.1)) s.1
        (cache.get_key_from_public p s.0)

  abbrev after_is_valid :
      Both
      → cache.State × Result KeyPairError Unit
      → (backend.State × Result KeyPairError Unit)
      → Both × Result KeyPairError Unit
  after_is_valid s (c, ok _) (b, r) = ((c, s.1), ok tt)
  after_is_valid s (c, err e) (b, r) = ((c, b), r)

  unfoldable pub cached_is_valid : Text → Both → Both × Result KeyPairError Unit
  cached_is_valid p s = after_is_valid s (cache.is_valid p s.0) (backend.is_valid p s.1)

  abbrev pub cached_storage : KeyPairStorage
  cached_storage = record {
    State = Both;
    add_key = cached_add_key;
    delete_key = cached_delete_key;
    get_key_from_id = cached_get_key_from_id;
    get_key_from_public = cached_get_key_from_public;
    is_valid = cached_is_valid;
  }
