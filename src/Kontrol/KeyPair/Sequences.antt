-- ===== src/Kontrol/KeyPair/Sequences.antt =====
-- `CachedStorage` before a storage in memory, against that storage alone.
use mathlib.Core.Path.{subst}
use kite.Common.{
  Option-cases, Result-cases, nat_eq, Text, text_beq_iff, text_eq, is_empty, Result, ok, ◌≡◌, refl,
  ap, ◌∙◌, inl, inr, false, some, List, [], ◌∷◌, arith,
}
use kite.Kontrol.KeyPair.{
  KeyPair, KeyPairError, KeyPairStorage, validate, Cache, MemState, mem_storage, mem_add_key,
  mem_delete_key, mem_get_key_from_id, Both, cached_add_key, cached_get_key_from_id,
  cached_delete_key, cached_storage,
}

-- What a client of a storage does. `DeleteKeyPair` names the public key of a pair that it deletes.
pub data Op : Type 0 where
  adds : KeyPair → Op
  deletes : (k : KeyPair) → is_empty k.public ≡ false → Op
  gets : Text → Op

pub data Answer : Type 0 where
  did : Result KeyPairError Unit → Answer
  got : Result KeyPairError KeyPair → Answer

module _ (st : KeyPairStorage) where
  abbrev pub apply : Op → st.State → st.State × Answer
  apply (adds k) s = let (t, r) = st.add_key k s in (t, did r)
  apply (deletes k h) s = let (t, r) = st.delete_key k s in (t, did r)
  apply (gets i) s = let (t, r) = st.get_key_from_id i s in (t, got r)

  abbrev pub answers : List Op → st.State → List Answer
  answers [] s = []
  answers (o ∷ os) s = let (t, a) = apply o s in a ∷ answers os t

module _ (c : Cache) where
  open c use {get, set, delete, get-set, get-delete}

  -- The cache has by id only what the backend has, and the backend has valid pairs under their ids.
  pub record IsFilled (m b : MemState c) : Type 0 where
    pub hits : (i : Text) (k : KeyPair) → get i m.id ≡ some k → get i b.id ≡ some k
    pub own : (i : Text) (k : KeyPair) → get i b.id ≡ some k → k.id ≡ i
    pub are_valid : (i : Text) (k : KeyPair) → get i b.id ≡ some k → validate k ≡ ok tt

  abbrev put : KeyPair → MemState c → MemState c
  put k m = record { id = set k.id k m.id; public = set k.public k m.public }

  abbrev dropped : KeyPair → MemState c → MemState c
  dropped k m = record m { id = delete k.id m.id }

  IsFilled-put :
      (k : KeyPair) (m b : MemState c)
      → validate k ≡ ok tt
      → IsFilled m b
      → IsFilled (put k m) (put k b)
  IsFilled-put k m b v f = record {
    hits = λ i j h.
        let g = f.hits i j in ground (arith, get-set k.id i k m.id, get-set k.id i k b.id, g);
    own =
        λ i j h. let g = f.own i j in ground (arith, get-set k.id i k b.id, text_beq_iff k.id i, g);
    are_valid = λ i j h. let g = f.are_valid i j in ground (arith, get-set k.id i k b.id, v, g);
  }

  IsFilled-fill :
      (i : Text) (k : KeyPair) (m b : MemState c)
      → get i b.id ≡ some k
      → IsFilled m b
      → IsFilled (put k m) b
  IsFilled-fill i k m b there f = record {
    hits = λ j l h.
        let g = f.hits j l in
        let own = f.own i k there in
        ground (arith, get-set k.id j k m.id, text_beq_iff k.id j, there, own, g);
    own = f.own;
    are_valid = f.are_valid;
  }

  IsFilled-dropped :
      (k : KeyPair) (m b : MemState c) → IsFilled m b → IsFilled (dropped k m) (dropped k b)
  IsFilled-dropped k m b f = record {
    hits = λ i j h.
        let g = f.hits i j in ground (arith, get-delete k.id i m.id, get-delete k.id i b.id, g);
    own = λ i j h. let g = f.own i j in ground (arith, get-delete k.id i b.id, g);
    are_valid = λ i j h. let g = f.are_valid i j in ground (arith, get-delete k.id i b.id, g);
  }

  abbrev cached : KeyPairStorage
  cached = cached_storage (mem_storage c) (mem_storage c)

  -- The answer and the backend are those of the storage alone, and the cache stays filled from it.
  abbrev Agrees : Both (mem_storage c) (mem_storage c) × Answer → MemState c × Answer → Type 0
  Agrees ((m, b), a) (b', a') = (a ≡ a') × (b ≡ b') × IsFilled m b

  Agrees-adds :
      (k : KeyPair) (m b : MemState c)
      → IsFilled m b
      → Agrees (apply cached (adds k) (m, b)) (apply (mem_storage c) (adds k) b)
  unfolding cached_add_key mem_add_key
  Agrees-adds k m b f = elim (Result-cases (validate k)) [
    | inl (tt, e) ↦ rw e (refl, refl, IsFilled-put k m b e f)
    | inr (x, e) ↦ rw e (refl, refl, f)
  ]

  Agrees-deletes :
      (k : KeyPair) (h : is_empty k.public ≡ false) (m b : MemState c)
      → IsFilled m b
      → Agrees (apply cached (deletes k h) (m, b)) (apply (mem_storage c) (deletes k h) b)
  unfolding cached_delete_key mem_delete_key
  Agrees-deletes k h m b f = rw h (refl, refl, IsFilled-dropped k m b f)

  Agrees-gets :
      (i : Text) (m b : MemState c)
      → IsFilled m b
      → Agrees (apply cached (gets i) (m, b)) (apply (mem_storage c) (gets i) b)
  unfolding cached_get_key_from_id mem_get_key_from_id mem_add_key
  Agrees-gets i m b f = elim (Option-cases (get i m.id)) [
    | inl e ↦ elim (Option-cases (get i b.id)) [
      | inl z ↦ rw (e, z) (refl, refl, f)
      | inr (k, z) ↦ rw (e, z, f.are_valid i k z) (refl, refl, IsFilled-fill i k m b z f)
    ]
    | inr (k, e) ↦ rw (e, f.hits i k e) (refl, refl, f)
  ]

  Agrees-apply :
      (o : Op) (m b : MemState c)
      → IsFilled m b
      → Agrees (apply cached o (m, b)) (apply (mem_storage c) o b)
  Agrees-apply (adds k) m b f = Agrees-adds k m b f
  Agrees-apply (deletes k h) m b f = Agrees-deletes k h m b f
  Agrees-apply (gets i) m b f = Agrees-gets i m b f

  -- Whatever pairs are added, deleted with their public keys and looked up by id in whatever order,
  -- `CachedStorage` before a storage in memory gives the answers of the storage in memory alone, if
  -- the cache has by id nothing but what the backend has, which holds valid pairs under their ids.
  pub answers-cached_storage :
      (os : List Op) (m b : MemState c)
      → IsFilled m b
      → answers (cached_storage (mem_storage c) (mem_storage c)) os (m, b)
        ≡ answers (mem_storage c) os b
  answers-cached_storage [] m b f = refl
  answers-cached_storage (o ∷ os) m b f =
      let r = apply cached o (m, b) in
      let (same, kept, filled) = Agrees-apply o m b f in
      let rest = answers-cached_storage os r.0.0 r.0.1 filled in
      subst
        (λ x.
          (r.1 ∷ answers cached os r.0)
          ≡ ((apply (mem_storage c) o b).1 ∷ answers (mem_storage c) os x))
        kept
        (ap (λ a. a ∷ answers cached os r.0) same
          ∙ ap (λ l. (apply (mem_storage c) o b).1 ∷ l) rest)
