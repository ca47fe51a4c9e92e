-- ===== src/Kontrol/KeyPair/Cached.antt =====
-- `CachedStorage` over a cache in memory and any backend.
use kite.Common.{
  Result-cases, nat_eq, Text, text_beq_iff, text_eq, is_empty, Result, ok, err, ◌≡◌, refl, sym, ◌∙◌,
  inl, inr, false, arith,
}
use kite.Kontrol.KeyPair.{
  in_cache, after_fill, then_cache, after_backend, KeyPair, KeyPairError, KeyPairStorage, validate,
  Cache, MemState, mem_storage, mem_add_key, mem_delete_key, mem_get_key_from_id, mem_is_valid,
  Both, cached_get_key_from_id, cached_delete_key, cached_is_valid,
}
use kite.Kontrol.KeyPair.Memory.{mem_get-mem_add_key, mem_delete_key-keeps_public}

module _ (c : Cache) (backend : KeyPairStorage) where
  abbrev pub Pair : Type 0
  Pair = Both (mem_storage c) backend

  -- What the cache finds by id the backend would find too, and what the backend finds is valid.
  pub record IsCoherent (s : Pair) : Type 0 where
    pub hit_by_id :
        (i : Text) (k : KeyPair)
        → mem_get_key_from_id c i s.0 ≡ ok k
        → (backend.get_key_from_id i s.1).1 ≡ ok k
    pub valid_by_id :
        (i : Text) (k : KeyPair) → (backend.get_key_from_id i s.1).1 ≡ ok k → validate k ≡ ok tt

  fill_value :
      (k : KeyPair) (b : backend.State) (x : MemState c × Result KeyPairError Unit)
      → x.1 ≡ ok tt
      → (after_fill (mem_storage c) backend k b x).1 ≡ ok k
  fill_value k b (m, ok _) h = refl
  fill_value k b (m, err e) h = cc

  backend_value :
      (m : MemState c) (r : backend.State × Result KeyPairError KeyPair)
      → ((k : KeyPair) → r.1 ≡ ok k → validate k ≡ ok tt)
      → (after_backend (mem_storage c) backend m r).1 ≡ r.1
  backend_value m (b, err e) h = refl
  backend_value m (b, ok k) h =
      fill_value k b (mem_add_key c k m) (mem_get-mem_add_key c k m k.id (h k refl)).0

  fill_keeps :
      (k : KeyPair) (b : backend.State) (x : MemState c × Result KeyPairError Unit)
      → (after_fill (mem_storage c) backend k b x).0.0 ≡ x.0
  fill_keeps k b (m, ok _) = refl
  fill_keeps k b (m, err e) = refl

  backend_fills :
      (i : Text) (m : MemState c) (r : backend.State × Result KeyPairError KeyPair) (k : KeyPair)
      → r.1 ≡ ok k
      → validate k ≡ ok tt
      → k.id ≡ i
      → mem_get_key_from_id c i (after_backend (mem_storage c) backend m r).0.0 ≡ ok k
  backend_fills i m (b, err e) k h v same_id = cc
  backend_fills i m (b, ok k') k h v same_id =
      let (_, stored, _) = mem_get-mem_add_key c k m i v in
      let same : k' ≡ k = cc in
      rw (same, fill_keeps k b (mem_add_key c k m)) (stored ∙ ground (arith, text_beq_iff k.id i))

  get_miss :
      (i : Text) (s : Pair) (e : KeyPairError)
      → mem_get_key_from_id c i s.0 ≡ err e
      → cached_get_key_from_id (mem_storage c) backend i s
        ≡ after_backend (mem_storage c) backend s.0 (backend.get_key_from_id i s.1)
  unfolding cached_get_key_from_id
  get_miss i s e h = rw h refl

  get_hit :
      (i : Text) (s : Pair) (k : KeyPair)
      → mem_get_key_from_id c i s.0 ≡ ok k
      → cached_get_key_from_id (mem_storage c) backend i s ≡ (s, ok k)
  unfolding cached_get_key_from_id
  get_hit i s k h = rw h refl

  -- From a coherent state a lookup by id through the cache has the backend's answer, be it a key
  -- pair or an error.
  pub cached_get_key_from_id-eq-backend :
      (i : Text) (s : Pair)
      → IsCoherent s
      → (cached_get_key_from_id (mem_storage c) backend i s).1 ≡ (backend.get_key_from_id i s.1).1
  cached_get_key_from_id-eq-backend i s h = elim (Result-cases (mem_get_key_from_id c i s.0)) [
    | inl (k, e) ↦ rw (get_hit i s k e) (sym (h.hit_by_id i k e))
    | inr (x, e) ↦
        rw (get_miss i s x e) (backend_value s.0 (backend.get_key_from_id i s.1) (h.valid_by_id i))
  ]

  -- If the backend's pair has the id that was asked for, the cache answers the next lookup.
  pub cached_get_key_from_id_again :
      (i : Text) (s : Pair) (k : KeyPair)
      → IsCoherent s
      → (backend.get_key_from_id i s.1).1 ≡ ok k
      → k.id ≡ i
      → mem_get_key_from_id c i (cached_get_key_from_id (mem_storage c) backend i s).0.0 ≡ ok k
  cached_get_key_from_id_again i s k h found same =
      elim (Result-cases (mem_get_key_from_id c i s.0)) [
        | inl (k', e) ↦ rw (get_hit i s k' e) (e ∙ sym (h.hit_by_id i k' e) ∙ found)
        | inr (x, e) ↦ rw (get_miss i s x e) (
            backend_fills i s.0 (backend.get_key_from_id i s.1) k found (h.valid_by_id i k found)
              same)
      ]

  still_valid :
      (k : KeyPair) (s : Pair) (p : Text) (r : backend.State × Result KeyPairError Unit)
      → is_empty k.public ≡ false
      → mem_is_valid c p
          (then_cache
            (mem_storage c)
            backend
            r
            (λ b. in_cache (mem_storage c) backend b (mem_delete_key c k s.0))
            s).0.0
        ≡ mem_is_valid c p s.0
  still_valid k s p (b, err e) set = refl
  still_valid k s p (b, ok _) set = (mem_delete_key-keeps_public c k s.0 p set).3

  valid_hit :
      (p : Text) (s : Pair)
      → mem_is_valid c p s.0 ≡ ok tt
      → (cached_is_valid (mem_storage c) backend p s).1 ≡ ok tt
  unfolding cached_is_valid
  valid_hit p s h = rw h refl

  -- Whatever the backend does, `DeleteKey` of a pair with its public key leaves a public key that
  -- the cache holds valid.
  pub cached_is_valid-cached_delete_key :
      (k : KeyPair) (s : Pair) (p : Text)
      → is_empty k.public ≡ false
      → mem_is_valid c p s.0 ≡ ok tt
      → (cached_is_valid
          (mem_storage c)
          backend
          p
          (cached_delete_key (mem_storage c) backend k s).0).1
        ≡ ok tt
  unfolding cached_delete_key
  cached_is_valid-cached_delete_key k s p set h =
      valid_hit p (cached_delete_key (mem_storage c) backend k s).0
        (still_valid k s p (backend.delete_key k s.1) set ∙ h)
