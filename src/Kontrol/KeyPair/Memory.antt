-- ===== src/Kontrol/KeyPair/Memory.antt =====
-- The storage in memory: what is found after a key pair is added or deleted.
use kite.Common.{
  if◌then◌else◌, ◌==◌, nat_eq, Text, text_beq_iff, text_eq, is_empty, ok, err, ◌≡◌, refl, true,
  false, Option, none, some, arith,
}
use kite.Kontrol.KeyPair.{
  KeyPair, not_found, validate, Cache, found, MemState, mem_add_key, mem_delete_key,
  mem_get_key_from_id, mem_get_key_from_public, mem_is_valid,
}

pub public_set_of_validate : (k : KeyPair) → validate k ≡ ok tt → is_empty k.public ≡ false
unfolding validate
public_set_of_validate k h = ground arith

module _ (c : Cache) where
  open c use {Entries, get, set, delete, get-set, get-delete}

  -- A valid key pair that is added is found by its id and by its public key, and no other lookup
  -- changes.
  pub mem_get-mem_add_key :
      (k : KeyPair) (s : MemState c) (j : Text)
      → validate k ≡ ok tt
      → let t = (mem_add_key c k s).0 in
        ((mem_add_key c k s).1 ≡ ok tt)
        × (mem_get_key_from_id c j t ≡ (if k.id == j then ok k else mem_get_key_from_id c j s))
        × (mem_get_key_from_public c j t
            ≡ (if k.public == j then ok k else mem_get_key_from_public c j s))
  unfolding mem_add_key mem_get_key_from_id mem_get_key_from_public
  mem_get-mem_add_key k s j h =
      rw h
        (refl, ground (arith, get-set k.id j k s.id), ground (arith, get-set k.public j k s.public))

  -- `DeleteKey` of a key pair that carries its public key forgets the id alone: every lookup by a
  -- public key, and every `IsValid`, answers as before.
  pub mem_delete_key-keeps_public :
      (k : KeyPair) (s : MemState c) (j : Text)
      → is_empty k.public ≡ false
      → let t = (mem_delete_key c k s).0 in
        ((mem_delete_key c k s).1 ≡ ok tt)
        × (mem_get_key_from_id c j t
            ≡ (if k.id == j then err not_found else mem_get_key_from_id c j s))
        × (mem_get_key_from_public c j t ≡ mem_get_key_from_public c j s)
        × (mem_is_valid c j t ≡ mem_is_valid c j s)
  unfolding mem_delete_key mem_get_key_from_public mem_is_valid
  mem_delete_key-keeps_public k s j h =
      rw h (refl, ground (arith, get-delete k.id j s.id), refl, refl)

  -- Without a public key `DeleteKey` looks the pair up by its id and forgets both of its entries;
  -- with no such pair it reports that and changes nothing.
  pub mem_delete_key_by_id :
      (k : KeyPair) (s : MemState c) (j : Text)
      → is_empty k.public ≡ true
      → let t = (mem_delete_key c k s).0 in
        let stored = get k.id s.id in
        ((mem_delete_key c k s).1 ≡ elim stored [ none ↦ err not_found | some _ ↦ ok tt ])
        × (mem_get_key_from_id c j t
            ≡ (if k.id == j then err not_found else mem_get_key_from_id c j s))
        × (mem_get_key_from_public c j t ≡ elim stored [
          | none ↦ mem_get_key_from_public c j s
          | some p ↦ (if p.public == j then err not_found else mem_get_key_from_public c j s)
        ])
  unfolding mem_delete_key mem_get_key_from_public mem_get_key_from_id
  mem_delete_key_by_id k s j h = (
    ground arith,
    ground (arith, get-delete k.id j s.id, text_beq_iff k.id j),
    ground (arith, removed (get k.id s.id)),
  )
    where
      removed :
          (o : Option KeyPair)
          → elim o [
            | none ↦ found (get j s.public)
            | some p ↦ found (get j (delete p.public s.public))
          ]
            ≡ elim o [
              | none ↦ found (get j s.public)
              | some p ↦ (if p.public == j then err not_found else found (get j s.public))
            ]
      removed none = refl
      removed (some p) = ground (arith, get-delete p.public j s.public)

  -- A valid key pair that is added and then deleted, with its public key given, is still valid.
  pub mem_is_valid-mem_delete_key :
      (k : KeyPair) (s : MemState c)
      → validate k ≡ ok tt
      → mem_is_valid c k.public (mem_delete_key c k (mem_add_key c k s).0).0 ≡ ok tt
  unfolding mem_is_valid mem_delete_key mem_add_key
  mem_is_valid-mem_delete_key k s h = ground (
    arith,
    public_set_of_validate k h,
    get-set k.public k.public k s.public,
    text_beq_iff k.public k.public,
  )
