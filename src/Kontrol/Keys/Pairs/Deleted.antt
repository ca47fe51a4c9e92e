-- ===== src/Kontrol/Keys/Pairs/Deleted.antt =====
-- What `DeleteKeyPair` of kontrol/kontrol.go takes from the lists of key pairs.
use mathlib.Core.Path.{subst}
use kite.Common.{
  length, if◌then◌else◌, Bool-cases, ◌==◌, nat_eq, Text, text_eq, is_empty, Result, ok, err, ℕ,
  zero, suc, ◌≡◌, refl, sym, inl, inr, Bool, true, false, ◌&&◌, Option, none, some, List, [], ◌∷◌,
  arith,
}
use kite.Kontrol.KeyPair.{KeyPairError, KeyPair, KeyPairStorage}
use kite.Kontrol.Keys.{
  next_index, delete_in, is_key_deleted, public_key_not_found, storage_error, remove_index,
  after_lookup, delete_key_pair, after_delete, KeysError, index_of, remove_at, Keys,
}
use kite.Kontrol.Keys.Pairs.{zip_pairs, IsAligned, pairs}

-- Whether a pair has the public key.
abbrev pub holds : Text → List KeyPair → Bool
holds p [] = false
holds p (k ∷ ks) = if k.public == p then true else holds p ks

-- The list without the first pair of a public key.
abbrev pub drop_first : Text → List KeyPair → List KeyPair
drop_first p [] = []
drop_first p (k ∷ ks) = if k.public == p then ks else k ∷ drop_first p ks

abbrev is_found : Option ℕ → Bool
is_found none = false
is_found (some i) = true

holds-zip_pairs :
    (is ps ss : List Text) (p : Text)
    → length is ≡ length ps
    → length ss ≡ length ps
    → holds p (zip_pairs is ps ss) ≡ is_found (index_of p ps)
unfolding index_of
holds-zip_pairs [] [] ss p h g = refl
holds-zip_pairs (j ∷ is) [] ss p h g = absurd (omega arith)
holds-zip_pairs [] (q ∷ ps) ss p h g = absurd (omega arith)
holds-zip_pairs (j ∷ is) (q ∷ ps) [] p h g = absurd (omega arith)
holds-zip_pairs (j ∷ is) (q ∷ ps) (s ∷ ss) p h g =
    let below = holds-zip_pairs is ps ss p (omega arith) (omega arith) in
    elim (Bool-cases (q == p)) [
      | inl e ↦ rw e refl
      | inr e ↦ rw (e, below) (sym (is_found-next_index (index_of p ps)))
    ]
  where
    is_found-next_index : (o : Option ℕ) → is_found (next_index o) ≡ is_found o
    is_found-next_index none = refl
    is_found-next_index (some i) = refl

zip_pairs-remove_at :
    (is ps ss : List Text) (p : Text) (i : ℕ)
    → length is ≡ length ps
    → length ss ≡ length ps
    → index_of p ps ≡ some i
    → zip_pairs (remove_at i is) (remove_at i ps) (remove_at i ss)
      ≡ drop_first p (zip_pairs is ps ss)
unfolding index_of remove_at
zip_pairs-remove_at is [] ss p i h g e = cc
zip_pairs-remove_at [] (q ∷ ps) ss p i h g e = absurd (omega arith)
zip_pairs-remove_at (j ∷ is) (q ∷ ps) [] p i h g e = absurd (omega arith)
zip_pairs-remove_at (j ∷ is) (q ∷ ps) (s ∷ ss) p zero h g e = ground arith
zip_pairs-remove_at (j ∷ is) (q ∷ ps) (s ∷ ss) p (suc i) h g e =
    ground (arith, zip_pairs-remove_at is ps ss p i)

length-remove_at :
    (i : ℕ) (xs ys : List Text)
    → length xs ≡ length ys
    → length (remove_at i xs) ≡ length (remove_at i ys)
unfolding remove_at
length-remove_at i [] [] h = refl
length-remove_at i [] (y ∷ ys) h = absurd (omega arith)
length-remove_at i (x ∷ xs) [] h = absurd (omega arith)
length-remove_at zero (x ∷ xs) (y ∷ ys) h = omega arith
length-remove_at (suc i) (x ∷ xs) (y ∷ ys) h = omega (arith, length-remove_at i xs ys)

module _ (st : KeyPairStorage) (fresh : st.State) where
  -- What `DeleteKeyPair` finds in the storage.
  abbrev pub looked_up : Text → Text → st.State → st.State × Result KeyPairError KeyPair
  looked_up id public s =
      if is_empty public then st.get_key_from_id id s else st.get_key_from_public public s

  -- The lists lose the first pair with a public key if there is one, and otherwise stay, with an
  -- error.
  abbrev pub Removed : Bool → List KeyPair → Text → Keys st fresh × Result KeysError Unit → Type 0
  Removed true ks p r =
      IsAligned st fresh r.0 × (r.1 ≡ ok tt) × (pairs st fresh r.0 ≡ drop_first p ks)
  Removed false ks p r =
      IsAligned st fresh r.0 × (r.1 ≡ err public_key_not_found) × (pairs st fresh r.0 ≡ ks)

  Removed-remove_index :
      (p : Text) (k : Keys st fresh) (o : Option ℕ)
      → index_of p k.last_public ≡ o
      → IsAligned st fresh k
      → Removed (is_found o) (pairs st fresh k) p (remove_index st fresh o k)
  Removed-remove_index p k none e a = (a, refl, refl)
  Removed-remove_index p k (some i) e a = (
    record {
      ids = length-remove_at i k.last_ids k.last_public a.ids;
      privates = length-remove_at i k.last_private k.last_public a.privates;
    },
    refl,
    zip_pairs-remove_at k.last_ids k.last_public k.last_private p i a.ids a.privates e,
  )

  Removed-holds :
      (p : Text) (k : Keys st fresh)
      → IsAligned st fresh k
      → Removed
          (holds p (pairs st fresh k))
          (pairs st fresh k)
          p
          (remove_index st fresh (index_of p k.last_public) k)
  Removed-holds p k a =
      subst
        (λ b. Removed b (pairs st fresh k) p (remove_index st fresh (index_of p k.last_public) k))
        (sym (holds-zip_pairs k.last_ids k.last_public k.last_private p a.ids a.privates))
        (Removed-remove_index p k (index_of p k.last_public) refl a)

  with_storage_IsAligned :
      (k : Keys st fresh) (s : st.State)
      → IsAligned st fresh k
      → IsAligned st fresh (record k { key_pair = some s })
  with_storage_IsAligned k s a = record { ids = a.ids; privates = a.privates }

  abbrev pub Refused :
      Bool → KeyPairError → List KeyPair → Text → Keys st fresh × Result KeysError Unit → Type 0
  Refused true e ks p r = Removed (holds p ks) ks p r
  Refused false e ks p r =
      IsAligned st fresh r.0 × (r.1 ≡ err (storage_error e)) × (pairs st fresh r.0 ≡ ks)

  -- What becomes of the lists by what the storage's `DeleteKey` gave: that the pair is deleted already
  -- is no failure.
  abbrev pub Deleted :
      Result KeyPairError Unit
      → List KeyPair
      → Text
      → Keys st fresh × Result KeysError Unit
      → Type 0
  Deleted (ok _) ks p r = Removed (holds p ks) ks p r
  Deleted (err e) ks p r = Refused (is_key_deleted e) e ks p r

  Deleted-after_delete :
      (pair : KeyPair) (k : Keys st fresh) (r : st.State × Result KeyPairError Unit)
      → IsAligned st fresh k
      → Deleted r.1 (pairs st fresh k) pair.public (after_delete st fresh pair k r)
  Deleted-after_delete pair k (s, ok _) a =
      Removed-holds pair.public (record k { key_pair = some s }) (with_storage_IsAligned k s a)
  Deleted-after_delete pair k (s, err e) a = elim (Bool-cases (is_key_deleted e)) [
    | inl d ↦
        rw d (
          Removed-holds pair.public (record k { key_pair = some s }) (with_storage_IsAligned k s a))
    | inr d ↦ rw d (with_storage_IsAligned k s a, refl, refl)
  ]

  -- What `DeleteKeyPair` asks the storage to delete: the private key is left out.
  abbrev pub without_private : KeyPair → KeyPair
  without_private pair = record { id = pair.id; public = pair.public; private = [] }

  -- The result of `DeleteKeyPair` by what it looked up.
  abbrev pub Outcome :
      Keys st fresh
      → st.State × Result KeyPairError KeyPair
      → Keys st fresh × Result KeysError Unit
      → Type 0
  Outcome k (s, ok pair) r =
      Deleted (st.delete_key (without_private pair) s).1 (pairs st fresh k) pair.public r
  Outcome k (s, err e) r =
      IsAligned st fresh r.0
      × (r.1 ≡ err (storage_error e))
      × (pairs st fresh r.0 ≡ pairs st fresh k)

  Outcome-after_lookup :
      (k : Keys st fresh) (r : st.State × Result KeyPairError KeyPair)
      → IsAligned st fresh k
      → Outcome k r (after_lookup st fresh k r)
  Outcome-after_lookup k (s, err e) a = (with_storage_IsAligned k s a, refl, refl)
  Outcome-after_lookup k (s, ok pair) a =
      Deleted-after_delete pair k (st.delete_key (without_private pair) s) a

  Outcome-delete_in :
      (id public : Text) (k : Keys st fresh) (s : st.State)
      → IsAligned st fresh k
      → (is_empty id && is_empty public) ≡ false
      → Outcome k (looked_up id public s) (delete_in st fresh id public k (some s))
  Outcome-delete_in id public k s a given = elim (Bool-cases (is_empty public)) [
    | inl e ↦ rw (given, e) (Outcome-after_lookup k (st.get_key_from_id id s) a)
    | inr e ↦ rw (given, e) (Outcome-after_lookup k (st.get_key_from_public public s) a)
  ]

  -- `DeleteKeyPair`, given an id or a public key and a storage, keeps the three lists aligned. If
  -- the storage finds no pair, or fails to delete the pair it found other than since that is deleted
  -- already, it reports that and the lists stay. Otherwise it succeeds and the lists lose the first
  -- pair with the public key that was found, or, exactly if they have no such pair, it reports that
  -- and they stay.
  pub pairs-delete_key_pair :
      (id public : Text) (k : Keys st fresh) (s : st.State)
      → IsAligned st fresh k
      → k.key_pair ≡ some s
      → (is_empty id && is_empty public) ≡ false
      → Outcome k (looked_up id public s) (delete_key_pair st fresh id public k)
  unfolding delete_key_pair
  pairs-delete_key_pair id public k s a e given =
      subst (λ o. Outcome k (looked_up id public s) (delete_in st fresh id public k o)) (sym e)
        (Outcome-delete_in id public k s a given)
