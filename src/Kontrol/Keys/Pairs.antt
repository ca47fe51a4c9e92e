-- ===== src/Kontrol/Keys/Pairs.antt =====
-- The three lists of Kontrol's keys as one list of key pairs.
pub mod Deleted
use mathlib.Core.Path.{subst}
use kite.Common.{
  length, none, some, inl, inr, ok, err, Bool-cases, is_empty, Option, Result, if◌then◌else◌, ◌==◌,
  nat_eq, Text, text_eq, trim_space, ℕ, zero, suc, ◌≡◌, refl, ap, List, [], ◌∷◌, ◌++◌, arith, sym,
  false, true, Bool, ◌&&◌, ltb, leb, nat_beq, nat_beq_iff, Option-cases, Result-cases, Eq, ==_iff,
  ==_refl, codes, text_beq, text_beq_iff, contains_byte, has_prefix, has_prefix-append,
  contains_text, count_byte, cut_at, split_n, split, part, cut_at_here, cut_at-append, cut_at-none,
  split_n-append, split-append, split_whole, count_byte-append, count_byte_zero, count_byte_none,
  count_byte_here, ◌>>=◌, ◌>>◌, ◌+◌, ◌-◌, ◌*◌, ◌/◌, ◌%◌, ◌^◌, ◌≤◌, ◌<◌, ◌∙◌, ◌≢◌, ◌↔◌, ◌⊎◌, ◌||◌,
  not, map, append_assoc, append-nil,
}
use kite.Kontrol.KeyPair.{validate, KeyPairError, KeyPair, KeyPairStorage}
use kite.Kontrol.Keys.{
  next_index, delete_in, is_key_deleted, public_key_not_found, storage_error, remove_index,
  after_lookup, add_with_uuid, delete_key_pair, after_delete, KeysError, after_validate,
  add_with_id, add_key_pair, index_of, remove_at, Keys,
}

abbrev pub zip_pairs : List Text → List Text → List Text → List KeyPair
zip_pairs (i ∷ is) (p ∷ ps) (s ∷ ss) =
    (let kp : KeyPair = record { id = i; public = p; private = s } in kp) ∷ zip_pairs is ps ss
zip_pairs _ _ _ = []

zip_pairs-append :
    (is ps ss : List Text) (kp : KeyPair)
    → length is ≡ length ps
    → length ss ≡ length ps
    → zip_pairs (is ++ kp.id ∷ []) (ps ++ kp.public ∷ []) (ss ++ kp.private ∷ [])
      ≡ zip_pairs is ps ss ++ kp ∷ []
zip_pairs-append [] [] [] kp h g = refl
zip_pairs-append [] [] (s ∷ ss) kp h g = absurd (omega arith)
zip_pairs-append [] (p ∷ ps) ss kp h g = absurd (omega arith)
zip_pairs-append (i ∷ is) [] ss kp h g = absurd (omega arith)
zip_pairs-append (i ∷ is) (p ∷ ps) [] kp h g = absurd (omega arith)
zip_pairs-append (i ∷ is) (p ∷ ps) (s ∷ ss) kp h g =
    rw (zip_pairs-append is ps ss kp (omega arith) (omega arith)) refl

length-append_one : (xs : List Text) (x : Text) → length (xs ++ x ∷ []) ≡ suc (length xs)
length-append_one [] x = refl
length-append_one (y ∷ xs) x = ap suc (length-append_one xs x)

module _ (st : KeyPairStorage) (fresh : st.State) where
  abbrev pub pairs : Keys st fresh → List KeyPair
  pairs k = zip_pairs k.last_ids k.last_public k.last_private

  -- The three lists are of one length, so that an index of one is an index of all.
  pub record IsAligned (k : Keys st fresh) : Type 0 where
    pub ids : length k.last_ids ≡ length k.last_public
    pub privates : length k.last_private ≡ length k.last_public

  abbrev pub trimmed : Text → Text → Text → KeyPair
  trimmed id public private = record {
    id = id;
    public = trim_space public;
    private = trim_space private;
  }

  after_validate_frame :
      (kp : KeyPair) (k : Keys st fresh) (s : st.State) (r : Result KeyPairError Unit)
      → let t = (after_validate st fresh kp k s r).0 in
        (t.last_ids ≡ k.last_ids)
        × (t.last_public ≡ k.last_public)
        × (t.last_private ≡ k.last_private)
  after_validate_frame kp k s (ok _) = (refl, refl, refl)
  after_validate_frame kp k s (err e) = (refl, refl, refl)

  -- One more pair stands at the end of the lists.
  abbrev Appended : Keys st fresh → KeyPair → Keys st fresh → Type 0
  Appended k kp t =
      (t.last_ids ≡ k.last_ids ++ kp.id ∷ [])
      × (t.last_public ≡ k.last_public ++ kp.public ∷ [])
      × (t.last_private ≡ k.last_private ++ kp.private ∷ [])

  Appended-add_with_id :
      (id public private : Text) (k : Keys st fresh)
      → Appended k (trimmed id public private) (add_with_id st fresh id public private k).0
  unfolding add_with_id
  Appended-add_with_id id public private k =
      after_validate_frame _ _ _ (validate (trimmed id public private))

  Appended-pairs :
      (k t : Keys st fresh) (kp : KeyPair)
      → IsAligned k
      → Appended k kp t
      → IsAligned t × (pairs t ≡ pairs k ++ kp ∷ [])
  Appended-pairs k t kp a (hi, hp, hs) = (
    record {
      ids =
          rw (hi, hp)
            (omega (
              arith,
              a,
              length-append_one k.last_ids kp.id,
              length-append_one k.last_public kp.public,
            ));
      privates =
          rw (hs, hp)
            (omega (
              arith,
              a,
              length-append_one k.last_private kp.private,
              length-append_one k.last_public kp.public,
            ));
    },
    rw (hi, hp, hs) (zip_pairs-append k.last_ids k.last_public k.last_private kp a.ids a.privates),
  )

  abbrev pub appended_to : List KeyPair → Text → Text → Option Text → List KeyPair
  appended_to ks public private none = ks
  appended_to ks public private (some i) = ks ++ trimmed i public private ∷ []

  pairs-add_with_uuid :
      (uuid : Option Text) (public private : Text) (k : Keys st fresh)
      → IsAligned k
      → let t = (add_with_uuid st fresh uuid public private k).0 in
        IsAligned t × (pairs t ≡ appended_to (pairs k) public private uuid)
  pairs-add_with_uuid none public private k a =
      (record { ids = a.ids; privates = a.privates }, refl)
  pairs-add_with_uuid (some i) public private k a =
      Appended-pairs k (add_with_id st fresh i public private k).0 (trimmed i public private) a
        (Appended-add_with_id i public private k)

  -- `AddKeyPair` keeps the three lists aligned and puts the pair, under the given id or else the
  -- fresh one, at their end, whether or not the pair is then refused; with neither id the lists stay.
  pub pairs-add_key_pair :
      (uuid : Option Text) (id public private : Text) (k : Keys st fresh)
      → IsAligned k
      → let t = (add_key_pair st fresh uuid id public private k).0 in
        IsAligned t
        × (pairs t ≡ appended_to (pairs k) public private (if is_empty id then uuid else some id))
  unfolding add_key_pair
  pairs-add_key_pair uuid id public private k a = elim (Bool-cases (is_empty id)) [
    | inl e ↦ rw e (pairs-add_with_uuid uuid public private k a)
    | inr e ↦ rw e (
        Appended-pairs k (add_with_id st fresh id public private k).0 (trimmed id public private) a
          (Appended-add_with_id id public private k))
  ]
