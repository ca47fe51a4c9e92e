-- ===== src/Kontrol/Kites/Filtered.antt =====
-- kontrol/kites.go: the kites that `Filter` leaves.
use mathlib.Core.Path.{subst}
use kite.Common.{
  sym, nat_beq_iff, Bool-cases, nat_eq, Text, text_eq, has_prefix, has_prefix-append, ◌≡◌, refl,
  inl, inr, true, List, [], ◌∷◌, ◌++◌, arith,
}
use kite.Protocol.{KontrolQuery, KiteWithToken}
use kite.Kontrol.Kites.{Versions, is_valid, filter, after_version, key_rest_of}

-- A list is what is left of another without the elements that lack a property, in their order.
pub data Chosen {A : Type 0} (P : A → Type 0) : List A → List A → Type 0 where
  ends : Chosen P [] []
  keeps : {a : A} {as_ bs : List A} → P a → Chosen P as_ bs → Chosen P (a ∷ as_) (a ∷ bs)
  drops : {a : A} {as_ bs : List A} → ¬ P a → Chosen P as_ bs → Chosen P (a ∷ as_) bs

has_prefix-rest : (s t : Text) → has_prefix s t ≡ true → (rest : Text) × (s ≡ t ++ rest)
has_prefix-rest s [] h = (s, refl)
has_prefix-rest [] (d ∷ t) h = cc
has_prefix-rest (c ∷ s) (d ∷ t) h =
    let (rest, e) = has_prefix-rest s t (ground arith) in
    let same : c ≡ d = ground (arith, nat_beq_iff c d) in (rest, cc)

module _ (versions : Versions) where
  open versions use {Constraint, new_version, check}

  -- The version of a kite satisfies the constraint, and the key of what comes after its version
  -- begins with the rest of the query's key.
  pub record Fits (c : Constraint) (q : KontrolQuery) (k : KiteWithToken) : Type 0 where
    pub satisfies : check c (new_version k.kite.version) ≡ true
    pub rest : Text
    pub begins : after_version k.kite.region k.kite.hostname k.kite.id ≡ key_rest_of q ++ rest

  Fits-is_valid :
      (c : Constraint) (q : KontrolQuery) (k : KiteWithToken)
      → is_valid versions k.kite c (key_rest_of q) ≡ true
      → Fits c q k
  unfolding is_valid
  Fits-is_valid c q k h =
      let satisfied : check c (new_version k.kite.version) ≡ true = ground arith in
      let (rest, e) =
        has_prefix-rest (after_version k.kite.region k.kite.hostname k.kite.id) (key_rest_of q)
          (ground (arith, satisfied)) in
      record { satisfies = satisfied; rest = rest; begins = e }

  is_valid-Fits :
      (c : Constraint) (q : KontrolQuery) (k : KiteWithToken)
      → Fits c q k
      → is_valid versions k.kite c (key_rest_of q) ≡ true
  unfolding is_valid
  is_valid-Fits c q k f = rw f.satisfies (
      subst (λ s. has_prefix s (key_rest_of q) ≡ true) (sym f.begins)
        (has_prefix-append (key_rest_of q) f.rest))

  -- The filter leaves exactly the kites that fit.
  pub Chosen-filter :
      (c : Constraint) (q : KontrolQuery) (ks : List KiteWithToken)
      → Chosen (Fits c q) ks (filter versions c (key_rest_of q) ks)
  unfolding filter
  Chosen-filter c q [] = ends
  Chosen-filter c q (k ∷ ks) = elim (Bool-cases (is_valid versions k.kite c (key_rest_of q))) [
    | inl e ↦ rw e (keeps (Fits-is_valid c q k e) (Chosen-filter c q ks))
    | inr e ↦ rw e (drops (λ f. let g = is_valid-Fits c q k f in cc) (Chosen-filter c q ks))
  ]
