-- ===== src/Kontrol/Kites/Shuffled.antt =====
-- kontrol/kites.go: where `Shuffle` puts the kites.
use kite.Common.{
  length, nat_eq, text_eq, ℕ, zero, suc, ◌<◌, ◌≡◌, refl, sym, ap, ◌∙◌, ◌≢◌, Option, some, List, [],
  ◌∷◌, arith,
}
use mathlib.Core.Path.{subst}
use kite.Protocol.{KiteWithToken}
use kite.Kontrol.Kites.{put_at, nils, put_all, shuffle}

-- The slice has a value at a place.
abbrev pub IsAt : {A : Type 0} → A → ℕ → List (Option A) → Type 0
IsAt a v [] = ⊥
IsAt a zero (s ∷ slots) = s ≡ some a
IsAt a (suc v) (s ∷ slots) = IsAt a v slots

-- The slice has each value of a list at the place that stands for it in the list of places.
abbrev pub IsPlaced : {A : Type 0} → List ℕ → List A → List (Option A) → Type 0
IsPlaced [] [] slots = Unit
IsPlaced [] (a ∷ as_) slots = ⊥
IsPlaced (v ∷ vs) [] slots = ⊥
IsPlaced (v ∷ vs) (a ∷ as_) slots = IsAt a v slots × IsPlaced vs as_ slots

abbrev pub AllBelow : ℕ → List ℕ → Type 0
AllBelow n [] = Unit
AllBelow n (v ∷ vs) = (v < n) × AllBelow n vs

abbrev pub IsFresh : ℕ → List ℕ → Type 0
IsFresh v [] = Unit
IsFresh v (w ∷ ws) = (v ≢ w) × IsFresh v ws

abbrev pub IsDistinct : List ℕ → Type 0
IsDistinct [] = Unit
IsDistinct (v ∷ vs) = IsFresh v vs × IsDistinct vs

-- A permutation of the numbers below one, as rand.Perm gives it.
abbrev pub IsPermutation : ℕ → List ℕ → Type 0
IsPermutation n vs = (length vs ≡ n) × AllBelow n vs × IsDistinct vs

length-put_at :
    {A : Type 0} (v : ℕ) (a : A) (slots : List (Option A))
    → length (put_at v a slots) ≡ length slots
unfolding put_at
length-put_at v a [] = refl
length-put_at zero a (s ∷ slots) = refl
length-put_at (suc v) a (s ∷ slots) = ap suc (length-put_at v a slots)

length-put_all :
    {A : Type 0} (vs : List ℕ) (ks : List A) (slots : List (Option A))
    → length (put_all vs ks slots) ≡ length slots
unfolding put_all
length-put_all [] ks slots = refl
length-put_all (v ∷ vs) [] slots = refl
length-put_all (v ∷ vs) (k ∷ ks) slots =
    length-put_all vs ks (put_at v k slots) ∙ length-put_at v k slots

length-nils : {A : Type 0} (ks : List A) → length (nils ks) ≡ length ks
length-nils [] = refl
length-nils (k ∷ ks) = ap suc (length-nils ks)

IsAt-put_at :
    {A : Type 0} (v : ℕ) (a : A) (slots : List (Option A))
    → v < length slots
    → IsAt a v (put_at v a slots)
unfolding put_at
IsAt-put_at v a [] h = omega arith
IsAt-put_at zero a (s ∷ slots) h = refl
IsAt-put_at (suc v) a (s ∷ slots) h = IsAt-put_at v a slots (omega arith)

IsAt-put_at_other :
    {A : Type 0} (v w : ℕ) (a b : A) (slots : List (Option A))
    → v ≢ w
    → IsAt a v slots
    → IsAt a v (put_at w b slots)
unfolding put_at
IsAt-put_at_other v w a b [] apart h = h
IsAt-put_at_other zero zero a b (s ∷ slots) apart h = absurd (apart refl)
IsAt-put_at_other zero (suc w) a b (s ∷ slots) apart h = h
IsAt-put_at_other (suc v) zero a b (s ∷ slots) apart h = h
IsAt-put_at_other (suc v) (suc w) a b (s ∷ slots) apart h =
    IsAt-put_at_other v w a b slots (λ e. apart (ap suc e)) h

IsAt-put_all :
    {A : Type 0} (v : ℕ) (a : A) (vs : List ℕ) (ks : List A) (slots : List (Option A))
    → IsFresh v vs
    → IsAt a v slots
    → IsAt a v (put_all vs ks slots)
unfolding put_all
IsAt-put_all v a [] ks slots fresh h = h
IsAt-put_all v a (w ∷ ws) [] slots fresh h = h
IsAt-put_all v a (w ∷ ws) (k ∷ ks) slots fresh h =
    IsAt-put_all v a ws ks (put_at w k slots) fresh.1 (IsAt-put_at_other v w a k slots fresh.0 h)

IsPlaced-put_all :
    {A : Type 0} (vs : List ℕ) (ks : List A) (slots : List (Option A))
    → length vs ≡ length ks
    → AllBelow (length slots) vs
    → IsDistinct vs
    → IsPlaced vs ks (put_all vs ks slots)
unfolding put_all
IsPlaced-put_all [] [] slots e below apart = tt
IsPlaced-put_all [] (k ∷ ks) slots e below apart = absurd (omega arith)
IsPlaced-put_all (v ∷ vs) [] slots e below apart = absurd (omega arith)
IsPlaced-put_all (v ∷ vs) (k ∷ ks) slots e below apart = (
  IsAt-put_all v k vs ks (put_at v k slots) apart.0 (IsAt-put_at v k slots below.0),
  IsPlaced-put_all vs ks (put_at v k slots) (omega arith)
      (subst (λ n. AllBelow n vs) (sym (length-put_at v k slots)) below.1) apart.1,
)

-- The shuffled slice has as many pointers as there are kites, and each kite at its place.
pub IsPlaced-shuffle :
    (perm : ℕ → List ℕ) (ks : List KiteWithToken)
    → IsPermutation (length ks) (perm (length ks))
    → IsPlaced (perm (length ks)) ks (shuffle perm ks) × (length (shuffle perm ks) ≡ length ks)
unfolding shuffle
IsPlaced-shuffle perm ks h = (
  IsPlaced-put_all (perm (length ks)) ks (nils ks) h.0
      (subst (λ n. AllBelow n (perm (length ks))) (sym (length-nils ks)) h.1) h.2,
  length-put_all (perm (length ks)) ks (nils ks) ∙ length-nils ks,
)
