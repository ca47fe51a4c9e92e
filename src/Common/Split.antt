-- ===== src/Common/Split.antt =====
-- Package strings on separators: Contains, Count, Split and SplitN, with what the program's key
-- formats need of them.
use Prim.Native.Nat.{ℕ, zero, suc, ◌+◌}
use mathlib.Core.Path.{◌≡◌, refl}
use mathlib.Core.Bool.{Bool, false, ◌||◌}
use mathlib.Core.Option.{Option, none, some}
use mathlib.Core.List.{List, [], ◌∷◌, ◌++◌}
use native.Mathlib.Omega.{arith}
use kite.Common.Tests.{nat_beq, if◌then◌else◌}
use kite.Common.Texts.{Text, contains_byte, has_prefix}

-- strings.Contains
unfoldable pub contains_text : Text → Text → Bool
contains_text [] t = has_prefix [] t
contains_text (c ∷ s) t = has_prefix (c ∷ s) t || contains_text s t

-- strings.Count of one character.
unfoldable pub count_byte : ℕ → Text → ℕ
count_byte b [] = 0
count_byte b (c ∷ s) = let rest = count_byte b s in if nat_beq c b then suc rest else rest

abbrev with_first : ℕ → Option (Text × Text) → Option (Text × Text)
with_first c none = none
with_first c (some (p, q)) = some (c ∷ p, q)

-- What stands before and behind the first `b`.
unfoldable pub cut_at : ℕ → Text → Option (Text × Text)
cut_at b [] = none
cut_at b (c ∷ s) =
    let rest = with_first c (cut_at b s) in if nat_beq c b then some ([], s) else rest

-- strings.SplitN(s, b, n + 1)
unfoldable pub split_n : ℕ → ℕ → Text → List Text
split_n b zero s = s ∷ []
split_n b (suc n) s = elim (cut_at b s) [ none ↦ s ∷ [] | some (p, q) ↦ p ∷ split_n b n q ]

abbrev onto_first : ℕ → List Text → List Text
onto_first c [] = (c ∷ []) ∷ []
onto_first c (p ∷ ps) = (c ∷ p) ∷ ps

-- strings.Split
unfoldable pub split : ℕ → Text → List Text
split b [] = [] ∷ []
split b (c ∷ s) = let rest = split b s in if nat_beq c b then [] ∷ rest else onto_first c rest

-- The part at an index of a slice of texts that is filled up with empty ones.
abbrev pub part : List Text → ℕ → Text
part [] i = []
part (p ∷ ps) zero = p
part (p ∷ ps) (suc i) = part ps i

module _ (b : ℕ) where
  pub cut_at_here : (s : Text) → cut_at b (b ∷ s) ≡ some ([], s)
  unfolding cut_at
  cut_at_here s = ground arith

  pub cut_at-append : (p s : Text) → contains_byte b p ≡ false → cut_at b (p ++ b ∷ s) ≡ some (p, s)
  unfolding cut_at
  cut_at-append [] s h = ground arith
  cut_at-append (c ∷ p) s h = ground (arith, cut_at-append p s)

  pub cut_at-none : (p : Text) → contains_byte b p ≡ false → cut_at b p ≡ none
  unfolding cut_at
  cut_at-none [] h = refl
  cut_at-none (c ∷ p) h = ground (arith, cut_at-none p)

  pub split_n-append :
      (n : ℕ) (p s : Text)
      → contains_byte b p ≡ false
      → split_n b (suc n) (p ++ b ∷ s) ≡ p ∷ split_n b n s
  unfolding split_n
  split_n-append n p s h = rw (cut_at-append p s h, split_n) refl

  pub split-append : (p s : Text) → contains_byte b p ≡ false → split b (p ++ b ∷ s) ≡ p ∷ split b s
  unfolding split
  split-append [] s h = ground arith
  split-append (c ∷ p) s h = ground (arith, split-append p s)

  pub split_whole : (p : Text) → contains_byte b p ≡ false → split b p ≡ p ∷ []
  unfolding split
  split_whole [] h = refl
  split_whole (c ∷ p) h = ground (arith, split_whole p)

  pub count_byte-append : (s t : Text) → count_byte b (s ++ t) ≡ count_byte b s + count_byte b t
  unfolding count_byte
  count_byte-append [] t = omega arith
  count_byte-append (c ∷ s) t = ground (arith, count_byte-append s t)

  pub count_byte_zero : (s : Text) → count_byte b s ≡ 0 → contains_byte b s ≡ false
  unfolding count_byte
  count_byte_zero [] h = refl
  count_byte_zero (c ∷ s) h = ground (arith, count_byte_zero s)

  pub count_byte_none : (s : Text) → contains_byte b s ≡ false → count_byte b s ≡ 0
  unfolding count_byte
  count_byte_none [] h = refl
  count_byte_none (c ∷ s) h = ground (arith, count_byte_none s)

  pub count_byte_here : (s : Text) → count_byte b (b ∷ s) ≡ suc (count_byte b s)
  unfolding count_byte
  count_byte_here s = ground arith
