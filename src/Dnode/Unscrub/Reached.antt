-- ===== src/Dnode/Unscrub/Reached.antt =====
-- dnode/unscrub.go: which places a path reaches.
use kite.Common.{
  nat_eq, Text, text_eq, Result, ℕ, zero, suc, ◌≤◌, ◌≡◌, refl, Bool, Option, some, List, ◌∷◌, arith,
}
use kite.Dnode.Unscrub.{
  Part, number_part, slice, Targets, no_targets, target, panics, set_callback, set_nth,
}

module _ (atoi : Text → Result Text (Option ℕ)) where
  abbrev pub length : Targets → ℕ
  length no_targets = 0
  length (target v vs) = suc (length vs)

  set_nth-beyond :
      (vs : Targets) (n : ℕ) (path : List Part) → length vs ≤ n → set_nth atoi vs n path ≡ panics
  unfolding set_nth
  set_nth-beyond no_targets n path h = refl
  set_nth-beyond (target v vs) zero path h = absurd (omega arith)
  set_nth-beyond (target v vs) (suc n) path h = set_nth-beyond vs n path (omega arith)

  -- A path with an index behind the end of the slice that it leads into panics.
  pub set_callback-beyond :
      (vs : Targets) (settable : Bool) (n : ℕ) (path : List Part)
      → length vs ≤ n
      → set_callback atoi (slice vs) settable (number_part (some n) ∷ path) ≡ panics
  unfolding set_callback
  set_callback-beyond vs settable n path h = set_nth-beyond vs n path h
