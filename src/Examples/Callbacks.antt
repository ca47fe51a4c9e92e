-- ===== src/Examples/Callbacks.antt =====
-- The table of callbacks at concrete values: numbers stand for callbacks.
use kite.Common.{nat_eq, text_eq, ℕ, ◌≡◌, refl, none, some, List, [], ◌∷◌}
use kite.Common.Dict.{lookup, insert, remove}
use kite.Dnode.Callbacks.{Scrubber, new_scrubber, get_callback, Use, registers, removes, after_uses}

-- Two callbacks are registered, and the first is removed.
abbrev uses : List (Use ℕ)
uses = registers (some 7) ∷ registers none ∷ registers (some 8) ∷ removes 0 ∷ []

abbrev table : Scrubber ℕ
table = after_uses ℕ uses new_scrubber

get_callback-table : get_callback ℕ 1 table ≡ some 8
unfolding get_callback after_uses lookup insert remove
get_callback-table = refl
