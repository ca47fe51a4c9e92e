-- ===== src/Dnode/Callbacks.antt =====
-- dnode/scrubber.go and dnode/scrub.go: the table of the callbacks that were sent. The proofs are in
-- the module below.
pub mod Fresh
use kite.Common.{
  ltb, leb, nat_beq, if◌then◌else◌, nat_beq_iff, Bool-cases, Option-cases, Result-cases, Eq, ◌==◌,
  ==_iff, ==_refl, nat_eq, Text, codes, text_beq, text_beq_iff, text_eq, is_empty, contains_byte,
  has_prefix, has_prefix-append, trim_space, contains_text, count_byte, cut_at, split_n, split,
  part, cut_at_here, cut_at-append, cut_at-none, split_n-append, split-append, split_whole,
  count_byte-append, count_byte_zero, count_byte_none, count_byte_here, Result, ok, err, ◌>>=◌,
  ◌>>◌, ℕ, zero, suc, ◌+◌, ◌-◌, ◌*◌, ◌/◌, ◌%◌, ◌^◌, ◌≤◌, ◌<◌, ◌≡◌, refl, sym, ap, ◌∙◌, ◌≢◌, ◌↔◌,
  ◌⊎◌, inl, inr, Bool, true, false, ◌&&◌, ◌||◌, not, Option, none, some, List, [], ◌∷◌, ◌++◌, map,
  append_assoc, append-nil, arith,
}
use kite.Common.Dict.{Dict, lookup, insert, remove}

-- The type `Scrubber`; `F` is the type of callbacks. The number is a uint64.
pub record Scrubber (F : Type 0) : Type 0 where
  pub seq : ℕ
  pub callbacks : Dict ℕ F

-- `NewScrubber`
abbrev pub new_scrubber : {F : Type 0} → Scrubber F
new_scrubber = record { seq = 0; callbacks = [] }

module _ (F : Type 0) where
  -- `register` of a callback, or of nil, with the number that its path is entered under: what
  -- atomic.AddUint64(&s.seq, 1) returns less one, which is the number before it.
  unfoldable pub register : Option F → Scrubber F → Scrubber F × Option ℕ
  register none s = (s, none)
  register (some f) s =
      (record { seq = (s.seq + 1) % 2 ^ 64; callbacks = insert s.seq f s.callbacks }, some s.seq)

  -- `RemoveCallback`
  unfoldable pub remove_callback : ℕ → Scrubber F → Scrubber F
  remove_callback id s = record s { callbacks = remove id s.callbacks }

  -- `GetCallback`; a missing one is nil.
  unfoldable pub get_callback : ℕ → Scrubber F → Option F
  get_callback id s = lookup id s.callbacks

  -- A use of the table by its connection.
  pub data Use : Type 0 where
    registers : Option F → Use
    removes : ℕ → Use

  abbrev pub use_of : Use → Scrubber F → Scrubber F
  use_of (registers f) s = (register f s).0
  use_of (removes id) s = remove_callback id s

  unfoldable pub after_uses : List Use → Scrubber F → Scrubber F
  unfolding register remove_callback
  after_uses [] s = s
  after_uses (u ∷ us) s = after_uses us (use_of u s)
