-- ===== src/Dnode/Callbacks/Fresh.antt =====
-- No callback is registered under the number of another.
use kite.Common.{
  if◌then◌else◌, ◌==◌, nat_eq, text_eq, ℕ, suc, ◌+◌, ◌^◌, ◌≤◌, ◌<◌, ◌≡◌, refl, ◌∙◌, Option, none,
  some, List, [], ◌∷◌, arith,
}
use kite.Common.Dict.{lookup, lookup-insert, lookup-remove}
use kite.Dnode.Callbacks.{
  Scrubber, new_scrubber, register, remove_callback, get_callback, Use, registers, removes,
  after_uses,
}

module _ (F : Type 0) where
  abbrev pub count_of : List (Use F) → ℕ
  count_of [] = 0
  count_of (u ∷ us) = suc (count_of us)

  -- The numbers from the next one on are free, and the next one is at most the given bound.
  pub record IsFree (bound : ℕ) (s : Scrubber F) : Type 0 where
    pub seq_bound : s.seq ≤ bound
    pub free : (id : ℕ) → s.seq ≤ id → get_callback F id s ≡ none

  IsFree-register :
      (f : Option F) (n : ℕ) (s : Scrubber F)
      → n + 1 < 2 ^ 64
      → IsFree n s
      → IsFree (n + 1) (register F f s).0
  unfolding register get_callback lookup
  IsFree-register none n s small i =
      let b = i.seq_bound in record { seq_bound = omega arith; free = i.free }
  IsFree-register (some f) n s small i =
      let b = i.seq_bound in
      record {
        seq_bound = omega arith;
        free = λ id above.
            lookup-insert s.seq id f s.callbacks ∙ ground (arith, i.free id (omega arith));
      }

  IsFree-remove_callback :
      (key n : ℕ) (s : Scrubber F) → IsFree n s → IsFree (n + 1) (remove_callback F key s)
  unfolding remove_callback get_callback
  IsFree-remove_callback key n s i =
      let b = i.seq_bound in
      record {
        seq_bound = omega arith;
        free = λ id above. lookup-remove key id s.callbacks ∙ ground (arith, i.free id above);
      }

  IsFree-after_uses :
      (us : List (Use F)) (n : ℕ) (s : Scrubber F)
      → n + count_of us < 2 ^ 64
      → IsFree n s
      → IsFree (n + count_of us) (after_uses F us s)
  unfolding after_uses
  IsFree-after_uses [] n s small i =
      let b = i.seq_bound in record { seq_bound = omega arith; free = i.free }
  IsFree-after_uses (registers f ∷ us) n s small i =
      let rest =
        IsFree-after_uses us (n + 1) (register F f s).0 (omega arith)
          (IsFree-register f n s (omega arith) i) in
      let b = rest.seq_bound in record { seq_bound = omega arith; free = rest.free }
  IsFree-after_uses (removes id ∷ us) n s small i =
      let rest =
        IsFree-after_uses us (n + 1) (remove_callback F id s) (omega arith)
          (IsFree-remove_callback id n s i) in
      let b = rest.seq_bound in record { seq_bound = omega arith; free = rest.free }

  -- After fewer than 2 ^ 64 uses of a new table, a callback is registered under a number that no
  -- callback has: it is found under that number, and every other number finds what it found before.
  pub get_callback-register :
      (us : List (Use F)) (f : F) (id : ℕ)
      → count_of us < 2 ^ 64
      → let s = after_uses F us new_scrubber in
        ((register F (some f) s).1 ≡ some s.seq)
        × (get_callback F s.seq s ≡ none)
        × (get_callback F id (register F (some f) s).0
            ≡ (if s.seq == id then some f else get_callback F id s))
  unfolding register get_callback lookup
  get_callback-register us f id small =
      let s = after_uses F us new_scrubber in
      let i = IsFree-after_uses us 0 new_scrubber (omega arith) new_scrubber-IsFree in
      (refl, i.free s.seq (omega arith), lookup-insert s.seq id f s.callbacks)
    where
      new_scrubber-IsFree : IsFree 0 new_scrubber
      new_scrubber-IsFree = record { seq_bound = omega arith; free = λ id above. refl }
