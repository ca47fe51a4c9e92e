-- ===== src/Kontrol/Updater/Running.antt =====
-- How many updaters of a kite run.
use kite.Common.{
  nat_beq, if◌then◌else◌, Bool-cases, nat_eq, text_eq, ◌≤◌, ◌<◌, ◌≡◌, refl, ◌∙◌, inl, inr, Bool,
  true, false, Option, none, some, ◌∷◌, arith,
}
use mathlib.Core.Path.{subst}
use kite.Kontrol.Updater.{
  upsert, Callback, idle, pinged, Beats, Event, send_ping, test_closed, take_ping, time_out, quit,
  close, restart, one_runs, step, Reaches, start, next,
}

-- At most one updater runs, none behind a set `closed`, and one behind a cleared `closed` unless
-- Kontrol is closed.
pub record IsTended (s : Beats) : Type 0 where
  pub at_most_one : s.updaters ≤ 1
  pub none_if_closed : s.closed ≡ true → s.updaters ≡ 0
  pub one_if_open : s.closed ≡ false → s.kontrol_closed ≡ false → s.updaters ≡ 1

abbrev AllTended : Option Beats → Type 0
AllTended none = true ≡ true
AllTended (some t) = IsTended t

AllTended-one_runs :
    (s : Beats) (o : Option Beats) → (0 < s.updaters → AllTended o) → AllTended (one_runs s o)
AllTended-one_runs s o h = elim (Bool-cases (nat_beq s.updaters 0)) [
  | inl e ↦ rw e refl
  | inr e ↦ rw e (h (ground arith))
]

AllTended-if :
    (b : Bool) (t : Beats) → (b ≡ true → IsTended t) → AllTended (if b then some t else none)
AllTended-if true t h = h refl
AllTended-if false t h = refl

IsTended-restart : (s : Beats) → IsTended s → IsTended (restart s)
unfolding restart
IsTended-restart s i =
    let a = i.at_most_one in
    let n = i.none_if_closed in
    let o = i.one_if_open in
    record { at_most_one = ground arith; none_if_closed = ground arith; one_if_open = ground arith }

AllTended-step : (e : Event) (s : Beats) → IsTended s → AllTended (step e s)
unfolding step
AllTended-step send_ping s i = by_callback s.callback
  where
    by_callback :
        (c : Callback)
        → AllTended
            (elim c [ idle ↦ some (record s { ping = true; callback = pinged }) | pinged ↦ none ])
    by_callback idle = record {
      at_most_one = i.at_most_one;
      none_if_closed = i.none_if_closed;
      one_if_open = i.one_if_open;
    }
    by_callback pinged = refl
AllTended-step test_closed s i = by_callback s.callback
  where
    by_callback : (c : Callback) → AllTended (elim c [ idle ↦ none | pinged ↦ some (restart s) ])
    by_callback idle = refl
    by_callback pinged = IsTended-restart s i
AllTended-step (take_ping true) s i = AllTended-one_runs s _ (λ one. AllTended-if s.ping _ (λ ready.
    record {
      at_most_one = i.at_most_one;
      none_if_closed = i.none_if_closed;
      one_if_open = i.one_if_open;
    }))
AllTended-step (take_ping false) s i = AllTended-one_runs s _ (λ one.
    AllTended-if s.ping _ (λ ready. record {
      at_most_one = i.at_most_one;
      none_if_closed = i.none_if_closed;
      one_if_open = i.one_if_open;
    }))
AllTended-step time_out s i =
    let a = i.at_most_one in
    AllTended-one_runs s _ (λ one. record {
      at_most_one = omega arith;
      none_if_closed = λ closed. omega arith;
      one_if_open = λ opened. absurd (cc);
    })
AllTended-step quit s i =
    let a = i.at_most_one in
    AllTended-one_runs s _ (λ one. AllTended-if s.kontrol_closed _ (λ closed. record {
      at_most_one = omega arith;
      none_if_closed = λ c. omega arith;
      one_if_open = λ c opened. absurd (cc);
    }))
AllTended-step close s i = record {
  at_most_one = i.at_most_one;
  none_if_closed = i.none_if_closed;
  one_if_open = λ c opened. absurd (cc);
}

IsTended-next : (o : Option Beats) (t : Beats) → AllTended o → o ≡ some t → IsTended t
IsTended-next none t a e = cc
IsTended-next (some s) t a e = let same : s ≡ t = cc in subst IsTended same a

-- In every state that steps lead to, in whatever order the callback, the updaters and the closing
-- of Kontrol interleave, at most one updater runs, none if `closed` is set, and exactly one if it is
-- not and Kontrol is open.
pub IsTended-Reaches : (s : Beats) → Reaches s → IsTended s
IsTended-Reaches s start = record {
  at_most_one = omega arith;
  none_if_closed = λ closed. cc;
  one_if_open = λ c opened. refl;
}
IsTended-Reaches s (next {s = before} e r h) =
    IsTended-next (step e before) s (AllTended-step e before (IsTended-Reaches before r)) h

restart-open : (s : Beats) → (restart s).closed ≡ false
unfolding restart
restart-open s = ground arith

restart-kontrol_closed : (s : Beats) → (restart s).kontrol_closed ≡ s.kontrol_closed
unfolding restart
restart-kontrol_closed s = ground arith

writes-restart :
    (s : Beats) → (restart s).writes ≡ (if s.closed then upsert ∷ s.writes else s.writes)
unfolding restart
writes-restart s = ground arith

-- While Kontrol is open, a kite whose heartbeat has just been served has exactly one updater, even
-- if the updater that it had before has waited too long and ended; and if that one has ended, the
-- kite has just been written to the storage again.
pub tended_after_heartbeat :
    (s : Beats)
    → Reaches s
    → s.callback ≡ pinged
    → s.kontrol_closed ≡ false
    → (step test_closed s ≡ some (restart s))
      × ((restart s).updaters ≡ 1)
      × ((restart s).writes ≡ (if s.closed then upsert ∷ s.writes else s.writes))
unfolding step
tended_after_heartbeat s r at opened =
    let i = IsTended-restart s (IsTended-Reaches s r) in
    (
      rw at refl,
      i.one_if_open (restart-open s) (restart-kontrol_closed s ∙ opened),
      writes-restart s,
    )
