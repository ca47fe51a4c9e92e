-- ===== src/KontrolClient/Renewal/Timely.antt =====
-- tokenrenewer.go: the timers that are pending while the loop waits.
use kite.Common.{leb, nat_beq, nat_eq, text_eq, ℕ, ◌+◌, ◌≡◌, Bool, true, false, ◌||◌, List, [], ◌∷◌}
use kite.KontrolClient.Renewal.{renew_before, retry_interval, waits, TokenRenewer}

-- A timer fires within `retryInterval`, or `renewBefore` before the token expires.
abbrev pub is_timely : ℕ → ℕ → ℕ → Bool
is_timely now valid_until time =
    leb time (now + retry_interval) || nat_beq (time + renew_before) valid_until

abbrev pub has_timely : ℕ → ℕ → List ℕ → Bool
has_timely now valid_until [] = false
has_timely now valid_until (time ∷ times) =
    is_timely now valid_until time || has_timely now valid_until times

-- While the loop waits for a signal, a timer is timely.
abbrev IsTimed : ℕ × TokenRenewer → Type 0
IsTimed (now, t) = t.stage ≡ waits → has_timely now t.valid_until t.timers ≡ true
