-- ===== src/Examples/Renewals.antt =====
-- Renewals of a token at concrete values.
use kite.Common.{nat_eq, codes, text_eq, ◌≡◌, refl, [], ◌∷◌}
use kite.KontrolClient.Renewal.{TokenRenewer, renew_time, stopped, waits}

-- A token is about to expire, and is renewed after a first attempt that fails.
abbrev renewer : TokenRenewer
renewer = record { key = codes "old"; valid_until = 100; stage = stopped; timers = [] }

abbrev renewed : TokenRenewer
renewed = record { key = codes "new"; valid_until = 3670; stage = waits; timers = 3640 ∷ 81 ∷ [] }

renew_time-soon : renew_time 95 70 ≡ 70
unfolding renew_time
renew_time-soon = refl
