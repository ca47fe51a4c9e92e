-- ===== src/Heartbeat/Ticking.antt =====
-- heartbeat.go: what the requests do to the loop of the heartbeats.
use kite.Common.{
  nat_beq, nat_eq, text_eq, ℕ, zero, suc, ◌≡◌, refl, ap, ◌∙◌, Bool, true, false, ◌||◌, none, some,
  List, [], ◌∷◌, arith,
}
use kite.Heartbeat.{
  pong, registers_again, ping_error, HeartbeatEvent, ticks, closes, requests, Beating, stopped,
  returned, panicked, ticking, new_ticker, process_heartbeats,
}

abbrev pub is_panicked : Beating → Bool
is_panicked panicked = true
is_panicked stopped = false
is_panicked returned = false
is_panicked (ticking n) = false

abbrev pub is_running : Beating → Bool
is_running stopped = true
is_running (ticking n) = true
is_running returned = false
is_running panicked = false

-- A request whose interval is not positive comes before the kite is closed.
abbrev pub asks_for_zero : List HeartbeatEvent → Bool
asks_for_zero [] = false
asks_for_zero (closes ∷ es) = false
asks_for_zero (ticks p ∷ es) = asks_for_zero es
asks_for_zero (requests none ∷ es) = asks_for_zero es
asks_for_zero (requests (some r) ∷ es) = nat_beq r.interval 0 || asks_for_zero es

process_heartbeats-returned : (es : List HeartbeatEvent) → process_heartbeats es returned ≡ returned
unfolding process_heartbeats
process_heartbeats-returned [] = refl
process_heartbeats-returned (e ∷ es) = process_heartbeats-returned es

process_heartbeats-panicked : (es : List HeartbeatEvent) → process_heartbeats es panicked ≡ panicked
unfolding process_heartbeats
process_heartbeats-panicked [] = refl
process_heartbeats-panicked (e ∷ es) = process_heartbeats-panicked es

new_ticker-is_panicked :
    (n : ℕ) (es : List HeartbeatEvent)
    → ((b : Beating)
        → is_running b ≡ true
        → is_panicked (process_heartbeats es b) ≡ asks_for_zero es)
    → is_panicked (process_heartbeats es (new_ticker n)) ≡ (nat_beq n 0 || asks_for_zero es)
new_ticker-is_panicked zero es h = ap is_panicked (process_heartbeats-panicked es)
new_ticker-is_panicked (suc n) es h = h (ticking (suc n)) refl ∙ ground arith

-- The loop panics exactly if it takes a request whose interval is not positive.
pub process_heartbeats-is_panicked :
    (es : List HeartbeatEvent) (b : Beating)
    → is_running b ≡ true
    → is_panicked (process_heartbeats es b) ≡ asks_for_zero es
unfolding process_heartbeats
process_heartbeats-is_panicked [] stopped h = refl
process_heartbeats-is_panicked [] (ticking n) h = refl
process_heartbeats-is_panicked es returned h = absurd (cc)
process_heartbeats-is_panicked es panicked h = absurd (cc)
process_heartbeats-is_panicked (ticks p ∷ es) stopped h =
    process_heartbeats-is_panicked es stopped refl
process_heartbeats-is_panicked (ticks pong ∷ es) (ticking n) h =
    process_heartbeats-is_panicked es (ticking n) refl
process_heartbeats-is_panicked (ticks registers_again ∷ es) (ticking n) h =
    process_heartbeats-is_panicked es stopped refl
process_heartbeats-is_panicked (ticks (ping_error e) ∷ es) (ticking n) h =
    process_heartbeats-is_panicked es (ticking n) refl
process_heartbeats-is_panicked (closes ∷ es) stopped h =
    ap is_panicked (process_heartbeats-returned es)
process_heartbeats-is_panicked (closes ∷ es) (ticking n) h =
    ap is_panicked (process_heartbeats-returned es)
process_heartbeats-is_panicked (requests none ∷ es) stopped h =
    process_heartbeats-is_panicked es stopped refl
process_heartbeats-is_panicked (requests none ∷ es) (ticking n) h =
    process_heartbeats-is_panicked es stopped refl
process_heartbeats-is_panicked (requests (some r) ∷ es) stopped h =
    new_ticker-is_panicked r.interval es (λ b. process_heartbeats-is_panicked es b)
process_heartbeats-is_panicked (requests (some r) ∷ es) (ticking n) h =
    new_ticker-is_panicked r.interval es (λ b. process_heartbeats-is_panicked es b)
