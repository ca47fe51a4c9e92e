-- ===== src/Client/Waiting/Disconnects.antt =====
-- client.go: what the calls that wait are told of a lost connection.
use kite.Common.{if◌then◌else◌, ◌==◌, nat_eq, text_eq, ℕ, ◌≡◌, refl, ap, ◌≢◌, Bool, true, false}
use kite.Client.Waiting.{
  runner, caller, closed_channel, closing, Answer, by_response, by_disconnect, by_send_error,
  by_timeout, Stage, not_called, waits, answered, Calls, set, idle, answer, Step, call_fails, calls,
  calls_back, hub_sends, hub_fails, responds, fires, locks, takes_response, takes_disconnect,
  takes_error, takes_timeout, loses, run_locks, run_closes, run_clears, run_unlocks, run_renews,
  Steps, stay, step,
}

abbrev is_told : Stage → Bool
is_told (answered by_disconnect) = true
is_told (answered by_response) = false
is_told (answered by_send_error) = false
is_told (answered by_timeout) = false
is_told not_called = false
is_told waits = false

-- The channel is closed only while `run` holds the lock, and no call was told.
record IsUntold (s : Calls) : Type 0 where
  none_told : (id : ℕ) → is_told (s.stage id) ≡ false
  closed : s.channel ≡ closed_channel → s.holder ≡ runner
  in_lock : s.phase ≡ closing → s.holder ≡ runner

is_told-set :
    (id j : ℕ) (a : Stage) (f : ℕ → Stage)
    → is_told a ≡ false
    → is_told (f j) ≡ false
    → is_told (set id a f j) ≡ false
is_told-set id j a f h g = by_flag (id == j)
  where
    by_flag : (b : Bool) → is_told (if b then a else f j) ≡ false
    by_flag true = h
    by_flag false = g

IsUntold-answer :
    (id : ℕ) (a : Answer) (s : Calls)
    → is_told (answered a) ≡ false
    → s.holder ≡ caller id
    → IsUntold s
    → IsUntold (answer id a s)
IsUntold-answer id a s h held i = record {
  none_told = λ j. is_told-set id j (answered a) s.stage h (i.none_told j);
  closed = λ e. let r = i.closed e in absurd (cc);
  in_lock = λ e. let r = i.in_lock e in absurd (cc);
}

module _ (timed : ℕ → Bool) where
  IsUntold-Step : {s t : Calls} → Step timed s t → IsUntold s → IsUntold t
  IsUntold-Step (call_fails {s} id e) i = record {
    none_told = λ j. is_told-set id j (answered by_send_error) s.stage refl (i.none_told j);
    closed = i.closed;
    in_lock = i.in_lock;
  }
  IsUntold-Step (calls {s} id e) i = record {
    none_told = λ j. is_told-set id j waits s.stage refl (i.none_told j);
    closed = i.closed;
    in_lock = i.in_lock;
  }
  IsUntold-Step (hub_sends id e) i = record {
    none_told = i.none_told;
    closed = i.closed;
    in_lock = i.in_lock;
  }
  IsUntold-Step (hub_fails id e) i = record {
    none_told = i.none_told;
    closed = i.closed;
    in_lock = i.in_lock;
  }
  IsUntold-Step (calls_back id e) i = record {
    none_told = i.none_told;
    closed = i.closed;
    in_lock = i.in_lock;
  }
  IsUntold-Step (responds id e) i = record {
    none_told = i.none_told;
    closed = i.closed;
    in_lock = i.in_lock;
  }
  IsUntold-Step (fires id e) i = record {
    none_told = i.none_told;
    closed = i.closed;
    in_lock = i.in_lock;
  }
  IsUntold-Step (locks id free e) i = record {
    none_told = i.none_told;
    closed = λ h. let r = i.closed h in absurd (cc);
    in_lock = λ h. let r = i.in_lock h in absurd (cc);
  }
  IsUntold-Step (takes_response {s} id held e) i = IsUntold-answer id by_response s refl held i
  IsUntold-Step (takes_disconnect {s} id held e) i = let r = i.closed e in absurd (cc)
  IsUntold-Step (takes_error {s} id held e) i = IsUntold-answer id by_send_error s refl held i
  IsUntold-Step (takes_timeout {s} id held e) i = IsUntold-answer id by_timeout s refl held i
  IsUntold-Step (loses e) i = record {
    none_told = i.none_told;
    closed = i.closed;
    in_lock = λ h. absurd (cc);
  }
  IsUntold-Step (run_locks e free) i = record {
    none_told = i.none_told;
    closed = λ h. refl;
    in_lock = λ h. refl;
  }
  IsUntold-Step (run_closes e c) i = record {
    none_told = i.none_told;
    closed = λ h. i.in_lock e;
    in_lock = i.in_lock;
  }
  IsUntold-Step (run_clears e c) i = record {
    none_told = i.none_told;
    closed = λ h. absurd (cc);
    in_lock = i.in_lock;
  }
  IsUntold-Step (run_unlocks e c) i = record {
    none_told = i.none_told;
    closed = λ h. absurd (cc);
    in_lock = λ h. absurd (cc);
  }
  IsUntold-Step (run_renews e free) i = record {
    none_told = i.none_told;
    closed = λ h. absurd (cc);
    in_lock = λ h. absurd (cc);
  }

  IsUntold-Steps : {s t : Calls} → Steps timed s t → IsUntold s → IsUntold t
  IsUntold-Steps stay i = i
  IsUntold-Steps (step before last) i = IsUntold-Step last (IsUntold-Steps before i)

  -- Whatever calls, responses, timers, failures and disconnects come in which order, no call is ever
  -- answered by the disconnect: the case of the closed channel is never taken.
  pub Steps-by_disconnect :
      {s : Calls} (id : ℕ) → Steps timed idle s → s.stage id ≢ answered by_disconnect
  Steps-by_disconnect id steps told =
      let i =
        IsUntold-Steps steps (record {
          none_told = λ j. refl;
          closed = λ e. absurd (cc);
          in_lock = λ e. absurd (cc);
        }) in
      let never = i.none_told id in let told' = ap is_told told in cc
