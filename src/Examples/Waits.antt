-- ===== src/Examples/Waits.antt =====
-- Waiting calls at concrete values.
use kite.Common.{nat_eq, text_eq, ℕ, ◌≡◌, refl, ◌≢◌, Bool, true, false}
use kite.Client.Waiting.{
  lost, waits, answered, by_disconnect, by_send_error, call_fails, calls_back, Calls, set, idle,
  caller, open_channel, calls, hub_sends, responds, locks, loses, Steps, stay, step,
}
use kite.Client.Waiting.Disconnects.{Steps-by_disconnect}
use kite.Client.Waiting.Stuck.{Unserved, IsStuck, Steps-stuck}

abbrev untimed : ℕ → Bool
untimed id = false

-- Two calls wait, the first in the lock; the second has its response, and the connection is lost.
abbrev called_first : Calls
called_first = record idle { stage = set 0 waits idle.stage; unsent = set 0 true idle.unsent }

abbrev sent_first : Calls
sent_first = record called_first { unsent = set 0 false called_first.unsent }

abbrev called_second : Calls
called_second = record sent_first {
  stage = set 1 waits sent_first.stage;
  unsent = set 1 true sent_first.unsent;
}

abbrev sent_second : Calls
sent_second = record called_second { unsent = set 1 false called_second.unsent }

abbrev locked : Calls
locked = record sent_second { holder = caller 0 }

abbrev called_back : Calls
called_back = record locked { called_back = set 1 true locked.called_back }

abbrev responded : Calls
responded = record called_back { response = set 1 true called_back.response }

abbrev stuck : Calls
stuck = record responded { phase = lost }

to_locked : Steps untimed idle locked
to_locked =
    step
      (step (step (step (step stay (calls 0 refl)) (hub_sends 0 refl)) (calls 1 refl))
        (hub_sends 1 refl))
      (locks 0 refl refl)

to_stuck : Steps untimed idle stuck
to_stuck = step (step (step to_locked (calls_back 1 refl)) (responds 1 refl)) (loses refl)

Steps-by_disconnect_example : stuck.stage 0 ≢ answered by_disconnect
Steps-by_disconnect_example = Steps-by_disconnect untimed 0 to_stuck

stuck-IsStuck : IsStuck 0 stuck
stuck-IsStuck = record {
  held = refl;
  in_wait = refl;
  is_lost = refl;
  is_open = refl;
  not_called_back = refl;
  no_response = refl;
  not_fired = refl;
  not_failed = refl;
  is_sent = refl;
}

-- A third call is sent, and a fourth cannot be encoded.
abbrev after_third : Calls
after_third = record stuck { stage = set 2 waits stuck.stage; unsent = set 2 true stuck.unsent }

abbrev after_fourth : Calls
after_fourth = record after_third { stage = set 3 (answered by_send_error) after_third.stage }

Steps-stuck_example :
    (after_fourth.holder ≡ caller 0)
    × (after_fourth.phase ≡ lost)
    × (after_fourth.channel ≡ open_channel)
    × Unserved (stuck.stage 1) (after_fourth.stage 1)
Steps-stuck_example =
    Steps-stuck untimed 0 1 refl stuck-IsStuck (step (step stay (calls 2 refl)) (call_fails 3 refl))
