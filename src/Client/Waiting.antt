-- ===== src/Client/Waiting.antt =====
-- client.go: the calls that wait for their responses (the goroutine of `sendMethod`) and the end of
-- `run`, which share the lock `disconnectMu`, as a step relation. The client was dialed once, so that
-- one `run` reads at a time.
pub mod Disconnects
pub mod Stuck
use kite.Common.{
  if◌then◌else◌, ◌==◌, nat_eq, text_eq, ℕ, ◌≡◌, Bool, true, false, ltb, leb, nat_beq, nat_beq_iff,
  Bool-cases, Option-cases, Result-cases, Eq, ==_iff, ==_refl, Text, codes, text_beq, text_beq_iff,
  is_empty, contains_byte, has_prefix, has_prefix-append, trim_space, contains_text, count_byte,
  cut_at, split_n, split, part, cut_at_here, cut_at-append, cut_at-none, split_n-append,
  split-append, split_whole, count_byte-append, count_byte_zero, count_byte_none, count_byte_here,
  Result, ok, err, ◌>>=◌, ◌>>◌, zero, suc, ◌+◌, ◌-◌, ◌*◌, ◌/◌, ◌%◌, ◌^◌, ◌≤◌, ◌<◌, refl, sym, ap,
  ◌∙◌, ◌≢◌, ◌↔◌, ◌⊎◌, inl, inr, ◌&&◌, ◌||◌, not, Option, none, some, List, [], ◌∷◌, ◌++◌, map,
  append_assoc, append-nil, arith,
}

-- Who holds the lock: nobody, the goroutine of a call, or `run`.
pub data Holder : Type 0 where
  nobody runner : Holder
  caller : ℕ → Holder

-- The channel `c.disconnect`.
pub data Channel : Type 0 where
  open_channel closed_channel nil_channel : Channel

-- Where `run` is: in its read loop, before the lock, inside the lock, and after it.
pub data Phase : Type 0 where
  reading lost closing ended : Phase

-- What a call gives to its caller.
pub data Answer : Type 0 where
  by_response by_disconnect by_send_error by_timeout : Answer

pub data Stage : Type 0 where
  not_called waits : Stage
  answered : Answer → Stage

-- The calls by number: their stage, whether the read loop has started the response callback, whether
-- a response is in `doneChan`, whether the timer fired, whether an error is in `errC`, and whether the
-- hub still has the message.
pub record Calls : Type 0 where
  pub holder : Holder
  pub phase : Phase
  pub channel : Channel
  pub stage : ℕ → Stage
  pub called_back : ℕ → Bool
  pub response : ℕ → Bool
  pub fired : ℕ → Bool
  pub failed : ℕ → Bool
  pub unsent : ℕ → Bool

abbrev pub set {ℓ} : {A : Type ℓ} → ℕ → A → (ℕ → A) → ℕ → A
set id a f j = if id == j then a else f j

abbrev pub idle : Calls
idle = record {
  holder = nobody;
  phase = reading;
  channel = open_channel;
  stage = λ id. not_called;
  called_back = λ id. false;
  response = λ id. false;
  fired = λ id. false;
  failed = λ id. false;
  unsent = λ id. false;
}

-- The end of the goroutine of a call: it answers, and gives the lock back.
abbrev pub answer : ℕ → Answer → Calls → Calls
answer id a s = record s { holder = nobody; stage = set id (answered a) s.stage }

-- A step of the client. `timed` tells which calls have a timeout.
pub data Step (timed : ℕ → Bool) : Calls → Calls → Type 0 where
  -- `sendMethod` answers at once if `marshalAndSend` fails, without the lock: the arguments cannot be
  -- encoded, or the client is closed or has no session.
  call_fails :
      {s : Calls} (id : ℕ)
      → s.stage id ≡ not_called
      → Step timed s (record s { stage = set id (answered by_send_error) s.stage })
  -- Otherwise it hands the message to the hub, which sends it or fails.
  calls :
      {s : Calls} (id : ℕ)
      → s.stage id ≡ not_called
      → Step timed s (record s { stage = set id waits s.stage; unsent = set id true s.unsent })
  hub_sends :
      {s : Calls} (id : ℕ)
      → s.unsent id ≡ true
      → Step timed s (record s { unsent = set id false s.unsent })
  hub_fails :
      {s : Calls} (id : ℕ)
      → s.unsent id ≡ true
      → Step timed s (record s { unsent = set id false s.unsent; failed = set id true s.failed })
  -- The read loop starts the response callback of a call, which in a goroutine of its own can give
  -- the response at any time after.
  calls_back :
      {s : Calls} (id : ℕ)
      → s.phase ≡ reading
      → Step timed s (record s { called_back = set id true s.called_back })
  responds :
      {s : Calls} (id : ℕ)
      → s.called_back id ≡ true
      → Step timed s (record s { response = set id true s.response })
  fires :
      {s : Calls} (id : ℕ)
      → timed id ≡ true
      → Step timed s (record s { fired = set id true s.fired })
  -- The goroutine of a call takes the lock, and then one of its cases.
  locks :
      {s : Calls} (id : ℕ)
      → s.holder ≡ nobody
      → s.stage id ≡ waits
      → Step timed s (record s { holder = caller id })
  takes_response :
      {s : Calls} (id : ℕ)
      → s.holder ≡ caller id
      → s.response id ≡ true
      → Step timed s (answer id by_response s)
  takes_disconnect :
      {s : Calls} (id : ℕ)
      → s.holder ≡ caller id
      → s.channel ≡ closed_channel
      → Step timed s (answer id by_disconnect s)
  takes_error :
      {s : Calls} (id : ℕ)
      → s.holder ≡ caller id
      → s.failed id ≡ true
      → Step timed s (answer id by_send_error s)
  takes_timeout :
      {s : Calls} (id : ℕ)
      → s.holder ≡ caller id
      → s.fired id ≡ true
      → Step timed s (answer id by_timeout s)
  -- The end of `run`.
  loses : {s : Calls} → s.phase ≡ reading → Step timed s (record s { phase = lost })
  run_locks :
      {s : Calls}
      → s.phase ≡ lost
      → s.holder ≡ nobody
      → Step timed s (record s { phase = closing; holder = runner })
  run_closes :
      {s : Calls}
      → s.phase ≡ closing
      → s.channel ≡ open_channel
      → Step timed s (record s { channel = closed_channel })
  run_clears :
      {s : Calls}
      → s.phase ≡ closing
      → s.channel ≡ closed_channel
      → Step timed s (record s { channel = nil_channel })
  run_unlocks :
      {s : Calls}
      → s.phase ≡ closing
      → s.channel ≡ nil_channel
      → Step timed s (record s { phase = ended; holder = nobody })
  -- A client that reconnects makes a new channel, and reads again.
  run_renews :
      {s : Calls}
      → s.phase ≡ ended
      → s.holder ≡ nobody
      → Step timed s (record s { channel = open_channel; phase = reading })

pub data Steps (timed : ℕ → Bool) : Calls → Calls → Type 0 where
  stay : {s : Calls} → Steps timed s s
  step : {s t u : Calls} → Steps timed s t → Step timed t u → Steps timed s u
