-- ===== src/Heartbeat.antt =====
-- heartbeat.go: the heartbeats that a kite sends to Kontrol after a registration over HTTP, or to a
-- kite that asks for them.
pub mod Ticking
use kite.Common.{
  ltb, leb, nat_beq, if◌then◌else◌, nat_beq_iff, Bool-cases, Option-cases, Result-cases, Eq, ◌==◌,
  ==_iff, ==_refl, nat_eq, Text, codes, text_beq, text_beq_iff, text_eq, is_empty, contains_byte,
  has_prefix, has_prefix-append, trim_space, contains_text, count_byte, cut_at, split_n, split,
  part, cut_at_here, cut_at-append, cut_at-none, split_n-append, split-append, split_whole,
  count_byte-append, count_byte_zero, count_byte_none, count_byte_here, Result, ok, err, ◌>>=◌,
  ◌>>◌, ℕ, zero, suc, ◌+◌, ◌-◌, ◌*◌, ◌/◌, ◌%◌, ◌^◌, ◌≤◌, ◌<◌, ◌≡◌, refl, sym, ap, ◌∙◌, ◌≢◌, ◌↔◌,
  ◌⊎◌, inl, inr, Bool, true, false, ◌&&◌, ◌||◌, not, Option, none, some, List, [], ◌∷◌, ◌++◌, map,
  append_assoc, append-nil, arith,
}
use kite.Protocol.{RegisterResult}

-- What a ping gives: nothing, the demand to register again, or another error.
pub data Ping : Type 0 where
  pong registers_again : Ping
  ping_error : Text → Ping

-- The type `heartbeatReq`, but for its `ping`: the interval in seconds, where 0 stands for those that
-- are not positive.
pub record HeartbeatReq : Type 0 where
  pub interval : ℕ

-- What dnode.Partial makes of the arguments of a request: `SliceOfLength(2)`, `Float64` as whole
-- seconds, and `Function`.
pub record HeartbeatArgs (P : Type 0) : Type 0 where
  pub two : P → Result Text (P × P)
  pub seconds : P → Result Text ℕ
  pub function : P → Result Text Unit

module _ (P : Type 0) (args : HeartbeatArgs P) where
  open args use {two, seconds, function}

  -- `newHeartbeatReq`
  abbrev of_two : P × P → Result Text HeartbeatReq
  of_two (a, b) = do d ← seconds a; ping ← function b; ok (record { interval = d })

  unfoldable pub new_heartbeat_req : Option P → Result Text HeartbeatReq
  new_heartbeat_req none = err (codes "empty heartbeat request")
  new_heartbeat_req (some p) = two p >>= of_two

-- What `processHeartbeats` waits for: a tick with what the ping gives then, the end of the kite, or a
-- request, which may be nil.
pub data HeartbeatEvent : Type 0 where
  ticks : Ping → HeartbeatEvent
  closes : HeartbeatEvent
  requests : Option HeartbeatReq → HeartbeatEvent

-- Where the loop is: its ticker stopped, its ticker running with an interval, returned, or panicked.
pub data Beating : Type 0 where
  stopped returned panicked : Beating
  ticking : ℕ → Beating

-- time.NewTicker of an interval, which panics if it is not positive.
abbrev pub new_ticker : ℕ → Beating
new_ticker zero = panicked
new_ticker (suc n) = ticking (suc n)

abbrev pub after_ping : Ping → ℕ → Beating
after_ping pong n = ticking n
after_ping registers_again n = stopped
after_ping (ping_error e) n = ticking n

-- One turn of the loop of `processHeartbeats`. A stopped ticker does not tick.
unfoldable pub turn : HeartbeatEvent → Beating → Beating
turn e returned = returned
turn e panicked = panicked
turn (ticks p) stopped = stopped
turn (ticks p) (ticking n) = after_ping p n
turn closes stopped = returned
turn closes (ticking n) = returned
turn (requests none) stopped = stopped
turn (requests none) (ticking n) = stopped
turn (requests (some r)) stopped = new_ticker r.interval
turn (requests (some r)) (ticking n) = new_ticker r.interval

unfoldable pub process_heartbeats : List HeartbeatEvent → Beating → Beating
unfolding turn
process_heartbeats [] b = b
process_heartbeats (e ∷ es) b = process_heartbeats es (turn e b)

-- strings.TrimSuffix(s, suffix), none if s does not end with it.
unfoldable pub without_suffix : Text → Text → Option Text
without_suffix [] t = if text_beq [] t then some [] else none
without_suffix (c ∷ s) t =
    let rest = without_suffix s t in if text_beq (c ∷ s) t then some [] else with_first c rest
  where
    with_first : ℕ → Option Text → Option Text
    with_first c none = none
    with_first c (some s) = some (c ∷ s)

-- `getKontrolPath`
unfoldable pub get_kontrol_path : Text → Text → Text
unfolding without_suffix
get_kontrol_path kontrol_url path = to_path (without_suffix kontrol_url (codes "/kite"))
  where
    to_path : Option Text → Text
    to_path none = kontrol_url ++ b'/' ∷ path
    to_path (some base) = base ++ b'/' ∷ path

-- The answer to the post of `RegisterHTTP`, as encoding/json reads it.
abbrev checked_interval : RegisterResult → Result Text (ℕ × RegisterResult)
checked_interval rr =
    if not (is_empty rr.error)
    then err rr.error
    else if nat_beq rr.heartbeat_interval 0
    then err (codes "heartbeat interval cannot be zero")
    else ok (rr.heartbeat_interval, rr)

-- `RegisterHTTP`: the interval of the heartbeats that it starts, with what the handlers are given.
unfoldable pub register_http :
    (Text → Result Text Text)
    → (Text → Result Text RegisterResult)
    → Text
    → Result Text (ℕ × RegisterResult)
register_http post decode request = do body ← post request; rr ← decode body; checked_interval rr

-- `heartbeatFunc` of `sendHeartbeats`, on the status and the first 16 bytes of the body.
unfoldable pub heartbeat_func : Result Text (ℕ × Result Text Text) → Ping
heartbeat_func (err e) = ping_error e
heartbeat_func (ok (status, body)) =
    if not (nat_beq status 200) then ping_error (codes "unexpected status code") else of_body body
  where
    of_text : Text → Ping
    of_text p =
        if p == codes "pong"
        then pong
        else if p == codes "registeragain"
        then registers_again
        else ping_error (codes "malformed heartbeat response: " ++ p)

    of_body : Result Text Text → Ping
    of_body (err e) = ping_error e
    of_body (ok p) = of_text (trim_space p)
