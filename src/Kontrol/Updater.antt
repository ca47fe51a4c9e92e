-- ===== src/Kontrol/Updater.antt =====
-- kontrol/handlers.go: what `HandleRegister` leaves running for a kite, which keeps the kite in the
-- storage as long as heartbeats come: the updater, and the callback that the kite calls. Their
-- interleaving is a sequence of steps. The proofs are in the module below.
pub mod Running
use kite.Common.{
  ltb, leb, nat_beq, if◌then◌else◌, nat_beq_iff, Bool-cases, Option-cases, Result-cases, Eq, ◌==◌,
  ==_iff, ==_refl, nat_eq, Text, codes, text_beq, text_beq_iff, text_eq, is_empty, contains_byte,
  has_prefix, has_prefix-append, trim_space, contains_text, count_byte, cut_at, split_n, split,
  part, cut_at_here, cut_at-append, cut_at-none, split_n-append, split-append, split_whole,
  count_byte-append, count_byte_zero, count_byte_none, count_byte_here, Result, ok, err, ◌>>=◌,
  ◌>>◌, ℕ, zero, suc, ◌+◌, ◌-◌, ◌*◌, ◌/◌, ◌%◌, ◌^◌, ◌≤◌, ◌<◌, ◌≡◌, refl, sym, ap, ◌∙◌, ◌≢◌, ◌↔◌,
  ◌⊎◌, inl, inr, Bool, true, false, ◌&&◌, ◌||◌, not, Option, none, some, List, [], ◌∷◌, ◌++◌, map,
  append_assoc, append-nil, arith,
}

-- Where the callback stands: it is not running, or it has sent its ping and is about to test
-- `closed`. The client's lock lets one callback of a kite run at a time.
pub data Callback : Type 0 where
  idle pinged : Callback

-- The calls of the storage for the kite.
pub data Write : Type 0 where
  upsert update : Write

-- The variables that the updater and the callback share, the number of updaters that run, and the
-- calls of the storage so far, the last one first.
pub record Beats : Type 0 where
  pub ping : Bool
  pub closed : Bool
  pub updaters : ℕ
  pub callback : Callback
  pub kontrol_closed : Bool
  pub writes : List Write

-- After `Upsert` and `go updaterFunc()`.
abbrev pub registered : Beats
registered = record {
  ping = false;
  closed = false;
  updaters = 1;
  callback = idle;
  kontrol_closed = false;
  writes = upsert ∷ [];
}

pub data Event : Type 0 where
  -- The callback: its send to `ping`, and its test of `closed` with what follows.
  send_ping test_closed : Event
  -- An updater: one that takes a ping, one that has waited too long, one that sees Kontrol closed.
  -- Of a ping, `every` may let an update follow.
  take_ping : Bool → Event
  time_out quit : Event
  -- Kontrol is closed.
  close : Event

-- atomic.CompareAndSwapInt32(&closed, 1, 0), with `Upsert` and the new updater.
unfoldable pub restart : Beats → Beats
restart s =
    if s.closed
    then record s {
      closed = false;
      updaters = suc s.updaters;
      writes = upsert ∷ s.writes;
      callback = idle;
    }
    else record s { callback = idle }

-- One step of an updater, of which one must be running.
abbrev pub one_runs : Beats → Option Beats → Option Beats
one_runs s next = if nat_beq s.updaters 0 then none else next

-- The steps, of which some have to wait. `Update` changes a kite that is there.
unfoldable pub step : Event → Beats → Option Beats
unfolding restart
step send_ping s = elim s.callback [
  | idle ↦ some (record s { ping = true; callback = pinged })
  | pinged ↦ none
]
step test_closed s = elim s.callback [ idle ↦ none | pinged ↦ some (restart s) ]
step (take_ping true) s =
    one_runs s
      (if s.ping then some (record s { ping = false; writes = update ∷ s.writes }) else none)
step (take_ping false) s = one_runs s (if s.ping then some (record s { ping = false }) else none)
step time_out s = one_runs s (some (record s { closed = true; updaters = s.updaters - 1 }))
step quit s =
    one_runs s (if s.kontrol_closed then some (record s { updaters = s.updaters - 1 }) else none)
step close s = some (record s { kontrol_closed = true })

-- The states that steps lead to, of one registration.
pub data Reaches : Beats → Type 0 where
  start : Reaches registered
  next : {s t : Beats} (e : Event) → Reaches s → step e s ≡ some t → Reaches t
