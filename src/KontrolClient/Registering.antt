-- ===== src/KontrolClient/Registering.antt =====
-- kontrolclient.go: `RegisterForever`, the loop that registers the urls of a channel of one place,
-- with the handler that runs at each connection, as a step relation.
pub mod Pending
use kite.Common.{
  ltb, leb, nat_beq, if◌then◌else◌, nat_beq_iff, Bool-cases, Option-cases, Result-cases, Eq, ◌==◌,
  ==_iff, ==_refl, nat_eq, Text, codes, text_beq, text_beq_iff, text_eq, is_empty, contains_byte,
  has_prefix, has_prefix-append, trim_space, contains_text, count_byte, cut_at, split_n, split,
  part, cut_at_here, cut_at-append, cut_at-none, split_n-append, split-append, split_whole,
  count_byte-append, count_byte_zero, count_byte_none, count_byte_here, Result, ok, err, ◌>>=◌,
  ◌>>◌, ℕ, zero, suc, ◌+◌, ◌-◌, ◌*◌, ◌/◌, ◌%◌, ◌^◌, ◌≤◌, ◌<◌, ◌≡◌, refl, sym, ap, ◌∙◌, ◌≢◌, ◌↔◌,
  ◌⊎◌, inl, inr, Bool, true, false, ◌&&◌, ◌||◌, not, Option, none, some, List, [], ◌∷◌, ◌++◌, map,
  append_assoc, append-nil, arith,
}

-- The channel `registerChan`, the url that the loop registers just now, the urls of the timers that
-- will retry, and `lastRegisteredURL`; whether a registration was ever asked for, and whether the
-- last attempt succeeded.
pub record Registering : Type 0 where
  pub chan : Option Text
  pub busy : Option Text
  pub timers : List Text
  pub last : Option Text
  pub asked : Bool
  pub succeeded : Bool

abbrev pub unregistered : Registering
unregistered = record {
  chan = none;
  busy = none;
  timers = [];
  last = none;
  asked = false;
  succeeded = false;
}

-- A send that gives up if the place is taken.
abbrev pub offer : Text → Option Text → Option Text
offer u none = some u
offer u (some v) = some v

abbrev pub offer_last : Option Text → Option Text → Option Text
offer_last none held = held
offer_last (some u) held = offer u held

pub data Step : Registering → Registering → Type 0 where
  -- `RegisterForever` and `RegisterToProxy` send a url.
  asks :
      {s : Registering} (u : Text)
      → s.chan ≡ none
      → Step s (record s { chan = some u; asked = true })
  -- The loop takes a url, and `Register` succeeds or fails.
  takes :
      {s : Registering} (u : Text)
      → s.busy ≡ none
      → s.chan ≡ some u
      → Step s (record s { chan = none; busy = some u })
  succeeds :
      {s : Registering} (u : Text)
      → s.busy ≡ some u
      → Step s (record s { busy = none; last = some u; succeeded = true })
  fails :
      {s : Registering} (u : Text)
      → s.busy ≡ some u
      → Step s (record s { busy = none; timers = u ∷ s.timers; succeeded = false })
  -- A timer, with those before and after it.
  fires :
      {s : Registering} (u : Text) (before after : List Text)
      → s.timers ≡ before ++ u ∷ after
      → Step s (record s { timers = before ++ after; chan = offer u s.chan })
  -- The handler of a connection.
  connects : {s : Registering} → Step s (record s { chan = offer_last s.last s.chan })

pub data Steps : Registering → Registering → Type 0 where
  stay : {s : Registering} → Steps s s
  step : {s t u : Registering} → Steps s t → Step t u → Steps s u
