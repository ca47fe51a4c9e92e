-- ===== src/KontrolClient/Registering/Pending.antt =====
-- kontrolclient.go: a kite that asked for its registration is registered or tries again.
use kite.Common.{
  Bool-cases, nat_eq, Text, text_eq, ◌≡◌, refl, ap, inl, inr, Bool, true, false, ◌&&◌, ◌||◌, not,
  Option, none, some, List, [], ◌∷◌, ◌++◌, arith,
}
use kite.KontrolClient.Registering.{
  Registering, unregistered, offer, offer_last, Step, asks, takes, succeeds, fails, fires, connects,
  Steps, stay, step,
}

abbrev is_held : Option Text → Bool
is_held none = false
is_held (some u) = true

abbrev is_empty_list : List Text → Bool
is_empty_list [] = true
is_empty_list (u ∷ us) = false

-- A url is in the channel, or is being registered, or a timer will retry it.
abbrev pub is_pending : Registering → Bool
is_pending s = is_held s.chan || (is_held s.busy || not (is_empty_list s.timers))

-- What was asked for is pending, or the last attempt succeeded and its url is known.
abbrev pub is_settled : Registering → Bool
is_settled s = is_pending s || (s.succeeded && is_held s.last)

is_held-offer : (u : Text) (held : Option Text) → is_held (offer u held) ≡ true
is_held-offer u none = refl
is_held-offer u (some v) = refl

is_held-offer_last :
    (last held : Option Text) → is_held held ≡ true → is_held (offer_last last held) ≡ true
is_held-offer_last none held h = h
is_held-offer_last (some u) held h = is_held-offer u held

is_settled-Step :
    {s t : Registering}
    → Step s t
    → (s.asked ≡ true → is_settled s ≡ true)
    → t.asked ≡ true
    → is_settled t ≡ true
is_settled-Step (asks u e) h a = refl
is_settled-Step (takes u e f) h a = refl
is_settled-Step (succeeds {s} u e) h a = ground arith
is_settled-Step (fails {s} u e) h a = ground arith
is_settled-Step (fires {s} u before after e) h a = let o = is_held-offer u s.chan in ground arith
is_settled-Step (connects {s}) h a =
    let g = h a in
    elim (Bool-cases (is_held s.chan)) [
      | inl e ↦ let o = is_held-offer_last s.last s.chan e in ground arith
      | inr e ↦ ground arith
    ]

is_settled-Steps :
    {s t : Registering}
    → Steps s t
    → (s.asked ≡ true → is_settled s ≡ true)
    → t.asked ≡ true
    → is_settled t ≡ true
is_settled-Steps stay h = h
is_settled-Steps (step before last) h = is_settled-Step last (is_settled-Steps before h)

-- Whatever registrations succeed and fail, timers fire and connections come in which order: once a
-- registration was asked for, either a url is in the channel, or is being registered, or a timer
-- will retry it, or the last attempt succeeded and its url is known.
pub Steps-is_settled :
    {s : Registering} → Steps unregistered s → s.asked ≡ true → is_settled s ≡ true
Steps-is_settled steps = is_settled-Steps steps (λ a. absurd (cc))

-- A timer of an older url whose registration failed registers that url again, also after a newer one
-- was registered.
pub Steps-stale :
    (s : Registering) (u v : Text) (before after : List Text)
    → s.chan ≡ none
    → s.busy ≡ none
    → s.last ≡ some v
    → s.timers ≡ before ++ u ∷ after
    → Steps s (record s {
      timers = before ++ after;
      chan = none;
      busy = none;
      last = some u;
      succeeded = true;
    })
Steps-stale s u v before after free idle known timed =
    step (step (step stay (fires u before after timed)) (takes u idle (ap (offer u) free)))
      (succeeds u refl)
