-- ===== src/Client/Waiting/Stuck.antt =====
-- client.go: a call that nothing answers keeps the lock.
use mathlib.Core.Path.{subst}
use kite.Common.{
  ◌⊎◌, if◌then◌else◌, Bool-cases, ◌==◌, ==_iff, nat_eq, text_eq, ℕ, ◌≡◌, refl, sym, ap, ◌∙◌, ◌≢◌,
  inl, inr, Bool, true, false,
}
use kite.Client.Waiting.{
  Steps, stay, step, caller, open_channel, lost, Stage, not_called, waits, answered, Calls, set,
  Step, call_fails, calls, calls_back, by_send_error, hub_sends, hub_fails, responds, fires, locks,
  takes_response, takes_disconnect, takes_error, takes_timeout, loses, run_locks, run_closes,
  run_clears, run_unlocks, run_renews, Steps, stay, step,
}

-- What may become of a call while the lock is never given back: a call that waits or was answered
-- stays so, and a call that is not made yet is not made, waits, or fails to send.
abbrev pub Unserved : Stage → Stage → Type 0
Unserved waits u = u ≡ waits
Unserved (answered a) u = u ≡ answered a
Unserved not_called u = (u ≡ not_called) ⊎ (u ≡ waits) ⊎ (u ≡ answered by_send_error)

-- A call holds the lock and has nothing to take, while the connection is lost.
pub record IsStuck (id : ℕ) (s : Calls) : Type 0 where
  pub held : s.holder ≡ caller id
  pub in_wait : s.stage id ≡ waits
  pub is_lost : s.phase ≡ lost
  pub is_open : s.channel ≡ open_channel
  pub not_called_back : s.called_back id ≡ false
  pub no_response : s.response id ≡ false
  pub not_fired : s.fired id ≡ false
  pub not_failed : s.failed id ≡ false
  pub is_sent : s.unsent id ≡ false

set-kept : {A : Type 0} (k id : ℕ) (a b : A) (f : ℕ → A) → a ≡ b → f id ≡ b → set k a f id ≡ b
set-kept k id a b f h g = by_flag (k == id)
  where
    by_flag : (e : Bool) → (if e then a else f id) ≡ b
    by_flag true = h
    by_flag false = g

-- What is set for one call leaves another.
set-other :
    {A B : Type 0} (k id : ℕ) (a : A) (f : ℕ → A) (g : ℕ → B) (x y : B)
    → g k ≡ x
    → g id ≡ y
    → x ≢ y
    → set k a f id ≡ f id
set-other k id a f g x y h h' apart = elim (Bool-cases (k == id)) [
  | inl e ↦ absurd (apart (sym h ∙ ap g ((==_iff k id).0 e) ∙ h'))
  | inr e ↦ ap (λ b. if b then a else f id) e
]

Unserved-same : (a : Stage) → Unserved a a
Unserved-same not_called = inl refl
Unserved-same waits = refl
Unserved-same (answered a) = refl

Unserved-trans : (a b c : Stage) → Unserved a b → Unserved b c → Unserved a c
Unserved-trans waits b c h g = subst (λ x. Unserved x c) h g
Unserved-trans (answered a) b c h g = subst (λ x. Unserved x c) h g
Unserved-trans not_called b c (inl e) g = subst (λ x. Unserved x c) e g
Unserved-trans not_called b c (inr (inl e)) g = inr (inl (subst (λ x. Unserved x c) e g))
Unserved-trans not_called b c (inr (inr e)) g = inr (inr (subst (λ x. Unserved x c) e g))

-- A call is made, and waits or fails to send.
Unserved-set :
    (k j : ℕ) (a : Stage) (f : ℕ → Stage)
    → f k ≡ not_called
    → Unserved not_called a
    → Unserved (f j) (set k a f j)
Unserved-set k j a f new h = elim (Bool-cases (k == j)) [
  | inl e ↦
      subst (λ b. Unserved (f j) (if b then a else f j)) (sym e)
        (subst (λ x. Unserved x a) (sym new ∙ ap f ((==_iff k j).0 e)) h)
  | inr e ↦ subst (λ b. Unserved (f j) (if b then a else f j)) (sym e) (Unserved-same (f j))
]

module _ (timed : ℕ → Bool) (id : ℕ) (untimed : timed id ≡ false) where
  -- A stuck call stays so, and no call is served.
  IsStuck-Step :
      {s t : Calls}
      → Step timed s t
      → IsStuck id s
      → (j : ℕ) → IsStuck id t × Unserved (s.stage j) (t.stage j)
  IsStuck-Step (call_fails {s} k e) i j = (
    record {
      held = i.held;
      in_wait =
          set-other k id (answered by_send_error) s.stage s.stage not_called waits e i.in_wait
            (λ p. cc)
          ∙ i.in_wait;
      is_lost = i.is_lost;
      is_open = i.is_open;
      not_called_back = i.not_called_back;
      no_response = i.no_response;
      not_fired = i.not_fired;
      not_failed = i.not_failed;
      is_sent = i.is_sent;
    },
    Unserved-set k j (answered by_send_error) s.stage e (inr (inr refl)),
  )
  IsStuck-Step (calls {s} k e) i j = (
    record {
      held = i.held;
      in_wait =
          set-other k id waits s.stage s.stage not_called waits e i.in_wait (λ p. cc) ∙ i.in_wait;
      is_lost = i.is_lost;
      is_open = i.is_open;
      not_called_back = i.not_called_back;
      no_response = i.no_response;
      not_fired = i.not_fired;
      not_failed = i.not_failed;
      is_sent =
          set-other k id true s.unsent s.stage not_called waits e i.in_wait (λ p. cc) ∙ i.is_sent;
    },
    Unserved-set k j waits s.stage e (inr (inl refl)),
  )
  IsStuck-Step (hub_sends {s} k e) i j = (
    record {
      held = i.held;
      in_wait = i.in_wait;
      is_lost = i.is_lost;
      is_open = i.is_open;
      not_called_back = i.not_called_back;
      no_response = i.no_response;
      not_fired = i.not_fired;
      not_failed = i.not_failed;
      is_sent = set-kept k id false false s.unsent refl i.is_sent;
    },
    Unserved-same (s.stage j),
  )
  IsStuck-Step (hub_fails {s} k e) i j = (
    record {
      held = i.held;
      in_wait = i.in_wait;
      is_lost = i.is_lost;
      is_open = i.is_open;
      not_called_back = i.not_called_back;
      no_response = i.no_response;
      not_fired = i.not_fired;
      not_failed =
          set-other k id true s.failed s.unsent true false e i.is_sent (λ p. cc) ∙ i.not_failed;
      is_sent = set-kept k id false false s.unsent refl i.is_sent;
    },
    Unserved-same (s.stage j),
  )
  IsStuck-Step (calls_back k e) i j = let h = i.is_lost in absurd (cc)
  IsStuck-Step (responds {s} k e) i j = (
    record {
      held = i.held;
      in_wait = i.in_wait;
      is_lost = i.is_lost;
      is_open = i.is_open;
      not_called_back = i.not_called_back;
      no_response =
          set-other k id true s.response s.called_back true false e i.not_called_back (λ p. cc)
          ∙ i.no_response;
      not_fired = i.not_fired;
      not_failed = i.not_failed;
      is_sent = i.is_sent;
    },
    Unserved-same (s.stage j),
  )
  IsStuck-Step (fires {s} k e) i j = (
    record {
      held = i.held;
      in_wait = i.in_wait;
      is_lost = i.is_lost;
      is_open = i.is_open;
      not_called_back = i.not_called_back;
      no_response = i.no_response;
      not_fired = set-other k id true s.fired timed true false e untimed (λ p. cc) ∙ i.not_fired;
      not_failed = i.not_failed;
      is_sent = i.is_sent;
    },
    Unserved-same (s.stage j),
  )
  IsStuck-Step (locks k free e) i j = let h = i.held in absurd (cc)
  IsStuck-Step (takes_response {s} k held e) i j =
      let h = i.held in let r = i.no_response in let q = i.not_failed in absurd (cc)
  IsStuck-Step (takes_disconnect {s} k held e) i j = let h = i.is_open in absurd (cc)
  IsStuck-Step (takes_error {s} k held e) i j =
      let h = i.held in let r = i.no_response in let q = i.not_failed in absurd (cc)
  IsStuck-Step (takes_timeout {s} k held e) i j =
      let h = i.held in let r = i.not_fired in absurd (cc)
  IsStuck-Step (loses e) i j = let h = i.is_lost in absurd (cc)
  IsStuck-Step (run_locks e free) i j = let h = i.held in absurd (cc)
  IsStuck-Step (run_closes e c) i j = let h = i.is_lost in absurd (cc)
  IsStuck-Step (run_clears e c) i j = let h = i.is_lost in absurd (cc)
  IsStuck-Step (run_unlocks e c) i j = let h = i.is_lost in absurd (cc)
  IsStuck-Step (run_renews e free) i j = let h = i.is_lost in absurd (cc)

  IsStuck-Steps :
      {s t : Calls}
      → Steps timed s t
      → IsStuck id s
      → (j : ℕ) → IsStuck id t × Unserved (s.stage j) (t.stage j)
  IsStuck-Steps (stay {s}) i j = (i, Unserved-same (s.stage j))
  IsStuck-Steps (step {s} {t} {u} before last) i j =
      let (now, same) = IsStuck-Steps before i j in
      let (next, same') = IsStuck-Step last now j in
      (next, Unserved-trans (s.stage j) (t.stage j) (u.stage j) same same')

-- If the connection of a client that was dialed once is lost while a call without a timeout waits in
-- the lock, its message sent, no response there and its response callback not started, then in
-- whatever happens afterwards the call keeps the lock and `run` does not get past it, so that no
-- disconnect is told and the client does not dial again. No other call that waits is answered, those
-- included whose response has come or whose time has run out, and a call that is made later waits
-- too, unless it is answered at once since its message cannot be handed to the hub.
pub Steps-stuck :
    (timed : ℕ → Bool) (id j : ℕ) {s t : Calls}
    → timed id ≡ false
    → IsStuck id s
    → Steps timed s t
    → (t.holder ≡ caller id)
      × (t.phase ≡ lost)
      × (t.channel ≡ open_channel)
      × Unserved (s.stage j) (t.stage j)
Steps-stuck timed id j untimed i steps =
    let (after, same) = IsStuck-Steps timed id untimed steps i j in
    (after.held, after.is_lost, after.is_open, same)
