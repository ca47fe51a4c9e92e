-- ===== src/KontrolClient/Renewal.antt =====
-- tokenrenewer.go: the renewal of a client's token before it expires. Times are in seconds.
pub mod Timely
use kite.Common.{
  List, ◌∷◌, ◌++◌, leb, if◌then◌else◌, Bool-cases, nat_eq, Text, codes, text_eq, contains_text,
  Result, ok, err, ℕ, ◌+◌, ◌-◌, ◌≤◌, ◌<◌, ◌≡◌, refl, ap, ◌⊎◌, inl, inr, Bool, true, false, Option,
  none, some, arith, ltb, nat_beq, nat_beq_iff, Option-cases, Result-cases, Eq, ◌==◌, ==_iff,
  ==_refl, text_beq, text_beq_iff, is_empty, contains_byte, has_prefix, has_prefix-append,
  trim_space, count_byte, cut_at, split_n, split, part, cut_at_here, cut_at-append, cut_at-none,
  split_n-append, split-append, split_whole, count_byte-append, count_byte_zero, count_byte_none,
  count_byte_here, ◌>>=◌, ◌>>◌, zero, suc, ◌*◌, ◌/◌, ◌%◌, ◌^◌, sym, ◌∙◌, ◌≢◌, ◌↔◌, ◌&&◌, ◌||◌, not,
  [], map, append_assoc, append-nil,
}

-- `renewBefore` and `retryInterval`
abbrev pub renew_before : ℕ
renew_before = 30

abbrev pub retry_interval : ℕ
retry_interval = 10

-- What parsing a token gives: the time it expires at, with the error, if any: whether it is a
-- validation error, and whether that says the signature to be invalid.
pub data TokenError : Type 0 where
  not_validated : Text → TokenError
  invalid : Bool → TokenError

-- `parse`: a signature that is not valid is let pass.
unfoldable pub parse : ℕ → Option TokenError → Result Text ℕ
parse expires_at none = ok expires_at
parse expires_at (some (not_validated e)) = err e
parse expires_at (some (invalid true)) = ok expires_at
parse expires_at (some (invalid false)) = err (codes "Cannot parse token")

-- When a timer of `renewDuration` fires: a duration that is not positive ends at once.
unfoldable pub renew_time : ℕ → ℕ → ℕ
renew_time valid_until now =
    if leb (valid_until - renew_before) now then now else valid_until - renew_before

-- What `renewToken` gives: a token, that the kite is down, or another error.
pub data Renewed : Type 0 where
  new_token : Text → ℕ → Renewed
  no_kites : Renewed
  not_renewed : Text → Renewed

-- Where `renewLoop` is: not running; in its select; in its select after the kite was found to be down;
-- in `renewToken`; or asleep after an error, until a time.
pub data Stage : Type 0 where
  stopped waits waits_for_kite renewing : Stage
  sleeps : ℕ → Stage

-- The token renewer: the token of the client, the time it is valid until, the stage of its loop, and
-- when the timers fire that are pending. Nothing stops a timer once it is set.
pub record TokenRenewer : Type 0 where
  pub key : Text
  pub valid_until : ℕ
  pub stage : Stage
  pub timers : List ℕ

-- `renewToken`, from what `GetToken` and parsing the token give.
unfoldable pub renew_token : Result Text Text → (Text → ℕ × Option TokenError) → Renewed
unfolding parse
renew_token got claims = elim got [ err e ↦ of_error e | ok token ↦ parsed token (claims token) ]
  where
    of_error : Text → Renewed
    of_error e = if contains_text e (codes "no kites found") then no_kites else not_renewed e

    of_parsed : Text → Result Text ℕ → Renewed
    of_parsed token (err e) = of_error e
    of_parsed token (ok valid_until) = new_token token valid_until

    parsed : Text → ℕ × Option TokenError → Renewed
    parsed token (expires_at, e) = of_parsed token (parse expires_at e)

-- The start of `renewLoop`.
unfoldable pub start_renew_loop : ℕ → TokenRenewer → TokenRenewer
unfolding renew_time
start_renew_loop now t = record t {
  stage = waits;
  timers = renew_time t.valid_until now ∷ t.timers;
}

-- A signal in the loop, from where `renewToken` ends at a time. After an error the loop sleeps for a
-- second before it sets the timer.
unfoldable pub on_signal : ℕ → Renewed → TokenRenewer → TokenRenewer
unfolding renew_time
on_signal now (new_token key valid_until) t = record {
  key = key;
  valid_until = valid_until;
  stage = waits;
  timers = renew_time valid_until now ∷ t.timers;
}
on_signal now no_kites t = record t { stage = waits_for_kite }
on_signal now (not_renewed e) t = record t { stage = sleeps (now + 1) }

unfoldable pub wake : ℕ → TokenRenewer → TokenRenewer
wake now t = record t { stage = waits; timers = (now + retry_interval) ∷ t.timers }

-- Whether the select takes a signal; in the other stages a signal is lost, since it is not waited for.
abbrev pub takes_signal : Stage → Bool
takes_signal stopped = false
takes_signal waits = true
takes_signal waits_for_kite = true
takes_signal renewing = false
takes_signal (sleeps t) = false

-- `sendRenewTokenSignal`
unfoldable pub send_renew_token_signal : TokenRenewer → TokenRenewer
send_renew_token_signal t = if takes_signal t.stage then record t { stage = renewing } else t

-- The steps of the renewer, with the time. One loop runs at a time.
pub data Step : ℕ × TokenRenewer → ℕ × TokenRenewer → Type 0 where
  passes : {now : ℕ} {t : TokenRenewer} (n : ℕ) → Step (now, t) (now + n, t)
  starts :
      {now : ℕ} {t : TokenRenewer} → t.stage ≡ stopped → Step (now, t) (now, start_renew_loop now t)
  -- A timer fires, at its time or later, whatever the loop does.
  fires :
      {now : ℕ} {t : TokenRenewer} (before after : List ℕ) (time : ℕ)
      → t.timers ≡ before ++ time ∷ after
      → time ≤ now
      → Step (now, t) (now, send_renew_token_signal (record t { timers = before ++ after }))
  -- A call of the client was answered that its token is expired.
  expires : {now : ℕ} {t : TokenRenewer} → Step (now, t) (now, send_renew_token_signal t)
  renews :
      {now : ℕ} {t : TokenRenewer} (r : Renewed)
      → t.stage ≡ renewing
      → Step (now, t) (now, on_signal now r t)
  wakes :
      {now : ℕ} {t : TokenRenewer} (time : ℕ)
      → t.stage ≡ sleeps time
      → time ≤ now
      → Step (now, t) (now, wake now t)
  -- The select takes the disconnect.
  disconnects :
      {now : ℕ} {t : TokenRenewer}
      → takes_signal t.stage ≡ true
      → Step (now, t) (now, record t { stage = stopped })

pub data Steps : ℕ × TokenRenewer → ℕ × TokenRenewer → Type 0 where
  stay : {s : ℕ × TokenRenewer} → Steps s s
  step : {s t u : ℕ × TokenRenewer} → Steps s t → Step t u → Steps s u
