-- ===== src/Request/Run/Refused.antt =====
-- What a call that is not let through leaves.
use kite.Common.{
  if◌then◌else◌, nat_eq, text_eq, ◌≡◌, refl, sym, Bool, true, false, Option, none, some,
}
use kite.Errors.{Error}
use kite.Request.Authenticate.{
  Client, Request, Authenticated, accepted, rejected, authenticate_panicked, authenticate,
}
use mathlib.Core.Path.{subst}
use kite.Request.Authenticate.Accepted.{LetThrough, authenticate-LetThrough}
use kite.Request.Run.{
  Meth, CallOptions, Response, Local, Outcome, respond, notify_first, new_request, let_in,
  after_authenticate, after_request, with_options, run_method, method_after, response_of,
  world_after,
}
use kite.Request.Run.Served.{is_some}

module _ (A W V B Raw : Type 0) (k : Local A W V B Raw) where
  -- Without a result, and with an error.
  abbrev pub IsError : Option (Response V) → Type 0
  IsError none = true ≡ true
  IsError (some response) = (response.result ≡ none) × (is_some response.error ≡ true)

  -- Nothing of a method has run: the method is as it was, all else is as the authenticator left it,
  -- and what was answered is an error.
  abbrev pub IsShut : Meth A W V B Raw → W → Outcome A W V B Raw → Type 0
  IsShut m w out =
      (method_after A W V B Raw m out ≡ m)
      × (world_after A W V B Raw out ≡ w)
      × IsError (response_of A W V B Raw out)

  IsError-respond :
      (options : CallOptions A) (e : Error) → IsError (respond A W V B Raw options none (some e))
  IsError-respond options e = by_callback options.response_callback
    where
      by_callback :
          (b : Bool) → IsError (if b then some (record { error = some e; result = none }) else none)
      by_callback true = (refl, refl)
      by_callback false = refl

  IsShut-after_authenticate :
      (m : Meth A W V B Raw) (options : CallOptions A) (r : Request A) (c : Client)
      (x : W × Authenticated A)
      → ((r' : Request A) (c' : Client) → ¬ (x.1 ≡ accepted r' c'))
      → IsShut m x.0 (after_authenticate A W V B Raw k m options r c x)
  IsShut-after_authenticate m options r c (w, accepted r' c') shut_out =
      absurd (shut_out r' c' refl)
  IsShut-after_authenticate m options r c (w, rejected e) shut_out =
      (refl, refl, IsError-respond options _)
  IsShut-after_authenticate m options r c (w, authenticate_panicked e) shut_out =
      (refl, refl, IsError-respond options _)

  IsShut-after_request :
      (m : Meth A W V B Raw) (options : CallOptions A) (r : Request A) (c : Client) (w : W)
      → m.authenticate ≡ true
      → ((r' : Request A) (c' : Client) → ¬ (LetThrough A W k.authenticators r c w r' c'))
      → IsShut m
          (authenticate A W k.authenticators r c w).0
          (after_request A W V B Raw k m options r c w)
  IsShut-after_request m options r c w e shut_out =
      let out =
        after_authenticate A W V B Raw k m options r c (authenticate A W k.authenticators r c w) in
      let open_way = let_in A W V B Raw k m options (record r { username = c.kite.username }) c w in
      subst
        (λ (b : Bool).
          IsShut m (authenticate A W k.authenticators r c w).0 (if b then out else open_way))
        (sym e)
        (IsShut-after_authenticate m options r c _ (λ r' c' h.
          shut_out r' c' ((authenticate-LetThrough A W k.authenticators r c w r' c').0 h)))

  -- A call of a method that asks for authentication, whose request is not let through, reaches no
  -- handler of the method and takes no token of its bucket: the method is as it was, all else is as
  -- the authenticator left it, and what was answered, if a callback was given, is an error and no
  -- result.
  pub IsShut-run_method :
      (m : Meth A W V B Raw) (raw : Raw) (c : Client) (w : W) (options : CallOptions A)
      → m.authenticate ≡ true
      → k.unmarshal raw ≡ some options
      → let (c', w') = notify_first A W V B Raw k options c w in
        let r = new_request A W V B Raw k m.name options w' in
        ((r' : Request A) (c'' : Client) → ¬ (LetThrough A W k.authenticators r c' w' r' c''))
        → IsShut m
            (authenticate A W k.authenticators r c' w').0
            (run_method A W V B Raw k m raw c w)
  unfolding run_method
  IsShut-run_method m raw c w options asks e shut_out =
      let (c', w') = notify_first A W V B Raw k options c w in
      let r = new_request A W V B Raw k m.name options w' in
      subst
        (λ o.
          IsShut m (authenticate A W k.authenticators r c' w').0
            (with_options A W V B Raw k m o c w))
        (sym e) (IsShut-after_request m options r c' w' asks shut_out)
