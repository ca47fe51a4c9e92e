-- ===== src/Request/Run/Served.antt =====
-- What a method call leaves: its response, and the method's handlers.
use kite.Common.{
  if◌then◌else◌, nat_eq, text_eq, ◌≡◌, refl, sym, ap, ◌∙◌, ◌⊎◌, inl, inr, Bool, true, false, Option,
  none, some, List, [], ◌∷◌, arith,
}
use kite.Errors.{Error, Thrown}
use kite.Method.{Ran, returned, panicked}
use kite.Request.Authenticate.{
  Client, Request, Authenticated, accepted, rejected, authenticate_panicked, authenticate,
}
use mathlib.Core.Path.{subst}
use kite.Request.Run.{
  Meth, CallOptions, Local, initialize, Outcome, done, crashed, respond, take, after_serve,
  after_take, let_in, after_authenticate, after_request, with_options, run_method, method_after,
  method_after_calls,
}

abbrev pub is_some : {A : Type 0} → Option A → Bool
is_some none = false
is_some (some a) = true

module _ (A W V B Raw : Type 0) (k : Local A W V B Raw) where
  initialize_again :
      (m : Meth A W V B Raw)
      → initialize A W V B Raw k (initialize A W V B Raw k m) ≡ initialize A W V B Raw k m
  unfolding initialize
  initialize_again m = ground arith

  abbrev pub IsOnce : Meth A W V B Raw → Meth A W V B Raw → Type 0
  IsOnce m m' = (m' ≡ m) ⊎ (m' ≡ initialize A W V B Raw k m)

  IsOnce-after_serve :
      (m m0 : Meth A W V B Raw) (options : CallOptions A) (r : Request A) (c : Client)
      (x : W × Ran V Thrown)
      → method_after A W V B Raw m0 (after_serve A W V B Raw m options r c x) ≡ m
  IsOnce-after_serve m m0 options r c (w, returned v e) = refl
  IsOnce-after_serve m m0 options r c (w, panicked e) = refl

  IsOnce-let_in :
      (m : Meth A W V B Raw) (options : CallOptions A) (r : Request A) (c : Client) (w : W)
      → method_after A W V B Raw m (let_in A W V B Raw k m options r c w)
        ≡ initialize A W V B Raw k m
  IsOnce-let_in m options r c w =
      after (initialize A W V B Raw k m) (take A W V B Raw k (initialize A W V B Raw k m).bucket w)
    where
      after :
          (m' : Meth A W V B Raw) (x : W × Bool)
          → method_after A W V B Raw m (after_take A W V B Raw m' options r c x) ≡ m'
      after m' (w', false) = refl
      after m' (w', true) = IsOnce-after_serve m' m options r c _

  IsOnce-after_authenticate :
      (m : Meth A W V B Raw) (options : CallOptions A) (r : Request A) (c : Client)
      (x : W × Authenticated A)
      → IsOnce m (method_after A W V B Raw m (after_authenticate A W V B Raw k m options r c x))
  IsOnce-after_authenticate m options r c (w, accepted r' c') =
      inr (IsOnce-let_in m options r' c' w)
  IsOnce-after_authenticate m options r c (w, rejected e) = inl refl
  IsOnce-after_authenticate m options r c (w, authenticate_panicked e) = inl refl

  IsOnce-after_request :
      (m : Meth A W V B Raw) (options : CallOptions A) (r : Request A) (c : Client) (w : W)
      → IsOnce m (method_after A W V B Raw m (after_request A W V B Raw k m options r c w))
  IsOnce-after_request m options r c w = by_flag m.authenticate
    where
      by_flag :
          (b : Bool)
          → IsOnce m (
              method_after A W V B Raw m (
                if b
                then after_authenticate A W V B Raw k m options r c
                    (authenticate A W k.authenticators r c w)
                else let_in A W V B Raw k m options (record r { username = c.kite.username }) c w))
      by_flag true = IsOnce-after_authenticate m options r c _
      by_flag false = inr (IsOnce-let_in m options _ c w)

  IsOnce-run_method :
      (m : Meth A W V B Raw) (raw : Raw) (c : Client) (w : W)
      → IsOnce m (method_after A W V B Raw m (run_method A W V B Raw k m raw c w))
  unfolding run_method
  IsOnce-run_method m raw c w = by_options (k.unmarshal raw)
    where
      by_options :
          (o : Option (CallOptions A))
          → IsOnce m (method_after A W V B Raw m (with_options A W V B Raw k m o c w))
      by_options none = inl refl
      by_options (some options) = IsOnce-after_request m options _ _ _

  IsOnce-trans : (m m' m'' : Meth A W V B Raw) → IsOnce m m' → IsOnce m' m'' → IsOnce m m''
  IsOnce-trans m m' m'' (inl e) (inl f) = inl (f ∙ e)
  IsOnce-trans m m' m'' (inl e) (inr f) = inr (f ∙ ap (initialize A W V B Raw k) e)
  IsOnce-trans m m' m'' (inr e) (inl f) = inr (f ∙ e)
  IsOnce-trans m m' m'' (inr e) (inr f) =
      inr (f ∙ ap (initialize A W V B Raw k) e ∙ initialize_again m)

  -- Whatever calls a method has served, by whatever clients and with whatever changes in between, it
  -- is as it was, or the kite's handlers have been added to its own exactly once.
  pub IsOnce-method_after_calls :
      (m : Meth A W V B Raw) (calls : List (Raw × (Client × W)))
      → IsOnce m (method_after_calls A W V B Raw k m calls)
  unfolding method_after_calls
  IsOnce-method_after_calls m [] = inl refl
  IsOnce-method_after_calls m ((raw, (c, w)) ∷ calls) =
      IsOnce-trans m _ _ (IsOnce-run_method m raw c w) (
        IsOnce-method_after_calls (method_after A W V B Raw m (run_method A W V B Raw k m raw c w))
          calls)

  -- A response is sent exactly if a callback is given for it.
  abbrev pub IsAnswered : CallOptions A → Outcome A W V B Raw → Type 0
  IsAnswered options (done m c w response) = is_some response ≡ options.response_callback
  IsAnswered options (crashed c w) = true ≡ false

  is_some-respond :
      (options : CallOptions A) (v : Option V) (e : Option Error)
      → is_some (respond A W V B Raw options v e) ≡ options.response_callback
  is_some-respond options v e = ground arith

  IsAnswered-after_serve :
      (m : Meth A W V B Raw) (options : CallOptions A) (r : Request A) (c : Client)
      (x : W × Ran V Thrown)
      → IsAnswered options (after_serve A W V B Raw m options r c x)
  IsAnswered-after_serve m options r c (w, returned v e) = is_some-respond options v _
  IsAnswered-after_serve m options r c (w, panicked e) = is_some-respond options none _

  IsAnswered-let_in :
      (m : Meth A W V B Raw) (options : CallOptions A) (r : Request A) (c : Client) (w : W)
      → IsAnswered options (let_in A W V B Raw k m options r c w)
  IsAnswered-let_in m options r c w =
      after (initialize A W V B Raw k m) (take A W V B Raw k (initialize A W V B Raw k m).bucket w)
    where
      after :
          (m' : Meth A W V B Raw) (x : W × Bool)
          → IsAnswered options (after_take A W V B Raw m' options r c x)
      after m' (w', false) = is_some-respond options none _
      after m' (w', true) = IsAnswered-after_serve m' options r c _

  IsAnswered-after_request :
      (m : Meth A W V B Raw) (options : CallOptions A) (r : Request A) (c : Client) (w : W)
      → IsAnswered options (after_request A W V B Raw k m options r c w)
  IsAnswered-after_request m options r c w =
      by_flag m.authenticate (authenticate A W k.authenticators r c w)
    where
      by_outcome :
          (x : W × Authenticated A)
          → IsAnswered options (after_authenticate A W V B Raw k m options r c x)
      by_outcome (w', accepted r' c') = IsAnswered-let_in m options r' c' w'
      by_outcome (w', rejected e) = is_some-respond options none _
      by_outcome (w', authenticate_panicked e) = is_some-respond options none _

      by_flag :
          (b : Bool) (x : W × Authenticated A)
          → IsAnswered options (
              if b
              then after_authenticate A W V B Raw k m options r c x
              else let_in A W V B Raw k m options (record r { username = c.kite.username }) c w)
      by_flag true x = by_outcome x
      by_flag false x = IsAnswered-let_in m options _ c w

  -- Every call whose message can be read ends, without a crash, whatever its handlers do, panics
  -- included; and a response is sent exactly if the caller gave a callback for it.
  pub IsAnswered-run_method :
      (m : Meth A W V B Raw) (raw : Raw) (c : Client) (w : W) (options : CallOptions A)
      → k.unmarshal raw ≡ some options
      → IsAnswered options (run_method A W V B Raw k m raw c w)
  unfolding run_method
  IsAnswered-run_method m raw c w options e =
      subst (λ o. IsAnswered options (with_options A W V B Raw k m o c w)) (sym e)
        (IsAnswered-after_request m options _ _ _)
