-- ===== src/Request/Run.antt =====
-- request.go: how a method call is served, from the message to the response.
pub mod Served
pub mod Refused
use kite.Common.{
  ltb, leb, nat_beq, if◌then◌else◌, nat_beq_iff, Bool-cases, Option-cases, Result-cases, Eq, ◌==◌,
  ==_iff, ==_refl, nat_eq, Text, codes, text_beq, text_beq_iff, text_eq, is_empty, contains_byte,
  has_prefix, has_prefix-append, trim_space, contains_text, count_byte, cut_at, split_n, split,
  part, cut_at_here, cut_at-append, cut_at-none, split_n-append, split-append, split_whole,
  count_byte-append, count_byte_zero, count_byte_none, count_byte_here, Result, ok, err, ◌>>=◌,
  ◌>>◌, ℕ, zero, suc, ◌+◌, ◌-◌, ◌*◌, ◌/◌, ◌%◌, ◌^◌, ◌≤◌, ◌<◌, ◌≡◌, refl, sym, ap, ◌∙◌, ◌≢◌, ◌↔◌,
  ◌⊎◌, inl, inr, Bool, true, false, ◌&&◌, ◌||◌, not, Option, none, some, List, [], ◌∷◌, ◌++◌, map,
  append_assoc, append-nil, arith,
}
use kite.Protocol.{Kite, Auth}
use kite.Errors.{Error, Thrown, kite_error, create_error, create_error_of}
use kite.Method.{Ran, returned, panicked, Handler, FinalFunc, Method, serve_kite}
use kite.Request.Authenticate.{
  Session, websocket_session, xhr_session, other_session, Client, Request, Authenticated, accepted,
  rejected, authenticate_panicked, Authenticator, authenticate,
}

-- The type `callOptions`. A response callback is given, or is nil.
pub record CallOptions (A : Type 0) : Type 0 where
  pub kite : Kite
  pub auth : Option Auth
  pub with_args : A
  pub response_callback : Bool

-- The type `Response`.
pub record Response (V : Type 0) : Type 0 where
  pub error : Option Error
  pub result : Option V

-- `A` is the type of arguments, `W` all that handlers read and change, `V` what they answer, `B` a
-- bucket of github.com/juju/ratelimit and `Raw` the message as it came.
module _ (A W V B Raw : Type 0) where
  abbrev pub Meth : Type 0
  Meth = Method (Request A) W V Thrown B

  abbrev pub Hand : Type 0
  Hand = Handler (Request A) W V Thrown B

  -- What serving a call needs of its kite and of packages: the handlers of the kite, its
  -- authenticators, what the handlers of the first request do, the next random id, `TakeAvailable(1)`
  -- of a bucket (whether a token was there), and the unmarshalling of the message, which panics or
  -- finds the options.
  pub record Local : Type 0 where
    pub pre_handlers : List Hand
    pub post_handlers : List Hand
    pub final_funcs : List (FinalFunc (Request A) W V Thrown B)
    pub authenticators : Text → Option (Authenticator A W)
    pub on_first_request : Client → W → W
    pub random_id : W → Text
    pub take_available : B → W → W × Bool
    pub unmarshal : Raw → Option (CallOptions A)

  -- `initialize` is the block of `runMethod` that adds the kite's handlers to the method's, once.
  unfoldable pub initialize : Local → Meth → Meth
  initialize k m = if m.initialized then m else record m {
    pre_handlers = m.pre_handlers ++ k.pre_handlers;
    post_handlers = m.post_handlers ++ k.post_handlers;
    final_funcs = m.final_funcs ++ k.final_funcs;
    initialized = true;
  }

  -- What is left of a call: the method, the client, all else, and the response that was sent, if
  -- any. Or the panic in `newRequest` for which there is no function to call back yet.
  pub data Outcome : Type 0 where
    done : Meth → Client → W → Option (Response V) → Outcome
    crashed : Client → W → Outcome

  -- `callFunc`, up to the call of the caller's function; an error of that call is only logged.
  abbrev pub respond : CallOptions A → Option V → Option Error → Option (Response V)
  respond options result error =
      if options.response_callback then some (record { error = error; result = result }) else none

  abbrev notify_once : Local → CallOptions A → Client → W → Bool → Client × W
  notify_once k options c w true = (c, w)
  notify_once k options c w false =
      let c' : Client = record c { kite = options.kite; first_request_notified = true } in
      (c', k.on_first_request c' w)

  -- The client and all else once the handlers of the first request have been told, which are not
  -- those of a client that has opened a websocket.
  unfoldable pub notify_first : Local → CallOptions A → Client → W → Client × W
  notify_first k options c w = elim c.session [
    | websocket_session ↦ (c, w)
    | xhr_session ↦ notify_once k options c w c.first_request_notified
    | other_session ↦ notify_once k options c w c.first_request_notified
  ]

  -- The request that `newRequest` makes.
  unfoldable pub new_request : Local → Text → CallOptions A → W → Request A
  new_request k method options w = record {
    id = k.random_id w;
    method = method;
    username = [];
    args = options.with_args;
    auth = options.auth;
  }

  abbrev limit_error : Text → Error
  limit_error id = record {
    type = codes "requestLimitError";
    message = codes "The maximum request rate is exceeded.";
    code_val = [];
    request_id = id;
  }

  abbrev pub take : Local → Option B → W → W × Bool
  take k none w = (w, true)
  take k (some b) w = k.take_available b w

  abbrev after_serve : Meth → CallOptions A → Request A → Client → W × Ran V Thrown → Outcome
  after_serve m options r c (w, returned v e) =
      done m c w (respond options v (create_error_of (some r.id) e))
  after_serve m options r c (w, panicked e) =
      done m c w (respond options none (some (create_error (some r.id) e)))

  abbrev after_take : Meth → CallOptions A → Request A → Client → W × Bool → Outcome
  after_take m options r c (w, false) = done m c w (respond options none (some (limit_error r.id)))
  after_take m options r c (w, true) =
      after_serve m options r c (serve_kite (Request A) W V Thrown B m r w)

  abbrev let_in : Local → Meth → CallOptions A → Request A → Client → W → Outcome
  let_in k m options r c w =
      let m' = initialize k m in after_take m' options r c (take k m'.bucket w)

  -- An authenticator that does not take the request leaves its id.
  abbrev after_authenticate :
      Local → Meth → CallOptions A → Request A → Client → W × Authenticated A → Outcome
  after_authenticate k m options r c (w, accepted r' c') = let_in k m options r' c' w
  after_authenticate k m options r c (w, rejected e) =
      done m c w (respond options none (some (create_error (some r.id) (kite_error e))))
  after_authenticate k m options r c (w, authenticate_panicked e) =
      done m c w (respond options none (some (create_error (some r.id) e)))

  abbrev after_request : Local → Meth → CallOptions A → Request A → Client → W → Outcome
  after_request k m options r c w =
      if m.authenticate
      then after_authenticate k m options r c (authenticate A W k.authenticators r c w)
      else let_in k m options (record r { username = c.kite.username }) c w

  abbrev with_options : Local → Meth → Option (CallOptions A) → Client → W → Outcome
  with_options k m none c w = crashed c w
  with_options k m (some options) c w =
      let (c', w') = notify_first k options c w in
      after_request k m options (new_request k m.name options w') c' w'

  -- `runMethod`
  unfoldable pub run_method : Local → Meth → Raw → Client → W → Outcome
  unfolding notify_first new_request initialize
  run_method k m raw c w = with_options k m (k.unmarshal raw) c w

  -- The method after a call.
  abbrev pub method_after : Meth → Outcome → Meth
  method_after m (done m' c w response) = m'
  method_after m (crashed c w) = m

  abbrev pub response_of : Outcome → Option (Response V)
  response_of (done m c w response) = response
  response_of (crashed c w) = none

  abbrev pub world_after : Outcome → W
  world_after (done m c w response) = w
  world_after (crashed c w) = w

  -- Calls of one method, each with its message, its client and what else has changed since.
  unfoldable pub method_after_calls : Local → Meth → List (Raw × (Client × W)) → Meth
  method_after_calls k m [] = m
  method_after_calls k m ((raw, (c, w)) ∷ calls) =
      method_after_calls k (method_after m (run_method k m raw c w)) calls
