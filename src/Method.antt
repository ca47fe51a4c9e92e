-- ===== src/Method.antt =====
-- method.go: a method of a kite and the chain of handlers that serves it. The proofs are in the
-- modules below.
pub mod Chain
use kite.Common.{
  ltb, leb, nat_beq, if◌then◌else◌, nat_beq_iff, Bool-cases, Option-cases, Result-cases, Eq, ◌==◌,
  ==_iff, ==_refl, nat_eq, Text, codes, text_beq, text_beq_iff, text_eq, is_empty, contains_byte,
  has_prefix, has_prefix-append, trim_space, contains_text, count_byte, cut_at, split_n, split,
  part, cut_at_here, cut_at-append, cut_at-none, split_n-append, split-append, split_whole,
  count_byte-append, count_byte_zero, count_byte_none, count_byte_here, Result, ok, err, ◌>>=◌,
  ◌>>◌, ℕ, zero, suc, ◌+◌, ◌-◌, ◌*◌, ◌/◌, ◌%◌, ◌^◌, ◌≤◌, ◌<◌, ◌≡◌, refl, sym, ap, ◌∙◌, ◌≢◌, ◌↔◌,
  ◌⊎◌, inl, inr, Bool, true, false, ◌&&◌, ◌||◌, not, Option, none, some, List, [], ◌∷◌, ◌++◌, map,
  append_assoc, append-nil, arith,
}

-- `MethodHandling`
pub data MethodHandling : Type 0 where
  return_method return_first return_latest : MethodHandling

-- What a handler leaves: a result and an error, of which either may be nil, or a panic.
pub data Ran (V E : Type 0) : Type 0 where
  returned : Option V → Option E → Ran V E
  panicked : E → Ran V E

-- `R` is the request, `W` all that handlers read and change, `V` what they answer and `E` the
-- errors; `B` is a bucket of github.com/juju/ratelimit.
module _ (R W V E B : Type 0) where
  abbrev pub Handler : Type 0
  Handler = R → W → W × Ran V E

  abbrev pub FinalFunc : Type 0
  FinalFunc = R → Option V → Option E → W → W × Ran V E

  pub record Method : Type 0 where
    pub name : Text
    pub handler : Handler
    pub pre_handlers : List Handler
    pub post_handlers : List Handler
    pub final_funcs : List FinalFunc
    pub authenticate : Bool
    pub handling : MethodHandling
    pub initialized : Bool
    pub bucket : Option B

  -- `addHandle`
  unfoldable pub add_handle : Bool → MethodHandling → Text → Handler → Method
  add_handle disable_authentication handling method handler = record {
    name = method;
    handler = handler;
    pre_handlers = [];
    post_handlers = [];
    final_funcs = [];
    authenticate = not disable_authentication;
    handling = handling;
    initialized = false;
    bucket = none;
  }

  -- `DisableAuthentication`, `Throttle`, `PreHandle`, `PostHandle` and `FinalFunc` of a method.
  unfoldable pub disable_authentication : Method → Method
  disable_authentication m = record m { authenticate = false }

  unfoldable pub throttle : B → Method → Method
  throttle b m = record m { bucket = elim m.bucket [ none ↦ some b | some old ↦ some old ] }

  unfoldable pub pre_handle : Handler → Method → Method
  pre_handle h m = record m { pre_handlers = m.pre_handlers ++ h ∷ [] }

  unfoldable pub post_handle : Handler → Method → Method
  post_handle h m = record m { post_handlers = m.post_handlers ++ h ∷ [] }

  unfoldable pub final_func : FinalFunc → Method → Method
  final_func f m = record m { final_funcs = m.final_funcs ++ f ∷ [] }

  -- if m.handling == ReturnFirst && resp != nil && firstResp == nil { firstResp = resp }
  abbrev pub keep_first : MethodHandling → Option V → Option V → Option V
  keep_first return_first (some v) none = some v
  keep_first _ resp first = first

  -- How a loop over handlers ends: with the first response and the last one, by an error, or by a
  -- panic.
  pub data Looped : Type 0 where
    went : Option V → Option V → Looped
    stopped : E → Looped
    blew_up : E → Looped

  -- What a loop does after a handler has run; `rest` is the loop over the handlers that follow.
  unfoldable pub run_next :
      MethodHandling → (Option V → Option V → W → W × Looped) → Option V → W × Ran V E → W × Looped
  run_next mode rest first (w, panicked e) = (w, blew_up e)
  run_next mode rest first (w, returned resp (some e)) = (w, stopped e)
  run_next mode rest first (w, returned resp none) = rest (keep_first mode resp first) resp w

  -- The loops over the handlers before and behind the method's own.
  unfoldable pub run_handlers :
      MethodHandling → R → List Handler → Option V → Option V → W → W × Looped
  unfolding run_next
  run_handlers mode r [] first resp w = (w, went first resp)
  run_handlers mode r (h ∷ hs) first resp w = run_next mode (run_handlers mode r hs) first (h r w)

  -- `final`: each function sees what the one before it left, a panic ends the call.
  unfoldable pub final_next : (Option V → Option E → W → W × Ran V E) → W × Ran V E → W × Ran V E
  final_next rest (w, panicked e) = (w, panicked e)
  final_next rest (w, returned resp e) = rest resp e w

  unfoldable pub final : R → List FinalFunc → Option V → Option E → W → W × Ran V E
  unfolding final_next
  final r [] resp e w = (w, returned resp e)
  final r (f ∷ fs) resp e w = final_next (final r fs) (f r resp e w)

  -- switch m.handling
  unfoldable pub choose : MethodHandling → Option V → Option V → Option V → Option V
  choose return_method method_resp first resp = method_resp
  choose return_first method_resp first resp = first
  choose return_latest method_resp first resp = resp

  -- `ServeKite` behind the loop over the handlers after the method's own.
  unfoldable pub after_post : R → Method → Option V → W × Looped → W × Ran V E
  unfolding final choose
  after_post r m method_resp (w, blew_up e) = (w, panicked e)
  after_post r m method_resp (w, stopped e) = final r m.final_funcs none (some e) w
  after_post r m method_resp (w, went first resp) =
      final r m.final_funcs (choose m.handling method_resp first resp) none w

  -- `ServeKite` behind the method's own handler.
  unfoldable pub after_base : R → Method → Option V → W × Ran V E → W × Ran V E
  unfolding after_post run_handlers
  after_base r m first (w, panicked e) = (w, panicked e)
  after_base r m first (w, returned resp (some e)) = final r m.final_funcs none (some e) w
  after_base r m first (w, returned resp none) =
      after_post r m resp
        (run_handlers m.handling r m.post_handlers (keep_first m.handling resp first) resp w)

  -- `ServeKite` behind the loop over the handlers before the method's own.
  unfoldable pub after_pre : R → Method → W × Looped → W × Ran V E
  unfolding after_base
  after_pre r m (w, blew_up e) = (w, panicked e)
  after_pre r m (w, stopped e) = final r m.final_funcs none (some e) w
  after_pre r m (w, went first resp) = after_base r m first (m.handler r w)

  unfoldable pub serve_kite : Method → R → W → W × Ran V E
  unfolding after_pre
  serve_kite m r w = after_pre r m (run_handlers m.handling r m.pre_handlers none none w)
