-- ===== src/Examples/Calls.antt =====
-- Calls of a method at concrete values: numbers stand for all else, for answers and for buckets.
use kite.Common.{
  if◌then◌else◌, ◌==◌, nat_eq, Text, codes, text_beq, text_eq, ℕ, suc, ◌+◌, ◌*◌, ◌≡◌, refl, ◌↔◌,
  inl, inr, true, false, Option, none, some, [], ◌∷◌,
}
use kite.Protocol.{Kite, Auth}
use kite.Method.{serve_kite, returned, return_method}
use kite.Request.Authenticate.{
  websocket_session, other_session, Client, Request, checked, refused, accepted, Authenticator,
  authenticate,
}
use kite.Request.Authenticate.Accepted.{LetThrough, authenticate-LetThrough}
use kite.Request.Run.{
  CallOptions, Local, Meth, Hand, run_method, notify_first, new_request, initialize,
  method_after_calls, done,
}
use kite.Request.Run.Refused.{IsShut, IsShut-run_method}
use kite.Request.Run.Served.{IsOnce, IsAnswered, IsOnce-method_after_calls, IsAnswered-run_method}

abbrev math : Kite
math = record {
  name = codes "math";
  username = codes "devrim";
  id = codes "7f2c";
  environment = codes "prod";
  region = codes "eu";
  version = codes "1.0.0";
  hostname = codes "host";
}

abbrev ours : Client
ours = record { kite = math; session = websocket_session; first_request_notified = false }

abbrev theirs : Client
theirs = record { kite = math; session = other_session; first_request_notified = false }

-- The kite key of `devrim` is the text "key"; no other key is taken.
abbrev kite_key : Authenticator ℕ ℕ
kite_key r w = elim r.auth [
  | none ↦ (w, refused (codes "no key"))
  | some auth ↦
      if auth.key == codes "key"
      then (w, checked (record r { username = codes "devrim" }))
      else (w, refused (codes "wrong key"))
]

abbrev by_kite_key : Text → Option (Authenticator ℕ ℕ)
by_kite_key type = if type == codes "kiteKey" then some kite_key else none

abbrev asked : Option Auth → Request ℕ
asked auth = record {
  id = codes "r1";
  method = codes "square";
  username = [];
  args = 3;
  auth = auth;
}

abbrev good : Auth
good = record { type = codes "kiteKey"; key = codes "key" }

authenticate-LetThrough_example :
    ((authenticate ℕ ℕ by_kite_key (asked (some good)) theirs 0).1
      ≡ accepted (record (asked (some good)) { username = codes "devrim" }) theirs)
    ↔ LetThrough ℕ ℕ by_kite_key
        (asked (some good))
        theirs
        0
        (record (asked (some good)) { username = codes "devrim" })
        theirs
authenticate-LetThrough_example =
    authenticate-LetThrough ℕ ℕ by_kite_key (asked (some good)) theirs 0
      (record (asked (some good)) { username = codes "devrim" }) theirs

abbrev counting : Hand ℕ ℕ ℕ ℕ (CallOptions ℕ)
counting r w = (suc w, returned (some (r.args * r.args)) none)

abbrev local : Local ℕ ℕ ℕ ℕ (CallOptions ℕ)
local = record {
  pre_handlers = counting ∷ [];
  post_handlers = [];
  final_funcs = [];
  authenticators = by_kite_key;
  on_first_request = λ c w. w + 100;
  random_id = λ w. codes "r1";
  take_available = λ b w. (w, true);
  unmarshal = some;
}

abbrev square : Meth ℕ ℕ ℕ ℕ (CallOptions ℕ)
square = record {
  name = codes "square";
  handler = counting;
  pre_handlers = [];
  post_handlers = [];
  final_funcs = [];
  authenticate = true;
  handling = return_method;
  initialized = false;
  bucket = none;
}

abbrev call : Option Auth → CallOptions ℕ
call auth = record { kite = math; auth = auth; with_args = 3; response_callback = true }

run_method-square :
    run_method ℕ ℕ ℕ ℕ (CallOptions ℕ) local square (call (some good)) theirs 0
    ≡ done
        (initialize ℕ ℕ ℕ ℕ (CallOptions ℕ) local square)
        (record theirs { first_request_notified = true })
        102
        (some (record { error = none; result = some 9 }))
unfolding run_method serve_kite authenticate text_beq
run_method-square = refl

IsOnce-method_after_calls_example : IsOnce ℕ ℕ ℕ ℕ (CallOptions ℕ) local square (
    method_after_calls ℕ ℕ ℕ ℕ
      (CallOptions ℕ)
      local
      square
      ((call (some good), (theirs, 0)) ∷ (call none, (ours, 5)) ∷ []))
IsOnce-method_after_calls_example =
    IsOnce-method_after_calls ℕ ℕ ℕ ℕ (CallOptions ℕ) local square
      ((call (some good), (theirs, 0)) ∷ (call none, (ours, 5)) ∷ [])

IsAnswered-run_method_example :
    IsAnswered ℕ ℕ ℕ ℕ
      (CallOptions ℕ)
      local
      (call none)
      (run_method ℕ ℕ ℕ ℕ (CallOptions ℕ) local square (call none) theirs 0)
IsAnswered-run_method_example =
    IsAnswered-run_method ℕ ℕ ℕ ℕ (CallOptions ℕ) local square (call none) theirs 0 (call none) refl

not-LetThrough :
    (r' : Request ℕ) (c' : Client)
    → ¬ (
        LetThrough ℕ ℕ by_kite_key
          (asked none)
          (record theirs { first_request_notified = true })
          100
          r'
          c')
not-LetThrough r' c' (inl (inl e, er, ec)) = cc
not-LetThrough r' c' (inl (inr e, er, ec)) = cc
not-LetThrough r' c' (inr (e, k, h)) = let given = k.given in cc

IsShut-run_method_example :
    IsShut ℕ ℕ ℕ ℕ
      (CallOptions ℕ)
      local
      square
      (authenticate ℕ ℕ by_kite_key
        (asked none)
        (record theirs { first_request_notified = true })
        100).0
      (run_method ℕ ℕ ℕ ℕ (CallOptions ℕ) local square (call none) theirs 0)
unfolding notify_first new_request
IsShut-run_method_example =
    IsShut-run_method ℕ ℕ ℕ ℕ (CallOptions ℕ) local square (call none) theirs 0 (call none) refl
      refl not-LetThrough
