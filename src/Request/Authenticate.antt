-- ===== src/Request/Authenticate.antt =====
-- request.go: how the caller of a method is authenticated.
pub mod Accepted
use kite.Common.{
  ltb, leb, nat_beq, if◌then◌else◌, nat_beq_iff, Bool-cases, Option-cases, Result-cases, Eq, ◌==◌,
  ==_iff, ==_refl, nat_eq, Text, codes, text_beq, text_beq_iff, text_eq, is_empty, contains_byte,
  has_prefix, has_prefix-append, trim_space, contains_text, count_byte, cut_at, split_n, split,
  part, cut_at_here, cut_at-append, cut_at-none, split_n-append, split-append, split_whole,
  count_byte-append, count_byte_zero, count_byte_none, count_byte_here, Result, ok, err, ◌>>=◌,
  ◌>>◌, ℕ, zero, suc, ◌+◌, ◌-◌, ◌*◌, ◌/◌, ◌%◌, ◌^◌, ◌≤◌, ◌<◌, ◌≡◌, refl, sym, ap, ◌∙◌, ◌≢◌, ◌↔◌,
  ◌⊎◌, inl, inr, Bool, true, false, ◌&&◌, ◌||◌, not, Option, none, some, List, [], ◌∷◌, ◌++◌, map,
  append_assoc, append-nil, arith,
}
use kite.Protocol.{Kite, Auth}
use kite.Errors.{Error, Thrown}

-- What a client is connected by, as `authenticate` tells sessions apart.
pub data Session : Type 0 where
  websocket_session xhr_session other_session : Session

-- The fields of `Client` that serving a request reads or changes.
pub record Client : Type 0 where
  pub kite : Kite
  pub session : Session
  pub first_request_notified : Bool

-- The type `Request`; `A` is the type of its arguments.
pub record Request (A : Type 0) : Type 0 where
  pub id : Text
  pub method : Text
  pub username : Text
  pub args : A
  pub auth : Option Auth

-- `SetUsername` of a client.
unfoldable pub set_username : Text → Client → Client
set_username username c = record c { kite = record c.kite { username = username } }

abbrev pub authentication_error : Text → Error
authentication_error message = record {
  type = codes "authenticationError";
  message = message;
  code_val = [];
  request_id = [];
}

-- How an authenticator leaves: the request with the username it set, an error by its text, or a
-- panic.
pub data Checked (A : Type 0) : Type 0 where
  checked : Request A → Checked A
  refused : Text → Checked A
  check_panicked : Thrown → Checked A

pub data Authenticated (A : Type 0) : Type 0 where
  accepted : Request A → Client → Authenticated A
  rejected : Error → Authenticated A
  authenticate_panicked : Thrown → Authenticated A

module _ (A W : Type 0) where
  abbrev pub Authenticator : Type 0
  Authenticator = Request A → W → W × Checked A

  abbrev pub after_check : Text → Client → W × Checked A → W × Authenticated A
  after_check type c (w, checked r) = (w, accepted r (set_username r.username c))
  after_check type c (w, refused e) = (w, rejected (authentication_error (type ++ codes ": " ++ e)))
  after_check type c (w, check_panicked e) = (w, authenticate_panicked e)

  abbrev pub by_authenticator :
      Option Authenticator → Request A → Client → W → Auth → W × Authenticated A
  by_authenticator none r c w auth =
      (w, rejected (authentication_error (codes "Unknown authentication type: " ++ auth.type)))
  by_authenticator (some f) r c w auth = after_check auth.type c (f r w)

  abbrev pub by_auth :
      (Text → Option Authenticator) → Request A → Client → W → Option Auth → W × Authenticated A
  by_auth authenticators r c w none =
      (w, rejected (authentication_error (codes "No authentication information is provided")))
  by_auth authenticators r c w (some auth) = by_authenticator (authenticators auth.type) r c w auth

  -- `authenticate`
  unfoldable pub authenticate :
      (Text → Option Authenticator) → Request A → Client → W → W × Authenticated A
  unfolding set_username
  authenticate authenticators r c w = elim c.session [
    | websocket_session ↦ (w, accepted r c)
    | xhr_session ↦ (w, accepted r c)
    | other_session ↦ by_auth authenticators r c w r.auth
  ]
