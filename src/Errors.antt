-- ===== src/Errors.antt =====
-- errors.go: the errors that kites send to one another.
use kite.Common.{
  if◌then◌else◌, ◌==◌, nat_eq, Text, codes, text_eq, is_empty, ◌≡◌, refl, false, ◌&&◌, not, Option,
  none, some, [], ◌++◌, arith,
}

-- The type `Error`.
pub record Error : Type 0 where
  pub type : Text
  pub message : Text
  pub code_val : Text
  pub request_id : Text

-- `Error.Error`
unfoldable pub error_text : Error → Text
error_text e =
    let s =
      if not (e.type == codes "genericError") && not (is_empty e.type)
      then e.type ++ codes ": " ++ e.message
      else e.message in
    if not (is_empty e.request_id) then s ++ codes " (" ++ e.request_id ++ codes ")" else s

-- What a handler returns as its error or panics with, as `createError` tells them apart: an
-- `*Error`, a `*dnode.ArgumentError`, or another value, by the text that it prints as.
pub data Thrown : Type 0 where
  kite_error : Error → Thrown
  argument_error : Text → Thrown
  other_value : Text → Thrown

-- The switch of `createError`.
unfoldable pub typed : Thrown → Error
typed (kite_error e) = e
typed (argument_error message) = record {
  type = codes "argumentError";
  message = message;
  code_val = [];
  request_id = [];
}
typed (other_value message) = record {
  type = codes "genericError";
  message = message;
  code_val = [];
  request_id = [];
}

-- `createError` of a value that is not nil. The request is given by its id, or is nil.
unfoldable pub create_error : Option Text → Thrown → Error
unfolding typed
create_error none thrown = typed thrown
create_error (some id) thrown =
    if is_empty (typed thrown).request_id
    then record (typed thrown) { request_id = id }
    else typed thrown

-- An error that is nil is answered by nil.
abbrev pub create_error_of : Option Text → Option Thrown → Option Error
create_error_of request none = none
create_error_of request (some thrown) = some (create_error request thrown)

-- An error that was made for a request with an id is passed on unchanged for any other request: it
-- keeps the id of the request that it was made for, or the id that it had before.
pub create_error_again :
    (id : Text) (other : Option Text) (thrown : Thrown)
    → is_empty id ≡ false
    → create_error other (kite_error (create_error (some id) thrown))
      ≡ create_error (some id) thrown
unfolding create_error typed
create_error_again id none thrown set = refl
create_error_again id (some other) thrown set = ground arith
