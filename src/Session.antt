-- ===== src/Session.antt =====
-- sockjsclient/sockjsclient.go and sockjsclient/xhr.go: the sessions of a client, over a websocket
-- connection and over polling.
pub mod Websocket
pub mod Xhr
pub mod Order
pub mod Polls
use kite.Common.{
  ltb, leb, nat_beq, if◌then◌else◌, nat_beq_iff, Bool-cases, Option-cases, Result-cases, Eq, ◌==◌,
  ==_iff, ==_refl, nat_eq, Text, codes, text_beq, text_beq_iff, text_eq, is_empty, contains_byte,
  has_prefix, has_prefix-append, trim_space, contains_text, count_byte, cut_at, split_n, split,
  part, cut_at_here, cut_at-append, cut_at-none, split_n-append, split-append, split_whole,
  count_byte-append, count_byte_zero, count_byte_none, count_byte_here, Result, ok, err, ◌>>=◌,
  ◌>>◌, ℕ, zero, suc, ◌+◌, ◌-◌, ◌*◌, ◌/◌, ◌%◌, ◌^◌, ◌≤◌, ◌<◌, ◌≡◌, refl, sym, ap, ◌∙◌, ◌≢◌, ◌↔◌,
  ◌⊎◌, inl, inr, Bool, true, false, ◌&&◌, ◌||◌, not, Option, none, some, List, [], ◌∷◌, ◌++◌, map,
  append_assoc, append-nil, arith,
}

-- sockjs.SessionState of github.com/igm/sockjs-go, in its order.
pub data SessionState : Type 0 where
  session_opening session_active session_closing session_closed : SessionState

pub data SessionError : Type 0 where
  err_session_closed err_aborted no_session unexpected_empty no_message invalid_frame : SessionError
  closed_by_server : Text → SessionError
  bad_status : ℕ → SessionError
  failed : Text → SessionError

-- What a receive gives: a message, an error, or nothing yet.
pub data Got : Type 0 where
  message : Text → Got
  fails : SessionError → Got
  blocks : Got

-- The first byte of a SockJS frame.
pub data Frame : Type 0 where
  open_frame array_frame message_frame close_frame heartbeat_frame other_frame : Frame

unfoldable pub frame_of : ℕ → Frame
frame_of c =
    if nat_beq c b'o'
    then open_frame
    else if nat_beq c b'a'
    then array_frame
    else if nat_beq c b'm'
    then message_frame
    else if nat_beq c b'c'
    then close_frame
    else if nat_beq c b'h'
    then heartbeat_frame
    else other_frame

-- encoding/json: an array of strings, and a string.
pub record Json : Type 0 where
  pub strings : Text → Result Text (List Text)
  pub string : Text → Result Text Text
