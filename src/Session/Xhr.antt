-- ===== src/Session/Xhr.antt =====
-- sockjsclient/xhr.go: the type `XHRSession`, which polls for its messages.
use kite.Common.{
  nat_beq, if◌then◌else◌, nat_eq, Text, codes, text_eq, Result, ok, err, ℕ, Bool, true, false, ◌&&◌,
  not, List, [], ◌∷◌, ◌++◌,
}
use kite.Session.{
  SessionState, session_opening, session_active, session_closing, session_closed, SessionError,
  err_session_closed, err_aborted, no_session, unexpected_empty, no_message, invalid_frame,
  closed_by_server, bad_status, failed, Got, message, fails, blocks, Frame, open_frame, array_frame,
  message_frame, close_frame, heartbeat_frame, other_frame, frame_of, Json,
}

-- The type `XHRSession`; `abort` is whether the channel holds its signal.
pub record XhrSession : Type 0 where
  pub messages : List Text
  pub state : SessionState
  pub abort : Bool

-- The body of a response: its first byte did not come in time, reading it failed, or its first byte
-- with what follows.
pub data Body : Type 0 where
  poll_timeout : Body
  body_error : Text → Body
  body : ℕ → Text → Body

-- What ends a poll: the signal of `abort`, an error of the client, or a response with its status.
pub data Poll : Type 0 where
  aborted : Poll
  no_response : Text → Poll
  response : ℕ → Body → Poll

abbrev is_closed_state : SessionState → Bool
is_closed_state session_closed = true
is_closed_state session_opening = false
is_closed_state session_active = false
is_closed_state session_closing = false

-- `isClosed`
abbrev pub is_closed : XhrSession → Bool
is_closed x = is_closed_state x.state

-- `Close`
unfoldable pub close : XhrSession → XhrSession
close x = record x { state = session_closed; abort = true }

-- What `DialXHR` makes of the response to its first poll.
abbrev of_first : Frame → Result SessionError XhrSession
of_first open_frame = ok (record { messages = []; state = session_active; abort = false })
of_first array_frame = err invalid_frame
of_first message_frame = err invalid_frame
of_first close_frame = err invalid_frame
of_first heartbeat_frame = err invalid_frame
of_first other_frame = err invalid_frame

abbrev of_first_body : Body → Result SessionError XhrSession
of_first_body poll_timeout = err (failed (codes "polling on XHR response has timed out"))
of_first_body (body_error e) = err (failed e)
of_first_body (body c rest) = of_first (frame_of c)

-- `DialXHR`
unfoldable pub dial_xhr : Result Text (ℕ × Body) → Result SessionError XhrSession
unfolding frame_of
dial_xhr (err e) = err (failed e)
dial_xhr (ok (status, b)) = if nat_beq status 200 then of_first_body b else err (bad_status status)

-- `Send`, with the status that the post was answered with.
abbrev of_status : ℕ → XhrSession → XhrSession × Result SessionError Unit
of_status status x =
    if nat_beq status 404
    then (close x, err no_session)
    else if not (nat_beq status 200) && not (nat_beq status 204)
    then (x, err (bad_status status))
    else (x, ok tt)

abbrev posted : Result Text ℕ → XhrSession → XhrSession × Result SessionError Unit
posted (err e) x = (x, err (failed e))
posted (ok status) x = of_status status x

unfoldable pub send :
    (Text → Result Text ℕ) → Text → XhrSession → XhrSession × Result SessionError Unit
unfolding close
send post frame x = if is_closed x then (x, err err_session_closed) else posted (post frame) x

-- What a response makes of the session: something to return, or another poll.
pub data Handled : Type 0 where
  returns : Got → XhrSession → Handled
  polls_again : XhrSession → Handled

abbrev pub first : List Text → XhrSession → Handled
first [] x = returns (fails no_message) (record x { messages = [] })
first (m ∷ ms) x = returns (message m) (record x { messages = ms })

abbrev pub of_messages : Result Text (List Text) → XhrSession → Handled
of_messages (err e) x = returns (fails (failed e)) x
of_messages (ok ms) x = first (x.messages ++ ms) x

abbrev pub of_message : Result Text Text → XhrSession → Handled
of_message (err e) x = returns (fails (failed e)) x
of_message (ok []) x = returns (fails unexpected_empty) x
of_message (ok (c ∷ m)) x = first (x.messages ++ (c ∷ m) ∷ []) x

module _ (json : Json) where
  open json use {strings, string}

  abbrev pub on_frame : Frame → Text → XhrSession → Handled
  on_frame open_frame rest x = polls_again (record x { state = session_active })
  on_frame heartbeat_frame rest x = polls_again x
  on_frame array_frame rest x = of_messages (strings rest) x
  on_frame message_frame rest x = of_message (string rest) x
  on_frame close_frame rest x =
      returns (fails (closed_by_server rest)) (record x { state = session_closed })
  on_frame other_frame rest x = returns (fails invalid_frame) x

  abbrev pub of_body : Body → XhrSession → Handled
  of_body poll_timeout x = polls_again x
  of_body (body_error e) x = returns (fails (failed e)) x
  of_body (body c rest) x = on_frame (frame_of c) rest x

  -- `handleResp`
  unfoldable pub handle_resp : ℕ → Body → XhrSession → Handled
  unfolding close frame_of
  handle_resp status b x =
      if nat_beq status 200
      then of_body b x
      else if nat_beq status 404
      then returns (fails no_session) (close x)
      else returns (fails (bad_status status)) x

  abbrev pub Received : Type 0
  Received = Got × XhrSession × List Poll

  abbrev pub after_poll : Handled → List Poll → (XhrSession → Received) → Received
  after_poll (returns got x) rest again = (got, x, rest)
  after_poll (polls_again x) rest again = again x

  -- The loop of `Recv`
  unfoldable pub poll_loop : XhrSession → List Poll → Received
  unfolding handle_resp
  poll_loop x [] = (blocks, x, [])
  poll_loop x (aborted ∷ rest) = (fails err_aborted, record x { abort = false }, rest)
  poll_loop x (no_response e ∷ rest) = (fails (failed e), x, rest)
  poll_loop x (response status b ∷ rest) =
      after_poll (handle_resp status b x) rest (λ x. poll_loop x rest)

  abbrev pub buffered : List Text → XhrSession → List Poll → Received
  buffered [] x polls =
      if is_closed x then (fails err_session_closed, x, polls) else poll_loop x polls
  buffered (m ∷ ms) x polls = (message m, record x { messages = ms }, polls)

  -- `Recv`
  unfoldable pub recv : XhrSession → List Poll → Received
  unfolding poll_loop
  recv x polls = buffered x.messages x polls
