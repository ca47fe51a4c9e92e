-- ===== src/Session/Websocket.antt =====
-- sockjsclient/sockjsclient.go: the type `WebsocketSession`.
use kite.Common.{
  if◌then◌else◌, nat_eq, Text, text_eq, Result, ok, err, Bool, true, List, [], ◌∷◌, ◌++◌,
}
use kite.Session.{
  SessionState, session_active, session_closed, SessionError, err_session_closed, unexpected_empty,
  no_message, invalid_frame, failed, Got, message, fails, blocks, Frame, open_frame, array_frame,
  message_frame, close_frame, heartbeat_frame, other_frame, frame_of, Json,
}

-- The type `WebsocketSession`; `sent` is what was written to the connection.
pub record WebsocketSession : Type 0 where
  pub messages : List Text
  pub closed : Bool
  pub state : SessionState
  pub sent : List Text

-- What conn.ReadMessage gives, in order.
abbrev pub Incoming : Type 0
Incoming = List (Result Text Text)

abbrev pub Received : Type 0
Received = Got × WebsocketSession × Incoming

-- The first message in the slice.
abbrev pub first : List Text → WebsocketSession → Incoming → Received
first [] w rest = (fails no_message, record w { messages = [] }, rest)
first (m ∷ ms) w rest = (message m, record w { messages = ms }, rest)

abbrev pub of_messages : Result Text (List Text) → WebsocketSession → Incoming → Received
of_messages (err e) w rest = (fails (failed e), w, rest)
of_messages (ok ms) w rest = first (w.messages ++ ms) w rest

abbrev pub of_message : Result Text Text → WebsocketSession → Incoming → Received
of_message (err e) w rest = (fails (failed e), w, rest)
of_message (ok m) w rest = first (w.messages ++ m ∷ []) w rest

module _ (json : Json) where
  open json use {strings, string}

  -- The switch on the type of a frame; `again` reads the next.
  abbrev pub on_frame :
      Frame → Text → WebsocketSession → Incoming → (WebsocketSession → Received) → Received
  on_frame open_frame body w rest again = again (record w { state = session_active })
  on_frame heartbeat_frame body w rest again = again w
  on_frame array_frame body w rest again = of_messages (strings body) w rest
  on_frame message_frame body w rest again = of_message (string body) w rest
  on_frame close_frame body w rest again =
      (fails err_session_closed, record w { state = session_closed }, rest)
  on_frame other_frame body w rest again = (fails invalid_frame, w, rest)

  -- The loop of `Recv`
  unfoldable pub read_frame : WebsocketSession → Incoming → Received
  unfolding frame_of
  read_frame w [] = (blocks, w, [])
  read_frame w (err e ∷ rest) =
      if w.closed then (fails err_session_closed, w, err e ∷ rest) else (fails (failed e), w, rest)
  read_frame w (ok [] ∷ rest) =
      if w.closed
      then (fails err_session_closed, w, ok [] ∷ rest)
      else (fails unexpected_empty, w, rest)
  read_frame w (ok (c ∷ body) ∷ rest) =
      let next = on_frame (frame_of c) body w rest (λ w. read_frame w rest) in
      if w.closed then (fails err_session_closed, w, ok (c ∷ body) ∷ rest) else next

  -- `Recv`
  abbrev pub buffered : List Text → WebsocketSession → Incoming → Received
  buffered [] w incoming = read_frame w incoming
  buffered (m ∷ ms) w incoming = (message m, record w { messages = ms }, incoming)

  unfoldable pub recv : WebsocketSession → Incoming → Received
  unfolding read_frame
  recv w incoming = buffered w.messages w incoming

-- `Send`, with what encoding/json makes of the string and what the connection answers.
unfoldable pub send :
    (Text → Text)
    → (Text → Result Text Unit)
    → Text
    → WebsocketSession
    → WebsocketSession × Result SessionError Unit
send encode write str w =
    if w.closed then (w, err err_session_closed) else written (write (encode str))
  where
    written : Result Text Unit → WebsocketSession × Result SessionError Unit
    written (err e) = (w, err (failed e))
    written (ok _) = (record w { sent = w.sent ++ encode str ∷ [] }, ok tt)

-- `Close`, with what closing the connection answers.
unfoldable pub close :
    Result Text Unit → WebsocketSession → WebsocketSession × Result SessionError Unit
close answer w =
    if w.closed
    then (w, err err_session_closed)
    else (record w { closed = true }, closed_with answer)
  where
    closed_with : Result Text Unit → Result SessionError Unit
    closed_with (err e) = err (failed e)
    closed_with (ok _) = ok tt
