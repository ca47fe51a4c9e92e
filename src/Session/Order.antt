-- ===== src/Session/Order.antt =====
-- The order of the messages that a session gives.
use kite.Common.{
  if◌then◌else◌, nat_eq, Text, text_eq, Result, ok, err, ◌≡◌, refl, ap, ◌∙◌, Bool, true, false,
  List, [], ◌∷◌, ◌++◌,
}
use kite.Session.{
  err_session_closed, Got, message, fails, blocks, Frame, open_frame, array_frame, message_frame,
  close_frame, heartbeat_frame, other_frame, frame_of, Json,
}
use kite.Session.Websocket.{
  WebsocketSession, Incoming, read_frame, recv, on_frame, of_messages, of_message, first, buffered,
}

-- The message of a receive, if it gives one.
abbrev pub given : Got → List Text
given (message m) = m ∷ []
given (fails e) = []
given blocks = []

abbrev pub decoded_all : Result Text (List Text) → List Text
decoded_all (ok ms) = ms
decoded_all (err e) = []

abbrev pub decoded_one : Result Text Text → List Text
decoded_one (ok m) = m ∷ []
decoded_one (err e) = []

module _ (json : Json) where
  open json use {strings, string}

  -- The messages in a frame.
  abbrev pub in_frame : Frame → Text → List Text
  in_frame array_frame body = decoded_all (strings body)
  in_frame message_frame body = decoded_one (string body)
  in_frame open_frame body = []
  in_frame close_frame body = []
  in_frame heartbeat_frame body = []
  in_frame other_frame body = []

  abbrev pub contents : Incoming → List Text
  contents [] = []
  contents (err e ∷ rest) = contents rest
  contents (ok [] ∷ rest) = contents rest
  contents (ok (c ∷ body) ∷ rest) = in_frame (frame_of c) body ++ contents rest

  -- What a receive gives, what it leaves in the session, and what it leaves to read.
  abbrev pub delivered : Got × WebsocketSession × Incoming → List Text
  delivered (got, w, rest) = given got ++ (w.messages ++ contents rest)

  first-delivered :
      (ms : List Text) (w : WebsocketSession) (rest : Incoming)
      → delivered (first ms w rest) ≡ ms ++ contents rest
  first-delivered [] w rest = refl
  first-delivered (m ∷ ms) w rest = refl

  of_messages-delivered :
      (r : Result Text (List Text)) (w : WebsocketSession) (rest : Incoming)
      → w.messages ≡ []
      → delivered (of_messages r w rest) ≡ decoded_all r ++ contents rest
  of_messages-delivered (err x) w rest e = ap (λ ms. ms ++ contents rest) e
  of_messages-delivered (ok ms) w rest e =
      first-delivered (w.messages ++ ms) w rest ∙ ap (λ l. (l ++ ms) ++ contents rest) e

  of_message-delivered :
      (r : Result Text Text) (w : WebsocketSession) (rest : Incoming)
      → w.messages ≡ []
      → delivered (of_message r w rest) ≡ decoded_one r ++ contents rest
  of_message-delivered (err x) w rest e = ap (λ ms. ms ++ contents rest) e
  of_message-delivered (ok m) w rest e =
      first-delivered (w.messages ++ m ∷ []) w rest ∙ ap (λ l. (l ++ m ∷ []) ++ contents rest) e

  on_frame-delivered :
      (f : Frame) (body : Text) (w : WebsocketSession) (rest : Incoming)
      (again : WebsocketSession → Got × WebsocketSession × Incoming)
      → w.messages ≡ []
      → ((w : WebsocketSession) → w.messages ≡ [] → delivered (again w) ≡ contents rest)
      → delivered (on_frame json f body w rest again) ≡ in_frame f body ++ contents rest
  on_frame-delivered open_frame body w rest again e h = h _ e
  on_frame-delivered heartbeat_frame body w rest again e h = h w e
  on_frame-delivered close_frame body w rest again e h = ap (λ ms. ms ++ contents rest) e
  on_frame-delivered other_frame body w rest again e h = ap (λ ms. ms ++ contents rest) e
  on_frame-delivered array_frame body w rest again e h =
      of_messages-delivered (strings body) w rest e
  on_frame-delivered message_frame body w rest again e h =
      of_message-delivered (string body) w rest e

  closed-delivered :
      (b : Bool) (w : WebsocketSession) (incoming : Incoming) (got : Got)
      (next : Got × WebsocketSession × Incoming)
      → given got ≡ []
      → w.messages ≡ []
      → delivered next ≡ contents incoming
      → delivered (if b then (got, w, incoming) else next) ≡ contents incoming
  closed-delivered true w incoming got next g e h =
      ap (λ l. l ++ (w.messages ++ contents incoming)) g ∙ ap (λ ms. ms ++ contents incoming) e
  closed-delivered false w incoming got next g e h = h

  read_frame-delivered :
      (w : WebsocketSession) (incoming : Incoming)
      → w.messages ≡ []
      → delivered (read_frame json w incoming) ≡ contents incoming
  unfolding read_frame
  read_frame-delivered w [] e = ap (λ ms. ms ++ []) e
  read_frame-delivered w (err x ∷ rest) e =
      closed-delivered w.closed w (err x ∷ rest) (fails err_session_closed) _ refl e
        (ap (λ ms. ms ++ contents rest) e)
  read_frame-delivered w (ok [] ∷ rest) e =
      closed-delivered w.closed w (ok [] ∷ rest) (fails err_session_closed) _ refl e
        (ap (λ ms. ms ++ contents rest) e)
  read_frame-delivered w (ok (c ∷ body) ∷ rest) e =
      closed-delivered w.closed w (ok (c ∷ body) ∷ rest) (fails err_session_closed) _ refl e (
        on_frame-delivered (frame_of c) body w rest (λ w. read_frame json w rest) e
          λ w e. read_frame-delivered w rest e)

  -- A receive from a websocket session neither loses nor invents nor reorders a message: what it
  -- gives, followed by what is left in the session and in the frames that are still to be read, is
  -- what was in the session and in the frames before, whatever the frames are.
  pub recv-delivered :
      (w : WebsocketSession) (incoming : Incoming)
      → delivered (recv json w incoming) ≡ w.messages ++ contents incoming
  unfolding recv
  recv-delivered w incoming = by_messages w.messages refl
    where
      by_messages :
          (ms : List Text)
          → w.messages ≡ ms
          → delivered (buffered json ms w incoming) ≡ ms ++ contents incoming
      by_messages [] e = read_frame-delivered w incoming e
      by_messages (m ∷ ms) e = refl
