-- ===== src/Session/Polls.antt =====
-- sockjsclient/xhr.go: the order of the messages that a polling session gives.
use kite.Common.{
  nat_beq, if◌then◌else◌, nat_eq, Text, text_eq, Result, ok, err, ℕ, ◌≡◌, refl, sym, ap, ◌∙◌, Bool,
  true, false, List, [], ◌∷◌, ◌++◌, append_assoc, append-nil,
}
use kite.Session.{
  err_session_closed, bad_status, no_session, Got, fails, Frame, open_frame, array_frame,
  message_frame, close_frame, heartbeat_frame, other_frame, frame_of, Json,
}
use kite.Session.Xhr.{
  is_closed, buffered, poll_loop, recv, XhrSession, Body, poll_timeout, body_error, body, Poll,
  aborted, no_response, response, Handled, returns, polls_again, close, handle_resp, on_frame,
  of_body, of_messages, of_message, first, after_poll,
}
use kite.Session.Order.{given, decoded_all}

-- An empty message is an error.
abbrev pub decoded_full : Result Text Text → List Text
decoded_full (ok []) = []
decoded_full (ok (c ∷ m)) = (c ∷ m) ∷ []
decoded_full (err e) = []

module _ (json : Json) where
  open json use {strings, string}

  abbrev pub in_frame : Frame → Text → List Text
  in_frame array_frame rest = decoded_all (strings rest)
  in_frame message_frame rest = decoded_full (string rest)
  in_frame open_frame rest = []
  in_frame close_frame rest = []
  in_frame heartbeat_frame rest = []
  in_frame other_frame rest = []

  abbrev pub in_body : Body → List Text
  in_body poll_timeout = []
  in_body (body_error e) = []
  in_body (body c rest) = in_frame (frame_of c) rest

  -- The messages in the polls: those of the responses with status 200.
  abbrev pub contents : List Poll → List Text
  contents [] = []
  contents (aborted ∷ rest) = contents rest
  contents (no_response e ∷ rest) = contents rest
  contents (response status b ∷ rest) =
      (if nat_beq status 200 then in_body b else []) ++ contents rest

  abbrev pub delivered : Got × XhrSession × List Poll → List Text
  delivered (got, x, rest) = given got ++ (x.messages ++ contents rest)

  -- What a response makes of an empty session.
  abbrev handled : Handled → List Text
  handled (returns got x) = given got ++ x.messages
  handled (polls_again x) = x.messages

  first-handled : (ms : List Text) (x : XhrSession) → handled (first ms x) ≡ ms
  first-handled [] x = refl
  first-handled (m ∷ ms) x = refl

  of_messages-handled :
      (r : Result Text (List Text)) (x : XhrSession)
      → handled (of_messages r x) ≡ x.messages ++ decoded_all r
  of_messages-handled (err y) x = sym (append-nil x.messages)
  of_messages-handled (ok ms) x = first-handled (x.messages ++ ms) x

  of_message-handled :
      (r : Result Text Text) (x : XhrSession)
      → handled (of_message r x) ≡ x.messages ++ decoded_full r
  of_message-handled (err y) x = sym (append-nil x.messages)
  of_message-handled (ok []) x = sym (append-nil x.messages)
  of_message-handled (ok (c ∷ m)) x = first-handled (x.messages ++ (c ∷ m) ∷ []) x

  on_frame-handled :
      (f : Frame) (rest : Text) (x : XhrSession)
      → handled (on_frame json f rest x) ≡ x.messages ++ in_frame f rest
  on_frame-handled open_frame rest x = sym (append-nil x.messages)
  on_frame-handled heartbeat_frame rest x = sym (append-nil x.messages)
  on_frame-handled array_frame rest x = of_messages-handled (strings rest) x
  on_frame-handled message_frame rest x = of_message-handled (string rest) x
  on_frame-handled close_frame rest x = sym (append-nil x.messages)
  on_frame-handled other_frame rest x = sym (append-nil x.messages)

  of_body-handled :
      (b : Body) (x : XhrSession) → handled (of_body json b x) ≡ x.messages ++ in_body b
  of_body-handled poll_timeout x = sym (append-nil x.messages)
  of_body-handled (body_error y) x = sym (append-nil x.messages)
  of_body-handled (body c rest) x = on_frame-handled (frame_of c) rest x

  handle_resp-handled :
      (status : ℕ) (b : Body) (x : XhrSession)
      → handled (handle_resp json status b x)
        ≡ x.messages ++ (if nat_beq status 200 then in_body b else [])
  unfolding handle_resp close
  handle_resp-handled status b x = by_status (nat_beq status 200) (nat_beq status 404)
    where
      by_status :
          (success missing : Bool)
          → handled (
              if success
              then of_body json b x
              else if missing
              then returns (fails no_session) (close x)
              else returns (fails (bad_status status)) x)
            ≡ x.messages ++ (if success then in_body b else [])
      by_status true missing = of_body-handled b x
      by_status false true = sym (append-nil x.messages)
      by_status false false = sym (append-nil x.messages)

  after_poll-delivered :
      (h : Handled) (rest : List Poll) (again : XhrSession → Got × XhrSession × List Poll)
      → ((x : XhrSession) → delivered (again x) ≡ x.messages ++ contents rest)
      → delivered (after_poll json h rest again) ≡ handled h ++ contents rest
  after_poll-delivered (returns got x) rest again k = sym (append_assoc (given got) x.messages _)
  after_poll-delivered (polls_again x) rest again k = k x

  poll_loop-delivered :
      (polls : List Poll) (x : XhrSession)
      → delivered (poll_loop json x polls) ≡ x.messages ++ contents polls
  unfolding poll_loop
  poll_loop-delivered [] x = refl
  poll_loop-delivered (aborted ∷ rest) x = refl
  poll_loop-delivered (no_response e ∷ rest) x = refl
  poll_loop-delivered (response status b ∷ rest) x =
      after_poll-delivered (handle_resp json status b x) rest (λ x. poll_loop json x rest)
        (poll_loop-delivered rest)
      ∙ ap (λ l. l ++ contents rest) (handle_resp-handled status b x)
      ∙ append_assoc x.messages (if nat_beq status 200 then in_body b else []) (contents rest)

  -- A receive from a polling session neither loses nor invents nor reorders a message: what it gives,
  -- followed by what is left in the session and in the polls that are still to come, is what was in
  -- the session and in the polls before, whatever the responses are.
  pub poll_recv-delivered :
      (x : XhrSession) (polls : List Poll)
      → delivered (recv json x polls) ≡ x.messages ++ contents polls
  unfolding recv
  poll_recv-delivered x polls = by_messages x.messages refl
    where
      by_messages :
          (ms : List Text)
          → x.messages ≡ ms
          → delivered (buffered json ms x polls) ≡ ms ++ contents polls
      by_messages [] e = by_closed (is_closed x)
        where
          by_closed :
              (b : Bool)
              → delivered
                  (if b then (fails err_session_closed, x, polls) else poll_loop json x polls)
                ≡ contents polls
          by_closed true = ap (λ ms. ms ++ contents polls) e
          by_closed false = poll_loop-delivered polls x ∙ ap (λ ms. ms ++ contents polls) e
      by_messages (m ∷ ms) e = refl
