-- ===== src/Examples/Sessions.antt =====
-- Sessions and registrations at concrete values.
use kite.Common.{
  nat_eq, Text, codes, text_eq, ok, ◌≡◌, refl, true, false, some, List, [], ◌∷◌, ◌++◌,
}
use kite.Session.{
  Json, Got, message, fails, blocks, frame_of, session_opening, session_active, no_session,
  invalid_frame,
}
use kite.Session.Websocket.{WebsocketSession, Incoming, recv}
use kite.Session.Xhr.{
  XhrSession, Poll, response, poll_timeout, body, aborted, handle_resp, poll_loop,
}
use kite.Session.Order.{delivered, contents, recv-delivered}
use kite.Session.Polls.{poll_recv-delivered}
use kite.KontrolClient.Registering.{
  Registering, unregistered, Steps, stay, step, asks, takes, fails, fires, succeeds,
}
use kite.KontrolClient.Registering.Pending.{is_settled, Steps-is_settled}
use kite.Heartbeat.{ticks, closes, requests, registers_again, process_heartbeats, stopped, panicked}

-- A reader of JSON that takes an array for the list of its bytes, and a string as it is.
abbrev letters : Text → List Text
letters [] = []
letters (c ∷ s) = (c ∷ []) ∷ letters s

abbrev json : Json
json = record { strings = λ s. ok (letters s); string = λ s. ok s }

abbrev websocket : WebsocketSession
websocket = record { messages = []; closed = false; state = session_opening; sent = [] }

abbrev frames : Incoming
frames = ok (codes "o") ∷ ok (codes "h") ∷ ok (codes "axy") ∷ ok (codes "mz") ∷ []

recv-frames : (recv json websocket frames).0 ≡ message (codes "x")
unfolding recv
recv-frames = refl

recv-delivered_example :
    delivered json (recv json websocket frames) ≡ websocket.messages ++ contents json frames
recv-delivered_example = recv-delivered json websocket frames

abbrev polling : XhrSession
polling = record { messages = []; state = session_active; abort = false }

abbrev polls : List Poll
polls =
    response 200 poll_timeout
    ∷ response 200 (body b'h' [])
    ∷ response 200 (body b'a' (codes "xy"))
    ∷ aborted
    ∷ []

poll_recv-polls : (kite.Session.Xhr.recv json polling polls).0 ≡ message (codes "x")
unfolding kite.Session.Xhr.recv
poll_recv-polls = refl

poll_recv-delivered_example :
    kite.Session.Polls.delivered json (kite.Session.Xhr.recv json polling polls)
    ≡ polling.messages ++ kite.Session.Polls.contents json polls
poll_recv-delivered_example = poll_recv-delivered json polling polls

-- A registration is asked for, fails, and is tried again.
abbrev failed_once : Registering
failed_once = record unregistered { asked = true; timers = codes "http://a" ∷ [] }

to_failed_once : Steps unregistered failed_once
to_failed_once =
    step (step (step stay (asks (codes "http://a") refl)) (takes (codes "http://a") refl refl))
      (kite.KontrolClient.Registering.fails (codes "http://a") refl)

Steps-is_settled_example : is_settled failed_once ≡ true
Steps-is_settled_example = Steps-is_settled to_failed_once refl

process_heartbeats-zero :
    process_heartbeats
      (requests (some (record { interval = 5 }))
        ∷ ticks registers_again
        ∷ requests (some (record { interval = 0 }))
        ∷ closes
        ∷ [])
      stopped
    ≡ panicked
unfolding process_heartbeats
process_heartbeats-zero = refl
