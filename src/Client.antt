-- ===== src/Client.antt =====
-- client.go: the connection to another kite: its state, its sessions and its end.
pub mod Send
pub mod Responses
pub mod Leaks
pub mod Messages
pub mod Waiting
pub mod Answers
use kite.Common.{
  ltb, leb, nat_beq, if◌then◌else◌, nat_beq_iff, Bool-cases, Option-cases, Result-cases, Eq, ◌==◌,
  ==_iff, ==_refl, nat_eq, Text, codes, text_beq, text_beq_iff, text_eq, is_empty, contains_byte,
  has_prefix, has_prefix-append, trim_space, contains_text, count_byte, cut_at, split_n, split,
  part, cut_at_here, cut_at-append, cut_at-none, split_n-append, split-append, split_whole,
  count_byte-append, count_byte_zero, count_byte_none, count_byte_here, Result, ok, err, ◌>>=◌,
  ◌>>◌, ℕ, zero, suc, ◌+◌, ◌-◌, ◌*◌, ◌/◌, ◌%◌, ◌^◌, ◌≤◌, ◌<◌, ◌≡◌, refl, sym, ap, ◌∙◌, ◌≢◌, ◌↔◌,
  ◌⊎◌, inl, inr, Bool, true, false, ◌&&◌, ◌||◌, not, Option, none, some, List, [], ◌∷◌, ◌++◌, map,
  append_assoc, append-nil, arith,
}
use kite.Common.Dict.{Dict}
use kite.Dnode.Callbacks.{Scrubber, new_scrubber}
use kite.Dnode.Scrub.{CallbackPath}

-- The channel that tells waiting calls that the connection is lost, or nil once it was closed.
pub data Disconnect : Type 0 where
  is_open is_nil : Disconnect

-- The type `Auth`
pub record Auth : Type 0 where
  pub type : Text
  pub key : Text

-- The method of a message: a name, or the number of a callback of the other side.
pub data Target : Type 0 where
  method_name : Text → Target
  callback_id : ℕ → Target

-- dnode.Message as it is sent, its arguments being encoded.
pub record Message : Type 0 where
  pub method : Target
  pub arguments : Text
  pub callbacks : Dict ℕ CallbackPath

-- The type `Client`; `F` is the type of callbacks and `S` that of sessions. `closed` is also whether
-- `closeChan` is closed, and `outbox` holds the messages handed to the hub, the oldest first.
pub record Client (F S : Type 0) : Type 0 where
  pub url : Text
  pub auth : Option Auth
  pub should_reconnect : Bool
  pub disconnect : Disconnect
  pub closed : Bool
  pub session : Option S
  pub outbox : List Text
  pub scrubber : Scrubber F
  pub connect_handlers : ℕ
  pub disconnect_handlers : ℕ

-- The field `Transport` of the configuration.
pub data Transport : Type 0 where
  websocket xhr_polling auto : Transport
  other : Text → Transport

-- Whether a dial failed with websocket.ErrBadHandshake.
pub data DialError : Type 0 where
  bad_handshake : DialError
  not_dialed : Text → DialError

module _ (F S : Type 0) where
  -- `NewClient`, with its handlers setContext and closeContext.
  abbrev pub new_client : Text → Client F S
  new_client url = record {
    url = url;
    auth = none;
    should_reconnect = false;
    disconnect = is_open;
    closed = false;
    session = none;
    outbox = [];
    scrubber = new_scrubber;
    connect_handlers = 1;
    disconnect_handlers = 1;
  }

  -- `updateAuth`, with the kite key of what the registration returned.
  unfoldable pub update_auth : Text → Client F S → Client F S
  update_auth kite_key c = with_auth c.auth
    where
      with_auth : Option Auth → Client F S
      with_auth none = c
      with_auth (some a) =
          if a.type == codes "kiteKey" && not (is_empty kite_key)
          then record c { auth = some (record a { key = kite_key }) }
          else c

  -- What `dial` does with each result of a session's dial.
  abbrev dialed : Result DialError S → Client F S → Result DialError (Client F S)
  dialed (err e) c = err e
  dialed (ok session) c = ok (record c { session = some session })

  abbrev or_polling : Result DialError S → Result DialError S → Result DialError S
  or_polling (err bad_handshake) by_polling = by_polling
  or_polling (err (not_dialed e)) by_polling = err (not_dialed e)
  or_polling (ok session) by_polling = ok session

  -- `dial`, from what sockjsclient.DialWebsocket and sockjsclient.DialXHR give.
  unfoldable pub dial :
      Transport
      → Result DialError S
      → Result DialError S
      → Client F S
      → Result DialError (Client F S)
  dial websocket by_websocket by_polling c = dialed by_websocket c
  dial xhr_polling by_websocket by_polling c = dialed by_polling c
  dial auto by_websocket by_polling c = dialed (or_polling by_websocket by_polling) c
  dial (other name) by_websocket by_polling c =
      err (not_dialed (codes "Connection transport is not known '" ++ name ++ codes "'"))

  -- `Close`; the session, if there is one, is to be closed with it.
  unfoldable pub close : Client F S → Client F S × Option S
  close c =
      if c.closed
      then (c, none)
      else (record c { closed = true; should_reconnect = false }, c.session)

  -- `run` after its read loop, with whether it closes the channel, which tells the calls that wait,
  -- and whether it dials again.
  unfoldable pub run_end : Client F S → Client F S × Bool × Bool
  run_end c = (
    if c.should_reconnect
        then record c { disconnect = is_open }
        else record c { disconnect = is_nil },
    is_channel c.disconnect,
    c.should_reconnect,
  )
    where
      is_channel : Disconnect → Bool
      is_channel is_open = true
      is_channel is_nil = false
