-- ===== src/Client/Send.antt =====
-- client.go: the calls of a client on their way out: `wrapMethodArgs`, `marshalAndSend` and
-- `sendCallbackID`.
use kite.Common.{
  if◌then◌else◌, ◌==◌, nat_eq, Text, codes, text_eq, Result, ok, err, ℕ, Bool, true, false, ◌&&◌,
  Option, none, some, [], ◌∷◌, ◌++◌,
}
use kite.Common.Dict.{Dict}
use kite.Dnode.Callbacks.{Scrubber, remove_callback}
use kite.Dnode.Scrub.{
  at_name, CallbackPath, FieldInfo, Value, Elements, plain, interface_to, nil_pointer, pointer_to,
  slice, struct, function, no_elements, element, no_fields, field, scrub,
}
use kite.Client.{Client, Message, Target, method_name, Auth}

-- The fields of `callOptions`, `callOptionsOut` and `Auth`, as reflection shows them.
abbrev field_info : Text → Text → Text → FieldInfo
field_info name json_tag dnode_tag = record {
  name = name;
  json_tag = json_tag;
  dnode_tag = dnode_tag;
  exported = true;
  anonymous = false;
}

abbrev call_options_info : FieldInfo
call_options_info = record {
  name = codes "callOptions";
  json_tag = [];
  dnode_tag = [];
  exported = false;
  anonymous = true;
}

abbrev kite_info : FieldInfo
kite_info = field_info (codes "Kite") (codes "kite") (codes "-")

abbrev auth_info : FieldInfo
auth_info = field_info (codes "Auth") (codes "authentication") []

abbrev hidden_args_info : FieldInfo
hidden_args_info = field_info (codes "WithArgs") (codes "withArgs") (codes "-")

abbrev response_callback_info : FieldInfo
response_callback_info = field_info (codes "ResponseCallback") (codes "responseCallback") []

abbrev with_args_info : FieldInfo
with_args_info = field_info (codes "WithArgs") (codes "withArgs") []

-- The channel of a call that gives the number of its response callback: closed with nothing in it,
-- one number in it, or emptied.
pub data Removal : Type 0 where
  nothing_to_remove emptied : Removal
  to_remove : ℕ → Removal

-- The test of `sendCallbackID`: only names are strings.
unfoldable pub is_response_path : CallbackPath → Bool
is_response_path (at_name p0 ∷ at_name p1 ∷ []) = p0 == codes "0" && p1 == codes "responseCallback"
is_response_path path = false

-- `sendCallbackID`
unfoldable pub send_callback_id : Dict ℕ CallbackPath → Removal
unfolding is_response_path
send_callback_id [] = nothing_to_remove
send_callback_id ((id, path) ∷ rest) =
    let found = send_callback_id rest in if is_response_path path then to_remove id else found

module _ (F S : Type 0) where
  abbrev auth_value : Option Auth → Value F
  auth_value none = nil_pointer
  auth_value (some a) = pointer_to (
      struct
        (field (field_info (codes "Type") (codes "type") []) plain
          (field (field_info (codes "Key") (codes "key") []) plain no_fields))
        [] [])

  -- `wrapMethodArgs`
  abbrev pub wrap_method_args : Option Auth → Elements F → F → Elements F
  wrap_method_args auth args response =
      element
        (interface_to (
          struct
            (field call_options_info
              (struct
                (field kite_info plain (
                  field auth_info (auth_value auth) (
                    field hidden_args_info nil_pointer
                      (field response_callback_info (function (some response)) no_fields))))
                [] [])
              (field with_args_info (slice args) no_fields))
            [] []))
        no_elements

  -- `removeCallbacks`, from the numbers in the map.
  unfoldable pub remove_callbacks : Dict ℕ CallbackPath → Client F S → Client F S
  unfolding remove_callback
  remove_callbacks [] c = c
  remove_callbacks ((id, path) ∷ rest) c =
      remove_callbacks rest (record c { scrubber = remove_callback F id c.scrubber })

  -- encoding/json: the arguments of a message, and the message.
  module _ (encode_args : Elements F → Result Text Text)
      (encode_message : Message → Result Text Text) where
    abbrev pub Sending : Type 0
    Sending = Client F S × Result Text (Dict ℕ CallbackPath)

    -- The return of an error. It makes the named result `callbacks` nil before the deferred function
    -- reads it.
    abbrev pub not_sent : Text → Client F S → Sending
    not_sent e c = (remove_callbacks [] c, err e)

    abbrev pub over : Option S → Text → Dict ℕ CallbackPath → Client F S → Sending
    over none payload callbacks c = not_sent (codes "can't send, session is not established yet") c
    over (some session) payload callbacks c =
        (record c { outbox = c.outbox ++ payload ∷ [] }, ok callbacks)

    -- The select on `closeChan`; a payload is handed to the hub.
    unfoldable pub hand_over : Text → Dict ℕ CallbackPath → Client F S → Sending
    unfolding remove_callbacks
    hand_over payload callbacks c =
        if c.closed
        then not_sent (codes "can't send, client is closed") c
        else over c.session payload callbacks c

    -- `marshalAndSend` from the encoded message, and from the encoded arguments.
    abbrev pub send_payload : Result Text Text → Dict ℕ CallbackPath → Client F S → Sending
    send_payload (err e) callbacks c = not_sent e c
    send_payload (ok payload) callbacks c = hand_over payload callbacks c

    abbrev pub send_arguments :
        Target → Result Text Text → Dict ℕ CallbackPath → Client F S → Sending
    send_arguments target (err e) callbacks c = not_sent e c
    send_arguments target (ok raw) callbacks c =
        send_payload
          (encode_message (record { method = target; arguments = raw; callbacks = callbacks }))
          callbacks c

    abbrev pub scrubbed :
        Target
        → Elements F
        → Client F S
        → Option (Scrubber F × Dict ℕ CallbackPath)
        → Option Sending
    scrubbed target args c none = none
    scrubbed target args c (some (s, callbacks)) =
        some (send_arguments target (encode_args args) callbacks (record c { scrubber = s }))

    -- `marshalAndSend`; none is the panic of `Scrub`.
    unfoldable pub marshal_and_send : Target → Elements F → Client F S → Option Sending
    unfolding hand_over
    marshal_and_send target args c = scrubbed target args c (scrub F (slice args) c.scrubber)

    -- What `sendMethod` makes of a call: an error that the caller gets, or a call that waits for its
    -- response.
    pub data Started : Type 0 where
      send_error : Text → Started
      waiting : Removal → Started

    abbrev pub started : Sending → Client F S × Started
    started (c, err e) = (c, send_error e)
    started (c, ok callbacks) = (c, waiting (send_callback_id callbacks))

    abbrev pub map_started : Option Sending → Option (Client F S × Started)
    map_started none = none
    map_started (some sending) = some (started sending)

    -- `sendMethod`, up to the goroutine that waits; `response` is its response callback.
    unfoldable pub send_method : Text → Elements F → F → Client F S → Option (Client F S × Started)
    unfolding marshal_and_send send_callback_id
    send_method method args response c =
        map_started
          (marshal_and_send (method_name method) (wrap_method_args c.auth args response) c)
