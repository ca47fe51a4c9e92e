-- ===== src/Client/Responses.antt =====
-- client.go: the callback that a call sends for its response, `makeResponseCallback`, and the end
-- of a call that got no response in time.
use kite.Common.{
  if◌then◌else◌, ◌==◌, nat_eq, Text, codes, text_eq, Result, ok, err, Bool, false, ◌&&◌, ◌||◌, not,
  Option, none, some, List, [], ◌∷◌,
}
use kite.Dnode.Callbacks.{remove_callback}
use kite.Client.{Client}
use kite.Client.Send.{Removal, nothing_to_remove, emptied, to_remove}

-- The type `Error`, as far as a response carries it.
pub record CallError : Type 0 where
  pub type : Text
  pub message : Text

-- The type `response`; `P` is the type of results.
pub record Response (P : Type 0) : Type 0 where
  pub result : Option P
  pub error : Option CallError

abbrev invalid_response : Text → CallError
invalid_response message = record { type = codes "invalidResponse"; message = message }

-- What dnode.Partial makes of JSON: the elements of a slice; what is read of the fields of a
-- response, with the error that ended the reading, if any; and the keys of an object.
pub record Decoder (P : Type 0) : Type 0 where
  pub slice : P → Result Text (List P)
  pub response : P → Response P × Option Text
  pub keys : P → List Text

abbrev has_text : Text → List Text → Bool
has_text key [] = false
has_text key (k ∷ ks) = k == key || has_text key ks

module _ (P : Type 0) (decoder : Decoder P) where
  open decoder use {slice, response, keys}

  -- The checks of the keys of a response that was read.
  abbrev checked_keys : Response P → List Text → Response P
  checked_keys r names =
      if not (has_text (codes "result") names) && not (has_text (codes "error") names)
      then record r {
        error = some (invalid_response (codes "Server has sent invalid response arguments"));
      }
      else r

  abbrev of_read : P → Response P × Option Text → Response P
  of_read arg (r, some e) = record r { error = some (invalid_response e) }
  of_read arg (r, none) = checked_keys r (keys arg)

  -- `SliceOfLength(1)` and what follows it.
  abbrev of_arguments : Result Text (List P) → Response P
  of_arguments (err e) = record { result = none; error = some (invalid_response e) }
  of_arguments (ok (arg ∷ [])) = of_read arg (response arg)
  of_arguments (ok args) = record {
    result = none;
    error = some (invalid_response (codes "Invalid array length"));
  }

  -- The response that the callback hands to its call.
  unfoldable pub response_of : P → Response P
  response_of arguments = of_arguments (slice arguments)

  module _ (F S : Type 0) where
    -- A call, as its callback sees it: the channels `removeCallback` and `doneChan`, of one place
    -- each.
    pub record Call : Type 0 where
      pub removal : Removal
      pub done : Option (Response P)

    -- A receive from the channel with the removal that follows it; none blocks for ever.
    unfoldable pub remove_response_callback : Removal → Client F S → Option (Client F S × Removal)
    remove_response_callback nothing_to_remove c = some (c, nothing_to_remove)
    remove_response_callback (to_remove id) c =
        some (record c { scrubber = remove_callback F id c.scrubber }, emptied)
    remove_response_callback emptied c = none

    -- The send to `doneChan`, which blocks as long as the place is taken.
    abbrev put_done :
        Response P → Option (Response P) → Client F S × Removal → Option (Client F S × Call)
    put_done r (some old) (c, removal) = none
    put_done r none (c, removal) = some (c, record { removal = removal; done = some r })

    abbrev and_put :
        Response P
        → Option (Response P)
        → Option (Client F S × Removal)
        → Option (Client F S × Call)
    and_put r held none = none
    and_put r held (some after) = put_done r held after

    -- A run of the callback; none blocks, and with it the read loop that runs it.
    unfoldable pub run_response : P → Client F S → Call → Option (Client F S × Call)
    unfolding response_of remove_response_callback
    run_response arguments c call =
        and_put (response_of arguments) call.done (remove_response_callback call.removal c)
