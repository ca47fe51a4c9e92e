-- ===== src/Examples/Clients.antt =====
-- Clients at concrete values: numbers stand for callbacks, sessions and the numbers of JSON.
use kite.Common.{
  nat_eq, Text, codes, text_beq, text_eq, Result, ok, err, ℕ, ◌+◌, ◌≤◌, ◌≡◌, refl, ◌⊎◌, true, false,
  none, some, [], ◌∷◌, arith,
}
use kite.Common.Dict.{Dict, insert}
use kite.Dnode.Callbacks.{Scrubber, register, get_callback}
use kite.Dnode.Scrub.{
  at_index, at_name, CallbackPath, FieldInfo, Elements, function, struct, field, no_fields, element,
  no_elements, slice, scrub, skipped, field_path, before_comma, enter,
}
use kite.Dnode.Scrub.Numbered.{
  Found, functions, functions_in, count_found, enter_all, IsEntered, scrub-functions_in,
}
use kite.Client.{Client, Message, method_name, new_client}
use kite.Client.Send.{marshal_and_send, send_method, is_response_path, waiting, nothing_to_remove}
use kite.Client.Leaks.{with_args_path, marshal_and_send-err, run_response-kept}
use kite.Client.Responses.{Decoder, response_of, run_response, remove_response_callback}
use kite.Client.Messages.{Reader, number, reads, runs_callback, process_message, parse_callbacks}
use kite.Client.Answers.{process_message-marshal_and_send}

abbrev callback_field : FieldInfo
callback_field = record {
  name = codes "Done";
  json_tag = codes "done,omitempty";
  dnode_tag = [];
  exported = true;
  anonymous = false;
}

-- A callback, and a struct with a callback in a field.
abbrev args : Elements ℕ
args =
    element (function (some 7))
      (element (struct (field callback_field (function (some 8)) no_fields) [] []) no_elements)

abbrev listed : Found ℕ
listed = (at_index 0 ∷ [], 7) ∷ (at_index 1 ∷ at_name (codes "done") ∷ [], 8) ∷ []

functions_in-args : functions_in ℕ args 0 [] ≡ some listed
unfolding functions skipped field_path before_comma text_beq
functions_in-args = refl

abbrev table : Scrubber ℕ
table = record { seq = 1; callbacks = (0, 5) ∷ [] }

scrub-functions_in_example :
    (scrub ℕ (slice args) table ≡ some (enter_all ℕ listed (table, [])))
    × ((enter_all ℕ listed (table, [])).0.seq ≡ table.seq + count_found ℕ listed)
    × IsEntered ℕ
        (enter_all ℕ listed (table, []))
        (table.seq + 1)
        (at_index 1 ∷ at_name (codes "done") ∷ [])
        8
    × ((table.seq ≤ 0)
        ⊎ (get_callback ℕ 0 (enter_all ℕ listed (table, [])).0 ≡ get_callback ℕ 0 table))
scrub-functions_in_example =
    scrub-functions_in ℕ args listed table 1 0 (at_index 1 ∷ at_name (codes "done") ∷ []) 8
      functions_in-args (omega arith) refl

abbrev client : Client ℕ ℕ
client = record (new_client ℕ ℕ (codes "http://a/kite")) { session = some 1; scrubber = table }

abbrev encode_args : Elements ℕ → Result Text Text
encode_args a = ok (codes "[]")

abbrev encode_message : Message → Result Text Text
encode_message m = ok (codes "{}")

abbrev encode_nothing : Message → Result Text Text
encode_nothing m = err (codes "unsupported type")

abbrev after_failure : Client ℕ ℕ
after_failure = record client {
  scrubber = record { seq = 3; callbacks = (0, 5) ∷ (1, 7) ∷ (2, 8) ∷ [] };
}

marshal_and_send-fails :
    marshal_and_send ℕ ℕ encode_args encode_nothing (method_name (codes "sum")) args client
    ≡ some (after_failure, err (codes "unsupported type"))
unfolding scrub marshal_and_send skipped field_path before_comma text_beq register insert enter
marshal_and_send-fails = refl

marshal_and_send-err_example :
    (sent : Scrubber ℕ × Dict ℕ CallbackPath) × (scrub ℕ (slice args) client.scrubber ≡ some sent)
    × (after_failure ≡ record client { scrubber = sent.0 })
marshal_and_send-err_example =
    marshal_and_send-err ℕ ℕ encode_args encode_nothing (method_name (codes "sum")) args client
      after_failure (codes "unsupported type") marshal_and_send-fails

-- A message that calls number 2 without arguments.
abbrev reader : Reader ℕ
reader = record {
  decode = λ s. ok (some (record { method = number 2; arguments = none; callbacks = [] }));
  to_uint64 = λ x. x;
  parse_uint = λ s. ok 3;
}

parse_callbacks-none : parse_callbacks ℕ ℕ ℕ ℕ reader [] none ≡ reads none
unfolding parse_callbacks
parse_callbacks-none = refl

process_message-marshal_and_send_example :
    process_message ℕ ℕ ℕ ℕ reader [] after_failure (codes "{}") ≡ reads (none, runs_callback 8)
process_message-marshal_and_send_example =
    process_message-marshal_and_send ℕ ℕ ℕ ℕ reader encode_args encode_nothing []
      (method_name (codes "sum")) args listed 1 (at_index 1 ∷ at_name (codes "done") ∷ []) 8 client
      after_failure (err (codes "unsupported type")) (codes "{}")
      (record { method = number 2; arguments = none; callbacks = [] }) 2 none functions_in-args
      (omega arith) refl marshal_and_send-fails refl refl refl parse_callbacks-none

abbrev listed_in_call : Found ℕ
listed_in_call =
    (at_index 0 ∷ at_name (codes "withArgs") ∷ at_index 0 ∷ [], 7)
    ∷ (at_index 0 ∷ at_name (codes "withArgs") ∷ at_index 1 ∷ at_name (codes "done") ∷ [], 8)
    ∷ []

functions_in-call : functions_in ℕ args 0 with_args_path ≡ some listed_in_call
unfolding functions skipped field_path before_comma text_beq
functions_in-call = refl

abbrev after_call : Client ℕ ℕ
after_call = record client {
  scrubber = record { seq = 4; callbacks = (0, 5) ∷ (1, 9) ∷ (2, 7) ∷ (3, 8) ∷ [] };
  outbox = codes "{}" ∷ [];
}

send_method-sum :
    send_method ℕ ℕ encode_args encode_message (codes "sum") args 9 client
    ≡ some (after_call, waiting nothing_to_remove)
unfolding scrub send_method skipped field_path before_comma text_beq register insert enter
    is_response_path
send_method-sum = refl

abbrev decoder : Decoder ℕ
decoder = record {
  slice = λ p. ok (p ∷ []);
  response = λ p. (record { result = some p; error = none }, none);
  keys = λ p. codes "result" ∷ [];
}

run_response-kept_example :
    (run_response ℕ decoder ℕ ℕ 42 after_call (record { removal = nothing_to_remove; done = none })
      ≡ some (
        after_call,
        record { removal = nothing_to_remove; done = some (response_of ℕ decoder 42) },
      ))
    × (remove_response_callback ℕ decoder ℕ ℕ nothing_to_remove after_call
        ≡ some (after_call, nothing_to_remove))
    × (get_callback ℕ 1 after_call.scrubber ≡ some 9)
run_response-kept_example =
    run_response-kept ℕ ℕ encode_args encode_message ℕ decoder 42 (codes "sum") args 9 client
      after_call nothing_to_remove listed_in_call functions_in-call (omega arith) send_method-sum
