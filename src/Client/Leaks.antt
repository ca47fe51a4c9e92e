-- ===== src/Client/Leaks.antt =====
-- client.go: what stays in the table of callbacks after a call.
use kite.Common.{
  if◌then◌else◌, nat_eq, Text, codes, text_beq, text_eq, Result, ok, err, ℕ, suc, ◌+◌, ◌^◌, ◌<◌,
  ◌≡◌, refl, ap, ◌∙◌, Bool, true, false, Option, none, some, [], ◌∷◌, append-nil, arith, sym,
}
use mathlib.Core.Path.{subst}
use kite.Common.Dict.{Dict}
use kite.Dnode.Callbacks.{get_callback}
use kite.Dnode.Scrub.{
  Sent, Sent, at_index, at_name, CallbackPath, Elements, skipped, field_path, before_comma, slice,
  scrub,
}
use kite.Dnode.Scrub.Numbered.{
  both, Found, functions, functions_in, count_found, scrub-functions_in,
}
use kite.Dnode.Scrub.Paths.{indexed_paths, scrub-indexed_paths}
use kite.Client.{method_name, Target, Client, Message, Auth}
use kite.Client.Responses.{Decoder, response_of, run_response, remove_response_callback}
use kite.Client.Send.{
  map_started, scrubbed, marshal_and_send, send_payload, over, send_arguments, not_sent, Sending,
  remove_callbacks, hand_over, marshal_and_send, is_response_path, wrap_method_args, send_method,
  waiting, send_callback_id, Removal, nothing_to_remove,
}

abbrev pub response_path : CallbackPath
response_path = at_index 0 ∷ at_name (codes "responseCallback") ∷ []

abbrev pub with_args_path : CallbackPath
with_args_path = at_index 0 ∷ at_name (codes "withArgs") ∷ []

module _ (F S : Type 0) where
  both_nil : (o : Option (Found F)) → both F o (some []) ≡ o
  both_nil none = refl
  both_nil (some fs) = ap some (append-nil fs)

  -- The callbacks of a call: that of its response, and those of its arguments.
  pub functions_in-wrap_method_args :
      (auth : Option Auth) (args : Elements F) (response : F) (fs : Found F)
      → functions_in F args 0 with_args_path ≡ some fs
      → functions_in F (wrap_method_args F S auth args response) 0 []
        ≡ some ((response_path, response) ∷ fs)
  unfolding functions skipped field_path before_comma text_beq
  functions_in-wrap_method_args none args response fs e =
      both_nil _
      ∙ both_nil _
      ∙ ap (λ o. both F (some ((response_path, response) ∷ [])) o) (both_nil _ ∙ e)
  functions_in-wrap_method_args (some a) args response fs e =
      both_nil _
      ∙ both_nil _
      ∙ ap (λ o. both F (some ((response_path, response) ∷ [])) o) (both_nil _ ∙ e)

  -- No path that begins with an index is one that `sendCallbackID` looks for.
  send_callback_id-indexed_paths :
      (paths : Dict ℕ CallbackPath)
      → indexed_paths F paths ≡ true
      → send_callback_id paths ≡ nothing_to_remove
  unfolding send_callback_id is_response_path
  send_callback_id-indexed_paths [] h = refl
  send_callback_id-indexed_paths ((id, []) ∷ rest) h = absurd (cc)
  send_callback_id-indexed_paths ((id, at_name n ∷ path) ∷ rest) h = absurd (cc)
  send_callback_id-indexed_paths ((id, at_index i ∷ path) ∷ rest) h =
      send_callback_id-indexed_paths rest h

  module _ (encode_args : Elements F → Result Text Text)
      (encode_message : Message → Result Text Text) where
    -- What a sending keeps of the client it began with, and of the callbacks it was given.
    IsKept : Dict ℕ CallbackPath → Client F S → Sending F S encode_args encode_message → Type 0
    IsKept callbacks c (after, r) =
        (after.scrubber ≡ c.scrubber)
        × ((got : Dict ℕ CallbackPath) → r ≡ ok got → got ≡ callbacks)
        × ((e : Text) → r ≡ err e → after ≡ c)

    hand_over-IsKept :
        (payload : Text) (callbacks : Dict ℕ CallbackPath) (c : Client F S)
        → IsKept callbacks c (hand_over F S encode_args encode_message payload callbacks c)
    unfolding hand_over remove_callbacks IsKept
    hand_over-IsKept payload callbacks c = by_flag c.closed c.session
      where
        by_flag :
            (b : Bool) (session : Option S)
            → IsKept callbacks c (
                if b
                then not_sent F S encode_args encode_message
                    (codes "can't send, client is closed")
                    c
                else over F S encode_args encode_message session payload callbacks c)
        by_flag true session = (refl, λ got h. absurd (cc), λ e h. refl)
        by_flag false none = (refl, λ got h. absurd (cc), λ e h. refl)
        by_flag false (some session) = (refl, λ got h. grind arith, λ e h. absurd (cc))

    send_arguments-IsKept :
        (target : Target) (raw : Result Text Text) (callbacks : Dict ℕ CallbackPath)
        (c : Client F S)
        → IsKept callbacks c (send_arguments F S encode_args encode_message target raw callbacks c)
    unfolding IsKept hand_over remove_callbacks
    send_arguments-IsKept target (err e) callbacks c = (refl, λ got h. absurd (cc), λ e h. refl)
    send_arguments-IsKept target (ok raw) callbacks c = by_payload (encode_message _)
      where
        by_payload :
            (p : Result Text Text)
            → IsKept callbacks c (send_payload F S encode_args encode_message p callbacks c)
        by_payload (err e) = (refl, λ got h. absurd (cc), λ e h. refl)
        by_payload (ok payload) = hand_over-IsKept payload callbacks c

    -- A sending, with what it scrubbed.
    Scrubs : Target → Elements F → Client F S → Sending F S encode_args encode_message → Type 0
    Scrubs target args c sending =
        (sent : Sent F) × (scrub F (slice args) c.scrubber ≡ some sent)
        × IsKept sent.1 (record c { scrubber = sent.0 }) sending

    marshal_and_send-Scrubs :
        (target : Target) (args : Elements F) (c : Client F S)
        (sending : Sending F S encode_args encode_message)
        → marshal_and_send F S encode_args encode_message target args c ≡ some sending
        → Scrubs target args c sending
    unfolding marshal_and_send Scrubs hand_over
    marshal_and_send-Scrubs target args c sending h =
        by_scrubbed (scrub F (slice args) c.scrubber) refl h
      where
        by_scrubbed :
            (o : Option (Sent F))
            → scrub F (slice args) c.scrubber ≡ o
            → scrubbed F S encode_args encode_message target args c o ≡ some sending
            → Scrubs target args c sending
        by_scrubbed none e g = absurd (cc)
        by_scrubbed (some sent) e g = (
          sent,
          e,
          subst (IsKept sent.1 (record c { scrubber = sent.0 })) (cc) (
              send_arguments-IsKept target (encode_args args) sent.1
                (record c { scrubber = sent.0 })),
        )

    -- Whatever comes of a message, the table is that which `Scrub` made.
    pub marshal_and_send-scrubber :
        (target : Target) (args : Elements F) (c c' : Client F S)
        (r : Result Text (Dict ℕ CallbackPath)) (sent : Sent F)
        → scrub F (slice args) c.scrubber ≡ some sent
        → marshal_and_send F S encode_args encode_message target args c ≡ some (c', r)
        → c'.scrubber ≡ sent.0
    unfolding Scrubs IsKept
    marshal_and_send-scrubber target args c c' r sent h sends =
        let (sent', scrubs, (kept, same, left)) =
          marshal_and_send-Scrubs target args c (c', r) sends in
        kept ∙ ap (λ s. s.0) (of_some (sym scrubs ∙ h))
      where
        of_some : {A : Type 0} {a b : A} → some a ≡ some b → a ≡ b
        of_some e = cc

    map_started-waiting :
        (o : Option (Sending F S encode_args encode_message)) (c' : Client F S) (removal : Removal)
        → map_started F S encode_args encode_message o ≡ some (c', waiting removal)
        → (callbacks : Dict ℕ CallbackPath) × (o ≡ some (c', ok callbacks))
          × (removal ≡ send_callback_id callbacks)
    map_started-waiting none c' removal h = absurd (cc)
    map_started-waiting (some (after, err e)) c' removal h = absurd (cc)
    map_started-waiting (some (after, ok callbacks)) c' removal h =
        (callbacks, ground arith, ground arith)

    -- A message that could not be sent, be it that its arguments or the message could not be encoded,
    -- that the client was closed or that it had no session, leaves the client as it was but for the
    -- table of callbacks, where every callback of the message stays.
    pub marshal_and_send-err :
        (target : Target) (args : Elements F) (c c' : Client F S) (e : Text)
        → marshal_and_send F S encode_args encode_message target args c ≡ some (c', err e)
        → (sent : Sent F) × (scrub F (slice args) c.scrubber ≡ some sent)
          × (c' ≡ record c { scrubber = sent.0 })
    unfolding IsKept Scrubs
    marshal_and_send-err target args c c' e h =
        let (sent, scrubs, (kept, same, left)) =
          marshal_and_send-Scrubs target args c (c', err e) h in
        (sent, scrubs, left e refl)

    -- A call whose message was handed to the hub: the channel of its callback's number was closed
    -- with nothing in it, so that neither a response nor the end of the waiting time removes the
    -- callback, which stays in the table under the first number of the call. This is with the
    -- functions in the call's arguments all wrapped, and fewer than 2 ^ 64 numbers given.
    pub run_response-kept :
        (P : Type 0) (decoder : Decoder P) (arguments : P) (method : Text) (args : Elements F)
        (response : F) (c c' : Client F S) (removal : Removal) (fs : Found F)
        → functions_in F args 0 with_args_path ≡ some fs
        → c.scrubber.seq + suc (count_found F fs) < 2 ^ 64
        → send_method F S encode_args encode_message method args response c
          ≡ some (c', waiting removal)
        → (run_response P decoder F S arguments c' (record { removal = removal; done = none })
            ≡ some (
              c',
              record { removal = nothing_to_remove; done = some (response_of P decoder arguments) },
            ))
          × (remove_response_callback P decoder F S removal c' ≡ some (c', nothing_to_remove))
          × (get_callback F c.scrubber.seq c'.scrubber ≡ some response)
    unfolding send_method run_response remove_response_callback Scrubs IsKept
    run_response-kept P decoder arguments method args response c c' removal fs listed small h =
        let (callbacks, sends, found) = map_started-waiting _ c' removal h in
        let (sent, scrubs, (kept, same, left)) =
          marshal_and_send-Scrubs (method_name method) (wrap_method_args F S c.auth args response) c
            (c', ok callbacks) sends in
        let (entered, seq, (found_callback, path), others) =
          scrub-functions_in F (wrap_method_args F S c.auth args response)
            ((response_path, response) ∷ fs) c.scrubber 0 0 response_path response
            (functions_in-wrap_method_args c.auth args response fs listed) small refl in
        let nothing : removal ≡ nothing_to_remove =
          found
          ∙ ap send_callback_id (same callbacks refl)
          ∙ send_callback_id-indexed_paths sent.1 (
              scrub-indexed_paths F (wrap_method_args F S c.auth args response) c.scrubber sent
                scrubs) in
        let first : c.scrubber.seq + 0 ≡ c.scrubber.seq = omega arith in
        (
          ap (λ r. run_response P decoder F S arguments c' (record { removal = r; done = none }))
              nothing,
          ap (λ r. remove_response_callback P decoder F S r c') nothing,
          cc,
        )
