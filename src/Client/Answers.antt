-- ===== src/Client/Answers.antt =====
-- client.go: which handler a message of the other side reaches.
use kite.Common.{
  nat_eq, Text, text_eq, Result, ok, err, ℕ, ◌+◌, ◌^◌, ◌<◌, ◌≡◌, refl, ap, ◌∙◌, Bool, true, false,
  Option, none, some, [], ◌∷◌,
}
use kite.Common.Dict.{lookup, Dict}
use kite.Dnode.Callbacks.{get_callback}
use kite.Dnode.Scrub.{CallbackPath, Elements}
use kite.Dnode.Scrub.Numbered.{Found, functions_in, count_found, found_at, scrub-functions_in}
use kite.Client.{Client, Message, Target}
use kite.Client.Send.{marshal_and_send}
use kite.Client.Leaks.{marshal_and_send-scrubber}
use kite.Client.Messages.{
  no_method, string, of_callback, of_method, of_decoded, with_spec, and_read, Reader, Received,
  Method, number, Partial, Read, panics, fails, reads, runs_callback, process_message,
  parse_callbacks, find_handler,
}

module _ (N M F S : Type 0) (reader : Reader N) where
  open reader use {decode, to_uint64, parse_uint}

  -- Once a message was sent, whether or not it reached the hub, a message of the other side whose
  -- method is the number of the callback at place `i` of the arguments' list finds that callback.
  -- This is with the functions in the arguments all wrapped, fewer than 2 ^ 64 numbers given, and
  -- with the callbacks of the other side's message read.
  pub process_message-marshal_and_send :
      (encode_args : Elements F → Result Text Text) (encode_message : Message → Result Text Text)
      (handlers : Dict Text M) (target : Target) (args : Elements F) (fs : Found F) (i : ℕ)
      (path : CallbackPath) (f : F) (c c' : Client F S) (r : Result Text (Dict ℕ CallbackPath))
      (payload : Text) (msg : Received N) (x : N) (p : Option Partial)
      → functions_in F args 0 [] ≡ some fs
      → c.scrubber.seq + count_found F fs < 2 ^ 64
      → found_at F fs i ≡ some (path, f)
      → marshal_and_send F S encode_args encode_message target args c ≡ some (c', r)
      → decode payload ≡ ok (some msg)
      → msg.method ≡ number x
      → to_uint64 x ≡ c.scrubber.seq + i
      → parse_callbacks N M F S reader msg.callbacks msg.arguments ≡ reads p
      → process_message N M F S reader handlers c' payload ≡ reads (p, runs_callback f)
  unfolding process_message find_handler
  process_message-marshal_and_send encode_args encode_message handlers target args fs i path f c c'
        r payload msg x p listed small at sends decodes by_number numbered parses =
      let (entered, seq, (callback, kept), earlier) =
        scrub-functions_in F args fs c.scrubber i 0 path f listed small at in
      let table =
        marshal_and_send-scrubber F S encode_args encode_message target args c c' r _ entered
          sends in
      let found : get_callback F (to_uint64 x) c'.scrubber ≡ some f = cc in
      ap (of_decoded N M F S reader handlers c') decodes
      ∙ ap (λ q. and_read N M F S reader q (find_handler N M F S reader handlers c' msg.method))
          parses
      ∙ ap (λ m. find_handler N M F S reader handlers c' m p) by_number
      ∙ ap (of_callback N M F S reader (to_uint64 x) p) found

  abbrev is_number : Result Text ℕ → Bool
  is_number (ok id) = true
  is_number (err e) = false

  -- The message that makes `ParseCallbacks` append to the callbacks of nil.
  abbrev pub breaks_with : Option Partial → Dict Text CallbackPath → Bool
  breaks_with (some p) callbacks = false
  breaks_with none [] = false
  breaks_with none ((id, path) ∷ rest) = is_number (parse_uint id)

  abbrev pub breaks : Result Text (Option (Received N)) → Bool
  breaks (err e) = false
  breaks (ok none) = true
  breaks (ok (some msg)) = breaks_with msg.arguments msg.callbacks

  abbrev pub is_panic : {A : Type 0} → Read A → Bool
  is_panic panics = true
  is_panic (fails e) = false
  is_panic (reads a) = false

  and_read-is_panic :
      {A B : Type 0} (r : Read A) (k : A → Read B)
      → ((a : A) → is_panic (k a) ≡ false)
      → is_panic (and_read N M F S reader r k) ≡ is_panic r
  and_read-is_panic panics k h = refl
  and_read-is_panic (fails e) k h = refl
  and_read-is_panic (reads a) k h = h a

  with_spec-is_panic :
      (p : Partial) (path : CallbackPath) (r : Result Text ℕ)
      (k : Option Partial → Read (Option Partial))
      → ((p : Partial) → is_panic (k (some p)) ≡ false)
      → is_panic (and_read N M F S reader (with_spec N M F S reader (some p) path r) k) ≡ false
  with_spec-is_panic p path (err e) k h = refl
  with_spec-is_panic p path (ok id) k h = h _

  with_spec-breaks :
      (path : CallbackPath) (r : Result Text ℕ) (k : Option Partial → Read (Option Partial))
      → is_panic (and_read N M F S reader (with_spec N M F S reader none path r) k) ≡ is_number r
  with_spec-breaks path (err e) k = refl
  with_spec-breaks path (ok id) k = refl

  parse_callbacks-some :
      (callbacks : Dict Text CallbackPath) (p : Partial)
      → is_panic (parse_callbacks N M F S reader callbacks (some p)) ≡ false
  unfolding parse_callbacks
  parse_callbacks-some [] p = refl
  parse_callbacks-some ((id, path) ∷ rest) p =
      with_spec-is_panic p path (parse_uint id) _ (parse_callbacks-some rest)

  parse_callbacks-breaks_with :
      (callbacks : Dict Text CallbackPath) (p : Option Partial)
      → is_panic (parse_callbacks N M F S reader callbacks p) ≡ breaks_with p callbacks
  unfolding parse_callbacks
  parse_callbacks-breaks_with callbacks (some p) = parse_callbacks-some callbacks p
  parse_callbacks-breaks_with [] none = refl
  parse_callbacks-breaks_with ((id, path) ∷ rest) none =
      with_spec-breaks path (parse_uint id) (parse_callbacks N M F S reader rest)

  find_handler-is_panic :
      (handlers : Dict Text M) (c : Client F S) (method : Method N) (p : Option Partial)
      → is_panic (find_handler N M F S reader handlers c method p) ≡ false
  unfolding find_handler
  find_handler-is_panic handlers c (number x) p =
      of_callback-is_panic (get_callback F (to_uint64 x) c.scrubber)
    where
      of_callback-is_panic :
          (o : Option F) → is_panic (of_callback N M F S reader (to_uint64 x) p o) ≡ false
      of_callback-is_panic none = refl
      of_callback-is_panic (some f) = refl
  find_handler-is_panic handlers c (string name) p = of_method-is_panic (lookup name handlers)
    where
      of_method-is_panic : (o : Option M) → is_panic (of_method N M F S reader name p o) ≡ false
      of_method-is_panic none = refl
      of_method-is_panic (some m) = refl
  find_handler-is_panic handlers c no_method p = refl

  -- Before its deferred function `processMessage` panics exactly if the message is `null`, or has no
  -- arguments while the first callback that it names has a number.
  pub process_message-panics :
      (handlers : Dict Text M) (c : Client F S) (payload : Text)
      → is_panic (process_message N M F S reader handlers c payload) ≡ breaks (decode payload)
  unfolding process_message
  process_message-panics handlers c payload = by_decoded (decode payload)
    where
      by_decoded :
          (r : Result Text (Option (Received N)))
          → is_panic (of_decoded N M F S reader handlers c r) ≡ breaks r
      by_decoded (err e) = refl
      by_decoded (ok none) = refl
      by_decoded (ok (some msg)) =
          and_read-is_panic (parse_callbacks N M F S reader msg.callbacks msg.arguments) _
            (find_handler-is_panic handlers c msg.method)
          ∙ parse_callbacks-breaks_with msg.callbacks msg.arguments
