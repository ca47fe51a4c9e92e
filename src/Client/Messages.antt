-- ===== src/Client/Messages.antt =====
-- client.go: the messages of the other side: `processMessage` and `readLoop`, with `onError` and
-- dnode/callback.go's `ParseCallbacks`.
use kite.Common.{
  nat_eq, Text, text_eq, Result, ok, err, ℕ, Bool, ◌&&◌, Option, none, some, List, [], ◌∷◌, ◌++◌,
}
use kite.Common.Dict.{Dict, lookup}
use kite.Dnode.Callbacks.{get_callback}
use kite.Dnode.Scrub.{CallbackPath}
use kite.Client.{Client}

-- The field `Method` of a message as JSON has it; `N` is the type of JSON's numbers.
pub data Method (N : Type 0) : Type 0 where
  number : N → Method N
  string : Text → Method N
  no_method : Method N

-- dnode.Partial: the raw JSON with the callbacks of the other side, by path and number.
pub record Partial : Type 0 where
  pub raw : Text
  pub specs : List (CallbackPath × ℕ)

-- dnode.Message as it is read. The arguments are nil if the message has none.
pub record Received (N : Type 0) : Type 0 where
  pub method : Method N
  pub arguments : Option Partial
  pub callbacks : Dict Text CallbackPath

-- The errors of `processMessage`, those of the dnode package with the number or the name.
pub data MessageError : Type 0 where
  malformed bad_callback : Text → MessageError
  callback_not_found : ℕ → MessageError
  method_not_found : Text → Option Partial → MessageError
  bad_method : MessageError

-- What a message asks for; `M` is the type of methods.
pub data Handler (M F : Type 0) : Type 0 where
  runs_method : M → Handler M F
  runs_callback : F → Handler M F

-- What JSON and strconv make of a message: a message, or nil for a `null`; uint64 of a number; and
-- strconv.ParseUint.
pub record Reader (N : Type 0) : Type 0 where
  pub decode : Text → Result Text (Option (Received N))
  pub to_uint64 : N → ℕ
  pub parse_uint : Text → Result Text ℕ

-- A result, or a panic of the goroutine that reads.
pub data Read (A : Type 0) : Type 0 where
  panics : Read A
  fails : MessageError → Read A
  reads : A → Read A

module _ (N M F S : Type 0) (reader : Reader N) where
  open reader use {decode, to_uint64, parse_uint}

  -- `ParseCallbacks`: the callbacks are appended to the arguments, and to append to nil panics.
  abbrev pub with_spec : Option Partial → CallbackPath → Result Text ℕ → Read (Option Partial)
  with_spec p path (err e) = fails (bad_callback e)
  with_spec none path (ok id) = panics
  with_spec (some p) path (ok id) = reads (some (record p { specs = p.specs ++ (path, id) ∷ [] }))

  abbrev pub and_read : {A B : Type 0} → Read A → (A → Read B) → Read B
  and_read panics k = panics
  and_read (fails e) k = fails e
  and_read (reads a) k = k a

  unfoldable pub parse_callbacks : Dict Text CallbackPath → Option Partial → Read (Option Partial)
  parse_callbacks [] p = reads p
  parse_callbacks ((id, path) ∷ rest) p =
      and_read (with_spec p path (parse_uint id)) (parse_callbacks rest)

  -- A message that was read, with its arguments.
  abbrev pub Found : Type 0
  Found = Option Partial × Handler M F

  abbrev pub of_callback : ℕ → Option Partial → Option F → Read Found
  of_callback id p none = fails (callback_not_found id)
  of_callback id p (some f) = reads (p, runs_callback f)

  abbrev pub of_method : Text → Option Partial → Option M → Read Found
  of_method name p none = fails (method_not_found name p)
  of_method name p (some m) = reads (p, runs_method m)

  -- The switch on the method.
  unfoldable pub find_handler : Dict Text M → Client F S → Method N → Option Partial → Read Found
  find_handler handlers c (number x) p =
      of_callback (to_uint64 x) p (get_callback F (to_uint64 x) c.scrubber)
  find_handler handlers c (string name) p = of_method name p (lookup name handlers)
  find_handler handlers c no_method p = fails bad_method

  -- `ParseCallbacks` panics on a nil message.
  abbrev pub of_decoded : Dict Text M → Client F S → Result Text (Option (Received N)) → Read Found
  of_decoded handlers c (err e) = fails (malformed e)
  of_decoded handlers c (ok none) = panics
  of_decoded handlers c (ok (some msg)) =
      and_read (parse_callbacks msg.callbacks msg.arguments) (find_handler handlers c msg.method)

  -- `processMessage` before the deferred function, which calls `onError` on an error.
  unfoldable pub process_message : Dict Text M → Client F S → Text → Read Found
  unfolding parse_callbacks find_handler
  process_message handlers c payload = of_decoded handlers c (decode payload)

  -- What the read loop does with a message: it runs a method or a callback, in a goroutine of its own
  -- or not, or `onError` answers a method that is not found.
  pub data Event : Type 0 where
    method_run : Bool → M → Option Partial → Event
    callback_run : Bool → F → Option Partial → Event
    not_found_answer : Text → Option Partial → Event

  -- The fields `Concurrent` and `ConcurrentCallbacks`.
  pub record Concurrency : Type 0 where
    pub concurrent : Bool
    pub concurrent_callbacks : Bool

  abbrev pub event_of_error : MessageError → List Event
  event_of_error (method_not_found name p) = not_found_answer name p ∷ []
  event_of_error (malformed e) = []
  event_of_error (bad_callback e) = []
  event_of_error (callback_not_found id) = []
  event_of_error bad_method = []

  abbrev pub event_of : Concurrency → Found → Event
  event_of how (p, runs_method m) = method_run how.concurrent m p
  event_of how (p, runs_callback f) = callback_run (how.concurrent && how.concurrent_callbacks) f p

  -- How the loop ended, if it did.
  pub data Ending : Type 0 where
    still_reads panicked : Ending
    session_error : Text → Ending

  -- `readLoop` over what `receiveData` gives; `after` is the client once an event is dispatched.
  module _ (handlers : Dict Text M) (how : Concurrency)
      (after : Event → Client F S → Client F S) where
    abbrev pub Run : Type 0
    Run = Client F S × List Event × Ending

    abbrev pub after_events : List Event → Client F S → Client F S
    after_events [] c = c
    after_events (e ∷ es) c = after_events es (after e c)

    abbrev pub and_loop : List Event → Client F S → (Client F S → Run) → Run
    and_loop es c rest =
        let (end, more, ending) = rest (after_events es c) in (end, es ++ more, ending)

    abbrev pub dispatch : Read Found → Client F S → (Client F S → Run) → Run
    dispatch panics c rest = (c, [], panicked)
    dispatch (fails e) c rest = and_loop (event_of_error e) c rest
    dispatch (reads found) c rest = and_loop (event_of how found ∷ []) c rest

    unfoldable pub read_loop : List (Result Text Text) → Client F S → Run
    unfolding process_message
    read_loop [] c = (c, [], still_reads)
    read_loop (err e ∷ rest) c = (c, [], session_error e)
    read_loop (ok payload ∷ rest) c =
        dispatch (process_message handlers c payload) c (read_loop rest)
