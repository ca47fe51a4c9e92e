-- ===== src/Lib.antt =====
-- Kite is a library for RPC services ("kites") and Kontrol, the service that kites register with and
-- ask for one another. This library models the core of both and proves what makes it correct.
--
-- A call arrives at a kite as a message. `runMethod` makes a request of it, has the caller
-- authenticated, adds the kite's handlers to the method's once, asks the throttle and lets the method
-- serve the request; every way of ending is turned into one response. A token that authenticates a
-- caller names an audience, which Kontrol has written from the query that the caller found the kite
-- by. Kontrol keeps kites under keys made of their seven fields, looks them up by the prefix key of a
-- query, and signs tokens with the key pair that a kite was registered with.
--
-- The files, with the code that they model:
--
-- - Protocol: protocol/protocol.go. `string`, `validate`, `kite_from_string` and `field` are
--   `Kite.String`, `Kite.Validate`, `KiteFromString` and `KontrolQuery.Fields`. Protocol/Path reads
--   the path form back; Protocol/Validity says what is accepted.
-- - Kontrol/QueryKey: kontrol/etcd.go, the keys of queries and the audiences of tokens
--   (`GetQueryKey`, `getAudience`, `onlyIDQuery`, `validateKiteKey`). Go ranges over a map in any
--   order, so `validate_kite_key` takes the order as an argument. Its children: Shape, Match, Validity.
-- - Kontrol/Node: kontrol/node.go, etcd's nodes and the kites read from them; Node/Stored.
-- - Kontrol/KeyPair: kontrol/keypair.go. `KeyPairStorage` is the interface, a record of operations
--   over a state; `mem_storage` and `cached_storage` are its two implementations here. The cache of
--   github.com/koding/cache is the record `Cache` with the laws of a map. Children: Memory, Cached,
--   Sequences.
-- - Kontrol/Keys: kontrol/kontrol.go, `AddKeyPair`, `DeleteKeyPair`, `KeyPair` and `Verify` over any
--   storage. Children: Pairs with Pairs/Deleted, Self.
-- - Kontrol/Token: kontrol/kontrol.go, `generateToken`, its cache and the timers of the cache. Times
--   are numbers of nanoseconds. Children: Lifetime, Sharing.
-- - Kontrol/Serve: kontrol/handlers.go, `HandleGetKites` and `HandleGetToken` with
--   `getOrUpdateKeyID` and `pickKey`. The record `Setup` holds what they are given: the storages, the
--   signature scheme and the settings. Child: Tokens.
-- - Kontrol/Updater: kontrol/handlers.go, the updater that `HandleRegister` starts for a kite and the
--   callback of its heartbeats. A step of either is one `Event`; an interleaving is a sequence of
--   steps, and `Reaches` holds of the states that sequences lead to. Child: Running.
-- - Kontrol/Register: kontrol/handlers.go and kontrol/http.go, `HandleRegister` and
--   `HandleRegisterHTTP` up to the storing of the kite, with `getOrUpdateKeyPub`. Child: Stored.
-- - Errors: errors.go, `Error` and `createError`.
-- - Method: method.go, methods and `ServeKite`. A handler is a function of the request and of all that
--   handlers read and change; it returns a result and an error, or panics. Child: Chain.
-- - Request/Authenticate, Request/Run, Request/Audience: request.go, `authenticate`, `newRequest` with
--   `runMethod`, and `verifyAudience`. Children: Authenticate/Accepted, Run/Served, Run/Refused.
-- - Request/Verify: request.go, `verify` with its cache, `selfVerify` and `AuthenticateFromToken`. The
--   parsing of keys and tokens is jwt-go's, given as functions. Children: Trusted, Granted.
-- - Dnode/Callbacks: dnode/scrubber.go and dnode/scrub.go, the table of callbacks that were sent, whose
--   numbers wrap at 2 ^ 64. Child: Fresh.
-- - Dnode/Scrub: dnode/scrub.go, `Scrub` with `collect`, `fields` and `methods`, over a type of Go
--   values as reflection shows them (`Value`); none is the panic on a func. Children: Numbered, Paths.
-- - Dnode/Unscrub: dnode/unscrub.go, `setCallback` over decoded values by their kind (`Target`), with
--   the flag that reflection keeps of what can be set. Child: Reached.
-- - Client: client.go, the state of a client, `dial`, `Close` and the end of `run`. Its children follow
--   the code's parts: Client/Send (`wrapMethodArgs`, `marshalAndSend`, `sendCallbackID`, `sendMethod`),
--   Client/Responses (`makeResponseCallback`), Client/Messages (`processMessage`, `readLoop` and
--   dnode/callback.go's `ParseCallbacks`), and Client/Waiting: the goroutines of the calls and the end
--   of `run` share the lock `disconnectMu`, and a step of one of them is a step of `Step`. The proofs
--   are in Client/Leaks, Client/Answers, Client/Waiting/Disconnects and Client/Waiting/Stuck.
-- - Session: sockjsclient/sockjsclient.go and sockjsclient/xhr.go. Session/Websocket and Session/Xhr are
--   the two sessions; a receive takes the frames, or the ends of the polls, that are to come. Proofs in
--   Session/Order and Session/Polls.
-- - KontrolClient: kontrolclient.go, the calls of a kite to Kontrol. KontrolClient/Registering is the
--   loop of `RegisterForever` with its channel and its timers, as steps, and KontrolClient/Renewal is
--   tokenrenewer.go, its loop and its timers as steps, with times in seconds. Children:
--   Registering/Pending, Renewal/Timely.
-- - Heartbeat: heartbeat.go, the loop of the heartbeats and what feeds it. Child: Ticking.
-- - Kontrol/Kites: kontrol/kites.go, and the look at a query's version that both storages begin with.
--   go-version is the record `Versions`. Children: Filtered, Shuffled.
-- - Kontrol/Etcd: kontrol/etcd.go, the storage over etcd's client, which is the record `EtcdClient`; the
--   laws that the proofs use are in Etcd/Added (`Laws`). Children: Added, Answered.
-- - Kontrol/Postgres: kontrol/postgres.go, over the record `Sql` of the statements that the program
--   runs. Children: Storing, Answers.
-- - Common: what the modules share. Text is a list of bytes, a Go map is an association list (`Dict`),
--   a Go function's value and error is a `Result`.
-- - Examples: the properties at concrete inputs, and tests.
--
-- No definition needs fuel: every loop is over a list or counts down. Numbers are natural numbers. The
-- numbers of callbacks wrap as the code's do; no other counter or time of the program comes near the
-- bounds of Go's integers. A time before the epoch does not occur: the subtraction of the leeway from
-- the present stops at 0.
--
-- Not modelled: package code outside of the repository (jwt-go, the cache, ratelimit, uuid, etcd's
-- client, SQL, sockjs-go, encoding/json, go-version), which is a parameter, with its laws where the
-- proofs use them; the JSON accessors of dnode/partial.go; the hub that writes
-- a client's messages to its session, and the deferred `onError` of `processMessage`, what it answers
-- and where it panics; a second `Dial` of a client that runs; the error of a response callback, which
-- is only logged; a second registration of a kite whose updater runs; the listeners of kite.go and
-- server.go, the proxies and the command line tools; locks, except where the order of steps under them
-- is the point, as in Kontrol/Updater and Client/Waiting. Error values carry what tells them apart and
-- not always the text that Go formats. That `createError` sets the id in the very error that a handler
-- has returned is not modelled. An interval of heartbeats that is negative stands as 0, which the code
-- treats alike.
pub mod Common
pub mod Protocol
pub mod Kontrol
pub mod Request
pub mod Client
pub mod Heartbeat
pub mod KontrolClient
pub mod Session
pub mod Dnode
pub mod Errors
pub mod Method
pub mod Examples
