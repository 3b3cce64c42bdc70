-- ===== src/Lib.antt =====
-- Verification library of the WebChat gateway, a plugin that serves chat over HTTP to holders of
-- tokens.
--
-- The program. A request passes the gate (handlers/common.py) with its guard of addresses
-- (core/ip_guard.py over the table ip_failures), takes the lock of its session (core/ratelimit.py),
-- reserves one unit of its token's daily quota (core/quota.py over the table daily_usage), and then
-- takes a turn with the model (handlers/chat.py, after handlers/chat_common.py has read the body and
-- the attachments) or drives a stream: the registry (core/stream_registry.py) opens an entry in the
-- buffer (core/stream_buffer.py), appends the chunks of the reply, and closes the entry, releases the
-- lock and settles the reservation at the end.
-- Other requests subscribe to the buffer, fetch a stream, or cancel its driver. Uploads pass a gate of
-- their own (core/ratelimit.py), and an upload's stored object and row are released together
-- (core/file_lifecycle.py). Files are uploaded and served by handlers/files.py, to the bearer of a
-- token or of a signed cookie (core/file_cookie.py), which a logout voids (core/cookie_logout.py). The
-- tables are those of storage/sqlite_backend.py. A client follows the events of its token by polls
-- (handlers/conversations_service.py, get_events) that wait on a bus (core/event_bus.py), while a daily
-- sweep (core/prune_orchestrator.py) deletes what is past its retention. A ring of log records
-- (core/log_buffer.py) serves the admin panel, which manages the tokens (handlers/admin_tokens.py).
-- All of it runs on one event loop: a coroutine runs alone from one suspension to the next.
--
-- How the code is modelled. A critical section that does not suspend is one function on the state;
-- a method that suspends inside is several, one to each piece; interleavings are lists of calls of
-- these functions, and the theorems quantify over the lists. A dict or a table with a primary key is
-- an association list in the order of insertion (Dict). An asyncio.Event or an asyncio.Lock is a
-- number, and its state is a function on numbers. Clock readings are arguments, in whole seconds.
-- Counters are native natural numbers, as Python's integers do not overflow; the cursor of a
-- subscriber is an integer, since -1 asks for everything.
--
-- Files, and the code that they model:
--   Prelude, Dict  the shared names: tests on numbers, lists, keys, integers; dictionaries
--   Ratelimit      core/ratelimit.py, PerTokenConcurrency: acquire, its exit in two pieces,
--                  acquire_with_id, release; Ratelimit/Keys: session_key; Ratelimit/Schedule: any
--                  interleaving of requests, with the requests that are inside
--   Gate           core/ratelimit.py, PerTokenUploadGate, over the queueing of asyncio.Lock
--   Usage, Quota   storage/sqlite_backend.py, the daily usage; core/quota.py, QuotaReservation
--   IpFailures     storage/sqlite_backend.py, the failures of addresses
--   IpGuard        core/ip_guard.py
--   StreamBuffer   core/stream_buffer.py, InMemoryBuffer; StreamBuffer/Subscribe: iter_subscribe as
--                  a state machine that is resumed between methods of the buffer;
--                  Rounds, Caps: the evictions of create; Wakes, Within, Wakeup: its events and a
--                  subscriber that sleeps; Delivery: what a subscriber delivers
--   Registry       core/stream_registry.py: Types (the handle, the state and the interface of the
--                  services), StreamId (STREAM_ID_PATTERN), and in Registry itself the drivers,
--                  fetch, open, append and _close; Registry/Terminal: close_ok, close_incomplete,
--                  close_failed with the refund and the release of the attachments; the proofs in
--                  Opening, Numbering, Closing, Ends, Failing and Driving
--   RequestGate    handlers/common.py: gate_request over the guard and the table of tokens, with the
--                  origin, the headers and the address; core/auth.py: extract_bearer
--   EventBus       core/event_bus.py: the condition and the waiter count of each token
--   LogBuffer      core/log_buffer.py: the ring, emit from where the record's texts are cut, snapshot
--   Storage        storage/sqlite_backend.py and the rows of storage/base.py, a table to a file:
--                  Sql (the statements, as functions on lists of rows), Rows, Tokens, Updates with
--                  its children Append, Log, Prune and History, Sessions, Files, Drop, Audit (with
--                  core/audit.py), Rename (rename_token over all of them)
--   FileLifecycle  core/file_lifecycle.py; Anchors: an object and its row; Commits:
--                  commit_attachments_or_release
--   FileCookie     core/file_cookie.py and core/cookie_logout.py; RoundTrip: a cookie that is read
--                  back; Logout: the logouts and the sweeps of a process
--   FileServing    handlers/files.py, the serving of a file; Owners, Cookies: who gets it; Sessions:
--                  handlers/chat_files_auth.py, /me and the logout; Uploads: the upload
--   TokenService   handlers/admin_tokens.py, the operations that write; Sound, Constraints, History:
--                  what the table of tokens keeps to under any list of them
--   Chat           Requests: handlers/chat_common.py; Turns: handlers/chat.py with
--                  core/image_bridge.py, persist_generated_image
--   Conversations  Events: handlers/conversations_service.py, get_events; Gaps, Follow, Drain: a
--                  client that polls; Pruned: one that polls after a prune
--   Retention      core/prune_orchestrator.py, the data sweep and the retention of the drop
--   Tests          runs on concrete inputs
--
-- The interface of the registry. The conversation service, the audit log and the storage are a record
-- of functions (Registry.Types.Services). Each call may return, raise or be cancelled, and may leave
-- any state behind, which stands for what other tasks do while it is awaited. What a theorem needs of
-- them is a hypothesis with a name: IsOrderly (nobody else takes or frees the lock of this stream),
-- LeavesStreams and LeavesDrivers (the audit leaves these alone).
--
-- Fuel. The loop of create that evicts until there is room has the number of entries as fuel, which
-- is enough since each round but the last removes one (StreamBuffer/Rounds). The client that follows
-- the cursor of the log ring has a number of reads as fuel, and as many as there are pending
-- entries are enough; so has the client that polls for events (Conversations/Events/Drain).
--
-- A turn of handlers/chat.py and the requests of handlers/files.py are one step each, with the
-- answers of the services as arguments; how turns interleave is the matter of Ratelimit and Quota.
--
-- Not modelled: the Redis buffer, the MySQL backend, the SSE handler, the drop panel, the other
-- admin handlers, the histories of the conversations service, and the configuration; the LLM and
-- image bridges and the file stores, which are calls of third-party services; the audit writes of
-- the chat and file handlers, and the texts of replies; the timers that start the sweeper of the
-- buffer and the daily sweep; the making of a stream identifier from the clock and random bytes,
-- which is an argument of open. The numbers of logging's levels and the case-insensitive search of
-- the log's filter are parameters of the filter; urlparse and SHA-256 are parameters of the request
-- gate; HMAC, base64 and the decimal writing of numbers are parameters of the cookies
-- (FileCookie.Codec); the type of an image is what Pillow finds in it.
pub mod Prelude
pub mod Dict
pub mod Ratelimit
pub mod Gate
pub mod Storage
pub mod Usage
pub mod Quota
pub mod IpFailures
pub mod IpGuard
pub mod StreamBuffer
pub mod Registry
pub mod LogBuffer
pub mod RequestGate
pub mod EventBus
pub mod FileLifecycle
pub mod FileCookie
pub mod FileServing
pub mod Chat
pub mod TokenService
pub mod Retention
pub mod Conversations
pub mod Tests
