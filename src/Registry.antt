-- ===== src/Registry.antt =====
-- core/stream_registry.py, `StreamRegistry`: the life of a stream over the limiter, the buffer and
-- the services. A method of the buffer or of the limiter does not suspend; `asyncio.shield` does,
-- and the release that it shields is carried out even where the wait for it is cancelled.
pub mod Types
pub mod StreamId
pub mod Driving
pub mod Opening
pub mod Numbering
pub mod Closing
pub mod Ends
pub mod Terminal
pub mod Failing
use astrbot_plugin_webchat_g.Prelude.{
  ℕ, ◌+◌, String, Bool, true, false, Option, none, some, List, [], ◌∷◌, ◌==◌, ◌||◌, if◌then◌else◌,
  text_key, number_key,
}
use astrbot_plugin_webchat_g.Prelude.Int.{negsuc}
use astrbot_plugin_webchat_g.Dict.{Dict, get, put, remove}
use astrbot_plugin_webchat_g.Ratelimit
use astrbot_plugin_webchat_g.Ratelimit.Keys.{session_key}
use astrbot_plugin_webchat_g.Quota.{QuotaReservation}
use astrbot_plugin_webchat_g.StreamBuffer
use astrbot_plugin_webchat_g.StreamBuffer.Types.{
  StreamBufferEntry, StreamState, closed_ok, closed_incomplete, closed_failed, Final, reply,
  failure, Outcome, created, reused, buffer_full,
}
use astrbot_plugin_webchat_g.Registry.Types.{
  StreamHandle, Drivers, World, Answer, answered, failed, cancelled, AuditEvent, stream_started,
  stream_completed, stream_partial, stream_failed, EventStatus, ok, incomplete, error, ChatPair,
  FileRow, Services,
}
use astrbot_plugin_webchat_g.Registry.StreamId.{is_stream_id}

unfoldable pub register_driver : String → String → ℕ → Drivers → Drivers
register_driver sid token task d = record d { table = put sid (token, task) d.table }

unfoldable pub unregister_driver : String → Drivers → Drivers
unregister_driver sid d = record d { table = remove sid d.table }

-- `task.cancel()`
abbrev pub cancel_task : ℕ → Drivers → Drivers
cancel_task task d = record d { is_cancelled = λ t. (task == t) || d.is_cancelled t }

unfoldable pub cancel : String → String → Drivers → Bool × Drivers
cancel sid token d = elim (get sid d.table) [
  | none ↦ (false, d)
  | some (owner, task) ↦
      if owner == token
      then if d.is_done task then (true, d) else (true, cancel_task task d)
      else (false, d)
]

unfoldable pub cancel_each : Dict String (String × ℕ) → Drivers → List ℕ × Drivers
cancel_each [] d = ([], d)
cancel_each ((sid, (token, task)) ∷ m) d =
    let (tasks, d') = cancel_each m (if d.is_done task then d else cancel_task task d) in
    (if d.is_done task then tasks else task ∷ tasks, d')

unfoldable pub cancel_all_drivers : Drivers → List ℕ × Drivers
cancel_all_drivers d = cancel_each d.table d

unfoldable pub fetch : String → String → StreamBuffer.Types.Buffer → Option StreamBufferEntry
fetch sid token b = elim (StreamBuffer.fetch_since sid (negsuc 0) b) [
  | none ↦ none
  | some snapshot ↦ if snapshot.token_name == token then some snapshot else none
]

-- The key of the lock that a handle's stream holds.
abbrev pub lock_key : StreamHandle → String
lock_key h = session_key h.token_name h.session_id

abbrev pub new_handle : String → String → String → ℕ → List String → StreamHandle
new_handle sid token session now files = record {
  stream_id = sid;
  token_name = token;
  session_id = session;
  started_at = now;
  next_seq = 0;
  attachment_file_ids = files;
  user_message_emitted = false;
  reservation = none;
  used = false;
}

module _ {ℓ} {X : Type ℓ} where
  -- The `try` around one step of `_close`: only a cancellation goes on.
  abbrev pub guarded : {A : Type ℓ} → Answer A × World X → Bool × World X
  guarded (answered _, w) = (false, w)
  guarded (failed, w) = (false, w)
  guarded (cancelled, w) = (true, w)

  -- A `ValueError` of the buffer's `close` is logged.
  unfoldable pub buffer_closed : StreamHandle → StreamState → Final → ℕ → World X → World X
  buffer_closed h state final now w =
      elim (StreamBuffer.close h.stream_id state final now w.buffer) [
        | none ↦ w
        | some b ↦ record w { buffer = b }
      ]

  -- Step 4, the `finally`.
  unfoldable pub released : StreamHandle → World X → World X
  released h w = record w { limiter = Ratelimit.release (lock_key h) h.stream_id w.limiter }

  unfoldable pub forgotten : StreamHandle → World X → World X
  forgotten h w = record w { drivers = unregister_driver h.stream_id w.drivers }

module _ {ℓ} {X : Type ℓ} (services : Services X) where
  -- The audit of `open`, whose `Exception` is logged.
  unfoldable pub audited_handle : StreamHandle → World X → Answer (Option StreamHandle) × World X
  audited_handle h w =
      let (a, w') = services.write_audit stream_started h w in
      elim a [
        | answered _ ↦ (answered (some h), w')
        | failed ↦ (answered (some h), w')
        | cancelled ↦ (cancelled, w')
      ]

  -- `open` under the stream identifier that it made up, with the lock taken.
  unfoldable pub open_locked :
      String
      → String
      → String
      → List String
      → ℕ
      → Bool
      → World X
      → Answer (Option StreamHandle) × World X
  unfolding audited_handle
  open_locked sid token session files now interrupted w =
      let (outcome, _, b) = StreamBuffer.create sid token session now w.buffer in
      let given_up = record w {
        limiter = Ratelimit.release (session_key token session) sid w.limiter;
        buffer = b;
      } in
      elim outcome [
        | created ↦
            audited_handle (new_handle sid token session now files) (record w { buffer = b })
        | reused ↦ audited_handle (new_handle sid token session now files) (record w { buffer = b })
        | buffer_full ↦ (if interrupted then cancelled else answered none, given_up)
      ]

  -- `open`; `interrupted` says whether a cancellation comes in the shielded release.
  unfoldable pub open_stream :
      String
      → String
      → String
      → List String
      → ℕ
      → Bool
      → World X
      → Answer (Option StreamHandle) × World X
  unfolding open_locked
  open_stream sid token session files now interrupted w =
      let (acquired, l) = Ratelimit.acquire_with_id (session_key token session) sid w.limiter in
      let opened = open_locked sid token session files now interrupted (record w { limiter = l }) in
      if is_stream_id sid
      then if acquired then opened else (answered none, record w { limiter = l })
      else (answered none, w)

  -- `append`; `failed` is the `RuntimeError` for a handle that is closed.
  unfoldable pub append : StreamHandle → String → World X → Answer ℕ × StreamHandle × World X
  append h text w = if h.used then (failed, h, w) else (
    answered h.next_seq,
    record h { next_seq = h.next_seq + 1 },
    record w { buffer = StreamBuffer.append_chunk h.stream_id h.next_seq text w.buffer },
  )

  abbrev pub persisted : StreamHandle → Option ChatPair → World X → Bool × World X
  persisted h none w = (false, w)
  persisted h (some pair) w = guarded (services.record_chat_pair h pair w)

  -- Steps 1 to 3, and whether one was cancelled.
  unfoldable pub close_steps :
      StreamHandle
      → Option ChatPair
      → EventStatus
      → StreamState
      → Final
      → ℕ
      → World X
      → Bool × World X
  unfolding buffer_closed
  close_steps h pair status state final now w =
      let (stopped, w1) = persisted h pair w in
      let (halted, w2) = guarded (services.emit_stream_ended h status w1) in
      if stopped
      then (true, w1)
      else if halted
      then (true, w2)
      else (false, buffer_closed h state final now w2)

  -- `_close` of a handle that is not used.
  unfoldable pub close_unused :
      StreamHandle
      → Option ChatPair
      → EventStatus
      → StreamState
      → Final
      → AuditEvent
      → ℕ
      → Bool
      → World X
      → Bool × StreamHandle × World X
  unfolding close_steps released forgotten
  close_unused h pair status state final event now interrupted w =
      let (stopped, w1) = close_steps h pair status state final now w in
      let w2 = released h w1 in
      let w3 = forgotten h w2 in
      let (late, w4) = guarded (services.write_audit event h w3) in
      let closed = record h { used = true } in
      if interrupted
      then (true, closed, w2)
      else if stopped
      then (true, closed, w3)
      else (late, closed, w4)

  -- `_close`: whether it was cancelled. `interrupted` says whether a cancellation comes in the
  -- shielded release; it skips what stands below.
  unfoldable pub close :
      StreamHandle
      → Option ChatPair
      → EventStatus
      → StreamState
      → Final
      → AuditEvent
      → ℕ
      → Bool
      → World X
      → Bool × StreamHandle × World X
  unfolding close_unused
  close h pair status state final event now interrupted w =
      if h.used
      then (false, h, w)
      else close_unused h pair status state final event now interrupted w
