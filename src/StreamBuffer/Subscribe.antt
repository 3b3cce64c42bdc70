-- ===== src/StreamBuffer/Subscribe.antt =====
-- core/stream_buffer.py, `InMemoryBuffer.iter_subscribe`: a subscriber as a state machine, between
-- any methods of the buffer.
pub mod Cursor
pub mod Wakes
pub mod Within
pub mod Wakeup
pub mod Evolve
pub mod Delivery
use astrbot_plugin_webchat_g.Prelude.{
  ℕ, String, Bool, true, false, Option, none, some, List, [], ◌∷◌, ◌++◌, if◌then◌else◌, text_key,
}
use astrbot_plugin_webchat_g.Prelude.Int.{ℤ, pos, ltb_ℤ}
use astrbot_plugin_webchat_g.Dict.{get}
use astrbot_plugin_webchat_g.StreamBuffer.Types.{StreamState, Final, Entry, Buffer}
use astrbot_plugin_webchat_g.StreamBuffer.{newer, create, append_chunk, close, evict, sweep_once}

-- At the head of the loop; in the `for` over what it read, with the event and the flag that it read
-- beside; in `wake.wait()`; returned, with the flag that says whether the stream was closed.
pub data Stage : Type 0 where
  ready : Stage
  yielding : List (ℕ × String) → ℕ → Bool → Stage
  parked : ℕ → Stage
  returned : Bool → Stage

-- `delivered` is what the consumer has received.
pub record Subscriber : Type 0 where
  pub stream_id : String
  pub last_seq : ℤ
  pub stage : Stage
  pub delivered : List (ℕ × String)

unfoldable pub iter_subscribe : String → ℤ → Subscriber
iter_subscribe sid after = record {
  stream_id = sid;
  last_seq = after;
  stage = ready;
  delivered = [];
}

unfoldable pub read_entry : Option Entry → Subscriber → Subscriber
read_entry none u = record u { stage = returned false }
read_entry (some e) u = record u {
  stage = yielding (newer u.last_seq e.chunks) e.new_chunk e.terminal;
}

-- One piece of the iterator: up to its next suspension or `yield`.
unfoldable pub resume : Stage → Buffer → Subscriber → Subscriber
unfolding read_entry
resume ready b u = read_entry (get u.stream_id b.entries) u
resume (yielding (c ∷ pending) wake terminal) b u = record u {
  last_seq = if ltb_ℤ u.last_seq (pos c.0) then pos c.0 else u.last_seq;
  stage = yielding pending wake terminal;
  delivered = u.delivered ++ c ∷ [];
}
resume (yielding [] wake terminal) b u = record u {
  stage = if terminal then returned true else parked wake;
}
resume (parked wake) b u = if b.is_set wake then record u { stage = ready } else u
resume (returned closed) b u = u

pub data Op : Type 0 where
  creates : String → String → String → ℕ → Op
  appends : String → ℕ → String → Op
  closes : String → StreamState → Final → ℕ → Op
  evicts : String → Op
  sweeps : ℕ → Op

-- A `ValueError` of `close` leaves the buffer alone.
unfoldable pub apply : Op → Buffer → Buffer
apply (creates sid token session now) b = (create sid token session now b).2
apply (appends sid seq text) b = append_chunk sid seq text b
apply (closes sid state final now) b = elim (close sid state final now b) [ none ↦ b | some c ↦ c ]
apply (evicts sid) b = (evict sid b).1
apply (sweeps now) b = (sweep_once now b).1

-- A method of the buffer, or a turn of the subscriber.
pub data Event : Type 0 where
  buffer_op : Op → Event
  turn : Event

unfoldable pub step : Event → Buffer × Subscriber → Buffer × Subscriber
step (buffer_op o) (b, u) = (apply o b, u)
step turn (b, u) = (b, resume u.stage b u)

unfoldable pub run : List Event → Buffer × Subscriber → Buffer × Subscriber
run [] s = s
run (e ∷ es) s = run es (step e s)
