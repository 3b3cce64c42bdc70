-- ===== src/StreamBuffer/Types.antt =====
-- core/stream_buffer.py: the states, the entries and the buffer.
use astrbot_plugin_webchat_g.Prelude.{ℕ, String, Bool, true, false, Option, List}
use astrbot_plugin_webchat_g.Dict.{Dict}

pub data StreamState : Type 0 where
  pending streaming closed_ok closed_incomplete closed_failed : StreamState

-- `_TERMINAL_STATES`
abbrev pub is_terminal : StreamState → Bool
is_terminal pending = false
is_terminal streaming = false
is_terminal closed_ok = true
is_terminal closed_incomplete = true
is_terminal closed_failed = true

-- The payloads that the registry closes a stream with.
pub data Final : Type 0 where
  reply : ℕ → ℕ → Bool → Final
  failure : String → Final

-- `_InMemoryEntry`. `new_chunk` is the identity of an `asyncio.Event`; `terminal` is an event too,
-- of which the code only asks whether it is set.
pub record Entry : Type 0 where
  pub token_name : String
  pub session_id : String
  pub started_at : ℕ
  pub state : StreamState
  pub chunks : List (ℕ × String)
  pub final : Option Final
  pub closed_at : Option ℕ
  pub new_chunk : ℕ
  pub terminal : Bool

-- The snapshot that `fetch_since` returns.
pub record StreamBufferEntry : Type 0 where
  pub stream_id : String
  pub token_name : String
  pub session_id : String
  pub started_at : ℕ
  pub state : StreamState
  pub chunks : List (ℕ × String)
  pub final : Option Final
  pub closed_at : Option ℕ

-- `is_set` is the state of all `asyncio.Event` objects, `next_event` the next one's identity.
pub record Buffer : Type 0 where
  pub grace_seconds : ℕ
  pub max_per_token : ℕ
  pub max_global : ℕ
  pub entries : Dict String Entry
  pub is_set : ℕ → Bool
  pub next_event : ℕ

pub data Reason : Type 0 where
  per_token_cap global_cap ttl_expired manual : Reason

-- What `create` did: a new entry, nothing for a stream identifier that is in use, or the error.
pub data Outcome : Type 0 where
  created reused buffer_full : Outcome
