-- ===== src/Registry/Types.antt =====
-- core/stream_registry.py: the handle of a stream, the state around the registry, and the services
-- that it calls.
use astrbot_plugin_webchat_g.Prelude.{ℕ, String, Bool, Option, List, ◌≡◌, refl, ◌⊎◌, inl, inr}
use astrbot_plugin_webchat_g.Dict.{Dict}
use astrbot_plugin_webchat_g.Ratelimit.{Limiter}
use astrbot_plugin_webchat_g.Quota.{QuotaReservation}
use astrbot_plugin_webchat_g.StreamBuffer.Types.{Buffer}
pub use astrbot_plugin_webchat_g.Storage.Rows.{FileRow}

-- `StreamHandle`
pub record StreamHandle : Type 0 where
  pub stream_id : String
  pub token_name : String
  pub session_id : String
  pub started_at : ℕ
  pub next_seq : ℕ
  pub attachment_file_ids : List String
  pub user_message_emitted : Bool
  pub reservation : Option QuotaReservation
  pub used : Bool

-- `_drivers`: the token and the task of a stream; and what the registry asks of tasks and does to
-- them, `done()` and `cancel()`.
pub record Drivers : Type 0 where
  pub table : Dict String (String × ℕ)
  pub is_done : ℕ → Bool
  pub is_cancelled : ℕ → Bool

-- The limiter, the buffer and the drivers, and the rest of the process.
pub record World {ℓ} (X : Type ℓ) : Type ℓ where
  pub limiter : Limiter
  pub buffer : Buffer
  pub drivers : Drivers
  pub rest : X

-- How an awaited call ends: with a value, with an `Exception`, or with `CancelledError`, which is
-- none.
pub data Answer {ℓ} (A : Type ℓ) : Type ℓ where
  answered : A → Answer A
  failed : Answer A
  cancelled : Answer A

pub answer_cases {ℓ} :
    {A : Type ℓ} (a : Answer A) → ((x : A) × (a ≡ answered x)) ⊎ (a ≡ failed) ⊎ (a ≡ cancelled)
answer_cases (answered x) = inl (x, refl)
answer_cases failed = inr (inl refl)
answer_cases cancelled = inr (inr refl)

-- `chat_stream_started` and the three ends.
pub data AuditEvent : Type 0 where
  stream_started stream_completed stream_partial stream_failed : AuditEvent

pub data EventStatus : Type 0 where
  ok incomplete error : EventStatus

-- `persist`: the texts of the user and of the assistant, and whether the reply is a partial one.
pub record ChatPair : Type 0 where
  pub user_text : String
  pub assistant_text : String
  pub is_incomplete : Bool

-- The conversation service, the audit log and the storage. Each call may end in any way, and may
-- leave any state, since other tasks run while it waits.
pub record Services {ℓ} (X : Type ℓ) : Type ℓ where
  pub record_chat_pair : StreamHandle → ChatPair → World X → Answer (Unit {ℓ}) × World X
  pub emit_stream_ended : StreamHandle → EventStatus → World X → Answer (Unit {ℓ}) × World X
  pub write_audit : AuditEvent → StreamHandle → World X → Answer (Unit {ℓ}) × World X
  pub refund_daily_usage : String → ℕ → World X → Answer (Unit {ℓ}) × World X
  pub get_file : String → World X → Answer (Option FileRow) × World X
  pub release_files_safely : List FileRow → World X → Answer ℕ × World X
