-- ===== src/Storage/Rows.antt =====
-- storage/base.py: the rows of the tables, and the argument for a column that is left alone.
use astrbot_plugin_webchat_g.Prelude.{ℕ, String, Bool, Option}

-- `_UNSET`: the argument that is not given, next to a value or NULL that is.
pub data Argument {ℓ} (A : Type ℓ) : Type ℓ where
  unset : Argument A
  given : A → Argument A

pub record TokenRow : Type 0 where
  pub name : String
  pub token_hash : String
  pub daily_quota : ℕ
  pub note : String
  pub created_at : ℕ
  pub revoked_at : Option ℕ
  pub expires_at : Option ℕ

-- A day is its ordinal number.
pub record UsageRow : Type 0 where
  pub name : String
  pub day : ℕ
  pub count : ℕ

pub record AuditRow : Type 0 where
  pub id : ℕ
  pub ts : ℕ
  pub name : Option String
  pub ip : Option String
  pub event : String
  pub detail : String

pub record SessionMetaRow : Type 0 where
  pub token_name : String
  pub session_id : String
  pub title : String
  pub title_manual : Bool
  pub pinned_at : Option ℕ
  pub deleted_at : Option ℕ
  pub updated_at : ℕ
  pub message_count : ℕ
  pub preview : String

pub record UpdateRow : Type 0 where
  pub token_name : String
  pub pts : ℕ
  pub ts : ℕ
  pub event_type : String
  pub session_id : String
  pub payload : String

pub record NewEvent : Type 0 where
  pub event_type : String
  pub session_id : String
  pub payload : String

pub record FileRow : Type 0 where
  pub file_id : String
  pub token_name : String
  pub session_id : String
  pub mime : String
  pub size_bytes : ℕ
  pub storage_key : String
  pub committed : Bool
  pub uploaded_at : ℕ
  pub committed_at : Option ℕ
  pub filename : String

pub data DropKind : Type 0 where
  text_kind file_kind : DropKind

pub record DropMessageRow : Type 0 where
  pub id : ℕ
  pub token_name : String
  pub device_id : String
  pub device_name : String
  pub kind : DropKind
  pub text : String
  pub file_id : Option String
  pub filename : String
  pub mime : String
  pub size_bytes : ℕ
  pub created_at : ℕ
  pub deleted_at : Option ℕ
