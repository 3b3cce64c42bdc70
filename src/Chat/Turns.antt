-- ===== src/Chat/Turns.antt =====
-- handlers/chat.py: a turn, under the lock of its session. The answers of the model, of the image
-- bridge, of the file store and of the database are arguments; an `aborted` turn is one whose task is
-- cancelled, which no handler of the code catches. What is told to the conversations service is kept
-- as a list.
pub mod Charges
use Prim.Native.String
use astrbot_plugin_webchat_g.Prelude.{
  ℕ, ◌+◌, ◌-◌, String, Bool, true, false, not, Option, none, some, List, [], ◌∷◌, ◌++◌, ◌&&◌, ◌||◌,
  ◌==◌, if◌then◌else◌, text_key, number_key, select,
}
use astrbot_plugin_webchat_g.Storage.Rows.{TokenRow, FileRow}
use astrbot_plugin_webchat_g.Storage.Sql.{limit_rows}
use astrbot_plugin_webchat_g.Storage.Files.{insert_file, mark_files_committed, contains}
use astrbot_plugin_webchat_g.FileLifecycle.{
  Files, is_nil, remove_object, release_files_safely, ids_of, commit_attachments_or_release,
}
use astrbot_plugin_webchat_g.FileLifecycle
use astrbot_plugin_webchat_g.FileCookie.{◌<>◌}
use astrbot_plugin_webchat_g.Usage
use astrbot_plugin_webchat_g.Quota.{QuotaReservation, open_reservation, commit, close}
use astrbot_plugin_webchat_g.Ratelimit.{Limiter, acquire, exit_release, exit_evict}
use astrbot_plugin_webchat_g.Ratelimit.Keys.{session_key}
use astrbot_plugin_webchat_g.Chat.Requests.{PreparedChatRequest}

-- `record_chat_pair`: who, where, what was said with which files, and the reply with its files.
pub record Pair : Type 0 where
  pub token_name : String
  pub session_id : String
  pub user_text : String
  pub assistant_text : String
  pub user_attachments : List String
  pub assistant_attachments : List String

pub record World : Type 0 where
  pub limiter : Limiter
  pub usage : Usage.Table
  pub files : Files
  pub pairs : List Pair

-- `map_llm_error`
pub data LlmError : Type 0 where
  llm_timeout empty_reply llm_call_failed : LlmError

pub data Generation : Type 0 where
  generated : String → Generation
  failed : LlmError → Generation
  aborted : Generation

pub data ImageError : Type 0 where
  image_disabled image_timeout image_call_failed empty_image_reply : ImageError

-- What the image bridge gives: an image, by its type and length; `None` where the client is gone.
pub data Picture : Type 0 where
  drawn : String → ℕ → Picture
  client_gone : Picture
  failed : ImageError → Picture
  aborted : Picture

-- `file_store.save` and the two writes of the database, for the image; and whether the object is
-- gone after the rollback.
pub record Persisting : Type 0 where
  pub file_id : String
  pub save_raises : Bool
  pub leaves_object : Bool
  pub insert_raises : Bool
  pub mark_raises : Bool
  pub rollback_deletes : Bool

pub record Bridge : Type 0 where
  pub enabled : Bool
  pub edit_enabled : Bool
  pub max_reference_images : ℕ

-- `is_image` and `prompt` are `is_image_command` and `strip_image_prefix` of the message, and `reads`
-- tells whether the file store gives bytes for a row.
pub record Answers : Type 0 where
  pub bridge : Option Bridge
  pub is_image : Bool
  pub prompt : String
  pub reads : FileRow → Bool
  pub files : FileLifecycle.Answers
  pub generation : Generation
  pub picture : Picture
  pub persisting : Persisting

pub data ChatReply : Type 0 where
  concurrent_request : ChatReply
  quota_exceeded : ChatReply
  internal_error : ChatReply
  llm_error : LlmError → ChatReply
  bridge_disabled : ChatReply
  image_prompt_empty : ChatReply
  client_closed : ChatReply
  image_error : ImageError → ChatReply
  persist_failed : ChatReply
  replied : String → ℕ → ChatReply
  pictured : String → ℕ → ChatReply
  no_response : ChatReply

abbrev pub refunded : QuotaReservation → World → World
refunded r w = record w { usage = (close r w.usage).1 }

abbrev pub released : Answers → List FileRow → World → World
released a rows w =
    if is_nil rows
    then w
    else record w { files = (release_files_safely a.files true rows w.files).1 }

abbrev pub paired : PreparedChatRequest → String → List String → List String → World → World
paired p text sent drawn_ids w = record w {
  pairs =
      w.pairs
      ++ (record {
        token_name = p.token.name;
        session_id = p.data_.session_id;
        user_text = p.data_.message;
        assistant_text = text;
        user_attachments = sent;
        assistant_attachments = drawn_ids;
      }
          ∷ []);
}

-- The reply of the model.
unfoldable pub finish_text :
    Answers → PreparedChatRequest → QuotaReservation → World → ChatReply × World
finish_text a p r w = elim a.generation [
  | generated text ↦
      (replied text (commit r).remaining, paired p text (ids_of p.attachment_rows) [] w)
  | failed e ↦ (llm_error e, released a p.attachment_rows (refunded r w))
  | aborted ↦ (no_response, released a p.attachment_rows w)
]

unfoldable pub chat_text :
    Answers → PreparedChatRequest → QuotaReservation → ℕ → World → ChatReply × World
unfolding finish_text
chat_text a p r now w =
    let (committed, audited, files) =
      commit_attachments_or_release a.files p.attachment_rows now w.files in
    let w' : World = record w { files = files } in
    if is_nil p.attachment_rows
    then finish_text a p r w
    else if committed
    then finish_text a p r w'
    else (internal_error, refunded r w')

-- `persist_generated_image`: the identifier, or an exception.
unfoldable pub persist_generated_image :
    Persisting → String → String → ℕ → ℕ → Files → Option String × Files
persist_generated_image q token mime size now s =
    let ext : String =
      if mime == "image/jpeg"
      then ".jpg"
      else if mime == "image/webp"
      then ".webp"
      else if mime == "image/gif"
      then ".gif"
      else ".png" in
    let key = token <> "/" <> q.file_id <> ext in
    let stored : Files = record s { objects = key ∷ s.objects } in
    let undone : List FileRow → Files = λ rows.
      let kept : Files = record stored { rows = rows } in
      if q.rollback_deletes then remove_object key kept else kept in
    if q.save_raises
    then (none, if q.leaves_object then stored else s)
    else if q.insert_raises
    then (none, undone s.rows)
    else elim (insert_file q.file_id token "" mime size key now "" s.rows) [
      | none ↦ (none, undone s.rows)
      | some rows ↦ if q.mark_raises then (none, undone rows) else (
        some q.file_id,
        record stored { rows = (mark_files_committed (q.file_id ∷ []) now rows).1 },
      )
    ]

abbrev pub can_edit : Option Bridge → Bool
can_edit none = false
can_edit (some b) = b.edit_enabled

abbrev pub is_enabled : Option Bridge → Bool
is_enabled none = false
is_enabled (some b) = b.enabled

abbrev pub reference_limit : Option Bridge → ℕ
reference_limit none = 0
reference_limit (some b) = b.max_reference_images

-- The attachments that an edit takes as references.
unfoldable pub references : Answers → List FileRow → List FileRow
references a rows =
    if not (is_nil rows) && can_edit a.bridge
    then select a.reads (limit_rows (reference_limit a.bridge) rows)
    else []

-- The image is there: keep it, and the references.
unfoldable pub finish_image :
    Answers
    → PreparedChatRequest
    → QuotaReservation
    → List FileRow
    → String
    → ℕ
    → ℕ
    → World
    → ChatReply × World
unfolding persist_generated_image
finish_image a p r used mime size now w =
    let (id, files) = persist_generated_image a.persisting p.token.name mime size now w.files in
    let (committed, audited, files') = commit_attachments_or_release a.files used now files in
    elim id [
      | none ↦ (persist_failed, refunded r (record w { files = files }))
      | some file_id ↦
          if is_nil used
          then (
            pictured file_id (commit r).remaining,
            paired p "" [] (file_id ∷ []) (record w { files = files }),
          )
          else (
            pictured file_id (commit r).remaining,
            paired p "" (if committed then ids_of used else []) (file_id ∷ [])
                (record w { files = files' }),
          )
    ]

unfoldable pub chat_image :
    Answers → PreparedChatRequest → QuotaReservation → ℕ → World → ChatReply × World
unfolding finish_image references
chat_image a p r now w =
    let used = references a p.attachment_rows in
    let unused : List FileRow =
      select (λ row. not (contains (ids_of used) row.file_id)) p.attachment_rows in
    let w' = released a unused w in
    if not (is_enabled a.bridge)
    then (bridge_disabled, refunded r w')
    else if a.prompt == ""
    then (image_prompt_empty, refunded r w')
    else elim a.picture [
      | client_gone ↦ (client_closed, refunded r w')
      | failed e ↦ (image_error e, refunded r w')
      | aborted ↦ (no_response, w')
      | drawn mime size ↦ finish_image a p r used mime size now w'
    ]

-- With what `QuotaReservation.open` gave.
abbrev pub with_reservation :
    Answers
    → PreparedChatRequest
    → ℕ
    → World
    → Option QuotaReservation × Usage.Table
    → ChatReply × World
with_reservation a p now w (none, usage) = (quota_exceeded, record w { usage = usage })
with_reservation a p now w (some r, usage) =
    let w' : World = record w { usage = usage } in
    if a.is_image then chat_image a p r now w' else chat_text a p r now w'

-- With the lock held.
unfoldable pub chat_locked : Answers → PreparedChatRequest → ℕ → ℕ → World → ChatReply × World
unfolding chat_text chat_image
chat_locked a p day now w =
    with_reservation a p now w (open_reservation p.token.name day p.token.daily_quota w.usage)

-- The lock is given back in every case.
unfoldable pub chat : Answers → PreparedChatRequest → ℕ → ℕ → World → ChatReply × World
unfolding chat_locked
chat a p day now w =
    let key = session_key p.token.name p.data_.session_id in
    let (lock, limiter) = acquire key w.limiter in
    let entered : World = record w { limiter = limiter } in
    elim lock [
      | none ↦ (concurrent_request, entered)
      | some l ↦
          let (reply, left) = chat_locked a p day now entered in
          (reply, record left { limiter = exit_evict key l (exit_release l left.limiter) })
    ]
