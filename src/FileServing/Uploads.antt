-- ===== src/FileServing/Uploads.antt =====
-- handlers/files.py, the upload of an image: the parts of the request, the quota of the token's
-- storage, the row and the object. Content is represented by its length; the type that is found in it,
-- the generated identifier, and the answers of the database and of the file store are arguments. The
-- writes to the audit log are left out, and the gate per token makes the second half one step.
pub mod Parts
pub mod Totals
pub mod Budget
use Prim.Native.Char.{Char, code}
use Prim.Native.String
use astrbot_plugin_webchat_g.Prelude.{
  ℕ, ◌+◌, ◌*◌, ◌-◌, ◌≤◌, ◌<◌, ◌≡◌, refl, sym, ap, subst, ◌∙◌, max, String, Bool, true, false, not,
  Option, none, some, List, [], ◌∷◌, ◌++◌, ◌&&◌, ◌||◌, ◌==◌, if◌then◌else◌, text_key, number_key,
  leb, ltb, select, Bool-cases, Option-cases, inl, inr, arith,
}
use astrbot_plugin_webchat_g.Storage.Rows.{TokenRow, FileRow}
use astrbot_plugin_webchat_g.Storage.Files.{
  insert_file, total_size_for_token, sum_sizes, delete_files_by_ids, contains,
}
use astrbot_plugin_webchat_g.Storage.Sql.{delete_where}
use astrbot_plugin_webchat_g.FileLifecycle.{Files}
use astrbot_plugin_webchat_g.RequestGate.{
  Verdict, gate_pass, forbidden_origin, ip_blocked, unauthorized,
}
use astrbot_plugin_webchat_g.FileCookie.{◌<>◌}
use astrbot_plugin_webchat_g.FileServing.{is_file_id, is_id_char}

-- A part of the multipart body: a file, by the lengths of its chunks; the text of a session, stripped;
-- another one; or, where the reader raises, a body that is too large, a client
-- that is gone, a body that cannot be read.
pub data Part : Type 0 where
  file_part : List ℕ → Part
  session_part : String → Part
  other_part : Part
  oversized : Part
  disconnected : Part
  broken : Part

-- `len(buf)` at the end of a part, or `none` once it is over the limit. An empty chunk ends it.
unfoldable pub read_chunks : ℕ → ℕ → List ℕ → Option ℕ
read_chunks limit size [] = some size
read_chunks limit size (n ∷ chunks) =
    let rest = read_chunks limit (size + n) chunks in
    if n == 0 then some size else if ltb limit (size + n) then none else rest

-- How far the loop over the parts came.
pub data Parsed : Type 0 where
  parsed : Option ℕ → Option String → Parsed
  too_large : Parsed
  gone : Parsed
  unreadable : Parsed

unfoldable pub parse_parts : ℕ → Option ℕ → Option String → List Part → Parsed
parse_parts limit content session [] = parsed content session
parse_parts limit none session (file_part chunks ∷ parts) = elim (read_chunks limit 0 chunks) [
  | none ↦ too_large
  | some size ↦ parse_parts limit (some size) session parts
]
parse_parts limit (some size) session (file_part chunks ∷ parts) =
    parse_parts limit (some size) session parts
parse_parts limit content none (session_part s ∷ parts) = parse_parts limit content (some s) parts
parse_parts limit content (some s) (session_part s' ∷ parts) =
    parse_parts limit content (some s) parts
parse_parts limit content session (other_part ∷ parts) = parse_parts limit content session parts
parse_parts limit content session (oversized ∷ parts) = too_large
parse_parts limit content session (disconnected ∷ parts) = gone
parse_parts limit content session (broken ∷ parts) = unreadable

-- `[a-zA-Z0-9_\-.]`
abbrev pub is_session_char : Char → Bool
is_session_char ch = is_id_char ch || code ch == 46

abbrev pub has_session_chars : ℕ → String → Bool
has_session_chars n String.[] = true
has_session_chars n (String.◌∷◌ ch s) = leb 1 n && is_session_char ch && has_session_chars (n - 1) s

-- `^[a-zA-Z0-9_\-.]{1,128}$`
unfoldable pub is_session_id : String → Bool
is_session_id s = not (s == "") && has_session_chars 128 s

-- `file_store.save`: it wrote the object; it raised, and left none; it raised, and left one.
pub data Saving : Type 0 where
  saved raised_clean raised_dirty : Saving

pub record Answers : Type 0 where
  pub detected : Option String
  pub file_id : String
  pub total_raises : Bool
  pub insert_raises : Bool
  pub saving : Saving
  pub rollback_raises : Bool

pub record Limits : Type 0 where
  pub max_file_size_mb : ℕ
  pub per_token_storage_mb : ℕ
  pub allowed_mime : List String

pub data UploadReply : Type 0 where
  refused : Verdict → UploadReply
  invalid_payload : UploadReply
  payload_too_large : UploadReply
  client_disconnected : UploadReply
  invalid_session_id : UploadReply
  unsupported_mime : UploadReply
  internal_error : UploadReply
  storage_unavailable : UploadReply
  storage_quota_exceeded : UploadReply
  uploaded : String → String → ℕ → UploadReply

abbrev pub bytes_of : ℕ → ℕ
bytes_of mb = mb * 1024 * 1024

-- `ext_for_mime`
unfoldable pub ext_for_mime : String → String
ext_for_mime mime =
    if mime == "image/jpeg"
    then ".jpg"
    else if mime == "image/png"
    then ".png"
    else if mime == "image/webp"
    then ".webp"
    else if mime == "image/gif"
    then ".gif"
    else ""

-- The object is written, or the row is taken back.
unfoldable pub save_object : Answers → String → ℕ → String → Files → UploadReply × Files
save_object a mime size key s =
    let rows : List FileRow =
      if a.rollback_raises then s.rows else (delete_files_by_ids (a.file_id ∷ []) s.rows).1 in
    elim a.saving [
      | saved ↦ (uploaded a.file_id mime size, record s { objects = key ∷ s.objects })
      | raised_clean ↦ (internal_error, record s { rows = rows })
      | raised_dirty ↦ (internal_error, record s { objects = key ∷ s.objects; rows = rows })
    ]

-- What happens under the gate of the token.
unfoldable pub store_upload :
    Limits → Answers → TokenRow → String → String → ℕ → ℕ → Files → UploadReply × Files
unfolding save_object ext_for_mime
store_upload l a token session mime size now s =
    let key = token.name <> "/" <> a.file_id <> ext_for_mime mime in
    if a.total_raises
    then (storage_unavailable, s)
    else if ltb (bytes_of l.per_token_storage_mb) (total_size_for_token token.name s.rows + size)
    then (storage_quota_exceeded, s)
    else if a.insert_raises
    then (internal_error, s)
    else elim (insert_file a.file_id token.name session mime size key now "" s.rows) [
      | none ↦ (internal_error, s)
      | some rows ↦ save_object a mime size key (record s { rows = rows })
    ]

-- The checks of what the body holds.
unfoldable pub check_upload :
    Limits → Answers → TokenRow → ℕ → Option ℕ → Option String → Files → UploadReply × Files
unfolding store_upload is_session_id is_file_id
check_upload l a token now none session s = (invalid_payload, s)
check_upload l a token now (some size) none s = (invalid_payload, s)
check_upload l a token now (some size) (some session) s =
    if size == 0 || session == ""
    then (invalid_payload, s)
    else if not (is_session_id session)
    then (invalid_session_id, s)
    else elim a.detected [
      | none ↦ (unsupported_mime, s)
      | some mime ↦
          if not (contains l.allowed_mime mime)
          then (unsupported_mime, s)
          else if not (is_file_id a.file_id)
          then (internal_error, s)
          else store_upload l a token session mime size now s
    ]

abbrev pub upload_parsed : Limits → Answers → TokenRow → ℕ → Parsed → Files → UploadReply × Files
upload_parsed l a token now too_large s = (payload_too_large, s)
upload_parsed l a token now gone s = (client_disconnected, s)
upload_parsed l a token now unreadable s = (invalid_payload, s)
upload_parsed l a token now (parsed content session) s =
    check_upload l a token now content session s

-- From the verdict of the gate on; `is_multipart` is the content type.
unfoldable pub upload :
    Limits → Answers → Verdict → Bool → List Part → ℕ → Files → UploadReply × Files
unfolding check_upload parse_parts
upload l a (gate_pass token ip) is_multipart parts now s =
    if not is_multipart
    then (invalid_payload, s)
    else upload_parsed l a token now (parse_parts (bytes_of l.max_file_size_mb) none none parts) s
upload l a forbidden_origin is_multipart parts now s = (refused forbidden_origin, s)
upload l a (ip_blocked n) is_multipart parts now s = (refused (ip_blocked n), s)
upload l a (unauthorized reason) is_multipart parts now s = (refused (unauthorized reason), s)
