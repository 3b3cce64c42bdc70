-- ===== src/Chat/Requests.antt =====
-- handlers/chat_common.py: the body of a chat request, and the files that it attaches.
pub mod Ownership
use Prim.Native.Char.{Char}
use Prim.Native.String
use astrbot_plugin_webchat_g.Prelude.{
  ℕ, ◌+◌, ◌-◌, ◌≤◌, ◌<◌, ◌≡◌, refl, sym, ap, subst, ◌∙◌, String, Bool, true, false, not, Option,
  none, some, List, [], ◌∷◌, ◌&&◌, ◌||◌, ◌==◌, if◌then◌else◌, text_key, number_key, leb, ltb,
  length, All, Bool-cases, Option-cases, inl, inr, arith, eq_iff,
}
use astrbot_plugin_webchat_g.Storage.Rows.{TokenRow, FileRow}
use astrbot_plugin_webchat_g.Storage.Sql.Find.{find-holds}
use astrbot_plugin_webchat_g.Storage.Files.{has_id, get_file, contains}
use astrbot_plugin_webchat_g.FileLifecycle.{ids_of, is_nil}
use astrbot_plugin_webchat_g.RequestGate.{
  Verdict, gate_pass, forbidden_origin, ip_blocked, unauthorized,
}

-- An entry of `attachments`: an object whose `file_id` is a text, stripped, or anything else.
pub data Entry : Type 0 where
  file_entry : String → Entry
  bad_entry : Entry

pub data Attachments : Type 0 where
  absent : Attachments
  not_a_list : Attachments
  listed : List Entry → Attachments

-- The JSON object of the body, its texts stripped. `session` is the first of `sessionId` and
-- `session_id` that is not empty; a key that is missing is the empty text.
pub record Payload : Type 0 where
  pub message : String
  pub attachments : Attachments
  pub session : String
  pub user : String
  pub username : String

-- How the body is read.
pub data Body : Type 0 where
  object : Payload → Body
  not_an_object : Body
  bad_json : Body
  oversized : Body

pub record ParsedRequest : Type 0 where
  pub session_id : String
  pub user_id : String
  pub username : String
  pub message : String
  pub attachments : List String

pub data BodyError : Type 0 where
  payload_too_large invalid_json invalid_payload too_many_attachments : BodyError
  reserved_session message_too_long invalid_attachment : BodyError

pub data Parse (A : Type 0) : Type 0 where
  ok : A → Parse A
  error : BodyError → Parse A

-- `s[:n]`
unfoldable pub first_chars : ℕ → String → String
first_chars n String.[] = String.[]
first_chars n (String.◌∷◌ ch s) =
    let rest = first_chars (n - 1) s in if n == 0 then String.[] else String.◌∷◌ ch rest

abbrev pub put_first : String → Parse (List String) → Parse (List String)
put_first id (ok ids) = ok (id ∷ ids)
put_first id (error e) = error e

-- The loop over the entries; an identifier that was seen is passed over.
unfoldable pub parse_entries : List String → List Entry → Parse (List String)
parse_entries seen [] = ok []
parse_entries seen (bad_entry ∷ entries) = error invalid_payload
parse_entries seen (file_entry id ∷ entries) =
    let skipped = parse_entries seen entries in
    let taken = parse_entries (id ∷ seen) entries in
    if id == ""
    then error invalid_payload
    else if contains seen id
    then skipped
    else put_first id taken

unfoldable pub parse_attachments : ℕ → Attachments → Parse (List String)
unfolding parse_entries
parse_attachments limit absent = ok []
parse_attachments limit not_a_list = error invalid_payload
parse_attachments limit (listed entries) =
    if ltb limit (length entries) then error too_many_attachments else parse_entries [] entries

abbrev pub or_default : String → String → String
or_default default s = if s == "" then default else s

-- From the attachments on.
abbrev pub with_attachments : Payload → Parse (List String) → Parse ParsedRequest
with_attachments p (error e) = error e
with_attachments p (ok ids) =
    let session = or_default "webchat" p.session in
    if p.message == "" && is_nil ids
    then error invalid_payload
    else if session == "drop"
    then error reserved_session
    else ok (record {
      session_id = first_chars 128 session;
      user_id = first_chars 128 p.user;
      username = first_chars 64 (or_default "WebUser" p.username);
      message = p.message;
      attachments = ids;
    })

unfoldable pub parse_payload : ℕ → Payload → Parse ParsedRequest
unfolding parse_attachments first_chars
parse_payload limit p = with_attachments p (parse_attachments limit p.attachments)

abbrev pub bounded_message : ℕ → Parse ParsedRequest → Parse ParsedRequest
bounded_message max_length (error e) = error e
bounded_message max_length (ok data_) =
    if ltb max_length (String.count data_.message) then error message_too_long else ok data_

-- `_parse_chat_body`
unfoldable pub parse_chat_body : ℕ → ℕ → Body → Parse ParsedRequest
unfolding parse_payload
parse_chat_body max_length limit oversized = error payload_too_large
parse_chat_body max_length limit bad_json = error invalid_json
parse_chat_body max_length limit not_an_object = error invalid_payload
parse_chat_body max_length limit (object p) = bounded_message max_length (parse_payload limit p)

-- The file belongs to the token and to the session.
abbrev pub is_attachable : String → String → FileRow → Bool
is_attachable token session row = row.token_name == token && row.session_id == session

abbrev pub put_row : FileRow → Parse (List FileRow) → Parse (List FileRow)
put_row row (ok rows) = ok (row ∷ rows)
put_row row (error e) = error e

abbrev pub attach_row :
    String → String → Option FileRow → Parse (List FileRow) → Parse (List FileRow)
attach_row token session none rest = error invalid_attachment
attach_row token session (some row) rest =
    if is_attachable token session row then put_row row rest else error invalid_attachment

-- The loop over the attachments.
unfoldable pub attach : String → String → List FileRow → List String → Parse (List FileRow)
attach token session t [] = ok []
attach token session t (id ∷ ids) =
    attach_row token session (get_file id t) (attach token session t ids)

pub record PreparedChatRequest : Type 0 where
  pub token : TokenRow
  pub ip : String
  pub data_ : ParsedRequest
  pub attachment_rows : List FileRow

pub data Prepared : Type 0 where
  refused : Verdict → Prepared
  rejected : BodyError → Prepared
  prepared : PreparedChatRequest → Prepared

abbrev pub with_rows : TokenRow → String → ParsedRequest → Parse (List FileRow) → Prepared
with_rows token ip data_ (error e) = rejected e
with_rows token ip data_ (ok rows) =
    prepared (record { token = token; ip = ip; data_ = data_; attachment_rows = rows })

abbrev pub with_body : TokenRow → String → List FileRow → Parse ParsedRequest → Prepared
with_body token ip t (error e) = rejected e
with_body token ip t (ok data_) =
    with_rows token ip data_ (attach token.name data_.session_id t data_.attachments)

-- From the verdict of the gate on; the database answers each `get_file`.
unfoldable pub prepare_chat_request : ℕ → ℕ → Verdict → Body → List FileRow → Prepared
unfolding parse_chat_body attach
prepare_chat_request max_length limit (gate_pass token ip) body t =
    with_body token ip t (parse_chat_body max_length limit body)
prepare_chat_request max_length limit forbidden_origin body t = refused forbidden_origin
prepare_chat_request max_length limit (ip_blocked n) body t = refused (ip_blocked n)
prepare_chat_request max_length limit (unauthorized reason) body t = refused (unauthorized reason)
