-- ===== src/FileServing.antt =====
-- handlers/files.py, the serving of a file, and handlers/chat_files_auth.py, the cookie that goes with
-- it: who may read which file. The answers of the file store are arguments. The writes to the audit
-- log are left out.
pub mod Owners
pub mod Cookies
pub mod Sessions
pub mod Uploads
use Prim.Native.Char.{Char, code}
use Prim.Native.String
use astrbot_plugin_webchat_g.Prelude.{
  ℕ, ◌+◌, ◌-◌, String, Bool, true, false, not, Option, none, some, List, [], ◌∷◌, ◌&&◌, ◌||◌, ◌==◌,
  if◌then◌else◌, text_key, number_key, leb,
}
use astrbot_plugin_webchat_g.Storage.Rows.{TokenRow, FileRow}
use astrbot_plugin_webchat_g.Storage.Tokens.{get_token_by_hash, get_token_by_name}
use astrbot_plugin_webchat_g.Storage.Files.{get_file}
use astrbot_plugin_webchat_g.Usage
use astrbot_plugin_webchat_g.IpFailures.{Table}
use astrbot_plugin_webchat_g.IpGuard.{is_blocked, record_failure, reset}
use astrbot_plugin_webchat_g.RequestGate.{
  Request, GateDeps, extract_origin, is_origin_allowed, client_ip, extract_bearer, Verdict,
  forbidden_origin, ip_blocked, unauthorized, gate_pass, is_revoked, is_expired, gate_request,
}
use astrbot_plugin_webchat_g.FileCookie.{
  Codec, parts_of, verify, Directive, build_set_cookie_value, build_clear_cookie_value, Tracker,
  record_logout, is_invalidated,
}

-- What the handlers read of the configuration. `has_secret` is false where the secret of the cookies
-- is empty, and `is_direct` is true for the R2 store in its direct mode.
pub record Deps : Type 0 where
  pub gate : GateDeps
  pub codec : Codec
  pub has_secret : Bool
  pub cookie_ttl : ℕ
  pub cookie_path : String
  pub is_direct : Bool

-- `peek_name`: the name that the cookie claims, before any check.
unfoldable pub peek_name : String → String
peek_name cookie = elim (parts_of cookie) [ none ↦ "" | some (name, exp, sig) ↦ name ]

-- The row that the cookie claims to be of.
unfoldable pub peeked_row : String → List TokenRow → Option TokenRow
unfolding peek_name
peeked_row cookie tokens =
    if peek_name cookie == "" then none else get_token_by_name (peek_name cookie) tokens

abbrev pub with_time : TokenRow → Option (String × ℕ) → Option (TokenRow × ℕ)
with_time row none = none
with_time row (some (name, exp)) = some (row, exp)

abbrev pub verify_row : Codec → ℕ → String → Option TokenRow → Option (TokenRow × ℕ)
verify_row c now cookie none = none
verify_row c now cookie (some row) = with_time row (verify c now cookie row.token_hash)

-- And what `verify` says about it: the row, and the time of the cookie.
unfoldable pub verified_row : Deps → ℕ → String → List TokenRow → Option (TokenRow × ℕ)
unfolding peeked_row
verified_row d now cookie tokens =
    if not d.has_secret || cookie == ""
    then none
    else verify_row d.codec now cookie (peeked_row cookie tokens)

abbrev pub is_logged_out : String → ℕ → Option Tracker → Bool
is_logged_out name exp none = false
is_logged_out name exp (some tracker) = is_invalidated name exp tracker

-- The row that a cookie lets in.
unfoldable pub cookie_token :
    Deps → ℕ → ℕ → String → Option Tracker → List TokenRow → Option TokenRow
unfolding verified_row
cookie_token d verified now cookie tracker tokens = elim (verified_row d verified cookie tokens) [
  | none ↦ none
  | some (row, exp) ↦
      if is_logged_out row.name exp tracker
      then none
      else if is_revoked row.revoked_at || is_expired row.expires_at now
      then none
      else some row
]

-- `[a-zA-Z0-9_-]`
abbrev pub is_id_char : Char → Bool
is_id_char ch =
    let n = code ch in
    (leb 97 n && leb n 122)
    || (leb 65 n && leb n 90)
    || (leb 48 n && leb n 57)
    || n == 95
    || n == 45

abbrev pub has_id_chars : ℕ → String → Bool
has_id_chars n String.[] = n == 0
has_id_chars n (String.◌∷◌ ch s) = leb 1 n && is_id_char ch && has_id_chars (n - 1) s

-- `^[a-zA-Z0-9_-]{16}$`, on a text that is stripped.
unfoldable pub is_file_id : String → Bool
is_file_id s = has_id_chars 16 s

-- What the file store answers: a signed address or not; the bytes, no object, a preview that it cannot
-- make, a store that is down, another exception.
pub data Reading : Type 0 where
  bytes missing bad_preview unavailable raised : Reading

-- The response: the refusal of the gate; 401; 400; 404; 302; 200; 415; 503; 500.
pub data Reply : Type 0 where
  refused : Verdict → Reply
  bad_credentials : Bool → Reply
  invalid_file_id : Reply
  not_found : Reply
  redirected : FileRow → Reply
  served : FileRow → Bool → Reply
  unsupported_preview : Reply
  store_unavailable : Reply
  internal_error : Reply

abbrev pub read_reply : FileRow → Bool → Reading → Reply
read_reply row preview bytes = served row preview
read_reply row preview missing = not_found
read_reply row preview bad_preview = unsupported_preview
read_reply row preview unavailable = store_unavailable
read_reply row preview raised = internal_error

-- The times at which a request reads the clock.
pub record Times : Type 0 where
  pub checked : ℕ
  pub read : ℕ
  pub failed : ℕ
  pub verified : ℕ
  pub rechecked : ℕ

-- The handler: the preview that is asked for, and how the store answers.
pub record Ask : Type 0 where
  pub request : Request
  pub cookie : String
  pub file_id : String
  pub preview : Bool
  pub has_signed : Bool
  pub reading : Reading

-- `ALLOWED_MIME_TO_EXT`
unfoldable pub is_image_mime : String → Bool
is_image_mime mime =
    mime == "image/png" || mime == "image/jpeg" || mime == "image/webp" || mime == "image/gif"

-- From the token on.
unfoldable pub serve_file : Deps → Ask → TokenRow → List FileRow → Reply
unfolding is_file_id is_image_mime
serve_file d a token files =
    if not (is_file_id a.file_id) then invalid_file_id else elim (get_file a.file_id files) [
      | none ↦ not_found
      | some row ↦
          let preview = a.preview && is_image_mime row.mime in
          if not (row.token_name == token.name) || row.session_id == "drop"
          then not_found
          else if d.is_direct && not preview && a.has_signed
          then redirected row
          else read_reply row preview a.reading
    ]

abbrev pub with_token : Deps → Ask → List FileRow → TokenRow → String → Table → Reply × Table
with_token d a files token ip t = (serve_file d a token files, reset ip t)

-- A request without a bearer token: by its cookie. The Boolean of `bad_credentials` tells whether it
-- brought a cookie.
abbrev pub by_cookie :
    Deps → Ask → Times → Option TokenRow → List FileRow → String → Table → Reply × Table
by_cookie d a at none files ip t =
    let presented = d.has_secret && not (a.cookie == "") in
    (
      bad_credentials presented,
      if presented then t else (record_failure d.gate.ip_guard ip at.failed t).1,
    )
by_cookie d a at (some token) files ip t = with_token d a files token ip t

-- A request with a bearer token: by the gate, whose refusal is the response.
abbrev pub by_bearer : Deps → Ask → List FileRow → Verdict × Table → Reply × Table
by_bearer d a files (gate_pass row ip, t) = with_token d a files row ip t
by_bearer d a files (forbidden_origin, t) = (refused forbidden_origin, t)
by_bearer d a files (ip_blocked n, t) = (refused (ip_blocked n), t)
by_bearer d a files (unauthorized reason, t) = (refused (unauthorized reason), t)

unfoldable pub serve :
    Deps → Ask → Times → Option Tracker → List TokenRow → List FileRow → Table → Reply × Table
unfolding serve_file
serve d a at tracker tokens files t =
    let g = d.gate in
    let r = a.request in
    let origin = extract_origin g.urls g.trust_referer_as_origin r in
    let ip = client_ip g.trust_forwarded_for r in
    let (blocked, retry_after) = is_blocked g.ip_guard ip at.checked t in
    if not (is_origin_allowed g.urls origin g.allowed_origins r.host g.allow_missing_origin)
    then (refused forbidden_origin, t)
    else if blocked
    then (refused (ip_blocked retry_after), t)
    else if extract_bearer r == ""
    then by_cookie d a at (cookie_token d at.verified at.rechecked a.cookie tracker tokens) files ip
        t
    else by_bearer d a files (gate_request g tokens r at.checked at.read at.failed t)
