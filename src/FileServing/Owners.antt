-- ===== src/FileServing/Owners.antt =====
-- handlers/files.py, the serving of a file: whose file it is.
use astrbot_plugin_webchat_g.Prelude.{
  ◌≡◌, refl, String, Bool, true, false, not, Option, none, some, List, ◌&&◌, ◌||◌, ◌==◌,
  if◌then◌else◌, text_key, Bool-cases, Option-cases, inl, inr, ◌∙◌, ap,
}
use astrbot_plugin_webchat_g.Storage.Rows.{TokenRow, FileRow}
use astrbot_plugin_webchat_g.Storage.Files.{get_file}
use astrbot_plugin_webchat_g.IpFailures.{Table}
use astrbot_plugin_webchat_g.IpGuard.{is_blocked}
use astrbot_plugin_webchat_g.RequestGate.{
  extract_origin, is_origin_allowed, client_ip, extract_bearer, Verdict, forbidden_origin,
  ip_blocked, unauthorized, gate_pass, gate_request,
}
use astrbot_plugin_webchat_g.RequestGate.Verdicts.{token_of, presented_row, is_heard, gate_lem}
use astrbot_plugin_webchat_g.FileCookie.{Tracker}
use astrbot_plugin_webchat_g.FileServing.{
  Deps, Ask, Times, Reading, bytes, missing, bad_preview, unavailable, raised, Reply, refused,
  bad_credentials, invalid_file_id, not_found, redirected, served, unsupported_preview,
  store_unavailable, internal_error, is_image_mime, is_file_id, read_reply, serve_file,
  cookie_token, by_cookie, by_bearer, serve,
}

-- The file that a reply gives away.
abbrev pub given_file : Reply → Option FileRow
given_file (redirected row) = some row
given_file (served row preview) = some row
given_file (refused verdict) = none
given_file (bad_credentials cookie) = none
given_file invalid_file_id = none
given_file not_found = none
given_file unsupported_preview = none
given_file store_unavailable = none
given_file internal_error = none

abbrev pub is_bytes : Reading → Bool
is_bytes bytes = true
is_bytes missing = false
is_bytes bad_preview = false
is_bytes unavailable = false
is_bytes raised = false

-- The store gives the file away: by a signed address, or as bytes.
abbrev pub is_delivered : Deps → Ask → FileRow → Bool
is_delivered d a row =
    (d.is_direct && not (a.preview && is_image_mime row.mime) && a.has_signed) || is_bytes a.reading

-- The file that a token may read under an identifier: its own, and not one of the drop.
abbrev pub own_file : TokenRow → Option FileRow → Option FileRow
own_file token none = none
own_file token (some row) =
    if (row.token_name == token.name) && not (row.session_id == "drop") then some row else none

abbrev pub if_delivered : Deps → Ask → Option FileRow → Option FileRow
if_delivered d a none = none
if_delivered d a (some row) = if is_delivered d a row then some row else none

read_reply_lem :
    (row : FileRow) (preview : Bool) (reading : Reading)
    → given_file (read_reply row preview reading) ≡ (if is_bytes reading then some row else none)
read_reply_lem row preview bytes = refl
read_reply_lem row preview missing = refl
read_reply_lem row preview bad_preview = refl
read_reply_lem row preview unavailable = refl
read_reply_lem row preview raised = refl

module _ (d : Deps) (a : Ask) (files : List FileRow) where
  delivery_lem :
      (row : FileRow)
      → given_file (
          if d.is_direct && not (a.preview && is_image_mime row.mime) && a.has_signed
          then redirected row
          else read_reply row (a.preview && is_image_mime row.mime) a.reading)
        ≡ (if is_delivered d a row then some row else none)
  delivery_lem row =
      elim (Bool-cases (d.is_direct && not (a.preview && is_image_mime row.mime) && a.has_signed)) [
        | inl direct ↦ rw direct refl
        | inr proxied ↦
            rw proxied (read_reply_lem row (a.preview && is_image_mime row.mime) a.reading)
      ]

  -- The file that a token gets.
  abbrev pub file_for : TokenRow → Option FileRow
  file_for token =
      if is_file_id a.file_id
      then if_delivered d a (own_file token (get_file a.file_id files))
      else none

  serve_file_lem : (token : TokenRow) → given_file (serve_file d a token files) ≡ file_for token
  unfolding serve_file
  serve_file_lem token = elim (Bool-cases (is_file_id a.file_id)) [
    | inr bad ↦ rw (serve_file, bad) refl
    | inl good ↦
        rw (serve_file, good)
          (elim (Option-cases (get_file a.file_id files)) [
            | inl e ↦ rw e refl
            | inr (row, e) ↦ rw e (elim (Bool-cases (row.token_name == token.name)) [
              | inr foreign ↦ rw foreign refl
              | inl own ↦ elim (Bool-cases (row.session_id == "drop")) [
                | inl drop ↦ rw (own, drop) refl
                | inr chat ↦ rw (own, chat) (delivery_lem row)
              ]
            ])
          ])
  ]

  abbrev pub file_for_some : Option TokenRow → Option FileRow
  file_for_some none = none
  file_for_some (some token) = file_for token

  by_bearer_lem :
      (v : Verdict) (t : Table)
      → given_file (by_bearer d a files (v, t)).0 ≡ file_for_some (token_of v)
  by_bearer_lem forbidden_origin t = refl
  by_bearer_lem (ip_blocked n) t = refl
  by_bearer_lem (unauthorized reason) t = refl
  by_bearer_lem (gate_pass row ip) t = serve_file_lem row

  by_cookie_lem :
      (at : Times) (o : Option TokenRow) (ip : String) (t : Table)
      → given_file (by_cookie d a at o files ip t).0 ≡ file_for_some o
  by_cookie_lem at none ip t = refl
  by_cookie_lem at (some token) ip t = serve_file_lem token

  module _ (at : Times) (tracker : Option Tracker) (tokens : List TokenRow) (t : Table) where
    -- The row that the request stands for: by its bearer token, or by its cookie.
    abbrev pub requester : Option TokenRow
    requester =
        if extract_bearer a.request == ""
        then cookie_token d at.verified at.rechecked a.cookie tracker tokens
        else presented_row d.gate tokens a.request at.checked at.read at.failed t

    -- The bytes or the signed address of a file leave the server exactly for a request whose origin
    -- is allowed and whose address is not blocked, which stands for a live token by its bearer token
    -- or, without one, by its cookie, and which asks by a well-formed identifier for a file of that
    -- token, outside the drop, that the store delivers; and then it is that file.
    pub serve_lem : given_file (serve d a at tracker tokens files t).0 ≡ (
        if is_heard d.gate tokens a.request at.checked at.read at.failed t
        then file_for_some requester
        else none)
    unfolding serve
    serve_lem =
        let g = d.gate in
        let r = a.request in
        let ip = client_ip g.trust_forwarded_for r in
        let gated = gate_request g tokens r at.checked at.read at.failed t in
        elim (Bool-cases (
          is_origin_allowed g.urls (extract_origin g.urls g.trust_referer_as_origin r)
            g.allowed_origins r.host g.allow_missing_origin)) [
              | inr foreign ↦ rw (serve, foreign) refl
              | inl fine ↦ elim (Bool-cases (is_blocked g.ip_guard ip at.checked t).0) [
                | inl blocked ↦ rw (serve, fine, blocked) refl
                | inr open_ ↦ elim (Bool-cases (extract_bearer r == "")) [
                  | inl empty ↦
                      rw (serve, fine, open_, empty)
                        (by_cookie_lem at
                          (cookie_token d at.verified at.rechecked a.cookie tracker tokens) ip t)
                  | inr given ↦
                      rw (serve, fine, open_, given)
                        (by_bearer_lem gated.0 gated.1
                          ∙ ap file_for_some (gate_lem g tokens r at.checked at.read at.failed t).0
                          ∙ rw (fine, open_, given) refl)
                ]
              ]
            ]
