-- ===== src/FileServing/Sessions.antt =====
-- handlers/chat_files_auth.py: the probe that issues a cookie, and the logout that voids it. The
-- writes to the audit log are left out.
pub mod Voiding
use astrbot_plugin_webchat_g.Prelude.{
  ℕ, ◌+◌, ◌-◌, ◌<◌, ◌≤◌, ◌≡◌, refl, sym, ap, ◌∙◌, String, Bool, true, false, not, Option, none,
  some, List, ◌&&◌, ◌||◌, ◌==◌, if◌then◌else◌, text_key, leb, Option-cases, inl, inr, arith,
  some-eq, eq_iff, past_refusal,
}
use astrbot_plugin_webchat_g.Storage.Rows.{TokenRow}
use astrbot_plugin_webchat_g.Storage.Tokens.{named, get_token_by_hash, get_token_by_name}
use astrbot_plugin_webchat_g.Storage.Sql.{find_where}
use astrbot_plugin_webchat_g.Storage.Sql.Find.{find-holds}
use astrbot_plugin_webchat_g.Usage
use astrbot_plugin_webchat_g.IpFailures.{Table}
use astrbot_plugin_webchat_g.IpGuard.{is_blocked, record_failure, reset}
use astrbot_plugin_webchat_g.RequestGate.{
  Request, extract_origin, is_origin_allowed, client_ip, extract_bearer, is_revoked, is_expired,
}
use astrbot_plugin_webchat_g.RequestGate.Verdicts.{is_heard}
use astrbot_plugin_webchat_g.FileCookie.{
  Codec, parts_of, payload, checked, verify, Directive, build_set_cookie_value,
  build_clear_cookie_value, Tracker, record_logout, is_invalidated,
}
use astrbot_plugin_webchat_g.FileCookie.Logout.{raised_own}
use astrbot_plugin_webchat_g.FileServing.{
  Deps, Times, peek_name, peeked_row, with_time, verify_row, verified_row, cookie_token,
}

-- The answers of `/me`: 403; 429; 401; 200 with what is left of the quota and the cookie, if any.
pub data Probe : Type 0 where
  forbidden_origin : Probe
  ip_blocked : ℕ → Probe
  unauthorized : Probe
  known : String → ℕ → ℕ → Option Directive → Probe

-- `secure` is whether the request came by HTTPS, `day` is today. The time at which the cookie is made
-- is `failed`.
unfoldable pub me :
    Deps → Request → Bool → ℕ → Times → List TokenRow → Usage.Table → Table → Probe × Table
me d r secure day at tokens usage t =
    let g = d.gate in
    let origin = extract_origin g.urls g.trust_referer_as_origin r in
    let ip = client_ip g.trust_forwarded_for r in
    let (blocked, retry_after) = is_blocked g.ip_guard ip at.checked t in
    let presented = extract_bearer r in
    let failed : Probe × Table = (unauthorized, (record_failure g.ip_guard ip at.failed t).1) in
    if not (is_origin_allowed g.urls origin g.allowed_origins r.host g.allow_missing_origin)
    then (forbidden_origin, t)
    else if blocked
    then (ip_blocked retry_after, t)
    else if presented == ""
    then failed
    else elim (get_token_by_hash (g.hash_token presented) tokens) [
      | none ↦ failed
      | some row ↦
          if is_revoked row.revoked_at || is_expired row.expires_at at.read
          then (unauthorized, t)
          else (
            known row.name (row.daily_quota - Usage.get_today_usage row.name day usage)
                row.daily_quota
                (if d.has_secret
                  then some (
                      build_set_cookie_value d.codec row.name row.token_hash d.cookie_ttl secure
                        d.cookie_path at.failed)
                  else none),
            reset ip t,
          )
    ]

-- The answers of a logout: 403; 429; 204 with the directive that clears the cookie.
pub data Farewell : Type 0 where
  forbidden_origin : Farewell
  ip_blocked : ℕ → Farewell
  cleared : Directive → Farewell

abbrev pub name_of_row : Option TokenRow → Option String
name_of_row none = none
name_of_row (some row) = some row.name

abbrev pub name_of_pair : Option (TokenRow × ℕ) → Option String
name_of_pair none = none
name_of_pair (some (row, exp)) = some row.name

-- The token that is logged out: of the bearer token, or else of the cookie.
unfoldable pub leaving : Deps → ℕ → Request → String → List TokenRow → Option String
leaving d now r cookie tokens =
    let presented = extract_bearer r in
    let by_cookie = name_of_pair (verified_row d now cookie tokens) in
    let by_bearer : Option String =
      if presented == ""
      then none
      else name_of_row (get_token_by_hash (d.gate.hash_token presented) tokens) in
    elim by_bearer [ none ↦ by_cookie | some name ↦ some name ]

abbrev pub tracked : String → ℕ → Option Tracker → Option Tracker
tracked name now none = none
tracked name now (some tracker) = some (record_logout name now tracker).1

-- The logout is recorded at the time `rechecked`.
unfoldable pub logout :
    Deps
    → Request
    → String
    → Times
    → List TokenRow
    → Option Tracker × Table
    → Farewell × Option Tracker × Table
unfolding leaving
logout d r cookie at tokens (tracker, t) =
    let g = d.gate in
    let origin = extract_origin g.urls g.trust_referer_as_origin r in
    let ip = client_ip g.trust_forwarded_for r in
    let (blocked, retry_after) = is_blocked g.ip_guard ip at.checked t in
    let clear = cleared (build_clear_cookie_value d.cookie_path) in
    if not (is_origin_allowed g.urls origin g.allowed_origins r.host g.allow_missing_origin)
    then (forbidden_origin, tracker, t)
    else if blocked
    then (ip_blocked retry_after, tracker, t)
    else elim (leaving d at.verified r cookie tokens) [
      | none ↦ (clear, tracker, (record_failure g.ip_guard ip at.failed t).1)
      | some name ↦ (clear, tracked name at.rechecked tracker, reset ip t)
    ]
