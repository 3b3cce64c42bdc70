-- ===== src/RequestGate.antt =====
-- handlers/common.py: the gate in front of the chat endpoints: the origin, the address, the bearer
-- token. The clock is read three times; between the reads other requests may change the tables, which
-- is left out here.
pub mod Verdicts
pub mod Origins
pub mod Revocation
use astrbot_plugin_webchat_g.Prelude.{
  ℕ, String, Bool, true, false, not, Option, none, some, List, [], ◌∷◌, ◌&&◌, ◌||◌, ◌==◌,
  if◌then◌else◌, leb, text_key,
}
use astrbot_plugin_webchat_g.Storage.Rows.{TokenRow}
use astrbot_plugin_webchat_g.Storage.Tokens.{get_token_by_hash}
use astrbot_plugin_webchat_g.IpFailures.{Table}
use astrbot_plugin_webchat_g.IpGuard.{IpGuard, is_blocked, record_failure, reset}

-- What the gate reads of a request, stripped; a header that is missing is the empty text.
-- `sec_fetch_site` is in lower case, the parts of the Referer are those of `urlparse`,
-- `forwarded_for` holds the entries of X-Forwarded-For that are not empty, and `bearer` is what
-- stands behind `Bearer` in the Authorization header.
pub record Request : Type 0 where
  pub origin : String
  pub sec_fetch_site : String
  pub referer_scheme : String
  pub referer_netloc : String
  pub scheme : String
  pub host : String
  pub forwarded_for : List String
  pub real_ip : String
  pub remote : String
  pub api_key : String
  pub bearer : String

-- `f"{scheme}://{netloc}"`, and the netloc that `urlparse` finds in a URL.
pub record Urls : Type 0 where
  pub join : String → String → String
  pub netloc : String → String

-- The guard and the configuration; `hash_token` is SHA-256.
pub record GateDeps : Type 0 where
  pub ip_guard : IpGuard
  pub urls : Urls
  pub hash_token : String → String
  pub allowed_origins : List String
  pub trust_forwarded_for : Bool
  pub trust_referer_as_origin : Bool
  pub allow_missing_origin : Bool

abbrev pub is_in : String → List String → Bool
is_in x [] = false
is_in x (y ∷ ys) = y == x || is_in x ys

unfoldable pub extract_origin : Urls → Bool → Request → Option String
extract_origin urls trust_referer r =
    if not (r.origin == "")
    then some r.origin
    else if r.sec_fetch_site == "same-origin"
    then some (urls.join r.scheme r.host)
    else if not trust_referer || r.referer_scheme == "" || r.referer_netloc == ""
    then none
    else some (urls.join r.referer_scheme r.referer_netloc)

-- The origin has the gateway's own host.
unfoldable pub is_same_origin : Urls → String → String → Bool
is_same_origin urls origin host =
    not (host == "") && not (urls.netloc origin == "") && urls.netloc origin == host

unfoldable pub is_origin_allowed : Urls → Option String → List String → String → Bool → Bool
unfolding is_same_origin
is_origin_allowed urls none allowed host allow_missing = is_in "*" allowed || allow_missing
is_origin_allowed urls (some origin) allowed host allow_missing =
    is_in "*" allowed || is_in origin allowed || is_same_origin urls origin host

-- The headers that depend on the origin: Access-Control-Allow-Origin, and whether credentials are
-- allowed.
unfoldable pub build_cors_headers :
    Urls → Option String → List String → String → Option String × Bool
build_cors_headers urls none allowed host =
    if is_in "*" allowed then (some "*", false) else (none, true)
build_cors_headers urls (some origin) allowed host =
    if is_in "*" allowed
    then if origin == "" then (some "*", false) else (some origin, true)
    else if not (origin == "")
        && (is_in origin allowed || not (host == "") && urls.netloc origin == host)
    then (some origin, true)
    else (none, true)

abbrev pub last_or : String → List String → String
last_or x [] = x
last_or x (y ∷ ys) = last_or y ys

-- The entry that the trusted proxy has appended is the last one.
unfoldable pub client_ip : Bool → Request → String
client_ip trust_forwarded_for r =
    let remote : String = if r.remote == "" then "unknown" else r.remote in
    let real : String = if r.real_ip == "" then remote else r.real_ip in
    if trust_forwarded_for then last_or real r.forwarded_for else remote

unfoldable pub extract_bearer : Request → String
extract_bearer r = if r.api_key == "" then r.bearer else r.api_key

pub data Reason : Type 0 where
  no_token invalid revoked expired : Reason

-- A response: 403, 429 with the seconds to wait, 401 with the reason that is audited; or the pass.
pub data Verdict : Type 0 where
  forbidden_origin : Verdict
  ip_blocked : ℕ → Verdict
  unauthorized : Reason → Verdict
  gate_pass : TokenRow → String → Verdict

-- `expires_at <= now`
abbrev pub is_expired : Option ℕ → ℕ → Bool
is_expired none now = false
is_expired (some t) now = leb t now

abbrev pub is_revoked : Option ℕ → Bool
is_revoked none = false
is_revoked (some t) = true

-- The last part of the gate: what the token is worth.
unfoldable pub judge : Option TokenRow → String → ℕ → Verdict
judge none ip now = unauthorized invalid
judge (some row) ip now =
    if is_revoked row.revoked_at
    then unauthorized revoked
    else if is_expired row.expires_at now
    then unauthorized expired
    else gate_pass row ip

abbrev pub is_pass : Verdict → Bool
is_pass forbidden_origin = false
is_pass (ip_blocked n) = false
is_pass (unauthorized reason) = false
is_pass (gate_pass row ip) = true

unfoldable pub gate_request :
    GateDeps → List TokenRow → Request → ℕ → ℕ → ℕ → Table → Verdict × Table
unfolding judge
gate_request d tokens r checked read failed t =
    let origin = extract_origin d.urls d.trust_referer_as_origin r in
    let ip = client_ip d.trust_forwarded_for r in
    let (blocked, retry_after) = is_blocked d.ip_guard ip checked t in
    let presented = extract_bearer r in
    let verdict = judge (get_token_by_hash (d.hash_token presented) tokens) ip read in
    if not (is_origin_allowed d.urls origin d.allowed_origins r.host d.allow_missing_origin)
    then (forbidden_origin, t)
    else if blocked
    then (ip_blocked retry_after, t)
    else if presented == ""
    then (unauthorized no_token, (record_failure d.ip_guard ip failed t).1)
    else if is_pass verdict
    then (verdict, reset ip t)
    else (verdict, (record_failure d.ip_guard ip failed t).1)
