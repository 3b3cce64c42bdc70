-- ===== src/Tests/Requests.antt =====
-- Runs of the request gate.
use astrbot_plugin_webchat_g.Prelude.{◌≡◌, refl, true, false, none, some, List, [], ◌∷◌, text_key}
use astrbot_plugin_webchat_g.Dict.{get, put, remove}
use astrbot_plugin_webchat_g.IpFailures.{record_ip_failure, is_ip_blocked, decrement_ip_failure}
use astrbot_plugin_webchat_g.IpGuard.{normalize_ip, is_blocked, record_failure, reset}
use astrbot_plugin_webchat_g.Storage.Rows.{TokenRow}
use astrbot_plugin_webchat_g.Storage.Tokens.{get_token_by_hash, set_token_revoked, revoke_token}
use astrbot_plugin_webchat_g.RequestGate.Revocation.{passes_as, revoked_never_passes}
use astrbot_plugin_webchat_g.RequestGate.{
  Request, Urls, GateDeps, extract_origin, is_same_origin, is_origin_allowed, client_ip,
  extract_bearer, judge, gate_request,
}
use astrbot_plugin_webchat_g.RequestGate.Verdicts.{token_of, gate_lem}

abbrev urls : Urls
urls = record { join = λ scheme netloc. netloc; netloc = λ url. url }

abbrev pub deps : GateDeps
deps = record {
  ip_guard = record { max_fails = 2; block_seconds = 60 };
  urls = urls;
  hash_token = λ token. token;
  allowed_origins = "a" ∷ [];
  trust_forwarded_for = true;
  trust_referer_as_origin = false;
  allow_missing_origin = false;
}

-- A request with a token that is revoked, from behind the proxy.
abbrev pub request : Request
request = record {
  origin = "a";
  sec_fetch_site = "";
  referer_scheme = "";
  referer_netloc = "";
  scheme = "http";
  host = "h";
  forwarded_for = "spoofed" ∷ "1.2.3.4" ∷ [];
  real_ip = "";
  remote = "127.0.0.1";
  api_key = "";
  bearer = "old";
}

abbrev revoked_row : TokenRow
revoked_row = record {
  name = "t";
  token_hash = "old";
  daily_quota = 5;
  note = "";
  created_at = 1;
  revoked_at = some 3;
  expires_at = none;
}

abbrev tokens : List TokenRow
tokens = revoked_row ∷ []

gate_lem_example :
    (token_of (gate_request deps tokens request 10 10 10 []).0 ≡ none)
    × ((gate_request deps tokens request 10 10 10 []).1
        ≡ (
          "1.2.3.4",
          record { fail_count = 1; first_fail_ts = 10; last_fail_ts = 10; blocked_until = 0 },
        )
          ∷ [])
unfolding gate_request judge extract_origin is_same_origin is_origin_allowed client_ip
    extract_bearer normalize_ip is_blocked record_failure reset record_ip_failure is_ip_blocked
    decrement_ip_failure get put remove get_token_by_hash
gate_lem_example = gate_lem deps tokens request 10 10 10 []

abbrev live : List TokenRow
live = record revoked_row { revoked_at = none } ∷ []

revoked_never_passes_example :
    (passes_as deps request 10 10 10 [] (set_token_revoked "t" true 9 live).1 ≡ none)
    × (passes_as deps request 10 10 10 [] (revoke_token "t" 9 live).1 ≡ none)
unfolding get_token_by_hash extract_bearer
revoked_never_passes_example =
    revoked_never_passes deps request 10 10 10 [] "t" 9 live
      (record revoked_row { revoked_at = none }) refl refl
