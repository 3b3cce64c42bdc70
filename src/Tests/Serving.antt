-- ===== src/Tests/Serving.antt =====
-- Runs of the file endpoints.
use astrbot_plugin_webchat_g.Prelude.{
  ◌≡◌, refl, String, true, false, none, some, [], ◌∷◌, text_key, arith,
}
use astrbot_plugin_webchat_g.Dict.{get, put, remove}
use astrbot_plugin_webchat_g.Storage.Rows.{TokenRow, FileRow}
use astrbot_plugin_webchat_g.Storage.Tokens.{get_token_by_hash, get_token_by_name}
use astrbot_plugin_webchat_g.Storage.Files.{
  get_file, insert_file, total_size_for_token, delete_files_by_ids,
}
use astrbot_plugin_webchat_g.IpFailures.{record_ip_failure, is_ip_blocked, decrement_ip_failure}
use astrbot_plugin_webchat_g.IpGuard.{normalize_ip, is_blocked, record_failure, reset}
use astrbot_plugin_webchat_g.RequestGate.{
  Request, extract_origin, is_origin_allowed, client_ip, extract_bearer, gate_request, judge,
}
use astrbot_plugin_webchat_g.FileLifecycle.{Files}
use astrbot_plugin_webchat_g.FileCookie.{
  payload, sign, verify, parts_of, rsplit, new_tracker, raised, record_logout, is_invalidated,
  prune_expired, build_clear_cookie_value,
}
use astrbot_plugin_webchat_g.FileCookie.Logout.{logs_out, sweeps, run, is_voided}
use astrbot_plugin_webchat_g.FileServing.{
  Deps, Times, Ask, bytes, peek_name, peeked_row, verified_row, cookie_token, is_file_id,
  is_image_mime, serve_file, serve,
}
use astrbot_plugin_webchat_g.FileServing.Owners.{given_file, serve_lem}
use astrbot_plugin_webchat_g.FileServing.Cookies.{cookie_token_lem}
use astrbot_plugin_webchat_g.FileServing.Sessions.{cleared, leaving, logout}
use astrbot_plugin_webchat_g.FileServing.Sessions.Voiding.{logout_lem}
use astrbot_plugin_webchat_g.FileServing.Uploads.{
  Answers, Limits, saved, read_chunks, parse_parts, is_session_id, ext_for_mime, save_object,
  store_upload, check_upload, upload,
}
use astrbot_plugin_webchat_g.Tests.Requests
use astrbot_plugin_webchat_g.Tests.Cookies.{
  encode, decode, render, parse, size, codec, numbers-IsReadable, texts-IsReadable,
}

program : Unit {0}
unfolding payload sign verify parts_of rsplit new_tracker raised record_logout is_invalidated
    prune_expired run is_voided encode decode render parse size peek_name peeked_row verified_row
    cookie_token is_file_id is_image_mime serve_file serve get_file get_token_by_name
    get_token_by_hash get put remove extract_origin is_origin_allowed client_ip extract_bearer
    is_blocked is_ip_blocked normalize_ip record_failure record_ip_failure reset
    decrement_ip_failure leaving logout build_clear_cookie_value gate_request judge read_chunks
    parse_parts is_session_id ext_for_mime save_object store_upload check_upload upload insert_file
    total_size_for_token delete_files_by_ids
program = tt

abbrev deps : Deps
deps = record {
  gate = Requests.deps;
  codec = codec;
  has_secret = true;
  cookie_ttl = 60;
  cookie_path = "/";
  is_direct = false;
}

abbrev row : TokenRow
row = record {
  name = "t";
  token_hash = "h";
  daily_quota = 5;
  note = "";
  created_at = 1;
  revoked_at = none;
  expires_at = none;
}

abbrev cookie : String
cookie = sign codec "t" "h" 9

-- Another token has logged out.
cookie_token_lem_example :
    cookie_token deps 5 5 cookie
      (some (run (logs_out "u" 1 ∷ sweeps 2 ∷ []) (new_tracker 60)))
      (row ∷ [])
    ≡ some row
unfolding program
cookie_token_lem_example =
    cookie_token_lem deps numbers-IsReadable texts-IsReadable refl "t" "h" 9 refl
      (logs_out "u" 1 ∷ sweeps 2 ∷ []) 60 5 5 (row ∷ []) (omega arith, tt)

abbrev times : Times
times = record { checked = 5; read = 5; failed = 5; verified = 5; rechecked = 5 }

-- A request that brings the cookie alone.
abbrev request : Request
request = record Requests.request { bearer = "" }

logout_lem_example :
    ((logout deps request cookie times (row ∷ []) (some (new_tracker 60), [])).0
      ≡ cleared (build_clear_cookie_value "/"))
    × (cookie_token deps 6 6 cookie
          (logout deps request cookie times (row ∷ []) (some (new_tracker 60), [])).1
          (row ∷ [])
        ≡ none)
unfolding program
logout_lem_example =
    logout_lem deps request cookie times (row ∷ []) (new_tracker 60) [] row 9 6 6 (row ∷ []) refl
      refl refl (omega arith) (omega arith)

abbrev stored : FileRow
stored = record {
  file_id = "abcdefghijklmnop";
  token_name = "t";
  session_id = "s";
  mime = "image/png";
  size_bytes = 10;
  storage_key = "t/abcdefghijklmnop.png";
  committed = true;
  uploaded_at = 1;
  committed_at = some 2;
  filename = "";
}

abbrev ask : Ask
ask = record {
  request = request;
  cookie = cookie;
  file_id = "abcdefghijklmnop";
  preview = false;
  has_signed = false;
  reading = bytes;
}

serve_lem_example :
    given_file (serve deps ask times none (row ∷ []) (stored ∷ []) []).0 ≡ some stored
unfolding program
serve_lem_example = serve_lem deps ask (stored ∷ []) times none (row ∷ []) []

abbrev limits : Limits
limits = record { max_file_size_mb = 1; per_token_storage_mb = 1; allowed_mime = "image/png" ∷ [] }

abbrev answers : Answers
answers = record {
  detected = some "image/png";
  file_id = "ABCDEFGHIJKLMNOP";
  total_raises = false;
  insert_raises = false;
  saving = saved;
  rollback_raises = false;
}

abbrev files : Files
files = record { objects = "t/abcdefghijklmnop.png" ∷ []; rows = stored ∷ [] }
