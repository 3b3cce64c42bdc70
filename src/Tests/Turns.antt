-- ===== src/Tests/Turns.antt =====
-- Runs of the chat turn and of the retention sweep.
use astrbot_plugin_webchat_g.Prelude.{◌≡◌, refl, true, false, none, some, [], ◌∷◌, text_key}
use astrbot_plugin_webchat_g.Dict.{get, put, remove}
use astrbot_plugin_webchat_g.Storage.Rows.{TokenRow, FileRow, SessionMetaRow}
use astrbot_plugin_webchat_g.Storage.Files.{
  get_file, mark_files_committed, delete_files_by_ids, list_files_for_session,
}
use astrbot_plugin_webchat_g.Storage.Sessions.{get_session_meta, list_sessions_to_purge}
use astrbot_plugin_webchat_g.Storage.Sql.{order_by}
use astrbot_plugin_webchat_g.RequestGate.{gate_pass}
use astrbot_plugin_webchat_g.FileLifecycle.{
  deleted, counted, without_repeats, delete_object, delete_objects, release_rows,
  release_files_safely, commit_attachments_or_release,
}
use astrbot_plugin_webchat_g.Usage.{
  get_today_usage, upsert_usage, try_reserve_daily_usage, refund_daily_usage,
}
use astrbot_plugin_webchat_g.Quota.{new_reservation, open_reservation, commit, close}
use astrbot_plugin_webchat_g.Ratelimit.{init, lookup_lock, acquire, exit_release, exit_evict}
use astrbot_plugin_webchat_g.Ratelimit.Keys.{session_key}
use astrbot_plugin_webchat_g.Chat.Requests.{
  file_entry, listed, object, PreparedChatRequest, parse_entries, parse_attachments, first_chars,
  parse_payload, parse_chat_body, attach, prepare_chat_request,
}
use astrbot_plugin_webchat_g.Chat.Requests.Ownership.{IsPrepared, prepare_chat_request_lem}
use astrbot_plugin_webchat_g.Chat.Turns.{
  World, Answers, failed, llm_timeout, client_gone, finish_text, chat_text, chat_image, chat_locked,
  chat,
}
use astrbot_plugin_webchat_g.Retention.{Config, Tables, Services, run_data_prune, failed_sessions}
use astrbot_plugin_webchat_g.Retention.Failing.{failed_session_stays}

program : Unit {0}
unfolding get put remove get_file mark_files_committed delete_files_by_ids without_repeats
    delete_object delete_objects release_rows release_files_safely commit_attachments_or_release
    get_today_usage upsert_usage try_reserve_daily_usage refund_daily_usage new_reservation
    open_reservation commit close init lookup_lock acquire exit_release exit_evict session_key
    parse_entries parse_attachments first_chars parse_payload parse_chat_body attach
    prepare_chat_request finish_text chat_text chat_image chat_locked chat list_sessions_to_purge
    failed_sessions order_by
program = tt

abbrev row : TokenRow
row = record {
  name = "t";
  token_hash = "h";
  daily_quota = 5;
  note = "";
  created_at = 1;
  revoked_at = none;
  expires_at = none;
}

abbrev stored : FileRow
stored = record {
  file_id = "f";
  token_name = "t";
  session_id = "s";
  mime = "image/png";
  size_bytes = 10;
  storage_key = "k";
  committed = false;
  uploaded_at = 1;
  committed_at = none;
  filename = "";
}

prepare_chat_request_lem_example : IsPrepared 100 2 (stored ∷ []) (
    prepare_chat_request 100 2
      (gate_pass row "1.2.3.4")
      (object (record {
        message = "hi";
        attachments = listed (file_entry "f" ∷ file_entry "f" ∷ []);
        session = "s";
        user = "";
        username = "";
      }))
      (stored ∷ []))
prepare_chat_request_lem_example =
    prepare_chat_request_lem 100 2 (gate_pass row "1.2.3.4")
      (object (record {
        message = "hi";
        attachments = listed (file_entry "f" ∷ file_entry "f" ∷ []);
        session = "s";
        user = "";
        username = "";
      }))
      (stored ∷ [])

abbrev asked : PreparedChatRequest
asked = record {
  token = row;
  ip = "1.2.3.4";
  data_ = record {
    session_id = "s";
    user_id = "";
    username = "WebUser";
    message = "hi";
    attachments = "f" ∷ [];
  };
  attachment_rows = stored ∷ [];
}

-- The model does not answer in time.
abbrev answers : Answers
answers = record {
  bridge = none;
  is_image = false;
  prompt = "";
  reads = λ r. true;
  files = record {
    deletion = λ id. deleted;
    removal = counted;
    mark_raises = false;
    has_store = true;
  };
  generation = failed llm_timeout;
  picture = client_gone;
  persisting = record {
    file_id = "g";
    save_raises = false;
    leaves_object = false;
    insert_raises = false;
    mark_raises = false;
    rollback_deletes = true;
  };
}

abbrev world : World
world = record {
  limiter = init;
  usage = (("t", 7), 2) ∷ [];
  files = record { objects = "k" ∷ []; rows = stored ∷ [] };
  pairs = [];
}

-- The unit is given back, and nothing is recorded.
usage_after : get_today_usage "t" 7 (chat answers asked 7 100 world).1.usage ≡ 2
unfolding program
usage_after = refl

-- A session that is deleted, with a file, whose conversation cannot be cleared.
abbrev services : Services
services = record {
  answers = answers.files;
  clear_raises = λ token session. true;
  count_raises = λ id. false;
  delete_raises = λ id. false;
}

abbrev config : Config
config = record {
  events_retention = 10;
  deleted_meta_retention = 10;
  upload_orphan_retention = 10;
  drop_deleted_retention = 0;
}

abbrev gone : SessionMetaRow
gone = record {
  token_name = "t";
  session_id = "s";
  title = "";
  title_manual = false;
  pinned_at = none;
  deleted_at = some 5;
  updated_at = 5;
  message_count = 0;
  preview = "";
}

abbrev tables : Tables
tables = record { files = world.files; sessions = gone ∷ []; updates = []; drops = [] }

failed_session_stays_example :
    (get_session_meta "t" "s" (run_data_prune services config 100 tables).sessions
      ≡ get_session_meta "t" "s" (gone ∷ []))
    × (list_files_for_session "t" "s" (run_data_prune services config 100 tables).files.rows
        ≡ list_files_for_session "t" "s" (stored ∷ []))
unfolding program
failed_session_stays_example =
    failed_session_stays "t" "s" services config 100 tables refl (tt, tt) refl
