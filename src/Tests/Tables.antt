-- ===== src/Tests/Tables.antt =====
-- Runs of the tables of tokens and of events, of the rename, and of a client that polls.
use astrbot_plugin_webchat_g.Prelude.{
  ◌≡◌, refl, String, true, false, none, some, List, [], ◌∷◌, arith, text_key,
}
use astrbot_plugin_webchat_g.Prelude.Int.{pos}
use astrbot_plugin_webchat_g.EventBus.{init}
use astrbot_plugin_webchat_g.Storage.Rows.{
  TokenRow, NewEvent, UpdateRow, FileRow, DropMessageRow, file_kind,
}
use astrbot_plugin_webchat_g.Storage.Updates.{
  append_updates, insert_updates, get_max_pts, is_latest, prune_events,
}
use astrbot_plugin_webchat_g.Storage.Updates.Log.{log_of, IsLog}
use astrbot_plugin_webchat_g.Storage.Updates.Prune.{trimmed, prune_events-log}
use astrbot_plugin_webchat_g.Storage.Updates.History.{Write, appends, prunes, write, write_all}
use astrbot_plugin_webchat_g.Storage.Rename.{Database, renamed, rename_token}
use astrbot_plugin_webchat_g.Storage.Rename.Cascade.{
  Moves, OrphansDrop, rename-Moves, rename-OrphansDrop,
}
use astrbot_plugin_webchat_g.Conversations.Events.{polled, get_events}
use astrbot_plugin_webchat_g.Conversations.Events.Pruned.{nothing_new, pruned_unseen}

program : Unit {0}
unfolding append_updates insert_updates get_max_pts is_latest prune_events write write_all trimmed
program = tt

abbrev event : String → NewEvent
event session = record { event_type = "message_added"; session_id = session; payload = "{}" }

-- Two events, a prune of both, and three more.
abbrev writes : List Write
writes =
    appends "t" (event "a" ∷ event "b" ∷ []) 10
    ∷ prunes 20
    ∷ appends "t" (event "a" ∷ []) 30
    ∷ appends "t" (event "a" ∷ event "c" ∷ []) 40
    ∷ []

-- Events 3 to 5 behind the marker with the number 2.
abbrev table : List UpdateRow
table = (write_all writes "t" []).1

table-IsLog : IsLog (log_of "t" table)
unfolding program
table-IsLog = (refl, omega arith, refl, (refl, omega arith, refl, (refl, omega arith, refl, tt)))

prune_events-log_example : log_of "t" (prune_events 35 table).1 ≡ trimmed 35 (log_of "t" table)
prune_events-log_example = prune_events-log "t" 35 table table-IsLog

pruned_unseen_example :
    get_events "t" (pos 3) false init (prune_events 50 table).1 table ≡ polled (nothing_new 5)
unfolding program
pruned_unseen_example =
    pruned_unseen "t" 3 50 init table table table-IsLog (refl, (refl, (refl, (refl, tt))))
      (omega arith) (omega arith)

abbrev token : String → String → TokenRow
token name token_hash = record {
  name = name;
  token_hash = token_hash;
  daily_quota = 5;
  note = "";
  created_at = 1;
  revoked_at = none;
  expires_at = none;
}

abbrev tokens : List TokenRow
tokens = token "t" "x" ∷ token "u" "y" ∷ []

-- A file of the drop that a message names.
abbrev drop_file : FileRow
drop_file = record {
  file_id = "f";
  token_name = "t";
  session_id = "drop";
  mime = "text/plain";
  size_bytes = 3;
  storage_key = "t/f";
  committed = true;
  uploaded_at = 5;
  committed_at = some 5;
  filename = "f.txt";
}

abbrev message : DropMessageRow
message = record {
  id = 1;
  token_name = "t";
  device_id = "d";
  device_name = "phone";
  kind = file_kind;
  text = "";
  file_id = some "f";
  filename = "f.txt";
  mime = "text/plain";
  size_bytes = 3;
  created_at = 5;
  deleted_at = none;
}

abbrev database : Database
database = record {
  tokens = tokens;
  daily_usage = (("t", 3), 2) ∷ [];
  audit_log = [];
  sessions = [];
  updates = [];
  files = drop_file ∷ [];
  drop_messages = message ∷ [];
}

rename-Moves_example :
    ((rename_token "t" "v" database).0 ≡ renamed true)
    × Moves "t" "v" database (rename_token "t" "v" database).1
rename-Moves_example = rename-Moves "t" "v" database refl refl (record {
  token_free = refl;
  usage_free = (refl, tt);
  sessions_free = tt;
  updates_free = tt;
  files_free = (refl, tt);
  drops_free = (refl, tt);
})

rename-OrphansDrop_example :
    OrphansDrop "t" "v" database drop_file 50 100 true (rename_token "t" "v" database).1
rename-OrphansDrop_example =
    rename-OrphansDrop "t" "v" database drop_file 50 100 true refl refl
      (record {
        token_free = refl;
        usage_free = (refl, tt);
        sessions_free = tt;
        updates_free = tt;
        files_free = (refl, tt);
        drops_free = (refl, tt);
      })
      refl refl
