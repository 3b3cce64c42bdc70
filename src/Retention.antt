-- ===== src/Retention.antt =====
-- core/prune_orchestrator.py, `PruneOrchestrator`: one sweep over the tables, the object store and the
-- conversation manager. The sweep runs alone here, but for the files of the drop, which are checked
-- again when their turn comes. Counts that are only logged are left out.

pub mod Protection
pub mod Failing
use astrbot_plugin_webchat_g.Prelude.{
  ℕ, ◌-◌, String, Bool, true, false, not, Option, none, some, List, [], ◌∷◌, ◌&&◌, ◌||◌, ◌==◌,
  if◌then◌else◌, text_key, number_key, ltb, select,
}
use astrbot_plugin_webchat_g.Storage.Rows.{SessionMetaRow, UpdateRow, FileRow, DropMessageRow}
use astrbot_plugin_webchat_g.Storage.Updates.{prune_events}
use astrbot_plugin_webchat_g.Storage.Sessions.{list_sessions_to_purge, prune_session_meta}
use astrbot_plugin_webchat_g.Storage.Files.{get_file, list_files_to_prune}
use astrbot_plugin_webchat_g.Storage.Drop.{
  count_drop_file_references, hard_delete_drop_message, list_drop_messages_to_purge,
}
use astrbot_plugin_webchat_g.FileLifecycle.{Files, Answers, is_nil, release_files_safely}

-- `PruneRetentionConfig`, as far as the data sweep reads it.
pub record Config : Type 0 where
  pub events_retention : ℕ
  pub deleted_meta_retention : ℕ
  pub upload_orphan_retention : ℕ
  pub drop_deleted_retention : ℕ

pub record Tables : Type 0 where
  pub files : Files
  pub sessions : List SessionMetaRow
  pub updates : List UpdateRow
  pub drops : List DropMessageRow

-- How the services answer: the object store and the table of files; whether clearing the conversation
-- of a session raises, whether counting the messages of a file does, and deleting a message.
pub record Services : Type 0 where
  pub answers : Answers
  pub clear_raises : String → String → Bool
  pub count_raises : String → Bool
  pub delete_raises : ℕ → Bool

abbrev pub in_pairs : List (String × String) → String → String → Bool
in_pairs [] token session = false
in_pairs ((t, s) ∷ pairs) token session =
    (t == token && s == session) || in_pairs pairs token session

-- The sessions whose conversation could not be cleared.
abbrev pub cm_failed : Services → List (String × String) → List (String × String)
cm_failed sv pairs = select (λ p. sv.clear_raises p.0 p.1) pairs

-- The candidates that are not of such a session.
abbrev pub filtered : List (String × String) → List FileRow → List FileRow
filtered failed rows = select (λ r. not (in_pairs failed r.token_name r.session_id)) rows

-- A file of the drop, once more counted under the lock of its token.
unfoldable pub release_drop_file : Services → FileRow → Tables → Tables
release_drop_file sv row s =
    if sv.count_raises row.file_id
    then s
    else if count_drop_file_references row.token_name row.file_id s.drops == 0
    then record s { files = (release_files_safely sv.answers true (row ∷ []) s.files).1 }
    else s

unfoldable pub release_drop_files : Services → List FileRow → Tables → Tables
unfolding release_drop_file
release_drop_files sv [] s = s
release_drop_files sv (row ∷ rows) s = release_drop_files sv rows (release_drop_file sv row s)

abbrev pub is_drop : FileRow → Bool
is_drop row = row.session_id == "drop"

-- Step 5.
unfoldable pub release_candidates : Services → List FileRow → Tables → Tables
unfolding release_drop_files
release_candidates sv rows s =
    let chat = select (λ r. not (is_drop r)) rows in
    let s1 : Tables = record s { files = (release_files_safely sv.answers true chat s.files).1 } in
    let swept = release_drop_files sv (select is_drop rows) (if is_nil chat then s else s1) in
    if sv.answers.has_store && not (is_nil rows) then swept else s

abbrev pub delete_message : Services → DropMessageRow → Tables → Tables
delete_message sv row s =
    if sv.delete_raises row.id
    then s
    else record s { drops = (hard_delete_drop_message row.token_name row.id s.drops).1 }

-- The last message of a file: the file first.
abbrev pub release_last : Services → DropMessageRow → Option FileRow → Tables → Tables
release_last sv row none s = delete_message sv row s
release_last sv row (some file) s =
    let (released, files) = release_files_safely sv.answers true (file ∷ []) s.files in
    let s1 : Tables = record s { files = files } in
    elim released [ none ↦ s1 | some n ↦ if n == 1 then delete_message sv row s1 else s1 ]

-- One round of `_run_drop_retention`.
unfoldable pub retain_row : Services → DropMessageRow → Tables → Tables
retain_row sv row s = elim row.file_id [
  | none ↦ delete_message sv row s
  | some id ↦
      if id == ""
      then delete_message sv row s
      else if sv.count_raises id
      then s
      else if count_drop_file_references row.token_name id s.drops == 1
      then release_last sv row (get_file id s.files.rows) s
      else delete_message sv row s
]

unfoldable pub retain_rows : Services → List DropMessageRow → Tables → Tables
unfolding retain_row
retain_rows sv [] s = s
retain_rows sv (row ∷ rows) s = retain_rows sv rows (retain_row sv row s)

unfoldable pub run_drop_retention : Services → Config → ℕ → Tables → Tables
unfolding retain_rows
run_drop_retention sv c now s =
    retain_rows sv (list_drop_messages_to_purge (now - c.drop_deleted_retention) 500 s.drops) s

-- Steps 1 to 4: the sessions that failed, and the candidates.
unfoldable pub failed_sessions : Services → Config → ℕ → Tables → List (String × String)
failed_sessions sv c now s =
    cm_failed sv (list_sessions_to_purge (now - c.deleted_meta_retention) 500 s.sessions)

unfoldable pub candidates : Services → Config → ℕ → Tables → List FileRow
unfolding failed_sessions
candidates sv c now s = filtered (failed_sessions sv c now s) (
    list_files_to_prune (now - c.deleted_meta_retention) (now - c.upload_orphan_retention) 500
      s.sessions s.drops s.files.rows)

-- Step 6.
abbrev pub prune_chat_sync : Config → ℕ → List (String × String) → Tables → Tables
prune_chat_sync c now failed s = record s {
  updates = (prune_events (now - c.events_retention) s.updates).1;
  sessions = (prune_session_meta (now - c.deleted_meta_retention) failed s.files.rows s.sessions).1;
}

unfoldable pub run_data_prune : Services → Config → ℕ → Tables → Tables
unfolding failed_sessions candidates release_candidates run_drop_retention
run_data_prune sv c now s =
    let failed = failed_sessions sv c now s in
    let s1 = release_candidates sv (candidates sv c now s) s in
    let s2 = prune_chat_sync c now failed s1 in
    if ltb 0 c.drop_deleted_retention then run_drop_retention sv c now s2 else s2
