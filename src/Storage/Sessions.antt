-- ===== src/Storage/Sessions.antt =====
-- storage/sqlite_backend.py, the table `webchat_session_meta`, whose primary key is (token_name,
-- session_id).

use astrbot_plugin_webchat_g.Prelude.{
  ℕ, String, Bool, false, not, Option, none, some, List, [], ◌∷◌, ◌++◌, ◌&&◌, ◌||◌, ◌==◌,
  if◌then◌else◌, text_key, is_some, ltb, select,
}
use astrbot_plugin_webchat_g.Storage.Rows.{SessionMetaRow, FileRow, Argument}
use astrbot_plugin_webchat_g.Storage.Sql.{
  find_where, update_where, delete_where, count_where, limit_rows, order_by, clamp,
}
use astrbot_plugin_webchat_g.Storage.Tokens.{option_or, argument_or}

abbrev pub is_session : String → String → SessionMetaRow → Bool
is_session token session row = row.token_name == token && row.session_id == session

-- The columns that a caller of `upsert_session_meta` gives.
pub record Changes : Type 0 where
  pub title : Option String
  pub title_manual : Option Bool
  pub pinned_at : Argument (Option ℕ)
  pub deleted_at : Argument (Option ℕ)
  pub message_count : Option ℕ
  pub preview : Option String

abbrev pub changed_row : Changes → ℕ → SessionMetaRow → SessionMetaRow
changed_row c now row = record row {
  title = option_or row.title c.title;
  title_manual = option_or row.title_manual c.title_manual;
  pinned_at = argument_or row.pinned_at c.pinned_at;
  deleted_at = argument_or row.deleted_at c.deleted_at;
  message_count = option_or row.message_count c.message_count;
  preview = option_or row.preview c.preview;
  updated_at = now;
}

-- The first write of a session, with the defaults of the columns.
abbrev pub new_row : String → String → Changes → ℕ → SessionMetaRow
new_row token session c now = record {
  token_name = token;
  session_id = session;
  title = option_or "" c.title;
  title_manual = option_or false c.title_manual;
  pinned_at = argument_or none c.pinned_at;
  deleted_at = argument_or none c.deleted_at;
  updated_at = now;
  message_count = option_or 0 c.message_count;
  preview = option_or "" c.preview;
}

unfoldable pub get_session_meta : String → String → List SessionMetaRow → Option SessionMetaRow
get_session_meta token session t = find_where (is_session token session) t

-- The row that is read back, and the table; `none` is the `RuntimeError` for a row that vanished.
unfoldable pub upsert_session_meta :
    String
    → String
    → Changes
    → ℕ
    → List SessionMetaRow
    → Option SessionMetaRow × List SessionMetaRow
upsert_session_meta token session c now t =
    let t' : List SessionMetaRow =
      if is_some (find_where (is_session token session) t)
      then update_where (is_session token session) (changed_row c now) t
      else t ++ (new_row token session c now ∷ []) in
    (find_where (is_session token session) t', t')

-- `ORDER BY updated_at DESC`
abbrev pub is_fresher : SessionMetaRow → SessionMetaRow → Bool
is_fresher r s = ltb s.updated_at r.updated_at

unfoldable pub list_session_meta : String → Bool → List SessionMetaRow → List SessionMetaRow
list_session_meta token include_deleted t =
    order_by is_fresher (
      select (λ row. row.token_name == token && (include_deleted || not (is_some row.deleted_at)))
        t)

-- `deleted_at IS NOT NULL AND deleted_at < ?`
abbrev pub is_past : Option ℕ → ℕ → Bool
is_past none before = false
is_past (some at) before = ltb at before

abbrev pub has_files : List FileRow → SessionMetaRow → Bool
has_files files row =
    is_some
      (find_where (λ f. f.token_name == row.token_name && f.session_id == row.session_id) files)

abbrev pub is_excluded : List (String × String) → SessionMetaRow → Bool
is_excluded [] row = false
is_excluded ((token, session) ∷ pairs) row = is_session token session row || is_excluded pairs row

-- The statement of `prune_chat_sync` on the sessions: the count of deleted rows, and the table.
unfoldable pub prune_session_meta :
    ℕ → List (String × String) → List FileRow → List SessionMetaRow → ℕ × List SessionMetaRow
prune_session_meta before excluded files t =
    let gone : SessionMetaRow → Bool = λ row.
      is_past row.deleted_at before
      && not (has_files files row)
      && not (is_excluded excluded row) in
    (count_where gone t, delete_where gone t)

abbrev pub deleted_time : SessionMetaRow → ℕ
deleted_time row = elim row.deleted_at [ none ↦ 0 | some at ↦ at ]

unfoldable pub list_sessions_to_purge : ℕ → ℕ → List SessionMetaRow → List (String × String)
list_sessions_to_purge before limit t = pairs_of (
    limit_rows (clamp 1 1000 limit) (
      order_by (λ r s. ltb (deleted_time r) (deleted_time s))
        (select (λ row. is_past row.deleted_at before) t)))
  where
    pairs_of : List SessionMetaRow → List (String × String)
    pairs_of [] = []
    pairs_of (row ∷ rows) = (row.token_name, row.session_id) ∷ pairs_of rows
