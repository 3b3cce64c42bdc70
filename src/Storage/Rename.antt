-- ===== src/Storage/Rename.antt =====
-- storage/sqlite_backend.py, `rename_token`: one transaction over the tables that are keyed by the name
-- of a token.

pub mod Cascade
use astrbot_plugin_webchat_g.Prelude.{
  ℕ, String, Bool, true, false, not, Option, none, some, List, [], ◌∷◌, ◌&&◌, ◌==◌, if◌then◌else◌,
  text_key, number_key, is_some,
}
use astrbot_plugin_webchat_g.Usage.{Table}
use astrbot_plugin_webchat_g.Storage.Rows.{
  TokenRow, AuditRow, SessionMetaRow, UpdateRow, FileRow, DropMessageRow,
}
use astrbot_plugin_webchat_g.Storage.Sql.{find_where, update_where}
use astrbot_plugin_webchat_g.Storage.Tokens.{named}

pub record Database : Type 0 where
  pub tokens : List TokenRow
  pub daily_usage : Table
  pub audit_log : List AuditRow
  pub sessions : List SessionMetaRow
  pub updates : List UpdateRow
  pub files : List FileRow
  pub drop_messages : List DropMessageRow

-- Whether the name was changed, or `IntegrityError` for two rows with one key, which is rolled back.
pub data Renamed : Type 0 where
  renamed : Bool → Renamed
  collided : Renamed

abbrev pub has_name : String → Option String → Bool
has_name name none = false
has_name name (some n) = n == name

-- `UPDATE daily_usage SET name = ? WHERE name = ?`, row by row.
abbrev pub rename_usage : String → String → Table → Table
rename_usage old new [] = []
rename_usage old new (((name, day), count) ∷ t) =
    ((if name == old then new else name, day), count) ∷ rename_usage old new t

abbrev pub cascade : String → String → Database → Database
cascade old new d = record d {
  tokens = update_where (named old) (λ r. record r { name = new }) d.tokens;
  daily_usage = rename_usage old new d.daily_usage;
  audit_log =
      update_where (λ (r : AuditRow). has_name old r.name) (λ r. record r { name = some new })
        d.audit_log;
  sessions =
      update_where (λ (r : SessionMetaRow). r.token_name == old)
        (λ r. record r { token_name = new }) d.sessions;
  updates =
      update_where (λ (r : UpdateRow). r.token_name == old) (λ r. record r { token_name = new })
        d.updates;
  files =
      update_where (λ (r : FileRow). r.token_name == old) (λ r. record r { token_name = new })
        d.files;
}

-- A day of both names, a session of both names, a number of both names.
abbrev pub usage_day : String → ℕ → Table → Bool
usage_day name day [] = false
usage_day name day (((n, d), count) ∷ t) =
    let rest = usage_day name day t in if n == name && d == day then true else rest

abbrev pub days_meet : String → String → Table → Table → Bool
days_meet old new [] all = false
days_meet old new (((name, day), count) ∷ t) all =
    let rest = days_meet old new t all in
    if name == old && usage_day new day all then true else rest

abbrev pub sessions_meet : String → String → List SessionMetaRow → List SessionMetaRow → Bool
sessions_meet old new [] all = false
sessions_meet old new (r ∷ rows) all =
    let rest = sessions_meet old new rows all in
    let twin =
      find_where (λ (s : SessionMetaRow). s.token_name == new && s.session_id == r.session_id)
        all in
    if r.token_name == old && is_some twin then true else rest

abbrev pub numbers_meet : String → String → List UpdateRow → List UpdateRow → Bool
numbers_meet old new [] all = false
numbers_meet old new (r ∷ rows) all =
    let rest = numbers_meet old new rows all in
    let twin = find_where (λ (s : UpdateRow). s.token_name == new && s.pts == r.pts) all in
    if r.token_name == old && is_some twin then true else rest

-- Two rows would get one key.
unfoldable pub meets : String → String → Database → Bool
meets old new d =
    if days_meet old new d.daily_usage d.daily_usage
    then true
    else if sessions_meet old new d.sessions d.sessions
    then true
    else numbers_meet old new d.updates d.updates

unfoldable pub rename_token : String → String → Database → Renamed × Database
unfolding meets
rename_token old new d =
    let source = is_some (find_where (named old) d.tokens) in
    if old == new
    then (renamed source, d)
    else if not source
    then (renamed false, d)
    else if is_some (find_where (named new) d.tokens)
    then (renamed false, d)
    else if meets old new d
    then (collided, d)
    else (renamed true, cascade old new d)
