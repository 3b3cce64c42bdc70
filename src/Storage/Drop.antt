-- ===== src/Storage/Drop.antt =====
-- storage/sqlite_backend.py, the table `webchat_drop_messages`, whose id is given by AUTOINCREMENT: one
-- more than the largest that was ever given.
use astrbot_plugin_webchat_g.Prelude.{
  ℕ, ◌+◌, String, Bool, false, not, Option, none, some, List, [], ◌∷◌, ◌++◌, ◌&&◌, ◌||◌, ◌==◌,
  text_key, number_key, is_some, ltb, select,
}
use astrbot_plugin_webchat_g.Storage.Rows.{FileRow, DropKind, DropMessageRow}
use astrbot_plugin_webchat_g.Storage.Sql.{
  find_where, update_where, delete_where, count_where, limit_rows, order_by,
}
use astrbot_plugin_webchat_g.Storage.Files.{refers}

-- The rows, and the largest id that was given.
pub record DropTable : Type 0 where
  pub rows : List DropMessageRow
  pub sequence : ℕ

-- What a message says: `kind`, `text` and the attached file.
pub record Content : Type 0 where
  pub kind : DropKind
  pub text : String
  pub file_id : Option String
  pub filename : String
  pub mime : String
  pub size_bytes : ℕ

unfoldable pub append_drop_message :
    String → String → String → Content → ℕ → DropTable → ℕ × DropTable
append_drop_message token device device_name c now t =
    let row : DropMessageRow = record {
      id = t.sequence + 1;
      token_name = token;
      device_id = device;
      device_name = device_name;
      kind = c.kind;
      text = c.text;
      file_id = c.file_id;
      filename = c.filename;
      mime = c.mime;
      size_bytes = c.size_bytes;
      created_at = now;
      deleted_at = none;
    } in
    (t.sequence + 1, record { rows = t.rows ++ (row ∷ []); sequence = t.sequence + 1 })

abbrev pub is_message : String → ℕ → DropMessageRow → Bool
is_message token id row = row.token_name == token && row.id == id

-- `ORDER BY created_at DESC, id DESC`
abbrev pub is_later : DropMessageRow → DropMessageRow → Bool
is_later r s = ltb s.created_at r.created_at || r.created_at == s.created_at && ltb s.id r.id

-- The rows that may be listed at all.
abbrev pub is_listed : String → Bool → DropMessageRow → Bool
is_listed token include_deleted row =
    row.token_name == token && (include_deleted || not (is_some row.deleted_at))

-- `none`, the row at the cursor is not there: no rows. Without a cursor: from the newest on.
unfoldable pub list_drop_messages :
    String → ℕ → Option ℕ → Bool → List DropMessageRow → List DropMessageRow
list_drop_messages token limit none include_deleted t =
    limit_rows limit (order_by is_later (select (is_listed token include_deleted) t))
list_drop_messages token limit (some before) include_deleted t =
    elim (find_where (is_message token before) t) [
      | none ↦ []
      | some anchor ↦ limit_rows limit (
          order_by is_later
            (select (λ row. is_listed token include_deleted row && is_later anchor row) t))
    ]

unfoldable pub get_drop_message : String → ℕ → List DropMessageRow → Option DropMessageRow
get_drop_message token id t = find_where (is_message token id) t

unfoldable pub soft_delete_drop_message :
    String → ℕ → ℕ → List DropMessageRow → Bool × List DropMessageRow
soft_delete_drop_message token id now t =
    let p : DropMessageRow → Bool =
      λ row. is_message token id row && not (is_some row.deleted_at) in
    (ltb 0 (count_where p t), update_where p (λ row. record row { deleted_at = some now }) t)

unfoldable pub hard_delete_drop_message :
    String → ℕ → List DropMessageRow → Bool × List DropMessageRow
hard_delete_drop_message token id t =
    (ltb 0 (count_where (is_message token id) t), delete_where (is_message token id) t)

-- Both deletes of one transaction, with the count of the messages.
unfoldable pub clear_drop_history :
    String → List DropMessageRow → List FileRow → ℕ × List DropMessageRow × List FileRow
clear_drop_history token t files = (
  count_where (λ row. row.token_name == token) t,
  delete_where (λ row. row.token_name == token) t,
  delete_where (λ (f : FileRow). f.token_name == token && f.session_id == "drop") files,
)

abbrev pub deletion_time : DropMessageRow → ℕ
deletion_time row = elim row.deleted_at [ none ↦ 0 | some at ↦ at ]

abbrev pub is_aged : ℕ → DropMessageRow → Bool
is_aged before row = elim row.deleted_at [ none ↦ false | some at ↦ ltb at before ]

unfoldable pub list_drop_messages_to_purge : ℕ → ℕ → List DropMessageRow → List DropMessageRow
list_drop_messages_to_purge before limit t =
    limit_rows limit
      (order_by (λ r s. ltb (deletion_time r) (deletion_time s)) (select (is_aged before) t))

unfoldable pub list_drop_files : String → List FileRow → List FileRow
list_drop_files token files = select (λ f. f.token_name == token && f.session_id == "drop") files

unfoldable pub count_drop_file_references : String → String → List DropMessageRow → ℕ
count_drop_file_references token id t = count_where (refers token id) t
