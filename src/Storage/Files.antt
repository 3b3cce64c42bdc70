-- ===== src/Storage/Files.antt =====
-- storage/sqlite_backend.py, the table `webchat_files`, whose primary key is file_id. `none` of the
-- insertion is `IntegrityError`.
use astrbot_plugin_webchat_g.Prelude.{
  ℕ, ◌+◌, String, Bool, true, false, not, Option, none, some, List, [], ◌∷◌, ◌++◌, ◌&&◌, ◌||◌, ◌==◌,
  if◌then◌else◌, text_key, is_some, ltb, select, ◌≡◌, refl, subst, arith, eq_iff, Bool-cases, inl,
  inr,
}
use astrbot_plugin_webchat_g.Storage.Rows.{FileRow, SessionMetaRow, DropMessageRow}
use astrbot_plugin_webchat_g.Storage.Sql.{
  find_where, update_where, delete_where, count_where, limit_rows, order_by, clamp,
}
use astrbot_plugin_webchat_g.Storage.Sql.Find.{find-update}
use astrbot_plugin_webchat_g.Storage.Sessions.{is_session, is_past}

abbrev pub has_id : String → FileRow → Bool
has_id id row = row.file_id == id

abbrev pub contains : List String → String → Bool
contains [] id = false
contains (i ∷ ids) id = i == id || contains ids id

unfoldable pub insert_file :
    String
    → String
    → String
    → String
    → ℕ
    → String
    → ℕ
    → String
    → List FileRow
    → Option (List FileRow)
insert_file id token session mime size key now filename t =
    let row : FileRow = record {
      file_id = id;
      token_name = token;
      session_id = session;
      mime = mime;
      size_bytes = size;
      storage_key = key;
      committed = false;
      uploaded_at = now;
      committed_at = none;
      filename = filename;
    } in
    if is_some (find_where (has_id id) t) then none else some (t ++ (row ∷ []))

unfoldable pub get_file : String → List FileRow → Option FileRow
get_file id t = find_where (has_id id) t

-- The count of rows that were not committed before, and the table.
unfoldable pub mark_files_committed : List String → ℕ → List FileRow → ℕ × List FileRow
mark_files_committed ids now t =
    let p : FileRow → Bool = λ row. contains ids row.file_id && not row.committed in
    (
      count_where p t,
      update_where p (λ row. record row { committed = true; committed_at = some now }) t,
    )

-- `COALESCE(SUM(size_bytes), 0)`
abbrev pub sum_sizes : List FileRow → ℕ
sum_sizes [] = 0
sum_sizes (row ∷ rows) = row.size_bytes + sum_sizes rows

unfoldable pub total_committed_size_for_token : String → List FileRow → ℕ
total_committed_size_for_token token t =
    sum_sizes (select (λ row. row.token_name == token && row.committed) t)

unfoldable pub total_size_for_token : String → List FileRow → ℕ
total_size_for_token token t = sum_sizes (select (λ row. row.token_name == token) t)

-- `ORDER BY uploaded_at ASC`
abbrev pub is_older : FileRow → FileRow → Bool
is_older r s = ltb r.uploaded_at s.uploaded_at

unfoldable pub list_files_for_session : String → String → List FileRow → List FileRow
list_files_for_session token session t =
    order_by is_older (select (λ row. row.token_name == token && row.session_id == session) t)

unfoldable pub list_uncommitted_orphans : ℕ → ℕ → List FileRow → List FileRow
list_uncommitted_orphans before limit t =
    limit_rows (clamp 1 1000 limit)
      (order_by is_older (select (λ row. not row.committed && ltb row.uploaded_at before) t))

unfoldable pub delete_files_by_ids : List String → List FileRow → ℕ × List FileRow
delete_files_by_ids ids t =
    let p : FileRow → Bool = λ row. contains ids row.file_id in (count_where p t, delete_where p t)

-- The session of the file is deleted since before a time.
abbrev pub is_purged : ℕ → List SessionMetaRow → FileRow → Bool
is_purged before sessions row = is_some (
    find_where (λ m. is_session row.token_name row.session_id m && is_past m.deleted_at before)
      sessions)

unfoldable pub list_files_for_purged_sessions :
    ℕ → ℕ → List SessionMetaRow → List FileRow → List FileRow
list_files_for_purged_sessions before limit sessions t =
    limit_rows (clamp 1 1000 limit) (select (is_purged before sessions) t)

abbrev pub names_file : String → Option String → Bool
names_file id none = false
names_file id (some i) = i == id

-- A message of the token that names the file.
abbrev pub refers : String → String → DropMessageRow → Bool
refers token id message = message.token_name == token && names_file id message.file_id

-- Uploaded before a time, and never sent; a file of the drop is sent if a message names it.
abbrev pub is_orphan : ℕ → List DropMessageRow → FileRow → Bool
is_orphan before drops row =
    ltb row.uploaded_at before
    && (not (row.session_id == "drop") && not row.committed
        || row.session_id == "drop"
          && not (is_some (find_where (refers row.token_name row.file_id) drops)))

-- The first of the rows with each identifier.
abbrev pub once_each : List String → List FileRow → List FileRow
once_each seen [] = []
once_each seen (row ∷ rows) =
    let skipped = once_each seen rows in
    let taken = once_each (row.file_id ∷ seen) rows in
    if contains seen row.file_id then skipped else row ∷ taken

unfoldable pub list_files_to_prune :
    ℕ → ℕ → ℕ → List SessionMetaRow → List DropMessageRow → List FileRow → List FileRow
unfolding list_files_for_purged_sessions
list_files_to_prune deleted_before uncommitted_before limit sessions drops t =
    let orphans =
      limit_rows (clamp 1 1000 limit)
        (order_by is_older (select (is_orphan uncommitted_before drops) t)) in
    once_each [] (orphans ++ list_files_for_purged_sessions deleted_before limit sessions t)

deleted_head :
    (ids : List String) (t : List FileRow) (row : FileRow)
    → find_where (has_id row.file_id) (delete_where (λ r. contains ids r.file_id) t)
      ≡ (if contains ids row.file_id then none else find_where (has_id row.file_id) t)
    → find_where (has_id row.file_id) (delete_where (λ r. contains ids r.file_id) (row ∷ t))
      ≡ (if contains ids row.file_id then none else find_where (has_id row.file_id) (row ∷ t))
deleted_head ids t row rest = elim (Bool-cases (contains ids row.file_id)) [
  | inl gone ↦ rw gone (
      subst
        (λ b.
          find_where (has_id row.file_id) (delete_where (λ r. contains ids r.file_id) t)
          ≡ (if b then none else find_where (has_id row.file_id) t))
        gone rest)
  | inr kept ↦ rw (kept, (eq_iff row.file_id row.file_id).1 refl) refl
]

-- What is found after a delete.
pub get_file-delete :
    (ids : List String) (t : List FileRow) (id : String)
    → get_file id (delete_files_by_ids ids t).1 ≡ (if contains ids id then none else get_file id t)
unfolding get_file delete_files_by_ids
get_file-delete ids [] id = ground arith
get_file-delete ids (row ∷ t) id = elim (Bool-cases (row.file_id == id)) [
  | inl same ↦
      subst
        (λ i.
          find_where (has_id i) (delete_where (λ r. contains ids r.file_id) (row ∷ t))
          ≡ (if contains ids i then none else find_where (has_id i) (row ∷ t)))
        ((eq_iff row.file_id id).0 same)
        (deleted_head ids t row (get_file-delete ids t row.file_id))
  | inr other ↦ elim (Bool-cases (contains ids row.file_id)) [
    | inl gone ↦ rw (gone, other) (get_file-delete ids t id)
    | inr kept ↦ rw (kept, other) (get_file-delete ids t id)
  ]
]

-- And after a commit.
pub get_file-mark :
    (ids : List String) (now : ℕ) (t : List FileRow) (id : String)
    → get_file id (mark_files_committed ids now t).1 ≡ elim (get_file id t) [
      | none ↦ none
      | some row ↦ some (
          if contains ids row.file_id && not row.committed
          then record row { committed = true; committed_at = some now }
          else row)
    ]
unfolding get_file mark_files_committed
get_file-mark ids now t id =
    find-update (λ (row : FileRow). contains ids row.file_id && not row.committed) (has_id id)
      (λ row. record row { committed = true; committed_at = some now }) t (λ row. refl)
