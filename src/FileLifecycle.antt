-- ===== src/FileLifecycle.antt =====
-- core/file_lifecycle.py: an attachment's stored object and its row, released as a pair. The answers
-- of the object store and of the database are arguments.
pub mod Anchors
pub mod Commits
use astrbot_plugin_webchat_g.Prelude.{
  ℕ, ◌+◌, ◌-◌, max, min, String, Bool, true, false, not, Option, none, some, List, [], ◌∷◌, ◌&&◌,
  ◌||◌, ◌==◌, if◌then◌else◌, ltb, length, is_some, select, text_key,
}
use astrbot_plugin_webchat_g.Storage.Rows.{FileRow}
use astrbot_plugin_webchat_g.Storage.Files.{contains, delete_files_by_ids, mark_files_committed}

-- The keys of the stored objects, and the table.
pub record Files : Type 0 where
  pub objects : List String
  pub rows : List FileRow

-- `file_store.delete`: true or `None`; false; an exception before or after the object is gone.
pub data Deletion : Type 0 where
  deleted refused raised_before raised_after : Deletion

-- `storage.delete_files_by_ids`: the count of rows, the `None` of an old backend, or an exception,
-- after which no row is deleted.
pub data Removal : Type 0 where
  counted uncounted raised : Removal

-- How the services answer: the store for each file, the table, and whether `mark_files_committed`
-- raises; and whether there is a file store at all.
pub record Answers : Type 0 where
  pub deletion : String → Deletion
  pub removal : Removal
  pub mark_raises : Bool
  pub has_store : Bool

-- The rows without repetitions of an identifier.
unfoldable pub without_repeats : List String → List FileRow → List FileRow
without_repeats seen [] = []
without_repeats seen (row ∷ rows) =
    let skipped = without_repeats seen rows in
    let taken = without_repeats (row.file_id ∷ seen) rows in
    if contains seen row.file_id then skipped else row ∷ taken

abbrev pub remove_object : String → Files → Files
remove_object key s = record s { objects = select (λ k. not (key == k)) s.objects }

-- One round of the loop over the rows: whether the identifier is kept for the table.
unfoldable pub delete_object : Answers → FileRow → Files → Bool × Files
delete_object a row s = elim (a.deletion row.file_id) [
  | deleted ↦ (true, remove_object row.storage_key s)
  | refused ↦ (false, s)
  | raised_before ↦ (false, s)
  | raised_after ↦ (false, remove_object row.storage_key s)
]

unfoldable pub delete_objects : Answers → List FileRow → Files → List String × Files
unfolding delete_object
delete_objects a [] s = ([], s)
delete_objects a (row ∷ rows) s =
    let (gone, s1) = delete_object a row s in
    let (ids, s2) = delete_objects a rows s1 in (if gone then row.file_id ∷ ids else ids, s2)

abbrev pub is_nil {ℓ} : {A : Type ℓ} → List A → Bool
is_nil [] = true
is_nil (x ∷ xs) = false

-- The table's part of the release.
unfoldable pub release_rows : Answers → Bool → List String → Files → ℕ × Files
release_rows a delete_db ids s =
    let (count, t) = delete_files_by_ids ids s.rows in
    if not (is_nil ids) && delete_db
    then elim a.removal [
      | raised ↦ (0, s)
      | counted ↦ (min (length ids) count, record s { rows = t })
      | uncounted ↦ (length ids, record s { rows = t })
    ]
    else (length ids, s)

-- `release_files_safely`; `none` is the `RuntimeError` for a missing file store.
unfoldable pub release_files_safely : Answers → Bool → List FileRow → Files → Option ℕ × Files
unfolding delete_objects release_rows without_repeats
release_files_safely a delete_db rows s =
    let once = without_repeats [] rows in
    let (ids, s1) = delete_objects a once s in
    let (count, s2) = release_rows a delete_db ids s1 in
    if is_nil once then (some 0, s) else if a.has_store then (some count, s2) else (none, s)

abbrev pub ids_of : List FileRow → List String
ids_of [] = []
ids_of (row ∷ rows) = row.file_id ∷ ids_of rows

-- `released_ok < len(rows)` or an exception of the release.
abbrev pub fell_short : ℕ → Option ℕ → Bool
fell_short wanted none = true
fell_short wanted (some released) = ltb released wanted

-- `commit_attachments_or_release`: whether it committed, whether it audits `file_release_failed`, and
-- the files.
unfoldable pub commit_attachments_or_release :
    Answers → List FileRow → ℕ → Files → Bool × Bool × Files
unfolding release_files_safely
commit_attachments_or_release a rows now s =
    let (released, s') = release_files_safely a true rows s in
    if is_nil rows
    then (true, false, s)
    else if a.mark_raises
    then (false, fell_short (length rows) released, s')
    else (true, false, record s { rows = (mark_files_committed (ids_of rows) now s.rows).1 })
