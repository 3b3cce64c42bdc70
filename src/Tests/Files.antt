-- ===== src/Tests/Files.antt =====
-- Runs of the file lifecycle and of the log ring.
use astrbot_plugin_webchat_g.Prelude.{
  String, not, ◌&&◌, ◌≤◌, ◌≡◌, refl, true, false, none, List, [], ◌∷◌, arith, text_key, length,
  ◌==◌, if◌then◌else◌,
}
use astrbot_plugin_webchat_g.Storage.Rows.{FileRow}
use astrbot_plugin_webchat_g.Storage.Files.{get_file, delete_files_by_ids}
use astrbot_plugin_webchat_g.FileLifecycle.{
  Files, Answers, deleted, refused, counted, without_repeats, delete_object, delete_objects,
  release_rows, release_files_safely, ids_of, commit_attachments_or_release,
}
use astrbot_plugin_webchat_g.FileLifecycle.Anchors.{IsAnchored, release_keeps_anchors}
use astrbot_plugin_webchat_g.FileLifecycle.Commits.{all_committed, commit_lem}
use astrbot_plugin_webchat_g.LogBuffer.{
  Ring, Filter, init, append, next_id, emit, passes, scan, snapshot,
}
use astrbot_plugin_webchat_g.LogBuffer.Paging.{pending, drain}
use astrbot_plugin_webchat_g.LogBuffer.Rotation.{Record, emit_each, emitted_lem}

-- The store refuses to delete the object of one file.
abbrev answers : Answers
answers = record {
  deletion = λ id. if id == "b" then refused else deleted;
  removal = counted;
  mark_raises = false;
  has_store = true;
}

abbrev stored : String → String → FileRow
stored id key = record {
  file_id = id;
  token_name = "t";
  session_id = "s";
  mime = "image/png";
  size_bytes = 1;
  storage_key = key;
  committed = false;
  uploaded_at = 5;
  committed_at = none;
  filename = "";
}

abbrev rows : List FileRow
rows = stored "a" "k" ∷ stored "b" "l" ∷ stored "a" "k" ∷ []

abbrev files : Files
files = record { objects = "k" ∷ "l" ∷ []; rows = stored "a" "k" ∷ stored "b" "l" ∷ [] }

program : Unit {0}
unfolding without_repeats delete_object delete_objects delete_files_by_ids release_rows
    release_files_safely init append next_id emit passes scan snapshot pending drain emit_each
program = tt

files-IsAnchored : IsAnchored files
unfolding get_file
files-IsAnchored = (
  ("a", stored "a" "k", refl, refl, refl, refl),
  (("b", stored "b" "l", refl, refl, refl, refl), tt),
)

release_keeps_anchors_example : IsAnchored (release_files_safely answers true rows files).1
unfolding get_file
release_keeps_anchors_example =
    release_keeps_anchors answers true rows files (refl, (refl, (refl, tt))) files-IsAnchored

commit_lem_example :
    IsAnchored (commit_attachments_or_release answers rows 9 files).2
    × (((commit_attachments_or_release answers rows 9 files).0
          && not (
              all_committed
                (ids_of rows)
                (commit_attachments_or_release answers rows 9 files).2.rows))
        ≡ false)
unfolding get_file
commit_lem_example = commit_lem answers rows 9 files (refl, (refl, (refl, tt))) files-IsAnchored

-- Every record passes.
abbrev open_filter : Filter
open_filter = record {
  level_no = λ _. 20;
  contains = λ needle message. true;
  level = none;
  grep = none;
}

abbrev records : List Record
records =
    record { created = 1; levelname = "INFO"; name = "n"; message = "x"; exc = none }
    ∷ record { created = 2; levelname = "INFO"; name = "n"; message = "y"; exc = none }
    ∷ record { created = 3; levelname = "INFO"; name = "n"; message = "z"; exc = none }
    ∷ []

emitted_lem_example :
    (length (emit_each records (init 2)).entries ≤ (emit_each records (init 2)).capacity)
    × (drain open_filter (emit_each records (init 2)) 1 2 0
        ≡ pending open_filter 0 (emit_each records (init 2)).entries)
emitted_lem_example = emitted_lem 2 records open_filter 1 2 0 (unfold program in omega arith)

-- The two records that are left.
abbrev left : Ring
left = record {
  capacity = 2;
  entries =
      record { id = 2; ts = 2; level = "INFO"; logger = "n"; message = "y"; exc = none }
      ∷ record { id = 3; ts = 3; level = "INFO"; logger = "n"; message = "z"; exc = none }
      ∷ [];
  next_id = 4;
}
