-- ===== src/FileLifecycle/Commits.antt =====
-- core/file_lifecycle.py, `commit_attachments_or_release`: both of its ends.
use astrbot_plugin_webchat_g.Prelude.{
  ℕ, ap, ◌≡◌, refl, ◌∙◌, String, Bool, true, false, not, ◌&&◌, Option, none, some, List, [], ◌∷◌,
  if◌then◌else◌, text_key, arith, eq_iff, All, All-map, Bool-cases, inl, inr,
}
use astrbot_plugin_webchat_g.Storage.Rows.{FileRow}
use astrbot_plugin_webchat_g.Storage.Sql.Find.{find-holds}
use astrbot_plugin_webchat_g.Storage.Files.{
  has_id, contains, get_file, mark_files_committed, get_file-mark,
}
use astrbot_plugin_webchat_g.FileLifecycle.{
  Files, Answers, is_nil, ids_of, commit_attachments_or_release,
}
use astrbot_plugin_webchat_g.FileLifecycle.Anchors.{
  IsAnchor, IsAnchored, AreCurrent, release_keeps_anchors,
}

-- The row of a file after the update.
abbrev marked : List String → ℕ → Option FileRow → Option FileRow
marked ids now none = none
marked ids now (some row) = some (
    if contains ids row.file_id && not row.committed
    then record row { committed = true; committed_at = some now }
    else row)

found_id :
    (id : String) (t : List FileRow) (row : FileRow) → get_file id t ≡ some row → row.file_id ≡ id
unfolding get_file
found_id id t row e = (eq_iff row.file_id id).0 (find-holds (has_id id) t row e)

-- The row of a file is committed.
abbrev pub is_committed : Option FileRow → Bool
is_committed none = true
is_committed (some row) = row.committed

abbrev pub all_committed : List String → List FileRow → Bool
all_committed [] t = true
all_committed (id ∷ ids) t = is_committed (get_file id t) && all_committed ids t

marked-is_committed :
    (ids : List String) (now : ℕ) (id : String) (o : Option FileRow)
    → contains ids id ≡ true
    → ((row : FileRow) → o ≡ some row → row.file_id ≡ id)
    → is_committed (marked ids now o) ≡ true
marked-is_committed ids now id none h at = refl
marked-is_committed ids now id (some row) h at = elim (Bool-cases row.committed) [
  | inl done ↦ ground (arith, done)
  | inr waits ↦ ground (arith, waits, h, at row refl)
]

-- Every identifier of a part of the list is marked.
marked-all_committed :
    (ids part : List String) (now : ℕ) (t : List FileRow)
    → All (λ id. contains ids id ≡ true) part
    → all_committed part (mark_files_committed ids now t).1 ≡ true
marked-all_committed ids [] now t h = refl
marked-all_committed ids (id ∷ part) now t h =
    rw
      (
        get_file-mark ids now t id,
        marked-is_committed ids now id (get_file id t) h.0 (λ row e. found_id id t row e),
        marked-all_committed ids part now t h.1,
      )
      refl

contains_self : (ids : List String) → All (λ id. contains ids id ≡ true) ids
contains_self [] = tt
contains_self (i ∷ ids) = (
  ground (arith, eq_iff i i),
  All-map (λ id. contains ids id ≡ true) (λ id. contains (i ∷ ids) id ≡ true)
      (λ id h. ground (arith, h)) ids (contains_self ids),
)

marked-anchored :
    (ids : List String) (now : ℕ) (t : List FileRow) (key : String)
    → IsAnchor [] [] t key
    → IsAnchor [] [] (mark_files_committed ids now t).1 key
marked-anchored ids now t key (id, row, at, points, out, kept) =
    let p : Bool = contains ids row.file_id && not row.committed in
    (
      id,
      if p then record row { committed = true; committed_at = some now } else row,
      get_file-mark ids now t id ∙ ap (marked ids now) at,
      elim (Bool-cases p) [ inl given ↦ rw given points | inr other ↦ rw other points ],
      refl,
      refl,
    )

nil_committed :
    (rows : List FileRow) (t : List FileRow)
    → is_nil rows ≡ true
    → not (all_committed (ids_of rows) t) ≡ false
nil_committed [] t h = refl
nil_committed (row ∷ rows) t h = absurd (ground (arith, h))

module _ (a : Answers) (rows : List FileRow) (now : ℕ) (s : Files) where
  -- If every stored object has a row of the table that points at it, and the given rows agree with
  -- the table on the object's key, this holds after `commit_attachments_or_release`, and where it
  -- says that it committed, every given file that is in the table is committed.
  pub commit_lem :
      AreCurrent s.rows rows
      → IsAnchored s
      → IsAnchored (commit_attachments_or_release a rows now s).2
        × (((commit_attachments_or_release a rows now s).0
              && not
                  (all_committed (ids_of rows) (commit_attachments_or_release a rows now s).2.rows))
            ≡ false)
  unfolding commit_attachments_or_release
  commit_lem current anchored = elim (Bool-cases (is_nil rows)) [
    | inl empty ↦ rw empty (anchored, nil_committed rows s.rows empty)
    | inr some_rows ↦ elim (Bool-cases a.mark_raises) [
      | inl raised ↦
          rw (some_rows, raised) (release_keeps_anchors a true rows s current anchored, refl)
      | inr done ↦
          rw (some_rows, done)
            (
              All-map (IsAnchor [] [] s.rows)
                  (IsAnchor [] [] (mark_files_committed (ids_of rows) now s.rows).1)
                  (λ key x. marked-anchored (ids_of rows) now s.rows key x) s.objects anchored,
              rw
                  (marked-all_committed (ids_of rows) (ids_of rows) now s.rows
                    (contains_self (ids_of rows)))
                  refl,
            )
    ]
  ]
