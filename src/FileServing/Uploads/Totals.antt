-- ===== src/FileServing/Uploads/Totals.antt =====
-- handlers/files.py, the upload: the total of a token when a row comes or goes.
use astrbot_plugin_webchat_g.Prelude.{
  ◌+◌, ◌≤◌, ◌≡◌, refl, String, List, [], ◌∷◌, ◌++◌, ◌==◌, if◌then◌else◌, text_key, number_key,
  Bool-cases, inl, inr, arith,
}
use astrbot_plugin_webchat_g.Storage.Rows.{FileRow}
use astrbot_plugin_webchat_g.Storage.Files.{total_size_for_token, delete_files_by_ids, contains}

pub total-delete-le :
    (m : String) (ids : List String) (t : List FileRow)
    → total_size_for_token m (delete_files_by_ids ids t).1 ≤ total_size_for_token m t
unfolding total_size_for_token delete_files_by_ids
total-delete-le m ids [] = omega arith
total-delete-le m ids (row ∷ t) =
    let ih = total-delete-le m ids t in
    elim (Bool-cases (contains ids row.file_id)) [
      | inl out ↦ elim (Bool-cases (row.token_name == m)) [
        | inl own ↦ rw (out, own) (omega (arith, ih))
        | inr other ↦ rw (out, other) ih
      ]
      | inr stays ↦ elim (Bool-cases (row.token_name == m)) [
        | inl own ↦ rw (stays, own) (omega (arith, ih))
        | inr other ↦ rw (stays, other) ih
      ]
    ]

pub total-append :
    (m : String) (row : FileRow) (t : List FileRow)
    → total_size_for_token m (t ++ (row ∷ []))
      ≡ total_size_for_token m t + (if row.token_name == m then row.size_bytes else 0)
unfolding total_size_for_token
total-append m row [] = elim (Bool-cases (row.token_name == m)) [
  | inl own ↦ rw own (omega arith)
  | inr other ↦ rw other refl
]
total-append m row (r ∷ t) =
    let ih = total-append m row t in
    elim (Bool-cases (r.token_name == m)) [
      | inl own ↦ rw own (omega (arith, ih))
      | inr other ↦ rw other ih
    ]
