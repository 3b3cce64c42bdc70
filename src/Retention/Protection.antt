-- ===== src/Retention/Protection.antt =====
-- core/prune_orchestrator.py: a session whose conversation could not be cleared keeps its row and its
-- files.
use astrbot_plugin_webchat_g.Prelude.{
  ◌≡◌, refl, sym, subst, ◌∙◌, String, Bool, true, false, not, List, [], ◌∷◌, ◌&&◌, ◌==◌, text_key,
  number_key, select, arith, eq_iff, All, All-map, Bool-cases, inl, inr,
}
use astrbot_plugin_webchat_g.Storage.Rows.{FileRow}
use astrbot_plugin_webchat_g.Storage.Sql.Select.{
  select-All, select-holds, select-select, select_all, All-both,
}
use astrbot_plugin_webchat_g.Storage.Files.{contains, delete_files_by_ids}
use astrbot_plugin_webchat_g.Storage.Drop.{count_drop_file_references}
use astrbot_plugin_webchat_g.FileLifecycle.{
  Files, Answers, is_nil, without_repeats, delete_object, delete_objects, release_rows,
  release_files_safely,
}
use astrbot_plugin_webchat_g.FileLifecycle.Anchors.{deletion_cases, removal_cases}
use astrbot_plugin_webchat_g.Retention.{
  Tables, Services, release_drop_file, release_drop_files, is_drop, release_candidates,
}

-- Two rows with one identifier.
abbrev pub same_id : FileRow → FileRow → Bool
same_id r s = r.file_id == s.file_id

module _ (token session : String) where
  abbrev pub of_session : FileRow → Bool
  of_session r = r.token_name == token && r.session_id == session

  -- No row of the session has the identifier of the row.
  abbrev pub IsFree : List FileRow → FileRow → Type 0
  IsFree t row = All (λ r. (r.file_id == row.file_id && of_session r) ≡ false) t

  -- The rows of the session stay, and what was free stays free.
  abbrev pub Keeps : List FileRow → List FileRow → Type 0
  Keeps t t' =
      (select of_session t' ≡ select of_session t) × ((x : FileRow) → IsFree t x → IsFree t' x)

  Keeps-trans : (t u v : List FileRow) → Keeps t u → Keeps u v → Keeps t v
  Keeps-trans t u v a b = (b.0 ∙ a.0, λ x f. b.1 x (a.1 x f))

  not_contained :
      (ids : List String) (t : List FileRow)
      → All (λ id. All (λ (r : FileRow). (r.file_id == id && of_session r) ≡ false) t) ids
      → All (λ (r : FileRow). (contains ids r.file_id && of_session r) ≡ false) t
  not_contained [] t h = all_false t
    where
      all_false : (t : List FileRow) → All (λ (r : FileRow). (false && of_session r) ≡ false) t
      all_false [] = tt
      all_false (r ∷ t) = (refl, all_false t)
  not_contained (id ∷ ids) t h =
      All-map
        (λ r.
          ((r.file_id == id && of_session r) ≡ false)
          × ((contains ids r.file_id && of_session r) ≡ false))
        (λ r. (contains (id ∷ ids) r.file_id && of_session r) ≡ false)
        (λ r e. ground (arith, e.0, e.1, eq_iff r.file_id id, eq_iff id r.file_id)) t
        (All-both (λ r. (r.file_id == id && of_session r) ≡ false)
          (λ r. (contains ids r.file_id && of_session r) ≡ false) t h.0 (not_contained ids t h.1))

  delete-Keeps :
      (ids : List String) (t : List FileRow)
      → All (λ id. All (λ (r : FileRow). (r.file_id == id && of_session r) ≡ false) t) ids
      → Keeps t (delete_files_by_ids ids t).1
  unfolding delete_files_by_ids
  delete-Keeps ids t h = (
    select-select of_session (λ r. not (contains ids r.file_id)) t
        ∙ select_all (λ r. not (contains ids r.file_id)) (select of_session t)
            (All-map
              (λ r. ((contains ids r.file_id && of_session r) ≡ false) × (of_session r ≡ true))
              (λ r. not (contains ids r.file_id) ≡ true) (λ r e. ground (arith, e.0, e.1))
              (select of_session t)
              (All-both (λ r. (contains ids r.file_id && of_session r) ≡ false)
                (λ r. of_session r ≡ true) (select of_session t)
                (select-All (λ r. (contains ids r.file_id && of_session r) ≡ false) of_session t
                  (not_contained ids t h))
                (select-holds of_session t))),
    λ x f.
        select-All (λ r. (r.file_id == x.file_id && of_session r) ≡ false)
          (λ r. not (contains ids r.file_id)) t f,
  )

  object_rows : (a : Answers) (row : FileRow) (s : Files) → (delete_object a row s).1.rows ≡ s.rows
  unfolding delete_object
  object_rows a row s = elim (deletion_cases (a.deletion row.file_id)) [
    | inl e ↦ rw (delete_object, e) refl
    | inr (inl e) ↦ rw (delete_object, e) refl
    | inr (inr (inl e)) ↦ rw (delete_object, e) refl
    | inr (inr (inr e)) ↦ rw (delete_object, e) refl
  ]

  delete_objects-rows :
      (a : Answers) (rows : List FileRow) (s : Files) → (delete_objects a rows s).1.rows ≡ s.rows
  unfolding delete_objects
  delete_objects-rows a [] s = refl
  delete_objects-rows a (row ∷ rows) s =
      delete_objects-rows a rows (delete_object a row s).1 ∙ object_rows a row s

  -- The identifiers that are handed to the table are of the given rows.
  delete_objects-ids {κ} :
      (P : String → Type κ) (a : Answers) (rows : List FileRow) (s : Files)
      → All (λ (r : FileRow). P r.file_id) rows
      → All P (delete_objects a rows s).0
  unfolding delete_objects
  delete_objects-ids P a [] s h = tt
  delete_objects-ids P a (row ∷ rows) s h =
      let rest = delete_objects-ids P a rows (delete_object a row s).1 h.1 in
      elim (Bool-cases (delete_object a row s).0) [
        | inl gone ↦ rw gone (h.0, rest)
        | inr kept ↦ rw kept rest
      ]

  without_repeats-All {κ} :
      (P : FileRow → Type κ) (seen : List String) (rows : List FileRow)
      → All P rows
      → All P (without_repeats seen rows)
  unfolding without_repeats
  without_repeats-All P seen [] h = tt
  without_repeats-All P seen (row ∷ rows) h = elim (Bool-cases (contains seen row.file_id)) [
    | inl again ↦ rw again (without_repeats-All P seen rows h.1)
    | inr new ↦ rw new (h.0, without_repeats-All P (row.file_id ∷ seen) rows h.1)
  ]

  rows-Keeps :
      (a : Answers) (ids : List String) (s : Files) (t : List FileRow)
      → s.rows ≡ t
      → All (λ id. All (λ (r : FileRow). (r.file_id == id && of_session r) ≡ false) t) ids
      → Keeps t (release_rows a true ids s).1.rows
  unfolding release_rows
  rows-Keeps a ids s t same free =
      let stay : Keeps t s.rows = subst (Keeps t) (sym same) (refl, λ x f. f) in
      let gone : Keeps t (delete_files_by_ids ids s.rows).1 =
        subst (λ u. Keeps t (delete_files_by_ids ids u).1) (sym same) (delete-Keeps ids t free) in
      elim (Bool-cases (not (is_nil ids) && true)) [
        | inr skipped ↦ rw skipped stay
        | inl asked ↦ elim (removal_cases a.removal) [
          | inl e ↦ rw (asked, e) gone
          | inr (inl e) ↦ rw (asked, e) gone
          | inr (inr e) ↦ rw (asked, e) stay
        ]
      ]

  -- A release of rows that are not of the session.
  release-Keeps :
      (a : Answers) (rows : List FileRow) (s : Files)
      → All (IsFree s.rows) rows
      → Keeps s.rows (release_files_safely a true rows s).1.rows
  unfolding release_files_safely
  release-Keeps a rows s h =
      let once = without_repeats [] rows in
      let ids = (delete_objects a once s).0 in
      let free =
        delete_objects-ids
          (λ id. All (λ (r : FileRow). (r.file_id == id && of_session r) ≡ false) s.rows) a once s
          (without_repeats-All (IsFree s.rows) [] rows h) in
      elim (Bool-cases (is_nil once)) [
        | inl empty ↦ rw empty (refl, λ x f. f)
        | inr some_rows ↦ elim (Bool-cases a.has_store) [
          | inr no_store ↦ rw (some_rows, no_store) (refl, λ x f. f)
          | inl store ↦
              rw (some_rows, store)
                (rows-Keeps a ids (delete_objects a once s).1 s.rows (delete_objects-rows a once s)
                  free)
        ]
      ]

  module _ (sv : Services) where
    drop_file-Keeps :
        (row : FileRow) (s : Tables)
        → IsFree s.files.rows row
        → Keeps s.files.rows (release_drop_file sv row s).files.rows
    unfolding release_drop_file
    drop_file-Keeps row s f = elim (Bool-cases (sv.count_raises row.file_id)) [
      | inl unknown ↦ rw unknown (refl, λ x g. g)
      | inr known ↦
          elim (Bool-cases (count_drop_file_references row.token_name row.file_id s.drops == 0)) [
            | inr named ↦ rw (known, named) (refl, λ x g. g)
            | inl unnamed ↦
                rw (known, unnamed) (release-Keeps sv.answers (row ∷ []) s.files (f, tt))
          ]
    ]

    drop_files-Keeps :
        (rows : List FileRow) (s : Tables)
        → All (IsFree s.files.rows) rows
        → Keeps s.files.rows (release_drop_files sv rows s).files.rows
    unfolding release_drop_files
    drop_files-Keeps [] s f = (refl, λ x g. g)
    drop_files-Keeps (row ∷ rows) s f =
        let s1 = release_drop_file sv row s in
        let one = drop_file-Keeps row s f.0 in
        Keeps-trans s.files.rows s1.files.rows (release_drop_files sv rows s1).files.rows one (
          drop_files-Keeps rows s1
            (All-map (IsFree s.files.rows) (IsFree s1.files.rows) one.1 rows f.1))

    pub release_candidates-Keeps :
        (rows : List FileRow) (s : Tables)
        → All (IsFree s.files.rows) rows
        → Keeps s.files.rows (release_candidates sv rows s).files.rows
    unfolding release_candidates
    release_candidates-Keeps rows s f =
        elim (Bool-cases (sv.answers.has_store && not (is_nil rows))) [
          | inr idle ↦ rw idle (refl, λ x g. g)
          | inl runs ↦
              let chat = select (λ r. not (is_drop r)) rows in
              let drops = select is_drop rows in
              let drops_free = select-All (IsFree s.files.rows) is_drop rows f in
              elim (Bool-cases (is_nil chat)) [
                | inl none_ ↦ rw (runs, none_) (drop_files-Keeps drops s drops_free)
                | inr some_chat ↦
                    let one =
                      release-Keeps sv.answers chat s.files
                        (select-All (IsFree s.files.rows) (λ r. not (is_drop r)) rows f) in
                    let s1 : Tables = record s {
                      files = (release_files_safely sv.answers true chat s.files).1;
                    } in
                    rw (runs, some_chat)
                      (Keeps-trans s.files.rows s1.files.rows
                        (release_drop_files sv drops s1).files.rows one
                        (drop_files-Keeps drops s1 (
                          All-map (IsFree s.files.rows) (IsFree s1.files.rows) one.1 drops
                            drops_free)))
              ]
        ]
