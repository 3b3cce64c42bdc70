-- ===== src/Retention/Failing.antt =====
-- core/prune_orchestrator.py, `_run_data_prune`: the sweep over a session whose conversation could not
-- be cleared.
use astrbot_plugin_webchat_g.Prelude.{
  ℕ, ◌-◌, ◌≡◌, refl, subst, ap, ◌∙◌, String, Bool, true, false, not, List, [], ◌∷◌, ◌++◌, ◌&&◌,
  ◌==◌, text_key, number_key, ltb, select, arith, eq_iff, All, All-map, Bool-cases, inl, inr,
}
use astrbot_plugin_webchat_g.Storage.Rows.{SessionMetaRow, FileRow, DropMessageRow}
use astrbot_plugin_webchat_g.Storage.Sql.{find_where, AreApart, order_by, limit_rows, delete_where}
use astrbot_plugin_webchat_g.Storage.Sql.Find.{find-delete}
use astrbot_plugin_webchat_g.Storage.Sql.Order.{order_by-All, limit-All}
use astrbot_plugin_webchat_g.Storage.Sql.Select.{select-All, All-append, All-both, select-holds}
use astrbot_plugin_webchat_g.Storage.Sessions.{
  is_session, get_session_meta, is_excluded, is_past, has_files, prune_session_meta,
}
use astrbot_plugin_webchat_g.Storage.Files.{
  contains, once_each, is_older, is_orphan, is_purged, list_files_for_session, list_files_to_prune,
  list_files_for_purged_sessions,
}
use astrbot_plugin_webchat_g.Storage.Drop.{count_drop_file_references}
use astrbot_plugin_webchat_g.FileLifecycle.{is_nil, release_files_safely}
use astrbot_plugin_webchat_g.Retention.{
  Config, Tables, Services, in_pairs, filtered, release_drop_file, release_drop_files, is_drop,
  release_candidates, failed_sessions, candidates, run_data_prune,
}
use astrbot_plugin_webchat_g.Retention.Protection.{
  same_id, of_session, IsFree, release_candidates-Keeps,
}

once_each-All {κ} :
    (P : FileRow → Type κ) (seen : List String) (rows : List FileRow)
    → All P rows
    → All P (once_each seen rows)
once_each-All P seen [] h = tt
once_each-All P seen (row ∷ rows) h = elim (Bool-cases (contains seen row.file_id)) [
  | inl again ↦ rw again (once_each-All P seen rows h.1)
  | inr new ↦ rw new (h.0, once_each-All P (row.file_id ∷ seen) rows h.1)
]

-- The candidates are rows of the table.
to_prune-All {κ} :
    (P : FileRow → Type κ) (deleted_before uncommitted_before : ℕ) (sessions : List SessionMetaRow)
    (drops : List DropMessageRow) (t : List FileRow)
    → All P t
    → All P (list_files_to_prune deleted_before uncommitted_before 500 sessions drops t)
unfolding list_files_to_prune list_files_for_purged_sessions
to_prune-All P deleted_before uncommitted_before sessions drops t h =
    let orphans = order_by is_older (select (is_orphan uncommitted_before drops) t) in
    let purged = select (is_purged deleted_before sessions) t in
    once_each-All P [] (limit_rows 500 orphans ++ limit_rows 500 purged) (
      All-append P (limit_rows 500 orphans) (limit_rows 500 purged)
        (limit-All P 500 orphans (
          order_by-All P is_older (select (is_orphan uncommitted_before drops) t)
            (select-All P (is_orphan uncommitted_before drops) t h)))
        (limit-All P 500 purged (select-All P (is_purged deleted_before sessions) t h)))

drop_file-sessions :
    (sv : Services) (row : FileRow) (s : Tables)
    → (release_drop_file sv row s).sessions ≡ s.sessions
unfolding release_drop_file
drop_file-sessions sv row s = elim (Bool-cases (sv.count_raises row.file_id)) [
  | inl unknown ↦ rw (release_drop_file, unknown) refl
  | inr known ↦
      elim (Bool-cases (count_drop_file_references row.token_name row.file_id s.drops == 0)) [
        | inr named ↦ rw (release_drop_file, known, named) refl
        | inl unnamed ↦ rw (release_drop_file, known, unnamed) refl
      ]
]

drop_files-sessions :
    (sv : Services) (rows : List FileRow) (s : Tables)
    → (release_drop_files sv rows s).sessions ≡ s.sessions
unfolding release_drop_files
drop_files-sessions sv [] s = refl
drop_files-sessions sv (row ∷ rows) s =
    drop_files-sessions sv rows (release_drop_file sv row s) ∙ drop_file-sessions sv row s

release_candidates-sessions :
    (sv : Services) (rows : List FileRow) (s : Tables)
    → (release_candidates sv rows s).sessions ≡ s.sessions
unfolding release_candidates
release_candidates-sessions sv rows s =
    let chat = select (λ r. not (is_drop r)) rows in
    let drops = select is_drop rows in
    elim (Bool-cases (sv.answers.has_store && not (is_nil rows))) [
      | inr idle ↦ rw (release_candidates, idle) refl
      | inl runs ↦ elim (Bool-cases (is_nil chat)) [
        | inl none_ ↦ rw (release_candidates, runs, none_) (drop_files-sessions sv drops s)
        | inr some_chat ↦
            rw (release_candidates, runs, some_chat)
              (drop_files-sessions sv drops
                (record s { files = (release_files_safely sv.answers true chat s.files).1 }))
      ]
    ]

module _ (token session : String) where
  -- With distinct identifiers, a row of another session is free.
  others-IsFree :
      (t : List FileRow)
      → AreApart same_id t
      → All (λ x. of_session token session x ≡ false → IsFree token session t x) t
  others-IsFree [] u = tt
  others-IsFree (x ∷ t) u = (
    λ out. (
      ground (arith, out),
      All-map (λ y. same_id x y ≡ false)
          (λ y. (y.file_id == x.file_id && of_session token session y) ≡ false)
          (λ y e. ground (arith, e, eq_iff x.file_id y.file_id, eq_iff y.file_id x.file_id)) t u.0,
    ),
    All-map
        (λ y.
          (same_id x y ≡ false) × (of_session token session y ≡ false → IsFree token session t y))
        (λ y. of_session token session y ≡ false → IsFree token session (x ∷ t) y)
        (λ y e out. (ground (arith, e.0), e.1 out)) t
        (All-both (λ y. same_id x y ≡ false)
          (λ y. of_session token session y ≡ false → IsFree token session t y) t u.0
          (others-IsFree t u.1)),
  )

  not_failed :
      (failed : List (String × String)) (r : FileRow)
      → in_pairs failed token session ≡ true
      → not (in_pairs failed r.token_name r.session_id) ≡ true
      → of_session token session r ≡ false
  not_failed failed r f n = elim (Bool-cases (of_session token session r)) [
    | inr other ↦ other
    | inl own ↦
        let a : r.token_name ≡ token = ground (arith, own, eq_iff r.token_name token) in
        let b : r.session_id ≡ session =
          ground (arith, own, eq_iff r.token_name token, eq_iff r.session_id session) in
        absurd (
          ground (
            arith,
            f,
            subst (λ s. not (in_pairs failed token s) ≡ true) b
                (subst (λ t. not (in_pairs failed t r.session_id) ≡ true) a n),
          ))
  ]

  excluded :
      (failed : List (String × String)) (row : SessionMetaRow)
      → in_pairs failed token session ≡ true
      → is_session token session row ≡ true
      → is_excluded failed row ≡ true
  excluded [] row f own = f
  excluded ((t, s) ∷ failed) row f own = ground (
    arith,
    f,
    own,
    eq_iff t token,
    eq_iff s session,
    eq_iff row.token_name token,
    eq_iff row.token_name t,
    eq_iff row.session_id session,
    eq_iff row.session_id s,
    excluded failed row,
  )

  candidates-IsFree :
      (sv : Services) (c : Config) (now : ℕ) (s : Tables)
      → AreApart same_id s.files.rows
      → in_pairs (failed_sessions sv c now s) token session ≡ true
      → All (IsFree token session s.files.rows) (candidates sv c now s)
  unfolding candidates
  candidates-IsFree sv c now s u f =
      let failed = failed_sessions sv c now s in
      let rows =
        list_files_to_prune (now - c.deleted_meta_retention) (now - c.upload_orphan_retention) 500
          s.sessions s.drops s.files.rows in
      let free : FileRow → Type 0 =
        λ x. of_session token session x ≡ false → IsFree token session s.files.rows x in
      let kept : FileRow → Bool = λ r. not (in_pairs failed r.token_name r.session_id) in
      All-map (λ r. free r × (kept r ≡ true)) (IsFree token session s.files.rows)
        (λ r e. e.0 (not_failed failed r f e.1)) (filtered failed rows)
        (All-both free (λ r. kept r ≡ true) (filtered failed rows)
          (select-All free kept rows (
            to_prune-All free (now - c.deleted_meta_retention) (now - c.upload_orphan_retention)
              s.sessions s.drops s.files.rows (others-IsFree s.files.rows u)))
          (select-holds kept rows))

  all_kept :
      (failed : List (String × String)) (before : ℕ) (files : List FileRow)
      (sessions : List SessionMetaRow)
      → in_pairs failed token session ≡ true
      → All
          (λ (r : SessionMetaRow).
            is_session token session r ≡ true
            → (is_past r.deleted_at before && not (has_files files r) && not (is_excluded failed r))
              ≡ false)
          sessions
  all_kept failed before files [] f = tt
  all_kept failed before files (r ∷ sessions) f =
      (λ own. ground (arith, excluded failed r f own), all_kept failed before files sessions f)

  -- With no retention of the drop, and file rows with distinct identifiers: a session that is about to
  -- be purged and whose conversation could not be cleared has the row and the files after the sweep
  -- that it had before, whatever else fails.
  pub failed_session_stays :
      (sv : Services) (c : Config) (now : ℕ) (s : Tables)
      → c.drop_deleted_retention ≡ 0
      → AreApart same_id s.files.rows
      → in_pairs (failed_sessions sv c now s) token session ≡ true
      → (get_session_meta token session (run_data_prune sv c now s).sessions
          ≡ get_session_meta token session s.sessions)
        × (list_files_for_session token session (run_data_prune sv c now s).files.rows
            ≡ list_files_for_session token session s.files.rows)
  unfolding run_data_prune get_session_meta list_files_for_session prune_session_meta
  failed_session_stays sv c now s off u f =
      let failed = failed_sessions sv c now s in
      let s1 = release_candidates sv (candidates sv c now s) s in
      let keeps =
        release_candidates-Keeps token session sv (candidates sv c now s) s
          (candidates-IsFree sv c now s u f) in
      let idle : ltb 0 c.drop_deleted_retention ≡ false = ground (arith, off) in
      let gone : SessionMetaRow → Bool = λ row.
        is_past row.deleted_at (now - c.deleted_meta_retention)
        && not (has_files s1.files.rows row)
        && not (is_excluded failed row) in
      rw idle (
        ap (λ l. find_where (is_session token session) (delete_where gone l))
              (release_candidates-sessions sv (candidates sv c now s) s)
            ∙ find-delete (is_session token session) gone s.sessions
                (all_kept failed (now - c.deleted_meta_retention) s1.files.rows s.sessions f),
        ap (order_by is_older) keeps.0,
      )
