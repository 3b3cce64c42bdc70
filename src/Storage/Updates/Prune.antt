-- ===== src/Storage/Updates/Prune.antt =====
-- storage/sqlite_backend.py, `prune_chat_sync` on the events: what is left of a log.
use astrbot_plugin_webchat_g.Prelude.{
  ℕ, ◌≤◌, ◌≡◌, refl, sym, subst, ap, ◌∙◌, String, Bool, true, false, not, List, [], ◌∷◌, ◌&&◌, ◌==◌,
  if◌then◌else◌, text_key, number_key, ltb, select, max, arith, eq_iff, nat_beq_iff, All, All-map,
  Bool-cases, inl, inr, if-true, if-false,
}
use astrbot_plugin_webchat_g.Storage.Rows.{UpdateRow}
use astrbot_plugin_webchat_g.Storage.Sql.{update_where}
use astrbot_plugin_webchat_g.Storage.Sql.Find.{update_absent}
use astrbot_plugin_webchat_g.Storage.Sql.Select.{
  select-update, select-select, select_same, update_same, select-holds, select_all, select-All,
}
use astrbot_plugin_webchat_g.Storage.Updates.{
  owned, get_max_pts, is_marker, is_latest, marked, prune_events,
}
use astrbot_plugin_webchat_g.Storage.Updates.Log.{log_of, IsLog, last_pts, max_pts-log_of}

-- The rows from before a time are gone, but for a last one, which becomes a marker.
unfoldable pub trimmed : ℕ → List UpdateRow → List UpdateRow
trimmed before [] = []
trimmed before (x ∷ []) = (if ltb x.ts before && not (is_marker x) then marked x else x) ∷ []
trimmed before (x ∷ y ∷ l) =
    let rest = trimmed before (y ∷ l) in if ltb x.ts before then rest else x ∷ y ∷ l

abbrev keeps : ℕ → ℕ → UpdateRow → Bool
keeps before m row = not (ltb row.ts before && not (row.pts == m))

abbrev marks : ℕ → ℕ → UpdateRow → Bool
marks before m row = ltb row.ts before && not (is_marker row) && row.pts == m

-- Behind a row that is not old no row is.
later_young :
    (before : ℕ) (x : UpdateRow) (l : List UpdateRow)
    → ltb x.ts before ≡ false
    → IsLog (x ∷ l)
    → All (λ r. ltb r.ts before ≡ false) (x ∷ l)
later_young before x [] e h = (e, tt)
later_young before x (y ∷ l) e h = (e, later_young before y l (ground (arith, e, h.1)) h.3)

young-trim :
    (before m : ℕ) (l : List UpdateRow)
    → All (λ r. ltb r.ts before ≡ false) l
    → update_where (marks before m) marked (select (keeps before m) l) ≡ l
young-trim before m l y =
    rw
      (
        select_all (keeps before m) l (
            All-map (λ r. ltb r.ts before ≡ false) (λ r. keeps before m r ≡ true)
              (λ r e. ground (arith, e)) l y),
        update_absent (marks before m) marked l (
            All-map (λ r. ltb r.ts before ≡ false) (λ r. marks before m r ≡ false)
              (λ r e. ground (arith, e)) l y),
      )
      refl

last-trim :
    (before m : ℕ) (x : UpdateRow)
    → (x.pts == m) ≡ true
    → update_where (marks before m) marked (select (keeps before m) (x ∷ []))
      ≡ (if ltb x.ts before && not (is_marker x) then marked x else x) ∷ []
last-trim before m x e = elim (Bool-cases (ltb x.ts before)) [
  | inr young ↦ rw (young, young) refl
  | inl old ↦ rw (old, e, old, e) (and_true (is_marker x) (marked x) x)
]
  where
    and_true :
        (b : Bool) (r s : UpdateRow)
        → (if not b && true then r else s) ∷ [] ≡ (if not b then r else s) ∷ []
    and_true true r s = refl
    and_true false r s = refl

trim :
    (before : ℕ) (l : List UpdateRow)
    → IsLog l
    → update_where (marks before (last_pts l)) marked (select (keeps before (last_pts l)) l)
      ≡ trimmed before l
unfolding trimmed
trim before [] h = refl
trim before (x ∷ []) h =
    last-trim before (max x.pts 0) x ((nat_beq_iff x.pts (max x.pts 0)).1 (omega arith))
trim before (x ∷ y ∷ l) h = elim (Bool-cases (ltb x.ts before)) [
  | inr young ↦
      young-trim before (last_pts (x ∷ y ∷ l)) (x ∷ y ∷ l) (later_young before x (y ∷ l) young h)
      ∙ sym (if-false (ltb x.ts before) (trimmed before (y ∷ l)) (x ∷ y ∷ l) young)
  | inl old ↦
      let m : ℕ = last_pts (x ∷ y ∷ l) in
      let top : last_pts (y ∷ l) ≡ m = omega (arith, h.0) in
      let dropped : keeps before m x ≡ false = ground (arith, h.0, nat_beq_iff x.pts m, old) in
      let rest : List UpdateRow = select (keeps before m) (y ∷ l) in
      ap (λ r. update_where (marks before m) marked r)
        (if-false (keeps before m x) (x ∷ rest) rest dropped)
      ∙ subst
          (λ n.
            update_where (marks before n) marked (select (keeps before n) (y ∷ l))
            ≡ trimmed before (y ∷ l))
          top (trim before (y ∷ l) h.3)
      ∙ sym (if-true (ltb x.ts before) (trimmed before (y ∷ l)) (x ∷ y ∷ l) old)
]

pub last_pts-select-le :
    (p : UpdateRow → Bool) (l : List UpdateRow) → last_pts (select p l) ≤ last_pts l
last_pts-select-le p [] = omega arith
last_pts-select-le p (x ∷ l) = ground (arith, last_pts-select-le p l)

-- The largest number is kept.
last_pts-kept :
    (before m : ℕ) (l : List UpdateRow) → last_pts l ≡ m → last_pts (select (keeps before m) l) ≡ m
last_pts-kept before m [] e = e
last_pts-kept before m (x ∷ l) e = elim (Bool-cases (x.pts == m)) [
  | inl top ↦
      let few = last_pts-select-le (keeps before m) l in
      let at = (nat_beq_iff x.pts m).0 top in ground (arith, e, few, at, top)
  | inr low ↦ ground (arith, e, low, nat_beq_iff x.pts m, last_pts-kept before m l)
]

last_pts-marked :
    (before m : ℕ) (l : List UpdateRow)
    → last_pts (update_where (marks before m) marked l) ≡ last_pts l
last_pts-marked before m [] = refl
last_pts-marked before m (x ∷ l) = elim (Bool-cases (marks before m x)) [
  | inl b ↦ rw (b, last_pts-marked before m l) refl
  | inr b ↦ rw (b, last_pts-marked before m l) refl
]

module _ (token : String) (before : ℕ) (t : List UpdateRow) where
  abbrev pub the_last : ℕ
  the_last = last_pts (log_of token t)

  abbrev kept : List UpdateRow
  kept = select (keeps before the_last) (log_of token t)

  owned-is_latest :
      (u : List UpdateRow) (m : ℕ) (row : UpdateRow)
      → get_max_pts token u ≡ m
      → owned token row ≡ true
      → is_latest u row ≡ (row.pts == m)
  unfolding is_latest
  owned-is_latest u m row e o =
      let at : row.token_name ≡ token = (eq_iff row.token_name token).0 o in rw (at, e) refl

  -- The rows of the token that the first statement leaves.
  deleted-log :
      log_of token (select (λ row. not (ltb row.ts before && not (is_latest t row))) t) ≡ kept
  deleted-log =
      select-select (owned token) (λ row. not (ltb row.ts before && not (is_latest t row))) t
      ∙ select_same (λ row. not (ltb row.ts before && not (is_latest t row)))
          (keeps before the_last) (log_of token t)
          (All-map (λ r. owned token r ≡ true)
            (λ r. not (ltb r.ts before && not (is_latest t r)) ≡ keeps before the_last r)
            (λ r o. rw (owned-is_latest t the_last r (max_pts-log_of token t) o) refl)
            (log_of token t) (select-holds (owned token) t))

  -- The log of the token after both statements.
  pub prune_events-marks :
      log_of token (prune_events before t).1 ≡ update_where (marks before the_last) marked kept
  unfolding prune_events
  prune_events-marks =
      let t' : List UpdateRow =
        select (λ row. not (ltb row.ts before && not (is_latest t row))) t in
      let p : UpdateRow → Bool =
        λ row. ltb row.ts before && not (is_marker row) && is_latest t' row in
      let top : get_max_pts token t' ≡ the_last =
        max_pts-log_of token t'
        ∙ ap last_pts deleted-log
        ∙ last_pts-kept before the_last (log_of token t) refl in
      select-update (owned token) p marked t' (λ r. refl)
      ∙ ap (λ l. update_where p marked l) deleted-log
      ∙ update_same p (marks before the_last) marked kept (
          All-map (λ r. owned token r ≡ true) (λ r. p r ≡ marks before the_last r)
            (λ r o. rw (owned-is_latest t' the_last r top o) refl) kept
            (select-All (λ r. owned token r ≡ true) (keeps before the_last) (log_of token t)
              (select-holds (owned token) t)))

  -- A prune never lowers the maximum of a token, which the next event is numbered from.
  pub max_pts-prune : get_max_pts token (prune_events before t).1 ≡ get_max_pts token t
  max_pts-prune =
      max_pts-log_of token (prune_events before t).1
      ∙ ap last_pts prune_events-marks
      ∙ last_pts-marked before the_last kept
      ∙ last_pts-kept before the_last (log_of token t) refl
      ∙ sym (max_pts-log_of token t)

  -- A prune leaves of the log of every token its trimmed log.
  pub prune_events-log :
      IsLog (log_of token t)
      → log_of token (prune_events before t).1 ≡ trimmed before (log_of token t)
  prune_events-log h = prune_events-marks ∙ trim before (log_of token t) h
