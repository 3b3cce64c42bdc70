-- ===== src/Storage/Updates.antt =====
-- storage/sqlite_backend.py, the table `webchat_updates`: the event log of each token, whose primary
-- key is (token_name, pts). `none` of a write is `IntegrityError`.
pub mod Append
pub mod Log
pub mod Prune
pub mod History
use astrbot_plugin_webchat_g.Prelude.{
  ℕ, ◌+◌, String, Bool, not, Option, none, some, List, [], ◌∷◌, ◌++◌, ◌&&◌, ◌==◌, if◌then◌else◌,
  text_key, number_key, is_some, ltb, select, max,
}
use astrbot_plugin_webchat_g.Storage.Rows.{UpdateRow, NewEvent}
use astrbot_plugin_webchat_g.Storage.Sql.{
  find_where, update_where, delete_where, count_where, limit_rows, order_by, clamp,
}

abbrev pub owned : String → UpdateRow → Bool
owned token row = row.token_name == token

-- `COALESCE(MAX(pts), 0)`
unfoldable pub get_max_pts : String → List UpdateRow → ℕ
get_max_pts token [] = 0
get_max_pts token (row ∷ rows) =
    let rest = get_max_pts token rows in if owned token row then max row.pts rest else rest

abbrev pub is_at : String → ℕ → UpdateRow → Bool
is_at token pts row = owned token row && row.pts == pts

abbrev pub event_row : String → ℕ → ℕ → NewEvent → UpdateRow
event_row token pts now ev = record {
  token_name = token;
  pts = pts;
  ts = now;
  event_type = ev.event_type;
  session_id = ev.session_id;
  payload = ev.payload;
}

abbrev pub with_number : ℕ → Option (List ℕ × List UpdateRow) → Option (List ℕ × List UpdateRow)
with_number pts none = none
with_number pts (some (assigned, t)) = some (pts ∷ assigned, t)

-- The loop over the events in one transaction, which is rolled back as a whole.
unfoldable pub insert_updates :
    String → ℕ → List NewEvent → ℕ → List UpdateRow → Option (List ℕ × List UpdateRow)
insert_updates token base [] now t = some ([], t)
insert_updates token base (ev ∷ events) now t =
    let rest =
      insert_updates token (base + 1) events now (t ++ (event_row token (base + 1) now ev ∷ [])) in
    if is_some (find_where (is_at token (base + 1)) t) then none else with_number (base + 1) rest

-- Two attempts, each from the maximum of then.
unfoldable pub append_updates :
    String → List NewEvent → ℕ → List UpdateRow → Option (List ℕ × List UpdateRow)
unfolding insert_updates get_max_pts
append_updates token [] now t = some ([], t)
append_updates token (ev ∷ events) now t =
    elim (insert_updates token (get_max_pts token t) (ev ∷ events) now t) [
      | none ↦ insert_updates token (get_max_pts token t) (ev ∷ events) now t
      | some done ↦ some done
    ]

abbrev pub is_marker : UpdateRow → Bool
is_marker row = row.event_type == "_pruned_marker"

abbrev pub visible : String → ℕ → UpdateRow → Bool
visible token since row = owned token row && (ltb since row.pts && not (is_marker row))

-- `ORDER BY pts ASC`
abbrev pub is_earlier : UpdateRow → UpdateRow → Bool
is_earlier r s = ltb r.pts s.pts

unfoldable pub get_updates : String → ℕ → ℕ → List UpdateRow → List UpdateRow
get_updates token since limit t =
    limit_rows (clamp 1 500 limit) (order_by is_earlier (select (visible token since) t))

-- `(token_name, pts) IN (SELECT token_name, MAX(pts) … GROUP BY token_name)`
unfoldable pub is_latest : List UpdateRow → UpdateRow → Bool
unfolding get_max_pts
is_latest t row = row.pts == get_max_pts row.token_name t

abbrev pub marked : UpdateRow → UpdateRow
marked row = record row { payload = "{}"; event_type = "_pruned_marker" }

-- The two statements of `prune_chat_sync` on the events: the count of deleted rows, and the table.
unfoldable pub prune_events : ℕ → List UpdateRow → ℕ × List UpdateRow
unfolding is_latest
prune_events before t =
    let gone : UpdateRow → Bool = λ row. ltb row.ts before && not (is_latest t row) in
    let t' = delete_where gone t in
    (
      count_where gone t,
      update_where (λ row. ltb row.ts before && not (is_marker row) && is_latest t' row) marked t',
    )
