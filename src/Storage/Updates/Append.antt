-- ===== src/Storage/Updates/Append.antt =====
-- storage/sqlite_backend.py, `append_updates`: the numbers of the events.
use astrbot_plugin_webchat_g.Prelude.{
  ℕ, zero, suc, ◌+◌, ◌≤◌, ◌≡◌, refl, sym, String, false, some, List, [], ◌∷◌, ◌++◌, if◌then◌else◌,
  text_key, number_key, arith, length, nat_beq_iff, All, All-map, append_assoc, append-nil, ap,
}
use astrbot_plugin_webchat_g.Storage.Rows.{UpdateRow, NewEvent}
use astrbot_plugin_webchat_g.Storage.Sql.Find.{find_absent}
use astrbot_plugin_webchat_g.Storage.Sql.Select.{append-All}
use astrbot_plugin_webchat_g.Storage.Updates.{
  owned, get_max_pts, is_at, event_row, insert_updates, append_updates,
}

-- The consecutive numbers after one.
abbrev pub numbers_after : ℕ → ℕ → List ℕ
numbers_after base zero = []
numbers_after base (suc n) = (base + 1) ∷ numbers_after (base + 1) n

-- The rows of the events under these numbers.
abbrev pub event_rows : String → ℕ → ℕ → List NewEvent → List UpdateRow
event_rows token base now [] = []
event_rows token base now (ev ∷ events) =
    event_row token (base + 1) now ev ∷ event_rows token (base + 1) now events

-- No row of the token is above a number.
abbrev pub IsBelow : String → ℕ → UpdateRow → Type 0
IsBelow token n row = (if owned token row then row.pts else 0) ≤ n

max-IsBelow : (token : String) (t : List UpdateRow) → All (IsBelow token (get_max_pts token t)) t
unfolding get_max_pts
max-IsBelow token [] = tt
max-IsBelow token (row ∷ rows) = (
  ground arith,
  All-map (IsBelow token (get_max_pts token rows)) (IsBelow token (get_max_pts token (row ∷ rows)))
      (λ r h. ground (arith, h)) rows (max-IsBelow token rows),
)

insert_updates_lem :
    (token : String) (base : ℕ) (events : List NewEvent) (now : ℕ) (t : List UpdateRow)
    → All (IsBelow token base) t
    → insert_updates token base events now t
      ≡ some (numbers_after base (length events), t ++ event_rows token base now events)
unfolding insert_updates
insert_updates_lem token base [] now t h = ap (λ u. some ([], u)) (sym (append-nil t))
insert_updates_lem token base (ev ∷ events) now t h =
    let free = find_absent (is_at token (base + 1)) t (
      All-map (IsBelow token base) (λ r. is_at token (base + 1) r ≡ false)
        (λ r b. ground (arith, b, nat_beq_iff r.pts (base + 1))) t h) in
    let row = event_row token (base + 1) now ev in
    let more = insert_updates_lem token (base + 1) events now (t ++ (row ∷ [])) (
      append-All (IsBelow token (base + 1)) t row
        (All-map (IsBelow token base) (IsBelow token (base + 1)) (λ r b. ground (arith, b)) t h)
        (ground arith)) in
    rw (free, more)
      (ap (λ u. some (numbers_after base (suc (length events)), u))
        (append_assoc t (row ∷ []) (event_rows token (base + 1) now events)))

-- An append never meets the primary key: it numbers the events from the maximum of the token on and
-- adds their rows behind the table.
pub append_lem :
    (token : String) (events : List NewEvent) (now : ℕ) (t : List UpdateRow)
    → append_updates token events now t
      ≡ some (
        numbers_after (get_max_pts token t) (length events),
        t ++ event_rows token (get_max_pts token t) now events,
      )
unfolding append_updates
append_lem token [] now t = ap (λ u. some ([], u)) (sym (append-nil t))
append_lem token (ev ∷ events) now t =
    rw
      (
        append_updates,
        insert_updates_lem token (get_max_pts token t) (ev ∷ events) now t (max-IsBelow token t),
      )
      refl
