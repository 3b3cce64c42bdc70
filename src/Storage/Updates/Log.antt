-- ===== src/Storage/Updates/Log.antt =====
-- storage/sqlite_backend.py, `webchat_updates`: the log of one token, without a gap.
use astrbot_plugin_webchat_g.Prelude.{
  ℕ, ◌+◌, ◌≤◌, ◌≡◌, refl, subst, String, Bool, true, false, not, List, [], ◌∷◌, ◌++◌, ◌==◌,
  text_key, number_key, select, max, arith, eq_iff, All, append-nil, Bool-cases, inl, inr,
  select-append,
}
use astrbot_plugin_webchat_g.Storage.Rows.{UpdateRow, NewEvent}
use astrbot_plugin_webchat_g.Storage.Sql.Select.{select-All}
use astrbot_plugin_webchat_g.Storage.Updates.{owned, get_max_pts, is_marker, event_row}
use astrbot_plugin_webchat_g.Storage.Updates.Append.{event_rows}

-- The rows of a token.
abbrev pub log_of : String → List UpdateRow → List UpdateRow
log_of token t = select (owned token) t

-- The numbers of the rows are consecutive, their times do not go back, and only the first row may be
-- a marker.
abbrev pub IsLog : List UpdateRow → Type 0
IsLog [] = Unit
IsLog (x ∷ []) = Unit
IsLog (x ∷ y ∷ rows) =
    (y.pts ≡ x.pts + 1) × (x.ts ≤ y.ts) × (is_marker y ≡ false) × IsLog (y ∷ rows)

-- The largest number in a log.
abbrev pub last_pts : List UpdateRow → ℕ
last_pts [] = 0
last_pts (x ∷ rows) = max x.pts (last_pts rows)

pub max_pts-log_of :
    (token : String) (t : List UpdateRow) → get_max_pts token t ≡ last_pts (log_of token t)
unfolding get_max_pts
max_pts-log_of token [] = refl
max_pts-log_of token (row ∷ t) = ground (arith, max_pts-log_of token t)

-- A time that no row is after.
abbrev pub IsBefore : ℕ → List UpdateRow → Type 0
IsBefore now l = All (λ r. r.ts ≤ now) l

pub event_rows-log :
    (token : String) (base now : ℕ) (events : List NewEvent)
    → log_of token (event_rows token base now events) ≡ event_rows token base now events
event_rows-log token base now [] = refl
event_rows-log token base now (ev ∷ events) =
    rw ((eq_iff token token).1 refl, event_rows-log token (base + 1) now events) refl

pub event_rows-other :
    (token other : String) (base now : ℕ) (events : List NewEvent)
    → (token == other) ≡ false
    → log_of other (event_rows token base now events) ≡ []
event_rows-other token other base now [] h = refl
event_rows-other token other base now (ev ∷ events) h =
    rw (h, event_rows-other token other (base + 1) now events h) refl

abbrev pub is_plain : NewEvent → Bool
is_plain ev = not (ev.event_type == "_pruned_marker")

-- Events behind one row.
behind-IsLog :
    (token : String) (now : ℕ) (x : UpdateRow) (events : List NewEvent)
    → All (λ ev. is_plain ev ≡ true) events
    → x.ts ≤ now
    → IsLog (x ∷ event_rows token x.pts now events)
behind-IsLog token now x [] p h = tt
behind-IsLog token now x (ev ∷ events) p h = (
  refl,
  h,
  ground (arith, p.0),
  behind-IsLog token now (event_row token (x.pts + 1) now ev) events p.1 (omega arith),
)

last_pts_tail :
    (x y : UpdateRow) (l : List UpdateRow)
    → y.pts ≡ x.pts + 1
    → last_pts (y ∷ l) ≡ last_pts (x ∷ y ∷ l)
last_pts_tail x y l e = omega (arith, e)

-- Events behind a log.
pub append-IsLog :
    (token : String) (now : ℕ) (l : List UpdateRow) (events : List NewEvent)
    → All (λ ev. is_plain ev ≡ true) events
    → IsLog l
    → IsBefore now l
    → IsLog (l ++ event_rows token (last_pts l) now events)
append-IsLog token now [] [] p h b = tt
append-IsLog token now [] (ev ∷ events) p h b =
    behind-IsLog token now (event_row token 1 now ev) events p.1 (omega arith)
append-IsLog token now (x ∷ []) events p h b =
    subst (λ n. IsLog (x ∷ event_rows token n now events)) (omega arith)
      (behind-IsLog token now x events p b.0)
append-IsLog token now (x ∷ y ∷ l) events p h b = (
  h.0,
  h.1,
  h.2,
  subst (λ n. IsLog (y ∷ (l ++ event_rows token n now events))) (last_pts_tail x y l h.0)
      (append-IsLog token now (y ∷ l) events p h.3 b.1),
)

-- The log of every token is a log after an append, at a time that no row is after.
pub append_updates-IsLog :
    (token other : String) (events : List NewEvent) (now : ℕ) (t : List UpdateRow)
    → All (λ ev. is_plain ev ≡ true) events
    → IsBefore now t
    → IsLog (log_of other t)
    → IsLog (log_of other (t ++ event_rows token (get_max_pts token t) now events))
append_updates-IsLog token other events now t p b h = elim (Bool-cases (token == other)) [
  | inl same ↦
      subst
        (λ o.
          IsLog (log_of o t)
          → IsLog (log_of o (t ++ event_rows token (get_max_pts token t) now events)))
        ((eq_iff token other).0 same)
        (λ h'.
          rw
            (
              select-append (owned token) t (event_rows token (get_max_pts token t) now events),
              event_rows-log token (get_max_pts token t) now events,
              max_pts-log_of token t,
            )
            (append-IsLog token now (log_of token t) events p h'
              (select-All (λ r. r.ts ≤ now) (owned token) t b)))
        h
  | inr differs ↦
      rw
        (
          select-append (owned other) t (event_rows token (get_max_pts token t) now events),
          event_rows-other token other (get_max_pts token t) now events differs,
          append-nil,
        )
        h
]
