-- ===== src/Conversations/Events/Gaps.antt =====
-- handlers/conversations_service.py, `get_events`: what a client that follows its number gets.
use astrbot_plugin_webchat_g.Prelude.{
  ℕ, ◌+◌, ◌≤◌, ◌<◌, ◌≡◌, refl, subst, ap, ◌∙◌, String, Bool, true, false, not, List, [], ◌∷◌, ◌&&◌,
  text_key, number_key, ltb, select, arith, All, All-map, Bool-cases, inl, inr, lt→ltb,
}
use astrbot_plugin_webchat_g.Storage.Rows.{UpdateRow}
use astrbot_plugin_webchat_g.Storage.Sql.{limit_rows, order_by, IsOrdered}
use astrbot_plugin_webchat_g.Storage.Sql.Order.{order_by-same, select-IsOrdered}
use astrbot_plugin_webchat_g.Storage.Sql.Select.{select_all, select_same, select-and}
use astrbot_plugin_webchat_g.Storage.Updates.{owned, get_updates, is_marker, is_earlier}
use astrbot_plugin_webchat_g.Storage.Updates.Log.{log_of, IsLog, last_pts}
use astrbot_plugin_webchat_g.Conversations.Events.{is_empty, starts_beyond}

-- The rows after a number, and those of them that a client sees.
abbrev pub above : ℕ → List UpdateRow → List UpdateRow
above since l = select (λ r. ltb since r.pts) l

abbrev pub seen : ℕ → List UpdateRow → List UpdateRow
seen since l = select (λ r. ltb since r.pts && not (is_marker r)) l

-- The rows have the numbers from `n` on.
abbrev pub AreNumbered : ℕ → List UpdateRow → Type 0
AreNumbered n [] = Unit
AreNumbered n (r ∷ rows) = (r.pts ≡ n) × AreNumbered (n + 1) rows

log-AreNumbered : (x : UpdateRow) (l : List UpdateRow) → IsLog (x ∷ l) → AreNumbered x.pts (x ∷ l)
log-AreNumbered x [] h = (refl, tt)
log-AreNumbered x (y ∷ l) h =
    (refl, subst (λ n. AreNumbered n (y ∷ l)) h.0 (log-AreNumbered y l h.3))

-- The rows behind a first one are above it and are no markers.
later_rows :
    (x : UpdateRow) (l : List UpdateRow)
    → IsLog (x ∷ l)
    → All (λ r. (x.pts < r.pts) × (is_marker r ≡ false)) l
later_rows x [] h = tt
later_rows x (y ∷ l) h = (
  (omega (arith, h.0), h.2),
  All-map (λ r. (y.pts < r.pts) × (is_marker r ≡ false))
      (λ r. (x.pts < r.pts) × (is_marker r ≡ false)) (λ r p. (omega (arith, p.0, h.0), p.1)) l
      (later_rows y l h.3),
)

seen-later :
    (since : ℕ) (x : UpdateRow) (l : List UpdateRow)
    → IsLog (x ∷ l)
    → (seen since l ≡ above since l) × (since ≤ x.pts → above since l ≡ l)
seen-later since x l h = (
  select_same (λ r. ltb since r.pts && not (is_marker r)) (λ r. ltb since r.pts) l
      (All-map (λ r. (x.pts < r.pts) × (is_marker r ≡ false))
        (λ r. (ltb since r.pts && not (is_marker r)) ≡ ltb since r.pts) (λ r p. ground (arith, p.1))
        l (later_rows x l h)),
  λ low.
      select_all (λ r. ltb since r.pts) l
        (All-map (λ r. (x.pts < r.pts) × (is_marker r ≡ false)) (λ r. ltb since r.pts ≡ true)
          (λ r p. lt→ltb since r.pts (omega (arith, p.0, low))) l (later_rows x l h)),
)

above-AreNumbered :
    (since : ℕ) (x : UpdateRow) (l : List UpdateRow)
    → IsLog (x ∷ l)
    → x.pts ≤ since
    → AreNumbered (since + 1) (above since l)
above-AreNumbered since x [] h low = tt
above-AreNumbered since x (y ∷ l) h low = elim (Bool-cases (ltb since y.pts)) [
  | inr under ↦ rw under (above-AreNumbered since y l h.3 (ground (arith, under)))
  | inl over ↦
      let next : y.pts ≡ since + 1 = ground (arith, over, h.0, low) in
      rw (over, (seen-later since y l h.3).1 (omega (arith, next)))
        (next, subst (λ n. AreNumbered (n + 1) l) next (log-AreNumbered y l h.3).1)
]

-- From a number that the log reaches back to, the client sees all that is after it.
pub seen-within :
    (since : ℕ) (x : UpdateRow) (l : List UpdateRow)
    → IsLog (x ∷ l)
    → x.pts ≤ since
    → (seen since (x ∷ l) ≡ above since (x ∷ l)) × AreNumbered (since + 1) (above since (x ∷ l))
seen-within since x l h low =
    let head : ltb since x.pts ≡ false = ground (arith, low) in
    rw head ((seen-later since x l h).0, above-AreNumbered since x l h low)

-- A hidden marker before the first event is a gap.
hidden_is_gap :
    (since : ℕ) (x : UpdateRow) (l : List UpdateRow)
    → IsLog (x ∷ l)
    → since < x.pts
    → starts_beyond since l ≡ false
    → is_empty l ≡ false
    → ⊥
hidden_is_gap since x [] h low near some_rows = ground (arith, some_rows)
hidden_is_gap since x (y ∷ l) h low near some_rows = ground (arith, near, low, h.0)

-- From before the log, it sees the next event only if that is the first of the log.
seen-before :
    (since : ℕ) (x : UpdateRow) (l : List UpdateRow)
    → IsLog (x ∷ l)
    → since < x.pts
    → starts_beyond since (seen since (x ∷ l)) ≡ false
    → is_empty (seen since (x ∷ l)) ≡ false
    → (seen since (x ∷ l) ≡ above since (x ∷ l)) × AreNumbered (since + 1) (above since (x ∷ l))
seen-before since x l h low near some_rows =
    let head : ltb since x.pts ≡ true = lt→ltb since x.pts low in
    let (tail_seen, tail_all) = seen-later since x l h in
    let whole : seen since l ≡ l = tail_seen ∙ tail_all (omega (arith, low)) in
    let all : above since (x ∷ l) ≡ x ∷ l = rw (head, tail_all (omega (arith, low))) refl in
    elim (Bool-cases (is_marker x)) [
      | inr plain ↦
          let shape : seen since (x ∷ l) ≡ x ∷ l = rw (head, plain, whole) refl in
          let near' = subst (λ v. starts_beyond since v ≡ false) shape near in
          let first : x.pts ≡ since + 1 = ground (arith, near', low) in
          rw (shape, all) (refl, subst (λ n. AreNumbered n (x ∷ l)) first (log-AreNumbered x l h))
      | inl marker ↦
          let shape : seen since (x ∷ l) ≡ l = rw (head, marker, whole) refl in
          absurd (
            hidden_is_gap since x l h low (subst (λ v. starts_beyond since v ≡ false) shape near)
              (subst (λ v. is_empty v ≡ false) shape some_rows))
    ]

-- Nothing is above the largest number.
none-above : (since : ℕ) (l : List UpdateRow) → last_pts l ≤ since → above since l ≡ []
none-above since [] h = refl
none-above since (x ∷ l) h =
    let low : ltb since x.pts ≡ false = ground (arith, h) in
    rw (low, none-above since l (omega (arith, h))) refl

-- What a client sees of a log without a reported gap and without hidden events is all of it.
pub seen_lem :
    (since : ℕ) (l : List UpdateRow)
    → IsLog l
    → starts_beyond since (seen since l) ≡ false
    → (is_empty (seen since l) ≡ true → last_pts l ≤ since)
    → (seen since l ≡ above since l) × AreNumbered (since + 1) (above since l)
seen_lem since [] h near head = (refl, tt)
seen_lem since (x ∷ l) h near head = elim (Bool-cases (is_empty (seen since (x ∷ l)))) [
  | inl nothing ↦ seen-within since x l h (omega (arith, head nothing))
  | inr some_rows ↦ elim (Bool-cases (ltb since x.pts)) [
    | inl over ↦ seen-before since x l h (ground (arith, over)) near some_rows
    | inr under ↦ seen-within since x l h (ground (arith, under))
  ]
]

log-IsOrdered : (l : List UpdateRow) → IsLog l → IsOrdered is_earlier l
log-IsOrdered [] h = tt
log-IsOrdered (x ∷ []) h = (tt, tt)
log-IsOrdered (x ∷ y ∷ l) h = (
  All-map (λ r. (x.pts < r.pts) × (is_marker r ≡ false)) (λ r. is_earlier r x ≡ false)
      (λ r p. ground (arith, p.0)) (y ∷ l) (later_rows x (y ∷ l) h),
  log-IsOrdered (y ∷ l) h.3,
)

-- The query reads what the client sees of the log of its token, from the front.
pub get_updates-seen :
    (token : String) (since : ℕ) (t : List UpdateRow)
    → IsLog (log_of token t)
    → get_updates token since 100 t ≡ limit_rows 100 (seen since (log_of token t))
unfolding get_updates
get_updates-seen token since t h =
    let sees : UpdateRow → Bool = λ r. ltb since r.pts && not (is_marker r) in
    ap (λ l. limit_rows 100 (order_by is_earlier l)) (select-and (owned token) sees t)
    ∙ ap (λ l. limit_rows 100 l)
        (order_by-same is_earlier (select sees (log_of token t))
          (select-IsOrdered is_earlier sees (log_of token t) (log-IsOrdered (log_of token t) h)))
