-- ===== src/Conversations/Events/Drain.antt =====
-- handlers/conversations_service.py, `get_events`: a client that asks again while there is more.
use astrbot_plugin_webchat_g.Prelude.{
  ℕ, zero, suc, ◌+◌, ◌-◌, ◌≤◌, ◌<◌, ◌⊎◌, ◌≡◌, refl, sym, subst, ap, ◌∙◌, String, true, false, List,
  [], ◌∷◌, ◌++◌, ◌==◌, if◌then◌else◌, number_key, ltb, length, max, arith, All, Bool-cases, inl,
  inr, nat_beq_iff,
}
use astrbot_plugin_webchat_g.Prelude.Int.{pos}
use astrbot_plugin_webchat_g.Storage.Rows.{UpdateRow}
use astrbot_plugin_webchat_g.Storage.Sql.{limit_rows, offset_rows}
use astrbot_plugin_webchat_g.Storage.Sql.Order.{limit-offset}
use astrbot_plugin_webchat_g.Storage.Sql.Select.{select_all}
use astrbot_plugin_webchat_g.Storage.Updates.Log.{log_of, IsLog, last_pts}
use astrbot_plugin_webchat_g.Storage.Updates.Prune.{last_pts-select-le}
use astrbot_plugin_webchat_g.EventBus.{EventBus}
use astrbot_plugin_webchat_g.Conversations.Events.{
  polled, invalid_since, too_many_waiters, far, is_empty, starts_beyond, get_events,
}
use astrbot_plugin_webchat_g.Conversations.Events.Gaps.{above, seen, AreNumbered, seen-within}
use astrbot_plugin_webchat_g.Conversations.Events.Follow.{next_events, is_told, follow_lem}

-- The events that a client gets in at most `n` requests, from the number that it has.
unfoldable pub drain : ℕ → String → ℕ → EventBus → List UpdateRow → List UpdateRow
drain zero token since bus t = []
drain (suc n) token since bus t = elim (get_events token (pos since) false bus t t) [
  | polled r ↦
      let rest = drain n token r.last_pts bus t in if r.has_more then r.events ++ rest else r.events
  | invalid_since ↦ []
  | too_many_waiters ↦ []
]

-- The number is of the log: not before its first row and not after its last.
abbrev pub IsWithin : ℕ → List UpdateRow → Type 0
IsWithin since [] = ⊥
IsWithin since (x ∷ l) = (x.pts ≤ since) × (since ≤ last_pts (x ∷ l))

none_left : (since : ℕ) (l : List UpdateRow) → is_empty (above since l) ≡ true → last_pts l ≤ since
none_left since [] e = omega arith
none_left since (x ∷ l) e = elim (Bool-cases (ltb since x.pts)) [
  | inl over ↦ absurd (ground (arith, e, over))
  | inr under ↦
      let rest =
        none_left since l
          (subst (λ b. is_empty (if b then x ∷ above since l else above since l) ≡ true) under e) in
      ground (arith, rest, under)
]

numbered_near :
    (since : ℕ) (l : List UpdateRow) → AreNumbered (since + 1) l → starts_beyond since l ≡ false
numbered_near since [] h = refl
numbered_near since (x ∷ l) h = ground (arith, h.0)

within-seen :
    (since : ℕ) (l : List UpdateRow)
    → IsLog l
    → IsWithin since l
    → (seen since l ≡ above since l)
      × AreNumbered (since + 1) (above since l)
      × (since ≤ last_pts l)
within-seen since [] h w = absurd w
within-seen since (x ∷ l) h w =
    let (all, numbered) = seen-within since x l h w.0 in (all, numbered, w.1)

numbered-last :
    (since : ℕ) (l : List UpdateRow)
    → AreNumbered (since + 1) l
    → since + length l ≤ max since (last_pts l)
numbered-last since [] h = omega arith
numbered-last since (x ∷ l) h = omega (arith, h.0, numbered-last (since + 1) l h.1)

numbered_over :
    (n m : ℕ) (l : List UpdateRow) → n < m → AreNumbered m l → All (λ r. ltb n r.pts ≡ true) l
numbered_over n m [] low h = tt
numbered_over n m (x ∷ l) low h =
    (ground (arith, h.0, low), numbered_over n (m + 1) l (omega (arith, low)) h.1)

-- After `k` events of a numbered list comes what is above the number of the last.
offset-above :
    (k since : ℕ) (l : List UpdateRow)
    → AreNumbered (since + 1) l
    → above (since + k) l ≡ offset_rows k l
offset-above zero since l h =
    let same : since ≡ since + 0 = omega arith in
    subst (λ n. above n l ≡ l) same
      (select_all (λ r. ltb since r.pts) l (numbered_over since (since + 1) l (omega arith) h))
offset-above (suc k) since [] h = refl
offset-above (suc k) since (x ∷ l) h =
    let under : ltb (since + suc k) x.pts ≡ false = ground (arith, h.0) in
    let next : since + 1 + k ≡ since + suc k = omega arith in
    rw under (subst (λ n. above n l ≡ offset_rows k l) next (offset-above k (since + 1) l h.1))

above-above :
    (since k : ℕ) (l : List UpdateRow) → above (since + k) (above since l) ≡ above (since + k) l
above-above since k [] = refl
above-above since k (x ∷ l) = ground (arith, above-above since k l)

length-offset : (k : ℕ) (l : List UpdateRow) → length (offset_rows k l) ≡ length l - k
length-offset zero l = omega arith
length-offset (suc k) [] = omega arith
length-offset (suc k) (x ∷ l) = omega (arith, length-offset k l)

-- A full page, or all.
limit_cases :
    (k : ℕ) (l : List UpdateRow)
    → ((length (limit_rows k l) ≡ k) × (k ≤ length l)) ⊎ (limit_rows k l ≡ l)
limit_cases zero l = inl (refl, omega arith)
limit_cases (suc k) [] = inr refl
limit_cases (suc k) (x ∷ l) = elim (limit_cases k l) [
  | inl full ↦ inl (omega (arith, full.0), omega (arith, full.1))
  | inr all ↦ inr (ap (λ r. x ∷ r) all)
]

full_page : (k : ℕ) (l : List UpdateRow) → length (limit_rows k l) ≡ k → k ≤ length l
full_page k l e = elim (limit_cases k l) [
  | inl full ↦ full.1
  | inr all ↦ omega (arith, e, ap length all)
]

short_page :
    (k : ℕ) (l : List UpdateRow) → (length (limit_rows k l) == k) ≡ false → limit_rows k l ≡ l
short_page k l e = elim (limit_cases k l) [
  | inl full ↦ absurd (ground (arith, e, nat_beq_iff (length (limit_rows k l)) k, full.0))
  | inr all ↦ all
]

-- From a number of the log, the number after a full page is one too.
IsWithin-next :
    (since k : ℕ) (l : List UpdateRow)
    → IsLog l
    → IsWithin since l
    → k ≤ length (above since l)
    → IsWithin (since + k) l
IsWithin-next since k [] h w full = absurd w
IsWithin-next since k (x ∷ l) h w full =
    let (all, numbered, low) = within-seen since (x ∷ l) h w in
    (
      omega (arith, w.0),
      omega (
        arith,
        numbered-last since (above since (x ∷ l)) numbered,
        last_pts-select-le (λ r. ltb since r.pts) (x ∷ l),
        full,
        low,
      ),
    )

module _ (token : String) (bus : EventBus) (t : List UpdateRow) where
  -- A client within the log is not told to read anew, and gets what is next.
  within_lem :
      (since : ℕ)
      → IsLog (log_of token t)
      → 0 < since
      → IsWithin since (log_of token t)
      → get_events token (pos since) false bus t t ≡ polled (next_events since (log_of token t))
  within_lem since h some_since w =
      let l : List UpdateRow = log_of token t in
      let (all, numbered, low) = within-seen since l h w in
      let near : starts_beyond since (seen since l) ≡ false =
        ap (starts_beyond since) all ∙ numbered_near since (above since l) numbered in
      let quiet : is_told since l ≡ false = ground (arith, near, low) in
      let answer =
        follow_lem token since bus t t h some_since
          (λ e. none_left since l (ap is_empty (sym all) ∙ e)) in
      subst
        (λ b.
          get_events token (pos since) false bus t t
          ≡ polled (if b then far (last_pts l) else next_events since l))
        quiet answer.0

  pub drain_lem :
      (n since : ℕ)
      → IsLog (log_of token t)
      → 0 < since
      → IsWithin since (log_of token t)
      → length (above since (log_of token t)) < n
      → drain n token since bus t ≡ above since (log_of token t)
  unfolding drain
  drain_lem zero since h some_since w enough = absurd (omega (arith, enough))
  drain_lem (suc n) since h some_since w enough =
      let l : List UpdateRow = log_of token t in
      let rows : List UpdateRow = limit_rows 100 (above since l) in
      let (all, numbered, low) = within-seen since l h w in
      elim (Bool-cases (length rows == 100)) [
        | inl more ↦
            let full : length rows ≡ 100 = (nat_beq_iff (length rows) 100).0 more in
            let many : 100 ≤ length (above since l) = full_page 100 (above since l) full in
            let next : above (since + 100) l ≡ offset_rows 100 (above since l) =
              sym (above-above since 100 l) ∙ offset-above 100 since (above since l) numbered in
            let fewer : length (above (since + 100) l) < n =
              omega (arith, ap length next, length-offset 100 (above since l), enough, many) in
            rw (drain, within_lem since h some_since w, more, full)
              (ap (λ r. rows ++ r)
                  (drain_lem n (since + 100) h (omega arith) (IsWithin-next since 100 l h w many)
                      fewer
                    ∙ next)
                ∙ limit-offset 100 (above since l))
        | inr done ↦
            rw (drain, within_lem since h some_since w, done) (short_page 100 (above since l) done)
      ]
