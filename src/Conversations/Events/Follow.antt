-- ===== src/Conversations/Events/Follow.antt =====
-- handlers/conversations_service.py, `get_events`: a client that follows the numbers of its token.
use astrbot_plugin_webchat_g.Prelude.{
  ℕ, zero, suc, ◌+◌, ◌-◌, ◌≤◌, ◌<◌, ◌≡◌, refl, sym, ap, ◌∙◌, String, Bool, true, false, List, [],
  ◌∷◌, ◌&&◌, ◌||◌, ◌==◌, if◌then◌else◌, text_key, number_key, ltb, length, arith, Bool-cases, inl,
  inr, lt→ltb,
}
use astrbot_plugin_webchat_g.Prelude.Int.{pos}
use astrbot_plugin_webchat_g.Storage.Rows.{UpdateRow}
use astrbot_plugin_webchat_g.Storage.Sql.{limit_rows}
use astrbot_plugin_webchat_g.Storage.Updates.Log.{log_of, IsLog, last_pts, max_pts-log_of}
use astrbot_plugin_webchat_g.EventBus.{EventBus}
use astrbot_plugin_webchat_g.Conversations.Events.{
  EventsResult, polled, far, is_empty, starts_beyond, final_pts, answer_events, get_events,
}
use astrbot_plugin_webchat_g.Conversations.Events.Gaps.{
  above, seen, AreNumbered, seen_lem, get_updates-seen,
}

numbered-limit : (n m : ℕ) (l : List UpdateRow) → AreNumbered m l → AreNumbered m (limit_rows n l)
numbered-limit zero m l h = tt
numbered-limit (suc n) m [] h = tt
numbered-limit (suc n) m (x ∷ l) h = (h.0, numbered-limit n (m + 1) l h.1)

numbered-final : (n : ℕ) (l : List UpdateRow) → AreNumbered (n + 1) l → final_pts n l ≡ n + length l
numbered-final n [] h = omega arith
numbered-final n (x ∷ l) h = rw h.0 (numbered-final (n + 1) l h.1 ∙ omega arith)

limit-starts :
    (since : ℕ) (l : List UpdateRow)
    → starts_beyond since (limit_rows 100 l) ≡ starts_beyond since l
limit-starts since [] = refl
limit-starts since (x ∷ l) = refl

limit-is_empty : (l : List UpdateRow) → is_empty (limit_rows 100 l) ≡ is_empty l
limit-is_empty [] = refl
limit-is_empty (x ∷ l) = refl

-- What an answer without a gap gives: the next events, and the number of the last.
abbrev pub next_events : ℕ → List UpdateRow → EventsResult
next_events since l =
    let rows : List UpdateRow = limit_rows 100 (above since l) in
    record {
      events = rows;
      last_pts = since + length rows;
      has_more = length rows == 100;
      too_far = false;
    }

-- The client is told to read anew: it is ahead of the log, or events behind its number are gone.
abbrev pub is_told : ℕ → List UpdateRow → Bool
is_told since l = ltb (last_pts l) since || ltb 0 since && starts_beyond since (seen since l)

answer_events_lem :
    (since top : ℕ) (rows : List UpdateRow)
    → AreNumbered (since + 1) rows
    → since ≤ top
    → (is_empty rows ≡ true → top ≤ since)
    → answer_events since rows top ≡ record {
      events = rows;
      last_pts = since + length rows;
      has_more = length rows == 100;
      too_far = false;
    }
unfolding answer_events
answer_events_lem since top [] n low head =
    let same : top ≡ since + 0 = omega (arith, low, head refl) in
    let ahead : ltb top since ≡ false = ground (arith, low) in
    let behind : ltb 1000 (top - since) ≡ false = ground (arith, head refl) in
    rw (ahead, behind) (ap nothing_at same)
  where
    nothing_at : ℕ → EventsResult
    nothing_at k = record { events = []; last_pts = k; has_more = false; too_far = false }
answer_events_lem since top (r ∷ rows) n low head = ap some_at (numbered-final since (r ∷ rows) n)
  where
    some_at : ℕ → EventsResult
    some_at k = record {
      events = r ∷ rows;
      last_pts = k;
      has_more = length (r ∷ rows) == 100;
      too_far = false;
    }

and_no : (b : Bool) → (b && false) ≡ false
and_no true = refl
and_no false = refl

module _ (token : String) (since : ℕ) (bus : EventBus) (t t' : List UpdateRow) where
  abbrev pub log : List UpdateRow
  log = log_of token t

  pub follow_lem :
      IsLog log
      → 0 < since
      → (is_empty (seen since log) ≡ true → last_pts log ≤ since)
      → (get_events token (pos since) false bus t t'
          ≡ polled (if is_told since log then far (last_pts log) else next_events since log))
        × AreNumbered (since + 1) (if is_told since log then [] else (next_events since log).events)
  unfolding get_events
  follow_lem h some_since head = elim (Bool-cases (ltb (last_pts log) since)) [
    | inl ahead ↦ rw (max_pts-log_of token t, ahead) (refl, tt)
    | inr reached ↦
        let started : ltb 0 since ≡ true = lt→ltb 0 since some_since in
        elim (Bool-cases (starts_beyond since (seen since log))) [
          | inl gap ↦
              rw
                (
                  max_pts-log_of token t,
                  get_updates-seen token since t h,
                  limit-starts since (seen since log),
                  reached,
                  started,
                  gap,
                )
                (refl, tt)
          | inr near ↦
              let (all, numbered) = seen_lem since log h near head in
              let rows : List UpdateRow = limit_rows 100 (above since log) in
              let answer =
                answer_events_lem since (last_pts log) rows
                  (numbered-limit 100 (since + 1) _ numbered) (ground (arith, reached))
                  (λ e. head (ap is_empty all ∙ sym (limit-is_empty (above since log)) ∙ e)) in
              rw
                (
                  max_pts-log_of token t,
                  get_updates-seen token since t h,
                  limit-starts since (seen since log),
                  reached,
                  started,
                  near,
                  and_no (is_empty (limit_rows 100 (seen since log))),
                  all,
                  answer,
                )
                (refl, numbered-limit 100 (since + 1) _ numbered)
        ]
  ]
