-- ===== src/Conversations/Events/Pruned.antt =====
-- handlers/conversations_service.py, `get_events`, after a prune of all events of a token.
use astrbot_plugin_webchat_g.Prelude.{
  ℕ, ◌+◌, ◌-◌, ◌≤◌, ◌<◌, ◌≡◌, refl, sym, subst, ap, ◌∙◌, String, Bool, true, false, List, [], ◌∷◌,
  ◌&&◌, number_key, ltb, arith, All, Bool-cases, inl, inr, lt→ltb, text_key,
}
use astrbot_plugin_webchat_g.Prelude.Int.{pos}
use astrbot_plugin_webchat_g.Storage.Rows.{UpdateRow}
use astrbot_plugin_webchat_g.Storage.Sql.{limit_rows}
use astrbot_plugin_webchat_g.Storage.Updates.{
  get_max_pts, get_updates, is_marker, marked, prune_events,
}
use astrbot_plugin_webchat_g.Storage.Updates.Log.{log_of, IsLog, last_pts, max_pts-log_of}
use astrbot_plugin_webchat_g.Storage.Updates.Prune.{trimmed, prune_events-log}
use astrbot_plugin_webchat_g.EventBus.{EventBus}
use astrbot_plugin_webchat_g.Conversations.Events.{EventsResult, polled, answer_events, get_events}
use astrbot_plugin_webchat_g.Conversations.Events.Gaps.{seen, get_updates-seen}

-- A log of which all rows are old is trimmed to a marker with the largest number.
trimmed_old :
    (before : ℕ) (x : UpdateRow) (l : List UpdateRow)
    → IsLog (x ∷ l)
    → All (λ r. ltb r.ts before ≡ true) (x ∷ l)
    → (m : UpdateRow) × (trimmed before (x ∷ l) ≡ m ∷ [])
      × (is_marker m ≡ true)
      × (m.pts ≡ last_pts (x ∷ l))
unfolding trimmed
trimmed_old before x [] h old = elim (Bool-cases (is_marker x)) [
  | inl already ↦ (x, rw (old.0, already) refl, already, omega arith)
  | inr plain ↦ (marked x, rw (old.0, plain) refl, refl, omega arith)
]
trimmed_old before x (y ∷ l) h old =
    let (m, alone, hidden, top) = trimmed_old before y l h.3 old.1 in
    (m, rw old.0 alone, hidden, omega (arith, top, h.0))

-- The answer with no events, which does not tell the client to read anew.
abbrev pub nothing_new : ℕ → EventsResult
nothing_new top = record { events = []; last_pts = top; has_more = false; too_far = false }

-- A log that is only a marker.
marker_poll :
    (token : String) (since : ℕ) (bus : EventBus) (t t' : List UpdateRow) (m : UpdateRow)
    → log_of token t ≡ m ∷ []
    → is_marker m ≡ true
    → since < m.pts
    → m.pts ≤ since + 1000
    → get_events token (pos since) false bus t t' ≡ polled (nothing_new m.pts)
unfolding get_events answer_events
marker_poll token since bus t t' m e hidden behind near =
    let top : get_max_pts token t ≡ m.pts = max_pts-log_of token t ∙ ap last_pts e ∙ omega arith in
    let blank : seen since (m ∷ []) ≡ [] = rw (lt→ltb since m.pts behind, hidden) refl in
    let unread : get_updates token since 100 t ≡ [] =
      get_updates-seen token since t (subst IsLog (sym e) tt)
      ∙ ap (λ l. limit_rows 100 (seen since l)) e
      ∙ ap (limit_rows 100) blank in
    let reached : ltb m.pts since ≡ false = ground (arith, behind) in
    let close : ltb 1000 (m.pts - since) ≡ false = ground (arith, near) in
    rw (top, unread, and_no (ltb 0 since), reached, close) refl
  where
    and_no : (b : Bool) → (b && false) ≡ false
    and_no true = refl
    and_no false = refl

pruned_poll :
    (token : String) (since before : ℕ) (bus : EventBus) (t t' : List UpdateRow)
    (l : List UpdateRow)
    → IsLog l
    → All (λ r. ltb r.ts before ≡ true) l
    → since < last_pts l
    → last_pts l ≤ since + 1000
    → log_of token t ≡ trimmed before l
    → get_events token (pos since) false bus t t' ≡ polled (nothing_new (last_pts l))
pruned_poll token since before bus t t' [] h old behind near e = absurd (omega (arith, behind))
pruned_poll token since before bus t t' (x ∷ l) h old behind near e =
    let (m, alone, hidden, top) = trimmed_old before x l h old in
    marker_poll token since bus t t' m (e ∙ alone) hidden (omega (arith, behind, top))
      (omega (arith, near, top))
    ∙ ap (λ n. polled (nothing_new n)) top

-- Where all rows of a token are pruned, a client that is behind by at most 1000 gets no events, the
-- number of the last event, and no word that it has missed any.
pub pruned_unseen :
    (token : String) (since before : ℕ) (bus : EventBus) (t t' : List UpdateRow)
    → IsLog (log_of token t)
    → All (λ r. ltb r.ts before ≡ true) (log_of token t)
    → since < last_pts (log_of token t)
    → last_pts (log_of token t) ≤ since + 1000
    → get_events token (pos since) false bus (prune_events before t).1 t'
      ≡ polled (nothing_new (last_pts (log_of token t)))
pruned_unseen token since before bus t t' h old behind near =
    pruned_poll token since before bus (prune_events before t).1 t' (log_of token t) h old behind
      near (prune_events-log token before t h)
