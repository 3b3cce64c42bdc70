-- ===== src/Storage/Updates/History.antt =====
-- storage/sqlite_backend.py, `webchat_updates`: any history of appends and prunes.
use astrbot_plugin_webchat_g.Prelude.{
  ℕ, ◌+◌, ◌≤◌, ◌≡◌, sym, subst, String, Bool, true, false, Option, none, some, List, [], ◌∷◌, ◌++◌,
  ◌==◌, if◌then◌else◌, text_key, arith, length, All, All-map, Bool-cases, inl, inr, ltb,
}
use astrbot_plugin_webchat_g.Storage.Rows.{UpdateRow, NewEvent}
use astrbot_plugin_webchat_g.Storage.Sql.Select.{select-All, All-update, All-append}
use astrbot_plugin_webchat_g.Storage.Updates.{get_max_pts, append_updates, prune_events, marked}
use astrbot_plugin_webchat_g.Storage.Updates.Append.{event_rows, append_lem}
use astrbot_plugin_webchat_g.Storage.Updates.Log.{
  log_of, IsLog, IsBefore, is_plain, append_updates-IsLog,
}
use astrbot_plugin_webchat_g.Storage.Updates.Prune.{trimmed, prune_events-log}

-- `append_updates` of a token with its events and time, or `prune_chat_sync` with its cutoff.
pub data Write : Type 0 where
  appends : String → List NewEvent → ℕ → Write
  prunes : ℕ → Write

abbrev pub appended : List UpdateRow → Option (List ℕ × List UpdateRow) → List ℕ × List UpdateRow
appended t none = ([], t)
appended t (some done) = done

-- The numbers that the call returns to a token, and the table.
unfoldable pub write : Write → String → List UpdateRow → List ℕ × List UpdateRow
write (appends token events now) other t =
    let (numbers, t') = appended t (append_updates token events now t) in
    (if token == other then numbers else [], t')
write (prunes before) other t = ([], (prune_events before t).1)

unfoldable pub write_all : List Write → String → List UpdateRow → List ℕ × List UpdateRow
unfolding write
write_all [] other t = ([], t)
write_all (w ∷ writes) other t =
    let (numbers, t1) = write w other t in
    let (more, t2) = write_all writes other t1 in (numbers ++ more, t2)

-- The number of events that the history gives to a token.
abbrev pub event_count : String → List Write → ℕ
event_count other [] = 0
event_count other (appends token events now ∷ writes) =
    (if token == other then length events else 0) + event_count other writes
event_count other (prunes before ∷ writes) = event_count other writes

-- From each append on the clock shows at least its time, and no event is a marker.
abbrev pub AreTimely : ℕ → List Write → Type 0
AreTimely start [] = Unit
AreTimely start (appends token events now ∷ writes) =
    (start ≤ now) × All (λ ev. is_plain ev ≡ true) events × AreTimely now writes
AreTimely start (prunes before ∷ writes) = AreTimely start writes

event_rows-IsBefore :
    (token : String) (base now : ℕ) (events : List NewEvent)
    → IsBefore now (event_rows token base now events)
event_rows-IsBefore token base now [] = tt
event_rows-IsBefore token base now (ev ∷ events) =
    (omega arith, event_rows-IsBefore token (base + 1) now events)

prune-IsBefore :
    (start before : ℕ) (t : List UpdateRow)
    → IsBefore start t
    → IsBefore start (prune_events before t).1
unfolding prune_events
prune-IsBefore start before t b =
    All-update (λ r. r.ts ≤ start) (λ r. r.ts ≤ start) _ marked _ (λ r h. kept_time _ r h)
      (select-All (λ r. r.ts ≤ start) _ t b)
  where
    kept_time : (c : Bool) (r : UpdateRow) → r.ts ≤ start → (if c then marked r else r).ts ≤ start
    kept_time true r h = h
    kept_time false r h = h

trimmed-IsLog : (before : ℕ) (l : List UpdateRow) → IsLog l → IsLog (trimmed before l)
unfolding trimmed
trimmed-IsLog before [] h = tt
trimmed-IsLog before (x ∷ []) h = tt
trimmed-IsLog before (x ∷ y ∷ l) h = elim (Bool-cases (ltb x.ts before)) [
  | inl old ↦ rw old (trimmed-IsLog before (y ∷ l) h.3)
  | inr young ↦ rw young h
]

-- Where the clock does not go back, the log of every token is one without a gap, with a marker at
-- most at its start, after any history of appends and prunes.
pub history-IsLog :
    (writes : List Write) (start : ℕ) (other : String) (t : List UpdateRow)
    → AreTimely start writes
    → IsBefore start t
    → IsLog (log_of other t)
    → IsLog (log_of other (write_all writes other t).1)
unfolding write_all write
history-IsLog [] start other t w b h = h
history-IsLog (prunes before ∷ writes) start other t w b h =
    history-IsLog writes start other (prune_events before t).1 w (prune-IsBefore start before t b) (
      subst IsLog (sym (prune_events-log other before t h))
        (trimmed-IsLog before (log_of other t) h))
history-IsLog (appends token events now ∷ writes) start other t w b h =
    let base : ℕ = get_max_pts token t in
    let later : IsBefore now t =
      All-map (λ r. r.ts ≤ start) (λ r. r.ts ≤ now) (λ r e. omega (arith, e, w.0)) t b in
    rw (append_lem token events now t) (
      history-IsLog writes now other (t ++ event_rows token base now events) w.2
        (All-append (λ r. r.ts ≤ now) t (event_rows token base now events) later
          (event_rows-IsBefore token base now events))
        (append_updates-IsLog token other events now t w.1 later h))
