-- ===== src/Conversations/Events.antt =====
-- handlers/conversations_service.py, `get_events`: a client asks for the events of its token after the
-- number that it has. The timeout counts only for whether it is positive. The reads before the wait
-- see one table, and those after it another.

pub mod Gaps
pub mod Follow
pub mod Drain
pub mod Pruned
use astrbot_plugin_webchat_g.Prelude.{
  ℕ, ◌+◌, ◌-◌, String, Bool, true, false, not, List, [], ◌∷◌, ◌&&◌, ◌||◌, ◌==◌, if◌then◌else◌,
  number_key, ltb, leb, length,
}
use astrbot_plugin_webchat_g.Prelude.Int.{ℤ, pos, negsuc}
use astrbot_plugin_webchat_g.Storage.Rows.{UpdateRow}
use astrbot_plugin_webchat_g.Storage.Updates.{get_max_pts, get_updates}
use astrbot_plugin_webchat_g.EventBus.{EventBus, waiter_count}

-- `EventsResult`
pub record EventsResult : Type 0 where
  pub events : List UpdateRow
  pub last_pts : ℕ
  pub has_more : Bool
  pub too_far : Bool

-- A result, or a `ServiceError`.
pub data Polled : Type 0 where
  polled : EventsResult → Polled
  invalid_since : Polled
  too_many_waiters : Polled

abbrev pub far : ℕ → EventsResult
far last = record { events = []; last_pts = last; has_more = false; too_far = true }

abbrev pub is_empty : List UpdateRow → Bool
is_empty [] = true
is_empty (row ∷ rows) = false

-- `rows[0].pts > since_pts + 1`
abbrev pub starts_beyond : ℕ → List UpdateRow → Bool
starts_beyond since [] = false
starts_beyond since (row ∷ rows) = ltb (since + 1) row.pts

-- `rows[-1].pts`
abbrev pub final_pts : ℕ → List UpdateRow → ℕ
final_pts n [] = n
final_pts n (row ∷ rows) = final_pts row.pts rows

-- From the rows to the result, with the maximum as the table has it then.
unfoldable pub answer_events : ℕ → List UpdateRow → ℕ → EventsResult
answer_events since [] top =
    if ltb top since || ltb 1000 (top - since)
    then far top
    else record { events = []; last_pts = top; has_more = false; too_far = false }
answer_events since (row ∷ rows) top = record {
  events = row ∷ rows;
  last_pts = final_pts row.pts rows;
  has_more = length (row ∷ rows) == 100;
  too_far = false;
}

unfoldable pub get_events : String → ℤ → Bool → EventBus → List UpdateRow → List UpdateRow → Polled
unfolding answer_events
get_events token (negsuc n) waits bus t t' = invalid_since
get_events token (pos since) waits bus t t' =
    let top = get_max_pts token t in
    let rows = get_updates token since 100 t in
    let rows' = get_updates token since 100 t' in
    let top' = get_max_pts token t' in
    if ltb top since
    then polled (far top)
    else if ltb 0 since && starts_beyond since rows
    then polled (far top)
    else if is_empty rows && waits
    then if ltb 1000 (top - since)
      then polled (far top)
      else if leb 8 (waiter_count token bus)
      then too_many_waiters
      else polled (answer_events since rows' top')
    else polled (answer_events since rows top)
