-- ===== src/Tests/Limits.antt =====
-- Runs of the limiter, of the upload gate and of the quota.
use Prim.Native.Char.{code}
use astrbot_plugin_webchat_g.Prelude.{
  ◌+◌, ◌≤◌, ◌≡◌, refl, ap, true, false, List, [], ◌∷◌, ◌↔◌, arith, is_some, text_key, number_key,
}
use astrbot_plugin_webchat_g.Dict.{get, put, remove}
use astrbot_plugin_webchat_g.Ratelimit
use astrbot_plugin_webchat_g.Ratelimit.{
  acquire, acquire_with_id, release, busy, current_stream_id, lookup_lock, exit_release, exit_evict,
  free_lock,
}
use astrbot_plugin_webchat_g.Ratelimit.Keys.{IsNulFree}
use astrbot_plugin_webchat_g.Ratelimit.Schedule
use astrbot_plugin_webchat_g.Ratelimit.Schedule.{
  enter, leave, evict, open_stream, close_stream, holds,
}
use astrbot_plugin_webchat_g.Ratelimit.Exclusion.{single_flight}
use astrbot_plugin_webchat_g.Gate
use astrbot_plugin_webchat_g.Gate.Race.{gate_admits_two}
use astrbot_plugin_webchat_g.Quota.{QuotaReservation}
use astrbot_plugin_webchat_g.Usage.{get_today_usage}
use astrbot_plugin_webchat_g.Quota.Accounting
use astrbot_plugin_webchat_g.Quota.Accounting.{
  open_one, commit_one, close_one, charged, usage_exact, never_overshoots,
}

-- A stream on one session, a plain request on another, and a second stream that is refused.
abbrev traffic : List Schedule.Call
traffic = open_stream "a" "s1" ∷ enter "b" ∷ open_stream "a" "s2" ∷ close_stream "a" "s2" ∷ []

traffic-holds : holds "a" (Schedule.run Schedule.start traffic).streams ≡ 1
unfolding Schedule.run Schedule.step acquire acquire_with_id release lookup_lock Ratelimit.init get
    put remove
traffic-holds = refl

single_flight_example :
    (holds "a" (Schedule.run Schedule.start traffic).plain
        + holds "a" (Schedule.run Schedule.start traffic).streams
      ≤ 1)
    × ((is_some (acquire "a" (Schedule.run Schedule.start traffic).limiter).0 ≡ true) ↔ (
        holds "a" (Schedule.run Schedule.start traffic).plain
          + holds "a" (Schedule.run Schedule.start traffic).streams
        ≡ 0))
single_flight_example = single_flight traffic "a"

ab-IsNulFree : IsNulFree "ab"
ab-IsNulFree =
    (λ e. absurd (omega (arith, ap code e)), (λ e. absurd (omega (arith, ap code e)), tt))

gate_admits_two_example :
    Gate.on_name "t"
      (Gate.run Gate.start (
        Gate.enter 1 "t"
        ∷ Gate.enter 2 "t"
        ∷ Gate.leave 1
        ∷ Gate.enter 3 "t"
        ∷ Gate.resume 2
        ∷ [])).inside
    ≡ 2
gate_admits_two_example = gate_admits_two "t" 1 2 3

-- Two sessions of one token with a quota of 1, and the first gives its unit back.
abbrev day_of_two : List Accounting.Call
day_of_two =
    open_one "t" 7 1 ∷ open_one "t" 7 1 ∷ close_one 0 ∷ open_one "t" 7 1 ∷ commit_one 0 ∷ []

usage_exact_example :
    get_today_usage "t" 7 (Accounting.run Accounting.start day_of_two).table
    ≡ charged "t" 7 (Accounting.run Accounting.start day_of_two).sessions
usage_exact_example = usage_exact day_of_two "t" 7

never_overshoots_example :
    get_today_usage "t" 7 (Accounting.run Accounting.start day_of_two).table ≤ 1
never_overshoots_example = never_overshoots day_of_two "t" 7 1 (omega arith)

abbrev held : QuotaReservation
held = record { name = "t"; day = 7; count = 1; remaining = 1; settled = false }
