-- ===== src/Tests/Waiting.antt =====
-- Runs of the event bus.
use astrbot_plugin_webchat_g.Prelude.{◌≡◌, refl, List, [], ◌∷◌, text_key, number_key, pair_key}
use astrbot_plugin_webchat_g.Dict.{get, put, remove}
use astrbot_plugin_webchat_g.Ratelimit.Schedule.{holds}
use astrbot_plugin_webchat_g.EventBus
use astrbot_plugin_webchat_g.EventBus.{
  get_cond, waiter_count, start_wait, end_wait, notify, idle_tokens, drop_tokens, prune_idle,
}
use astrbot_plugin_webchat_g.EventBus.Waiters.{
  Call, begins, ends, prunes, start, run, step, notify_reaches,
}

-- A token is notified after another one was pruned.
abbrev story : List Call
story = begins "u" ∷ begins "t" ∷ ends "u" 0 ∷ prunes ∷ begins "t" ∷ []

notify_reaches_example :
    (waiter_count "t" (run start story).bus ≡ holds "t" (run start story).waiters)
    × ((notify "t" (run start story).bus).0 ≡ 1)
unfolding run step EventBus.init get_cond waiter_count start_wait end_wait idle_tokens drop_tokens
    prune_idle get put remove
notify_reaches_example = notify_reaches story "t" 1 refl
