-- ===== src/EventBus.antt =====
-- core/event_bus.py, `EventBus`: the waiters of a token and its condition. A critical section under
-- `_dict_lock` does not suspend. An `asyncio.Condition` is a number; `wait` suspends when it waits
-- for the lock of the condition and when it waits to be notified, and a waiter may time out or be
-- cancelled in between.
pub mod Waiters
use astrbot_plugin_webchat_g.Prelude.{
  ℕ, ◌+◌, ◌-◌, String, Bool, true, false, Option, none, some, List, [], ◌∷◌, ◌==◌, ◌&&◌,
  if◌then◌else◌, leb, length, text_key, number_key,
}
use astrbot_plugin_webchat_g.Dict.{Dict, get, put, remove}

pub record EventBus : Type 0 where
  pub conds : Dict String ℕ
  pub waiter_counts : Dict String ℕ
  pub next_cond : ℕ

unfoldable pub init : EventBus
init = record { conds = []; waiter_counts = []; next_cond = 0 }

-- `_get_cond`
unfoldable pub get_cond : String → EventBus → ℕ × EventBus
get_cond token b = elim (get token b.conds) [
  | some cond ↦ (cond, b)
  | none ↦
      (b.next_cond, record b { conds = put token b.next_cond b.conds; next_cond = b.next_cond + 1 })
]

abbrev pub count_of : Option ℕ → ℕ
count_of none = 0
count_of (some n) = n

unfoldable pub waiter_count : String → EventBus → ℕ
waiter_count token b = count_of (get token b.waiter_counts)

-- `wait` up to its first suspension, where the timeout is positive: the condition that it has got.
unfoldable pub start_wait : String → EventBus → ℕ × EventBus
unfolding get_cond waiter_count
start_wait token b =
    let (cond, b') = get_cond token b in
    (cond, record b' { waiter_counts = put token (waiter_count token b' + 1) b'.waiter_counts })

-- The `finally` of `wait`.
unfoldable pub end_wait : String → EventBus → EventBus
unfolding waiter_count
end_wait token b =
    if leb (waiter_count token b) 1
    then record b { waiter_counts = remove token b.waiter_counts }
    else record b { waiter_counts = put token (waiter_count token b - 1) b.waiter_counts }

-- `notify`: the condition whose waiters are all woken.
unfoldable pub notify : String → EventBus → ℕ × EventBus
unfolding get_cond
notify token b = get_cond token b

-- The tokens with no waiter.
unfoldable pub idle_tokens : Dict String ℕ → EventBus → List String
idle_tokens [] b = []
idle_tokens ((token, cond) ∷ m) b =
    let rest = idle_tokens m b in if leb (waiter_count token b) 0 then token ∷ rest else rest

unfoldable pub drop_tokens : List String → EventBus → EventBus
drop_tokens [] b = b
drop_tokens (token ∷ tokens) b =
    drop_tokens tokens
      (record b { conds = remove token b.conds; waiter_counts = remove token b.waiter_counts })

unfoldable pub prune_idle : EventBus → ℕ × EventBus
unfolding idle_tokens drop_tokens
prune_idle b = let idle = idle_tokens b.conds b in (length idle, drop_tokens idle b)
