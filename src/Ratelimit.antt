-- ===== src/Ratelimit.antt =====
-- core/ratelimit.py, `PerTokenConcurrency`: the single-flight limiter. A coroutine runs alone from
-- one suspension to the next, so each critical section under `_mutex` is one function. Taking a
-- lock that is known to be free does not suspend (asyncio.Lock).
pub mod Invariant
pub mod Schedule
pub mod Exclusion
pub mod Keys
use astrbot_plugin_webchat_g.Prelude.{
  ℕ, ◌+◌, String, Bool, true, false, not, Option, none, some, [], ◌&&◌, ◌==◌, if◌then◌else◌,
  text_key, number_key,
}
use astrbot_plugin_webchat_g.Dict.{Dict, get, put, remove}

-- `_locks` maps a name to a lock object, `is_locked` is the state of the lock objects, and
-- `next_lock` is the identity of the next `asyncio.Lock()`.
pub record Limiter : Type 0 where
  pub locks : Dict String ℕ
  pub is_locked : ℕ → Bool
  pub holders : Dict String String
  pub next_lock : ℕ

unfoldable pub init : Limiter
init = record { locks = []; is_locked = λ _. false; holders = []; next_lock = 0 }

abbrev pub set_lock : ℕ → Bool → (ℕ → Bool) → ℕ → Bool
set_lock l b f k = if l == k then b else f k

-- `lock = self._locks.get(name)`, and a fresh lock where there is none.
unfoldable pub lookup_lock : String → Limiter → ℕ × Limiter
lookup_lock name s = elim (get name s.locks) [
  | some l ↦ (l, s)
  | none ↦ (
    s.next_lock,
    record s {
      locks = put name s.next_lock s.locks;
      is_locked = set_lock s.next_lock false s.is_locked;
      next_lock = s.next_lock + 1;
    },
  )
]

-- The entry of the context manager: the lock, if it was taken.
unfoldable pub acquire : String → Limiter → Option ℕ × Limiter
acquire name s =
    let (l, s') = lookup_lock name s in
    if s'.is_locked l
    then (none, s')
    else (some l, record s' { is_locked = set_lock l true s'.is_locked })

-- Its exit suspends between these two, when it waits for the mutex.
unfoldable pub exit_release : ℕ → Limiter → Limiter
exit_release l s = record s { is_locked = set_lock l false s.is_locked }

unfoldable pub exit_evict : String → ℕ → Limiter → Limiter
exit_evict name l s = elim (get name s.locks) [
  | none ↦ s
  | some current ↦
      if current == l && not (s.is_locked l) then record s { locks = remove name s.locks } else s
]

unfoldable pub acquire_with_id : String → String → Limiter → Bool × Limiter
acquire_with_id name stream_id s =
    let (l, s') = lookup_lock name s in
    if s'.is_locked l then (false, s') else (
      true,
      record s' {
        is_locked = set_lock l true s'.is_locked;
        holders = put name stream_id s'.holders;
      },
    )

unfoldable pub current_stream_id : String → Limiter → Option String
current_stream_id name s = get name s.holders

-- `release` once the holder is known to match.
unfoldable pub free_lock : String → Limiter → Limiter
free_lock name s = elim (get name s.locks) [
  | none ↦ record s { holders = remove name s.holders }
  | some l ↦ record s {
    locks = remove name s.locks;
    holders = remove name s.holders;
    is_locked = if s.is_locked l then set_lock l false s.is_locked else s.is_locked;
  }
]

unfoldable pub release : String → String → Limiter → Limiter
release name stream_id s = elim (get name s.holders) [
  | none ↦ s
  | some holder ↦ if holder == stream_id then free_lock name s else s
]

-- Whether a request on the name would find the lock taken.
unfoldable pub busy : String → Limiter → Bool
busy name s = elim (get name s.locks) [ none ↦ false | some l ↦ s.is_locked l ]
