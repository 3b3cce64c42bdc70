-- ===== src/Gate.antt =====
-- core/ratelimit.py, `PerTokenUploadGate`: the blocking lock of the uploads of one token, over
-- `asyncio.Lock` of the standard library. `acquire` of a lock that is free and that nobody waits
-- for does not suspend; any other joins the lock's queue. `release` clears the lock and wakes the
-- head of its queue, which takes the lock when it runs. `_mutex` is never held across a
-- suspension, so the exit of the context manager is one piece.

pub mod Race
use astrbot_plugin_webchat_g.Prelude.{
  ℕ, suc, ◌+◌, String, Bool, true, false, not, Option, none, some, List, [], ◌∷◌, ◌++◌, ◌&&◌, ◌==◌,
  if◌then◌else◌, text_key, number_key,
}
use astrbot_plugin_webchat_g.Dict.{Dict, get, put, remove}

-- A coroutine in the context manager, and the lock object that it looked up.
pub record Client : Type 0 where
  pub who : ℕ
  pub name : String
  pub lock : ℕ

-- `waiting` holds the queues of all locks, in order of arrival; `inside` the coroutines between
-- `yield` and the exit.
pub record Gate : Type 0 where
  pub locks : Dict String ℕ
  pub is_locked : ℕ → Bool
  pub next_lock : ℕ
  pub waiting : List Client
  pub inside : List Client

pub data Call : Type 0 where
  enter : ℕ → String → Call
  resume : ℕ → Call
  leave : ℕ → Call

unfoldable pub start : Gate
start = record { locks = []; is_locked = λ _. false; next_lock = 0; waiting = []; inside = [] }

abbrev pub set_lock : ℕ → Bool → (ℕ → Bool) → ℕ → Bool
set_lock l b f k = if l == k then b else f k

-- The clients on one lock object.
unfoldable pub on_lock : ℕ → List Client → ℕ
on_lock l [] = 0
on_lock l (c ∷ cs) = (if c.lock == l then 1 else 0) + on_lock l cs

-- The clients of one token.
unfoldable pub on_name : String → List Client → ℕ
on_name n [] = 0
on_name n (c ∷ cs) = (if c.name == n then 1 else 0) + on_name n cs

unfoldable pub find_client : ℕ → List Client → Option Client
find_client w [] = none
find_client w (c ∷ cs) = if c.who == w then some c else find_client w cs

unfoldable pub drop_client : ℕ → List Client → List Client
drop_client w [] = []
drop_client w (c ∷ cs) = let rest = drop_client w cs in if c.who == w then cs else c ∷ rest

-- The head of a lock's queue.
unfoldable pub head_waiter : ℕ → List Client → Option Client
head_waiter l [] = none
head_waiter l (c ∷ cs) = if c.lock == l then some c else head_waiter l cs

unfoldable pub lookup_lock : String → Gate → ℕ × Gate
lookup_lock name g = elim (get name g.locks) [
  | some l ↦ (l, g)
  | none ↦
      (g.next_lock, record g { locks = put name g.next_lock g.locks; next_lock = g.next_lock + 1 })
]

-- `await lock.acquire()`
unfoldable pub take_or_wait : Client → Gate → Gate
take_or_wait c g = elim (head_waiter c.lock g.waiting) [
  | some _ ↦ record g { waiting = g.waiting ++ c ∷ [] }
  | none ↦
      if g.is_locked c.lock
      then record g { waiting = g.waiting ++ c ∷ [] }
      else record g { is_locked = set_lock c.lock true g.is_locked; inside = c ∷ g.inside }
]

-- The woken head of a queue goes on.
unfoldable pub wake : ℕ → Option Client → Gate → Gate
wake w none g = g
wake w (some c) g = elim (head_waiter c.lock g.waiting) [
  | none ↦ g
  | some h ↦
      if h.who == w && not (g.is_locked c.lock)
      then record g {
        is_locked = set_lock c.lock true g.is_locked;
        waiting = drop_client w g.waiting;
        inside = c ∷ g.inside;
      }
      else g
]

-- The eviction of the exit.
unfoldable pub evict : String → ℕ → Gate → Gate
evict name l g = elim (get name g.locks) [
  | none ↦ g
  | some current ↦
      if current == l && not (g.is_locked l) then record g { locks = remove name g.locks } else g
]

unfoldable pub exit : ℕ → Option Client → Gate → Gate
exit w none g = g
exit w (some c) g =
    evict c.name c.lock
      (record g { is_locked = set_lock c.lock false g.is_locked; inside = drop_client w g.inside })

unfoldable pub step : Gate → Call → Gate
step g (enter w name) =
    let (l, g') = lookup_lock name g in take_or_wait (record { who = w; name = name; lock = l }) g'
step g (resume w) = wake w (find_client w g.waiting) g
step g (leave w) = exit w (find_client w g.inside) g

unfoldable pub run : Gate → List Call → Gate
run g [] = g
run g (c ∷ cs) = run (step g c) cs
