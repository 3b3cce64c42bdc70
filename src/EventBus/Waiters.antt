-- ===== src/EventBus/Waiters.antt =====
-- core/event_bus.py: who waits, against the table of conditions.
use astrbot_plugin_webchat_g.Prelude.{
  ℕ, ◌+◌, ◌-◌, ◌≡◌, refl, ◌∙◌, String, Bool, true, false, none, some, List, [], ◌∷◌, ◌==◌, ◌||◌,
  if◌then◌else◌, leb, text_key, number_key, pair_key, arith, eq_iff, nat_beq_iff, Bool-cases, inl,
  inr,
}
use astrbot_plugin_webchat_g.Dict.{Dict, get, remove, get-put, get-remove}
use astrbot_plugin_webchat_g.Ratelimit.Schedule.{
  mem, erase, holds, holds-erase, holds_of_mem, mem_of_mem-erase,
}
use astrbot_plugin_webchat_g.EventBus.{
  EventBus, init, get_cond, count_of, waiter_count, start_wait, end_wait, notify, idle_tokens,
  drop_tokens, prune_idle,
}

-- The bus, and the calls of `wait` that have begun and not ended, with their conditions.
pub record System : Type 0 where
  pub bus : EventBus
  pub waiters : List (String × ℕ)

-- A piece of a coroutine: the begin of a `wait`; its end, by a notification, a timeout or a
-- cancellation; a `notify`; a `prune_idle`.
pub data Call : Type 0 where
  begins : String → Call
  ends : String → ℕ → Call
  notifies : String → Call
  prunes : Call

abbrev pub start : System
start = record { bus = init; waiters = [] }

unfoldable pub step : System → Call → System
step y (begins token) =
    let (cond, b) = start_wait token y.bus in
    record { bus = b; waiters = (token, cond) ∷ y.waiters }
step y (ends token cond) =
    if mem (token, cond) y.waiters
    then record { bus = end_wait token y.bus; waiters = erase (token, cond) y.waiters }
    else y
step y (notifies token) = record y { bus = (notify token y.bus).1 }
step y prunes = record y { bus = (prune_idle y.bus).1 }

unfoldable pub run : System → List Call → System
run y [] = y
run y (c ∷ cs) = run (step y c) cs

record IsTracked (y : System) : Type 0 where
  counted : (t : String) → waiter_count t y.bus ≡ holds t y.waiters
  placed : (t : String) (c : ℕ) → mem (t, c) y.waiters ≡ true → get t y.bus.conds ≡ some c

start-IsTracked : IsTracked start
unfolding init waiter_count get
start-IsTracked = record { counted = λ t. refl; placed = λ t c h. cc }

get-get_cond :
    (token : String) (b : EventBus) (t : String)
    → get t (get_cond token b).1.conds
      ≡ (if token == t then some (get_cond token b).0 else get t b.conds)
unfolding get_cond
get-get_cond token b t = ground (arith, get-put token t b.next_cond b.conds, eq_iff token t)

get_cond-counts :
    (token : String) (b : EventBus) → (get_cond token b).1.waiter_counts ≡ b.waiter_counts
unfolding get_cond
get_cond-counts token b = ground arith

abbrev is_in : String → List String → Bool
is_in t [] = false
is_in t (s ∷ ts) = s == t || is_in t ts

idle-no-waiter :
    (m : Dict String ℕ) (b : EventBus) (t : String)
    → is_in t (idle_tokens m b) ≡ true
    → waiter_count t b ≡ 0
unfolding idle_tokens
idle-no-waiter [] b t h = absurd (ground arith)
idle-no-waiter ((token, cond) ∷ m) b t h = elim (Bool-cases (leb (waiter_count token b) 0)) [
  | inr busy ↦ idle-no-waiter m b t (ground arith)
  | inl idle ↦ elim (Bool-cases (token == t)) [
    | inl same ↦ ground (arith, (eq_iff token t).0 same)
    | inr other ↦ idle-no-waiter m b t (ground arith)
  ]
]

get-drop_tokens :
    (ts : List String) (b : EventBus) (t : String)
    → (get t (drop_tokens ts b).conds ≡ (if is_in t ts then none else get t b.conds))
      × (get t (drop_tokens ts b).waiter_counts
          ≡ (if is_in t ts then none else get t b.waiter_counts))
unfolding drop_tokens
get-drop_tokens [] b t = (refl, refl)
get-drop_tokens (s ∷ ts) b t =
    let less : EventBus = record b {
      conds = remove s b.conds;
      waiter_counts = remove s b.waiter_counts;
    } in
    let (conds, counts) = get-drop_tokens ts less t in
    (
      ground (arith, conds, get-remove s t b.conds, eq_iff s t),
      ground (arith, counts, get-remove s t b.waiter_counts, eq_iff s t),
    )

module _ (y : System) (i : IsTracked y) where
  begins-IsTracked : (token : String) → IsTracked (step y (begins token))
  unfolding step start_wait waiter_count
  begins-IsTracked token = record {
    counted = λ t. ground (
      arith,
      i.counted t,
      i.counted token,
      get_cond-counts token y.bus,
      get-put token t (count_of (get token (get_cond token y.bus).1.waiter_counts) + 1)
          (get_cond token y.bus).1.waiter_counts,
      eq_iff token t,
    );
    placed = λ t c h. ground (
      arith,
      i.placed t c,
      get-get_cond token y.bus t,
      eq_iff token t,
      nat_beq_iff (get_cond token y.bus).0 c,
    );
  }

  ends-IsTracked : (token : String) (cond : ℕ) → IsTracked (step y (ends token cond))
  unfolding step end_wait waiter_count
  ends-IsTracked token cond = elim (Bool-cases (mem (token, cond) y.waiters)) [
    | inr out ↦ rw out i
    | inl inside ↦ rw inside (record {
      counted = λ t. ground (
        arith,
        i.counted t,
        i.counted token,
        holds-erase token cond t y.waiters inside,
        get-put token t (count_of (get token y.bus.waiter_counts) - 1) y.bus.waiter_counts,
        get-remove token t y.bus.waiter_counts,
        eq_iff token t,
      );
      placed =
          λ t c h. ground (arith, i.placed t c (mem_of_mem-erase (token, cond) (t, c) y.waiters h));
    })
  ]

  notifies-IsTracked : (token : String) → IsTracked (step y (notifies token))
  unfolding step notify waiter_count
  notifies-IsTracked token = record {
    counted = λ t. ground (arith, i.counted t, get_cond-counts token y.bus);
    placed = λ t c h.
        ground (arith, i.placed t c h, get-put token t y.bus.next_cond y.bus.conds, eq_iff token t);
  }

  prunes-IsTracked : IsTracked (step y prunes)
  unfolding step prune_idle
  prunes-IsTracked =
      let idle : List String = idle_tokens y.bus.conds y.bus in
      record {
        counted = λ t. elim (Bool-cases (is_in t idle)) [
          | inl gone ↦
              let none_wait = idle-no-waiter y.bus.conds y.bus t gone in
              unfold waiter_count in
              ground (arith, (get-drop_tokens idle y.bus t).1, gone, i.counted t, none_wait)
          | inr kept ↦
              unfold waiter_count in
              ground (arith, (get-drop_tokens idle y.bus t).1, kept, i.counted t)
        ];
        placed = λ t c h. elim (Bool-cases (is_in t idle)) [
          | inl gone ↦ absurd (
              omega (
                arith,
                idle-no-waiter y.bus.conds y.bus t gone,
                i.counted t,
                holds_of_mem t c y.waiters h,
              ))
          | inr kept ↦ (get-drop_tokens idle y.bus t).0 ∙ rw kept (i.placed t c h)
        ];
      }

step-IsTracked : (y : System) (c : Call) → IsTracked y → IsTracked (step y c)
step-IsTracked y (begins token) i = begins-IsTracked y i token
step-IsTracked y (ends token cond) i = ends-IsTracked y i token cond
step-IsTracked y (notifies token) i = notifies-IsTracked y i token
step-IsTracked y prunes i = prunes-IsTracked y i

run-IsTracked : (y : System) (cs : List Call) → IsTracked y → IsTracked (run y cs)
unfolding run
run-IsTracked y [] i = i
run-IsTracked y (c ∷ cs) i = run-IsTracked (step y c) cs (step-IsTracked y c i)

-- In every state that coroutines reach, whatever they have pruned: the waiter count of a token is
-- the number of its waits that have begun and not ended, and `notify` wakes the condition that
-- each of them waits for.
pub notify_reaches :
    (cs : List Call) (token : String) (cond : ℕ)
    → mem (token, cond) (run start cs).waiters ≡ true
    → (waiter_count token (run start cs).bus ≡ holds token (run start cs).waiters)
      × ((notify token (run start cs).bus).0 ≡ cond)
unfolding notify
notify_reaches cs token cond waits =
    let i = run-IsTracked start cs start-IsTracked in
    (i.counted token, ground (arith, i.placed token cond waits))
