-- ===== src/Ratelimit/Exclusion.antt =====
-- In every interleaving of requests at most one is in flight on a name, and a name on which none
-- is in flight is free.
use astrbot_plugin_webchat_g.Prelude.{
  ℕ, ◌+◌, ◌≤◌, String, Bool, true, false, Option, none, some, List, [], ◌∷◌, ◌&&◌, ◌==◌,
  if◌then◌else◌, text_key, number_key, pair_key, ◌≡◌, ◌≢◌, refl, arith, eq_iff, Bool-cases, inl,
  inr, nat_beq_iff, is_some, ◌↔◌,
}
use astrbot_plugin_webchat_g.Dict.{get, get-put, get-remove}
use astrbot_plugin_webchat_g.Ratelimit.{
  Limiter, init, acquire, exit_release, release, current_stream_id, busy,
}
use astrbot_plugin_webchat_g.Ratelimit.Invariant.{
  IsValid, init-IsValid, Frees, acquire-busy, acquire_of_free, acquire_with_id-busy,
  acquire_with_id_of_free, exit_release-Frees, exit_evict-IsValid, busy-exit_evict, get-exit_evict,
  holders-exit_evict, release_held, release_stale,
}
use astrbot_plugin_webchat_g.Ratelimit.Schedule.{
  Call, enter, leave, evict, open_stream, close_stream, System, start, mem, erase, mem_of_mem-erase,
  mem-erase_ne, erase-not-mem, holds, holds-erase, holds_of_mem, step, run,
}

pub record IsExclusive (y : System) : Type 0 where
  pub valid : IsValid y.limiter
  pub counted :
      (n : String) → holds n y.plain + holds n y.streams ≡ (if busy n y.limiter then 1 else 0)
  pub owned : (n : String) (l : ℕ) → mem (n, l) y.plain ≡ true → get n y.limiter.locks ≡ some l
  pub tagged : (n sid : String) → mem (n, sid) y.streams ≡ true → get n y.limiter.holders ≡ some sid
  pub tracked :
      (n sid : String) → get n y.limiter.holders ≡ some sid → mem (n, sid) y.streams ≡ true

abbrev pub current_is : String → Option String → Bool
current_is sid none = false
current_is sid (some holder) = holder == sid

current_is-true : (sid : String) (o : Option String) → current_is sid o ≡ true → o ≡ some sid
current_is-true sid none h = cc
current_is-true sid (some o) h = ground (arith, eq_iff o sid)

current_is-false : (sid : String) (o : Option String) → current_is sid o ≡ false → o ≢ some sid
current_is-false sid none h = λ e. cc
current_is-false sid (some o) h = ground (arith, eq_iff o sid)

pub start-IsExclusive : IsExclusive start
unfolding init busy get
start-IsExclusive = record {
  valid = init-IsValid;
  counted = λ n. refl;
  owned = λ n l h. cc;
  tagged = λ n sid h. cc;
  tracked = λ n sid h. cc;
}

module _ (y : System) (i : IsExclusive y) (n : String) where
  open y use {limiter, plain, streams}

  enter-IsExclusive : IsExclusive (step y (enter n))
  unfolding step
  enter-IsExclusive = elim (Bool-cases (busy n limiter)) [
    | inl taken ↦ rw (acquire-busy n limiter taken) i
    | inr free ↦
        let (l, t, e, k, same) = acquire_of_free n limiter i.valid free in
        rw e (record {
          valid = k.valid;
          counted = λ m. ground (arith, i.counted m, k.busy_at m, eq_iff n m);
          owned = λ m j h. ground (
            arith,
            i.owned m j,
            i.counted m,
            holds_of_mem m j plain,
            k.locks_at m,
            eq_iff n m,
            nat_beq_iff l j,
          );
          tagged = λ m sid h. rw same (i.tagged m sid h);
          tracked = λ m sid h. i.tracked m sid (rw (← same) h);
        })
  ]

  open_stream-IsExclusive : (sid : String) → IsExclusive (step y (open_stream n sid))
  unfolding step
  open_stream-IsExclusive sid = elim (Bool-cases (busy n limiter)) [
    | inl taken ↦ rw (acquire_with_id-busy n limiter sid taken) i
    | inr free ↦
        let (l, t, e, k, same) = acquire_with_id_of_free n limiter i.valid free sid in
        rw e (record {
          valid = k.valid;
          counted = λ m. ground (arith, i.counted m, k.busy_at m, eq_iff n m);
          owned = λ m j h. ground (
            arith,
            i.owned m j,
            i.counted m,
            holds_of_mem m j plain,
            k.locks_at m,
            eq_iff n m,
            nat_beq_iff l j,
          );
          tagged = λ m tag h. ground (
            arith,
            same,
            get-put n m sid limiter.holders,
            i.tagged m tag,
            i.counted m,
            holds_of_mem m tag streams,
            eq_iff n m,
            eq_iff sid tag,
          );
          tracked = λ m tag h. ground (
            arith,
            same,
            get-put n m sid limiter.holders,
            i.tracked m tag,
            eq_iff n m,
            eq_iff sid tag,
          );
        })
  ]

  leave-IsExclusive : (l : ℕ) → IsExclusive (step y (leave n l))
  unfolding step exit_release
  leave-IsExclusive l = elim (Bool-cases (mem (n, l) plain)) [
    | inr out ↦ rw out i
    | inl inside ↦
        let k : Frees n limiter (exit_release l limiter) =
          exit_release-Frees n limiter i.valid l (i.owned n l inside) in
        rw inside (record {
          valid = k.valid;
          counted = λ m. ground (
            arith,
            i.counted m,
            k.busy_at m,
            eq_iff n m,
            holds-erase n l m plain,
            i.counted n,
            i.owned n l inside,
            holds_of_mem n l plain,
          );
          owned = λ m j h. i.owned m j (mem_of_mem-erase (n, l) (m, j) plain h);
          tagged = i.tagged;
          tracked = i.tracked;
        })
  ]

  evict-IsExclusive : (l : ℕ) → IsExclusive (step y (evict n l))
  unfolding step
  evict-IsExclusive l = record {
    valid = exit_evict-IsValid n limiter i.valid l;
    counted = λ m. rw (busy-exit_evict n limiter i.valid l m) (i.counted m);
    owned = λ m j h. ground (
      arith,
      get-exit_evict n limiter i.valid l m,
      i.owned m j,
      i.counted m,
      holds_of_mem m j plain,
    );
    tagged = λ m tag h. ground (arith, holders-exit_evict n limiter i.valid l, i.tagged m tag);
    tracked = λ m tag h. ground (arith, holders-exit_evict n limiter i.valid l, i.tracked m tag);
  }

  close_stream-IsExclusive : (sid : String) → IsExclusive (step y (close_stream n sid))
  unfolding step
  close_stream-IsExclusive sid = elim (Bool-cases (mem (n, sid) streams)) [
    | inr stale ↦
        rw (release_stale n limiter i.valid sid (λ e. cc (i.tracked n sid e, stale)))
          (rw (erase-not-mem (n, sid) streams stale) i)
    | inl inside ↦
        let (k, same) = release_held n limiter i.valid sid (i.tagged n sid inside) in
        record {
          valid = k.valid;
          counted = λ m. ground (
            arith,
            i.counted m,
            k.busy_at m,
            eq_iff n m,
            holds-erase n sid m streams,
            i.counted n,
            holds_of_mem n sid streams,
          );
          owned = λ m j h. ground (
            arith,
            k.locks_at m,
            i.owned m j,
            i.counted m,
            holds_of_mem m j plain,
            eq_iff n m,
            holds_of_mem n sid streams,
          );
          tagged = λ m tag h. ground (
            arith,
            same,
            get-remove n m limiter.holders,
            i.tagged m tag,
            eq_iff n m,
            mem_of_mem-erase (n, sid) (m, tag) streams,
            i.counted m,
            holds-erase n sid m streams,
            holds_of_mem m tag (erase (n, sid) streams),
          );
          tracked = λ m tag h. ground (
            arith,
            same,
            get-remove n m limiter.holders,
            i.tracked m tag,
            eq_iff n m,
            mem-erase_ne (n, sid) (m, tag) streams,
          );
        }
  ]

step-IsExclusive : (y : System) (c : Call) → IsExclusive y → IsExclusive (step y c)
step-IsExclusive y (enter n) i = enter-IsExclusive y i n
step-IsExclusive y (leave n l) i = leave-IsExclusive y i n l
step-IsExclusive y (evict n l) i = evict-IsExclusive y i n l
step-IsExclusive y (open_stream n sid) i = open_stream-IsExclusive y i n sid
step-IsExclusive y (close_stream n sid) i = close_stream-IsExclusive y i n sid

pub run-IsExclusive : (y : System) (cs : List Call) → IsExclusive y → IsExclusive (run y cs)
unfolding run
run-IsExclusive y [] i = i
run-IsExclusive y (c ∷ cs) i = run-IsExclusive (step y c) cs (step-IsExclusive y c i)

accepts_iff_free :
    (s : Limiter) (n : String) → IsValid s → (is_some (acquire n s).0 ≡ true) ↔ (busy n s ≡ false)
accepts_iff_free s n v = elim (Bool-cases (busy n s)) [
  | inl taken ↦ rw (acquire-busy n s taken) (ground arith)
  | inr free ↦ let (l, t, e, k, same) = acquire_of_free n s v free in rw e (ground arith)
]

-- After any sequence of pieces of coroutines, at most one request is in flight on a name, and
-- `acquire` accepts a new one exactly when none is: no lock is leaked.
pub single_flight :
    (cs : List Call) (n : String)
    → (holds n (run start cs).plain + holds n (run start cs).streams ≤ 1)
      × ((is_some (acquire n (run start cs).limiter).0 ≡ true)
          ↔ (holds n (run start cs).plain + holds n (run start cs).streams ≡ 0))
single_flight cs n =
    let y : System = run start cs in
    let i : IsExclusive y = run-IsExclusive start cs start-IsExclusive in
    ground (arith, i.counted n, accepts_iff_free y.limiter n i.valid)

-- In every state that coroutines reach, `release` frees the lock of its name exactly when the
-- name's recorded holder is the given stream, and it changes no other name's lock.
pub release_exact :
    (cs : List Call) (n sid m : String)
    → let s = (run start cs).limiter in
      busy m (release n sid s)
      ≡ (if n == m && current_is sid (current_stream_id n s) then false else busy m s)
unfolding current_stream_id
release_exact cs n sid m =
    let y : System = run start cs in
    let v : IsValid y.limiter = (run-IsExclusive start cs start-IsExclusive).valid in
    elim (Bool-cases (current_is sid (get n y.limiter.holders))) [
      | inl own ↦
          let k : Frees n y.limiter (release n sid y.limiter) =
            (release_held n y.limiter v sid
              (current_is-true sid (get n y.limiter.holders) own)).0 in
          ground (arith, k.busy_at m)
      | inr other ↦
          rw
            (release_stale n y.limiter v sid
              (λ e. current_is-false sid (get n y.limiter.holders) other e))
            (ground arith)
    ]
