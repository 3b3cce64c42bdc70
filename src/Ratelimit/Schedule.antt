-- ===== src/Ratelimit/Schedule.antt =====
-- Any number of coroutines that use the limiter, as a sequence of the pieces that run without a
-- suspension. `plain` and `streams` are the requests that are between their acquisition and their
-- release: they are not part of the limiter's own state.
use astrbot_plugin_webchat_g.Prelude.{
  ℕ, ◌+◌, ◌≤◌, String, Bool, true, false, Option, none, some, List, [], ◌∷◌, ◌||◌, ◌==◌,
  if◌then◌else◌, text_key, number_key, pair_key, Key, ◌≡◌, refl, arith, eq_iff,
}
use astrbot_plugin_webchat_g.Ratelimit.{
  Limiter, init, acquire, exit_release, exit_evict, acquire_with_id, release,
}

pub data Call : Type 0 where
  -- `async with concurrency.acquire(name)`: the entry, and the two pieces of the exit.
  enter : String → Call
  leave : String → ℕ → Call
  evict : String → ℕ → Call
  -- The manual variant of the stream registry.
  open_stream : String → String → Call
  close_stream : String → String → Call

pub record System : Type 0 where
  pub limiter : Limiter
  pub plain : List (String × ℕ)
  pub streams : List (String × String)

abbrev pub start : System
start = record { limiter = init; plain = []; streams = [] }

module _ {ℓ} {A : Type ℓ} ⦃e : Key A⦄ where
  abbrev pub mem : A → List A → Bool
  mem a [] = false
  mem a (x ∷ xs) = x == a || mem a xs

  abbrev pub erase : A → List A → List A
  erase a [] = []
  erase a (x ∷ xs) = let rest = erase a xs in if x == a then xs else x ∷ rest

  pub mem_of_mem-erase : (a b : A) (xs : List A) → mem b (erase a xs) ≡ true → mem b xs ≡ true
  mem_of_mem-erase a b [] h = h
  mem_of_mem-erase a b (x ∷ xs) h = ground (arith, mem_of_mem-erase a b xs)

  pub mem-erase_ne : (a b : A) (xs : List A) → (a == b) ≡ false → mem b (erase a xs) ≡ mem b xs
  mem-erase_ne a b [] h = refl
  mem-erase_ne a b (x ∷ xs) h =
      ground (arith, mem-erase_ne a b xs, e.same_iff x a, e.same_iff x b, e.same_iff a b)

  pub erase-not-mem : (a : A) (xs : List A) → mem a xs ≡ false → erase a xs ≡ xs
  erase-not-mem a [] h = refl
  erase-not-mem a (x ∷ xs) h = ground (arith, erase-not-mem a xs)

module _ {ℓ} {A : Type ℓ} where
  -- The number of requests on a name.
  abbrev pub holds : String → List (String × A) → ℕ
  holds n [] = 0
  holds n (x ∷ xs) = (if x.0 == n then 1 else 0) + holds n xs

module _ {ℓ} {A : Type ℓ} ⦃e : Key A⦄ where
  pub holds-erase :
      (n : String) (a : A) (m : String) (xs : List (String × A))
      → mem (n, a) xs ≡ true
      → (if n == m then 1 else 0) + holds m (erase (n, a) xs) ≡ holds m xs
  holds-erase n a m [] h = cc
  holds-erase n a m ((k, b) ∷ xs) h =
      ground (arith, holds-erase n a m xs, eq_iff k n, e.same_iff b a, eq_iff k m, eq_iff n m)

  pub holds_of_mem :
      (n : String) (a : A) (xs : List (String × A)) → mem (n, a) xs ≡ true → 1 ≤ holds n xs
  holds_of_mem n a [] h = cc
  holds_of_mem n a (x ∷ xs) h = ground (arith, holds_of_mem n a xs)

enter_plain : System → String → Option ℕ × Limiter → System
enter_plain y n (none, s) = record y { limiter = s }
enter_plain y n (some l, s) = record y { limiter = s; plain = (n, l) ∷ y.plain }

enter_stream : System → String → String → Bool × Limiter → System
enter_stream y n sid (false, s) = record y { limiter = s }
enter_stream y n sid (true, s) = record y { limiter = s; streams = (n, sid) ∷ y.streams }

-- A coroutine leaves only what it entered. A stale `evict` or `close_stream` may come at any time.
unfoldable pub step : System → Call → System
unfolding enter_plain enter_stream
step y (enter n) = enter_plain y n (acquire n y.limiter)
step y (leave n l) =
    if mem (n, l) y.plain
    then record y { limiter = exit_release l y.limiter; plain = erase (n, l) y.plain }
    else y
step y (evict n l) = record y { limiter = exit_evict n l y.limiter }
step y (open_stream n sid) = enter_stream y n sid (acquire_with_id n sid y.limiter)
step y (close_stream n sid) = record y {
  limiter = release n sid y.limiter;
  streams = erase (n, sid) y.streams;
}

unfoldable pub run : System → List Call → System
run y [] = y
run y (c ∷ cs) = run (step y c) cs
