-- ===== src/StreamBuffer/Evict.antt =====
-- The evictions of `create`: only closed streams are ever dropped.
use astrbot_plugin_webchat_g.Prelude.{
  ℕ, ◌+◌, ◌≤◌, ◌≡◌, refl, String, true, false, none, some, [], ◌∷◌, ◌==◌, ◌&&◌, if◌then◌else◌,
  length, text_key, arith, eq_iff, nat_beq_iff, number_key, All, All-map, Bool-cases, Option-cases,
  inl, inr,
}
use astrbot_plugin_webchat_g.Dict.{
  Dict, get, get-remove, IsDistinct, remove-IsDistinct, length-remove-le, length-remove-lt,
}
use astrbot_plugin_webchat_g.StreamBuffer.Types.{is_terminal, Entry, Buffer}
use astrbot_plugin_webchat_g.StreamBuffer.{evict_locked, owned_closed, oldest_closed}

-- The stream is in the table, closed.
abbrev pub IsClosedIn : Dict String Entry → String → Type 0
IsClosedIn m sid = (e : Entry) × (get sid m ≡ some e) × (is_terminal e.state ≡ true)

-- Dropping the stream loses no stream in flight.
abbrev pub IsHarmless : Dict String Entry → String → Type 0
IsHarmless m sid = (e : Entry) → get sid m ≡ some e → is_terminal e.state ≡ true

IsClosedIn-cons :
    (sid : String) (e : Entry) (m : Dict String Entry) (v : String)
    → get sid m ≡ none
    → IsClosedIn m v
    → IsClosedIn ((sid, e) ∷ m) v
unfolding get
IsClosedIn-cons sid e m v fresh (x, at, closed) = (x, ground (arith, eq_iff sid v), closed)

pub owned_closed-IsClosedIn :
    (token : String) (m : Dict String Entry)
    → IsDistinct m
    → All (IsClosedIn m) (owned_closed token m)
unfolding owned_closed get
owned_closed-IsClosedIn token [] d = tt
owned_closed-IsClosedIn token ((sid, e) ∷ m) d =
    let rest =
      All-map (IsClosedIn m) (IsClosedIn ((sid, e) ∷ m)) (λ v h. IsClosedIn-cons sid e m v d.0 h)
        (owned_closed token m) (owned_closed-IsClosedIn token m d.1) in
    elim (Bool-cases (e.token_name == token && is_terminal e.state)) [
      | inl own ↦ rw own ((e, ground (arith, eq_iff sid sid), ground arith), rest)
      | inr other ↦ rw other rest
    ]

-- The oldest closed stream is in the table; if there is none, every stream is in flight.
pub oldest_closed-IsClosedIn :
    (m : Dict String Entry) (v : String) → IsDistinct m → oldest_closed m ≡ some v → IsClosedIn m v
unfolding oldest_closed get
oldest_closed-IsClosedIn [] v d h = cc
oldest_closed-IsClosedIn ((sid, e) ∷ m) v d h = elim (Bool-cases (is_terminal e.state)) [
  | inl closed ↦ (e, ground (arith, eq_iff sid v), closed)
  | inr open_ ↦ IsClosedIn-cons sid e m v d.0 (oldest_closed-IsClosedIn m v d.1 (ground arith))
]

-- No stream of the table is closed.
abbrev pub AreInFlight : Dict String Entry → Type 0
AreInFlight [] = Unit
AreInFlight ((sid, e) ∷ m) = (is_terminal e.state ≡ false) × AreInFlight m

pub oldest_closed-none : (m : Dict String Entry) → oldest_closed m ≡ none → AreInFlight m
unfolding oldest_closed
oldest_closed-none [] h = tt
oldest_closed-none ((sid, x) ∷ m) h = elim (Bool-cases (is_terminal x.state)) [
  | inl closed ↦ absurd (ground arith)
  | inr open_ ↦ (open_, oldest_closed-none m (ground arith))
]

-- Between two states: streams in flight are untouched, nothing appears, the caps are the same.
pub record Evicts (b c : Buffer) : Type 0 where
  pub caps :
      (c.max_per_token ≡ b.max_per_token)
      × (c.max_global ≡ b.max_global)
      × (c.grace_seconds ≡ b.grace_seconds)
  pub kept :
      (j : String) (e : Entry)
      → get j b.entries ≡ some e
      → is_terminal e.state ≡ false
      → get j c.entries ≡ some e
  pub only : (j : String) (e : Entry) → get j c.entries ≡ some e → get j b.entries ≡ some e
  pub distinct : IsDistinct b.entries → IsDistinct c.entries
  pub shorter : length c.entries ≤ length b.entries
  pub monotone : (k : ℕ) → b.is_set k ≡ true → c.is_set k ≡ true
  -- Who waits for a stream that is dropped is woken.
  pub woken :
      (j : String) (e : Entry)
      → get j b.entries ≡ some e
      → get j c.entries ≡ none
      → c.is_set e.new_chunk ≡ true

pub Evicts-refl : (b : Buffer) → Evicts b b
Evicts-refl b = record {
  caps = (refl, refl, refl);
  kept = λ j e h a. h;
  only = λ j e h. h;
  distinct = λ d. d;
  shorter = omega arith;
  monotone = λ k h. h;
  woken = λ j e h g. cc;
}

pub Evicts-trans : {b c d : Buffer} → Evicts b c → Evicts c d → Evicts b d
Evicts-trans {b} {c} {d} x y = record {
  caps = ground (arith, x.caps, y.caps);
  kept = λ j e h a. y.kept j e (x.kept j e h a) a;
  only = λ j e h. x.only j e (y.only j e h);
  distinct = λ d. y.distinct (x.distinct d);
  shorter = omega arith;
  monotone = λ k h. y.monotone k (x.monotone k h);
  woken = λ j e h g. elim (Option-cases (get j c.entries)) [
    | inl gone ↦ y.monotone e.new_chunk (x.woken j e h gone)
    | inr (f, there) ↦ ground (arith, x.only j f there, y.woken j f there g)
  ];
}

module _ (sid : String) (b : Buffer) where
  pub get-evict_locked :
      (j : String)
      → get j (evict_locked sid b).entries ≡ (if sid == j then none else get j b.entries)
  unfolding evict_locked
  get-evict_locked j = ground (arith, get-remove sid j b.entries, eq_iff sid j)

  pub evict_locked-Evicts : IsHarmless b.entries sid → Evicts b (evict_locked sid b)
  unfolding evict_locked
  evict_locked-Evicts h = record {
    caps = ground arith;
    kept = λ j e at open_. ground (arith, get-remove sid j b.entries, eq_iff sid j, h e);
    only = λ j e at. ground (arith, get-remove sid j b.entries);
    distinct = λ d. ground (arith, remove-IsDistinct sid b.entries d);
    shorter = ground (arith, length-remove-le sid b.entries);
    monotone = λ k set. ground arith;
    woken = λ j e at gone.
        ground
          (arith, get-remove sid j b.entries, eq_iff sid j, nat_beq_iff e.new_chunk e.new_chunk);
  }

  pub length-evict_locked :
      IsClosedIn b.entries sid → length (evict_locked sid b).entries + 1 ≤ length b.entries
  unfolding evict_locked
  length-evict_locked (e, at, closed) = ground (arith, length-remove-lt sid b.entries e)
