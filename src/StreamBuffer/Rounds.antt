-- ===== src/StreamBuffer/Rounds.antt =====
-- core/stream_buffer.py, the two loops of `create`: what they evict, and when there is room.
use astrbot_plugin_webchat_g.Prelude.{
  ℕ, zero, suc, ◌+◌, ◌-◌, ◌≤◌, ◌<◌, ◌≡◌, refl, String, true, false, none, List, [], ◌∷◌, leb,
  length, text_key, arith, All, All-map, Bool-cases, Option-cases, inl, inr, ◌⊎◌, leb→le,
}
use astrbot_plugin_webchat_g.Dict.{Dict, IsDistinct}
use astrbot_plugin_webchat_g.StreamBuffer.Types.{Entry, Buffer}
use astrbot_plugin_webchat_g.StreamBuffer.{evict_locked, evict_owned, oldest_closed, evict_global}
use astrbot_plugin_webchat_g.StreamBuffer.Evict.{
  IsClosedIn, IsHarmless, oldest_closed-IsClosedIn, Evicts, Evicts-refl, Evicts-trans,
  evict_locked-Evicts, length-evict_locked,
}

-- A harmless victim is harmless after other evictions.
pub IsHarmless-Evicts :
    {b c : Buffer} (v : String) → Evicts b c → IsHarmless b.entries v → IsHarmless c.entries v
IsHarmless-Evicts v x h e at = h e (x.only v e at)

pub IsHarmless-closed : (m : Dict String Entry) (v : String) → IsClosedIn m v → IsHarmless m v
IsHarmless-closed m v (x, at, closed) e at' = ground arith

pub evict_owned-Evicts :
    (vs : List String) (total : ℕ) (b : Buffer)
    → All (IsHarmless b.entries) vs
    → Evicts b (evict_owned vs total b).1
unfolding evict_owned
evict_owned-Evicts [] total b h = Evicts-refl b
evict_owned-Evicts (v ∷ vs) total b h = elim (Bool-cases (leb b.max_per_token total)) [
  | inr under ↦ rw under (Evicts-refl b)
  | inl over ↦
      let x = evict_locked-Evicts v b h.0 in
      rw over (
        Evicts-trans x (
          evict_owned-Evicts vs (total - 1) (evict_locked v b) (
            All-map (IsHarmless b.entries) (IsHarmless (evict_locked v b).entries)
              (λ w k. IsHarmless-Evicts w x k) vs h.1)))
]

-- Either no stream is evicted, or the table is shorter.
pub evict_owned_cases :
    (vs : List String) (total : ℕ) (b : Buffer)
    → All (IsClosedIn b.entries) vs
    → ((evict_owned vs total b).1 ≡ b)
      ⊎ (length (evict_owned vs total b).1.entries + 1 ≤ length b.entries)
unfolding evict_owned
evict_owned_cases [] total b h = inl refl
evict_owned_cases (v ∷ vs) total b h = elim (Bool-cases (leb b.max_per_token total)) [
  | inr under ↦ inl (rw under)
  | inl over ↦
      let x = evict_locked-Evicts v b (IsHarmless-closed b.entries v h.0) in
      let y = evict_owned-Evicts vs (total - 1) (evict_locked v b) (
        All-map (IsClosedIn b.entries) (IsHarmless (evict_locked v b).entries)
          (λ w k. IsHarmless-Evicts w x (IsHarmless-closed b.entries w k)) vs h.1) in
      inr (rw over (omega (arith, y.shorter, length-evict_locked v b h.0)))
]

pub evict_global-Evicts :
    (fuel : ℕ) (b : Buffer) → IsDistinct b.entries → Evicts b (evict_global fuel b).2
unfolding evict_global
evict_global-Evicts zero b d = Evicts-refl b
evict_global-Evicts (suc fuel) b d = elim (Bool-cases (leb b.max_global (length b.entries))) [
  | inr room ↦ rw room (Evicts-refl b)
  | inl at_cap ↦ elim (Option-cases (oldest_closed b.entries)) [
    | inl none_closed ↦ rw (at_cap, none_closed) (Evicts-refl b)
    | inr (v, found) ↦
        let x =
          evict_locked-Evicts v b
            (IsHarmless-closed b.entries v (oldest_closed-IsClosedIn b.entries v d found)) in
        rw (at_cap, found)
          (Evicts-trans x (evict_global-Evicts fuel (evict_locked v b) (x.distinct d)))
  ]
]

-- The number of entries is fuel enough: without an error there is room afterwards.
pub evict_global_room :
    (fuel : ℕ) (b : Buffer)
    → IsDistinct b.entries
    → length b.entries ≤ fuel
    → 0 < b.max_global
    → (evict_global fuel b).0 ≡ false
    → length (evict_global fuel b).2.entries < b.max_global
unfolding evict_global
evict_global_room zero b d enough pos_cap ok = ground arith
evict_global_room (suc fuel) b d enough pos_cap ok =
    elim (Bool-cases (leb b.max_global (length b.entries))) [
      | inr room ↦ rw room (ground arith)
      | inl at_cap ↦ elim (Option-cases (oldest_closed b.entries)) [
        | inl none_closed ↦ absurd (ground arith)
        | inr (v, found) ↦
            let closed = oldest_closed-IsClosedIn b.entries v d found in
            let x = evict_locked-Evicts v b (IsHarmless-closed b.entries v closed) in
            rw (at_cap, found)
              (omega (
                arith,
                x.caps,
                evict_global_room fuel (evict_locked v b) (x.distinct d)
                    (omega (arith, length-evict_locked v b closed)) (omega (arith, x.caps))
                    (ground arith),
              ))
      ]
    ]

pub evict_global_below :
    (fuel : ℕ) (b : Buffer) → length b.entries < b.max_global → (evict_global fuel b).0 ≡ false
unfolding evict_global
evict_global_below zero b h = ground arith
evict_global_below (suc fuel) b h = ground arith

-- From a table within the cap, an error comes only where nothing was evicted and every stream is
-- in flight.
pub evict_global_full :
    (fuel : ℕ) (b : Buffer)
    → IsDistinct b.entries
    → length b.entries ≤ b.max_global
    → length b.entries ≤ fuel
    → 0 < b.max_global
    → (evict_global fuel b).0 ≡ true
    → ((evict_global fuel b).2 ≡ b)
      × (oldest_closed b.entries ≡ none)
      × (length b.entries ≡ b.max_global)
unfolding evict_global
evict_global_full zero b d cap enough pos_cap bad = absurd (ground arith)
evict_global_full (suc fuel) b d cap enough pos_cap bad =
    elim (Bool-cases (leb b.max_global (length b.entries))) [
      | inr room ↦ absurd (ground arith)
      | inl at_cap ↦ elim (Option-cases (oldest_closed b.entries)) [
        | inl none_closed ↦ (
          rw (at_cap, none_closed),
          none_closed,
          omega (arith, leb→le b.max_global (length b.entries)),
        )
        | inr (v, found) ↦
            let closed = oldest_closed-IsClosedIn b.entries v d found in
            let x = evict_locked-Evicts v b (IsHarmless-closed b.entries v closed) in
            absurd (
              ground (
                arith,
                evict_global_below fuel (evict_locked v b)
                    (omega (arith, x.caps, length-evict_locked v b closed)),
              ))
      ]
    ]
