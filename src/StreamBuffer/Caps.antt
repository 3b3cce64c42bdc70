-- ===== src/StreamBuffer/Caps.antt =====
-- `create`: what it evicts, and the caps.
use astrbot_plugin_webchat_g.Prelude.{
  ℕ, ◌≤◌, ◌<◌, ◌≡◌, sym, subst, ◌≢◌, String, Bool, true, false, none, some, List, length, text_key,
  arith, eq_iff, All, All-map, Bool-cases, Option-cases, inl, inr, ◌⊎◌,
}
use astrbot_plugin_webchat_g.Dict.{get, get-put, IsDistinct, put-IsDistinct, length-put_new}
use astrbot_plugin_webchat_g.StreamBuffer.Types.{is_terminal, Entry, Buffer, created, buffer_full}
use astrbot_plugin_webchat_g.StreamBuffer.{
  owned_closed, owned_total, evict_owned, oldest_closed, evict_global, insert_entry, pending_entry,
  create,
}
use astrbot_plugin_webchat_g.StreamBuffer.Evict.{
  IsClosedIn, IsHarmless, owned_closed-IsClosedIn, oldest_closed-none, AreInFlight, Evicts,
  Evicts-trans,
}
use astrbot_plugin_webchat_g.StreamBuffer.Rounds.{
  IsHarmless-closed, evict_owned-Evicts, evict_owned_cases, evict_global-Evicts, evict_global_room,
  evict_global_below, evict_global_full,
}

-- The caps of a buffer, and a table within them.
pub record IsCapped (b : Buffer) : Type 0 where
  pub positive : 0 < b.max_global
  pub bounded : length b.entries ≤ b.max_global
  pub distinct : IsDistinct b.entries

full_at :
    (b c : Buffer)
    → c ≡ b
    → IsCapped b
    → (evict_global (length c.entries) c).0 ≡ true
    → ((evict_global (length c.entries) c).2 ≡ b)
      × (oldest_closed b.entries ≡ none)
      × (length b.entries ≡ b.max_global)
full_at b c e v =
    subst
      (λ x.
        (evict_global (length x.entries) x).0 ≡ true
        → ((evict_global (length x.entries) x).2 ≡ b)
          × (oldest_closed b.entries ≡ none)
          × (length b.entries ≡ b.max_global))
      (sym e) (evict_global_full (length b.entries) b v.distinct v.bounded (omega arith) v.positive)

absent_after :
    {b c : Buffer} (j : String) → Evicts b c → get j b.entries ≡ none → get j c.entries ≡ none
absent_after {b} {c} j x h = elim (Option-cases (get j c.entries)) [
  | inl gone ↦ gone
  | inr (e, there) ↦ absurd (ground (arith, x.only j e there))
]

module _ (sid token session : String) (now : ℕ) (b : Buffer) (v : IsCapped b) where
  victims : All (IsClosedIn b.entries) (owned_closed token b.entries)
  victims = owned_closed-IsClosedIn token b.entries v.distinct

  -- The state between the two loops.
  trimmed : Buffer
  trimmed = (evict_owned (owned_closed token b.entries) (owned_total token b.entries) b).1

  trimmed-Evicts : Evicts b trimmed
  unfolding trimmed
  trimmed-Evicts =
      evict_owned-Evicts (owned_closed token b.entries) (owned_total token b.entries) b (
        All-map (IsClosedIn b.entries) (IsHarmless b.entries) (IsHarmless-closed b.entries)
          (owned_closed token b.entries) victims)

  settled : Bool × List String × Buffer
  unfolding trimmed
  settled = evict_global (length trimmed.entries) trimmed

  settled-Evicts : Evicts b settled.2
  unfolding settled
  settled-Evicts =
      Evicts-trans trimmed-Evicts
        (evict_global-Evicts (length trimmed.entries) trimmed (trimmed-Evicts.distinct v.distinct))

  settled_room : settled.0 ≡ false → length settled.2.entries < b.max_global
  unfolding settled
  settled_room ok = omega (
    arith,
    trimmed-Evicts.caps,
    evict_global_room (length trimmed.entries) trimmed (trimmed-Evicts.distinct v.distinct)
        (omega arith) (omega (arith, trimmed-Evicts.caps, v.positive)) ok,
  )

  -- An error leaves the buffer as it was.
  settled_full :
      settled.0 ≡ true
      → (settled.2 ≡ b) × (oldest_closed b.entries ≡ none) × (length b.entries ≡ b.max_global)
  unfolding settled trimmed
  settled_full bad =
      elim (evict_owned_cases (owned_closed token b.entries) (owned_total token b.entries) b
        victims) [
          | inl same ↦ full_at b trimmed same v bad
          | inr shorter ↦ absurd (
              ground (
                arith,
                evict_global_below (length trimmed.entries) trimmed
                    (omega (arith, trimmed-Evicts.caps, v.bounded)),
              ))
        ]

  -- Without an error the table keeps its bound with the new entry in it.
  inserted-IsCapped :
      get sid b.entries ≡ none
      → settled.0 ≡ false
      → IsCapped (insert_entry sid token session now settled.2)
  unfolding insert_entry
  inserted-IsCapped new ok =
      let x : Evicts b settled.2 = settled-Evicts in
      let gone : get sid settled.2.entries ≡ none = absent_after sid x new in
      record {
        positive = omega (arith, x.caps, v.positive);
        bounded = omega (
          arith,
          x.caps,
          settled_room ok,
          length-put_new sid (pending_entry token session now settled.2.next_event)
              settled.2.entries gone,
        );
        distinct =
            put-IsDistinct sid (pending_entry token session now settled.2.next_event)
              settled.2.entries (x.distinct v.distinct);
      }

  -- Either nothing happened, or closed streams were dropped and the new one was inserted.
  pub create_shape :
      ((create sid token session now b).2 ≡ b)
      ⊎ ((c : Buffer) × Evicts b c
          × (get sid c.entries ≡ none)
          × ((create sid token session now b).2 ≡ insert_entry sid token session now c))
  unfolding create settled trimmed
  create_shape = elim (Option-cases (get sid b.entries)) [
    | inr (e, there) ↦ inl (rw there)
    | inl new ↦ elim (Bool-cases settled.0) [
      | inl bad ↦ inl (rw (new, bad) (settled_full bad).0)
      | inr ok ↦ inr (settled.2, settled-Evicts, absent_after sid settled-Evicts new, rw (new, ok))
    ]
  ]

  -- `create` keeps the table within its cap, whatever its outcome.
  pub create-IsCapped : IsCapped (create sid token session now b).2
  unfolding create settled trimmed
  create-IsCapped = elim (Option-cases (get sid b.entries)) [
    | inr (e, there) ↦ rw there v
    | inl new ↦ elim (Bool-cases settled.0) [
      | inl bad ↦ rw (new, bad, (settled_full bad).0) v
      | inr ok ↦ rw (new, ok) (inserted-IsCapped new ok)
    ]
  ]

  -- `create` drops no stream that is in flight, whatever its outcome.
  pub create_keeps :
      (j : String) (e : Entry)
      → get j b.entries ≡ some e
      → is_terminal e.state ≡ false
      → get j (create sid token session now b).2.entries ≡ some e
  create_keeps j e at open_ = elim create_shape [
    | inl same ↦ rw same at
    | inr (c, x, new, made) ↦ rw made (
        unfold insert_entry in
        ground (
          arith,
          get-put sid j (pending_entry token session now c.next_event) c.entries,
          eq_iff sid j,
          x.kept j e,
        ))
  ]

  -- Every stream that is there after `create`, other than the new one, was there before, unchanged.
  pub create_adds_one :
      (j : String) (e : Entry)
      → sid ≢ j
      → get j (create sid token session now b).2.entries ≡ some e
      → get j b.entries ≡ some e
  create_adds_one j e other at = elim create_shape [
    | inl same ↦ rw (← same) at
    | inr (c, x, new, made) ↦ x.only j e (
        unfold insert_entry in
        ground (
          arith,
          get-put sid j (pending_entry token session now c.next_event) c.entries,
          eq_iff sid j,
          made,
        ))
  ]

  -- `BufferFullError` comes only where the table is at its cap with every stream in flight, and
  -- then the buffer is as it was: no eviction has been made whose audit is skipped.
  pub create_full :
      (create sid token session now b).0 ≡ buffer_full
      → ((create sid token session now b).2 ≡ b)
        × (length b.entries ≡ b.max_global)
        × AreInFlight b.entries
  unfolding create settled trimmed
  create_full h = elim (Option-cases (get sid b.entries)) [
    | inr (old, there) ↦ absurd (ground arith)
    | inl new ↦ elim (Bool-cases settled.0) [
      | inr ok ↦ absurd (ground arith)
      | inl bad ↦
          let (same, closed, full) = settled_full bad in
          (rw (new, bad) same, full, oldest_closed-none b.entries closed)
    ]
  ]

  -- A stream identifier that `create` accepts was not in use, and its entry is then pending, with
  -- no chunk, under the given token and session.
  pub create_created :
      (create sid token session now b).0 ≡ created
      → (get sid b.entries ≡ none)
        × (k : ℕ) × (get sid (create sid token session now b).2.entries
            ≡ some (pending_entry token session now k))
  unfolding create settled trimmed insert_entry
  create_created h = elim (Option-cases (get sid b.entries)) [
    | inr (old, there) ↦ absurd (ground arith)
    | inl new ↦ elim (Bool-cases settled.0) [
      | inl bad ↦ absurd (ground arith)
      | inr ok ↦ (
        new,
        settled.2.next_event,
        rw (new, ok)
            (ground (
              arith,
              get-put sid sid (pending_entry token session now settled.2.next_event)
                  settled.2.entries,
              eq_iff sid sid,
            )),
      )
    ]
  ]

-- A method that leaves the caps and adds no key.
pub IsCapped-Evicts : {b c : Buffer} → Evicts b c → IsCapped b → IsCapped c
IsCapped-Evicts x v = record {
  positive = omega (arith, x.caps, v.positive);
  bounded = omega (arith, x.caps, x.shorter, v.bounded);
  distinct = x.distinct v.distinct;
}
