-- ===== src/StreamBuffer/Subscribe/Wakes.antt =====
-- The methods of the buffer, and the events that they set.
use astrbot_plugin_webchat_g.Prelude.{
  ℕ, ◌≡◌, String, true, none, some, List, [], ◌∷◌, ◌==◌, text_key, number_key, arith, eq_iff,
  nat_beq_iff, Bool-cases, Option-cases, inl, inr, ◌⊎◌,
}
use astrbot_plugin_webchat_g.Dict.{get, get-put, get-remove}
use astrbot_plugin_webchat_g.StreamBuffer.Types.{
  StreamState, Final, Entry, Buffer, Reason, manual, ttl_expired, is_terminal,
}
use astrbot_plugin_webchat_g.StreamBuffer.{
  evict_locked, create, append_chunk, close, do_evict, evict, evict_each, expired_ids, sweep_once,
  insert_entry, pending_entry, with_chunk, closed_with,
}
use astrbot_plugin_webchat_g.StreamBuffer.Evict.{Evicts}
use astrbot_plugin_webchat_g.StreamBuffer.Caps.{IsCapped, create_shape}
use astrbot_plugin_webchat_g.StreamBuffer.Subscribe.{
  Op, creates, appends, closes, evicts, sweeps, apply,
}

-- Whatever changes about a stream, its event is set.
pub record Wakes (b c : Buffer) : Type 0 where
  pub monotone : (k : ℕ) → b.is_set k ≡ true → c.is_set k ≡ true
  pub each :
      (j : String) (e : Entry)
      → get j b.entries ≡ some e
      → (c.is_set e.new_chunk ≡ true) ⊎ (get j c.entries ≡ some e)

pub Wakes-refl : (b : Buffer) → Wakes b b
Wakes-refl b = record { monotone = λ k h. h; each = λ j e h. inr h }

pub Wakes-trans : {b c d : Buffer} → Wakes b c → Wakes c d → Wakes b d
Wakes-trans x y = record {
  monotone = λ k h. y.monotone k (x.monotone k h);
  each = λ j e h. elim (x.each j e h) [
    | inl set ↦ inl (y.monotone e.new_chunk set)
    | inr same ↦ y.each j e same
  ];
}

Wakes-Evicts : {b c : Buffer} → Evicts b c → Wakes b c
Wakes-Evicts {b} {c} x = record {
  monotone = x.monotone;
  each = λ j e h. elim (Option-cases (get j c.entries)) [
    | inl gone ↦ inl (x.woken j e h gone)
    | inr (f, there) ↦ inr (ground (arith, x.only j f there))
  ];
}

module _ (sid : String) (b : Buffer) where
  evict_locked-Wakes : Wakes b (evict_locked sid b)
  unfolding evict_locked
  evict_locked-Wakes = record {
    monotone = λ k h. ground arith;
    each = λ j e h. elim (Bool-cases (sid == j)) [
      | inl own ↦ inl (ground (arith, eq_iff sid j, nat_beq_iff e.new_chunk e.new_chunk))
      | inr other ↦ inr (ground (arith, get-remove sid j b.entries))
    ];
  }

  append_chunk-Wakes : (seq : ℕ) (text : String) → Wakes b (append_chunk sid seq text b)
  unfolding append_chunk
  append_chunk-Wakes seq text = record {
    monotone = λ k h. ground arith;
    each = λ j e h. elim (Option-cases (get sid b.entries)) [
      | inl gone ↦ inr (ground arith)
      | inr (x, at) ↦ elim (Bool-cases (sid == j)) [
        | inr other ↦
            inr (ground (arith, get-put sid j (with_chunk seq text b.next_event x) b.entries))
        | inl own ↦ elim (Bool-cases (is_terminal x.state)) [
          | inl late ↦ inr (ground arith)
          | inr open_ ↦ inl (ground (arith, eq_iff sid j, nat_beq_iff e.new_chunk e.new_chunk))
        ]
      ]
    ];
  }

  insert_entry-Wakes :
      (token session : String) (now : ℕ)
      → get sid b.entries ≡ none
      → Wakes b (insert_entry sid token session now b)
  unfolding insert_entry
  insert_entry-Wakes token session now new = record {
    monotone = λ k h. h;
    each = λ j e h. inr (
        ground (
          arith,
          get-put sid j (pending_entry token session now b.next_event) b.entries,
          eq_iff sid j,
        ));
  }

  closes-Wakes :
      (state : StreamState) (final : Final) (now : ℕ)
      → Wakes b (apply (closes sid state final now) b)
  unfolding apply close
  closes-Wakes state final now = record {
    monotone = λ k h. ground arith;
    each = λ j e h. elim (Option-cases (get sid b.entries)) [
      | inl gone ↦ inr (ground arith)
      | inr (x, at) ↦ elim (Bool-cases (sid == j)) [
        | inr other ↦ inr (ground (arith, get-put sid j (closed_with state final now x) b.entries))
        | inl own ↦ elim (Bool-cases (is_terminal state)) [
          | inr refused ↦ inr (ground arith)
          | inl fine ↦ inl (ground (arith, eq_iff sid j, nat_beq_iff e.new_chunk e.new_chunk))
        ]
      ]
    ];
  }

  do_evict-Wakes : (reason : Reason) → Wakes b (do_evict sid reason b).1
  unfolding do_evict
  do_evict-Wakes reason = elim (Option-cases (get sid b.entries)) [
    | inl gone ↦ rw gone (Wakes-refl b)
    | inr (x, at) ↦ rw at evict_locked-Wakes
  ]

evict_each-Wakes :
    (sids : List String) (reason : Reason) (b : Buffer) → Wakes b (evict_each sids reason b).1
unfolding evict_each
evict_each-Wakes [] reason b = Wakes-refl b
evict_each-Wakes (sid ∷ sids) reason b =
    Wakes-trans (do_evict-Wakes sid b reason)
      (evict_each-Wakes sids reason (do_evict sid reason b).1)

creates-Wakes :
    (sid token session : String) (now : ℕ) (b : Buffer)
    → IsCapped b
    → Wakes b (create sid token session now b).2
creates-Wakes sid token session now b v = elim (create_shape sid token session now b v) [
  | inl same ↦ rw same (Wakes-refl b)
  | inr (c, x, new, e) ↦
      rw e (Wakes-trans (Wakes-Evicts x) (insert_entry-Wakes sid c token session now new))
]

-- Every method of the buffer wakes whoever waits for a stream that it changes.
pub apply-Wakes : (o : Op) (b : Buffer) → IsCapped b → Wakes b (apply o b)
unfolding apply evict sweep_once
apply-Wakes (creates sid token session now) b v = creates-Wakes sid token session now b v
apply-Wakes (appends sid seq text) b v = append_chunk-Wakes sid b seq text
apply-Wakes (closes sid state final now) b v = closes-Wakes sid b state final now
apply-Wakes (evicts sid) b v = do_evict-Wakes sid b manual
apply-Wakes (sweeps now) b v =
    evict_each-Wakes (expired_ids now b.grace_seconds b.entries) ttl_expired b
