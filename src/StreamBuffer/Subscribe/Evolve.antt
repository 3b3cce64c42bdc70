-- ===== src/StreamBuffer/Subscribe/Evolve.antt =====
-- What a method of the buffer does to the entry of a stream that it neither creates nor appends to.
use astrbot_plugin_webchat_g.Prelude.{
  ℕ, ◌≡◌, refl, String, true, false, Option, none, some, List, [], ◌∷◌, ◌==◌, is_some, text_key,
  arith, eq_iff, Bool-cases, Option-cases, inl, inr, ◌⊎◌,
}
use astrbot_plugin_webchat_g.Dict.{get, get-put}
use astrbot_plugin_webchat_g.StreamBuffer.Types.{
  StreamState, Final, Entry, Buffer, Reason, manual, ttl_expired, is_terminal,
}
use astrbot_plugin_webchat_g.StreamBuffer.{
  closed_with, do_evict, evict_each, evict, sweep_once, expired_ids, insert_entry, pending_entry,
  with_chunk,
}
use astrbot_plugin_webchat_g.StreamBuffer.Evict.{get-evict_locked}
use astrbot_plugin_webchat_g.StreamBuffer.Caps.{IsCapped, create_shape}
use astrbot_plugin_webchat_g.StreamBuffer.Writes.{appended, append_chunk_cases, closed, close_cases}
use astrbot_plugin_webchat_g.StreamBuffer.Subscribe.{
  Op, creates, appends, closes, evicts, sweeps, apply,
}

-- The method is not one that creates the stream or appends to it.
abbrev pub IsAside : String → Op → Type 0
IsAside sid (creates j token session now) = (j == sid) ≡ false
IsAside sid (appends j seq text) = (j == sid) ≡ false
IsAside sid (closes j state final now) = Unit
IsAside sid (evicts j) = Unit
IsAside sid (sweeps now) = Unit

-- The entry is dropped, left alone, or closed.
abbrev pub Evolves : Option Entry → Option Entry → Type 0
Evolves x y =
    (y ≡ none)
    ⊎ (y ≡ x)
    ⊎ ((e : Entry) × (state : StreamState) × (final : Final) × (now : ℕ) × (x ≡ some e)
        × (is_terminal state ≡ true)
        × (y ≡ some (closed_with state final now e)))

get-evict_each :
    (sid : String) (vs : List String) (reason : Reason) (b : Buffer)
    → (get sid (evict_each vs reason b).1.entries ≡ none)
      ⊎ (get sid (evict_each vs reason b).1.entries ≡ get sid b.entries)
unfolding evict_each do_evict
get-evict_each sid [] reason b = inr refl
get-evict_each sid (v ∷ vs) reason b = elim (get-evict_each sid vs reason (do_evict v reason b).1) [
  | inl gone ↦ inl gone
  | inr same ↦ elim (Bool-cases (is_some (get v b.entries))) [
    | inr absent ↦ inr (ground arith)
    | inl there ↦ elim (Bool-cases (v == sid)) [
      | inl it ↦ inl (ground (arith, get-evict_locked v b sid))
      | inr other ↦ inr (ground (arith, get-evict_locked v b sid))
    ]
  ]
]

evicting-Evolves :
    (sid : String) (vs : List String) (reason : Reason) (b : Buffer)
    → Evolves (get sid b.entries) (get sid (evict_each vs reason b).1.entries)
evicting-Evolves sid vs reason b = elim (get-evict_each sid vs reason b) [
  | inl gone ↦ inl gone
  | inr same ↦ inr (inl same)
]

creating-Evolves :
    (j token session : String) (now : ℕ) (sid : String) (b : Buffer)
    → IsCapped b
    → (j == sid) ≡ false
    → Evolves (get sid b.entries) (get sid (apply (creates j token session now) b).entries)
unfolding apply insert_entry
creating-Evolves j token session now sid b v other = elim (create_shape j token session now b v) [
  | inl same ↦ rw same (inr (inl refl))
  | inr (c, x, new, made) ↦ elim (Option-cases (get sid c.entries)) [
    | inl gone ↦ inl (
        rw made
          (ground (arith, get-put j sid (pending_entry token session now c.next_event) c.entries)))
    | inr (e, there) ↦ inr (
        inl (
          rw (made, x.only sid e there)
            (ground
              (arith, get-put j sid (pending_entry token session now c.next_event) c.entries))))
  ]
]

closing-Evolves :
    (j : String) (state : StreamState) (final : Final) (now : ℕ) (sid : String) (b : Buffer)
    → Evolves (get sid b.entries) (get sid (apply (closes j state final now) b).entries)
unfolding closed apply get
closing-Evolves j state final now sid b = elim (close_cases j b state final now) [
  | inl (refused, e) ↦ rw (e, apply) (inr (inl refl))
  | inr (inl (fine, gone, e)) ↦ rw (e, apply) (inr (inl refl))
  | inr (inr (x, fine, at, e)) ↦ elim (Bool-cases (j == sid)) [
    | inl it ↦ inr (
        inr (
          x,
          state,
          final,
          now,
          ground (arith, eq_iff j sid),
          fine,
          rw (e, apply) (ground (arith, get-put j sid (closed_with state final now x) b.entries)),
        ))
    | inr other ↦ inr (
        inl
          (rw (e, apply) (ground (arith, get-put j sid (closed_with state final now x) b.entries))))
  ]
]

appending-Evolves :
    (j : String) (seq : ℕ) (text : String) (sid : String) (b : Buffer)
    → (j == sid) ≡ false
    → Evolves (get sid b.entries) (get sid (apply (appends j seq text) b).entries)
unfolding apply appended
appending-Evolves j seq text sid b other = elim (append_chunk_cases j b seq text) [
  | inl (gone, same) ↦ rw same (inr (inl refl))
  | inr (inl (x, at, late, same)) ↦ rw same (inr (inl refl))
  | inr (inr (x, at, open_, e)) ↦
      inr
        (inl (rw e (ground (arith, get-put j sid (with_chunk seq text b.next_event x) b.entries))))
]

pub apply-Evolves :
    (o : Op) (sid : String) (b : Buffer)
    → IsCapped b
    → IsAside sid o
    → Evolves (get sid b.entries) (get sid (apply o b).entries)
unfolding apply evict sweep_once
apply-Evolves (creates j token session now) sid b v h =
    creating-Evolves j token session now sid b v h
apply-Evolves (appends j seq text) sid b v h = appending-Evolves j seq text sid b h
apply-Evolves (closes j state final now) sid b v h = closing-Evolves j state final now sid b
apply-Evolves (evicts j) sid b v h = unfold evict_each in evicting-Evolves sid (j ∷ []) manual b
apply-Evolves (sweeps now) sid b v h =
    evicting-Evolves sid (expired_ids now b.grace_seconds b.entries) ttl_expired b
