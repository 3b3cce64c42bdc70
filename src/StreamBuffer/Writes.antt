-- ===== src/StreamBuffer/Writes.antt =====
-- `append_chunk` and `close`, branch by branch.
use astrbot_plugin_webchat_g.Prelude.{
  ℕ, ◌+◌, ◌≡◌, String, true, false, none, some, text_key, Bool-cases, Option-cases, inl, inr, ◌⊎◌,
}
use astrbot_plugin_webchat_g.Dict.{get, put}
use astrbot_plugin_webchat_g.StreamBuffer.Types.{StreamState, Final, Entry, Buffer, is_terminal}
use astrbot_plugin_webchat_g.StreamBuffer.{set_event, append_chunk, close, with_chunk, closed_with}

module _ (sid : String) (b : Buffer) where
  -- The state after a chunk of a stream in flight.
  unfoldable pub appended : ℕ → String → Entry → Buffer
  unfolding set_event
  appended seq text x = set_event x.new_chunk (record b {
    entries = put sid (with_chunk seq text b.next_event x) b.entries;
    next_event = b.next_event + 1;
  })

  pub append_chunk_cases :
      (seq : ℕ) (text : String)
      → ((get sid b.entries ≡ none) × (append_chunk sid seq text b ≡ b))
        ⊎ ((x : Entry) × (get sid b.entries ≡ some x)
            × (is_terminal x.state ≡ true)
            × (append_chunk sid seq text b ≡ b))
        ⊎ ((x : Entry) × (get sid b.entries ≡ some x)
            × (is_terminal x.state ≡ false)
            × (append_chunk sid seq text b ≡ appended seq text x))
  unfolding append_chunk appended
  append_chunk_cases seq text = elim (Option-cases (get sid b.entries)) [
    | inl gone ↦ inl (gone, rw (gone, append_chunk))
    | inr (x, at) ↦ elim (Bool-cases (is_terminal x.state)) [
      | inl late ↦ inr (inl (x, at, late, rw (at, append_chunk, late)))
      | inr open_ ↦ inr (inr (x, at, open_, rw (at, append_chunk, open_)))
    ]
  ]

  unfoldable pub closed : StreamState → Final → ℕ → Entry → Buffer
  unfolding set_event
  closed state final now x =
      set_event x.new_chunk
        (record b { entries = put sid (closed_with state final now x) b.entries })

  pub close_cases :
      (state : StreamState) (final : Final) (now : ℕ)
      → ((is_terminal state ≡ false) × (close sid state final now b ≡ none))
        ⊎ ((is_terminal state ≡ true)
            × (get sid b.entries ≡ none)
            × (close sid state final now b ≡ some b))
        ⊎ ((x : Entry) × (is_terminal state ≡ true)
            × (get sid b.entries ≡ some x)
            × (close sid state final now b ≡ some (closed state final now x)))
  unfolding close closed
  close_cases state final now = elim (Bool-cases (is_terminal state)) [
    | inr refused ↦ inl (refused, rw (refused, close))
    | inl fine ↦ elim (Option-cases (get sid b.entries)) [
      | inl gone ↦ inr (inl (fine, gone, rw (gone, close, fine)))
      | inr (x, at) ↦ inr (inr (x, fine, at, rw (at, close, fine)))
    ]
  ]
