-- ===== src/Registry/Numbering.antt =====
-- core/stream_registry.py, `append`: the numbers of the chunks.
use astrbot_plugin_webchat_g.Prelude.{
  ℕ, ◌+◌, ◌≡◌, refl, String, false, Option, none, some, List, [], ◌∷◌, ◌++◌, append_assoc,
  append-nil, if-false, text_key, arith, eq_iff, inl, inr,
}
use astrbot_plugin_webchat_g.Dict.{get, get-put}
use astrbot_plugin_webchat_g.StreamBuffer.Types.{Entry, is_terminal}
use astrbot_plugin_webchat_g.StreamBuffer.{with_chunk, append_chunk}
use astrbot_plugin_webchat_g.StreamBuffer.Writes.{append_chunk_cases, appended}
use astrbot_plugin_webchat_g.Registry.Types.{StreamHandle, World, Answer, answered, Services}
use astrbot_plugin_webchat_g.Registry.{append}

-- The texts with their numbers, from `n`.
abbrev pub numbered_from : ℕ → List String → List (ℕ × String)
numbered_from n [] = []
numbered_from n (t ∷ ts) = (n, t) ∷ numbered_from (n + 1) ts

abbrev pub numbers_from : ℕ → List String → List (Answer ℕ)
numbers_from n [] = []
numbers_from n (t ∷ ts) = answered n ∷ numbers_from (n + 1) ts

module _ {ℓ} {X : Type ℓ} (services : Services X) where
  -- The driver's calls of `append`, with what they return.
  unfoldable pub append_each :
      List String → StreamHandle → World X → List (Answer ℕ) × StreamHandle × World X
  append_each [] h w = ([], h, w)
  append_each (text ∷ texts) h w =
      let (a, h1, w1) = append services h text w in
      let (more, h2, w2) = append_each texts h1 w1 in (a ∷ more, h2, w2)

  abbrev after_append : StreamHandle → String → World X → World X
  after_append h text w = record w { buffer = append_chunk h.stream_id h.next_seq text w.buffer }

  append-open :
      (h : StreamHandle) (text : String) (w : World X)
      → h.used ≡ false
      → append services h text w
        ≡ (answered h.next_seq, record h { next_seq = h.next_seq + 1 }, after_append h text w)
  unfolding append
  append-open h text w fresh = if-false h.used _ _ fresh

  -- The chunks and the state of the stream's entry.
  abbrev pub chunks_at : String → World X → Option (List (ℕ × String))
  chunks_at sid w = elim (get sid w.buffer.entries) [ none ↦ none | some e ↦ some e.chunks ]

  -- On a handle that is not used and a stream in flight, the calls of `append` return consecutive
  -- numbers from the handle's next one, and the buffer gets the texts in order under these numbers,
  -- none left out.
  pub append_each_lem :
      (texts : List String) (h : StreamHandle) (w : World X) (e : Entry)
      → h.used ≡ false
      → get h.stream_id w.buffer.entries ≡ some e
      → is_terminal e.state ≡ false
      → ((append_each texts h w).0 ≡ numbers_from h.next_seq texts)
        × (chunks_at h.stream_id (append_each texts h w).2
            ≡ some (e.chunks ++ numbered_from h.next_seq texts))
  unfolding append_each appended
  append_each_lem [] h w e fresh at open_ = (refl, ground (arith, at, append-nil e.chunks))
  append_each_lem (text ∷ texts) h w e fresh at open_ =
      elim (append_chunk_cases h.stream_id w.buffer h.next_seq text) [
        | inl (gone, same) ↦ absurd (ground arith)
        | inr (inl (x, there, late, same)) ↦ absurd (ground arith)
        | inr (inr (x, there, open', made)) ↦
            let y : Entry = with_chunk h.next_seq text w.buffer.next_event x in
            let same : x ≡ e = cc in
            let stored : get h.stream_id (after_append h text w).buffer.entries ≡ some y = rw made (
              ground (
                arith,
                get-put h.stream_id h.stream_id y w.buffer.entries,
                eq_iff h.stream_id h.stream_id,
              )) in
            let (numbers, chunks) =
              append_each_lem texts (record h { next_seq = h.next_seq + 1 }) (after_append h text w)
                y fresh stored refl in
            rw (append-open h text w fresh) (rw numbers refl, rw (chunks, same, append_assoc) refl)
      ]
