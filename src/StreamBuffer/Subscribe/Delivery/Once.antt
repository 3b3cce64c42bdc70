-- ===== src/StreamBuffer/Subscribe/Delivery/Once.antt =====
-- The subscriber of one stream, over whole runs.
use astrbot_plugin_webchat_g.Prelude.{
  ℕ, ◌≡◌, refl, sym, ap, subst, ◌∙◌, String, Bool, true, false, Option, none, some, List, [], ◌∷◌,
  ◌++◌, append_assoc, append-nil, text_key, arith, length, All, Bool-cases, inl, inr, eq_iff,
}
use astrbot_plugin_webchat_g.Prelude.Int.{ℤ}
use astrbot_plugin_webchat_g.Dict.{get, get-put}
use astrbot_plugin_webchat_g.StreamBuffer.Types.{StreamState, Final, Entry, Buffer, is_terminal}
use astrbot_plugin_webchat_g.StreamBuffer.{newer, append_chunk, with_chunk, closed_with}
use astrbot_plugin_webchat_g.StreamBuffer.Caps.{IsCapped}
use astrbot_plugin_webchat_g.StreamBuffer.Writes.{appended, append_chunk_cases}
use astrbot_plugin_webchat_g.StreamBuffer.Subscribe.Cursor.{cursor}
use astrbot_plugin_webchat_g.StreamBuffer.Subscribe.{
  Stage, ready, yielding, parked, returned, Subscriber, iter_subscribe, read_entry, resume, apply,
  appends,
}
use astrbot_plugin_webchat_g.StreamBuffer.Subscribe.Within.{apply-IsCapped}
use astrbot_plugin_webchat_g.StreamBuffer.Subscribe.Evolve.{IsAside, Evolves, apply-Evolves}
use astrbot_plugin_webchat_g.StreamBuffer.Subscribe.Delivery.{
  Move, drives, others, turns, move, moves, next_seq, taken, reached, knows_closed, IsNumberedBelow,
  IsFaithful, IsFaithful-read, IsFaithful-with_chunk,
}

-- A method that is neither the driver's nor one that creates the stream.
abbrev pub IsAsideMove : String → Move → Type 0
IsAsideMove sid (drives text) = Unit
IsAsideMove sid (others o) = IsAside sid o
IsAsideMove sid turns = Unit

-- Where the entry is in the table, the subscriber is faithful to it.
abbrev pub Delivers : ℤ → Stage → Subscriber → Option Entry → Type 0
Delivers after stage u none = Unit
Delivers after stage u (some e) =
    IsFaithful after (reached stage u.last_seq) (taken stage u.delivered) (knows_closed stage) e

IsFaithful-closed_with :
    (after k : ℤ) (got : List (ℕ × String)) (known : Bool) (e : Entry) (state : StreamState)
    (final : Final) (now : ℕ)
    → is_terminal state ≡ true
    → IsFaithful after k got known e
    → IsFaithful after k got known (closed_with state final now e)
IsFaithful-closed_with after k got known e state final now fine f = record {
  numbered = f.numbered;
  flagged = sym fine;
  whole = f.whole;
  fits = f.fits;
  ended = λ t. (refl, (f.ended t).1);
}

Delivers-Evolves :
    (after : ℤ) (stage : Stage) (u : Subscriber) (x y : Option Entry)
    → Evolves x y
    → Delivers after stage u x
    → Delivers after stage u y
Delivers-Evolves after stage u x y (inl gone) h = subst (Delivers after stage u) (sym gone) tt
Delivers-Evolves after stage u x y (inr (inl same)) h = subst (Delivers after stage u) (sym same) h
Delivers-Evolves after stage u x y (inr (inr (e, state, final, now, at, fine, c))) h =
    subst (Delivers after stage u) (sym c) (
      IsFaithful-closed_with after (reached stage u.last_seq) (taken stage u.delivered)
        (knows_closed stage) e state final now fine (subst (Delivers after stage u) at h))

-- The driver's chunk has the next number.
Delivers-drives :
    (after : ℤ) (sid text : String) (b : Buffer) (stage : Stage) (u : Subscriber)
    → Delivers after stage u (get sid b.entries)
    → Delivers after stage u
        (get sid (append_chunk sid (next_seq (get sid b.entries)) text b).entries)
unfolding appended
Delivers-drives after sid text b stage u h =
    elim (append_chunk_cases sid b (next_seq (get sid b.entries)) text) [
      | inl (gone, same) ↦ rw same h
      | inr (inl (x, at, late, same)) ↦ rw same h
      | inr (inr (x, at, open_, e)) ↦
          let seq : ℕ = next_seq (get sid b.entries) in
          let numbered : seq ≡ length x.chunks = rw at refl in
          let f = subst (Delivers after stage u) at h in
          let made : get sid (append_chunk sid seq text b).entries
              ≡ some (with_chunk (length x.chunks) text b.next_event x) =
            rw (e, numbered)
              (ground (
                arith,
                get-put sid sid (with_chunk (length x.chunks) text b.next_event x) b.entries,
                eq_iff sid sid,
              )) in
          subst (Delivers after stage u) (sym made) (
            IsFaithful-with_chunk after (reached stage u.last_seq) (taken stage u.delivered)
              (knows_closed stage) x text b.next_event open_ f)
    ]

-- A turn of the subscriber.
Delivers-read :
    (after : ℤ) (x : Option Entry) (u : Subscriber)
    → Delivers after ready u x
    → Delivers after (read_entry x u).stage (read_entry x u) x
unfolding read_entry
Delivers-read after none u h = tt
Delivers-read after (some e) u h = IsFaithful-read after u.last_seq u.delivered e h

Delivers-yield :
    (after : ℤ) (c : ℕ × String) (pending : List (ℕ × String)) (wake : ℕ) (known : Bool)
    (b : Buffer) (u : Subscriber) (x : Option Entry)
    → Delivers after (yielding (c ∷ pending) wake known) u x
    → Delivers after
        (resume (yielding (c ∷ pending) wake known) b u).stage
        (resume (yielding (c ∷ pending) wake known) b u)
        x
unfolding resume cursor
Delivers-yield after c pending wake known b u none h = tt
Delivers-yield after c pending wake known b u (some e) h = rw append_assoc h

Delivers-sleep :
    (after : ℤ) (wake : ℕ) (known : Bool) (b : Buffer) (u : Subscriber) (x : Option Entry)
    → Delivers after (yielding [] wake known) u x
    → Delivers after
        (resume (yielding [] wake known) b u).stage
        (resume (yielding [] wake known) b u)
        x
unfolding resume cursor
Delivers-sleep after wake known b u none h = tt
Delivers-sleep after wake true b u (some e) h =
    subst (λ got. IsFaithful after u.last_seq got true e) (append-nil u.delivered) h
Delivers-sleep after wake false b u (some e) h =
    subst (λ got. IsFaithful after u.last_seq got false e) (append-nil u.delivered) h

Delivers-resume :
    (after : ℤ) (sid : String) (b : Buffer) (stage : Stage) (u : Subscriber)
    → u.stage ≡ stage
    → u.stream_id ≡ sid
    → Delivers after stage u (get sid b.entries)
    → Delivers after (resume stage b u).stage (resume stage b u) (get sid b.entries)
unfolding resume
Delivers-resume after sid b ready u at own h =
    subst
      (λ i.
        Delivers after (read_entry (get i b.entries) u).stage (read_entry (get i b.entries) u)
          (get sid b.entries))
      (sym own) (Delivers-read after (get sid b.entries) u h)
Delivers-resume after sid b (yielding [] wake known) u at own h =
    Delivers-sleep after wake known b u (get sid b.entries) h
Delivers-resume after sid b (yielding (c ∷ pending) wake known) u at own h =
    Delivers-yield after c pending wake known b u (get sid b.entries) h
Delivers-resume after sid b (parked wake) u at own h = elim (Bool-cases (b.is_set wake)) [
  | inl set ↦ rw set h
  | inr unset ↦ rw (unset, at) h
]
Delivers-resume after sid b (returned closed) u at own h = rw at h

resume-stream_id :
    (stage : Stage) (b : Buffer) (u : Subscriber) → (resume stage b u).stream_id ≡ u.stream_id
unfolding resume read_entry
resume-stream_id ready b u = ground arith
resume-stream_id (yielding [] wake known) b u = refl
resume-stream_id (yielding (c ∷ pending) wake known) b u = refl
resume-stream_id (parked wake) b u = ground arith
resume-stream_id (returned closed) b u = refl

-- What holds of a buffer and a subscriber of the stream.
record IsDelivering (after : ℤ) (sid : String) (s : Buffer × Subscriber) : Type 0 where
  capped : IsCapped s.0
  own : s.1.stream_id ≡ sid
  faithful : Delivers after s.1.stage s.1 (get sid s.0.entries)

append_chunk-IsCapped :
    (sid : String) (seq : ℕ) (text : String) (b : Buffer)
    → IsCapped b
    → IsCapped (append_chunk sid seq text b)
unfolding apply
append_chunk-IsCapped sid seq text b v = apply-IsCapped (appends sid seq text) b v

move-IsDelivering :
    (after : ℤ) (sid : String) (m : Move) (b : Buffer) (u : Subscriber)
    → IsAsideMove sid m
    → IsDelivering after sid (b, u)
    → IsDelivering after sid (move sid m (b, u))
unfolding move
move-IsDelivering after sid (drives text) b u aside i = record {
  capped = append_chunk-IsCapped sid (next_seq (get sid b.entries)) text b i.capped;
  own = i.own;
  faithful = Delivers-drives after sid text b u.stage u i.faithful;
}
move-IsDelivering after sid (others o) b u aside i = record {
  capped = apply-IsCapped o b i.capped;
  own = i.own;
  faithful =
      Delivers-Evolves after u.stage u (get sid b.entries) (get sid (apply o b).entries)
        (apply-Evolves o sid b i.capped aside) i.faithful;
}
move-IsDelivering after sid turns b u aside i = record {
  capped = i.capped;
  own = resume-stream_id u.stage b u ∙ i.own;
  faithful = Delivers-resume after sid b u.stage u refl i.own i.faithful;
}

moves-IsDelivering :
    (after : ℤ) (sid : String) (ms : List Move) (s : Buffer × Subscriber)
    → All (IsAsideMove sid) ms
    → IsDelivering after sid s
    → IsDelivering after sid (moves sid ms s)
unfolding moves
moves-IsDelivering after sid [] s aside i = i
moves-IsDelivering after sid (m ∷ ms) s aside i =
    moves-IsDelivering after sid ms (move sid m s) aside.1
      (move-IsDelivering after sid m s.0 s.1 aside.0 i)

-- The buffer and a new subscriber after some moves.
unfoldable pub outcome : ℤ → String → List Move → Buffer → Buffer × Subscriber
outcome after sid ms b = moves sid ms (b, iter_subscribe sid after)

module _ (after : ℤ) (sid : String) (ms : List Move) (b : Buffer) (e f : Entry) where
  outcome-Delivers :
      IsCapped b
      → get sid b.entries ≡ some e
      → IsNumberedBelow (length e.chunks) e.chunks
      → e.terminal ≡ is_terminal e.state
      → All (IsAsideMove sid) ms
      → get sid (outcome after sid ms b).0.entries ≡ some f
      → Delivers after (outcome after sid ms b).1.stage (outcome after sid ms b).1 (some f)
  unfolding outcome iter_subscribe
  outcome-Delivers v at numbered flagged aside still =
      let start : Delivers after ready (iter_subscribe sid after) (some e) = record {
        numbered = numbered;
        flagged = flagged;
        whole = refl;
        fits = λ n below. refl;
        ended = λ t. absurd (ground (arith, t));
      } in
      subst (Delivers after (outcome after sid ms b).1.stage (outcome after sid ms b).1) still
        (moves-IsDelivering after sid ms (b, iter_subscribe sid after) aside
          (record {
            capped = v;
            own = refl;
            faithful = subst (Delivers after ready (iter_subscribe sid after)) (sym at) start;
          })).faithful

  -- In order, none twice and none left out: from a stream whose chunks are numbered below their
  -- count, under any interleaving of its driver's chunks, of turns of the subscriber and of methods
  -- that neither create the stream nor append to it, and while the stream is in the table: what the
  -- subscriber has delivered, then what it holds to deliver, then what is above its cursor, is the
  -- list of the stream's chunks above the number that it subscribed from.
  pub delivers_in_order :
      IsCapped b
      → get sid b.entries ≡ some e
      → IsNumberedBelow (length e.chunks) e.chunks
      → e.terminal ≡ is_terminal e.state
      → All (IsAsideMove sid) ms
      → get sid (outcome after sid ms b).0.entries ≡ some f
      → taken (outcome after sid ms b).1.stage (outcome after sid ms b).1.delivered
          ++ newer
              (reached (outcome after sid ms b).1.stage (outcome after sid ms b).1.last_seq)
              f.chunks
        ≡ newer after f.chunks
  delivers_in_order v at numbered flagged aside still =
      (outcome-Delivers v at numbered flagged aside still).whole

  -- Under the same conditions: a subscriber that has returned because the stream was closed has
  -- delivered exactly the chunks above the number that it subscribed from, and the stream is closed.
  pub delivers_all :
      IsCapped b
      → get sid b.entries ≡ some e
      → IsNumberedBelow (length e.chunks) e.chunks
      → e.terminal ≡ is_terminal e.state
      → All (IsAsideMove sid) ms
      → get sid (outcome after sid ms b).0.entries ≡ some f
      → (outcome after sid ms b).1.stage ≡ returned true
      → ((outcome after sid ms b).1.delivered ≡ newer after f.chunks) × (is_terminal f.state ≡ true)
  delivers_all v at numbered flagged aside still done =
      let i : Delivers after (returned true) (outcome after sid ms b).1 (some f) =
        subst (λ stage. Delivers after stage (outcome after sid ms b).1 (some f)) done
          (outcome-Delivers v at numbered flagged aside still) in
      let (closed, none_left) = i.ended refl in
      (
        sym (append-nil (outcome after sid ms b).1.delivered)
            ∙ ap (λ cs. (outcome after sid ms b).1.delivered ++ cs) (sym none_left)
            ∙ i.whole,
        sym i.flagged ∙ closed,
      )
