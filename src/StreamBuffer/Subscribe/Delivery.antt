-- ===== src/StreamBuffer/Subscribe/Delivery.antt =====
-- What a subscriber delivers, against the chunks of its stream.
pub mod Once
use astrbot_plugin_webchat_g.Prelude.{
  ℕ, suc, ◌+◌, ◌≤◌, ◌<◌, ◌≡◌, refl, sym, ap, ◌∙◌, String, Bool, true, false, Option, none, some,
  List, [], ◌∷◌, ◌++◌, append_assoc, append-nil, if◌then◌else◌, text_key, arith, length,
  length-append, All, All-map, Bool-cases, Option-cases, inl, inr, ◌⊎◌, ◌==◌, eq_iff, select,
  select-append,
}
use astrbot_plugin_webchat_g.Prelude.Int.{ℤ, pos, ltb_ℤ}
use astrbot_plugin_webchat_g.Dict.{get, put, get-put}
use astrbot_plugin_webchat_g.StreamBuffer.Types.{Entry, Buffer, is_terminal}
use astrbot_plugin_webchat_g.StreamBuffer.{newer, append_chunk, with_chunk, closed_with}
use astrbot_plugin_webchat_g.StreamBuffer.Caps.{IsCapped}
use astrbot_plugin_webchat_g.StreamBuffer.Writes.{appended, append_chunk_cases}
use astrbot_plugin_webchat_g.StreamBuffer.Subscribe.Cursor.{cursor, newer-cursor}
use astrbot_plugin_webchat_g.StreamBuffer.Subscribe.{
  Stage, ready, yielding, parked, returned, Subscriber, iter_subscribe, read_entry, resume, Op,
  apply,
}
use astrbot_plugin_webchat_g.StreamBuffer.Subscribe.Within.{apply-IsCapped}

-- A chunk of the driver of the stream, which numbers its chunks from 0; a method on another
-- stream, or one that closes or drops this one; a turn of the subscriber.
pub data Move : Type 0 where
  drives : String → Move
  others : Op → Move
  turns : Move

abbrev pub next_seq : Option Entry → ℕ
next_seq none = 0
next_seq (some e) = length e.chunks

unfoldable pub move : String → Move → Buffer × Subscriber → Buffer × Subscriber
move sid (drives text) (b, u) = (append_chunk sid (next_seq (get sid b.entries)) text b, u)
move sid (others o) (b, u) = (apply o b, u)
move sid turns (b, u) = (b, resume u.stage b u)

unfoldable pub moves : String → List Move → Buffer × Subscriber → Buffer × Subscriber
moves sid [] s = s
moves sid (m ∷ ms) s = moves sid ms (move sid m s)

-- What the subscriber has delivered or is about to, and its cursor after that.
abbrev pub taken : Stage → List (ℕ × String) → List (ℕ × String)
taken ready got = got
taken (yielding pending wake terminal) got = got ++ pending
taken (parked wake) got = got
taken (returned closed) got = got

abbrev pub reached : Stage → ℤ → ℤ
reached ready k = k
reached (yielding pending wake terminal) k = cursor k pending
reached (parked wake) k = k
reached (returned closed) k = k

-- The stage knows that the stream is closed.
abbrev pub knows_closed : Stage → Bool
knows_closed ready = false
knows_closed (yielding pending wake terminal) = terminal
knows_closed (parked wake) = false
knows_closed (returned closed) = closed

-- All chunk numbers are below `n`.
abbrev pub IsNumberedBelow : ℕ → List (ℕ × String) → Type 0
IsNumberedBelow n = All (λ c. c.0 < n)

-- What is taken, and what is still above the cursor, is what is above the first cursor.
pub record IsFaithful (after k : ℤ) (got : List (ℕ × String)) (closed : Bool) (e : Entry)
    : Type 0 where
  pub numbered : IsNumberedBelow (length e.chunks) e.chunks
  pub flagged : e.terminal ≡ is_terminal e.state
  pub whole : got ++ newer k e.chunks ≡ newer after e.chunks
  pub fits : (n : ℕ) → IsNumberedBelow n e.chunks → ltb_ℤ k (pos n) ≡ ltb_ℤ after (pos n)
  pub ended : closed ≡ true → (e.terminal ≡ true) × (newer k e.chunks ≡ [])

cursor-below :
    (n : ℕ) (k : ℤ) (cs : List (ℕ × String))
    → IsNumberedBelow n cs
    → ltb_ℤ (cursor k cs) (pos n) ≡ ltb_ℤ k (pos n)
unfolding cursor
cursor-below n k [] h = refl
cursor-below n k (c ∷ cs) h =
    cursor-below n (if ltb_ℤ k (pos c.0) then pos c.0 else k) cs h.1 ∙ ground (arith, h.0)

newer-IsNumberedBelow :
    (n : ℕ) (k : ℤ) (cs : List (ℕ × String)) → IsNumberedBelow n cs → IsNumberedBelow n (newer k cs)
unfolding newer
newer-IsNumberedBelow n k [] h = tt
newer-IsNumberedBelow n k (c ∷ cs) h = elim (Bool-cases (ltb_ℤ k (pos c.0))) [
  | inl new ↦ rw new (h.0, newer-IsNumberedBelow n k cs h.1)
  | inr old ↦ rw old (newer-IsNumberedBelow n k cs h.1)
]

-- At the head of the loop everything above the cursor is taken.
IsFaithful-read :
    (after k : ℤ) (got : List (ℕ × String)) (e : Entry)
    → IsFaithful after k got false e
    → IsFaithful after (cursor k (newer k e.chunks)) (got ++ newer k e.chunks) e.terminal e
IsFaithful-read after k got e f = record {
  numbered = f.numbered;
  flagged = f.flagged;
  whole = rw (newer-cursor, append-nil) f.whole;
  fits = λ n below.
      cursor-below n k (newer k e.chunks) (newer-IsNumberedBelow n k e.chunks below)
      ∙ f.fits n below;
  ended = λ t. (t, newer-cursor k e.chunks);
}

newer-snoc :
    (k : ℤ) (cs : List (ℕ × String)) (c : ℕ × String)
    → newer k (cs ++ c ∷ []) ≡ newer k cs ++ (if ltb_ℤ k (pos c.0) then c ∷ [] else [])
unfolding newer
newer-snoc k cs c = select-append (λ d. ltb_ℤ k (pos d.0)) cs (c ∷ [])

IsNumberedBelow-snoc :
    (n : ℕ) (cs : List (ℕ × String)) (c : ℕ × String)
    → IsNumberedBelow n cs
    → c.0 < n
    → IsNumberedBelow n (cs ++ c ∷ [])
IsNumberedBelow-snoc n [] c h k = (k, tt)
IsNumberedBelow-snoc n (d ∷ cs) c h k = (h.0, IsNumberedBelow-snoc n cs c h.1 k)

IsNumberedBelow-init :
    (n : ℕ) (cs : List (ℕ × String)) (c : ℕ × String)
    → IsNumberedBelow n (cs ++ c ∷ [])
    → IsNumberedBelow n cs
IsNumberedBelow-init n [] c h = tt
IsNumberedBelow-init n (d ∷ cs) c h = (h.0, IsNumberedBelow-init n cs c h.1)

IsNumberedBelow-mono :
    (n m : ℕ) (cs : List (ℕ × String)) → n ≤ m → IsNumberedBelow n cs → IsNumberedBelow m cs
IsNumberedBelow-mono n m cs le h = All-map (λ c. c.0 < n) (λ c. c.0 < m) (λ c k. omega arith) cs h

-- A chunk of the driver comes above the cursor if it comes above the first one.
IsFaithful-with_chunk :
    (after k : ℤ) (got : List (ℕ × String)) (closed : Bool) (e : Entry) (text : String) (event : ℕ)
    → is_terminal e.state ≡ false
    → IsFaithful after k got closed e
    → IsFaithful after k got closed (with_chunk (length e.chunks) text event e)
IsFaithful-with_chunk after k got closed e text event open_ f =
    let c : ℕ × String = (length e.chunks, text) in
    record {
      numbered =
          IsNumberedBelow-snoc (length (e.chunks ++ c ∷ [])) e.chunks c
            (IsNumberedBelow-mono (length e.chunks) (length (e.chunks ++ c ∷ [])) e.chunks
              (omega (arith, length-append e.chunks (c ∷ []))) f.numbered)
            (omega (arith, length-append e.chunks (c ∷ [])));
      flagged = f.flagged ∙ open_;
      whole =
          rw (newer-snoc, newer-snoc, ← f.whole, f.fits (length e.chunks) f.numbered, append_assoc);
      fits = λ n below. f.fits n (IsNumberedBelow-init n e.chunks c below);
      ended = λ t. cc ((f.ended t).0, f.flagged, open_);
    }
