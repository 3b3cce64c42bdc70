-- ===== src/LogBuffer/Paging.antt =====
-- core/log_buffer.py, `snapshot`: what a client that follows the cursor gets.
use astrbot_plugin_webchat_g.Prelude.{
  ℕ, zero, suc, ◌+◌, ◌-◌, ◌≤◌, ◌<◌, ◌≡◌, refl, sym, ap, ◌∙◌, length-append, max, min, true, false,
  List, [], ◌∷◌, ◌++◌, ◌&&◌, if◌then◌else◌, ltb, leb, length, arith, select, Bool-cases, inl, inr,
  ◌⊎◌,
}
use astrbot_plugin_webchat_g.LogBuffer.{LogEntry, Ring, Filter, passes, scan, snapshot}

-- The numbers grow along the list, and are above `n`.
abbrev pub IsIncreasing : ℕ → List LogEntry → Type 0
IsIncreasing n [] = Unit
IsIncreasing n (e ∷ es) = (n < e.id) × IsIncreasing e.id es

pub IsIncreasing-weaken :
    (a b : ℕ) (es : List LogEntry) → a ≤ b → IsIncreasing b es → IsIncreasing a es
IsIncreasing-weaken a b [] le i = tt
IsIncreasing-weaken a b (e ∷ es) le i = (omega (arith, i.0), i.1)

-- The entries that the client has still to get.
unfoldable pub pending : Filter → ℕ → List LogEntry → List LogEntry
pending f since = select (λ e. ltb since e.id && passes f e)

empty-of-length : (es : List LogEntry) → length es ≤ 0 → es ≡ []
empty-of-length [] h = refl
empty-of-length (e ∷ es) h = absurd (ground (arith, h))

empty_cases : (es : List LogEntry) → (es ≡ []) ⊎ (1 ≤ length es)
empty_cases [] = inl refl
empty_cases (e ∷ es) = inr (omega arith)

module _ (f : Filter) where
  -- Entries with numbers above the cursor are pending whatever lies below it.
  pending-above :
      (a b : ℕ) (es : List LogEntry) → IsIncreasing b es → a ≤ b → pending f a es ≡ pending f b es
  unfolding pending
  pending-above a b [] i le = refl
  pending-above a b (e ∷ es) i le =
      ground (
        arith,
        i.0,
        pending-above a b es (IsIncreasing-weaken b e.id es (omega (arith, i.0)) i.1) le,
      )

  -- An entry up to the cursor is not pending.
  pending-old :
      (c : ℕ) (e : LogEntry) (es : List LogEntry) → e.id ≤ c → pending f c (e ∷ es) ≡ pending f c es
  unfolding pending
  pending-old c e es le = ground arith

  pending-hidden :
      (c : ℕ) (e : LogEntry) (es : List LogEntry)
      → passes f e ≡ false
      → pending f c (e ∷ es) ≡ pending f c es
  unfolding pending
  pending-hidden c e es out = ground arith

  pending-new :
      (c : ℕ) (e : LogEntry) (es : List LogEntry)
      → c < e.id
      → passes f e ≡ true
      → pending f c (e ∷ es) ≡ e ∷ pending f c es
  unfolding pending
  pending-new c e es new in_ = ground arith

  scan_lem :
      (since room seen n : ℕ) (es : List LogEntry)
      → IsIncreasing n es
      → since ≤ seen
      → seen ≤ max n since
      → ((scan f since room seen es).0 ++ pending f (scan f since room seen es).1 es
          ≡ pending f since es)
        × (seen ≤ (scan f since room seen es).1)
  unfolding scan
  scan_lem since room seen n [] i low high = (unfold pending in refl, omega arith)
  scan_lem since room seen n (e ∷ es) i low high =
      let highest : ℕ = if ltb seen e.id then e.id else seen in
      let above : since ≤ highest = ground arith in
      let within : highest ≤ max e.id since = ground (arith, i.0) in
      let passed : e.id ≤ highest = ground arith in
      let grown : seen ≤ highest = ground arith in
      let (skip, on) = scan_lem since room highest e.id es i.1 above within in
      let (take_, up) = scan_lem since (room - 1) highest e.id es i.1 above within in
      let skipped = (scan f since room highest es).1 in
      let taken = (scan f since (room - 1) highest es).1 in
      elim (Bool-cases (leb e.id since)) [
        | inl old ↦ rw old (
          rw
              (
                pending-old skipped e es (omega (arith, on, passed)),
                pending-old since e es (ground arith),
              )
              skip,
          omega (arith, on, grown),
        )
        | inr new ↦ elim (Bool-cases (passes f e)) [
          | inr out ↦
              rw (new, out)
                (
                  rw
                      (
                        pending-old skipped e es (omega (arith, on, passed)),
                        pending-hidden since e es out,
                      )
                      skip,
                  omega (arith, on, grown),
                )
          | inl in_ ↦
              let fresh = pending-new since e es (ground arith) in_ in
              elim (Bool-cases (leb room 1)) [
                | inl last ↦
                    rw (new, in_, last)
                      (
                        rw
                            (
                              pending-old e.id e es (omega arith),
                              fresh,
                              pending-above since e.id es i.1 (ground arith),
                            )
                            refl,
                        ground (arith, i.0),
                      )
                | inr more ↦
                    rw (new, in_, more)
                      (
                        rw (pending-old taken e es (omega (arith, up, passed)), fresh, take_) refl,
                        omega (arith, up, grown),
                      )
              ]
        ]
      ]

  scan_some :
      (since room seen : ℕ) (es : List LogEntry)
      → (scan f since room seen es).0 ≡ []
      → pending f since es ≡ []
  unfolding scan pending
  scan_some since room seen [] h = refl
  scan_some since room seen (e ∷ es) h =
      let highest : ℕ = if ltb seen e.id then e.id else seen in
      elim (Bool-cases (leb e.id since)) [
        | inl old ↦
            pending-old since e es (ground arith) ∙ scan_some since room highest es (ground arith)
        | inr new ↦ elim (Bool-cases (passes f e)) [
          | inr out ↦ pending-hidden since e es out ∙ scan_some since room highest es (ground arith)
          | inl in_ ↦ absurd (ground arith)
        ]
      ]

  scan-length :
      (since room seen : ℕ) (es : List LogEntry)
      → 1 ≤ room
      → length (scan f since room seen es).0 ≤ room
  unfolding scan
  scan-length since room seen [] h = omega arith
  scan-length since room seen (e ∷ es) h =
      let highest : ℕ = if ltb seen e.id then e.id else seen in
      elim (Bool-cases (leb e.id since)) [
        | inl old ↦ rw old (scan-length since room highest es h)
        | inr new ↦ elim (Bool-cases (passes f e)) [
          | inr out ↦ rw (new, out) (scan-length since room highest es h)
          | inl in_ ↦ elim (Bool-cases (leb room 1)) [
            | inl last ↦ rw (new, in_, last) (omega (arith, h))
            | inr more ↦
                rw (new, in_, more)
                  (omega (arith, scan-length since (room - 1) highest es (ground arith), h))
          ]
        ]
      ]

  module _ (r : Ring) where
    -- A snapshot of a ring whose numbers grow gives at most as many entries as it is asked for, and
    -- what it gives, then what is pending above the cursor that it returns, is what was pending: no
    -- entry is skipped and none comes twice. The cursor never goes back.
    pub snapshot_lem :
        (since limit : ℕ)
        → IsIncreasing 0 r.entries
        → ((snapshot f since limit r).0 ++ pending f (snapshot f since limit r).1 r.entries
            ≡ pending f since r.entries)
          × (since ≤ (snapshot f since limit r).1)
          × (length (snapshot f since limit r).0 ≤ max 1 (min limit r.capacity))
    unfolding snapshot
    snapshot_lem since limit i =
        let room : ℕ = max 1 (min limit r.capacity) in
        let (whole, on) = scan_lem since room since 0 r.entries i (omega arith) (omega arith) in
        (whole, on, scan-length since room since r.entries (omega arith))

    snapshot_some :
        (since limit : ℕ) → (snapshot f since limit r).0 ≡ [] → pending f since r.entries ≡ []
    unfolding snapshot
    snapshot_some since limit h = scan_some since (max 1 (min limit r.capacity)) since r.entries h

    -- The client that asks again from the cursor, `n` times.
    unfoldable pub drain : ℕ → ℕ → ℕ → List LogEntry
    drain limit zero since = []
    drain limit (suc n) since =
        let (out, cursor) = snapshot f since limit r in out ++ drain limit n cursor

    -- A client that asks again from the cursor gets all that is pending in a ring whose numbers grow,
    -- in order and each entry once, in no more reads than there are entries pending.
    pub drain_lem :
        (limit n since : ℕ)
        → IsIncreasing 0 r.entries
        → length (pending f since r.entries) ≤ n
        → drain limit n since ≡ pending f since r.entries
    unfolding drain
    drain_lem limit zero since i enough = sym (empty-of-length (pending f since r.entries) enough)
    drain_lem limit (suc n) since i enough =
        let (whole, on, short) = snapshot_lem since limit i in
        let (out, cursor) = snapshot f since limit r in
        let sizes : length out + length (pending f cursor r.entries)
            ≡ length (pending f since r.entries) =
          sym (length-append out (pending f cursor r.entries)) ∙ ap length whole in
        let few : length (pending f cursor r.entries) ≤ n = elim (empty_cases out) [
          | inl none_out ↦
              omega (arith, sizes, enough, ap length (snapshot_some since limit none_out))
          | inr some_out ↦ omega (arith, sizes, enough, some_out)
        ] in
        ap (λ es. out ++ es) (drain_lem limit n cursor i few) ∙ whole
