-- ===== src/Registry/Opening.antt =====
-- core/stream_registry.py, `open`: the lock and the buffer after each of its ends.
use astrbot_plugin_webchat_g.Prelude.{
  ℕ, ◌≡◌, refl, ap, String, Bool, true, false, Option, none, some, List, ◌==◌, if◌then◌else◌,
  is_some, length, text_key, arith, eq_iff, Bool-cases, Option-cases, inl, inr, ◌⊎◌,
}
use astrbot_plugin_webchat_g.Dict.{get, put, get-put}
use astrbot_plugin_webchat_g.Ratelimit.{Limiter, busy, release}
use astrbot_plugin_webchat_g.Ratelimit.Keys.{session_key}
use astrbot_plugin_webchat_g.Ratelimit.Invariant.{
  IsValid, Frees, Takes, acquire_with_id-busy, acquire_with_id_of_free, release_held,
}
use astrbot_plugin_webchat_g.StreamBuffer.{
  create, evict_owned, owned_closed, owned_total, evict_global,
}
use astrbot_plugin_webchat_g.StreamBuffer.Types.{Buffer, Outcome, created, reused, buffer_full}
use astrbot_plugin_webchat_g.StreamBuffer.Caps.{IsCapped, create_full, create_created}
use astrbot_plugin_webchat_g.Registry.Types.{
  StreamHandle, World, Answer, answered, cancelled, answer_cases, stream_started, AuditEvent,
  Services,
}
use astrbot_plugin_webchat_g.Registry.StreamId.{is_stream_id}
use astrbot_plugin_webchat_g.Registry.{new_handle, audited_handle, open_locked, open_stream}

outcome_cases : (o : Outcome) → (o ≡ created) ⊎ (o ≡ reused) ⊎ (o ≡ buffer_full)
outcome_cases created = inl refl
outcome_cases reused = inr (inl refl)
outcome_cases buffer_full = inr (inr refl)

-- Where `create` keeps an entry that is there, the buffer is as it was.
create-reused :
    (sid token session : String) (now : ℕ) (b : Buffer)
    → (create sid token session now b).0 ≡ reused
    → (is_some (get sid b.entries) ≡ true) × ((create sid token session now b).2 ≡ b)
unfolding create
create-reused sid token session now b h = elim (Option-cases (get sid b.entries)) [
  | inr (e, there) ↦ (ground arith, ground arith)
  | inl new ↦
      let (owned, b1) =
        evict_owned (owned_closed token b.entries) (owned_total token b.entries) b in
      elim (Bool-cases (evict_global (length b1.entries) b1).0) [
        | inl bad ↦ absurd (ground arith)
        | inr fine ↦ absurd (ground arith)
      ]
]

-- What `open` has done when it comes to its audit: the lock is taken, the entry is in the buffer.
record IsOpened {ℓ} (X : Type ℓ) (key sid : String) (before after : World X) : Type ℓ where
  was_free : busy key before.limiter ≡ false
  taken : (m : String) → busy m after.limiter ≡ (if key == m then true else busy m before.limiter)
  held : get key after.limiter.holders ≡ some sid
  entered : is_some (get sid after.buffer.entries) ≡ true

module _ {ℓ} {X : Type ℓ} (services : Services X) where
  -- While the audit is awaited no other task changes the locks or the buffer.
  pub record LeavesStreams : Type ℓ where
    pub limiter_same :
        (event : AuditEvent) (h : StreamHandle) (w : World X)
        → (services.write_audit event h w).1.limiter ≡ w.limiter
    pub buffer_same :
        (event : AuditEvent) (h : StreamHandle) (w : World X)
        → (services.write_audit event h w).1.buffer ≡ w.buffer

  module _ (sid token session : String) (files : List String) (now : ℕ) (interrupted : Bool)
      (w : World X) where
    -- A call that ended without a stream: no lock and nothing in the buffer is changed.
    IsUndone : Answer (Option StreamHandle) × World X → Type 0
    IsUndone r =
        ((r.0 ≡ answered none) ⊎ ((interrupted ≡ true) × (r.0 ≡ cancelled)))
        × ((m : String) → busy m r.1.limiter ≡ busy m w.limiter)
        × (r.1.buffer ≡ w.buffer)

    -- A call that came to its audit.
    IsStarted : Answer (Option StreamHandle) × World X → Type ℓ
    IsStarted r =
        (v : World X) × IsOpened X (session_key token session) sid w v
        × (r ≡ audited_handle services (new_handle sid token session now files) v)

    module _ (l : ℕ) (t : Limiter) (free : busy (session_key token session) w.limiter ≡ false)
        (k : Takes (session_key token session) l w.limiter t)
        (same : t.holders ≡ put (session_key token session) sid w.limiter.holders) where
      holding : get (session_key token session) t.holders ≡ some sid
      holding = rw same (
          ground (
            arith,
            get-put (session_key token session) (session_key token session) sid w.limiter.holders,
            eq_iff (session_key token session) (session_key token session),
          ))

      started :
          is_some (get sid (create sid token session now w.buffer).2.entries) ≡ true
          → IsOpened X
              (session_key token session)
              sid
              w
              (record w { limiter = t; buffer = (create sid token session now w.buffer).2 })
      started there = record { was_free = free; taken = k.busy_at; held = holding; entered = there }

      open_locked_cases :
          IsCapped w.buffer
          → IsUndone (
              open_locked services sid token session files now interrupted
                (record w { limiter = t }))
            ⊎ IsStarted (
                open_locked services sid token session files now interrupted
                  (record w { limiter = t }))
      unfolding open_locked IsUndone IsStarted
      open_locked_cases capped = elim (outcome_cases (create sid token session now w.buffer).0) [
        | inl new ↦
            let (gone, event, at) = create_created sid token session now w.buffer capped new in
            inr (_, started (rw at refl), rw (new, open_locked) refl)
        | inr (inl old) ↦
            let (there, unchanged) = create-reused sid token session now w.buffer old in
            inr (_, started (rw unchanged there), rw (old, open_locked) refl)
        | inr (inr full) ↦
            let (unchanged, full_table, in_flight) =
              create_full sid token session now w.buffer capped full in
            let f : Frees (session_key token session) t
                (release (session_key token session) sid t) =
              (release_held (session_key token session) t k.valid sid holding).0 in
            inl (
              elim (Bool-cases interrupted) [
                | inl cut ↦ inr (cut, rw (full, open_locked, cut) refl)
                | inr whole ↦ inl (rw (full, open_locked, whole) refl)
              ],
              λ m.
                  rw (full, open_locked)
                    (ground
                      (arith, f.busy_at m, k.busy_at m, eq_iff (session_key token session) m)),
              rw (full, open_locked) unchanged,
            )
      ]

    -- The ways that `open` can go.
    open_stream_cases :
        IsValid w.limiter
        → IsCapped w.buffer
        → IsUndone (open_stream services sid token session files now interrupted w)
          ⊎ IsStarted (open_stream services sid token session files now interrupted w)
    unfolding open_stream IsUndone IsStarted
    open_stream_cases valid capped = elim (Bool-cases (is_stream_id sid)) [
      | inr bad ↦ inl (inl (rw bad refl), λ m. rw bad refl, rw bad refl)
      | inl fine ↦ elim (Bool-cases (busy (session_key token session) w.limiter)) [
        | inl taken ↦
            let e = acquire_with_id-busy (session_key token session) w.limiter sid taken in
            inl (inl (rw (fine, e) refl), λ m. rw (fine, e) refl, rw (fine, e) refl)
        | inr free ↦
            let (l, t, e, k, same) =
              acquire_with_id_of_free (session_key token session) w.limiter valid free sid in
            rw (fine, e) (open_locked_cases l t free k same capped)
      ]
    ]

    audited_handle_cases :
        (h : StreamHandle) (v : World X)
        → (audited_handle services h v
            ≡ (answered (some h), (services.write_audit stream_started h v).1))
          ⊎ (audited_handle services h v ≡ (cancelled, (services.write_audit stream_started h v).1))
    unfolding audited_handle
    audited_handle_cases h v = elim (answer_cases (services.write_audit stream_started h v).0) [
      | inl (x, fine) ↦ inl (rw (audited_handle, fine) refl)
      | inr (inl raised) ↦ inl (rw (audited_handle, raised) refl)
      | inr (inr cut) ↦ inr (rw (audited_handle, cut) refl)
    ]

    -- From a valid limiter and a buffer within its caps: where `open` returns no stream, because of
    -- its identifier, a stream in flight or a full buffer, no lock and no entry is changed.
    pub open_refuses :
        (m : String)
        → IsValid w.limiter
        → IsCapped w.buffer
        → (open_stream services sid token session files now interrupted w).0 ≡ answered none
        → (busy m (open_stream services sid token session files now interrupted w).1.limiter
            ≡ busy m w.limiter)
          × ((open_stream services sid token session files now interrupted w).1.buffer ≡ w.buffer)
    unfolding IsUndone IsStarted
    open_refuses m valid capped refused = elim (open_stream_cases valid capped) [
      | inl (ending, locks, entries) ↦ (locks m, entries)
      | inr (v, opened, e) ↦
          absurd (elim (audited_handle_cases (new_handle sid token session now files) v) [
            | inl whole ↦ cc (ap (λ r. r.0) e, ap (λ r. r.0) whole, refused)
            | inr cut ↦ cc (ap (λ r. r.0) e, ap (λ r. r.0) cut, refused)
          ])
    ]

    -- From a valid limiter and a buffer within its caps, and where the audit leaves locks and buffer
    -- alone: a stream that `open` returns had no other in flight beside it on its session; it holds
    -- the lock of its session, no other lock is changed, and its entry is in the buffer.
    pub open_grants :
        (m : String) (h : StreamHandle)
        → IsValid w.limiter
        → IsCapped w.buffer
        → LeavesStreams
        → (open_stream services sid token session files now interrupted w).0 ≡ answered (some h)
        → (busy (session_key token session) w.limiter ≡ false)
          × (busy m (open_stream services sid token session files now interrupted w).1.limiter
              ≡ (if session_key token session == m then true else busy m w.limiter))
          × (get
                (session_key token session)
                (open_stream services sid token session files now interrupted w).1.limiter.holders
              ≡ some sid)
          × (is_some (
                get sid
                  (open_stream services sid token session files now interrupted w).1.buffer.entries)
              ≡ true)
          × (h ≡ new_handle sid token session now files)
    unfolding IsUndone IsStarted
    open_grants m h valid capped leaves granted = elim (open_stream_cases valid capped) [
      | inl (ending, locks, entries) ↦ absurd (elim ending [ inl none_ ↦ cc | inr (cut, e) ↦ cc ])
      | inr (v, opened, e) ↦
          elim (audited_handle_cases (new_handle sid token session now files) v) [
            | inr cut ↦ absurd (cc (ap (λ r. r.0) e, ap (λ r. r.0) cut, granted))
            | inl whole ↦
                rw (e, whole, leaves.limiter_same, leaves.buffer_same)
                  (
                    opened.was_free,
                    opened.taken m,
                    opened.held,
                    opened.entered,
                    cc (ap (λ r. r.0) e, ap (λ r. r.0) whole, granted),
                  )
          ]
    ]

-- From a valid limiter and a buffer within its caps, and where the audit leaves locks and buffer
-- alone: an `open` that is cancelled, with no cancellation in its shielded release, returns no
-- handle and leaves the lock of its session taken under the identifier of its stream, which no
-- caller knows, and an entry in the buffer.
pub open_leaks {ℓ} :
    {X : Type ℓ} (services : Services X) (sid token session : String) (files : List String)
    (now : ℕ) (w : World X)
    → IsValid w.limiter
    → IsCapped w.buffer
    → LeavesStreams services
    → (open_stream services sid token session files now false w).0 ≡ cancelled
    → (busy
          (session_key token session)
          (open_stream services sid token session files now false w).1.limiter
        ≡ true)
      × (get
            (session_key token session)
            (open_stream services sid token session files now false w).1.limiter.holders
          ≡ some sid)
      × (is_some
            (get sid (open_stream services sid token session files now false w).1.buffer.entries)
          ≡ true)
unfolding IsUndone IsStarted
open_leaks services sid token session files now w valid capped leaves stopped =
    let key = session_key token session in
    elim (open_stream_cases services sid token session files now false w valid capped) [
      | inl (ending, locks, entries) ↦ absurd (elim ending [ inl none_ ↦ cc | inr (cut, e) ↦ cc ])
      | inr (v, opened, e) ↦
          elim (audited_handle_cases services sid token session files now false w
            (new_handle sid token session now files) v) [
              | inl whole ↦ absurd (cc (ap (λ r. r.0) e, ap (λ r. r.0) whole, stopped))
              | inr cut ↦
                  rw (e, cut, leaves.limiter_same, leaves.buffer_same)
                    (ground (arith, opened.taken key, eq_iff key key), opened.held, opened.entered)
            ]
    ]
