-- ===== src/Registry/Ends.antt =====
-- core/stream_registry.py, `_close`: the buffer, the driver and the errors of the services.
use astrbot_plugin_webchat_g.Prelude.{
  ℕ, ◌≡◌, refl, Bool, true, false, Option, none, some, text_key, arith, eq_iff, Bool-cases, inl,
  inr,
}
use astrbot_plugin_webchat_g.Dict.{get, get-put}
use astrbot_plugin_webchat_g.StreamBuffer.Types.{StreamState, Final, Entry, is_terminal}
use astrbot_plugin_webchat_g.StreamBuffer.{closed_with}
use astrbot_plugin_webchat_g.StreamBuffer.Writes.{close_cases, closed}
use astrbot_plugin_webchat_g.Registry.Types.{
  StreamHandle, World, Answer, answered, failed, cancelled, AuditEvent, EventStatus, ChatPair,
  Services,
}
use astrbot_plugin_webchat_g.Registry.{
  guarded, persisted, buffer_closed, close_steps, released, forgotten, close_unused, close,
}

module _ {ℓ} {X : Type ℓ} (services : Services X) (h : StreamHandle) (pair : Option ChatPair)
    (status : EventStatus) (state : StreamState) (final : Final) (event : AuditEvent)
    (now : ℕ) where
  buffer_closed-entry :
      (w : World X) (e : Entry)
      → is_terminal state ≡ true
      → get h.stream_id (buffer_closed h state final now w).buffer.entries ≡ some e
      → (e.state ≡ state) × (e.final ≡ some final) × (e.closed_at ≡ some now) × (e.terminal ≡ true)
  unfolding buffer_closed closed
  buffer_closed-entry w e fine at = elim (close_cases h.stream_id w.buffer state final now) [
    | inl (bad, shut) ↦ absurd (ground arith)
    | inr (inl (ok, gone, shut)) ↦ absurd (ground (arith, shut))
    | inr (inr (x, ok, there, shut)) ↦ ground (
      arith,
      shut,
      eq_iff h.stream_id h.stream_id,
      get-put h.stream_id h.stream_id (closed_with state final now x) w.buffer.entries,
    )
  ]

  -- Unless the service's part of `_close` is cancelled, the entry of the stream, if it is still in
  -- the buffer, is closed afterwards, with the state, the final payload and the time that were
  -- given: neither an error of the persistence nor one of the event leaves it open.
  pub close_ends_entry :
      (w : World X) (e : Entry)
      → is_terminal state ≡ true
      → (close_steps services h pair status state final now w).0 ≡ false
      → get h.stream_id (close_steps services h pair status state final now w).1.buffer.entries
        ≡ some e
      → (e.state ≡ state) × (e.final ≡ some final) × (e.closed_at ≡ some now) × (e.terminal ≡ true)
  unfolding close_steps
  close_ends_entry w e fine through at =
      let w1 = (persisted services h pair w).1 in
      let emitted = guarded (services.emit_stream_ended h status w1) in
      buffer_closed-entry emitted.1 e fine (elim (Bool-cases (persisted services h pair w).0) [
        | inl stopped ↦ absurd (ground arith)
        | inr on ↦ elim (Bool-cases emitted.0) [
          | inl halted ↦ absurd (ground arith)
          | inr done ↦ ground arith
        ]
      ])

  -- The audit leaves the drivers alone.
  abbrev pub LeavesDrivers : Type ℓ
  LeavesDrivers = (w : World X) → (services.write_audit event h w).1.drivers ≡ w.drivers

-- An `Exception` of the call is a plain return.
abbrev pub tolerant {ℓ} : {A : Type ℓ} → A → Answer A → Answer A
tolerant x (answered y) = answered x
tolerant x failed = answered x
tolerant x cancelled = cancelled

-- The services without their exceptions.
unfoldable pub tolerated {ℓ} : {X : Type ℓ} → Services X → Services X
tolerated s = record s {
  record_chat_pair = λ h pair w. let (a, w') = s.record_chat_pair h pair w in (tolerant tt a, w');
  emit_stream_ended =
      λ h status w. let (a, w') = s.emit_stream_ended h status w in (tolerant tt a, w');
  write_audit = λ event h w. let (a, w') = s.write_audit event h w in (tolerant tt a, w');
}

module _ {ℓ} {X : Type ℓ} (services : Services X) where
  guarded-tolerant : (r : Answer (Unit {ℓ}) × World X) → guarded (tolerant tt r.0, r.1) ≡ guarded r
  guarded-tolerant (answered x, w) = refl
  guarded-tolerant (failed, w) = refl
  guarded-tolerant (cancelled, w) = refl

  persisted-tolerated :
      (h : StreamHandle) (pair : Option ChatPair) (w : World X)
      → persisted (tolerated services) h pair w ≡ persisted services h pair w
  unfolding tolerated
  persisted-tolerated h none w = refl
  persisted-tolerated h (some pair) w = guarded-tolerant (services.record_chat_pair h pair w)

  emit-tolerated :
      (h : StreamHandle) (status : EventStatus) (w : World X)
      → guarded ((tolerated services).emit_stream_ended h status w)
        ≡ guarded (services.emit_stream_ended h status w)
  unfolding tolerated
  emit-tolerated h status w = guarded-tolerant (services.emit_stream_ended h status w)

  audit-tolerated :
      (event : AuditEvent) (h : StreamHandle) (w : World X)
      → guarded ((tolerated services).write_audit event h w)
        ≡ guarded (services.write_audit event h w)
  unfolding tolerated
  audit-tolerated event h w = guarded-tolerant (services.write_audit event h w)

  close_steps-tolerated :
      (h : StreamHandle) (pair : Option ChatPair) (status : EventStatus) (state : StreamState)
      (final : Final) (now : ℕ) (w : World X)
      → close_steps (tolerated services) h pair status state final now w
        ≡ close_steps services h pair status state final now w
  unfolding close_steps
  close_steps-tolerated h pair status state final now w =
      rw (persisted-tolerated h pair w, emit-tolerated h status (persisted services h pair w).1)
        refl

  module _ (h : StreamHandle) (pair : Option ChatPair) (status : EventStatus) (state : StreamState)
      (final : Final) (event : AuditEvent) (now : ℕ) (interrupted : Bool) (w : World X) where
    -- An exception of a service changes nothing that `_close` does: its outcome, its handle and the
    -- state that it leaves are those of services that return where these raise.
    pub close_swallows :
        close (tolerated services) h pair status state final event now interrupted w
        ≡ close services h pair status state final event now interrupted w
    unfolding close close_unused
    close_swallows =
        rw
          (
            close_steps-tolerated h pair status state final now w,
            audit-tolerated event h
                (forgotten h (released h (close_steps services h pair status state final now w).1)),
          )
          refl
