-- ===== src/Registry/Closing.antt =====
-- core/stream_registry.py, `_close`: what it does whatever the services do.
use astrbot_plugin_webchat_g.Prelude.{
  ℕ, ◌≡◌, refl, ◌≢◌, String, Bool, true, false, Option, some, if-false, text_key, arith, eq_iff,
  Bool-cases, Option-cases, inl, inr,
}
use astrbot_plugin_webchat_g.Dict.{get, get-remove}
use astrbot_plugin_webchat_g.Ratelimit
use astrbot_plugin_webchat_g.Ratelimit.{Limiter, free_lock}
use astrbot_plugin_webchat_g.Ratelimit.Invariant.{IsValid}
use astrbot_plugin_webchat_g.StreamBuffer.Types.{StreamState, Final}
use astrbot_plugin_webchat_g.Registry.Types.{
  StreamHandle, World, Answer, answered, failed, cancelled, AuditEvent, EventStatus, ChatPair,
  Services,
}
use astrbot_plugin_webchat_g.Registry.{
  lock_key, guarded, close_steps, released, forgotten, close_unused, close,
}

-- After a release the given stream is not the holder.
pub release-not-held :
    (name sid : String) (s : Limiter) → get name (Ratelimit.release name sid s).holders ≢ some sid
unfolding Ratelimit.release free_lock
release-not-held name sid s = λ e. elim (Option-cases (get name s.holders)) [
  | inl gone ↦ ground arith
  | inr (holder, at) ↦
      ground (arith, eq_iff holder sid, eq_iff name name, get-remove name name s.holders)
]

pub guarded-world {ℓ} : {X : Type ℓ} (r : Answer (Unit {ℓ}) × World X) → (guarded r).1 ≡ r.1
guarded-world (answered x, w) = refl
guarded-world (failed, w) = refl
guarded-world (cancelled, w) = refl

module _ {ℓ} {X : Type ℓ} (services : Services X) (h : StreamHandle) where
  -- The stream is the holder of its lock.
  pub record Owns (w : World X) : Type ℓ where
    pub valid : IsValid w.limiter
    pub held : get (lock_key h) w.limiter.holders ≡ some h.stream_id

  -- While the conversation service is awaited no other task takes the lock away; while the audit
  -- is awaited none takes it under the identifier of this stream.
  pub record IsOrderly : Type ℓ where
    pub persist_keeps :
        (pair : ChatPair) (w : World X) → Owns w → Owns (services.record_chat_pair h pair w).1
    pub emit_keeps :
        (status : EventStatus) (w : World X)
        → Owns w
        → Owns (services.emit_stream_ended h status w).1
    pub audit_keeps :
        (event : AuditEvent) (w : World X)
        → get (lock_key h) w.limiter.holders ≢ some h.stream_id
        → get (lock_key h) (services.write_audit event h w).1.limiter.holders ≢ some h.stream_id

  module _ (pair : Option ChatPair) (status : EventStatus) (state : StreamState) (final : Final)
      (event : AuditEvent) (now : ℕ) where
    pub close-unused :
        (interrupted : Bool) (w : World X)
        → h.used ≡ false
        → close services h pair status state final event now interrupted w
          ≡ close_unused services h pair status state final event now interrupted w
    unfolding close
    close-unused interrupted w fresh = if-false h.used _ _ fresh

    -- However the services end and wherever a cancellation comes, `_close` marks its handle as used,
    -- and its stream does not hold the lock afterwards, where no other task takes the lock under the
    -- stream's identifier.
    pub close_releases :
        (interrupted : Bool) (w : World X)
        → IsOrderly
        → h.used ≡ false
        → ((close services h pair status state final event now interrupted w).1.used ≡ true)
          × (get
                (lock_key h)
                (close services h pair status state final event now interrupted w).2.limiter.holders
              ≢ some h.stream_id)
    unfolding close_unused
    close_releases interrupted w o fresh =
        let w1 = (close_steps services h pair status state final now w).1 in
        let free = release-not-held (lock_key h) h.stream_id w1.limiter in
        let w3 = forgotten h (released h w1) in
        let audited : get (lock_key h) (guarded (services.write_audit event h w3)).1.limiter.holders
            ≢ some h.stream_id =
          rw (guarded-world (services.write_audit event h w3)) (o.audit_keeps event w3 free) in
        rw (close-unused interrupted w fresh) (elim (Bool-cases interrupted) [
          | inl cut ↦ rw cut (refl, free)
          | inr whole ↦ elim (Bool-cases (close_steps services h pair status state final now w).0) [
            | inl stopped ↦ rw (whole, stopped) (refl, free)
            | inr on ↦ rw (whole, on) (refl, audited)
          ]
        ])
