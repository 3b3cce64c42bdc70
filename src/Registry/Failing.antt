-- ===== src/Registry/Failing.antt =====
-- core/stream_registry.py, `close_failed`: the refund, the attachments and the close.
use astrbot_plugin_webchat_g.Prelude.{
  ℕ, ◌≡◌, refl, sym, ap, subst, String, Bool, true, false, Option, none, some, List, [], ◌∷◌, ◌==◌,
  ◌&&◌, if-true, some-eq, if-false, text_key, arith, eq_iff, All, Bool-cases, Option-cases, inl,
  inr, ◌⊎◌,
}
use astrbot_plugin_webchat_g.Quota.{QuotaReservation}
use astrbot_plugin_webchat_g.StreamBuffer.Types.{closed_failed, failure}
use astrbot_plugin_webchat_g.Registry.Types.{
  StreamHandle, World, Answer, answered, failed, cancelled, answer_cases, stream_failed, error,
  FileRow, Services,
}
use astrbot_plugin_webchat_g.Registry.{close_steps, close, close_unused}
use astrbot_plugin_webchat_g.Registry.Terminal.{
  close_reservation, own_row, own_rows, release_attached_files, fail_stream, close_failed,
}

abbrev pub is_answered {ℓ} : {A : Type ℓ} → Answer A → Bool
is_answered (answered x) = true
is_answered failed = false
is_answered cancelled = false

own_row-All :
    (token : String) (row : Option FileRow) (rows : List FileRow)
    → All (λ r. r.token_name ≡ token) rows
    → All (λ r. r.token_name ≡ token) (own_row token row rows)
own_row-All token none rows h = h
own_row-All token (some row) rows h = elim (Bool-cases (row.token_name == token)) [
  | inl own ↦ rw own ((eq_iff row.token_name token).0 own, h)
  | inr other ↦ rw other h
]

module _ {ℓ} {X : Type ℓ} (services : Services X) where
  -- Only rows of the stream's own token are released, whatever identifiers the handle carries and
  -- whatever the storage answers.
  pub own_rows_lem :
      (token : String) (ids : List String) (w : World X) (rows : List FileRow)
      → (own_rows services token ids w).0 ≡ some rows
      → All (λ r. r.token_name ≡ token) rows
  unfolding own_rows
  own_rows_lem token [] w rows e = subst (All (λ r. r.token_name ≡ token)) (some-eq e) tt
  own_rows_lem token (id ∷ ids) w rows e =
      let (a, w1) = services.get_file id w in
      elim (Option-cases (own_rows services token ids w1).0) [
        | inl cut ↦ elim (answer_cases a) [
          | inl (row, found) ↦ absurd (ground arith)
          | inr (inl raised) ↦ absurd (ground arith)
          | inr (inr stopped) ↦ absurd (ground arith)
        ]
        | inr (rs, more) ↦
            let rest = own_rows_lem token ids w1 rs more in
            elim (answer_cases a) [
              | inl (row, found) ↦
                  subst (All (λ r. r.token_name ≡ token)) (ground arith)
                    (own_row-All token row rs rest)
              | inr (inl raised) ↦ subst (All (λ r. r.token_name ≡ token)) (ground arith) rest
              | inr (inr stopped) ↦ absurd (ground arith)
            ]
      ]

  close_reservation-again :
      (r : Option QuotaReservation) (w v : World X)
      → close_reservation services (close_reservation services r w).1 v
        ≡ (answered tt, (close_reservation services r w).1, v)
  unfolding close_reservation
  close_reservation-again none w v = refl
  close_reservation-again (some r) w v = elim (Bool-cases r.settled) [
    | inl before ↦
        subst (λ q. close_reservation services q v ≡ (answered tt, q, v))
          (sym (
            ap (λ (q : Answer (Unit {ℓ}) × Option QuotaReservation × World X). q.1)
              (if-true r.settled _ _ before)))
          (if-true r.settled _ _ before)
    | inr now ↦
        subst (λ q. close_reservation services q v ≡ (answered tt, q, v))
          (sym (
            ap (λ (q : Answer (Unit {ℓ}) × Option QuotaReservation × World X). q.1)
              (if-false r.settled _ _ now)))
          refl
  ]

  unused-handle :
      (h : StreamHandle) (code : String) (now : ℕ) (interrupted : Bool) (w : World X)
      → let r =
          close_unused services h none error closed_failed
            (failure code)
            stream_failed
            now
            interrupted
            w in
        (r.1.reservation ≡ h.reservation) × (r.1.used ≡ true)
  unfolding close_unused
  unused-handle h code now interrupted w = elim (Bool-cases interrupted) [
    | inl cut ↦ rw cut (refl, refl)
    | inr whole ↦
        elim (Bool-cases (close_steps services h none error closed_failed (failure code) now w).0) [
          | inl stopped ↦ rw (whole, stopped) (refl, refl)
          | inr on ↦ rw (whole, on) (refl, refl)
        ]
  ]

  close-reservation :
      (h : StreamHandle) (code : String) (now : ℕ) (interrupted : Bool) (w : World X)
      → ((fail_stream services h code now interrupted w).1.reservation ≡ h.reservation)
        × ((fail_stream services h code now interrupted w).1.used ≡ true)
  unfolding fail_stream close
  close-reservation h code now interrupted w = elim (Bool-cases h.used) [
    | inl late ↦
        subst
          (λ (r : Bool × StreamHandle × World X).
            (r.1.reservation ≡ h.reservation) × (r.1.used ≡ true))
          (sym (if-true h.used _ _ late)) (refl, late)
    | inr fresh ↦
        subst
          (λ (r : Bool × StreamHandle × World X).
            (r.1.reservation ≡ h.reservation) × (r.1.used ≡ true))
          (sym (if-false h.used _ _ fresh)) (unused-handle h code now interrupted w)
  ]

  module _ (h : StreamHandle) (code : String) (now : ℕ) (interrupted : Bool) (w : World X) where
    -- The handle after the refund, and the state then.
    refunded : StreamHandle
    refunded = record h { reservation = (close_reservation services h.reservation w).1 }

    -- How the release of the files ends.
    release : Answer (Unit {ℓ}) × World X
    unfolding refunded
    release =
        release_attached_files services refunded (close_reservation services h.reservation w).2

    close_failed_cases :
        ((close_failed services h code now interrupted w).1 ≡ refunded)
          × ((is_answered (close_reservation services h.reservation w).0 && is_answered release.0)
              ≡ false)
        ⊎ ((close_failed services h code now interrupted w).1
            ≡ (fail_stream services refunded code now interrupted release.1).1)
          × ((is_answered (close_reservation services h.reservation w).0 && is_answered release.0)
              ≡ true)
    unfolding close_failed refunded release
    close_failed_cases = elim (answer_cases (close_reservation services h.reservation w).0) [
      | inr (inl raised) ↦ inl (rw (close_failed, raised) refl, rw raised refl)
      | inr (inr cut) ↦ inl (rw (close_failed, cut) refl, rw cut refl)
      | inl (x, fine) ↦ elim (answer_cases release.0) [
        | inr (inl raised) ↦ inl (rw (close_failed, fine, raised) refl, rw (fine, raised) refl)
        | inr (inr cut) ↦ inl (rw (close_failed, fine, cut) refl, rw (fine, cut) refl)
        | inl (y, good) ↦ inr (rw (close_failed, fine, good) refl, rw (fine, good) refl)
      ]
    ]

    close_failed-reservation :
        (close_failed services h code now interrupted w).1.reservation
        ≡ (close_reservation services h.reservation w).1
    unfolding refunded
    close_failed-reservation = elim close_failed_cases [
      | inl (e, cut) ↦ rw e refl
      | inr (e, through) ↦ rw e (close-reservation refunded code now interrupted release.1).0
    ]

    -- However the first `close_failed` ends, closing its reservation again refunds nothing.
    pub close_failed_refunds_once :
        (v : World X)
        → close_reservation services
            (close_failed services h code now interrupted w).1.reservation
            v
          ≡ (answered tt, (close_failed services h code now interrupted w).1.reservation, v)
    close_failed_refunds_once v =
        subst (λ r. close_reservation services r v ≡ (answered tt, r, v))
          (sym close_failed-reservation) (close_reservation-again h.reservation w v)

    -- `close_failed` comes to close its stream exactly where the refund and the release of the
    -- attachments both return: an exception or a cancellation in either leaves the handle open.
    pub close_failed_reaches :
        h.used ≡ false
        → (close_failed services h code now interrupted w).1.used ≡ (
            is_answered (close_reservation services h.reservation w).0
            && is_answered
                (release_attached_files services
                  (record h { reservation = (close_reservation services h.reservation w).1 })
                  (close_reservation services h.reservation w).2).0)
    unfolding refunded release
    close_failed_reaches fresh = elim close_failed_cases [
      | inl (e, cut) ↦ rw (e, cut) fresh
      | inr (e, through) ↦
          rw (e, through) (close-reservation refunded code now interrupted release.1).1
    ]
