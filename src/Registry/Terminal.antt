-- ===== src/Registry/Terminal.antt =====
-- core/stream_registry.py, the three ends of a stream: `close_ok`, `close_incomplete` and
-- `close_failed`, with the release of its attachments. A reply's length stands for its text in
-- audits, which are opaque here.
use astrbot_plugin_webchat_g.Prelude.{
  ℕ, String, Bool, true, false, Option, none, some, List, [], ◌∷◌, ◌==◌, if◌then◌else◌, text_key,
}
use astrbot_plugin_webchat_g.Quota.{QuotaReservation}
use astrbot_plugin_webchat_g.StreamBuffer.Types.{
  closed_ok, closed_incomplete, closed_failed, reply, failure,
}
use astrbot_plugin_webchat_g.Registry.Types.{
  StreamHandle, World, Answer, answered, failed, cancelled, stream_completed, stream_partial,
  stream_failed, ok, incomplete, error, FileRow, Services,
}
use astrbot_plugin_webchat_g.Registry.{close}

abbrev pub own_row : String → Option FileRow → List FileRow → List FileRow
own_row token none rows = rows
own_row token (some row) rows = if row.token_name == token then row ∷ rows else rows

abbrev pub done {ℓ} : {A : Type 0} → Answer A → Answer (Unit {ℓ})
done (answered _) = answered tt
done failed = failed
done cancelled = cancelled

module _ {ℓ} {X : Type ℓ} (services : Services X) where
  unfoldable pub close_ok :
      StreamHandle → String → String → ℕ → ℕ → ℕ → Bool → World X → Bool × StreamHandle × World X
  close_ok h user_text full_text remaining daily_quota now interrupted w =
      close services h
        (some (record { user_text = user_text; assistant_text = full_text; is_incomplete = false }))
        ok closed_ok (reply remaining daily_quota false) stream_completed now interrupted w

  unfoldable pub close_incomplete :
      StreamHandle → String → String → ℕ → ℕ → ℕ → Bool → World X → Bool × StreamHandle × World X
  close_incomplete h user_text partial_text remaining daily_quota now interrupted w =
      close services h
        (some
          (record { user_text = user_text; assistant_text = partial_text; is_incomplete = true }))
        incomplete closed_incomplete (reply remaining daily_quota true) stream_partial now
        interrupted w

  -- `handle.reservation.close()`: the flag is set before the refund is awaited.
  unfoldable pub close_reservation :
      Option QuotaReservation → World X → Answer (Unit {ℓ}) × Option QuotaReservation × World X
  close_reservation none w = (answered tt, none, w)
  close_reservation (some r) w =
      let (a, w') = services.refund_daily_usage r.name r.day w in
      if r.settled then (answered tt, some r, w) else (a, some (record r { settled = true }), w')

  -- The rows of the attachments that belong to the token; `none` is a cancellation.
  unfoldable pub own_rows : String → List String → World X → Option (List FileRow) × World X
  own_rows token [] w = (some [], w)
  own_rows token (id ∷ ids) w =
      let (a, w1) = services.get_file id w in
      let (rows, w2) = own_rows token ids w1 in
      elim a [
        | answered row ↦ (elim rows [ none ↦ none | some rs ↦ some (own_row token row rs) ], w2)
        | failed ↦ (rows, w2)
        | cancelled ↦ (none, w1)
      ]

  -- `_release_attached_files`, where the registry has its storage.
  unfoldable pub release_attached_files : StreamHandle → World X → Answer (Unit {ℓ}) × World X
  release_attached_files h w =
      let (found, w1) = own_rows h.token_name h.attachment_file_ids w in
      if h.user_message_emitted then (answered tt, w) else elim found [
        | none ↦ (cancelled, w1)
        | some [] ↦ (answered tt, w1)
        | some (row ∷ rows) ↦
            let (a, w2) = services.release_files_safely (row ∷ rows) w1 in (done a, w2)
      ]

  -- The last step of `close_failed`.
  unfoldable pub fail_stream :
      StreamHandle → String → ℕ → Bool → World X → Answer (Unit {ℓ}) × StreamHandle × World X
  fail_stream h code now interrupted w =
      let (stopped, h', w') =
        close services h none error closed_failed (failure code) stream_failed now interrupted w in
      (if stopped then cancelled else answered tt, h', w')

  -- `close_failed`. Neither the refund nor the release of the files stands in a `try`.
  unfoldable pub close_failed :
      StreamHandle → String → ℕ → Bool → World X → Answer (Unit {ℓ}) × StreamHandle × World X
  close_failed h code now interrupted w =
      let (refund, r, w1) = close_reservation h.reservation w in
      let h1 = record h { reservation = r } in
      let (release, w2) = release_attached_files h1 w1 in
      elim refund [
        | failed ↦ (failed, h1, w1)
        | cancelled ↦ (cancelled, h1, w1)
        | answered _ ↦ elim release [
          | failed ↦ (failed, h1, w2)
          | cancelled ↦ (cancelled, h1, w2)
          | answered _ ↦ fail_stream h1 code now interrupted w2
        ]
      ]
