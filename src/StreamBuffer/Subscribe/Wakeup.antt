-- ===== src/StreamBuffer/Subscribe/Wakeup.antt =====
-- No subscriber sleeps through a change of its stream.
use astrbot_plugin_webchat_g.Prelude.{
  ℕ, ◌≡◌, refl, subst, String, true, false, some, List, [], ◌∷◌, text_key, number_key, arith,
  Bool-cases, Option-cases, inl, inr,
}
use astrbot_plugin_webchat_g.Prelude.Int.{ℤ}
use astrbot_plugin_webchat_g.Dict.{get}
use astrbot_plugin_webchat_g.StreamBuffer.Types.{Entry, Buffer}
use astrbot_plugin_webchat_g.StreamBuffer.{newer}
use astrbot_plugin_webchat_g.StreamBuffer.Caps.{IsCapped}
use astrbot_plugin_webchat_g.StreamBuffer.Writes.{closed}
use astrbot_plugin_webchat_g.StreamBuffer.Subscribe.Cursor.{cursor, newer-cursor}
use astrbot_plugin_webchat_g.StreamBuffer.Subscribe.{
  Stage, ready, yielding, parked, returned, Subscriber, iter_subscribe, read_entry, resume, Event,
  buffer_op, turn, step, run,
}
use astrbot_plugin_webchat_g.StreamBuffer.Subscribe.Wakes.{Wakes, apply-Wakes}
use astrbot_plugin_webchat_g.StreamBuffer.Subscribe.Within.{apply-IsCapped}

-- The entry that the subscriber read still stands, with nothing beyond the cursor, and waits for
-- its next chunk.
pub record IsUpToDate (b : Buffer) (sid : String) (wake : ℕ) (k : ℤ) : Type 0 where
  pub entry : Entry
  pub at : get sid b.entries ≡ some entry
  pub event : entry.new_chunk ≡ wake
  pub open_ : entry.terminal ≡ false
  pub read : newer k entry.chunks ≡ []

IsUpToDate-Wakes :
    {b c : Buffer} (sid : String) (wake : ℕ) (k : ℤ)
    → Wakes b c
    → (b.is_set wake ≡ false → IsUpToDate b sid wake k)
    → c.is_set wake ≡ false
    → IsUpToDate c sid wake k
IsUpToDate-Wakes {b} {c} sid wake k x h unset =
    let u : IsUpToDate b sid wake k = h (ground (arith, x.monotone wake)) in
    record {
      entry = u.entry;
      at = elim (x.each sid u.entry u.at) [
        | inl set ↦ absurd (ground (arith, u.event))
        | inr same ↦ same
      ];
      event = u.event;
      open_ = u.open_;
      read = u.read;
    }

-- What holds of a subscriber at each stage: it is asleep, or about to be, only beside an entry
-- that it is up to date with.
abbrev pub IsAlert : Stage → Buffer → Subscriber → Type 0
IsAlert ready b u = Unit
IsAlert (yielding pending wake true) b u = Unit
IsAlert (yielding pending wake false) b u =
    b.is_set wake ≡ false → IsUpToDate b u.stream_id wake (cursor u.last_seq pending)
IsAlert (parked wake) b u = b.is_set wake ≡ false → IsUpToDate b u.stream_id wake u.last_seq
IsAlert (returned closed) b u = Unit

IsAlert-Wakes :
    (stage : Stage) {b c : Buffer} (u : Subscriber)
    → Wakes b c
    → IsAlert stage b u
    → IsAlert stage c u
IsAlert-Wakes ready u x h = tt
IsAlert-Wakes (yielding pending wake true) u x h = tt
IsAlert-Wakes (yielding pending wake false) u x h =
    IsUpToDate-Wakes u.stream_id wake (cursor u.last_seq pending) x h
IsAlert-Wakes (parked wake) u x h = IsUpToDate-Wakes u.stream_id wake u.last_seq x h
IsAlert-Wakes (returned closed) u x h = tt

IsAlert-resume :
    (stage : Stage) (b : Buffer) (u : Subscriber)
    → IsAlert stage b u
    → u.stage ≡ stage
    → IsAlert (resume stage b u).stage b (resume stage b u)
unfolding resume cursor
IsAlert-resume ready b u h e = elim (Option-cases (get u.stream_id b.entries)) [
  | inl gone ↦ rw (gone, read_entry) tt
  | inr (x, at) ↦ elim (Bool-cases x.terminal) [
    | inl closed ↦ rw (at, read_entry, closed) tt
    | inr open_ ↦
        rw (at, read_entry, open_)
          (λ unset. record {
            entry = x;
            at = at;
            event = refl;
            open_ = open_;
            read = newer-cursor u.last_seq x.chunks;
          })
  ]
]
IsAlert-resume (yielding (c ∷ pending) wake true) b u h e = tt
IsAlert-resume (yielding (c ∷ pending) wake false) b u h e = h
IsAlert-resume (yielding [] wake true) b u h e = tt
IsAlert-resume (yielding [] wake false) b u h e = h
IsAlert-resume (parked wake) b u h e = elim (Bool-cases (b.is_set wake)) [
  | inl set ↦ rw set tt
  | inr unset ↦ rw (unset, e) h
]
IsAlert-resume (returned closed) b u h e = rw e tt

step-IsAlert :
    (e : Event) (b : Buffer) (u : Subscriber)
    → IsCapped b
    → IsAlert u.stage b u
    → IsCapped (step e (b, u)).0
      × IsAlert (step e (b, u)).1.stage (step e (b, u)).0 (step e (b, u)).1
unfolding step
step-IsAlert (buffer_op o) b u v h =
    (apply-IsCapped o b v, IsAlert-Wakes u.stage u (apply-Wakes o b v) h)
step-IsAlert turn b u v h = (v, IsAlert-resume u.stage b u h refl)

run-IsAlert :
    (es : List Event) (b : Buffer) (u : Subscriber)
    → IsCapped b
    → IsAlert u.stage b u
    → IsAlert (run es (b, u)).1.stage (run es (b, u)).0 (run es (b, u)).1
unfolding run
run-IsAlert [] b u v h = h
run-IsAlert (e ∷ es) b u v h =
    let (v', h') = step-IsAlert e b u v h in
    run-IsAlert es (step e (b, u)).0 (step e (b, u)).1 v' h'

parked_alert :
    (stage : Stage) (b : Buffer) (u : Subscriber) (wake : ℕ)
    → stage ≡ parked wake
    → IsAlert stage b u
    → b.is_set wake ≡ false
    → IsUpToDate b u.stream_id wake u.last_seq
parked_alert stage b u wake e h =
    let at : IsAlert (parked wake) b u = subst (λ x. IsAlert x b u) e h in at

-- No lost wakeup: in any interleaving of the buffer's methods with the turns of a subscriber, a
-- subscriber that is asleep, on an event that is not set, sleeps beside an entry of its stream
-- that is still in the table, that is not closed and that holds no chunk above its cursor.
pub no_lost_wakeup :
    (es : List Event) (b : Buffer) (sid : String) (after : ℤ) (wake : ℕ)
    → IsCapped b
    → (run es (b, iter_subscribe sid after)).1.stage ≡ parked wake
    → (run es (b, iter_subscribe sid after)).0.is_set wake ≡ false
    → IsUpToDate
        (run es (b, iter_subscribe sid after)).0
        (run es (b, iter_subscribe sid after)).1.stream_id
        wake
        (run es (b, iter_subscribe sid after)).1.last_seq
no_lost_wakeup es b sid after wake v asleep unset =
    let s = run es (b, iter_subscribe sid after) in
    let h : IsAlert s.1.stage s.0 s.1 =
      run-IsAlert es b (iter_subscribe sid after) v (unfold iter_subscribe in tt) in
    parked_alert s.1.stage s.0 s.1 wake asleep h unset
