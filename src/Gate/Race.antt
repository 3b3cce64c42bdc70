-- ===== src/Gate/Race.antt =====
-- What three uploads of one token can do to `PerTokenUploadGate`.
use text.Mathlib.TextPositions.{eq_refl}
use astrbot_plugin_webchat_g.Prelude.{ℕ, String, ◌≡◌, [], ◌∷◌, arith, nat_beq_iff}
use astrbot_plugin_webchat_g.Dict.{get, put, remove}
use astrbot_plugin_webchat_g.Gate.{
  enter, resume, leave, start, step, run, on_name, lookup_lock, take_or_wait, wake, evict, exit,
  find_client, drop_client, head_waiter,
}

-- While `a` is inside, `b` comes and waits; `a` leaves and evicts the lock that `b` was woken for;
-- `c` finds no lock and makes a new one; `b` goes on. Both are then inside, for every name.
pub gate_admits_two :
    (name : String) (a b c : ℕ)
    → on_name name
        (run start (enter a name ∷ enter b name ∷ leave a ∷ enter c name ∷ resume b ∷ [])).inside
      ≡ 2
unfolding run step start on_name lookup_lock take_or_wait wake evict exit find_client drop_client
    head_waiter get put remove
gate_admits_two name a b c = ground (arith, eq_refl name, nat_beq_iff a a, nat_beq_iff b b)
