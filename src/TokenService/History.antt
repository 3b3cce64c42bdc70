-- ===== src/TokenService/History.antt =====
-- handlers/admin_tokens.py: any list of the operations of `TokenService`.
use astrbot_plugin_webchat_g.Prelude.{ℕ, ◌≤◌, String, Bool, Option, List, [], ◌∷◌}
use astrbot_plugin_webchat_g.Storage.Rows.{Argument}
use astrbot_plugin_webchat_g.TokenService.{
  Deps, State, Raw, issue, revoke, set_revoked, update_fields, regenerate, rename,
}
use astrbot_plugin_webchat_g.TokenService.Sound.{IsSound}
use astrbot_plugin_webchat_g.TokenService.Constraints.{
  issue-Holds, revoke-Holds, set_revoked-Holds, update_fields-Holds, regenerate-Holds, rename-Holds,
}

-- A call of an operation; the secrets are those that `generate_token` gives, the numbers the day and the
-- time.
pub data Operation : Type 0 where
  issues : String → String → Raw → String → Raw → ℕ → Operation
  revokes : String → ℕ → Operation
  sets_revoked : String → Bool → ℕ → ℕ → Operation
  updates : String → Raw → Option String → Argument Raw → ℕ → ℕ → Operation
  regenerates : String → String → Option String → Operation
  renames : String → String → ℕ → Operation

abbrev pub step : Deps → Operation → State → State
step d (issues name token quota text expires now) s =
    (issue d name token quota text expires now s).1
step d (revokes name now) s = (revoke name now s).1
step d (sets_revoked name revoked day now) s = (set_revoked name revoked day now s).1
step d (updates name quota text expires day now) s =
    (update_fields d name quota text expires day now s).1
step d (regenerates name token custom) s = (regenerate d name token custom s).1
step d (renames old new day) s = (rename old new day s).1

unfoldable pub run : Deps → List Operation → State → State
run d [] s = s
run d (o ∷ os) s = run d os (step d o s)

module _ (d : Deps) (low : 1 ≤ d.default_quota) (high : d.default_quota ≤ 1000000) where
  step-IsSound : (o : Operation) (s : State) → IsSound s.db.tokens → IsSound (step d o s).db.tokens
  step-IsSound (issues name token quota text expires now) s h =
      issue-Holds d low high s h name token quota text expires now
  step-IsSound (revokes name now) s h = revoke-Holds d low high s h name now
  step-IsSound (sets_revoked name revoked day now) s h =
      set_revoked-Holds d low high s h name revoked day now
  step-IsSound (updates name quota text expires day now) s h =
      update_fields-Holds d low high s h name quota text expires day now
  step-IsSound (regenerates name token custom) s h =
      regenerate-Holds d low high s h name token custom
  step-IsSound (renames old new day) s h = rename-Holds d low high s h old new day

  -- Where the default quota is between 1 and 1000000: however the admin issues, revokes, restores,
  -- edits, regenerates and renames tokens, with whatever arguments, no two tokens share a name or the
  -- hash of a secret, every name is valid, and every daily quota is between 1 and 1000000.
  pub run-IsSound :
      (os : List Operation) (s : State) → IsSound s.db.tokens → IsSound (run d os s).db.tokens
  unfolding run
  run-IsSound [] s h = h
  run-IsSound (o ∷ os) s h = run-IsSound os (step d o s) (step-IsSound o s h)
