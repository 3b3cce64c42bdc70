-- ===== src/Tests/Admin.antt =====
-- Runs of the token service.
use astrbot_plugin_webchat_g.Prelude.{◌≡◌, refl, false, true, some, List, [], ◌∷◌, arith, map}
use astrbot_plugin_webchat_g.Prelude.Int.{pos}
use astrbot_plugin_webchat_g.Storage.Rows.{TokenRow}
use astrbot_plugin_webchat_g.Storage.Tokens.{
  get_token_by_name, create_token, regenerate_token, set_token_revoked,
}
use astrbot_plugin_webchat_g.Storage.Rename.{meets, rename_token}
use astrbot_plugin_webchat_g.Chat.Requests.{first_chars}
use astrbot_plugin_webchat_g.TokenService.{
  Deps, State, number, blank, null, is_valid_name, coerce_quota, coerce_expires_at,
  coerce_custom_token, summary_for, issue, set_revoked, regenerate, rename,
}
use astrbot_plugin_webchat_g.TokenService.Sound.{IsSound}
use astrbot_plugin_webchat_g.TokenService.History.{
  Operation, issues, sets_revoked, regenerates, renames, run, run-IsSound,
}

program : Unit {0}
unfolding get_token_by_name create_token regenerate_token set_token_revoked meets rename_token
    first_chars is_valid_name coerce_quota coerce_expires_at coerce_custom_token summary_for issue
    set_revoked regenerate rename run
program = tt

abbrev deps : Deps
deps = record { default_quota = 200; hash_token = λ s. s; has_space = λ s. false }

abbrev state : State
state = record {
  db = record {
    tokens = [];
    daily_usage = [];
    audit_log = [];
    sessions = [];
    updates = [];
    files = [];
    drop_messages = [];
  };
  audits = [];
}

-- Two tokens, the second with a quota of its own; a secret that is taken is refused, and so is a name
-- that was used.
abbrev operations : List Operation
operations =
    issues "a" "x" blank "first" null 10
    ∷ issues "b" "y" (number (pos 7)) "" (number (pos 99)) 11
    ∷ issues "a" "z" blank "" null 12
    ∷ regenerates "b" "w" (some "x")
    ∷ sets_revoked "a" true 1 13
    ∷ renames "a" "c" 1
    ∷ []

names_after : map (λ (r : TokenRow). r.name) (run deps operations state).db.tokens ≡ "c" ∷ "b" ∷ []
unfolding program
names_after = refl

run-IsSound_example : IsSound (run deps operations state).db.tokens
run-IsSound_example = run-IsSound deps (omega arith) (omega arith) operations state (tt, tt)
