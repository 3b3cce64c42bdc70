-- ===== src/IpGuard.antt =====
-- core/ip_guard.py: the guard in front of the table of failures.
pub mod Budget
use astrbot_plugin_webchat_g.Prelude.{
  ℕ, String, Bool, true, false, Option, none, some, ◌==◌, if◌then◌else◌, ltb, text_key,
}
use astrbot_plugin_webchat_g.IpFailures.{
  Table, record_ip_failure, is_ip_blocked, decrement_ip_failure,
}

pub record IpGuard : Type 0 where
  pub max_fails : ℕ
  pub block_seconds : ℕ

-- Requests of which the address is not known share one bucket.
unfoldable pub normalize_ip : String → Option String
normalize_ip ip = if ip == "" then none else if ip == "unknown" then some "__unknown__" else some ip

unfoldable pub enabled : IpGuard → Bool
enabled g = ltb 0 g.max_fails

unfoldable pub is_blocked : IpGuard → String → ℕ → Table → Bool × ℕ
unfolding enabled
is_blocked g ip now t =
    if enabled g
    then elim (normalize_ip ip) [ none ↦ (false, 0) | some key ↦ is_ip_blocked key now t ]
    else (false, 0)

unfoldable pub record_failure : IpGuard → String → ℕ → Table → ℕ × Table
unfolding enabled
record_failure g ip now t =
    if enabled g
    then elim (normalize_ip ip) [
      | none ↦ (0, t)
      | some key ↦ record_ip_failure key now g.max_fails g.block_seconds t
    ]
    else (0, t)

-- A successful authentication pays back one failure.
unfoldable pub reset : String → Table → Table
reset ip t = elim (normalize_ip ip) [ none ↦ t | some key ↦ (decrement_ip_failure key t).1 ]
