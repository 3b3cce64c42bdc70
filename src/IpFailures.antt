-- ===== src/IpFailures.antt =====
-- storage/sqlite_backend.py, the table `ip_failures`, whose primary key is the address. Each write
-- is one critical section under `_write_lock`. Times are seconds.
use astrbot_plugin_webchat_g.Prelude.{
  ℕ, ◌+◌, ◌-◌, String, Bool, true, false, Option, none, some, [], ◌∷◌, if◌then◌else◌, leb, ltb,
  text_key, nat_beq,
}
use astrbot_plugin_webchat_g.Dict.{Dict, get, put, remove}

pub record Row : Type 0 where
  pub fail_count : ℕ
  pub first_fail_ts : ℕ
  pub last_fail_ts : ℕ
  pub blocked_until : ℕ

abbrev pub Table : Type 0
Table = Dict String Row

-- The `DO UPDATE` reads the old values of the row.
unfoldable pub failed_row : Option Row → ℕ → ℕ → ℕ → Row
failed_row none now max_fails block_seconds = record {
  fail_count = 1;
  first_fail_ts = now;
  last_fail_ts = now;
  blocked_until = 0;
}
failed_row (some r) now max_fails block_seconds = record r {
  fail_count = r.fail_count + 1;
  last_fail_ts = now;
  blocked_until = if leb max_fails (r.fail_count + 1) then now + block_seconds else r.blocked_until;
}

unfoldable pub record_ip_failure : String → ℕ → ℕ → ℕ → Table → ℕ × Table
unfolding failed_row
record_ip_failure ip now max_fails block_seconds t =
    if leb max_fails 0
    then (0, t)
    else let row = failed_row (get ip t) now max_fails block_seconds in
      (row.fail_count, put ip row t)

unfoldable pub is_ip_blocked : String → ℕ → Table → Bool × ℕ
is_ip_blocked ip now t = elim (get ip t) [
  | none ↦ (false, 0)
  | some row ↦ if ltb now row.blocked_until then (true, row.blocked_until - now) else (false, 0)
]

unfoldable pub reset_ip_failures : String → Table → Table
reset_ip_failures ip t = remove ip t

-- `max(0, fail_count - 1)` is the subtraction that stops at 0.
unfoldable pub decrement_ip_failure : String → Table → ℕ × Table
decrement_ip_failure ip t = elim (get ip t) [
  | none ↦ (0, t)
  | some row ↦
      if nat_beq (row.fail_count - 1) 0
      then (0, remove ip t)
      else (row.fail_count - 1, put ip (record row { fail_count = row.fail_count - 1 }) t)
]

-- `DELETE … WHERE last_fail_ts < before_ts`
unfoldable pub prune_ip_failures : ℕ → Table → ℕ × Table
prune_ip_failures before_ts [] = (0, [])
prune_ip_failures before_ts ((ip, row) ∷ t) =
    let (count, rest) = prune_ip_failures before_ts t in
    if ltb row.last_fail_ts before_ts then (count + 1, rest) else (count, (ip, row) ∷ rest)
