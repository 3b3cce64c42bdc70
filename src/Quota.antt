-- ===== src/Quota.antt =====
-- core/quota.py: one reserved unit of a token's daily quota.
pub mod Accounting
pub mod Settlement
use astrbot_plugin_webchat_g.Prelude.{
  ℕ, ◌-◌, String, Bool, true, false, Option, none, some, if◌then◌else◌,
}
use astrbot_plugin_webchat_g.Usage.{Table, try_reserve_daily_usage, refund_daily_usage}

pub record QuotaReservation : Type 0 where
  pub name : String
  pub day : ℕ
  pub count : ℕ
  pub remaining : ℕ
  pub settled : Bool

-- `max(0, quota - count)` is the subtraction that stops at 0.
unfoldable pub new_reservation : String → ℕ → ℕ → ℕ → QuotaReservation
new_reservation name day count quota = record {
  name = name;
  day = day;
  count = count;
  remaining = quota - count;
  settled = false;
}

unfoldable pub open_reservation : String → ℕ → ℕ → Table → Option QuotaReservation × Table
unfolding new_reservation
open_reservation name day quota t =
    let (new_count, t') = try_reserve_daily_usage name day quota t in
    (elim new_count [ none ↦ none | some c ↦ some (new_reservation name day c quota) ], t')

unfoldable pub commit : QuotaReservation → QuotaReservation
commit r = record r { settled = true }

unfoldable pub close : QuotaReservation → Table → QuotaReservation × Table
close r t =
    if r.settled then (r, t) else (record r { settled = true }, refund_daily_usage r.name r.day t)
