-- ===== src/Quota/Settlement.antt =====
-- What a session can rely on in one reservation.
use astrbot_plugin_webchat_g.Prelude.{
  ℕ, ◌+◌, ◌-◌, ◌≤◌, ◌≡◌, refl, String, false, none, some, ◌==◌, ◌&&◌, if◌then◌else◌, text_key,
  number_key, arith, nat_beq_iff, ==_refl, leb, leb→le, Bool-cases, inl, inr, ◌⊎◌, not,
}
use astrbot_plugin_webchat_g.Usage.{
  Table, get_today_usage, upsert_usage, try_reserve_daily_usage, usage-upsert, usage-refund,
}
use astrbot_plugin_webchat_g.Quota.{
  QuotaReservation, open_reservation, new_reservation, commit, close,
}

-- A reservation is refused exactly when the usage has reached the quota, and then nothing is
-- written; one that is granted reports the stored count after it, within the quota, and the rest
-- of the quota.
pub open_reservation_lem :
    (name : String) (day quota : ℕ) (t : Table)
    → ((open_reservation name day quota t ≡ (none, t)) × (quota ≤ get_today_usage name day t))
      ⊎ ((r : QuotaReservation) × (t' : Table) × (open_reservation name day quota t ≡ (some r, t'))
          × (r.count ≡ get_today_usage name day t + 1)
          × (r.count ≡ get_today_usage name day t')
          × (r.count + r.remaining ≡ quota)
          × (r.settled ≡ false))
unfolding open_reservation new_reservation try_reserve_daily_usage
open_reservation_lem name day quota t = elim (Bool-cases (leb quota (get_today_usage name day t))) [
  | inl over ↦ inl (rw over, leb→le quota (get_today_usage name day t) over)
  | inr room ↦ inr (
    new_reservation name day (get_today_usage name day t + 1) quota,
    upsert_usage name day t,
    rw room,
    refl,
    ground (arith, usage-upsert name day t name day, ==_refl name, nat_beq_iff day day),
    ground arith,
    refl,
  )
]

-- `close` gives back one unit of its own name and day if the reservation is not settled, and
-- nothing if it is; either way a second `close`, or a `close` after `commit`, changes nothing.
pub close_settles :
    (r : QuotaReservation) (t : Table) (n : String) (d : ℕ)
    → (get_today_usage n d (close r t).1 ≡ (
        if not r.settled && (r.name == n && r.day == d)
        then get_today_usage n d t - 1
        else get_today_usage n d t))
      × (close (close r t).0 (close r t).1 ≡ close r t)
      × (close (commit r) t ≡ (commit r, t))
unfolding close commit
close_settles r t n d =
    (ground (arith, usage-refund r.name r.day t n d), ground arith, ground arith)
