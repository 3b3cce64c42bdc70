-- ===== src/Usage.antt =====
-- storage/sqlite_backend.py, the daily usage: the table `daily_usage`, whose primary key is
-- (name, day). A day is its ordinal number, of which `isoformat` is an injective spelling. Each
-- write is one critical section under `_write_lock`.
use astrbot_plugin_webchat_g.Prelude.{
  ℕ, ◌+◌, ◌-◌, ◌≡◌, String, Option, none, some, List, [], ◌∷◌, ◌==◌, if◌then◌else◌, leb, ltb,
  text_key, number_key, pair_key, arith, ◌&&◌, eq_iff, nat_beq_iff, Option-cases, inl, inr,
}
use astrbot_plugin_webchat_g.Dict.{Dict, get, put, get-put}

abbrev pub Table : Type 0
Table = Dict (String × ℕ) ℕ

unfoldable pub get_today_usage : String → ℕ → Table → ℕ
get_today_usage name day t = elim (get (name, day) t) [ none ↦ 0 | some count ↦ count ]

-- `INSERT … ON CONFLICT DO UPDATE SET count = count + 1`
unfoldable pub upsert_usage : String → ℕ → Table → Table
upsert_usage name day t = elim (get (name, day) t) [
  | none ↦ put (name, day) 1 t
  | some count ↦ put (name, day) (count + 1) t
]

unfoldable pub increment_daily_usage : String → ℕ → Table → ℕ × Table
unfolding upsert_usage get_today_usage
increment_daily_usage name day t =
    let t' = upsert_usage name day t in (get_today_usage name day t', t')

-- The new count, or `none` where the quota is used up.
unfoldable pub try_reserve_daily_usage : String → ℕ → ℕ → Table → Option ℕ × Table
unfolding upsert_usage get_today_usage
try_reserve_daily_usage name day quota t =
    let current = get_today_usage name day t in
    if leb quota current then (none, t) else (some (current + 1), upsert_usage name day t)

-- `UPDATE … SET count = count - 1 WHERE … AND count > 0`
unfoldable pub refund_daily_usage : String → ℕ → Table → Table
refund_daily_usage name day t = elim (get (name, day) t) [
  | none ↦ t
  | some count ↦ if ltb 0 count then put (name, day) (count - 1) t else t
]

-- `out = {n: 0 for n in names}`, then the rows of the query on top.
unfoldable pub get_today_usage_bulk : List String → ℕ → Table → Dict String ℕ
unfolding get_today_usage
get_today_usage_bulk [] day t = []
get_today_usage_bulk (n ∷ names) day t =
    put n (get_today_usage n day t) (get_today_usage_bulk names day t)

module _ (name : String) (day : ℕ) (t : Table) (m : String) (d : ℕ) where
  -- The usage of every name and day after each write.
  pub usage-upsert :
      get_today_usage m d (upsert_usage name day t)
      ≡ (if name == m && day == d then get_today_usage m d t + 1 else get_today_usage m d t)
  unfolding get_today_usage upsert_usage
  usage-upsert = elim (Option-cases (get (name, day) t)) [
    | inl e ↦ ground (arith, get-put (name, day) (m, d) 1 t, eq_iff name m, nat_beq_iff day d)
    | inr (c, e) ↦
        ground (arith, get-put (name, day) (m, d) (c + 1) t, eq_iff name m, nat_beq_iff day d)
  ]

  pub usage-refund :
      get_today_usage m d (refund_daily_usage name day t)
      ≡ (if name == m && day == d then get_today_usage m d t - 1 else get_today_usage m d t)
  unfolding get_today_usage refund_daily_usage
  usage-refund = elim (Option-cases (get (name, day) t)) [
    | inl e ↦ ground (arith, eq_iff name m, nat_beq_iff day d)
    | inr (c, e) ↦
        ground (arith, get-put (name, day) (m, d) (c - 1) t, eq_iff name m, nat_beq_iff day d)
  ]
