-- ===== src/IpGuard/Budget.antt =====
-- How many guesses an address has.
use astrbot_plugin_webchat_g.Prelude.{
  ℕ, ◌+◌, ◌-◌, ◌≡◌, String, Bool, false, Option, none, some, List, [], ◌∷◌, ◌==◌, if◌then◌else◌,
  text_key, arith, eq_iff, Option-cases, inl, inr,
}
use astrbot_plugin_webchat_g.Dict.{get, get-put, get-remove}
use astrbot_plugin_webchat_g.IpFailures.{
  Table, failed_row, record_ip_failure, is_ip_blocked, decrement_ip_failure,
}
use astrbot_plugin_webchat_g.IpGuard.{IpGuard, normalize_ip, is_blocked, record_failure, reset}

-- What the gate does to the table: a failed authentication at a time, or a successful one.
pub data Event : Type 0 where
  failure : String → ℕ → Event
  success : String → Event

abbrev pub source : Event → String
source (failure ip now) = ip
source (success ip) = ip

unfoldable pub apply : IpGuard → Table → Event → Table
apply g t (failure ip now) = (record_failure g ip now t).1
apply g t (success ip) = reset ip t

unfoldable pub replay : IpGuard → Table → List Event → Table
replay g t [] = t
replay g t (e ∷ es) = replay g (apply g t e) es

pub fails_of : String → Table → ℕ
fails_of key t = elim (get key t) [ none ↦ 0 | some row ↦ row.fail_count ]

abbrev pub is_key : String → Option String → Bool
is_key key none = false
is_key key (some k) = k == key

abbrev pub failures : String → List Event → ℕ
failures key [] = 0
failures key (failure ip now ∷ es) =
    (if is_key key (normalize_ip ip) then 1 else 0) + failures key es
failures key (success ip ∷ es) = failures key es

abbrev pub successes : String → List Event → ℕ
successes key [] = 0
successes key (failure ip now ∷ es) = successes key es
successes key (success ip ∷ es) = (if is_key key (normalize_ip ip) then 1 else 0) + successes key es

-- The first failure of an address that has no row never blocks it, not even where `max_fails` is
-- 1: the row is inserted with `blocked_until` 0.
pub first_failure_passes :
    (g : IpGuard) (t : Table) (ip key : String) (now later : ℕ)
    → normalize_ip ip ≡ some key
    → get key t ≡ none
    → is_blocked g ip later (record_failure g ip now t).1 ≡ (false, 0)
unfolding is_blocked record_failure record_ip_failure is_ip_blocked
first_failure_passes g t ip key now later e absent =
    ground
      (arith, get-put key key (failed_row none now g.max_fails g.block_seconds) t, eq_iff key key)

-- A request from one address changes neither the counter nor the block of another bucket.
pub addresses_are_independent :
    (g : IpGuard) (e : Event) (t : Table) (key : String)
    → is_key key (normalize_ip (source e)) ≡ false
    → get key (apply g t e) ≡ get key t
unfolding apply record_failure record_ip_failure reset decrement_ip_failure
addresses_are_independent g (failure ip now) t key other = elim (Option-cases (normalize_ip ip)) [
  | inl none_row ↦ ground arith
  | inr (k, p) ↦
      ground (
        arith,
        get-put k key (failed_row (get k t) now g.max_fails g.block_seconds) t,
        eq_iff k key,
      )
]
addresses_are_independent g (success ip) t key other = elim (Option-cases (normalize_ip ip)) [
  | inl none_row ↦ ground arith
  | inr (k, p) ↦ elim (Option-cases (get k t)) [
    | inl q ↦ ground (arith, eq_iff k key)
    | inr (row, q) ↦ ground (
      arith,
      get-put k key (record row { fail_count = row.fail_count - 1 }) t,
      get-remove k key t,
      eq_iff k key,
    )
  ]
]
