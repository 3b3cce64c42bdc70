-- ===== src/Quota/Accounting.antt =====
-- Any interleaving of the sessions that reserve, commit and close.
use astrbot_plugin_webchat_g.Prelude.{
  ℕ, zero, suc, ◌+◌, ◌≤◌, ◌≡◌, refl, String, Bool, true, false, not, Option, none, some, List, [],
  ◌∷◌, ◌==◌, ◌||◌, if◌then◌else◌, text_key, number_key, pair_key, arith, ◌&&◌, eq_iff, nat_beq_iff,
  All,
}
use astrbot_plugin_webchat_g.Dict.{get}
use astrbot_plugin_webchat_g.Usage.{
  Table, get_today_usage, try_reserve_daily_usage, usage-upsert, usage-refund,
}
use astrbot_plugin_webchat_g.Quota.{QuotaReservation, open_reservation, commit, close}

pub data Call : Type 0 where
  open_one : String → ℕ → ℕ → Call
  -- The session that holds the reservation with this number.
  commit_one : ℕ → Call
  close_one : ℕ → Call

-- A reservation, and whether it has been given back.
pub record Session : Type 0 where
  pub reservation : QuotaReservation
  pub refunded : Bool

pub record System : Type 0 where
  pub table : Table
  pub sessions : List Session

abbrev pub start : System
start = record { table = []; sessions = [] }

add_session : Option QuotaReservation → List Session → List Session
add_session none l = l
add_session (some r) l = record { reservation = r; refunded = false } ∷ l

commit_at : ℕ → List Session → List Session
unfolding commit
commit_at i [] = []
commit_at zero (x ∷ l) = record x { reservation = commit x.reservation } ∷ l
commit_at (suc i) (x ∷ l) = x ∷ commit_at i l

-- `close` of the session with the number; it is refunded where `close` does refund.
close_at : ℕ → List Session → Table → List Session × Table
close_at i [] t = ([], t)
close_at zero (x ∷ l) t =
    let (r, t') = close x.reservation t in
    (record { reservation = r; refunded = not x.reservation.settled || x.refunded } ∷ l, t')
close_at (suc i) (x ∷ l) t = let (l', t') = close_at i l t in (x ∷ l', t')

unfoldable pub step : System → Call → System
unfolding add_session commit_at close_at
step y (open_one name day quota) =
    let (r, t) = open_reservation name day quota y.table in
    record { table = t; sessions = add_session r y.sessions }
step y (commit_one i) = record y { sessions = commit_at i y.sessions }
step y (close_one i) =
    let (l, t) = close_at i y.sessions y.table in record { table = t; sessions = l }

unfoldable pub run : System → List Call → System
run y [] = y
run y (c ∷ cs) = run (step y c) cs

-- The reservations of a name and a day that hold a unit: in flight, or consumed.
abbrev pub charged : String → ℕ → List Session → ℕ
charged n d [] = 0
charged n d (x ∷ l) =
    (if x.reservation.name == n && x.reservation.day == d && not x.refunded then 1 else 0)
    + charged n d l

-- What was given back is settled, and is not given back again.
abbrev pub IsSettled : Session → Type 0
IsSettled x = x.refunded ≡ true → x.reservation.settled ≡ true

pub record IsExact (y : System) : Type 0 where
  pub settled : All IsSettled y.sessions
  pub exact : (n : String) (d : ℕ) → get_today_usage n d y.table ≡ charged n d y.sessions

charged-commit_at :
    (n : String) (d k : ℕ) (l : List Session) → charged n d (commit_at k l) ≡ charged n d l
unfolding commit_at
charged-commit_at n d k [] = refl
charged-commit_at n d zero (x ∷ l) = refl
charged-commit_at n d (suc k) (x ∷ l) = rw (charged-commit_at n d k l)

IsSettled-commit_at : (k : ℕ) (l : List Session) → All IsSettled l → All IsSettled (commit_at k l)
unfolding commit_at
IsSettled-commit_at k [] h = tt
IsSettled-commit_at zero (x ∷ l) h = (λ e. refl, h.1)
IsSettled-commit_at (suc k) (x ∷ l) h = (h.0, IsSettled-commit_at k l h.1)

IsSettled-close_at :
    (k : ℕ) (l : List Session) (t : Table) → All IsSettled l → All IsSettled (close_at k l t).0
unfolding close_at close
IsSettled-close_at k [] t h = tt
IsSettled-close_at zero (x ∷ l) t h = (λ e. ground arith, h.1)
IsSettled-close_at (suc k) (x ∷ l) t h = (h.0, IsSettled-close_at k l t h.1)

-- A close takes from the table what it takes from the sessions; the floor at 0 is not met.
usage-close_at :
    (n : String) (d k : ℕ) (l : List Session) (t : Table)
    → All IsSettled l
    → charged n d l ≤ get_today_usage n d t
    → get_today_usage n d (close_at k l t).1 + charged n d l
      ≡ get_today_usage n d t + charged n d (close_at k l t).0
unfolding close_at close
usage-close_at n d k [] t h le = refl
usage-close_at n d zero (x ∷ l) t h le =
    ground (arith, usage-refund x.reservation.name x.reservation.day t n d, h.0)
usage-close_at n d (suc k) (x ∷ l) t h le =
    omega (arith, usage-close_at n d k l t h.1 (omega arith))

-- What an opening does, in both outcomes.
open_one-IsExact :
    (y : System) (name : String) (day quota : ℕ)
    → IsExact y
    → IsExact (step y (open_one name day quota))
unfolding step open_reservation try_reserve_daily_usage
open_one-IsExact y name day quota i = record {
  settled = ground (arith, i.settled);
  exact = λ n d. ground (arith, i.exact n d, usage-upsert name day y.table n d);
}

step-IsExact : (y : System) (c : Call) → IsExact y → IsExact (step y c)
unfolding step
step-IsExact y (open_one name day quota) i = open_one-IsExact y name day quota i
step-IsExact y (commit_one k) i = record {
  settled = IsSettled-commit_at k y.sessions i.settled;
  exact = λ n d. rw charged-commit_at (i.exact n d);
}
step-IsExact y (close_one k) i = record {
  settled = IsSettled-close_at k y.sessions y.table i.settled;
  exact = λ n d. omega (
    arith,
    i.exact n d,
    usage-close_at n d k y.sessions y.table i.settled (omega (arith, i.exact n d)),
  );
}

run-IsExact : (y : System) (cs : List Call) → IsExact y → IsExact (run y cs)
unfolding run
run-IsExact y [] i = i
run-IsExact y (c ∷ cs) i = run-IsExact (step y c) cs (step-IsExact y c i)

start-IsExact : IsExact start
unfolding get_today_usage get
start-IsExact = record { settled = tt; exact = λ n d. refl }

-- However the sessions interleave, the stored usage of a name on a day is the number of its
-- reservations that are in flight or committed: none is counted twice or refunded twice.
pub usage_exact :
    (cs : List Call) (n : String) (d : ℕ)
    → get_today_usage n d (run start cs).table ≡ charged n d (run start cs).sessions
usage_exact cs n d = (run-IsExact start cs start-IsExact).exact n d

-- The quotas with which the name is opened on the day are at most `q`.
abbrev pub IsWithin : String → ℕ → ℕ → Call → Type 0
IsWithin n d q (open_one m e quota) = (m == n && e == d) ≡ true → quota ≤ q
IsWithin n d q (commit_one k) = Unit
IsWithin n d q (close_one k) = Unit

usage-close_at-le :
    (n : String) (d k : ℕ) (l : List Session) (t : Table)
    → get_today_usage n d (close_at k l t).1 ≤ get_today_usage n d t
unfolding close_at close
usage-close_at-le n d k [] t = omega arith
usage-close_at-le n d zero (x ∷ l) t =
    ground (arith, usage-refund x.reservation.name x.reservation.day t n d)
usage-close_at-le n d (suc k) (x ∷ l) t = usage-close_at-le n d k l t

step_within :
    (n : String) (d q : ℕ) (y : System) (c : Call)
    → IsWithin n d q c
    → get_today_usage n d y.table ≤ q
    → get_today_usage n d (step y c).table ≤ q
unfolding step open_reservation try_reserve_daily_usage
step_within n d q y (open_one name day quota) w h =
    ground (arith, w, usage-upsert name day y.table n d, eq_iff name n, nat_beq_iff day d)
step_within n d q y (commit_one k) w h = h
step_within n d q y (close_one k) w h = omega (arith, usage-close_at-le n d k y.sessions y.table)

run_within :
    (n : String) (d q : ℕ) (y : System) (cs : List Call)
    → All (IsWithin n d q) cs
    → get_today_usage n d y.table ≤ q
    → get_today_usage n d (run y cs).table ≤ q
unfolding run
run_within n d q y [] w h = h
run_within n d q y (c ∷ cs) w h = run_within n d q (step y c) cs w.1 (step_within n d q y c w.0 h)

-- Concurrent sessions never overshoot: if no reservation of the name on the day is asked for with
-- a quota above `q`, the stored usage stays at most `q`.
pub never_overshoots :
    (cs : List Call) (n : String) (d q : ℕ)
    → All (IsWithin n d q) cs
    → get_today_usage n d (run start cs).table ≤ q
never_overshoots cs n d q w =
    run_within n d q start cs w (unfold get_today_usage get in omega arith)
