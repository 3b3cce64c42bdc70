-- ===== src/FileCookie/Logout.antt =====
-- core/cookie_logout.py: the logouts and the sweeps of a process, in their order.
use astrbot_plugin_webchat_g.Prelude.{
  ℕ, ◌+◌, ◌≤◌, ◌<◌, ◌≡◌, refl, ◌∙◌, String, Bool, true, false, Option, none, some, List, [], ◌∷◌,
  ◌&&◌, ◌||◌, ◌==◌, text_key, leb, ltb, arith, eq_iff, subst, max, ==_refl, Bool-cases, inl, inr,
}
use astrbot_plugin_webchat_g.Dict.{Dict, get, get-put, IsDistinct, put-IsDistinct}
use astrbot_plugin_webchat_g.FileCookie.{
  Tracker, new_tracker, threshold_or, is_at_most, raised, record_logout, is_invalidated,
  drop_expired, prune_expired,
}

-- A logout of a token, a sweep of the daily loop: each at its time.
pub data Event : Type 0 where
  logs_out : String → ℕ → Event
  sweeps : ℕ → Event

abbrev pub step : Event → Tracker → Tracker
step (logs_out name now) t = (record_logout name now t).1
step (sweeps now) t = prune_expired now t

unfoldable pub run : List Event → Tracker → Tracker
run [] t = t
run (e ∷ es) t = run es (step e t)

-- A logout of the token, late enough to void a cookie that expires at `exp`.
abbrev pub voids : String → ℕ → ℕ → Event → Bool
voids name exp ttl (logs_out other now) = (other == name) && leb exp (now + ttl)
voids name exp ttl (sweeps now) = false

unfoldable pub is_voided : String → ℕ → ℕ → List Event → Bool
is_voided name exp ttl [] = false
is_voided name exp ttl (e ∷ es) = voids name exp ttl e || is_voided name exp ttl es

-- Every sweep is before the time.
abbrev pub IsSweptBefore : ℕ → List Event → Type 0
IsSweptBefore later [] = Unit
IsSweptBefore later (logs_out name now ∷ es) = IsSweptBefore later es
IsSweptBefore later (sweeps now ∷ es) = (now ≤ later) × IsSweptBefore later es

swept_first :
    (e : Event) (es : List Event) (later : ℕ)
    → IsSweptBefore later (e ∷ es)
    → IsSweptBefore later (e ∷ [])
swept_first (logs_out name now) es later h = tt
swept_first (sweeps now) es later h = (h.0, tt)

swept_rest :
    (e : Event) (es : List Event) (later : ℕ)
    → IsSweptBefore later (e ∷ es)
    → IsSweptBefore later es
swept_rest (logs_out name now) es later h = h
swept_rest (sweeps now) es later h = h.1

drop_expired-get-none :
    (ttl now : ℕ) (name : String) (m : Dict String ℕ)
    → get name m ≡ none
    → get name (drop_expired ttl now m) ≡ none
unfolding get
drop_expired-get-none ttl now name [] h = refl
drop_expired-get-none ttl now name ((n, th) ∷ m) h =
    ground (arith, drop_expired-get-none ttl now name m)

drop_expired-IsDistinct :
    (ttl now : ℕ) (m : Dict String ℕ) → IsDistinct m → IsDistinct (drop_expired ttl now m)
drop_expired-IsDistinct ttl now [] h = tt
drop_expired-IsDistinct ttl now ((n, th) ∷ m) h = elim (Bool-cases (leb (th + ttl) now)) [
  | inl old ↦ rw old (drop_expired-IsDistinct ttl now m h.1)
  | inr live ↦
      rw live (drop_expired-get-none ttl now n m h.0, drop_expired-IsDistinct ttl now m h.1)
]

is_at_most-drop :
    (ttl now exp : ℕ) (name : String) (m : Dict String ℕ)
    → IsDistinct m
    → now < exp
    → is_at_most exp (get name (drop_expired ttl now m)) ≡ is_at_most exp (get name m)
unfolding get
is_at_most-drop ttl now exp name [] h lt = refl
is_at_most-drop ttl now exp name ((n, th) ∷ m) h lt =
    let ih = is_at_most-drop ttl now exp name m h.1 lt in
    elim (Bool-cases (leb (th + ttl) now)) [
      | inl old ↦ elim (Bool-cases (n == name)) [
        | inl same ↦
            let name_eq = (eq_iff n name).0 same in
            let gone : get name m ≡ none = subst (λ x. get x m ≡ none) name_eq h.0 in
            let past : leb exp th ≡ false = ground arith in rw (old, same, ih, gone, past) refl
        | inr other ↦ rw (old, other) ih
      ]
      | inr live ↦ elim (Bool-cases (n == name)) [
        | inl same ↦ rw (live, same) refl
        | inr other ↦ rw (live, other) ih
      ]
    ]

covers_higher :
    (exp threshold : ℕ) (o : Option ℕ)
    → ltb (threshold_or 0 o) threshold ≡ true
    → leb exp threshold ≡ (leb exp threshold || is_at_most exp o)
covers_higher exp threshold none h = ground arith
covers_higher exp threshold (some th) h = ground arith

covers_lower :
    (exp threshold : ℕ) (o : Option ℕ)
    → 0 < exp
    → ltb (threshold_or 0 o) threshold ≡ false
    → is_at_most exp o ≡ (leb exp threshold || is_at_most exp o)
covers_lower exp threshold none pos h = ground arith
covers_lower exp threshold (some th) pos h = ground arith

pub raised_own :
    (name : String) (exp threshold : ℕ) (m : Dict String ℕ)
    → 0 < exp
    → is_at_most exp (get name (raised name threshold m))
      ≡ (leb exp threshold || is_at_most exp (get name m))
unfolding raised
raised_own name exp threshold m pos =
    elim (Bool-cases (ltb (threshold_or 0 (get name m)) threshold)) [
      | inl high ↦
          rw (raised, high, get-put name name threshold m, ==_refl name)
            (covers_higher exp threshold (get name m) high)
      | inr low ↦ rw (raised, low) (covers_lower exp threshold (get name m) pos low)
    ]

pub is_at_most-raised :
    (name other : String) (exp threshold : ℕ) (m : Dict String ℕ)
    → 0 < exp
    → is_at_most exp (get name (raised other threshold m))
      ≡ (((other == name) && leb exp threshold) || is_at_most exp (get name m))
unfolding raised
is_at_most-raised name other exp threshold m pos = elim (Bool-cases (other == name)) [
  | inl same ↦ rw (same, (eq_iff other name).0 same) (raised_own name exp threshold m pos)
  | inr far ↦ elim (Bool-cases (ltb (threshold_or 0 (get other m)) threshold)) [
    | inl high ↦ rw (raised, high, far, get-put other name threshold m, far) refl
    | inr low ↦ rw (raised, low, far) refl
  ]
]

-- One step, on a cookie that is still live.
step-is_invalidated :
    (e : Event) (name : String) (exp later : ℕ) (t : Tracker)
    → IsDistinct t.thresholds
    → IsSweptBefore later (e ∷ [])
    → later < exp
    → is_invalidated name exp (step e t)
      ≡ (voids name exp t.default_ttl e || is_invalidated name exp t)
unfolding is_invalidated record_logout prune_expired
step-is_invalidated (logs_out other now) name exp later t d hs lt =
    is_at_most-raised name other exp (now + t.default_ttl) t.thresholds (omega (arith, lt))
step-is_invalidated (sweeps now) name exp later t d hs lt =
    is_at_most-drop t.default_ttl now exp name t.thresholds d (omega (arith, hs.0, lt))

raised-IsDistinct :
    (name : String) (threshold : ℕ) (m : Dict String ℕ)
    → IsDistinct m
    → IsDistinct (raised name threshold m)
unfolding raised
raised-IsDistinct name threshold m d =
    elim (Bool-cases (ltb (threshold_or 0 (get name m)) threshold)) [
      | inl high ↦ rw high (put-IsDistinct name threshold m d)
      | inr low ↦ rw low d
    ]

step-IsDistinct :
    (e : Event) (t : Tracker) → IsDistinct t.thresholds → IsDistinct (step e t).thresholds
unfolding record_logout prune_expired
step-IsDistinct (logs_out name now) t d =
    raised-IsDistinct name (now + t.default_ttl) t.thresholds d
step-IsDistinct (sweeps now) t d = drop_expired-IsDistinct t.default_ttl now t.thresholds d

step-default_ttl : (e : Event) (t : Tracker) → (step e t).default_ttl ≡ t.default_ttl
unfolding record_logout prune_expired
step-default_ttl (logs_out name now) t = refl
step-default_ttl (sweeps now) t = refl

or_swap : (a b c : Bool) → (b || (a || c)) ≡ ((a || b) || c)
or_swap a b c = ground arith

or_false : (b : Bool) → (b || false) ≡ b
or_false b = ground arith

run-is_invalidated :
    (es : List Event) (name : String) (exp later : ℕ) (t : Tracker)
    → IsDistinct t.thresholds
    → IsSweptBefore later es
    → later < exp
    → is_invalidated name exp (run es t)
      ≡ (is_voided name exp t.default_ttl es || is_invalidated name exp t)
unfolding run is_voided
run-is_invalidated [] name exp later t d hs lt = refl
run-is_invalidated (e ∷ es) name exp later t d hs lt =
    run-is_invalidated es name exp later (step e t) (step-IsDistinct e t d)
      (swept_rest e es later hs) lt
    ∙ rw
        (
          step-default_ttl e t,
          step-is_invalidated e name exp later t d (swept_first e es later hs) lt,
        )
        (or_swap (voids name exp t.default_ttl e) (is_voided name exp t.default_ttl es)
          (is_invalidated name exp t))

-- In a process whose logouts and sweeps came in any order, a cookie that is live at `later`, with
-- every sweep at or before that time, is refused exactly when some logout of its token came within
-- the lifetime of a cookie before its expiry: no sweep forgets a logout that a live cookie needs,
-- and a cookie that is issued after the logouts is not refused.
pub logouts_lem :
    (es : List Event) (ttl : ℕ) (name : String) (exp later : ℕ)
    → IsSweptBefore later es
    → later < exp
    → is_invalidated name exp (run es (new_tracker ttl)) ≡ is_voided name exp (max 60 ttl) es
unfolding new_tracker is_invalidated get
logouts_lem es ttl name exp later hs lt =
    run-is_invalidated es name exp later (new_tracker ttl) tt hs lt
    ∙ or_false (is_voided name exp (max 60 ttl) es)
