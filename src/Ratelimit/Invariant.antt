-- ===== src/Ratelimit/Invariant.antt =====
-- The bookkeeping that every method of the limiter keeps, and what each does to the locks.
use astrbot_plugin_webchat_g.Prelude.{
  ℕ, ◌<◌, String, true, false, none, some, ◌==◌, if◌then◌else◌, text_key, number_key, ◌≡◌, ◌≢◌,
  refl, arith, eq_iff, nat_beq_iff, ==_refl, Option-cases, inl, inr,
}
use astrbot_plugin_webchat_g.Dict.{Dict, get, put, remove, get-put, get-remove}
use astrbot_plugin_webchat_g.Ratelimit.{
  Limiter, init, set_lock, lookup_lock, acquire, exit_release, exit_evict, acquire_with_id, release,
  free_lock, busy,
}

pub record IsValid (s : Limiter) : Type 0 where
  -- A lock object stands under one name.
  pub unshared : (n m : String) (l : ℕ) → get n s.locks ≡ some l → get m s.locks ≡ some l → n ≡ m
  pub fresh : (n : String) (l : ℕ) → get n s.locks ≡ some l → l < s.next_lock

pub init-IsValid : IsValid init
unfolding init get
init-IsValid = record { unshared = λ n m l p q. cc; fresh = λ n l p. cc }

-- The lock `l` of a free name is taken, and no other name is touched.
pub record Takes (name : String) (l : ℕ) (s t : Limiter) : Type 0 where
  pub valid : IsValid t
  pub locks_at : (m : String) → get m t.locks ≡ (if name == m then some l else get m s.locks)
  pub busy_at : (m : String) → busy m t ≡ (if name == m then true else busy m s)

-- The name is free afterwards, and no other name is touched.
pub record Frees (name : String) (s t : Limiter) : Type 0 where
  pub valid : IsValid t
  pub locks_at : (m : String) → name ≢ m → get m t.locks ≡ get m s.locks
  pub busy_at : (m : String) → busy m t ≡ (if name == m then false else busy m s)

module _ (name : String) (s : Limiter) where
  pub acquire-busy : busy name s ≡ true → acquire name s ≡ (none, s)
  unfolding busy acquire lookup_lock
  acquire-busy h = ground arith

  pub acquire_with_id-busy :
      (sid : String) → busy name s ≡ true → acquire_with_id name sid s ≡ (false, s)
  unfolding busy acquire_with_id lookup_lock
  acquire_with_id-busy sid h = ground arith

  lookup_lock-IsValid : IsValid s → IsValid (lookup_lock name s).1
  unfolding lookup_lock
  lookup_lock-IsValid v = record {
    unshared = λ n m l p q. ground (
      arith,
      get-put name n s.next_lock s.locks,
      get-put name m s.next_lock s.locks,
      eq_iff name n,
      eq_iff name m,
      v.unshared n m l,
      v.fresh n l,
      v.fresh m l,
    );
    fresh = λ n l p. ground (arith, get-put name n s.next_lock s.locks, eq_iff name n, v.fresh n l);
  }

  -- The lock that is found stands under the name, and the others are as they were.
  lookup_lock_at :
      (m : String)
      → get m (lookup_lock name s).1.locks
        ≡ (if name == m then some (lookup_lock name s).0 else get m s.locks)
  unfolding lookup_lock
  lookup_lock_at m = ground (arith, get-put name m s.next_lock s.locks, eq_iff name m)

  busy-lookup_lock : IsValid s → (m : String) → busy m (lookup_lock name s).1 ≡ busy m s
  unfolding busy lookup_lock
  busy-lookup_lock v m =
      ground (arith, get-put name m s.next_lock s.locks, eq_iff name m, v.fresh m s.next_lock)

  pub holders-lookup_lock : (lookup_lock name s).1.holders ≡ s.holders
  unfolding lookup_lock
  holders-lookup_lock = ground arith

-- Taking the lock that stands under the name.
module _ (name : String) (l : ℕ) (t : Limiter) (v : IsValid t)
    (at : get name t.locks ≡ some l) where
  pub locked : Dict String String → Limiter
  locked holders = record t { is_locked = set_lock l true t.is_locked; holders = holders }

  pub busy-locked :
      (h : Dict String String) (m : String)
      → busy m (locked h) ≡ (if name == m then true else busy m t)
  unfolding busy locked
  busy-locked h m = ground (arith, eq_iff name m, v.unshared name m l)

  pub locked-IsValid : (h : Dict String String) → IsValid (locked h)
  unfolding locked
  locked-IsValid h = record { unshared = v.unshared; fresh = v.fresh }

module _ (name : String) (s : Limiter) (v : IsValid s) (free : busy name s ≡ false) where
  -- `locked` is what a successful request leaves.
  taken : Dict String String → Limiter
  unfolding locked
  taken holders = record (lookup_lock name s).1 {
    is_locked = set_lock (lookup_lock name s).0 true (lookup_lock name s).1.is_locked;
    holders = holders;
  }

  free-lookup_lock : (lookup_lock name s).1.is_locked (lookup_lock name s).0 ≡ false
  unfolding busy lookup_lock
  free-lookup_lock = ground (arith, nat_beq_iff s.next_lock s.next_lock)

  taken-Takes : (h : Dict String String) → Takes name (lookup_lock name s).0 s (taken h)
  unfolding taken locked
  taken-Takes h =
      let t : Limiter = (lookup_lock name s).1 in
      let v' : IsValid t = lookup_lock-IsValid name s v in
      let at : get name t.locks ≡ some (lookup_lock name s).0 = rw (lookup_lock_at, ==_refl) in
      record {
        valid = locked-IsValid name (lookup_lock name s).0 t v' at h;
        locks_at = lookup_lock_at name s;
        busy_at = λ m.
            rw (busy-locked name (lookup_lock name s).0 t v' at h m, busy-lookup_lock name s v m);
      }

  pub acquire_of_free :
      (l : ℕ) × (t : Limiter) × (acquire name s ≡ (some l, t))
      × Takes name l s t
      × (t.holders ≡ s.holders)
  unfolding acquire taken
  acquire_of_free = (
    (lookup_lock name s).0,
    taken s.holders,
    ground (arith, free-lookup_lock, holders-lookup_lock name s),
    taken-Takes s.holders,
    refl,
  )

  pub acquire_with_id_of_free :
      (sid : String)
      → (l : ℕ) × (t : Limiter) × (acquire_with_id name sid s ≡ (true, t))
        × Takes name l s t
        × (t.holders ≡ put name sid s.holders)
  unfolding acquire_with_id taken
  acquire_with_id_of_free sid = (
    (lookup_lock name s).0,
    taken (put name sid s.holders),
    ground (arith, free-lookup_lock, holders-lookup_lock name s),
    taken-Takes (put name sid s.holders),
    refl,
  )

module _ (name : String) (s : Limiter) (v : IsValid s) where
  pub exit_release-Frees : (l : ℕ) → get name s.locks ≡ some l → Frees name s (exit_release l s)
  unfolding exit_release busy
  exit_release-Frees l at = record {
    valid = record { unshared = v.unshared; fresh = v.fresh };
    locks_at = λ m h. refl;
    busy_at = λ m. ground (arith, eq_iff name m, v.unshared name m l, nat_beq_iff l);
  }

  -- Eviction drops an idle lock, whatever lock and name it is called with.
  pub exit_evict-IsValid : (l : ℕ) → IsValid (exit_evict name l s)
  unfolding exit_evict
  exit_evict-IsValid l = record {
    unshared = λ n m k p q.
        ground (arith, get-remove name n s.locks, get-remove name m s.locks, v.unshared n m k);
    fresh = λ n k p. ground (arith, get-remove name n s.locks, v.fresh n k);
  }

  pub busy-exit_evict : (l : ℕ) (m : String) → busy m (exit_evict name l s) ≡ busy m s
  unfolding exit_evict busy
  busy-exit_evict l m = ground (arith, get-remove name m s.locks, eq_iff name m)

  pub get-exit_evict :
      (l : ℕ) (m : String) → busy m s ≡ true → get m (exit_evict name l s).locks ≡ get m s.locks
  unfolding exit_evict busy
  get-exit_evict l m h = ground (arith, get-remove name m s.locks, eq_iff name m)

  free_lock-Frees : Frees name s (free_lock name s)
  unfolding free_lock busy
  free_lock-Frees = record {
    valid = record {
      unshared = λ n m k p q.
          ground (arith, get-remove name n s.locks, get-remove name m s.locks, v.unshared n m k);
      fresh = λ n k p. ground (arith, get-remove name n s.locks, v.fresh n k);
    };
    locks_at = λ m h. ground (arith, get-remove name m s.locks, eq_iff name m);
    busy_at = λ m. elim (Option-cases (get name s.locks)) [
      | inl e ↦ ground (arith, eq_iff name m)
      | inr (l, e) ↦
          ground
            (arith, get-remove name m s.locks, eq_iff name m, v.unshared name m l, nat_beq_iff l)
    ];
  }

  holders-free_lock : (free_lock name s).holders ≡ remove name s.holders
  unfolding free_lock
  holders-free_lock = ground arith

  release_match :
      (sid : String) → get name s.holders ≡ some sid → release name sid s ≡ free_lock name s
  unfolding release
  release_match sid h = ground (arith, eq_iff sid sid)

  pub holders-exit_evict : (l : ℕ) → (exit_evict name l s).holders ≡ s.holders
  unfolding exit_evict
  holders-exit_evict l = ground arith

  -- The release of the recorded holder.
  pub release_held :
      (sid : String)
      → get name s.holders ≡ some sid
      → Frees name s (release name sid s) × ((release name sid s).holders ≡ remove name s.holders)
  release_held sid h = rw (release_match sid h) (free_lock-Frees, holders-free_lock)

  -- Any other release changes nothing.
  pub release_stale : (sid : String) → get name s.holders ≢ some sid → release name sid s ≡ s
  unfolding release
  release_stale sid h = elim (Option-cases (get name s.holders)) [
    | inl e ↦ ground arith
    | inr (o, e) ↦ ground (arith, eq_iff o sid)
  ]
