-- ===== src/TokenService/Constraints.antt =====
-- handlers/admin_tokens.py: the table of tokens after each operation.
use astrbot_plugin_webchat_g.Prelude.{
  ℕ, ◌≤◌, ◌≡◌, refl, String, Bool, true, false, not, Option, none, some, List, ◌&&◌, ◌==◌,
  if◌then◌else◌, text_key, number_key, ltb, is_some, All, All-map, Bool-cases, Option-cases, inl,
  inr, arith, eq_iff, nat_beq_iff,
}
use astrbot_plugin_webchat_g.Prelude.Int.{pos, negsuc}
use astrbot_plugin_webchat_g.Storage.Rows.{TokenRow, Argument}
use astrbot_plugin_webchat_g.Storage.Sql.{find_where, update_where}
use astrbot_plugin_webchat_g.Storage.Sql.Find.{find_none, update_absent}
use astrbot_plugin_webchat_g.Storage.Sql.Select.{
  All-update, update-AreApart, append-All, append-AreApart,
}
use astrbot_plugin_webchat_g.Storage.Tokens.{
  named, hashed, clashes, get_token_by_name, create_token, is_live, revoke_token, updated_row,
  update_token, set_token_revoked, regenerate_token, is_given,
}
use astrbot_plugin_webchat_g.Storage.Tokens.Lookup.{clash_parts, replaced, replaced-IsUnique}
use astrbot_plugin_webchat_g.Storage.Rename.{meets, rename_token}
use astrbot_plugin_webchat_g.Chat.Requests.{first_chars}
use astrbot_plugin_webchat_g.TokenService.{
  Deps, State, Outcome, ok, error, Raw, null, blank, number, garbage, is_valid_name, coerce_quota,
  coerce_expires_at, coerce_custom_token, issue_row, issue_with, issue, revoke, written,
  set_revoked, given_quota, given_expires, is_nothing, update_with, short_note, update_fields,
  text_or, regenerated, regenerate_with, regenerate, rename,
}
use astrbot_plugin_webchat_g.TokenService.Sound.{
  IsGood, IsSound, update-IsSound, clashes_swap, second_holds, nothing,
}

module _ (d : Deps) (default_low : 1 ≤ d.default_quota)
    (default_high : d.default_quota ≤ 1000000) where
  -- A quota that is accepted is in range.
  abbrev IsInRange : Outcome ℕ → Type 0
  IsInRange (ok n) = (1 ≤ n) × (n ≤ 1000000)
  IsInRange (error e) = Unit

  coerce_quota-IsInRange : (raw : Raw) → IsInRange (coerce_quota d.default_quota raw)
  unfolding coerce_quota
  coerce_quota-IsInRange null = (default_low, default_high)
  coerce_quota-IsInRange blank = (default_low, default_high)
  coerce_quota-IsInRange garbage = tt
  coerce_quota-IsInRange (number (negsuc n)) = tt
  coerce_quota-IsInRange (number (pos n)) = elim (Bool-cases (n == 0)) [
    | inl zero_ ↦ rw zero_ (default_low, default_high)
    | inr some_ ↦ elim (Bool-cases (ltb 1000000 n)) [
      | inl over ↦ rw (some_, over) tt
      | inr fits ↦ rw (some_, fits) (ground (arith, some_, nat_beq_iff n 0), ground (arith, fits))
    ]
  ]

  module _ (s : State) (h : IsSound s.db.tokens) where
    abbrev pub Holds : State → Type 0
    Holds s' = IsSound s'.db.tokens

    issue_row-Holds :
        (name token : String) (quota : ℕ) (text : String) (expires : Option ℕ) (now : ℕ)
        → is_valid_name name ≡ true
        → IsInRange (ok quota)
        → Holds (issue_row d name token quota text expires now s).1
    unfolding create_token
    issue_row-Holds name token quota text expires now valid range =
        let row : TokenRow = record {
          name = name;
          token_hash = d.hash_token token;
          daily_quota = quota;
          note = first_chars 255 text;
          created_at = now;
          revoked_at = none;
          expires_at = expires;
        } in
        elim (Bool-cases (is_some (get_token_by_name name s.db.tokens))) [
          | inl taken ↦ rw taken h
          | inr free ↦ elim (Bool-cases (is_some (find_where (clashes row) s.db.tokens))) [
            | inl clash ↦ rw (free, create_token, clash) h
            | inr apart ↦
                rw (free, create_token, apart)
                  (
                    append-AreApart clashes s.db.tokens row
                        (All-map (λ r. clashes row r ≡ false) (λ r. clashes r row ≡ false)
                          (λ r c. clashes_swap row r c) s.db.tokens
                          (find_none (clashes row) s.db.tokens
                            (nothing (find_where (clashes row) s.db.tokens) apart)))
                        h.0,
                    append-All IsGood s.db.tokens row h.1 (valid, range.0, range.1),
                  )
          ]
        ]

    pub issue-Holds :
        (name token : String) (quota : Raw) (text : String) (expires : Raw) (now : ℕ)
        → Holds (issue d name token quota text expires now s).1
    unfolding issue
    issue-Holds name token quota text expires now = elim (Bool-cases (is_valid_name name)) [
      | inr bad ↦ rw bad h
      | inl valid ↦ rw valid (
          go (coerce_quota d.default_quota quota) (coerce_expires_at now expires)
            (coerce_quota-IsInRange quota) valid)
    ]
      where
        go :
            (q : Outcome ℕ) (e : Outcome (Option ℕ))
            → IsInRange q
            → is_valid_name name ≡ true
            → Holds (issue_with d name token q text e now s).1
        go (error x) e range valid = h
        go (ok n) (error x) range valid = h
        go (ok n) (ok e) range valid = issue_row-Holds name token n text e now valid range

    pub revoke-Holds : (name : String) (now : ℕ) → Holds (revoke name now s).1
    unfolding revoke revoke_token
    revoke-Holds name now = elim (Bool-cases (is_valid_name name)) [
      | inr bad ↦ rw bad h
      | inl valid ↦ rw valid (
          update-IsSound (λ r. named name r && is_live r) (λ r. record r { revoked_at = some now })
            s.db.tokens (λ r. (refl, refl)) (λ r g. g) h)
    ]

    written-Holds :
        (name event miss : String) (day : ℕ) (w : Bool × List TokenRow)
        → IsSound w.1
        → Holds (written name event miss day w s).1
    written-Holds name event miss day (true, t) k = k
    written-Holds name event miss day (false, t) k = k

    pub set_revoked-Holds :
        (name : String) (revoked : Bool) (day now : ℕ)
        → Holds (set_revoked name revoked day now s).1
    unfolding set_revoked set_token_revoked
    set_revoked-Holds name revoked day now = elim (Bool-cases (is_valid_name name)) [
      | inr bad ↦ rw bad h
      | inl valid ↦ rw valid (
          written-Holds name (if revoked then "revoke" else "restore")
            (if revoked then "revoke_miss" else "restore_miss") day
            (set_token_revoked name revoked now s.db.tokens)
            (update-IsSound (named name)
              (λ r. record r { revoked_at = if revoked then some now else none }) s.db.tokens
              (λ r. (refl, refl)) (λ r g. g) h))
    ]

    -- A quota that is given is in range.
    abbrev IsGivenInRange : Outcome (Option ℕ) → Type 0
    IsGivenInRange (ok none) = Unit
    IsGivenInRange (ok (some n)) = (1 ≤ n) × (n ≤ 1000000)
    IsGivenInRange (error e) = Unit

    given_quota-IsGivenInRange : (raw : Raw) → IsGivenInRange (given_quota d.default_quota raw)
    unfolding coerce_quota
    given_quota-IsGivenInRange null = tt
    given_quota-IsGivenInRange blank = (default_low, default_high)
    given_quota-IsGivenInRange garbage = tt
    given_quota-IsGivenInRange (number (negsuc n)) = tt
    given_quota-IsGivenInRange (number (pos n)) =
        go (coerce_quota d.default_quota (number (pos n))) (coerce_quota-IsInRange (number (pos n)))
      where
        go :
            (q : Outcome ℕ)
            → IsInRange q
            → IsGivenInRange (elim q [ error e ↦ error e | ok k ↦ ok (some k) ])
        go (error e) k = tt
        go (ok n) k = k

    updated-IsGood :
        (q : Option ℕ) (text : Option String) (expires : Argument (Option ℕ)) (r : TokenRow)
        → IsGivenInRange (ok q)
        → IsGood r
        → IsGood (updated_row q text expires r)
    updated-IsGood none text expires r k g = g
    updated-IsGood (some n) text expires r k g = (g.0, k.0, k.1)

    update_token-IsSound :
        (name : String) (q : Option ℕ) (text : Option String) (expires : Argument (Option ℕ))
        → IsGivenInRange (ok q)
        → IsSound (update_token name q text expires s.db.tokens).1
    unfolding update_token
    update_token-IsSound name q text expires k =
        elim (Bool-cases (not (is_some q) && not (is_some text) && not (is_given expires))) [
          | inl idle ↦ rw idle h
          | inr busy ↦ rw busy (
              update-IsSound (named name) (updated_row q text expires) s.db.tokens
                (λ r. (refl, refl)) (λ r g. updated-IsGood q text expires r k g) h)
        ]

    pub update_fields-Holds :
        (name : String) (quota : Raw) (text : Option String) (expires : Argument Raw) (day now : ℕ)
        → Holds (update_fields d name quota text expires day now s).1
    unfolding update_fields
    update_fields-Holds name quota text expires day now = elim (Bool-cases (is_valid_name name)) [
      | inr bad ↦ rw bad h
      | inl valid ↦ rw valid (
          go (given_quota d.default_quota quota) (short_note text) (given_expires now expires)
            (given_quota-IsGivenInRange quota))
    ]
      where
        go :
            (q : Outcome (Option ℕ)) (x : Option String) (e : Outcome (Argument (Option ℕ)))
            → IsGivenInRange q
            → Holds (update_with name q x e day s).1
        go (error y) x e k = h
        go (ok n) x (error y) k = h
        go (ok n) x (ok e) k = elim (Bool-cases (is_nothing n x e)) [
          | inl idle ↦ rw idle h
          | inr busy ↦ rw busy (
              written-Holds name "update_fields" "update_fields_miss" day
                (update_token name n x e s.db.tokens) (update_token-IsSound name n x e k))
        ]

    -- The rows after a secret is replaced, if the database lets it be.
    abbrev IsSoundOption : Option (Bool × List TokenRow) → Type 0
    IsSoundOption none = Unit
    IsSoundOption (some w) = IsSound w.1

    replaced-IsGood :
        (name new : String) (t : List TokenRow) → All IsGood t → All IsGood (replaced name new t)
    replaced-IsGood name new t g =
        All-update IsGood IsGood (named name) (λ r. record r { token_hash = new }) t
          (λ r k. elim (Bool-cases (named name r)) [ inl e ↦ rw e k | inr e ↦ rw e k ]) g

    regenerate_token-IsSound :
        (name new : String) → IsSoundOption (regenerate_token name new s.db.tokens)
    unfolding regenerate_token
    regenerate_token-IsSound name new =
        let other : TokenRow → Bool = λ r. not (named name r) && hashed new r in
        elim (Bool-cases (is_some (find_where (named name) s.db.tokens))) [
          | inr absent ↦
              let kept =
                update_absent (named name) (λ (r : TokenRow). record r { token_hash = new })
                  s.db.tokens
                  (find_none (named name) s.db.tokens
                    (nothing (find_where (named name) s.db.tokens) absent)) in
              rw (absent, kept) h
          | inl found ↦ elim (Bool-cases (is_some (find_where other s.db.tokens))) [
            | inl taken ↦ rw (found, taken) tt
            | inr free ↦
                rw (found, free)
                  (
                    replaced-IsUnique name new s.db.tokens h.0
                        (find_none other s.db.tokens (nothing (find_where other s.db.tokens) free)),
                    replaced-IsGood name new s.db.tokens h.1,
                  )
          ]
        ]

    pub regenerate-Holds :
        (name token : String) (custom : Option String) → Holds (regenerate d name token custom s).1
    unfolding regenerate
    regenerate-Holds name token custom = elim (Bool-cases (is_valid_name name)) [
      | inr bad ↦ rw bad h
      | inl valid ↦ rw valid (go (coerce_custom_token d custom))
    ]
      where
        stored :
            (secret : String) (w : Option (Bool × List TokenRow))
            → IsSoundOption w
            → Holds (regenerated name secret w s).1
        stored secret none k = h
        stored secret (some (false, t)) k = k
        stored secret (some (true, t)) k = elim (Option-cases (get_token_by_name name t)) [
          | inl e ↦ rw (regenerated, e) k
          | inr (row, e) ↦ rw (regenerated, e) k
        ]

        go : (c : Outcome (Option String)) → Holds (regenerate_with d name token c s).1
        go (error x) = h
        go (ok c) =
            stored (text_or token c)
              (regenerate_token name (d.hash_token (text_or token c)) s.db.tokens)
              (regenerate_token-IsSound name (d.hash_token (text_or token c)))

    renamed-IsSound :
        (old new : String)
        → is_valid_name new ≡ true
        → is_some (find_where (named new) s.db.tokens) ≡ false
        → IsSound (update_where (named old) (λ r. record r { name = new }) s.db.tokens)
    renamed-IsSound old new valid free = (
      update-AreApart (λ r. named new r ≡ false) clashes (named old) (λ r. record r { name = new })
          s.db.tokens (λ x y fx fy c. pair_apart x y fx fy c)
          (find_none (named new) s.db.tokens (nothing (find_where (named new) s.db.tokens) free))
          h.0,
      All-update IsGood IsGood (named old) (λ r. record r { name = new }) s.db.tokens
          (λ r g. elim (Bool-cases (named old r)) [
            | inl e ↦ rw e (valid, g.1, g.2)
            | inr e ↦ rw e g
          ])
          h.1,
    )
      where
        pair_apart :
            (x y : TokenRow)
            → named new x ≡ false
            → named new y ≡ false
            → clashes x y ≡ false
            → clashes
                (if named old x then record x { name = new } else x)
                (if named old y then record y { name = new } else y)
              ≡ false
        pair_apart x y fx fy c =
            let (names, hashes) = clash_parts x y c in
            elim (Bool-cases (named old x)) [
              | inl a ↦ elim (Bool-cases (named old y)) [
                | inl b ↦ absurd (
                    ground (
                      arith,
                      names,
                      a,
                      b,
                      eq_iff x.name old,
                      eq_iff y.name old,
                      eq_iff x.name y.name,
                    ))
                | inr b ↦
                    let differ : (new == y.name) ≡ false =
                      ground (arith, fy, eq_iff y.name new, eq_iff new y.name) in
                    rw (a, b, differ, hashes) refl
              ]
              | inr a ↦ elim (Bool-cases (named old y)) [
                | inl b ↦ rw (a, b, fx, hashes) refl
                | inr b ↦ rw (a, b) c
              ]
            ]

    pub rename-Holds : (old new : String) (day : ℕ) → Holds (rename old new day s).1
    unfolding rename rename_token get_token_by_name
    rename-Holds old new day = elim (Bool-cases (is_valid_name old && is_valid_name new)) [
      | inr bad ↦ rw (rename, bad) h
      | inl valid ↦ elim (Bool-cases (old == new)) [
        | inl same ↦ rw (rename, valid, same) h
        | inr other ↦ elim (Bool-cases (is_some (find_where (named old) s.db.tokens))) [
          | inr absent ↦ rw (rename, valid, other, absent) h
          | inl there ↦ elim (Bool-cases (is_some (find_where (named new) s.db.tokens))) [
            | inl taken ↦ rw (rename, valid, other, there, taken) h
            | inr free ↦ elim (Bool-cases (meets old new s.db)) [
              | inl hit ↦ rw (rename, valid, other, there, free, rename_token, hit) h
              | inr clear ↦
                  rw (rename, valid, other, there, free, rename_token, clear)
                    (renamed-IsSound old new
                      (second_holds (is_valid_name old) (is_valid_name new) valid) free)
            ]
          ]
        ]
      ]
    ]
