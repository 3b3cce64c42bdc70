-- ===== src/Storage/Tokens/Lookup.antt =====
-- storage/sqlite_backend.py, the table `tokens`: what the lookups find after each write.
use astrbot_plugin_webchat_g.Prelude.{
  ◌≡◌, refl, sym, ◌∙◌, String, true, false, not, Option, none, some, List, [], ◌∷◌, ◌&&◌, ◌==◌,
  if◌then◌else◌, text_key, arith, eq_iff, All, Bool-cases, All-map, subst, some-eq, if-true,
  if-false, inl, inr,
}
use astrbot_plugin_webchat_g.Storage.Rows.{TokenRow}
use astrbot_plugin_webchat_g.Storage.Sql.{find_where, update_where, AreApart}
use astrbot_plugin_webchat_g.Storage.Sql.Find.{
  update_absent, find-All, find_absent, find_none, find-count,
}
use astrbot_plugin_webchat_g.Storage.Sql.Select.{update-AreApart}
use astrbot_plugin_webchat_g.Storage.Tokens.{
  named, hashed, clashes, get_token_by_hash, get_token_by_name, regenerate_token,
}

-- No two rows share a name or a hash.
abbrev pub IsUnique : List TokenRow → Type 0
IsUnique t = AreApart clashes t

with_hash : String → TokenRow → TokenRow
with_hash token_hash row = record row { token_hash = token_hash }

pub clash_parts :
    (r s : TokenRow)
    → clashes r s ≡ false
    → ((r.name == s.name) ≡ false) × ((r.token_hash == s.token_hash) ≡ false)
clash_parts r s h = (ground (arith, h), ground (arith, h))

-- Rows that do not clash with a row do not have its name or its hash.
others-named :
    (r : TokenRow) (name : String) (t : List TokenRow)
    → r.name ≡ name
    → All (λ s. clashes r s ≡ false) t
    → All (λ s. named name s ≡ false) t
others-named r name t e h =
    All-map (λ s. clashes r s ≡ false) (λ s. named name s ≡ false)
      (λ s c. ground (arith, (clash_parts r s c).0, eq_iff r.name s.name, eq_iff s.name name, e)) t
      h

others-hashed :
    (r : TokenRow) (token_hash : String) (t : List TokenRow)
    → r.token_hash ≡ token_hash
    → All (λ s. clashes r s ≡ false) t
    → All (λ s. hashed token_hash s ≡ false) t
others-hashed r token_hash t e h =
    All-map (λ s. clashes r s ≡ false) (λ s. hashed token_hash s ≡ false)
      (λ s c. ground (
        arith,
        (clash_parts r s c).1,
        eq_iff r.token_hash s.token_hash,
        eq_iff s.token_hash token_hash,
        e,
      ))
      t h

-- The row of a name is not at the head: its hash is another, and so is a hash that no other row has.
skips_head :
    (r row : TokenRow) (new h : String) (found : Option TokenRow)
    → clashes r row ≡ false
    → hashed new r ≡ false
    → (if r.token_hash == h
        then some r
        else if new == h
        then some (record row { token_hash = new })
        else if row.token_hash == h
        then none
        else found)
      ≡ (if new == h
          then some (record row { token_hash = new })
          else if row.token_hash == h
          then none
          else if r.token_hash == h
          then some r
          else found)
skips_head r row new h found c n = elim (Bool-cases (r.token_hash == h)) [
  | inr out ↦ rw out refl
  | inl at ↦
      let same : r.token_hash ≡ h = (eq_iff r.token_hash h).0 at in
      let new_differs : (new == h) ≡ false =
        ground (arith, n, same, eq_iff r.token_hash new, eq_iff new h) in
      let row_differs : (row.token_hash == h) ≡ false = ground (
        arith,
        (clash_parts r row c).1,
        same,
        eq_iff r.token_hash row.token_hash,
        eq_iff row.token_hash h,
      ) in
      rw (at, new_differs, row_differs) refl
]

module _ (name new : String) where
  abbrev pub replaced : List TokenRow → List TokenRow
  replaced t = update_where (named name) (λ r. record r { token_hash = new }) t

  replaced-head :
      (r : TokenRow) (t : List TokenRow) (h : String)
      → All (λ s. clashes r s ≡ false) t
      → named name r ≡ true
      → find_where (hashed h) (replaced (r ∷ t)) ≡ (
          if new == h
          then some (record r { token_hash = new })
          else if r.token_hash == h
          then none
          else find_where (hashed h) (r ∷ t))
  replaced-head r t h apart b =
      let rest =
        update_absent (named name) (λ (s : TokenRow). record s { token_hash = new }) t
          (others-named r name t ((eq_iff r.name name).0 b) apart) in
      elim (Bool-cases (r.token_hash == h)) [
        | inr c ↦ rw (b, rest, c) refl
        | inl c ↦
            let gone =
              find_absent (hashed h) t (others-hashed r h t ((eq_iff r.token_hash h).0 c) apart) in
            rw (b, rest, c, gone) refl
      ]

  -- What the lookup by a hash finds after the hash of a name's row is replaced.
  pub by_hash_replaced :
      (t : List TokenRow) (row : TokenRow) (h : String)
      → IsUnique t
      → All (λ r. (not (named name r) && hashed new r) ≡ false) t
      → find_where (named name) t ≡ some row
      → find_where (hashed h) (replaced t) ≡ (
          if new == h
          then some (record row { token_hash = new })
          else if row.token_hash == h
          then none
          else find_where (hashed h) t)
  by_hash_replaced [] row h u o e = absurd (ground (arith, e))
  by_hash_replaced (r ∷ t) row h u o e = elim (Bool-cases (named name r)) [
    | inl b ↦
        let at : r ≡ row =
          some-eq (sym (if-true (named name r) (some r) (find_where (named name) t) b) ∙ e) in
        subst
          (λ (q : TokenRow). find_where (hashed h) (replaced (r ∷ t)) ≡ (
            if new == h
            then some (record q { token_hash = new })
            else if q.token_hash == h
            then none
            else find_where (hashed h) (r ∷ t)))
          at (replaced-head r t h u.0 b)
    | inr b ↦
        let e' = sym (if-false (named name r) (some r) (find_where (named name) t) b) ∙ e in
        let apart = find-All (λ s. clashes r s ≡ false) (named name) t row u.0 e' in
        rw (b, by_hash_replaced t row h u.1 o.1 e')
          (skips_head r row new h (find_where (hashed h) t) apart (ground (arith, o.0, b)))
  ]

  pub replaced-IsUnique :
      (t : List TokenRow)
      → IsUnique t
      → All (λ r. (not (named name r) && hashed new r) ≡ false) t
      → IsUnique (replaced t)
  replaced-IsUnique t u o =
      update-AreApart (λ r. (not (named name r) && hashed new r) ≡ false) clashes (named name)
        (λ r. record r { token_hash = new }) t (λ x y ox oy c. pair_apart x y ox oy c) o u
    where
      pair_apart :
          (x y : TokenRow)
          → (not (named name x) && hashed new x) ≡ false
          → (not (named name y) && hashed new y) ≡ false
          → clashes x y ≡ false
          → clashes
              (if named name x then record x { token_hash = new } else x)
              (if named name y then record y { token_hash = new } else y)
            ≡ false
      pair_apart x y ox oy c = elim (Bool-cases (named name x)) [
        | inl a ↦ elim (Bool-cases (named name y)) [
          | inl b ↦ absurd (
              ground (arith, c, a, b, eq_iff x.name name, eq_iff y.name name, eq_iff x.name y.name))
          | inr b ↦
              let names = (clash_parts x y c).0 in
              let hashes : (new == y.token_hash) ≡ false =
                ground (arith, oy, b, eq_iff y.token_hash new, eq_iff new y.token_hash) in
              rw (a, b, names, hashes) refl
        ]
        | inr a ↦ elim (Bool-cases (named name y)) [
          | inl b ↦
              let names = (clash_parts x y c).0 in
              let hashes : (x.token_hash == new) ≡ false = ground (arith, ox, a) in
              rw (a, b, names, hashes) refl
          | inr b ↦ rw (a, b) c
        ]
      ]

  -- The secret of a token that exists is replaced by one with a hash that no other row has. The old
  -- hash then finds nothing and the new one the row of the token; what any other hash finds, and
  -- that no two rows share a name or a hash, stays.
  pub regenerate_token_lem :
      (t : List TokenRow) (row : TokenRow)
      → IsUnique t
      → find_where (λ r. not (named name r) && hashed new r) t ≡ none
      → get_token_by_name name t ≡ some row
      → (t' : List TokenRow) × (regenerate_token name new t ≡ some (true, t'))
        × IsUnique t'
        × ((h : String)
            → get_token_by_hash h t' ≡ (
                if new == h
                then some (record row { token_hash = new })
                else if row.token_hash == h
                then none
                else get_token_by_hash h t))
  unfolding regenerate_token get_token_by_name get_token_by_hash
  regenerate_token_lem t row u free found =
      let others = find_none (λ r. not (named name r) && hashed new r) t free in
      (
        replaced t,
        rw (free, found, find-count (named name) t row found) refl,
        replaced-IsUnique t u others,
        λ h. by_hash_replaced t row h u others found,
      )
