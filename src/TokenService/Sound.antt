-- ===== src/TokenService/Sound.antt =====
-- handlers/admin_tokens.py: what the table of tokens keeps to.
use astrbot_plugin_webchat_g.Prelude.{
  ◌≤◌, ◌≡◌, refl, Bool, true, false, Option, none, some, List, [], ◌∷◌, ◌&&◌, ◌==◌, if◌then◌else◌,
  text_key, number_key, is_some, All, Bool-cases, inl, inr, arith, eq_iff,
}
use astrbot_plugin_webchat_g.Storage.Rows.{TokenRow}
use astrbot_plugin_webchat_g.Storage.Sql.{update_where}
use astrbot_plugin_webchat_g.Storage.Sql.Select.{All-update, update-AreApart}
use astrbot_plugin_webchat_g.Storage.Tokens.{clashes}
use astrbot_plugin_webchat_g.Storage.Tokens.Lookup.{IsUnique, clash_parts}
use astrbot_plugin_webchat_g.TokenService.{is_valid_name}

-- A row with a valid name and a quota in range.
abbrev pub IsGood : TokenRow → Type 0
IsGood row = (is_valid_name row.name ≡ true) × (1 ≤ row.daily_quota) × (row.daily_quota ≤ 1000000)

abbrev pub IsSound : List TokenRow → Type 0
IsSound t = IsUnique t × All IsGood t

-- An update that leaves the names and the hashes, and keeps rows good.
pub update-IsSound :
    (p : TokenRow → Bool) (f : TokenRow → TokenRow) (t : List TokenRow)
    → ((r : TokenRow) → ((f r).name ≡ r.name) × ((f r).token_hash ≡ r.token_hash))
    → ((r : TokenRow) → IsGood r → IsGood (f r))
    → IsSound t
    → IsSound (update_where p f t)
update-IsSound p f t same good h = (
  update-AreApart (λ _. Unit {0}) clashes p f t (λ x y _ _ c. apart x y c) (units t) h.0,
  All-update IsGood IsGood p f t
      (λ r g. elim (Bool-cases (p r)) [ inl e ↦ rw e (good r g) | inr e ↦ rw e g ]) h.1,
)
  where
    units : (rows : List TokenRow) → All (λ _. Unit {0}) rows
    units [] = tt
    units (r ∷ rows) = (tt, units rows)

    name_of : (x : TokenRow) → (if p x then f x else x).name ≡ x.name
    name_of x = elim (Bool-cases (p x)) [ inl e ↦ rw e (same x).0 | inr e ↦ rw e refl ]

    hash_of : (x : TokenRow) → (if p x then f x else x).token_hash ≡ x.token_hash
    hash_of x = elim (Bool-cases (p x)) [ inl e ↦ rw e (same x).1 | inr e ↦ rw e refl ]

    apart :
        (x y : TokenRow)
        → clashes x y ≡ false
        → clashes (if p x then f x else x) (if p y then f y else y) ≡ false
    apart x y c = rw (name_of x, name_of y, hash_of x, hash_of y) c

pub clashes_swap : (r x : TokenRow) → clashes r x ≡ false → clashes x r ≡ false
clashes_swap r x c =
    let (names, hashes) = clash_parts r x c in
    let names' : (x.name == r.name) ≡ false =
      ground (arith, names, eq_iff r.name x.name, eq_iff x.name r.name) in
    let hashes' : (x.token_hash == r.token_hash) ≡ false =
      ground (arith, hashes, eq_iff r.token_hash x.token_hash, eq_iff x.token_hash r.token_hash) in
    rw (names', hashes') refl

pub second_holds : (a b : Bool) → (a && b) ≡ true → b ≡ true
second_holds a b e = ground (arith, e)

pub nothing : {A : Type 0} (o : Option A) → is_some o ≡ false → o ≡ none
nothing none h = refl
nothing (some x) h = absurd (ground (arith, h))
