-- ===== src/Storage/Sql/Select.antt =====
-- The rows that a SELECT gives, and rows that a key keeps apart.
use astrbot_plugin_webchat_g.Prelude.{
  ◌≡◌, refl, Bool, true, false, ◌&&◌, List, [], ◌∷◌, ◌++◌, if◌then◌else◌, arith, select, All,
  Bool-cases, inl, inr,
}
use astrbot_plugin_webchat_g.Storage.Sql.{update_where, AreApart}

module _ {ℓ} {A : Type ℓ} where
  pub select-All {κ} :
      (P : A → Type κ) (p : A → Bool) (xs : List A) → All P xs → All P (select p xs)
  select-All P p [] h = tt
  select-All P p (x ∷ xs) h = elim (Bool-cases (p x)) [
    | inl b ↦ rw b (h.0, select-All P p xs h.1)
    | inr b ↦ rw b (select-All P p xs h.1)
  ]

  pub All-update {κ μ} :
      (P : A → Type κ) (Q : A → Type μ) (p : A → Bool) (f : A → A) (xs : List A)
      → ((x : A) → P x → Q (if p x then f x else x))
      → All P xs
      → All Q (update_where p f xs)
  All-update P Q p f [] g h = tt
  All-update P Q p f (x ∷ xs) g h = (g x h.0, All-update P Q p f xs g h.1)

  pub All-both {κ μ} :
      (P : A → Type κ) (Q : A → Type μ) (xs : List A)
      → All P xs
      → All Q xs
      → All (λ x. P x × Q x) xs
  All-both P Q [] h k = tt
  All-both P Q (x ∷ xs) h k = ((h.0, k.0), All-both P Q xs h.1 k.1)

  pub select-update :
      (q p : A → Bool) (f : A → A) (xs : List A)
      → ((x : A) → q (f x) ≡ q x)
      → select q (update_where p f xs) ≡ update_where p f (select q xs)
  select-update q p f [] h = refl
  select-update q p f (x ∷ xs) h = elim (Bool-cases (p x)) [
    | inl yes_ ↦ elim (Bool-cases (q x)) [
      | inl a ↦ rw (yes_, h x, a, select-update q p f xs h, yes_) refl
      | inr a ↦ rw (yes_, h x, a, select-update q p f xs h) refl
    ]
    | inr no_ ↦ elim (Bool-cases (q x)) [
      | inl a ↦ rw (no_, a, select-update q p f xs h, no_) refl
      | inr a ↦ rw (no_, a, select-update q p f xs h) refl
    ]
  ]

  pub select-and :
      (p q : A → Bool) (xs : List A) → select (λ x. p x && q x) xs ≡ select q (select p xs)
  select-and p q [] = refl
  select-and p q (x ∷ xs) = ground (arith, select-and p q xs)

  pub select-select :
      (p q : A → Bool) (xs : List A) → select p (select q xs) ≡ select q (select p xs)
  select-select p q [] = refl
  select-select p q (x ∷ xs) = ground (arith, select-select p q xs)

  pub select_same :
      (p q : A → Bool) (xs : List A) → All (λ x. p x ≡ q x) xs → select p xs ≡ select q xs
  select_same p q [] h = refl
  select_same p q (x ∷ xs) h = rw (h.0, select_same p q xs h.1) refl

  pub update_same :
      (p q : A → Bool) (f : A → A) (xs : List A)
      → All (λ x. p x ≡ q x) xs
      → update_where p f xs ≡ update_where q f xs
  update_same p q f [] h = refl
  update_same p q f (x ∷ xs) h = rw (h.0, update_same p q f xs h.1) refl

  -- What a selection keeps satisfies its test.
  pub select-holds : (p : A → Bool) (xs : List A) → All (λ x. p x ≡ true) (select p xs)
  select-holds p [] = tt
  select-holds p (x ∷ xs) = elim (Bool-cases (p x)) [
    | inl b ↦ rw b (b, select-holds p xs)
    | inr b ↦ rw b (select-holds p xs)
  ]

  pub select_all : (p : A → Bool) (xs : List A) → All (λ x. p x ≡ true) xs → select p xs ≡ xs
  select_all p [] h = refl
  select_all p (x ∷ xs) h = rw (h.0, select_all p xs h.1) refl

  pub All-append {κ} : (P : A → Type κ) (xs ys : List A) → All P xs → All P ys → All P (xs ++ ys)
  All-append P [] ys h k = k
  All-append P (x ∷ xs) ys h k = (h.0, All-append P xs ys h.1 k)

  pub select_none : (p : A → Bool) (xs : List A) → All (λ x. p x ≡ false) xs → select p xs ≡ []
  select_none p [] h = refl
  select_none p (x ∷ xs) h = rw (h.0, select_none p xs h.1) refl

  -- An update keeps rows apart, if it does for any two rows with a property of all rows.
  pub update-AreApart {κ} :
      (P : A → Type κ) (same : A → A → Bool) (p : A → Bool) (f : A → A) (xs : List A)
      → ((x y : A)
          → P x
          → P y
          → same x y ≡ false
          → same (if p x then f x else x) (if p y then f y else y) ≡ false)
      → All P xs
      → AreApart same xs
      → AreApart same (update_where p f xs)
  update-AreApart P same p f [] g h u = tt
  update-AreApart P same p f (x ∷ xs) g h u = (
    All-update (λ y. P y × (same x y ≡ false)) (λ y. same (if p x then f x else x) y ≡ false) p f xs
        (λ y b. g x y h.0 b.0 b.1) (All-both P (λ y. same x y ≡ false) xs h.1 u.0),
    update-AreApart P same p f xs g h.1 u.1,
  )

  pub select-AreApart :
      (same : A → A → Bool) (p : A → Bool) (xs : List A)
      → AreApart same xs
      → AreApart same (select p xs)
  select-AreApart same p [] u = tt
  select-AreApart same p (x ∷ xs) u = elim (Bool-cases (p x)) [
    | inl b ↦ rw b (select-All (λ y. same x y ≡ false) p xs u.0, select-AreApart same p xs u.1)
    | inr b ↦ rw b (select-AreApart same p xs u.1)
  ]

  pub append-All {κ} :
      (P : A → Type κ) (xs : List A) (x : A) → All P xs → P x → All P (xs ++ (x ∷ []))
  append-All P [] x h p = (p, tt)
  append-All P (y ∷ xs) x h p = (h.0, append-All P xs x h.1 p)

  pub append-AreApart :
      (same : A → A → Bool) (xs : List A) (x : A)
      → All (λ y. same y x ≡ false) xs
      → AreApart same xs
      → AreApart same (xs ++ (x ∷ []))
  append-AreApart same [] x h u = (tt, tt)
  append-AreApart same (y ∷ xs) x h u =
      (append-All (λ z. same y z ≡ false) xs x u.0 h.0, append-AreApart same xs x h.1 u.1)
