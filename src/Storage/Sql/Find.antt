-- ===== src/Storage/Sql/Find.antt =====
-- The row that a SELECT finds first.
use astrbot_plugin_webchat_g.Prelude.{
  ◌≡◌, refl, sym, ◌∙◌, Bool, true, false, none, some, List, [], ◌∷◌, if◌then◌else◌, arith, All,
  Bool-cases, subst, some-eq, if-true, if-false, inl, inr, ltb,
}
use astrbot_plugin_webchat_g.Storage.Sql.{find_where, update_where, delete_where, count_where}

module _ {ℓ} {A : Type ℓ} where
  pub find-update :
      (p q : A → Bool) (f : A → A) (rows : List A)
      → ((row : A) → q (f row) ≡ q row)
      → find_where q (update_where p f rows)
        ≡ elim (find_where q rows) [ none ↦ none | some row ↦ some (if p row then f row else row) ]
  find-update p q f [] h = refl
  find-update p q f (row ∷ rows) h = elim (Bool-cases (p row)) [
    | inl yes_ ↦ elim (Bool-cases (q row)) [
      | inl a ↦ rw (yes_, h row, a, yes_) refl
      | inr a ↦ rw (yes_, h row, a) (find-update p q f rows h)
    ]
    | inr no_ ↦ elim (Bool-cases (q row)) [
      | inl a ↦ rw (no_, a, no_) refl
      | inr a ↦ rw (no_, a) (find-update p q f rows h)
    ]
  ]

  pub find_none : (p : A → Bool) (xs : List A) → find_where p xs ≡ none → All (λ x. p x ≡ false) xs
  find_none p [] e = tt
  find_none p (x ∷ xs) e = elim (Bool-cases (p x)) [
    | inl b ↦ absurd (ground (arith, e, b))
    | inr b ↦ (b, find_none p xs (ground (arith, e, b)))
  ]

  pub find_absent :
      (p : A → Bool) (xs : List A) → All (λ x. p x ≡ false) xs → find_where p xs ≡ none
  find_absent p [] h = refl
  find_absent p (x ∷ xs) h = rw h.0 (find_absent p xs h.1)

  pub find-All {κ} :
      (P : A → Type κ) (p : A → Bool) (xs : List A) (x : A)
      → All P xs
      → find_where p xs ≡ some x
      → P x
  find-All P p [] x h e = absurd (ground (arith, e))
  find-All P p (y ∷ xs) x h e = elim (Bool-cases (p y)) [
    | inl b ↦ subst P (some-eq (sym (if-true (p y) (some y) (find_where p xs) b) ∙ e)) h.0
    | inr b ↦ find-All P p xs x h.1 (sym (if-false (p y) (some y) (find_where p xs) b) ∙ e)
  ]

  pub find-holds : (p : A → Bool) (xs : List A) (x : A) → find_where p xs ≡ some x → p x ≡ true
  find-holds p [] x e = absurd (ground (arith, e))
  find-holds p (y ∷ xs) x e = elim (Bool-cases (p y)) [
    | inl b ↦
        subst (λ z. p z ≡ true) (some-eq (sym (if-true (p y) (some y) (find_where p xs) b) ∙ e)) b
    | inr b ↦ find-holds p xs x (sym (if-false (p y) (some y) (find_where p xs) b) ∙ e)
  ]

  pub find-count :
      (p : A → Bool) (xs : List A) (x : A)
      → find_where p xs ≡ some x
      → ltb 0 (count_where p xs) ≡ true
  find-count p [] x e = absurd (ground (arith, e))
  find-count p (y ∷ xs) x e = elim (Bool-cases (p y)) [
    | inl b ↦ rw b (ground arith)
    | inr b ↦ rw b (find-count p xs x (sym (if-false (p y) (some y) (find_where p xs) b) ∙ e))
  ]

  -- Rows that a delete keeps are found as before.
  pub find-delete :
      (p q : A → Bool) (xs : List A)
      → All (λ x. p x ≡ true → q x ≡ false) xs
      → find_where p (delete_where q xs) ≡ find_where p xs
  find-delete p q [] h = refl
  find-delete p q (x ∷ xs) h = elim (Bool-cases (p x)) [
    | inl a ↦ rw (h.0 a, a) refl
    | inr a ↦ elim (Bool-cases (q x)) [
      | inl b ↦ rw (b, a) (find-delete p q xs h.1)
      | inr b ↦ rw (b, a) (find-delete p q xs h.1)
    ]
  ]

  -- An update of rows that are not there.
  pub update_absent :
      (p : A → Bool) (f : A → A) (xs : List A)
      → All (λ x. p x ≡ false) xs
      → update_where p f xs ≡ xs
  update_absent p f [] h = refl
  update_absent p f (x ∷ xs) h = rw (h.0, update_absent p f xs h.1) refl
