-- ===== src/Storage/Sql/Order.antt =====
-- Rows in an order, and the first of them.
use astrbot_plugin_webchat_g.Prelude.{
  ℕ, zero, suc, ◌+◌, ◌≤◌, ◌≡◌, refl, ap, Bool, false, List, [], ◌∷◌, ◌++◌, arith, length, select,
  All, Bool-cases, inl, inr,
}
use astrbot_plugin_webchat_g.Storage.Sql.{limit_rows, offset_rows, insert_row, order_by, IsOrdered}
use astrbot_plugin_webchat_g.Storage.Sql.Select.{select-All}

module _ {ℓ} {A : Type ℓ} where
  pub insert-All {κ} :
      (P : A → Type κ) (before : A → A → Bool) (x : A) (ys : List A)
      → P x
      → All P ys
      → All P (insert_row before x ys)
  unfolding insert_row
  insert-All P before x [] p h = (p, tt)
  insert-All P before x (y ∷ ys) p h = elim (Bool-cases (before y x)) [
    | inl b ↦ rw b (h.0, insert-All P before x ys p h.1)
    | inr b ↦ rw b (p, h)
  ]

  pub order_by-All {κ} :
      (P : A → Type κ) (before : A → A → Bool) (xs : List A) → All P xs → All P (order_by before xs)
  unfolding order_by
  order_by-All P before [] h = tt
  order_by-All P before (x ∷ xs) h =
      insert-All P before x (order_by before xs) h.0 (order_by-All P before xs h.1)

  -- Rows that stand in order stay as they are.
  pub order_by-same :
      (before : A → A → Bool) (xs : List A) → IsOrdered before xs → order_by before xs ≡ xs
  unfolding order_by insert_row
  order_by-same before [] h = refl
  order_by-same before (x ∷ []) h = refl
  order_by-same before (x ∷ y ∷ ys) h = rw (order_by-same before (y ∷ ys) h.1, h.0.0) refl

  pub length-insert :
      (before : A → A → Bool) (x : A) (ys : List A)
      → length (insert_row before x ys) ≡ length ys + 1
  unfolding insert_row
  length-insert before x [] = refl
  length-insert before x (y ∷ ys) = ground (arith, length-insert before x ys)

  pub length-order_by :
      (before : A → A → Bool) (xs : List A) → length (order_by before xs) ≡ length xs
  unfolding order_by
  length-order_by before [] = refl
  length-order_by before (x ∷ xs) =
      omega (arith, length-insert before x (order_by before xs), length-order_by before xs)

  pub limit-All {κ} : (P : A → Type κ) (n : ℕ) (xs : List A) → All P xs → All P (limit_rows n xs)
  limit-All P zero xs h = tt
  limit-All P (suc n) [] h = tt
  limit-All P (suc n) (x ∷ xs) h = (h.0, limit-All P n xs h.1)

  pub length-limit-le : (n : ℕ) (xs : List A) → length (limit_rows n xs) ≤ n
  length-limit-le zero xs = omega arith
  length-limit-le (suc n) [] = omega arith
  length-limit-le (suc n) (x ∷ xs) = omega (arith, length-limit-le n xs)

  pub limit-offset : (n : ℕ) (xs : List A) → limit_rows n xs ++ offset_rows n xs ≡ xs
  limit-offset zero xs = refl
  limit-offset (suc n) [] = refl
  limit-offset (suc n) (x ∷ xs) = ap (λ l. x ∷ l) (limit-offset n xs)

  pub select-IsOrdered :
      (before : A → A → Bool) (p : A → Bool) (xs : List A)
      → IsOrdered before xs
      → IsOrdered before (select p xs)
  select-IsOrdered before p [] h = tt
  select-IsOrdered before p (x ∷ xs) h = elim (Bool-cases (p x)) [
    | inl b ↦ rw b (select-All (λ y. before y x ≡ false) p xs h.0, select-IsOrdered before p xs h.1)
    | inr b ↦ rw b (select-IsOrdered before p xs h.1)
  ]
