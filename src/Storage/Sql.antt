-- ===== src/Storage/Sql.antt =====
-- The statements of SQL that the backends use, on a table as the list of its rows in the order of
-- insertion. Rows that ORDER BY does not tell apart keep that order, one of those that the
-- database may give.
pub mod Order
pub mod Find
pub mod Select
use astrbot_plugin_webchat_g.Prelude.{
  ℕ, zero, suc, ◌+◌, ◌≤◌, ◌≡◌, refl, sym, ◌∙◌, ap, Bool, true, false, not, ◌&&◌, Option, none, some,
  List, [], ◌∷◌, ◌++◌, if◌then◌else◌, arith, length, select, All, Bool-cases, subst, some-eq,
  if-true, if-false, inl, inr, max, min, ltb,
}

module _ {ℓ} {A : Type ℓ} where
  -- `SELECT … WHERE …`, `fetchone()`
  abbrev pub find_where : (A → Bool) → List A → Option A
  find_where p [] = none
  find_where p (row ∷ rows) = if p row then some row else find_where p rows

  -- `UPDATE … SET … WHERE …`
  abbrev pub update_where : (A → Bool) → (A → A) → List A → List A
  update_where p f [] = []
  update_where p f (row ∷ rows) = (if p row then f row else row) ∷ update_where p f rows

  -- `DELETE FROM … WHERE …`
  abbrev pub delete_where : (A → Bool) → List A → List A
  delete_where p rows = select (λ row. not (p row)) rows

  -- `rowcount`, `COUNT(*)`
  abbrev pub count_where : (A → Bool) → List A → ℕ
  count_where p rows = length (select p rows)

  -- `LIMIT ?`
  abbrev pub limit_rows : ℕ → List A → List A
  limit_rows zero rows = []
  limit_rows (suc n) [] = []
  limit_rows (suc n) (row ∷ rows) = row ∷ limit_rows n rows

  -- `OFFSET ?`
  abbrev pub offset_rows : ℕ → List A → List A
  offset_rows zero rows = rows
  offset_rows (suc n) [] = []
  offset_rows (suc n) (row ∷ rows) = offset_rows n rows

  unfoldable pub insert_row : (A → A → Bool) → A → List A → List A
  insert_row before x [] = x ∷ []
  insert_row before x (y ∷ ys) =
      let rest = insert_row before x ys in if before y x then y ∷ rest else x ∷ y ∷ ys

  -- `ORDER BY`, where the test says that a row stands strictly before another.
  unfoldable pub order_by : (A → A → Bool) → List A → List A
  unfolding insert_row
  order_by before [] = []
  order_by before (x ∷ xs) = insert_row before x (order_by before xs)

  -- No row stands strictly before one ahead of it.
  abbrev pub IsOrdered : (A → A → Bool) → List A → Type 0
  IsOrdered before [] = Unit
  IsOrdered before (x ∷ xs) = All (λ y. before y x ≡ false) xs × IsOrdered before xs

  -- No two rows are the same for a key.
  abbrev pub AreApart : (A → A → Bool) → List A → Type 0
  AreApart same [] = Unit
  AreApart same (x ∷ xs) = All (λ y. same x y ≡ false) xs × AreApart same xs

-- `max(low, min(value, high))`
abbrev pub clamp : ℕ → ℕ → ℕ → ℕ
clamp low high value = max low (min value high)
