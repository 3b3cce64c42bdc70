-- ===== src/Dict.antt =====
-- Python's `dict` and `OrderedDict`, and a table with a primary key: an association list in the
-- order of insertion. A write to a key that is there keeps its place.
use astrbot_plugin_webchat_g.Prelude.{
  ◌+◌, ◌≤◌, ◌≡◌, refl, Option, none, some, List, [], ◌∷◌, arith, Key, ◌==◌, if◌then◌else◌, length,
  Bool-cases, inl, inr,
}

abbrev pub Dict {ℓ κ} : Type ℓ → Type κ → Type (ℓ ⊔ κ)
Dict K V = List (K × V)

module _ {ℓ κ} {K : Type ℓ} {V : Type κ} ⦃e : Key K⦄ where
  -- `d.get(k)`
  unfoldable pub get : K → Dict K V → Option V
  get k [] = none
  get k ((j, v) ∷ m) = if j == k then some v else get k m

  -- `d[k] = v`
  unfoldable pub put : K → V → Dict K V → Dict K V
  put k v [] = (k, v) ∷ []
  put k v ((j, w) ∷ m) = if j == k then (j, v) ∷ m else (j, w) ∷ put k v m

  -- `d.pop(k, None)`
  unfoldable pub remove : K → Dict K V → Dict K V
  remove k [] = []
  remove k ((j, v) ∷ m) = let rest = remove k m in if j == k then rest else (j, v) ∷ rest

  pub get-put :
      (k j : K) (v : V) (m : Dict K V) → get j (put k v m) ≡ (if k == j then some v else get j m)
  unfolding get put
  get-put k j v [] = refl
  get-put k j v ((i, w) ∷ m) =
      ground (arith, e.same_iff k j, e.same_iff i k, e.same_iff i j, get-put k j v m)

  pub get-remove :
      (k j : K) (m : Dict K V) → get j (remove k m) ≡ (if k == j then none else get j m)
  unfolding get remove
  get-remove k j [] = ground arith
  get-remove k j ((i, v) ∷ m) =
      ground (arith, get-remove k j m, e.same_iff i k, e.same_iff i j, e.same_iff k j)

  pub length-put_new :
      (k : K) (v : V) (m : Dict K V) → get k m ≡ none → length (put k v m) ≡ length m + 1
  unfolding get put
  length-put_new k v [] h = refl
  length-put_new k v ((i, w) ∷ m) h = ground (arith, length-put_new k v m)

  pub length-put_old :
      (k : K) (v w : V) (m : Dict K V) → get k m ≡ some w → length (put k v m) ≡ length m
  unfolding get put
  length-put_old k v w [] h = cc
  length-put_old k v w ((i, u) ∷ m) h = ground (arith, length-put_old k v w m)

  pub length-remove-le : (k : K) (m : Dict K V) → length (remove k m) ≤ length m
  unfolding remove
  length-remove-le k [] = omega arith
  length-remove-le k ((i, u) ∷ m) = ground (arith, length-remove-le k m)

  pub length-remove-lt :
      (k : K) (m : Dict K V) (v : V) → get k m ≡ some v → length (remove k m) + 1 ≤ length m
  unfolding get remove
  length-remove-lt k [] v h = ground arith
  length-remove-lt k ((i, u) ∷ m) v h = ground (arith, length-remove-lt k m v, length-remove-le k m)

  -- No key stands twice.
  abbrev pub IsDistinct : Dict K V → Type (ℓ ⊔ κ)
  IsDistinct [] = Unit
  IsDistinct ((k, v) ∷ m) = (get k m ≡ none) × IsDistinct m

  pub put-IsDistinct : (k : K) (v : V) (m : Dict K V) → IsDistinct m → IsDistinct (put k v m)
  unfolding get put
  put-IsDistinct k v [] h = (refl, tt)
  put-IsDistinct k v ((i, w) ∷ m) h = elim (Bool-cases (i == k)) [
    | inl same ↦ rw same h
    | inr other ↦ rw other (
      ground (arith, get-put k i v m, e.same_iff k i, e.same_iff i k, h.0),
      put-IsDistinct k v m h.1,
    )
  ]

  pub remove-IsDistinct : (k : K) (m : Dict K V) → IsDistinct m → IsDistinct (remove k m)
  unfolding get remove
  remove-IsDistinct k [] h = tt
  remove-IsDistinct k ((i, w) ∷ m) h = elim (Bool-cases (i == k)) [
    | inl same ↦ rw same (remove-IsDistinct k m h.1)
    | inr other ↦ rw other (ground (arith, get-remove k i m, h.0), remove-IsDistinct k m h.1)
  ]
