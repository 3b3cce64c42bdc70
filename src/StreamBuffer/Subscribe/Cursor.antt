-- ===== src/StreamBuffer/Subscribe/Cursor.antt =====
-- The cursor of a subscriber over a batch of chunks.
use astrbot_plugin_webchat_g.Prelude.{
  ℕ, ◌≡◌, refl, sym, subst, String, false, List, [], ◌∷◌, if◌then◌else◌, arith, All, Bool-cases,
  inl, inr,
}
use astrbot_plugin_webchat_g.Prelude.Int.{ℤ, pos, ltb_ℤ}
use astrbot_plugin_webchat_g.StreamBuffer.{newer}

-- `if seq > last_seq: last_seq = seq` over a list of chunks.
unfoldable pub cursor : ℤ → List (ℕ × String) → ℤ
cursor last [] = last
cursor last (c ∷ cs) = cursor (if ltb_ℤ last (pos c.0) then pos c.0 else last) cs

pub cursor-ge :
    (k l : ℤ) (cs : List (ℕ × String)) → ltb_ℤ l k ≡ false → ltb_ℤ (cursor l cs) k ≡ false
unfolding cursor
cursor-ge k l [] h = h
cursor-ge k l (c ∷ cs) h = cursor-ge k (if ltb_ℤ l (pos c.0) then pos c.0 else l) cs (ground arith)

cursor-new :
    (l k : ℤ) (c : ℕ × String) (cs : List (ℕ × String))
    → cursor k (newer l (c ∷ cs)) ≡ (
        if ltb_ℤ l (pos c.0)
        then cursor (if ltb_ℤ k (pos c.0) then pos c.0 else k) (newer l cs)
        else cursor k (newer l cs))
unfolding newer cursor
cursor-new l k c cs = ground arith

-- No chunk of the list is above the cursor.
abbrev IsBelow : ℤ → List (ℕ × String) → Type 0
IsBelow k cs = All (λ c. ltb_ℤ k (pos c.0) ≡ false) cs

IsBelow-eq : {k j : ℤ} (cs : List (ℕ × String)) → j ≡ k → IsBelow k cs → IsBelow j cs
IsBelow-eq cs e h = subst (λ i. IsBelow i cs) (sym e) h

covered :
    (l k : ℤ) (cs : List (ℕ × String)) → ltb_ℤ k l ≡ false → IsBelow (cursor k (newer l cs)) cs
covered l k [] h = tt
covered l k (c ∷ cs) h = elim (Bool-cases (ltb_ℤ l (pos c.0))) [
  | inl new ↦
      let k' : ℤ = if ltb_ℤ k (pos c.0) then pos c.0 else k in
      IsBelow-eq {k = cursor k' (newer l cs)} {j = cursor k (newer l (c ∷ cs))} (c ∷ cs)
        (rw (cursor-new, new))
        (cursor-ge (pos c.0) k' (newer l cs) (ground arith), covered l k' cs (ground arith))
  | inr old ↦
      IsBelow-eq {k = cursor k (newer l cs)} {j = cursor k (newer l (c ∷ cs))} (c ∷ cs)
        (rw (cursor-new, old)) (cursor-ge (pos c.0) k (newer l cs) (ground arith), covered l k cs h)
]

newer-nil :
    (k : ℤ) (cs : List (ℕ × String)) → All (λ c. ltb_ℤ k (pos c.0) ≡ false) cs → newer k cs ≡ []
unfolding newer
newer-nil k [] h = refl
newer-nil k (c ∷ cs) h = rw (h.0, newer-nil k cs h.1)

-- After a batch has been taken, no chunk of the entry is above the cursor.
pub newer-cursor : (l : ℤ) (cs : List (ℕ × String)) → newer (cursor l (newer l cs)) cs ≡ []
newer-cursor l cs = newer-nil (cursor l (newer l cs)) cs (covered l l cs (ground arith))
