-- ===== src/FileCookie/RoundTrip.antt =====
-- core/file_cookie.py: a cookie that is read back.
use text.Mathlib.TextLemmas.{nil-append, cons-append, append_assoc}
use astrbot_plugin_webchat_g.Prelude.{
  ℕ, ◌<◌, ◌≡◌, refl, sym, ap, ◌∙◌, String, false, Option, none, some, not, ◌||◌, ◌==◌,
  if◌then◌else◌, text_key, leb, arith, Bool-cases, ==_refl, inl, inr,
}
use astrbot_plugin_webchat_g.FileCookie.{
  Codec, ◌<>◌, payload, sign, is_dot, rsplit, parts_of, verify,
}

-- No dot in the text.
abbrev pub IsDotFree : String → Type 0
IsDotFree String.[] = Unit
IsDotFree (String.◌∷◌ ch s) = (is_dot ch ≡ false) × IsDotFree s

rsplit-none : (s : String) → IsDotFree s → rsplit s ≡ none
unfolding rsplit
rsplit-none String.[] h = refl
rsplit-none (String.◌∷◌ ch s) h = rw (rsplit-none s h.1, h.0) refl

dot : String → String
dot b = String.◌∷◌ "." b

dot-eq : (b : String) → "." <> b ≡ dot b
unfolding dot
dot-eq b = cons-append "." String.[] b ∙ ap (String.◌∷◌ ".") (nil-append b)

rsplit-at_dot : (a b : String) → IsDotFree b → rsplit (a <> dot b) ≡ some (a, b)
unfolding rsplit dot
rsplit-at_dot String.[] b h = ap rsplit (nil-append (dot b)) ∙ rw (rsplit, rsplit-none b h) refl
rsplit-at_dot (String.◌∷◌ ch a) b h =
    ap rsplit (cons-append ch a (dot b)) ∙ rw (rsplit, rsplit-at_dot a b h) refl

rsplit-append : (a b : String) → IsDotFree b → rsplit (a <> "." <> b) ≡ some (a, b)
rsplit-append a b h = ap (λ s. rsplit (a <> s)) (dot-eq b) ∙ rsplit-at_dot a b h

-- The parts that a cookie is written of: the numbers and the codes of signatures are not empty, have
-- no dot, and are read back.
abbrev pub IsReadable : (A : Type 0) → (A → String) → (String → Option A) → Type 0
IsReadable A write read =
    (x : A) → (read (write x) ≡ some x) × ((write x == "") ≡ false) × IsDotFree (write x)

-- `<>` hangs to the right.
regroup : (a b c : String) → a <> "." <> b <> "." <> c ≡ (a <> "." <> b) <> "." <> c
regroup a b c =
    sym (append_assoc a ("." <> b) ("." <> c) ∙ ap (λ s. a <> s) (append_assoc "." b ("." <> c)))

parts_of-sign :
    (a b c : String)
    → IsDotFree b
    → IsDotFree c
    → parts_of (a <> "." <> b <> "." <> c) ≡ some (a, b, c)
unfolding parts_of
parts_of-sign a b c hb hc =
    ap parts_of (regroup a b c)
    ∙ rw (parts_of, rsplit-append (a <> "." <> b) c hc, rsplit-append a b hb) refl

module _ (c : Codec) (hr : IsReadable ℕ c.render c.parse) (he : IsReadable String c.encode c.decode)
    (name token_hash : String) (exp : ℕ) (hn : (name == "") ≡ false) where
  abbrev mac_of : String → String
  mac_of h = c.mac (payload c name h exp)

  pub sign_parts :
      parts_of (sign c name token_hash exp)
      ≡ some (name, c.render exp, c.encode (c.mac (payload c name token_hash exp)))
  unfolding sign
  sign_parts =
      parts_of-sign name (c.render exp) (c.encode (mac_of token_hash)) (hr exp).2
        (he (mac_of token_hash)).2

  -- Whatever the time and the hash are.
  pub signed_lem :
      (now : ℕ) (other : String)
      → verify c now (sign c name token_hash exp) other ≡ (
          if leb exp now
            || not (c.mac (payload c name other exp) == c.mac (payload c name token_hash exp))
          then none
          else some (name, exp))
  unfolding verify
  signed_lem now other =
      let n = hr exp in
      let d = he (mac_of token_hash) in
      rw (verify, sign_parts, hn, n.1, d.1, n.0)
        (elim (Bool-cases (leb exp now)) [
          | inl late ↦ rw late refl
          | inr live ↦
              rw (live, d.0)
                (elim (Bool-cases (mac_of other == mac_of token_hash)) [
                  | inl same ↦ rw same refl
                  | inr far ↦ rw far refl
                ])
        ])

  -- A cookie that `sign` makes for a nonempty name is read back by `verify`, for the same hash of
  -- the token and until its time, as the name and the time; under another hash it is refused when
  -- the signatures of the two differ. Numbers and codes of signatures are read back, are not empty
  -- and have no dot; the name may have dots.
  pub verify-sign :
      (now : ℕ) (other : String)
      → now < exp
      → (mac_of other == mac_of token_hash) ≡ false
      → (verify c now (sign c name token_hash exp) token_hash ≡ some (name, exp))
        × (verify c now (sign c name token_hash exp) other ≡ none)
  verify-sign now other live differs =
      let early : leb exp now ≡ false = ground arith in
      (
        signed_lem now token_hash ∙ rw (early, ==_refl (mac_of token_hash)) refl,
        signed_lem now other ∙ rw (early, differs) refl,
      )
