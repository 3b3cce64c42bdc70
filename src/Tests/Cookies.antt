-- ===== src/Tests/Cookies.antt =====
-- Runs of the cookie of the file endpoints.
use Prim.Native.Char.{Char, code}
use astrbot_plugin_webchat_g.Prelude.{
  ℕ, zero, suc, ◌-◌, ◌≡◌, refl, sym, ap, ◌∙◌, String, Bool, true, false, Option, none, some, ◌==◌,
  if◌then◌else◌, text_key, number_key, eq_iff, nat_beq_iff, arith, Bool-cases, inl, inr,
}
use text.Mathlib.TextEquality.{Char-path}
use astrbot_plugin_webchat_g.FileCookie.{
  Codec, is_dot, payload, sign, verify, parts_of, rsplit, new_tracker, raised, record_logout,
  is_invalidated, prune_expired,
}
use astrbot_plugin_webchat_g.FileCookie.RoundTrip.{IsDotFree, IsReadable, verify-sign}
use astrbot_plugin_webchat_g.FileCookie.Logout.{run, is_voided}

-- A code without dots: each character in two, and a mark at the end.
unfoldable pub encode : String → String
encode String.[] = "="
encode (String.◌∷◌ ch s) =
    let rest = encode s in
    if is_dot ch then String.◌∷◌ "d" (String.◌∷◌ "d" rest) else String.◌∷◌ "e" (String.◌∷◌ ch rest)

abbrev cons_option : Char → Option String → Option String
cons_option ch none = none
cons_option ch (some s) = some (String.◌∷◌ ch s)

unfoldable pub decode : String → Option String
decode String.[] = none
decode (String.◌∷◌ c String.[]) = some String.[]
decode (String.◌∷◌ c (String.◌∷◌ ch rest)) =
    let more = decode rest in if code c == 100 then cons_option "." more else cons_option ch more

-- Numbers in unary.
unfoldable pub render : ℕ → String
render zero = "="
render (suc n) = String.◌∷◌ "u" (render n)

unfoldable pub size : String → ℕ
size String.[] = 0
size (String.◌∷◌ c s) = suc (size s)

unfoldable pub parse : String → Option ℕ
unfolding size
parse s = some (size s - 1)

abbrev is_empty : String → Bool
is_empty String.[] = true
is_empty (String.◌∷◌ c s) = false

nonempty : (s : String) → is_empty s ≡ false → (s == "") ≡ false
nonempty s h = elim (Bool-cases (s == "")) [
  | inr e ↦ e
  | inl e ↦ absurd (ground (arith, ap is_empty ((eq_iff s "").0 e), h))
]

decode-encode : (s : String) → decode (encode s) ≡ some s
unfolding decode encode
decode-encode String.[] = refl
decode-encode (String.◌∷◌ ch s) = elim (Bool-cases (is_dot ch)) [
  | inl dot ↦
      rw (encode, dot, decode, decode-encode s)
        (ap (λ c. some (String.◌∷◌ c s))
          (sym (Char-path ch "." ((nat_beq_iff (code ch) 46).0 dot))))
  | inr plain ↦ rw (encode, plain, decode, decode-encode s) refl
]

encode-dots : (s : String) → IsDotFree (encode s)
unfolding encode
encode-dots String.[] = (refl, tt)
encode-dots (String.◌∷◌ ch s) = elim (Bool-cases (is_dot ch)) [
  | inl dot ↦ rw dot (refl, (refl, encode-dots s))
  | inr plain ↦ rw plain (refl, (plain, encode-dots s))
]

encode-full : (s : String) → is_empty (encode s) ≡ false
unfolding encode
encode-full String.[] = refl
encode-full (String.◌∷◌ ch s) = elim (Bool-cases (is_dot ch)) [
  | inl dot ↦ rw dot refl
  | inr plain ↦ rw plain refl
]

size-render : (n : ℕ) → size (render n) ≡ suc n
unfolding size render
size-render zero = refl
size-render (suc n) = ap suc (size-render n)

render-dots : (n : ℕ) → IsDotFree (render n)
unfolding render
render-dots zero = (refl, tt)
render-dots (suc n) = (refl, render-dots n)

render-full : (n : ℕ) → is_empty (render n) ≡ false
unfolding render
render-full zero = refl
render-full (suc n) = refl

-- The signature is the text itself.
abbrev pub codec : Codec
codec = record { mac = λ s. s; encode = encode; decode = decode; render = render; parse = parse }

pub numbers-IsReadable : IsReadable ℕ codec.render codec.parse
unfolding parse
numbers-IsReadable n =
    let one : suc n - 1 ≡ n = omega arith in
    (
      ap (λ k. some (k - 1)) (size-render n) ∙ ap some one,
      nonempty (render n) (render-full n),
      render-dots n,
    )

pub texts-IsReadable : IsReadable String codec.encode codec.decode
texts-IsReadable s = (decode-encode s, nonempty (encode s) (encode-full s), encode-dots s)

program : Unit {0}
unfolding payload sign verify parts_of rsplit new_tracker raised record_logout is_invalidated
    prune_expired run is_voided render encode
program = tt

-- A name with a dot, and a hash that is rotated.
verify-sign_example :
    (verify codec 3 (sign codec "a.b" "old" 5) "old" ≡ some ("a.b", 5))
    × (verify codec 3 (sign codec "a.b" "old" 5) "new" ≡ none)
unfolding program
verify-sign_example =
    verify-sign codec numbers-IsReadable texts-IsReadable "a.b" "old" 5 refl 3 "new" (omega arith)
      refl
