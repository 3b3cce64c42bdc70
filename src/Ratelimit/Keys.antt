-- ===== src/Ratelimit/Keys.antt =====
-- core/ratelimit.py, `session_key`: the lock's key for one session of one token.
use Prim.Native.Char.{Char}
use Prim.Native.String
use text.Mathlib.TextLemmas.{nil-append, cons-append, head-eq_of_cons-eq, tail-eq_of_cons-eq}
use astrbot_plugin_webchat_g.Prelude.{String, ◌≡◌, refl, sym, ap, ap₂, ◌∙◌, ◌≢◌}

-- The character that separates the two parts.
abbrev nul : Char
nul = "\0"

unfoldable pub session_key : String → String → String
session_key token session = String.◌++◌ token (String.◌++◌ "\0" session)

-- No NUL byte in the text.
abbrev pub IsNulFree : String → Type 0
IsNulFree String.[] = Unit
IsNulFree (String.◌∷◌ c s) = (c ≢ nul) × IsNulFree s

session_key-nil : (a : String) → session_key String.[] a ≡ String.◌∷◌ nul a
unfolding session_key
session_key-nil a =
    nil-append (String.◌++◌ "\0" a)
    ∙ cons-append nul String.[] a
    ∙ ap (String.◌∷◌ nul) (nil-append a)

session_key-cons :
    (c : Char) (t a : String) → session_key (String.◌∷◌ c t) a ≡ String.◌∷◌ c (session_key t a)
unfolding session_key
session_key-cons c t a = cons-append c t (String.◌++◌ "\0" a)

-- Two pairs of a token and a session have the same key only if they are the same pair, where the
-- tokens hold no NUL.
pub session_key_injective :
    (t u a b : String)
    → IsNulFree t
    → IsNulFree u
    → session_key t a ≡ session_key u b
    → (t ≡ u) × (a ≡ b)
session_key_injective String.[] String.[] a b h k e =
    (refl, tail-eq_of_cons-eq (sym (session_key-nil a) ∙ e ∙ session_key-nil b))
session_key_injective String.[] (String.◌∷◌ d u) a b h k e =
    absurd (k.0 (sym (head-eq_of_cons-eq (sym (session_key-nil a) ∙ e ∙ session_key-cons d u b))))
session_key_injective (String.◌∷◌ c t) String.[] a b h k e =
    absurd (h.0 (head-eq_of_cons-eq (sym (session_key-cons c t a) ∙ e ∙ session_key-nil b)))
session_key_injective (String.◌∷◌ c t) (String.◌∷◌ d u) a b h k e =
    let p = sym (session_key-cons c t a) ∙ e ∙ session_key-cons d u b in
    let (same, rest) = session_key_injective t u a b h.1 k.1 (tail-eq_of_cons-eq p) in
    (ap₂ String.◌∷◌ (head-eq_of_cons-eq p) same, rest)
