-- ===== src/FileCookie.antt =====
-- core/file_cookie.py: the signed cookie of the file endpoints, and core/cookie_logout.py: the logouts
-- that void it. SHA-256, base64 and the decimal writing of numbers are parameters.

pub mod RoundTrip
pub mod Logout
use Prim.Native.Char.{Char, code}
use Prim.Native.String
use astrbot_plugin_webchat_g.Prelude.{
  ℕ, ◌+◌, String, Bool, true, false, Option, none, some, List, [], ◌∷◌, ◌||◌, ◌==◌, if◌then◌else◌,
  text_key, number_key, leb, ltb, max,
}
use astrbot_plugin_webchat_g.Dict.{Dict, get, put}

-- `hmac.new(secret, …).digest()` under the secret of the process, as a text; base64 without its
-- padding, and its decoder; `str` and `int` on numbers.
pub record Codec : Type 0 where
  pub mac : String → String
  pub encode : String → String
  pub decode : String → Option String
  pub render : ℕ → String
  pub parse : String → Option ℕ

infixr 65 ◌<>◌
abbrev pub ◌<>◌ : String → String → String
s <> t = String.◌++◌ s t

-- `f"{token_name}:{token_hash}:{exp_ts}"`
unfoldable pub payload : Codec → String → String → ℕ → String
payload c name token_hash exp = name <> ":" <> token_hash <> ":" <> c.render exp

unfoldable pub sign : Codec → String → String → ℕ → String
sign c name token_hash exp =
    name <> "." <> c.render exp <> "." <> c.encode (c.mac (payload c name token_hash exp))

abbrev pub is_dot : Char → Bool
is_dot ch = code ch == 46

abbrev pub cons_left : Char → Option (String × String) → String → Option (String × String)
cons_left ch none rest = if is_dot ch then some (String.[], rest) else none
cons_left ch (some (a, b)) rest = some (String.◌∷◌ ch a, b)

-- `value.rsplit(".", 1)`: the two parts at the last dot.
unfoldable pub rsplit : String → Option (String × String)
rsplit String.[] = none
rsplit (String.◌∷◌ ch s) = cons_left ch (rsplit s) s

-- `value.rsplit(".", 2)`, where it has three parts.
unfoldable pub parts_of : String → Option (String × String × String)
unfolding rsplit
parts_of value = elim (rsplit value) [
  | none ↦ none
  | some (front, sig) ↦ elim (rsplit front) [
    | none ↦ none
    | some (name, exp) ↦ some (name, exp, sig)
  ]
]

-- From the number on: the time, and the signature.
abbrev pub checked : Codec → ℕ → String → String → String → Option ℕ → Option (String × ℕ)
checked c now token_hash name sig none = none
checked c now token_hash name sig (some exp) = if leb exp now then none else elim (c.decode sig) [
  | none ↦ none
  | some provided ↦
      if c.mac (payload c name token_hash exp) == provided then some (name, exp) else none
]

unfoldable pub verify : Codec → ℕ → String → String → Option (String × ℕ)
unfolding parts_of
verify c now value token_hash = elim (parts_of value) [
  | none ↦ none
  | some (name, exp, sig) ↦
      if name == "" || exp == "" || sig == ""
      then none
      else checked c now token_hash name sig (c.parse exp)
]

-- The directive of a Set-Cookie header; it is always HttpOnly and SameSite=Lax.
pub record Directive : Type 0 where
  pub value : String
  pub path : String
  pub max_age : ℕ
  pub secure : Bool

unfoldable pub build_set_cookie_value : Codec → String → String → ℕ → Bool → String → ℕ → Directive
build_set_cookie_value c name token_hash ttl secure path now = record {
  value = sign c name token_hash (now + max 60 ttl);
  path = path;
  max_age = max 60 ttl;
  secure = secure;
}

unfoldable pub build_clear_cookie_value : String → Directive
build_clear_cookie_value path = record { value = ""; path = path; max_age = 0; secure = false }

-- `CookieLogoutTracker`
pub record Tracker : Type 0 where
  pub thresholds : Dict String ℕ
  pub default_ttl : ℕ

unfoldable pub new_tracker : ℕ → Tracker
new_tracker ttl = record { thresholds = []; default_ttl = max 60 ttl }

abbrev pub threshold_or : ℕ → Option ℕ → ℕ
threshold_or low none = low
threshold_or low (some n) = n

-- The thresholds after a logout: a later one stays.
unfoldable pub raised : String → ℕ → Dict String ℕ → Dict String ℕ
raised name threshold m =
    if ltb (threshold_or 0 (get name m)) threshold then put name threshold m else m

-- The threshold afterwards, and the tracker.
unfoldable pub record_logout : String → ℕ → Tracker → ℕ × Tracker
record_logout name now t =
    let m = raised name (now + t.default_ttl) t.thresholds in
    (threshold_or 0 (get name m), record t { thresholds = m })

abbrev pub is_at_most : ℕ → Option ℕ → Bool
is_at_most exp none = false
is_at_most exp (some threshold) = leb exp threshold

unfoldable pub is_invalidated : String → ℕ → Tracker → Bool
is_invalidated name exp t = is_at_most exp (get name t.thresholds)

-- `ts - ttl` may be negative: `threshold <= ts - ttl` is `threshold + ttl <= ts`.
abbrev pub drop_expired : ℕ → ℕ → Dict String ℕ → Dict String ℕ
drop_expired ttl now [] = []
drop_expired ttl now ((name, threshold) ∷ m) =
    let rest = drop_expired ttl now m in
    if leb (threshold + ttl) now then rest else (name, threshold) ∷ rest

unfoldable pub prune_expired : ℕ → Tracker → Tracker
prune_expired now t = record t { thresholds = drop_expired t.default_ttl now t.thresholds }
