-- ===== src/TokenService.antt =====
-- handlers/admin_tokens.py, `TokenService`: what the admin panel and the bot do with tokens. The
-- generated secret, SHA-256 and `str.isspace` are parameters. An operation that raises a ServiceError
-- returns `error`; the audit log is kept as the list of the events and their names.
pub mod Sound
pub mod Constraints
pub mod History
use Prim.Native.String
use astrbot_plugin_webchat_g.Prelude.{
  ℕ, ◌+◌, String, Bool, true, false, not, Option, none, some, List, [], ◌∷◌, ◌++◌, ◌&&◌, ◌||◌, ◌==◌,
  if◌then◌else◌, text_key, number_key, leb, ltb, is_some,
}
use astrbot_plugin_webchat_g.Prelude.Int.{ℤ, pos, negsuc}
use astrbot_plugin_webchat_g.Storage.Rows.{TokenRow, Argument, unset, given}
use astrbot_plugin_webchat_g.Storage.Tokens.{
  get_token_by_name, create_token, revoke_token, update_token, set_token_revoked, regenerate_token,
}
use astrbot_plugin_webchat_g.Storage.Rename.{Database, Renamed, renamed, collided, rename_token}
use astrbot_plugin_webchat_g.Usage.{get_today_usage}
use astrbot_plugin_webchat_g.FileServing.Uploads.{has_session_chars}
use astrbot_plugin_webchat_g.Chat.Requests.{first_chars}

pub record Deps : Type 0 where
  pub default_quota : ℕ
  pub hash_token : String → String
  pub has_space : String → Bool

pub record State : Type 0 where
  pub db : Database
  pub audits : List (String × String)

-- `IntegrityError` of the database is no ServiceError; it goes to the server's own handler.
pub data ServiceError : Type 0 where
  invalid_name invalid_quota invalid_expires_at invalid_custom_token : ServiceError
  name_exists not_found integrity_error : ServiceError

pub data Outcome (A : Type 0) : Type 0 where
  ok : A → Outcome A
  error : ServiceError → Outcome A

-- A value of JSON: null, blank text, an integer or the text of one, anything else.
pub data Raw : Type 0 where
  null : Raw
  blank : Raw
  number : ℤ → Raw
  garbage : Raw

-- `[A-Za-z0-9_.\-]{1,64}`, on a name that is stripped.
unfoldable pub is_valid_name : String → Bool
is_valid_name name = not (name == "") && has_session_chars 64 name

unfoldable pub coerce_quota : ℕ → Raw → Outcome ℕ
coerce_quota default null = ok default
coerce_quota default blank = ok default
coerce_quota default garbage = error invalid_quota
coerce_quota default (number (negsuc n)) = error invalid_quota
coerce_quota default (number (pos n)) =
    if n == 0 then ok default else if ltb 1000000 n then error invalid_quota else ok n

-- A Boolean is `garbage` here.
unfoldable pub coerce_expires_at : ℕ → Raw → Outcome (Option ℕ)
coerce_expires_at now null = ok none
coerce_expires_at now blank = error invalid_expires_at
coerce_expires_at now garbage = error invalid_expires_at
coerce_expires_at now (number (negsuc n)) = error invalid_expires_at
coerce_expires_at now (number (pos n)) = if leb n now then error invalid_expires_at else ok (some n)

-- The secret that is asked for, stripped; the outer `none` is a value that is no text.
unfoldable pub coerce_custom_token : Deps → Option String → Outcome (Option String)
coerce_custom_token d none = error invalid_custom_token
coerce_custom_token d (some s) =
    if s == ""
    then ok none
    else if d.has_space s || ltb 256 (String.count s)
    then error invalid_custom_token
    else ok (some s)

abbrev pub audited : String → String → State → State
audited event name s = record s { audits = s.audits ++ ((event, name) ∷ []) }

abbrev pub with_tokens : List TokenRow → State → State
with_tokens t s = record s { db = record s.db { tokens = t } }

-- `TokenSummary`: the row and today's usage.
abbrev pub Summary : Type 0
Summary = TokenRow × ℕ

unfoldable pub summary_for : String → ℕ → State → Outcome Summary
summary_for name day s = elim (get_token_by_name name s.db.tokens) [
  | none ↦ error not_found
  | some row ↦ ok (row, get_today_usage name day s.db.daily_usage)
]

-- The insert, once the arguments are known to be good.
abbrev pub issue_row :
    Deps → String → String → ℕ → String → Option ℕ → ℕ → State → Outcome String × State
issue_row d name token quota note expires now s =
    if is_some (get_token_by_name name s.db.tokens)
    then (error name_exists, s)
    else elim (create_token name (d.hash_token token) quota (first_chars 255 note) now expires
        s.db.tokens) [
          | none ↦ (error integrity_error, s)
          | some t ↦ (ok token, audited "issue" name (with_tokens t s))
        ]

abbrev pub issue_with :
    Deps
    → String
    → String
    → Outcome ℕ
    → String
    → Outcome (Option ℕ)
    → ℕ
    → State
    → Outcome String × State
issue_with d name token (error e) note expires now s = (error e, s)
issue_with d name token (ok quota) note (error e) now s = (error e, s)
issue_with d name token (ok quota) note (ok expires) now s =
    issue_row d name token quota note expires now s

-- `token` is what `generate_token` gives.
unfoldable pub issue :
    Deps → String → String → Raw → String → Raw → ℕ → State → Outcome String × State
unfolding coerce_quota coerce_expires_at
issue d name token quota note expires now s =
    if not (is_valid_name name)
    then (error invalid_name, s)
    else issue_with d name token (coerce_quota d.default_quota quota) note
        (coerce_expires_at now expires) now s

unfoldable pub revoke : String → ℕ → State → Outcome Bool × State
revoke name now s =
    let (done, t) = revoke_token name now s.db.tokens in
    if not (is_valid_name name)
    then (error invalid_name, s)
    else (ok done, audited (if done then "revoke" else "revoke_miss") name (with_tokens t s))

-- A write of one row that may be missing, and the summary.
abbrev pub written :
    String → String → String → ℕ → Bool × List TokenRow → State → Outcome Summary × State
written name event miss day (true, t) s =
    let s' = audited event name (with_tokens t s) in (summary_for name day s', s')
written name event miss day (false, t) s = (error not_found, audited miss name (with_tokens t s))

unfoldable pub set_revoked : String → Bool → ℕ → ℕ → State → Outcome Summary × State
unfolding summary_for
set_revoked name revoked day now s =
    let event : String = if revoked then "revoke" else "restore" in
    let miss : String = if revoked then "revoke_miss" else "restore_miss" in
    if not (is_valid_name name)
    then (error invalid_name, s)
    else written name event miss day (set_token_revoked name revoked now s.db.tokens) s

-- The fields that are given, coerced; `unset` is one that is left alone.
abbrev pub given_quota : ℕ → Raw → Outcome (Option ℕ)
given_quota default null = ok none
given_quota default raw = elim (coerce_quota default raw) [ error e ↦ error e | ok n ↦ ok (some n) ]

abbrev pub given_expires : ℕ → Argument Raw → Outcome (Argument (Option ℕ))
given_expires now unset = ok unset
given_expires now (given raw) = elim (coerce_expires_at now raw) [
  | error e ↦ error e
  | ok x ↦ ok (given x)
]

abbrev pub is_nothing : Option ℕ → Option String → Argument (Option ℕ) → Bool
is_nothing none none unset = true
is_nothing none none (given x) = false
is_nothing none (some text) expires = false
is_nothing (some n) text expires = false

abbrev pub update_with :
    String
    → Outcome (Option ℕ)
    → Option String
    → Outcome (Argument (Option ℕ))
    → ℕ
    → State
    → Outcome Summary × State
update_with name (error e) text expires day s = (error e, s)
update_with name (ok quota) text (error e) day s = (error e, s)
update_with name (ok quota) text (ok expires) day s =
    if is_nothing quota text expires
    then (summary_for name day s, s)
    else written name "update_fields" "update_fields_miss" day
        (update_token name quota text expires s.db.tokens) s

abbrev pub short_note : Option String → Option String
short_note none = none
short_note (some text) = some (first_chars 255 text)

unfoldable pub update_fields :
    Deps → String → Raw → Option String → Argument Raw → ℕ → ℕ → State → Outcome Summary × State
unfolding coerce_quota coerce_expires_at summary_for
update_fields d name quota note expires day now s =
    if not (is_valid_name name)
    then (error invalid_name, s)
    else update_with name (given_quota d.default_quota quota) (short_note note)
        (given_expires now expires) day s

abbrev pub text_or : String → Option String → String
text_or default none = default
text_or default (some s) = s

abbrev pub regenerated :
    String → String → Option (Bool × List TokenRow) → State → Outcome (TokenRow × String) × State
regenerated name secret none s = (error integrity_error, s)
regenerated name secret (some (false, t)) s =
    (error not_found, audited "regenerate_miss" name (with_tokens t s))
regenerated name secret (some (true, t)) s =
    let s' = audited "regenerate" name (with_tokens t s) in
    elim (get_token_by_name name t) [
      | none ↦ (error not_found, s')
      | some row ↦ (ok (row, secret), s')
    ]

abbrev pub regenerate_with :
    Deps → String → String → Outcome (Option String) → State → Outcome (TokenRow × String) × State
regenerate_with d name token (error e) s = (error e, s)
regenerate_with d name token (ok custom) s =
    let secret = text_or token custom in
    regenerated name secret (regenerate_token name (d.hash_token secret) s.db.tokens) s

-- `custom` is `some ""` where no secret is asked for.
unfoldable pub regenerate :
    Deps → String → String → Option String → State → Outcome (TokenRow × String) × State
unfolding coerce_custom_token
regenerate d name token custom s =
    if not (is_valid_name name)
    then (error invalid_name, s)
    else regenerate_with d name token (coerce_custom_token d custom) s

abbrev pub moved : String → String → ℕ → Renamed × Database → State → Outcome Summary × State
moved old new day (renamed true, db) s =
    let s' = audited "rename" new (record s { db = db }) in (summary_for new day s', s')
moved old new day (renamed false, db) s =
    (error name_exists, audited "rename_miss" old (record s { db = db }))
moved old new day (collided, db) s = (error integrity_error, record s { db = db })

unfoldable pub rename : String → String → ℕ → State → Outcome Summary × State
unfolding summary_for
rename old new day s =
    if not (is_valid_name old && is_valid_name new)
    then (error invalid_name, s)
    else if old == new
    then (summary_for old day s, s)
    else if not (is_some (get_token_by_name old s.db.tokens))
    then (error not_found, audited "rename_miss" old s)
    else if is_some (get_token_by_name new s.db.tokens)
    then (error name_exists, audited "rename_miss" old s)
    else moved old new day (rename_token old new s.db) s
