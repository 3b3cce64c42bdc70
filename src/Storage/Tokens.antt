-- ===== src/Storage/Tokens.antt =====
-- storage/sqlite_backend.py, the table `tokens`: its name is the primary key and its hash is unique.
-- A statement that would break one of these raises `IntegrityError`, here `none`, and changes
-- nothing.
pub mod Lookup
use astrbot_plugin_webchat_g.Prelude.{
  ℕ, String, Bool, true, false, not, Option, none, some, List, [], ◌∷◌, ◌++◌, ◌&&◌, ◌||◌, ◌==◌,
  if◌then◌else◌, text_key, is_some, ltb, select,
}
use astrbot_plugin_webchat_g.Storage.Rows.{TokenRow, Argument, unset, given}
use astrbot_plugin_webchat_g.Storage.Sql.{find_where, update_where, count_where, order_by}

abbrev pub named : String → TokenRow → Bool
named name row = row.name == name

abbrev pub hashed : String → TokenRow → Bool
hashed token_hash row = row.token_hash == token_hash

-- Two rows that the constraints of the table do not allow beside one another.
abbrev pub clashes : TokenRow → TokenRow → Bool
clashes r s = r.name == s.name || r.token_hash == s.token_hash

unfoldable pub get_token_by_hash : String → List TokenRow → Option TokenRow
get_token_by_hash token_hash t = find_where (hashed token_hash) t

unfoldable pub get_token_by_name : String → List TokenRow → Option TokenRow
get_token_by_name name t = find_where (named name) t

unfoldable pub create_token :
    String → String → ℕ → String → ℕ → Option ℕ → List TokenRow → Option (List TokenRow)
create_token name token_hash daily_quota note now expires_at t =
    let row : TokenRow = record {
      name = name;
      token_hash = token_hash;
      daily_quota = daily_quota;
      note = note;
      created_at = now;
      revoked_at = none;
      expires_at = expires_at;
    } in
    if is_some (find_where (clashes row) t) then none else some (t ++ (row ∷ []))

abbrev pub is_live : TokenRow → Bool
is_live row = not (is_some row.revoked_at)

-- Whether a row was changed, and the table.
unfoldable pub revoke_token : String → ℕ → List TokenRow → Bool × List TokenRow
revoke_token name now t =
    let p : TokenRow → Bool = λ row. named name row && is_live row in
    (ltb 0 (count_where p t), update_where p (λ row. record row { revoked_at = some now }) t)

-- `ORDER BY created_at DESC`
abbrev pub is_newer : TokenRow → TokenRow → Bool
is_newer r s = ltb s.created_at r.created_at

unfoldable pub list_tokens : Bool → List TokenRow → List TokenRow
list_tokens include_revoked t = order_by is_newer (if include_revoked then t else select is_live t)

abbrev pub option_or {ℓ} : {A : Type ℓ} → A → Option A → A
option_or old none = old
option_or old (some new) = new

abbrev pub argument_or {ℓ} : {A : Type ℓ} → A → Argument A → A
argument_or old unset = old
argument_or old (given new) = new

abbrev pub is_given {ℓ} : {A : Type ℓ} → Argument A → Bool
is_given unset = false
is_given (given a) = true

abbrev pub updated_row : Option ℕ → Option String → Argument (Option ℕ) → TokenRow → TokenRow
updated_row daily_quota note expires_at row = record row {
  daily_quota = option_or row.daily_quota daily_quota;
  note = option_or row.note note;
  expires_at = argument_or row.expires_at expires_at;
}

unfoldable pub update_token :
    String → Option ℕ → Option String → Argument (Option ℕ) → List TokenRow → Bool × List TokenRow
update_token name daily_quota note expires_at t =
    if not (is_some daily_quota) && not (is_some note) && not (is_given expires_at)
    then (is_some (find_where (named name) t), t)
    else (
      ltb 0 (count_where (named name) t),
      update_where (named name) (updated_row daily_quota note expires_at) t,
    )

unfoldable pub set_token_revoked : String → Bool → ℕ → List TokenRow → Bool × List TokenRow
set_token_revoked name revoked now t = (
  ltb 0 (count_where (named name) t),
  update_where (named name) (λ row. record row { revoked_at = if revoked then some now else none })
      t,
)

-- `none` where another row has the hash.
unfoldable pub regenerate_token : String → String → List TokenRow → Option (Bool × List TokenRow)
regenerate_token name new_token_hash t =
    let found = is_some (find_where (named name) t) in
    let taken = is_some (find_where (λ row. not (named name row) && hashed new_token_hash row) t) in
    if found && taken
    then none
    else some (
      ltb 0 (count_where (named name) t),
      update_where (named name) (λ row. record row { token_hash = new_token_hash }) t,
    )
