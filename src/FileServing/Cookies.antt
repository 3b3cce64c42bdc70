-- ===== src/FileServing/Cookies.antt =====
-- handlers/files.py, the serving of a file: what a cookie is worth.
use astrbot_plugin_webchat_g.Prelude.{
  ℕ, ◌<◌, ◌≡◌, refl, sym, ap, ◌∙◌, String, Bool, true, false, not, Option, none, some, List, ◌||◌,
  ◌==◌, if◌then◌else◌, text_key, leb, max, eq_iff, Bool-cases, Option-cases, inl, inr, arith,
}
use astrbot_plugin_webchat_g.Storage.Rows.{TokenRow}
use astrbot_plugin_webchat_g.Storage.Tokens.{get_token_by_name}
use astrbot_plugin_webchat_g.RequestGate.{is_revoked, is_expired}
use astrbot_plugin_webchat_g.FileCookie.{
  payload, sign, parts_of, rsplit, Tracker, new_tracker, is_invalidated,
}
use astrbot_plugin_webchat_g.FileCookie.RoundTrip.{IsReadable, sign_parts, signed_lem}
use astrbot_plugin_webchat_g.FileCookie.Logout.{Event, run, is_voided, IsSweptBefore, logouts_lem}
use astrbot_plugin_webchat_g.FileServing.{
  Deps, peek_name, peeked_row, verified_row, is_logged_out, cookie_token,
}

some_ne : {A : Type 0} {x : A} → some x ≡ none → ⊥
some_ne e = ground arith

module _ (d : Deps) (hr : IsReadable ℕ d.codec.render d.codec.parse)
    (he : IsReadable String d.codec.encode d.codec.decode) (secret : d.has_secret ≡ true)
    (name token_hash : String) (exp : ℕ) (hn : (name == "") ≡ false) where
  abbrev pub issued : String
  issued = sign d.codec name token_hash exp

  -- The signature of the cookie is the one that the row's present hash gives.
  abbrev pub is_signed_for : TokenRow → Bool
  is_signed_for row =
      d.codec.mac (payload d.codec name row.token_hash exp)
      == d.codec.mac (payload d.codec name token_hash exp)

  -- The row that the cookie of the name should let in.
  abbrev pub let_in : ℕ → ℕ → (String → Bool) → Option TokenRow → Option TokenRow
  let_in verified now voided none = none
  let_in verified now voided (some row) =
      if leb exp verified
        || not (is_signed_for row)
        || voided row.name
        || is_revoked row.revoked_at
        || is_expired row.expires_at now
      then none
      else some row

  peek_lem : peek_name issued ≡ name
  unfolding peek_name
  peek_lem = rw (peek_name, sign_parts d.codec hr he name token_hash exp hn) refl

  issued_nonempty : (issued == "") ≡ false
  unfolding parts_of rsplit
  issued_nonempty = elim (Bool-cases (issued == "")) [
    | inr e ↦ e
    | inl e ↦ absurd (
        some_ne (
          sym (sign_parts d.codec hr he name token_hash exp hn)
          ∙ ap parts_of ((eq_iff issued "").0 e)))
  ]

  cookie_token_signed :
      (verified now : ℕ) (tracker : Option Tracker) (tokens : List TokenRow)
      → cookie_token d verified now issued tracker tokens
        ≡ let_in verified now (λ n. is_logged_out n exp tracker) (get_token_by_name name tokens)
  unfolding cookie_token verified_row peeked_row
  cookie_token_signed verified now tracker tokens =
      rw (cookie_token, verified_row, secret, issued_nonempty, peeked_row, peek_lem, hn)
        (elim (Option-cases (get_token_by_name name tokens)) [
          | inl e ↦ rw e refl
          | inr (row, e) ↦
              rw (e, signed_lem d.codec hr he name token_hash exp hn verified row.token_hash)
                (elim (Bool-cases (leb exp verified)) [
                  | inl late ↦ rw late refl
                  | inr live ↦ elim (Bool-cases (is_signed_for row)) [
                    | inr far ↦ rw (live, far) refl
                    | inl same ↦
                        rw (live, same)
                          (elim (Bool-cases (is_logged_out row.name exp tracker)) [
                            | inl out ↦ rw out refl
                            | inr in_ ↦ rw in_ refl
                          ])
                  ]
                ])
        ])

  -- Two accounts of the logouts that agree on a cookie that has not expired.
  voided_alike :
      (verified now : ℕ) (p q : String → Bool)
      → ((n : String) → verified < exp → p n ≡ q n)
      → (o : Option TokenRow) → let_in verified now p o ≡ let_in verified now q o
  voided_alike verified now p q h none = refl
  voided_alike verified now p q h (some row) = elim (Bool-cases (leb exp verified)) [
    | inl late ↦ rw late refl
    | inr live ↦ rw (h row.name (ground arith)) refl
  ]

  -- A cookie that the gateway has issued for a nonempty name, in a process whose logouts and sweeps
  -- came in any order, each sweep at or before the time at which the cookie is verified, lets in the
  -- row of that name, and it does so exactly if the cookie has not expired, its signature is the one
  -- under the row's present hash, no logout of the token came within a cookie's lifetime before the
  -- expiry, and the row is neither revoked nor expired. Numbers and codes of signatures are read
  -- back, are not empty and have no dot.
  pub cookie_token_lem :
      (es : List Event) (ttl verified now : ℕ) (tokens : List TokenRow)
      → IsSweptBefore verified es
      → cookie_token d verified now issued (some (run es (new_tracker ttl))) tokens
        ≡ let_in verified now (λ n. is_voided n exp (max 60 ttl) es) (get_token_by_name name tokens)
  cookie_token_lem es ttl verified now tokens swept =
      cookie_token_signed verified now (some (run es (new_tracker ttl))) tokens
      ∙ voided_alike verified now (λ n. is_invalidated n exp (run es (new_tracker ttl)))
          (λ n. is_voided n exp (max 60 ttl) es)
          (λ n live. logouts_lem es ttl n exp verified swept live) (get_token_by_name name tokens)
