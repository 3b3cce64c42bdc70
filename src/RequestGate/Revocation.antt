-- ===== src/RequestGate/Revocation.antt =====
-- handlers/common.py, `gate_request`, over the writes of the table of tokens.
use astrbot_plugin_webchat_g.Prelude.{
  ℕ, ◌≡◌, refl, ap, ◌∙◌, String, Bool, true, Option, none, some, List, ◌&&◌, ◌==◌, if◌then◌else◌,
  text_key, Bool-cases, inl, inr, is_some,
}
use astrbot_plugin_webchat_g.IpFailures.{Table}
use astrbot_plugin_webchat_g.Storage.Rows.{TokenRow}
use astrbot_plugin_webchat_g.Storage.Sql.Find.{find-update}
use astrbot_plugin_webchat_g.Storage.Tokens.{
  named, hashed, is_live, get_token_by_hash, revoke_token, set_token_revoked,
}
use astrbot_plugin_webchat_g.RequestGate.{
  Request, GateDeps, extract_bearer, is_revoked, gate_request,
}
use astrbot_plugin_webchat_g.RequestGate.Verdicts.{token_of, usable, is_heard, gate_lem}

-- A row that is revoked, or that is not there, lets nobody pass.
abbrev pub IsDead : Option TokenRow → Type 0
IsDead none = Unit
IsDead (some row) = is_revoked row.revoked_at ≡ true

some_revoked : (at : Option ℕ) → is_some at ≡ true → is_revoked at ≡ true
some_revoked none h = h
some_revoked (some at) h = refl

dead-usable : (now : ℕ) (o : Option TokenRow) → IsDead o → usable now o ≡ none
dead-usable now none h = refl
dead-usable now (some row) h = rw h refl

module _ (d : GateDeps) (r : Request) (checked read failed : ℕ) (failures : Table) where
  abbrev pub presented_hash : String
  presented_hash = d.hash_token (extract_bearer r)

  -- The token that a request passes with.
  abbrev pub passes_as : List TokenRow → Option TokenRow
  passes_as tokens = token_of (gate_request d tokens r checked read failed failures).0

  dead_never_passes :
      (tokens : List TokenRow)
      → IsDead (get_token_by_hash presented_hash tokens)
      → passes_as tokens ≡ none
  dead_never_passes tokens dead =
      (gate_lem d tokens r checked read failed failures).0
      ∙ elim (Bool-cases (is_heard d tokens r checked read failed failures)) [
        | inr deaf ↦ rw deaf refl
        | inl heard ↦ elim (Bool-cases (extract_bearer r == "")) [
          | inl empty ↦ rw (heard, empty) refl
          | inr given ↦
              rw (heard, given) (dead-usable read (get_token_by_hash presented_hash tokens) dead)
        ]
      ]

  module _ (name : String) (now : ℕ) (tokens : List TokenRow) (row : TokenRow) where
    after_set :
        get_token_by_hash presented_hash tokens ≡ some row
        → named name row ≡ true
        → IsDead (get_token_by_hash presented_hash (set_token_revoked name true now tokens).1)
    unfolding get_token_by_hash set_token_revoked
    after_set found own =
        rw
          (find-update (named name) (hashed presented_hash)
              (λ (s : TokenRow). record s { revoked_at = some now }) tokens (λ s. refl)
            ∙ ap
                (λ (o : Option TokenRow). elim o [
                  | none ↦ none
                  | some s ↦ some (if named name s then record s { revoked_at = some now } else s)
                ])
                found)
          (rw own refl)

    after_revoke :
        get_token_by_hash presented_hash tokens ≡ some row
        → named name row ≡ true
        → IsDead (get_token_by_hash presented_hash (revoke_token name now tokens).1)
    unfolding get_token_by_hash revoke_token
    after_revoke found own =
        let p : TokenRow → Bool = λ s. named name s && is_live s in
        rw
          (find-update p (hashed presented_hash)
              (λ (s : TokenRow). record s { revoked_at = some now }) tokens (λ s. refl)
            ∙ ap
                (λ (o : Option TokenRow). elim o [
                  | none ↦ none
                  | some s ↦ some (if p s then record s { revoked_at = some now } else s)
                ])
                found)
          (elim (Bool-cases (is_some row.revoked_at)) [
            | inl already ↦ rw (own, already) (some_revoked row.revoked_at already)
            | inr live ↦ rw (own, live) refl
          ])

    -- A secret of a token does not pass the gate once the token is revoked, by either of the two
    -- writes that revoke, whatever else the request carries.
    pub revoked_never_passes :
        get_token_by_hash presented_hash tokens ≡ some row
        → named name row ≡ true
        → (passes_as (set_token_revoked name true now tokens).1 ≡ none)
          × (passes_as (revoke_token name now tokens).1 ≡ none)
    revoked_never_passes found own = (
      dead_never_passes (set_token_revoked name true now tokens).1 (after_set found own),
      dead_never_passes (revoke_token name now tokens).1 (after_revoke found own),
    )
