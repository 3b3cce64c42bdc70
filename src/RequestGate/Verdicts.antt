-- ===== src/RequestGate/Verdicts.antt =====
-- handlers/common.py, `gate_request`: who passes, and what it costs.
use astrbot_plugin_webchat_g.Prelude.{
  ℕ, ◌≡◌, refl, sym, ◌∙◌, String, Bool, true, false, not, Option, none, some, List, ◌&&◌, ◌||◌,
  ◌==◌, if◌then◌else◌, text_key, Bool-cases, inl, inr,
}
use astrbot_plugin_webchat_g.Storage.Rows.{TokenRow}
use astrbot_plugin_webchat_g.Storage.Tokens.{get_token_by_hash}
use astrbot_plugin_webchat_g.IpFailures.{Table}
use astrbot_plugin_webchat_g.IpGuard.{is_blocked, record_failure, reset}
use astrbot_plugin_webchat_g.RequestGate.{
  Request, GateDeps, extract_origin, is_origin_allowed, client_ip, extract_bearer, Verdict,
  forbidden_origin, ip_blocked, unauthorized, gate_pass, is_revoked, is_expired, judge, is_pass,
  gate_request,
}

-- The token row that a verdict passes on.
abbrev pub token_of : Verdict → Option TokenRow
token_of forbidden_origin = none
token_of (ip_blocked n) = none
token_of (unauthorized reason) = none
token_of (gate_pass row ip) = some row

-- A row that is neither revoked nor expired.
abbrev pub usable : ℕ → Option TokenRow → Option TokenRow
usable now none = none
usable now (some row) =
    if is_revoked row.revoked_at || is_expired row.expires_at now then none else some row

module _ (d : GateDeps) (tokens : List TokenRow) (r : Request) (checked read failed : ℕ)
    (t : Table) where
  -- The request comes to its credentials.
  abbrev pub is_heard : Bool
  is_heard =
      is_origin_allowed d.urls (extract_origin d.urls d.trust_referer_as_origin r) d.allowed_origins
        r.host d.allow_missing_origin
      && not (is_blocked d.ip_guard (client_ip d.trust_forwarded_for r) checked t).0

  -- The row that the presented token stands for.
  abbrev pub presented_row : Option TokenRow
  presented_row =
      if extract_bearer r == ""
      then none
      else usable read (get_token_by_hash (d.hash_token (extract_bearer r)) tokens)

  abbrev pub is_some_row : Option TokenRow → Bool
  is_some_row none = false
  is_some_row (some row) = true

  judge_lem :
      (o : Option TokenRow) (ip : String)
      → (token_of (judge o ip read) ≡ usable read o)
        × (is_pass (judge o ip read) ≡ is_some_row (usable read o))
  unfolding judge
  judge_lem none ip = (refl, refl)
  judge_lem (some row) ip = elim (Bool-cases (is_revoked row.revoked_at)) [
    | inl out ↦ rw out (refl, refl)
    | inr in_ ↦ elim (Bool-cases (is_expired row.expires_at read)) [
      | inl late ↦ rw (in_, late) (refl, refl)
      | inr fresh ↦ rw (in_, fresh) (refl, refl)
    ]
  ]

  -- A request passes exactly where its origin is allowed, its address is not blocked, and it presents
  -- a token whose row is neither revoked nor expired, and then with that row. A request that is
  -- refused for its origin or its address leaves the failures alone; any other refusal costs its
  -- address one failure, whatever the reason, and a pass pays one back.
  pub gate_lem :
      (token_of (gate_request d tokens r checked read failed t).0
        ≡ (if is_heard then presented_row else none))
      × ((gate_request d tokens r checked read failed t).1 ≡ (
          if is_heard
          then if is_some_row presented_row
            then reset (client_ip d.trust_forwarded_for r) t
            else (record_failure d.ip_guard (client_ip d.trust_forwarded_for r) failed t).1
          else t))
  unfolding gate_request
  gate_lem =
      let origin = extract_origin d.urls d.trust_referer_as_origin r in
      let ip = client_ip d.trust_forwarded_for r in
      let o = get_token_by_hash (d.hash_token (extract_bearer r)) tokens in
      let (row, pass) = judge_lem o ip in
      elim (Bool-cases
        (is_origin_allowed d.urls origin d.allowed_origins r.host d.allow_missing_origin)) [
          | inr foreign ↦ rw foreign (refl, refl)
          | inl fine ↦ elim (Bool-cases (is_blocked d.ip_guard ip checked t).0) [
            | inl blocked ↦ rw (fine, blocked) (refl, refl)
            | inr open_ ↦ elim (Bool-cases (extract_bearer r == "")) [
              | inl empty ↦ rw (fine, open_, empty) (refl, refl)
              | inr given ↦ elim (Bool-cases (is_pass (judge o ip read))) [
                | inl passes ↦
                    let known : is_some_row (usable read o) ≡ true = sym pass ∙ passes in
                    rw (fine, open_, given, passes, known) (row, refl)
                | inr fails ↦
                    let unknown : is_some_row (usable read o) ≡ false = sym pass ∙ fails in
                    rw (fine, open_, given, fails, unknown) (row, refl)
              ]
            ]
          ]
        ]
