-- ===== src/FileServing/Sessions/Voiding.antt =====
-- handlers/chat_files_auth.py, the logout: a cookie that it voids.
use astrbot_plugin_webchat_g.Prelude.{
  ℕ, ◌+◌, ◌<◌, ◌≤◌, ◌≡◌, refl, sym, ap, ◌∙◌, String, Bool, true, false, not, Option, none, some,
  List, ◌&&◌, ◌||◌, ◌==◌, if◌then◌else◌, text_key, leb, Option-cases, inl, inr, arith, some-eq,
  eq_iff, past_refusal,
}
use astrbot_plugin_webchat_g.Storage.Rows.{TokenRow}
use astrbot_plugin_webchat_g.Storage.Tokens.{named, get_token_by_name}
use astrbot_plugin_webchat_g.Storage.Sql.{find_where}
use astrbot_plugin_webchat_g.Storage.Sql.Find.{find-holds}
use astrbot_plugin_webchat_g.IpFailures.{Table}
use astrbot_plugin_webchat_g.IpGuard.{is_blocked, reset}
use astrbot_plugin_webchat_g.RequestGate.{
  Request, extract_origin, is_origin_allowed, client_ip, extract_bearer,
}
use astrbot_plugin_webchat_g.RequestGate.Verdicts.{is_heard}
use astrbot_plugin_webchat_g.FileCookie.{
  Codec, parts_of, payload, checked, verify, build_clear_cookie_value, Tracker, record_logout,
  is_invalidated,
}
use astrbot_plugin_webchat_g.FileCookie.Logout.{raised_own}
use astrbot_plugin_webchat_g.FileServing.{
  Deps, Times, peek_name, peeked_row, with_time, verify_row, verified_row, cookie_token,
}
use astrbot_plugin_webchat_g.FileServing.Sessions.{cleared, leaving, logout}

-- What a cookie says of itself: the name and the time.
abbrev pub claims : Codec → String → Option (String × ℕ)
claims c cookie = elim (parts_of cookie) [
  | none ↦ none
  | some (name, exp, sig) ↦ elim (c.parse exp) [ none ↦ none | some n ↦ some (name, n) ]
]

past_check :
    {A : Type 0} (b : Bool) (o : Option A) (answer : A)
    → (if b then o else none) ≡ some answer
    → o ≡ some answer
past_check true o answer h = h
past_check false o answer h = absurd (ground arith)

past_digest :
    (expected : String) (provided : Option String) (claim answer : String × ℕ)
    → (elim provided [
      | none ↦ none
      | some digest ↦ if expected == digest then some claim else none
    ])
      ≡ some answer
    → some claim ≡ some answer
past_digest expected none claim answer h = absurd (ground arith)
past_digest expected (some digest) claim answer h =
    past_check (expected == digest) (some claim) answer h

checked-claims :
    (c : Codec) (now : ℕ) (token_hash name sig : String) (exp : Option ℕ) (answer : String × ℕ)
    → checked c now token_hash name sig exp ≡ some answer
    → (elim exp [ none ↦ none | some n ↦ some (name, n) ]) ≡ some answer
checked-claims c now token_hash name sig none answer h = h
checked-claims c now token_hash name sig (some exp) answer h =
    past_digest (c.mac (payload c name token_hash exp)) (c.decode sig) (name, exp) answer
      (past_refusal (leb exp now)
        (elim (c.decode sig) [
          | none ↦ none
          | some provided ↦
              if c.mac (payload c name token_hash exp) == provided then some (name, exp) else none
        ])
        answer h)

verify-claims :
    (c : Codec) (now : ℕ) (cookie token_hash : String) (answer : String × ℕ)
    → verify c now cookie token_hash ≡ some answer
    → claims c cookie ≡ some answer
unfolding verify
verify-claims c now cookie token_hash answer h = parts_claims (parts_of cookie) h
  where
    parts_claims :
        (o : Option (String × String × String))
        → (elim o [
          | none ↦ none
          | some (name, exp, sig) ↦
              if name == "" || exp == "" || sig == ""
              then none
              else checked c now token_hash name sig (c.parse exp)
        ])
          ≡ some answer
        → (elim o [
          | none ↦ none
          | some (name, exp, sig) ↦ elim (c.parse exp) [ none ↦ none | some n ↦ some (name, n) ]
        ])
          ≡ some answer
    parts_claims none h = h
    parts_claims (some (name, exp, sig)) h =
        checked-claims c now token_hash name sig (c.parse exp) answer (
          past_refusal (name == "" || exp == "" || sig == "")
            (checked c now token_hash name sig (c.parse exp)) answer h)

-- The pairing of a row with the time that `verify` reads.
pair_up :
    (r row : TokenRow) (exp : ℕ) (v : Option (String × ℕ))
    → with_time r v ≡ some (row, exp)
    → (r ≡ row) × (n : String) × (v ≡ some (n, exp))
pair_up r row exp none h = absurd (ground arith)
pair_up r row exp (some (n, e)) h =
    let same = some-eq h in (ap (λ p. p.0) same, n, ap (λ p. some (n, p.1)) same)

module _ (d : Deps) (now : ℕ) (cookie : String) (tokens : List TokenRow) where
  row_lem :
      (row : TokenRow) (exp : ℕ) (o : Option TokenRow)
      → verify_row d.codec now cookie o ≡ some (row, exp)
      → (o ≡ some row) × (n : String) × (claims d.codec cookie ≡ some (n, exp))
  row_lem row exp none h = absurd (ground arith)
  row_lem row exp (some r) h =
      let (same, n, e) = pair_up r row exp (verify d.codec now cookie r.token_hash) h in
      (ap some same, n, verify-claims d.codec now cookie r.token_hash (n, exp) e)

  verified_row-peeked :
      (row : TokenRow) (exp : ℕ)
      → verified_row d now cookie tokens ≡ some (row, exp)
      → (peeked_row cookie tokens ≡ some row)
        × (n : String) × (claims d.codec cookie ≡ some (n, exp))
  unfolding verified_row
  verified_row-peeked row exp h = row_lem row exp (peeked_row cookie tokens) (
      past_refusal (not d.has_secret || cookie == "")
        (verify_row d.codec now cookie (peeked_row cookie tokens)) (row, exp) h)

  peeked_row-name :
      (row : TokenRow) → peeked_row cookie tokens ≡ some row → row.name ≡ peek_name cookie
  unfolding peeked_row get_token_by_name
  peeked_row-name row h = (eq_iff row.name (peek_name cookie)).0 (
      find-holds (named (peek_name cookie)) tokens row (
        past_refusal (peek_name cookie == "") (find_where (named (peek_name cookie)) tokens) row h))

-- A cookie is read alike at every time and over every table.
reads_alike :
    (d : Deps) (cookie : String) (now later : ℕ) (tokens tokens' : List TokenRow)
    (row row' : TokenRow) (exp exp' : ℕ)
    → verified_row d now cookie tokens ≡ some (row, exp)
    → verified_row d later cookie tokens' ≡ some (row', exp')
    → (row'.name ≡ row.name) × (exp' ≡ exp)
reads_alike d cookie now later tokens tokens' row row' exp exp' h h' =
    let (p, n, c) = verified_row-peeked d now cookie tokens row exp h in
    let (p', n', c') = verified_row-peeked d later cookie tokens' row' exp' h' in
    (
      peeked_row-name d later cookie tokens' row' p'
          ∙ sym (peeked_row-name d now cookie tokens row p),
      ap (λ (q : String × ℕ). q.1) (some-eq (sym c' ∙ c)),
    )

record_logout-voids :
    (name : String) (now exp : ℕ) (tracker : Tracker)
    → 0 < exp
    → exp ≤ now + tracker.default_ttl
    → is_invalidated name exp (record_logout name now tracker).1 ≡ true
unfolding is_invalidated record_logout
record_logout-voids name now exp tracker pos within =
    let low : leb exp (now + tracker.default_ttl) ≡ true = ground arith in
    raised_own name exp (now + tracker.default_ttl) tracker.thresholds pos ∙ rw low refl

both_hold : (a b : Bool) → (a && not b) ≡ true → (a ≡ true) × (b ≡ false)
both_hold true true h = absurd (ground arith)
both_hold true false h = (refl, refl)
both_hold false b h = absurd (ground arith)

module _ (d : Deps) (r : Request) (cookie : String) (at : Times) (tokens : List TokenRow)
    (tracker : Tracker) (t : Table) (row : TokenRow) (exp : ℕ) where
  abbrev pub tracker_after : Option Tracker
  tracker_after = (logout d r cookie at tokens (some tracker, t)).1

  logout_heard :
      is_heard d.gate tokens r at.checked at.read at.failed t ≡ true
      → (extract_bearer r == "") ≡ true
      → verified_row d at.verified cookie tokens ≡ some (row, exp)
      → logout d r cookie at tokens (some tracker, t) ≡ (
        cleared (build_clear_cookie_value d.cookie_path),
        some (record_logout row.name at.rechecked tracker).1,
        reset (client_ip d.gate.trust_forwarded_for r) t,
      )
  unfolding logout leaving
  logout_heard heard empty known_ =
      let g = d.gate in
      let (fine, open_) =
        both_hold
          (is_origin_allowed g.urls (extract_origin g.urls g.trust_referer_as_origin r)
            g.allowed_origins r.host g.allow_missing_origin)
          (is_blocked g.ip_guard (client_ip g.trust_forwarded_for r) at.checked t).0 heard in
      rw (logout, fine, open_, leaving, empty, known_) refl

  voided :
      (later now : ℕ) (tokens' : List TokenRow)
      → verified_row d at.verified cookie tokens ≡ some (row, exp)
      → 0 < exp
      → exp ≤ at.rechecked + tracker.default_ttl
      → cookie_token d later now cookie
          (some (record_logout row.name at.rechecked tracker).1)
          tokens'
        ≡ none
  unfolding cookie_token
  voided later now tokens' known_ pos within =
      let void = record_logout-voids row.name at.rechecked exp tracker pos within in
      elim (Option-cases (verified_row d later cookie tokens')) [
        | inl e ↦ rw (cookie_token, e) refl
        | inr ((row', exp'), e) ↦
            let (same, time) =
              reads_alike d cookie at.verified later tokens tokens' row row' exp exp' known_ e in
            rw (cookie_token, e, same, time, void) refl
      ]

  -- A logout that is heard, without a bearer token, on a cookie that the gateway has issued for no
  -- longer than the tracker's lifetime from that moment, clears the cookie in the browser and voids
  -- it at the server: it lets nobody in at any later time, whatever has become of the tokens.
  pub logout_lem :
      (later now : ℕ) (tokens' : List TokenRow)
      → is_heard d.gate tokens r at.checked at.read at.failed t ≡ true
      → (extract_bearer r == "") ≡ true
      → verified_row d at.verified cookie tokens ≡ some (row, exp)
      → 0 < exp
      → exp ≤ at.rechecked + tracker.default_ttl
      → ((logout d r cookie at tokens (some tracker, t)).0
          ≡ cleared (build_clear_cookie_value d.cookie_path))
        × (cookie_token d later now cookie tracker_after tokens' ≡ none)
  logout_lem later now tokens' heard empty known_ pos within =
      let whole = logout_heard heard empty known_ in
      (
        ap (λ s. s.0) whole,
        ap (λ s. cookie_token d later now cookie s.1 tokens') whole
            ∙ voided later now tokens' known_ pos within,
      )
