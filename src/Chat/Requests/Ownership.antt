-- ===== src/Chat/Requests/Ownership.antt =====
-- handlers/chat_common.py: what a request that is prepared holds.
use Prim.Native.String
use astrbot_plugin_webchat_g.Prelude.{
  ℕ, suc, ◌≤◌, ◌≡◌, refl, ap, ap₂, ◌∙◌, String, true, false, Option, none, some, List, [], ◌∷◌,
  ◌&&◌, ◌==◌, text_key, ltb, length, All, Bool-cases, inl, inr, arith, eq_iff,
}
use astrbot_plugin_webchat_g.Storage.Rows.{FileRow}
use astrbot_plugin_webchat_g.Storage.Sql.Find.{find-holds}
use astrbot_plugin_webchat_g.Storage.Files.{has_id, get_file, contains}
use astrbot_plugin_webchat_g.FileLifecycle.{ids_of, is_nil}
use astrbot_plugin_webchat_g.RequestGate.{
  Verdict, gate_pass, forbidden_origin, ip_blocked, unauthorized,
}
use astrbot_plugin_webchat_g.Chat.Requests.{
  Entry, file_entry, bad_entry, Attachments, absent, not_a_list, listed, Payload, Body, object,
  not_an_object, bad_json, oversized, ParsedRequest, Parse, ok, error, put_first, parse_entries,
  parse_attachments, or_default, with_attachments, parse_payload, bounded_message, parse_chat_body,
  is_attachable, attach_row, attach, Prepared, refused, rejected, prepared, with_rows, with_body,
  prepare_chat_request,
}

-- No identifier stands twice, or is one of those seen.
abbrev pub AreNew : List String → List String → Type 0
AreNew seen [] = Unit
AreNew seen (id ∷ ids) = (contains seen id ≡ false) × AreNew (id ∷ seen) ids

abbrev pub Succeeds : {A : Type 0} → (A → Type 0) → Parse A → Type 0
Succeeds P (ok a) = P a
Succeeds P (error e) = Unit

put_first-Succeeds :
    (P Q : List String → Type 0) (id : String) (r : Parse (List String))
    → ((ids : List String) → P ids → Q (id ∷ ids))
    → Succeeds P r
    → Succeeds Q (put_first id r)
put_first-Succeeds P Q id (ok ids) f h = f ids h
put_first-Succeeds P Q id (error e) f h = tt

-- New, and no more than there are entries.
abbrev AreTaken : List String → ℕ → List String → Type 0
AreTaken seen n ids = AreNew seen ids × (length ids ≤ n)

more_room :
    (seen : List String) (n k : ℕ) (r : Parse (List String))
    → n ≤ k
    → Succeeds (AreTaken seen n) r
    → Succeeds (AreTaken seen k) r
more_room seen n k (ok ids) le h = (h.0, omega (arith, le, h.1))
more_room seen n k (error e) le h = tt

parse_entries-Succeeds :
    (seen : List String) (entries : List Entry)
    → Succeeds (AreTaken seen (length entries)) (parse_entries seen entries)
unfolding parse_entries
parse_entries-Succeeds seen [] = (tt, omega arith)
parse_entries-Succeeds seen (bad_entry ∷ entries) = tt
parse_entries-Succeeds seen (file_entry id ∷ entries) = elim (Bool-cases (id == "")) [
  | inl empty ↦ rw (parse_entries, empty) tt
  | inr given ↦ elim (Bool-cases (contains seen id)) [
    | inl again ↦
        rw (parse_entries, given, again)
          (more_room seen (length entries) (suc (length entries)) (parse_entries seen entries)
            (omega arith) (parse_entries-Succeeds seen entries))
    | inr new ↦
        rw (parse_entries, given, new)
          (put_first-Succeeds (AreTaken (id ∷ seen) (length entries))
            (AreTaken seen (suc (length entries))) id (parse_entries (id ∷ seen) entries)
            (λ ids h. ((new, h.0), omega (arith, h.1)))
            (parse_entries-Succeeds (id ∷ seen) entries))
  ]
]

parse_attachments-Succeeds :
    (limit : ℕ) (a : Attachments) → Succeeds (AreTaken [] limit) (parse_attachments limit a)
unfolding parse_attachments
parse_attachments-Succeeds limit absent = (tt, omega arith)
parse_attachments-Succeeds limit not_a_list = tt
parse_attachments-Succeeds limit (listed entries) = elim (Bool-cases (ltb limit (length entries))) [
  | inl over ↦ rw (parse_attachments, over) tt
  | inr fits ↦
      rw (parse_attachments, fits)
        (more_room [] (length entries) limit (parse_entries [] entries) (ground (arith, fits))
          (parse_entries-Succeeds [] entries))
]

module _ (max_length limit : ℕ) where
  -- What the parser lets through.
  abbrev pub IsParsed : ParsedRequest → Type 0
  IsParsed data_ =
      AreTaken [] limit data_.attachments
      × (String.count data_.message ≤ max_length)
      × ((data_.message == "" && is_nil data_.attachments) ≡ false)

  with_attachments-IsParsed :
      (p : Payload) (r : Parse (List String))
      → Succeeds (AreTaken [] limit) r
      → Succeeds IsParsed (bounded_message max_length (with_attachments p r))
  with_attachments-IsParsed p (error e) h = tt
  with_attachments-IsParsed p (ok ids) h = elim (Bool-cases (p.message == "" && is_nil ids)) [
    | inl empty ↦ rw empty tt
    | inr full ↦ elim (Bool-cases (or_default "webchat" p.session == "drop")) [
      | inl drop ↦ rw (full, drop) tt
      | inr chat ↦
          rw (full, chat)
            (elim (Bool-cases (ltb max_length (String.count p.message))) [
              | inl long ↦ rw long tt
              | inr short ↦ rw short (h, ground (arith, short), full)
            ])
    ]
  ]

  parse_chat_body-IsParsed :
      (body : Body) → Succeeds IsParsed (parse_chat_body max_length limit body)
  unfolding parse_chat_body parse_payload
  parse_chat_body-IsParsed oversized = tt
  parse_chat_body-IsParsed bad_json = tt
  parse_chat_body-IsParsed not_an_object = tt
  parse_chat_body-IsParsed (object p) =
      with_attachments-IsParsed p (parse_attachments limit p.attachments)
        (parse_attachments-Succeeds limit p.attachments)

-- The rows are those of the identifiers, in their order, and each may be attached.
abbrev pub AreAttached : String → String → List FileRow → List String → List FileRow → Type 0
AreAttached token session t ids rows =
    (ids_of rows ≡ ids)
    × All (λ row. (get_file row.file_id t ≡ some row) × (is_attachable token session row ≡ true))
        rows

attach_row-Succeeds :
    (token session : String) (t : List FileRow) (id : String) (ids : List String)
    (o : Option FileRow) (r : Parse (List FileRow))
    → get_file id t ≡ o
    → Succeeds (AreAttached token session t ids) r
    → Succeeds (AreAttached token session t (id ∷ ids)) (attach_row token session o r)
unfolding get_file
attach_row-Succeeds token session t id ids none r e h = tt
attach_row-Succeeds token session t id ids (some row) (error x) e h =
    elim (Bool-cases (is_attachable token session row)) [
      | inl own ↦ rw own tt
      | inr other ↦ rw other tt
    ]
attach_row-Succeeds token session t id ids (some row) (ok rows) e h =
    elim (Bool-cases (is_attachable token session row)) [
      | inr other ↦ rw other tt
      | inl own ↦
          let same : row.file_id ≡ id =
            (eq_iff row.file_id id).0 (find-holds (has_id id) t row e) in
          let found : get_file row.file_id t ≡ some row = ap (λ i. get_file i t) same ∙ e in
          rw own (ap₂ (λ i is. i ∷ is) same h.0, ((found, own), h.1))
    ]

attach-Succeeds :
    (token session : String) (t : List FileRow) (ids : List String)
    → Succeeds (AreAttached token session t ids) (attach token session t ids)
unfolding attach
attach-Succeeds token session t [] = (refl, tt)
attach-Succeeds token session t (id ∷ ids) =
    attach_row-Succeeds token session t id ids (get_file id t) (attach token session t ids) refl
      (attach-Succeeds token session t ids)

-- What a prepared request holds.
abbrev pub IsPrepared : ℕ → ℕ → List FileRow → Prepared → Type 0
IsPrepared max_length limit t (refused verdict) = Unit
IsPrepared max_length limit t (rejected e) = Unit
IsPrepared max_length limit t (prepared r) =
    IsParsed max_length limit r.data_
    × AreAttached r.token.name r.data_.session_id t r.data_.attachments r.attachment_rows

-- A chat request that is prepared has a message or an attachment; its message is within the limit;
-- its attachments are within theirs, none of them twice; and the rows that go with it are those of
-- its attachments in the table, in their order, each of the request's own token and session.
pub prepare_chat_request_lem :
    (max_length limit : ℕ) (verdict : Verdict) (body : Body) (t : List FileRow)
    → IsPrepared max_length limit t (prepare_chat_request max_length limit verdict body t)
unfolding prepare_chat_request
prepare_chat_request_lem max_length limit forbidden_origin body t = tt
prepare_chat_request_lem max_length limit (ip_blocked n) body t = tt
prepare_chat_request_lem max_length limit (unauthorized reason) body t = tt
prepare_chat_request_lem max_length limit (gate_pass token ip) body t =
    with_body-IsPrepared (parse_chat_body max_length limit body)
      (parse_chat_body-IsParsed max_length limit body)
  where
    with_rows-IsPrepared :
        (data_ : ParsedRequest) (r : Parse (List FileRow))
        → IsParsed max_length limit data_
        → Succeeds (AreAttached token.name data_.session_id t data_.attachments) r
        → IsPrepared max_length limit t (with_rows token ip data_ r)
    with_rows-IsPrepared data_ (error e) p h = tt
    with_rows-IsPrepared data_ (ok rows) p h = (p, h)

    with_body-IsPrepared :
        (r : Parse ParsedRequest)
        → Succeeds (IsParsed max_length limit) r
        → IsPrepared max_length limit t (with_body token ip t r)
    with_body-IsPrepared (error e) p = tt
    with_body-IsPrepared (ok data_) p =
        with_rows-IsPrepared data_ (attach token.name data_.session_id t data_.attachments) p
          (attach-Succeeds token.name data_.session_id t data_.attachments)
