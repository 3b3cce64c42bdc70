-- ===== src/FileServing/Uploads/Parts.antt =====
-- handlers/files.py, the upload: what the loop over the parts lets through.
use astrbot_plugin_webchat_g.Prelude.{
  ℕ, ◌+◌, ◌≤◌, subst, String, Option, none, some, List, [], ◌∷◌, ◌==◌, text_key, number_key, ltb,
  Bool-cases, Option-cases, inl, inr, arith,
}
use astrbot_plugin_webchat_g.FileServing.Uploads.{
  Part, file_part, session_part, other_part, oversized, disconnected, broken, read_chunks, Parsed,
  parsed, too_large, gone, unreadable, parse_parts,
}

-- Nothing, or a number up to the limit.
abbrev pub IsUpTo : ℕ → Option ℕ → Type 0
IsUpTo limit none = Unit
IsUpTo limit (some n) = n ≤ limit

read_chunks-IsUpTo :
    (limit size : ℕ) (chunks : List ℕ) → size ≤ limit → IsUpTo limit (read_chunks limit size chunks)
unfolding read_chunks
read_chunks-IsUpTo limit size [] le = le
read_chunks-IsUpTo limit size (k ∷ chunks) le = elim (Bool-cases (k == 0)) [
  | inl last ↦ rw last le
  | inr more ↦ elim (Bool-cases (ltb limit (size + k))) [
    | inl over ↦ rw (more, over) tt
    | inr fits ↦ rw (more, fits) (read_chunks-IsUpTo limit (size + k) chunks (ground (arith, fits)))
  ]
]

-- The content that the loop over the parts has found, if any, is within the limit.
abbrev pub IsShort : ℕ → Parsed → Type 0
IsShort limit (parsed content session) = IsUpTo limit content
IsShort limit too_large = Unit
IsShort limit gone = Unit
IsShort limit unreadable = Unit

pub parse_parts-IsShort :
    (limit : ℕ) (content : Option ℕ) (session : Option String) (parts : List Part)
    → IsUpTo limit content
    → IsShort limit (parse_parts limit content session parts)
unfolding parse_parts
parse_parts-IsShort limit content session [] h = h
parse_parts-IsShort limit none session (file_part chunks ∷ parts) h =
    let size = read_chunks-IsUpTo limit 0 chunks (omega arith) in
    elim (Option-cases (read_chunks limit 0 chunks)) [
      | inl e ↦ rw (parse_parts, e) tt
      | inr (n, e) ↦
          rw (parse_parts, e)
            (parse_parts-IsShort limit (some n) session parts (subst (IsUpTo limit) e size))
    ]
parse_parts-IsShort limit (some n) session (file_part chunks ∷ parts) h =
    parse_parts-IsShort limit (some n) session parts h
parse_parts-IsShort limit content none (session_part t ∷ parts) h =
    parse_parts-IsShort limit content (some t) parts h
parse_parts-IsShort limit content (some t) (session_part t' ∷ parts) h =
    parse_parts-IsShort limit content (some t) parts h
parse_parts-IsShort limit content session (other_part ∷ parts) h =
    parse_parts-IsShort limit content session parts h
parse_parts-IsShort limit content session (oversized ∷ parts) h = tt
parse_parts-IsShort limit content session (disconnected ∷ parts) h = tt
parse_parts-IsShort limit content session (broken ∷ parts) h = tt
