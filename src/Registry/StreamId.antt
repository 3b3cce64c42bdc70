-- ===== src/Registry/StreamId.antt =====
-- core/stream_registry.py, `STREAM_ID_PATTERN`: `^[a-zA-Z0-9_:.\-]{1,128}$`.
use Prim.Native.Char.{Char, code}
use astrbot_plugin_webchat_g.Prelude.{
  ℕ, ◌+◌, String, Bool, true, false, leb, ◌==◌, ◌&&◌, ◌||◌, if◌then◌else◌, number_key,
}

abbrev between : ℕ → ℕ → Char → Bool
between low high c = leb low (code c) && leb (code c) high

-- `[a-zA-Z0-9_:.\-]`
unfoldable pub is_allowed : Char → Bool
is_allowed c =
    between 97 122 c || between 65 90 c || between 48 58 c || code c == 95 || between 45 46 c

abbrev pub is_end : String → Bool
is_end String.[] = true
is_end (String.◌∷◌ c s) = false

-- After `n` characters of the class: the end, or a newline before it, which `$` lets pass.
unfoldable pub matches_from : ℕ → String → Bool
matches_from n String.[] = leb 1 n && leb n 128
matches_from n (String.◌∷◌ c s) =
    let more = matches_from (n + 1) s in
    if is_allowed c then more else code c == 10 && is_end s && leb 1 n && leb n 128

unfoldable pub is_stream_id : String → Bool
is_stream_id s = matches_from 0 s
