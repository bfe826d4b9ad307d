-- ===== src/Adapters/Fastapi/Text.antt =====
-- What the middlewares use of Python's `str`.
use Prim.Native.Char.{code}
use Prim.Native.String.{[] as empty, ◌∷◌ as prepend}
use python_commons.Base.{
  ℕ, zero, suc, ◌+◌, String, Bool, true, false, ◌&&◌, ◌||◌, Option, none, some, ◌==◌, leb,
  if◌then◌else◌,
}

-- `str.isspace` of a character
unfoldable pub is_space : ℕ → Bool
is_space c =
    (leb 9 c && leb c 13)
    || (leb 28 c && leb c 32)
    || (c == 133)
    || (c == 160)
    || (c == 5760)
    || (leb 8192 c && leb c 8202)
    || (c == 8232)
    || (c == 8233)
    || (c == 8239)
    || (c == 8287)
    || (c == 12288)

is_blank : String → Bool
unfolding is_space
is_blank empty = true
is_blank (prepend c s) = is_space (code c) && is_blank s

strip_end : String → String
unfolding is_blank
strip_end empty = ""
strip_end (prepend c s) =
    let rest = prepend c (strip_end s) in if is_blank (prepend c s) then "" else rest

strip_start : String → String
unfolding is_space
strip_start empty = ""
strip_start (prepend c s) =
    let rest = strip_start s in if is_space (code c) then rest else prepend c s

-- `str.strip`
unfoldable pub strip : String → String
unfolding strip_start strip_end
strip s = strip_end (strip_start s)

-- `"-" in s`
unfoldable pub has_dash : String → Bool
has_dash empty = false
has_dash (prepend c s) = (code c == b'-') || has_dash s

-- the first and the second part of `s.split("-")`; a text with no dash has no second part
unfoldable pub first_part : String → String
first_part empty = ""
first_part (prepend c s) =
    let rest = prepend c (first_part s) in if code c == b'-' then "" else rest

unfoldable pub second_part : String → Option String
unfolding first_part
second_part empty = none
second_part (prepend c s) =
    let rest = second_part s in if code c == b'-' then some (first_part s) else rest

-- `s[n:]`
unfoldable pub skip : ℕ → String → String
skip zero s = s
skip (suc n) empty = ""
skip (suc n) (prepend c s) = skip n s

-- `s.lower()` compared with a text of small letters, none of which is the lower case of a letter
-- outside ASCII
abbrev lower_code : ℕ → ℕ
lower_code c = if leb b'A' c && leb c b'Z' then c + 32 else c

unfoldable pub lower_starts_with : String → String → Bool
lower_starts_with s empty = true
lower_starts_with empty (prepend d t) = false
lower_starts_with (prepend c s) (prepend d t) =
    (lower_code (code c) == code d) && lower_starts_with s t
