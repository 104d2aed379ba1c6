-- ===== src/Http/Regexp.antt =====
-- weightless/http/httpspec.py and the two expressions of weightless/http/_httprequest1_1.py: what
-- the compiled expressions match at the start of the data. A matcher gives the groups that the code
-- reads and the data behind the match (`data[match.end():]`). No expression backtracks to another
-- match: each run of a character class ends at a character outside the class.
pub mod Extend
pub mod Shorter
use weightless_core.Base.{
  ℕ, zero, suc, ◌+◌, ◌*◌, ◌-◌, ◌≤◌, Bool, true, false, not, ◌&&◌, ◌||◌, Option, none, some, List,
  [], ◌∷◌, leb, ◌==◌, if◌then◌else◌, is_empty, length,
}

abbrev pub Bytes : Type 0
Bytes = List ℕ

-- Carriage return and line feed.
abbrev pub cr : ℕ
cr = 13

abbrev pub lf : ℕ
lf = 10

abbrev pub crlf : Bytes
crlf = cr ∷ lf ∷ []

-- The longest prefix in a class, and the rest.
unfoldable pub span : (ℕ → Bool) → Bytes → Bytes × Bytes
span p [] = ([], [])
span p (x ∷ xs) = let (ys, zs) = span p xs in if p x then (x ∷ ys, zs) else ([], x ∷ xs)

abbrev between : ℕ → ℕ → ℕ → Bool
between lo hi c = leb lo c && leb c hi

-- [0-9a-fA-F]
unfoldable pub is_hex : ℕ → Bool
is_hex c = between b'0' b'9' c || between b'A' b'F' c || between b'a' b'f' c

-- [^\r\n]
unfoldable pub is_inline : ℕ → Bool
is_inline c = not (c == cr) && not (c == lf)

-- The class of `HTTP.token`.
unfoldable pub is_token : ℕ → Bool
is_token c =
    c == 33
    || between 35 39 c
    || between 42 43 c
    || between 45 46 c
    || between b'0' b'9' c
    || between b'A' b'Z' c
    || between 94 122 c
    || c == 124
    || c == 126

-- \r\n
unfoldable pub match_crlf : Bytes → Option Bytes
match_crlf [] = none
match_crlf (a ∷ []) = none
match_crlf (a ∷ b ∷ rest) = if a == cr && b == lf then some rest else none

abbrev with_group : Bytes → Option Bytes → Option (Bytes × Bytes)
with_group group none = none
with_group group (some rest) = some (group, rest)

-- `REGEXP.CHUNK_SIZE_LINE`: the size, in hexadecimal, and the end of its line.
unfoldable pub match_size_line : Bytes × Bytes → Option (Bytes × Bytes)
unfolding match_crlf
match_size_line ([], rest) = none
match_size_line (c ∷ hex, rest) = with_group (c ∷ hex) (match_crlf rest)

unfoldable pub chunk_size_line : Bytes → Option (Bytes × Bytes)
unfolding match_size_line span is_hex
chunk_size_line xs = match_size_line (span is_hex xs)

-- `_CHUNK_RE` behind the size: a chunk extension or nothing, and the end of the line.
unfoldable pub match_extension_text : Bytes × Bytes → Option Bytes
unfolding match_crlf
match_extension_text ([], rest) = none
match_extension_text (c ∷ text, rest) = match_crlf rest

unfoldable pub match_extension : Bytes → Option Bytes
unfolding match_crlf match_extension_text span is_inline
match_extension [] = none
match_extension (c ∷ rest) =
    if c == b';' then match_extension_text (span is_inline rest) else match_crlf (c ∷ rest)

unfoldable pub match_chunk_header : Bytes × Bytes → Option (Bytes × Bytes)
unfolding match_extension
match_chunk_header ([], rest) = none
match_chunk_header (c ∷ hex, rest) = with_group (c ∷ hex) (match_extension rest)

-- `_CHUNK_RE`.
unfoldable pub chunk_header : Bytes → Option (Bytes × Bytes)
unfolding match_chunk_header span is_hex
chunk_header xs = match_chunk_header (span is_hex xs)

-- `int(digits, 16)`
unfoldable pub hex_digit : ℕ → ℕ
hex_digit c =
    if leb c b'9' then c - b'0' else if leb c b'F' then (c - b'A') + 10 else (c - b'a') + 10

unfoldable pub int16_from : ℕ → Bytes → ℕ
unfolding hex_digit
int16_from n [] = n
int16_from n (c ∷ cs) = int16_from (n * 16 + hex_digit c) cs

abbrev pub int16 : Bytes → ℕ
int16 digits = int16_from 0 digits

-- `.`
unfoldable pub is_dot : ℕ → Bool
is_dot c = not (c == lf)

-- A line without its carriage return, or nothing if it has none.
unfoldable pub strip_cr : Bytes → Option Bytes
strip_cr [] = none
strip_cr (c ∷ []) = if c == cr then some [] else none
strip_cr (c ∷ d ∷ line) = elim (strip_cr (d ∷ line)) [ none ↦ none | some text ↦ some (c ∷ text) ]

-- `.*\r\n`, from a line and what follows it: the rest begins with the line feed, if there is one.
unfoldable pub match_line : Bytes × Bytes → Option (Bytes × Bytes)
unfolding strip_cr
match_line (line, []) = none
match_line (line, c ∷ rest) = elim (strip_cr line) [ none ↦ none | some text ↦ some (text, rest) ]

unfoldable pub match_value : Bytes → Option (Bytes × Bytes)
unfolding match_line span is_dot
match_value [] = none
match_value (c ∷ rest) = if c == b':' then match_line (span is_dot rest) else none

pub record Field : Type 0 where
  pub name : Bytes
  pub text : Bytes

unfoldable pub match_field : Bytes × Bytes → Option (Field × Bytes)
unfolding match_value
match_field ([], rest) = none
match_field (c ∷ name, rest) = elim (match_value rest) [
  | none ↦ none
  | some (text, rest') ↦ some (record { name = c ∷ name; text = text }, rest')
]

-- `HTTP.message_header`
unfoldable pub message_header : Bytes → Option (Field × Bytes)
unfolding match_field span is_token
message_header xs = match_field (span is_token xs)

-- `HTTP.Headers + CRLF`, one unit of fuel for each header and one for the end.
unfoldable pub headers : ℕ → Bytes → Option (List Field × Bytes)
unfolding message_header match_crlf
headers zero xs = none
headers (suc fuel) xs = elim (message_header xs) [
  | some (field, rest) ↦ elim (headers fuel rest) [
    | none ↦ none
    | some (fields, rest') ↦ some (field ∷ fields, rest')
  ]
  | none ↦ elim (match_crlf xs) [ none ↦ none | some rest ↦ some ([], rest) ]
]

-- `_TRAILERS_RE`: the same, where the group is `None` if there is no header.
unfoldable pub trailers : Bytes → Option (List Field × Bytes)
unfolding headers
trailers xs = headers (suc (length xs)) xs
