-- ===== src/Http/Names.antt =====
-- weightless/http/_httpserver.py and _httprequest1_1.py: the names of headers and methods, and what the
-- code does with the text of a header.
use weightless_core.Base.{
  ℕ, ◌+◌, ◌*◌, Bool, true, false, ◌||◌, ◌&&◌, Option, none, some, [], ◌∷◌, leb, ◌==◌, ◌-◌,
  if◌then◌else◌,
}
use weightless_core.Http.Regexp.{Bytes}
use weightless_core.Http.Headers.{bytes_eq, strip}

-- b'Content-Type'
abbrev pub content_type : Bytes
content_type = 67 ∷ 111 ∷ 110 ∷ 116 ∷ 101 ∷ 110 ∷ 116 ∷ 45 ∷ 84 ∷ 121 ∷ 112 ∷ 101 ∷ []

-- b'Content-Encoding'
abbrev pub content_encoding : Bytes
content_encoding =
    67 ∷ 111 ∷ 110 ∷ 116 ∷ 101 ∷ 110 ∷ 116 ∷ 45 ∷ 69 ∷ 110 ∷ 99 ∷ 111 ∷ 100 ∷ 105 ∷ 110 ∷ 103 ∷ []

-- b'Content-Length'
abbrev pub content_length : Bytes
content_length = 67 ∷ 111 ∷ 110 ∷ 116 ∷ 101 ∷ 110 ∷ 116 ∷ 45 ∷ 76 ∷ 101 ∷ 110 ∷ 103 ∷ 116 ∷ 104 ∷ []

-- b'Transfer-Encoding'
abbrev pub transfer_encoding : Bytes
transfer_encoding =
    84 ∷ 114 ∷ 97 ∷ 110 ∷ 115 ∷ 102 ∷ 101 ∷ 114 ∷ 45 ∷ 69 ∷ 110 ∷ 99 ∷ 111 ∷ 100 ∷ 105 ∷ 110 ∷ 103
    ∷ []

-- b'Expect'
abbrev pub expect : Bytes
expect = 69 ∷ 120 ∷ 112 ∷ 101 ∷ 99 ∷ 116 ∷ []

-- b'multipart/form-data'
abbrev pub multipart_form_data : Bytes
multipart_form_data =
    109 ∷ 117 ∷ 108 ∷ 116 ∷ 105 ∷ 112 ∷ 97 ∷ 114 ∷ 116 ∷ 47 ∷ 102 ∷ 111 ∷ 114 ∷ 109 ∷ 45 ∷ 100 ∷ 97
    ∷ 116 ∷ 97 ∷ []

-- b'chunked'
abbrev pub chunked : Bytes
chunked = 99 ∷ 104 ∷ 117 ∷ 110 ∷ 107 ∷ 101 ∷ 100 ∷ []

-- b'POST'
abbrev pub post : Bytes
post = 80 ∷ 79 ∷ 83 ∷ 84 ∷ []

-- b'PUT'
abbrev pub put_method : Bytes
put_method = 80 ∷ 85 ∷ 84 ∷ []

-- `x.split(b',')`: the part up to the first comma, and whether there is another.
unfoldable pub before : ℕ → Bytes → Bytes
before c [] = []
before c (b ∷ bs) = let rest = before c bs in if b == c then [] else b ∷ rest

unfoldable pub has_byte : ℕ → Bytes → Bool
has_byte c [] = false
has_byte c (b ∷ bs) = b == c || has_byte c bs

-- `x.lower()`
unfoldable pub lower : Bytes → Bytes
lower [] = []
lower (c ∷ cs) = (if leb b'A' c && leb c b'Z' then c + 32 else c) ∷ lower cs

unfoldable pub starts_with : Bytes → Bytes → Bool
starts_with [] text = true
starts_with (c ∷ cs) [] = false
starts_with (c ∷ cs) (b ∷ bs) = c == b && starts_with cs bs

-- `int(value)`, for the digits that a client sends; a sign and underscores are not read.
unfoldable pub int10_from : ℕ → Bytes → Option ℕ
int10_from n [] = some n
int10_from n (c ∷ cs) =
    if leb b'0' c && leb c b'9' then int10_from (n * 10 + (c - b'0')) cs else none

unfoldable pub int10 : Bytes → Option ℕ
unfolding int10_from strip
int10 text = elim (strip text) [ [] ↦ none | c ∷ cs ↦ int10_from 0 (c ∷ cs) ]
