-- ===== src/Http/Headers.antt =====
-- weightless/http/httpspec.py: `REGEXP.REQUEST`, and the dictionary of `parseHeaders`.
use weightless_core.Base.{
  ℕ, suc, ◌+◌, ◌-◌, Bool, true, false, not, ◌&&◌, ◌||◌, Option, none, some, List, [], ◌∷◌, ◌++◌,
  ltb, leb, ◌==◌, ==_iff, ◌≡◌, refl, ◌↔◌, arith, if◌then◌else◌, is_empty, length, take, drop,
}
use weightless_core.Base.Dict.{Eq, get, put}
use weightless_core.Http.Regexp.{Bytes, cr, lf, Field, span, is_token, is_dot, match_line, headers}

abbrev pub same_bytes : Bytes → Bytes → Bool
same_bytes [] [] = true
same_bytes (x ∷ xs) (y ∷ ys) = x == y && same_bytes xs ys
same_bytes _ _ = false

pub same_bytes_iff : (xs ys : Bytes) → (same_bytes xs ys ≡ true) ↔ (xs ≡ ys)
same_bytes_iff [] [] = (λ h. refl, λ h. refl)
same_bytes_iff [] (y ∷ ys) = (λ h. cc, λ h. cc)
same_bytes_iff (x ∷ xs) [] = (λ h. cc, λ h. cc)
same_bytes_iff (x ∷ xs) (y ∷ ys) = ground (arith, ==_iff x y, same_bytes_iff xs ys)

instance abbrev pub bytes_eq : Eq Bytes
bytes_eq = record { same = same_bytes; same_iff = same_bytes_iff }

abbrev is_upper : ℕ → Bool
is_upper c = leb b'A' c && leb c b'Z'

abbrev is_lower : ℕ → Bool
is_lower c = leb b'a' c && leb c b'z'

-- `bytes.title()`: a letter is a capital where no letter stands before it.
unfoldable pub title_from : Bool → Bytes → Bytes
title_from after_letter [] = []
title_from after_letter (c ∷ cs) =
    (if is_upper c && after_letter
      then c + 32
      else if is_lower c && not after_letter
      then c - 32
      else c)
    ∷ title_from (is_upper c || is_lower c) cs

-- The bytes that `strip()` takes away.
abbrev is_space : ℕ → Bool
is_space c = c == 32 || (leb 9 c && leb c 13)

unfoldable pub strip_left : Bytes → Bytes
strip_left [] = []
strip_left (c ∷ cs) = if is_space c then strip_left cs else c ∷ cs

unfoldable pub strip_right : Bytes → Bytes
strip_right [] = []
strip_right (c ∷ cs) =
    let rest = strip_right cs in if is_space c && is_empty rest then [] else c ∷ rest

unfoldable pub strip : Bytes → Bytes
unfolding strip_left strip_right
strip cs = strip_right (strip_left cs)

-- One value, or a list of them.
pub data HeaderValue : Type 0 where
  one_value : Bytes → HeaderValue
  values : List Bytes → HeaderValue

abbrev pub Headers : Type 0
Headers = List (Bytes × HeaderValue)

-- b'Set-Cookie'
abbrev set_cookie : Bytes
set_cookie = 83 ∷ 101 ∷ 116 ∷ 45 ∷ 67 ∷ 111 ∷ 111 ∷ 107 ∷ 105 ∷ 101 ∷ []

unfoldable pub added_value : Bytes → Bytes → Option HeaderValue → HeaderValue
added_value key value none =
    if same_bytes key set_cookie then values (value ∷ []) else one_value value
added_value key value (some (one_value first)) = values (first ∷ value ∷ [])
added_value key value (some (values vs)) = values (vs ++ value ∷ [])

unfoldable pub add_header : Field → Headers → Headers
unfolding added_value title_from strip
add_header field d =
    let key = title_from false field.name in
    put key (added_value key (strip field.text) (get key d)) d

unfoldable pub parse_headers_into : Headers → List Field → Headers
unfolding add_header
parse_headers_into d [] = d
parse_headers_into d (field ∷ fields) = parse_headers_into (add_header field d) fields

-- `parseHeaders`, from the fields of the text.
unfoldable pub parse_headers : List Field → Headers
unfolding parse_headers_into
parse_headers fields = parse_headers_into [] fields

-- `HTTP.Request_Line`: its three groups.
pub record RequestLine : Type 0 where
  pub method : Bytes
  pub uri : Bytes
  pub version : Bytes

abbrev is_digit : ℕ → Bool
is_digit c = leb b'0' c && leb c b'9'

-- The version behind ` HTTP/`.
unfoldable pub match_digits : Bytes → Option Bytes
match_digits (a ∷ dot ∷ b ∷ []) =
    if is_digit a && dot == b'.' && is_digit b then some (a ∷ dot ∷ b ∷ []) else none
match_digits _ = none

-- b' HTTP/'
abbrev http_slash : Bytes
http_slash = 32 ∷ 72 ∷ 84 ∷ 84 ∷ 80 ∷ 47 ∷ []

unfoldable pub match_version : Bytes → Option Bytes
unfolding match_digits
match_version text =
    if same_bytes (take 6 text) http_slash then match_digits (drop 6 text) else none

-- `.+`, which takes as much as it can, and the version at the end of the line.
unfoldable pub match_uri : Bytes → Bytes → Option RequestLine
unfolding match_version
match_uri method text =
    let size = length text - 9 in
    elim (match_version (drop size text)) [
      | none ↦ none
      | some version ↦
          if ltb 9 (length text)
          then some (record { method = method; uri = take size text; version = version })
          else none
    ]

unfoldable pub match_rest_of_line : Bytes → Option (Bytes × Bytes) → Option (RequestLine × Bytes)
unfolding match_uri
match_rest_of_line method none = none
match_rest_of_line method (some (text, rest)) = elim (match_uri method text) [
  | none ↦ none
  | some line ↦ some (line, rest)
]

unfoldable pub match_method : Bytes × Bytes → Option (RequestLine × Bytes)
unfolding match_rest_of_line match_line span is_dot
match_method ([], rest) = none
match_method (c ∷ method, []) = none
match_method (c ∷ method, d ∷ rest) =
    if d == 32 then match_rest_of_line (c ∷ method) (match_line (span is_dot rest)) else none

unfoldable pub skip_crlfs : Bytes → Bytes
skip_crlfs [] = []
skip_crlfs (a ∷ []) = a ∷ []
skip_crlfs (a ∷ b ∷ xs) =
    let rest = skip_crlfs xs in if a == cr && b == lf then rest else a ∷ b ∷ xs

unfoldable pub request_line : Bytes → Option (RequestLine × Bytes)
unfolding match_method skip_crlfs span is_token
request_line xs = match_method (span is_token (skip_crlfs xs))

-- `REGEXP.REQUEST`: the request line, the fields, and the data behind them.
unfoldable pub match_request : Bytes → Option (RequestLine × List Field × Bytes)
unfolding request_line headers
match_request xs = elim (request_line xs) [
  | none ↦ none
  | some (line, rest) ↦ elim (headers (suc (length rest)) rest) [
    | none ↦ none
    | some (fields, rest') ↦ some (line, fields, rest')
  ]
]
