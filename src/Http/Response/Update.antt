-- ===== src/Http/Response/Update.antt =====
-- weightless/http/_httpserver.py: `updateResponseHeaders`, which changes the headers of a response before its
-- body is compressed.
use weightless_core.Base.{
  suc, ◌-◌, Bool, false, ◌||◌, ◌&&◌, Option, none, some, List, [], ◌∷◌, ◌++◌, ◌==◌, if◌then◌else◌,
  length, take, is_some,
}
use weightless_core.Base.Dict.{get}
use weightless_core.Http.Regexp.{Bytes, cr, lf, crlf, span, is_dot, match_line, headers}
use weightless_core.Http.Headers.{Headers, same_bytes, bytes_eq, parse_headers}
use weightless_core.Http.Names.{lower}
use weightless_core.Http.Strategy.{match_status_line}

-- What follows a prefix, whatever its case.
unfoldable pub after_prefix : Bytes → Bytes → Option Bytes
unfolding lower
after_prefix [] text = some text
after_prefix (c ∷ cs) [] = none
after_prefix (c ∷ cs) (b ∷ text) =
    let rest = after_prefix cs text in
    if same_bytes (lower (c ∷ [])) (lower (b ∷ [])) then rest else none

-- `.*?\r\n`
unfoldable pub after_line : Bytes → Option Bytes
after_line [] = none
after_line (a ∷ []) = none
after_line (a ∷ b ∷ text) =
    let rest = after_line (b ∷ text) in
    if a == cr && b == lf then some text else if a == lf then none else rest

-- The expression of a header that is to be removed.
unfoldable pub match_header : Bytes → Bytes → Option Bytes
unfolding after_prefix after_line
match_header name text = elim (after_prefix (crlf ++ name ++ b':' ∷ []) text) [
  | none ↦ none
  | some rest ↦ after_line rest
]

-- `headerRe.sub(CRLF, _headers, count=1)`
unfoldable pub remove_header : Bytes → Bytes → Bytes
unfolding match_header
remove_header name [] = []
remove_header name (c ∷ text) =
    let more = remove_header name text in
    elim (match_header name (c ∷ text)) [ none ↦ c ∷ more | some rest ↦ crlf ++ rest ]

unfoldable pub remove_headers : List Bytes → Bytes → Bytes
unfolding remove_header
remove_headers [] text = text
remove_headers (name ∷ names) text = remove_headers names (remove_header name text)

unfoldable pub add_headers : List (Bytes × Bytes) → Bytes → Bytes
add_headers [] text = text
add_headers ((name, value) ∷ hs) text = add_headers hs (text ++ name ++ 58 ∷ 32 ∷ (value ++ crlf))

unfoldable pub any_present : List Bytes → Headers → Bool
any_present [] fields = false
any_present (name ∷ names) fields = is_some (get name fields) || any_present names fields

-- The match of a response: its status line, its headers with the line end before them, its fields and
-- its body.
pub record Matched : Type 0 where
  pub status_line : Bytes
  pub header_text : Bytes
  pub fields : Headers
  pub body : Bytes

unfoldable pub match_headers : Bytes → Bytes → Option Matched
unfolding headers parse_headers
match_headers status_line rest = elim (headers (suc (length rest)) rest) [
  | none ↦ none
  | some (fields, body) ↦ some (record {
    status_line = status_line;
    header_text = crlf ++ take (length rest - length body - 2) rest;
    fields = parse_headers fields;
    body = body;
  })
]

-- `REGEXP.RESPONSE`, with the places of its groups.
unfoldable pub match_whole : Bytes → Option Matched
unfolding match_headers match_status_line match_line span is_dot
match_whole text = elim (match_line (span is_dot text)) [
  | none ↦ none
  | some (line, rest) ↦ elim (match_status_line (some (line, rest))) [
    | none ↦ none
    | some _ ↦ match_headers line rest
  ]
]

-- `updateResponseHeaders`; none is the `ValueError`.
unfoldable pub update_response_headers :
    Matched → List (Bytes × Bytes) → List Bytes → List Bytes → Option (Bytes × Bytes)
unfolding any_present remove_headers add_headers
update_response_headers m added removed required_absent =
    if any_present required_absent m.fields
    then none
    else some
        (m.status_line ++ add_headers added (remove_headers removed m.header_text) ++ crlf, m.body)
