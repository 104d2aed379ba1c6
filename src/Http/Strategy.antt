-- ===== src/Http/Strategy.antt =====
-- weightless/http/_httprequest1_1.py: how the client reads the headers of a response, and how it finds
-- out where the body ends and whether the connection is closed behind it.
pub mod KeepAlive
pub mod Tests
use weightless_core.Base.{
  ℕ, zero, suc, ◌+◌, ◌-◌, Bool, true, false, not, ◌||◌, ◌&&◌, Option, none, some, List, [], ◌∷◌,
  ◌++◌, ltb, leb, ◌==◌, if◌then◌else◌, length, take, drop, is_some,
}
use weightless_core.Base.Dict.{get}
use weightless_core.Http.Regexp.{Bytes, cr, Field, span, is_dot, match_line, headers}
use weightless_core.Http.Headers.{
  Headers, HeaderValue, one_value, values, same_bytes, bytes_eq, strip, match_digits, parse_headers,
}
use weightless_core.Http.Names.{lower, int10, content_length, transfer_encoding, chunked}
use weightless_core.Http.Body.{
  Recv, received, want_read, ssl_error, Body, complete, body_value_error, body_error, max_sized,
  read_close_delimited_body, read_content_length_body, read_chunked_body,
}

-- 'Connection'
abbrev pub connection : Bytes
connection = 67 ∷ 111 ∷ 110 ∷ 110 ∷ 101 ∷ 99 ∷ 116 ∷ 105 ∷ 111 ∷ 110 ∷ []

-- 'close'
abbrev pub close : Bytes
close = 99 ∷ 108 ∷ 111 ∷ 115 ∷ 101 ∷ []

-- 'HEAD'
abbrev pub head : Bytes
head = 72 ∷ 69 ∷ 65 ∷ 68 ∷ []

-- '204'
abbrev pub no_content : Bytes
no_content = 50 ∷ 48 ∷ 52 ∷ []

-- '304'
abbrev pub not_modified : Bytes
not_modified = 51 ∷ 48 ∷ 52 ∷ []

-- '100'
abbrev pub continue_code : Bytes
continue_code = 49 ∷ 48 ∷ 48 ∷ []

-- '1.1'
abbrev pub version_1_1 : Bytes
version_1_1 = 49 ∷ 46 ∷ 49 ∷ []

-- `HTTP.Status_Line`
pub record StatusLine : Type 0 where
  pub version : Bytes
  pub status_code : Bytes
  pub reason : Bytes

abbrev is_digit : ℕ → Bool
is_digit c = leb b'0' c && leb c b'9'

unfoldable pub match_status : Bytes → Bytes → Option StatusLine
match_status version (s ∷ a ∷ b ∷ c ∷ t ∷ r ∷ x ∷ reason) =
    if s == 32 && is_digit a && is_digit b && is_digit c && t == 32 && not (r == cr)
    then some (record { version = version; status_code = a ∷ b ∷ c ∷ []; reason = r ∷ x ∷ reason })
    else none
match_status version text = none

-- b'HTTP/'
abbrev http_slash : Bytes
http_slash = 72 ∷ 84 ∷ 84 ∷ 80 ∷ 47 ∷ []

unfoldable pub match_status_text : Bytes → Option StatusLine
unfolding match_status match_digits
match_status_text text =
    if same_bytes (take 5 text) http_slash
    then elim (match_digits (take 3 (drop 5 text))) [
      | none ↦ none
      | some version ↦ match_status version (drop 8 text)
    ]
    else none

unfoldable pub match_status_line : Option (Bytes × Bytes) → Option (StatusLine × Bytes)
unfolding match_status_text
match_status_line none = none
match_status_line (some (text, rest)) = elim (match_status_text text) [
  | none ↦ none
  | some line ↦ some (line, rest)
]

-- `REGEXP.RESPONSE`
unfoldable pub match_response : Bytes → Option (StatusLine × Headers × Bytes)
unfolding match_status_line match_line span is_dot headers parse_headers
match_response xs = elim (match_status_line (match_line (span is_dot xs))) [
  | none ↦ none
  | some (line, rest) ↦ elim (headers (suc (length rest)) rest) [
    | none ↦ none
    | some (fields, rest') ↦ some (line, parse_headers fields, rest')
  ]
]

pub data HeaderRead : Type 0 where
  header_read : StatusLine → Headers → Bytes → List Recv → HeaderRead
  header_closed : HeaderRead
  header_error : HeaderRead
  header_pending : HeaderRead

-- `_readHeader`; behind `100 Continue` it starts again, with a read.
unfoldable pub read_header : List Recv → Bytes → HeaderRead
unfolding match_response
read_header [] responses = header_pending
read_header (want_read ∷ sok) responses = read_header sok responses
read_header (ssl_error ∷ sok) responses = header_error
read_header (received [] ∷ sok) responses = header_closed
read_header (received (b ∷ bs) ∷ sok) responses = elim (match_response (responses ++ b ∷ bs)) [
  | none ↦ read_header sok (responses ++ b ∷ bs)
  | some (line, fields, rest) ↦
      let next = read_header sok rest in
      if same_bytes line.status_code continue_code then next else header_read line fields rest sok
]

-- `x.split(b',')`, each part stripped.
unfoldable pub split_from : Bytes → Bytes → List Bytes
unfolding strip
split_from part [] = strip part ∷ []
split_from part (c ∷ cs) =
    let here = split_from (part ++ c ∷ []) cs in
    if c == b',' then strip part ∷ split_from [] cs else here

unfoldable pub parts : Bytes → List Bytes
unfolding split_from lower
parts value = split_from [] (strip (lower value))

unfoldable pub has_part : Bytes → List Bytes → Bool
has_part part [] = false
has_part part (p ∷ ps) = same_bytes p part || has_part part ps

unfoldable pub last_part : List Bytes → Option Bytes
last_part [] = none
last_part (p ∷ []) = some p
last_part (p ∷ q ∷ ps) = last_part (q ∷ ps)

-- A key of a dictionary of headers: a `str`, as in those of a request, or `bytes`, as in those that
-- `parseHeaders` gives. The one is never the other.
pub data Key : Type 0 where
  text_key bytes_key : Bytes → Key

unfoldable pub get_parsed : Headers → Key → Option HeaderValue
get_parsed fields (text_key name) = none
get_parsed fields (bytes_key name) = get name fields

pub data Strategy : Type 0 where
  assert_no_body close_delimited chunked_body : Strategy
  content_length_body : Option ℕ → Strategy

-- What is raised, where something is.
pub data Determined (A : Type 0) : Type 0 where
  determined : A → Determined A
  value_error attribute_error : Determined A

abbrev pub and_then : {A B : Type 0} → Determined A → (A → Determined B) → Determined B
and_then (determined a) f = f a
and_then value_error f = value_error
and_then attribute_error f = attribute_error

-- `_determineDoCloseFromConnection`
unfoldable pub do_close_from_connection : Option HeaderValue → Determined Bool
unfolding parts has_part
do_close_from_connection none = determined false
do_close_from_connection (some (one_value [])) = determined false
do_close_from_connection (some (one_value (c ∷ value))) =
    determined (has_part close (parts (c ∷ value)))
do_close_from_connection (some (values vs)) = attribute_error

-- `contentLength`, from the header; an empty one stays what it is, which is no number: `some none`.
unfoldable pub determine_length : Option HeaderValue → Determined (Option (Option ℕ))
unfolding int10
determine_length none = determined none
determine_length (some (values vs)) = attribute_error
determine_length (some (one_value [])) = determined (some none)
determine_length (some (one_value (c ∷ v))) = elim (int10 (c ∷ v)) [
  | none ↦ value_error
  | some n ↦ determined (some (some n))
]

-- `_parseTransferEncoding`, and whether it ends with `chunked`.
unfoldable pub ends_chunked : Option HeaderValue → Determined Bool
unfolding parts last_part
ends_chunked none = determined false
ends_chunked (some (values vs)) = attribute_error
ends_chunked (some (one_value v)) =
    determined (elim (last_part (parts v)) [ none ↦ false | some p ↦ same_bytes p chunked ])

-- `_bodyDisallowed`
unfoldable pub body_disallowed : Bytes → Bytes → Determined Bool
body_disallowed method [] = determined (same_bytes method head)
body_disallowed method (c ∷ code) =
    if c == b'1'
    then value_error
    else determined (
        same_bytes method head
        || same_bytes (c ∷ code) no_content
        || same_bytes (c ∷ code) not_modified)

unfoldable pub by_headers : Bool → Bool → Bool → Option (Option ℕ) → Strategy × Bool
by_headers true do_close is_chunked n = (assert_no_body, do_close)
by_headers false do_close true n = (chunked_body, do_close)
by_headers false do_close false (some n) = (content_length_body n, do_close)
by_headers false do_close false none = (close_delimited, true)

-- Before HTTP/1.1 there are no chunks, and the connection is closed.
unfoldable pub by_version : Bytes → Bool → Bool → Bool → Option (Option ℕ) → Strategy × Bool
unfolding by_headers
by_version version disallowed do_close is_chunked n =
    if same_bytes version version_1_1
    then by_headers disallowed do_close is_chunked n
    else by_headers disallowed true false n

-- `_determineBodyReadStrategy`, with the strategy and `doClose`.
unfoldable pub determine_body_read_strategy :
    StatusLine
    → Headers
    → Bytes
    → (Key → Option HeaderValue)
    → Option ℕ
    → Determined (Strategy × Bool)
unfolding do_close_from_connection get_parsed determine_length ends_chunked body_disallowed
    by_version
determine_body_read_strategy line fields method request_headers max_size =
    and_then (do_close_from_connection (request_headers (text_key connection))) λ a.
      and_then (do_close_from_connection (get_parsed fields (text_key connection))) λ b.
        and_then (determine_length (get_parsed fields (bytes_key content_length))) λ n.
          and_then (ends_chunked (get_parsed fields (bytes_key transfer_encoding))) λ is_chunked.
            and_then (body_disallowed method line.status_code) λ disallowed.
              determined
                (by_version line.version disallowed (a || b || is_some max_size) is_chunked n)

-- `_readAssertNoBody`, and the readers; an empty length is a `TypeError`.
unfoldable pub read_body : Strategy → Option ℕ → List Recv → Bytes → Body
unfolding max_sized read_close_delimited_body read_content_length_body read_chunked_body
read_body assert_no_body max sok [] = complete []
read_body assert_no_body max sok (b ∷ rest) = body_value_error
read_body close_delimited max sok rest = max_sized max [] (read_close_delimited_body sok rest)
read_body (content_length_body none) max sok rest = body_error
read_body (content_length_body (some n)) max sok rest =
    max_sized max [] (read_content_length_body n sok rest)
read_body chunked_body max sok rest = max_sized max [] (read_chunked_body sok rest)
