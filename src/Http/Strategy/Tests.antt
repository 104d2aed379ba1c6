-- ===== src/Http/Strategy/Tests.antt =====
-- Responses for weightless/http/_httprequest1_1.py.
use weightless_core.Base.{ℕ, ◌≡◌, ◌≢◌, refl, false, Option, none, some, [], ◌∷◌}
use weightless_core.Http.Regexp.{Bytes}
use weightless_core.Http.Headers.{Headers, HeaderValue, one_value}
use weightless_core.Http.Names.{content_length, transfer_encoding}
use weightless_core.Http.Strategy.{
  StatusLine, Key, bytes_key, get_parsed, close_delimited, content_length_body, determined,
  do_close_from_connection, determine_body_read_strategy, connection, close, version_1_1,
}
use weightless_core.Http.Strategy.KeepAlive.{determine_body_read_strategy_open}

-- HTTP/1.1 200 OK
abbrev ok_line : StatusLine
ok_line = record { version = version_1_1; status_code = 50 ∷ 48 ∷ 48 ∷ []; reason = 79 ∷ 75 ∷ [] }

abbrev two_bytes : Headers
two_bytes = (content_length, one_value (50 ∷ [])) ∷ []

abbrev two_bytes_and_close : Headers
two_bytes_and_close = (connection, one_value close) ∷ two_bytes

-- GET
abbrev get_method : Bytes
get_method = 71 ∷ 69 ∷ 84 ∷ []

abbrev no_headers : Key → Option HeaderValue
no_headers key = none

abbrev no_limit : Option ℕ
no_limit = none

two_bytes_open :
    determine_body_read_strategy ok_line two_bytes get_method no_headers none
    ≡ determined (content_length_body (some 2), false)
unfolding determine_body_read_strategy
two_bytes_open = refl

determine_body_read_strategy_open_example :
    (version_1_1 ≡ version_1_1)
    × (no_limit ≡ none)
    × (content_length_body (some 2) ≢ close_delimited)
    × (do_close_from_connection none ≡ determined false)
determine_body_read_strategy_open_example =
    determine_body_read_strategy_open ok_line two_bytes get_method no_headers none
      (content_length_body (some 2)) two_bytes_open

two_bytes_length :
    get_parsed two_bytes_and_close (bytes_key content_length)
    ≡ get_parsed two_bytes (bytes_key content_length)
unfolding get_parsed
two_bytes_length = refl

two_bytes_encoding :
    get_parsed two_bytes_and_close (bytes_key transfer_encoding)
    ≡ get_parsed two_bytes (bytes_key transfer_encoding)
unfolding get_parsed
two_bytes_encoding = refl
