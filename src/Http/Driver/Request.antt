-- ===== src/Http/Driver/Request.antt =====
-- weightless/http/_httprequest1_1.py: the data of a request and how it is sent (`_requestLine`,
-- `_sendHttpHeaders`, `_asyncSend`). A body is bytes; no body is an empty one, which the code does not
-- tell apart.
use weightless_core.Base.{
  ℕ, zero, suc, ◌+◌, ◌/◌, ◌%◌, Bool, false, ◌||◌, List, [], ◌∷◌, ◌++◌, ltb, if◌then◌else◌, length,
  drop,
}
use weightless_core.Base.Dict.{put}
use weightless_core.Http.Regexp.{Bytes, crlf}
use weightless_core.Http.Headers.{same_bytes, bytes_eq}
use weightless_core.Http.Names.{lower, content_length}
use weightless_core.Http.Driver.{
  Env, exit, sends, yields, M, pure, raise, ◌>>=◌, ◌>>◌, asks, perform, set_headers,
}

-- `str(n)`, one unit of fuel for each digit.
unfoldable pub decimal_from : ℕ → ℕ → Bytes → Bytes
decimal_from zero n digits = digits
decimal_from (suc fuel) n digits =
    let more = decimal_from fuel (n / 10) ((n % 10 + b'0') ∷ digits) in
    if ltb n 10 then (n + b'0') ∷ digits else more

unfoldable pub decimal : ℕ → Bytes
unfolding decimal_from
decimal n = decimal_from (suc n) n []

-- b' HTTP/1.1\r\n'
abbrev http_1_1 : Bytes
http_1_1 = 32 ∷ 72 ∷ 84 ∷ 84 ∷ 80 ∷ 47 ∷ 49 ∷ 46 ∷ 49 ∷ 13 ∷ 10 ∷ []

abbrev or_slash : Bytes → Bytes
or_slash [] = 47 ∷ []
or_slash (c ∷ request) = c ∷ request

-- `_requestLine`
unfoldable pub request_line : Bytes → Bytes → Bytes
request_line method request = method ++ 32 ∷ (or_slash request ++ http_1_1)

-- 'Host' and 'host'
abbrev host_key : Bytes
host_key = 72 ∷ 111 ∷ 115 ∷ 116 ∷ []

abbrev lower_host : Bytes
lower_host = 104 ∷ 111 ∷ 115 ∷ 116 ∷ []

unfoldable pub has_host : List (Bytes × Bytes) → Bool
unfolding lower
has_host [] = false
has_host ((k, v) ∷ hs) = same_bytes (lower k) lower_host || has_host hs

unfoldable pub with_host : Bytes → List (Bytes × Bytes) → List (Bytes × Bytes)
unfolding has_host
with_host host hs = if has_host hs then hs else put host_key host hs

unfoldable pub header_lines : List (Bytes × Bytes) → Bytes
header_lines [] = []
header_lines ((k, v) ∷ hs) = k ++ 58 ∷ 32 ∷ (v ++ crlf) ++ header_lines hs

-- A `Content-Length` only with a body.
unfoldable pub with_length : Bytes → List (Bytes × Bytes) → List (Bytes × Bytes)
unfolding decimal
with_length [] hs = hs
with_length (b ∷ body) hs = put content_length (decimal (length (b ∷ body))) hs

module _ (env : Env) where
  -- `_asyncSend`, resumed as often as the first argument says.
  unfoldable pub async_send : ℕ → ℕ → Bytes → M (Unit {0})
  unfolding perform
  async_send n s [] = pure tt
  async_send zero s (b ∷ text) = raise exit
  async_send (suc n) s (b ∷ text) =
      perform env (sends s (b ∷ text))
      >> (asks (λ w. env.size_sent w.log) >>= λ size.
          perform env yields >> async_send n s (drop size (b ∷ text)))

  -- `_sendHttpHeaders`
  unfoldable pub send_http_headers : ℕ → Bytes → Bytes → Bytes → M (Unit {0})
  unfolding async_send request_line with_host header_lines
  send_http_headers s method request host = asks (λ w. with_host host w.headers) >>= λ hs.
      set_headers hs
      >> async_send env.patience s (request_line method request ++ (header_lines hs ++ crlf))

  -- The request: what is sent between `addWriter` and `removeWriter`.
  unfoldable pub send_request : ℕ → Bytes → Bytes → Bytes → Bytes → M (Unit {0})
  unfolding send_http_headers with_length
  send_request s method request host body = asks (λ w. with_length body w.headers) >>= λ hs.
      set_headers hs >> send_http_headers s method request host >> async_send env.patience s body
