-- ===== src/Http/Reader.antt =====
-- weightless/http/_httpreader.py: `HttpReader`, which sends a request and hands the parts of the response
-- to a handler. The calls of the socket, the reactor and the handler are a list of actions; they raise
-- nothing. The data of a request's handler is the list of what it gives before `None`.
pub mod Chunks
use weightless_core.Base.{
  ℕ, ◌+◌, ◌-◌, Bool, true, false, Option, none, some, List, [], ◌∷◌, ◌++◌, ltb, leb, ◌==◌,
  if◌then◌else◌, length, take, drop,
}
use weightless_core.Base.Dict.{get, put}
use weightless_core.Http.Regexp.{Bytes, crlf, chunk_size_line, int16}
use weightless_core.Http.Headers.{Headers, HeaderValue, one_value, values, same_bytes, bytes_eq}
use weightless_core.Http.Names.{transfer_encoding, chunked, post}
use weightless_core.Http.Strategy.{StatusLine, match_response}
use weightless_core.Http.Chunked.Encode.{create_chunk}

pub data Action : Type 0 where
  sends_all : Bytes → Action
  add_writer remove_writer add_header_reader add_body_reader remove_reader : Action
  add_timer remove_timer shuts closes : Action
  hears_response : StatusLine → Headers → Action
  hears : Bytes → Action
  hears_time_out handler_closes : Action

-- `timer` says that `_timer` is set.
pub record Reader : Type 0 where
  pub response_buffer : Bytes
  pub buffer : Bytes
  pub chunked_body : Bool
  pub timer : Bool
  pub actions : List Action

unfoldable pub act : Action → Reader → Reader
act a r = record r { actions = r.actions ++ a ∷ [] }

-- `_startTimer`
unfoldable pub start_timer : Reader → Reader
unfolding act
start_timer r = act add_timer (record r { timer = true })

-- `_stopTimer`
unfoldable pub stop_timer : Reader → Reader
unfolding act
stop_timer r = if r.timer then act remove_timer (record r { timer = false }) else r

-- `__init__`
unfoldable pub http_reader : Reader
http_reader = record {
  response_buffer = [];
  buffer = [];
  chunked_body = false;
  timer = true;
  actions = add_writer ∷ add_timer ∷ [];
}

-- `_stop`
unfoldable pub stop : Reader → Reader
unfolding act
stop r = act handler_closes (act closes (act remove_reader r))

-- A chunk, from the data behind its size line, if it is there; the line feed is not waited for.
unfoldable pub hand_out : ℕ → Bytes → Reader → Reader
unfolding act stop
hand_out size rest r =
    if size == 0
    then stop r
    else if leb size (length rest)
    then act (hears (take size rest)) (record r { buffer = drop (size + 2) rest })
    else r

unfoldable pub send_chunk : Option (Bytes × Bytes) → Reader → Reader
unfolding hand_out
send_chunk none r = r
send_chunk (some (digits, rest)) r = hand_out (int16 digits) rest r

-- `_sendFragment`
unfoldable pub send_fragment : Bytes → Reader → Reader
unfolding send_chunk act chunk_size_line
send_fragment fragment r =
    let more = r.buffer ++ fragment in
    if r.chunked_body
    then send_chunk (chunk_size_line more) (record r { buffer = more })
    else act (hears fragment) r

unfoldable pub send_rest : Bytes → Reader → Reader
unfolding send_fragment
send_rest [] r = r
send_rest (b ∷ rest) r = send_fragment (b ∷ rest) r

unfoldable pub is_chunked : Option HeaderValue → Bool
is_chunked none = false
is_chunked (some (values vs)) = false
is_chunked (some (one_value v)) = same_bytes v chunked

unfoldable pub with_response : Option (StatusLine × Headers × Bytes) → Reader → Reader
unfolding start_timer stop_timer send_rest is_chunked act
with_response none r = if r.timer then r else start_timer r
with_response (some (line, fields, rest)) r =
    let stopped = stop_timer r in
    let heard =
      act (hears_response line fields)
        (record stopped { chunked_body = is_chunked (get transfer_encoding fields) }) in
    start_timer (act add_body_reader (act remove_reader (send_rest rest heard)))

-- `_headerFragment`, with what `recv` gives.
unfoldable pub header_fragment : Bytes → Reader → Reader
unfolding with_response match_response
header_fragment received r =
    let more = r.response_buffer ++ received in
    with_response (match_response more) (record r { response_buffer = more })

-- `_bodyFragment`
unfoldable pub body_fragment : Bytes → Reader → Reader
unfolding start_timer stop_timer stop send_fragment
body_fragment [] r = stop (stop_timer r)
body_fragment (b ∷ fragment) r = start_timer (send_fragment (b ∷ fragment) (stop_timer r))

-- The calls of the reactor, one for each fragment.
unfoldable pub body_fragments : List Bytes → Reader → Reader
unfolding body_fragment
body_fragments [] r = r
body_fragments (fragment ∷ fragments) r = body_fragments fragments (body_fragment fragment r)

-- `_timeOut`
unfoldable pub time_out : Reader → Reader
unfolding act
time_out r = act closes (act shuts (act remove_reader (act hears_time_out r)))

-- The request has been sent.
unfoldable pub await_header : Reader → Reader
unfolding act
await_header r = act add_header_reader (act remove_writer r)

-- b' HTTP/1.1\r\n', b'Host: ' and b': '
abbrev http_1_1 : Bytes
http_1_1 = 32 ∷ 72 ∷ 84 ∷ 84 ∷ 80 ∷ 47 ∷ 49 ∷ 46 ∷ 49 ∷ 13 ∷ 10 ∷ []

abbrev host_colon : Bytes
host_colon = 72 ∷ 111 ∷ 115 ∷ 116 ∷ 58 ∷ 32 ∷ []

-- `FORMAT.RequestLine` and `FORMAT.HostHeader`
unfoldable pub request_head : Bytes → Bytes → Bytes → Bytes
request_head method path host = method ++ 32 ∷ (path ++ http_1_1) ++ host_colon ++ host ++ crlf

-- `FORMAT.Header`
unfoldable pub format_headers : List (Bytes × Bytes) → Bytes
format_headers [] = []
format_headers ((k, v) ∷ hs) = k ++ 58 ∷ 32 ∷ (v ++ crlf) ++ format_headers hs

-- `_sendGetRequest`; `FORMAT.UserAgentHeader`, which has the version, is an argument.
unfoldable pub send_get_request : Bytes → Bytes → Bytes → Reader → Reader
unfolding act await_header request_head
send_get_request user_agent path host r =
    await_header
      (act (sends_all (request_head (71 ∷ 69 ∷ 84 ∷ []) path host ++ user_agent ++ crlf)) r)

-- `_sendChunk`, of each text that the handler gives, and of the empty one.
unfoldable pub send_chunks : List Bytes → Reader → Reader
unfolding act create_chunk
send_chunks [] r = act (sends_all (create_chunk [])) r
send_chunks (text ∷ texts) r = send_chunks texts (act (sends_all (create_chunk text)) r)

-- `_sendPostRequest`
unfoldable pub send_post_request :
    Bytes → Bytes → Bytes → List (Bytes × Bytes) → List Bytes → Reader → Reader
unfolding act await_header send_chunks request_head format_headers
send_post_request user_agent path host hs texts r =
    let head =
      request_head post path host
      ++ format_headers (put transfer_encoding chunked hs)
      ++ user_agent
      ++ crlf in
    await_header (send_chunks texts (act (sends_all head) r))
