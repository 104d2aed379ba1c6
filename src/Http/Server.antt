-- ===== src/Http/Server.antt =====
-- weightless/http/_httpserver.py: how `HttpHandler` reads a request. What it does to the socket and to
-- the reactor is a list of actions; zlib is the parameter `Codec`, for data that zlib accepts. A form
-- (`_readMultiForm`) is where the model stops: the standard library takes it apart. Left out is also
-- the writing of the response.
pub mod Chunks
pub mod Total
pub mod RoundTrip
pub mod Accept
pub mod Best
pub mod Tests
use weightless_core.Base.{
  ℕ, zero, suc, ◌+◌, ◌*◌, Bool, true, false, not, ◌||◌, ◌&&◌, Option, none, some, List, [], ◌∷◌,
  ◌++◌, ltb, leb, ◌==◌, ◌-◌, if◌then◌else◌, length, take, drop, is_some,
}
use weightless_core.Base.Dict.{get}
use weightless_core.Http.Regexp.{Bytes, Field, chunk_size_line, int16}
use weightless_core.Http.Headers.{
  Headers, HeaderValue, one_value, values, RequestLine, same_bytes, bytes_eq, strip, match_request,
  parse_headers,
}
use weightless_core.Http.Names.{
  content_type, content_encoding, content_length, transfer_encoding, expect, multipart_form_data,
  chunked, post, put_method, before, has_byte, lower, starts_with, int10_from, int10,
}

-- `SUPPORTED_COMPRESSION_CONTENT_ENCODINGS`, and the objects that it makes.
pub record Codec : Type 1 where
  pub D : Type 0
  pub decoder : Bytes → Option D
  pub decompress : D → Bytes → Bytes × D
  pub flush : D → Bytes

pub record Request : Type 0 where
  pub line : RequestLine
  pub fields : Headers
  pub body : Bytes

-- The method in `_dealWithCall`.
pub data Dealer : Type 0 where
  read_headers read_body read_chunk read_chunk_body read_multi_form : Dealer

-- What a call ends with, apart from more data.
pub data Action : Type 0 where
  continue_100 : Action
  reset_timer : Action
  finalize : Request → Action
  error_503 : Request → Action
  bad_request : Action

pub record Handler (D : Type 0) : Type 0 where
  pub data_buffer : Bytes
  pub request : Option Request
  pub dealer : Dealer
  pub chunk_size : ℕ
  pub decode : Option D
  pub actions : List Action

-- `setCallDealer` calls the next method at once; else the call ends, or raises.
pub data Deal (D : Type 0) : Type 0 where
  goes_on : Handler D → Deal D
  waits : Handler D → Deal D
  ends : Handler D → Deal D
  raises : Handler D → Deal D

module _ (codec : Codec) (max_connections : ℕ) where
  open codec use {D, decoder, decompress, flush}

  unfoldable pub act : Action → Handler D → Handler D
  act a h = record h { actions = h.actions ++ a ∷ [] }

  unfoldable pub with_body : Bytes → Request → Request
  with_body body request = record request { body = request.body ++ body }

  -- `self.finalize()`
  unfoldable pub finalized : Request → Handler D → Deal D
  unfolding act
  finalized request h = ends (act (finalize request) (record h { request = some request }))

  -- `_readHeaders`, behind the check for a form; `open_connections` is the reactor's count.
  unfoldable pub after_expect : ℕ → Request → Handler D → Deal D
  unfolding finalized
  after_expect open_connections request h =
      if ltb max_connections open_connections
      then ends (act (error_503 request) h)
      else if same_bytes request.line.method post || same_bytes request.line.method put_method
      then goes_on (record h { dealer = read_body })
      else finalized request h

  unfoldable pub after_form : ℕ → Request → Handler D → Deal D
  unfolding after_expect
  after_form open_connections request h =
      after_expect open_connections request
        (if is_some (get expect request.fields) then act continue_100 h else h)

  unfoldable pub check_form : ℕ → Request → Option HeaderValue → Handler D → Deal D
  unfolding after_form before starts_with
  check_form open_connections request none h = after_form open_connections request h
  check_form open_connections request (some (values vs)) h = raises h
  check_form open_connections request (some (one_value v)) h =
      if starts_with multipart_form_data (before b';' v)
      then goes_on (record h { dealer = read_multi_form })
      else after_form open_connections request h

  unfoldable pub with_request : ℕ → Option (RequestLine × List Field × Bytes) → Handler D → Deal D
  unfolding check_form
  with_request open_connections none h = waits h
  with_request open_connections (some (line, fields, rest)) h =
      let request : Request = record { line = line; fields = parse_headers fields; body = [] } in
      check_form open_connections request (get content_type request.fields)
        (record h { request = some request; data_buffer = rest })

  unfoldable pub do_read_headers : ℕ → Handler D → Deal D
  unfolding with_request match_request
  do_read_headers open_connections h = with_request open_connections (match_request h.data_buffer) h

  -- `_readBody` by its length. All data of the buffer is the body.
  unfoldable pub whole_body : Request → Option D → Handler D → Deal D
  unfolding finalized
  whole_body request none h = finalized (record request { body = h.data_buffer }) h
  whole_body request (some d) h =
      let (text, d') = decompress d h.data_buffer in
      finalized (record request { body = text ++ flush d' }) (record h { decode = some d' })

  unfoldable pub by_length : Request → Option HeaderValue → Handler D → Deal D
  unfolding whole_body int10
  by_length request none h = finalized request h
  by_length request (some (values vs)) h = raises h
  by_length request (some (one_value v)) h = elim (int10 v) [
    | none ↦ raises h
    | some n ↦ if ltb (length h.data_buffer) n then waits h else whole_body request h.decode h
  ]

  abbrev is_chunked : Option HeaderValue → Bool
  is_chunked (some (one_value v)) = same_bytes v chunked
  is_chunked _ = false

  unfoldable pub after_encoding : Request → Handler D → Deal D
  unfolding by_length
  after_encoding request h =
      if is_chunked (get transfer_encoding request.fields)
      then goes_on (record h { dealer = read_chunk })
      else by_length request (get content_length request.fields) h

  unfoldable pub refuse : Handler D → Deal D
  unfolding act
  refuse h = ends (act bad_request h)

  -- `Content-Encoding`, the first time.
  unfoldable pub check_encoding : Request → Option D → Option HeaderValue → Handler D → Deal D
  unfolding after_encoding refuse lower
  check_encoding request (some d) value h = after_encoding request h
  check_encoding request none none h = after_encoding request h
  check_encoding request none (some (values vs)) h = raises h
  check_encoding request none (some (one_value v)) h =
      if has_byte b',' v then refuse h else elim (decoder (lower (strip v))) [
        | none ↦ refuse h
        | some d ↦ after_encoding request (record h { decode = some d })
      ]

  unfoldable pub do_read_body : Request → Handler D → Deal D
  unfolding check_encoding
  do_read_body request h = check_encoding request h.decode (get content_encoding request.fields) h

  unfoldable pub do_read_chunk : Handler D → Deal D
  unfolding chunk_size_line
  do_read_chunk h = elim (chunk_size_line h.data_buffer) [
    | none ↦ waits h
    | some (digits, rest) ↦
        goes_on
          (record h { chunk_size = int16 digits; data_buffer = rest; dealer = read_chunk_body })
  ]

  -- A chunk that is there.
  unfoldable pub add_chunk : Request → Option D → Bytes → Handler D → Deal D
  unfolding with_body
  add_chunk request none chunk h =
      goes_on (record h { request = some (with_body chunk request); dealer = read_chunk })
  add_chunk request (some d) chunk h =
      let (text, d') = decompress d chunk in
      goes_on (record h {
        request = some (with_body text request);
        decode = some d';
        dealer = read_chunk;
      })

  unfoldable pub last_chunk : Request → Option D → Handler D → Deal D
  unfolding with_body finalized
  last_chunk request none h = finalized request h
  last_chunk request (some d) h = finalized (with_body (flush d) request) h

  unfoldable pub do_read_chunk_body : Request → Handler D → Deal D
  unfolding add_chunk last_chunk
  do_read_chunk_body request h =
      if h.chunk_size == 0
      then last_chunk request h.decode h
      else if ltb (length h.data_buffer) (h.chunk_size + 2)
      then waits h
      else add_chunk request h.decode (take h.chunk_size h.data_buffer)
          (record h { data_buffer = drop (h.chunk_size + 2) h.data_buffer })

  -- `self._dealWithCall()`
  unfoldable pub deal_with : ℕ → Dealer → Option Request → Handler D → Deal D
  unfolding do_read_headers do_read_body do_read_chunk do_read_chunk_body
  deal_with open_connections read_headers request h = do_read_headers open_connections h
  deal_with open_connections read_body (some request) h = do_read_body request h
  deal_with open_connections read_chunk (some request) h = do_read_chunk h
  deal_with open_connections read_chunk_body (some request) h = do_read_chunk_body request h
  deal_with open_connections read_multi_form (some request) h = waits h
  deal_with open_connections dealer none h = raises h

  unfoldable pub deal_more : (Handler D → Option (Deal D)) → Deal D → Option (Deal D)
  deal_more loop (goes_on h) = loop h
  deal_more loop d = some d

  -- One unit of fuel for each method; none when it runs out.
  unfoldable pub deal : ℕ → ℕ → Handler D → Option (Deal D)
  unfolding deal_with deal_more
  deal zero open_connections h = none
  deal (suc fuel) open_connections h =
      deal_more (deal fuel open_connections) (deal_with open_connections h.dealer h.request h)

  -- `__call__`, with what `recv` gives.
  unfoldable pub receive_part : ℕ → ℕ → Bytes → Handler D → Option (Deal D)
  unfolding deal refuse act
  receive_part fuel open_connections [] h = some (refuse h)
  receive_part fuel open_connections (b ∷ part) h =
      deal fuel open_connections
        (act reset_timer (record h { data_buffer = h.data_buffer ++ b ∷ part }))
