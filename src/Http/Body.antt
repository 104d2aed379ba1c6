-- ===== src/Http/Body.antt =====
-- weightless/http/_httprequest1_1.py: how the client reads the body of a response. A reader is a
-- generator of pieces; `_bodyMaxSize` collects them. The socket is the list of what its `recv` gives.
pub mod Sized
pub mod ContentLength
pub mod Chunks
use weightless_core.Base.{
  ℕ, zero, suc, ◌+◌, ◌-◌, Bool, true, false, Option, none, some, List, [], ◌∷◌, ◌++◌, ltb, leb,
  ◌==◌, if◌then◌else◌, length, take,
}
use weightless_core.Http.Regexp.{Bytes}
use weightless_core.Http.Chunked.Decoder.{
  Decoder, in_header, Report, wants, hands_out, ends, excess, receive, drain, End, more, over,
  broken,
}

-- `sok.recv`: bytes (none of them when the peer has closed), or an `SSLError`.
pub data Recv : Type 0 where
  received : Bytes → Recv
  want_read ssl_error : Recv

-- What the socket gives up to its end: no data, a closed connection or an error.
unfoldable pub arrived : List Recv → Bytes
arrived [] = []
arrived (received [] ∷ sok) = []
arrived (received (b ∷ text) ∷ sok) = (b ∷ text) ++ arrived sok
arrived (want_read ∷ sok) = arrived sok
arrived (ssl_error ∷ sok) = []

pub data AsyncRead : Type 0 where
  response : Bytes → List Recv → AsyncRead
  closed : List Recv → AsyncRead
  read_error : AsyncRead
  pending : AsyncRead

-- `_asyncRead`: `SSL_ERROR_WANT_READ` is tried again, an empty read means `_CLOSED`.
unfoldable pub async_read : List Recv → AsyncRead
async_read [] = pending
async_read (received [] ∷ sok) = closed sok
async_read (received (b ∷ bs) ∷ sok) = response (b ∷ bs) sok
async_read (want_read ∷ sok) = async_read sok
async_read (ssl_error ∷ sok) = read_error

-- What a reader yields, up to its end, its exception or the wait for more data.
pub data Pieces : Type 0 where
  piece : Bytes → Pieces → Pieces
  finished : Pieces
  value_error : Pieces
  error : Pieces
  waiting : Pieces

abbrev pub piece_if_any : Bytes → Pieces → Pieces
piece_if_any [] ps = ps
piece_if_any (b ∷ bs) ps = piece (b ∷ bs) ps

-- `_readCloseDelimitedBody`: all that comes until the peer closes.
unfoldable pub until_closed : List Recv → Pieces
until_closed [] = waiting
until_closed (received [] ∷ sok) = finished
until_closed (received (b ∷ bs) ∷ sok) = piece (b ∷ bs) (until_closed sok)
until_closed (want_read ∷ sok) = until_closed sok
until_closed (ssl_error ∷ sok) = error

unfoldable pub read_close_delimited_body : List Recv → Bytes → Pieces
unfolding until_closed
read_close_delimited_body sok rest = piece_if_any rest (until_closed sok)

-- The loop of `_readContentLengthDelimitedBody`, with `bytesToRead` left.
unfoldable pub read_bytes : ℕ → List Recv → Pieces
read_bytes zero sok = finished
read_bytes (suc n) [] = waiting
read_bytes (suc n) (received [] ∷ sok) = value_error
read_bytes (suc n) (received (b ∷ bs) ∷ sok) =
    let rest = read_bytes (suc n - length (b ∷ bs)) sok in
    if ltb (suc n) (length (b ∷ bs)) then value_error else piece (b ∷ bs) rest
read_bytes (suc n) (want_read ∷ sok) = read_bytes (suc n) sok
read_bytes (suc n) (ssl_error ∷ sok) = error

unfoldable pub read_content_length_body : ℕ → List Recv → Bytes → Pieces
unfolding read_bytes
read_content_length_body content_length sok rest =
    if ltb content_length (length rest)
    then value_error
    else piece_if_any rest (read_bytes (content_length - length rest) sok)

-- `_readChunkedDelimitedBody`: the chunks that a report brings, and what follows them.
unfoldable pub pieces_then : List Bytes → Pieces → Pieces
pieces_then [] ps = ps
pieces_then (chunk ∷ chunks) ps = piece chunk (pieces_then chunks ps)

-- The data that a report still holds bounds the number of its chunks.
unfoldable pub held : Report → ℕ
held (wants d) = 0
held (hands_out chunk rest) = suc (length rest)
held ends = 0
held excess = 0

unfoldable pub drained : (Decoder → Pieces) → Option (List Bytes × End) → Pieces
unfolding pieces_then
drained next none = waiting
drained next (some (chunks, more d)) = pieces_then chunks (next d)
drained next (some (chunks, over)) = pieces_then chunks finished
drained next (some (chunks, broken)) = pieces_then chunks value_error

unfoldable pub reported : (Decoder → Pieces) → Report → Pieces
unfolding drained held
reported next r = drained next (drain (held r) r)

unfoldable pub read_chunks : List Recv → Decoder → Pieces
unfolding reported
read_chunks [] d = waiting
read_chunks (received [] ∷ sok) d = value_error
read_chunks (received (b ∷ bs) ∷ sok) d = reported (read_chunks sok) (receive d (b ∷ bs))
read_chunks (want_read ∷ sok) d = read_chunks sok d
read_chunks (ssl_error ∷ sok) d = error

unfoldable pub read_chunked_body : List Recv → Bytes → Pieces
unfolding read_chunks
read_chunked_body sok [] = read_chunks sok (in_header [])
read_chunked_body sok (b ∷ bs) = reported (read_chunks sok) (receive (in_header []) (b ∷ bs))

pub data Body : Type 0 where
  complete : Bytes → Body
  body_value_error : Body
  body_error : Body
  body_pending : Body

-- `responses[:bodyMaxSize]`, where `None` is no limit.
unfoldable pub limited : Option ℕ → Bytes → Bytes
limited none responses = responses
limited (some n) responses = take n responses

unfoldable pub reached : Option ℕ → Bytes → Bool
reached none responses = false
reached (some n) responses = leb n (length responses)

-- `_maxSized` of `_bodyMaxSize`: collect the pieces, and stop once the limit is reached.
unfoldable pub max_sized : Option ℕ → Bytes → Pieces → Body
unfolding limited reached
max_sized max responses (piece b ps) =
    let rest = max_sized max (responses ++ b) ps in
    if reached max (responses ++ b) then complete (limited max (responses ++ b)) else rest
max_sized max responses finished = complete (limited max responses)
max_sized max responses value_error = body_value_error
max_sized max responses error = body_error
max_sized max responses waiting = body_pending
