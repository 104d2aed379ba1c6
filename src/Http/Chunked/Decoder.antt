-- ===== src/Http/Chunked/Decoder.antt =====
-- The chunked transfer decoding as a machine with no generators: what `g.send(…)` on the generator of
-- `_deChunk` gives, from the place where the decoding stands.
use weightless_core.Base.{
  ℕ, zero, suc, ◌+◌, Option, none, some, List, [], ◌∷◌, ◌++◌, ltb, ◌==◌, if◌then◌else◌, length,
  take, drop,
}
use weightless_core.Http.Regexp.{Bytes, chunk_header, trailers, int16}

-- In the line with the size, in the chunk, behind a chunk that was handed out, in the trailers.
pub data Decoder : Type 0 where
  in_header : Bytes → Decoder
  in_body : ℕ → Bytes → Decoder
  handed_out : Bytes → Decoder
  in_trailers : Bytes → Decoder

-- More data is wanted, a chunk is handed out with some data left behind it, the message is over, or
-- there is data behind its end.
pub data Report : Type 0 where
  wants : Decoder → Report
  hands_out : Bytes → Bytes → Report
  ends : Report
  excess : Report

unfoldable pub read_trailers : Bytes → Report
read_trailers buffer = elim (trailers buffer) [
  | none ↦ wants (in_trailers buffer)
  | some (fields, rest) ↦ elim rest [ [] ↦ ends | b ∷ bs ↦ excess ]
]

unfoldable pub read_body : ℕ → Bytes → Report
read_body size buffer =
    if ltb (length buffer) (size + 2)
    then wants (in_body size buffer)
    else hands_out (take size buffer) (drop (size + 2) buffer)

unfoldable pub read_header : Bytes → Report
unfolding read_body read_trailers
read_header buffer = elim (chunk_header buffer) [
  | none ↦ wants (in_header buffer)
  | some (digits, rest) ↦
      if int16 digits == 0 then read_trailers rest else read_body (int16 digits) rest
]

-- A piece of data arrives. Behind a chunk there is none yet: the caller sends `None`, and the
-- decoding goes on with the data that it has.
unfoldable pub receive : Decoder → Bytes → Report
unfolding read_header read_body read_trailers
receive (in_header buffer) b = read_header (buffer ++ b)
receive (in_body size buffer) b = read_body size (buffer ++ b)
receive (handed_out buffer) b = read_header buffer
receive (in_trailers buffer) b = read_trailers (buffer ++ b)

-- The reports on all chunks that the data holds, as the loop of `_readChunkedDelimitedBody` collects
-- them: after each chunk it sends `None`. One unit of fuel for each chunk.
pub data End : Type 0 where
  more : Decoder → End
  over broken : End

abbrev and_chunk : Bytes → Option (List Bytes × End) → Option (List Bytes × End)
and_chunk chunk none = none
and_chunk chunk (some (chunks, end)) = some (chunk ∷ chunks, end)

unfoldable pub drain : ℕ → Report → Option (List Bytes × End)
drain fuel (wants d) = some ([], more d)
drain fuel ends = some ([], over)
drain fuel excess = some ([], broken)
drain zero (hands_out chunk rest) = none
drain (suc fuel) (hands_out chunk rest) = and_chunk chunk (drain fuel (read_header rest))
