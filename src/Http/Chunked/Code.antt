-- ===== src/Http/Chunked/Code.antt =====
-- weightless/http/_httprequest1_1.py: the generator functions `_deChunk`, `_oneChunk` and `_trailers`
-- as generators for the loop of Compose.Machine, which `@compose` runs them in. A generator object is
-- the place where its body stands, with its local variables.
use weightless_core.Base.{
  ℕ, ◌+◌, Bool, true, false, Option, none, some, List, [], ◌∷◌, ◌++◌, ltb, ◌==◌, if◌then◌else◌,
  length, take, drop,
}
use weightless_core.Compose.Machine.{
  Generators, Outcome, yielded, returned, raised, generator, value, nothing, single, tuple, Builtin,
}
use weightless_core.Http.Regexp.{Bytes, Field, chunk_header, trailers, int16}

-- What travels between the generators: bytes, and the list that `_trailers` returns.
pub data Value : Type 0 where
  bytes : Bytes → Value
  trailers_rest : List Field → Bytes → Value

pub data Exception : Type 0 where
  value_error type_error generator_exit : Exception
  builtin : Builtin → Exception

-- `_oneChunk` before its start, at its first yield and at its second; `_trailers`; and `_deChunk`
-- at the yield of `_oneChunk()`, of a chunk and of `_trailers()`.
pub data Code : Type 0 where
  one_start : Code
  one_header : Bytes → Code
  one_body : ℕ → Bytes → Code
  trailers_start : Code
  trailers_wait : Bytes → Code
  de_start de_one de_sent de_trailers : Code

abbrev pub Result : Type 0
Result = Outcome Code Value Exception

-- `while (len(data) - _CRLF_LEN) < size`, and the return of the chunk and the data behind it.
unfoldable pub one_body_step : ℕ → Bytes → Result
one_body_step size buffer =
    if ltb (length buffer) (size + 2)
    then yielded (one_body size buffer) (value none)
    else returned
        (tuple (some (bytes (take size buffer)) ∷ some (bytes (drop (size + 2) buffer)) ∷ []))

-- The size is known, and `buffer` is what follows its line.
unfoldable pub one_size_step : ℕ → Bytes → Result
unfolding one_body_step
one_size_step size buffer =
    if size == 0
    then returned (tuple (none ∷ some (bytes buffer) ∷ []))
    else one_body_step size buffer

-- The first loop of `_oneChunk`, after `data += _in`.
unfoldable pub one_header_step : Bytes → Result
unfolding one_size_step
one_header_step buffer = elim (chunk_header buffer) [
  | none ↦ yielded (one_header buffer) (value none)
  | some (digits, rest) ↦ one_size_step (int16 digits) rest
]

-- The loop of `_trailers`, after `data += _in`.
unfoldable pub trailers_step : Bytes → Result
trailers_step buffer = elim (trailers buffer) [
  | none ↦ yielded (trailers_wait buffer) (value none)
  | some (fields, rest) ↦ returned (single (trailers_rest fields rest))
]

-- `_deChunk`, when `_oneChunk()` has given it a chunk or `None`.
unfoldable pub de_chunk_step : Option Value → Result
de_chunk_step none = yielded de_trailers (generator trailers_start)
de_chunk_step (some (bytes [])) = yielded de_trailers (generator trailers_start)
de_chunk_step (some (bytes (b ∷ bs))) = yielded de_sent (value (some (bytes (b ∷ bs))))
de_chunk_step (some (trailers_rest fields rest)) =
    yielded de_sent (value (some (trailers_rest fields rest)))

-- `trailersStr, rest = …` and `if rest: raise ValueError(…)`; two bytes unpack into two numbers.
unfoldable pub de_end_step : Option Value → Result
de_end_step (some (trailers_rest fields [])) = returned nothing
de_end_step (some (trailers_rest fields (b ∷ bs))) = raised value_error
de_end_step none = raised type_error
de_end_step (some (bytes (a ∷ b ∷ []))) = if b == 0 then returned nothing else raised value_error
de_end_step (some (bytes b)) = raised value_error

-- `send`: what the body does with the message, up to its next yield.
unfoldable pub send : Code → Option Value → Result
unfolding one_header_step one_body_step trailers_step de_chunk_step de_end_step
send one_start none = yielded (one_header []) (value none)
send (one_header buffer) (some (bytes b)) = one_header_step (buffer ++ b)
send (one_body size buffer) (some (bytes b)) = one_body_step size (buffer ++ b)
send trailers_start none = yielded (trailers_wait []) (value none)
send (trailers_wait buffer) (some (bytes b)) = trailers_step (buffer ++ b)
send de_start none = yielded de_one (generator one_start)
send de_one m = de_chunk_step m
send de_sent m = yielded de_one (generator one_start)
send de_trailers m = de_end_step m
send g m = raised type_error

abbrev pub at_first_line : Code → Bool
at_first_line one_start = true
at_first_line trailers_start = true
at_first_line de_start = true
at_first_line g = false

abbrev pub is_exit : Exception → Bool
is_exit generator_exit = true
is_exit e = false

-- The bodies have no handlers: what is thrown in comes out, and `close` has nothing to object.
abbrev pub code : Generators
code = record {
  G = Code;
  V = Value;
  E = Exception;
  send = send;
  throw = λ g e. raised e;
  close = λ g. none;
  has_frame = λ g. true;
  at_first_line = at_first_line;
  is_exit = is_exit;
  builtin = builtin;
}
