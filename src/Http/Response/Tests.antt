-- ===== src/Http/Response/Tests.antt =====
-- A small response of weightless/http/_httpserver.py, to a socket that takes two bytes at a time.
use weightless_core.Base.{
  ℕ, suc, false, ◌≡◌, refl, Option, some, List, [], ◌∷◌, is_empty, if◌then◌else◌,
}
use weightless_core.Http.Response.{
  Output, data_output, yield_output, closed, message_500, write_all, write_response,
}
use weightless_core.Http.Response.Compress.{Compression, write_compressed}
use weightless_core.Http.Response.Compress
use weightless_core.Http.Response.Stream.{encoded, write_compressed-stream}
use weightless_core.Http.Response.Sent.{response, write_response-sent}

abbrev outputs : List Output
outputs = data_output (97 ∷ 98 ∷ 99 ∷ []) ∷ yield_output ∷ data_output (100 ∷ []) ∷ []

abbrev rooms : List (Option ℕ)
rooms = some 2 ∷ some 2 ∷ some 2 ∷ some 2 ∷ some 2 ∷ []

outputs_closed : (write_all rooms (write_response outputs)).mode ≡ closed
unfolding write_all write_response
outputs_closed = refl

write_response-sent_example :
    (write_all rooms (write_response outputs)).sent
    ≡ (if is_empty (response outputs) then message_500 else response outputs)
write_response-sent_example = write_response-sent outputs rooms outputs_closed

-- An object that compresses nothing, and ends with a byte.
abbrev counting : Compression
counting = record { E = ℕ; compress = λ n text. (text, suc n); flush = λ n. 33 ∷ [] }

-- b'HTTP/1.1 200 OK\r\nContent-Length: 1\r\n\r\nx', in two parts.
abbrev two_outputs : List Output
two_outputs =
    data_output
      (72 ∷ 84 ∷ 84 ∷ 80 ∷ 47 ∷ 49 ∷ 46 ∷ 49 ∷ 32 ∷ 50 ∷ 48 ∷ 48 ∷ 32 ∷ 79 ∷ 75 ∷ 13 ∷ 10 ∷ [])
    ∷ data_output (
        67 ∷ 111 ∷ 110 ∷ 116 ∷ 101 ∷ 110 ∷ 116 ∷ 45 ∷ 76 ∷ 101 ∷ 110 ∷ 103 ∷ 116 ∷ 104 ∷ 58 ∷ 32
        ∷ 49 ∷ 13 ∷ 10 ∷ 13 ∷ 10 ∷ 120 ∷ [])
    ∷ []

abbrev large_rooms : List (Option ℕ)
large_rooms = some 30 ∷ some 30 ∷ some 30 ∷ some 30 ∷ some 30 ∷ some 30 ∷ some 30 ∷ []

-- The encoding has the name "z".
compressed_closed :
    (Compress.write_all counting
      (122 ∷ [])
      large_rooms
      (write_compressed counting (122 ∷ []) 0 two_outputs false)).stage
    ≡ Compress.closed
unfolding Compress.write_all write_compressed
compressed_closed = refl

write_compressed-stream_example :
    (Compress.write_all counting
      (122 ∷ [])
      large_rooms
      (write_compressed counting (122 ∷ []) 0 two_outputs false)).sent
    ≡ (if is_empty (encoded counting (122 ∷ []) 0 two_outputs false)
        then message_500
        else encoded counting (122 ∷ []) 0 two_outputs false)
write_compressed-stream_example =
    write_compressed-stream counting (122 ∷ []) 0 two_outputs false large_rooms compressed_closed
