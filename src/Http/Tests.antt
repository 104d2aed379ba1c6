-- ===== src/Http/Tests.antt =====
-- Runs of the readers of weightless/http/_httprequest1_1.py and _httpreader.py on small responses.
use weightless_core.Base.{
  ℕ, ==_iff, ◌==◌, ◌≡◌, refl, true, false, none, some, List, [], ◌∷◌, ◌++◌, length, take, ◌≤◌,
  arith,
}
use weightless_core.Compose.Machine.{run}
use weightless_core.Http.Regexp.{Bytes, chunk_header, int16_from, trailers}
use weightless_core.Http.Chunked.Code.{code}
use weightless_core.Http.Chunked.Decoder.{in_header, in_body, more, over, receive, drain}
use weightless_core.Http.Chunked.Refines.{resumed, answer, passes, resumed-receive}
use weightless_core.Http.Chunked.Split.{drain-append}
use weightless_core.Http.Chunked.Encode.{create_chunk, create_chunks}
use weightless_core.Http.Reader.{Reader, http_reader, body_fragments}
use weightless_core.Http.Reader.Chunks.{heard, endings, the_end, body_fragments-create_chunk}
use weightless_core.Http.Chunked.RoundTrip.{receive-create_chunks}
use weightless_core.Http.Body.{
  Recv, received, want_read, Pieces, piece, finished, complete, body_value_error, max_sized,
  read_content_length_body, read_chunked_body,
}
use weightless_core.Base.Dict.{Eq}
use weightless_core.Http.SocketPool.{Pool, Limits, ended, put_socket_in_pool, get_pooled_socket}
use weightless_core.Http.SocketPool.Counts.{IsCounted}
use weightless_core.Http.SocketPool.Bounds.{Within, put_socket_in_pool_lem}
use weightless_core.Http.Body.Sized.{max_sized-le, max_sized-take}
use weightless_core.Http.Body.ContentLength.{
  Arrives, none_left, next_piece, not_yet, length-read_content_length_body,
  read_content_length_body-complete, read_content_length_body_closed,
}
use weightless_core.Http.Body.Chunks.{concat, read_chunked_body-complete}

-- "3", CR, LF, "ab" and "c", CR, LF, "0", CR, LF, CR, LF
abbrev front : Bytes
front = 51 ∷ 13 ∷ 10 ∷ 97 ∷ 98 ∷ []

abbrev back : Bytes
back = 99 ∷ 13 ∷ 10 ∷ 48 ∷ 13 ∷ 10 ∷ 13 ∷ 10 ∷ []

abbrev abc : Bytes
abc = 97 ∷ 98 ∷ 99 ∷ []

front_drained : drain 0 (receive (in_header []) front) ≡ some ([], more (in_body 3 (97 ∷ 98 ∷ [])))
unfolding drain receive chunk_header int16_from
front_drained = refl

back_drained : drain 1 (receive (in_body 3 (97 ∷ 98 ∷ [])) back) ≡ some (abc ∷ [], over)
unfolding drain receive chunk_header int16_from trailers
back_drained = refl

all_drained : drain 1 (receive (in_header []) (front ++ back)) ≡ some (abc ∷ [], over)
unfolding drain receive chunk_header int16_from trailers
all_drained = refl

drain-append_example : drain 1 (receive (in_header []) (front ++ back)) ≡ some (abc ∷ [], over)
drain-append_example =
    drain-append 0 1 (in_header []) front back [] (abc ∷ []) (in_body 3 (97 ∷ 98 ∷ [])) over tt
      front_drained back_drained

resumed-receive_example :
    run code (passes 0) false (resumed (in_body 3 (97 ∷ 98 ∷ [])) back)
    ≡ some (answer (receive (in_body 3 (97 ∷ 98 ∷ [])) back))
resumed-receive_example = resumed-receive 0 (in_body 3 (97 ∷ 98 ∷ [])) back (omega arith)

abbrev ab : Bytes
ab = 97 ∷ 98 ∷ []

abbrev two_pieces : Pieces
two_pieces = piece (97 ∷ 98 ∷ []) (piece (99 ∷ []) finished)

two_pieces_cut : max_sized (some 2) [] two_pieces ≡ complete (97 ∷ 98 ∷ [])
unfolding max_sized
two_pieces_cut = refl

two_pieces_whole : max_sized none [] two_pieces ≡ complete abc
unfolding max_sized
two_pieces_whole = refl

max_sized-le_example : length ab ≤ 2
max_sized-le_example = max_sized-le 2 [] two_pieces (97 ∷ 98 ∷ []) two_pieces_cut

max_sized-take_example : max_sized (some 2) [] two_pieces ≡ complete (take 2 abc)
max_sized-take_example = max_sized-take 2 [] two_pieces abc two_pieces_whole

-- "b", then nothing yet, then "c"
abbrev socket : List Recv → List Recv
socket after = received (98 ∷ []) ∷ want_read ∷ received (99 ∷ []) ∷ after

abbrev socket-Arrives : (after : List Recv) → Arrives after (98 ∷ 99 ∷ []) (socket after)
socket-Arrives after = next_piece 98 [] (99 ∷ []) _ (not_yet (next_piece 99 [] [] after none_left))

socket_read : max_sized none [] (read_content_length_body 3 (socket []) (97 ∷ [])) ≡ complete abc
unfolding max_sized read_content_length_body
socket_read = refl

length-read_content_length_body_example : length abc ≡ 3
length-read_content_length_body_example =
    length-read_content_length_body 3 (socket []) (97 ∷ []) abc socket_read

read_content_length_body-complete_example :
    max_sized none [] (read_content_length_body 3 (socket []) (97 ∷ [])) ≡ complete abc
read_content_length_body-complete_example =
    read_content_length_body-complete 3 (97 ∷ []) (98 ∷ 99 ∷ []) [] (socket []) refl
      (socket-Arrives [])

read_content_length_body_closed_example :
    max_sized none [] (read_content_length_body 4 (socket (received [] ∷ [])) (97 ∷ []))
    ≡ body_value_error
read_content_length_body_closed_example =
    read_content_length_body_closed 4 (97 ∷ []) (98 ∷ 99 ∷ []) [] (socket (received [] ∷ []))
      (omega arith) (socket-Arrives (received [] ∷ []))

abbrev chunked_socket : List Recv
chunked_socket = want_read ∷ received back ∷ []

chunked_socket-Arrives : Arrives [] back chunked_socket
chunked_socket-Arrives =
    not_yet (next_piece 99 (13 ∷ 10 ∷ 48 ∷ 13 ∷ 10 ∷ 13 ∷ 10 ∷ []) [] [] none_left)

read_chunked_body-complete_example :
    max_sized none [] (read_chunked_body chunked_socket front) ≡ complete (concat (abc ∷ []))
read_chunked_body-complete_example =
    read_chunked_body-complete [] chunked_socket front back 1 (abc ∷ []) all_drained
      chunked_socket-Arrives

-- A pool of one socket at most, with the socket 4 for the destination 1.
instance abbrev number_eq : Eq ℕ
number_eq = record { same = λ a b. a == b; same_iff = ==_iff }

abbrev one_socket : Limits
one_socket = record { total_size = some 1; destination_size = none }

abbrev full_pool : Pool ℕ
full_pool = record {
  pool = (1, record { sock = 4; put_time = 10 } ∷ []) ∷ [];
  pool_size = 1;
  closed = [];
}

put_socket_in_pool_lem_example :
    (q : Pool ℕ) × (put_socket_in_pool one_socket 2 5 20 (λ n. 0) full_pool ≡ some (ended, q))
    × IsCounted q
    × Within one_socket.total_size q.pool_size
    × ((get_pooled_socket one_socket 2 q).0 ≡ some 5)
put_socket_in_pool_lem_example =
    put_socket_in_pool_lem one_socket 2 5 20 (λ n. 0) full_pool ((refl, tt), refl) (λ e. cc)
      (omega arith)

receive-create_chunks_example :
    drain 2 (receive (in_header []) (create_chunks (abc ∷ ab ∷ []))) ≡ some (abc ∷ ab ∷ [], over)
receive-create_chunks_example =
    receive-create_chunks 2 (abc ∷ ab ∷ []) (omega arith) (λ e. cc, (λ e. cc, tt))

-- A reader that has read the headers of a chunked response.
abbrev in_chunks : Reader
in_chunks = record http_reader { chunked_body = true }

body_fragments-create_chunk_example :
    (heard
        (body_fragments
          (create_chunk abc ∷ create_chunk ab ∷ create_chunk [] ∷ [])
          in_chunks).actions
      ≡ heard in_chunks.actions ++ abc ∷ ab ∷ [])
    × (endings (body_fragments (create_chunk abc ∷ create_chunk ab ∷ []) in_chunks).actions
        ≡ endings in_chunks.actions)
    × (endings
          (body_fragments
            (create_chunk abc ∷ create_chunk ab ∷ create_chunk [] ∷ [])
            in_chunks).actions
        ≡ endings in_chunks.actions ++ the_end)
unfolding http_reader
body_fragments-create_chunk_example =
    body_fragments-create_chunk (abc ∷ ab ∷ []) in_chunks refl refl (λ e. cc, (λ e. cc, tt))
