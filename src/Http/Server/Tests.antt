-- ===== src/Http/Server/Tests.antt =====
-- Small inputs of weightless/http/_httpserver.py.
use weightless_core.Base.{arith, ℕ, ◌≡◌, refl, Bool, true, none, some, List, [], ◌∷◌}
use weightless_core.Http.Regexp.{Bytes, chunk_size_line, int16_from}
use weightless_core.Http.Server.{
  Codec, Request, Dealer, read_chunk, read_chunk_body, Action, finalize, Handler, Deal, waits, ends,
  with_body, deal,
}
use weightless_core.Http.Server.Chunks.{add, deal-add, deal_ended-add}
use weightless_core.Http.Chunked.Encode.{create_chunks}
use weightless_core.Http.Server.RoundTrip.{reading, Finishes, deal-create_chunks}
use weightless_core.Http.Headers.{one_value}
use weightless_core.Http.Server.Accept.{Accepted, split, accept_all, determine_content_encoding}
use weightless_core.Http.Server.Best.{Best, determine_content_encoding-Best}
use weightless_core.Http.Server.Total.{deal_total}

-- No encoding is supported.
abbrev no_codec : Codec
no_codec = record {
  D = Unit {0};
  decoder = λ name. none;
  decompress = λ d text. (text, d);
  flush = λ d. [];
}

abbrev posted : Bytes → Request
posted body = record {
  line = record { method = 80 ∷ 79 ∷ 83 ∷ 84 ∷ []; uri = 47 ∷ []; version = 49 ∷ 46 ∷ 49 ∷ [] };
  fields = [];
  body = body;
}

abbrev handler : Dealer → ℕ → Bytes → Bytes → List Action → Handler (Unit {0})
handler dealer size buffer body actions = record {
  data_buffer = buffer;
  request = some (posted body);
  dealer = dealer;
  chunk_size = size;
  decode = none;
  actions = actions;
}

-- "3", CR, LF, "ab"; then "c", CR, LF, "0", CR, LF
abbrev first_part : Handler (Unit {0})
first_part = handler read_chunk 0 (51 ∷ 13 ∷ 10 ∷ 97 ∷ 98 ∷ []) [] []

abbrev in_chunk : Handler (Unit {0})
in_chunk = handler read_chunk_body 3 (97 ∷ 98 ∷ []) [] []

abbrev second_part : Bytes
second_part = 99 ∷ 13 ∷ 10 ∷ 48 ∷ 13 ∷ 10 ∷ []

abbrev at_end : Handler (Unit {0})
at_end =
    handler read_chunk_body 0 [] (97 ∷ 98 ∷ 99 ∷ []) (finalize (posted (97 ∷ 98 ∷ 99 ∷ [])) ∷ [])

first_part_waits : deal no_codec 10 2 0 first_part ≡ some (waits in_chunk)
unfolding deal chunk_size_line int16_from
first_part_waits = refl

second_part_ends : deal no_codec 10 3 0 (add second_part in_chunk) ≡ some (ends at_end)
unfolding deal chunk_size_line int16_from
second_part_ends = refl

deal-add_example : deal no_codec 10 5 0 (add second_part first_part) ≡ some (ends at_end)
deal-add_example =
    deal-add no_codec 10 2 3 0 first_part in_chunk second_part (ends at_end) tt first_part_waits
      second_part_ends

deal_ended-add_example :
    deal no_codec 10 3 0 (add (71 ∷ []) (add second_part in_chunk))
    ≡ some (ends (add (71 ∷ []) at_end))
deal_ended-add_example =
    deal_ended-add no_codec 10 3 0 (add second_part in_chunk) at_end (71 ∷ []) tt second_part_ends

deal_total_example :
    (x : Deal (Unit {0})) × (deal no_codec 10 9 0 (add second_part in_chunk) ≡ some x)
deal_total_example = deal_total no_codec 10 9 0 (add second_part in_chunk) tt (omega arith)

-- The client's chunks "abc" and "d".
deal-create_chunks_example : Finishes no_codec 10 (posted (97 ∷ 98 ∷ 99 ∷ 100 ∷ [])) (
    deal no_codec 10 6 0 (
      reading no_codec 10 read_chunk 0
        (create_chunks ((97 ∷ 98 ∷ 99 ∷ []) ∷ (100 ∷ []) ∷ []))
        (posted [])
        (handler read_chunk 0 [] [] [])))
unfolding with_body
deal-create_chunks_example =
    deal-create_chunks no_codec 10 6 0 0 ((97 ∷ 98 ∷ 99 ∷ []) ∷ (100 ∷ []) ∷ []) (posted [])
      (handler read_chunk 0 [] [] []) (omega arith) (λ e. cc, (λ e. cc, tt))

-- b'a;q=0.5,b'
abbrev accept_value : Bytes
accept_value = 97 ∷ 59 ∷ 113 ∷ 61 ∷ 48 ∷ 46 ∷ 53 ∷ 44 ∷ 98 ∷ []

abbrev both_accepted : List Accepted
both_accepted = (97 ∷ [], 500) ∷ (98 ∷ [], 1000) ∷ []

abbrev all_supported : Bytes → Bool
all_supported encoding = true

both_read : accept_all none (split 44 accept_value) ≡ some both_accepted
unfolding accept_all split
both_read = refl

b_chosen :
    determine_content_encoding all_supported (some (one_value accept_value)) ≡ some (some (98 ∷ []))
unfolding determine_content_encoding
b_chosen = refl

determine_content_encoding-Best_example : Best all_supported both_accepted (98 ∷ [])
determine_content_encoding-Best_example =
    determine_content_encoding-Best all_supported accept_value (98 ∷ []) both_accepted both_read
      b_chosen

-- A space before `q` makes it the name of another parameter: b'a; q=0'
not_read :
    determine_content_encoding all_supported (some (one_value (97 ∷ 59 ∷ 32 ∷ 113 ∷ 61 ∷ 48 ∷ [])))
    ≡ none
unfolding determine_content_encoding
not_read = refl
