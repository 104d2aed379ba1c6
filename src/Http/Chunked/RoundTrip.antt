-- ===== src/Http/Chunked/RoundTrip.antt =====
-- weightless/http/_httpreader.py and _httprequest1_1.py: the decoding of `_deChunk` gives back the chunks
-- that `_sendPostRequest` sends.
use weightless_core.Base.{
  ℕ, zero, suc, ◌+◌, ◌≤◌, ◌≡◌, ◌≢◌, refl, ap, ◌∙◌, false, some, List, [], ◌∷◌, ◌++◌, ltb, ◌==◌,
  length, take, drop, arith, length-append, All,
}
use weightless_core.Http.Regexp.{Bytes, cr, lf, int16_from, chunk_header, trailers}
use weightless_core.Http.Chunked.Encode.{
  create_chunk, create_chunks, int16-hex, chunk_header-hex, create_chunk-append,
}
use weightless_core.Http.Chunked.Decoder.{
  in_header, hands_out, ends, receive, read_header, read_body, read_trailers, drain, over,
}

pub take-length : (xs ys : Bytes) → take (length xs) (xs ++ ys) ≡ xs
take-length [] ys = refl
take-length (x ∷ xs) ys = ap (◌∷◌ x) (take-length xs ys)

pub drop_line_end : (xs ys : Bytes) → drop (length xs + 2) (xs ++ cr ∷ lf ∷ ys) ≡ ys
drop_line_end [] ys = refl
drop_line_end (x ∷ xs) ys =
    let p : suc (length xs) + 2 ≡ suc (length xs + 2) = omega arith in
    ap (λ n. drop n (x ∷ (xs ++ cr ∷ lf ∷ ys))) p ∙ drop_line_end xs ys

pub fits_line_end : (xs ys : Bytes) → ltb (length (xs ++ cr ∷ lf ∷ ys)) (length xs + 2) ≡ false
fits_line_end xs ys = ground (arith, length-append xs (cr ∷ lf ∷ ys))

pub length_nonempty : (xs : Bytes) → xs ≢ [] → (length xs == 0) ≡ false
length_nonempty [] h = absurd (h refl)
length_nonempty (x ∷ xs) h = ground arith

read_header-create_chunk :
    (text xs : Bytes) → text ≢ [] → read_header (create_chunk text ++ xs) ≡ hands_out text xs
unfolding read_header read_body
read_header-create_chunk text xs h =
    rw
      (
        create_chunk-append text xs,
        read_header,
        chunk_header-hex (length text) (text ++ cr ∷ lf ∷ xs),
        int16-hex (length text),
        length_nonempty text h,
        read_body,
        fits_line_end text xs,
        take-length text (cr ∷ lf ∷ xs),
        drop_line_end text xs,
      )
      refl

read_header_last : read_header (create_chunk []) ≡ ends
unfolding read_header read_trailers create_chunk chunk_header int16_from trailers
read_header_last = refl

abbrev pub IsNonEmpty : Bytes → Type 0
IsNonEmpty text = text ≢ []

drain-create_chunks :
    (fuel : ℕ) (texts : List Bytes)
    → length texts ≤ fuel
    → All IsNonEmpty texts
    → drain fuel (read_header (create_chunks texts)) ≡ some (texts, over)
unfolding drain create_chunks
drain-create_chunks fuel [] l h = rw (read_header_last) refl
drain-create_chunks zero (text ∷ texts) l h = absurd (omega arith)
drain-create_chunks (suc fuel) (text ∷ texts) l h =
    rw (read_header-create_chunk text (create_chunks texts) h.0)
      (rw (drain-create_chunks fuel texts (omega arith) h.1) refl)

-- A body sent in chunks none of which is empty: the decoder of the client hands out the same chunks
-- and then comes to the end of the message.
pub receive-create_chunks :
    (fuel : ℕ) (texts : List Bytes)
    → length texts ≤ fuel
    → All IsNonEmpty texts
    → drain fuel (receive (in_header []) (create_chunks texts)) ≡ some (texts, over)
unfolding receive
receive-create_chunks fuel texts l h = drain-create_chunks fuel texts l h
