-- ===== src/Http/Chunked/Split.antt =====
-- weightless/http/_httprequest1_1.py: the decoding of `_deChunk` does not depend on how the network
-- cuts the data into pieces.
use weightless_core.Base.{
  ℕ, zero, suc, ◌+◌, ◌≡◌, some, List, [], ◌∷◌, ◌++◌, arith, Option-cases, inl, inr, ◌≤◌,
  append_assoc, length-append, take-append, drop-append,
}
use weightless_core.Http.Regexp.{Bytes, Field, chunk_header, trailers, int16}
use weightless_core.Http.Regexp.Extend.{chunk_header-Extends, trailers-Extends}
use weightless_core.Http.Chunked.Decoder.{
  Decoder, in_header, in_body, handed_out, in_trailers, Report, wants, hands_out, ends, excess,
  read_header, read_body, read_trailers, receive, drain, End, more,
}

-- What a report becomes when the data goes on with `b`.
abbrev pub also : Report → Bytes → Report
also (wants d) b = receive d b
also (hands_out chunk rest) b = hands_out chunk (rest ++ b)
also ends [] = ends
also ends (c ∷ b) = excess
also excess b = excess

read_trailers_at_end :
    (x b : Bytes) (fields : List Field)
    → trailers x ≡ some (fields, [])
    → read_trailers (x ++ b) ≡ also ends b
unfolding read_trailers
read_trailers_at_end x [] fields e = ground (arith, trailers-Extends x [] (fields, []))
read_trailers_at_end x (c ∷ b) fields e = ground (arith, trailers-Extends x (c ∷ b) (fields, []))

read_trailers-append : (x b : Bytes) → read_trailers (x ++ b) ≡ also (read_trailers x) b
unfolding read_trailers receive
read_trailers-append x b = elim (Option-cases (trailers x)) [
  | inl e ↦ ground arith
  | inr ((fields, []), e) ↦ ground (arith, read_trailers_at_end x b fields)
  | inr ((fields, c ∷ rest), e) ↦ ground (arith, trailers-Extends x b (fields, c ∷ rest))
]

read_body-append : (n : ℕ) (x b : Bytes) → read_body n (x ++ b) ≡ also (read_body n x) b
unfolding read_body receive
read_body-append n x b =
    ground (arith, length-append x b, take-append n x b, drop-append (n + 2) x b)

pub read_header-append : (x b : Bytes) → read_header (x ++ b) ≡ also (read_header x) b
unfolding read_header receive
read_header-append x b = elim (Option-cases (chunk_header x)) [
  | inl e ↦ ground arith
  | inr ((digits, rest), e) ↦ ground (
    arith,
    chunk_header-Extends x b (digits, rest),
    read_body-append (int16 digits) rest b,
    read_trailers-append rest b,
  )
]

-- The decoding waits for data: all chunks that it holds have been handed out.
abbrev pub IsWaiting : Decoder → Type 0
IsWaiting (handed_out rest) = ⊥
IsWaiting d = Unit

pub receive-append :
    (d : Decoder) (a b : Bytes) → IsWaiting d → receive d (a ++ b) ≡ also (receive d a) b
unfolding receive
receive-append (in_header c) a b w = rw (← append_assoc) (read_header-append (c ++ a) b)
receive-append (in_body n c) a b w = rw (← append_assoc) (read_body-append n (c ++ a) b)
receive-append (handed_out c) a b w = absurd w
receive-append (in_trailers c) a b w = rw (← append_assoc) (read_trailers-append (c ++ a) b)

-- More fuel than enough changes nothing.
pub drain_mono :
    (f h : ℕ) (r : Report) {x : List Bytes × End} → f ≤ h → drain f r ≡ some x → drain h r ≡ some x
unfolding drain
drain_mono f h (wants d) le p = p
drain_mono zero h (hands_out c rest) le p = cc
drain_mono (suc f) zero (hands_out c rest) le p = absurd (omega arith)
drain_mono (suc f) (suc h) (hands_out c rest) {x} le p =
    elim (Option-cases (drain f (read_header rest))) [
      | inl e ↦ ground arith
      | inr (y, e) ↦ ground (arith, drain_mono f h (read_header rest) {x = y})
    ]
drain_mono f h ends le p = p
drain_mono f h excess le p = p

drain-also :
    (f g h : ℕ) (r : Report) (b : Bytes) (cs cs' : List Bytes) (d : Decoder) (e : End)
    → f + g ≤ h
    → drain f r ≡ some (cs, more d)
    → drain g (receive d b) ≡ some (cs', e)
    → drain h (also r b) ≡ some (cs ++ cs', e)
unfolding drain
drain-also f g h (wants d') b cs cs' d e le p q =
    ground (arith, drain_mono g h (receive d b) {x = (cs', e)})
drain-also zero g h (hands_out c rest) b cs cs' d e le p q = cc
drain-also (suc f) g zero (hands_out c rest) b cs cs' d e le p q = absurd (omega arith)
drain-also (suc f) g (suc h) (hands_out c rest) b cs cs' d e le p q =
    elim (Option-cases (drain f (read_header rest))) [
      | inl x ↦ ground arith
      | inr ((ds, end), x) ↦
          ground
            (arith, read_header-append rest b, drain-also f g h (read_header rest) b ds cs' d e)
    ]
drain-also f g h ends b cs cs' d e le p q = ground arith
drain-also f g h excess b cs cs' d e le p q = ground arith

-- Two pieces in a row give the chunks of the two as one piece, and leave the decoding in the same
-- place, whatever the place where the data is cut.
pub drain-append :
    (f g : ℕ) (d : Decoder) (a b : Bytes) (cs cs' : List Bytes) (d' : Decoder) (e : End)
    → IsWaiting d
    → drain f (receive d a) ≡ some (cs, more d')
    → drain g (receive d' b) ≡ some (cs', e)
    → drain (f + g) (receive d (a ++ b)) ≡ some (cs ++ cs', e)
drain-append f g d a b cs cs' d' e w p q =
    rw (receive-append d a b w)
      (drain-also f g (f + g) (receive d a) b cs cs' d' e (omega arith) p q)
