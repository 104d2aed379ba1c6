-- ===== src/Http/Body/ContentLength.antt =====
-- weightless/http/_httprequest1_1.py: `_readContentLengthDelimitedBody`.
use weightless_core.Base.{
  ℕ, zero, suc, ◌+◌, ◌-◌, ◌≡◌, refl, false, none, List, [], ◌∷◌, ◌++◌, arith, Bool-cases, inl, inr,
  ltb, length, length-append, append_assoc, append-nil, ◌<◌,
}
use weightless_core.Http.Regexp.{Bytes}
use weightless_core.Http.Body.{
  Recv, received, want_read, ssl_error, complete, body_value_error, max_sized, read_bytes,
  read_content_length_body,
}

-- The pieces of a body, each of at least one byte, as the socket gives them, and what comes then.
pub data Arrives (after : List Recv) : Bytes → List Recv → Type 0 where
  none_left : Arrives after [] after
  next_piece :
      (b : ℕ) (bs rest : Bytes) (sok : List Recv)
      → Arrives after rest sok
      → Arrives after (b ∷ (bs ++ rest)) (received (b ∷ bs) ∷ sok)
  not_yet :
      {all : Bytes} {sok : List Recv} → Arrives after all sok → Arrives after all (want_read ∷ sok)

length-read_bytes :
    (n : ℕ) (sok : List Recv) (responses b : Bytes)
    → max_sized none responses (read_bytes n sok) ≡ complete b
    → length b ≡ length responses + n
unfolding max_sized read_bytes
length-read_bytes zero sok responses b h = ground arith
length-read_bytes (suc n) [] responses b h = cc
length-read_bytes (suc n) (received [] ∷ sok) responses b h = cc
length-read_bytes (suc n) (received (c ∷ cs) ∷ sok) responses b h =
    elim (Bool-cases (ltb (suc n) (length (c ∷ cs)))) [
      | inl e ↦ ground arith
      | inr e ↦ ground (
        arith,
        length-read_bytes (suc n - length (c ∷ cs)) sok (responses ++ c ∷ cs) b,
        length-append responses (c ∷ cs),
      )
    ]
length-read_bytes (suc n) (want_read ∷ sok) responses b h =
    length-read_bytes (suc n) sok responses b h
length-read_bytes (suc n) (ssl_error ∷ sok) responses b h = cc

-- A body that is returned has exactly the length that the header announced.
pub length-read_content_length_body :
    (n : ℕ) (sok : List Recv) (rest b : Bytes)
    → max_sized none [] (read_content_length_body n sok rest) ≡ complete b
    → length b ≡ n
unfolding read_content_length_body max_sized
length-read_content_length_body n sok [] b h = ground (arith, length-read_bytes (n - 0) sok [] b)
length-read_content_length_body n sok (c ∷ rest) b h =
    elim (Bool-cases (ltb n (length (c ∷ rest)))) [
      | inl e ↦ ground arith
      | inr e ↦ ground (arith, length-read_bytes (n - length (c ∷ rest)) sok (c ∷ rest) b)
    ]

read_bytes-complete :
    (after : List Recv) (n : ℕ) (all : Bytes) (sok : List Recv) (responses : Bytes)
    → length all ≡ n
    → Arrives after all sok
    → max_sized none responses (read_bytes n sok) ≡ complete (responses ++ all)
unfolding max_sized read_bytes
read_bytes-complete after zero [] sok responses h a = ground (arith, append-nil responses)
read_bytes-complete after zero (c ∷ all) sok responses h a = absurd (omega arith)
read_bytes-complete after (suc n) _ _ responses h none_left = absurd (omega arith)
read_bytes-complete after (suc n) _ _ responses h (next_piece b bs rest sok' a) =
    let fits : ltb (suc n) (length (b ∷ bs)) ≡ false = ground (arith, length-append bs rest) in
    rw fits (
      ground (
        arith,
        read_bytes-complete after (suc n - length (b ∷ bs)) rest sok' (responses ++ b ∷ bs)
            (omega (arith, length-append bs rest)) a,
        append_assoc responses (b ∷ bs) rest,
      ))
read_bytes-complete after (suc n) _ _ responses h (not_yet a) =
    read_bytes-complete after (suc n) _ _ responses h a

-- A body that comes in pieces, after what was read with the headers, is returned whole as soon as the
-- announced length is there, and nothing behind it is read.
pub read_content_length_body-complete :
    (n : ℕ) (rest all : Bytes) (after sok : List Recv)
    → length rest + length all ≡ n
    → Arrives after all sok
    → max_sized none [] (read_content_length_body n sok rest) ≡ complete (rest ++ all)
unfolding read_content_length_body max_sized
read_content_length_body-complete n [] all after sok h a =
    ground (arith, read_bytes-complete after (n - 0) all sok [] (omega arith) a)
read_content_length_body-complete n (c ∷ rest) all after sok h a =
    ground
      (arith, read_bytes-complete after (n - length (c ∷ rest)) all sok (c ∷ rest) (omega arith) a)

read_bytes_closed :
    (after : List Recv) (n : ℕ) (all : Bytes) (sok : List Recv) (responses : Bytes)
    → length all < n
    → Arrives (received [] ∷ after) all sok
    → max_sized none responses (read_bytes n sok) ≡ body_value_error
unfolding max_sized read_bytes
read_bytes_closed after zero all sok responses h a = absurd (omega arith)
read_bytes_closed after (suc n) _ _ responses h none_left = refl
read_bytes_closed after (suc n) _ _ responses h (next_piece b bs rest sok' a) =
    let fits : ltb (suc n) (length (b ∷ bs)) ≡ false = ground (arith, length-append bs rest) in
    rw fits (
      read_bytes_closed after (suc n - length (b ∷ bs)) rest sok' (responses ++ b ∷ bs)
        (omega (arith, length-append bs rest)) a)
read_bytes_closed after (suc n) _ _ responses h (not_yet a) =
    read_bytes_closed after (suc n) _ _ responses h a

-- A peer that closes before the announced length is there is an error, never a short body.
pub read_content_length_body_closed :
    (n : ℕ) (rest all : Bytes) (after sok : List Recv)
    → length rest + length all < n
    → Arrives (received [] ∷ after) all sok
    → max_sized none [] (read_content_length_body n sok rest) ≡ body_value_error
unfolding read_content_length_body max_sized
read_content_length_body_closed n [] all after sok h a =
    ground (arith, read_bytes_closed after (n - 0) all sok [] (omega arith) a)
read_content_length_body_closed n (c ∷ rest) all after sok h a =
    ground
      (arith, read_bytes_closed after (n - length (c ∷ rest)) all sok (c ∷ rest) (omega arith) a)
