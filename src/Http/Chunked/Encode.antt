-- ===== src/Http/Chunked/Encode.antt =====
-- weightless/http/_httpreader.py: `_createChunk`, and a body as `_sendPostRequest` sends it.
use weightless_core.Base.{
  ℕ, zero, suc, ◌+◌, ◌-◌, ◌*◌, ◌/◌, ◌%◌, ◌<◌, ◌≡◌, refl, ap, ◌∙◌, true, false, some, List, [], ◌∷◌,
  ◌++◌, ltb, if◌then◌else◌, length, arith, append_assoc, Bool-cases, inl, inr,
}
use weightless_core.Http.Regexp.{
  Bytes, cr, lf, crlf, span, is_hex, hex_digit, int16_from, int16, chunk_size_line, chunk_header,
  match_crlf, match_size_line, match_chunk_header, match_extension,
}

-- A digit of `hex(n).upper()`.
abbrev pub hex_char : ℕ → ℕ
hex_char d = if ltb d 10 then d + b'0' else (d - 10) + b'A'

-- The digits of a number in front of others, one unit of fuel for each.
unfoldable pub hex_from : ℕ → ℕ → Bytes → Bytes
hex_from zero n digits = digits
hex_from (suc fuel) n digits =
    let more = hex_from fuel (n / 16) (hex_char (n % 16) ∷ digits) in
    if ltb n 16 then hex_char n ∷ digits else more

-- `hex(n)[len('0x'):].upper()`
unfoldable pub hex : ℕ → Bytes
unfolding hex_from
hex n = hex_from (suc n) n []

-- `_createChunk`, of data that is encoded.
unfoldable pub create_chunk : Bytes → Bytes
unfolding hex
create_chunk text = hex (length text) ++ (crlf ++ (text ++ crlf))

-- The chunks of a body, and the last one, which is empty.
unfoldable pub create_chunks : List Bytes → Bytes
unfolding create_chunk
create_chunks [] = create_chunk []
create_chunks (text ∷ texts) = create_chunk text ++ create_chunks texts

hex_char-hex : (d : ℕ) → d < 16 → (is_hex (hex_char d) ≡ true) × (hex_digit (hex_char d) ≡ d)
unfolding is_hex hex_digit
hex_char-hex d h = ground arith

-- All digits of a list are hexadecimal.
abbrev pub AllHex : Bytes → Type 0
AllHex [] = Unit
AllHex (c ∷ cs) = (is_hex c ≡ true) × AllHex cs

hex_from-AllHex : (fuel n : ℕ) (digits : Bytes) → AllHex digits → AllHex (hex_from fuel n digits)
unfolding hex_from
hex_from-AllHex zero n digits h = h
hex_from-AllHex (suc fuel) n digits h = elim (Bool-cases (ltb n 16)) [
  | inl e ↦ rw e ((hex_char-hex n (ground arith)).0, h)
  | inr e ↦ rw e (
      hex_from-AllHex fuel (n / 16) (hex_char (n % 16) ∷ digits)
        ((hex_char-hex (n % 16) (omega arith)).0, h))
]

-- Reading digits goes on from the number that was read before them.
int16_hex_from :
    (fuel n : ℕ) (digits : Bytes)
    → n < fuel
    → int16_from 0 (hex_from fuel n digits) ≡ int16_from n digits
unfolding hex_from int16_from
int16_hex_from zero n digits l = absurd (omega arith)
int16_hex_from (suc fuel) n digits l = elim (Bool-cases (ltb n 16)) [
  | inl e ↦
      let p : 0 + hex_digit (hex_char n) ≡ n = omega (arith, (hex_char-hex n (ground arith)).1) in
      rw e (ap (λ x. int16_from x digits) p)
  | inr e ↦ rw e (
      int16_hex_from fuel (n / 16) (hex_char (n % 16) ∷ digits) (ground arith)
      ∙ ap (λ x. int16_from x digits) (last_digit n))
]
  where
    last_digit : (n : ℕ) → n / 16 * 16 + hex_digit (hex_char (n % 16)) ≡ n
    last_digit n = rw ((hex_char-hex (n % 16) (omega arith)).1) (omega arith)

pub int16-hex : (n : ℕ) → int16 (hex n) ≡ n
unfolding hex int16_from
int16-hex n = int16_hex_from (suc n) n [] (omega arith)

hex-AllHex : (n : ℕ) → AllHex (hex n)
unfolding hex
hex-AllHex n = hex_from-AllHex (suc n) n [] tt

span-AllHex :
    (xs ys : Bytes) (c : ℕ)
    → AllHex xs
    → is_hex c ≡ false
    → span is_hex (xs ++ c ∷ ys) ≡ (xs, c ∷ ys)
unfolding span
span-AllHex [] ys c h e = rw e
span-AllHex (x ∷ xs) ys c h e = rw (span-AllHex xs ys c h.1 e, h.0)

hex_from_cons :
    (fuel n : ℕ) (digits : Bytes)
    → n < fuel
    → (c : ℕ) × (cs : Bytes) × (hex_from fuel n digits ≡ c ∷ cs)
unfolding hex_from
hex_from_cons zero n digits l = absurd (omega arith)
hex_from_cons (suc fuel) n digits l = elim (Bool-cases (ltb n 16)) [
  | inl e ↦ (hex_char n, digits, rw e)
  | inr e ↦
      let (c, cs, p) = hex_from_cons fuel (n / 16) (hex_char (n % 16) ∷ digits) (ground arith) in
      (c, cs, rw e p)
]

chunk_line :
    (n : ℕ) (xs : Bytes)
    → (chunk_size_line (hex n ++ cr ∷ lf ∷ xs) ≡ some (hex n, xs))
      × (chunk_header (hex n ++ cr ∷ lf ∷ xs) ≡ some (hex n, xs))
unfolding chunk_size_line match_size_line chunk_header match_chunk_header match_extension match_crlf
    hex
chunk_line n xs =
    let (c, cs, e) = hex_from_cons (suc n) n [] (omega arith) in
    let s = span-AllHex (hex n) (lf ∷ xs) cr (hex-AllHex n) refl in (rw (s, e) refl, rw (s, e) refl)

-- The line of a chunk, as the server reads it.
pub chunk_size_line-hex :
    (n : ℕ) (xs : Bytes) → chunk_size_line (hex n ++ cr ∷ lf ∷ xs) ≡ some (hex n, xs)
chunk_size_line-hex n xs = (chunk_line n xs).0

-- The line of a chunk, as the client reads it.
pub chunk_header-hex :
    (n : ℕ) (xs : Bytes) → chunk_header (hex n ++ cr ∷ lf ∷ xs) ≡ some (hex n, xs)
chunk_header-hex n xs = (chunk_line n xs).1

-- A chunk in front of other data.
pub create_chunk-append :
    (text xs : Bytes)
    → create_chunk text ++ xs ≡ hex (length text) ++ cr ∷ lf ∷ (text ++ cr ∷ lf ∷ xs)
unfolding create_chunk
create_chunk-append text xs =
    append_assoc (hex (length text)) (crlf ++ (text ++ crlf)) xs
    ∙ ap (λ x. hex (length text) ++ cr ∷ lf ∷ x) (append_assoc text crlf xs)
