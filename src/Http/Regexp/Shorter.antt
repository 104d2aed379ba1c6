-- ===== src/Http/Regexp/Shorter.antt =====
-- weightless/http/_httprequest1_1.py: the data behind a match is no longer than the data matched.
use weightless_core.Base.{
  ◌<◌, ℕ, ◌+◌, ◌≤◌, ◌≡◌, Bool, some, [], ◌∷◌, arith, Bool-cases, Option-cases, inl, inr, length,
  ◌==◌,
}
use weightless_core.Http.Regexp.{
  Bytes, span, match_crlf, match_size_line, chunk_size_line, match_extension_text, match_extension,
  match_chunk_header, chunk_header, is_hex, is_inline,
}

length-span : (p : ℕ → Bool) (xs : Bytes) → length (span p xs).0 + length (span p xs).1 ≡ length xs
unfolding span
length-span p [] = omega arith
length-span p (x ∷ xs) = ground (arith, length-span p xs)

length-match_crlf : (xs rest : Bytes) → match_crlf xs ≡ some rest → length rest ≤ length xs
unfolding match_crlf
length-match_crlf [] rest h = cc
length-match_crlf (a ∷ []) rest h = cc
length-match_crlf (a ∷ b ∷ xs) rest h = ground arith

length-match_extension_text :
    (a xs rest : Bytes) → match_extension_text (a, xs) ≡ some rest → length rest ≤ length xs
unfolding match_extension_text
length-match_extension_text [] xs rest h = cc
length-match_extension_text (c ∷ a) xs rest h = length-match_crlf xs rest h

length-match_extension :
    (xs rest : Bytes) → match_extension xs ≡ some rest → length rest ≤ length xs
unfolding match_extension
length-match_extension [] rest h = cc
length-match_extension (c ∷ xs) rest h = elim (Bool-cases (c == b';')) [
  | inl e ↦ omega (
    arith,
    length-match_extension_text (span is_inline xs).0 (span is_inline xs).1 rest (rw e at h),
    length-span is_inline xs,
  )
  | inr e ↦ length-match_crlf (c ∷ xs) rest (rw e at h)
]

length-match_chunk_header :
    (a xs : Bytes) (r : Bytes × Bytes)
    → match_chunk_header (a, xs) ≡ some r
    → length r.1 ≤ length xs
unfolding match_chunk_header
length-match_chunk_header [] xs r h = cc
length-match_chunk_header (c ∷ a) xs r h = elim (Option-cases (match_extension xs)) [
  | inl e ↦ ground arith
  | inr (rest, e) ↦ ground (arith, length-match_extension xs rest)
]

pub length-chunk_header :
    (xs : Bytes) (r : Bytes × Bytes) → chunk_header xs ≡ some r → length r.1 ≤ length xs
unfolding chunk_header
length-chunk_header xs r h = omega (
  arith,
  length-match_chunk_header (span is_hex xs).0 (span is_hex xs).1 r h,
  length-span is_hex xs,
)

length-match_crlf_lt : (xs rest : Bytes) → match_crlf xs ≡ some rest → length rest < length xs
unfolding match_crlf
length-match_crlf_lt [] rest h = cc
length-match_crlf_lt (a ∷ []) rest h = cc
length-match_crlf_lt (a ∷ b ∷ xs) rest h = ground arith

length-match_size_line :
    (a xs : Bytes) (r : Bytes × Bytes) → match_size_line (a, xs) ≡ some r → length r.1 < length xs
unfolding match_size_line
length-match_size_line [] xs r h = cc
length-match_size_line (c ∷ a) xs r h = elim (Option-cases (match_crlf xs)) [
  | inl e ↦ ground arith
  | inr (rest, e) ↦ ground (arith, length-match_crlf_lt xs rest)
]

pub length-chunk_size_line :
    (xs : Bytes) (r : Bytes × Bytes) → chunk_size_line xs ≡ some r → length r.1 < length xs
unfolding chunk_size_line
length-chunk_size_line xs r h =
    omega (
      arith,
      length-match_size_line (span is_hex xs).0 (span is_hex xs).1 r h,
      length-span is_hex xs,
    )
