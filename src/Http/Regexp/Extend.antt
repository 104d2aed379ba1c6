-- ===== src/Http/Regexp/Extend.antt =====
-- weightless/http/httpspec.py: a match at the start of the data is the same match of longer data.
use weightless_core.Base.{
  ℕ, zero, suc, ◌≡◌, refl, ap, ◌⊎◌, ◌≢◌, sym, ◌∙◌, ◌==◌, Option, Bool, none, some, List, [], ◌∷◌,
  ◌++◌, arith, Bool-cases, inl, inr, Option-cases, length, length-append, ◌≤◌,
}
use weightless_core.Http.Regexp.{
  Bytes, span, match_crlf, match_size_line, chunk_size_line, match_extension_text, match_extension,
  match_chunk_header, chunk_header, is_hex, is_inline, is_dot, is_token, match_line, match_value,
  match_field, message_header, headers, trailers, Field,
}

list-cases : (xs : Bytes) → (xs ≡ []) ⊎ ((c : ℕ) × (b : Bytes) × (xs ≡ c ∷ b))
list-cases [] = inl refl
list-cases (x ∷ xs) = inr (x, xs, refl)

none-ne-some {ℓ} : {A : Type ℓ} {a : A} → none ≢ some a
none-ne-some h = cc

-- A span that ends before the end of the data.
span-append :
    (p : ℕ → Bool) (xs ys : Bytes) (c : ℕ) (b : Bytes)
    → (span p xs).1 ≡ c ∷ b
    → span p (xs ++ ys) ≡ ((span p xs).0, c ∷ (b ++ ys))
unfolding span
span-append p [] ys c b h = cc
span-append p (x ∷ xs) ys c b h = ground (arith, span-append p xs ys c b)

span-cases :
    (p : ℕ → Bool) (xs : Bytes)
    → ((span p xs).1 ≡ []) ⊎ ((c : ℕ) × (b : Bytes) × ((span p xs).1 ≡ c ∷ b))
span-cases p xs = list-cases (span p xs).1

-- The data behind a match, with its groups.
abbrev pub behind {ℓ} : {A : Type ℓ} → A × Bytes → Bytes → A × Bytes
behind (a, rest) ys = (a, rest ++ ys)

-- More data behind a match leaves the match as it is; `put` adds the data to the result.
abbrev pub Extends {ℓ} : {R : Type ℓ} → (R → Bytes → R) → (Bytes → Option R) → Type ℓ
Extends {R = R} put f = (xs ys : Bytes) (r : R) → f xs ≡ some r → f (xs ++ ys) ≡ some (put r ys)

-- A matcher that takes a span first, and then looks at what follows it.
span-Extends {ℓ} :
    {R : Type ℓ} (put : R → Bytes → R) (p : ℕ → Bool) (f : Bytes × Bytes → Option R)
    → ((a : Bytes) → f (a, []) ≡ none)
    → ((a : Bytes) → Extends put (λ b. f (a, b)))
    → Extends put (λ xs. f (span p xs))
span-Extends put p f fails extends xs ys r h = elim (list-cases (span p xs).1) [
  | inl e ↦
      absurd (none-ne-some (sym (fails (span p xs).0) ∙ ap (λ b. f ((span p xs).0, b)) (sym e) ∙ h))
  | inr (c, b, e) ↦
      rw (span-append p xs ys c b e)
        (extends (span p xs).0 (c ∷ b) ys r (ap (λ b'. f ((span p xs).0, b')) (sym e) ∙ h))
]

pub match_crlf-Extends : Extends ◌++◌ match_crlf
unfolding match_crlf
match_crlf-Extends [] ys r h = cc
match_crlf-Extends (a ∷ []) ys r h = cc
match_crlf-Extends (a ∷ b ∷ xs) ys r h = ground arith

match_size_line-Extends : (a : Bytes) → Extends behind (λ b. match_size_line (a, b))
unfolding match_size_line
match_size_line-Extends [] xs ys r h = cc
match_size_line-Extends (c ∷ a) xs ys (m, rest) h = ground (arith, match_crlf-Extends xs ys rest)

match_size_line-nil : (a : Bytes) → match_size_line (a, []) ≡ none
unfolding match_size_line
match_size_line-nil [] = refl
match_size_line-nil (c ∷ a) = refl

pub chunk_size_line-Extends : Extends behind chunk_size_line
unfolding chunk_size_line
chunk_size_line-Extends =
    span-Extends behind is_hex match_size_line match_size_line-nil match_size_line-Extends

match_extension_text-Extends : (a : Bytes) → Extends ◌++◌ (λ b. match_extension_text (a, b))
unfolding match_extension_text
match_extension_text-Extends [] xs ys r h = cc
match_extension_text-Extends (c ∷ a) xs ys r h = match_crlf-Extends xs ys r h

match_extension_text-nil : (a : Bytes) → match_extension_text (a, []) ≡ none
unfolding match_extension_text
match_extension_text-nil [] = refl
match_extension_text-nil (c ∷ a) = refl

match_extension-Extends : Extends ◌++◌ match_extension
unfolding match_extension
match_extension-Extends [] ys r h = cc
match_extension-Extends (c ∷ xs) ys r h = elim (Bool-cases (c == b';')) [
  | inl e ↦ rw e (
      span-Extends ◌++◌ is_inline match_extension_text match_extension_text-nil
        match_extension_text-Extends xs ys r (rw e at h))
  | inr e ↦ rw e (match_crlf-Extends (c ∷ xs) ys r (rw e at h))
]

match_chunk_header-Extends : (a : Bytes) → Extends behind (λ b. match_chunk_header (a, b))
unfolding match_chunk_header
match_chunk_header-Extends [] xs ys r h = cc
match_chunk_header-Extends (c ∷ a) xs ys (m, rest) h =
    ground (arith, match_extension-Extends xs ys rest)

match_chunk_header-nil : (a : Bytes) → match_chunk_header (a, []) ≡ none
unfolding match_chunk_header match_extension
match_chunk_header-nil [] = refl
match_chunk_header-nil (c ∷ a) = refl

pub chunk_header-Extends : Extends behind chunk_header
unfolding chunk_header
chunk_header-Extends =
    span-Extends behind is_hex match_chunk_header match_chunk_header-nil match_chunk_header-Extends

match_line-Extends : (a : Bytes) → Extends behind (λ b. match_line (a, b))
unfolding match_line
match_line-Extends a [] ys r h = cc
match_line-Extends a (c ∷ xs) ys (m, rest) h = ground arith

match_value-Extends : Extends behind match_value
unfolding match_value
match_value-Extends [] ys r h = cc
match_value-Extends (c ∷ xs) ys r h = elim (Bool-cases (c == b':')) [
  | inl e ↦
      rw e
        (span-Extends behind is_dot match_line (λ a. refl) match_line-Extends xs ys r (rw e at h))
  | inr e ↦ absurd (none-ne-some (rw e at h))
]

match_field-Extends : (a : Bytes) → Extends behind (λ b. match_field (a, b))
unfolding match_field
match_field-Extends [] xs ys r h = cc
match_field-Extends (c ∷ a) xs ys (m, rest) h = elim (Option-cases (match_value xs)) [
  | inl e ↦ absurd (none-ne-some (rw (e, match_field) at h))
  | inr ((text, rest'), e) ↦ ground (arith, match_value-Extends xs ys (text, rest'))
]

match_field-nil : (a : Bytes) → match_field (a, []) ≡ none
unfolding match_field match_value
match_field-nil [] = refl
match_field-nil (c ∷ a) = refl

pub message_header-Extends : Extends behind message_header
unfolding message_header
message_header-Extends =
    span-Extends behind is_token match_field match_field-nil match_field-Extends

-- A header cannot begin where the line that ends the headers does.
message_header_at_crlf :
    (xs ys rest : Bytes) → match_crlf xs ≡ some rest → message_header (xs ++ ys) ≡ none
unfolding match_crlf message_header match_field is_token
message_header_at_crlf [] ys rest h = cc
message_header_at_crlf (a ∷ []) ys rest h = cc
message_header_at_crlf (a ∷ b ∷ xs) ys rest h = ground arith

headers-Extends : (fuel : ℕ) → Extends behind (headers fuel)
unfolding headers
headers-Extends zero xs ys r h = cc
headers-Extends (suc fuel) xs ys (fields, rest) h = elim (Option-cases (message_header xs)) [
  | inl e ↦ elim (Option-cases (match_crlf xs)) [
    | inl e' ↦ absurd (none-ne-some (rw (e, headers, e') at h))
    | inr (rest', e') ↦
        ground (arith, message_header_at_crlf xs ys rest', match_crlf-Extends xs ys rest', h)
  ]
  | inr ((field, rest'), e) ↦ elim (Option-cases (headers fuel rest')) [
    | inl e' ↦ absurd (none-ne-some (rw (e, headers, e') at h))
    | inr ((fields', rest''), e') ↦ ground (
      arith,
      message_header-Extends xs ys (field, rest'),
      headers-Extends fuel rest' ys (fields', rest''),
    )
  ]
]

-- More fuel than enough changes nothing.
pub headers_mono :
    (fuel more : ℕ) (xs : Bytes) {r : List Field × Bytes}
    → fuel ≤ more
    → headers fuel xs ≡ some r
    → headers more xs ≡ some r
unfolding headers
headers_mono zero more xs le h = cc
headers_mono (suc fuel) zero xs le h = absurd (omega arith)
headers_mono (suc fuel) (suc more) xs {r} le h = elim (Option-cases (message_header xs)) [
  | inl e ↦ ground arith
  | inr ((field, rest'), e) ↦ elim (Option-cases (headers fuel rest')) [
    | inl e' ↦ absurd (none-ne-some (rw (e, headers, e') at h))
    | inr (r', e') ↦ ground (arith, headers_mono fuel more rest' {r = r'})
  ]
]

pub trailers-Extends : Extends behind trailers
unfolding trailers
trailers-Extends xs ys r h =
    headers_mono (suc (length xs)) (suc (length (xs ++ ys))) (xs ++ ys)
      (omega (arith, length-append xs ys)) (headers-Extends (suc (length xs)) xs ys r h)
