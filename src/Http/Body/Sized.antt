-- ===== src/Http/Body/Sized.antt =====
-- weightless/http/_httprequest1_1.py: `_bodyMaxSize`.
use weightless_core.Base.{
  ℕ, ◌≡◌, none, some, [], ◌++◌, arith, Bool-cases, inl, inr, leb, length, take, take-append,
  length-take-le, append_assoc, append-nil, ◌∙◌, ◌≤◌,
}
use weightless_core.Http.Regexp.{Bytes}
use weightless_core.Http.Body.{
  Pieces, piece, finished, value_error, error, waiting, complete, max_sized,
}

-- Whatever a reader yields, and also if it would have failed later, no more than the limit is returned.
pub max_sized-le :
    (n : ℕ) (responses : Bytes) (ps : Pieces) (b : Bytes)
    → max_sized (some n) responses ps ≡ complete b
    → length b ≤ n
unfolding max_sized
max_sized-le n responses (piece c ps) b h = elim (Bool-cases (leb n (length (responses ++ c)))) [
  | inl e ↦ ground (arith, length-take-le n (responses ++ c))
  | inr e ↦ max_sized-le n (responses ++ c) ps b (ground arith)
]
max_sized-le n responses finished b h = ground (arith, length-take-le n responses)
max_sized-le n responses value_error b h = cc
max_sized-le n responses error b h = cc
max_sized-le n responses waiting b h = cc

-- What was collected stays at the front of the body.
abbrev StartsWith : Bytes → Bytes → Type 0
StartsWith a b = (c : Bytes) × (b ≡ a ++ c)

max_sized-StartsWith :
    (responses : Bytes) (ps : Pieces) (b : Bytes)
    → max_sized none responses ps ≡ complete b
    → StartsWith responses b
unfolding max_sized
max_sized-StartsWith responses (piece c ps) b h =
    let (d, e) = max_sized-StartsWith (responses ++ c) ps b h in
    (c ++ d, e ∙ append_assoc responses c d)
max_sized-StartsWith responses finished b h = ([], ground (arith, append-nil responses))
max_sized-StartsWith responses value_error b h = cc
max_sized-StartsWith responses error b h = cc
max_sized-StartsWith responses waiting b h = cc

-- A limit cuts the body that would be read without it, and changes nothing else.
pub max_sized-take :
    (n : ℕ) (responses : Bytes) (ps : Pieces) (b : Bytes)
    → max_sized none responses ps ≡ complete b
    → max_sized (some n) responses ps ≡ complete (take n b)
unfolding max_sized
max_sized-take n responses (piece c ps) b h = elim (Bool-cases (leb n (length (responses ++ c)))) [
  | inl e ↦
      let (d, s) = max_sized-StartsWith (responses ++ c) ps b h in
      rw (e, s) (ground (arith, take-append n (responses ++ c) d))
  | inr e ↦ rw e (max_sized-take n (responses ++ c) ps b h)
]
max_sized-take n responses finished b h = ground arith
max_sized-take n responses value_error b h = cc
max_sized-take n responses error b h = cc
max_sized-take n responses waiting b h = cc
