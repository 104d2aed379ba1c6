-- ===== src/Utils/Tests.antt =====
-- Small inputs of weightless/core/utils/_utils.py.
use weightless_core.Base.{ℕ, ◌≡◌, refl, Option, none, some, List, [], ◌∷◌, arith}
use weightless_core.Http.Regexp.{Bytes}
use weightless_core.Utils.{copied, copy_bytes, read, no_match, read_re}
use weightless_core.Utils.Copies.{Copies, IsDone, copy_bytes_all}

-- The target has no response.
abbrev silent : List Bytes → Bytes
silent heads = []

three_copied :
    copy_bytes silent 3 ((97 ∷ 98 ∷ []) ∷ (99 ∷ 100 ∷ []) ∷ (101 ∷ []) ∷ [])
    ≡ copied ((97 ∷ 98 ∷ []) ∷ (99 ∷ []) ∷ []) ((100 ∷ []) ∷ []) ((101 ∷ []) ∷ [])
unfolding copy_bytes
three_copied = refl

copy_bytes_all_example :
    Copies
      (97 ∷ 98 ∷ 99 ∷ 100 ∷ 101 ∷ [])
      3
      (copy_bytes silent 3 ((97 ∷ 98 ∷ []) ∷ (99 ∷ 100 ∷ []) ∷ (101 ∷ []) ∷ []))
    × IsDone (copy_bytes silent 3 ((97 ∷ 98 ∷ []) ∷ (99 ∷ 100 ∷ []) ∷ (101 ∷ []) ∷ []))
copy_bytes_all_example =
    copy_bytes_all silent 3 ((97 ∷ 98 ∷ []) ∷ (99 ∷ 100 ∷ []) ∷ []) (101 ∷ []) (omega arith)

-- One byte is a match.
abbrev one_byte : Bytes → Option (ℕ × Bytes)
one_byte [] = none
one_byte (c ∷ cs) = some (c, cs)

byte_read : read_re one_byte none (some [] ∷ some (97 ∷ 98 ∷ []) ∷ []) [] ≡ read 97 (98 ∷ [])
unfolding read_re
byte_read = refl

nothing_read : read_re one_byte none (some [] ∷ none ∷ []) [] ≡ no_match
unfolding read_re
nothing_read = refl
