-- ===== src/Http/Server/Accept.antt =====
-- weightless/http/_httpserver.py: which encoding the server chooses for its response. A q-value is counted in
-- thousandths; one that is not written as HTTP has it (a digit, and at most three decimals) counts as
-- no number.
use weightless_core.Base.{
  ℕ, ◌+◌, ◌-◌, ◌*◌, Bool, not, ◌&&◌, Option, none, some, List, [], ◌∷◌, ◌++◌, ltb, leb, ◌==◌,
  if◌then◌else◌,
}
use weightless_core.Http.Regexp.{Bytes, span}
use weightless_core.Http.Headers.{HeaderValue, one_value, values, same_bytes, bytes_eq, strip}

-- `x.split(c)`
unfoldable pub split : ℕ → Bytes → List Bytes
split c [] = [] ∷ []
split c (b ∷ bs) = elim (split c bs) [
  | [] ↦ (b ∷ []) ∷ []
  | p ∷ ps ↦ if b == c then [] ∷ p ∷ ps else (b ∷ p) ∷ ps
]

abbrev is_no_equals : ℕ → Bool
is_no_equals c = not (c == b'=')

abbrev behind_equals : Bytes × Bytes → Option (Bytes × Bytes)
behind_equals (name, []) = none
behind_equals (name, c ∷ value) = some (name, value)

-- `x.split(b'=', 1)`, if there are two parts.
unfoldable pub split_once : Bytes → Option (Bytes × Bytes)
unfolding span
split_once text = behind_equals (span is_no_equals text)

abbrev is_digit : ℕ → Bool
is_digit c = leb b'0' c && leb c b'9'

abbrev digit_times : ℕ → ℕ → Option ℕ → Option ℕ
digit_times c n none = none
digit_times c n (some m) = if is_digit c then some ((c - b'0') * n + m) else none

-- The decimals, each worth so much.
unfoldable pub decimals : Bytes → Option ℕ
decimals [] = some 0
decimals (a ∷ []) = digit_times a 100 (some 0)
decimals (a ∷ b ∷ []) = digit_times a 100 (digit_times b 10 (some 0))
decimals (a ∷ b ∷ c ∷ []) = digit_times a 100 (digit_times b 10 (digit_times c 1 (some 0)))
decimals text = none

-- `float(pValue)`
unfoldable pub parse_q : Bytes → Option ℕ
unfolding decimals
parse_q [] = none
parse_q (d ∷ []) = digit_times d 1000 (some 0)
parse_q (d ∷ dot ∷ text) = if dot == b'.' then digit_times d 1000 (decimals text) else none

abbrev pub Accepted : Type 0
Accepted = Bytes × ℕ

-- The parameters of an encoding; `qvalue` is the variable, which keeps its value from one encoding to
-- the next. None is an exception.
unfoldable pub accept_params : Bytes → List Bytes → Option ℕ → Option (Bytes × Option ℕ)
unfolding split_once parse_q
accept_params encoding [] qvalue = some (encoding, qvalue)
accept_params encoding (param ∷ params) qvalue = elim (split_once param) [
  | none ↦ none
  | some (name, value) ↦
      let rest = accept_params (encoding ++ b';' ∷ param) params qvalue in
      if same_bytes name (b'q' ∷ [])
      then elim (parse_q value) [ none ↦ none | some q ↦ some (encoding, some q) ]
      else rest
]

-- An encoding with its q-value, from the parts between its semicolons.
unfoldable pub accept_one : List Bytes → Option ℕ → Option (Bytes × Option ℕ)
unfolding accept_params
accept_one [] qvalue = none
accept_one (encoding ∷ []) qvalue = some (encoding, some 1000)
accept_one (encoding ∷ param ∷ params) qvalue = accept_params encoding (param ∷ params) qvalue

abbrev keep_accepted : Accepted → Option (List Accepted) → Option (List Accepted)
keep_accepted a none = none
keep_accepted a (some more) = if ltb 0 a.1 then some (a ∷ more) else some more

-- The loop of `parseAcceptEncoding`.
unfoldable pub accept_all : Option ℕ → List Bytes → Option (List Accepted)
unfolding accept_one split strip
accept_all qvalue [] = some []
accept_all qvalue ([] ∷ parts) = accept_all qvalue parts
accept_all qvalue ((c ∷ part) ∷ parts) = elim (accept_one (split b';' (strip (c ∷ part))) qvalue) [
  | none ↦ none
  | some (encoding, none) ↦ none
  | some (encoding, some q) ↦ keep_accepted (encoding, q) (accept_all (some q) parts)
]

-- `result.sort(…, reverse=True)`, which keeps the order of equal ones.
unfoldable pub insert_accepted : Accepted → List Accepted → List Accepted
insert_accepted a [] = a ∷ []
insert_accepted a (b ∷ bs) =
    let more = insert_accepted a bs in if leb b.1 a.1 then a ∷ b ∷ bs else b ∷ more

unfoldable pub sort_accepted : List Accepted → List Accepted
unfolding insert_accepted
sort_accepted [] = []
sort_accepted (a ∷ bs) = insert_accepted a (sort_accepted bs)

-- `parseAcceptEncoding`, with the q-values.
unfoldable pub parse_accept_encoding : Bytes → Option (List Accepted)
unfolding accept_all split sort_accepted
parse_accept_encoding value = elim (accept_all none (split b',' value)) [
  | none ↦ none
  | some accepted ↦ some (sort_accepted accepted)
]

-- The first encoding of the list that is supported.
unfoldable pub first_supported : (Bytes → Bool) → List Accepted → Option Bytes
first_supported supported [] = none
first_supported supported ((encoding, q) ∷ bs) =
    let more = first_supported supported bs in if supported encoding then some encoding else more

-- `_determineContentEncoding`; the inner option is its result.
unfoldable pub determine_content_encoding :
    (Bytes → Bool) → Option HeaderValue → Option (Option Bytes)
unfolding parse_accept_encoding first_supported
determine_content_encoding supported none = some none
determine_content_encoding supported (some (values vs)) = none
determine_content_encoding supported (some (one_value v)) = elim (parse_accept_encoding v) [
  | none ↦ none
  | some accepted ↦ some (first_supported supported accepted)
]
