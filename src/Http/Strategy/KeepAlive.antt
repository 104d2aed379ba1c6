-- ===== src/Http/Strategy/KeepAlive.antt =====
-- weightless/http/_httprequest1_1.py: when a connection may be used again.
use weightless_core.Base.{
  ℕ, ◌≡◌, ◌≢◌, refl, ap, ◌∙◌, Bool, true, false, ◌||◌, Option, none, some, arith, Bool-cases, inl,
  inr, is_some,
}
use weightless_core.Http.Regexp.{Bytes}
use weightless_core.Http.Headers.{Headers, HeaderValue, same_bytes, same_bytes_iff}
use weightless_core.Http.Names.{content_length, transfer_encoding}
use weightless_core.Http.Strategy.{
  StatusLine, Key, text_key, bytes_key, get_parsed, Strategy, close_delimited, Determined,
  determined, value_error, attribute_error, and_then, do_close_from_connection, determine_length,
  ends_chunked, body_disallowed, by_headers, by_version, determine_body_read_strategy, connection,
  version_1_1,
}

-- A result that comes out of a sequence comes out of its first step.
chain-determined :
    {A B N C D R : Type 0} (da : Determined A) (db : Determined B) (dn : Determined N)
    (dc : Determined C) (dd : Determined D) (f : A → B → N → C → D → R) (r : R)
    → and_then da (λ a.
      and_then db
        (λ b. and_then dn (λ n. and_then dc (λ c. and_then dd (λ d. determined (f a b n c d))))))
      ≡ determined r
    → (a : A) × (b : B) × (n : N) × (c : C) × (d : D) × (da ≡ determined a) × (f a b n c d ≡ r)
chain-determined (determined a) (determined b) (determined n) (determined c) (determined d) f r e =
    (a, b, n, c, d, refl, cc)
chain-determined value_error db dn dc dd f r e = cc
chain-determined attribute_error db dn dc dd f r e = cc
chain-determined (determined a) value_error dn dc dd f r e = cc
chain-determined (determined a) attribute_error dn dc dd f r e = cc
chain-determined (determined a) (determined b) value_error dc dd f r e = cc
chain-determined (determined a) (determined b) attribute_error dc dd f r e = cc
chain-determined (determined a) (determined b) (determined n) value_error dd f r e = cc
chain-determined (determined a) (determined b) (determined n) attribute_error dd f r e = cc
chain-determined (determined a) (determined b) (determined n) (determined c) value_error f r e = cc
chain-determined (determined a) (determined b) (determined n) (determined c) attribute_error f r e =
    cc

true-ne-false : true ≢ false
true-ne-false = λ h. cc

by_headers_open :
    (disallowed do_close is_chunked : Bool) (n : Option (Option ℕ)) (s : Strategy)
    → by_headers disallowed do_close is_chunked n ≡ (s, false)
    → (do_close ≡ false) × (s ≢ close_delimited)
unfolding by_headers
by_headers_open true d c n s e = (ap (λ x. x.1) e, λ h. let k = ap (λ x. x.0) e in cc)
by_headers_open false d true n s e = (ap (λ x. x.1) e, λ h. let k = ap (λ x. x.0) e in cc)
by_headers_open false d false (some n) s e = (ap (λ x. x.1) e, λ h. let k = ap (λ x. x.0) e in cc)
by_headers_open false d false none s e = let k = ap (λ x. x.1) e in cc

by_version_open :
    (version : Bytes) (disallowed do_close is_chunked : Bool) (n : Option (Option ℕ)) (s : Strategy)
    → by_version version disallowed do_close is_chunked n ≡ (s, false)
    → (version ≡ version_1_1) × (do_close ≡ false) × (s ≢ close_delimited)
unfolding by_version
by_version_open version a d c n s e = elim (Bool-cases (same_bytes version version_1_1)) [
  | inl v ↦
      let (o, k) = by_headers_open a d c n s (rw v at e) in
      ((same_bytes_iff version version_1_1).0 v, o, k)
  | inr v ↦ let x = by_headers_open a true false n s (rw v at e) in absurd (true-ne-false x.0)
]

or_false : (a b c : Bool) → (a || b || c) ≡ false → (a ≡ false) × (c ≡ false)
or_false a b c e = ground arith

is_none : (m : Option ℕ) → is_some m ≡ false → m ≡ none
is_none none e = refl
is_none (some n) e = cc

-- A connection is left open behind a response only if the response is one of HTTP/1.1, the request
-- has no `Connection: close`, the body was not cut off at a size, and the end of the body shows in
-- the body itself: it is not the end of the connection.
pub determine_body_read_strategy_open :
    (line : StatusLine) (fields : Headers) (method : Bytes)
    (request_headers : Key → Option HeaderValue) (max_size : Option ℕ) (s : Strategy)
    → determine_body_read_strategy line fields method request_headers max_size
      ≡ determined (s, false)
    → (line.version ≡ version_1_1)
      × (max_size ≡ none)
      × (s ≢ close_delimited)
      × (do_close_from_connection (request_headers (text_key connection)) ≡ determined false)
unfolding determine_body_read_strategy
determine_body_read_strategy_open line fields method request_headers max_size s e =
    let (a, b, n, c, d, ea, e') =
      chain-determined (do_close_from_connection (request_headers (text_key connection)))
        (do_close_from_connection (get_parsed fields (text_key connection)))
        (determine_length (get_parsed fields (bytes_key content_length)))
        (ends_chunked (get_parsed fields (bytes_key transfer_encoding)))
        (body_disallowed method line.status_code)
        (λ a b n c d. by_version line.version d (a || b || is_some max_size) c n) (s, false) e in
    let (v, o, k) = by_version_open line.version d (a || b || is_some max_size) c n s e' in
    let (x, y) = or_false a b (is_some max_size) o in
    (v, is_none max_size y, k, ea ∙ ap determined x)
