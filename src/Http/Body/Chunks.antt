-- ===== src/Http/Body/Chunks.antt =====
-- weightless/http/_httprequest1_1.py: `_readChunkedDelimitedBody`.
use weightless_core.Base.{
  ℕ, zero, suc, ◌+◌, ◌≡◌, ◌≢◌, refl, sym, ◌∙◌, ap, none, some, List, [], ◌∷◌, ◌++◌, arith,
  Bool-cases, Option-cases, inl, inr, ltb, ◌==◌, length, append_assoc, append-nil, ◌≤◌, length-drop,
}
use weightless_core.Http.Regexp.{Bytes, chunk_header, trailers, int16}
use weightless_core.Http.Regexp.Shorter.{length-chunk_header}
use weightless_core.Http.Chunked.Decoder.{
  Decoder, in_header, in_body, handed_out, in_trailers, Report, wants, hands_out, ends, excess,
  receive, read_header, read_body, read_trailers, drain, End, more, over, broken,
}
use weightless_core.Http.Chunked.Split.{
  IsWaiting, also, receive-append, read_header-append, drain_mono,
}
use weightless_core.Http.Body.{
  Recv, Pieces, finished, complete, max_sized, read_chunks, read_chunked_body, reported, drained,
  pieces_then, held,
}
use weightless_core.Http.Body.ContentLength.{Arrives, none_left, next_piece, not_yet}

held-read_trailers : (x : Bytes) → held (read_trailers x) ≡ 0
unfolding held read_trailers
held-read_trailers x = elim (Option-cases (trailers x)) [
  | inl e ↦ ground arith
  | inr ((fields, []), e) ↦ ground arith
  | inr ((fields, c ∷ rest), e) ↦ ground arith
]

held-read_body : (n : ℕ) (x : Bytes) → held (read_body n x) ≤ length x
unfolding held read_body
held-read_body n x = ground (arith, length-drop (n + 2) x)

held-read_header : (x : Bytes) → held (read_header x) ≤ length x
unfolding read_header held
held-read_header x = elim (Option-cases (chunk_header x)) [
  | inl e ↦ ground arith
  | inr ((digits, rest), e) ↦ ground (
    arith,
    length-chunk_header x (digits, rest) e,
    held-read_body (int16 digits) rest,
    held-read_trailers rest,
  )
]

-- The fuel for the chunks of a report is enough: each chunk takes some of the data.
pub drain_total : (f : ℕ) (r : Report) → held r ≤ f → (x : List Bytes × End) × (drain f r ≡ some x)
unfolding drain held
drain_total f (wants d) h = (([], more d), refl)
drain_total zero (hands_out c rest) h = absurd (omega arith)
drain_total (suc f) (hands_out c rest) h =
    let (x, e) = drain_total f (read_header rest) (omega (arith, held-read_header rest)) in
    ((c ∷ x.0, x.1), rw e)
drain_total f ends h = (([], over), refl)
drain_total f excess h = (([], broken), refl)

drain-held :
    (f : ℕ) (r : Report) (x : List Bytes × End) → drain f r ≡ some x → drain (held r) r ≡ some x
drain-held f r x h =
    let (y, e) = drain_total (held r) r (omega arith) in
    ground (arith, drain_mono (held r) (held r + f) r {x = y}, drain_mono f (held r + f) r {x = x})

-- A report that wants more data leaves no chunk behind.
abbrev WaitsWell : Report → Type 0
WaitsWell (wants d) = IsWaiting d
WaitsWell r = Unit

read_trailers-WaitsWell : (x : Bytes) → WaitsWell (read_trailers x)
unfolding read_trailers
read_trailers-WaitsWell x = elim (Option-cases (trailers x)) [
  | inl e ↦ rw (e, WaitsWell) tt
  | inr ((fields, []), e) ↦ rw (e, WaitsWell) tt
  | inr ((fields, c ∷ rest), e) ↦ rw (e, WaitsWell) tt
]

read_body-WaitsWell : (n : ℕ) (x : Bytes) → WaitsWell (read_body n x)
unfolding read_body
read_body-WaitsWell n x = elim (Bool-cases (ltb (length x) (n + 2))) [
  | inl e ↦ rw (e, WaitsWell) tt
  | inr e ↦ rw (e, WaitsWell) tt
]

read_header-WaitsWell : (x : Bytes) → WaitsWell (read_header x)
unfolding read_header
read_header-WaitsWell x = elim (Option-cases (chunk_header x)) [
  | inl e ↦ rw (e, WaitsWell) tt
  | inr ((digits, rest), e) ↦
      rw (e, WaitsWell)
        (elim (Bool-cases (int16 digits == 0)) [
          | inl z ↦ rw (z, WaitsWell) (read_trailers-WaitsWell rest)
          | inr z ↦ rw (z, WaitsWell) (read_body-WaitsWell (int16 digits) rest)
        ])
]

receive-WaitsWell : (d : Decoder) (b : Bytes) → WaitsWell (receive d b)
unfolding receive
receive-WaitsWell (in_header c) b = read_header-WaitsWell (c ++ b)
receive-WaitsWell (in_body n c) b = read_body-WaitsWell n (c ++ b)
receive-WaitsWell (handed_out c) b = read_header-WaitsWell c
receive-WaitsWell (in_trailers c) b = read_trailers-WaitsWell (c ++ b)

-- How the chunks of data that go on with `c ∷ b` come from a report: the decoding goes on from a
-- place where it waits.
drain-also_split :
    (f : ℕ) (r : Report) (c : ℕ) (b : Bytes) (cs : List Bytes)
    → WaitsWell r
    → drain f (also r (c ∷ b)) ≡ some (cs, over)
    → (ds es : List Bytes) × (d : Decoder) × IsWaiting d
      × (cs ≡ ds ++ es)
      × (drain f r ≡ some (ds, more d))
      × (drain f (receive d (c ∷ b)) ≡ some (es, over))
unfolding drain
drain-also_split f (wants d) c b cs w h = ([], cs, d, w, refl, refl, h)
drain-also_split zero (hands_out x rest) c b cs w h = cc
drain-also_split (suc f) (hands_out x rest) c b cs w h =
    elim (Option-cases (drain f (read_header (rest ++ c ∷ b)))) [
      | inl e ↦ cc
      | inr ((ys, end), e) ↦
          let (ds, es, d, wd, eq, p, q) =
            drain-also_split f (read_header rest) c b ys (read_header-WaitsWell rest)
              (rw (← read_header-append) (ground arith)) in
          (
            x ∷ ds,
            es,
            d,
            wd,
            ground arith,
            rw p,
            drain_mono f (suc f) (receive d (c ∷ b)) {x = (es, over)} (omega arith) q,
          )
    ]
drain-also_split f ends c b cs w h = cc
drain-also_split f excess c b cs w h = cc

-- `b''.join(chunks)`
abbrev pub concat : List Bytes → Bytes
concat [] = []
concat (c ∷ cs) = c ++ concat cs

concat-append : (cs ds : List Bytes) → concat (cs ++ ds) ≡ concat cs ++ concat ds
concat-append [] ds = refl
concat-append (c ∷ cs) ds = rw (concat-append cs ds) (sym (append_assoc c (concat cs) (concat ds)))

max_sized-pieces_then :
    (responses : Bytes) (cs : List Bytes) (ps : Pieces)
    → max_sized none responses (pieces_then cs ps) ≡ max_sized none (responses ++ concat cs) ps
unfolding max_sized pieces_then
max_sized-pieces_then responses [] ps = rw append-nil
max_sized-pieces_then responses (c ∷ cs) ps =
    max_sized-pieces_then (responses ++ c) cs ps
    ∙ ap (λ b. max_sized none b ps) (append_assoc responses c (concat cs))

-- A report whose chunks are known, in the loop.
max_sized-reported :
    (next : Decoder → Pieces) (f : ℕ) (r : Report) (cs : List Bytes) (e : End) (responses : Bytes)
    → drain f r ≡ some (cs, e)
    → max_sized none responses (reported next r)
      ≡ max_sized none (responses ++ concat cs) (drained next (some ([], e)))
unfolding reported drained
max_sized-reported next f r cs (more d) responses h =
    rw (drain-held f r (cs, more d) h) (max_sized-pieces_then responses cs (next d))
max_sized-reported next f r cs over responses h =
    rw (drain-held f r (cs, over) h) (max_sized-pieces_then responses cs finished)
max_sized-reported next f r cs broken responses h =
    rw (drain-held f r (cs, broken) h) (max_sized-pieces_then responses cs _)

module _ (after : List Recv) where
  -- One piece of the data: the loop goes on with what comes from there on, if that ends well.
  piece-complete :
      (d : Decoder) (b : ℕ) (bs rest : Bytes) (sok : List Recv) (responses : Bytes) (f : ℕ)
      (cs : List Bytes)
      → IsWaiting d
      → drain f (receive d (b ∷ (bs ++ rest))) ≡ some (cs, over)
      → ((d' : Decoder) (ds es : List Bytes)
          → rest ≢ []
          → IsWaiting d'
          → drain f (receive d' rest) ≡ some (es, over)
          → max_sized none (responses ++ concat ds) (read_chunks sok d')
            ≡ complete ((responses ++ concat ds) ++ concat es))
      → max_sized none responses (reported (read_chunks sok) (receive d (b ∷ bs)))
        ≡ complete (responses ++ concat cs)
  unfolding drained max_sized
  piece-complete d b bs [] sok responses f cs w h k =
      max_sized-reported (read_chunks sok) f (receive d (b ∷ bs)) cs over responses
        (rw append-nil at h)
  piece-complete d b bs (c ∷ rest) sok responses f cs w h k =
      let (ds, es, d', wd, eq, p, q) =
        drain-also_split f (receive d (b ∷ bs)) c rest cs (receive-WaitsWell d (b ∷ bs))
          (rw (← receive-append d (b ∷ bs) (c ∷ rest) w) h) in
      max_sized-reported (read_chunks sok) f (receive d (b ∷ bs)) ds (more d') responses p
      ∙ k d' ds es (λ e. cc) wd q
      ∙ ap complete (
          append_assoc responses (concat ds) (concat es)
          ∙ ap (◌++◌ responses) (sym (concat-append ds es) ∙ ap concat (sym eq)))

  read_chunks-complete :
      (d : Decoder) (all : Bytes) (sok : List Recv) (responses : Bytes) (f : ℕ) (cs : List Bytes)
      → all ≢ []
      → IsWaiting d
      → drain f (receive d all) ≡ some (cs, over)
      → Arrives after all sok
      → max_sized none responses (read_chunks sok d) ≡ complete (responses ++ concat cs)
  unfolding read_chunks
  read_chunks-complete d _ _ responses f cs ne w h none_left = absurd (ne refl)
  read_chunks-complete d _ _ responses f cs ne w h (not_yet a) =
      read_chunks-complete d _ _ responses f cs ne w h a
  read_chunks-complete d _ _ responses f cs ne w h (next_piece b bs rest sok a) =
      piece-complete d b bs rest sok responses f cs w h λ d' ds es ne' w' h'.
        read_chunks-complete d' rest sok (responses ++ concat ds) f es ne' w' h' a

nonempty :
    (f : ℕ) (all : Bytes) (cs : List Bytes)
    → drain f (receive (in_header []) all) ≡ some (cs, over)
    → all ≢ []
unfolding drain receive read_header chunk_header
nonempty f [] cs h = cc
nonempty f (c ∷ all) cs h = λ e. cc

-- A chunked body is returned whole, wherever the network cuts it: if what was read with the headers
-- (`rest`) and the pieces that arrive then are together one complete chunked message, the reader gives
-- its chunks joined, reads nothing behind it, and never takes the end of a piece for the end of the
-- message.
pub read_chunked_body-complete :
    (after sok : List Recv) (rest all : Bytes) (f : ℕ) (cs : List Bytes)
    → drain f (receive (in_header []) (rest ++ all)) ≡ some (cs, over)
    → Arrives after all sok
    → max_sized none [] (read_chunked_body sok rest) ≡ complete (concat cs)
unfolding read_chunked_body
read_chunked_body-complete after sok [] all f cs h a =
    read_chunks-complete after (in_header []) all sok [] f cs (nonempty f all cs h) tt h a
read_chunked_body-complete after sok (b ∷ bs) all f cs h a =
    piece-complete after (in_header []) b bs all sok [] f cs tt h
      λ d ds es ne w q. read_chunks-complete after d all sok (concat ds) f es ne w q a
