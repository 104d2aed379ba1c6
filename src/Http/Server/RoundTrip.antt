-- ===== src/Http/Server/RoundTrip.antt =====
-- weightless/http/_httpreader.py and _httpserver.py: the server reads back the body that
-- `_sendPostRequest` sends in chunks.
use weightless_core.Base.{
  ℕ, zero, suc, ◌+◌, ◌*◌, ◌≤◌, ◌≡◌, ◌≢◌, refl, sym, subst, Option, none, some, List, [], ◌∷◌, ◌++◌,
  length, arith, All, append_assoc, append-nil,
}
use weightless_core.Http.Regexp.{Bytes, cr, lf, crlf}
use weightless_core.Http.Chunked.Encode.{
  create_chunk, create_chunks, int16-hex, chunk_size_line-hex, create_chunk-append,
}
use weightless_core.Http.Chunked.RoundTrip.{
  take-length, drop_line_end, fits_line_end, length_nonempty, IsNonEmpty,
}
use weightless_core.Http.Body.Chunks.{concat}
use weightless_core.Http.Server.{
  Action, Codec, Request, Dealer, read_chunk, read_chunk_body, Handler, Deal, goes_on, ends, act,
  finalize, with_body, finalized, do_read_chunk, do_read_chunk_body, add_chunk, last_chunk,
  deal_with, deal_more, deal,
}

module _ (codec : Codec) (max_connections : ℕ) where
  open codec use {D}

  -- The handler reads chunks, with no encoding of the content.
  abbrev pub reading : Dealer → ℕ → Bytes → Request → Handler D → Handler D
  reading dealer size buffer q h = record h {
    data_buffer = buffer;
    request = some q;
    dealer = dealer;
    chunk_size = size;
    decode = none;
  }

  do_read_chunk-create_chunk :
      (size : ℕ) (text xs : Bytes) (q : Request) (h : Handler D)
      → do_read_chunk codec max_connections (reading read_chunk size (create_chunk text ++ xs) q h)
        ≡ goes_on (reading read_chunk_body (length text) (text ++ cr ∷ lf ∷ xs) q h)
  unfolding do_read_chunk
  do_read_chunk-create_chunk size text xs q h =
      rw
        (
          create_chunk-append text xs,
          do_read_chunk,
          chunk_size_line-hex (length text) (text ++ cr ∷ lf ∷ xs),
          int16-hex (length text),
        )
        refl

  do_read_chunk_body-text :
      (text xs : Bytes) (q : Request) (h : Handler D)
      → text ≢ []
      → do_read_chunk_body codec max_connections q
          (reading read_chunk_body (length text) (text ++ cr ∷ lf ∷ xs) q h)
        ≡ goes_on (reading read_chunk (length text) xs (with_body codec max_connections text q) h)
  unfolding do_read_chunk_body add_chunk
  do_read_chunk_body-text text xs q h ne =
      rw
        (
          do_read_chunk_body,
          length_nonempty text ne,
          fits_line_end text xs,
          take-length text (cr ∷ lf ∷ xs),
          drop_line_end text xs,
        )
        refl

  -- The end of the body: the request is handed on.
  abbrev pub Finishes : Request → Option (Deal D) → Type 0
  Finishes q x =
      (h : Handler D) × (x ≡ some (ends h))
      × (h.request ≡ some q)
      × ((actions : List Action) × (h.actions ≡ actions ++ finalize q ∷ []))

  deal_ends :
      (f n size : ℕ) (xs ys : Bytes) (q : Request) (h : Handler D)
      → do_read_chunk codec max_connections (reading read_chunk size xs q h)
        ≡ goes_on (reading read_chunk_body 0 ys q h)
      → Finishes q (deal codec max_connections (suc (suc f)) n (reading read_chunk size xs q h))
  unfolding deal deal_with deal_more do_read_chunk_body last_chunk finalized act
  deal_ends f n size xs ys q h e =
      let k : Handler D = reading read_chunk_body 0 ys q h in
      (act codec max_connections (finalize q) k, rw e refl, refl, (h.actions, refl))

  deal_last_chunk :
      (f n size : ℕ) (q : Request) (h : Handler D)
      → Finishes q (
          deal codec max_connections
            (suc (suc f))
            n
            (reading read_chunk size (create_chunks []) q h))
  unfolding create_chunks
  deal_last_chunk f n size q h = deal_ends f n size (create_chunk []) crlf q h (
      subst
        (λ x.
          do_read_chunk codec max_connections (reading read_chunk size x q h)
          ≡ goes_on (reading read_chunk_body 0 crlf q h))
        (append-nil (create_chunk [])) (do_read_chunk-create_chunk size [] [] q h))

  deal-create_chunk :
      (f n size : ℕ) (text xs : Bytes) (q : Request) (h : Handler D)
      → text ≢ []
      → deal codec max_connections
          (suc (suc f))
          n
          (reading read_chunk size (create_chunk text ++ xs) q h)
        ≡ deal codec max_connections f n
            (reading read_chunk (length text) xs (with_body codec max_connections text q) h)
  unfolding deal deal_with deal_more
  deal-create_chunk f n size text xs q h ne =
      rw (do_read_chunk-create_chunk size text xs q h, do_read_chunk_body-text text xs q h ne) refl

  -- With two methods for each chunk as fuel: a handler that starts to read chunks, on a body sent in
  -- chunks none of which is empty and with no encoding of the content, finishes the request with the
  -- chunks joined behind the body it has.
  pub deal-create_chunks :
      (fuel n size : ℕ) (texts : List Bytes) (q : Request) (h : Handler D)
      → length texts * 2 + 2 ≤ fuel
      → All IsNonEmpty texts
      → Finishes
          (with_body codec max_connections (concat texts) q)
          (deal codec max_connections fuel n (reading read_chunk size (create_chunks texts) q h))
  unfolding create_chunks with_body
  deal-create_chunks zero n size texts q h l ne = absurd (omega arith)
  deal-create_chunks (suc zero) n size texts q h l ne = absurd (omega arith)
  deal-create_chunks (suc (suc f)) n size [] q h l ne =
      rw (append-nil q.body) (deal_last_chunk f n size q h)
  deal-create_chunks (suc (suc f)) n size (text ∷ texts) q h l ne =
      rw
        (
          deal-create_chunk f n size text (create_chunks texts) q h ne.0,
          sym (append_assoc q.body text (concat texts)),
        )
        (deal-create_chunks f n (length text) texts (with_body codec max_connections text q) h
          (omega arith) ne.1)
