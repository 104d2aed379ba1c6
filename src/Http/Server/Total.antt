-- ===== src/Http/Server/Total.antt =====
-- weightless/http/_httpserver.py: the methods that read a chunked body, calling each other, come to an
-- end.
use weightless_core.Base.{
  length-drop, ℕ, zero, suc, ◌+◌, ◌≡◌, refl, Option, none, some, arith, Bool-cases, Option-cases,
  inl, inr, ltb, ◌==◌, length, take, drop, ◌<◌, ◌≤◌,
}
use weightless_core.Http.Regexp.{Bytes, chunk_size_line}
use weightless_core.Http.Regexp.Shorter.{length-chunk_size_line}
use weightless_core.Http.Server.Chunks.{IsChunkDealer}
use weightless_core.Http.Server.{
  Codec, Request, Dealer, read_headers, read_body, read_chunk, read_chunk_body, read_multi_form,
  Handler, Deal, goes_on, waits, ends, raises, finalized, do_read_chunk, add_chunk, last_chunk,
  do_read_chunk_body, deal_with, deal_more, deal,
}

module _ (codec : Codec) (max_connections : ℕ) where
  open codec use {D}

  -- Each method takes some of the data before it calls the next one.
  abbrev Shrinks : Handler D → Deal D → Type 0
  Shrinks h (goes_on k) = IsChunkDealer k.dealer × (length k.data_buffer < length h.data_buffer)
  Shrinks h d = Unit

  add_chunk-Shrinks :
      (q : Request) (d : Option D) (chunk : Bytes) (h k : Handler D)
      → length k.data_buffer < length h.data_buffer
      → Shrinks h (add_chunk codec max_connections q d chunk k)
  unfolding add_chunk
  add_chunk-Shrinks q none chunk h k l = (tt, l)
  add_chunk-Shrinks q (some d) chunk h k l = (tt, l)

  last_chunk-Shrinks :
      (q : Request) (d : Option D) (h : Handler D)
      → Shrinks h (last_chunk codec max_connections q d h)
  unfolding last_chunk finalized
  last_chunk-Shrinks q none h = tt
  last_chunk-Shrinks q (some d) h = tt

  do_read_chunk_body-Shrinks :
      (q : Request) (h : Handler D) → Shrinks h (do_read_chunk_body codec max_connections q h)
  unfolding do_read_chunk_body
  do_read_chunk_body-Shrinks q h = elim (Bool-cases (h.chunk_size == 0)) [
    | inl z ↦ rw z (last_chunk-Shrinks q h.decode h)
    | inr z ↦ rw z (elim (Bool-cases (ltb (length h.data_buffer) (h.chunk_size + 2))) [
      | inl l ↦ rw (l, Shrinks) tt
      | inr l ↦ rw l (
          add_chunk-Shrinks q h.decode (take h.chunk_size h.data_buffer) h
            (record h { data_buffer = drop (h.chunk_size + 2) h.data_buffer })
            (ground (arith, length-drop (h.chunk_size + 2) h.data_buffer)))
    ])
  ]

  do_read_chunk-Shrinks : (h : Handler D) → Shrinks h (do_read_chunk codec max_connections h)
  unfolding do_read_chunk
  do_read_chunk-Shrinks h = elim (Option-cases (chunk_size_line h.data_buffer)) [
    | inl e ↦ rw (e, Shrinks) tt
    | inr (r, e) ↦ rw (e, Shrinks) (tt, length-chunk_size_line h.data_buffer r e)
  ]

  deal_with-Shrinks :
      (n : ℕ) (d : Dealer) (q : Option Request) (h : Handler D)
      → IsChunkDealer d
      → Shrinks h (deal_with codec max_connections n d q h)
  unfolding deal_with
  deal_with-Shrinks n read_chunk none h i = tt
  deal_with-Shrinks n read_chunk (some q) h i = do_read_chunk-Shrinks h
  deal_with-Shrinks n read_chunk_body none h i = tt
  deal_with-Shrinks n read_chunk_body (some q) h i = do_read_chunk_body-Shrinks q h
  deal_with-Shrinks n read_headers q h i = absurd i
  deal_with-Shrinks n read_body q h i = absurd i
  deal_with-Shrinks n read_multi_form q h i = absurd i

  more_total :
      (f n : ℕ) (h : Handler D) (c : Deal D)
      → Shrinks h c
      → length h.data_buffer ≤ f
      → ((k : Handler D)
          → IsChunkDealer k.dealer
          → length k.data_buffer < f
          → (x : Deal D) × (deal codec max_connections f n k ≡ some x))
      → (x : Deal D) × (deal_more codec max_connections (deal codec max_connections f n) c ≡ some x)
  unfolding deal_more
  more_total f n h (goes_on k) s l ih = ih k s.0 (omega (arith, s.1))
  more_total f n h (waits k) s l ih = (waits k, refl)
  more_total f n h (ends k) s l ih = (ends k, refl)
  more_total f n h (raises k) s l ih = (raises k, refl)

  -- With fuel for each byte of the buffer and one more, the handler comes to an end: it waits for
  -- data, has the whole body, or raises.
  pub deal_total :
      (fuel n : ℕ) (h : Handler D)
      → IsChunkDealer h.dealer
      → length h.data_buffer < fuel
      → (x : Deal D) × (deal codec max_connections fuel n h ≡ some x)
  unfolding deal
  deal_total zero n h i l = absurd (omega arith)
  deal_total (suc f) n h i l =
      more_total f n h _ (deal_with-Shrinks n h.dealer h.request h i) (omega arith)
        (λ k j x. deal_total f n k j x)
