-- ===== src/Http/Server/Chunks.antt =====
-- weightless/http/_httpserver.py: the server reads a chunked body the same way, however the network
-- cuts it into pieces.
use weightless_core.Base.{
  ℕ, zero, suc, ◌+◌, ◌≡◌, subst, sym, ap, false, Option, none, some, ◌++◌, arith, Bool-cases,
  Option-cases, inl, inr, ltb, ◌==◌, length, take, drop, ◌≤◌, length-append, take-append,
  drop-append,
}
use weightless_core.Http.Regexp.{Bytes, chunk_size_line}
use weightless_core.Http.Regexp.Extend.{chunk_size_line-Extends}
use weightless_core.Http.Server.{
  Codec, Request, Dealer, read_headers, read_body, read_chunk, read_chunk_body, read_multi_form,
  Handler, Deal, goes_on, waits, ends, raises, act, finalized, do_read_chunk, add_chunk, last_chunk,
  do_read_chunk_body, deal_with, deal_more, deal,
}

-- The handler reads chunks.
abbrev pub IsChunkDealer : Dealer → Type 0
IsChunkDealer read_chunk = Unit
IsChunkDealer read_chunk_body = Unit
IsChunkDealer d = ⊥

-- More data arrives.
abbrev pub add : {D : Type 0} → Bytes → Handler D → Handler D
add b h = record h { data_buffer = h.data_buffer ++ b }

-- What one method does (the first deal), and what it does with more data (the second).
data Extended {D : Type 0} (h : Handler D) (b : Bytes) : Deal D → Deal D → Type 0 where
  stays : (d : Deal D) → Extended h b (waits h) d
  goes : (k : Handler D) → IsChunkDealer k.dealer → Extended h b (goes_on k) (goes_on (add b k))
  stops : (k : Handler D) → Extended h b (ends k) (ends (add b k))
  fails : (k : Handler D) → Extended h b (raises k) (raises (add b k))

module _ (codec : Codec) (max_connections : ℕ) where
  open codec use {D}

  do_read_chunk-Extended :
      (h : Handler D) (b : Bytes)
      → Extended h b
          (do_read_chunk codec max_connections h)
          (do_read_chunk codec max_connections (add b h))
  unfolding do_read_chunk
  do_read_chunk-Extended h b = elim (Option-cases (chunk_size_line h.data_buffer)) [
    | inl e ↦ rw (e, do_read_chunk) (stays _)
    | inr ((digits, rest), e) ↦
        rw (e, do_read_chunk, chunk_size_line-Extends h.data_buffer b (digits, rest) e) (goes _ tt)
  ]

  last_chunk-Extended :
      (q : Request) (d : Option D) (h k : Handler D) (b : Bytes)
      → Extended k b
          (last_chunk codec max_connections q d h)
          (last_chunk codec max_connections q d (add b h))
  unfolding last_chunk finalized act
  last_chunk-Extended q none h k b = stops _
  last_chunk-Extended q (some d) h k b = stops _

  add_chunk-Extended :
      (q : Request) (d : Option D) (chunk : Bytes) (h k : Handler D) (b : Bytes)
      → Extended k b
          (add_chunk codec max_connections q d chunk h)
          (add_chunk codec max_connections q d chunk (add b h))
  unfolding add_chunk
  add_chunk-Extended q none chunk h k b = goes _ tt
  add_chunk-Extended q (some d) chunk h k b = goes _ tt

  do_read_chunk_body-Extended :
      (q : Request) (h : Handler D) (b : Bytes)
      → Extended h b
          (do_read_chunk_body codec max_connections q h)
          (do_read_chunk_body codec max_connections q (add b h))
  unfolding do_read_chunk_body
  do_read_chunk_body-Extended q h b = elim (Bool-cases (h.chunk_size == 0)) [
    | inl z ↦ rw z (last_chunk-Extended q h.decode h h b)
    | inr z ↦ rw z (elim (Bool-cases (ltb (length h.data_buffer) (h.chunk_size + 2))) [
      | inl l ↦ rw l (stays _)
      | inr l ↦
          let more : ltb (length (h.data_buffer ++ b)) (h.chunk_size + 2) ≡ false =
            ground (arith, length-append h.data_buffer b) in
          rw
            (
              l,
              more,
              take-append h.chunk_size h.data_buffer b (ground arith),
              drop-append (h.chunk_size + 2) h.data_buffer b (ground arith),
            )
            (add_chunk-Extended q h.decode (take h.chunk_size h.data_buffer)
              (record h { data_buffer = drop (h.chunk_size + 2) h.data_buffer }) h b)
    ])
  ]

  deal_with-Extended :
      (n : ℕ) (d : Dealer) (q : Option Request) (h : Handler D) (b : Bytes)
      → IsChunkDealer d
      → Extended h b
          (deal_with codec max_connections n d q h)
          (deal_with codec max_connections n d q (add b h))
  unfolding deal_with
  deal_with-Extended n read_chunk none h b i = fails h
  deal_with-Extended n read_chunk (some q) h b i = do_read_chunk-Extended h b
  deal_with-Extended n read_chunk_body none h b i = fails h
  deal_with-Extended n read_chunk_body (some q) h b i = do_read_chunk_body-Extended q h b
  deal_with-Extended n read_headers q h b i = absurd i
  deal_with-Extended n read_body q h b i = absurd i
  deal_with-Extended n read_multi_form q h b i = absurd i

  mono_more :
      (f m n : ℕ) (c : Deal D) {x : Deal D}
      → ((k : Handler D)
          → deal codec max_connections f n k ≡ some x
          → deal codec max_connections m n k ≡ some x)
      → deal_more codec max_connections (deal codec max_connections f n) c ≡ some x
      → deal_more codec max_connections (deal codec max_connections m n) c ≡ some x
  unfolding deal_more
  mono_more f m n (goes_on k) ih e = ih k e
  mono_more f m n (waits k) ih e = e
  mono_more f m n (ends k) ih e = e
  mono_more f m n (raises k) ih e = e

  -- More fuel than enough changes nothing.
  deal_mono :
      (f m n : ℕ) (h : Handler D) {x : Deal D}
      → f ≤ m
      → deal codec max_connections f n h ≡ some x
      → deal codec max_connections m n h ≡ some x
  unfolding deal
  deal_mono zero m n h l e = cc
  deal_mono (suc f) zero n h l e = absurd (omega arith)
  deal_mono (suc f) (suc m) n h l e =
      mono_more f m n (deal_with codec max_connections n h.dealer h.request h)
        (λ k. deal_mono f m n k (omega arith)) e

  -- What the rest of the loop does with more data, when it waits without it.
  more-waits :
      (f m n : ℕ) (h h' : Handler D) (b : Bytes) (y : Deal D) (c d : Deal D)
      → Extended h b c d
      → ((k : Handler D)
          → IsChunkDealer k.dealer
          → deal codec max_connections f n k ≡ some (waits h')
          → deal codec max_connections m n (add b k) ≡ some y)
      → (h ≡ h' → deal_more codec max_connections (deal codec max_connections m n) d ≡ some y)
      → deal_more codec max_connections (deal codec max_connections f n) c ≡ some (waits h')
      → deal_more codec max_connections (deal codec max_connections m n) d ≡ some y
  unfolding deal_more
  more-waits f m n h h' b y _ _ (stays d) k s e = s (ground arith)
  more-waits f m n h h' b y _ _ (goes k i) ih s e = ih k i e
  more-waits f m n h h' b y _ _ (stops k) ih s e = cc
  more-waits f m n h h' b y _ _ (fails k) ih s e = cc

  deal-add_within :
      (f g m n : ℕ) (h h' : Handler D) (b : Bytes) (y : Deal D)
      → f + g ≤ m
      → IsChunkDealer h.dealer
      → deal codec max_connections f n h ≡ some (waits h')
      → deal codec max_connections g n (add b h') ≡ some y
      → deal codec max_connections m n (add b h) ≡ some y
  unfolding deal
  deal-add_within zero g m n h h' b y l i e w = cc
  deal-add_within (suc f) g zero n h h' b y l i e w = absurd (omega arith)
  deal-add_within (suc f) g (suc m) n h h' b y l i e w =
      more-waits f m n h h' b y _ _ (deal_with-Extended n h.dealer h.request h b i)
        (λ k j x. deal-add_within f g m n k h' b y (omega arith) j x w)
        (λ p.
          subst (λ k. deal codec max_connections (suc m) n (add b k) ≡ some y) (sym p)
            (deal_mono g (suc m) n (add b h') (omega arith) w))
        e

  -- Data that comes in two parts does what it does in one: when the handler waits after the first
  -- part, going on with the second part comes to the same end as both parts at once.
  pub deal-add :
      (f g n : ℕ) (h h' : Handler D) (b : Bytes) (y : Deal D)
      → IsChunkDealer h.dealer
      → deal codec max_connections f n h ≡ some (waits h')
      → deal codec max_connections g n (add b h') ≡ some y
      → deal codec max_connections (f + g) n (add b h) ≡ some y
  deal-add f g n h h' b y i e w = deal-add_within f g (f + g) n h h' b y (omega arith) i e w

  more-ends :
      (f n : ℕ) (h h' : Handler D) (b : Bytes) (c d : Deal D)
      → Extended h b c d
      → ((k : Handler D)
          → IsChunkDealer k.dealer
          → deal codec max_connections f n k ≡ some (ends h')
          → deal codec max_connections f n (add b k) ≡ some (ends (add b h')))
      → deal_more codec max_connections (deal codec max_connections f n) c ≡ some (ends h')
      → deal_more codec max_connections (deal codec max_connections f n) d ≡ some (ends (add b h'))
  unfolding deal_more
  more-ends f n h h' b _ _ (stays d) ih e = cc
  more-ends f n h h' b _ _ (goes k i) ih e = ih k i e
  more-ends f n h h' b _ _ (stops k) ih e =
      let p : k ≡ h' = ground arith in ap (λ x. some (ends (add b x))) p
  more-ends f n h h' b _ _ (fails k) ih e = cc

  -- When the handler has come to the end of the body, more data behind it only stays in the buffer.
  pub deal_ended-add :
      (f n : ℕ) (h h' : Handler D) (b : Bytes)
      → IsChunkDealer h.dealer
      → deal codec max_connections f n h ≡ some (ends h')
      → deal codec max_connections f n (add b h) ≡ some (ends (add b h'))
  unfolding deal
  deal_ended-add zero n h h' b i e = cc
  deal_ended-add (suc f) n h h' b i e =
      more-ends f n h h' b _ _ (deal_with-Extended n h.dealer h.request h b i)
        (λ k j x. deal_ended-add f n k h' b j x) e
