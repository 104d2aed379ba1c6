-- ===== src/Http/Response/Stream.antt =====
-- weightless/http/_httpserver.py: what the peer gets of a compressed response.
use weightless_core.Base.{
  is_empty-append, is_empty_nil, not_both, parts_append, ℕ, ◌≡◌, refl, subst, sym, ap, ◌∙◌, Bool,
  true, false, not, Option, none, some, List, [], ◌∷◌, ◌++◌, is_empty, take, drop, append_assoc,
  append-nil, if◌then◌else◌,
}
use weightless_core.Http.Regexp.{Bytes}
use weightless_core.Http.Response.{Output, data_output, yield_output, message_500}
use weightless_core.Http.Response.Update.{Matched, match_whole}
use weightless_core.Http.Response.Compress.{
  Compression, begin_body, encode_header, encode_with, Stage, writing, flushing, no_response,
  closed, aborted, Coding, Sender, encode, is_open, put_out, put_out_any, close_or_500, flush_out,
  flushed, put_encoded, next_output, write_main, close_if_sent, write_rest, write_in, write_all,
  write_compressed,
}

bool_false : (b : Bool) → (b ≡ true → ⊥) → b ≡ false
bool_false true h = absurd (h refl)
bool_false false h = refl

not_cons : (b : ℕ) (t : Bytes) → b ∷ t ≡ [] → ⊥
not_cons b t e = cc

module _ (zlib : Compression) (encoding : Bytes) where
  open zlib use {E}

  -- All that is to be sent of the outputs: each encoded behind those before it, and at last what `flush`
  -- gives, if the generator does not raise.
  unfoldable pub stream : Bool → Coding E → List Output → Bytes
  unfolding flushed encode
  stream raises c [] = flushed zlib encoding raises c.encoder
  stream raises c (yield_output ∷ os) = stream raises c os
  stream raises c (data_output text ∷ os) =
      let (more, c') = encode zlib encoding c text in more ++ stream raises c' os

  -- Where the writing of the response `all` stands.
  abbrev StandsIn : Stage → Bytes → Sender E → Type 0
  StandsIn writing all s =
      (s.sent ++ (s.rest ++ stream s.raises s.coding s.outputs) ≡ all)
      × (is_empty (s.sent ++ s.rest) ≡ not s.started)
      × (is_open zlib encoding s.coding ≡ true → s.rest ≡ [])
  StandsIn flushing all s = (s.sent ++ s.rest ≡ all) × (is_empty all ≡ false)
  StandsIn no_response all s = (all ≡ []) × (s.sent ++ s.rest ≡ message_500)
  StandsIn closed all s = s.sent ≡ (if is_empty all then message_500 else all)
  StandsIn aborted all s = Unit

  abbrev Stands : Bytes → Sender E → Type 0
  Stands all s = StandsIn s.stage all s

  in_stage :
      (m : Stage) (all : Bytes) (s : Sender E) → s.stage ≡ m → StandsIn m all s → Stands all s
  in_stage m all s e h = subst (λ x. StandsIn x all s) (sym e) h

  close-Stands :
      (started : Bool) (all : Bytes) (s : Sender E)
      → s.sent ≡ all
      → is_empty s.sent ≡ not started
      → Stands all (close_or_500 zlib encoding started s)
  unfolding close_or_500
  close-Stands true all s h k = let e : is_empty all ≡ false = sym (ap is_empty h) ∙ k in rw e h
  close-Stands false all s h k =
      let e = is_empty_nil s.sent k in (sym h ∙ e, ap (λ x. x ++ message_500) e)

  flush_out-Stands :
      (text all : Bytes) (s : Sender E)
      → s.sent ++ text ≡ all
      → is_empty s.sent ≡ not s.started
      → Stands all (flush_out zlib encoding text s)
  unfolding flush_out
  flush_out-Stands [] all s h k = close-Stands s.started all s (sym (append-nil s.sent) ∙ h) k
  flush_out-Stands (b ∷ text) all s h k = (h, sym (ap is_empty h) ∙ is_empty-append s.sent b text)

  -- Data goes out while the headers are complete or nothing is compressed.
  put_out-Stands :
      (room : Option ℕ) (b : ℕ) (t all : Bytes) (s : Sender E)
      → s.stage ≡ writing
      → s.started ≡ true
      → is_open zlib encoding s.coding ≡ false
      → s.sent ++ ((b ∷ t) ++ stream s.raises s.coding s.outputs) ≡ all
      → Stands all (put_out zlib encoding room (b ∷ t) s)
  unfolding put_out
  put_out-Stands none b t all s m st o h = tt
  put_out-Stands (some n) b t all s m st o h =
      in_stage writing all (record s { sent = s.sent ++ take n (b ∷ t); rest = drop n (b ∷ t) }) m
        (
          sym (
                append_assoc (s.sent ++ take n (b ∷ t)) (drop n (b ∷ t))
                  (stream s.raises s.coding s.outputs))
              ∙ ap (λ x. x ++ stream s.raises s.coding s.outputs) (parts_append n s.sent (b ∷ t))
              ∙ append_assoc s.sent (b ∷ t) (stream s.raises s.coding s.outputs)
              ∙ h,
          ap is_empty (parts_append n s.sent (b ∷ t))
              ∙ is_empty-append s.sent b t
              ∙ sym (ap not st),
          (λ e. absurd (not_both (is_open zlib encoding s.coding) e o)),
        )

  begin_body_closed :
      (e : E) (text : Bytes) (u : Option (Bytes × Bytes))
      → is_open zlib encoding (begin_body zlib encoding e text u).1 ≡ false
  unfolding begin_body is_open
  begin_body_closed e text none = refl
  begin_body_closed e text (some (head, body)) = refl

  encode_header_open :
      (e : E) (text : Bytes) (m : Option Matched)
      → is_open zlib encoding (encode_header zlib encoding e text m).1 ≡ true
      → (encode_header zlib encoding e text m).0 ≡ []
  unfolding encode_header
  encode_header_open e text none h = refl
  encode_header_open e text (some m) h = absurd (not_both _ h (begin_body_closed e text _))

  encode_with_open :
      (e : Option E) (b : Bool) (hs text : Bytes)
      → is_open zlib encoding (encode_with zlib encoding e b hs text).1 ≡ true
      → (encode_with zlib encoding e b hs text).0 ≡ []
  unfolding encode_with is_open
  encode_with_open none b hs text h = cc
  encode_with_open (some e) false hs text h =
      encode_header_open e (hs ++ text) (match_whole (hs ++ text)) h
  encode_with_open (some e) true hs text h = cc

  put_encoded-Stands :
      (room : Option ℕ) (text all : Bytes) (c : Coding E) (s : Sender E)
      → s.stage ≡ writing
      → s.rest ≡ []
      → s.sent ++ (text ++ stream s.raises c s.outputs) ≡ all
      → is_empty s.sent ≡ not s.started
      → (is_open zlib encoding c ≡ true → text ≡ [])
      → Stands all (put_encoded zlib encoding room (text, c) s)
  unfolding put_encoded put_out_any
  put_encoded-Stands room [] all c s m r h k o =
      in_stage writing all (record s { coding = c }) m
        (
          ap (λ x. s.sent ++ (x ++ stream s.raises c s.outputs)) r ∙ h,
          ap (λ x. is_empty (s.sent ++ x)) r ∙ ap is_empty (append-nil s.sent) ∙ k,
          (λ e. r),
        )
  put_encoded-Stands room (b ∷ t) all c s m r h k o =
      put_out-Stands room b t all (record s { coding = c; started = true }) m refl
        (bool_false (is_open zlib encoding c) (λ e. not_cons b t (o e))) h

  next_output-Stands :
      (room : Option ℕ) (os : List Output) (all : Bytes) (s : Sender E)
      → s.stage ≡ writing
      → s.rest ≡ []
      → s.sent ++ stream s.raises s.coding os ≡ all
      → is_empty s.sent ≡ not s.started
      → Stands all (next_output zlib encoding room os s)
  unfolding next_output stream encode
  next_output-Stands room [] all s m r h k =
      flush_out-Stands (flushed zlib encoding s.raises s.coding.encoder) all s h k
  next_output-Stands room (yield_output ∷ os) all s m r h k =
      in_stage writing all (record s { outputs = os }) m
        (
          ap (λ x. s.sent ++ (x ++ stream s.raises s.coding os)) r ∙ h,
          ap (λ x. is_empty (s.sent ++ x)) r ∙ ap is_empty (append-nil s.sent) ∙ k,
          (λ e. r),
        )
  next_output-Stands room (data_output text ∷ os) all s m r h k =
      let p =
        encode_with zlib encoding s.coding.encoder s.coding.end_header s.coding.headers text in
      put_encoded-Stands room p.0 all p.1 (record s { outputs = os }) m r h k
        (encode_with_open s.coding.encoder s.coding.end_header s.coding.headers text)

  write_main-Stands :
      (room : Option ℕ) (rest all : Bytes) (s : Sender E)
      → s.stage ≡ writing
      → s.rest ≡ rest
      → s.sent ++ (rest ++ stream s.raises s.coding s.outputs) ≡ all
      → is_empty (s.sent ++ rest) ≡ not s.started
      → (is_open zlib encoding s.coding ≡ true → rest ≡ [])
      → Stands all (write_main zlib encoding room rest s)
  unfolding write_main
  write_main-Stands room [] all s m r h k o =
      next_output-Stands room s.outputs all s m r h (sym (ap is_empty (append-nil s.sent)) ∙ k)
  write_main-Stands room (b ∷ t) all s m r h k o =
      let closed_headers = bool_false (is_open zlib encoding s.coding) (λ e. not_cons b t (o e)) in
      rw closed_headers
        (put_out-Stands room b t all (record s { started = true }) m refl closed_headers h)

  close_flushing :
      (rest all : Bytes) (s : Sender E)
      → s.stage ≡ flushing
      → s.rest ≡ rest
      → s.sent ++ rest ≡ all
      → is_empty all ≡ false
      → Stands all (close_if_sent zlib encoding flushing rest s)
  unfolding close_if_sent
  close_flushing [] all s m r h k = rw k (sym (append-nil s.sent) ∙ h)
  close_flushing (b ∷ rest) all s m r h k =
      in_stage flushing all s m (ap (λ x. s.sent ++ x) r ∙ h, k)

  close_no_response :
      (rest all : Bytes) (s : Sender E)
      → s.stage ≡ no_response
      → s.rest ≡ rest
      → s.sent ++ rest ≡ message_500
      → all ≡ []
      → Stands all (close_if_sent zlib encoding no_response rest s)
  unfolding close_if_sent
  close_no_response [] all s m r h k = rw k (sym (append-nil s.sent) ∙ h)
  close_no_response (b ∷ rest) all s m r h k =
      in_stage no_response all s m (k, ap (λ x. s.sent ++ x) r ∙ h)

  -- The two loops that send what is left.
  write_rest_flushing :
      (room : Option ℕ) (all : Bytes) (s : Sender E)
      → s.stage ≡ flushing
      → StandsIn flushing all s
      → Stands all (write_rest zlib encoding room s)
  unfolding write_rest put_out close_if_sent
  write_rest_flushing none all s m h = tt
  write_rest_flushing (some n) all s m h =
      let t : Sender E = record s { sent = s.sent ++ take n s.rest; rest = drop n s.rest } in
      subst (λ x. Stands all (close_if_sent zlib encoding x (drop n s.rest) t)) (sym m)
        (close_flushing (drop n s.rest) all t m refl (parts_append n s.sent s.rest ∙ h.0) h.1)

  write_rest_no_response :
      (room : Option ℕ) (all : Bytes) (s : Sender E)
      → s.stage ≡ no_response
      → StandsIn no_response all s
      → Stands all (write_rest zlib encoding room s)
  unfolding write_rest put_out close_if_sent
  write_rest_no_response none all s m h = tt
  write_rest_no_response (some n) all s m h =
      let t : Sender E = record s { sent = s.sent ++ take n s.rest; rest = drop n s.rest } in
      subst (λ x. Stands all (close_if_sent zlib encoding x (drop n s.rest) t)) (sym m)
        (close_no_response (drop n s.rest) all t m refl (parts_append n s.sent s.rest ∙ h.1) h.0)

  write_in-Stands :
      (m : Stage) (room : Option ℕ) (all : Bytes) (s : Sender E)
      → s.stage ≡ m
      → StandsIn m all s
      → Stands all (write_in zlib encoding m room s)
  unfolding write_in
  write_in-Stands writing room all s m h = write_main-Stands room s.rest all s m refl h.0 h.1 h.2
  write_in-Stands flushing room all s m h = write_rest_flushing room all s m h
  write_in-Stands no_response room all s m h = write_rest_no_response room all s m h
  write_in-Stands closed room all s m h = in_stage closed all s m h
  write_in-Stands aborted room all s m h = in_stage aborted all s m h

  write_all-Stands :
      (rooms : List (Option ℕ)) (all : Bytes) (s : Sender E)
      → Stands all s
      → Stands all (write_all zlib encoding rooms s)
  unfolding write_all
  write_all-Stands [] all s h = h
  write_all-Stands (room ∷ rooms) all s h =
      write_all-Stands rooms all (write_in zlib encoding s.stage room s)
        (write_in-Stands s.stage room all s refl h)

  -- The response to a request that wants it compressed.
  abbrev pub encoded : E → List Output → Bool → Bytes
  encoded e outputs raises =
      stream raises (record { encoder = some e; end_header = false; headers = [] }) outputs

  -- However little the socket takes at a time: when the server has closed the connection by itself,
  -- the peer has got all that comes of the outputs, each encoded once behind those before it, and what
  -- `flush` gives, in this order and nothing else; or, if that is nothing, the message of an internal
  -- error.
  pub write_compressed-stream :
      (e : E) (outputs : List Output) (raises : Bool) (rooms : List (Option ℕ))
      → (write_all zlib encoding rooms (write_compressed zlib encoding e outputs raises)).stage
        ≡ closed
      → (write_all zlib encoding rooms (write_compressed zlib encoding e outputs raises)).sent
        ≡ (if is_empty (encoded e outputs raises) then message_500 else encoded e outputs raises)
  unfolding write_compressed
  write_compressed-stream e outputs raises rooms h =
      subst
        (λ m.
          StandsIn m (encoded e outputs raises)
            (write_all zlib encoding rooms (write_compressed zlib encoding e outputs raises)))
        h
        (write_all-Stands rooms (encoded e outputs raises)
          (write_compressed zlib encoding e outputs raises) (refl, refl, (λ o. refl)))
