-- ===== src/Http/Response/Compress.antt =====
-- weightless/http/_httpserver.py: how `HttpHandler` writes a response that it compresses. zlib is the
-- parameter `Compression`; as in Http/Response, the handler's generator is the list of what it yields,
-- an output that is called is left out, and the socket takes a part of the data, or raises.
use weightless_core.Base.{
  ℕ, Bool, true, false, Option, none, some, List, [], ◌∷◌, ◌++◌, if◌then◌else◌, take, drop,
}
use weightless_core.Http.Regexp.{Bytes}
use weightless_core.Http.Names.{content_encoding, content_length}
use weightless_core.Http.Response.{Output, data_output, yield_output, message_500}
use weightless_core.Http.Response.Update.{Matched, match_whole, update_response_headers}

-- An object that compresses.
pub record Compression : Type 1 where
  pub E : Type 0
  pub compress : E → Bytes → Bytes × E
  pub flush : E → Bytes

-- The main loop, the loop behind `flush`, `_no_response_500`, and the two ways in which the connection is
-- closed.
pub data Stage : Type 0 where
  writing flushing no_response closed aborted : Stage

-- `encodeResponseBody`, `endHeader` and `headers`.
pub record Coding (E : Type 0) : Type 0 where
  pub encoder : Option E
  pub end_header : Bool
  pub headers : Bytes

-- `raises` says that the generator raises behind its last output; `sent` is what the socket took.
pub record Sender (E : Type 0) : Type 0 where
  pub outputs : List Output
  pub raises : Bool
  pub rest : Bytes
  pub started : Bool
  pub stage : Stage
  pub coding : Coding E
  pub sent : Bytes

module _ (zlib : Compression) (encoding : Bytes) where
  open zlib use {E, compress, flush}

  -- The data to send (none of it: go on), once the headers are complete.
  unfoldable pub begin_body : E → Bytes → Option (Bytes × Bytes) → Bytes × Coding E
  begin_body e text none = (text, record { encoder = none; end_header = true; headers = text })
  begin_body e text (some (head, body)) =
      let (first, e') = compress e body in
      (head ++ first, record { encoder = some e'; end_header = true; headers = text })

  unfoldable pub encode_header : E → Bytes → Option Matched → Bytes × Coding E
  unfolding begin_body update_response_headers
  encode_header e text none = ([], record { encoder = some e; end_header = false; headers = text })
  encode_header e text (some m) = begin_body e text (
      update_response_headers m ((content_encoding, encoding) ∷ []) (content_length ∷ [])
        (content_encoding ∷ []))

  unfoldable pub encode_with : Option E → Bool → Bytes → Bytes → Bytes × Coding E
  unfolding encode_header match_whole
  encode_with none end_header hs text =
      (text, record { encoder = none; end_header = end_header; headers = hs })
  encode_with (some e) false hs text = encode_header e (hs ++ text) (match_whole (hs ++ text))
  encode_with (some e) true hs text =
      let (more, e') = compress e text in
      (more, record { encoder = some e'; end_header = true; headers = hs })

  -- New data of the handler.
  unfoldable pub encode : Coding E → Bytes → Bytes × Coding E
  unfolding encode_with
  encode c text = encode_with c.encoder c.end_header c.headers text

  -- The end of the headers is awaited.
  unfoldable pub is_open : Coding E → Bool
  is_open c = elim c.encoder [ none ↦ false | some e ↦ if c.end_header then false else true ]

  -- `_send`
  unfoldable pub put_out : Option ℕ → Bytes → Sender E → Sender E
  put_out none text s = record s { stage = aborted }
  put_out (some n) text s = record s { sent = s.sent ++ take n text; rest = drop n text }

  unfoldable pub put_out_any : Option ℕ → Bytes → Sender E → Sender E
  unfolding put_out
  put_out_any room [] s = s
  put_out_any room (b ∷ text) s = put_out room (b ∷ text) (record s { started = true })

  unfoldable pub close_or_500 : Bool → Sender E → Sender E
  close_or_500 true s = record s { stage = closed }
  close_or_500 false s = record s { stage = no_response; rest = message_500 }

  unfoldable pub flush_out : Bytes → Sender E → Sender E
  unfolding close_or_500
  flush_out [] s = close_or_500 s.started s
  flush_out (b ∷ text) s = record s { stage = flushing; rest = b ∷ text }

  -- What `flush` gives at the end of the generator, if it does not raise.
  unfoldable pub flushed : Bool → Option E → Bytes
  flushed true e = []
  flushed false none = []
  flushed false (some e) = flush e

  unfoldable pub put_encoded : Option ℕ → Bytes × Coding E → Sender E → Sender E
  unfolding put_out_any
  put_encoded room (text, c) s = put_out_any room text (record s { coding = c })

  unfoldable pub next_output : Option ℕ → List Output → Sender E → Sender E
  unfolding flush_out flushed put_encoded encode
  next_output room [] s = flush_out (flushed s.raises s.coding.encoder) s
  next_output room (yield_output ∷ os) s = record s { outputs = os }
  next_output room (data_output text ∷ os) s =
      put_encoded room (encode s.coding text) (record s { outputs = os })

  -- The rest of the data; it counts as headers if their end is awaited.
  unfoldable pub write_main : Option ℕ → Bytes → Sender E → Sender E
  unfolding next_output put_out put_encoded encode is_open
  write_main room [] s = next_output room s.outputs s
  write_main room (b ∷ rest) s =
      if is_open s.coding
      then put_encoded room (encode s.coding (b ∷ rest)) s
      else put_out room (b ∷ rest) (record s { started = true })

  -- Behind the last part of what `flush` gave, or of the message.
  unfoldable pub close_if_sent : Stage → Bytes → Sender E → Sender E
  close_if_sent aborted rest s = s
  close_if_sent stage [] s = record s { stage = closed }
  close_if_sent stage (b ∷ rest) s = s

  unfoldable pub write_rest : Option ℕ → Sender E → Sender E
  unfolding put_out close_if_sent
  write_rest room s = let t = put_out room s.rest s in close_if_sent t.stage t.rest t

  -- One call of the writer.
  unfoldable pub write_in : Stage → Option ℕ → Sender E → Sender E
  unfolding write_main write_rest
  write_in writing room s = write_main room s.rest s
  write_in flushing room s = write_rest room s
  write_in no_response room s = write_rest room s
  write_in closed room s = s
  write_in aborted room s = s

  unfoldable pub write_all : List (Option ℕ) → Sender E → Sender E
  unfolding write_in
  write_all [] s = s
  write_all (room ∷ rooms) s = write_all rooms (write_in s.stage room s)

  -- `_writeResponse`, with the object that compresses.
  unfoldable pub write_compressed : E → List Output → Bool → Sender E
  write_compressed e outputs raises = record {
    outputs = outputs;
    raises = raises;
    rest = [];
    started = false;
    stage = writing;
    coding = record { encoder = some e; end_header = false; headers = [] };
    sent = [];
  }
