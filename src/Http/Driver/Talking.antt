-- ===== src/Http/Driver/Talking.antt =====
-- weightless/http/_httprequest1_1.py: what its calls keep, the sending of a request and the reading of its
-- response keep.
use weightless_core.Base.{ℕ, zero, suc, refl, Bool, List, [], ◌∷◌, drop}
use weightless_core.Http.Regexp.{Bytes}
use weightless_core.Http.Body.{Body, complete, body_value_error, body_error, body_pending, Recv}
use weightless_core.Http.Headers.{Headers}
use weightless_core.Http.Strategy.{
  StatusLine, HeaderRead, header_read, header_closed, header_error, header_pending, read_header,
  Strategy, Determined, determined, value_error, attribute_error, determine_body_read_strategy,
  read_body,
}
use weightless_core.Http.Driver.{
  Env, Call, yields, receives, add_writer, remove_writer, add_reader, remove_reader, sends, Driver,
  perform, set_got_data, set_headers,
}
use weightless_core.Http.Driver.Request.{async_send, send_http_headers, send_request}
use weightless_core.Http.Driver.Run.{
  Arguments, gets_data, request_header, body_read, with_strategy, header_and_body,
  read_header_and_body, send_and_read,
}
use weightless_core.Http.Driver.Keeps.{Keeps, finally-Keeps, asks-Keeps, then-Keeps}
use weightless_core.Http.Driver.Parts.{logged, Talks, perform-Keeps}

module _ (env : Env) (I : Driver → Type 0) where
  module _ (s : ℕ) (sending : (text : Bytes) (w : Driver) → I w → I (logged (sends s text) w))
      (waiting : (w : Driver) → I w → I (logged yields w)) where
    async_send-Keeps : (n : ℕ) (text : Bytes) → Keeps I (async_send env n s text)
    unfolding async_send
    async_send-Keeps n [] = λ w i. i
    async_send-Keeps zero (b ∷ text) = λ w i. i
    async_send-Keeps (suc n) (b ∷ text) =
        then-Keeps I (perform env (sends s (b ∷ text))) _
          (perform-Keeps env I (sends s (b ∷ text)) (sending (b ∷ text)))
          (asks-Keeps I _ _ λ size.
            then-Keeps I (perform env yields) _ (perform-Keeps env I yields waiting)
              (async_send-Keeps n (drop size (b ∷ text))))

    pub send_request-Keeps :
        ((hs : List (Bytes × Bytes)) (w : Driver) → I w → I (record w { headers = hs }))
        → (method request host body : Bytes) → Keeps I (send_request env s method request host body)
    unfolding send_request send_http_headers set_headers
    send_request-Keeps changed method request host body = asks-Keeps I _ _ λ hs.
        then-Keeps I _ _
          (then-Keeps I (set_headers hs) _ (changed hs) (
            asks-Keeps I _ _ λ hs'.
              then-Keeps I (set_headers hs') _ (changed hs') (async_send-Keeps env.patience _)))
          (async_send-Keeps env.patience body)

  module _ (args : Arguments) where
    body_read-Keeps :
        (line : StatusLine) (fields : Headers) (strategy : Strategy) (b : Bool) (body : Body)
        → Keeps I (body_read env args line fields strategy b body)
    unfolding body_read
    body_read-Keeps line fields strategy b (complete body) = λ w i. i
    body_read-Keeps line fields strategy b body_value_error = λ w i. i
    body_read-Keeps line fields strategy b body_error = λ w i. i
    body_read-Keeps line fields strategy b body_pending = asks-Keeps I _ _ λ e w i. i

    with_strategy-Keeps :
        (line : StatusLine) (fields : Headers) (rest : Bytes) (sok : List Recv)
        (d : Determined (Strategy × Bool))
        → Keeps I (with_strategy env args line fields rest sok d)
    unfolding with_strategy
    with_strategy-Keeps line fields rest sok (determined (strategy, b)) =
        body_read-Keeps line fields strategy b (read_body strategy args.max_size sok rest)
    with_strategy-Keeps line fields rest sok value_error = λ w i. i
    with_strategy-Keeps line fields rest sok attribute_error = λ w i. i

    pub header_and_body-Keeps :
        (hs : List (Bytes × Bytes)) (h : HeaderRead) → Keeps I (header_and_body env args hs h)
    unfolding header_and_body
    header_and_body-Keeps hs header_closed = λ w i. i
    header_and_body-Keeps hs header_error = λ w i. i
    header_and_body-Keeps hs header_pending = asks-Keeps I _ _ λ e w i. i
    header_and_body-Keeps hs (header_read line fields rest sok) =
        with_strategy-Keeps line fields rest sok
          (determine_body_read_strategy line fields args.method (request_header hs) args.max_size)

  module _ (s : ℕ) (talks : (c : Call) → Talks s c → (w : Driver) → I w → I (logged c w)) where
    perform_talk : (c : Call) → Talks s c → Keeps I (perform env c)
    perform_talk c t = perform-Keeps env I c (talks c t)

    module _ (got : (b : Bool) (w : Driver) → I w → I (record w { got_data = b }))
        (changed : (hs : List (Bytes × Bytes)) (w : Driver) → I w → I (record w { headers = hs }))
        (args : Arguments) where
      send_all-Keeps : Keeps I (send_request env s args.method args.request args.host args.body)
      send_all-Keeps =
          send_request-Keeps s (λ text. talks (sends s text) refl) (talks yields tt) changed
            args.method args.request args.host args.body

      read_header_and_body-Keeps : Keeps I (read_header_and_body env args s)
      unfolding read_header_and_body set_got_data
      read_header_and_body-Keeps =
          then-Keeps I (perform env (receives s)) _ (perform_talk (receives s) tt) (
            asks-Keeps I _ _ λ sok.
              then-Keeps I (set_got_data (gets_data sok)) _ (got (gets_data sok))
                (asks-Keeps I _ _ λ hs. header_and_body-Keeps args hs (read_header sok [])))

      pub send_and_read-Keeps : Keeps I (send_and_read env args s)
      unfolding send_and_read
      send_and_read-Keeps =
          then-Keeps I _ _
            (then-Keeps I _ _
              (then-Keeps I _ _ (perform_talk (add_writer s) tt) (
                finally-Keeps I _ _ (then-Keeps I _ _ (perform_talk yields tt) send_all-Keeps)
                  (perform_talk (remove_writer s) tt)))
              (perform_talk (add_reader s) tt))
            (finally-Keeps I _ _ read_header_and_body-Keeps (perform_talk (remove_reader s) tt))
