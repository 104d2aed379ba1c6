-- ===== src/Http/Driver/Sends.antt =====
-- weightless/http/_httprequest1_1.py: what the peer gets of a request.
use weightless_core.Base.{
  ==_refl, parts_append, ℕ, zero, suc, ◌≡◌, refl, sym, ap, ◌∙◌, subst, Option, none, some, List, [],
  ◌∷◌, ◌++◌, if◌then◌else◌, ◌==◌, take, drop, append_assoc, append-nil,
}
use weightless_core.Http.Regexp.{Bytes, crlf}
use weightless_core.Http.Driver.{
  Env, Error, yields, sends, Driver, Result, ok, raised, M, ◌>>◌, exit, perform, may_raise,
  set_headers, Log,
}
use weightless_core.Http.Driver.Request.{
  async_send, send_http_headers, send_request, request_line, header_lines, with_host, with_length,
}
use weightless_core.Http.Driver.Keeps.{Keeps, Triple, asks-Triple, Always, >>=-Triple}
use weightless_core.Http.Driver.Parts.{logged, perform-Keeps}

module _ (env : Env) (s : ℕ) where
  -- What the socket takes of a `send`, which may raise.
  unfoldable pub part_taken : Option Error → ℕ → Bytes → Bytes
  part_taken none size text = take size text
  part_taken (some e) size text = []

  -- What the socket has taken, by the log.
  unfoldable pub taken : Log → Bytes
  unfolding part_taken
  taken [] = []
  taken (sends t text ∷ log) =
      taken log
      ++ (if t == s
          then part_taken (env.raises (sends t text ∷ log)) (env.size_sent (sends t text ∷ log))
              text
          else [])
  taken (c ∷ log) = taken log

  -- All is taken; or a first part of it, if an exception ends the sending.
  abbrev pub Sent : Bytes → Result (Unit {0}) → Driver → Type 0
  Sent all (ok u) w = taken w.log ≡ all
  Sent all (raised e) w = (rest : Bytes) × (taken w.log ++ rest ≡ all)

  abbrev Took : Bytes → Driver → Type 0
  Took sent w = taken w.log ≡ sent

  -- After one `send`.
  abbrev SentOne : Bytes → Bytes → Result (Unit {0}) → Driver → Type 0
  SentOne sent text (ok u) w = Took (sent ++ take (env.size_sent w.log) text) w
  SentOne sent text (raised e) w = Took sent w

  after_send :
      (sent text : Bytes) (w : Driver) (x : Option Error)
      → Took sent w
      → env.raises (sends s text ∷ w.log) ≡ x
      → SentOne sent text
          (may_raise x (logged (sends s text) w)).0
          (may_raise x (logged (sends s text) w)).1
  unfolding taken part_taken
  after_send sent text w none h e =
      rw (==_refl s, e) (ap (λ x. x ++ take (env.size_sent (sends s text ∷ w.log)) text) h)
  after_send sent text w (some x) h e = rw (==_refl s, e) (append-nil (taken w.log) ∙ h)

  sends-SentOne :
      (sent text : Bytes) → Triple (Took sent) (perform env (sends s text)) (SentOne sent text)
  unfolding perform
  sends-SentOne sent text w h = after_send sent text w (env.raises (sends s text ∷ w.log)) h refl

  yields-Took : (sent : Bytes) → Keeps (Took sent) (perform env yields)
  unfolding taken
  yields-Took sent = perform-Keeps env (Took sent) yields (λ w h. h)

  rest_waits :
      (sent text : Bytes) (e : Error) (w : Driver) → Took sent w → Sent (sent ++ text) (raised e) w
  rest_waits sent text e w h = (text, ap (λ x. x ++ text) h)

  -- Behind one `send`, by what it took.
  Sent-one :
      (sent text : Bytes) (size : ℕ) (more : M (Unit {0}))
      → Triple
          (Took (sent ++ take size text))
          more
          (Sent ((sent ++ take size text) ++ drop size text))
      → Triple (Took (sent ++ take size text)) (perform env yields >> more) (Sent (sent ++ text))
  Sent-one sent text size more h =
      subst (λ all. Triple (Took (sent ++ take size text)) (perform env yields >> more) (Sent all))
        (parts_append size sent text)
        (>>=-Triple _ (λ r. Took (sent ++ take size text))
          (Sent ((sent ++ take size text) ++ drop size text)) (perform env yields) _
          (yields-Took (sent ++ take size text)) (λ u. h)
          (rest_waits (sent ++ take size text) (drop size text)))

  pub async_send-Sent :
      (n : ℕ) (sent text : Bytes)
      → Triple (Took sent) (async_send env n s text) (Sent (sent ++ text))
  unfolding async_send
  async_send-Sent n sent [] = λ w h. h ∙ sym (append-nil sent)
  async_send-Sent zero sent (b ∷ text) = rest_waits sent (b ∷ text) exit
  async_send-Sent (suc n) sent (b ∷ text) =
      >>=-Triple (Took sent) (SentOne sent (b ∷ text)) (Sent (sent ++ b ∷ text)) _ _
        (sends-SentOne sent (b ∷ text))
        (λ u. asks-Triple (SentOne sent (b ∷ text) (ok u)) (Sent (sent ++ b ∷ text)) _ _ λ size w h.
          Sent-one sent (b ∷ text) size (async_send env n s (drop size (b ∷ text)))
            (async_send-Sent n (sent ++ take size (b ∷ text)) (drop size (b ∷ text))) w
            (subst (λ k. Took (sent ++ take k (b ∷ text)) w) h.1 h.0))
        (rest_waits sent (b ∷ text))

  -- What the peer is to get of the request.
  abbrev pub head_text : Bytes → Bytes → Bytes → List (Bytes × Bytes) → Bytes
  head_text method request host hs =
      request_line method request ++ (header_lines (with_host host hs) ++ crlf)

  send_http_headers-Sent :
      (sent method request host : Bytes) (hs : List (Bytes × Bytes))
      → Triple
          (λ w. Took sent w × (w.headers ≡ hs))
          (send_http_headers env s method request host)
          (Sent (sent ++ head_text method request host hs))
  unfolding send_http_headers set_headers
  send_http_headers-Sent sent method request host hs =
      asks-Triple (λ w. Took sent w × (w.headers ≡ hs))
        (Sent (sent ++ head_text method request host hs)) _ _
        λ hs' w h.
          >>=-Triple (Took sent) (Always (Took sent))
            (Sent (sent ++ head_text method request host hs)) (set_headers hs') _ (λ v i. i)
            (λ u.
              subst
                (λ x.
                  Triple (Took sent)
                    (async_send env env.patience s
                      (request_line method request ++ (header_lines hs' ++ crlf)))
                    (Sent (sent ++ (request_line method request ++ (header_lines x ++ crlf)))))
                (sym h.1 ∙ ap (with_host host) h.0.1)
                (async_send-Sent env.patience sent
                  (request_line method request ++ (header_lines hs' ++ crlf))))
            (λ e v i. absurd i) w h.0.0

  -- Whatever the socket takes at a time: at the end of `send_request` it has taken the request line,
  -- the headers (with a `Host` if there is none, and a `Content-Length` if there is a body) and the
  -- body, in this order and nothing else; or a first part of that, if an exception ends the sending.
  pub send_request-Sent :
      (sent method request host body : Bytes) (hs : List (Bytes × Bytes)) (w : Driver)
      → taken w.log ≡ sent
      → w.headers ≡ hs
      → Sent
          (sent ++ (head_text method request host (with_length body hs) ++ body))
          (send_request env s method request host body w).0
          (send_request env s method request host body w).1
  unfolding send_request set_headers
  send_request-Sent sent method request host body hs w t e =
      asks-Triple (λ w. Took sent w × (w.headers ≡ hs)) (Sent (sent ++ (text ++ body))) _ _
        (λ hs' v h.
          >>=-Triple (Took sent) (Sent (sent ++ text)) (Sent (sent ++ (text ++ body))) _ _
            (>>=-Triple (Took sent) (Always (λ w. Took sent w × (w.headers ≡ hs')))
              (Sent (sent ++ text)) (set_headers hs') _ (λ x i. (i, refl))
              (λ u.
                subst
                  (λ y.
                    Triple (λ w. Took sent w × (w.headers ≡ hs'))
                      (send_http_headers env s method request host)
                      (Sent (sent ++ head_text method request host y)))
                  (sym h.1 ∙ ap (with_length body) h.0.1)
                  (send_http_headers-Sent sent method request host hs'))
              (λ e v i. absurd i))
            (λ u.
              subst
                (λ all.
                  Triple (Took (sent ++ text)) (async_send env env.patience s body) (Sent all))
                (append_assoc sent text body) (async_send-Sent env.patience (sent ++ text) body))
            (λ e x i. (
              i.0 ++ body,
              sym (append_assoc _ i.0 body) ∙ ap (λ y. y ++ body) i.1 ∙ append_assoc sent text body,
            ))
            v h.0.0)
        w (t, e)
    where
      text : Bytes
      text = head_text method request host (with_length body hs)
