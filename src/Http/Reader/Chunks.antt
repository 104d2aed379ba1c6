-- ===== src/Http/Reader/Chunks.antt =====
-- weightless/http/_httpreader.py: which chunks the handler hears.
use weightless_core.Base.{
  ℕ, ◌≡◌, ◌≢◌, refl, sym, ap, ◌∙◌, subst, true, some, List, [], ◌∷◌, ◌++◌, map, leb, length, All,
  append-nil, append_assoc, arith, length-append, Bool-cases, inl, inr,
}
use weightless_core.Http.Regexp.{Bytes, cr, lf, chunk_size_line}
use weightless_core.Http.Chunked.Encode.{
  create_chunk, int16-hex, chunk_size_line-hex, create_chunk-append, hex,
}
use weightless_core.Http.Chunked.RoundTrip.{take-length, drop_line_end, length_nonempty, IsNonEmpty}
use weightless_core.Http.Reader.{
  Action, hears, handler_closes, add_timer, remove_timer, remove_reader, closes, Reader, act,
  start_timer, stop_timer, stop, hand_out, send_chunk, send_fragment, body_fragment, body_fragments,
}

-- The data that the handler has heard.
unfoldable pub heard : List Action → List Bytes
heard [] = []
heard (hears text ∷ actions) = text ∷ heard actions
heard (a ∷ actions) = heard actions

-- What is done to end the connection: the reader is removed, the socket and the handler are closed.
unfoldable pub endings : List Action → List Action
endings [] = []
endings (remove_reader ∷ actions) = remove_reader ∷ endings actions
endings (closes ∷ actions) = closes ∷ endings actions
endings (handler_closes ∷ actions) = handler_closes ∷ endings actions
endings (a ∷ actions) = endings actions

abbrev pub the_end : List Action
the_end = remove_reader ∷ closes ∷ handler_closes ∷ []

heard-append : (xs ys : List Action) → heard (xs ++ ys) ≡ heard xs ++ heard ys
unfolding heard
heard-append [] ys = refl
heard-append (hears text ∷ xs) ys = ap (◌∷◌ text) (heard-append xs ys)
heard-append (a ∷ xs) ys = heard-append xs ys

endings-append : (xs ys : List Action) → endings (xs ++ ys) ≡ endings xs ++ endings ys
unfolding endings
endings-append [] ys = refl
endings-append (remove_reader ∷ xs) ys = ap (◌∷◌ remove_reader) (endings-append xs ys)
endings-append (closes ∷ xs) ys = ap (◌∷◌ closes) (endings-append xs ys)
endings-append (handler_closes ∷ xs) ys = ap (◌∷◌ handler_closes) (endings-append xs ys)
endings-append (a ∷ xs) ys = endings-append xs ys

-- Ready for the next chunk, having heard some more, with the connection as it was.
abbrev Ready : Reader → List Bytes → Reader → Type 0
Ready r texts q =
    (heard q.actions ≡ heard r.actions ++ texts)
    × (endings q.actions ≡ endings r.actions)
    × (q.buffer ≡ [])
    × (q.chunked_body ≡ true)

heard_act : (xs : List Action) (a : Action) → heard (xs ++ a ∷ []) ≡ heard xs ++ heard (a ∷ [])
heard_act xs a = heard-append xs (a ∷ [])

heard_silent :
    (xs : List Action) (a : Action) → heard (a ∷ []) ≡ [] → heard (xs ++ a ∷ []) ≡ heard xs
heard_silent xs a e = heard_act xs a ∙ ap (λ ys. heard xs ++ ys) e ∙ append-nil (heard xs)

heard-stop : (r : Reader) → heard (stop r).actions ≡ heard r.actions
unfolding stop act heard
heard-stop r =
    heard_silent ((r.actions ++ remove_reader ∷ []) ++ closes ∷ []) handler_closes refl
    ∙ heard_silent (r.actions ++ remove_reader ∷ []) closes refl
    ∙ heard_silent r.actions remove_reader refl

endings_silent :
    (xs : List Action) (a : Action) → endings (a ∷ []) ≡ [] → endings (xs ++ a ∷ []) ≡ endings xs
endings_silent xs a e =
    endings-append xs (a ∷ []) ∙ ap (λ ys. endings xs ++ ys) e ∙ append-nil (endings xs)

endings-stop : (r : Reader) → endings (stop r).actions ≡ endings r.actions ++ the_end
unfolding stop act endings
endings-stop r =
    ap endings (
      append_assoc (r.actions ++ remove_reader ∷ []) (closes ∷ []) (handler_closes ∷ [])
      ∙ append_assoc r.actions (remove_reader ∷ []) (closes ∷ handler_closes ∷ []))
    ∙ endings-append r.actions the_end

endings-start_timer : (r : Reader) → endings (start_timer r).actions ≡ endings r.actions
unfolding start_timer act endings
endings-start_timer r = endings_silent r.actions add_timer refl

endings-stop_timer : (r : Reader) → endings (stop_timer r).actions ≡ endings r.actions
unfolding stop_timer act endings
endings-stop_timer r =
    elim (Bool-cases r.timer) as (λ x. endings (stop_timer r).actions ≡ endings r.actions) [
      | inl e ↦ rw e (endings_silent r.actions remove_timer refl)
      | inr e ↦ rw e refl
    ]

heard-start_timer : (r : Reader) → heard (start_timer r).actions ≡ heard r.actions
unfolding start_timer act heard
heard-start_timer r = heard_silent r.actions add_timer refl

heard-stop_timer : (r : Reader) → heard (stop_timer r).actions ≡ heard r.actions
unfolding stop_timer act heard
heard-stop_timer r =
    elim (Bool-cases r.timer) as (λ x. heard (stop_timer r).actions ≡ heard r.actions) [
      | inl e ↦ rw e (heard_silent r.actions remove_timer refl)
      | inr e ↦ rw e refl
    ]

buffer-stop_timer : (r : Reader) → r.buffer ≡ [] → (stop_timer r).buffer ≡ []
unfolding stop_timer act
buffer-stop_timer r b = elim (Bool-cases r.timer) [ inl e ↦ rw e b | inr e ↦ rw e b ]

chunked_body-stop_timer : (r : Reader) → r.chunked_body ≡ true → (stop_timer r).chunked_body ≡ true
unfolding stop_timer act
chunked_body-stop_timer r c = elim (Bool-cases r.timer) [ inl e ↦ rw e c | inr e ↦ rw e c ]

not_nil : (xs ys : Bytes) (c : ℕ) → xs ++ c ∷ ys ≢ []
not_nil [] ys c = λ e. cc
not_nil (x ∷ xs) ys c = λ e. cc

body_fragment_data :
    (fragment : Bytes) (r : Reader)
    → fragment ≢ []
    → body_fragment fragment r ≡ start_timer (send_fragment fragment (stop_timer r))
unfolding body_fragment
body_fragment_data [] r h = absurd (h refl)
body_fragment_data (b ∷ fragment) r h = refl

create_chunk_nonempty : (text : Bytes) → create_chunk text ≢ []
unfolding create_chunk
create_chunk_nonempty text = not_nil (hex (length text)) _ cr

create_chunk_line :
    (text : Bytes)
    → chunk_size_line (create_chunk text) ≡ some (hex (length text), text ++ cr ∷ lf ∷ [])
create_chunk_line text =
    subst (λ x. chunk_size_line x ≡ some (hex (length text), text ++ cr ∷ lf ∷ []))
      (sym (create_chunk-append text []) ∙ append-nil (create_chunk text))
      (chunk_size_line-hex (length text) (text ++ cr ∷ lf ∷ []))

text_fits : (text : Bytes) → leb (length text) (length (text ++ cr ∷ lf ∷ [])) ≡ true
text_fits text = ground (arith, length-append text (cr ∷ lf ∷ []))

send_fragment-create_chunk :
    (text : Bytes) (r : Reader)
    → text ≢ []
    → r.buffer ≡ []
    → r.chunked_body ≡ true
    → send_fragment (create_chunk text) r ≡ act (hears text) (record r { buffer = [] })
unfolding send_fragment send_chunk hand_out
send_fragment-create_chunk text r h b c =
    rw
      (
        b,
        c,
        create_chunk_line text,
        int16-hex (length text),
        length_nonempty text h,
        text_fits text,
        take-length text (cr ∷ lf ∷ []),
        drop_line_end text [],
      )
      refl

send_fragment_last :
    (r : Reader)
    → r.buffer ≡ []
    → r.chunked_body ≡ true
    → send_fragment (create_chunk []) r ≡ stop (record r { buffer = create_chunk [] })
unfolding send_fragment send_chunk hand_out
send_fragment_last r b c = rw (b, c, create_chunk_line [], int16-hex 0) refl

body_fragment-Ready :
    (text : Bytes) (r : Reader)
    → text ≢ []
    → r.buffer ≡ []
    → r.chunked_body ≡ true
    → Ready r (text ∷ []) (body_fragment (create_chunk text) r)
unfolding start_timer act heard endings
body_fragment-Ready text r h b c =
    rw
      (
        body_fragment_data (create_chunk text) r (create_chunk_nonempty text),
        send_fragment-create_chunk text (stop_timer r) h (buffer-stop_timer r b)
            (chunked_body-stop_timer r c),
      )
      (heard_all, endings_all, refl, chunked_body-stop_timer r c)
  where
    q : Reader
    q = stop_timer r

    heard_all :
        heard (start_timer (act (hears text) (record q { buffer = [] }))).actions
        ≡ heard r.actions ++ text ∷ []
    heard_all =
        heard-start_timer (act (hears text) (record q { buffer = [] }))
        ∙ heard_act q.actions (hears text)
        ∙ ap (λ xs. xs ++ text ∷ []) (heard-stop_timer r)

    endings_all :
        endings (start_timer (act (hears text) (record q { buffer = [] }))).actions
        ≡ endings r.actions
    endings_all =
        endings-start_timer (act (hears text) (record q { buffer = [] }))
        ∙ endings_silent q.actions (hears text) refl
        ∙ endings-stop_timer r

body_fragments-append :
    (xs ys : List Bytes) (r : Reader)
    → body_fragments (xs ++ ys) r ≡ body_fragments ys (body_fragments xs r)
unfolding body_fragments
body_fragments-append [] ys r = refl
body_fragments-append (x ∷ xs) ys r = body_fragments-append xs ys (body_fragment x r)

body_fragments-Ready :
    (texts : List Bytes) (r : Reader)
    → r.buffer ≡ []
    → r.chunked_body ≡ true
    → All IsNonEmpty texts
    → Ready r texts (body_fragments (map create_chunk texts) r)
unfolding body_fragments
body_fragments-Ready [] r b c h = (sym (append-nil (heard r.actions)), refl, b, c)
body_fragments-Ready (text ∷ texts) r b c h =
    let (e, n, b', c') = body_fragment-Ready text r h.0 b c in
    let (e', n', b'', c'') =
      body_fragments-Ready texts (body_fragment (create_chunk text) r) b' c' h.1 in
    (
      e' ∙ ap (λ xs. xs ++ texts) e ∙ append_assoc (heard r.actions) (text ∷ []) texts,
      n' ∙ n,
      b'',
      c'',
    )

-- The end of the response: what the handler has heard stays, and the connection is ended.
body_fragment_stops :
    (r : Reader)
    → r.buffer ≡ []
    → r.chunked_body ≡ true
    → (heard (body_fragment (create_chunk []) r).actions ≡ heard r.actions)
      × (endings (body_fragment (create_chunk []) r).actions ≡ endings r.actions ++ the_end)
body_fragment_stops r b c =
    let q : Reader = record (stop_timer r) { buffer = create_chunk [] } in
    rw
      (
        body_fragment_data (create_chunk []) r (create_chunk_nonempty []),
        send_fragment_last (stop_timer r) (buffer-stop_timer r b) (chunked_body-stop_timer r c),
      )
      (
        heard-start_timer (stop q) ∙ heard-stop q ∙ heard-stop_timer r,
        endings-start_timer (stop q)
            ∙ endings-stop q
            ∙ ap (λ xs. xs ++ the_end) (endings-stop_timer r),
      )

-- A chunked response of which each chunk, none of them empty, arrives as one fragment: the handler
-- hears the data of all chunks in their order and nothing else. Nothing ends the connection before the
-- last chunk, at which the reader is removed and then the socket and the handler are closed, each once.
pub body_fragments-create_chunk :
    (texts : List Bytes) (r : Reader)
    → r.buffer ≡ []
    → r.chunked_body ≡ true
    → All IsNonEmpty texts
    → (heard (body_fragments (map create_chunk texts ++ create_chunk [] ∷ []) r).actions
        ≡ heard r.actions ++ texts)
      × (endings (body_fragments (map create_chunk texts) r).actions ≡ endings r.actions)
      × (endings (body_fragments (map create_chunk texts ++ create_chunk [] ∷ []) r).actions
          ≡ endings r.actions ++ the_end)
unfolding body_fragments
body_fragments-create_chunk texts r b c h =
    let (e, n, b', c') = body_fragments-Ready texts r b c h in
    let (e', n') = body_fragment_stops (body_fragments (map create_chunk texts) r) b' c' in
    rw (body_fragments-append (map create_chunk texts) (create_chunk [] ∷ []) r)
      (e' ∙ e, n, n' ∙ ap (λ xs. xs ++ the_end) n)
