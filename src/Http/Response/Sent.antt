-- ===== src/Http/Response/Sent.antt =====
-- weightless/http/_httpserver.py: what the peer gets of a response.
use weightless_core.Base.{
  is_empty-append, is_empty_nil, not-false, parts_append, ℕ, ◌≡◌, refl, subst, sym, ap, ◌∙◌, Bool,
  true, false, not, Option, none, some, List, [], ◌∷◌, ◌++◌, is_empty, take, drop, append_assoc,
  append-nil, if◌then◌else◌,
}
use weightless_core.Http.Regexp.{Bytes}
use weightless_core.Http.Response.{
  Output, data_output, yield_output, Mode, writing, no_response, closed, aborted, Writer,
  message_500, send, end_of_handler, next_output, write_main, close_if_sent, write_no_response,
  write_in, write, write_all, write_response,
}

-- All data that the handler yields.
abbrev pub response : List Output → Bytes
response [] = []
response (yield_output ∷ os) = response os
response (data_output text ∷ os) = text ++ response os

-- Where the writing of the response `all` stands.
abbrev StandsIn : Mode → Bytes → Writer → Type 0
StandsIn writing all w =
    (w.sent ++ (w.rest ++ response w.outputs) ≡ all) × (is_empty (w.sent ++ w.rest) ≡ not w.started)
StandsIn no_response all w = (all ≡ []) × (w.sent ++ w.rest ≡ message_500)
StandsIn closed all w = w.sent ≡ (if is_empty all then message_500 else all)
StandsIn aborted all w = Unit

abbrev Stands : Bytes → Writer → Type 0
Stands all w = StandsIn w.mode all w

in_mode : (m : Mode) (all : Bytes) (w : Writer) → w.mode ≡ m → StandsIn m all w → Stands all w
in_mode m all w e h = subst (λ x. StandsIn x all w) (sym e) h

send-Stands :
    (room : Option ℕ) (b : ℕ) (t all : Bytes) (w : Writer)
    → w.mode ≡ writing
    → w.started ≡ true
    → w.sent ++ ((b ∷ t) ++ response w.outputs) ≡ all
    → Stands all (send room (b ∷ t) w)
unfolding send
send-Stands none b t all w m s h = tt
send-Stands (some n) b t all w m s h =
    in_mode writing all (record w { sent = w.sent ++ take n (b ∷ t); rest = drop n (b ∷ t) }) m
      (
        sym (append_assoc (w.sent ++ take n (b ∷ t)) (drop n (b ∷ t)) (response w.outputs))
            ∙ ap (λ x. x ++ response w.outputs) (parts_append n w.sent (b ∷ t))
            ∙ append_assoc w.sent (b ∷ t) (response w.outputs)
            ∙ h,
        ap is_empty (parts_append n w.sent (b ∷ t)) ∙ is_empty-append w.sent b t ∙ sym (ap not s),
      )

end-Stands :
    (started : Bool) (all : Bytes) (w : Writer)
    → w.sent ≡ all
    → is_empty w.sent ≡ not started
    → Stands all (end_of_handler started w)
unfolding end_of_handler
end-Stands true all w h k = let e : is_empty all ≡ false = sym (ap is_empty h) ∙ k in rw e h
end-Stands false all w h k =
    let e = is_empty_nil w.sent k in (sym h ∙ e, ap (λ x. x ++ message_500) e)

next_output-Stands :
    (room : Option ℕ) (os : List Output) (all : Bytes) (w : Writer)
    → w.mode ≡ writing
    → w.rest ≡ []
    → w.sent ++ response os ≡ all
    → is_empty w.sent ≡ not w.started
    → Stands all (next_output room os w)
unfolding next_output
next_output-Stands room [] all w m r h k =
    end-Stands w.started all w (sym (append-nil w.sent) ∙ h) k
next_output-Stands room (yield_output ∷ os) all w m r h k =
    in_mode writing all (record w { outputs = os }) m
      (
        ap (λ x. w.sent ++ (x ++ response os)) r ∙ h,
        ap (λ x. is_empty (w.sent ++ x)) r ∙ ap is_empty (append-nil w.sent) ∙ k,
      )
next_output-Stands room (data_output [] ∷ os) all w m r h k =
    in_mode writing all (record w { outputs = os }) m
      (
        ap (λ x. w.sent ++ (x ++ response os)) r ∙ h,
        ap (λ x. is_empty (w.sent ++ x)) r ∙ ap is_empty (append-nil w.sent) ∙ k,
      )
next_output-Stands room (data_output (b ∷ t) ∷ os) all w m r h k =
    send-Stands room b t all (record w { outputs = os; started = true }) m refl h

write_main-Stands :
    (room : Option ℕ) (rest all : Bytes) (w : Writer)
    → w.mode ≡ writing
    → w.rest ≡ rest
    → w.sent ++ (rest ++ response w.outputs) ≡ all
    → is_empty (w.sent ++ rest) ≡ not w.started
    → Stands all (write_main room rest w)
unfolding write_main
write_main-Stands room [] all w m r h k =
    next_output-Stands room w.outputs all w m r h (sym (ap is_empty (append-nil w.sent)) ∙ k)
write_main-Stands room (b ∷ t) all w m r h k =
    send-Stands room b t all w m (not-false w.started (sym (is_empty-append w.sent b t) ∙ k)) h

close_if_sent-Stands :
    (rest : Bytes) (m : Mode) (all : Bytes) (w : Writer)
    → w.rest ≡ rest
    → w.mode ≡ m
    → StandsIn m all w
    → (m ≡ no_response → all ≡ [])
    → Stands all (close_if_sent rest m w)
unfolding close_if_sent
close_if_sent-Stands [] no_response all w r m h z =
    let e = z refl in rw e (sym (append-nil w.sent) ∙ ap (λ x. w.sent ++ x) (sym r) ∙ h.1)
close_if_sent-Stands [] writing all w r m h z = in_mode writing all w m h
close_if_sent-Stands [] closed all w r m h z = in_mode closed all w m h
close_if_sent-Stands [] aborted all w r m h z = in_mode aborted all w m h
close_if_sent-Stands (b ∷ t) k all w r m h z = in_mode k all w m h

write_no_response-Stands :
    (room : Option ℕ) (all : Bytes) (w : Writer)
    → w.mode ≡ no_response
    → StandsIn no_response all w
    → Stands all (write_no_response room w)
unfolding write_no_response send
write_no_response-Stands none all w m h =
    close_if_sent-Stands w.rest aborted all (record w { mode = aborted }) refl refl tt (λ e. h.0)
write_no_response-Stands (some n) all w m h =
    let v : Writer = record w { sent = w.sent ++ take n w.rest; rest = drop n w.rest } in
    close_if_sent-Stands (drop n w.rest) w.mode all v refl refl
      (in_mode no_response all v m (h.0, parts_append n w.sent w.rest ∙ h.1)) (λ e. h.0)

write_in-Stands :
    (m : Mode) (room : Option ℕ) (all : Bytes) (w : Writer)
    → w.mode ≡ m
    → StandsIn m all w
    → Stands all (write_in m room w)
unfolding write_in
write_in-Stands writing room all w m h = write_main-Stands room w.rest all w m refl h.0 h.1
write_in-Stands no_response room all w m h = write_no_response-Stands room all w m h
write_in-Stands closed room all w m h = in_mode closed all w m h
write_in-Stands aborted room all w m h = in_mode aborted all w m h

write_all-Stands :
    (rooms : List (Option ℕ)) (all : Bytes) (w : Writer)
    → Stands all w
    → Stands all (write_all rooms w)
unfolding write_all write
write_all-Stands [] all w h = h
write_all-Stands (room ∷ rooms) all w h =
    write_all-Stands rooms all (write_in w.mode room w) (write_in-Stands w.mode room all w refl h)

-- However little the socket takes at a time: when the handler's connection is closed by itself, the
-- peer has got all that the generator yielded, in its order and nothing else, or, if that was nothing,
-- the message of an internal error.
pub write_response-sent :
    (outputs : List Output) (rooms : List (Option ℕ))
    → (write_all rooms (write_response outputs)).mode ≡ closed
    → (write_all rooms (write_response outputs)).sent
      ≡ (if is_empty (response outputs) then message_500 else response outputs)
unfolding write_response
write_response-sent outputs rooms e =
    subst (λ m. StandsIn m (response outputs) (write_all rooms (write_response outputs))) e
      (write_all-Stands rooms (response outputs) (write_response outputs) (refl, refl))
