-- ===== src/Http/Driver/Again.antt =====
-- weightless/http/_httprequest1_1.py: on what condition the loop of `_do` goes round again.
use weightless_core.Base.{
  ℕ, ◌≡◌, refl, sym, subst, ◌∙◌, Bool, true, false, ◌||◌, not, Option, none, some, is_some, List,
  [], ◌∷◌, Option-cases, inl, inr,
}
use weightless_core.Http.Body.{Recv, received, want_read, ssl_error, arrived}
use weightless_core.Http.Strategy.{read_header}
use weightless_core.Http.Driver.{
  Env, Error, Log, receives, yields, add_writer, remove_writer, add_reader, remove_reader, logs,
  Driver, Result, ok, raised, Answer, is_fatal, is_expected, ◌>>◌, perform, set_got_data,
  set_closer, M, finally,
}
use weightless_core.Http.Driver.Connection.{take_socket}
use weightless_core.Http.Driver.Request.{send_request}
use weightless_core.Http.Driver.Run.{
  Arguments, gets_data, read_header_and_body, send_and_read, retry_or_raise, pass_failed,
  new_or_pooled, one_pass,
}
use weightless_core.Http.Driver.Keeps.{
  Keeps, Triple, asks-Triple, Triple_if, >>=-Triple, handling-Triple, then-Keeps, finally-Keeps,
  asks-Keeps, finally-Triple,
}
use weightless_core.Http.Driver.Parts.{perform-Keeps, shut_and_close_once-Keeps}
use weightless_core.Http.Driver.Talking.{send_request-Keeps, header_and_body-Keeps}
use weightless_core.Http.Driver.Retries.{Stops, new_pass-Stops}

-- No call of `recv` that returned has given any data.
unfoldable pub Quiet : Env → Log → Type 0
unfolding arrived
Quiet env [] = Unit
Quiet env (receives s ∷ log) =
    (env.raises (receives s ∷ log) ≡ none → arrived (env.received (receives s ∷ log)) ≡ [])
    × Quiet env log
Quiet env (c ∷ log) = Quiet env log

-- What is not marked as data is none.
gets_data-arrived : (sok : List Recv) → gets_data sok ≡ false → arrived sok ≡ []
unfolding gets_data arrived
gets_data-arrived [] e = refl
gets_data-arrived (received [] ∷ sok) e = refl
gets_data-arrived (received (b ∷ bs) ∷ sok) e = cc
gets_data-arrived (want_read ∷ sok) e = gets_data-arrived sok e
gets_data-arrived (ssl_error ∷ sok) e = refl

neither : (a b : Bool) → (not a || b) ≡ false → (a ≡ true) × (b ≡ false)
neither true true e = cc
neither true false e = (refl, refl)
neither false b e = cc

module _ (env : Env) (args : Arguments) where
  abbrev IsQuiet : Driver → Type 0
  IsQuiet w = Quiet env w.log

  -- The mark `recievedData` tells of all data.
  abbrev IsMarked : Driver → Type 0
  IsMarked w = w.got_data ≡ false → Quiet env w.log

  -- What is so when the loop goes round again.
  abbrev GoesAgain : Bool → Result (Option (ℕ × Answer × Bool)) → Driver → Type 0
  GoesAgain retry_once (ok none) w = (retry_once ≡ true) × (w.got_data ≡ false) × IsQuiet w
  GoesAgain retry_once r w = Unit

  -- Behind `recv`, before its data is marked.
  abbrev HasReceived : Result (Unit {0}) → Driver → Type 0
  HasReceived (ok u) w = arrived (env.received w.log) ≡ [] → IsQuiet w
  HasReceived (raised e) w = IsQuiet w

  receives-HasReceived : (s : ℕ) → Triple IsQuiet (perform env (receives s)) HasReceived
  unfolding perform Quiet
  receives-HasReceived s w q = elim (Option-cases (env.raises (receives s ∷ w.log))) [
    | inl e ↦ rw e λ a. ((λ n. a), q)
    | inr (x, e) ↦ rw e ((λ n. cc), q)
  ]

  set_got_data-IsMarked :
      (sok : List Recv)
      → Triple
          (λ w. HasReceived (ok tt) w × (env.received w.log ≡ sok))
          (set_got_data (gets_data sok))
          (λ r. IsMarked)
  unfolding set_got_data
  set_got_data-IsMarked sok w (h, e) n =
      h (subst (λ x. arrived x ≡ []) (sym e) (gets_data-arrived sok n))

  read_header_and_body-IsMarked :
      (s : ℕ) → Triple IsQuiet (read_header_and_body env args s) (λ r. IsMarked)
  unfolding read_header_and_body
  read_header_and_body-IsMarked s =
      >>=-Triple IsQuiet HasReceived (λ r. IsMarked) _ _ (receives-HasReceived s)
        (λ u.
          asks-Triple (HasReceived (ok tt)) (λ r. IsMarked) (λ w. env.received w.log) _
            λ sok.
              >>=-Triple _ (λ r. IsMarked) (λ r. IsMarked) _ _ (set_got_data-IsMarked sok)
                (λ u'.
                  asks-Keeps IsMarked _ _
                    λ hs. header_and_body-Keeps env IsMarked args hs (read_header sok []))
                (λ e w i. i))
        (λ e w q n. q)

  module _ (s : ℕ) where
    -- The sending, up to the wait for the response.
    abbrev sends_request : M (Unit {0})
    sends_request =
        perform env (add_writer s)
        >> finally
            (perform env yields >> send_request env s args.method args.request args.host args.body)
            (perform env (remove_writer s))
        >> perform env (add_reader s)

    sends_request-IsQuiet : Keeps IsQuiet sends_request
    unfolding Quiet
    sends_request-IsQuiet =
        then-Keeps IsQuiet _ _
          (then-Keeps IsQuiet _ _ (perform-Keeps env IsQuiet (add_writer s) (λ w q. q)) (
            finally-Keeps IsQuiet _ _
              (then-Keeps IsQuiet _ _ (perform-Keeps env IsQuiet yields (λ w q. q)) (
                send_request-Keeps env IsQuiet s (λ text w q. q) (λ w q. q) (λ hs w q. q)
                  args.method args.request args.host args.body))
              (perform-Keeps env IsQuiet (remove_writer s) (λ w q. q))))
          (perform-Keeps env IsQuiet (add_reader s) (λ w q. q))

    send_and_read-IsMarked : Triple IsQuiet (send_and_read env args s) (λ r. IsMarked)
    unfolding send_and_read Quiet
    send_and_read-IsMarked =
        >>=-Triple IsQuiet (λ r. IsQuiet) (λ r. IsMarked) sends_request _ sends_request-IsQuiet
          (λ u.
            finally-Triple IsQuiet IsMarked _ _ (read_header_and_body-IsMarked s)
              (perform-Keeps env IsMarked (remove_reader s) (λ w i. i)))
          (λ e w q n. q)

  retry_or_raise-GoesAgain :
      (retry_once : Bool) (e : Error) (got : Bool)
      → Triple
          (λ w. IsMarked w × (w.got_data ≡ got))
          (retry_or_raise env args retry_once e got)
          (GoesAgain retry_once)
  unfolding retry_or_raise Quiet
  retry_or_raise-GoesAgain retry_once e got =
      Triple_if _ (GoesAgain retry_once) (not retry_once || got) _ _ (λ t w h. tt)
        λ t.
          let (p, n) = neither retry_once got t in
          >>=-Triple _ (λ r w. (w.got_data ≡ got) × IsQuiet w) (GoesAgain retry_once) _ _
            (λ w h.
              perform-Keeps env (λ w. (w.got_data ≡ got) × IsQuiet w) logs (λ w h. h) w
                (h.1, h.0 (h.1 ∙ n)))
            (λ u w h. (p, h.0 ∙ n, h.1)) (λ x w h. tt)

  pass_failed-GoesAgain :
      (retry_once : Bool) (e : Error)
      → Triple IsMarked (pass_failed env args retry_once e) (GoesAgain retry_once)
  unfolding pass_failed Quiet
  pass_failed-GoesAgain retry_once e =
      Triple_if IsMarked (GoesAgain retry_once) (is_fatal e) _ _ (λ t w h. tt)
        λ t.
          Triple_if IsMarked (GoesAgain retry_once) (is_expected e) _ _
            (λ t'.
              >>=-Triple IsMarked (λ r. IsMarked) (GoesAgain retry_once) _ _
                (shut_and_close_once-Keeps env IsMarked (λ c w i. i) (λ s w i. i) (λ s w i. i) true)
                (λ u.
                  asks-Triple IsMarked (GoesAgain retry_once) (λ w. w.got_data) _
                    (retry_or_raise-GoesAgain retry_once e))
                (λ x w h. tt))
            (λ t' w h. tt)

  -- What the pass gives if it does not fail is no `none`.
  abbrev Ended : Result (Option (ℕ × Answer × Bool)) → Driver → Type 0
  Ended r w = Stops r w × IsMarked w

  Ended-GoesAgain :
      (retry_once : Bool) (r : Option (ℕ × Answer × Bool)) (w : Driver)
      → Ended (ok r) w
      → GoesAgain retry_once (ok r) w
  Ended-GoesAgain retry_once none w h = absurd h.0
  Ended-GoesAgain retry_once (some a) w h = tt

  one_pass-GoesAgain : (s : ℕ) → Triple IsQuiet (one_pass env args (some s)) (GoesAgain true)
  unfolding one_pass new_or_pooled take_socket set_closer set_got_data Quiet
  one_pass-GoesAgain s =
      >>=-Triple IsQuiet (λ r. IsQuiet) (GoesAgain true) _ _ (λ w q. q)
        (λ t.
          >>=-Triple IsQuiet (λ r. IsQuiet) (GoesAgain true) _ _
            (then-Keeps IsQuiet _ _ (λ w q. q) (λ w q. q))
            (λ u.
              handling-Triple IsQuiet Ended (GoesAgain true) _ _
                (>>=-Triple IsQuiet (λ r. IsMarked) Ended _ _ (send_and_read-IsMarked t)
                  (λ p w i. (tt, i)) (λ e w i. (tt, i)))
                (Ended-GoesAgain true) (λ e w i. pass_failed-GoesAgain true e w i.1))
            (λ e w q. tt))
        (λ e w q. tt)

  -- If no data has been received before a pass, and the pass is to be made again, then it has been
  -- made on a socket from the pool, and still no call of `recv` has given any data.
  pub one_pass-again :
      (pooled : Option ℕ) (w w' : Driver)
      → Quiet env w.log
      → one_pass env args pooled w ≡ (ok none, w')
      → (is_some pooled ≡ true) × Quiet env w'.log
  one_pass-again none w w' q e =
      absurd (subst (λ x. Stops x.0 x.1) e (new_pass-Stops env args w tt))
  one_pass-again (some s) w w' q e =
      let (p, n, q') = subst (λ x. GoesAgain true x.0 x.1) e (one_pass-GoesAgain s w q) in
      (refl, q')
