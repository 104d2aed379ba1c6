-- ===== src/Http/Driver/Closes.antt =====
-- weightless/http/_httprequest1_1.py: what becomes of the sockets that `_do` uses.
use weightless_core.Base.{
  ℕ, zero, suc, ◌≡◌, refl, sym, subst, Bool, true, false, ◌||◌, Option, none, some, List, ◌∷◌, not,
  is_some,
}
use weightless_core.Http.Regexp.{Bytes}
use weightless_core.Http.Driver.{
  Env, Error, yields, add_process, remove_process, gets_pooled, new_socket, logs, puts, resumes,
  throws, shuts, Driver, Result, ok, raised, M, pure, ◌>>=◌, ◌>>◌, handling, catch, asks, perform,
  set_closer, set_got_data, Answer, is_fatal, is_expected, Log,
}
use weightless_core.Http.Driver.Connection.{take_socket, create_socket}
use weightless_core.Http.Driver.Run.{
  Arguments, send_and_read, retry_or_raise, pass_failed, new_or_pooled, one_pass, passes,
  get_pooled, close_or_pool, after_passes, close_and_raise, do_main, do_failed, do_request,
  is_connect, started,
}
use weightless_core.Http.Driver.Keeps.{
  Keeps, Keeps-if, Triple_if, Triple, Always, >>=-Triple, handling-Triple, >>=-Keeps,
  handling-Keeps, finally-Keeps, asks-Keeps, then-Keeps, perform-state,
}
use weightless_core.Http.Driver.Parts.{perform-Keeps, do_failed-Keeps}
use weightless_core.Http.Driver.Connecting.{connect_socket-Keeps}
use weightless_core.Http.Driver.Talking.{send_and_read-Keeps}
use weightless_core.Http.Driver.Closing.{
  Released, Free-Released, IsOrdinary, perform-Free, shut_and_close_once-Released,
  shut_and_close_once-Free,
}
use weightless_core.Http.Driver.Sockets.{
  has, uses, releases, Free, Held, opened, HeldOn, HeldOn-Held, HeldOn-Talks, HeldBy-logged,
  Free-puts, Free-Connects, Free-logged, Free-Held,
}

-- How the passes leave the sockets: the answer comes with one that is still open.
abbrev Passed : Result (Option (ℕ × Answer × Bool)) → Driver → Type 0
Passed (ok none) w = Free w
Passed (ok (some (s, answer, do_close))) w = HeldOn s w
Passed (raised e) w = Held w

-- How the use of a socket leaves it.
abbrev Used : ℕ → Result (Option (ℕ × Answer × Bool)) → Driver → Type 0
Used s (ok none) w = ⊥
Used s (ok (some (t, answer, do_close))) w = HeldOn t w
Used s (raised e) w = HeldOn s w

Used-Passed :
    (s : ℕ) (r : Option (ℕ × Answer × Bool)) (w : Driver) → Used s (ok r) w → Passed (ok r) w
Used-Passed s none w h = absurd h
Used-Passed s (some a) w h = h

module _ (env : Env) (args : Arguments)
    (ordinary : (s : ℕ) (log : Log) (e : Error)
      → env.raises (shuts s ∷ log) ≡ some e
      → IsOrdinary e) where
  pass_failed-Passed :
      (s : ℕ) (b : Bool) (e : Error) → Triple (HeldOn s) (pass_failed env args b e) Passed
  unfolding pass_failed retry_or_raise asks
  pass_failed-Passed s b e =
      Triple_if (HeldOn s) Passed (is_fatal e) _ _ (λ t. HeldOn-Held s)
        λ t.
          Triple_if (HeldOn s) Passed (is_expected e) _ _
            (λ t'.
              >>=-Triple (HeldOn s) (λ r. Free) Passed _ _
                (λ w h. shut_and_close_once-Free env ordinary w (HeldOn-Held s w h))
                (λ u.
                  >>=-Triple Free (λ r. Free) Passed (asks (λ w. w.got_data)) _ (λ w f. f)
                    (λ got.
                      Triple_if Free Passed (not b || got) _ _ (λ t'' w f. Free-Held w.closer w f)
                        λ t''.
                          >>=-Triple Free (λ r. Free) Passed _ _ (perform-Free env logs (λ r. refl))
                            (λ v w f. f) (λ e' w f. Free-Held w.closer w f))
                    (λ e' w f. Free-Held w.closer w f))
                (λ e' w f. Free-Held w.closer w f))
            (λ t'. HeldOn-Held s)

  take_socket-HeldOn : (s : ℕ) → Triple Free (take_socket env s) (Always (HeldOn s))
  unfolding take_socket set_closer set_got_data ◌>>=◌
  take_socket-HeldOn s w f = (Free-Held (some (opened s)) w f, refl)

  use_socket-Passed :
      (s : ℕ) (b : Bool)
      → Triple Free
          (take_socket env s
            >> handling
                (send_and_read env args s >>= λ q. pure (some (s, q.0, q.1)))
                (pass_failed env args b))
          Passed
  use_socket-Passed s b =
      >>=-Triple Free (Always (HeldOn s)) Passed _ _ (take_socket-HeldOn s)
        (λ u.
          handling-Triple (HeldOn s) (Used s) Passed _ _
            (>>=-Triple (HeldOn s) (λ r. HeldOn s) (Used s) _ _
              (send_and_read-Keeps env (HeldOn s) s (HeldOn-Talks s) (λ got w h. h) (λ hs w h. h)
                args)
              (λ q w h. h) (λ e w h. h))
            (Used-Passed s) (pass_failed-Passed s b))
        (λ e w f. absurd f)

  get_pooled-Free : Keeps Free (get_pooled env args)
  unfolding get_pooled asks
  get_pooled-Free = then-Keeps Free _ _ (perform-Free env add_process (λ s. refl)) (
      finally-Keeps Free _ _
        (then-Keeps Free _ _
          (then-Keeps Free _ _ (perform-Free env yields (λ s. refl))
            (perform-Free env gets_pooled (λ s. refl)))
          (λ w f. f))
        (perform-Free env remove_process (λ s. refl)))

  new_or_pooled-Free : (pooled : Option ℕ) → Keeps Free (new_or_pooled env args pooled)
  unfolding new_or_pooled create_socket set_closer
  new_or_pooled-Free (some s) = λ w f. f
  new_or_pooled-Free none =
      then-Keeps Free _ _ (λ w f. f)
        (then-Keeps Free _ _ (perform-Free env new_socket (λ s. refl))
          (asks-Keeps Free _ _ (connect_socket-Keeps env Free Free-Connects args.secure)))

  one_pass-Passed : (pooled : Option ℕ) → Triple Free (one_pass env args pooled) Passed
  unfolding one_pass
  one_pass-Passed pooled =
      >>=-Triple Free (λ r. Free) Passed _ _ (new_or_pooled-Free pooled)
        (λ s. use_socket-Passed s (is_some pooled)) (λ e w f. Free-Held w.closer w f)

  go_on-Passed :
      (more : M (Option (ℕ × Answer × Bool)))
      → Triple Free more Passed
      → (r : Option (ℕ × Answer × Bool))
      → Triple (Passed (ok r)) (elim r [ none ↦ more | some a ↦ pure (some a) ]) Passed
  go_on-Passed more h none = h
  go_on-Passed more h (some a) = λ w i. i

  passes-Passed : (n : ℕ) (pooled : Option ℕ) → Triple Free (passes env args n pooled) Passed
  unfolding passes
  passes-Passed zero pooled = λ w f. f
  passes-Passed (suc n) pooled =
      >>=-Triple Free Passed Passed _ _ (one_pass-Passed pooled)
        (go_on-Passed (passes env args n none) (passes-Passed n none)) (λ e w h. h)

  close_or_pool-Released :
      (s : ℕ) (b : Bool) → Triple (HeldOn s) (close_or_pool env args s b) Released
  unfolding close_or_pool catch
  close_or_pool-Released s b =
      Triple_if (HeldOn s) Released b _ _
        (λ e w h. shut_and_close_once-Released env false w (HeldOn-Held s w h))
        (λ e.
          >>=-Triple (HeldOn s) (λ r. HeldOn s) Released _ _
            (perform-Keeps env (HeldOn s) add_process
              λ w h. (HeldBy-logged (opened s) add_process (λ r. refl) w h.0, h.1))
            (λ u.
              >>=-Triple (HeldOn s) (λ r. Free) Released _ _
                (λ w h.
                  subst Free (sym (perform-state env (puts s) w)) (Free-puts (opened s) w h.0))
                (λ r.
                  >>=-Triple Free (λ x. Free) Released _ _
                    (perform-Free env remove_process (λ t. refl)) (λ v w f. Free-Released r w f)
                    (λ e w f. Free-Held w.closer w f))
                (λ e w f. Free-Held w.closer w f))
            (λ e w h. HeldOn-Held s w h))

  after_passes-Released :
      (r : Option (ℕ × Answer × Bool)) → Triple (Passed (ok r)) (after_passes env args r) Released
  unfolding after_passes
  after_passes-Released none = λ w f. Free-Held w.closer w f
  after_passes-Released (some (s, answer, b)) =
      >>=-Triple (HeldOn s) Released Released _ _ (close_or_pool-Released s b)
        (λ u w f.
          Free-Released (perform env (resumes answer) w).0 (perform env (resumes answer) w).1
            (perform-Free env (resumes answer) (λ t. refl) w f))
        (λ e w h. h)

  do_main-Free : Keeps Free (do_main env args)
  unfolding do_main close_and_raise
  do_main-Free = >>=-Keeps Free _ _ get_pooled-Free λ pooled.
      handling-Triple Free Released (λ r. Free) _ _
        (>>=-Triple Free Passed Released _ _ (passes-Passed 2 pooled) after_passes-Released
          (λ e w h. h))
        (λ u w f. f)
        (λ e.
          >>=-Triple Held (λ r. Free) (λ r. Free) _ _ (shut_and_close_once-Free env ordinary)
            (λ u w f. f) (λ e' w f. f))

  requested-Free :
      Keeps Free (handling (do_main env args) (do_failed env args) >> perform env yields)
  requested-Free =
      then-Keeps Free _ _
        (handling-Keeps Free _ _ do_main-Free
          (do_failed-Keeps env Free args λ e. Free-logged (throws e) (λ s. refl)))
        (perform-Free env yields (λ s. refl))

  do_request-Free : Keeps Free (do_request env args)
  unfolding do_request
  do_request-Free = Keeps-if Free (is_connect args.method) _ _ (λ w f. f) requested-Free

  started-Free : (hs : List (Bytes × Bytes)) → Free (started hs)
  unfolding started has
  started-Free hs s u = cc

  -- If `shutdown` raises nothing worse than an exception that may be ignored, then, whatever else the
  -- system, the pool and `suspend` do and wherever the request fails or is timed out: when it has
  -- ended, each socket on which it has sent data is closed or handed to the pool.
  pub do_request-releases :
      (hs : List (Bytes × Bytes)) (s : ℕ)
      → has (uses s) (do_request env args (started hs)).1.log ≡ true
      → has (releases s) (do_request env args (started hs)).1.log ≡ true
  do_request-releases hs s u = do_request-Free (started hs) (started-Free hs) s u
