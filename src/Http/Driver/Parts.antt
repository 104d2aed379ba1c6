-- ===== src/Http/Driver/Parts.antt =====
-- weightless/http/_httprequest1_1.py: the calls of the parts of `_do`.
use weightless_core.Base.{ℕ, ◌≡◌, subst, sym, Bool, not, ◌&&◌, Option, none, some, ◌∷◌}
use weightless_core.Http.Driver.{
  Env, Error, timeout, is_exception, is_fatal, throws, Call, yields, connects, gets_error, wraps,
  handshakes, receives, closes, shuts, add_writer, remove_writer, add_reader, remove_reader, sends,
  Driver, Closer, perform, set_closer,
}
use weightless_core.Http.Driver.Connection.{
  ignore, shut_once, close_once, shut_and_close, shut_and_close_once,
}
use weightless_core.Http.Driver.Run.{Arguments, fail_with, do_failed}
use weightless_core.Http.Driver.Keeps.{
  Keeps, Keeps-if, handling-Keeps, asks-Keeps, then-Keeps, perform-state,
}

-- One more call.
abbrev pub logged : Call → Driver → Driver
logged c w = record w { log = c ∷ w.log }

-- The calls that send a request on a socket and read the response.
abbrev pub Talks : ℕ → Call → Type 0
Talks s yields = Unit
Talks s (add_writer t) = Unit
Talks s (remove_writer t) = Unit
Talks s (add_reader t) = Unit
Talks s (remove_reader t) = Unit
Talks s (receives t) = Unit
Talks s (sends t text) = t ≡ s
Talks s c = ⊥

-- The calls that connect a socket.
abbrev pub Connects : Call → Type 0
Connects yields = Unit
Connects (add_writer t) = Unit
Connects (remove_writer t) = Unit
Connects (add_reader t) = Unit
Connects (remove_reader t) = Unit
Connects (connects t) = Unit
Connects (gets_error t) = Unit
Connects (wraps t) = Unit
Connects (handshakes t) = Unit
Connects (closes t) = Unit
Connects c = ⊥

module _ (env : Env) (I : Driver → Type 0) where
  pub perform-Keeps : (c : Call) → ((w : Driver) → I w → I (logged c w)) → Keeps I (perform env c)
  perform-Keeps c h w i = subst I (sym (perform-state env c w)) (h w i)

  -- The closing of a socket.
  module _ (held : (c : Option Closer) (w : Driver) → I w → I (record w { closer = c }))
      (shutting : (s : ℕ) (w : Driver) → I w → I (logged (shuts s) w))
      (closing : (s : ℕ) (w : Driver) → I w → I (logged (closes s) w)) where
    shut_and_close-Keeps : (b : Bool) (c : Option Closer) → Keeps I (shut_and_close env b c)
    unfolding shut_and_close shut_once close_once set_closer ignore
    shut_and_close-Keeps b none = λ w i. i
    shut_and_close-Keeps b (some c) =
        then-Keeps I _ _
          (Keeps-if I c.shut _ _ (λ w i. i)
            (then-Keeps I _ _ (held _) (
              handling-Keeps I _ _ (perform-Keeps (shuts c.sok) (shutting c.sok)) λ e.
                Keeps-if I (b && is_exception e && not (is_fatal e)) _ _ (λ w i. i) (λ w i. i))))
          (Keeps-if I c.closed _ _ (λ w i. i)
            (then-Keeps I _ _ (held _) (perform-Keeps (closes c.sok) (closing c.sok))))

    pub shut_and_close_once-Keeps : (b : Bool) → Keeps I (shut_and_close_once env b)
    unfolding shut_and_close_once
    shut_and_close_once-Keeps b = asks-Keeps I _ _ (shut_and_close-Keeps b)

  -- The end of a request that has failed.
  module _ (args : Arguments)
      (throwing : (e : Error) (w : Driver) → I w → I (logged (throws e) w)) where
    fail_with-Keeps : (e : Error) → Keeps I (fail_with env args e)
    unfolding fail_with
    fail_with-Keeps e =
        Keeps-if I (is_fatal e) _ _ (λ w i. i)
          (Keeps-if I (is_exception e) _ _ (perform-Keeps (throws e) (throwing e)) (λ w i. i))

    pub do_failed-Keeps : (e : Error) → Keeps I (do_failed env args e)
    unfolding do_failed
    do_failed-Keeps timeout = λ w i. i
    do_failed-Keeps e = fail_with-Keeps e
