-- ===== src/Http/Driver/Connecting.antt =====
-- weightless/http/_httprequest1_1.py: what its calls keep, the making of a connection keeps.
use weightless_core.Base.{
  ℕ, zero, suc, Bool, true, false, if◌then◌else◌, ◌==◌, Bool-cases, inl, inr,
}
use weightless_core.Http.Driver.{
  Env, Error, io_error, in_progress, not_connected, ssl_want_read, ssl_want_write, key_error,
  timeout, assertion_error, other, interrupt, exit, is_exception, is_fatal, throws, Call, yields,
  new_socket, connects, gets_error, wraps, handshakes, receives, closes, shuts, add_writer,
  remove_writer, add_reader, remove_reader, sends, Driver, Result, ok, raised, M, pure, raise,
  ◌>>=◌, ◌>>◌, handling, catch, finally, asks, perform, set_got_data, set_headers, Log,
}
use weightless_core.Http.Driver
use weightless_core.Http.Driver.Connection.{
  connect_failed, after_handshake, handshake, ssl_handshake, check_error, connect_socket,
}
use weightless_core.Http.Driver.Keeps.{
  Keeps, >>=-Keeps, handling-Keeps, catch-Keeps, asks-Keeps, then-Keeps,
}
use weightless_core.Http.Driver.Parts.{logged, Connects, perform-Keeps}

module _ (env : Env) (I : Driver → Type 0) where
  module _ (connects_to : (c : Call) → Connects c → (w : Driver) → I w → I (logged c w)) where
    perform_connect : (c : Call) → Connects c → Keeps I (perform env c)
    perform_connect c t = perform-Keeps env I c (connects_to c t)

    close_first : (s : ℕ) (e : Error) → Keeps {A = Unit {0}} I (perform env (closes s) >> raise e)
    close_first s e = then-Keeps I _ _ (perform_connect (closes s) tt) (λ w i. i)

    connect_failed-Keeps : (s : ℕ) (e : Error) → Keeps I (connect_failed env s e)
    unfolding connect_failed is_exception
    connect_failed-Keeps s in_progress = λ w i. i
    connect_failed-Keeps s io_error = close_first s io_error
    connect_failed-Keeps s not_connected = close_first s not_connected
    connect_failed-Keeps s ssl_want_read = close_first s ssl_want_read
    connect_failed-Keeps s ssl_want_write = close_first s ssl_want_write
    connect_failed-Keeps s Driver.value_error = close_first s Driver.value_error
    connect_failed-Keeps s key_error = close_first s key_error
    connect_failed-Keeps s timeout = close_first s timeout
    connect_failed-Keeps s assertion_error = close_first s assertion_error
    connect_failed-Keeps s other = close_first s other
    connect_failed-Keeps s interrupt = λ w i. i
    connect_failed-Keeps s exit = λ w i. i

    wait_between-Keeps :
        (c d : Call) (more : M (Unit {0}))
        → Connects c
        → Connects d
        → Keeps I more
        → Keeps I (perform env c >> perform env yields >> perform env d >> more)
    wait_between-Keeps c d more hc hd h =
        then-Keeps I _ _
          (then-Keeps I _ _ (then-Keeps I _ _ (perform_connect c hc) (perform_connect yields tt))
            (perform_connect d hd))
          h

    after_handshake-Keeps :
        (last : Bool) (s : ℕ) (more : M (Unit {0})) (r : Result (Unit {0}))
        → Keeps I more
        → Keeps I (after_handshake env last s more r)
    unfolding after_handshake
    after_handshake-Keeps true s more (ok u) h = λ w i. i
    after_handshake-Keeps false s more (ok u) h = λ w i. i
    after_handshake-Keeps last s more (raised ssl_want_read) h =
        wait_between-Keeps (add_reader s) (remove_reader s) more tt tt h
    after_handshake-Keeps last s more (raised ssl_want_write) h =
        wait_between-Keeps (add_writer s) (remove_writer s) more tt tt h
    after_handshake-Keeps last s more (raised e) h = λ w i. i

    handshake-Keeps : (n s : ℕ) → Keeps I (handshake env n s)
    unfolding handshake
    handshake-Keeps zero s = λ w i. i
    handshake-Keeps (suc n) s =
        >>=-Keeps I _ _ (catch-Keeps I _ (perform_connect (handshakes s) tt))
          λ r. after_handshake-Keeps (n == 0) s (handshake env n s) r (handshake-Keeps n s)

    check_error-Keeps : (s err : ℕ) → Keeps I (check_error env s err)
    unfolding check_error
    check_error-Keeps s err = elim (Bool-cases (err == 0)) [
      | inl e ↦ rw e (λ w i. i)
      | inr e ↦ rw e (close_first s io_error)
    ]

    secure-Keeps :
        (secure : Bool) (s : ℕ) → Keeps I (if secure then ssl_handshake env s else pure tt)
    unfolding ssl_handshake
    secure-Keeps true s = then-Keeps I _ _ (perform_connect (wraps s) tt) (handshake-Keeps 254 s)
    secure-Keeps false s = λ w i. i

    pub connect_socket-Keeps : (secure : Bool) (s : ℕ) → Keeps I (connect_socket env secure s)
    unfolding connect_socket
    connect_socket-Keeps secure s =
        then-Keeps I _ _
          (then-Keeps I _ _
            (then-Keeps I _ _
              (then-Keeps I _ _
                (then-Keeps I _ _
                  (then-Keeps I _ _
                    (then-Keeps I _ _
                      (handling-Keeps I _ _ (perform_connect (connects s) tt)
                        (connect_failed-Keeps s))
                      (perform_connect (add_writer s) tt))
                    (perform_connect yields tt))
                  (perform_connect (remove_writer s) tt))
                (perform_connect (gets_error s) tt))
              (asks-Keeps I _ _ λ err. check_error-Keeps s err))
            (secure-Keeps secure s))
          (λ w i. i)
