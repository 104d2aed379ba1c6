-- ===== src/Http/Driver/Connection.antt =====
-- weightless/http/_httprequest1_1.py: `_createSocket`, `_sslHandshake` and `_shutAndCloseOnce`.
use weightless_core.Base.{
  ℕ, zero, suc, Bool, true, false, not, ◌&&◌, Option, none, some, if◌then◌else◌, ◌==◌,
}
use weightless_core.Http.Driver.{
  Env, Error, in_progress, ssl_want_read, ssl_want_write, io_error, value_error, is_fatal,
  is_exception, Closer, Result, ok, raised, M, pure, raise, ◌>>=◌, ◌>>◌, handling, catch, asks,
  perform, set_closer, set_got_data, new_socket, connects, closes, shuts, add_writer, remove_writer,
  add_reader, remove_reader, yields, gets_error, wraps, handshakes,
}

module _ (env : Env) where
  -- After `connect` has raised.
  unfoldable pub connect_failed : ℕ → Error → M (Unit {0})
  unfolding perform is_exception
  connect_failed s in_progress = pure tt
  connect_failed s e = if is_exception e then perform env (closes s) >> raise e else raise e

  -- `more` is the rest of the loop; `last` says that `count` is 254, which fails even after a handshake.
  unfoldable pub after_handshake : Bool → ℕ → M (Unit {0}) → Result (Unit {0}) → M (Unit {0})
  unfolding perform
  after_handshake last s more (ok u) = if last then raise value_error else pure tt
  after_handshake last s more (raised ssl_want_read) =
      perform env (add_reader s) >> perform env yields >> perform env (remove_reader s) >> more
  after_handshake last s more (raised ssl_want_write) =
      perform env (add_writer s) >> perform env yields >> perform env (remove_writer s) >> more
  after_handshake last s more (raised e) = raise e

  unfoldable pub handshake : ℕ → ℕ → M (Unit {0})
  unfolding perform after_handshake
  handshake zero s = raise value_error
  handshake (suc n) s =
      let more = handshake n s in
      catch (perform env (handshakes s)) >>= after_handshake (n == 0) s more

  -- `_sslHandshake`; the wrapped socket keeps its number.
  unfoldable pub ssl_handshake : ℕ → M (Unit {0})
  unfolding perform handshake
  ssl_handshake s = perform env (wraps s) >> handshake 254 s

  unfoldable pub check_error : ℕ → ℕ → M (Unit {0})
  unfolding perform
  check_error s err = if err == 0 then pure tt else perform env (closes s) >> raise io_error

  -- `_createSocket`, with a new socket.
  unfoldable pub connect_socket : Bool → ℕ → M ℕ
  unfolding perform connect_failed check_error ssl_handshake
  connect_socket secure s =
      handling (perform env (connects s)) (connect_failed s)
      >> perform env (add_writer s)
      >> perform env yields
      >> perform env (remove_writer s)
      >> perform env (gets_error s)
      >> (asks (λ w. env.error_number w.log) >>= check_error s)
      >> (if secure then ssl_handshake s else pure tt)
      >> pure s

  unfoldable pub create_socket : Bool → M ℕ
  unfolding perform connect_socket
  create_socket secure =
      perform env new_socket >> (asks (λ w. env.made w.log) >>= connect_socket secure)

  -- `_shutAndCloseOnce(sok)`, with the new `SocketWrapper`.
  unfoldable pub take_socket : ℕ → M (Unit {0})
  unfolding set_closer set_got_data
  take_socket s =
      set_closer (some (record { sok = s; shut = false; closed = false })) >> set_got_data false

  unfoldable pub ignore : Bool → Error → M (Unit {0})
  unfolding is_fatal is_exception
  ignore ignore_exceptions e =
      if ignore_exceptions && is_exception e && not (is_fatal e) then pure tt else raise e

  unfoldable pub shut_once : Bool → Closer → M (Unit {0})
  unfolding set_closer perform ignore
  shut_once ignore_exceptions c =
      if c.shut
      then pure tt
      else set_closer (some (record c { shut = true }))
        >> handling (perform env (shuts c.sok)) (ignore ignore_exceptions)

  unfoldable pub close_once : Closer → M (Unit {0})
  unfolding set_closer perform
  close_once c =
      if c.closed
      then pure tt
      else set_closer (some (record c { shut = true; closed = true })) >> perform env (closes c.sok)

  unfoldable pub shut_and_close : Bool → Option Closer → M (Unit {0})
  unfolding shut_once close_once
  shut_and_close ignore_exceptions none = pure tt
  shut_and_close ignore_exceptions (some c) = shut_once ignore_exceptions c >> close_once c

  -- `shutAndCloseOnce(ignoreExceptions)`
  unfoldable pub shut_and_close_once : Bool → M (Unit {0})
  unfolding shut_and_close
  shut_and_close_once ignore_exceptions = asks (λ w. w.closer) >>= shut_and_close ignore_exceptions
