-- ===== src/Http/Driver/Run.antt =====
-- weightless/http/_httprequest1_1.py: `_do`, the driver of a request, with `_readHeaderAndBody`.
use weightless_core.Base.{
  ℕ, zero, suc, Bool, true, false, not, ◌||◌, Option, none, some, List, [], ◌∷◌, if◌then◌else◌,
  is_some,
}
use weightless_core.Base.Dict.{get}
use weightless_core.Http.Regexp.{Bytes}
use weightless_core.Http.Headers.{Headers, HeaderValue, one_value, same_bytes, bytes_eq}
use weightless_core.Http.Body.{
  Recv, received, want_read, ssl_error, Body, complete, body_value_error, body_error, body_pending,
}
use weightless_core.Http.Strategy.{
  StatusLine, HeaderRead, header_read, header_closed, header_error, header_pending, read_header,
  Key, text_key, bytes_key, Strategy, content_length_body, Determined, determined, value_error,
  attribute_error, determine_body_read_strategy, read_body,
}
use weightless_core.Http.Driver.{
  Env, Error, io_error, other, timeout, exit, is_fatal, is_expected, is_exception, Answer, Driver,
  M, pure, raise, ◌>>=◌, ◌>>◌, handling, finally, asks, perform, set_closer, set_got_data, yields,
  add_process, remove_process, gets_pooled, add_writer, remove_writer, add_reader, remove_reader,
  receives, logs, puts, resumes, throws,
}
use weightless_core.Http.Driver
use weightless_core.Http.Driver.Request.{send_request}
use weightless_core.Http.Driver.Connection.{create_socket, take_socket, shut_and_close_once}

-- `recievedData`, of what `recv` gives up to the end of the reading.
unfoldable pub gets_data : List Recv → Bool
gets_data [] = false
gets_data (received [] ∷ sok) = false
gets_data (received (b ∷ bs) ∷ sok) = true
gets_data (want_read ∷ sok) = gets_data sok
gets_data (ssl_error ∷ sok) = false

-- `requestHeaders.get(key)`
unfoldable pub request_header : List (Bytes × Bytes) → Key → Option HeaderValue
request_header hs (text_key name) = elim (get name hs) [ none ↦ none | some v ↦ some (one_value v) ]
request_header hs (bytes_key name) = none

-- What a `body_error` is: an empty length is no number, else it is an `SSLError`.
unfoldable pub body_exception : Strategy → Error
body_exception (content_length_body none) = other
body_exception strategy = io_error

-- What a request is made of.
pub record Arguments : Type 0 where
  pub method : Bytes
  pub request : Bytes
  pub host : Bytes
  pub body : Bytes
  pub secure : Bool
  pub max_size : Option ℕ

-- b'CONNECT'
abbrev connect_method : Bytes
connect_method = 67 ∷ 79 ∷ 78 ∷ 78 ∷ 69 ∷ 67 ∷ 84 ∷ []

-- `_assertSupportedMethod` raises.
unfoldable pub is_connect : Bytes → Bool
is_connect method = same_bytes method connect_method

module _ (env : Env) (args : Arguments) where
  -- The answer, and `doClose`.
  unfoldable pub body_read : StatusLine → Headers → Strategy → Bool → Body → M (Answer × Bool)
  unfolding body_exception
  body_read line fields strategy do_close (complete body) =
      pure (record { line = line; fields = fields; body = body }, do_close)
  body_read line fields strategy do_close body_value_error = raise Driver.value_error
  body_read line fields strategy do_close body_error = raise (body_exception strategy)
  body_read line fields strategy do_close body_pending = asks (λ w. env.gives_up w.log) >>= raise

  unfoldable pub with_strategy :
      StatusLine → Headers → Bytes → List Recv → Determined (Strategy × Bool) → M (Answer × Bool)
  unfolding body_read read_body
  with_strategy line fields rest sok (determined (strategy, do_close)) =
      body_read line fields strategy do_close (read_body strategy args.max_size sok rest)
  with_strategy line fields rest sok value_error = raise Driver.value_error
  with_strategy line fields rest sok attribute_error = raise other

  unfoldable pub header_and_body : List (Bytes × Bytes) → HeaderRead → M (Answer × Bool)
  unfolding with_strategy determine_body_read_strategy request_header
  header_and_body hs (header_read line fields rest sok) =
      with_strategy line fields rest sok
        (determine_body_read_strategy line fields args.method (request_header hs) args.max_size)
  header_and_body hs header_closed = raise Driver.value_error
  header_and_body hs header_error = raise io_error
  header_and_body hs header_pending = asks (λ w. env.gives_up w.log) >>= raise

  -- `_readHeaderAndBody`
  unfoldable pub read_header_and_body : ℕ → M (Answer × Bool)
  unfolding perform set_got_data gets_data header_and_body read_header
  read_header_and_body s =
      perform env (receives s)
      >> (asks (λ w. env.received w.log) >>= λ sok.
          set_got_data (gets_data sok)
          >> (asks (λ w. w.headers) >>= λ hs. header_and_body hs (read_header sok [])))

  -- The inner `try`.
  unfoldable pub send_and_read : ℕ → M (Answer × Bool)
  unfolding perform send_request read_header_and_body
  send_and_read s =
      perform env (add_writer s)
      >> finally
          (perform env yields >> send_request env s args.method args.request args.host args.body)
          (perform env (remove_writer s))
      >> perform env (add_reader s)
      >> finally (read_header_and_body s) (perform env (remove_reader s))

  -- An expected error: again (none), if the socket is from the pool and has not given any data.
  unfoldable pub retry_or_raise : Bool → Error → Bool → M (Option (ℕ × Answer × Bool))
  unfolding perform
  retry_or_raise retry_once e got_data =
      if not retry_once || got_data then raise e else perform env logs >> pure none

  unfoldable pub pass_failed : Bool → Error → M (Option (ℕ × Answer × Bool))
  unfolding is_fatal is_expected shut_and_close_once retry_or_raise
  pass_failed retry_once e =
      if is_fatal e
      then raise e
      else if is_expected e
      then shut_and_close_once env true >> (asks (λ w. w.got_data) >>= retry_or_raise retry_once e)
      else raise e

  unfoldable pub new_or_pooled : Option ℕ → M ℕ
  unfolding set_closer create_socket
  new_or_pooled (some s) = pure s
  new_or_pooled none = set_closer none >> create_socket env args.secure

  -- One pass of the loop, on the socket from the pool or (none) on a new one; `retryOnce` is true on a
  -- socket from the pool.
  unfoldable pub one_pass : Option ℕ → M (Option (ℕ × Answer × Bool))
  unfolding new_or_pooled take_socket send_and_read pass_failed
  one_pass pooled = new_or_pooled pooled >>= λ s.
      take_socket env s
      >> handling (send_and_read s >>= λ p. pure (some (s, p.0, p.1)))
          (pass_failed (is_some pooled))

  -- `while True`, for so many passes; none is that there are no more.
  unfoldable pub passes : ℕ → Option ℕ → M (Option (ℕ × Answer × Bool))
  unfolding one_pass
  passes zero pooled = pure none
  passes (suc n) pooled =
      let more = passes n none in
      one_pass pooled >>= λ r. elim r [ none ↦ more | some a ↦ pure (some a) ]

  unfoldable pub close_or_pool : ℕ → Bool → M (Unit {0})
  unfolding shut_and_close_once perform
  close_or_pool s do_close =
      if do_close
      then shut_and_close_once env false
      else perform env add_process >> finally (perform env (puts s)) (perform env remove_process)

  -- Behind the loop, which ends in at most two passes.
  unfoldable pub after_passes : Option (ℕ × Answer × Bool) → M (Unit {0})
  unfolding close_or_pool perform
  after_passes none = raise exit
  after_passes (some (s, answer, do_close)) =
      close_or_pool s do_close >> perform env (resumes answer)

  unfoldable pub get_pooled : M (Option ℕ)
  unfolding perform
  get_pooled =
      perform env add_process
      >> finally (perform env yields >> perform env gets_pooled >> asks (λ w. env.pooled w.log))
          (perform env remove_process)

  unfoldable pub close_and_raise : Error → M (Unit {0})
  unfolding shut_and_close_once
  close_and_raise e = shut_and_close_once env true >> raise e

  -- The outer `try`.
  unfoldable pub do_main : M (Unit {0})
  unfolding get_pooled passes after_passes close_and_raise
  do_main = get_pooled >>= λ pooled. handling (passes 2 pooled >>= after_passes) close_and_raise

  unfoldable pub fail_with : Error → M (Unit {0})
  unfolding is_fatal is_exception perform
  fail_with e =
      if is_fatal e then raise e else if is_exception e then perform env (throws e) else raise e

  -- A `TimeoutException` is not passed on: `suspend` knows.
  unfoldable pub do_failed : Error → M (Unit {0})
  unfolding fail_with
  do_failed timeout = pure tt
  do_failed e = fail_with e

  -- `_do`
  unfoldable pub do_request : M (Unit {0})
  unfolding do_main do_failed perform is_connect
  do_request =
      if is_connect args.method
      then raise Driver.value_error
      else handling do_main do_failed >> perform env yields

-- The state in which a request begins.
unfoldable pub started : List (Bytes × Bytes) → Driver
started hs = record { log = []; closer = none; got_data = false; headers = hs }
