-- ===== src/Http/OldRequest.antt =====
-- weightless/http/_httprequest.py: `httprequest`, the client of HTTP/1.0, whose `_do` is written in the same
-- calls as that of Http/Driver. TLS wraps the socket in a new one, and the old one is detached.
pub mod Reads
pub mod Closes
pub mod Tests
use weightless_core.Base.{
  ℕ, ◌+◌, Bool, true, false, ◌||◌, ◌&&◌, not, Option, none, some, List, [], ◌∷◌, ◌++◌, ltb, ◌==◌,
  if◌then◌else◌, length,
}
use weightless_core.Http.Regexp.{Bytes, cr, lf, crlf, span}
use weightless_core.Http.Headers.{same_bytes}
use weightless_core.Http.Body.{Recv, received, want_read, ssl_error}
use weightless_core.Http.Driver.{
  Env, Error, io_error, in_progress, not_connected, value_error, timeout, other, is_fatal,
  is_exception, yields, new_socket, splits_url, wraps, connects, gets_error, closes, shuts,
  add_writer, remove_writer, add_reader, remove_reader, receives, sends_all, hands_part, answers,
  throws, M, pure, raise, ◌>>=◌, ◌>>◌, handling, finally, catch, Result, ok, raised, asks, perform,
  set_headers,
}
use weightless_core.Http.Driver.Request.{async_send, header_lines, with_length}
use weightless_core.Http.Driver.Connection.{handshake}

-- `proxy` is `host:port` of the server, if the connection is made through a proxy.
pub record OldArguments : Type 0 where
  pub method : Bytes
  pub request : Bytes
  pub body : Bytes
  pub proxy : Option Bytes
  pub secure : Bool
  pub handles_parts : Bool
  pub max_response_size : Option ℕ

-- b' HTTP/1.0\r\n'
abbrev http_1_0 : Bytes
http_1_0 = 32 ∷ 72 ∷ 84 ∷ 84 ∷ 80 ∷ 47 ∷ 49 ∷ 46 ∷ 48 ∷ 13 ∷ 10 ∷ []

abbrev or_slash : Bytes → Bytes
or_slash [] = 47 ∷ []
or_slash (c ∷ request) = c ∷ request

-- `_requestLine`
unfoldable pub request_line : Bytes → Bytes → Bytes
request_line method request = method ++ 32 ∷ (or_slash request ++ http_1_0)

-- b'CONNECT ' and b'Host: '
abbrev connect_space : Bytes
connect_space = 67 ∷ 79 ∷ 78 ∷ 78 ∷ 69 ∷ 67 ∷ 84 ∷ 32 ∷ []

abbrev host_colon : Bytes
host_colon = 72 ∷ 111 ∷ 115 ∷ 116 ∷ 58 ∷ 32 ∷ []

unfoldable pub connect_request : Bytes → Bytes
connect_request host = connect_space ++ host ++ http_1_0 ++ host_colon ++ host ++ crlf ++ crlf

-- `b"\r\n\r\n" in response`
unfoldable pub has_header_end : Bytes → Bool
has_header_end (a ∷ b ∷ c ∷ d ∷ text) =
    (a == cr && b == lf && c == cr && d == lf) || has_header_end (b ∷ c ∷ d ∷ text)
has_header_end text = false

-- Not the white space of `bytes.split`.
abbrev is_black : ℕ → Bool
is_black c = not (c == 32 || c == 9 || c == 10 || c == 11 || c == 12 || c == 13)

abbrev is_space : ℕ → Bool
is_space c = not (is_black c)

unfoldable pub next_word : Bytes → Bytes × Bytes
unfolding span
next_word text = span is_black (span is_space text).1

-- b'200'
abbrev ok_code : Bytes
ok_code = 50 ∷ 48 ∷ 48 ∷ []

-- `b"200" in response.split()[:2]`
unfoldable pub is_connected : Bytes → Bool
unfolding next_word
is_connected response =
    let (first, rest) = next_word response in
    same_bytes first ok_code || same_bytes (next_word rest).0 ok_code

abbrev pub exceeds : ℕ → Option ℕ → Bool
exceeds size none = false
exceeds size (some n) = ltb n size

module _ (env : Env) (args : OldArguments) where
  -- After `connect` has raised.
  unfoldable pub connect_failed : ℕ → Error → M (Unit {0})
  unfolding perform is_exception
  connect_failed s in_progress = pure tt
  connect_failed s e = if is_exception e then perform env (closes s) >> raise e else raise e

  unfoldable pub check_error : ℕ → M (Unit {0})
  check_error err = if err == 0 then pure tt else raise io_error

  unfoldable pub await_connection : ℕ → M (Unit {0})
  unfolding perform check_error
  await_connection s =
      perform env (add_writer s)
      >> finally
          (perform env yields
            >> perform env (gets_error s)
            >> (asks (λ w. env.error_number w.log) >>= check_error))
          (perform env (remove_writer s))

  -- The answer of the proxy, up to the end of its headers.
  unfoldable pub read_proxy : Bytes → List Recv → M Bytes
  unfolding has_header_end
  read_proxy response [] = asks (λ w. env.gives_up w.log) >>= raise
  read_proxy response (received [] ∷ sok) = pure response
  read_proxy response (received (b ∷ fragment) ∷ sok) =
      let more = read_proxy (response ++ b ∷ fragment) sok in
      if has_header_end (response ++ b ∷ fragment) then pure (response ++ b ∷ fragment) else more
  read_proxy response (want_read ∷ sok) = raise io_error
  read_proxy response (ssl_error ∷ sok) = raise io_error

  unfoldable pub through_proxy : ℕ → Option Bytes → M (Unit {0})
  unfolding perform read_proxy connect_request is_connected
  through_proxy s none = pure tt
  through_proxy s (some host) =
      perform env (sends_all s (connect_request host))
      >> perform env (add_reader s)
      >> finally
          (perform env (receives s)
            >> (asks (λ w. env.received w.log) >>= λ sok. read_proxy [] sok >>= λ response.
                if is_connected response then pure tt else raise value_error))
          (perform env (remove_reader s))

  -- `_sendHttpHeaders` and `_asyncSend`
  unfoldable pub send_request : ℕ → M (Unit {0})
  unfolding set_headers with_length request_line header_lines async_send
  send_request s = asks (λ w. with_length args.body w.headers) >>= λ hs.
      set_headers hs
      >> async_send env env.patience s
          (request_line args.method args.request ++ (header_lines hs ++ crlf))
      >> async_send env env.patience s args.body

  -- The loop that reads the response, whose size so far is the first argument.
  unfoldable pub read_responses : ℕ → Bytes → List Recv → M Bytes
  unfolding perform
  read_responses size responses [] = asks (λ w. env.gives_up w.log) >>= raise
  read_responses size responses (want_read ∷ sok) = read_responses size responses sok
  read_responses size responses (ssl_error ∷ sok) = raise io_error
  read_responses size responses (received [] ∷ sok) = pure responses
  read_responses size responses (received (b ∷ text) ∷ sok) =
      let size' = size + length (b ∷ text) in
      let handed = read_responses size' responses sok in
      let kept = read_responses size' (responses ++ b ∷ text) sok in
      if exceeds size' args.max_response_size
      then raise other
      else if args.handles_parts
      then perform env (hands_part (b ∷ text)) >> handed
      else kept

  -- `errno` 107
  unfoldable pub ignore_not_connected : Error → M (Unit {0})
  ignore_not_connected not_connected = pure tt
  ignore_not_connected e = raise e

  unfoldable pub read_response : ℕ → M Bytes
  unfolding perform read_responses ignore_not_connected
  read_response s =
      perform env (add_reader s)
      >> finally
          (perform env (receives s) >> (asks (λ w. env.received w.log) >>= read_responses 0 []))
          (perform env (remove_reader s)
            >> handling (perform env (shuts s)) ignore_not_connected
            >> perform env (closes s))

  -- `_sslHandshake`, which gives the socket that wraps `s`.
  unfoldable pub ssl_handshake : ℕ → M ℕ
  unfolding perform handshake
  ssl_handshake s =
      perform env (wraps s) >> (asks (λ w. env.made w.log) >>= λ t. handshake env 254 t >> pure t)

  -- The `try` up to the binding of `sok`: the socket that is talked to.
  unfoldable pub connection : ℕ → M ℕ
  unfolding await_connection through_proxy ssl_handshake
  connection s =
      await_connection s
      >> through_proxy s args.proxy
      >> (if args.secure then ssl_handshake s else pure s)

  -- The `try` from there on.
  unfoldable pub talk : ℕ → M (Unit {0})
  unfolding perform send_request read_response
  talk s =
      perform env (add_writer s)
      >> perform env yields
      >> finally (send_request s) (perform env (remove_writer s))
      >> (read_response s >>= λ body.
          perform env (answers (if args.handles_parts then none else some body)))

  unfoldable pub pass_on : Error → M (Unit {0})
  unfolding is_fatal is_exception perform
  pass_on e =
      if is_fatal e then raise e else if is_exception e then perform env (throws e) else raise e

  unfoldable pub do_failed : ℕ → Error → M (Unit {0})
  unfolding pass_on perform
  do_failed s timeout = perform env (closes s)
  do_failed s e = pass_on e

  -- The end of the `try`, whose `sok` is still the first socket if there is no connection.
  unfoldable pub on_connection : ℕ → Result ℕ → M (Unit {0})
  unfolding talk do_failed perform
  on_connection s (ok t) = finally (handling (talk t) (do_failed t)) (perform env (closes t))
  on_connection s (raised e) = finally (do_failed s e) (perform env (closes s))

  -- `_do`, with a new socket.
  unfoldable pub do_on : ℕ → M (Unit {0})
  unfolding connect_failed connection on_connection perform
  do_on s =
      handling (perform env (connects s)) (connect_failed s)
      >> (catch (connection s) >>= on_connection s)
      >> perform env yields

  -- `urlsplit(proxyServer)` and its port
  unfoldable pub split_proxy : Option Bytes → M (Unit {0})
  unfolding perform
  split_proxy none = pure tt
  split_proxy (some host) = perform env splits_url

  -- `_do`
  unfoldable pub do_request : M (Unit {0})
  unfolding do_on perform split_proxy
  do_request =
      perform env new_socket
      >> (asks (λ w. env.made w.log) >>= λ s. split_proxy args.proxy >> do_on s)
