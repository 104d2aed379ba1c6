-- ===== src/Http/Driver/Tests.antt =====
-- Requests of weightless/http/_httprequest1_1.py in a small environment.
use weightless_core.Base.{
  ℕ, ◌≤◌, ◌≡◌, refl, true, false, Option, none, some, is_some, [], ◌∷◌, ◌++◌, arith,
}
use weightless_core.Http.Regexp.{Bytes}
use weightless_core.Http.Body.{received}
use weightless_core.Http.Driver.{
  Env, Driver, Result, ok, exit, ◌>>=◌, asks, handling, catch, set_headers,
}
use weightless_core.Http.Driver.Request.{send_request, async_send, with_length}
use weightless_core.Http.Driver.Run.{Arguments, one_pass, do_main, do_request, is_connect, started}
use weightless_core.Http.Driver.Counts.{count}
use weightless_core.Http.Driver.Retries.{is_new, do_request-is_new}
use weightless_core.Http.Driver.Again.{Quiet, one_pass-again}
use weightless_core.Http.Driver.Settles.{settles, settled_by, do_request-settles}
use weightless_core.Http.Driver.Sockets.{has, uses, releases}
use weightless_core.Http.Driver.Closes.{do_request-releases}
use weightless_core.Http.Driver.Sends.{taken, Sent, head_text, send_request-Sent}
use weightless_core.Http.Driver.Ends.{async_send_ends}

-- b'HTTP/1.1 204 No\r\n\r\n'
abbrev no_content_response : Bytes
no_content_response =
    72 ∷ 84 ∷ 84 ∷ 80 ∷ 47 ∷ 49 ∷ 46 ∷ 49 ∷ 32 ∷ 50 ∷ 48 ∷ 52 ∷ 32 ∷ 78 ∷ 111 ∷ 13 ∷ 10 ∷ 13 ∷ 10
    ∷ []

-- Nothing raises, the socket takes four bytes at a time, and the peer sends its response.
abbrev willing : Option ℕ → Bytes → Env
willing pooled response = record {
  raises = λ log. none;
  pooled = λ log. pooled;
  made = λ log. 7;
  error_number = λ log. 0;
  size_sent = λ log. 4;
  received = λ log. received response ∷ [];
  gives_up = λ log. exit;
  patience = 30;
}

-- GET / of the host "h", without a body.
abbrev get_slash : Arguments
get_slash = record {
  method = 71 ∷ 69 ∷ 84 ∷ [];
  request = 47 ∷ [];
  host = 104 ∷ [];
  body = [];
  secure = false;
  max_size = none;
}

answered : (do_main (willing none no_content_response) get_slash (started [])).0 ≡ ok tt
unfolding do_main started ◌>>=◌ catch asks handling set_headers
answered = refl

do_request-is_new_example :
    count is_new (do_request (willing none no_content_response) get_slash (started [])).1.log ≤ 1
do_request-is_new_example = do_request-is_new (willing none no_content_response) get_slash []

do_request-settles_example :
    count settles (do_request (willing none no_content_response) get_slash (started [])).1.log
    ≡ settled_by (do_main (willing none no_content_response) get_slash (started [])).0
unfolding is_connect
do_request-settles_example =
    do_request-settles (willing none no_content_response) get_slash (λ answer log. refl) [] refl

data_sent :
    has (uses 7) (do_request (willing none no_content_response) get_slash (started [])).1.log ≡ true
unfolding has do_request started ◌>>=◌ catch asks handling set_headers
data_sent = refl

do_request-releases_example :
    has (releases 7) (do_request (willing none no_content_response) get_slash (started [])).1.log
    ≡ true
do_request-releases_example =
    do_request-releases (willing none no_content_response) get_slash (λ s log e h. cc) [] 7
      data_sent

-- The peer has closed the socket from the pool.
abbrev again : Driver
again = (one_pass (willing (some 3) []) get_slash (some 3) (started [])).1

passes_again : one_pass (willing (some 3) []) get_slash (some 3) (started []) ≡ (ok none, again)
unfolding one_pass started ◌>>=◌ catch asks handling set_headers
passes_again = refl

nothing_received : Quiet (willing (some 3) []) (started []).log
unfolding Quiet started
nothing_received = tt

one_pass-again_example : (is_some {A = ℕ} (some 3) ≡ true) × Quiet (willing (some 3) []) again.log
one_pass-again_example =
    one_pass-again (willing (some 3) []) get_slash (some 3) (started []) again nothing_received
      passes_again

-- POST / with the body "b".
abbrev post_request : Env → Driver → Result (Unit {0}) × Driver
post_request env = send_request env 7 (80 ∷ 79 ∷ 83 ∷ 84 ∷ []) (47 ∷ []) (104 ∷ []) (98 ∷ [])

send_request-Sent_example :
    Sent
      (willing none [])
      7
      (head_text
          (willing none [])
          7
          (80 ∷ 79 ∷ 83 ∷ 84 ∷ [])
          (47 ∷ [])
          (104 ∷ [])
          (with_length (98 ∷ []) [])
        ++ 98 ∷ [])
      (post_request (willing none []) (started [])).0
      (post_request (willing none []) (started [])).1
unfolding started taken
send_request-Sent_example =
    send_request-Sent (willing none []) 7 [] (80 ∷ 79 ∷ 83 ∷ 84 ∷ []) (47 ∷ []) (104 ∷ []) (98 ∷ [])
      [] (started []) refl refl

async_send_ends_example :
    (async_send (willing none []) 9 7 (97 ∷ 98 ∷ 99 ∷ 100 ∷ 101 ∷ []) (started [])).0 ≡ ok tt
async_send_ends_example =
    async_send_ends (willing none []) 7 (λ text log. refl) (λ log. refl) (λ log. omega arith) 9
      (97 ∷ 98 ∷ 99 ∷ 100 ∷ 101 ∷ []) (started []) (omega arith)
