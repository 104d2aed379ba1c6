-- ===== src/Http/Response.antt =====
-- weightless/http/_httpserver.py: how `HttpHandler` writes a response that is not compressed. The
-- handler's generator is the list of what it yields, and ends or raises after it; an output that is
-- called (`callable(data)`) is left out. The socket takes a part of the data, or raises.
pub mod Sent
pub mod Update
pub mod Compress
pub mod Stream
pub mod Tests
use weightless_core.Base.{
  ℕ, Bool, true, false, not, Option, none, some, List, [], ◌∷◌, ◌++◌, if◌then◌else◌, is_empty, take,
  drop,
}
use weightless_core.Http.Regexp.{Bytes}

-- What `next(self._handler)` gives: data, or `Yield`.
pub data Output : Type 0 where
  data_output : Bytes → Output
  yield_output : Output

-- The main loop, `_no_response_500`, and the two ways in which the connection is closed.
pub data Mode : Type 0 where
  writing no_response closed aborted : Mode

-- `sent` is what the socket took.
pub record Writer : Type 0 where
  pub outputs : List Output
  pub rest : Bytes
  pub started : Bool
  pub mode : Mode
  pub sent : Bytes

-- The message of `_no_response_500`.
abbrev pub message_500 : Bytes
message_500 =
    72 ∷ 84 ∷ 84 ∷ 80 ∷ 47 ∷ 49 ∷ 46 ∷ 48 ∷ 32 ∷ 53 ∷ 48 ∷ 48 ∷ 32 ∷ 73 ∷ 110 ∷ 116 ∷ 101 ∷ 114
    ∷ 110 ∷ 97 ∷ 108 ∷ 32 ∷ 83 ∷ 101 ∷ 114 ∷ 118 ∷ 101 ∷ 114 ∷ 32 ∷ 69 ∷ 114 ∷ 114 ∷ 111 ∷ 114 ∷ 13
    ∷ 10 ∷ 13 ∷ 10 ∷ []

-- `_send`: the socket takes `n` bytes at most, or raises (none).
unfoldable pub send : Option ℕ → Bytes → Writer → Writer
send none text w = record w { mode = aborted }
send (some n) text w = record w { sent = w.sent ++ take n text; rest = drop n text }

-- The handler's generator has ended, or has raised; an `AssertionError`, `SystemExit` or
-- `KeyboardInterrupt` goes through to the reactor and is left out.
unfoldable pub end_of_handler : Bool → Writer → Writer
end_of_handler true w = record w { mode = closed }
end_of_handler false w = record w { mode = no_response; rest = message_500 }

-- The handler's next output.
unfoldable pub next_output : Option ℕ → List Output → Writer → Writer
unfolding send end_of_handler
next_output room [] w = end_of_handler w.started w
next_output room (yield_output ∷ os) w = record w { outputs = os }
next_output room (data_output [] ∷ os) w = record w { outputs = os }
next_output room (data_output (b ∷ text) ∷ os) w =
    send room (b ∷ text) (record w { outputs = os; started = true })

unfoldable pub write_main : Option ℕ → Bytes → Writer → Writer
unfolding next_output send
write_main room [] w = next_output room w.outputs w
write_main room (b ∷ rest) w = send room (b ∷ rest) w

-- Behind the last part of the message the connection is closed.
unfoldable pub close_if_sent : Bytes → Mode → Writer → Writer
close_if_sent [] no_response w = record w { mode = closed }
close_if_sent rest mode w = w

unfoldable pub write_no_response : Option ℕ → Writer → Writer
unfolding send close_if_sent
write_no_response room w = let v = send room w.rest w in close_if_sent v.rest v.mode v

-- One call of the writer, for a socket that has room.
unfoldable pub write_in : Mode → Option ℕ → Writer → Writer
unfolding write_main write_no_response
write_in writing room w = write_main room w.rest w
write_in no_response room w = write_no_response room w
write_in closed room w = w
write_in aborted room w = w

unfoldable pub write : Option ℕ → Writer → Writer
unfolding write_in
write room w = write_in w.mode room w

unfoldable pub write_all : List (Option ℕ) → Writer → Writer
unfolding write
write_all [] w = w
write_all (room ∷ rooms) w = write_all rooms (write room w)

unfoldable pub write_response : List Output → Writer
write_response outputs = record {
  outputs = outputs;
  rest = [];
  started = false;
  mode = writing;
  sent = [];
}
