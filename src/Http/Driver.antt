-- ===== src/Http/Driver.antt =====
-- weightless/http/_httprequest1_1.py: what `_do` and its sub-generators are written in. A generator that
-- is resumed by the reactor is a function of a state that ends with a value or an exception. Each call
-- of the socket, the reactor, the pool or `suspend` is written to a log, and the rest of the program
-- and the system (`Env`) decides from the log what the last call gives or raises. A generator that is
-- never resumed is closed at the end: it gets `GeneratorExit`.
pub mod Request
pub mod Connection
pub mod Run
pub mod Keeps
pub mod Parts
pub mod Talking
pub mod Connecting
pub mod Counts
pub mod Settles
pub mod Retries
pub mod Again
pub mod Sockets
pub mod Closing
pub mod Closes
pub mod Sends
pub mod Ends
pub mod Tests
use weightless_core.Base.{
  ℕ, Bool, true, false, not, ◌||◌, ◌&&◌, Option, none, some, List, [], ◌∷◌, if◌then◌else◌,
}
use weightless_core.Http.Regexp.{Bytes}
use weightless_core.Http.Body.{Recv}
use weightless_core.Http.Headers.{Headers}
use weightless_core.Http.Strategy.{StatusLine}

-- `IOError` has four kinds that the code tells apart by their number; `interrupt` is
-- `KeyboardInterrupt` and `SystemExit`, `exit` is `GeneratorExit`, and `other` all other exceptions.
pub data Error : Type 0 where
  io_error in_progress not_connected ssl_want_read ssl_want_write value_error key_error : Error
  timeout assertion_error other : Error
  interrupt exit : Error

-- (AssertionError, KeyboardInterrupt, SystemExit)
unfoldable pub is_fatal : Error → Bool
is_fatal assertion_error = true
is_fatal interrupt = true
is_fatal e = false

-- (IOError, ValueError, KeyError)
unfoldable pub is_expected : Error → Bool
is_expected io_error = true
is_expected in_progress = true
is_expected not_connected = true
is_expected ssl_want_read = true
is_expected ssl_want_write = true
is_expected value_error = true
is_expected key_error = true
is_expected e = false

-- Is it an `Exception`, and not only a `BaseException`?
unfoldable pub is_exception : Error → Bool
is_exception interrupt = false
is_exception exit = false
is_exception e = true

-- `[statusAndHeaders, body]`
pub record Answer : Type 0 where
  pub line : StatusLine
  pub fields : Headers
  pub body : Bytes

-- Sockets are numbered. `yields` is the wait at `yield Yield`. `sends_all`, `hands_part` and `answers`
-- (`suspend.resume`) are for the client of HTTP/1.0, as is `splits_url`, the reading of its proxy's URL.
pub data Call : Type 0 where
  yields add_process remove_process gets_pooled new_socket logs splits_url : Call
  connects gets_error wraps handshakes receives shuts closes puts : ℕ → Call
  add_writer remove_writer add_reader remove_reader : ℕ → Call
  sends sends_all : ℕ → Bytes → Call
  hands_part : Bytes → Call
  answers : Option Bytes → Call
  resumes : Answer → Call
  throws : Error → Call

-- The last call is the first of the log.
abbrev pub Log : Type 0
Log = List Call

-- `raises`: what the last call raises, if it does. The others say what it gives; `made` is the number of
-- a new socket, for the client of HTTP/1.0 also of one that wraps another; `received` is what
-- `recv` gives from now on, up to the end or the point where `gives_up` is thrown into the generator.
-- A loop that has been resumed `patience` times gets `GeneratorExit` at its next `yield`.
pub record Env : Type 0 where
  pub raises : Log → Option Error
  pub pooled : Log → Option ℕ
  pub made : Log → ℕ
  pub error_number : Log → ℕ
  pub size_sent : Log → ℕ
  pub received : Log → List Recv
  pub gives_up : Log → Error
  pub patience : ℕ

-- What `_shutAndCloseOnce` keeps.
pub record Closer : Type 0 where
  pub sok : ℕ
  pub shut : Bool
  pub closed : Bool

-- `closer` is `shutAndCloseOnce` (none is `_noop`), `got_data` is the socket's `recievedData`, and
-- `headers` is the dictionary of the request, which the code changes.
pub record Driver : Type 0 where
  pub log : Log
  pub closer : Option Closer
  pub got_data : Bool
  pub headers : List (Bytes × Bytes)

pub data Result (A : Type 0) : Type 0 where
  ok : A → Result A
  raised : Error → Result A

abbrev pub M : Type 0 → Type 0
M A = Driver → Result A × Driver

abbrev pub pure : {A : Type 0} → A → M A
pure a w = (ok a, w)

abbrev pub raise : {A : Type 0} → Error → M A
raise e w = (raised e, w)

abbrev pub and_then : {A B : Type 0} → (A → M B) → Result A × Driver → Result B × Driver
and_then f (ok a, w) = f a w
and_then f (raised e, w) = (raised e, w)

infixl 5 ◌>>=◌ ◌>>◌
unfoldable pub ◌>>=◌ : {A B : Type 0} → M A → (A → M B) → M B
◌>>=◌ m f w = and_then f (m w)

abbrev pub ◌>>◌ : {A B : Type 0} → M A → M B → M B
m >> k = m >>= λ _. k

abbrev pub or_handle : {A : Type 0} → (Error → M A) → Result A × Driver → Result A × Driver
or_handle f (ok a, w) = (ok a, w)
or_handle f (raised e, w) = f e w

-- try: … except: …
unfoldable pub handling : {A : Type 0} → M A → (Error → M A) → M A
handling m f w = or_handle f (m w)

abbrev pub catches : {A : Type 0} → Result A × Driver → Result (Result A) × Driver
catches (r, w) = (ok r, w)

unfoldable pub catch : {A : Type 0} → M A → M (Result A)
catch m w = catches (m w)

abbrev pub returns : {A : Type 0} → Result A → M A
returns r w = (r, w)

-- try: … finally: …
abbrev pub finally : {A : Type 0} → M A → M (Unit {0}) → M A
finally m cleanup = catch m >>= λ r. cleanup >> returns r

-- A value that depends on the state.
unfoldable pub asks : {A : Type 0} → (Driver → A) → M A
asks f w = (ok (f w), w)

abbrev pub may_raise : Option Error → Driver → Result (Unit {0}) × Driver
may_raise none w = (ok tt, w)
may_raise (some e) w = (raised e, w)

unfoldable pub perform : Env → Call → M (Unit {0})
perform env c w = may_raise (env.raises (c ∷ w.log)) (record w { log = c ∷ w.log })

unfoldable pub set_closer : Option Closer → M (Unit {0})
set_closer c w = (ok tt, record w { closer = c })

unfoldable pub set_got_data : Bool → M (Unit {0})
set_got_data b w = (ok tt, record w { got_data = b })

unfoldable pub set_headers : List (Bytes × Bytes) → M (Unit {0})
set_headers hs w = (ok tt, record w { headers = hs })
