-- ===== src/Io/Reactor/State.antt =====
-- weightless/io/_reactor.py: the fields of a `Reactor`, and methods as functions that change it.
-- The operating system (epoll, `fileno`, the clock) is the parameter `Os`, over a world of its own.
-- Times are in milliseconds, so that EPOLL_TIMEOUT_GRANULARITY is 1.
use weightless_core.Base.{ℕ, ◌≡◌, ◌↔◌, Bool, true, false, Option, List, ◌==◌, ==_iff, arith}
use weightless_core.Base.Dict.{Eq}

-- `sok` arguments: a file descriptor, or an object with a method `fileno`.
pub data File : Type 0 where
  number : ℕ → File
  object : ℕ → File

-- What `fileno()` gives: a descriptor, -1, or an error with its number.
pub data Fileno : Type 0 where
  descriptor : ℕ → Fileno
  minus_one : Fileno
  fileno_error : ℕ → Fileno

pub data Intent : Type 0 where
  read_intent write_intent : Intent

pub data Registered : Type 0 where
  registered : Registered
  register_error : ℕ → Registered
  register_type_error : Registered

pub data Timeout : Type 0 where
  at_most : ℕ → Timeout
  forever : Timeout

pub data Poll : Type 0 where
  events : List ℕ → Poll
  poll_error : ℕ → Poll
  interrupt : Poll

pub record Os : Type 1 where
  pub W : Type 0
  pub fileno : W → ℕ → Fileno
  pub register : W → ℕ → Intent → Registered × W
  pub unregister : W → ℕ → Option ℕ × W
  pub poll : W → Timeout → Poll × W
  pub time : W → ℕ

-- The keys of the dictionaries: descriptors, and processes (callables).
pub data Handle : Type 0 where
  fd : ℕ → Handle
  process : ℕ → Handle

abbrev same_handle : Handle → Handle → Bool
same_handle (fd a) (fd b) = a == b
same_handle (process a) (process b) = a == b
same_handle _ _ = false

pub same_handle_iff : (a b : Handle) → (same_handle a b ≡ true) ↔ (a ≡ b)
same_handle_iff (fd a) (fd b) = ground (arith, ==_iff a b)
same_handle_iff (fd a) (process b) = (λ h. cc, λ h. cc)
same_handle_iff (process a) (fd b) = (λ h. cc, λ h. cc)
same_handle_iff (process a) (process b) = ground (arith, ==_iff a b)

instance abbrev pub handle_eq : Eq Handle
handle_eq = record { same = same_handle; same_iff = same_handle_iff }

-- `_FDContext` and `_ProcessContext`.
pub data Kind : Type 0 where
  fd_context : File → Intent → Kind
  process_context : Kind

pub record Context : Type 0 where
  pub callback : ℕ
  pub prio : ℕ
  pub kind : Kind

-- `token` stands for the identity of the object.
pub record Timer : Type 0 where
  pub token : ℕ
  pub time : ℕ
  pub callback : ℕ

pub data Exception : Type 0 where
  value_error runtime_error key_error attribute_error type_error : Exception
  io_error : ℕ → Exception
  assertion_error system_exit keyboard_interrupt : Exception
  failure : ℕ → Exception

-- `except (AssertionError, SystemExit, KeyboardInterrupt): raise`
abbrev pub is_fatal : Exception → Bool
is_fatal assertion_error = true
is_fatal system_exit = true
is_fatal keyboard_interrupt = true
is_fatal e = false

abbrev pub ebadf : ℕ
ebadf = 9

abbrev pub eintr : ℕ
eintr = 4

abbrev pub enoent : ℕ
enoent = 2

abbrev pub max_prio : ℕ
max_prio = 10

abbrev pub granularity : ℕ
granularity = 1

-- MAX_TIMEOUT_EPOLL is 2147482.647 seconds.
abbrev pub max_timeout : ℕ
max_timeout = 2147482647

-- `prio` is none before the first step, where the source has -1.
pub record Reactor (W : Type 0) : Type 0 where
  pub world : W
  pub fds : List (Handle × Context)
  pub bad_fds : List Context
  pub suspended : List (Handle × Context)
  pub running : List (Handle × Context)
  pub timers : List Timer
  pub next_token : ℕ
  pub prio : Option ℕ
  pub current_handle : Option Handle
  pub current_context : Option Context
  pub removed : List ℕ
  pub ctrl_read : ℕ
  pub looping : Bool

pub data Result (A : Type 0) : Type 0 where
  ok : A → Result A
  raised : Exception → Result A

abbrev pub Method : Type 0 → Type 0 → Type 0
Method W A = Reactor W → Result A × Reactor W

module _ {W A B : Type 0} where
  abbrev pub and_then : Result A → (A → Method W B) → Method W B
  and_then (ok a) f r = f a r
  and_then (raised e) f r = (raised e, r)

  infixl 5 ◌>>=◌ ◌>>◌
  abbrev pub ◌>>=◌ : Method W A → (A → Method W B) → Method W B
  (m >>= f) r = and_then (m r).0 f (m r).1

  abbrev pub ◌>>◌ : Method W A → Method W B → Method W B
  m >> n = m >>= λ _. n

module _ {W A : Type 0} where
  abbrev pub pure : A → Method W A
  pure a r = (ok a, r)

  abbrev pub raise : Exception → Method W A
  raise e r = (raised e, r)

abbrev pub modify : {W : Type 0} → (Reactor W → Reactor W) → Method W (Unit {0})
modify f r = (ok tt, f r)
