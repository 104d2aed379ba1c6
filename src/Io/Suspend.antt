-- ===== src/Io/Suspend.antt =====
-- weightless/io/_suspend.py: `Suspend`, over the reactor of Io/Reactor. `doNext`, `whenDone` and
-- `onTimeout` are the program's functions; they may act on the object and on the reactor.
pub mod Settled
use weightless_core.Base.{
  ℕ, Bool, true, false, not, Option, none, some, List, [], ◌∷◌, if◌then◌else◌,
}
use weightless_core.Io.Reactor.State.{
  Os, Handle, Exception, assertion_error, attribute_error, failure, is_fatal, Reactor, Result, ok,
  raised, Method, Intent, read_intent, write_intent,
}
use weightless_core.Io.Reactor.Methods.{
  add_timer, remove_timer, suspend, resume_reader, resume_writer, resume_process,
}

-- `TimeoutException`
abbrev pub timeout_exception : Exception
timeout_exception = failure 0

-- `has_when_done` says that `_whenDone` is set; the other attributes are none until they are.
pub record Suspend (V : Type 0) : Type 0 where
  pub timeout : Option ℕ
  pub exception : Option Exception
  pub settled : Bool
  pub timer : Option ℕ
  pub response : Option V
  pub handle : Option Handle
  pub has_when_done : Bool

-- The object and the reactor.
abbrev pub Both : Type 0 → Type 0 → Type 0
Both W V = Suspend V × Reactor W

abbrev pub Action : Type 0 → Type 0 → Type 0 → Type 0
Action W V A = Both W V → Result A × Both W V

abbrev pub on_reactor : {W V A : Type 0} → Method W A → Action W V A
on_reactor m (s, r) = ((m r).0, (s, (m r).1))

module _ {W V A B : Type 0} where
  abbrev pub and_act : Result A × Both W V → (A → Action W V B) → Result B × Both W V
  and_act (ok a, p) f = f a p
  and_act (raised e, p) f = (raised e, p)

-- What happens to the object once it waits: calls of its methods, and the timer.
pub data Event (V : Type 0) : Type 0 where
  resumes : V → Event V
  throws : Exception → Event V
  times_out resumes_reader resumes_writer resumes_process : Event V

-- The number that stands for `self._timedOut` among the callbacks of the timers.
abbrev timed_out_callback : ℕ
timed_out_callback = 0

module _ (os : Os) {V : Type 0} (do_next when_done on_timeout : Action os.W V (Unit {0})) where
  open os use {W}

  unfoldable pub remember_timer : ℕ → Action W V (Unit {0})
  remember_timer token (s, r) = (ok tt, (record s { timer = some token }, r))

  unfoldable pub start_timer : Option ℕ → Action W V (Unit {0})
  unfolding remember_timer
  start_timer none p = (ok tt, p)
  start_timer (some seconds) p =
      and_act (on_reactor (add_timer os seconds timed_out_callback) p) remember_timer

  unfoldable pub remember_handle : Handle → Action W V (Unit {0})
  remember_handle h (s, r) = (ok tt, (record s { handle = some h }, r))

  unfoldable pub suspend_now : Action W V (Unit {0})
  unfolding remember_handle
  suspend_now p = and_act (on_reactor (suspend os) p) remember_handle

  unfoldable pub after_do_next : Result (Unit {0}) × Both W V → Result (Unit {0}) × Both W V
  unfolding start_timer suspend_now
  after_do_next (raised e, (s, r)) =
      if is_fatal e then (raised e, (s, r)) else (ok tt, (record s { exception = some e }, r))
  after_do_next (ok _, (s, r)) =
      and_act (start_timer s.timeout (record s { has_when_done = true }, r)) (λ _. suspend_now)

  -- `__call__`
  unfoldable pub start : Action W V (Unit {0})
  unfolding after_do_next
  start p = after_do_next (do_next p)

  unfoldable pub cancel_timer : Option ℕ → Action W V (Unit {0})
  cancel_timer none p = (ok tt, p)
  cancel_timer (some token) p = on_reactor (remove_timer os token) p

  -- `self._whenDone()`, and whether it is set.
  unfoldable pub wake : Bool → Action W V (Unit {0})
  wake true p = when_done p
  wake false p = (raised attribute_error, p)

  unfoldable pub settled_with : (Suspend V → Suspend V) → Action W V (Unit {0})
  unfolding wake
  settled_with set (s, r) = wake s.has_when_done (record (set s) { settled = true }, r)

  -- The part that `resume` and `throw` share; `set` sets the result.
  unfoldable pub settle_unless : Bool → Option ℕ → (Suspend V → Suspend V) → Action W V (Unit {0})
  unfolding cancel_timer settled_with
  settle_unless true timer set p = (raised assertion_error, p)
  settle_unless false timer set p = and_act (cancel_timer timer p) (λ _. settled_with set)

  unfoldable pub settle : (Suspend V → Suspend V) → Action W V (Unit {0})
  unfolding settle_unless
  settle set p = settle_unless p.0.settled p.0.timer set p

  unfoldable pub resume : V → Action W V (Unit {0})
  unfolding settle
  resume response = settle (λ s. record s { response = some response })

  unfoldable pub throw : Exception → Action W V (Unit {0})
  unfolding settle
  throw e = settle (λ s. record s { exception = some e })

  unfoldable pub with_handle : (Handle → Method W (Unit {0})) → Action W V (Unit {0})
  with_handle m (s, r) = elim s.handle [ none ↦ (ok tt, (s, r)) | some h ↦ on_reactor (m h) (s, r) ]

  unfoldable pub after_on_timeout : Result (Unit {0}) × Both W V → Result (Unit {0}) × Both W V
  unfolding throw
  after_on_timeout (raised e, p) = if is_fatal e then (raised e, p) else throw timeout_exception p
  after_on_timeout (ok _, p) = throw timeout_exception p

  -- `_timedOut`
  unfoldable pub timed_out : Action W V (Unit {0})
  unfolding after_on_timeout
  timed_out (s, r) = after_on_timeout (on_timeout (record s { timer = none }, r))

  -- `getResult`
  unfoldable pub get_result : Suspend V → Result V
  get_result s = elim s.exception [
    | some e ↦ raised e
    | none ↦ elim s.response [ none ↦ raised attribute_error | some v ↦ ok v ]
  ]

  unfoldable pub happen : Event V → Action W V (Unit {0})
  unfolding resume throw timed_out with_handle
  happen (resumes v) = resume v
  happen (throws e) = throw e
  happen times_out = timed_out
  happen resumes_reader = with_handle (resume_reader os)
  happen resumes_writer = with_handle (resume_writer os)
  happen resumes_process = with_handle (resume_process os)

  -- One after the other, also after one that raises.
  unfoldable pub happen_all : List (Event V) → Both W V → Both W V
  unfolding happen
  happen_all [] p = p
  happen_all (e ∷ es) p = happen_all es (happen e p).1
