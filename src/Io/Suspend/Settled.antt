-- ===== src/Io/Suspend/Settled.antt =====
-- weightless/io/_suspend.py: the first result of a `Suspend` is the one that it keeps.
use weightless_core.Base.{
  ℕ, ◌≡◌, refl, subst, ap, Bool, true, false, Option, none, some, List, [], ◌∷◌, Bool-cases,
  Option-cases, inl, inr,
}
use weightless_core.Io.Reactor.State.{
  Os, Handle, Exception, is_fatal, Reactor, Result, ok, raised, Method,
}
use weightless_core.Io.Reactor.Methods.{remove_timer, resume_reader, resume_writer, resume_process}
use weightless_core.Io.Suspend.{
  Suspend, Both, Action, and_act, settled_with, settle_unless, timeout_exception, cancel_timer,
  wake, settle, resume, throw, with_handle, after_on_timeout, timed_out, get_result, Event, resumes,
  throws, times_out, resumes_reader, resumes_writer, resumes_process, happen, happen_all,
}

-- The object has its result, and it is `x`.
abbrev pub HasResult : {W V : Type 0} → Both W V → Option Exception × Option V → Type 0
HasResult p x = (p.0.settled ≡ true) × ((p.0.exception, p.0.response) ≡ x)

-- A function of the program that leaves a settled object its result.
abbrev pub LeavesResult : {W V : Type 0} → Action W V (Unit {0}) → Type 0
LeavesResult {W} {V} act =
    (p : Both W V) (x : Option Exception × Option V) → HasResult p x → HasResult (act p).1 x

module _ (os : Os) {V : Type 0} (do_next when_done on_timeout : Action os.W V (Unit {0}))
    (waking : LeavesResult when_done) (timing : LeavesResult on_timeout) where
  open os use {W}

  settle_unless-HasResult :
      (b : Bool) (timer : Option ℕ) (set : Suspend V → Suspend V) (p : Both W V)
      (x : Option Exception × Option V)
      → b ≡ true
      → HasResult p x
      → HasResult (settle_unless os do_next when_done on_timeout b timer set p).1 x
  unfolding settle_unless
  settle_unless-HasResult true timer set p x e h = h
  settle_unless-HasResult false timer set p x e h = cc

  settle-LeavesResult :
      (set : Suspend V → Suspend V) → LeavesResult (settle os do_next when_done on_timeout set)
  unfolding settle
  settle-LeavesResult set p x h = settle_unless-HasResult p.0.settled p.0.timer set p x h.0 h

  after_on_timeout-HasResult :
      (y : Result (Unit {0}) × Both W V) (x : Option Exception × Option V)
      → HasResult y.1 x
      → HasResult (after_on_timeout os do_next when_done on_timeout y).1 x
  unfolding after_on_timeout throw
  after_on_timeout-HasResult (raised e, p) x h = elim (Bool-cases (is_fatal e)) [
    | inl f ↦ rw f h
    | inr f ↦
        rw f (settle-LeavesResult (λ s. record s { exception = some timeout_exception }) p x h)
  ]
  after_on_timeout-HasResult (ok a, p) x h =
      settle-LeavesResult (λ s. record s { exception = some timeout_exception }) p x h

  with_handle-LeavesResult :
      (m : Handle → Method W (Unit {0}))
      → LeavesResult (with_handle os do_next when_done on_timeout m)
  unfolding with_handle
  with_handle-LeavesResult m (s, r) x h = elim (Option-cases s.handle) [
    | inl e ↦ rw e h
    | inr (k, e) ↦ rw e h
  ]

  happen-LeavesResult : (e : Event V) → LeavesResult (happen os do_next when_done on_timeout e)
  unfolding happen resume throw timed_out
  happen-LeavesResult (resumes v) p x h =
      settle-LeavesResult (λ s. record s { response = some v }) p x h
  happen-LeavesResult (throws e) p x h =
      settle-LeavesResult (λ s. record s { exception = some e }) p x h
  happen-LeavesResult times_out (s, r) x h =
      after_on_timeout-HasResult (on_timeout (record s { timer = none }, r)) x
        (timing (record s { timer = none }, r) x h)
  happen-LeavesResult resumes_reader p x h = with_handle-LeavesResult (resume_reader os) p x h
  happen-LeavesResult resumes_writer p x h = with_handle-LeavesResult (resume_writer os) p x h
  happen-LeavesResult resumes_process p x h = with_handle-LeavesResult (resume_process os) p x h

  happen_all-LeavesResult :
      (es : List (Event V)) (p : Both W V) (x : Option Exception × Option V)
      → HasResult p x
      → HasResult (happen_all os do_next when_done on_timeout es p) x
  unfolding happen_all
  happen_all-LeavesResult [] p x h = h
  happen_all-LeavesResult (e ∷ es) p x h =
      happen_all-LeavesResult es (happen os do_next when_done on_timeout e p).1 x
        (happen-LeavesResult e p x h)

  -- The object waits: it has no result, and its timer, if it has one, is there.
  abbrev pub IsWaiting : Both W V → Type 0
  IsWaiting p =
      (p.0.settled ≡ false)
      × (p.0.exception ≡ none)
      × ((cancel_timer os do_next when_done on_timeout p.0.timer p).0 ≡ ok tt)

  wake-LeavesResult : (b : Bool) → LeavesResult (wake os do_next when_done on_timeout b)
  unfolding wake
  wake-LeavesResult true p x h = waking p x h
  wake-LeavesResult false p x h = h

  settled_with-HasResult :
      (set : Suspend V → Suspend V) (p : Both W V)
      → HasResult
          (settled_with os do_next when_done on_timeout set p).1
          ((set p.0).exception, (set p.0).response)
  unfolding settled_with
  settled_with-HasResult set (s, r) =
      wake-LeavesResult s.has_when_done (record (set s) { settled = true }, r)
        ((set s).exception, (set s).response) (refl, refl)

  and_settled :
      (set : Suspend V → Suspend V) (s : Suspend V) (y : Result (Unit {0}) × Reactor W)
      → y.0 ≡ ok tt
      → HasResult
          (and_act (y.0, (s, y.1)) (λ _. settled_with os do_next when_done on_timeout set)).1
          ((set s).exception, (set s).response)
  and_settled set s (ok a, r) e = settled_with-HasResult set (s, r)
  and_settled set s (raised x, r) e = cc

  settle_unless_waiting :
      (b : Bool) (timer : Option ℕ) (set : Suspend V → Suspend V) (p : Both W V)
      → b ≡ false
      → (cancel_timer os do_next when_done on_timeout timer p).0 ≡ ok tt
      → HasResult
          (settle_unless os do_next when_done on_timeout b timer set p).1
          ((set p.0).exception, (set p.0).response)
  unfolding settle_unless cancel_timer
  settle_unless_waiting true timer set p e c = cc
  settle_unless_waiting false none set p e c = settled_with-HasResult set p
  settle_unless_waiting false (some token) set (s, r) e c =
      and_settled set s (remove_timer os token r) c

  result-get_result :
      (p : Both W V) (v : V)
      → HasResult p (none, some v)
      → get_result os do_next when_done on_timeout p.0 ≡ ok v
  unfolding get_result
  result-get_result p v h = rw (ap (λ y. y.0) h.1, ap (λ y. y.1) h.1)

  -- A waiting object that is resumed with `v` has the result `v`, and has it still after whatever
  -- follows: further calls of `resume` and `throw`, the timer, and resumptions of the handle. This
  -- is for functions `whenDone` and `onTimeout` that leave a settled object its result.
  pub resume-get_result :
      (v : V) (p : Both W V) (es : List (Event V))
      → IsWaiting p
      → get_result os do_next when_done on_timeout
          (happen_all os do_next when_done on_timeout es
            (resume os do_next when_done on_timeout v p).1).0
        ≡ ok v
  unfolding resume settle
  resume-get_result v p es (e, x, c) =
      let q = (resume os do_next when_done on_timeout v p).1 in
      result-get_result (happen_all os do_next when_done on_timeout es q) v (
        happen_all-LeavesResult es q (none, some v)
          (subst (λ y. HasResult (resume os do_next when_done on_timeout v p).1 (y, some v)) x
            (settle_unless_waiting p.0.settled p.0.timer (λ s. record s { response = some v }) p e
              c)))

  exception-get_result :
      (p : Both W V) (x : Exception) (v : Option V)
      → HasResult p (some x, v)
      → get_result os do_next when_done on_timeout p.0 ≡ raised x
  unfolding get_result
  exception-get_result p x v h = rw (ap (λ y. y.0) h.1)

  -- The same for `throw`: the exception is the result for good.
  pub throw-get_result :
      (x : Exception) (p : Both W V) (es : List (Event V))
      → IsWaiting p
      → get_result os do_next when_done on_timeout
          (happen_all os do_next when_done on_timeout es
            (throw os do_next when_done on_timeout x p).1).0
        ≡ raised x
  unfolding throw settle
  throw-get_result x p es (e, n, c) =
      let q = (throw os do_next when_done on_timeout x p).1 in
      exception-get_result (happen_all os do_next when_done on_timeout es q) x p.0.response (
        happen_all-LeavesResult es q (some x, p.0.response)
          (settle_unless_waiting p.0.settled p.0.timer (λ s. record s { exception = some x }) p e
            c))
