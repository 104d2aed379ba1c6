-- ===== src/Io/Reactor/Steps.antt =====
-- weightless/io/_reactor.py: what `step` keeps, for callbacks that act on the reactor by its methods,
-- of which `resumeProcess` only gets handles of processes.
use weightless_core.Base.{
  pop_last, ℕ, zero, suc, ◌≡◌, refl, sym, subst, ◌&&◌, Option, none, some, List, [], ◌∷◌, arith,
  Bool-cases, inl, inr, is_empty, ltb, ◌+◌, All,
}
use weightless_core.Base.Dict.{get}
use weightless_core.Io.Reactor.State.{
  Intent, read_intent, write_intent, Os, Poll, events, poll_error, interrupt, Handle, handle_eq, fd,
  process, Context, Timer, Reactor, Result, ok, raised, Method, ◌>>◌, granularity,
}
use weightless_core.Io.Reactor.Methods.{contains, remove_timer, Call, perform_all}
use weightless_core.Io.Reactor.Apart.{
  IsApart, IsForProcess, Keeps, bind-Keeps, contains-remove, perform_all-IsApart,
  remove_timer-Keeps, remove_process-Keeps,
}
use weightless_core.Io.Reactor.Step.{
  mem, has_token, has_intent, in_turn, next_prio, survives, last_callback, last_round,
  last_callbacks, fire, timer_callbacks, drop_handle, after_callback, fd_callback, on_event,
  callbacks, after_process, process_callback, process_callbacks, run_callbacks, due_timers,
  all_processes, shutdown, on_poll, poll_step, step, poll_timeout,
}

module _ (os : Os) (call : ℕ → Method os.W (Unit {0}))
    (acts : (callback : ℕ) (r : Reactor os.W)
      → (calls : List Call) × All IsForProcess calls
        × ((call callback r).1 ≡ perform_all os calls r)) where
  open os use {W, poll}

  call-Keeps : (callback : ℕ) → Keeps (call callback)
  call-Keeps callback r v =
      let (calls, i, e) = acts callback r in
      subst IsApart (sym e) (perform_all-IsApart os calls r i v)

  survives-IsApart :
      (x : Result (Unit {0}) × Reactor W) → IsApart x.1 → IsApart (survives os call x).1
  unfolding survives
  survives-IsApart (ok a, r) v = v
  survives-IsApart (raised e, r) v = λ h. ground (arith, v h)

  last_callback-Keeps : (c : Context) (rest : List Context) → Keeps (last_callback os call c rest)
  unfolding last_callback
  last_callback-Keeps c rest r v = survives-IsApart _ (call-Keeps c.callback _ (λ h. v h))

  last_round-Keeps :
      (next : Method W (Unit {0})) (cs : List Context)
      → Keeps next
      → Keeps (last_round os call next cs)
  unfolding last_round
  last_round-Keeps next [] k r v = v
  last_round-Keeps next (c ∷ cs) k r v =
      bind-Keeps (last_callback os call (pop_last c cs).1 (pop_last c cs).0) (λ _. next)
        (last_callback-Keeps _ _) (λ _. k) r v

  last_callbacks-Keeps : (fuel : ℕ) → Keeps (last_callbacks os call fuel)
  unfolding last_callbacks
  last_callbacks-Keeps zero r v = v
  last_callbacks-Keeps (suc fuel) r v =
      last_round-Keeps (last_callbacks os call fuel) r.bad_fds (last_callbacks-Keeps fuel) r v

  fire-Keeps : (t : Timer) → Keeps (fire os call t)
  unfolding fire
  fire-Keeps t r v = elim (Bool-cases (has_token t.token r.timers)) [
    | inl e ↦ rw e (
        bind-Keeps (remove_timer os t.token) (λ _ s. survives os call (call t.callback s))
          (remove_timer-Keeps os t.token) (λ _ s w. survives-IsApart _ (call-Keeps t.callback s w))
          _ (λ h. v h))
    | inr e ↦ rw e v
  ]

  timer_callbacks-Keeps : (now : ℕ) (ts : List Timer) → Keeps (timer_callbacks os call now ts)
  unfolding timer_callbacks
  timer_callbacks-Keeps now [] r v = v
  timer_callbacks-Keeps now (t ∷ ts) r v = elim (Bool-cases (ltb (now + granularity) t.time)) [
    | inl e ↦ rw e v
    | inr e ↦ rw e (
        bind-Keeps (fire os call t) (λ _. timer_callbacks os call now ts) (fire-Keeps t)
          (λ _. timer_callbacks-Keeps now ts) r v)
  ]

  drop_handle-Keeps : (h : Option Handle) → Keeps (drop_handle os call h)
  unfolding drop_handle
  drop_handle-Keeps none r v = v
  drop_handle-Keeps (some (process p)) r v = v
  drop_handle-Keeps (some (fd n)) r v = elim (Bool-cases (contains (fd n) r.fds)) [
    | inl e ↦ rw e (λ h. ground (arith, v h, contains-remove (fd n) h r.fds))
    | inr e ↦ rw e v
  ]

  after_callback-IsApart :
      (x : Result (Unit {0}) × Reactor W) → IsApart x.1 → IsApart (after_callback os call x).1
  unfolding after_callback
  after_callback-IsApart (ok a, r) v = v
  after_callback-IsApart (raised e, r) v = drop_handle-Keeps r.current_handle r v

  on_event-Keeps :
      (intent : Intent) (n : ℕ) (c : Option Context) → Keeps (on_event os call intent n c)
  unfolding on_event fd_callback
  on_event-Keeps intent n none r v = λ h. v h
  on_event-Keeps intent n (some c) r v =
      elim (Bool-cases (has_intent intent c.kind && in_turn c.prio r.prio)) [
        | inl e ↦ rw e (after_callback-IsApart _ (call-Keeps c.callback _ (λ h. v h)))
        | inr e ↦ rw e v
      ]

  callbacks-Keeps : (intent : Intent) (ns : List ℕ) → Keeps (callbacks os call intent ns)
  unfolding callbacks
  callbacks-Keeps intent [] r v = v
  callbacks-Keeps intent (n ∷ ns) r v = elim (Bool-cases (mem n r.removed)) [
    | inl e ↦ rw e (callbacks-Keeps intent ns r v)
    | inr e ↦ rw e (
        bind-Keeps (on_event os call intent n (get (fd n) r.fds)) (λ _. callbacks os call intent ns)
          (on_event-Keeps intent n _) (λ _. callbacks-Keeps intent ns) r v)
  ]

  after_process-IsApart :
      (h : Handle) (x : Result (Unit {0}) × Reactor W)
      → IsApart x.1
      → IsApart (after_process os call h x).1
  unfolding after_process
  after_process-IsApart h (ok a, r) v = v
  after_process-IsApart h (raised e, r) v = remove_process-Keeps os h r v

  process_callback-Keeps : (h : Handle) (c : Context) → Keeps (process_callback os call h c)
  unfolding process_callback
  process_callback-Keeps h c r v =
      elim (Bool-cases (contains h r.running && in_turn c.prio r.prio)) [
        | inl e ↦ rw e (after_process-IsApart h _ (call-Keeps c.callback _ (λ k. v k)))
        | inr e ↦ rw e (λ k. v k)
      ]

  process_callbacks-Keeps : (ps : List (Handle × Context)) → Keeps (process_callbacks os call ps)
  unfolding process_callbacks
  process_callbacks-Keeps [] r v = v
  process_callbacks-Keeps ((h, c) ∷ ps) r v =
      bind-Keeps (process_callback os call h c) (λ _. process_callbacks os call ps)
        (process_callback-Keeps h c) (λ _. process_callbacks-Keeps ps) r v

  run_callbacks-Keeps : (ns : List ℕ) → Keeps (run_callbacks os call ns)
  unfolding run_callbacks due_timers all_processes
  run_callbacks-Keeps ns =
      bind-Keeps (due_timers os call) (λ _. reads)
        (λ r v. timer_callbacks-Keeps (os.time r.world) r.timers r v)
        λ _.
          bind-Keeps (callbacks os call read_intent ns) (λ _. writes)
            (callbacks-Keeps read_intent ns)
            λ _.
              bind-Keeps (callbacks os call write_intent ns) (λ _. all_processes os call)
                (callbacks-Keeps write_intent ns) λ _ r v. process_callbacks-Keeps r.running r v
    where
      writes : Method W (Unit {0})
      writes = callbacks os call write_intent ns >> all_processes os call

      reads : Method W (Unit {0})
      reads = callbacks os call read_intent ns >> writes

  shutdown-IsApart : (r : Reactor W) → IsApart (shutdown os call r)
  unfolding shutdown
  shutdown-IsApart r = elim [ fd n ↦ refl | process p ↦ refl ]

  on_poll-IsApart : (x : Poll × W) (r : Reactor W) → IsApart r → IsApart (on_poll os call x r).1
  unfolding on_poll
  on_poll-IsApart (events ns, w) r v = run_callbacks-Keeps ns _ (λ h. v h)
  on_poll-IsApart (poll_error e, w) r v = λ h. v h
  on_poll-IsApart (interrupt, w) r v = shutdown-IsApart (record r { world = w })

  -- One step, whatever `poll` reports, for callbacks that call methods of the reactor, `resumeProcess`
  -- only with handles of processes, and return or raise: what is suspended is neither registered nor
  -- running, `_fds` holds only descriptors and `_running` only processes.
  pub step-IsApart : (fuel : ℕ) (r : Reactor W) → IsApart r → IsApart (step os call fuel r).1
  unfolding step poll_step
  step-IsApart fuel r v = elim (Bool-cases (is_empty r.bad_fds)) [
    | inl e ↦ rw e (on_poll-IsApart (polled (in_turn_now r)) (in_turn_now r) (λ h. v h))
    | inr e ↦ rw e (last_callbacks-Keeps fuel r v)
  ]
    where
      in_turn_now : Reactor W → Reactor W
      in_turn_now s = record s { prio = some (next_prio s.prio) }

      polled : Reactor W → Poll × W
      polled s = poll s.world (poll_timeout os call s.running s.timers (os.time s.world))
