-- ===== src/Io/Reactor/Step.antt =====
-- weightless/io/_reactor.py: `step`, which runs the callbacks, and the four loops in it. A callback is
-- the program's code: the parameter `call`. What it does to the reactor it does by the methods.
use weightless_core.Base.{
  ℕ, zero, suc, ◌+◌, ◌-◌, ◌%◌, Bool, true, false, ◌||◌, ◌&&◌, Option, none, some, List, [], ◌∷◌,
  ltb, leb, ◌==◌, if◌then◌else◌, is_empty, pop_last,
}
use weightless_core.Base.Dict.{get, remove}
use weightless_core.Io.Reactor.State.{
  Intent, read_intent, write_intent, Os, Timeout, at_most, forever, Poll, events, poll_error,
  interrupt, Handle, handle_eq, fd, process, Kind, fd_context, process_context, Context, Timer,
  keyboard_interrupt, io_error, eintr, is_fatal, max_prio, granularity, max_timeout, Reactor,
  Result, ok, raised, Method, ◌>>◌,
}
use weightless_core.Io.Reactor.Methods.{
  contains, remove_timer, remove_process, epoll_unregister_safe,
}

abbrev pub mem : ℕ → List ℕ → Bool
mem n [] = false
mem n (m ∷ ms) = m == n || mem n ms

unfoldable pub has_token : ℕ → List Timer → Bool
has_token token [] = false
has_token token (t ∷ ts) = t.token == token || has_token token ts

abbrev pub same_intent : Intent → Intent → Bool
same_intent read_intent read_intent = true
same_intent write_intent write_intent = true
same_intent _ _ = false

unfoldable pub has_intent : Intent → Kind → Bool
has_intent intent (fd_context file own) = same_intent own intent
has_intent intent process_context = false

-- `context.prio <= self._prio`
unfoldable pub in_turn : ℕ → Option ℕ → Bool
in_turn prio none = false
in_turn prio (some now) = leb prio now

-- `(self._prio + 1) % Reactor.MAXPRIO`, from -1 on.
unfoldable pub next_prio : Option ℕ → ℕ
next_prio none = 0
next_prio (some prio) = (prio + 1) % max_prio

module _ (os : Os) (call : ℕ → Method os.W (Unit {0})) where
  open os use {W, poll, time}

  -- A callback in a loop that goes on after the exceptions that are not fatal.
  unfoldable pub survives : Result (Unit {0}) × Reactor W → Result (Unit {0}) × Reactor W
  survives (ok _, r) = (ok tt, r)
  survives (raised e, r) = if is_fatal e then (raised e, r) else (ok tt, r)

  -- The callback of a bad descriptor: there is no handle to suspend.
  unfoldable pub last_callback : Context → List Context → Method W (Unit {0})
  unfolding survives
  last_callback context rest r = survives (
      call context.callback
        (record r { bad_fds = rest; current_handle = none; current_context = some context }))

  unfoldable pub last_round : Method W (Unit {0}) → List Context → Method W (Unit {0})
  unfolding last_callback
  last_round loop [] r = (ok tt, r)
  last_round loop (c ∷ cs) r = (last_callback (pop_last c cs).1 (pop_last c cs).0 >> loop) r

  -- `_lastCallbacks`, one unit of fuel for each callback; callbacks that add bad descriptors on and on
  -- would keep the source in this loop, where the fuel ends it.
  unfoldable pub last_callbacks : ℕ → Method W (Unit {0})
  unfolding last_round
  last_callbacks zero r = (ok tt, r)
  last_callbacks (suc fuel) r = last_round (last_callbacks fuel) r.bad_fds r

  -- The body of `_timerCallbacks` for a timer that is due. A timer is no context to suspend: with no
  -- current handle, `suspend` refuses before it looks at the context.
  unfoldable pub fire : Timer → Method W (Unit {0})
  unfolding survives remove_timer has_token
  fire t r =
      if has_token t.token r.timers
      then (remove_timer os t.token >> (λ s. survives (call t.callback s)))
          (record r { current_handle = none; current_context = none })
      else (ok tt, r)

  -- `_timerCallbacks`, over a copy of the list.
  unfoldable pub timer_callbacks : ℕ → List Timer → Method W (Unit {0})
  unfolding fire
  timer_callbacks now [] r = (ok tt, r)
  timer_callbacks now (t ∷ ts) r =
      if ltb (now + granularity) t.time then (ok tt, r) else (fire t >> timer_callbacks now ts) r

  -- `del fds[…]` and `_epollUnregisterSafe`, if the current handle is still registered.
  unfoldable pub drop_handle : Option Handle → Method W (Unit {0})
  unfolding epoll_unregister_safe
  drop_handle none r = (ok tt, r)
  drop_handle (some (process p)) r = (ok tt, r)
  drop_handle (some (fd n)) r =
      if contains (fd n) r.fds
      then epoll_unregister_safe os n (record r { fds = remove (fd n) r.fds })
      else (ok tt, r)

  unfoldable pub after_callback : Result (Unit {0}) × Reactor W → Result (Unit {0}) × Reactor W
  unfolding drop_handle
  after_callback (ok _, r) = (ok tt, r)
  after_callback (raised e, r) =
      (if is_fatal e then raised e else ok tt, (drop_handle r.current_handle r).1)

  -- The callback of a descriptor with an event.
  unfoldable pub fd_callback : ℕ → Context → Method W (Unit {0})
  unfolding after_callback
  fd_callback n context r = after_callback (
      call context.callback
        (record r { current_handle = some (fd n); current_context = some context }))

  unfoldable pub on_event : Intent → ℕ → Option Context → Method W (Unit {0})
  unfolding fd_callback has_intent in_turn
  on_event intent n none r = (ok tt, record r { removed = n ∷ r.removed })
  on_event intent n (some context) r =
      if has_intent intent context.kind && in_turn context.prio r.prio
      then fd_callback n context r
      else (ok tt, r)

  -- `_callbacks`
  unfoldable pub callbacks : Intent → List ℕ → Method W (Unit {0})
  unfolding on_event
  callbacks intent [] r = (ok tt, r)
  callbacks intent (n ∷ ns) r =
      if mem n r.removed
      then callbacks intent ns r
      else (on_event intent n (get (fd n) r.fds) >> callbacks intent ns) r

  unfoldable pub after_process :
      Handle → Result (Unit {0}) × Reactor W → Result (Unit {0}) × Reactor W
  unfolding remove_process
  after_process h (ok _, r) = (ok tt, r)
  after_process h (raised e, r) = (raised e, (remove_process os h r).1)

  unfoldable pub process_callback : Handle → Context → Method W (Unit {0})
  unfolding after_process in_turn
  process_callback h context r =
      let s : Reactor W = record r { current_handle = some h } in
      if contains h r.running && in_turn context.prio r.prio
      then after_process h (call context.callback (record s { current_context = some context }))
      else (ok tt, s)

  -- `_processCallbacks`, over a copy of the items.
  unfoldable pub process_callbacks : List (Handle × Context) → Method W (Unit {0})
  unfolding process_callback
  process_callbacks [] r = (ok tt, r)
  process_callbacks ((h, c) ∷ ps) r = (process_callback h c >> process_callbacks ps) r

  -- How long `poll` may wait.
  unfoldable pub poll_timeout : List (Handle × Context) → List Timer → ℕ → Timeout
  poll_timeout (p ∷ ps) ts now = at_most 0
  poll_timeout [] [] now = forever
  poll_timeout [] (t ∷ ts) now =
      at_most (if ltb (t.time - now) max_timeout then t.time - now else max_timeout)

  unfoldable pub due_timers : Method W (Unit {0})
  unfolding timer_callbacks
  due_timers r = timer_callbacks (time r.world) r.timers r

  unfoldable pub all_processes : Method W (Unit {0})
  unfolding process_callbacks
  all_processes r = process_callbacks r.running r

  -- The callbacks of one step, in their order.
  unfoldable pub run_callbacks : List ℕ → Method W (Unit {0})
  unfolding due_timers callbacks all_processes
  run_callbacks ns = do
    due_timers
    callbacks read_intent ns
    callbacks write_intent ns
    all_processes

  -- `shutdown`: every context goes, and what is closed goes with it.
  unfoldable pub shutdown : Reactor W → Reactor W
  shutdown r = record r { fds = []; suspended = []; running = []; bad_fds = [] }

  unfoldable pub on_poll : Poll × W → Method W (Unit {0})
  unfolding run_callbacks shutdown
  on_poll (events ns, w) r = run_callbacks ns (record r { world = w; removed = r.ctrl_read ∷ [] })
  on_poll (poll_error e, w) r =
      (if e == eintr then ok tt else raised (io_error e), record r { world = w })
  on_poll (interrupt, w) r = (raised keyboard_interrupt, shutdown (record r { world = w }))

  unfoldable pub poll_step : Method W (Unit {0})
  unfolding on_poll poll_timeout
  poll_step r = on_poll (poll r.world (poll_timeout r.running r.timers (time r.world))) r

  unfoldable pub step : ℕ → Method W (Unit {0})
  unfolding poll_step last_callbacks next_prio
  step fuel r =
      if is_empty r.bad_fds
      then poll_step (record r { prio = some (next_prio r.prio) })
      else last_callbacks fuel r

  unfoldable pub go_on :
      Method W (Unit {0}) → Result (Unit {0}) × Reactor W → Result (Unit {0}) × Reactor W
  unfolding shutdown
  go_on next (ok _, r) = next r
  go_on next (raised e, r) = (raised e, shutdown r)

  -- `loop`, for a number of steps: until `request_shutdown`, or an exception; then `shutdown`.
  unfoldable pub loop : ℕ → ℕ → Method W (Unit {0})
  unfolding step go_on shutdown
  loop zero fuel r = (ok tt, r)
  loop (suc steps) fuel r =
      let next = go_on (loop steps fuel) (step fuel r) in
      if r.looping then next else (ok tt, shutdown r)
