-- ===== src/Io/Tests.antt =====
-- Runs of weightless/io/_reactor.py and _suspend.py over a small operating system.
use weightless_core.Base.{All, ℕ, ◌≡◌, refl, true, false, none, some, List, [], ◌∷◌}
use weightless_core.Io.Reactor.State.{
  number, object, descriptor, registered, Os, events, fd, process, Reactor, ok, raised, failure,
  Method,
}
use weightless_core.Io.Reactor.Methods.{
  Call, adds_reader, adds_writer, adds_timer, suspends, resumes_process, perform_all, remove_timer,
}
use weightless_core.Io.Reactor.Apart.{IsApart, IsForProcess, perform_all-IsApart}
use weightless_core.Io.Suspend.{
  Action, Both, cancel_timer, get_result, happen_all, resume, throw, resumes, throws, times_out,
}
use weightless_core.Io.Suspend.Settled.{IsWaiting, resume-get_result, throw-get_result}
use weightless_core.Io.Reactor.Step.{step}
use weightless_core.Io.Reactor.Steps.{step-IsApart}

-- Each object has the descriptor 5, `poll` always reports it, and the clock stands at 100.
abbrev small_os : Os
small_os = record {
  W = Unit {0};
  fileno = λ w o. descriptor 5;
  register = λ w n intent. (registered, w);
  unregister = λ w n. (none, w);
  poll = λ w t. (events (5 ∷ []), w);
  time = λ w. 100;
}

abbrev fresh : Reactor (Unit {0})
fresh = record {
  world = tt;
  fds = [];
  bad_fds = [];
  suspended = [];
  running = [];
  timers = [];
  next_token = 0;
  prio = none;
  current_handle = none;
  current_context = none;
  removed = [];
  ctrl_read = 3;
  looping = true;
}

fresh-IsApart : IsApart fresh
fresh-IsApart = elim [ fd n ↦ refl | process p ↦ refl ]

abbrev some_calls : List Call
some_calls =
    adds_reader (object 1) 7 none
    ∷ adds_writer (number 6) 8 (some 2)
    ∷ adds_timer 50 9
    ∷ resumes_process (process 3)
    ∷ []

some_calls-All : All IsForProcess some_calls
some_calls-All = (tt, (tt, (tt, (tt, tt))))

perform_all-IsApart_example : IsApart (perform_all small_os some_calls fresh)
perform_all-IsApart_example =
    perform_all-IsApart small_os some_calls fresh some_calls-All fresh-IsApart

-- Each callback suspends the handle that it is called for.
abbrev suspending : ℕ → Method (Unit {0}) (Unit {0})
suspending callback r = (ok tt, perform_all small_os (suspends ∷ []) r)

abbrev suspending_acts :
    (callback : ℕ) (r : Reactor (Unit {0}))
    → (calls : List Call) × All IsForProcess calls
      × ((suspending callback r).1 ≡ perform_all small_os calls r)
suspending_acts callback r = (suspends ∷ [], (tt, tt), refl)

step-IsApart_example :
    IsApart (step small_os suspending 10 (perform_all small_os some_calls fresh)).1
step-IsApart_example =
    step-IsApart small_os suspending suspending_acts 10 (perform_all small_os some_calls fresh)
      (perform_all-IsApart small_os some_calls fresh some_calls-All fresh-IsApart)

abbrev nothing : Action (Unit {0}) ℕ (Unit {0})
nothing p = (ok tt, p)

-- It waits with the timer 0.
abbrev suspended : Both (Unit {0}) ℕ
suspended = (
  record {
    timeout = some 10;
    exception = none;
    settled = false;
    timer = some 0;
    response = none;
    handle = none;
    has_when_done = true;
  },
  record fresh { timers = record { token = 0; time = 120; callback = 0 } ∷ []; next_token = 1 },
)

suspended-IsWaiting : IsWaiting small_os nothing nothing nothing (λ p x h. h) (λ p x h. h) suspended
unfolding cancel_timer remove_timer
suspended-IsWaiting = (refl, refl, refl)

resume-get_result_example :
    get_result small_os nothing nothing nothing
      (happen_all small_os nothing nothing nothing
        (throws (failure 3) ∷ times_out ∷ [])
        (resume small_os nothing nothing nothing 8 suspended).1).0
    ≡ ok 8
resume-get_result_example =
    resume-get_result small_os nothing nothing nothing (λ p x h. h) (λ p x h. h) 8 suspended
      (throws (failure 3) ∷ times_out ∷ []) suspended-IsWaiting

throw-get_result_example :
    get_result small_os nothing nothing nothing
      (happen_all small_os nothing nothing nothing
        (resumes 8 ∷ [])
        (throw small_os nothing nothing nothing (failure 3) suspended).1).0
    ≡ raised (failure 3)
throw-get_result_example =
    throw-get_result small_os nothing nothing nothing (λ p x h. h) (λ p x h. h) (failure 3)
      suspended (resumes 8 ∷ []) suspended-IsWaiting
