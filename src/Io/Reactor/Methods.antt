-- ===== src/Io/Reactor/Methods.antt =====
-- weightless/io/_reactor.py: the methods that register, remove, suspend and resume. Not modelled is
-- `_wake_up`: it writes to the control pipe only while another thread waits in `poll`.
use weightless_core.Base.{
  ℕ, suc, ◌+◌, Bool, true, false, ◌||◌, Option, none, some, List, [], ◌∷◌, ◌++◌, ltb, leb, ◌==◌,
  if◌then◌else◌, is_some,
}
use weightless_core.Base.Dict.{get, put, remove}
use weightless_core.Io.Reactor.State.{
  File, number, object, descriptor, minus_one, fileno_error, Intent, read_intent, write_intent,
  registered, register_error, register_type_error, Os, Handle, handle_eq, Registered, fd, process,
  Kind, fd_context, process_context, Context, Timer, value_error, runtime_error, key_error,
  attribute_error, io_error, ebadf, enoent, max_prio, granularity, Reactor, ok, raised, Method,
  ◌>>=◌, ◌>>◌, pure, raise, modify,
}

-- What `_fdNormalize` gives, with `_HandleEBADFError` as a result of its own.
pub data Normalized : Type 0 where
  good : ℕ → Normalized
  bad : Normalized
  failed : ℕ → Normalized

-- `x in dict`
abbrev pub contains : Handle → List (Handle × Context) → Bool
contains h d = is_some (get h d)

-- `context.fileOrFd == obj`, for a context that has a `fileOrFd`.
unfoldable pub same_file : File → File → Bool
same_file (number a) (number b) = a == b
same_file (object a) (object b) = a == b
same_file _ _ = false

unfoldable pub is_about : File → Context → Bool
unfolding same_file
is_about file c = elim c.kind [ fd_context f intent ↦ same_file f file | process_context ↦ false ]

-- The dictionary without the contexts about an object.
unfoldable pub without_file : File → List (Handle × Context) → List (Handle × Context)
unfolding is_about
without_file file [] = []
without_file file ((h, c) ∷ d) =
    if is_about file c then without_file file d else (h, c) ∷ without_file file d

unfoldable pub any_about : File → List (Handle × Context) → Bool
unfolding is_about
any_about file [] = false
any_about file ((h, c) ∷ d) = is_about file c || any_about file d

-- `_FDContext(…)` and `_ProcessContext(…)`: the priority is checked.
unfoldable pub new_context : {W : Type 0} → ℕ → Option ℕ → Kind → Method W Context
new_context callback none kind = pure (record { callback = callback; prio = 0; kind = kind })
new_context callback (some prio) kind =
    if ltb prio max_prio
    then pure (record { callback = callback; prio = prio; kind = kind })
    else raise value_error

-- `timers.sort(key=_timeKey)`, stable.
unfoldable pub insert_timer : Timer → List Timer → List Timer
insert_timer t [] = t ∷ []
insert_timer t (u ∷ ts) = if leb t.time u.time then t ∷ u ∷ ts else u ∷ insert_timer t ts

unfoldable pub sort_timers : List Timer → List Timer
unfolding insert_timer
sort_timers [] = []
sort_timers (t ∷ ts) = insert_timer t (sort_timers ts)

-- `self._timers.remove(token)`: none if the timer is not there.
unfoldable pub remove_token : ℕ → List Timer → Option (List Timer)
remove_token token [] = none
remove_token token (t ∷ ts) =
    if t.token == token
    then some ts
    else elim (remove_token token ts) [ none ↦ none | some us ↦ some (t ∷ us) ]

module _ (os : Os) where
  open os use {W, fileno, register, unregister, time}

  unfoldable pub fd_normalize : File → W → Normalized
  fd_normalize (number n) w = good n
  fd_normalize (object o) w = elim (fileno w o) [
    | descriptor n ↦ good n
    | minus_one ↦ bad
    | fileno_error e ↦ if e == ebadf then bad else failed e
  ]

  -- `_epollUnregister`: errors that say that the descriptor is gone are passed over.
  unfoldable pub unregistered : ℕ → Option ℕ × W → Method W (Unit {0})
  unregistered n (none, w) r = (ok tt, record r { world = w; removed = n ∷ r.removed })
  unregistered n (some e, w) r = (
    if e == enoent || e == ebadf then ok tt else raised (io_error e),
    record r { world = w; removed = n ∷ r.removed },
  )

  unfoldable pub epoll_unregister : ℕ → Method W (Unit {0})
  unfolding unregistered
  epoll_unregister n r = unregistered n (unregister r.world n) r

  unfoldable pub epoll_unregister_safe : ℕ → Method W (Unit {0})
  epoll_unregister_safe n r =
      (ok tt, record r { world = (unregister r.world n).1; removed = n ∷ r.removed })

  -- `_cleanFdsByFileObj`: the entries about the object go, and each is unregistered.
  unfoldable pub unregister_about : File → List (Handle × Context) → Method W (Unit {0})
  unfolding epoll_unregister_safe is_about
  unregister_about file [] = pure tt
  unregister_about file ((fd n, c) ∷ d) =
      if is_about file c
      then (epoll_unregister_safe n >> unregister_about file d)
      else unregister_about file d
  unregister_about file ((process p, c) ∷ d) = unregister_about file d

  unfoldable pub clean_fds_by_file_obj : File → Method W (Unit {0})
  unfolding unregister_about without_file
  clean_fds_by_file_obj file r =
      unregister_about file r.fds (record r { fds = without_file file r.fds })

  unfoldable pub clean_suspended_by_file_obj : File → Method W (Unit {0})
  unfolding without_file
  clean_suspended_by_file_obj file r =
      (ok tt, record r { suspended = without_file file r.suspended })

  -- A bad file descriptor: its callback gets one last call in the next step.
  unfoldable pub handle_bad_fd : File → Context → Method W (Unit {0})
  unfolding any_about
  handle_bad_fd file context r =
      if any_about file r.suspended
      then (raised value_error, r)
      else (ok tt, record r { bad_fds = r.bad_fds ++ context ∷ [] })

  unfoldable pub on_registered : ℕ → File → Context → Registered × W → Method W (Unit {0})
  unfolding handle_bad_fd
  on_registered n file context (registered, w) r =
      (ok tt, record r { world = w; fds = put (fd n) context r.fds })
  on_registered n file context (register_error e, w) r =
      if e == ebadf
      then handle_bad_fd file context (record r { world = w })
      else (raised (io_error e), record r { world = w })
  on_registered n file context (register_type_error, w) r =
      (ok tt, record r { world = w; bad_fds = r.bad_fds ++ context ∷ [] })

  unfoldable pub add_normalized : Normalized → File → Intent → Context → Method W (Unit {0})
  unfolding on_registered handle_bad_fd
  add_normalized bad file intent context r = handle_bad_fd file context r
  add_normalized (failed e) file intent context r = (raised (io_error e), r)
  add_normalized (good n) file intent context r =
      if contains (fd n) r.fds || contains (fd n) r.suspended
      then (raised value_error, r)
      else on_registered n file context (register r.world n intent) r

  -- `_addFD`, once it has its context.
  unfoldable pub add_fd : File → Intent → Context → Method W (Unit {0})
  unfolding add_normalized fd_normalize
  add_fd file intent context r = add_normalized (fd_normalize file r.world) file intent context r

  unfoldable pub add_reader : File → ℕ → Option ℕ → Method W (Unit {0})
  unfolding new_context add_fd
  add_reader file sink prio = do
    context ← new_context sink prio (fd_context file read_intent)
    add_fd file read_intent context

  unfoldable pub add_writer : File → ℕ → Option ℕ → Method W (Unit {0})
  unfolding new_context add_fd
  add_writer file source prio = do
    context ← new_context source prio (fd_context file write_intent)
    add_fd file write_intent context

  unfoldable pub add_new_process : ℕ → Option ℕ → Method W (Unit {0})
  unfolding new_context
  add_new_process p prio = do
    context ← new_context p prio process_context
    modify (λ r. record r { running = put (process p) context r.running })

  unfoldable pub add_process : ℕ → Option ℕ → Method W (Unit {0})
  unfolding add_new_process
  add_process p prio r =
      if contains (process p) r.suspended || contains (process p) r.running
      then (raised value_error, r)
      else add_new_process p prio r

  -- `Timer(seconds, callback)`: a positive time is lengthened by the granularity.
  unfoldable pub due_time : ℕ → ℕ → ℕ
  due_time now seconds = now + (if ltb 0 seconds then seconds + granularity else seconds)

  unfoldable pub add_timer : ℕ → ℕ → Method W ℕ
  unfolding sort_timers due_time
  add_timer seconds callback r = (
    ok r.next_token,
    record r {
      next_token = suc r.next_token;
      timers = sort_timers (
          r.timers
          ++ record {
            token = r.next_token;
            time = due_time (time r.world) seconds;
            callback = callback;
          }
            ∷ []);
    },
  )

  unfoldable pub remove_normalized : Normalized → File → Method W (Unit {0})
  unfolding clean_fds_by_file_obj epoll_unregister
  remove_normalized bad file r = clean_fds_by_file_obj file r
  remove_normalized (failed e) file r = (raised (io_error e), r)
  remove_normalized (good n) file r =
      if contains (fd n) r.fds
      then epoll_unregister n (record r { fds = remove (fd n) r.fds })
      else (ok tt, r)

  -- `_removeFD`, `removeReader` and `removeWriter`.
  unfoldable pub remove_fd : File → Method W (Unit {0})
  unfolding remove_normalized fd_normalize
  remove_fd file r = remove_normalized (fd_normalize file r.world) file r

  -- `removeProcess(process)`: whether it was there.
  unfoldable pub remove_process : Handle → Method W Bool
  remove_process h r =
      if contains h r.running
      then (ok true, record r { running = remove h r.running })
      else (ok false, r)

  unfoldable pub remove_timer : ℕ → Method W (Unit {0})
  unfolding remove_token
  remove_timer token r = elim (remove_token token r.timers) [
    | none ↦ (raised value_error, r)
    | some ts ↦ (ok tt, record r { timers = ts })
  ]

  unfoldable pub cleanup_normalized : Normalized → File → Method W (Unit {0})
  unfolding clean_fds_by_file_obj clean_suspended_by_file_obj epoll_unregister_safe
  cleanup_normalized bad file = do clean_fds_by_file_obj file; clean_suspended_by_file_obj file
  cleanup_normalized (failed e) file = raise (io_error e)
  cleanup_normalized (good n) file = do
    modify (λ r. record r { fds = remove (fd n) r.fds; suspended = remove (fd n) r.suspended })
    epoll_unregister_safe n

  unfoldable pub cleanup : File → Method W (Unit {0})
  unfolding cleanup_normalized fd_normalize
  cleanup file r = cleanup_normalized (fd_normalize file r.world) file r

  -- The context that goes with the current handle takes it into `_suspended`.
  unfoldable pub to_suspended : Handle → Option Context → Method W Handle
  to_suspended h none r = (raised attribute_error, r)
  to_suspended h (some context) r = (ok h, record r { suspended = put h context r.suspended })

  -- `elif self.removeProcess(…)`
  unfoldable pub suspend_process : Handle → Method W Handle
  unfolding remove_process to_suspended
  suspend_process h r =
      (do
        found ← remove_process h
        if found then to_suspended h r.current_context else raise runtime_error)
        r

  unfoldable pub suspend_handle : Handle → Method W Handle
  unfolding remove_fd suspend_process to_suspended
  suspend_handle (fd n) r =
      if contains (fd n) r.fds
      then (remove_fd (number n) >> to_suspended (fd n) r.current_context) r
      else suspend_process (fd n) r
  suspend_handle (process p) r = suspend_process (process p) r

  -- `suspend`, called from a callback.
  unfoldable pub suspend : Method W Handle
  unfolding suspend_handle
  suspend r = elim r.current_handle [
    | none ↦ (raised runtime_error, r)
    | some h ↦ suspend_handle h r
  ]

  unfoldable pub resume_kind : Intent → Context → Kind → Method W (Unit {0})
  unfolding add_fd
  resume_kind intent context (fd_context file own) = add_fd file intent context
  resume_kind intent context process_context = raise attribute_error

  unfoldable pub resume_context : Intent → Context → Method W (Unit {0})
  unfolding resume_kind
  resume_context intent context = resume_kind intent context context.kind

  -- `_suspended.pop(handle)`, and what is done with the context.
  unfoldable pub pop_suspended : Handle → (Context → Method W (Unit {0})) → Method W (Unit {0})
  pop_suspended h next r = elim (get h r.suspended) [
    | none ↦ (raised key_error, r)
    | some context ↦ next context (record r { suspended = remove h r.suspended })
  ]

  unfoldable pub resume_reader : Handle → Method W (Unit {0})
  unfolding pop_suspended resume_context
  resume_reader h = pop_suspended h (resume_context read_intent)

  unfoldable pub resume_writer : Handle → Method W (Unit {0})
  unfolding pop_suspended resume_context
  resume_writer h = pop_suspended h (resume_context write_intent)

  unfoldable pub to_running : Handle → Context → Method W (Unit {0})
  to_running h context r = (ok tt, record r { running = put h context r.running })

  unfoldable pub resume_process : Handle → Method W (Unit {0})
  unfolding pop_suspended to_running
  resume_process h = pop_suspended h (to_running h)

  unfoldable pub request_shutdown : Method W (Unit {0})
  request_shutdown r = (ok tt, record r { looping = false })

-- A call of a public method, with its arguments: every method takes any handle, also one of the wrong
-- kind.
pub data Call : Type 0 where
  adds_reader adds_writer : File → ℕ → Option ℕ → Call
  adds_process : ℕ → Option ℕ → Call
  adds_timer : ℕ → ℕ → Call
  removes_file : File → Call
  removes_process : Handle → Call
  removes_timer : ℕ → Call
  cleans_up : File → Call
  suspends : Call
  resumes_reader resumes_writer resumes_process : Handle → Call
  requests_shutdown : Call

-- The reactor after a call, whether it returned or raised.
unfoldable pub perform : (os : Os) → Call → Reactor os.W → Reactor os.W
unfolding add_reader add_writer add_process add_timer remove_fd remove_process remove_timer cleanup
    suspend resume_reader resume_writer resume_process request_shutdown
perform os (adds_reader file sink prio) r = (add_reader os file sink prio r).1
perform os (adds_writer file source prio) r = (add_writer os file source prio r).1
perform os (adds_process p prio) r = (add_process os p prio r).1
perform os (adds_timer seconds callback) r = (add_timer os seconds callback r).1
perform os (removes_file file) r = (remove_fd os file r).1
perform os (removes_process h) r = (remove_process os h r).1
perform os (removes_timer token) r = (remove_timer os token r).1
perform os (cleans_up file) r = (cleanup os file r).1
perform os suspends r = (suspend os r).1
perform os (resumes_reader h) r = (resume_reader os h r).1
perform os (resumes_writer h) r = (resume_writer os h r).1
perform os (resumes_process h) r = (resume_process os h r).1
perform os requests_shutdown r = (request_shutdown os r).1

unfoldable pub perform_all : (os : Os) → List Call → Reactor os.W → Reactor os.W
unfolding perform
perform_all os [] r = r
perform_all os (c ∷ cs) r = perform_all os cs (perform os c r)
