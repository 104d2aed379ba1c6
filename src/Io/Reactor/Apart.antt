-- ===== src/Io/Reactor/Apart.antt =====
-- weightless/io/_reactor.py: no handle is at once registered, or running, and suspended, whatever
-- methods are called in whatever order, also when they raise, if `resumeProcess` is called only with
-- the handles of processes.
use weightless_core.Base.{
  ℕ, ◌≡◌, refl, Bool, true, false, not, ◌||◌, ◌&&◌, Option, none, some, List, [], ◌∷◌, arith,
  Bool-cases, Option-cases, inl, inr, if◌then◌else◌, ltb, ◌==◌, All,
}
use weightless_core.Base.Dict.{get, put, remove, get-put, get-remove}
use weightless_core.Io.Reactor.State.{
  File, Intent, read_intent, write_intent, Registered, registered, register_error,
  register_type_error, Os, Handle, handle_eq, fd, process, Kind, fd_context, process_context,
  Context, ebadf, enoent, max_prio, Reactor, Result, ok, raised, Method, ◌>>=◌, ◌>>◌, and_then,
}
use weightless_core.Io.Reactor.Methods.{
  Normalized, good, bad, failed, contains, is_about, without_file, new_context, fd_normalize,
  unregistered, epoll_unregister, epoll_unregister_safe, unregister_about, clean_fds_by_file_obj,
  clean_suspended_by_file_obj, handle_bad_fd, on_registered, add_normalized, add_fd, add_reader,
  add_writer, add_process, add_new_process, add_timer, remove_normalized, remove_fd, remove_process,
  remove_timer, cleanup_normalized, cleanup, to_suspended, suspend_process, suspend_handle, suspend,
  resume_kind, resume_context, to_running, pop_suspended, resume_reader, resume_writer,
  resume_process, request_shutdown, Call, adds_reader, adds_writer, adds_process, adds_timer,
  removes_file, removes_process, removes_timer, cleans_up, suspends, resumes_reader, resumes_writer,
  resumes_process, requests_shutdown, perform, perform_all,
}

abbrev pub is_fd : Handle → Bool
is_fd (fd n) = true
is_fd (process p) = false

-- Where one handle stands: in `_fds` only a descriptor, in `_running` only a process, and in
-- `_suspended` nothing that stands in the others.
abbrev pub apart : Bool → Bool → Bool → Bool → Bool
apart of_fd in_fds in_running in_suspended =
    (if of_fd then not in_running else not in_fds)
    && (if in_suspended then not in_fds && not in_running else true)

abbrev pub At : {W : Type 0} → Handle → Reactor W → Type 0
At h r = apart (is_fd h) (contains h r.fds) (contains h r.running) (contains h r.suspended) ≡ true

abbrev pub IsApart : {W : Type 0} → Reactor W → Type 0
IsApart r = (h : Handle) → At h r

contains-put :
    (k h : Handle) (c : Context) (d : List (Handle × Context))
    → contains h (put k c d) ≡ (handle_eq.same k h || contains h d)
contains-put k h c d = ground (arith, get-put k h c d)

pub contains-remove :
    (k h : Handle) (d : List (Handle × Context))
    → contains h (remove k d) ≡ (not (handle_eq.same k h) && contains h d)
contains-remove k h d = ground (arith, get-remove k h d)

contains-without_file :
    (file : File) (h : Handle) (d : List (Handle × Context))
    → contains h (without_file file d) ≡ true
    → contains h d ≡ true
unfolding without_file
contains-without_file file h [] e = cc
contains-without_file file h ((k, c) ∷ d) e = ground (arith, contains-without_file file h d)

-- `resumeProcess` is called with the handle of a process: it would keep that of a descriptor among the
-- running processes.
abbrev pub IsForProcess : Call → Type 0
IsForProcess (resumes_process (fd n)) = ⊥
IsForProcess c = Unit

-- A method keeps the handles apart, whether it returns or raises.
abbrev pub Keeps : {W A : Type 0} → Method W A → Type 0
Keeps {W} m = (r : Reactor W) → IsApart r → IsApart (m r).1

module _ {W A B : Type 0} where
  pub and_then-Keeps :
      (x : Result A × Reactor W) (f : A → Method W B)
      → ((a : A) → Keeps (f a))
      → IsApart x.1
      → IsApart (and_then x.0 f x.1).1
  and_then-Keeps (ok a, r) f h v = h a r v
  and_then-Keeps (raised e, r) f h v = v

  pub bind-Keeps :
      (m : Method W A) (f : A → Method W B) → Keeps m → ((a : A) → Keeps (f a)) → Keeps (m >>= f)
  bind-Keeps m f hm hf r v = and_then-Keeps (m r) f hf (hm r v)

module _ (os : Os) where
  open os use {W, fileno, register, unregister}

  handle_bad_fd-Keeps : (file : File) (c : Context) → Keeps (handle_bad_fd os file c)
  unfolding handle_bad_fd
  handle_bad_fd-Keeps file c r v = λ h. ground (arith, v h)

  on_registered-Keeps :
      (n : ℕ) (file : File) (c : Context) (x : Registered × W) (r : Reactor W)
      → contains (fd n) r.suspended ≡ false
      → IsApart r
      → IsApart (on_registered os n file c x r).1
  unfolding on_registered handle_bad_fd
  on_registered-Keeps n file c (registered, w) r free v =
      λ h. ground (arith, v h, contains-put (fd n) h c r.fds, handle_eq.same_iff (fd n) h)
  on_registered-Keeps n file c (register_error e, w) r free v = λ h. ground (arith, v h)
  on_registered-Keeps n file c (register_type_error, w) r free v = λ h. v h

  add_fd-Keeps : (file : File) (intent : Intent) (c : Context) → Keeps (add_fd os file intent c)
  unfolding add_fd add_normalized
  add_fd-Keeps file intent c r v = go (fd_normalize os file r.world)
    where
      go : (x : Normalized) → IsApart (add_normalized os x file intent c r).1
      go bad = handle_bad_fd-Keeps file c r v
      go (failed e) = v
      go (good n) = elim (Bool-cases (contains (fd n) r.fds)) [
        | inl e ↦ rw e v
        | inr e ↦ rw e (elim (Bool-cases (contains (fd n) r.suspended)) [
          | inl e' ↦ rw e' v
          | inr e' ↦ rw e' (on_registered-Keeps n file c (register r.world n intent) r e' v)
        ])
      ]

  new_context-Keeps :
      (callback : ℕ) (prio : Option ℕ) (kind : Kind)
      → Keeps (new_context {W = W} callback prio kind)
  unfolding new_context
  new_context-Keeps callback none kind r v = v
  new_context-Keeps callback (some prio) kind r v = λ h. ground (arith, v h)

  put_running-IsApart :
      (p : ℕ) (c : Context) (r : Reactor W)
      → contains (process p) r.suspended ≡ false
      → IsApart r
      → IsApart (record r { running = put (process p) c r.running })
  put_running-IsApart p c r free v = λ h.
      ground (arith, v h, contains-put (process p) h c r.running, handle_eq.same_iff (process p) h)

  add_new_process-IsApart :
      (p : ℕ) (prio : Option ℕ) (r : Reactor W)
      → contains (process p) r.suspended ≡ false
      → IsApart r
      → IsApart (add_new_process os p prio r).1
  unfolding add_new_process new_context
  add_new_process-IsApart p none r free v = put_running-IsApart p _ r free v
  add_new_process-IsApart p (some n) r free v = elim (Bool-cases (ltb n max_prio)) [
    | inl e ↦ rw e (put_running-IsApart p _ r free v)
    | inr e ↦ rw e v
  ]

  add_process-Keeps : (p : ℕ) (prio : Option ℕ) → Keeps (add_process os p prio)
  unfolding add_process
  add_process-Keeps p prio r v = elim (Bool-cases (contains (process p) r.suspended)) [
    | inl e ↦ rw e v
    | inr e ↦ rw e (elim (Bool-cases (contains (process p) r.running)) [
      | inl e' ↦ rw e' v
      | inr e' ↦ rw e' (add_new_process-IsApart p prio r e v)
    ])
  ]

  unregistered-Keeps : (n : ℕ) (x : Option ℕ × W) → Keeps (unregistered os n x)
  unfolding unregistered
  unregistered-Keeps n (none, w) r v = λ h. v h
  unregistered-Keeps n (some e, w) r v = λ h. v h

  unregister_about-Keeps :
      (file : File) (d : List (Handle × Context)) → Keeps (unregister_about os file d)
  unfolding unregister_about epoll_unregister_safe
  unregister_about-Keeps file [] r v = v
  unregister_about-Keeps file ((fd n, c) ∷ d) r v = elim (Bool-cases (is_about file c)) [
    | inl e ↦ rw e (unregister_about-Keeps file d _ (λ h. v h))
    | inr e ↦ rw e (unregister_about-Keeps file d r v)
  ]
  unregister_about-Keeps file ((process p, c) ∷ d) r v = unregister_about-Keeps file d r v

  clean_fds_by_file_obj-Keeps : (file : File) → Keeps (clean_fds_by_file_obj os file)
  unfolding clean_fds_by_file_obj
  clean_fds_by_file_obj-Keeps file r v =
      unregister_about-Keeps file r.fds _
        (λ h. ground (arith, v h, contains-without_file file h r.fds))

  clean_suspended_by_file_obj-Keeps : (file : File) → Keeps (clean_suspended_by_file_obj os file)
  unfolding clean_suspended_by_file_obj
  clean_suspended_by_file_obj-Keeps file r v =
      λ h. ground (arith, v h, contains-without_file file h r.suspended)

  remove_fd-Keeps : (file : File) → Keeps (remove_fd os file)
  unfolding remove_fd remove_normalized
  remove_fd-Keeps file r v = go (fd_normalize os file r.world)
    where
      go : (x : Normalized) → IsApart (remove_normalized os x file r).1
      go bad = clean_fds_by_file_obj-Keeps file r v
      go (failed e) = v
      go (good n) = elim (Bool-cases (contains (fd n) r.fds)) [
        | inl e ↦ rw e (
            unregistered-Keeps n (unregister r.world n) _
              (λ h. ground (arith, v h, contains-remove (fd n) h r.fds)))
        | inr e ↦ rw e v
      ]

  pub remove_process-Keeps : (h : Handle) → Keeps (remove_process os h)
  unfolding remove_process
  remove_process-Keeps k r v = λ h. ground (arith, v h, contains-remove k h r.running)

  pub remove_timer-Keeps : (token : ℕ) → Keeps (remove_timer os token)
  unfolding remove_timer
  remove_timer-Keeps token r v = λ h. ground (arith, v h)

  cleanup-Keeps : (file : File) → Keeps (cleanup os file)
  unfolding cleanup cleanup_normalized epoll_unregister_safe
  cleanup-Keeps file r v = go (fd_normalize os file r.world)
    where
      go : (x : Normalized) → IsApart (cleanup_normalized os x file r).1
      go bad =
          bind-Keeps (clean_fds_by_file_obj os file) (λ _. clean_suspended_by_file_obj os file)
            (clean_fds_by_file_obj-Keeps file) (λ _. clean_suspended_by_file_obj-Keeps file) r v
      go (failed e) = v
      go (good n) = λ h.
          ground (arith, v h, contains-remove (fd n) h r.fds, contains-remove (fd n) h r.suspended)

  to_suspended-IsApart :
      (k : Handle) (c : Option Context) (r : Reactor W)
      → contains k r.fds ≡ false
      → contains k r.running ≡ false
      → IsApart r
      → IsApart (to_suspended os k c r).1
  unfolding to_suspended
  to_suspended-IsApart k none r f p v = v
  to_suspended-IsApart k (some c) r f p v =
      λ h. ground (arith, v h, contains-put k h c r.suspended, handle_eq.same_iff k h)

  -- The descriptor leaves `_fds`, and epoll; then its context is suspended.
  unregistered-to_suspended :
      (n : ℕ) (x : Option ℕ × W) (c : Option Context) (r : Reactor W)
      → contains (fd n) r.fds ≡ false
      → contains (fd n) r.running ≡ false
      → IsApart r
      → IsApart ((unregistered os n x >> to_suspended os (fd n) c) r).1
  unfolding unregistered
  unregistered-to_suspended n (none, w) c r f p v = to_suspended-IsApart (fd n) c _ f p (λ h. v h)
  unregistered-to_suspended n (some e, w) c r f p v =
      elim (Bool-cases (e == enoent || e == ebadf)) [
        | inl t ↦ rw t (to_suspended-IsApart (fd n) c _ f p (λ h. v h))
        | inr t ↦ rw t (λ h. v h)
      ]

  suspend_process-IsApart :
      (k : Handle) (r : Reactor W)
      → contains k r.fds ≡ false
      → IsApart r
      → IsApart (suspend_process os k r).1
  unfolding suspend_process remove_process
  suspend_process-IsApart k r f v = elim (Bool-cases (contains k r.running)) [
    | inl e ↦ rw e (
        to_suspended-IsApart k r.current_context _ f
          (ground (arith, contains-remove k k r.running, handle_eq.same_iff k k))
          (λ h. ground (arith, v h, contains-remove k h r.running)))
    | inr e ↦ rw e v
  ]

  suspend_handle-Keeps : (k : Handle) → Keeps (suspend_handle os k)
  unfolding suspend_handle remove_fd remove_normalized fd_normalize epoll_unregister
  suspend_handle-Keeps (fd n) r v = elim (Bool-cases (contains (fd n) r.fds)) [
    | inl e ↦ rw e (
        unregistered-to_suspended n (unregister r.world n) r.current_context _
          (ground (arith, contains-remove (fd n) (fd n) r.fds, handle_eq.same_iff (fd n) (fd n)))
          (ground (arith, v (fd n))) (λ h. ground (arith, v h, contains-remove (fd n) h r.fds)))
    | inr e ↦ rw e (suspend_process-IsApart (fd n) r e v)
  ]
  suspend_handle-Keeps (process p) r v =
      suspend_process-IsApart (process p) r (ground (arith, v (process p))) v

  suspend-Keeps : Keeps (suspend os)
  unfolding suspend
  suspend-Keeps r v = elim (Option-cases r.current_handle) [
    | inl e ↦ rw (e, suspend) v
    | inr (k, e) ↦ rw (e, suspend) (suspend_handle-Keeps k r v)
  ]

  pop_suspended-IsApart :
      (k : Handle) (next : Context → Method W (Unit {0})) (r : Reactor W)
      → ((c : Context)
          → contains k r.suspended ≡ true
          → IsApart (next c (record r { suspended = remove k r.suspended })).1)
      → IsApart r
      → IsApart (pop_suspended os k next r).1
  unfolding pop_suspended
  pop_suspended-IsApart k next r f v = elim (Option-cases (get k r.suspended)) [
    | inl e ↦ rw (e, pop_suspended) v
    | inr (c, e) ↦ rw (e, pop_suspended) (f c (rw e refl))
  ]

  resume_kind-Keeps : (intent : Intent) (c : Context) (k : Kind) → Keeps (resume_kind os intent c k)
  unfolding resume_kind
  resume_kind-Keeps intent c (fd_context file own) r v = add_fd-Keeps file intent c r v
  resume_kind-Keeps intent c process_context r v = v

  resume_fd-Keeps :
      (intent : Intent) (k : Handle) → Keeps (pop_suspended os k (resume_context os intent))
  unfolding resume_context
  resume_fd-Keeps intent k r v =
      pop_suspended-IsApart k (resume_context os intent) r
        (λ c e.
          resume_kind-Keeps intent c c.kind _
            (λ h. ground (arith, v h, contains-remove k h r.suspended)))
        v

  resume_process-Keeps : (p : ℕ) → Keeps (resume_process os (process p))
  unfolding resume_process to_running
  resume_process-Keeps p r v =
      pop_suspended-IsApart (process p) (to_running os (process p)) r
        (λ c e.
          put_running-IsApart p c (record r { suspended = remove (process p) r.suspended })
            (ground (
              arith,
              contains-remove (process p) (process p) r.suspended,
              handle_eq.same_iff (process p) (process p),
            ))
            (λ h. ground (arith, v h, contains-remove (process p) h r.suspended)))
        v

  perform-IsApart :
      (c : Call) (r : Reactor W) → IsForProcess c → IsApart r → IsApart (perform os c r)
  unfolding perform add_reader add_writer add_timer request_shutdown resume_reader resume_writer
  perform-IsApart (adds_reader file sink prio) r i v =
      bind-Keeps (new_context {W = W} sink prio (fd_context file read_intent))
        (add_fd os file read_intent) (new_context-Keeps sink prio _) (add_fd-Keeps file read_intent)
        r v
  perform-IsApart (adds_writer file source prio) r i v =
      bind-Keeps (new_context {W = W} source prio (fd_context file write_intent))
        (add_fd os file write_intent) (new_context-Keeps source prio _)
        (add_fd-Keeps file write_intent) r v
  perform-IsApart (adds_process p prio) r i v = add_process-Keeps p prio r v
  perform-IsApart (adds_timer seconds callback) r i v = λ h. v h
  perform-IsApart (removes_file file) r i v = remove_fd-Keeps file r v
  perform-IsApart (removes_process h) r i v = remove_process-Keeps h r v
  perform-IsApart (removes_timer token) r i v = remove_timer-Keeps token r v
  perform-IsApart (cleans_up file) r i v = cleanup-Keeps file r v
  perform-IsApart suspends r i v = suspend-Keeps r v
  perform-IsApart (resumes_reader h) r i v = resume_fd-Keeps read_intent h r v
  perform-IsApart (resumes_writer h) r i v = resume_fd-Keeps write_intent h r v
  perform-IsApart (resumes_process (process p)) r i v = resume_process-Keeps p r v
  perform-IsApart (resumes_process (fd n)) r i v = absurd i
  perform-IsApart requests_shutdown r i v = λ h. v h

  -- Whatever methods are called one after the other, with whatever arguments and whether they return
  -- or raise, but `resumeProcess` only with handles of processes: what is suspended is neither
  -- registered nor running, `_fds` holds only descriptors and `_running` only processes.
  pub perform_all-IsApart :
      (calls : List Call) (r : Reactor W)
      → All IsForProcess calls
      → IsApart r
      → IsApart (perform_all os calls r)
  unfolding perform_all
  perform_all-IsApart [] r i v = v
  perform_all-IsApart (c ∷ cs) r i v =
      perform_all-IsApart cs (perform os c r) i.1 (perform-IsApart c r i.0 v)
