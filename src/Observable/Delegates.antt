-- ===== src/Observable/Delegates.antt =====
-- weightless/core/_observable.py: a `Transparent` passes messages on as if its observers stood in its
-- place.
use weightless_core.Base.{
  ◌≡◌, ◌≢◌, refl, sym, Option, none, some, List, [], ◌∷◌, ◌++◌, ℕ, All, append_assoc,
}
use weightless_core.Observable.{
  decline_message, none_of_the_observers_respond, stop_iteration, generator_exit, assertion_error,
  program, Answer, returns, raises, Method, Kind, call_message, do_message, Component, found,
  find_methods, called, call_methods, done, do_methods, call, do_all, declining, call_unknown,
  do_unknown, unknown_methods, transparent,
}

module _ {S V X : Type 0} where
  find_methods-append :
      (kind : Kind) (message : ℕ) (os ps : List (Component S V X))
      → find_methods kind message (os ++ ps)
        ≡ find_methods kind message os ++ find_methods kind message ps
  unfolding find_methods
  find_methods-append kind message [] ps = refl
  find_methods-append kind message (o ∷ os) ps = rw (find_methods-append kind message os ps) (
      sym (
        append_assoc (found (o.attribute message) (o.unknown kind) message)
          (find_methods kind message os) (find_methods kind message ps)))

  -- A method that never says that no observer responds.
  abbrev pub Responds : Method S V X → Type 0
  Responds method = (s : S) → (method s).0 ≢ raises none_of_the_observers_respond

  called-append :
      (ms ns : List (Method S V X)) (x : Answer V X × S)
      → x.0 ≢ raises none_of_the_observers_respond
      → ((s : S)
          → call_methods (ms ++ ns) s ≡ called (call_methods ns) (declining (call_methods ms s)))
      → called (call_methods (ms ++ ns)) x
        ≡ called (call_methods ns) (declining (called (call_methods ms) x))
  unfolding called
  called-append ms ns (returns v, s) h k = refl
  called-append ms ns (raises decline_message, s) h k = k s
  called-append ms ns (raises none_of_the_observers_respond, s) h k = absurd (h refl)
  called-append ms ns (raises stop_iteration, s) h k = refl
  called-append ms ns (raises generator_exit, s) h k = refl
  called-append ms ns (raises assertion_error, s) h k = refl
  called-append ms ns (raises (program e), s) h k = refl

  call_methods-append :
      (ms ns : List (Method S V X)) (s : S)
      → All Responds ms
      → call_methods (ms ++ ns) s ≡ called (call_methods ns) (declining (call_methods ms s))
  unfolding call_methods called
  call_methods-append [] ns s h = refl
  call_methods-append (m ∷ ms) ns s h =
      called-append ms ns (m s) (h.0 s) (λ t. call_methods-append ms ns t h.1)

  -- If no method of its observers says itself that no observer responds, a `Transparent` gives to
  -- `call` what its observers give in its place, in front of the same other observers.
  pub call-transparent :
      (name : Option ℕ) (os ps : List (Component S V X)) (message : ℕ) (s : S)
      → All Responds (find_methods call_message message os)
      → call (transparent name os ∷ ps) message s ≡ call (os ++ ps) message s
  unfolding call transparent unknown_methods call_unknown find_methods found call_methods
  call-transparent name os ps message s h = rw (find_methods-append call_message message os ps) (
      sym (
        call_methods-append (find_methods call_message message os)
          (find_methods call_message message ps) s h))

  done-append :
      (ms ns : List (Method S V X)) (x : Answer V X × S)
      → ((s : S) → do_methods (ms ++ ns) s ≡ done (do_methods ns) (do_methods ms s))
      → done (do_methods (ms ++ ns)) x ≡ done (do_methods ns) (done (do_methods ms) x)
  unfolding done
  done-append ms ns (returns none, s) k = k s
  done-append ms ns (returns (some v), s) k = refl
  done-append ms ns (raises decline_message, s) k = k s
  done-append ms ns (raises none_of_the_observers_respond, s) k = refl
  done-append ms ns (raises stop_iteration, s) k = refl
  done-append ms ns (raises generator_exit, s) k = refl
  done-append ms ns (raises assertion_error, s) k = refl
  done-append ms ns (raises (program e), s) k = refl

  do_methods-append :
      (ms ns : List (Method S V X)) (s : S)
      → do_methods (ms ++ ns) s ≡ done (do_methods ns) (do_methods ms s)
  unfolding do_methods done
  do_methods-append [] ns s = refl
  do_methods-append (m ∷ ms) ns s = done-append ms ns (m s) (do_methods-append ms ns)

  -- A `Transparent` passes `do` on to its observers in its place, whatever they do.
  pub do_all-transparent :
      (name : Option ℕ) (os ps : List (Component S V X)) (message : ℕ) (s : S)
      → do_all (transparent name os ∷ ps) message s ≡ do_all (os ++ ps) message s
  unfolding do_all transparent unknown_methods do_unknown find_methods found do_methods
  do_all-transparent name os ps message s = rw (find_methods-append do_message message os ps) (
      sym (
        do_methods-append (find_methods do_message message os) (find_methods do_message message ps)
          s))
