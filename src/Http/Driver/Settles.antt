-- ===== src/Http/Driver/Settles.antt =====
-- weightless/http/_httprequest1_1.py: how often `_do` settles the object that its caller waits for.
use weightless_core.Base.{
  ℕ, zero, suc, ◌≡◌, refl, ap, subst, sym, Bool-cases, inl, inr, Bool, true, false, Option, none,
  some, List, ◌∷◌, if◌then◌else◌,
}
use weightless_core.Http.Regexp.{Bytes}
use weightless_core.Http.Driver.{
  Env, Error, timeout, Call, resumes, throws, yields, Driver, Result, ok, raised, pure, or_handle,
  handling, perform, Answer, is_fatal, is_exception, Log,
}
use weightless_core.Http.Driver.Run.{
  Arguments, passes, after_passes, close_and_raise, do_main, fail_with, do_failed, do_request,
  is_connect, started,
}
use weightless_core.Http.Driver.Keeps.{Keeps, Triple, >>=-Triple, handling-Triple, >>=-Keeps}
use weightless_core.Http.Driver.Parts.{Talks, Connects}
use weightless_core.Http.Driver.Counts.{
  count, Counts, count-started, Pools, perform_quiet, perform_counted, pooled_pass-Counts,
  quiet_pass-Counts, get_pooled-Counts, close_or_pool-Counts, shut_and_close_once-Counts,
}

-- `suspend.resume` and `suspend.throw`
abbrev pub settles : Call → Bool
settles (resumes answer) = true
settles (throws e) = true
settles c = false

Talks-settles : (s : ℕ) (c : Call) → Talks s c → settles c ≡ false
Talks-settles s (resumes answer) t = absurd t
Talks-settles s (throws e) t = absurd t
Talks-settles s c t = refl

Connects-settles : (c : Call) → Connects c → settles c ≡ false
Connects-settles (resumes answer) t = absurd t
Connects-settles (throws e) t = absurd t
Connects-settles c t = refl

Pools-settles : (c : Call) → Pools c → settles c ≡ false
Pools-settles (resumes answer) t = absurd t
Pools-settles (throws e) t = absurd t
Pools-settles c t = refl

-- How often an ending of the request settles: not at all if it is a time-out, an exception that goes
-- through to the reactor, or the end of the generator.
abbrev pub settled_by : Result (Unit {0}) → ℕ
settled_by (ok u) = 1
settled_by (raised timeout) = 0
settled_by (raised e) = if is_fatal e then 0 else if is_exception e then 1 else 0

abbrev SettlesMain : Result (Unit {0}) → Driver → Type 0
SettlesMain (ok u) = Counts settles 1
SettlesMain (raised e) = Counts settles 0

module _ (env : Env) (args : Arguments) where
  once_more :
      (n : ℕ)
      → Keeps (Counts settles 0) (passes env args n none)
      → (r : Option (ℕ × Answer × Bool))
      → Keeps (Counts settles 0) (elim r [ none ↦ passes env args n none | some a ↦ pure (some a) ])
  once_more n h none = h
  once_more n h (some a) = λ w i. i

  passes_new : (n : ℕ) → Keeps (Counts settles 0) (passes env args n none)
  unfolding passes
  passes_new zero = λ w i. i
  passes_new (suc n) =
      >>=-Keeps (Counts settles 0) _ _
        (quiet_pass-Counts env settles Talks-settles Connects-settles (λ t. refl) args refl 0 refl)
        (once_more n (passes_new n))

  passes-settles : (n : ℕ) (pooled : Option ℕ) → Keeps (Counts settles 0) (passes env args n pooled)
  unfolding passes
  passes-settles n none = passes_new n
  passes-settles zero (some s) = λ w i. i
  passes-settles (suc n) (some s) =
      >>=-Keeps (Counts settles 0) _ _
        (pooled_pass-Counts env settles Talks-settles Connects-settles (λ t. refl) args refl 0 s)
        (once_more n (passes_new n))

  fail_with-settles :
      (e : Error) (w : Driver)
      → Counts settles 0 w
      → Counts settles
          (if is_fatal e then 0 else if is_exception e then 1 else 0)
          (fail_with env args e w).1
  unfolding fail_with
  fail_with-settles e w i = elim (Bool-cases (is_fatal e)) [
    | inl f ↦ rw f i
    | inr f ↦ elim (Bool-cases (is_exception e)) [
      | inl x ↦ rw (f, x) (perform_counted env settles 0 (throws e) refl w i)
      | inr x ↦ rw (f, x) i
    ]
  ]

  module _
      (resuming : (answer : Answer) (log : Log) → env.raises (resumes answer ∷ log) ≡ none) where
    resumes-settles :
        (answer : Answer) → Triple (Counts settles 0) (perform env (resumes answer)) SettlesMain
    unfolding perform count
    resumes-settles answer w i = rw (resuming answer w.log) (ap suc i)

    after_passes-settles :
        (r : Option (ℕ × Answer × Bool))
        → Triple (Counts settles 0) (after_passes env args r) SettlesMain
    unfolding after_passes
    after_passes-settles none = λ w i. i
    after_passes-settles (some (s, answer, b)) =
        >>=-Triple (Counts settles 0) (λ r. Counts settles 0) SettlesMain _ _
          (close_or_pool-Counts env settles Talks-settles Connects-settles (λ t. refl) args refl
            Pools-settles 0 s b)
          (λ u. resumes-settles answer) (λ e w i. i)

    closed-settles :
        (e : Error) → Triple (Counts settles 0) (close_and_raise env args e) SettlesMain
    unfolding close_and_raise
    closed-settles e =
        >>=-Triple (Counts settles 0) (λ r. Counts settles 0) SettlesMain _ _
          (shut_and_close_once-Counts env settles Talks-settles Connects-settles (λ t. refl) 0 true)
          (λ u w i. i) (λ e' w i. i)

    do_main-settles : Triple (Counts settles 0) (do_main env args) SettlesMain
    unfolding do_main
    do_main-settles =
        >>=-Triple (Counts settles 0) (λ r. Counts settles 0) SettlesMain _ _
          (get_pooled-Counts env settles Talks-settles Connects-settles (λ t. refl) args refl
            Pools-settles 0)
          (λ pooled.
            handling-Triple (Counts settles 0) SettlesMain SettlesMain _ _
              (>>=-Triple (Counts settles 0) (λ r. Counts settles 0) SettlesMain _ _
                (passes-settles 2 pooled) after_passes-settles (λ e w i. i))
              (λ u w i. i) closed-settles)
          (λ e w i. i)

    failed-settles :
        (r : Result (Unit {0}) × Driver)
        → SettlesMain r.0 r.1
        → Counts settles (settled_by r.0) (or_handle (do_failed env args) r).1
    unfolding do_failed
    failed-settles (ok u, w) h = h
    failed-settles (raised timeout, w) h = h
    failed-settles (raised e, w) h = fail_with-settles e w h

    -- Where `suspend.resume` does not raise, whatever else the system and the pool do: a request with
    -- a method that is not CONNECT settles `suspend` once if it has an answer or ends with an
    -- exception that it passes on, and not at all if it is timed out, or if the exception is one that
    -- goes through to the reactor.
    pub do_request-settles :
        (hs : List (Bytes × Bytes))
        → is_connect args.method ≡ false
        → count settles (do_request env args (started hs)).1.log
          ≡ settled_by (do_main env args (started hs)).0
    unfolding do_request handling
    do_request-settles hs c =
        let n = settled_by (do_main env args (started hs)).0 in
        rw c (
          >>=-Triple (λ w. w ≡ started hs) (λ r. Counts settles n) (λ r. Counts settles n)
            (handling (do_main env args) (do_failed env args)) _
            (λ w e.
              subst (λ v. Counts settles n (handling (do_main env args) (do_failed env args) v).1)
                (sym e)
                (failed-settles (do_main env args (started hs))
                  (do_main-settles (started hs) (count-started settles hs))))
            (λ u. perform_quiet env settles n yields refl) (λ e w i. i) (started hs) refl)
