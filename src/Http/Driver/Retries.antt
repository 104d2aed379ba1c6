-- ===== src/Http/Driver/Retries.antt =====
-- weightless/http/_httprequest1_1.py: when the loop of `_do` tries again.
use weightless_core.Base.{
  ℕ, suc, ◌≡◌, ◌≤◌, refl, Bool, true, false, Option, none, some, List, Bool-cases, inl, inr, arith,
}
use weightless_core.Http.Regexp.{Bytes}
use weightless_core.Http.Driver.{
  Env, Error, Call, new_socket, resumes, yields, throws, Driver, Result, ok, pure, raise, ◌>>◌,
  handling, perform, Answer, is_fatal, is_expected,
}
use weightless_core.Http.Driver.Run.{
  Arguments, retry_or_raise, pass_failed, one_pass, passes, close_or_pool, after_passes,
  close_and_raise, do_main, do_failed, do_request, is_connect, started,
}
use weightless_core.Http.Driver.Keeps.{Keeps, Triple, >>=-Triple, handling-Triple, then-Keeps}
use weightless_core.Http.Driver.Parts.{logged, do_failed-Keeps, perform-Keeps, Talks, Connects}
use weightless_core.Http.Driver.Counts.{
  count, Counts, Counts-le, Pools, get_pooled-Counts, close_or_pool-Counts, close_and_raise-Counts,
  perform_quiet, pooled_pass-Counts, new_pass-Counts,
}

-- A call that makes a socket.
abbrev pub is_new : Call → Bool
is_new new_socket = true
is_new c = false

Talks-is_new : (s : ℕ) (c : Call) → Talks s c → is_new c ≡ false
Talks-is_new s new_socket t = absurd t
Talks-is_new s c t = refl

Connects-is_new : (c : Call) → Connects c → is_new c ≡ false
Connects-is_new new_socket t = absurd t
Connects-is_new c t = refl

Pools-is_new : (c : Call) → Pools c → is_new c ≡ false
Pools-is_new new_socket t = absurd t
Pools-is_new c t = refl

abbrev pub Anything : Driver → Type 0
Anything w = Unit

-- Not `none`: the loop does not go round again.
abbrev pub Stops : Result (Option (ℕ × Answer × Bool)) → Driver → Type 0
Stops (ok none) w = ⊥
Stops r w = Unit

abbrev OnceMade : Result (Option (ℕ × Answer × Bool)) → Driver → Type 0
OnceMade r w = Counts is_new 1 w × Stops r w

abbrev AtMostOnce : Result (Option (ℕ × Answer × Bool)) → Driver → Type 0
AtMostOnce r w = (count is_new w.log ≤ 1) × Stops r w

module _ (env : Env) (args : Arguments) where
  raises-Stops : (e : Error) → Triple Anything (raise e) Stops
  raises-Stops e w i = tt

  pass_failed-Stops : (e : Error) → Triple Anything (pass_failed env args false e) Stops
  unfolding pass_failed retry_or_raise
  pass_failed-Stops e = elim (Bool-cases (is_fatal e)) [
    | inl f ↦ rw f (raises-Stops e)
    | inr f ↦ elim (Bool-cases (is_expected e)) [
      | inl g ↦
          rw (f, g)
            (>>=-Triple Anything (λ r w. Unit) Stops _ _ (λ w i. tt)
              (λ u.
                >>=-Triple Anything (λ r w. Unit) Stops _ _ (λ w i. tt) (λ b. raises-Stops e)
                  (λ e' w i. tt))
              (λ e' w i. tt))
      | inr g ↦ rw (f, g) (raises-Stops e)
    ]
  ]

  pub new_pass-Stops : Triple Anything (one_pass env args none) Stops
  unfolding one_pass
  new_pass-Stops =
      >>=-Triple Anything (λ r w. Unit) Stops _ _ (λ w i. tt)
        (λ s.
          >>=-Triple Anything (λ r w. Unit) Stops _ _ (λ w i. tt)
            (λ u.
              handling-Triple Anything Stops Stops _ _
                (>>=-Triple Anything (λ r w. Unit) Stops _ _ (λ w i. tt) (λ q w i. tt)
                  (λ e w i. tt))
                (λ a w i. i) (λ e w i. pass_failed-Stops e w tt))
            (λ e w i. tt))
        (λ e w i. tt)

  -- At most one pass on a new socket, and it is the last.
  passes_new :
      (n : ℕ)
      → Triple
          (Counts is_new 0)
          (passes env args (suc n) none)
          (λ r w. (count is_new w.log ≤ 1) × Stops r w)
  unfolding passes
  passes_new n =
      >>=-Triple (Counts is_new 0) OnceMade AtMostOnce _ _
        (λ w i. (
          new_pass-Counts env is_new Talks-is_new Connects-is_new (λ s. refl) args refl 0 refl w i,
          new_pass-Stops w tt,
        ))
        after_new (λ e w i. (omega (arith, i.0), tt))
    where
      after_new :
          (r : Option (ℕ × Answer × Bool))
          → Triple
              (OnceMade (ok r))
              (elim r [ none ↦ passes env args n none | some a ↦ pure (some a) ])
              AtMostOnce
      after_new none w i = absurd i.1
      after_new (some a) w i = (omega (arith, i.0), tt)

  -- Two passes are enough, and make at most one socket.
  passes-AtMostOnce :
      (pooled : Option ℕ) → Triple (Counts is_new 0) (passes env args 2 pooled) AtMostOnce
  unfolding passes
  passes-AtMostOnce none = passes_new 1
  passes-AtMostOnce (some s) =
      >>=-Triple (Counts is_new 0) (λ r. Counts is_new 0) AtMostOnce _ _
        (pooled_pass-Counts env is_new Talks-is_new Connects-is_new (λ t. refl) args refl 0 s)
        after_pooled (λ e w i. (omega (arith, i), tt))
    where
      after_pooled :
          (r : Option (ℕ × Answer × Bool))
          → Triple
              (Counts is_new 0)
              (elim r [ none ↦ passes env args 1 none | some a ↦ pure (some a) ])
              AtMostOnce
      after_pooled none = passes_new 0
      after_pooled (some a) = λ w i. (omega (arith, i), tt)

  abbrev AtMost : Driver → Type 0
  AtMost w = count is_new w.log ≤ 1

  after_passes-AtMost : (r : Option (ℕ × Answer × Bool)) → Keeps AtMost (after_passes env args r)
  unfolding after_passes
  after_passes-AtMost none = λ w i. i
  after_passes-AtMost (some (s, answer, b)) =
      then-Keeps AtMost _ _
        (Counts-le is_new 1 (close_or_pool env args s b) λ n.
          close_or_pool-Counts env is_new Talks-is_new Connects-is_new (λ t. refl) args refl
            Pools-is_new n s b)
        (Counts-le is_new 1 (perform env (resumes answer))
          λ n. perform_quiet env is_new n (resumes answer) refl)

  do_main-AtMost : Triple (Counts is_new 0) (do_main env args) (λ r. AtMost)
  unfolding do_main
  do_main-AtMost =
      >>=-Triple (Counts is_new 0) (λ r. Counts is_new 0) (λ r. AtMost) _ _
        (get_pooled-Counts env is_new Talks-is_new Connects-is_new (λ t. refl) args refl
          Pools-is_new 0)
        (λ pooled.
          handling-Triple (Counts is_new 0) (λ r. AtMost) (λ r. AtMost) _ _
            (>>=-Triple (Counts is_new 0) AtMostOnce (λ r. AtMost) _ _ (passes-AtMostOnce pooled)
              (λ r w i. after_passes-AtMost r w i.0) (λ e w i. i.0))
            (λ u w i. i)
            (λ e. Counts-le is_new 1 (close_and_raise env args e) λ n.
              close_and_raise-Counts env is_new Talks-is_new Connects-is_new (λ t. refl) args refl
                Pools-is_new n e))
        (λ e w i. omega (arith, i))

  logs_no_socket : (c : Call) → is_new c ≡ false → (w : Driver) → AtMost w → AtMost (logged c w)
  unfolding count
  logs_no_socket c e w i = rw e i

  requested-AtMost :
      Triple
        (Counts is_new 0)
        (handling (do_main env args) (do_failed env args) >> perform env yields)
        (λ r. AtMost)
  requested-AtMost =
      >>=-Triple (Counts is_new 0) (λ r. AtMost) (λ r. AtMost) _ _
        (handling-Triple (Counts is_new 0) (λ r. AtMost) (λ r. AtMost) _ _ do_main-AtMost
          (λ u w i. i) (do_failed-Keeps env AtMost args λ e. logs_no_socket (throws e) refl))
        (λ u. perform-Keeps env AtMost yields (logs_no_socket yields refl)) (λ e w i. i)

  -- Whatever the system and the pool do: a request makes one socket at most.
  pub do_request-is_new :
      (hs : List (Bytes × Bytes)) → count is_new (do_request env args (started hs)).1.log ≤ 1
  unfolding do_request started count
  do_request-is_new hs = elim (Bool-cases (is_connect args.method)) [
    | inl e ↦ rw e (omega arith)
    | inr e ↦ rw e (requested-AtMost (started hs) refl)
  ]
