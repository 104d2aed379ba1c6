-- ===== src/Http/Driver/Counts.antt =====
-- weightless/http/_httprequest1_1.py: how often the passes of `_do` make a call of some kind.
use weightless_core.Base.{
  ℕ, suc, ◌≡◌, ◌≤◌, refl, ap, Bool, true, false, ◌||◌, not, none, some, List, [], ◌∷◌,
  if◌then◌else◌,
}
use weightless_core.Http.Regexp.{Bytes}
use weightless_core.Http.Driver.{
  Env, Error, Call, new_socket, closes, shuts, logs, yields, add_process, remove_process,
  gets_pooled, puts, Driver, M, pure, ◌>>=◌, ◌>>◌, handling, asks, finally, perform, set_closer,
  set_got_data, Log, is_fatal, is_expected,
}
use weightless_core.Http.Driver.Connection.{
  connect_socket, create_socket, take_socket, shut_and_close_once,
}
use weightless_core.Http.Driver.Run.{
  Arguments, send_and_read, retry_or_raise, pass_failed, new_or_pooled, one_pass, get_pooled,
  close_or_pool, close_and_raise, started,
}
use weightless_core.Http.Driver.Keeps.{
  Keeps, Keeps-if, Triple, Always, >>=-Triple, >>=-Keeps, handling-Keeps, asks-Keeps, finally-Keeps,
  then-Keeps, perform-state,
}
use weightless_core.Http.Driver.Parts.{
  logged, Talks, Connects, perform-Keeps, shut_and_close_once-Keeps,
}
use weightless_core.Http.Driver.Connecting.{connect_socket-Keeps}
use weightless_core.Http.Driver.Talking.{send_and_read-Keeps}

-- The number of calls of a kind.
unfoldable pub count : (Call → Bool) → Log → ℕ
count p [] = 0
count p (c ∷ log) = let n = count p log in if p c then suc n else n

abbrev pub Counts : (Call → Bool) → ℕ → Driver → Type 0
Counts p n w = count p w.log ≡ n

-- The calls about the pool.
abbrev pub Pools : Call → Type 0
Pools yields = Unit
Pools add_process = Unit
Pools remove_process = Unit
Pools gets_pooled = Unit
Pools (puts s) = Unit
Pools c = ⊥

pub count-started : (p : Call → Bool) (hs : List (Bytes × Bytes)) → count p (started hs).log ≡ 0
unfolding count started
count-started p hs = refl

-- What does not change a number keeps its bounds.
pub Counts-le :
    {A : Type 0} (p : Call → Bool) (k : ℕ) (m : M A)
    → ((n : ℕ) → Keeps (Counts p n) m)
    → Keeps (λ w. count p w.log ≤ k) m
Counts-le p k m h w i = rw (h (count p w.log) w refl) i

module _ (env : Env) (p : Call → Bool) where
  logged_quiet :
      (n : ℕ) (c : Call) → p c ≡ false → (w : Driver) → Counts p n w → Counts p n (logged c w)
  unfolding count
  logged_quiet n c e w i = rw e i

  pub perform_quiet : (n : ℕ) (c : Call) → p c ≡ false → Keeps (Counts p n) (perform env c)
  perform_quiet n c e = perform-Keeps env (Counts p n) c (logged_quiet n c e)

  pub perform_counted :
      (n : ℕ) (c : Call) → p c ≡ true → Triple (Counts p n) (perform env c) (λ r. Counts p (suc n))
  unfolding count
  perform_counted n c e w i = rw (perform-state env c w) (rw e (ap suc i))

  module _ (talks : (s : ℕ) (c : Call) → Talks s c → p c ≡ false)
      (connects : (c : Call) → Connects c → p c ≡ false)
      (closing : (s : ℕ) → p (shuts s) ≡ false) where
    pub shut_and_close_once-Counts :
        (n : ℕ) (b : Bool) → Keeps (Counts p n) (shut_and_close_once env b)
    shut_and_close_once-Counts n =
        shut_and_close_once-Keeps env (Counts p n) (λ c w i. i)
          (λ s. logged_quiet n (shuts s) (closing s))
          (λ s. logged_quiet n (closes s) (connects (closes s) tt))

    module _ (args : Arguments) (quiet : p logs ≡ false) where
      pass_failed-Counts :
          (n : ℕ) (b : Bool) (e : Error) → Keeps (Counts p n) (pass_failed env args b e)
      unfolding pass_failed retry_or_raise
      pass_failed-Counts n b e =
          Keeps-if (Counts p n) (is_fatal e) _ _ (λ w i. i)
            (Keeps-if (Counts p n) (is_expected e) _ _
              (then-Keeps (Counts p n) _ _ (shut_and_close_once-Counts n true) (
                asks-Keeps (Counts p n) _ _ λ got.
                  Keeps-if (Counts p n) (not b || got) _ _ (λ w i. i)
                    (then-Keeps (Counts p n) _ _ (perform_quiet n logs quiet) (λ w i. i))))
              (λ w i. i))

      use_socket-Counts :
          (n s : ℕ) (b : Bool)
          → Keeps (Counts p n) (
              take_socket env s
              >> handling
                  (send_and_read env args s >>= λ q. pure (some (s, q.0, q.1)))
                  (pass_failed env args b))
      unfolding take_socket set_closer set_got_data
      use_socket-Counts n s b =
          then-Keeps (Counts p n) _ _ (then-Keeps (Counts p n) _ _ (λ w i. i) (λ w i. i)) (
            handling-Keeps (Counts p n) _ _
              (>>=-Keeps (Counts p n) _ _
                (send_and_read-Keeps env (Counts p n) s (λ c t. logged_quiet n c (talks s c t))
                  (λ got w i. i) (λ hs w i. i) args)
                (λ q w i. i))
              (pass_failed-Counts n b))

      pub pooled_pass-Counts : (n s : ℕ) → Keeps (Counts p n) (one_pass env args (some s))
      unfolding one_pass new_or_pooled
      pooled_pass-Counts n s = >>=-Keeps (Counts p n) _ _ (λ w i. i) λ t. use_socket-Counts n t true

      made-Counts :
          (n : ℕ)
          → Keeps (Counts p n) (asks (λ w. env.made w.log) >>= connect_socket env args.secure)
      made-Counts n = asks-Keeps (Counts p n) _ _ (
          connect_socket-Keeps env (Counts p n) (λ c t. logged_quiet n c (connects c t))
            args.secure)

      -- A pass on a new socket, if making the socket does not count.
      pub quiet_pass-Counts :
          (n : ℕ) → p new_socket ≡ false → Keeps (Counts p n) (one_pass env args none)
      unfolding one_pass new_or_pooled create_socket set_closer
      quiet_pass-Counts n e =
          >>=-Keeps (Counts p n) _ _
            (then-Keeps (Counts p n) _ _ (λ w i. i)
              (then-Keeps (Counts p n) _ _ (perform_quiet n new_socket e) (made-Counts n)))
            (λ s. use_socket-Counts n s false)

      -- And if it does.
      pub new_pass-Counts :
          (n : ℕ)
          → p new_socket ≡ true
          → Triple (Counts p n) (one_pass env args none) (λ r. Counts p (suc n))
      unfolding one_pass new_or_pooled create_socket set_closer
      new_pass-Counts n e =
          >>=-Triple (Counts p n) (λ r. Counts p (suc n)) (λ r. Counts p (suc n)) _ _
            (>>=-Triple (Counts p n) (Always (Counts p n)) (λ r. Counts p (suc n)) _ _ (λ w i. i)
              (λ u.
                >>=-Triple (Counts p n) (λ r. Counts p (suc n)) (λ r. Counts p (suc n)) _ _
                  (perform_counted n new_socket e) (λ v. made-Counts (suc n)) (λ f w i. i))
              (λ f w i. absurd i))
            (λ s. use_socket-Counts (suc n) s false) (λ f w i. i)

      module _ (pools : (c : Call) → Pools c → p c ≡ false) where
        with_process-Counts :
            {A : Type 0} (n : ℕ) (m : M A)
            → Keeps (Counts p n) m
            → Keeps (Counts p n) (perform env add_process >> finally m (perform env remove_process))
        with_process-Counts n m h =
            then-Keeps (Counts p n) _ _ (perform_quiet n add_process (pools add_process tt)) (
              finally-Keeps (Counts p n) _ _ h
                (perform_quiet n remove_process (pools remove_process tt)))

        pub get_pooled-Counts : (n : ℕ) → Keeps (Counts p n) (get_pooled env args)
        unfolding get_pooled asks
        get_pooled-Counts n = with_process-Counts n _ (
            then-Keeps (Counts p n) _ _
              (then-Keeps (Counts p n) _ _ (perform_quiet n yields (pools yields tt))
                (perform_quiet n gets_pooled (pools gets_pooled tt)))
              (λ w i. i))

        pub close_or_pool-Counts :
            (n s : ℕ) (b : Bool) → Keeps (Counts p n) (close_or_pool env args s b)
        unfolding close_or_pool
        close_or_pool-Counts n s b =
            Keeps-if (Counts p n) b _ _ (shut_and_close_once-Counts n false)
              (with_process-Counts n _ (perform_quiet n (puts s) (pools (puts s) tt)))

        pub close_and_raise-Counts :
            (n : ℕ) (e : Error) → Keeps (Counts p n) (close_and_raise env args e)
        unfolding close_and_raise
        close_and_raise-Counts n e =
            then-Keeps (Counts p n) _ _ (shut_and_close_once-Counts n true) (λ w i. i)
