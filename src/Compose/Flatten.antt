-- ===== src/Compose/Flatten.antt =====
-- weightless/core/_compose_py.py: the loop of `_compose` over a stack runs nested generators as
-- their meaning without a stack says (Compose.Reference).
use weightless_core.Base.{ℕ, suc, ◌≡◌, refl, false, Option, none, some, List, [], ◌∷◌, ◌++◌}
use weightless_core.Compose.Machine.{
  Machine, Pass, again, waits, at_response, sends, throws, Answer, paused, returns, raises, run,
  start, body, deliver, hand_in, on_outcome, answered, caught, finished, retval, resume, conclude,
  round, after, Returned, index_error, unexpected_data,
}
use weightless_core.Compose.Tree.{
  Exception, builtin, generator_exit, Tree, stop, fail, give, call, Frame, unstarted, waiting,
  observe, send, throw, close, closing, trees,
}
use weightless_core.Compose.Reference.{
  Outer, done, failed, out, OnMessages, OnException, gives, hands, throws_into, returns_to_caller,
  eval, first, meaning,
}

module _ (V X : Type 0) where
  abbrev pub State : Type 0
  State = Machine (trees V X)

  -- The loop comes to the answer `a`, with some fuel.
  abbrev pub Runs : State → Answer (trees V X) → Type 0
  Runs m a = (fuel : ℕ) × (run (trees V X) fuel false m ≡ some a)

  -- The machine behaves as `o` says: the loop ends, in the answer that `o` names, and after every
  -- signal of the caller the machine behaves as the rest of `o` says.
  pub data Implements : State → Outer V X → Type 0 where
    returning : {m : State} (v : Option V) → Runs m (returns v) → Implements m (done v)
    raising : {m : State} (e : Exception X) → Runs m (raises e) → Implements m (failed e)
    pausing :
        {m : State} (v : Option V) (k : Option V → Outer V X) (h : Exception X → Outer V X)
        (m' : State)
        → Runs m (paused (at_response v) m')
        → ((r : Option V) → Implements (resume (trees V X) (at_response v) m' (sends r)) (k r))
        → ((e : Exception X) → Implements (resume (trees V X) (at_response v) m' (throws e)) (h e))
        → Implements m (out v k h)

  -- A pass of the loop behaves as `o` says.
  data PassImplements : Pass (trees V X) → Outer V X → Type 0 where
    goes_on : {m : State} {o : Outer V X} → Implements m o → PassImplements (again m) o
    pauses :
        (v : Option V) (k : Option V → Outer V X) (h : Exception X → Outer V X) (m : State)
        → ((r : Option V) → Implements (resume (trees V X) (at_response v) m (sends r)) (k r))
        → ((e : Exception X) → Implements (resume (trees V X) (at_response v) m (throws e)) (h e))
        → PassImplements (waits (at_response v) m) (out v k h)

  abbrev machine : List (Frame V X) → List (Option V) → Option (Exception X) → State
  machine gs ms e = record { generators = gs; messages = ms; exception = e }

  module _ (g : Frame V X) (gs : List (Frame V X)) (ms : List (Option V))
      (e : Option (Exception X)) where
    Runs-again :
        {m : State} (a : Answer (trees V X))
        → body (trees V X) false g gs ms e ≡ again m
        → Runs m a
        → Runs (machine (g ∷ gs) ms e) a
    unfolding run round after
    Runs-again a eq (fuel, r) = (suc fuel, rw eq r)

    Implements-again :
        {m : State} (o : Outer V X)
        → body (trees V X) false g gs ms e ≡ again m
        → Implements m o
        → Implements (machine (g ∷ gs) ms e) o
    Implements-again o eq (returning v r) = returning v (Runs-again _ eq r)
    Implements-again o eq (raising x r) = raising x (Runs-again _ eq r)
    Implements-again o eq (pausing v k h m' r f t) = pausing v k h m' (Runs-again _ eq r) f t

    -- A pass that behaves as `o` says, seen from its start.
    Implements-body :
        (p : Pass (trees V X)) (o : Outer V X)
        → body (trees V X) false g gs ms e ≡ p
        → PassImplements p o
        → Implements (machine (g ∷ gs) ms e) o
    unfolding run round after
    Implements-body (again m) o eq (goes_on i) = Implements-again o eq i
    Implements-body (waits p m) o eq (pauses v k h _ f t) = pausing v k h m (1, rw eq) f t

  module _ (gs : List (Frame V X)) (bad : OnException V X) where
    -- What lies below the frame takes exceptions as `bad` says.
    abbrev TakesException : Type 0
    TakesException =
        (e : Exception X) (ms : List (Option V)) → Implements (machine gs ms (some e)) (bad e ms)

    module _ (below : TakesException) (k : Option V → Tree V X) (h : Exception X → Tree V X) where
      -- A suspended generator, if its continuations behave as `ek` and `eh` say.
      hand_in-Implements :
          (ek : Option V → OnMessages V X)
          → ((m : Option V) (ms : List (Option V))
              → PassImplements (on_outcome (trees V X) false gs ms (observe (k m))) (ek m ms))
          → (ms : List (Option V))
          → Implements (machine (waiting k h ∷ gs) ms none) (hands ek bad ms)
      unfolding body hand_in hands send
      hand_in-Implements ek fits [] =
          Implements-body (waiting k h) gs [] none _ _ refl
            (goes_on (below (builtin index_error) []))
      hand_in-Implements ek fits (m ∷ ms) =
          Implements-body (waiting k h) gs (m ∷ ms) none _ _ refl (fits m ms)

      deliver-Implements :
          (eh : OnException V X)
          → ((e : Exception X) (ms : List (Option V))
              → PassImplements (on_outcome (trees V X) false gs ms (observe (h e))) (eh e ms))
          → (e : Exception X) (ms : List (Option V))
          → Implements
              (machine (waiting k h ∷ gs) ms (some e))
              (throws_into (closing (h generator_exit)) eh bad e ms)
      unfolding body deliver throws_into throw close caught
      deliver-Implements eh fits generator_exit ms =
          Implements-body (waiting k h) gs ms (some generator_exit) _ _ refl (goes_on (below _ ms))
      deliver-Implements eh fits e ms =
          Implements-body (waiting k h) gs ms (some e) _ _ refl (fits e ms)

      module _ (ek : Option V → OnMessages V X) (eh : OnException V X)
          (fit : (m : Option V) (ms : List (Option V))
            → PassImplements (on_outcome (trees V X) false gs ms (observe (k m))) (ek m ms))
          (fit_throw : (e : Exception X) (ms : List (Option V))
            → PassImplements (on_outcome (trees V X) false gs ms (observe (h e))) (eh e ms)) where
        -- A generator that yields the value `v`.
        answered-Implements :
            (ms : List (Option V)) (v : Option V)
            → PassImplements
                (answered (trees V X) (waiting k h ∷ gs) ms v)
                (gives v ms ek (throws_into (closing (h generator_exit)) eh bad))
        unfolding answered gives resume hands
        answered-Implements [] none =
            pauses none _ _ _ (λ r. hand_in-Implements ek fit (r ∷ []))
              (λ e. deliver-Implements eh fit_throw e [])
        answered-Implements (m ∷ ms) none = goes_on (hand_in-Implements ek fit (m ∷ ms))
        answered-Implements ms (some v) =
            pauses (some v) _ _ _ reply (λ e. deliver-Implements eh fit_throw e ms)
          where
            m : State
            m = machine (waiting k h ∷ gs) ms none

            reply :
                (r : Option V)
                → Implements (resume (trees V X) (at_response (some v)) m (sends r)) (elim r [
                  | none ↦ ek none ms
                  | some _ ↦
                      throws_into (closing (h generator_exit)) eh bad (builtin unexpected_data) ms
                ])
            reply none = hand_in-Implements ek fit (none ∷ ms)
            reply (some r) = deliver-Implements eh fit_throw (builtin unexpected_data) ms

  -- What lies below the frame takes return values as `ok` says.
  abbrev TakesReturn : List (Frame V X) → (Returned V → OnMessages V X) → Type 0
  TakesReturn gs ok =
      (r : Returned V) (ms : List (Option V))
      → PassImplements (again (finished (trees V X) gs ms (retval r))) (ok r ms)

  returns_to_caller-Implements :
      (g : Frame V X) (gs : List (Frame V X)) (o : OnMessages V X)
      → ((ms : List (Option V)) → Implements (machine (g ∷ gs) ms none) (o ms))
      → (rs ms : List (Option V))
      → PassImplements (again (finished (trees V X) (g ∷ gs) ms rs)) (o (returns_to_caller rs ms))
  unfolding finished returns_to_caller
  returns_to_caller-Implements g gs o fits [] ms = goes_on (fits (none ∷ ms))
  returns_to_caller-Implements g gs o fits (r ∷ rs) ms = goes_on (fits ((r ∷ rs) ++ ms))

  -- The heart of the refinement: the rest of a pass, from what the tree `t` does next.
  observe-Implements :
      (t : Tree V X) (gs : List (Frame V X)) (ms : List (Option V))
      (ok : Returned V → OnMessages V X) (bad : OnException V X)
      → TakesReturn gs ok
      → TakesException gs bad
      → PassImplements (on_outcome (trees V X) false gs ms (observe t)) (eval t ms ok bad)
  unfolding on_outcome observe eval body send
  observe-Implements (stop r) gs ms ok bad takes below = takes r ms
  observe-Implements (fail e) gs ms ok bad takes below = goes_on (below e ms)
  observe-Implements (give v k h) gs ms ok bad takes below =
      answered-Implements gs bad below k h _ _
        (λ m ms'. observe-Implements (k m) gs ms' ok bad takes below)
        (λ e ms'. observe-Implements (h e) gs ms' ok bad takes below) ms v
  observe-Implements (call t k h) gs ms ok bad takes below =
      let fit = λ (m : Option V) (ms' : List (Option V)).
        observe-Implements (k m) gs ms' ok bad takes below in
      let fit_throw = λ (e : Exception X) (ms' : List (Option V)).
        observe-Implements (h e) gs ms' ok bad takes below in
      goes_on (
        Implements-body (unstarted t) (waiting k h ∷ gs) (none ∷ ms) none _ _ refl (
          observe-Implements t (waiting k h ∷ gs) ms _ _
            (λ r ms'.
              returns_to_caller-Implements (waiting k h) gs _
                (hand_in-Implements gs bad below k h _ fit) (retval r) ms')
            (deliver-Implements gs bad below k h _ fit_throw)))

  finished-first :
      (rs ms : List (Option V))
      → PassImplements (again (finished (trees V X) [] ms rs)) (first (rs ++ ms))
  unfolding finished first run round conclude
  finished-first [] [] = goes_on (returning none (1, refl))
  finished-first [] (m ∷ ms) = goes_on (returning m (1, refl))
  finished-first (r ∷ rs) ms = goes_on (returning r (1, refl))

  -- `compose(g)` behaves as the nested program `t` means, and always comes to an answer: each
  -- inner generator runs in place of the `yield` that names it, its first return value is the value
  -- of that `yield`, its further ones come out of the next bare `yield`s, and what it raises is
  -- raised there; a caller's exception goes to the innermost generator first.
  pub compose-meaning : (t : Tree V X) → Implements (start (trees V X) (unstarted t)) (meaning t)
  unfolding start meaning body hand_in send run
  compose-meaning t = Implements-body (unstarted t) [] (none ∷ []) none _ _ refl (
      observe-Implements t [] [] _ _ (λ r ms. finished-first (retval r) ms)
        (λ e ms. raising e (1, exception-answer e ms)))
    where
      exception-answer :
          (e : Exception X) (ms : List (Option V))
          → run (trees V X) 1 false (machine [] ms (some e)) ≡ some (raises e)
      exception-answer e ms = refl
