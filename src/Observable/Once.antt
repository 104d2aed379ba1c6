-- ===== src/Observable/Once.antt =====
-- weightless/core/_observable.py: `OnceMessage`, which goes through the observers of observers, also
-- where they stand in a circle. An observer is a number; its observers and its methods are parameters.
pub mod Ends
use weightless_core.Base.{
  ℕ, zero, suc, ◌≡◌, refl, ◌+◌, Bool, true, false, not, ◌||◌, Option, none, some, List, [], ◌∷◌,
  ◌++◌, ◌==◌, ==_iff, if◌then◌else◌, arith, Bool-cases, Option-cases, inl, inr,
}
use weightless_core.Observable.{Exception, assertion_error, Answer, returns, raises, not_generator}

abbrev pub mem : ℕ → List ℕ → Bool
mem n [] = false
mem n (m ∷ ms) = m == n || mem n ms

-- `self.seen` and `self.called`, the last one first, with the program's state.
pub record Visit (S : Type 0) : Type 0 where
  pub seen : List ℕ
  pub called : List ℕ
  pub world : S

-- How a walk ends: with all observers visited, with an exception, or out of fuel.
pub data Walk (S X : Type 0) : Type 0 where
  visited : Visit S → Walk S X
  failed : Exception X → Visit S → Walk S X
  deeper : Walk S X

-- What a method gives: its answer, or a generator, with the answer of that generator when it is run.
pub data Called (V X : Type 0) : Type 0 where
  direct : Answer V X → Called V X
  generates : Answer V X → Called V X

-- `method` is `getattr(observer, message)`; `observers` are those of an `Observable`.
module _ {S V X : Type 0} (method : ℕ → Option (S → Called V X × S))
    (observers : ℕ → Option (List ℕ)) where
  unfoldable pub answered : Visit S → Called V X × S → Walk S X
  answered v (direct (returns none), s) = visited (record v { world = s })
  answered v (generates (returns none), s) = visited (record v { world = s })
  answered v (direct (returns (some r)), s) = failed assertion_error (record v { world = s })
  answered v (generates (returns (some r)), s) = failed assertion_error (record v { world = s })
  answered v (direct (raises e), s) = failed (not_generator e) (record v { world = s })
  answered v (generates (raises e), s) = failed e (record v { world = s })

  unfoldable pub call_method : ℕ → Option (S → Called V X × S) → Visit S → Walk S X
  unfolding answered
  call_method o none v = visited v
  call_method o (some m) v = answered (record v { called = o ∷ v.called }) (m v.world)

  unfoldable pub and_walk : Walk S X → (Visit S → Walk S X) → Walk S X
  and_walk (visited v) next = next v
  and_walk (failed e v) next = failed e v
  and_walk deeper next = deeper

  unfoldable pub descend : (List ℕ → Visit S → Walk S X) → Option (List ℕ) → Visit S → Walk S X
  descend into none v = visited v
  descend into (some os) v = into os v

  -- One observer that was not seen yet: its method, and its own observers.
  unfoldable pub visit : (List ℕ → Visit S → Walk S X) → ℕ → Visit S → Walk S X
  unfolding call_method and_walk descend
  visit into o v =
      and_walk (call_method o (method o) (record v { seen = o ∷ v.seen }))
        (descend into (observers o))

  unfoldable pub walk : (List ℕ → Visit S → Walk S X) → List ℕ → Visit S → Walk S X
  unfolding visit and_walk
  walk into [] v = visited v
  walk into (o ∷ os) v =
      if mem o v.seen then walk into os v else and_walk (visit into o v) (walk into os)

  -- `_callonce`, one unit of fuel for each level of observers.
  unfoldable pub call_once : ℕ → List ℕ → Visit S → Walk S X
  unfolding walk
  call_once zero os v = deeper
  call_once (suc fuel) os v = walk (call_once fuel) os v

  unfoldable pub once : ℕ → List ℕ → S → Walk S X
  unfolding call_once
  once fuel os s = call_once fuel os (record { seen = []; called = []; world = s })
