-- ===== src/Observable/Tests.antt =====
-- Messages of weightless/core/_observable.py to small components.
use weightless_core.Base.{subst, ℕ, ◌≡◌, refl, Option, none, some, List, [], ◌∷◌, arith}
use weightless_core.Observable.{
  decline_message, returns, raises, Component, find_methods, call, do_all, transparent,
}
use weightless_core.Observable.Delegates.{call-transparent, do_all-transparent}
use weightless_core.Observable.Once.{once, Called, direct}
use weightless_core.Observable.Once.Ends.{EndsOnce, once-EndsOnce, AllIn}

-- A component that answers with its number, and one that declines.
abbrev answering : ℕ → Component ℕ ℕ ℕ
answering n = record {
  attribute = λ message. some (λ s. (returns (some n), s));
  unknown = λ k. none;
  name = none;
}

abbrev counting : Component ℕ ℕ ℕ
counting = record {
  attribute = λ message. some (λ s. (returns none, 1));
  unknown = λ k. none;
  name = none;
}

abbrev declines : Component ℕ ℕ ℕ
declines = record {
  attribute = λ message. some (λ s. (raises decline_message, s));
  unknown = λ k. none;
  name = none;
}

call-transparent_example :
    call (transparent none (declines ∷ []) ∷ answering 2 ∷ []) 5 0
    ≡ call (declines ∷ answering 2 ∷ []) 5 0
unfolding find_methods
call-transparent_example =
    call-transparent none (declines ∷ []) (answering 2 ∷ []) 5 0 ((λ s e. cc), tt)

do_all-transparent_example :
    do_all (transparent none (counting ∷ []) ∷ declines ∷ []) 5 0
    ≡ do_all (counting ∷ declines ∷ []) 5 0
do_all-transparent_example = do_all-transparent none (counting ∷ []) (declines ∷ []) 5 0

-- Two observables that observe each other.
abbrev quiet : ℕ → Option (ℕ → Called ℕ ℕ × ℕ)
quiet o = some (λ s. (direct (returns none), s))

abbrev circle : ℕ → Option (List ℕ)
circle o = some (0 ∷ 1 ∷ [])

abbrev AllInSome : Option (List ℕ) → Type 0
AllInSome none = Unit
AllInSome (some os) = AllIn (0 ∷ 1 ∷ []) os

circle_closed : (o : ℕ) (os : List ℕ) → circle o ≡ some os → AllIn (0 ∷ 1 ∷ []) os
circle_closed o os e = subst AllInSome e (refl, (refl, tt))

once-EndsOnce_example : EndsOnce (once quiet circle 3 (0 ∷ []) 7)
once-EndsOnce_example =
    once-EndsOnce quiet circle (0 ∷ 1 ∷ []) circle_closed 3 (0 ∷ []) 7 (omega arith) (refl, tt)
