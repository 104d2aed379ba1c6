-- ===== src/Compose/Reference.antt =====
-- What a program of nested generators means, with no stack: a `call` runs the inner generator to
-- its end and goes on with its first return value, as `yield from` does. Of the other return values
-- (`return value, rest`) each is handed to a later `yield` that asks for a message by `None`.
use weightless_core.Base.{Option, none, some, List, [], ◌∷◌, ◌++◌}
use weightless_core.Compose.Machine.{Returned, retval, index_error, unexpected_data}
use weightless_core.Compose.Tree.{
  Exception, builtin, generator_exit, Tree, stop, fail, give, call, closing,
}

-- The composed generator, seen by its caller.
pub data Outer (V X : Type 0) : Type 0 where
  done : Option V → Outer V X
  failed : Exception X → Outer V X
  out : Option V → (Option V → Outer V X) → (Exception X → Outer V X) → Outer V X

-- How the composed program goes on: with the pending messages, or after an exception.
abbrev pub OnMessages : Type 0 → Type 0 → Type 0
OnMessages V X = List (Option V) → Outer V X

abbrev pub OnException : Type 0 → Type 0 → Type 0
OnException V X = Exception X → List (Option V) → Outer V X

-- Return values, where somebody waits for them: `None` where there are none.
unfoldable pub returns_to_caller :
    {V : Type 0} → List (Option V) → List (Option V) → List (Option V)
returns_to_caller [] ms = none ∷ ms
returns_to_caller (v ∷ vs) ms = (v ∷ vs) ++ ms

module _ {V X : Type 0} where
  -- A yield of the value `v`.
  unfoldable pub gives :
      Option V → List (Option V) → (Option V → OnMessages V X) → OnException V X → Outer V X
  gives none [] k h = out none (λ m. k m []) (λ e. h e [])
  gives none (m ∷ ms) k h = k m ms
  gives (some v) ms k h =
      out (some v) (λ m. elim m [ none ↦ k none ms | some _ ↦ h (builtin unexpected_data) ms ])
        (λ e. h e ms)

  -- The first message goes to the generator that asks.
  unfoldable pub hands : (Option V → OnMessages V X) → OnException V X → OnMessages V X
  hands k bad [] = bad (builtin index_error) []
  hands k bad (m ∷ ms) = k m ms

  -- An exception reaches a generator: `GeneratorExit` closes it and goes on outwards.
  unfoldable pub throws_into :
      Option (Exception X) → OnException V X → OnException V X → OnException V X
  throws_into closed h bad generator_exit ms =
      bad (elim closed [ none ↦ generator_exit | some e ↦ e ]) ms
  throws_into closed h bad e ms = h e ms

  unfoldable pub eval :
      Tree V X → List (Option V) → (Returned V → OnMessages V X) → OnException V X → Outer V X
  eval (stop r) ms ok bad = ok r ms
  eval (fail e) ms ok bad = bad e ms
  eval (give v k h) ms ok bad =
      gives v ms (λ m ms'. eval (k m) ms' ok bad)
        (throws_into (closing (h generator_exit)) (λ e ms'. eval (h e) ms' ok bad) bad)
  eval (call t k h) ms ok bad =
      eval t ms
        (λ r ms'. hands (λ m ms''. eval (k m) ms'' ok bad) bad (returns_to_caller (retval r) ms'))
        (throws_into (closing (h generator_exit)) (λ e ms'. eval (h e) ms' ok bad) bad)

  -- The outermost generator returns its first value; what else it returns is dropped.
  unfoldable pub first : List (Option V) → Outer V X
  first [] = done none
  first (m ∷ ms) = done m

  unfoldable pub meaning : Tree V X → Outer V X
  unfolding eval first
  meaning t = eval t [] (λ r ms. first (retval r ++ ms)) (λ e ms. failed e)
