-- ===== src/Compose/Tests.antt =====
-- Runs of the loop of weightless/core/_compose_py.py on small programs.
use weightless_core.Base.{ℕ, ◌≡◌, ◌≢◌, refl, false, none, some, [], ◌∷◌}
use weightless_core.Compose.Machine.{Machine, again, single, start, body}
use weightless_core.Compose.Tree.{Tree, stop, fail, give, call, unstarted, waiting, trees, send}
use weightless_core.Compose.Reference.{meaning}
use weightless_core.Compose.Messages.{Reach, here, next, pass, Reach-messages}
use weightless_core.Compose.Flatten.{Implements, compose-meaning}

-- def inner(): x = yield 1; return x
abbrev inner : Tree ℕ ℕ
inner = give (some 1) (λ m. elim m [ none ↦ stop (single 2) | some v ↦ stop (single v) ]) fail

-- def outer(): x = yield inner(); yield x
abbrev outer : Tree ℕ ℕ
outer = call inner (λ m. give m (λ _. stop (single 3)) fail) fail

compose-meaning_example : Implements ℕ ℕ (start (trees ℕ ℕ) (unstarted outer)) (meaning outer)
compose-meaning_example = compose-meaning ℕ ℕ outer

abbrev pushed_machine : Machine (trees ℕ ℕ)
pushed_machine = record {
  generators = unstarted inner ∷ waiting (λ m. give m (λ _. stop (single 3)) fail) fail ∷ [];
  messages = none ∷ [];
  exception = none;
}

first_pass : body (trees ℕ ℕ) false (unstarted outer) [] (none ∷ []) none ≡ again pushed_machine
unfolding body send
first_pass = refl

abbrev after_first_pass :
    Reach (trees ℕ ℕ) false (start (trees ℕ ℕ) (unstarted outer)) pushed_machine
unfolding start
after_first_pass = next here (pass (unstarted outer) [] (none ∷ []) none pushed_machine first_pass)

Reach-messages_example : pushed_machine.messages ≢ []
Reach-messages_example =
    Reach-messages (trees ℕ ℕ) false (unstarted outer) pushed_machine after_first_pass refl
      (λ e. cc)
