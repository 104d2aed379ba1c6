-- ===== src/Compose/Machine.antt =====
-- weightless/core/_compose_py.py: the loop of `_compose` between two of its own yields.
-- A generator object, the values and the exceptions are the caller's. `Generators` is what the
-- loop uses of them: `send`, `throw` and `close`, and the two looks at a generator's frame.
use weightless_core.Base.{
  ℕ, zero, suc, Bool, not, ◌||◌, Option, none, some, List, [], ◌∷◌, ◌++◌, is_empty, is_some,
  if◌then◌else◌,
}

-- The exceptions that the loop's own statements raise.
pub data Builtin : Type 0 where
  index_error exhausted already_used stepping_data unexpected_data : Builtin

-- A generator's return value: none, a single value or a tuple.
pub data Returned (V : Type 0) : Type 0 where
  nothing : Returned V
  single : V → Returned V
  tuple : List (Option V) → Returned V

-- What a generator yields: another generator or a value, where `none` is Python's `None`.
pub data Response (G V : Type 0) : Type 0 where
  generator : G → Response G V
  value : Option V → Response G V

-- How a call of `send` or `throw` ends; a generator that yields goes on from a new state.
pub data Outcome (G V E : Type 0) : Type 0 where
  yielded : G → Response G V → Outcome G V E
  returned : Returned V → Outcome G V E
  raised : E → Outcome G V E

pub record Generators : Type 1 where
  pub G : Type 0
  pub V : Type 0
  pub E : Type 0
  pub send : G → Option V → Outcome G V E
  pub throw : G → E → Outcome G V E
  pub close : G → Option E
  pub has_frame : G → Bool
  pub at_first_line : G → Bool
  pub is_exit : E → Bool
  pub builtin : Builtin → E

-- What the composed generator yields to its own caller.
pub data Pause (V : Type 0) : Type 0 where
  at_step : Pause V
  at_response : Option V → Pause V

pub data Signal (V E : Type 0) : Type 0 where
  sends : Option V → Signal V E
  throws : E → Signal V E

module _ {V : Type 0} where
  -- `returnValue.args`, with a tuple in it taken apart.
  unfoldable pub retval : Returned V → List (Option V)
  retval nothing = []
  retval (single v) = some v ∷ []
  retval (tuple vs) = vs

module _ (c : Generators) where
  open c use {G, V, E, send, throw, close, has_frame, at_first_line, is_exit, builtin}

  -- The local variables; the head of `generators` is the last of the source's list.
  pub record Machine : Type 0 where
    pub generators : List G
    pub messages : List (Option V)
    pub exception : Option E

  -- One pass through the body of the `while` ends at the next pass or at a yield.
  pub data Pass : Type 0 where
    again : Machine → Pass
    waits : Pause V → Machine → Pass

  -- `except BaseException`: the top generator is gone already.
  unfoldable pub caught : List G → List (Option V) → E → Machine
  caught gs ms e = record { generators = gs; messages = ms; exception = some e }

  -- `except StopIteration`: `gs` are the generators below the one that returned.
  unfoldable pub finished : List G → List (Option V) → List (Option V) → Machine
  finished gs ms (v ∷ vs) = record { generators = gs; messages = (v ∷ vs) ++ ms; exception = none }
  finished [] ms [] = record { generators = []; messages = ms; exception = none }
  finished (g ∷ gs) ms [] = record { generators = g ∷ gs; messages = none ∷ ms; exception = none }

  -- The response is a generator `g`: it is pushed, and checked to be fresh.
  unfoldable pub pushed : Bool → List G → List (Option V) → G → Pass
  unfolding caught
  pushed stepping gs ms g =
      if not (has_frame g)
      then again (caught gs ms (builtin exhausted))
      else if not (at_first_line g)
      then again (caught gs ms (builtin already_used))
      else if stepping
      then waits at_step (record { generators = g ∷ gs; messages = ms; exception = none })
      else again (record { generators = g ∷ gs; messages = none ∷ ms; exception = none })

  -- The response is a value: it leaves, unless it is `None` and a message is left to hand in.
  unfoldable pub answered : List G → List (Option V) → Option V → Pass
  answered gs ms v =
      if is_some v || is_empty ms
      then waits (at_response v) (record { generators = gs; messages = ms; exception = none })
      else again (record { generators = gs; messages = ms; exception = none })

  -- The rest of the pass, once the top generator has been resumed; `gs` are those below it.
  unfoldable pub on_outcome : Bool → List G → List (Option V) → Outcome G V E → Pass
  unfolding retval caught finished pushed answered
  on_outcome stepping gs ms (yielded k (generator g)) = pushed stepping (k ∷ gs) ms g
  on_outcome stepping gs ms (yielded k (value v)) = answered (k ∷ gs) ms v
  on_outcome stepping gs ms (returned r) = again (finished gs ms (retval r))
  on_outcome stepping gs ms (raised e) = again (caught gs ms e)

  -- An exception is pending: a `GeneratorExit` closes the top generator and goes on down, any
  -- other is thrown into it.
  unfoldable pub deliver : Bool → G → List G → List (Option V) → E → Pass
  unfolding on_outcome caught
  deliver stepping g gs ms e =
      if is_exit e
      then again (caught gs ms (elim (close g) [ none ↦ e | some e' ↦ e' ]))
      else on_outcome stepping gs ms (throw g e)

  -- No exception is pending: the first message is handed in.
  unfoldable pub hand_in : Bool → G → List G → List (Option V) → Pass
  unfolding on_outcome caught
  hand_in stepping g gs [] = again (caught gs [] (builtin index_error))
  hand_in stepping g gs (m ∷ ms) = on_outcome stepping gs ms (send g m)

  unfoldable pub body : Bool → G → List G → List (Option V) → Option E → Pass
  unfolding deliver hand_in
  body stepping g gs ms none = hand_in stepping g gs ms
  body stepping g gs ms (some e) = deliver stepping g gs ms e

  -- The composed generator is resumed at the yield where it paused.
  unfoldable pub resume : Pause V → Machine → Signal V E → Machine
  unfolding caught
  resume pause m (throws e) = record m { exception = some e }
  resume at_step m (sends none) = record m { messages = none ∷ m.messages }
  resume at_step m (sends (some v)) =
      caught (elim m.generators [ [] ↦ [] | g ∷ gs ↦ gs ]) m.messages (builtin stepping_data)
  resume (at_response none) m (sends v) = record m { messages = v ∷ m.messages }
  resume (at_response (some r)) m (sends none) = record m { messages = none ∷ m.messages }
  resume (at_response (some r)) m (sends (some v)) = record m {
    exception = some (builtin unexpected_data);
  }

  -- How a run of the loop ends: at a yield, with the return value or with an exception.
  pub data Answer : Type 0 where
    paused : Pause V → Machine → Answer
    returns : Option V → Answer
    raises : E → Answer

  -- The statements after the loop.
  unfoldable pub conclude : List (Option V) → Option E → Answer
  conclude ms (some e) = raises e
  conclude [] none = returns none
  conclude (m ∷ ms) none = returns m

  unfoldable pub start : G → Machine
  start g = record { generators = g ∷ []; messages = none ∷ []; exception = none }

  unfoldable pub after : (Machine → Option Answer) → Pass → Option Answer
  after loop (again m) = loop m
  after loop (waits pause m) = some (paused pause m)

  -- `while generators`, where `loop` goes on with the next pass.
  unfoldable pub round :
      (Machine → Option Answer) → Bool → List G → List (Option V) → Option E → Option Answer
  unfolding body conclude after
  round loop stepping [] ms e = some (conclude ms e)
  round loop stepping (g ∷ gs) ms e = after loop (body stepping g gs ms e)

  -- The loop on fuel, one for each pass; `none` means that the fuel ran out.
  unfoldable pub run : ℕ → Bool → Machine → Option Answer
  unfolding round
  run zero stepping m = none
  run (suc fuel) stepping m = round (run fuel stepping) stepping m.generators m.messages m.exception
