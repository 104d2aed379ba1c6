-- ===== src/Compose/Tree.antt =====
-- Generators as interaction trees, an instance of `Generators` of Compose.Machine: what a generator
-- does next is fixed by what it is sent or thrown, and every exchange with it ends.
use weightless_core.Base.{Bool, true, false, Option, none, some}
use weightless_core.Compose.Machine.{
  Generators, Outcome, yielded, returned, raised, generator, value, Returned, Builtin,
}

-- The exceptions: those of the loop, `GeneratorExit`, what Python raises on a misused generator,
-- and those of the program.
pub data Exception (X : Type 0) : Type 0 where
  builtin : Builtin → Exception X
  generator_exit runtime_error type_error : Exception X
  program : X → Exception X

-- `give` yields a value and `call` yields a generator; both go on with what is sent or thrown.
pub data Tree (V X : Type 0) : Type 0 where
  stop : Returned V → Tree V X
  fail : Exception X → Tree V X
  give : Option V → (Option V → Tree V X) → (Exception X → Tree V X) → Tree V X
  call : Tree V X → (Option V → Tree V X) → (Exception X → Tree V X) → Tree V X

-- A generator object before its first `send`, and at one of its yields.
pub data Frame (V X : Type 0) : Type 0 where
  unstarted : Tree V X → Frame V X
  waiting : (Option V → Tree V X) → (Exception X → Tree V X) → Frame V X

abbrev pub is_exit : {X : Type 0} → Exception X → Bool
is_exit generator_exit = true
is_exit _ = false

module _ {V X : Type 0} where
  unfoldable pub observe : Tree V X → Outcome (Frame V X) V (Exception X)
  observe (stop r) = returned r
  observe (fail e) = raised e
  observe (give v k h) = yielded (waiting k h) (value v)
  observe (call t k h) = yielded (waiting k h) (generator (unstarted t))

  unfoldable pub send : Frame V X → Option V → Outcome (Frame V X) V (Exception X)
  unfolding observe
  send (unstarted t) none = observe t
  send (unstarted t) (some v) = raised type_error
  send (waiting k h) m = observe (k m)

  unfoldable pub throw : Frame V X → Exception X → Outcome (Frame V X) V (Exception X)
  unfolding observe
  throw (unstarted t) e = raised e
  throw (waiting k h) e = observe (h e)

  -- What `close()` raises, after the generator's answer to `GeneratorExit`.
  unfoldable pub closing : Tree V X → Option (Exception X)
  closing (stop r) = none
  closing (fail generator_exit) = none
  closing (fail e) = some e
  closing (give v k h) = some runtime_error
  closing (call t k h) = some runtime_error

  unfoldable pub close : Frame V X → Option (Exception X)
  unfolding closing
  close (unstarted t) = none
  close (waiting k h) = closing (h generator_exit)

  abbrev pub at_first_line : Frame V X → Bool
  at_first_line (unstarted t) = true
  at_first_line (waiting k h) = false

abbrev pub trees : Type 0 → Type 0 → Generators
trees V X = record {
  G = Frame V X;
  V = V;
  E = Exception X;
  send = send;
  throw = throw;
  close = close;
  has_frame = λ g. true;
  at_first_line = at_first_line;
  is_exit = is_exit;
  builtin = builtin;
}
