-- ===== src/Observable.antt =====
-- weightless/core/_observable.py: messages from an observable to its observers. A component is the
-- program's object: what its methods do is a parameter. Left out are tracebacks and `printTree`.
pub mod Delegates
pub mod Once
pub mod Tests
use weightless_core.Base.{
  Bool, true, false, Option, none, some, List, [], ◌∷◌, ◌++◌, ℕ, ◌==◌, if◌then◌else◌,
}

-- The exceptions that the code looks at, and those of the program.
pub data Exception (X : Type 0) : Type 0 where
  decline_message none_of_the_observers_respond stop_iteration generator_exit assertion_error :
      Exception X
  program : X → Exception X

pub data Answer (V X : Type 0) : Type 0 where
  returns : Option V → Answer V X
  raises : Exception X → Answer V X

-- A method with its arguments: it changes the state of the program, and answers.
abbrev pub Method : Type 0 → Type 0 → Type 0 → Type 0
Method S V X = S → Answer V X × S

-- The messages whose methods are plain functions; `all`, `any` and `once` deal with generators.
pub data Kind : Type 0 where
  call_message do_message : Kind

-- `getattr(o, message)`, `getattr(o, altname)` and `o.observable_name()`, for what the object has.
pub record Component (S V X : Type 0) : Type 0 where
  pub attribute : ℕ → Option (Method S V X)
  pub unknown : Kind → Option (ℕ → Method S V X)
  pub name : Option ℕ

-- An exception of a method, where the observers behind it are not asked any more:
-- `handleNonGeneratorGeneratorExceptions`, or the exception itself.
abbrev pub not_generator : {X : Type 0} → Exception X → Exception X
not_generator stop_iteration = assertion_error
not_generator generator_exit = assertion_error
not_generator e = e

-- `Defer.__missing__`: the observers with a name.
unfoldable pub is_named : ℕ → Option ℕ → Bool
is_named target none = false
is_named target (some name) = name == target

module _ {S V X : Type 0} where
  -- `findMethods`
  unfoldable pub found : Option (Method S V X) → Option (ℕ → Method S V X) → ℕ → List (Method S V X)
  found (some method) unknown message = method ∷ []
  found none (some unknown) message = unknown message ∷ []
  found none none message = []

  unfoldable pub find_methods : Kind → ℕ → List (Component S V X) → List (Method S V X)
  unfolding found
  find_methods kind message [] = []
  find_methods kind message (o ∷ observers) =
      found (o.attribute message) (o.unknown kind) message ++ find_methods kind message observers

  -- `call`: the answer of the first method that does not decline.
  unfoldable pub called : Method S V X → Answer V X × S → Answer V X × S
  called next (returns v, s) = (returns v, s)
  called next (raises decline_message, s) = next s
  called next (raises e, s) = (raises (not_generator e), s)

  unfoldable pub call_methods : List (Method S V X) → Method S V X
  unfolding called
  call_methods [] s = (raises none_of_the_observers_respond, s)
  call_methods (method ∷ methods) s = called (call_methods methods) (method s)

  -- `do`: all methods, none of which may give a result; those that decline are passed over.
  unfoldable pub done : Method S V X → Answer V X × S → Answer V X × S
  done next (returns none, s) = next s
  done next (returns (some v), s) = (raises assertion_error, s)
  done next (raises decline_message, s) = next s
  done next (raises e, s) = (raises (not_generator e), s)

  unfoldable pub do_methods : List (Method S V X) → Method S V X
  unfolding done
  do_methods [] s = (returns none, s)
  do_methods (method ∷ methods) s = done (do_methods methods) (method s)

  unfoldable pub call : List (Component S V X) → ℕ → Method S V X
  unfolding call_methods find_methods
  call observers message = call_methods (find_methods call_message message observers)

  unfoldable pub do_all : List (Component S V X) → ℕ → Method S V X
  unfolding do_methods find_methods
  do_all observers message = do_methods (find_methods do_message message observers)

  unfoldable pub named : ℕ → List (Component S V X) → List (Component S V X)
  unfolding is_named
  named target [] = []
  named target (o ∷ observers) =
      if is_named target o.name then o ∷ named target observers else named target observers

  -- `Transparent`: unknown messages go on to its own observers.
  abbrev pub declining : Answer V X × S → Answer V X × S
  declining (raises none_of_the_observers_respond, s) = (raises decline_message, s)
  declining x = x

  unfoldable pub call_unknown : List (Component S V X) → ℕ → Method S V X
  unfolding call
  call_unknown observers message s = declining (call observers message s)

  unfoldable pub do_unknown : List (Component S V X) → ℕ → Method S V X
  unfolding do_all
  do_unknown observers message s = do_all observers message s

  -- `call_unknown` and `do_unknown` as the attributes of a `Transparent`.
  unfoldable pub unknown_methods : List (Component S V X) → Kind → Option (ℕ → Method S V X)
  unfolding call_unknown do_unknown
  unknown_methods observers call_message = some (call_unknown observers)
  unknown_methods observers do_message = some (do_unknown observers)

  unfoldable pub transparent : Option ℕ → List (Component S V X) → Component S V X
  unfolding unknown_methods
  transparent name observers = record {
    attribute = λ message. none;
    unknown = unknown_methods observers;
    name = name;
  }
