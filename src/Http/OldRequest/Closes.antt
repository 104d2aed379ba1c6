-- ===== src/Http/OldRequest/Closes.antt =====
-- weightless/http/_httprequest.py: which socket of a request is closed.
use weightless_core.Base.{ℕ, ◌≡◌, refl, ◌⊎◌, Bool, true, false, ◌||◌, ◌==◌}
use weightless_core.Http.Driver.{
  Env, Call, is_exception, closes, Driver, Result, ok, raised, perform,
}
use weightless_core.Http.Driver.Keeps.{Keeps}
use weightless_core.Http.Driver.Parts.{logged, perform-Keeps}
use weightless_core.Http.Driver.Sockets.{has}
use weightless_core.Http.OldRequest.{OldArguments, connection}

abbrev pub is_close : ℕ → Call → Bool
is_close s (closes t) = t == s
is_close s c = false

abbrev pub Closed : ℕ → Driver → Type 0
Closed s w = has (is_close s) w.log ≡ true

abbrev Anything : Driver → Type 0
Anything w = Unit

or_true : (a b : Bool) → b ≡ true → (a || b) ≡ true
or_true true b e = refl
or_true false b e = e

Closed-logged : (s : ℕ) (c : Call) (w : Driver) → Closed s w → Closed s (logged c w)
unfolding has
Closed-logged s c w e = or_true (is_close s c) (has (is_close s) w.log) e

module _ (env : Env) (s : ℕ) where
  perform-Closed : (c : Call) → Keeps (Closed s) (perform env c)
  perform-Closed c = perform-Keeps env (Closed s) c (Closed-logged s c)

  -- `connect` raises no mere `BaseException`.
  abbrev IsExceptional : Result (Unit {0}) → Driver → Type 0
  IsExceptional (ok u) w = Unit
  IsExceptional (raised e) w = is_exception e ≡ true

  abbrev Connected : Result (Unit {0}) → Driver → Type 0
  Connected (ok u) w = Unit
  Connected (raised e) w = Closed s w

module _ (env : Env) (s : ℕ) (args : OldArguments) where
  -- Without TLS the socket that is talked to is the first one.
  abbrev IsPlain : Result ℕ → Driver → Type 0
  IsPlain (ok t) w = args.secure ≡ false → t ≡ s
  IsPlain (raised e) w = Unit

  -- The socket that `sok` names at the end has been closed: the first one, or the one that wraps it.
  abbrev pub NamedClosed : Driver → Type 0
  NamedClosed w =
      Closed s w
      ⊎ ((t : ℕ) × (w0 w1 : Driver) × (args.secure ≡ true)
          × (connection env args s w0 ≡ (ok t, w1))
          × Closed t w)

  abbrev Named : Result (Result ℕ) → Driver → Type 0
  Named (ok (ok t)) w =
      IsPlain (ok t) w × (w0 w1 : Driver) × (connection env args s w0 ≡ (ok t, w1))
  Named (ok (raised e)) w = Unit
  Named (raised e) w = ⊥
