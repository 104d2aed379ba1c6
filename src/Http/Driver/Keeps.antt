-- ===== src/Http/Driver/Keeps.antt =====
-- weightless/http/_httprequest1_1.py: what the parts of `_do` do to the log, whatever the environment
-- answers: a predicate of the state that every call of a part keeps is kept by the part.
use weightless_core.Base.{◌≡◌, refl, Bool, true, false, Option, none, some, ◌∷◌, if◌then◌else◌}
use weightless_core.Http.Driver.{
  Env, Error, Call, Driver, Result, ok, raised, M, and_then, ◌>>=◌, ◌>>◌, or_handle, handling,
  catch, finally, asks, may_raise, perform,
}

-- What holds before is kept to every end.
abbrev pub Keeps : {A : Type 0} → (Driver → Type 0) → M A → Type 0
Keeps I m = (w : Driver) → I w → I (m w).1

-- From what holds before to what holds at every end.
abbrev pub Triple : {A : Type 0} → (Driver → Type 0) → M A → (Result A → Driver → Type 0) → Type 0
Triple P m Q = (w : Driver) → P w → Q (m w).0 (m w).1

-- A part that always ends by itself.
abbrev pub Always : {A : Type 0} → (Driver → Type 0) → Result A → Driver → Type 0
Always P (ok a) w = P w
Always P (raised e) w = ⊥

module _ {A B : Type 0} where
  and_then-Triple :
      (Q : Result A → Driver → Type 0) (R : Result B → Driver → Type 0) (f : A → M B)
      (r : Result A × Driver)
      → Q r.0 r.1
      → ((a : A) → Triple (Q (ok a)) (f a) R)
      → ((e : Error) (w : Driver) → Q (raised e) w → R (raised e) w)
      → R (and_then f r).0 (and_then f r).1
  and_then-Triple Q R f (ok a, w) h g k = g a w h
  and_then-Triple Q R f (raised e, w) h g k = k e w h

  pub >>=-Triple :
      (P : Driver → Type 0) (Q : Result A → Driver → Type 0) (R : Result B → Driver → Type 0)
      (m : M A) (f : A → M B)
      → Triple P m Q
      → ((a : A) → Triple (Q (ok a)) (f a) R)
      → ((e : Error) (w : Driver) → Q (raised e) w → R (raised e) w)
      → Triple P (m >>= f) R
  unfolding ◌>>=◌
  >>=-Triple P Q R m f h g k w p = and_then-Triple Q R f (m w) (h w p) g k

module _ {A : Type 0} where
  or_handle-Triple :
      (Q R : Result A → Driver → Type 0) (f : Error → M A) (r : Result A × Driver)
      → Q r.0 r.1
      → ((a : A) (w : Driver) → Q (ok a) w → R (ok a) w)
      → ((e : Error) → Triple (Q (raised e)) (f e) R)
      → R (or_handle f r).0 (or_handle f r).1
  or_handle-Triple Q R f (ok a, w) h g k = g a w h
  or_handle-Triple Q R f (raised e, w) h g k = k e w h

  pub handling-Triple :
      (P : Driver → Type 0) (Q R : Result A → Driver → Type 0) (m : M A) (f : Error → M A)
      → Triple P m Q
      → ((a : A) (w : Driver) → Q (ok a) w → R (ok a) w)
      → ((e : Error) → Triple (Q (raised e)) (f e) R)
      → Triple P (handling m f) R
  unfolding handling
  handling-Triple P Q R m f h g k w p = or_handle-Triple Q R f (m w) (h w p) g k

pub asks-Triple :
    {A B : Type 0} (P : Driver → Type 0) (R : Result B → Driver → Type 0) (f : Driver → A)
    (g : A → M B)
    → ((a : A) → Triple (λ w. P w × (f w ≡ a)) (g a) R)
    → Triple P (asks f >>= g) R
unfolding asks ◌>>=◌
asks-Triple P R f g h w p = h (f w) w (p, refl)

pub Triple_if :
    {A : Type 0} (P : Driver → Type 0) (Q : Result A → Driver → Type 0) (b : Bool) (m k : M A)
    → (b ≡ true → Triple P m Q)
    → (b ≡ false → Triple P k Q)
    → Triple P (if b then m else k) Q
Triple_if P Q true m k h g = h refl
Triple_if P Q false m k h g = g refl

pub Keeps-if :
    {A : Type 0} (I : Driver → Type 0) (b : Bool) (m k : M A)
    → Keeps I m
    → Keeps I k
    → Keeps I (if b then m else k)
Keeps-if I true m k h g = h
Keeps-if I false m k h g = g

pub finally-Triple :
    {A : Type 0} (P Q : Driver → Type 0) (m : M A) (cleanup : M (Unit {0}))
    → Triple P m (λ r. Q)
    → Keeps Q cleanup
    → Triple P (finally m cleanup) (λ r. Q)
unfolding catch
finally-Triple P Q m cleanup h g =
    >>=-Triple P (λ r. Q) (λ r. Q) (catch m) (λ r. cleanup >> λ w. (r, w)) h
      (λ r. >>=-Triple Q (λ u. Q) (λ r. Q) cleanup (λ u w. (r, w)) g (λ u w i. i) (λ e w i. i))
      (λ e w i. i)

module _ (I : Driver → Type 0) where
  pub >>=-Keeps :
      {A B : Type 0} (m : M A) (f : A → M B)
      → Keeps I m
      → ((a : A) → Keeps I (f a))
      → Keeps I (m >>= f)
  >>=-Keeps m f h g = >>=-Triple I (λ r. I) (λ r. I) m f h g (λ e w i. i)

  pub handling-Keeps :
      {A : Type 0} (m : M A) (f : Error → M A)
      → Keeps I m
      → ((e : Error) → Keeps I (f e))
      → Keeps I (handling m f)
  handling-Keeps m f h g = handling-Triple I (λ r. I) (λ r. I) m f h (λ a w i. i) g

  pub catch-Keeps : {A : Type 0} (m : M A) → Keeps I m → Keeps I (catch m)
  unfolding catch
  catch-Keeps m h w i = h w i

  pub finally-Keeps :
      {A : Type 0} (m : M A) (cleanup : M (Unit {0}))
      → Keeps I m
      → Keeps I cleanup
      → Keeps I (finally m cleanup)
  finally-Keeps m cleanup h g =
      >>=-Keeps (catch m) (λ r. cleanup >> λ w. (r, w)) (catch-Keeps m h)
        λ r. >>=-Keeps cleanup (λ u w. (r, w)) g (λ u w i. i)

  pub asks-Keeps :
      {A B : Type 0} (f : Driver → A) (g : A → M B)
      → ((a : A) → Keeps I (g a))
      → Keeps I (asks f >>= g)
  unfolding asks
  asks-Keeps f g h = >>=-Keeps (asks f) g (λ w i. i) h

  pub then-Keeps : {A B : Type 0} (m : M A) (k : M B) → Keeps I m → Keeps I k → Keeps I (m >> k)
  then-Keeps m k h g = >>=-Keeps m (λ _. k) h (λ _. g)

may_raise-log : (x : Option Error) (w : Driver) → (may_raise x w).1 ≡ w
may_raise-log none w = refl
may_raise-log (some e) w = refl

pub perform-state :
    (env : Env) (c : Call) (w : Driver) → (perform env c w).1 ≡ record w { log = c ∷ w.log }
unfolding perform
perform-state env c w = may_raise-log (env.raises (c ∷ w.log)) (record w { log = c ∷ w.log })
