-- ===== src/Http/Driver/Sockets.antt =====
-- weightless/http/_httprequest1_1.py: which sockets are released, by the log.
use weightless_core.Base.{
  ℕ, ◌≡◌, refl, subst, sym, ◌∙◌, Bool, true, false, ◌||◌, ◌⊎◌, inl, inr, Bool-cases, Option, none,
  some, [], ◌∷◌, ◌==◌, ==_iff,
}
use weightless_core.Http.Driver.{Call, closes, puts, sends, Closer, Driver, Log}
use weightless_core.Http.Driver.Parts.{logged, Talks, Connects}

-- Is there such a call in the log?
unfoldable pub has : (Call → Bool) → Log → Bool
has p [] = false
has p (c ∷ log) = p c || has p log

-- Data is sent on the socket.
abbrev pub uses : ℕ → Call → Bool
uses s (sends t text) = t == s
uses s c = false

-- The socket is closed, or handed to the pool.
abbrev pub releases : ℕ → Call → Bool
releases s (closes t) = t == s
releases s (puts t) = t == s
releases s c = false

-- All sockets that were used are released.
abbrev pub Free : Driver → Type 0
Free w = (s : ℕ) → has (uses s) w.log ≡ true → has (releases s) w.log ≡ true

-- All but that of a closer.
abbrev pub HeldBy : Closer → Driver → Type 0
HeldBy k w =
    (s : ℕ)
    → has (uses s) w.log ≡ true
    → (has (releases s) w.log ≡ true) ⊎ ((k.sok ≡ s) × (k.closed ≡ false))

abbrev pub HeldIn : Option Closer → Driver → Type 0
HeldIn none w = Free w
HeldIn (some k) w = HeldBy k w

abbrev pub Held : Driver → Type 0
Held w = HeldIn w.closer w

abbrev pub opened : ℕ → Closer
opened s = record { sok = s; shut = false; closed = false }

-- All but the socket of this pass.
abbrev pub HeldOn : ℕ → Driver → Type 0
HeldOn s w = HeldBy (opened s) w × (w.closer ≡ some (opened s))

or_right : (a b : Bool) → b ≡ true → (a || b) ≡ true
or_right true b e = refl
or_right false b e = e

pub Free-Held : (c : Option Closer) (w : Driver) → Free w → HeldIn c w
Free-Held none w f = f
Free-Held (some k) w f = λ s u. inl (f s u)

pub HeldOn-Held : (s : ℕ) (w : Driver) → HeldOn s w → Held w
HeldOn-Held s w h = subst (λ c. HeldIn c w) (sym h.1) h.0

-- A call that sends nothing.
abbrev pub Sendless : Call → Type 0
Sendless c = (s : ℕ) → uses s c ≡ false

pub Free-logged : (c : Call) → Sendless c → (w : Driver) → Free w → Free (logged c w)
unfolding has
Free-logged c n w f s u =
    or_right (releases s c) (has (releases s) w.log) (f s (sym (rw (n s) refl) ∙ u))

pub HeldBy-logged :
    (k : Closer) (c : Call) → Sendless c → (w : Driver) → HeldBy k w → HeldBy k (logged c w)
unfolding has
HeldBy-logged k c n w h s u = elim (h s (sym (rw (n s) refl) ∙ u)) [
  | inl r ↦ inl (or_right (releases s c) (has (releases s) w.log) r)
  | inr o ↦ inr o
]

pub HeldOn-Talks :
    (s : ℕ) (c : Call) → Talks s c → (w : Driver) → HeldOn s w → HeldOn s (logged c w)
unfolding has
HeldOn-Talks s (sends t text) e w h = (more, h.1)
  where
    more : HeldBy (opened s) (logged (sends t text) w)
    more r u = elim (Bool-cases (t == r)) [
      | inl i ↦ inr (sym e ∙ (==_iff t r).0 i, refl)
      | inr i ↦ h.0 r (sym (rw i refl) ∙ u)
    ]
HeldOn-Talks s c e w h = (HeldBy-logged (opened s) c (λ r. refl) w h.0, h.1)

pub Free-Connects : (c : Call) → Connects c → (w : Driver) → Free w → Free (logged c w)
Free-Connects (sends t text) e w f = absurd e
Free-Connects c e w f = Free-logged c (λ r. refl) w f

pub Free-closes : (k : Closer) (w : Driver) → HeldBy k w → Free (logged (closes k.sok) w)
unfolding has
Free-closes k w h s u = elim (h s u) [
  | inl r ↦ or_right (k.sok == s) (has (releases s) w.log) r
  | inr o ↦ rw ((==_iff k.sok s).1 o.0) refl
]

pub Free-puts : (k : Closer) (w : Driver) → HeldBy k w → Free (logged (puts k.sok) w)
unfolding has
Free-puts k w h s u = elim (h s u) [
  | inl r ↦ or_right (k.sok == s) (has (releases s) w.log) r
  | inr o ↦ rw ((==_iff k.sok s).1 o.0) refl
]
