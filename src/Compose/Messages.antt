-- ===== src/Compose/Messages.antt =====
-- weightless/core/_compose_py.py: the list `messages` of `_compose` in all runs of the loop.
use weightless_core.Base.{
  ◌≡◌, refl, subst, ◌≢◌, Bool, Option, none, some, List, [], ◌∷◌, Bool-cases, inl, inr,
}
use weightless_core.Compose.Machine.{
  Generators, Machine, Pass, again, waits, Pause, at_step, at_response, Signal, sends, throws,
  Outcome, yielded, returned, raised, generator, value, start, body, deliver, hand_in, on_outcome,
  pushed, answered, caught, finished, retval, resume,
}

module _ (c : Generators) (stepping : Bool) where
  open c use {G, V, E, send, throw, close, has_frame, at_first_line}

  -- One pass, and the caller's next signal where the pass ends at a yield.
  pub data Step : Machine c → Machine c → Type 0 where
    pass :
        (g : G) (gs : List G) (ms : List (Option V)) (e : Option E) (m : Machine c)
        → body c stepping g gs ms e ≡ again m
        → Step (record { generators = g ∷ gs; messages = ms; exception = e }) m
    signal :
        (g : G) (gs : List G) (ms : List (Option V)) (e : Option E) (p : Pause V) (m : Machine c)
        → body c stepping g gs ms e ≡ waits p m
        → (s : Signal V E)
        → Step (record { generators = g ∷ gs; messages = ms; exception = e }) (resume c p m s)

  pub data Reach (m : Machine c) : Machine c → Type 0 where
    here : Reach m m
    next : {n o : Machine c} → Reach m n → Step n o → Reach m o

  -- With no exception pending and a generator left, a message is at hand.
  abbrev pub HasMessage : Machine c → Type 0
  HasMessage m = m.exception ≡ none → m.generators ≢ [] → m.messages ≢ []

  abbrev PassHasMessage : Pass c → Type 0
  PassHasMessage (again m) = HasMessage m
  PassHasMessage (waits p m) = (s : Signal V E) → HasMessage (resume c p m s)

  finished-HasMessage : (gs : List G) (ms rs : List (Option V)) → HasMessage (finished c gs ms rs)
  unfolding finished
  finished-HasMessage gs ms (v ∷ vs) = λ _ _ h. cc
  finished-HasMessage [] ms [] = λ _ h _. h refl
  finished-HasMessage (g ∷ gs) ms [] = λ _ _ h. cc

  resume-HasMessage : (p : Pause V) (m : Machine c) (s : Signal V E) → HasMessage (resume c p m s)
  unfolding resume caught
  resume-HasMessage p m (throws e) = λ h _ _. cc
  resume-HasMessage at_step m (sends none) = λ _ _ h. cc
  resume-HasMessage at_step m (sends (some v)) = λ h _ _. cc
  resume-HasMessage (at_response none) m (sends v) = λ _ _ h. cc
  resume-HasMessage (at_response (some r)) m (sends none) = λ _ _ h. cc
  resume-HasMessage (at_response (some r)) m (sends (some v)) = λ h _ _. cc

  pushed-HasMessage :
      (gs : List G) (ms : List (Option V)) (g : G) → PassHasMessage (pushed c stepping gs ms g)
  unfolding pushed caught
  pushed-HasMessage gs ms g = elim (Bool-cases (has_frame g)) [
    | inr e ↦ rw e (λ h _ _. cc)
    | inl e ↦ rw e (elim (Bool-cases (at_first_line g)) [
      | inr e' ↦ rw e' (λ h _ _. cc)
      | inl e' ↦ rw e' (elim (Bool-cases stepping) [
        | inl t ↦ rw t (λ s. resume-HasMessage at_step _ s)
        | inr t ↦ rw t (λ _ _ h. cc)
      ])
    ])
  ]

  answered-HasMessage :
      (gs : List G) (ms : List (Option V)) (v : Option V) → PassHasMessage (answered c gs ms v)
  unfolding answered
  answered-HasMessage gs ms (some v) = λ s. resume-HasMessage _ _ s
  answered-HasMessage gs [] none = λ s. resume-HasMessage _ _ s
  answered-HasMessage gs (m ∷ ms) none = λ _ _ h. cc

  on_outcome-HasMessage :
      (gs : List G) (ms : List (Option V)) (o : Outcome G V E)
      → PassHasMessage (on_outcome c stepping gs ms o)
  unfolding on_outcome caught
  on_outcome-HasMessage gs ms (yielded k (generator g)) = pushed-HasMessage (k ∷ gs) ms g
  on_outcome-HasMessage gs ms (yielded k (value v)) = answered-HasMessage (k ∷ gs) ms v
  on_outcome-HasMessage gs ms (returned r) = finished-HasMessage gs ms (retval r)
  on_outcome-HasMessage gs ms (raised e) = λ h _ _. cc

  body-HasMessage :
      (g : G) (gs : List G) (ms : List (Option V)) (e : Option E)
      → PassHasMessage (body c stepping g gs ms e)
  unfolding body deliver hand_in caught
  body-HasMessage g gs [] none = λ h _ _. cc
  body-HasMessage g gs (m ∷ ms) none = on_outcome-HasMessage gs ms (send g m)
  body-HasMessage g gs ms (some e) = elim (Bool-cases (c.is_exit e)) [
    | inl t ↦ rw t (λ h _ _. cc)
    | inr t ↦ rw t (on_outcome-HasMessage gs ms (throw g e))
  ]

  Step-HasMessage : {m n : Machine c} → Step m n → HasMessage n
  Step-HasMessage (pass g gs ms e m h) = subst PassHasMessage h (body-HasMessage g gs ms e)
  Step-HasMessage (signal g gs ms e p m h s) = subst PassHasMessage h (body-HasMessage g gs ms e) s

  Reach-HasMessage : (g : G) {m : Machine c} → Reach (start c g) m → HasMessage m
  unfolding start
  Reach-HasMessage g here = λ _ _ h. cc
  Reach-HasMessage g (next r s) = Step-HasMessage s

  -- From the start on, whatever the generators do and whatever the caller sends or throws: when no
  -- exception is pending and a generator is left, the list of messages is not empty, so that the loop
  -- never comes to `messages.pop(0)` with an empty list.
  pub Reach-messages :
      (g : G) (m : Machine c)
      → Reach (start c g) m
      → m.exception ≡ none
      → m.generators ≢ []
      → m.messages ≢ []
  Reach-messages g m r = Reach-HasMessage g r
