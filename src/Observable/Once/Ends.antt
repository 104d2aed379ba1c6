-- ===== src/Observable/Once/Ends.antt =====
-- weightless/core/_observable.py: a walk of `OnceMessage` ends, and calls each observer at most once.
use weightless_core.Base.{
  ℕ, zero, suc, ◌≡◌, refl, ◌+◌, ◌-◌, ◌≤◌, ◌<◌, true, false, Option, none, some, List, [], ◌∷◌, ◌==◌,
  ==_iff, ==_refl, if◌then◌else◌, arith, Bool-cases, inl, inr, length,
}
use weightless_core.Observable.{returns, raises}
use weightless_core.Observable.Once.{
  mem, Visit, Walk, visited, failed, deeper, Called, direct, generates, answered, call_method,
  and_walk, descend, visit, walk, call_once, once,
}

abbrev pub IsDistinct : List ℕ → Type 0
IsDistinct [] = Unit
IsDistinct (n ∷ ns) = (mem n ns ≡ false) × IsDistinct ns

abbrev pub AllIn : List ℕ → List ℕ → Type 0
AllIn all [] = Unit
AllIn all (n ∷ ns) = (mem n all ≡ true) × AllIn all ns

-- How many of some numbers are not seen yet.
unfoldable unseen : List ℕ → List ℕ → ℕ
unseen [] seen = 0
unseen (n ∷ all) seen = (if mem n seen then 0 else 1) + unseen all seen

unseen-le : (all : List ℕ) (o : ℕ) (seen : List ℕ) → unseen all (o ∷ seen) ≤ unseen all seen
unfolding unseen
unseen-le [] o seen = omega arith
unseen-le (n ∷ all) o seen = ground (arith, unseen-le all o seen)

unseen-lt :
    (all : List ℕ) (o : ℕ) (seen : List ℕ)
    → mem o all ≡ true
    → mem o seen ≡ false
    → unseen all (o ∷ seen) < unseen all seen
unfolding unseen
unseen-lt [] o seen h k = cc
unseen-lt (n ∷ all) o seen h k = elim (Bool-cases (n == o)) [
  | inl e ↦ ground (arith, (==_iff n o).0 e, unseen-le all o seen, ==_refl o)
  | inr e ↦ ground (arith, unseen-lt all o seen, unseen-le all o seen)
]

unseen-length : (all seen : List ℕ) → unseen all seen ≤ length all
unfolding unseen
unseen-length [] seen = omega arith
unseen-length (n ∷ all) seen = ground (arith, unseen-length all seen)

-- What was called was seen, and no observer was called twice.
abbrev pub IsOnce : {S : Type 0} → Visit S → Type 0
IsOnce v = IsDistinct v.called × ((n : ℕ) → mem n v.called ≡ true → mem n v.seen ≡ true)

-- The walk ends, by itself or with an exception, and no observer was called twice.
abbrev pub EndsOnce : {S X : Type 0} → Walk S X → Type 0
EndsOnce (visited v) = IsDistinct v.called
EndsOnce (failed e v) = IsDistinct v.called
EndsOnce deeper = ⊥

module _ {S V X : Type 0} (method : ℕ → Option (S → Called V X × S))
    (observers : ℕ → Option (List ℕ)) where
  module _ (all : List ℕ)
      (closed : (o : ℕ) (os : List ℕ) → observers o ≡ some os → AllIn all os) where
    abbrev Below : ℕ → Visit S → Type 0
    Below n v = IsOnce v × (unseen all v.seen ≤ n)

    abbrev EndsBelow : ℕ → Walk S X → Type 0
    EndsBelow n (visited v) = Below n v
    EndsBelow n (failed e v) = Below n v
    EndsBelow n deeper = ⊥

    answered-EndsBelow :
        (n : ℕ) (v : Visit S) (x : Called V X × S)
        → Below n v
        → EndsBelow n (answered method observers v x)
    unfolding answered
    answered-EndsBelow n v (direct (returns none), s) h = h
    answered-EndsBelow n v (generates (returns none), s) h = h
    answered-EndsBelow n v (direct (returns (some r)), s) h = h
    answered-EndsBelow n v (generates (returns (some r)), s) h = h
    answered-EndsBelow n v (direct (raises e), s) h = h
    answered-EndsBelow n v (generates (raises e), s) h = h

    seen_now :
        (o : ℕ) (v : Visit S)
        → mem o v.seen ≡ false
        → IsOnce v
        → IsOnce (record v { seen = o ∷ v.seen; called = o ∷ v.called })
    seen_now o v e (d, sub) = ((ground (arith, sub o), d), λ n h. ground (arith, sub n))

    seen_only : (o : ℕ) (v : Visit S) → IsOnce v → IsOnce (record v { seen = o ∷ v.seen })
    seen_only o v (d, sub) = (d, λ n h. ground (arith, sub n))

    call_method-EndsBelow :
        (n o : ℕ) (m : Option (S → Called V X × S)) (v : Visit S)
        → mem o v.seen ≡ false
        → IsOnce v
        → unseen all (o ∷ v.seen) ≤ n
        → EndsBelow n (call_method method observers o m (record v { seen = o ∷ v.seen }))
    unfolding call_method
    call_method-EndsBelow n o none v e h k = (seen_only o v h, k)
    call_method-EndsBelow n o (some m) v e h k =
        answered-EndsBelow n (record v { seen = o ∷ v.seen; called = o ∷ v.called }) (m v.world)
          (seen_now o v e h, k)

    and_walk-EndsBelow :
        (n m : ℕ) (w : Walk S X) (next : Visit S → Walk S X)
        → EndsBelow n w
        → n ≤ m
        → ((v : Visit S) → Below n v → EndsBelow m (next v))
        → EndsBelow m (and_walk method observers w next)
    unfolding and_walk
    and_walk-EndsBelow n m (visited v) next h l k = k v h
    and_walk-EndsBelow n m (failed e v) next h l k = (h.0, omega (arith, h.1))
    and_walk-EndsBelow n m deeper next h l k = h

    -- How the walk over the observers of an observer ends, with fewer observers unseen than `n`.
    abbrev EndsWell : ℕ → (List ℕ → Visit S → Walk S X) → Type 0
    EndsWell n into =
        (m : ℕ) (os : List ℕ) (v : Visit S)
        → m < n
        → AllIn all os
        → Below m v
        → EndsBelow m (into os v)

    descend-EndsBelow :
        (n m : ℕ) (into : List ℕ → Visit S → Walk S X) (kids : Option (List ℕ)) (v : Visit S)
        → EndsWell n into
        → m < n
        → ((os : List ℕ) → kids ≡ some os → AllIn all os)
        → Below m v
        → EndsBelow m (descend method observers into kids v)
    unfolding descend
    descend-EndsBelow n m into none v w l k h = h
    descend-EndsBelow n m into (some os) v w l k h = w m os v l (k os refl) h

    visit-EndsBelow :
        (n m o : ℕ) (into : List ℕ → Visit S → Walk S X) (v : Visit S)
        → EndsWell n into
        → m < n
        → mem o v.seen ≡ false
        → IsOnce v
        → unseen all (o ∷ v.seen) ≤ m
        → EndsBelow m (visit method observers into o v)
    unfolding visit
    visit-EndsBelow n m o into v w l e h u =
        and_walk-EndsBelow m m _ _ (call_method-EndsBelow m o (method o) v e h u) (omega arith)
          (λ x b. descend-EndsBelow n m into (observers o) x w l (closed o) b)

    walk-EndsBelow :
        (n : ℕ) (into : List ℕ → Visit S → Walk S X) (os : List ℕ) (v : Visit S)
        → EndsWell n into
        → AllIn all os
        → Below n v
        → EndsBelow n (walk method observers into os v)
    unfolding walk
    walk-EndsBelow n into [] v w a h = h
    walk-EndsBelow n into (o ∷ os) v w a h = elim (Bool-cases (mem o v.seen)) [
      | inl e ↦ rw e (walk-EndsBelow n into os v w a.1 h)
      | inr e ↦
          let u = unseen-lt all o v.seen a.0 e in
          rw e (
            and_walk-EndsBelow (n - 1) n _ _
              (visit-EndsBelow n (n - 1) o into v w (omega (arith, h.1)) e h.0 (omega (arith, h.1)))
              (omega arith) (λ x b. walk-EndsBelow n into os x w a.1 (b.0, omega (arith, b.1))))
    ]

    call_once-EndsBelow :
        (fuel n : ℕ) (os : List ℕ) (v : Visit S)
        → n < fuel
        → AllIn all os
        → Below n v
        → EndsBelow n (call_once method observers fuel os v)
    unfolding call_once
    call_once-EndsBelow zero n os v l a h = absurd (omega arith)
    call_once-EndsBelow (suc fuel) n os v l a h =
        walk-EndsBelow n (call_once method observers fuel) os v
          (λ m ps x lt ap b. call_once-EndsBelow fuel m ps x (omega arith) ap b) a h

    EndsBelow-EndsOnce : (n : ℕ) (w : Walk S X) → EndsBelow n w → EndsOnce w
    EndsBelow-EndsOnce n (visited v) h = h.0.0
    EndsBelow-EndsOnce n (failed e v) h = h.0.0
    EndsBelow-EndsOnce n deeper h = h

    -- Where the observers of observers are all among finitely many, also in circles, and the fuel is
    -- more than their number: a message sent by `once` comes to its end, by itself or with an
    -- exception, and no observer's method is called twice.
    pub once-EndsOnce :
        (fuel : ℕ) (os : List ℕ) (s : S)
        → length all < fuel
        → AllIn all os
        → EndsOnce (once method observers fuel os s)
    unfolding once
    once-EndsOnce fuel os s l a =
        EndsBelow-EndsOnce (length all) _
          (call_once-EndsBelow fuel (length all) os _ l a ((tt, λ n h. cc), unseen-length all []))
