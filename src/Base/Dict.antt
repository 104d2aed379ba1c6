-- ===== src/Base/Dict.antt =====
-- Python's dictionaries as association lists, in the order of insertion.
use mathlib.Core.Path.{◌≡◌, refl, subst}
use mathlib.Core.Logic.{◌↔◌}
use mathlib.Core.Bool.{Bool, true}
use mathlib.Core.Option.{Option, none, some}
use mathlib.Core.List.{List, [], ◌∷◌}
use native.Mathlib.Omega.{arith}
use weightless_core.Base.Tests.{if◌then◌else◌, Bool-cases}
use mathlib.Core.Logic.{inl, inr}

-- Keys are compared by `==`.
pub record Eq {ℓ} (K : Type ℓ) : Type ℓ where
  pub same : K → K → Bool
  pub same_iff : (a b : K) → (same a b ≡ true) ↔ (a ≡ b)

pub same_refl {ℓ} : {K : Type ℓ} ⦃e : Eq K⦄ (k : K) → e.same k k ≡ true
same_refl ⦃e⦄ k = (e.same_iff k k).1 refl

module _ {ℓ} {K V : Type ℓ} ⦃e : Eq K⦄ where
  open e use {same, same_iff}

  -- `d.get(k)`
  abbrev pub get : K → List (K × V) → Option V
  get k [] = none
  get k ((j, v) ∷ d) = if same j k then some v else get k d

  -- `d[k] = v`
  abbrev pub put : K → V → List (K × V) → List (K × V)
  put k v [] = (k, v) ∷ []
  put k v ((j, w) ∷ d) = if same j k then (k, v) ∷ d else (j, w) ∷ put k v d

  -- `d.pop(k, None)`; a dictionary has one entry for a key.
  abbrev pub remove : K → List (K × V) → List (K × V)
  remove k [] = []
  remove k ((j, v) ∷ d) = if same j k then remove k d else (j, v) ∷ remove k d

  pub get-put :
      (k j : K) (v : V) (d : List (K × V))
      → get j (put k v d) ≡ (if same k j then some v else get j d)
  get-put k j v [] = refl
  get-put k j v ((i, w) ∷ d) =
      ground (arith, get-put k j v d, same_iff i k, same_iff i j, same_iff k j)

  pub get-remove :
      (k j : K) (d : List (K × V)) → get j (remove k d) ≡ (if same k j then none else get j d)
  get-remove k j [] = ground arith
  get-remove k j ((i, w) ∷ d) =
      ground (arith, get-remove k j d, same_iff i k, same_iff i j, same_iff k j)

  -- No key has two entries.
  abbrev pub IsDict : List (K × V) → Type ℓ
  IsDict [] = Unit
  IsDict ((j, v) ∷ d) = (get j d ≡ none) × IsDict d

  pub put-IsDict : (k : K) (v : V) (d : List (K × V)) → IsDict d → IsDict (put k v d)
  put-IsDict k v [] h = (refl, tt)
  put-IsDict k v ((j, w) ∷ d) h = elim (Bool-cases (same j k)) [
    | inl e ↦ rw e (subst (λ i. (get i d ≡ none) × IsDict d) ((same_iff j k).0 e) h)
    | inr e ↦
        rw e
          (ground (arith, get-put k j v d, h.0, same_iff k j, same_iff j k), put-IsDict k v d h.1)
  ]

  pub remove-IsDict : (k : K) (d : List (K × V)) → IsDict d → IsDict (remove k d)
  remove-IsDict k [] h = tt
  remove-IsDict k ((j, w) ∷ d) h = elim (Bool-cases (same j k)) [
    | inl e ↦ rw e (remove-IsDict k d h.1)
    | inr e ↦ rw e (ground (arith, get-remove k j d, h.0), remove-IsDict k d h.1)
  ]

  pub remove_absent : (k : K) (d : List (K × V)) → get k d ≡ none → remove k d ≡ d
  remove_absent k [] h = refl
  remove_absent k ((j, w) ∷ d) h = ground (arith, remove_absent k d)
