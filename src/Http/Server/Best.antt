-- ===== src/Http/Server/Best.antt =====
-- weightless/http/_httpserver.py: the server chooses the supported encoding that the client likes best.
use weightless_core.Base.{
  not_both, ℕ, ◌≤◌, ◌≡◌, refl, sym, ◌∙◌, subst, Bool, true, false, none, some, List, [], ◌∷◌, leb,
  All, arith, Bool-cases, ◌⊎◌, inl, inr,
}
use weightless_core.Http.Regexp.{Bytes}
use weightless_core.Http.Headers.{one_value}
use weightless_core.Http.Server.Accept.{
  Accepted, split, accept_all, insert_accepted, sort_accepted, parse_accept_encoding,
  first_supported, determine_content_encoding,
}

-- An entry of the list.
abbrev pub IsIn : Accepted → List Accepted → Type 0
IsIn a [] = ⊥
IsIn a (b ∷ bs) = (a ≡ b) ⊎ IsIn a bs

abbrev AtMost : ℕ → Accepted → Type 0
AtMost q a = a.1 ≤ q

-- From the highest q-value to the lowest.
abbrev IsSorted : List Accepted → Type 0
IsSorted [] = Unit
IsSorted (a ∷ bs) = All (AtMost a.1) bs × IsSorted bs

-- No supported encoding has a higher q-value.
abbrev pub IsBest : (Bytes → Bool) → ℕ → Accepted → Type 0
IsBest supported q a = supported a.0 ≡ true → a.1 ≤ q

module _ (P : Accepted → Type 0) where
  All-insert_accepted :
      (a : Accepted) (bs : List Accepted) → P a → All P bs → All P (insert_accepted a bs)
  unfolding insert_accepted
  All-insert_accepted a [] p h = (p, tt)
  All-insert_accepted a (b ∷ bs) p h = elim (Bool-cases (leb b.1 a.1)) [
    | inl e ↦ rw e (p, h)
    | inr e ↦ rw e (h.0, All-insert_accepted a bs p h.1)
  ]

  insert_accepted-All :
      (a : Accepted) (bs : List Accepted) → All P (insert_accepted a bs) → P a × All P bs
  unfolding insert_accepted
  insert_accepted-All a [] = λ h. h
  insert_accepted-All a (b ∷ bs) = elim (Bool-cases (leb b.1 a.1)) [
    | inl e ↦ rw e (λ h. h)
    | inr e ↦ rw e (λ h. let (p, k) = insert_accepted-All a bs h.1 in (p, (h.0, k)))
  ]

  sort_accepted-All : (bs : List Accepted) → All P (sort_accepted bs) → All P bs
  unfolding sort_accepted
  sort_accepted-All [] h = tt
  sort_accepted-All (a ∷ bs) h =
      let (p, k) = insert_accepted-All a (sort_accepted bs) h in (p, sort_accepted-All bs k)

  All-weaken :
      (Q : Accepted → Type 0) (bs : List Accepted)
      → ((a : Accepted) → P a → Q a)
      → All P bs
      → All Q bs
  All-weaken Q [] f h = tt
  All-weaken Q (b ∷ bs) f h = (f b h.0, All-weaken Q bs f h.1)

insert_accepted-IsSorted :
    (a : Accepted) (bs : List Accepted) → IsSorted bs → IsSorted (insert_accepted a bs)
unfolding insert_accepted
insert_accepted-IsSorted a [] s = (tt, tt)
insert_accepted-IsSorted a (b ∷ bs) s = elim (Bool-cases (leb b.1 a.1)) [
  | inl e ↦
      rw e ((ground arith, All-weaken (AtMost b.1) (AtMost a.1) bs (λ c h. ground arith) s.0), s)
  | inr e ↦
      rw e (
        All-insert_accepted (AtMost b.1) a bs (ground arith) s.0,
        insert_accepted-IsSorted a bs s.1,
      )
]

sort_accepted-IsSorted : (bs : List Accepted) → IsSorted (sort_accepted bs)
unfolding sort_accepted
sort_accepted-IsSorted [] = tt
sort_accepted-IsSorted (a ∷ bs) =
    insert_accepted-IsSorted a (sort_accepted bs) (sort_accepted-IsSorted bs)

insert_accepted-IsIn :
    (c a : Accepted) (bs : List Accepted) → IsIn c (insert_accepted a bs) → (c ≡ a) ⊎ IsIn c bs
unfolding insert_accepted
insert_accepted-IsIn c a [] = λ i. i
insert_accepted-IsIn c a (b ∷ bs) = elim (Bool-cases (leb b.1 a.1)) [
  | inl e ↦ rw e (λ i. i)
  | inr e ↦ rw e (λ i. elim i [
    | inl x ↦ inr (inl x)
    | inr j ↦ elim (insert_accepted-IsIn c a bs j) [ inl x ↦ inl x | inr k ↦ inr (inr k) ]
  ])
]

sort_accepted-IsIn : (c : Accepted) (bs : List Accepted) → IsIn c (sort_accepted bs) → IsIn c bs
unfolding sort_accepted
sort_accepted-IsIn c [] i = i
sort_accepted-IsIn c (a ∷ bs) i = elim (insert_accepted-IsIn c a (sort_accepted bs) i) [
  | inl x ↦ inl x
  | inr j ↦ inr (sort_accepted-IsIn c bs j)
]

-- The encoding is supported, is among those that the client accepts, and none that is supported has a
-- higher q-value.
abbrev pub Best : (Bytes → Bool) → List Accepted → Bytes → Type 0
Best supported accepted e =
    (supported e ≡ true) × ((q : ℕ) × IsIn (e, q) accepted × All (IsBest supported q) accepted)

here :
    (supported : Bytes → Bool) (encoding : Bytes) (q : ℕ) (bs : List Accepted) (e : Bytes)
    → IsSorted ((encoding, q) ∷ bs)
    → supported encoding ≡ true
    → some encoding ≡ some e
    → Best supported ((encoding, q) ∷ bs) e
here supported encoding q bs e s t h =
    let x : encoding ≡ e = cc in
    subst (Best supported ((encoding, q) ∷ bs)) x (
      t,
      (
        q,
        inl refl,
        ((λ u. omega arith), All-weaken (AtMost q) (IsBest supported q) bs (λ a l u. l) s.0),
      ),
    )

first_here :
    (supported : Bytes → Bool) (encoding : Bytes) (q : ℕ) (bs : List Accepted)
    → supported encoding ≡ true
    → first_supported supported ((encoding, q) ∷ bs) ≡ some encoding
unfolding first_supported
first_here supported encoding q bs t = rw t refl

first_later :
    (supported : Bytes → Bool) (encoding : Bytes) (q : ℕ) (bs : List Accepted)
    → supported encoding ≡ false
    → first_supported supported ((encoding, q) ∷ bs) ≡ first_supported supported bs
unfolding first_supported
first_later supported encoding q bs t = rw t refl

first_supported-Best :
    (supported : Bytes → Bool) (bs : List Accepted) (e : Bytes)
    → IsSorted bs
    → first_supported supported bs ≡ some e
    → Best supported bs e
unfolding first_supported
first_supported-Best supported [] e s h = cc
first_supported-Best supported ((encoding, q) ∷ bs) e s h = elim (Bool-cases (supported encoding)) [
  | inl t ↦ here supported encoding q bs e s t (sym (first_here supported encoding q bs t) ∙ h)
  | inr t ↦
      let (t', best) =
        first_supported-Best supported bs e s.1 (sym (first_later supported encoding q bs t) ∙ h) in
      (t', (best.0, inr best.1, ((λ u. absurd (not_both (supported encoding) u t)), best.2)))
]

determined_by :
    (supported : Bytes → Bool) (v : Bytes) (accepted : List Accepted)
    → accept_all none (split b',' v) ≡ some accepted
    → determine_content_encoding supported (some (one_value v))
      ≡ some (first_supported supported (sort_accepted accepted))
unfolding determine_content_encoding parse_accept_encoding
determined_by supported v accepted a =
    rw (a, determine_content_encoding, parse_accept_encoding) refl

-- Of the encodings that the client accepts, and that can be read, the server chooses one that it
-- supports, with the highest q-value of those.
pub determine_content_encoding-Best :
    (supported : Bytes → Bool) (v e : Bytes) (accepted : List Accepted)
    → accept_all none (split b',' v) ≡ some accepted
    → determine_content_encoding supported (some (one_value v)) ≡ some (some e)
    → Best supported accepted e
determine_content_encoding-Best supported v e accepted a h =
    let found : some (first_supported supported (sort_accepted accepted)) ≡ some (some e) =
      sym (determined_by supported v accepted a) ∙ h in
    let first : first_supported supported (sort_accepted accepted) ≡ some e = cc in
    let (t, best) =
      first_supported-Best supported (sort_accepted accepted) e (sort_accepted-IsSorted accepted)
        first in
    (
      t,
      (
        best.0,
        sort_accepted-IsIn (e, best.0) accepted best.1,
        sort_accepted-All (IsBest supported best.0) accepted best.2,
      ),
    )
