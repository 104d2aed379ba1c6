-- ===== src/Utils/Copies.antt =====
-- weightless/core/utils/_utils.py: `copyBytes` loses nothing.
use weightless_core.Base.{
  ℕ, zero, suc, ◌-◌, ◌+◌, ◌≡◌, refl, sym, ap, ◌∙◌, subst, List, [], ◌∷◌, ◌++◌, length, take, drop,
  append_assoc, append-nil, length-append, take-append-drop, arith, length-take-le, ◌≤◌, ◌⊎◌, inl,
  inr,
}
use weightless_core.Http.Regexp.{Bytes}
use weightless_core.Http.Body.Chunks.{concat}
use weightless_core.Utils.{Copied, copied, waits, if_any, after_copy, copy_loop, copy_bytes}

-- The target got so many bytes, and together with what is pushed back and what is not read they are all.
abbrev pub Copies : Bytes → ℕ → Copied → Type 0
Copies all n waits = Unit
Copies all n (copied heads back messages) =
    (concat heads ++ (concat back ++ concat messages) ≡ all) × (length (concat heads) ≡ n)

concat-if_any : (xs : Bytes) (bs : List Bytes) → concat (if_any xs bs) ≡ xs ++ concat bs
concat-if_any [] bs = refl
concat-if_any (x ∷ xs) bs = refl

concat_snoc : (xs : List Bytes) (y : Bytes) → concat (xs ++ y ∷ []) ≡ concat xs ++ y
concat_snoc [] y = append-nil y
concat_snoc (x ∷ xs) y = ap (λ z. x ++ z) (concat_snoc xs y) ∙ sym (append_assoc x (concat xs) y)

both_pushed : (tail m : Bytes) → concat (if_any tail (if_any m [])) ≡ tail ++ m
both_pushed tail m =
    concat-if_any tail (if_any m []) ∙ ap (λ x. tail ++ x) (concat-if_any m [] ∙ append-nil m)

-- After a message, enough is copied or nothing of the message is left.
enough_or_all : (k : ℕ) (m : Bytes) → (k - length (take k m) ≡ 0) ⊎ (drop k m ≡ [])
enough_or_all zero m = inl (omega arith)
enough_or_all (suc k) [] = inr refl
enough_or_all (suc k) (x ∷ m) = elim (enough_or_all k m) [
  | inl e ↦ inl (omega (arith, e))
  | inr e ↦ inr e
]

taken_from :
    (n : ℕ) (heads : List Bytes) (tail m rest : Bytes)
    → tail ≡ []
    → concat (heads ++ take n m ∷ []) ++ (drop n m ++ rest) ≡ concat heads ++ (tail ++ (m ++ rest))
taken_from n heads tail m rest e =
    ap (λ x. x ++ (drop n m ++ rest)) (concat_snoc heads (take n m))
    ∙ append_assoc (concat heads) (take n m) (drop n m ++ rest)
    ∙ ap (λ x. concat heads ++ x)
        (sym (append_assoc (take n m) (drop n m) rest) ∙ ap (λ x. x ++ rest) (take-append-drop n m))
    ∙ ap (λ t. concat heads ++ (t ++ (m ++ rest))) (sym e)

left_to_send :
    (n : ℕ) (heads : List Bytes) (m : Bytes)
    → length (concat (heads ++ take n m ∷ [])) + (n - length (take n m)) ≡ length (concat heads) + n
left_to_send n heads m =
    let p = length-append (concat heads) (take n m) in
    let q : length (concat (heads ++ take n m ∷ [])) ≡ length (concat heads ++ take n m) =
      ap length (concat_snoc heads (take n m)) in
    omega (arith, p, q, length-take-le n m)

abbrev pub IsDone : Copied → Type 0
IsDone waits = ⊥
IsDone (copied heads back messages) = Unit

left_bound : (k : ℕ) (m : Bytes) (r : ℕ) → k ≤ length m + r → k - length (take k m) ≤ r
left_bound zero m r l = omega arith
left_bound (suc k) [] r l = omega arith
left_bound (suc k) (x ∷ m) r l = omega (arith, left_bound k m r (omega arith))

module _ (respond : List Bytes → Bytes) where
  after_copy-Copies :
      (response tail : Bytes) (heads messages : List Bytes)
      → Copies
          (concat heads ++ (tail ++ concat messages))
          (length (concat heads))
          (after_copy respond response tail heads messages)
  unfolding after_copy
  after_copy-Copies [] tail heads messages = (
    ap (λ x. concat heads ++ (x ++ concat messages)) (concat-if_any tail [] ∙ append-nil tail),
    refl,
  )
  after_copy-Copies (r ∷ response) tail heads [] = tt
  after_copy-Copies (r ∷ response) tail heads (m ∷ messages) = (
    ap (λ x. concat heads ++ (x ++ concat messages)) (both_pushed tail m)
        ∙ ap (λ x. concat heads ++ x) (append_assoc tail m (concat messages)),
    refl,
  )

  copy_loop-Copies :
      (messages : List Bytes) (n : ℕ) (tail response : Bytes) (heads : List Bytes)
      → (n ≡ 0) ⊎ (tail ≡ [])
      → Copies
          (concat heads ++ (tail ++ concat messages))
          (length (concat heads) + n)
          (copy_loop respond messages n tail response heads)
  unfolding copy_loop
  copy_loop-Copies messages zero tail response heads h =
      let p : length (concat heads) ≡ length (concat heads) + 0 = omega arith in
      subst
        (λ k.
          Copies (concat heads ++ (tail ++ concat messages)) k
            (after_copy respond response tail heads messages))
        p (after_copy-Copies response tail heads messages)
  copy_loop-Copies [] (suc n) tail response heads h = tt
  copy_loop-Copies (m ∷ messages) (suc n) tail response heads h =
      let head = take (suc n) m in
      let more = heads ++ head ∷ [] in
      subst
        (λ all.
          Copies all (length (concat heads) + suc n)
            (copy_loop respond messages (suc n - length head) (drop (suc n) m) (respond more) more))
        (taken_from (suc n) heads tail m (concat messages) (is_nil h))
        (subst
          (λ k.
            Copies (concat more ++ (drop (suc n) m ++ concat messages)) k (
              copy_loop respond messages (suc n - length head) (drop (suc n) m) (respond more)
                more))
          (left_to_send (suc n) heads m)
          (copy_loop-Copies messages (suc n - length head) (drop (suc n) m) (respond more) more
            (enough_or_all (suc n) m)))
    where
      is_nil : (suc n ≡ 0) ⊎ (tail ≡ []) → tail ≡ []
      is_nil (inl e) = absurd (omega (arith, e))
      is_nil (inr e) = e

  copy_bytes-Copies :
      (n : ℕ) (messages : List Bytes) → Copies (concat messages) n (copy_bytes respond n messages)
  unfolding copy_bytes
  copy_bytes-Copies n messages =
      let p : 0 + n ≡ n = omega arith in
      subst (λ k. Copies (concat messages) k (copy_loop respond messages n [] [] [])) p
        (copy_loop-Copies messages n [] [] [] (inr refl))

  after_copy-IsDone :
      (response tail : Bytes) (heads messages : List Bytes) (m : Bytes)
      → IsDone (after_copy respond response tail heads (messages ++ m ∷ []))
  unfolding after_copy
  after_copy-IsDone [] tail heads messages m = tt
  after_copy-IsDone (r ∷ response) tail heads [] m = tt
  after_copy-IsDone (r ∷ response) tail heads (x ∷ messages) m = tt

  copy_loop-IsDone :
      (messages : List Bytes) (n : ℕ) (tail response : Bytes) (heads : List Bytes) (m : Bytes)
      → n ≤ length (concat messages)
      → IsDone (copy_loop respond (messages ++ m ∷ []) n tail response heads)
  unfolding copy_loop
  copy_loop-IsDone messages zero tail response heads m l =
      after_copy-IsDone response tail heads messages m
  copy_loop-IsDone [] (suc n) tail response heads m l = absurd (omega arith)
  copy_loop-IsDone (x ∷ messages) (suc n) tail response heads m l =
      copy_loop-IsDone messages (suc n - length (take (suc n) x)) _ _ _ m (
        left_bound (suc n) x (length (concat messages))
          (omega (arith, length-append x (concat messages))))

  -- With messages that hold enough data, and one more, `copyBytes` comes to its end: the target has got
  -- as many bytes as it was told, and these, with what is pushed back and the messages that are not
  -- read, are all the messages in their order.
  pub copy_bytes_all :
      (n : ℕ) (messages : List Bytes) (m : Bytes)
      → n ≤ length (concat messages)
      → Copies (concat (messages ++ m ∷ [])) n (copy_bytes respond n (messages ++ m ∷ []))
        × IsDone (copy_bytes respond n (messages ++ m ∷ []))
  unfolding copy_bytes
  copy_bytes_all n messages m l =
      (copy_bytes-Copies n (messages ++ m ∷ []), copy_loop-IsDone messages n [] [] [] m l)
