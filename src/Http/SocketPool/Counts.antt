-- ===== src/Http/SocketPool/Counts.antt =====
-- weightless/http/_socketpool.py: `_poolSize` counts the sockets of the pool.
use weightless_core.Base.{
  ℕ, zero, suc, ◌+◌, ◌≡◌, refl, true, Option, none, some, List, [], ◌∷◌, arith, Bool-cases,
  Option-cases, inl, inr, length, pop_last, length-pop_last, ◌≤◌, ◌<◌, is_some,
}
use weightless_core.Base.Dict.{
  Eq, get, put, remove, IsDict, put-IsDict, remove-IsDict, remove_absent,
}
use weightless_core.Http.SocketPool.{
  Pooled, Pool, Ending, ended, index_error, Limits, or_empty, reached, choice, shut_and_close,
  pop_socket, get_pooled_socket, purge_oldest, after_get, drop_chosen, drop_one,
}

module _ {K : Type 0} ⦃e : Eq K⦄ where
  open e use {same, same_iff}

  abbrev pub total : List (K × List Pooled) → ℕ
  total [] = 0
  total ((k, socks) ∷ d) = length socks + total d

  pub total-put :
      (k : K) (v : List Pooled) (d : List (K × List Pooled))
      → total (put k v d) + length (or_empty (get k d)) ≡ total d + length v
  total-put k v [] = omega arith
  total-put k v ((j, w) ∷ d) = ground (arith, total-put k v d)

  total-remove :
      (k : K) (d : List (K × List Pooled))
      → IsDict d
      → get k d ≡ some []
      → total (remove k d) ≡ total d
  total-remove k [] h g = cc
  total-remove k ((j, w) ∷ d) h g = elim (Bool-cases (same j k)) [
    | inl x ↦ ground (arith, remove_absent k d, (same_iff j k).0 x, h.0)
    | inr x ↦ ground (arith, total-remove k d h.1)
  ]

  pub get-choice :
      (n : ℕ) (d : List (K × List Pooled)) (k : K) → choice n d ≡ some k → is_some (get k d) ≡ true
  unfolding choice
  get-choice n [] k h = cc
  get-choice zero ((j, w) ∷ d) k h = ground (arith, same_iff j k)
  get-choice (suc n) ((j, w) ∷ []) k h = ground (arith, same_iff j k)
  get-choice (suc n) ((j, w) ∷ x ∷ d) k h = ground (arith, get-choice n (x ∷ d) k h)

  pub length-remove : (k : K) (d : List (K × List Pooled)) → length (remove k d) ≤ length d
  length-remove k [] = omega arith
  length-remove k ((j, w) ∷ d) = ground (arith, length-remove k d)

  pub length-remove-lt :
      (k : K) (d : List (K × List Pooled))
      → is_some (get k d) ≡ true
      → length (remove k d) < length d
  length-remove-lt k [] h = cc
  length-remove-lt k ((j, w) ∷ d) h = ground (arith, length-remove-lt k d, length-remove k d)

  choice-none : (n : ℕ) (d : List (K × List Pooled)) → choice n d ≡ none → d ≡ []
  unfolding choice
  choice-none n [] h = refl
  choice-none zero ((j, w) ∷ d) h = cc
  choice-none (suc n) ((j, w) ∷ []) h = cc
  choice-none (suc n) ((j, w) ∷ x ∷ d) h = let e = choice-none n (x ∷ d) h in cc

  -- Each key has one entry, and the number is that of the sockets.
  abbrev pub IsCounted : Pool K → Type 0
  IsCounted p = IsDict p.pool × (p.pool_size ≡ total p.pool)

  module _ (limits : Limits) where
    -- What `getPooledSocket` changes: one socket less, if it gives one.
    abbrev Popped : Pool K → Option ℕ × Pool K → Type 0
    Popped p (none, q) = IsCounted q × (q.pool_size ≡ p.pool_size)
    Popped p (some s, q) = IsCounted q × (suc q.pool_size ≡ p.pool_size)

    pop_socket-Popped :
        (k : K) (socks : Option (List Pooled)) (p : Pool K)
        → get k p.pool ≡ socks
        → IsCounted p
        → Popped p (pop_socket limits k socks p)
    unfolding pop_socket
    pop_socket-Popped k none p g h = (h, refl)
    pop_socket-Popped k (some []) p g h =
        ((remove-IsDict k p.pool h.0, ground (arith, total-remove k p.pool h.0 g, h.1)), refl)
    pop_socket-Popped k (some (s ∷ socks)) p g h =
        let t = total-put k (pop_last s socks).0 p.pool in
        let l = length-pop_last s socks in
        ((put-IsDict k _ p.pool h.0, ground (arith, t, l, g, h.1)), ground (arith, t, l, g, h.1))

    get_pooled_socket-Popped :
        (k : K) (p : Pool K) → IsCounted p → Popped p (get_pooled_socket limits k p)
    unfolding get_pooled_socket
    get_pooled_socket-Popped k p h = pop_socket-Popped k (get k p.pool) p refl h

    pub purge_oldest-IsCounted :
        (k : K) (socks : Option (List Pooled)) (p : Pool K)
        → get k p.pool ≡ socks
        → IsCounted p
        → IsCounted (purge_oldest limits k socks p)
          × ((purge_oldest limits k socks p).pool_size ≤ p.pool_size)
    unfolding purge_oldest shut_and_close
    purge_oldest-IsCounted k none p g h = (h, omega arith)
    purge_oldest-IsCounted k (some []) p g h = (h, omega arith)
    purge_oldest-IsCounted k (some (s ∷ socks)) p g h =
        elim (Bool-cases (reached limits.destination_size (length (s ∷ socks)))) [
          | inl e ↦ rw e (
            (put-IsDict k _ p.pool h.0, ground (arith, total-put k socks p.pool, g, h.1)),
            omega arith,
          )
          | inr e ↦ rw e (h, omega arith)
        ]

    -- Of `n` sockets one was dropped, or `choice` found no key.
    abbrev pub Dropped : ℕ → Ending × Pool K → Type 0
    Dropped n (ended, q) = IsCounted q × (suc q.pool_size ≡ n)
    Dropped n (index_error, q) = IsCounted q × (n ≡ 0)

    -- One more round, when the rounds after it are known to drop a socket.
    drop_chosen-Dropped :
        (loop : Pool K → Option (Ending × Pool K)) (c : Option K) (p : Pool K)
        → IsCounted p
        → (c ≡ none → p.pool ≡ [])
        → ((k : K) → c ≡ some k → is_some (get k p.pool) ≡ true)
        → ((q : Pool K)
            → IsCounted q
            → length q.pool < length p.pool
            → (x : Ending × Pool K) × (loop q ≡ some x) × Dropped q.pool_size x)
        → (x : Ending × Pool K) × (drop_chosen limits loop c p ≡ some x) × Dropped p.pool_size x
    unfolding drop_chosen get_pooled_socket pop_socket after_get shut_and_close
    drop_chosen-Dropped loop none p h e f g =
        ((index_error, p), refl, (h, ground (arith, h.1, e refl)))
    drop_chosen-Dropped loop (some k) p h e f g = elim (Option-cases (get k p.pool)) [
      | inl y ↦ let t = f k refl in cc
      | inr ([], y) ↦
          let v = pop_socket-Popped k (some []) p y h in
          let (x, r, d) =
            g (record p { pool = remove k p.pool }) v.0 (length-remove-lt k p.pool (f k refl)) in
          rw y (x, r, d)
      | inr (s ∷ socks, y) ↦
          let v = pop_socket-Popped k (some (s ∷ socks)) p y h in rw y ((ended, _), refl, v)
    ]

    pub drop_one-Dropped :
        (fuel : ℕ) (random : ℕ → ℕ) (p : Pool K)
        → IsCounted p
        → length p.pool < fuel
        → (x : Ending × Pool K) × (drop_one limits fuel random p ≡ some x) × Dropped p.pool_size x
    unfolding drop_one
    drop_one-Dropped zero random p h l = absurd (omega arith)
    drop_one-Dropped (suc fuel) random p h l =
        drop_chosen-Dropped (drop_one limits fuel (λ n. random (suc n))) (choice (random 0) p.pool)
          p h (choice-none (random 0) p.pool) (get-choice (random 0) p.pool)
          (λ q hq lq. drop_one-Dropped fuel (λ n. random (suc n)) q hq (omega arith))
