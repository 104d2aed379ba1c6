-- ===== src/Http/SocketPool/Bounds.antt =====
-- weightless/http/_socketpool.py: what `putSocketInPool` promises.
use weightless_core.Base.{
  ℕ, suc, ◌≡◌, ◌≢◌, refl, Option, none, some, List, [], ◌∷◌, ◌++◌, arith, Bool-cases, Option-cases,
  inl, inr, length, length-append, ◌≤◌, leb, pop_last-append,
}
use weightless_core.Base.Dict.{Eq, get, get-put, put-IsDict, same_refl}
use weightless_core.Http.SocketPool.{
  Pooled, Pool, Ending, ended, index_error, Limits, or_empty, reached, get_pooled_socket,
  pop_socket, purge_destination, purge_total, add_socket, then_add, put_socket_in_pool,
}
use weightless_core.Http.SocketPool.Counts.{
  IsCounted, total-put, Dropped, drop_one-Dropped, purge_oldest-IsCounted,
}

-- The number of sockets is within the limit, if there is one.
abbrev pub Within : Option ℕ → ℕ → Type 0
Within none n = Unit
Within (some limit) n = n ≤ limit

Within-le : (limit : Option ℕ) {m n : ℕ} → m ≤ n → Within limit n → Within limit m
Within-le none h w = tt
Within-le (some limit) h w = omega arith

module _ {K : Type 0} ⦃e : Eq K⦄ (limits : Limits) where
  purge_destination-IsCounted :
      (k : K) (p : Pool K)
      → IsCounted p
      → IsCounted (purge_destination limits k p)
        × ((purge_destination limits k p).pool_size ≤ p.pool_size)
  unfolding purge_destination
  purge_destination-IsCounted k p h = purge_oldest-IsCounted limits k (get k p.pool) p refl h

  after_drop :
      {n m : ℕ} (x : Ending × Pool K)
      → Dropped limits n x
      → m ≤ n
      → n ≤ m
      → m ≢ 0
      → (q : Pool K) × (x ≡ (ended, q)) × IsCounted q × (suc q.pool_size ≤ m)
  after_drop (ended, q) d l w z = (q, refl, d.0, ground (arith, d.1))
  after_drop (index_error, q) d l w z = absurd (z (ground (arith, d.1)))

  purge_total_room :
      (random : ℕ → ℕ) (p : Pool K)
      → IsCounted p
      → limits.total_size ≢ some 0
      → Within limits.total_size p.pool_size
      → (q : Pool K) × (purge_total limits random p ≡ some (ended, q))
        × IsCounted q
        × Within limits.total_size (suc q.pool_size)
  unfolding purge_total reached
  purge_total_room random p h z w = elim (Option-cases limits.total_size) [
    | inl e ↦ rw e (p, refl, h, tt)
    | inr (m, e) ↦ rw e (elim (Bool-cases (leb m p.pool_size)) [
      | inl b ↦
          let (x, r, d) = drop_one-Dropped limits (suc (length p.pool)) random p h (omega arith) in
          let (q, y, c, room) =
            after_drop x d (ground arith) (rw (e, Within) at w) (λ y. z (ground arith)) in
          rw b (q, rw (r, y), c, room)
      | inr b ↦ rw b (p, refl, h, ground arith)
    ])
  ]

  add_socket-IsCounted :
      (k : K) (sock now : ℕ) (p : Pool K) → IsCounted p → IsCounted (add_socket limits k sock now p)
  unfolding add_socket
  add_socket-IsCounted k sock now p h = (
    put-IsDict k _ p.pool h.0,
    ground (
      arith,
      total-put k (or_empty (get k p.pool) ++ record { sock = sock; put_time = now } ∷ []) p.pool,
      length-append (or_empty (get k p.pool)) (record { sock = sock; put_time = now } ∷ []),
      h.1,
    ),
  )

  pop_added :
      (k : K) (socks : List Pooled) (x : Pooled) (p : Pool K)
      → (pop_socket limits k (some (socks ++ x ∷ [])) p).0 ≡ some x.sock
  unfolding pop_socket
  pop_added k [] x p = refl
  pop_added k (s ∷ socks) x p = rw (pop_last-append s socks x)

  get-add :
      (k : K) (sock now : ℕ) (p : Pool K)
      → (get_pooled_socket limits k (add_socket limits k sock now p)).0 ≡ some sock
  unfolding add_socket get_pooled_socket
  get-add k sock now p =
      rw (get-put, same_refl k)
        (pop_added k (or_empty (get k p.pool)) (record { sock = sock; put_time = now }) _)

  added-Within :
      (k : K) (sock now : ℕ) (p : Pool K)
      → Within limits.total_size (suc p.pool_size)
      → Within limits.total_size (add_socket limits k sock now p).pool_size
  unfolding add_socket
  added-Within k sock now p w = w

  -- With a pool that counts its sockets and is within the limit, and a limit that is not zero:
  -- `putSocketInPool` comes to its end for every sequence of random choices. Then the pool still
  -- counts its sockets and is within the limit, and the socket that was put in is the next one that
  -- `getPooledSocket` gives for its destination.
  pub put_socket_in_pool_lem :
      (k : K) (sock now : ℕ) (random : ℕ → ℕ) (p : Pool K)
      → IsCounted p
      → limits.total_size ≢ some 0
      → Within limits.total_size p.pool_size
      → (q : Pool K) × (put_socket_in_pool limits k sock now random p ≡ some (ended, q))
        × IsCounted q
        × Within limits.total_size q.pool_size
        × ((get_pooled_socket limits k q).0 ≡ some sock)
  unfolding put_socket_in_pool then_add
  put_socket_in_pool_lem k sock now random p h z w =
      let (c, le) = purge_destination-IsCounted k p h in
      let (q, e, d, room) =
        purge_total_room random (purge_destination limits k p) c z
          (Within-le limits.total_size le w) in
      (
        add_socket limits k sock now q,
        rw e,
        add_socket-IsCounted k sock now q d,
        added-Within k sock now q room,
        get-add k sock now q,
      )
