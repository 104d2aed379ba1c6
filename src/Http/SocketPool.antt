-- ===== src/Http/SocketPool.antt =====
-- weightless/http/_socketpool.py: `SocketPool`. A key stands for a pair of host and port, a socket for
-- its object. The clock and `random.choice` are arguments: the time, and a number that says which key
-- is chosen. Left out are the log and, with the reactor, the timer that calls `purge_unused`.
pub mod Counts
pub mod Bounds
use weightless_core.Base.{
  ℕ, zero, suc, ◌+◌, ◌-◌, Bool, true, false, Option, none, some, List, [], ◌∷◌, ◌++◌, ltb, leb,
  ◌==◌, ◌&&◌, if◌then◌else◌, length, pop_last,
}
use weightless_core.Base.Dict.{Eq, get, put, remove}

-- `(sock, putTime)`
pub record Pooled : Type 0 where
  pub sock : ℕ
  pub put_time : ℕ

-- `limits`
pub record Limits : Type 0 where
  pub total_size : Option ℕ
  pub destination_size : Option ℕ

-- `closed` has the sockets that were shut down and closed, in their order.
pub record Pool (K : Type 0) : Type 0 where
  pub pool : List (K × List Pooled)
  pub pool_size : ℕ
  pub closed : List ℕ

-- `putSocketInPool` ends, or `choice` finds no key.
pub data Ending : Type 0 where
  ended index_error : Ending

-- `limit is not None and size >= limit`
unfoldable pub reached : Option ℕ → ℕ → Bool
reached none size = false
reached (some limit) size = leb limit size

abbrev pub or_empty : Option (List Pooled) → List Pooled
or_empty none = []
or_empty (some socks) = socks

-- A key of the dictionary, the last one where the number is too large; none of an empty one.
unfoldable pub choice : {K : Type 0} → ℕ → List (K × List Pooled) → Option K
choice n [] = none
choice zero ((k, socks) ∷ d) = some k
choice (suc n) ((k, socks) ∷ []) = some k
choice (suc n) ((k, socks) ∷ x ∷ d) = choice n (x ∷ d)

-- `list.remove` takes the first equal pair.
unfoldable pub remove_pooled : Pooled → List Pooled → List Pooled
remove_pooled s [] = []
remove_pooled s (t ∷ socks) =
    if t.sock == s.sock && t.put_time == s.put_time then socks else t ∷ remove_pooled s socks

module _ {K : Type 0} ⦃e : Eq K⦄ (limits : Limits) where
  -- `_shutAndCloseIgnorant`
  unfoldable pub shut_and_close : ℕ → Pool K → Pool K
  shut_and_close sock p = record p { closed = p.closed ++ sock ∷ [] }

  unfoldable pub pop_socket : K → Option (List Pooled) → Pool K → Option ℕ × Pool K
  pop_socket key none p = (none, p)
  pop_socket key (some []) p = (none, record p { pool = remove key p.pool })
  pop_socket key (some (s ∷ socks)) p = (
    some (pop_last s socks).1.sock,
    record p { pool = put key (pop_last s socks).0 p.pool; pool_size = p.pool_size - 1 },
  )

  unfoldable pub get_pooled_socket : K → Pool K → Option ℕ × Pool K
  unfolding pop_socket
  get_pooled_socket key p = pop_socket key (get key p.pool) p

  -- The first half of `_purgeSocksIfOversized`: the oldest socket of the destination goes.
  unfoldable pub purge_oldest : K → Option (List Pooled) → Pool K → Pool K
  unfolding shut_and_close reached
  purge_oldest key none p = p
  purge_oldest key (some []) p = p
  purge_oldest key (some (s ∷ socks)) p =
      if reached limits.destination_size (length (s ∷ socks))
      then shut_and_close s.sock
          (record p { pool = put key socks p.pool; pool_size = p.pool_size - 1 })
      else p

  unfoldable pub purge_destination : K → Pool K → Pool K
  unfolding purge_oldest
  purge_destination key p = purge_oldest key (get key p.pool) p

  -- The second half: a socket of a random destination goes. One unit of fuel for each `choice`.
  unfoldable pub after_get :
      (Pool K → Option (Ending × Pool K)) → Option ℕ × Pool K → Option (Ending × Pool K)
  unfolding shut_and_close
  after_get loop (none, p) = loop p
  after_get loop (some sock, p) = some (ended, shut_and_close sock p)

  unfoldable pub drop_chosen :
      (Pool K → Option (Ending × Pool K)) → Option K → Pool K → Option (Ending × Pool K)
  unfolding after_get get_pooled_socket
  drop_chosen loop none p = some (index_error, p)
  drop_chosen loop (some key) p = after_get loop (get_pooled_socket key p)

  unfoldable pub drop_one : ℕ → (ℕ → ℕ) → Pool K → Option (Ending × Pool K)
  unfolding drop_chosen choice
  drop_one zero random p = none
  drop_one (suc fuel) random p =
      drop_chosen (drop_one fuel (λ n. random (suc n))) (choice (random 0) p.pool) p

  -- With fuel for each key and one more.
  unfoldable pub purge_total : (ℕ → ℕ) → Pool K → Option (Ending × Pool K)
  unfolding drop_one reached
  purge_total random p =
      if reached limits.total_size p.pool_size
      then drop_one (suc (length p.pool)) random p
      else some (ended, p)

  unfoldable pub add_socket : K → ℕ → ℕ → Pool K → Pool K
  add_socket key sock now p = record p {
    pool =
        put key (or_empty (get key p.pool) ++ record { sock = sock; put_time = now } ∷ []) p.pool;
    pool_size = suc p.pool_size;
  }

  unfoldable pub then_add : K → ℕ → ℕ → Option (Ending × Pool K) → Option (Ending × Pool K)
  unfolding add_socket
  then_add key sock now none = none
  then_add key sock now (some (index_error, p)) = some (index_error, p)
  then_add key sock now (some (ended, p)) = some (ended, add_socket key sock now p)

  unfoldable pub put_socket_in_pool : K → ℕ → ℕ → (ℕ → ℕ) → Pool K → Option (Ending × Pool K)
  unfolding then_add purge_total purge_destination
  put_socket_in_pool key sock now random p =
      then_add key sock now (purge_total random (purge_destination key p))

  -- The body of `unusedTimeout` behind its timer: the sockets that were put in too long ago go. The
  -- lists are read as they were before.
  unfoldable pub purge_destination_idle : ℕ → ℕ → K → List Pooled → Pool K → Pool K
  unfolding remove_pooled shut_and_close
  purge_destination_idle timeout now key [] p = p
  purge_destination_idle timeout now key (s ∷ socks) p =
      purge_destination_idle timeout now key socks (
        if ltb (s.put_time + timeout) now
        then shut_and_close s.sock (record p {
          pool = put key (remove_pooled s (or_empty (get key p.pool))) p.pool;
          pool_size = p.pool_size - 1;
        })
        else p)

  unfoldable pub purge_idle : ℕ → ℕ → List (K × List Pooled) → Pool K → Pool K
  unfolding purge_destination_idle
  purge_idle timeout now [] p = p
  purge_idle timeout now ((key, socks) ∷ d) p =
      purge_idle timeout now d (purge_destination_idle timeout now key socks p)

  unfoldable pub purge_unused : ℕ → ℕ → Pool K → Pool K
  unfolding purge_idle
  purge_unused timeout now p = purge_idle timeout now p.pool p
