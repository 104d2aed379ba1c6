-- ===== src/Http/Driver/Ends.antt =====
-- weightless/http/_httprequest1_1.py: `_asyncSend` comes to its end.
use weightless_core.Base.{
  ℕ, zero, suc, ◌≤◌, ◌≡◌, refl, none, [], ◌∷◌, drop, length, length-drop, arith,
}
use weightless_core.Http.Regexp.{Bytes}
use weightless_core.Http.Driver.{Env, yields, sends, Driver, ok, ◌>>=◌, asks, perform, Log}
use weightless_core.Http.Driver.Request.{async_send}
use weightless_core.Http.Driver.Parts.{logged}

module _ (env : Env) (s : ℕ)
    (sending : (text : Bytes) (log : Log) → env.raises (sends s text ∷ log) ≡ none)
    (waking : (log : Log) → env.raises (yields ∷ log) ≡ none)
    (progress : (log : Log) → 1 ≤ env.size_sent log) where
  async_send_step :
      (n b : ℕ) (text : Bytes) (w : Driver)
      → async_send env (suc n) s (b ∷ text) w
        ≡ async_send env n s
            (drop (env.size_sent (sends s (b ∷ text) ∷ w.log)) (b ∷ text))
            (logged yields (logged (sends s (b ∷ text)) w))
  unfolding async_send ◌>>=◌ asks perform
  async_send_step n b text w =
      rw (sending (b ∷ text) w.log, waking (sends s (b ∷ text) ∷ w.log)) refl

  shorter :
      (k n b : ℕ) (text : Bytes)
      → 1 ≤ k
      → length (b ∷ text) ≤ suc n
      → length (drop k (b ∷ text)) ≤ n
  shorter k n b text h l = omega (arith, length-drop k (b ∷ text))

  -- A socket that takes at least one byte when it has room, and whose peer stays: the sending of a
  -- text ends by itself, in at most as many passes as the text has bytes.
  pub async_send_ends :
      (n : ℕ) (text : Bytes) (w : Driver) → length text ≤ n → (async_send env n s text w).0 ≡ ok tt
  unfolding async_send
  async_send_ends n [] w l = refl
  async_send_ends zero (b ∷ text) w l = absurd (omega arith)
  async_send_ends (suc n) (b ∷ text) w l =
      let k = env.size_sent (sends s (b ∷ text) ∷ w.log) in
      rw (async_send_step n b text w) (
        async_send_ends n (drop k (b ∷ text)) (logged yields (logged (sends s (b ∷ text)) w))
          (shorter k n b text (progress _) l))
