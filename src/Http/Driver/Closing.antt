-- ===== src/Http/Driver/Closing.antt =====
-- weightless/http/_httprequest1_1.py: `shutAndCloseOnce` releases its socket.
use weightless_core.Base.{
  not_both, ℕ, ◌≡◌, refl, subst, sym, Bool, true, false, inl, inr, Option, none, some, ◌∷◌, not,
  ◌&&◌,
}
use weightless_core.Http.Driver.{
  Env, Error, Call, closes, shuts, Closer, Driver, Result, ok, raised, ◌>>=◌, asks, perform,
  may_raise, set_closer, is_fatal, is_exception, Log,
}
use weightless_core.Http.Driver.Connection.{
  ignore, shut_once, close_once, shut_and_close, shut_and_close_once,
}
use weightless_core.Http.Driver.Keeps.{
  Keeps, Triple_if, Triple, Always, >>=-Triple, handling-Triple, perform-state,
}
use weightless_core.Http.Driver.Parts.{perform-Keeps}
use weightless_core.Http.Driver.Sockets.{
  Free, HeldBy, HeldIn, Held, HeldBy-logged, Free-closes, Free-logged, Free-Held, Sendless,
}

-- What a closer leaves behind, by itself or with an exception.
abbrev pub Released : Result (Unit {0}) → Driver → Type 0
Released (ok u) = Free
Released (raised e) = Held

pub Free-Released : (r : Result (Unit {0})) (w : Driver) → Free w → Released r w
Free-Released (ok u) w f = f
Free-Released (raised e) w f = Free-Held w.closer w f

-- An exception that `shutAndCloseOnce` ignores if it is told to.
abbrev pub IsOrdinary : Error → Type 0
IsOrdinary e = (is_exception e ≡ true) × (is_fatal e ≡ false)

abbrev OrdinaryResult : Result (Unit {0}) → Type 0
OrdinaryResult (ok u) = Unit
OrdinaryResult (raised e) = IsOrdinary e

may_raise-OrdinaryResult :
    (x : Option Error) (w : Driver)
    → ((e : Error) → x ≡ some e → IsOrdinary e)
    → OrdinaryResult (may_raise x w).0
may_raise-OrdinaryResult none w h = tt
may_raise-OrdinaryResult (some e) w h = h e refl

abbrev ClosedBy : Closer → Result (Unit {0}) → Driver → Type 0
ClosedBy k (ok u) w = HeldBy k w
ClosedBy k (raised e) w = Held w

module _ (env : Env) where
  pub perform-Free : (c : Call) → Sendless c → Keeps Free (perform env c)
  perform-Free c n = perform-Keeps env Free c (Free-logged c n)

  close_once-Free : (k : Closer) → Triple (HeldBy k) (close_once env k) (λ r. Free)
  unfolding close_once set_closer
  close_once-Free k =
      Triple_if (HeldBy k) (λ r. Free) k.closed _ _
        (λ e w h s u. elim (h s u) [ inl r ↦ r | inr o ↦ absurd (not_both k.closed e o.1) ])
        (λ e.
          >>=-Triple (HeldBy k) (Always (HeldBy k)) (λ r. Free) _ _ (λ w h. h)
            (λ u w h. subst Free (sym (perform-state env (closes k.sok) w)) (Free-closes k w h))
            (λ f w h. absurd h))

  -- The closer of `k` remembers that the socket is shut.
  abbrev ShutBy : Closer → Driver → Type 0
  ShutBy k w = HeldBy k w × (w.closer ≡ some (record k { shut = true }))

  ShutBy-shuts : (k : Closer) → Keeps (ShutBy k) (perform env (shuts k.sok))
  ShutBy-shuts k =
      perform-Keeps env (ShutBy k) (shuts k.sok)
        λ w h. (HeldBy-logged k (shuts k.sok) (λ s. refl) w h.0, h.1)

  ignore-ClosedBy :
      (b : Bool) (k : Closer) (e : Error) → Triple (ShutBy k) (ignore env b e) (ClosedBy k)
  unfolding ignore
  ignore-ClosedBy b k e =
      Triple_if (ShutBy k) (ClosedBy k) (b && is_exception e && not (is_fatal e)) _ _ (λ t w h. h.0)
        (λ t w h. subst (λ c. HeldIn c w) (sym h.1) h.0)

  shut_once-ClosedBy :
      (b : Bool) (k : Closer)
      → Triple (λ w. HeldBy k w × (w.closer ≡ some k)) (shut_once env b k) (ClosedBy k)
  unfolding shut_once set_closer
  shut_once-ClosedBy b k =
      Triple_if (λ w. HeldBy k w × (w.closer ≡ some k)) (ClosedBy k) k.shut _ _ (λ e w h. h.0)
        λ e.
          >>=-Triple _ (Always (ShutBy k)) (ClosedBy k) _ _ (λ w h. (h.0, refl))
            (λ u.
              handling-Triple (ShutBy k) (λ r. ShutBy k) (ClosedBy k) _ _ (ShutBy-shuts k)
                (λ v w h. h.0) (ignore-ClosedBy b k))
            (λ f w h. absurd h)

  shut_and_close-Released :
      (b : Bool) (c : Option Closer)
      → Triple (λ w. HeldIn c w × (w.closer ≡ c)) (shut_and_close env b c) Released
  unfolding shut_and_close
  shut_and_close-Released b none = λ w h. h.0
  shut_and_close-Released b (some k) =
      >>=-Triple _ (ClosedBy k) Released _ _ (shut_once-ClosedBy b k)
        (λ u w h.
          Free-Released (close_once env k w).0 (close_once env k w).1 (close_once-Free k w h))
        (λ e w h. h)

  pub shut_and_close_once-Released : (b : Bool) → Triple Held (shut_and_close_once env b) Released
  unfolding shut_and_close_once asks ◌>>=◌
  shut_and_close_once-Released b w h = shut_and_close-Released b w.closer w (h, refl)

  -- From here on, only an exception that can be ignored comes from `shutdown`.
  module _
      (ordinary : (s : ℕ) (log : Log) (e : Error)
        → env.raises (shuts s ∷ log) ≡ some e
        → IsOrdinary e) where
    shuts-Ordinary :
        (k : Closer)
        → Triple (ShutBy k) (perform env (shuts k.sok)) (λ r w. ShutBy k w × OrdinaryResult r)
    unfolding perform
    shuts-Ordinary k w h = (
      ShutBy-shuts k w h,
      may_raise-OrdinaryResult (env.raises (shuts k.sok ∷ w.log)) _ (ordinary k.sok w.log),
    )

    ignored :
        (k : Closer) (e : Error)
        → Triple (λ w. ShutBy k w × IsOrdinary e) (ignore env true e) (Always (HeldBy k))
    unfolding ignore
    ignored k e w (h, o) = rw (o.0, o.1) h.0

    shut_once-Always : (k : Closer) → Triple (HeldBy k) (shut_once env true k) (Always (HeldBy k))
    unfolding shut_once set_closer
    shut_once-Always k =
        Triple_if (HeldBy k) (Always (HeldBy k)) k.shut _ _ (λ e w h. h)
          λ e.
            >>=-Triple _ (Always (ShutBy k)) (Always (HeldBy k)) _ _ (λ w h. (h, refl))
              (λ u.
                handling-Triple (ShutBy k) (λ r w. ShutBy k w × OrdinaryResult r)
                  (Always (HeldBy k)) _ _ (shuts-Ordinary k) (λ v w h. h.0.0) (ignored k))
              (λ f w h. absurd h)

    shut_and_close-Free :
        (c : Option Closer) → Triple (HeldIn c) (shut_and_close env true c) (λ r. Free)
    unfolding shut_and_close
    shut_and_close-Free none = λ w h. h
    shut_and_close-Free (some k) =
        >>=-Triple (HeldBy k) (Always (HeldBy k)) (λ r. Free) _ _ (shut_once-Always k)
          (λ u. close_once-Free k) (λ f w h. absurd h)

    pub shut_and_close_once-Free : Triple Held (shut_and_close_once env true) (λ r. Free)
    unfolding shut_and_close_once asks ◌>>=◌
    shut_and_close_once-Free w h = shut_and_close-Free w.closer w h
