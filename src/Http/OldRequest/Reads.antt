-- ===== src/Http/OldRequest/Reads.antt =====
-- weightless/http/_httprequest.py: the response that is read.
use weightless_core.Base.{
  ℕ, ◌+◌, ◌≤◌, ◌≡◌, ◌↔◌, refl, sym, ◌∙◌, subst, Bool, true, false, Option, none, some, List, [],
  ◌∷◌, ◌++◌, length, append-nil, append_assoc, length-append, arith, Bool-cases, Option-cases, inl,
  inr,
}
use weightless_core.Http.Regexp.{Bytes}
use weightless_core.Http.Body.{Recv, received, want_read, ssl_error, arrived}
use weightless_core.Http.Driver.{
  Env, Log, hands_part, Driver, Result, ok, raised, ◌>>=◌, asks, perform,
}
use weightless_core.Http.OldRequest.{OldArguments, exceeds, read_responses}

-- A size within the limit, if there is one.
abbrev pub Within : ℕ → Option ℕ → Type 0
Within size none = Unit
Within size (some n) = size ≤ n

-- What `handlePartialResponse` has got, in order.
unfoldable pub handed : Log → Bytes
handed [] = []
handed (hands_part text ∷ log) = handed log ++ text
handed (c ∷ log) = handed log

-- Where all that is read goes: to the function for the parts, or into the result.
abbrev pub Delivered : Bool → Bytes → Bytes → Bytes → Bytes → Bytes → Type 0
Delivered true responses all body before after = (body ≡ responses) × (after ≡ before ++ all)
Delivered false responses all body before after = (body ≡ responses ++ all) × (after ≡ before)

-- A response that is whole and within the limit, after so many bytes.
abbrev Whole : Bool → Option ℕ → ℕ → Bytes → Bytes → Bytes → Result Bytes → Driver → Type 0
Whole hands max size responses all before (ok body) w =
    Delivered hands responses all body before (handed w.log) × Within (size + length all) max
Whole hands max size responses all before (raised e) w = Unit

not_exceeded : (size : ℕ) (max : Option ℕ) → exceeds size max ≡ false → Within size max
not_exceeded size none e = tt
not_exceeded size (some n) e = ground arith

Within-append :
    (size : ℕ) (text all : Bytes) (max : Option ℕ)
    → Within ((size + length text) + length all) max
    → Within (size + length (text ++ all)) max
Within-append size text all none h = tt
Within-append size text all (some n) h = omega (arith, length-append text all)

Within-nil : (size : ℕ) (max : Option ℕ) → Within size max → Within (size + 0) max
Within-nil size none h = tt
Within-nil size (some n) h = omega arith

append-Within :
    (size : ℕ) (text all : Bytes) (max : Option ℕ)
    → Within (size + length (text ++ all)) max
    → Within ((size + length text) + length all) max
append-Within size text all none h = tt
append-Within size text all (some n) h = omega (arith, length-append text all)

exceeds-Within :
    (size : ℕ) (text all : Bytes) (max : Option ℕ)
    → Within (size + length (text ++ all)) max
    → exceeds (size + length text) max ≡ false
exceeds-Within size text all none h = refl
exceeds-Within size text all (some n) h = ground (arith, length-append text all)

zero_Within : (size : ℕ) (max : Option ℕ) → Within (0 + size) max ↔ Within size max
zero_Within size none = ((λ h. h), λ h. h)
zero_Within size (some n) = ((λ h. omega arith), λ h. omega arith)

nothing-Within : (max : Option ℕ) → Within 0 max
nothing-Within none = tt
nothing-Within (some n) = omega arith

handed_first :
    (max : Option ℕ) (size : ℕ) (responses text all before : Bytes) (r : Result Bytes) (w : Driver)
    → Whole true max (size + length text) responses all (before ++ text) r w
    → Whole true max size responses (text ++ all) before r w
handed_first max size responses text all before (ok body) w ((b, h), l) =
    ((b, h ∙ append_assoc before text all), Within-append size text all max l)
handed_first max size responses text all before (raised e) w h = tt

kept_first :
    (max : Option ℕ) (size : ℕ) (responses text all before : Bytes) (r : Result Bytes) (w : Driver)
    → Whole false max (size + length text) (responses ++ text) all before r w
    → Whole false max size responses (text ++ all) before r w
kept_first max size responses text all before (ok body) w ((b, h), l) =
    ((b ∙ append_assoc responses text all, h), Within-append size text all max l)
kept_first max size responses text all before (raised e) w h = tt

nothing-Delivered :
    (hands : Bool) (responses before : Bytes) → Delivered hands responses [] responses before before
nothing-Delivered true responses before = (refl, sym (append-nil before))
nothing-Delivered false responses before = (sym (append-nil responses), refl)

module _ (env : Env) (args : OldArguments) where
  abbrev ReadWhole : Bool → ℕ → Bytes → List Recv → Driver → Type 0
  ReadWhole hands size responses sok w =
      Whole hands args.max_response_size size responses (arrived sok) (handed w.log)
        (read_responses env args size responses sok w).0
        (read_responses env args size responses sok w).1

  read_responses-Whole :
      (hands : Bool) (size : ℕ) (responses : Bytes) (sok : List Recv) (w : Driver)
      → args.handles_parts ≡ hands
      → Within size args.max_response_size
      → ReadWhole hands size responses sok w
  unfolding read_responses arrived ◌>>=◌ asks perform handed
  read_responses-Whole hands size responses [] w a h = tt
  read_responses-Whole hands size responses (want_read ∷ sok) w a h =
      read_responses-Whole hands size responses sok w a h
  read_responses-Whole hands size responses (ssl_error ∷ sok) w a h = tt
  read_responses-Whole hands size responses (received [] ∷ sok) w a h =
      (nothing-Delivered hands responses (handed w.log), Within-nil size args.max_response_size h)
  read_responses-Whole true size responses (received (b ∷ text) ∷ sok) w a h =
      elim (Bool-cases (exceeds (size + length (b ∷ text)) args.max_response_size)) [
        | inl e ↦ rw e tt
        | inr e ↦ elim (Option-cases (env.raises (hands_part (b ∷ text) ∷ w.log))) [
          | inl q ↦
              rw (e, a, q)
                (handed_first args.max_response_size size responses (b ∷ text) (arrived sok)
                  (handed w.log) _ _
                  (read_responses-Whole true (size + length (b ∷ text)) responses sok
                    (record w { log = hands_part (b ∷ text) ∷ w.log }) a
                    (not_exceeded (size + length (b ∷ text)) args.max_response_size e)))
          | inr (x, q) ↦ rw (e, a, q) tt
        ]
      ]
  read_responses-Whole false size responses (received (b ∷ text) ∷ sok) w a h =
      elim (Bool-cases (exceeds (size + length (b ∷ text)) args.max_response_size)) [
        | inl e ↦ rw e tt
        | inr e ↦
            rw (e, a)
              (kept_first args.max_response_size size responses (b ∷ text) (arrived sok)
                (handed w.log) _ _
                (read_responses-Whole false (size + length (b ∷ text)) (responses ++ b ∷ text) sok w
                  a (not_exceeded (size + length (b ∷ text)) args.max_response_size e)))
      ]

  Whole-result :
      (hands : Bool) (max : Option ℕ) (all before : Bytes) (r : Result Bytes) (w : Driver)
      (body : Bytes) (w' : Driver)
      → ◌≡◌ {A = Result Bytes × Driver} (r, w) (ok body, w')
      → Whole hands max 0 [] all before r w
      → Delivered hands [] all body before (handed w'.log) × Within (length all) max
  Whole-result hands max all before r w body w' e h =
      let (d, l) = subst (λ x. Whole hands max 0 [] all before x.0 x.1) e h in
      (d, (zero_Within (length all) max).0 l)

  -- If the reading returns: all that the socket has given up to its end is in the result, in order, and
  -- nothing has gone to `handlePartialResponse`; or, where there is that function, all of it has gone
  -- there and the result is empty. In both cases it is within the limit.
  pub read_responses_whole :
      (sok : List Recv) (w w' : Driver) (body : Bytes)
      → read_responses env args 0 [] sok w ≡ (ok body, w')
      → Delivered args.handles_parts [] (arrived sok) body (handed w.log) (handed w'.log)
        × Within (length (arrived sok)) args.max_response_size
  read_responses_whole sok w w' body e =
      Whole-result args.handles_parts args.max_response_size (arrived sok) (handed w.log) _ _ body
        w' e
        (read_responses-Whole args.handles_parts 0 [] sok w refl
          (nothing-Within args.max_response_size))

  -- The peer closes the connection in the end.
  abbrev pub IsClosed : List Recv → Type 0
  IsClosed [] = ⊥
  IsClosed (received [] ∷ sok) = Unit
  IsClosed (received (b ∷ text) ∷ sok) = IsClosed sok
  IsClosed (want_read ∷ sok) = IsClosed sok
  IsClosed (ssl_error ∷ sok) = ⊥

  abbrev Returned : Result Bytes × Driver → Type 0
  Returned x = (body : Bytes) × (w : Driver) × (x ≡ (ok body, w))

  module _ (takes : (text : Bytes) (log : Log) → env.raises (hands_part text ∷ log) ≡ none) where
    read_responses-Returned :
        (hands : Bool) (size : ℕ) (responses : Bytes) (sok : List Recv) (w : Driver)
        → args.handles_parts ≡ hands
        → IsClosed sok
        → Within (size + length (arrived sok)) args.max_response_size
        → Returned (read_responses env args size responses sok w)
    unfolding read_responses arrived ◌>>=◌ asks perform
    read_responses-Returned hands size responses [] w a c h = absurd c
    read_responses-Returned hands size responses (want_read ∷ sok) w a c h =
        read_responses-Returned hands size responses sok w a c h
    read_responses-Returned hands size responses (ssl_error ∷ sok) w a c h = absurd c
    read_responses-Returned hands size responses (received [] ∷ sok) w a c h = (responses, w, refl)
    read_responses-Returned true size responses (received (b ∷ text) ∷ sok) w a c h =
        rw (exceeds-Within size (b ∷ text) (arrived sok) args.max_response_size h, a, takes)
          (read_responses-Returned true (size + length (b ∷ text)) responses sok
            (record w { log = hands_part (b ∷ text) ∷ w.log }) a c
            (append-Within size (b ∷ text) (arrived sok) args.max_response_size h))
    read_responses-Returned false size responses (received (b ∷ text) ∷ sok) w a c h =
        rw (exceeds-Within size (b ∷ text) (arrived sok) args.max_response_size h, a)
          (read_responses-Returned false (size + length (b ∷ text)) (responses ++ b ∷ text) sok w a
            c (append-Within size (b ∷ text) (arrived sok) args.max_response_size h))

    -- A response that the peer ends by closing, and that is within the limit, is read: the reading
    -- returns, and delivers all of it, if `handlePartialResponse` raises nothing.
    pub read_responses_returns :
        (sok : List Recv) (w : Driver)
        → IsClosed sok
        → Within (length (arrived sok)) args.max_response_size
        → (body : Bytes) × (w' : Driver) × (read_responses env args 0 [] sok w ≡ (ok body, w'))
          × Delivered args.handles_parts [] (arrived sok) body (handed w.log) (handed w'.log)
    read_responses_returns sok w c h =
        let (body, w', e) =
          read_responses-Returned args.handles_parts 0 [] sok w refl c
            ((zero_Within (length (arrived sok)) args.max_response_size).1 h) in
        (body, w', e, (read_responses_whole sok w w' body e).0)
