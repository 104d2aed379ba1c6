-- ===== src/Utils.antt =====
-- weightless/core/utils/_utils.py: `copyBytes` and `readRe`, generators that get their messages from a list
-- and wait at its end.
pub mod Copies
pub mod Tests
use weightless_core.Base.{
  ℕ, zero, suc, ◌-◌, Bool, true, false, Option, none, some, List, [], ◌∷◌, ◌++◌, ltb, if◌then◌else◌,
  length, take, drop,
}
use weightless_core.Http.Regexp.{Bytes}

-- `copied`: what the target got, what is pushed back, and the messages that are not read.
pub data Copied : Type 0 where
  copied : List Bytes → List Bytes → List Bytes → Copied
  waits : Copied

abbrev pub if_any : Bytes → List Bytes → List Bytes
if_any [] bs = bs
if_any (c ∷ cs) bs = (c ∷ cs) ∷ bs

-- `target.send`: its response to the last of what it got, where empty data stands for none.
module _ (respond : List Bytes → Bytes) where
  -- Behind the loop: a response is yielded, and the message that comes back is pushed back.
  unfoldable pub after_copy : Bytes → Bytes → List Bytes → List Bytes → Copied
  after_copy [] tail heads messages = copied heads (if_any tail []) messages
  after_copy (r ∷ response) tail heads [] = waits
  after_copy (r ∷ response) tail heads (m ∷ messages) =
      copied heads (if_any tail (if_any m [])) messages

  -- The loop, with the messages to come.
  unfoldable pub copy_loop : List Bytes → ℕ → Bytes → Bytes → List Bytes → Copied
  unfolding after_copy
  copy_loop messages zero tail response heads = after_copy response tail heads messages
  copy_loop [] (suc n) tail response heads = waits
  copy_loop (m ∷ messages) (suc n) tail response heads =
      let head = take (suc n) m in
      let more = heads ++ head ∷ [] in
      copy_loop messages (suc n - length head) (drop (suc n) m) (respond more) more

  -- `copyBytes(tosend, target)`
  unfoldable pub copy_bytes : ℕ → List Bytes → Copied
  unfolding copy_loop
  copy_bytes tosend messages = copy_loop messages tosend [] [] []

-- `read`: the groups, and the rest of the data, which is pushed back if there is any.
pub data ReadRe (A : Type 0) : Type 0 where
  read : A → Bytes → ReadRe A
  too_long no_match reads_more : ReadRe A

abbrev pub exceeds : Option ℕ → ℕ → Bool
exceeds none n = false
exceeds (some zero) n = false
exceeds (some (suc m)) n = ltb (suc m) n

module _ {A : Type 0} (match_at : Bytes → Option (A × Bytes)) (maximum : Option ℕ) where
  -- `readRe`, with the message so far; a message is `None` at the end of the data.
  unfoldable pub read_re : List (Option Bytes) → Bytes → ReadRe A
  read_re [] message = if exceeds maximum (length message) then too_long else reads_more
  read_re (none ∷ messages) message =
      if exceeds maximum (length message) then too_long else no_match
  read_re (some m ∷ messages) message =
      let more = read_re messages (message ++ m) in
      if exceeds maximum (length message)
      then too_long
      else elim (match_at (message ++ m)) [ none ↦ more | some (args, rest) ↦ read args rest ]
