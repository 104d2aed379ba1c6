-- ===== src/Http/Chunked/Refines.antt =====
-- weightless/http/_httprequest1_1.py: the three generator functions, run by the loop of `compose`,
-- are the machine of Chunked.Decoder.
use weightless_core.Base.{
  ℕ, zero, suc, ◌≡◌, false, Option, none, some, [], ◌∷◌, ◌++◌, arith, Bool-cases, Option-cases, inl,
  inr, ◌==◌, ◌<◌, if◌then◌else◌,
}
use weightless_core.Compose.Machine.{
  Machine, Answer, paused, returns, raises, at_response, sends, run, resume, after, on_outcome,
}
use weightless_core.Http.Regexp.{Bytes, chunk_header, trailers, int16}
use weightless_core.Http.Chunked.Code.{
  Code, Value, bytes, Exception, value_error, one_start, one_header, one_body, trailers_wait,
  de_start, de_one, de_sent, de_trailers, code, Result, one_body_step, one_size_step,
  one_header_step,
}
use weightless_core.Http.Chunked.Code
use weightless_core.Http.Chunked.Decoder.{
  Decoder, in_header, in_body, handed_out, in_trailers, Report, wants, hands_out, ends, excess,
  read_header, read_body, read_trailers, receive,
}

-- The stack and the messages of the composed generator, at each place of the decoding.
unfoldable pub machine : Decoder → Machine code
machine (in_header b) = record {
  generators = one_header b ∷ de_one ∷ [];
  messages = [];
  exception = none;
}
machine (in_body n b) = record {
  generators = one_body n b ∷ de_one ∷ [];
  messages = [];
  exception = none;
}
machine (handed_out b) = record {
  generators = de_sent ∷ [];
  messages = some (bytes b) ∷ [];
  exception = none;
}
machine (in_trailers b) = record {
  generators = trailers_wait b ∷ de_trailers ∷ [];
  messages = [];
  exception = none;
}

-- How a run of the composed generator tells the report.
unfoldable pub answer : Report → Answer code
unfolding machine
answer (wants d) = paused (at_response none) (machine d)
answer (hands_out chunk rest) =
    paused (at_response (some (bytes chunk))) (machine (handed_out rest))
answer ends = returns none
answer excess = raises value_error

-- What the caller sends: the data, or `None` where the generator has just handed out a chunk.
unfoldable pub resumed : Decoder → Bytes → Machine code
unfolding machine resume
resumed (in_header b) d =
    resume code (at_response none) (machine (in_header b)) (sends (some (bytes d)))
resumed (in_body n b) d =
    resume code (at_response none) (machine (in_body n b)) (sends (some (bytes d)))
resumed (in_trailers b) d =
    resume code (at_response none) (machine (in_trailers b)) (sends (some (bytes d)))
resumed (handed_out b) d =
    resume code (at_response (some (bytes d))) (machine (handed_out b)) (sends none)

abbrev two_frames : Code → Code → Bytes → Machine code
two_frames g h b = record {
  generators = g ∷ h ∷ [];
  messages = some (bytes b) ∷ [];
  exception = none;
}

run-read_trailers :
    (fuel : ℕ) (b d : Bytes)
    → run code (suc (suc (suc fuel))) false (two_frames (trailers_wait b) de_trailers d)
      ≡ some (answer (read_trailers (b ++ d)))
unfolding run read_trailers Code.send answer
run-read_trailers fuel b d = elim (Option-cases (trailers (b ++ d))) [
  | inl e ↦ ground arith
  | inr ((fields, []), e) ↦ ground arith
  | inr ((fields, c ∷ rest), e) ↦ ground arith
]

-- The rest of a run, when `_oneChunk` has been resumed with the outcome `o`.
abbrev one_chunk_then : ℕ → Result → Option (Answer code)
one_chunk_then fuel o = after code (run code fuel false) (on_outcome code false (de_one ∷ []) [] o)

one_body_step-read_body :
    (fuel n : ℕ) (b : Bytes)
    → 0 < n
    → one_chunk_then (suc fuel) (one_body_step n b) ≡ some (answer (read_body n b))
unfolding run after on_outcome one_body_step read_body Code.send answer
one_body_step-read_body fuel zero b h = absurd (omega arith)
one_body_step-read_body fuel (suc n) [] h = ground arith
one_body_step-read_body fuel (suc n) (c ∷ b) h = ground arith

one_size_step-read :
    (fuel n : ℕ) (b : Bytes)
    → one_chunk_then (suc (suc (suc (suc (suc fuel))))) (one_size_step n b)
      ≡ some (answer (if n == 0 then read_trailers b else read_body n b))
unfolding one_size_step run after on_outcome Code.send
one_size_step-read fuel n b = elim (Bool-cases (n == 0)) [
  | inl e ↦ rw e (run-read_trailers fuel [] b)
  | inr e ↦ rw e (one_body_step-read_body (suc (suc (suc (suc fuel)))) n b (ground arith))
]

one_header_step-read_header :
    (fuel : ℕ) (b : Bytes)
    → one_chunk_then (suc (suc (suc (suc (suc fuel))))) (one_header_step b)
      ≡ some (answer (read_header b))
unfolding one_header_step read_header after on_outcome answer
one_header_step-read_header fuel b = elim (Option-cases (chunk_header b)) [
  | inl e ↦ ground arith
  | inr ((digits, rest), e) ↦ ground (arith, one_size_step-read fuel (int16 digits) rest)
]

-- Inside a chunk the size is positive: an empty chunk is the end of the body.
abbrev pub IsValid : Decoder → Type 0
IsValid (in_body n b) = 0 < n
IsValid d = Unit

-- Enough passes of the loop for one `send`, and any number more.
abbrev pub passes : ℕ → ℕ
passes fuel = suc (suc (suc (suc (suc (suc (suc (suc fuel)))))))

-- What `g.send(…)` does on the generator of `_deChunk`, wherever it stands: with eight passes of the
-- loop or more it comes to an answer, the answer is the decoder's report, and the generators stand
-- where the report says.
pub resumed-receive :
    (fuel : ℕ) (d : Decoder) (b : Bytes)
    → IsValid d
    → run code (passes fuel) false (resumed d b) ≡ some (answer (receive d b))
unfolding run after on_outcome resumed receive Code.send
resumed-receive fuel (in_header c) b v = one_header_step-read_header (suc (suc fuel)) (c ++ b)
resumed-receive fuel (in_body n c) b v =
    one_body_step-read_body (suc (suc (suc (suc (suc (suc fuel)))))) n (c ++ b) v
resumed-receive fuel (handed_out c) b v = one_header_step-read_header fuel c
resumed-receive fuel (in_trailers c) b v = run-read_trailers (suc (suc (suc (suc (suc fuel))))) c b
