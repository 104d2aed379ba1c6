-- ===== src/Http/OldRequest/Tests.antt =====
-- A request of weightless/http/_httprequest.py in a small environment.
use weightless_core.Base.{
  ◌≡◌, ◌≤◌, arith, length, ◌++◌, refl, true, false, none, some, List, [], ◌∷◌,
}
use weightless_core.Http.Regexp.{Bytes}
use weightless_core.Http.Body.{Recv, received, want_read, arrived}
use weightless_core.Http.Driver.{Env, Driver, exit, ok}
use weightless_core.Http.Driver.Run.{started}
use weightless_core.Http.OldRequest.{OldArguments, read_responses}
use weightless_core.Http.OldRequest.Reads.{
  Within, handed, read_responses_whole, read_responses_returns,
}

abbrev two_parts : List Recv
two_parts = received (97 ∷ 98 ∷ []) ∷ want_read ∷ received (99 ∷ []) ∷ received [] ∷ []

abbrev willing : Env
willing = record {
  raises = λ log. none;
  pooled = λ log. none;
  made = λ log. 7;
  error_number = λ log. 0;
  size_sent = λ log. 4;
  received = λ log. two_parts;
  gives_up = λ log. exit;
  patience = 30;
}

abbrev get_slash : OldArguments
get_slash = record {
  method = 71 ∷ 69 ∷ 84 ∷ [];
  request = 47 ∷ [];
  body = [];
  proxy = none;
  secure = false;
  handles_parts = false;
  max_response_size = some 3;
}

abbrev all_kept : Driver
all_kept = (read_responses willing get_slash 0 [] two_parts (started [])).1

abc_read :
    read_responses willing get_slash 0 [] two_parts (started [])
    ≡ (ok (97 ∷ 98 ∷ 99 ∷ []), all_kept)
unfolding read_responses
abc_read = refl

read_responses_whole_example :
    (((97 ∷ 98 ∷ 99 ∷ []) ≡ arrived two_parts) × (handed all_kept.log ≡ handed (started []).log))
    × Within (length (arrived two_parts)) (some 3)
read_responses_whole_example =
    read_responses_whole willing get_slash two_parts (started []) all_kept (97 ∷ 98 ∷ 99 ∷ [])
      abc_read

-- A request with a function for the parts.
abbrev get_parts : OldArguments
get_parts = record get_slash { handles_parts = true }

two_parts_fit : length (arrived two_parts) ≤ 3
unfolding arrived
two_parts_fit = omega arith

read_responses_returns_example :
    (body : Bytes) × (w : Driver) × (read_responses willing get_parts 0 [] two_parts (started [])
      ≡ (ok body, w))
    × ((body ≡ []) × (handed w.log ≡ handed (started []).log ++ arrived two_parts))
read_responses_returns_example =
    read_responses_returns willing get_parts (λ text log. refl) two_parts (started []) tt
      two_parts_fit

abbrev get_secure : OldArguments
get_secure = record get_slash { secure = true }
