-- ===== src/Worker/Recorder.antt =====
-- src/worker/attempt-recorder.ts: the attempts of a delivery, with a repository that has
-- `recordAttempt` and `findByDeliveryId`, and whose calls succeed. The identifier, the time and the
-- response are left out: the repository is not given them.
use queue_forge.Base.{
  [], is_empty, ◌∷◌, if◌then◌else◌, ◌+◌, some, suc, ◌≡◌, ◌++◌, arith, none, Text, List, Option, ℕ,
  length,
}

-- What is handed over: the latency, a status code and, for a failure, the error's message.
pub record Given : Type 0 where
  pub latency_ms : ℕ
  pub status_code : Option ℕ
  pub error : Option Text

pub record Recorded : Type 0 where
  pub number : ℕ
  pub response_status : ℕ
  pub response_time_ms : ℕ
  pub error_message : Option Text

-- `statusCode || (error ? 500 : 200)`.
status_of : Option ℕ → Option Text → ℕ
status_of (some (suc c)) error = suc c
status_of _ none = 200
status_of _ (some e) = 500

-- An empty message counts as none.
message_of : Option Text → Option Text
message_of none = none
message_of (some m) = if is_empty m then none else some m

unfoldable pub record_attempt : Given → List Recorded → List Recorded
unfolding status_of message_of
record_attempt g existing =
    existing
    ++ record {
      number = suc (length existing);
      response_status = status_of g.status_code g.error;
      response_time_ms = g.latency_ms;
      error_message = message_of g.error;
    }
      ∷ []

unfoldable pub record_success : ℕ → List Recorded → List Recorded
unfolding record_attempt
record_success latency existing =
    record_attempt (record { latency_ms = latency; status_code = none; error = none }) existing

unfoldable pub record_failure : ℕ → Option ℕ → Text → List Recorded → List Recorded
unfolding record_attempt
record_failure latency status error existing =
    record_attempt (record { latency_ms = latency; status_code = status; error = some error })
      existing

-- The numbers of the attempts are 1, 2, 3 and so on.
IsNumbered : ℕ → List Recorded → Type 0
IsNumbered n [] = Unit {0}
IsNumbered n (r ∷ rs) = (r.number ≡ n) × IsNumbered (suc n) rs

IsNumbered-append :
    (n : ℕ) (rs : List Recorded) (r : Recorded)
    → IsNumbered n rs
    → r.number ≡ n + length rs
    → IsNumbered n (rs ++ r ∷ [])
unfolding IsNumbered
IsNumbered-append n [] r h e = (omega (arith, e), tt)
IsNumbered-append n (s ∷ rs) r (e', h) e = (e', IsNumbered-append (suc n) rs r h (omega (arith, e)))

-- Every recorded attempt, a success or a failure, keeps the attempts numbered in their order from 1
-- on.
record_attempt-IsNumbered :
    (g : Given) (rs : List Recorded) → IsNumbered 1 rs → IsNumbered 1 (record_attempt g rs)
unfolding record_attempt
record_attempt-IsNumbered g rs h = IsNumbered-append 1 rs _ h (omega arith)
