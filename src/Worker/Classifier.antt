-- ===== src/Worker/Classifier.antt =====
-- src/worker/error-classifier.ts: the worker's own view of failures. Texts are compared on the
-- ASCII letters.
use queue_forge.Delivery.Failure.Laws.{from_status_code_retryable, retry_code}
use mathlib.Core.Option.{some_inj}
use queue_forge.Delivery.Failure
use queue_forge.Delivery.Failure.{from_status_code, Failure}
use queue_forge.Base.{
  Bool, Option, Text, arith, codes, false, if◌then◌else◌, includes, leb, lower, ltb, none, or_else,
  or_nonzero, or_text, same_codes, show_number, some, subst, suc, sym, true, upper, zero, ℕ, ◌&&◌,
  ◌++◌, ◌<◌, ◌==◌, ◌||◌, ◌∙◌, ◌≡◌, ◌≤◌,
}

pub data ErrorCategory : Type 0 where
  transient permanent network timeout validation server unknown : ErrorCategory

-- What the classifier reads of an error: the text of its message (or the error as a text), its
-- name, its code, and the three places of a status.
pub record Fault : Type 0 where
  pub text : Text
  pub name : Option Text
  pub code : Option Text
  pub status_code : Option ℕ
  pub status : Option ℕ
  pub response_status : Option ℕ

-- `statusCode || error.statusCode || error.status || error.response.status`.
code_of : Fault → Option ℕ → Option ℕ
code_of x given =
    or_nonzero given (or_nonzero x.status_code (or_nonzero x.status x.response_status))

by_status : ℕ → Option ErrorCategory
by_status code =
    if code == 408
    then some timeout
    else if (code == 429) || leb 500 code
    then some transient
    else if leb 400 code && ltb code 500
    then some (if (code == 422) || (code == 400) then validation else permanent)
    else none

network_code : Text → Bool
network_code c =
    same_codes c (codes "ECONNREFUSED")
    || (same_codes c (codes "ENOTFOUND")
        || (same_codes c (codes "EPIPE")
            || (same_codes c (codes "EHOSTUNREACH") || same_codes c (codes "EAI_AGAIN"))))

is_named : Text → Option Text → Bool
is_named s none = false
is_named s (some t) = same_codes t s

by_text : Fault → ErrorCategory
unfolding network_code is_named
by_text x =
    let text = lower x.text in
    let code = upper (or_text x.code (codes "")) in
    if includes text (codes "validation")
    then validation
    else if network_code code
    then network
    else if same_codes code (codes "ETIMEDOUT")
        || (is_named (codes "TimeoutError") x.name || includes text (codes "timeout"))
    then timeout
    else if is_named (codes "ValidationError") x.name || is_named (codes "VALIDATION_FAILED") x.code
    then validation
    else if includes text (codes "connection refused")
        || (includes text (codes "network")
            || (includes text (codes "socket hang up") || includes text (codes "reset")))
    then network
    else unknown

by_code : Fault → Option ℕ → ErrorCategory
unfolding by_status by_text
by_code x none = by_text x
by_code x (some code) = or_else (by_status code) (by_text x)

get_category : Fault → Option ℕ → ErrorCategory
unfolding code_of by_code
get_category x given = by_code x (code_of x given)

abbrev pub retryable : ErrorCategory → Bool
retryable permanent = false
retryable validation = false
retryable _ = true

get_retryable : Fault → Option ℕ → Bool
unfolding get_category
get_retryable x given = retryable (get_category x given)

-- `classify`: the category and whether it is retryable.
unfoldable pub classify : Fault → Option ℕ → ErrorCategory × Bool
unfolding get_category get_retryable
classify x given = (get_category x (code_of x given), get_retryable x (code_of x given))

-- `new Error(...)` of `classifyHttpStatus`.
http_fault : ℕ → Fault
http_fault code = record {
  text = codes "HTTP " ++ show_number code;
  name = some (codes "Error");
  code = none;
  status_code = none;
  status = none;
  response_status = none;
}

classify_http_status : ℕ → ErrorCategory × Bool
unfolding classify http_fault
classify_http_status code = classify (http_fault code) (some code)

get_retryable-code :
    (x : Fault) (code : ℕ) (o : Option ℕ)
    → 400 ≤ code
    → code < 600
    → get_retryable x (or_nonzero (some code) o) ≡ retry_code code
unfolding get_retryable
get_retryable-code x zero o h l = absurd (omega arith)
get_retryable-code x (suc c) o h l = ground arith

-- On every status code from 400 to 599 the worker and the domain agree on what is retried, however
-- the worker's error looks otherwise: the worker retries exactly what a failure that the domain
-- makes of the code is retried for.
classify-from_status_code :
    (code : ℕ) (x : Fault) (message : Option Text) (e : Failure)
    → 400 ≤ code
    → code < 600
    → from_status_code code message ≡ some e
    → ((classify x (some code)).1 ≡ Failure.is_retryable e)
      × ((classify_http_status code).1 ≡ Failure.is_retryable e)
unfolding classify classify_http_status
classify-from_status_code code x message e h l m =
    let (e', m', c, r, p) = from_status_code_retryable code message in
    let same : e' ≡ e = some_inj.0 (sym m' ∙ m) in
    let domain : Failure.is_retryable e ≡ retry_code code =
      subst (λ f. Failure.is_retryable f ≡ retry_code code) same r in
    (
      get_retryable-code x code _ h l ∙ sym domain,
      get_retryable-code (http_fault code) code none h l ∙ sym domain,
    )

-- Without a status code from 400 on the two disagree on what they cannot place: the worker retries
-- an error of unknown kind, while the domain's failure of unknown kind is not retried.
get_retryable-unknown :
    (x : Fault) (given : Option ℕ) (message : Text) (e : Failure)
    → get_category x given ≡ unknown
    → Failure.of_category Failure.unknown message ≡ some e
    → (get_retryable x given ≡ true) × (Failure.is_retryable e ≡ false)
unfolding get_retryable Failure.is_retryable Failure.make
get_retryable-unknown x given message e c m = (ground arith, ground arith)
