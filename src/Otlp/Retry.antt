-- ===== src/Otlp/Retry.antt =====
-- internal/otlp/retry.go: the verdict on a failed attempt, the final error, and the backoff. Durations are
-- nanoseconds; they are natural numbers, so a backoff that is not positive is 0.
pub mod Backoff
use antwatcher.Prelude.{
  ℕ, zero, suc, ◌-◌, ◌*◌, Bool, true, false, ◌||◌, Option, none, some, String, ◌+++◌, ltb, ◌==◌,
  if◌then◌else◌,
}
use antwatcher.Prelude.Decimal.{itoa}
use antwatcher.Sink.Errors.{mark_permanent}
use antwatcher.Prelude.Errors.{
  Err, message, sentinel, wrap, joined, permanent, rate_limited, http, grpc, Sentinel,
}

-- verdict
pub record Verdict : Type 0 where
  pub retryable : Bool
  pub wait : ℕ

abbrev or_else {ℓ} : {A : Type ℓ} → Option A → Option A → Option A
or_else none o = o
or_else (some a) o = some a

-- errors.As for *HTTPError: its status code and Retry-After.
unfoldable pub as_http : Err → Option (ℕ × ℕ)
as_http (message t) = none
as_http (sentinel s) = none
as_http (wrap b e a) = as_http e
as_http (joined e t f) = or_else (as_http e) (as_http f)
as_http (permanent e) = as_http e
as_http (rate_limited t e) = as_http e
as_http (http c t r) = some (c, r)
as_http (grpc c t r) = none

-- status.FromError: the code and the RetryInfo delay of a gRPC status.
unfoldable pub as_status : Err → Option (ℕ × Option ℕ)
as_status (message t) = none
as_status (sentinel s) = none
as_status (wrap b e a) = as_status e
as_status (joined e t f) = or_else (as_status e) (as_status f)
as_status (permanent e) = as_status e
as_status (rate_limited t e) = as_status e
as_status (http c t r) = none
as_status (grpc c t r) = some (c, r)

abbrev final : Verdict
final = record { retryable = false; wait = 0 }

-- retryInfo
abbrev retry_info : Option ℕ → ℕ
retry_info none = 0
retry_info (some t) = t

-- Canceled, DeadlineExceeded, Aborted, OutOfRange, Unavailable, DataLoss
abbrev pub is_transient : ℕ → Bool
is_transient c = c == 1 || c == 4 || c == 10 || c == 11 || c == 14 || c == 15

-- ResourceExhausted, by whether the status says when to retry.
abbrev exhausted : Option ℕ → Verdict
exhausted none = final
exhausted (some t) = record { retryable = true; wait = t }

unfoldable pub classify_status : Option (ℕ × Option ℕ) → Verdict
classify_status none = record { retryable = true; wait = 0 }
classify_status (some (c, delay)) =
    if c == 0
    then record { retryable = true; wait = 0 }
    else if is_transient c
    then record { retryable = true; wait = retry_info delay }
    else if c == 8
    then exhausted delay
    else final

unfoldable pub classify_http : Option (ℕ × ℕ) → Option (ℕ × Option ℕ) → Verdict
unfolding classify_status
classify_http (some (c, after)) status =
    if c == 429 || c == 502 || c == 503 || c == 504
    then record { retryable = true; wait = after }
    else final
classify_http none status = classify_status status

-- classify
unfoldable pub classify : Err → Verdict
unfolding as_http as_status classify_http
classify e = classify_http (as_http e) (as_status e)

-- finalize; `ended` is ctx.Err().
unfoldable pub finalize : Option Sentinel → String → String → ℕ → Err → Err
unfolding classify mark_permanent
finalize (some s) signal endpoint attempts e = sentinel s
finalize none signal endpoint attempts e =
    let wrapped =
      wrap
        ("otlp export "
          +++ signal
          +++ " to "
          +++ endpoint
          +++ " after "
          +++ itoa attempts
          +++ " attempt(s): ")
        e "" in
    if (classify e).retryable then wrapped else mark_permanent wrapped

-- time.Minute
abbrev pub minute : ℕ
minute = 60000000000

-- The loop of backoffDelay, with `k` rounds left.
unfoldable pub doubled : ℕ → ℕ → ℕ
doubled zero d = d
doubled (suc k) d = let rest = doubled k (d * 2) in if ltb minute (d * 2) then minute else rest

-- backoffDelay
unfoldable pub backoff_delay : ℕ → ℕ → ℕ
unfolding doubled
backoff_delay base n = if base == 0 || n == 0 then 0 else doubled (n - 1) base
