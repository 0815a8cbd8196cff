-- ===== src/Prelude/Errors.antt =====
-- Go's `error` values: what `errors.New`, `fmt.Errorf` with `%w` and `errors.Join` build, the
-- package-level values that `errors.Is` compares, and the concrete types that `errors.As` looks for.
use antwatcher.Prelude.{
  ℕ, ◌≡◌, refl, Bool, true, false, ◌||◌, List, [], ◌∷◌, String, ◌+++◌, ◌==◌, Option, none, some,
}

pub data Sentinel : Type 0 where
  skipped deadline_exceeded canceled bus_closed invalid_consumer_name wrong_topic : Sentinel
  missing_capability missing_delivery missing_event invalid_payload : Sentinel
  missing_metadata invalid_metadata malformed : Sentinel

pub data Err : Type 0 where
  message : String → Err
  sentinel : Sentinel → Err
  -- fmt.Errorf("<before>%w<after>", err)
  wrap : String → Err → String → Err
  -- errors.Join, with a line break between the texts, and fmt.Errorf("%w: %w")
  joined : Err → String → Err → Err
  -- *permanentError
  permanent : Err → Err
  -- *ghclient.ErrRateLimited, with its own text in front of the wrapped one
  rate_limited : String → Err → Err
  -- *otlp.HTTPError: status code, rendered text and Retry-After in nanoseconds
  http : ℕ → String → ℕ → Err
  -- a gRPC status: code, rendered text and the RetryInfo delay, if one is present
  grpc : ℕ → String → Option ℕ → Err

pub data Result {ℓ} (T : Type ℓ) : Type ℓ where
  ok : T → Result T
  err : Err → Result T

infixl 5 ◌>>=◌ ◌>>◌
-- What comes after a call that may fail: an error is returned at once.
abbrev pub ◌>>=◌ {ℓ κ} : {S : Type ℓ} {T : Type κ} → Result S → (S → Result T) → Result T
err failure >>= next = err failure
ok value >>= next = next value

abbrev pub ◌>>◌ {ℓ} : {T : Type ℓ} → Result (Unit {0}) → Result T → Result T
err failure >> next = err failure
ok _ >> next = next

abbrev pub is_err {ℓ} : {A : Type ℓ} → Result A → Bool
is_err (ok _) = false
is_err (err _) = true

-- `if !b { return e }`
abbrev pub guard : Bool → Err → Result (Unit {0})
guard false failure = err failure
guard true failure = ok tt

-- Its number tells a sentinel apart.
abbrev tag : Sentinel → ℕ
tag skipped = 0
tag deadline_exceeded = 1
tag canceled = 2
tag bus_closed = 3
tag invalid_consumer_name = 4
tag wrong_topic = 5
tag missing_capability = 6
tag missing_delivery = 7
tag missing_event = 8
tag invalid_payload = 9
tag missing_metadata = 10
tag invalid_metadata = 11
tag malformed = 12

-- errors.Is against a package-level value.
unfoldable pub is : Sentinel → Err → Bool
is s (message t) = false
is s (sentinel t) = tag s == tag t
is s (wrap b e a) = is s e
is s (joined e t f) = is s e || is s f
is s (permanent e) = is s e
is s (rate_limited t e) = is s e
is s (http c t r) = false
is s (grpc c t r) = false

sentinel_text : Sentinel → String
sentinel_text skipped = "sink: event skipped"
sentinel_text deadline_exceeded = "context deadline exceeded"
sentinel_text canceled = "context canceled"
sentinel_text bus_closed = "bus is closed"
sentinel_text invalid_consumer_name = "invalid consumer name"
sentinel_text wrong_topic = "subscriber is bound to another topic"
sentinel_text missing_capability = "bus lacks a required capability"
sentinel_text missing_delivery = "missing X-GitHub-Delivery header"
sentinel_text missing_event = "missing X-GitHub-Event header"
sentinel_text invalid_payload = "payload is not a JSON object"
sentinel_text missing_metadata = "missing message metadata"
sentinel_text invalid_metadata = "invalid message metadata"
sentinel_text malformed = "malformed payload"

-- err.Error()
unfoldable pub text : Err → String
unfolding sentinel_text
text (message t) = t
text (sentinel s) = sentinel_text s
text (wrap b e a) = b +++ text e +++ a
text (joined e t f) = text e +++ t +++ text f
text (permanent e) = "permanent: " +++ text e
text (rate_limited t e) = t +++ text e
text (http c t r) = t
text (grpc c t r) = t

-- errors.Join over a list, nil entries left out by the caller; `none` is nil.
unfoldable pub join : List Err → Option Err
join [] = none
join (e ∷ es) = elim (join es) [ none ↦ some e | some f ↦ some (joined e "\n" f) ]

some_head :
    (e : Err) (o : Option Err)
    → elim o [ none ↦ some e | some f ↦ some (joined e "\n" f) ] ≡ none
    → ⊥
some_head e none h = cc
some_head e (some f) h = cc

pub join_nil : (es : List Err) → join es ≡ none → es ≡ []
unfolding join
join_nil [] h = refl
join_nil (e ∷ es) h = absurd (some_head e (join es) h)
