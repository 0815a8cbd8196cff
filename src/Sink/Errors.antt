-- ===== src/Sink/Errors.antt =====
-- internal/sink/errors.go: the mark that makes an error permanent.
use antwatcher.Prelude.{
  ◌≡◌, refl, Bool, true, false, ◌||◌, String, if◌then◌else◌, Bool-cases, inl, inr, Option, none,
  some,
}
use antwatcher.Prelude.Errors.{
  Err, message, sentinel, wrap, joined, permanent, rate_limited, http, grpc, Sentinel, is,
}

-- errors.As for *permanentError.
unfoldable pub is_permanent : Err → Bool
is_permanent (permanent e) = true
is_permanent (message t) = false
is_permanent (sentinel s) = false
is_permanent (wrap b e a) = is_permanent e
is_permanent (joined e t f) = is_permanent e || is_permanent f
is_permanent (rate_limited t e) = is_permanent e
is_permanent (http c t r) = false
is_permanent (grpc c t r) = false

-- `Permanent` on a value that is not nil.
unfoldable pub mark_permanent : Err → Err
mark_permanent e = if is_permanent e then e else permanent e

-- `Permanent`; `none` is nil.
unfoldable pub mark : Option Err → Option Err
mark none = none
mark (some e) = some (mark_permanent e)

-- `Permanentf`, of the formatted error.
unfoldable pub permanentf : String → Err
unfolding mark_permanent
permanentf t = mark_permanent (message t)

pub mark_permanent-is_permanent : (e : Err) → is_permanent (mark_permanent e) ≡ true
unfolding mark_permanent is_permanent
mark_permanent-is_permanent e = elim (Bool-cases (is_permanent e)) [
  | inl p ↦ rw p p
  | inr p ↦ rw p refl
]

mark_permanent_id : (e : Err) → is_permanent e ≡ true → mark_permanent e ≡ e
unfolding mark_permanent
mark_permanent_id e p = rw p refl

is-mark_permanent : (e : Err) (s : Sentinel) → is s (mark_permanent e) ≡ is s e
unfolding mark_permanent is
is-mark_permanent e s = elim (Bool-cases (is_permanent e)) [ inl p ↦ rw p refl | inr p ↦ rw p refl ]

-- For every error, marking it makes it permanent, keeps what `errors.Is` finds in it, and a second
-- mark changes nothing.
pub mark_permanent_laws :
    (e : Err) (s : Sentinel)
    → (is_permanent (mark_permanent e) ≡ true)
      × (is s (mark_permanent e) ≡ is s e)
      × (mark_permanent (mark_permanent e) ≡ mark_permanent e)
mark_permanent_laws e s = (
  mark_permanent-is_permanent e,
  is-mark_permanent e s,
  mark_permanent_id _ (mark_permanent-is_permanent e),
)
