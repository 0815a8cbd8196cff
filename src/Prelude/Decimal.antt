-- ===== src/Prelude/Decimal.antt =====
-- strconv.Itoa, FormatInt, Atoi and ParseInt in base ten, for 64-bit integers.
pub mod Parts
use Prim.Native.Char.{Char, code}
use antwatcher.Prelude.{
  ℕ, zero, suc, ◌+◌, ◌-◌, ◌*◌, ◌/◌, ◌%◌, ◌^◌, ◌≤◌, ◌<◌, ◌≡◌, refl, ◌≢◌, ◌&&◌, Option, none, some,
  String, arith, ◌==◌, leb, if◌then◌else◌,
}
use antwatcher.Prelude.Int.{ℤ, pos, negsuc}

abbrev pub max_int : ℕ
max_int = 2 ^ 63 - 1

digit : ℕ → Char
digit zero = "0"
digit (suc zero) = "1"
digit (suc (suc zero)) = "2"
digit (suc (suc (suc zero))) = "3"
digit (suc (suc (suc (suc zero)))) = "4"
digit (suc (suc (suc (suc (suc zero))))) = "5"
digit (suc (suc (suc (suc (suc (suc zero)))))) = "6"
digit (suc (suc (suc (suc (suc (suc (suc zero))))))) = "7"
digit (suc (suc (suc (suc (suc (suc (suc (suc zero)))))))) = "8"
digit (suc (suc (suc (suc (suc (suc (suc (suc (suc n))))))))) = "9"

-- The digits of a number in front of `out`, on fuel; a number below the fuel is written whole.
digits : ℕ → ℕ → String → String
digits zero n out = out
digits (suc f) n out =
    let rest = digits f (n / 10) (String.◌∷◌ (digit (n % 10)) out) in if n == 0 then out else rest

unfoldable pub itoa : ℕ → String
unfolding digits digit
itoa zero = "0"
itoa (suc n) = digits (suc (suc n)) (suc n) String.[]

-- strconv.FormatInt(i, 10)
unfoldable pub format_int : ℤ → String
unfolding itoa
format_int (pos n) = itoa n
format_int (negsuc n) = String.◌∷◌ "-" (itoa (suc n))

-- The digits of a text behind a number; a value past 64 bits is refused by the caller.
scan : String → ℕ → Option ℕ
scan String.[] n = some n
scan (String.◌∷◌ c s) n =
    let rest = scan s (n * 10 + (code c - b'0')) in
    if leb b'0' (code c) && leb (code c) b'9' then rest else none

-- At least one digit.
natural : String → Option ℕ
unfolding scan
natural String.[] = none
natural (String.◌∷◌ c s) = scan (String.◌∷◌ c s) 0

within : Option ℕ → Option ℤ
within none = none
within (some n) = if leb n max_int then some (pos n) else none

below : Option ℕ → Option ℤ
below none = none
below (some zero) = some (pos zero)
below (some (suc n)) = if leb n max_int then some (negsuc n) else none

-- strconv.ParseInt(s, 10, 64), and strconv.Atoi where int has 64 bits; `none` is its error.
unfoldable pub parse_int : String → Option ℤ
unfolding natural within below
parse_int String.[] = none
parse_int (String.◌∷◌ c s) =
    if code c == b'-'
    then below (natural s)
    else if code c == b'+'
    then within (natural s)
    else within (natural (String.◌∷◌ c s))

digit_code : (d : ℕ) → d < 10 → code (digit d) ≡ d + b'0'
unfolding digit
digit_code zero h = refl
digit_code (suc zero) h = refl
digit_code (suc (suc zero)) h = refl
digit_code (suc (suc (suc zero))) h = refl
digit_code (suc (suc (suc (suc zero)))) h = refl
digit_code (suc (suc (suc (suc (suc zero))))) h = refl
digit_code (suc (suc (suc (suc (suc (suc zero)))))) h = refl
digit_code (suc (suc (suc (suc (suc (suc (suc zero))))))) h = refl
digit_code (suc (suc (suc (suc (suc (suc (suc (suc zero)))))))) h = refl
digit_code (suc (suc (suc (suc (suc (suc (suc (suc (suc zero))))))))) h = refl
digit_code (suc (suc (suc (suc (suc (suc (suc (suc (suc (suc n)))))))))) h = absurd (omega arith)

scan-cons_digit :
    (n : ℕ) (out : String) → scan (String.◌∷◌ (digit (n % 10)) out) (n / 10) ≡ scan out n
unfolding scan
scan-cons_digit n out = ground (arith, digit_code (n % 10))

scan-digits : (f n : ℕ) (out : String) → n < f → scan (digits f n out) 0 ≡ scan out n
unfolding digits
scan-digits zero n out h = absurd (omega arith)
scan-digits (suc f) n out h =
    ground (arith, scan-cons_digit n out, scan-digits f (n / 10) (String.◌∷◌ (digit (n % 10)) out))

-- The first character of a text is a digit.
abbrev StartsDigit : String → Type 0
StartsDigit String.[] = ⊥
StartsDigit (String.◌∷◌ c s) = (b'0' ≤ code c) × (code c ≤ b'9')

digits-StartsDigit : (f n : ℕ) (out : String) → StartsDigit out → StartsDigit (digits f n out)
unfolding digits
digits-StartsDigit zero n out h = h
digits-StartsDigit (suc f) n out h =
    ground
      (arith, digits-StartsDigit f (n / 10) (String.◌∷◌ (digit (n % 10)) out), digit_code (n % 10))

digits_some-StartsDigit : (n : ℕ) → 0 < n → StartsDigit (digits (suc n) n String.[])
unfolding digits
digits_some-StartsDigit n h =
    let first =
      digits-StartsDigit n (n / 10) (String.◌∷◌ (digit (n % 10)) String.[])
        (omega (arith, digit_code (n % 10))) in
    ground arith

StartsDigit-parse_int : (s : String) → StartsDigit s → parse_int s ≡ within (scan s 0)
unfolding parse_int
StartsDigit-parse_int String.[] h = absurd h
StartsDigit-parse_int (String.◌∷◌ c s) h = ground arith

parse_int-digits :
    (n : ℕ) → 0 < n → n ≤ max_int → parse_int (digits (suc n) n String.[]) ≡ some (pos n)
unfolding within scan
parse_int-digits n h b =
    rw
      (
        StartsDigit-parse_int _ (digits_some-StartsDigit n h),
        scan-digits (suc n) n String.[] (omega arith),
      )
      (ground arith)

-- A number of at most 63 bits is read back from its decimal print.
pub parse_int-format_int : (n : ℕ) → n ≤ max_int → parse_int (format_int (pos n)) ≡ some (pos n)
unfolding format_int
parse_int-format_int zero b = unfold parse_int in refl
parse_int-format_int (suc n) b = parse_int-digits (suc n) (omega arith) b

StartsDigit-ne-nil : (s : String) → StartsDigit s → s ≢ ""
StartsDigit-ne-nil String.[] h e = h
StartsDigit-ne-nil (String.◌∷◌ c s) h e = cc

pub format_int-ne-nil : (n : ℕ) → format_int (pos n) ≢ ""
unfolding format_int
format_int-ne-nil zero = λ e. cc
format_int-ne-nil (suc n) = StartsDigit-ne-nil _ (digits_some-StartsDigit (suc n) (omega arith))

minus_ten : parse_int "-10" ≡ some (negsuc 9)
unfolding parse_int scan
minus_ten = refl

too_large : parse_int "9223372036854775808" ≡ none
unfolding parse_int scan
too_large = refl

printed : format_int (pos 2026) ≡ "2026"
unfolding format_int digits digit
printed = refl
