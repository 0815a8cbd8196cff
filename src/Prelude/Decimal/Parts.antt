-- ===== src/Prelude/Decimal/Parts.antt =====
-- Decimal numbers between colons.
use Prim.Native.Char.{Char, code}
use text.Mathlib.TextLemmas.{nil-append, cons-append}
use antwatcher.Prelude.{
  ℕ, zero, suc, ◌/◌, ◌%◌, ◌≤◌, ◌≡◌, ◌≢◌, refl, ap, sym, ◌∙◌, false, Option, none, some, List, [],
  ◌∷◌, String, ◌+++◌, arith, ◌==◌, leb, ◌&&◌, Bool, true, if◌then◌else◌, All, map,
}
use antwatcher.Prelude.Int.{pos}
use antwatcher.Prelude.Decimal.{
  digit, digits, digit_code, itoa, format_int, parse_int, parse_int-format_int, max_int,
}

-- A text without a colon.
abbrev pub IsPart : String → Type 0
IsPart String.[] = Unit
IsPart (String.◌∷◌ c s) = ((code c == b':') ≡ false) × IsPart s

-- The text in front of the first colon, and what follows it.
unfoldable pub split_part : String → String × Option String
split_part String.[] = (String.[], none)
split_part (String.◌∷◌ c s) =
    let rest = split_part s in
    if code c == b':' then (String.[], some s) else (String.◌∷◌ c (rest.0), rest.1)

-- strings.Join with ":"
unfoldable pub join_parts : List String → String
join_parts [] = ""
join_parts (s ∷ []) = s
join_parts (s ∷ t ∷ ts) = s +++ ":" +++ join_parts (t ∷ ts)

split_alone : (s : String) → IsPart s → split_part s ≡ (s, none)
unfolding split_part
split_alone String.[] h = refl
split_alone (String.◌∷◌ c s) (e, h) = rw (e, split_alone s h) refl

colon_first : (t : String) → ":" +++ t ≡ String.◌∷◌ ":" t
colon_first t = cons-append ":" "" t ∙ ap (String.◌∷◌ ":") (nil-append t)

split_colon : (t : String) → split_part (":" +++ t) ≡ ("", some t)
unfolding split_part
split_colon t = ap split_part (colon_first t) ∙ refl

split_cons :
    (c : Char) (s : String) (t : String) (rest : String × Option String)
    → (code c == b':') ≡ false
    → split_part s ≡ rest
    → split_part (String.◌∷◌ c s) ≡ (String.◌∷◌ c (rest.0), rest.1)
unfolding split_part
split_cons c s t rest e h = rw (e, h) refl

split_first : (s t : String) → IsPart s → split_part (s +++ (":" +++ t)) ≡ (s, some t)
split_first String.[] t h = ap split_part (nil-append (":" +++ t)) ∙ split_colon t
split_first (String.◌∷◌ c s) t (e, h) =
    ap split_part (cons-append c s (":" +++ t))
    ∙ split_cons c (s +++ (":" +++ t)) t (s, some t) e (split_first s t h)

digits-IsPart : (f n : ℕ) (out : String) → IsPart out → IsPart (digits f n out)
unfolding digits
digits-IsPart zero n out h = h
digits-IsPart (suc f) n out h =
    ground (arith, digits-IsPart f (n / 10) (String.◌∷◌ (digit (n % 10)) out), digit_code (n % 10))

pub format_int-IsPart : (n : ℕ) → IsPart (format_int (pos n))
unfolding format_int itoa digits
format_int-IsPart zero = (refl, tt)
format_int-IsPart (suc n) = digits-IsPart (suc (suc n)) (suc n) String.[] tt

-- The parts are read back from the text that joins them.
pub join_parts_inj :
    (ss ts : List String)
    → All IsPart ss
    → All IsPart ts
    → (ss ≢ [])
    → (ts ≢ [])
    → join_parts ss ≡ join_parts ts
    → ss ≡ ts
unfolding join_parts
join_parts_inj [] ts h k a b e = absurd (a refl)
join_parts_inj (s ∷ ss) [] h k a b e = absurd (b refl)
join_parts_inj (s ∷ []) (t ∷ []) h k a b e = ap (λ x. x ∷ []) e
join_parts_inj (s ∷ []) (t ∷ u ∷ ts) (h, _) (k, _) a b e =
    absurd (cc (sym (split_alone s h) ∙ ap split_part e ∙ split_first t (join_parts (u ∷ ts)) k))
join_parts_inj (s ∷ r ∷ ss) (t ∷ []) (h, _) (k, _) a b e =
    absurd (cc (sym (split_first s (join_parts (r ∷ ss)) h) ∙ ap split_part e ∙ split_alone t k))
join_parts_inj (s ∷ r ∷ ss) (t ∷ u ∷ ts) (h, hs) (k, ks) a b e =
    let found =
      sym (split_first s (join_parts (r ∷ ss)) h)
      ∙ ap split_part e
      ∙ split_first t (join_parts (u ∷ ts)) k in
    let first : s ≡ t = cc found in
    let others : join_parts (r ∷ ss) ≡ join_parts (u ∷ ts) = cc found in
    let rest = join_parts_inj (r ∷ ss) (u ∷ ts) hs ks (λ x. cc) (λ x. cc) others in cc

-- A number of at most 63 bits is known by its decimal print.
pub format_int_inj :
    (m n : ℕ) → m ≤ max_int → n ≤ max_int → format_int (pos m) ≡ format_int (pos n) → m ≡ n
format_int_inj m n a b e =
    cc (sym (parse_int-format_int m a) ∙ ap parse_int e ∙ parse_int-format_int n b)

abbrev pub decimals : List ℕ → List String
decimals ns = map (λ n. format_int (pos n)) ns

pub decimals-IsPart : (ns : List ℕ) → All IsPart (decimals ns)
decimals-IsPart [] = tt
decimals-IsPart (n ∷ ns) = (format_int-IsPart n, decimals-IsPart ns)

pub decimals_inj :
    (ms ns : List ℕ)
    → All (λ n. n ≤ max_int) ms
    → All (λ n. n ≤ max_int) ns
    → decimals ms ≡ decimals ns
    → ms ≡ ns
decimals_inj [] [] h k e = refl
decimals_inj [] (n ∷ ns) h k e = absurd (cc)
decimals_inj (m ∷ ms) [] h k e = absurd (cc)
decimals_inj (m ∷ ms) (n ∷ ns) (h, hs) (k, ks) e =
    let first : format_int (pos m) ≡ format_int (pos n) = cc e in
    let others : decimals ms ≡ decimals ns = cc e in
    let same = format_int_inj m n h k first in let rest = decimals_inj ms ns hs ks others in cc

abbrev pub is_digit : ℕ → Bool
is_digit c = leb b'0' c && leb c b'9'

-- A text of digits.
abbrev pub IsDigits : String → Type 0
IsDigits String.[] = Unit
IsDigits (String.◌∷◌ c s) = (is_digit (code c) ≡ true) × IsDigits s

digits-IsDigits : (f n : ℕ) (out : String) → IsDigits out → IsDigits (digits f n out)
unfolding digits
digits-IsDigits zero n out h = h
digits-IsDigits (suc f) n out h =
    ground
      (arith, digits-IsDigits f (n / 10) (String.◌∷◌ (digit (n % 10)) out), digit_code (n % 10))

pub format_int-IsDigits : (n : ℕ) → IsDigits (format_int (pos n))
unfolding format_int itoa digits
format_int-IsDigits zero = (refl, tt)
format_int-IsDigits (suc n) = digits-IsDigits (suc (suc n)) (suc n) String.[] tt
