-- ===== src/Config/ByteSize/RoundTrip.antt =====
-- A size is read back from its print.
use Prim.Native.Char.{Char, code}
use text.Mathlib.TextLemmas.{nil-append, cons-append}
use antwatcher.Prelude.{
  ℕ, ◌*◌, ◌/◌, ◌≤◌, ◌≡◌, refl, ap, sym, ◌∙◌, true, false, some, String, ◌+++◌, arith, ltb, if_lem,
  no_text, str_eq,
}
use antwatcher.Prelude.Int.{pos}
use antwatcher.Prelude.Dict.{lookup}
use antwatcher.Prelude.Decimal.{format_int, max_int, parse_int-format_int, format_int-ne-nil}
use antwatcher.Prelude.Decimal.Parts.{is_digit, IsDigits, format_int-IsDigits}
use antwatcher.Prelude.Errors.{ok}
use antwatcher.Event.Envelope.{is_space}
use antwatcher.Config.ByteSize.{
  Texts, byte_units, leading_digits, scaled_size, with_unit, size_of_parts, parse_byte_size,
  divides, byte_size_text,
}

-- A text without white space.
abbrev pub IsSolid : String → Type 0
IsSolid String.[] = Unit
IsSolid (String.◌∷◌ c s) = (is_space (code c) ≡ false) × IsSolid s

-- What is used of TrimSpace and ToLower: a text without white space is left alone, and the units are written
-- small.
pub record IsLibrary (texts : Texts) : Type 0 where
  pub trim_solid : (s : String) → IsSolid s → texts.trim_space s ≡ s
  pub lower_units :
      (texts.lower "B" ≡ "b")
      × (texts.lower "KiB" ≡ "kib")
      × (texts.lower "MiB" ≡ "mib")
      × (texts.lower "GiB" ≡ "gib")
      × (texts.lower "TiB" ≡ "tib")

digit_solid : (c : ℕ) → is_digit c ≡ true → is_space c ≡ false
unfolding is_space
digit_solid c h = ground arith

digits-IsSolid : (d u : String) → IsDigits d → IsSolid u → IsSolid (d +++ u)
digits-IsSolid String.[] u h k = rw (nil-append u) k
digits-IsSolid (String.◌∷◌ c d) u (e, h) k =
    rw (cons-append c d u) (digit_solid (code c) e, digits-IsSolid d u h k)

leading_cons :
    (c : Char) (s d u : String)
    → is_digit (code c) ≡ true
    → leading_digits s ≡ (d, u)
    → leading_digits (String.◌∷◌ c s) ≡ (String.◌∷◌ c d, u)
unfolding leading_digits
leading_cons c s d u e h = rw (e, h) refl

leading_digits_lem :
    (d u : String) → IsDigits d → leading_digits u ≡ ("", u) → leading_digits (d +++ u) ≡ (d, u)
leading_digits_lem String.[] u h k = ap leading_digits (nil-append u) ∙ k
leading_digits_lem (String.◌∷◌ c d) u (e, h) k =
    ap leading_digits (cons-append c d u)
    ∙ leading_cons c (d +++ u) d u e (leading_digits_lem d u h k)

no_digits : leading_digits "" ≡ ("", "")
unfolding leading_digits
no_digits = refl

module _ (texts : Texts) (library : IsLibrary texts) where
  -- A number of a unit.
  parsed_unit :
      (n q mult : ℕ) (unit small : String)
      → IsSolid unit
      → leading_digits unit ≡ ("", unit)
      → texts.lower unit ≡ small
      → lookup small byte_units ≡ some mult
      → q * mult ≡ n
      → q ≤ max_int
      → q ≤ max_int / mult
      → parse_byte_size texts (format_int (pos q) +++ unit) ≡ ok n
  unfolding parse_byte_size size_of_parts with_unit scaled_size
  parsed_unit n q mult unit small solid starts low found product fits scaled =
      let text = format_int (pos q) +++ unit in
      let digits = format_int-IsDigits q in
      let split : leading_digits text ≡ (format_int (pos q), unit) =
        leading_digits_lem (format_int (pos q)) unit digits starts in
      let some_text : str_eq text "" ≡ false =
        no_text text ""
          (λ e. format_int-ne-nil q (cc (sym split ∙ ap leading_digits e ∙ no_digits))) in
      let some_digits : str_eq (format_int (pos q)) "" ≡ false =
        no_text (format_int (pos q)) "" (format_int-ne-nil q) in
      let small_number : ltb (max_int / mult) q ≡ false = ground arith in
      rw
        (
          library.trim_solid text (digits-IsSolid (format_int (pos q)) unit digits solid),
          some_text,
          split,
          some_digits,
          library.trim_solid unit solid,
          low,
          found,
          parse_int-format_int q fits,
          small_number,
        )
        (ap ok product)

  -- ParseByteSize reads every size that String writes: a size from 0 to the largest 64-bit one is read
  -- back whole, whichever unit it is printed in. Of package strings it is used that TrimSpace leaves a
  -- text without white space alone, and that ToLower writes the units small.
  pub parse_byte_size-byte_size_text :
      (n : ℕ) → n ≤ max_int → parse_byte_size texts (byte_size_text (pos n)) ≡ ok n
  unfolding byte_size_text leading_digits is_space lookup
  parse_byte_size-byte_size_text n fits =
      let P : String → Type 0 = λ t. parse_byte_size texts t ≡ ok n in
      let (b, k, m, g, t) = library.lower_units in
      if_lem P (divides 1099511627776 n) _ _
        (λ h.
          parsed_unit n (n / 1099511627776) 1099511627776 "TiB" "tib" (refl, (refl, (refl, tt)))
            refl t refl (ground arith) (omega arith) (omega arith))
        (λ _.
          if_lem P (divides 1073741824 n) _ _
            (λ h.
              parsed_unit n (n / 1073741824) 1073741824 "GiB" "gib" (refl, (refl, (refl, tt))) refl
                g refl (ground arith) (omega arith) (omega arith))
            (λ _.
              if_lem P (divides 1048576 n) _ _
                (λ h.
                  parsed_unit n (n / 1048576) 1048576 "MiB" "mib" (refl, (refl, (refl, tt))) refl m
                    refl (ground arith) (omega arith) (omega arith))
                (λ _.
                  if_lem P (divides 1024 n) _ _
                    (λ h.
                      parsed_unit n (n / 1024) 1024 "KiB" "kib" (refl, (refl, (refl, tt))) refl k
                        refl (ground arith) (omega arith) (omega arith))
                    (λ _.
                      parsed_unit n n 1 "B" "b" (refl, tt) refl b refl (omega arith) fits
                        (omega arith)))))
