-- ===== src/Config/ByteSize.antt =====
-- internal/config/bytesize.go: sizes with a unit. strings.TrimSpace and strings.ToLower are parameters.
pub mod RoundTrip
use Prim.Native.Char.{code}
use antwatcher.Prelude.{
  ℕ, ◌*◌, ◌/◌, ◌%◌, Bool, true, false, ◌&&◌, Option, none, some, List, [], ◌∷◌, String, ◌+++◌, ltb,
  leb, ◌==◌, if◌then◌else◌, str_eq, quoted,
}
use antwatcher.Prelude.Int.{ℤ, pos, negsuc}
use antwatcher.Prelude.Dict.{lookup}
use antwatcher.Prelude.Decimal.{format_int, parse_int, max_int}
use antwatcher.Prelude.Decimal.Parts.{is_digit}
use antwatcher.Prelude.Errors.{Err, message, wrap, Result, ok, err}

pub record Texts : Type 0 where
  pub trim_space : String → String
  pub lower : String → String

-- byteUnits
abbrev pub byte_units : List (String × ℕ)
byte_units =
    ("", 1)
    ∷ ("b", 1)
    ∷ ("k", 1024)
    ∷ ("kib", 1024)
    ∷ ("kb", 1000)
    ∷ ("m", 1048576)
    ∷ ("mib", 1048576)
    ∷ ("mb", 1000000)
    ∷ ("g", 1073741824)
    ∷ ("gib", 1073741824)
    ∷ ("gb", 1000000000)
    ∷ ("t", 1099511627776)
    ∷ ("tib", 1099511627776)
    ∷ ("tb", 1000000000000)
    ∷ []

-- The digits that a text begins with, and the rest.
unfoldable pub leading_digits : String → String × String
leading_digits String.[] = (String.[], String.[])
leading_digits (String.◌∷◌ c s) =
    let rest = leading_digits s in
    if is_digit (code c) then (String.◌∷◌ c (rest.0), rest.1) else (String.[], String.◌∷◌ c s)

-- "invalid size <s>: <what>"
abbrev pub size_err : String → String → Err
size_err s what = message ("invalid size " +++ quoted s +++ ": " +++ what)

abbrev range_err : String → String → Err
range_err s digits =
    wrap ("invalid size " +++ quoted s +++ ": ")
      (message ("strconv.ParseInt: parsing " +++ quoted digits +++ ": value out of range")) ""

-- The product of a number and a unit, unless it passes 64 bits; ParseInt has refused a number that does.
unfoldable pub scaled_size : String → String → ℕ → Option ℤ → Result ℕ
scaled_size s digits mult none = err (range_err s digits)
scaled_size s digits mult (some (negsuc n)) = err (range_err s digits)
scaled_size s digits mult (some (pos n)) =
    if ltb (max_int / mult) n then err (size_err s "overflows") else ok (n * mult)

unfoldable pub with_unit : String → String → String → Option ℕ → Result ℕ
unfolding scaled_size
with_unit s digits unit none = err (
    size_err s ("unknown unit " +++ quoted unit +++ " (use B, KiB, MiB, GiB, TiB, KB, MB, GB, TB)"))
with_unit s digits unit (some mult) = scaled_size s digits mult (parse_int digits)

unfoldable pub size_of_parts : Texts → String → String × String → Result ℕ
unfolding with_unit
size_of_parts texts s (digits, unit) =
    if str_eq digits ""
    then err (size_err s "must start with a number")
    else with_unit s digits unit (lookup (texts.lower (texts.trim_space unit)) byte_units)

-- ParseByteSize
unfoldable pub parse_byte_size : Texts → String → Result ℕ
unfolding size_of_parts leading_digits
parse_byte_size texts s =
    if str_eq (texts.trim_space s) ""
    then err (message "empty size")
    else size_of_parts texts s (leading_digits (texts.trim_space s))

abbrev pub divides : ℕ → ℕ → Bool
divides unit n = leb unit n && n % unit == 0

-- ByteSize.String
unfoldable pub byte_size_text : ℤ → String
byte_size_text (negsuc n) = format_int (negsuc n) +++ "B"
byte_size_text (pos n) =
    if divides 1099511627776 n
    then format_int (pos (n / 1099511627776)) +++ "TiB"
    else if divides 1073741824 n
    then format_int (pos (n / 1073741824)) +++ "GiB"
    else if divides 1048576 n
    then format_int (pos (n / 1048576)) +++ "MiB"
    else if divides 1024 n
    then format_int (pos (n / 1024)) +++ "KiB"
    else format_int (pos n) +++ "B"
