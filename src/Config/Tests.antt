-- ===== src/Config/Tests.antt =====
-- A size and its print.
use antwatcher.Prelude.{◌≡◌, refl, String, arith, if◌then◌else◌, str_eq}
use antwatcher.Prelude.Int.{pos}
use antwatcher.Prelude.Errors.{ok}
use antwatcher.Config.ByteSize.{Texts, parse_byte_size, byte_size_text}
use antwatcher.Config.ByteSize.RoundTrip.{IsLibrary, parse_byte_size-byte_size_text}

-- A library that writes the units small.
abbrev small_unit : String → String
small_unit s =
    if str_eq s "B"
    then "b"
    else if str_eq s "KiB"
    then "kib"
    else if str_eq s "MiB"
    then "mib"
    else if str_eq s "GiB"
    then "gib"
    else if str_eq s "TiB"
    then "tib"
    else s

abbrev texts : Texts
texts = record { trim_space = λ s. s; lower = small_unit }

texts-IsLibrary : IsLibrary texts
texts-IsLibrary = record { trim_solid = λ s h. refl; lower_units = (refl, refl, refl, refl, refl) }

-- 5 MiB
parse_byte_size-byte_size_text_example :
    parse_byte_size texts (byte_size_text (pos 5242880)) ≡ ok 5242880
parse_byte_size-byte_size_text_example =
    parse_byte_size-byte_size_text texts texts-IsLibrary 5242880 (omega arith)
