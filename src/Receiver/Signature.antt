-- ===== src/Receiver/Signature.antt =====
-- internal/receiver/handler.go: the signature of a request. HMAC-SHA256 and package hex are parameters; a
-- text stands for bytes.
use Prim.Native.Char.{Char, code}
use Prim.Native.String.append
use antwatcher.Prelude.{
  ◌≡◌, ◌≢◌, refl, ap, Bool, true, false, Option, none, some, String, ◌+++◌, arith, if◌then◌else◌,
  str_eq, eq_iff, eq_refl, ◌==◌,
}

-- What follows a prefix, if the text has it: strings.HasPrefix and strings.TrimPrefix.
unfoldable pub strip_prefix : String → String → Option String
strip_prefix String.[] s = some s
strip_prefix (String.◌∷◌ c p) String.[] = none
strip_prefix (String.◌∷◌ c p) (String.◌∷◌ d s) =
    let rest = strip_prefix p s in if code c == code d then rest else none

-- signaturePrefix
abbrev pub signature_prefix : String
signature_prefix = "sha256="

module _ (hmac : String → String → String) (hex_decode : String → Option String)
    (hex_encode : String → String) where
  -- hex.DecodeString and hmac.Equal
  abbrev pub mac_matches : Option String → String → Bool
  mac_matches none mac = false
  mac_matches (some got) mac = str_eq got mac

  abbrev pub digits_match : Option String → String → Bool
  digits_match none mac = false
  digits_match (some digits) mac = mac_matches (hex_decode digits) mac

  -- verifySignature
  unfoldable pub verify_signature : String → String → String → Bool
  verify_signature secret header body =
      if str_eq secret ""
      then false
      else digits_match (strip_prefix signature_prefix header) (hmac secret body)

  -- Sign
  unfoldable pub sign : String → String → String
  sign secret body = signature_prefix +++ hex_encode (hmac secret body)

append_nil_left : (s : String) → String.[] +++ s ≡ s
append_nil_left s = λ i. append.nil s i

append_cons : (c : Char) (p s : String) → String.◌∷◌ c p +++ s ≡ String.◌∷◌ c (p +++ s)
append_cons c p s = λ i. append.cons c p s i

strip_prefix-append : (p s : String) → strip_prefix p (p +++ s) ≡ some s
unfolding strip_prefix
strip_prefix-append String.[] s = ap some (append_nil_left s)
strip_prefix-append (String.◌∷◌ c p) s =
    rw (append_cons c p s) (ground (arith, strip_prefix-append p s))

module _ (hmac : String → String → String) (hex_decode : String → Option String)
    (hex_encode : String → String) where
  mac_matched :
      (o : Option String) (mac : String)
      → mac_matches hmac hex_decode hex_encode o mac ≡ true
      → o ≡ some mac
  mac_matched none mac h = cc
  mac_matched (some got) mac h = ground (arith, eq_iff got mac)

  digits_matched :
      (o : Option String) (mac : String)
      → digits_match hmac hex_decode hex_encode o mac ≡ true
      → (digits : String) × (o ≡ some digits) × (hex_decode digits ≡ some mac)
  digits_matched none mac h = absurd (cc)
  digits_matched (some digits) mac h = (digits, refl, mac_matched (hex_decode digits) mac h)

  -- With a secret set: the signature that Sign makes of the body is accepted, given that package hex decodes what
  -- it encoded; and any header that is accepted is the prefix followed by digits that decode to
  -- the MAC of the body under the secret.
  pub verify_signature-sign :
      (secret header body : String)
      → hex_decode (hex_encode (hmac secret body)) ≡ some (hmac secret body)
      → secret ≢ ""
      → (verify_signature hmac hex_decode hex_encode secret
            (sign hmac hex_decode hex_encode secret body)
            body
          ≡ true)
        × (verify_signature hmac hex_decode hex_encode secret header body ≡ true
            → (digits : String) × (strip_prefix signature_prefix header ≡ some digits)
              × (hex_decode digits ≡ some (hmac secret body)))
  unfolding verify_signature sign
  verify_signature-sign secret header body decodes set = (
    rw (strip_prefix-append signature_prefix (hex_encode (hmac secret body)), decodes)
        (ground (arith, eq_iff secret "", eq_refl (hmac secret body))),
    λ h.
        digits_matched (strip_prefix signature_prefix header) (hmac secret body)
          (ground (arith, eq_iff secret "")),
  )
