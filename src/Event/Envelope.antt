-- ===== src/Event/Envelope.antt =====
-- internal/event/envelope.go: the envelope and what builds it from a webhook request. A text stands
-- for a header value or a body that is UTF-8; times are nanoseconds since Go's zero `Time`.
use Prim.Native.Char.{code}
use antwatcher.Prelude.{
  ℕ, Bool, false, not, ◌&&◌, ◌||◌, Option, none, some, String, ◌==◌, leb, if◌then◌else◌, str_eq,
}
use antwatcher.Prelude.Int.{ℤ, pos}
use antwatcher.Prelude.Errors.{
  sentinel, missing_delivery, missing_event, invalid_payload, joined, Result, ok, err,
}

-- SchemaVersion
abbrev pub schema_version_written : ℕ
schema_version_written = 1

pub record Envelope : Type 0 where
  pub schema_version : ℤ
  pub delivery_guid : String
  pub event : String
  pub action : String
  pub hook_id : String
  pub received_at : ℕ
  pub repository_id : ℤ
  pub repository : String
  pub forwarded_by : String
  pub forward_hops : ℤ
  pub payload : String

-- The values of the three request headers; "" where one is missing.
pub record Headers : Type 0 where
  pub delivery : String
  pub event_name : String
  pub hook : String

pub record RepositoryHead : Type 0 where
  pub id : ℤ
  pub full_name : String

-- payloadHead
pub record PayloadHead : Type 0 where
  pub head_action : String
  pub head_repository : Option RepositoryHead

-- unicode.IsSpace
unfoldable pub is_space : ℕ → Bool
is_space c =
    (leb 9 c && leb c 13)
    || c == 32
    || c == 0x85
    || c == 0xa0
    || c == 0x1680
    || (leb 0x2000 c && leb c 0x200a)
    || c == 0x2028
    || c == 0x2029
    || c == 0x202f
    || c == 0x205f
    || c == 0x3000

unfoldable pub trim_left : String → String
unfolding is_space
trim_left String.[] = String.[]
trim_left (String.◌∷◌ c s) =
    let rest = trim_left s in if is_space (code c) then rest else String.◌∷◌ c s

-- Drops the spaces at the end: `c` stays where it is no space or something stays behind it.
unfoldable pub trim_right : String → String
unfolding is_space
trim_right String.[] = String.[]
trim_right (String.◌∷◌ c s) = elim (trim_right s) [
  | String.[] ↦ if is_space (code c) then String.[] else String.◌∷◌ c String.[]
  | String.◌∷◌ d t ↦ String.◌∷◌ c (String.◌∷◌ d t)
]

-- strings.TrimSpace
unfoldable pub trim_space : String → String
unfolding trim_left trim_right
trim_space s = trim_right (trim_left s)

-- `len(trimmed) == 0 || trimmed[0] != '{'` does not hold.
unfoldable pub starts_object : String → Bool
starts_object String.[] = false
starts_object (String.◌∷◌ c s) = code c == b'{'

abbrev repository_fields : Option RepositoryHead → ℤ × String
repository_fields none = (pos 0, "")
repository_fields (some r) = (r.id, r.full_name)

-- The envelope of a request whose body decoded.
unfoldable pub envelope_of : Headers → String → ℕ → PayloadHead → Envelope
unfolding trim_space
envelope_of hdr body now head = record {
  schema_version = pos schema_version_written;
  delivery_guid = trim_space hdr.delivery;
  event = trim_space hdr.event_name;
  action = head.head_action;
  hook_id = trim_space hdr.hook;
  received_at = now;
  repository_id = (repository_fields head.head_repository).0;
  repository = (repository_fields head.head_repository).1;
  forwarded_by = "";
  forward_hops = pos 0;
  payload = body;
}

-- FromWebhook behind the checks of the headers and of the first byte.
unfoldable pub decoded : Headers → String → ℕ → Result PayloadHead → Result Envelope
unfolding envelope_of
decoded hdr body now (err e) = err (joined (sentinel invalid_payload) ": " e)
decoded hdr body now (ok head) = ok (envelope_of hdr body now head)

-- FromWebhook. `decode_head` is json.Unmarshal into payloadHead.
unfoldable pub from_webhook : (String → Result PayloadHead) → Headers → String → ℕ → Result Envelope
unfolding decoded starts_object
from_webhook decode_head hdr body now =
    if str_eq (trim_space hdr.delivery) ""
    then err (sentinel missing_delivery)
    else if str_eq (trim_space hdr.event_name) ""
    then err (sentinel missing_event)
    else if not (starts_object (trim_space body))
    then err (sentinel invalid_payload)
    else decoded hdr body now (decode_head (trim_space body))
