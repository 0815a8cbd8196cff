-- ===== src/Event/Tests.antt =====
-- The envelope at a concrete request.
use antwatcher.Prelude.{
  ℕ, ◌≡◌, refl, Option, none, some, String, arith, str_eq, if◌then◌else◌, eq_iff,
}
use antwatcher.Prelude.Int.{pos}
use antwatcher.Prelude.Errors.{Result, ok, err, message}
use antwatcher.Event.Envelope.{Envelope, Headers, PayloadHead, from_webhook}
use antwatcher.Event.Message.{from_message, to_message}
use antwatcher.Event.Message.RoundTrip.{IsWritable, from_message-to_message}

abbrev headers : Headers
headers = record { delivery = " guid-1 "; event_name = "push"; hook = "7" }

abbrev head : PayloadHead
head = record {
  head_action = "opened";
  head_repository = some (record { id = pos 5; full_name = "a/b" });
}

abbrev decode : String → Result PayloadHead
decode s = if str_eq s "{}" then ok head else err (message "bad")

abbrev envelope : Envelope
envelope = record {
  schema_version = pos 1;
  delivery_guid = "guid-1";
  event = "push";
  action = "opened";
  hook_id = "7";
  received_at = 12;
  repository_id = pos 5;
  repository = "a/b";
  forwarded_by = "";
  forward_hops = pos 0;
  payload = "{} ";
}

built : from_webhook decode headers "{} " 12 ≡ ok envelope
unfolding from_webhook
built = refl

-- A clock that writes one time and reads it back.
abbrev write_time : ℕ → String
write_time n = "1970-01-01T00:00:00Z"

abbrev read_time : String → Option ℕ
read_time s = if str_eq s "1970-01-01T00:00:00Z" then some 12 else none

envelope-IsWritable : IsWritable envelope
envelope-IsWritable = record {
  has_guid = ground (arith, eq_iff "guid-1" "");
  has_event = ground (arith, eq_iff "push" "");
  version_is = refl;
  id_value = (5, omega arith, refl);
  hops_value = (0, omega arith, refl);
}

from_message-to_message_example :
    from_message read_time (to_message write_time envelope) ≡ ok envelope
from_message-to_message_example =
    from_message-to_message write_time read_time envelope refl refl envelope-IsWritable
