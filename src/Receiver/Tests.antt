-- ===== src/Receiver/Tests.antt =====
-- Runs of the webhook handler, and the theorems at concrete inputs.
use antwatcher.Prelude.{
  ◌≡◌, ◌≢◌, refl, true, false, Option, none, some, [], ◌∷◌, String, ◌+++◌, arith, eq_iff,
}
use antwatcher.Prelude.Int.{pos}
use antwatcher.Prelude.Errors.{ok}
use antwatcher.Event.Envelope.{Envelope, PayloadHead, trim_space, from_webhook}
use antwatcher.Receiver.Signature.{
  verify_signature, sign, strip_prefix, signature_prefix, verify_signature-sign,
}
use antwatcher.Receiver.Handler.{World, Request, bytes, Metrics, serve_webhook, published}
use antwatcher.Receiver.Delivery.{IsSent, serve_webhook-IsSent}
use antwatcher.Receiver.Answers.{
  IsAuthentic, IsCoded, IsSampled, serve_webhook-IsCoded, serve_webhook-IsSampled,
}

abbrev mac : String → String → String
mac secret body = secret +++ body

-- Digits that are the bytes themselves.
abbrev decode_hex : String → Option String
decode_hex s = some s

abbrev encode_hex : String → String
encode_hex s = s

verify_signature-sign_example :
    (verify_signature mac decode_hex encode_hex "k" (sign mac decode_hex encode_hex "k" "{}") "{}"
      ≡ true)
    × (verify_signature mac decode_hex encode_hex "k" "sha256=k{}" "{}" ≡ true
        → (digits : String) × (strip_prefix signature_prefix "sha256=k{}" ≡ some digits)
          × (decode_hex digits ≡ some (mac "k" "{}")))
verify_signature-sign_example =
    verify_signature-sign mac decode_hex encode_hex "k" "sha256=k{}" "{}" refl
      (ground (arith, eq_iff "k" ""))

abbrev head : PayloadHead
head = record { head_action = "opened"; head_repository = none }

abbrev world : World
world = record {
  secret = "k";
  hmac = mac;
  hex_decode = decode_hex;
  hex_encode = encode_hex;
  decode_head = λ s. ok head;
  format_time = λ n. "1970-01-01T00:00:00Z";
  publish = λ m. none;
  expired = false;
  start = 5;
  publish_start = 6;
  publish_end = 8;
}

abbrev request : Request
request = record {
  body = bytes "{}";
  signature = "sha256=k{}";
  headers = record { delivery = "g"; event_name = "push"; hook = "1" };
}

abbrev idle : Metrics
idle = record { webhooks = []; publish_seconds = []; inflight = 0 }

-- The request is published and answered 200.
published_run : (serve_webhook world request idle).metrics.webhooks ≡ ("push", published) ∷ []
unfolding serve_webhook verify_signature strip_prefix trim_space from_webhook
published_run = refl

serve_webhook-IsCoded_example : IsCoded world request idle (serve_webhook world request idle)
serve_webhook-IsCoded_example = serve_webhook-IsCoded world request idle

serve_webhook-IsSampled_example :
    IsSampled world request idle idle (serve_webhook world request idle)
serve_webhook-IsSampled_example = serve_webhook-IsSampled world request idle

abbrev envelope : Envelope
envelope = record {
  schema_version = pos 1;
  delivery_guid = "g";
  event = "push";
  action = "opened";
  hook_id = "1";
  received_at = 5;
  repository_id = pos 0;
  repository = "";
  forwarded_by = "";
  forward_hops = pos 0;
  payload = "{}";
}

built : from_webhook world.decode_head request.headers "{}" 5 ≡ ok envelope
unfolding from_webhook
built = refl

authentic : IsAuthentic world request "{}"
unfolding verify_signature strip_prefix
authentic = (refl, refl)

no_ping : trim_space request.headers.event_name ≢ "ping"
unfolding trim_space
no_ping = ground (arith, eq_iff "push" "ping")

serve_webhook-IsSent_example : IsSent world envelope none (serve_webhook world request idle)
serve_webhook-IsSent_example =
    serve_webhook-IsSent world request idle "{}" envelope authentic no_ping built
