-- ===== src/Receiver/Delivery.antt =====
-- A delivery reaches the bus.
use antwatcher.Prelude.{
  ◌≡◌, ◌-◌, ◌≢◌, refl, false, Option, none, some, String, str_eq, eq_iff, is_some, if◌then◌else◌,
  arith,
}
use antwatcher.Prelude.Errors.{Err, ok}
use antwatcher.Event.Envelope.{Envelope, trim_space, from_webhook}
use antwatcher.Event.Message.{to_message}
use antwatcher.Receiver.Handler.{
  World, Request, Metrics, Served, observe, serve_body, serve_verified, serve_envelope,
  answer_published, leave, enter, serve_webhook,
}
use antwatcher.Receiver.Answers.{IsAuthentic}

-- The message of the envelope was given to Publish, and the answer tells of what Publish returned.
abbrev pub IsSent : World → Envelope → Option Err → Served → Type 0
IsSent w env o s =
    (s.sent ≡ some (to_message w.format_time env))
    × (s.response.code ≡ (if is_some o then 503 else 200))
    × (s.response.delivery ≡ env.delivery_guid)

answer_published-IsSent :
    (w : World) (env : Envelope) (m : Metrics) (o : Option Err)
    → IsSent w env o (answer_published w env m o)
unfolding answer_published
answer_published-IsSent w env m none = (refl, refl, refl)
answer_published-IsSent w env m (some e) = (refl, refl, refl)

not_ping : (event : String) → event ≢ "ping" → str_eq event "ping" ≡ false
not_ping event h = ground (arith, eq_iff event "ping")

-- An authentic request that is no ping and of which an envelope is built has its message given to Publish, and is
-- answered with the delivery's GUID: 200 if Publish returned nil, and 503 if it returned an error.
pub serve_webhook-IsSent :
    (w : World) (r : Request) (m : Metrics) (body : String) (env : Envelope)
    → IsAuthentic w r body
    → trim_space r.headers.event_name ≢ "ping"
    → from_webhook w.decode_head r.headers body w.start ≡ ok env
    → IsSent w env (w.publish (to_message w.format_time env)) (serve_webhook w r m)
unfolding serve_webhook serve_body serve_verified serve_envelope leave
serve_webhook-IsSent w r m body env (read, verified) other built =
    rw (read, verified, not_ping (trim_space r.headers.event_name) other, built)
      (answer_published-IsSent w env (observe (w.publish_end - w.publish_start) (enter m))
        (w.publish (to_message w.format_time env)))
