-- ===== src/Receiver/Handler.antt =====
-- internal/receiver/handler.go: one webhook request from the body to the answer. The bus, json.Unmarshal,
-- the clock and the context are what the request meets.
use antwatcher.Prelude.{
  ℕ, ◌+◌, ◌-◌, Bool, ◌||◌, Option, none, some, List, ◌∷◌, String, if◌then◌else◌, str_eq,
}
use antwatcher.Prelude.Errors.{Err, Result, ok, err, is, deadline_exceeded, text}
use antwatcher.Event.Envelope.{Envelope, Headers, PayloadHead, trim_space, from_webhook}
use antwatcher.Event.Message.{Message, to_message}
use antwatcher.Receiver.Signature.{verify_signature}

-- What reading the bounded body gives: io.ReadAll of http.MaxBytesReader.
pub data Body : Type 0 where
  bytes : String → Body
  too_large : Body
  broken : Err → Body

pub record Request : Type 0 where
  pub body : Body
  pub signature : String
  pub headers : Headers

-- The results of antwatcher_webhooks_total.
pub data WebhookResult : Type 0 where
  bad_request rejected_signature ping published publish_failed publish_timeout : WebhookResult

-- What the handler records: one sample per finished request (event label and result), the seconds of each
-- Publish as nanoseconds, and the requests in flight.
pub record Metrics : Type 0 where
  pub webhooks : List (String × WebhookResult)
  pub publish_seconds : List ℕ
  pub inflight : ℕ

-- The status code, the error text and the delivery of the JSON answer; "" where it has none.
pub record Response : Type 0 where
  pub code : ℕ
  pub error : String
  pub delivery : String

-- The parts of the handler and of its surroundings that a request uses.
pub record World : Type 0 where
  pub secret : String
  pub hmac : String → String → String
  pub hex_decode : String → Option String
  pub hex_encode : String → String
  pub decode_head : String → Result PayloadHead
  pub format_time : ℕ → String
  -- Bus.Publish: `none` is nil
  pub publish : Message → Option Err
  -- ctx.Err() is context.DeadlineExceeded after Publish
  pub expired : Bool
  -- the readings of now(): at the start, before and after Publish
  pub start : ℕ
  pub publish_start : ℕ
  pub publish_end : ℕ

-- A request's metrics, its answer, and the message given to Publish.
pub record Served : Type 0 where
  pub metrics : Metrics
  pub response : Response
  pub sent : Option Message

-- Handler.count
unfoldable pub count : String → WebhookResult → Metrics → Metrics
count event result m = record {
  webhooks = (event, result) ∷ m.webhooks;
  publish_seconds = m.publish_seconds;
  inflight = m.inflight;
}

-- unknownEvent
abbrev pub unknown_event : String
unknown_event = "unknown"

-- labelEvent
unfoldable pub label_event : String → String
label_event event = if str_eq event "" then unknown_event else event

-- An answer without a publish: writeError, or writeJSON for a ping.
abbrev pub answer : Metrics → String → WebhookResult → ℕ → String → String → Served
answer m event result code error delivery = record {
  metrics = count event result m;
  response = record { code = code; error = error; delivery = delivery };
  sent = none;
}

unfoldable pub observe : ℕ → Metrics → Metrics
observe t m = record {
  webhooks = m.webhooks;
  publish_seconds = t ∷ m.publish_seconds;
  inflight = m.inflight;
}

unfoldable pub failure : World → Err → WebhookResult
failure w e = if is deadline_exceeded e || w.expired then publish_timeout else publish_failed

-- serveWebhook behind Publish.
unfoldable pub answer_published : World → Envelope → Metrics → Option Err → Served
unfolding count failure
answer_published w env m (some e) = record {
  metrics = count env.event (failure w e) m;
  response = record { code = 503; error = "publish failed"; delivery = env.delivery_guid };
  sent = some (to_message w.format_time env);
}
answer_published w env m none = record {
  metrics = count env.event published m;
  response = record { code = 200; error = ""; delivery = env.delivery_guid };
  sent = some (to_message w.format_time env);
}

-- serveWebhook behind FromWebhook.
unfoldable pub serve_envelope : World → String → String → Metrics → Result Envelope → Served
unfolding count label_event observe answer_published
serve_envelope w guid event m (err e) = answer m (label_event event) bad_request 400 (text e) guid
serve_envelope w guid event m (ok env) =
    answer_published w env (observe (w.publish_end - w.publish_start) m)
      (w.publish (to_message w.format_time env))

-- serveWebhook behind the check of the signature.
unfoldable pub serve_verified : World → Headers → String → Metrics → Served
unfolding count serve_envelope
serve_verified w hdr body m =
    let guid = trim_space hdr.delivery in
    let event = trim_space hdr.event_name in
    if str_eq event "ping"
    then answer m "ping" ping 200 "" guid
    else serve_envelope w guid event m (from_webhook w.decode_head hdr body w.start)

-- serveWebhook behind the read of the body.
unfoldable pub serve_body : World → Request → Metrics → Body → Served
unfolding count serve_verified
serve_body w r m too_large = answer m unknown_event bad_request 413 "body exceeds max_body_bytes" ""
serve_body w r m (broken e) = answer m unknown_event bad_request 400 "read body" ""
serve_body w r m (bytes body) =
    if verify_signature w.hmac w.hex_decode w.hex_encode w.secret r.signature body
    then serve_verified w r.headers body m
    else answer m unknown_event rejected_signature 401 "invalid or missing X-Hub-Signature-256" ""

unfoldable pub enter : Metrics → Metrics
enter m = record {
  webhooks = m.webhooks;
  publish_seconds = m.publish_seconds;
  inflight = m.inflight + 1;
}

-- The deferred decrement.
unfoldable pub leave : Served → Served
leave s = record {
  metrics = record {
    webhooks = s.metrics.webhooks;
    publish_seconds = s.metrics.publish_seconds;
    inflight = s.metrics.inflight - 1;
  };
  response = s.response;
  sent = s.sent;
}

-- serveWebhook
unfoldable pub serve_webhook : World → Request → Metrics → Served
unfolding enter leave serve_body
serve_webhook w r m = leave (serve_body w r (enter m) r.body)
