-- ===== src/Receiver/Answers.antt =====
-- What an answer of the webhook handler means.
use antwatcher.Prelude.{
  ◌-◌, ◌≡◌, ◌≢◌, ◌⊎◌, refl, Bool, true, false, Option, none, some, ◌∷◌, String, arith, str_eq,
  eq_iff, ◌==◌, Bool-cases, inl, inr,
}
use antwatcher.Prelude.Errors.{Err, Result, ok, err}
use antwatcher.Event.Envelope.{Envelope, trim_space, from_webhook}
use antwatcher.Event.Message.{to_message}
use antwatcher.Receiver.Signature.{verify_signature}
use antwatcher.Receiver.Handler.{
  Body, bytes, too_large, broken, Request, WebhookResult, bad_request, rejected_signature, ping,
  published, publish_failed, publish_timeout, Metrics, World, Served, count, label_event, observe,
  failure, answer_published, serve_envelope, serve_verified, serve_body, enter, leave,
  serve_webhook, unknown_event,
}

-- The body was read and its signature verified.
abbrev pub IsAuthentic : World → Request → String → Type 0
IsAuthentic w r body =
    (r.body ≡ bytes body)
    × (verify_signature w.hmac w.hex_decode w.hex_encode w.secret r.signature body ≡ true)

-- The delivery of the request is on the bus.
abbrev pub IsPublished : World → Request → String → Served → Type 0
IsPublished w r body s =
    (env : Envelope) × (from_webhook w.decode_head r.headers body w.start ≡ ok env)
    × (s.sent ≡ some (to_message w.format_time env))
    × (w.publish (to_message w.format_time env) ≡ none)

-- What the status code says of the request, with the sample recorded for it.
abbrev pub IsCoded : World → Request → Metrics → Served → Type 0
IsCoded w r m s =
    (s.response.code ≡ 200
      → (body : String) × IsAuthentic w r body
        × (((trim_space r.headers.event_name ≡ "ping") × (s.sent ≡ none)) ⊎ IsPublished w r body s))
    × (s.sent ≢ none → (body : String) × IsAuthentic w r body)

published-IsCoded :
    (w : World) (r : Request) (body : String) (env : Envelope) (m : Metrics)
    → IsAuthentic w r body
    → from_webhook w.decode_head r.headers body w.start ≡ ok env
    → (o : Option Err) → w.publish (to_message w.format_time env) ≡ o
    → IsCoded w r m (answer_published w env m o)
unfolding answer_published
published-IsCoded w r body env m auth e none p =
    (λ h. (body, auth, inr (env, e, refl, p)), λ h. (body, auth))
published-IsCoded w r body env m auth e (some x) p = (λ h. absurd (omega arith), λ h. (body, auth))

envelope-IsCoded :
    (w : World) (r : Request) (body guid event : String) (m m' : Metrics)
    → IsAuthentic w r body
    → (e : Result Envelope) → from_webhook w.decode_head r.headers body w.start ≡ e
    → IsCoded w r m (serve_envelope w guid event m' e)
unfolding serve_envelope
envelope-IsCoded w r body guid event m m' auth (err x) e =
    (λ h. absurd (omega arith), λ h. absurd (h refl))
envelope-IsCoded w r body guid event m m' auth (ok env) e =
    published-IsCoded w r body env (observe (w.publish_end - w.publish_start) m') auth e
      (w.publish (to_message w.format_time env)) refl

verified-IsCoded :
    (w : World) (r : Request) (body : String) (m m' : Metrics)
    → IsAuthentic w r body
    → IsCoded w r m (serve_verified w r.headers body m')
unfolding serve_verified
verified-IsCoded w r body m m' auth =
    elim (Bool-cases (str_eq (trim_space r.headers.event_name) "ping")) [
      | inl e ↦ rw e (
        λ h. (body, auth, inl ((eq_iff (trim_space r.headers.event_name) "ping").0 e, refl)),
        λ h. absurd (h refl),
      )
      | inr e ↦ rw e (
          envelope-IsCoded w r body (trim_space r.headers.delivery)
            (trim_space r.headers.event_name) m m' auth
            (from_webhook w.decode_head r.headers body w.start) refl)
    ]

body-IsCoded :
    (w : World) (r : Request) (m m' : Metrics) (b : Body)
    → r.body ≡ b
    → IsCoded w r m (serve_body w r m' b)
unfolding serve_body
body-IsCoded w r m m' too_large e = (λ h. absurd (omega arith), λ h. absurd (h refl))
body-IsCoded w r m m' (broken x) e = (λ h. absurd (omega arith), λ h. absurd (h refl))
body-IsCoded w r m m' (bytes body) e =
    elim (Bool-cases
      (verify_signature w.hmac w.hex_decode w.hex_encode w.secret r.signature body)) [
        | inl v ↦ rw v (verified-IsCoded w r body m m' (e, v))
        | inr v ↦ rw v (λ h. absurd (omega arith), λ h. absurd (h refl))
      ]

-- GitHub sees a 200 only for an authentic request, and then it was either a ping, for which nothing was
-- published, or the message of its envelope was given to Publish and Publish returned nil; and
-- a message is given to Publish only for an authentic request.
pub serve_webhook-IsCoded :
    (w : World) (r : Request) (m : Metrics) → IsCoded w r m (serve_webhook w r m)
unfolding serve_webhook leave
serve_webhook-IsCoded w r m = body-IsCoded w r m (enter m) r.body refl

-- A delivery that Publish did not take is answered so that GitHub records a failure.
abbrev pub is_success : WebhookResult → Bool
is_success bad_request = false
is_success rejected_signature = false
is_success ping = true
is_success published = true
is_success publish_failed = false
is_success publish_timeout = false

-- The one sample of a request, the requests in flight, and the answer's class.
abbrev pub IsSampled : World → Request → Metrics → Metrics → Served → Type 0
IsSampled w r m entered s =
    (label : String) × (result : WebhookResult) × (s.metrics.webhooks
      ≡ (label, result) ∷ m.webhooks)
    × (s.metrics.inflight ≡ entered.inflight)
    × (label ≢ unknown_event → (body : String) × IsAuthentic w r body)
    × ((s.response.code == 200) ≡ is_success result)
    × (s.sent ≡ none → s.metrics.publish_seconds ≡ m.publish_seconds)

published-IsSampled :
    (w : World) (r : Request) (body : String) (env : Envelope) (m m' : Metrics)
    → IsAuthentic w r body
    → m'.webhooks ≡ m.webhooks
    → (o : Option Err) → IsSampled w r m m' (answer_published w env m' o)
unfolding answer_published count failure
published-IsSampled w r body env m m' auth e none =
    (env.event, published, rw e refl, refl, (λ h. (body, auth)), refl, λ h. absurd (cc))
published-IsSampled w r body env m m' auth e (some x) =
    (env.event, failure w x, rw e refl, refl, (λ h. (body, auth)), ground arith, λ h. absurd (cc))

envelope-IsSampled :
    (w : World) (r : Request) (body guid event : String) (m m' : Metrics)
    → IsAuthentic w r body
    → m'.webhooks ≡ m.webhooks
    → m'.publish_seconds ≡ m.publish_seconds
    → (e : Result Envelope) → IsSampled w r m m' (serve_envelope w guid event m' e)
unfolding serve_envelope count observe
envelope-IsSampled w r body guid event m m' auth e p (err x) =
    (label_event event, bad_request, rw e refl, refl, (λ h. (body, auth)), refl, λ h. p)
envelope-IsSampled w r body guid event m m' auth e p (ok env) =
    published-IsSampled w r body env m (observe (w.publish_end - w.publish_start) m') auth e
      (w.publish (to_message w.format_time env))

verified-IsSampled :
    (w : World) (r : Request) (body : String) (m m' : Metrics)
    → IsAuthentic w r body
    → m'.webhooks ≡ m.webhooks
    → m'.publish_seconds ≡ m.publish_seconds
    → IsSampled w r m m' (serve_verified w r.headers body m')
unfolding serve_verified count
verified-IsSampled w r body m m' auth e p =
    elim (Bool-cases (str_eq (trim_space r.headers.event_name) "ping")) [
      | inl v ↦ rw v ("ping", ping, rw e refl, refl, (λ h. (body, auth)), refl, λ h. p)
      | inr v ↦ rw v (
          envelope-IsSampled w r body (trim_space r.headers.delivery)
            (trim_space r.headers.event_name) m m' auth e p
            (from_webhook w.decode_head r.headers body w.start))
    ]

body-IsSampled :
    (w : World) (r : Request) (m m' : Metrics)
    → m'.webhooks ≡ m.webhooks
    → m'.publish_seconds ≡ m.publish_seconds
    → (b : Body) → r.body ≡ b
    → IsSampled w r m m' (serve_body w r m' b)
unfolding serve_body count
body-IsSampled w r m m' e p too_large b =
    (unknown_event, bad_request, rw e refl, refl, (λ h. absurd (h refl)), refl, λ h. p)
body-IsSampled w r m m' e p (broken x) b =
    (unknown_event, bad_request, rw e refl, refl, (λ h. absurd (h refl)), refl, λ h. p)
body-IsSampled w r m m' e p (bytes body) b =
    elim (Bool-cases
      (verify_signature w.hmac w.hex_decode w.hex_encode w.secret r.signature body)) [
        | inl v ↦ rw v (verified-IsSampled w r body m m' (b, v) e p)
        | inr v ↦ rw v (
          unknown_event,
          rejected_signature,
          rw e refl,
          refl,
          (λ h. absurd (h refl)),
          refl,
          λ h. p,
        )
      ]

left :
    (w : World) (r : Request) (m : Metrics) (s : Served)
    → IsSampled w r m (enter m) s
    → IsSampled w r m m (leave s)
unfolding enter leave
left w r m s (label, result, one, inflight, known, code, latency) =
    (label, result, one, omega (arith, inflight), known, code, latency)

-- Every request, whichever way it ends, records exactly one sample of antwatcher_webhooks_total and leaves
-- the requests in flight as they were; a label other than "unknown" is recorded only for an
-- authentic request; the answer is 200 exactly for the results ping and published; and a
-- latency is recorded only if Publish was called.
pub serve_webhook-IsSampled :
    (w : World) (r : Request) (m : Metrics) → IsSampled w r m m (serve_webhook w r m)
unfolding serve_webhook enter
serve_webhook-IsSampled w r m =
    left w r m (serve_body w r (enter m) r.body)
      (body-IsSampled w r m (enter m) refl refl r.body refl)
