-- ===== src/Sink/Router/Delivery.antt =====
-- When a message is acked, what is kept of it when it is not, and what is counted.
use antwatcher.Prelude.{
  ℕ, ◌+◌, ◌-◌, ◌≡◌, ◌↔◌, inl, inr, true, false, Option, none, some, List, [], ◌∷◌, String, arith,
  if◌then◌else◌, eq_refl, Bool-cases,
}
use antwatcher.Prelude.Dict.{lookup}
use antwatcher.Prelude.Errors.{Err, message, wrap, skipped, is, Result, ok, err}
use antwatcher.Event.Envelope.{Envelope}
use antwatcher.Event.Message.{Message, from_message}
use antwatcher.Sink.Errors.{is_permanent, mark_permanent, mark_permanent-is_permanent}
use antwatcher.Sink.Stalled.{StalledSet, record_failure, clear}
use antwatcher.Sink.Stalled.Invariant.{IsValid, clear_lem, stalled_IsValid}
use antwatcher.Sink.Router.{
  Handler, Clock, LogLine, failed_redelivers, EventResult, sink_ok, sink_error, sink_skipped,
  handle, handle_decoded, conclude, succeeded, stall, count,
}

-- The sink has done with the event: Process returned nil, or said that it skips it.
abbrev pub IsDone : Option Err → Type 0
IsDone none = Unit
IsDone (some e) = is skipped e ≡ true

-- The message decodes and the sink has done with its event.
abbrev pub IsDelivered : (Envelope → Option Err) → Result Envelope → Type 0
IsDelivered process (err e) = ⊥
IsDelivered process (ok env) = IsDone (process env)

conclude_acked :
    (o : Option Err) (uuid : String) (c : Clock) (h : Handler)
    → ((conclude o uuid c h).1 ≡ none) ↔ IsDone o
unfolding conclude
conclude_acked none uuid c h = ground arith
conclude_acked (some e) uuid c h = ground arith

handle_decoded_acked :
    (process : Envelope → Option Err) (r : Result Envelope) (uuid : String) (c : Clock)
    (h : Handler)
    → ((handle_decoded process r uuid c h).1 ≡ none) ↔ IsDelivered process r
unfolding handle_decoded
handle_decoded_acked process (err e) uuid c h = ground arith
handle_decoded_acked process (ok env) uuid c h =
    conclude_acked (process env) uuid c
      (record h { process_seconds = (c.ended - c.start) ∷ h.process_seconds })

-- A message is acked exactly when it decodes into an envelope that the sink processed or skipped:
-- an undecodable one and one that failed in any way, permanent or not, stay on the bus.
pub handle_acked :
    (parse_time : String → Option ℕ) (process : Envelope → Option Err) (msg : Message) (c : Clock)
    (h : Handler)
    → ((handle parse_time process msg c h).1 ≡ none)
      ↔ IsDelivered process (from_message parse_time msg)
unfolding handle
handle_acked parse_time process msg c h =
    handle_decoded_acked process (from_message parse_time msg) msg.uuid c h

abbrev pub total : Handler → ℕ
total h = h.ok_total + h.error_total + h.permanent_total + h.skipped_total

-- What holds after a call on the handler `h` that returned the handler `h'` and the error `o`.
pub record IsAccounted (uuid : String) (now : ℕ) (h h' : Handler) (o : Option Err) : Type 0 where
  pub counted_once : total h' ≡ total h + 1
  pub valid : IsValid h'.stalled
  pub acked : o ≡ none → (lookup uuid h'.stalled.entries ≡ none) × (h'.last_success ≡ now)
  pub retried :
      (e : Err)
      → o ≡ some e
      → is_permanent e ≡ false
      → (h'.stalled ≡ h.stalled)
        × (h'.error_total ≡ h.error_total + 1)
        × (h'.last_success ≡ h.last_success)
  pub held :
      (e : Err)
      → o ≡ some e
      → is_permanent e ≡ true
      → (h'.stalled ≡ (record_failure uuid e now h.stalled).0)
        × (h'.permanent_total ≡ h.permanent_total + 1)
        × (h'.last_success ≡ h.last_success)

-- The clear of a success, in the form that the invariant gives it.
cleared :
    (uuid : String) (set : StalledSet)
    → IsValid set
    → IsValid (clear uuid set).0 × (lookup uuid (clear uuid set).0.entries ≡ none)
cleared uuid set v = (
  (stalled_IsValid "" false uuid (message "") 0 set v).2,
  ground (arith, clear_lem uuid uuid set v, eq_refl uuid),
)

succeeded-IsAccounted :
    (uuid : String) (now : ℕ) (h : Handler) (r : EventResult)
    → IsValid h.stalled
    → IsAccounted uuid now h (succeeded h uuid r now).0 none
unfolding succeeded count
succeeded-IsAccounted uuid now h sink_ok v = ground (arith, cleared uuid h.stalled v)
succeeded-IsAccounted uuid now h r v = ground (arith, cleared uuid h.stalled v)

stall-IsAccounted :
    (uuid : String) (now : ℕ) (h : Handler) (e : Err)
    → IsValid h.stalled
    → is_permanent e ≡ true
    → IsAccounted uuid now h (stall h uuid e now).0 (some e)
unfolding stall count
stall-IsAccounted uuid now h e v p = ground (arith, stalled_IsValid "" false uuid e now h.stalled v)

failed-IsAccounted :
    (e : Err) (uuid : String) (c : Clock) (h : Handler)
    → IsValid h.stalled
    → let out : Handler × Option Err × List LogLine =
        if is_permanent e
        then stall h uuid e c.at
        else (count h sink_error, some e, failed_redelivers ∷ []) in
      IsAccounted uuid c.at h out.0 out.1
unfolding count stall
failed-IsAccounted e uuid c h v = elim (Bool-cases (is_permanent e)) [
  | inl p ↦ rw p (stall-IsAccounted uuid c.at h e v p)
  | inr p ↦ rw p (ground arith)
]

conclude-IsAccounted :
    (o : Option Err) (uuid : String) (c : Clock) (h : Handler)
    → IsValid h.stalled
    → IsAccounted uuid c.at h (conclude o uuid c h).0 (conclude o uuid c h).1
unfolding conclude
conclude-IsAccounted none uuid c h v = succeeded-IsAccounted uuid c.at h sink_ok v
conclude-IsAccounted (some e) uuid c h v = elim (Bool-cases (is skipped e)) [
  | inl s ↦ rw s (succeeded-IsAccounted uuid c.at h sink_skipped v)
  | inr s ↦ rw s (failed-IsAccounted e uuid c h v)
]

handle_decoded-IsAccounted :
    (process : Envelope → Option Err) (r : Result Envelope) (uuid : String) (c : Clock)
    (h : Handler)
    → IsValid h.stalled
    → let out = handle_decoded process r uuid c h in IsAccounted uuid c.at h out.0 out.1
unfolding handle_decoded
handle_decoded-IsAccounted process (err e) uuid c h v =
    stall-IsAccounted uuid c.at h (mark_permanent (wrap "decode message: " e "")) v
      (mark_permanent-is_permanent (wrap "decode message: " e ""))
handle_decoded-IsAccounted process (ok env) uuid c h v =
    let sampled : Handler = record h {
      process_seconds = (c.ended - c.start) ∷ h.process_seconds;
    } in
    let a = conclude-IsAccounted (process env) uuid c sampled v in
    record {
      counted_once = a.counted_once;
      valid = a.valid;
      acked = a.acked;
      retried = a.retried;
      held = a.held;
    }

-- Every call on a handler with a valid stalled set counts the message under exactly one result and
-- leaves the set valid. After an ack the message is not stalled and the call is the last success.
-- A retryable error changes neither, and counts as an error. A permanent error is recorded in
-- the stalled set, and is no success.
pub handle-IsAccounted :
    (parse_time : String → Option ℕ) (process : Envelope → Option Err) (msg : Message) (c : Clock)
    (h : Handler)
    → IsValid h.stalled
    → let out = handle parse_time process msg c h in IsAccounted msg.uuid c.at h out.0 out.1
unfolding handle
handle-IsAccounted parse_time process msg c h v =
    handle_decoded-IsAccounted process (from_message parse_time msg) msg.uuid c h v
