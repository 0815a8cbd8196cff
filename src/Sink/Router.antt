-- ===== src/Sink/Router.antt =====
-- internal/sink/router.go, the handler of one sink: what becomes of a message. The sink's Process is
-- a function from the envelope to its error (`none` is nil); the clock readings are arguments.
pub mod Delivery
pub mod Redelivery
pub mod Build
use antwatcher.Prelude.{
  ℕ, ◌+◌, ◌-◌, Bool, true, false, Option, none, some, List, [], ◌∷◌, String, ◌==◌, if◌then◌else◌,
}
use antwatcher.Prelude.Errors.{Err, wrap, skipped, is, Result, ok, err}
use antwatcher.Event.Envelope.{Envelope}
use antwatcher.Event.Message.{Message, from_message}
use antwatcher.Bus.Contract.{StartPosition}
use antwatcher.Bus.Policy.{Warning}
use antwatcher.Sink.Contract.{Instance}
use antwatcher.Sink.Errors.{is_permanent, mark_permanent}
use antwatcher.Sink.Stalled.{StalledSet, StalledEntry, record_failure, clear, list}

-- The label of antwatcher_sink_events_total.
pub data EventResult : Type 0 where
  sink_ok sink_error sink_permanent sink_skipped : EventResult

-- The log lines of a handler, without their fields.
pub data LogLine : Type 0 where
  processed skipped_event stalled_processed failed_redelivers stalled_error stalled_again : LogLine

pub record Handler : Type 0 where
  pub inst : Instance
  pub consumer : String
  pub effective : StartPosition
  pub warnings : List Warning
  pub stalled : StalledSet
  pub last_success : ℕ
  pub last_success_gauge : ℕ
  pub ok_total : ℕ
  pub error_total : ℕ
  pub permanent_total : ℕ
  pub skipped_total : ℕ
  pub process_seconds : List ℕ

-- The clock of one call: before and after Process, and when the outcome is recorded.
pub record Clock : Type 0 where
  pub start : ℕ
  pub ended : ℕ
  pub at : ℕ

-- count
unfoldable pub count : Handler → EventResult → Handler
count h sink_ok = record h { ok_total = h.ok_total + 1 }
count h sink_error = record h { error_total = h.error_total + 1 }
count h sink_permanent = record h { permanent_total = h.permanent_total + 1 }
count h sink_skipped = record h { skipped_total = h.skipped_total + 1 }

-- succeeded
unfoldable pub succeeded : Handler → String → EventResult → ℕ → Handler × List LogLine
unfolding count
succeeded h uuid result now =
    let h' = count h result in
    let (set, cleared) = clear uuid h'.stalled in
    (
      record h' { stalled = set; last_success = now; last_success_gauge = now },
      if cleared then stalled_processed ∷ [] else [],
    )

-- stall: the message's error is returned, so that it is Nacked.
unfoldable pub stall : Handler → String → Err → ℕ → Handler × Option Err × List LogLine
unfolding count
stall h uuid e now =
    let h' = count h sink_permanent in
    let (set, attempts, log_now) = record_failure uuid e now h'.stalled in
    (
      record h' { stalled = set },
      some e,
      if log_now then stalled_error ∷ [] else stalled_again ∷ [],
    )

-- The `switch` of handle on what Process returned.
unfoldable pub conclude :
    Option Err → String → Clock → Handler → Handler × Option Err × List LogLine
unfolding succeeded stall count
conclude none uuid c h =
    let (h', lines) = succeeded h uuid sink_ok c.at in (h', none, processed ∷ lines)
conclude (some e) uuid c h =
    let (h', lines) = succeeded h uuid sink_skipped c.at in
    if is skipped e
    then (h', none, skipped_event ∷ lines)
    else if is_permanent e
    then stall h uuid e c.at
    else (count h sink_error, some e, failed_redelivers ∷ [])

-- handle behind the decoding.
unfoldable pub handle_decoded :
    (Envelope → Option Err)
    → Result Envelope
    → String
    → Clock
    → Handler
    → Handler × Option Err × List LogLine
unfolding conclude stall
handle_decoded process (err e) uuid c h =
    stall h uuid (mark_permanent (wrap "decode message: " e "")) c.at
handle_decoded process (ok env) uuid c h =
    conclude (process env) uuid c
      (record h { process_seconds = (c.ended - c.start) ∷ h.process_seconds })

-- handle: `none` acks the message and an error Nacks it.
unfoldable pub handle :
    (String → Option ℕ)
    → (Envelope → Option Err)
    → Message
    → Clock
    → Handler
    → Handler × Option Err × List LogLine
unfolding handle_decoded
handle parse_time process msg c h =
    handle_decoded process (from_message parse_time msg) msg.uuid c h

-- SinkStatus
pub record SinkStatus : Type 0 where
  pub inst : Instance
  pub consumer : String
  pub effective_start_from : StartPosition
  pub warnings : List Warning
  pub last_success : Option ℕ
  pub stalled : List StalledEntry

-- `!last.IsZero()`
abbrev present : ℕ → Option ℕ
present t = if t == 0 then none else some t

-- status
unfoldable pub status : Handler → SinkStatus
status h = record {
  inst = h.inst;
  consumer = h.consumer;
  effective_start_from = h.effective;
  warnings = h.warnings;
  last_success = present h.last_success;
  stalled = list h.stalled;
}
