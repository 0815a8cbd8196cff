-- ===== src/Sink/Tests.antt =====
-- Runs of the sink side, and the theorems at concrete inputs.
use antwatcher.Prelude.{
  ℕ, ◌≡◌, refl, not, true, Option, none, some, List, [], ◌∷◌, String, arith, str_eq, if◌then◌else◌,
  ◌↔◌,
}
use antwatcher.Prelude.Dict.{lookup, insert}
use antwatcher.Prelude.Decimal.{format_int, parse_int}
use antwatcher.Prelude.Int.{pos}
use antwatcher.Prelude.Errors.{Err, message, permanent, ok}
use antwatcher.Event.Envelope.{Envelope}
use antwatcher.Event.Message.{
  Message, from_message, to_message, metadata_of, required, optional_int, guid_of, version_of,
  time_of, set_if,
}
use antwatcher.Bus.Contract.{Capabilities, retention_time, known, earliest}
use antwatcher.Bus.Policy.{fail, resolve_consumer}
use antwatcher.Sink.Contract.{Instance, trace, consumer_name}
use antwatcher.Sink.Stalled.{StalledSet, record_failure, new_stalled_set}
use antwatcher.Sink.Stalled.Invariant.{IsValid, stalled_IsValid}
use antwatcher.Sink.Stalled.Pacing.{
  Report, failed, succeeded, apply_all, attempts_of, failures_since, apply_all-attempts_of,
}
use antwatcher.Sink.Router.{Handler, Clock, handle}
use antwatcher.Sink.Router.Delivery.{IsAccounted, handle-IsAccounted, IsDelivered, handle_acked}
use antwatcher.Sink.Router.Redelivery.{Attempt, redeliver, redeliver_lem, IsSettled, Succeeds}
use antwatcher.Sink.Router.Build.{
  BusView, Takes, router_built, registered, subscribed, bind_resolved, bind, bind_next, bind_all,
  build_router, new_handler,
}
use antwatcher.Sink.Router.Build.Ends.{Built, build_router_lem}
use antwatcher.Sink.Registry.Ownership.{has_text, IsDistinct}

abbrev empty_set : StalledSet
empty_set = record {
  sink = "spans";
  metered = true;
  entries = [];
  untracked = 0;
  stalled_gauge = 0;
  messages_gauge = 0;
}

empty_set-IsValid : IsValid empty_set
empty_set-IsValid = record {
  keys_once = tt;
  bounded = omega arith;
  messages_shown = λ h. refl;
  stalled_shown = λ h. refl;
}

abbrev denied : Err
denied = permanent (message "denied")

abbrev one_failed : StalledSet
one_failed = (record_failure "a" denied 5 empty_set).0

one_failed-IsValid : IsValid one_failed
one_failed-IsValid = (stalled_IsValid "s" true "a" denied 5 empty_set empty_set-IsValid).1

abbrev reports : List Report
reports = failed "a" denied 1 ∷ failed "b" denied 2 ∷ failed "a" denied 3 ∷ succeeded "b" ∷ []

apply_all-attempts_of_example :
    attempts_of "a" (apply_all empty_set reports)
    ≡ failures_since "a" (attempts_of "a" empty_set) reports
apply_all-attempts_of_example =
    apply_all-attempts_of "a" empty_set reports (unfold lookup in omega arith)

two_attempts : attempts_of "a" (apply_all empty_set reports) ≡ 2
unfolding lookup
two_attempts = apply_all-attempts_of "a" empty_set reports (omega arith)

abbrev three_failures : List (Err × ℕ)
three_failures = (denied, 1) ∷ (denied, 2) ∷ (denied, 3) ∷ []

abbrev caps : Capabilities
caps = record {
  durable_publish = true;
  durable_consumers = true;
  fan_out = true;
  historical_replay = true;
  deduplicates = true;
  reports_lag = true;
  retention = retention_time;
}

abbrev inst : Instance
inst = record { name = "spans"; class = trace; start_from = known earliest; driver = "otlp" }

abbrev bus : BusView
bus = record { capabilities = caps; subscribe = λ c p. none }

abbrev handler : Handler
handler = new_handler inst earliest []

abbrev envelope : Envelope
envelope = record {
  schema_version = pos 1;
  delivery_guid = "g";
  event = "workflow_run";
  action = "completed";
  hook_id = "";
  received_at = 7;
  repository_id = pos 42;
  repository = "o/r";
  forwarded_by = "";
  forward_hops = pos 0;
  payload = "{}";
}

-- A stand-in for the text of the one time that the tests use.
abbrev parse_seven : String → Option ℕ
parse_seven t = if str_eq t "7" then some 7 else none

abbrev msg : Message
msg = to_message (λ t. "7") envelope

abbrev clock : Clock
clock = record { start = 10; ended = 12; at = 13 }

abbrev accepts : Envelope → Option Err
accepts e = none

abbrev refuses : Envelope → Option Err
refuses e = some denied

msg_decodes : from_message parse_seven msg ≡ ok envelope
unfolding from_message to_message metadata_of required optional_int guid_of version_of time_of
    set_if lookup insert format_int parse_int
msg_decodes = refl

handler-IsValid : IsValid handler.stalled
unfolding new_handler new_stalled_set
handler-IsValid = empty_set-IsValid

handle_acked_example :
    ((handle parse_seven accepts msg clock handler).1 ≡ none)
    ↔ IsDelivered accepts (from_message parse_seven msg)
handle_acked_example = handle_acked parse_seven accepts msg clock handler

handle-IsAccounted_example :
    let out = handle parse_seven refuses msg clock handler in
    IsAccounted msg.uuid clock.at handler out.0 out.1
handle-IsAccounted_example =
    handle-IsAccounted parse_seven refuses msg clock handler handler-IsValid

abbrev attempts : List Attempt
attempts =
    record { process = refuses; clock = clock } ∷ record { process = accepts; clock = clock } ∷ []

redeliver_lem_example :
    (((redeliver parse_seven msg attempts handler).1 ≡ true) ↔ Succeeds parse_seven msg attempts)
    × IsSettled msg handler (redeliver parse_seven msg attempts handler)
redeliver_lem_example = redeliver_lem parse_seven msg attempts handler handler-IsValid

-- AddConsumerHandler, by its documentation.
abbrev takes_new : Takes
takes_new names name = not (has_text name names)

abbrev other_inst : Instance
other_inst = record inst { name = "archive" }

names_differ : IsDistinct ("spans" ∷ "archive" ∷ [])
names_differ = (refl, (refl, tt))

build_router_lem_example :
    Built bus fail
      (inst ∷ other_inst ∷ [])
      []
      (build_router takes_new (some bus) true (pos 60) (pos 30) none fail (inst ∷ other_inst ∷ []))
build_router_lem_example =
    build_router_lem takes_new bus (pos 60) (pos 30) fail (inst ∷ other_inst ∷ [])
      (λ names name. refl) names_differ refl refl

-- Both sinks are bound.
bound_run :
    bind_all takes_new bus fail (inst ∷ other_inst ∷ []) []
    ≡ router_built (handler ∷ new_handler other_inst handler.effective handler.warnings ∷ [])
unfolding bind_all bind bind_resolved subscribed registered resolve_consumer bind_next consumer_name
bound_run = refl
