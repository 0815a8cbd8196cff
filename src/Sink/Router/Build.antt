-- ===== src/Sink/Router/Build.antt =====
-- internal/sink/router.go, the router: one consumer for each sink, and the close.
pub mod Ends
use antwatcher.Prelude.{
  ◌≡◌, refl, sym, ap, Bool, true, false, Option, none, some, List, [], ◌∷◌, ◌++◌, append_assoc,
  append-nil, map, String, ◌+++◌, arith, if◌then◌else◌, quoted,
}
use antwatcher.Prelude.Int.{ℤ, pos, leb_ℤ}
use antwatcher.Prelude.Errors.{Err, message, wrap, join, Result, ok, err}
use antwatcher.Bus.Contract.{StartPosition, Capabilities}
use antwatcher.Bus.Policy.{Mode, Warning, resolve_consumer}
use antwatcher.Sink.Contract.{Instance, consumer_name}
use antwatcher.Sink.Stalled.{new_stalled_set}
use antwatcher.Sink.Router.{Handler, SinkStatus, status}

-- What the router uses of a bus: its capabilities, and Subscribe, whose error is `none` for nil.
pub record BusView : Type 0 where
  pub capabilities : Capabilities
  pub subscribe : String → StartPosition → Option Err

-- The handler of a bound sink.
unfoldable pub new_handler : Instance → StartPosition → List Warning → Handler
new_handler inst effective warnings = record {
  inst = inst;
  consumer = consumer_name inst.name;
  effective = effective;
  warnings = warnings;
  stalled = new_stalled_set inst.name true;
  last_success = 0;
  last_success_gauge = 0;
  ok_total = 0;
  error_total = 0;
  permanent_total = 0;
  skipped_total = 0;
  process_seconds = [];
}

-- Whether AddConsumerHandler of the library's router takes a handler of this name beside those that it has; it panics
-- otherwise.
abbrev pub Takes : Type 0
Takes = List String → String → Bool

-- How a call of bind ends; `bind_panicked` has the name that the library's router did not take.
pub data Binding : Type 0 where
  bind_ok : Handler → Binding
  bind_failed : Err → Binding
  bind_panicked : String → Binding

unfoldable pub registered : Takes → List String → Handler → Binding
registered takes names h = if takes names h.consumer then bind_ok h else bind_panicked h.consumer

-- bind behind Subscribe.
unfoldable pub subscribed :
    Takes → List String → Instance → StartPosition → List Warning → Option Err → Binding
unfolding registered new_handler
subscribed takes names inst effective warnings (some e) = bind_failed (
    wrap
      ("sink "
        +++ quoted inst.name
        +++ ": create consumer "
        +++ quoted (consumer_name inst.name)
        +++ ": ")
      e "")
subscribed takes names inst effective warnings none =
    registered takes names (new_handler inst effective warnings)

-- bind behind the policy; `names` are those of the handlers registered so far.
unfoldable pub bind_resolved :
    Takes → BusView → List String → Instance → Result (StartPosition × List Warning) → Binding
unfolding subscribed
bind_resolved takes b names inst (err e) =
    bind_failed (wrap ("sink " +++ quoted inst.name +++ ": ") e "")
bind_resolved takes b names inst (ok (effective, warnings)) =
    subscribed takes names inst effective warnings (b.subscribe (consumer_name inst.name) effective)

-- bind
unfoldable pub bind : Takes → BusView → Mode → List String → Instance → Binding
unfolding bind_resolved
bind takes b mode names inst =
    bind_resolved takes b names inst (resolve_consumer b.capabilities inst.start_from mode)

-- How BuildRouter ends: with the router's handlers, with an error and the consumers it has closed, or with the panic of
-- the library's router, which closes nothing.
pub data Startup : Type 0 where
  router_built : List Handler → Startup
  build_failed : Err → List String → Startup
  build_panicked : String → Startup

-- One round of the loop: a failure closes the consumers created so far, and `next` is the rest.
unfoldable pub bind_next : Binding → (List Handler → Startup) → List Handler → Startup
bind_next (bind_failed e) next hs = build_failed e (map (λ h. h.consumer) hs)
bind_next (bind_panicked name) next hs = build_panicked name
bind_next (bind_ok h) next hs = next (hs ++ h ∷ [])

-- The loop of BuildRouter, from the handlers `hs` bound so far.
unfoldable pub bind_all : Takes → BusView → Mode → List Instance → List Handler → Startup
unfolding bind_next bind
bind_all takes b mode [] hs = router_built hs
bind_all takes b mode (inst ∷ later) hs =
    bind_next (bind takes b mode (map (λ h. h.consumer) hs) inst) (bind_all takes b mode later) hs

-- BuildRouter. `b` is none for a nil bus, `metered` false for nil metrics, and `new_router` the
-- error of message.NewRouter.
unfoldable pub build_router :
    Takes → Option BusView → Bool → ℤ → ℤ → Option Err → Mode → List Instance → Startup
unfolding bind_all
build_router takes none metered process_timeout close_timeout new_router mode insts =
    build_failed (message "sink: router needs a bus") []
build_router takes (some b) metered process_timeout close_timeout new_router mode insts =
    if metered
    then (if leb_ℤ process_timeout (pos 0)
        then build_failed (message "sink: router.process_timeout must be > 0") []
        else if leb_ℤ close_timeout (pos 0)
        then build_failed (message "sink: router.close_timeout must be > 0") []
        else elim new_router [
          | some e ↦ build_failed (wrap "sink: create router: " e "") []
          | none ↦ bind_all takes b mode insts []
        ])
    else build_failed (message "sink: router needs metrics") []

-- Consumers
unfoldable pub consumers : List Handler → List String
consumers = map (λ h. h.consumer)

-- Status
unfoldable pub statuses : List Handler → List SinkStatus
statuses = map status

-- The errors of closeSubscribers, in order; `close_sub` is the Close of a consumer.
unfoldable pub close_subscribers : (String → Option Err) → List Handler → List Err
close_subscribers close_sub [] = []
close_subscribers close_sub (h ∷ hs) =
    let rest = close_subscribers close_sub hs in
    elim (close_sub h.consumer) [
      | none ↦ rest
      | some e ↦ wrap ("sink " +++ quoted h.inst.name +++ ": close consumer: ") e "" ∷ rest
    ]

-- Close under closeOnce: the result of the first call, `none` before it.
unfoldable pub close :
    Bool
    → Option Err
    → (String → Option Err)
    → List Handler
    → Option (Option Err)
    → Option Err × Option (Option Err)
unfolding close_subscribers
close running router_close close_sub hs (some result) = (result, some result)
close running router_close close_sub hs none =
    let subscribers = close_subscribers close_sub hs in
    let errs : List Err =
      if running
      then elim router_close [
        | none ↦ subscribers
        | some e ↦ wrap "sink: close router: " e "" ∷ subscribers
      ]
      else subscribers in
    (join errs, some (join errs))
