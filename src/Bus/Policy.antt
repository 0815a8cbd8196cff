-- ===== src/Bus/Policy.antt =====
-- internal/bus/policy.go: what a missing capability does to ingress and to a consumer.
use antwatcher.Prelude.{
  ℕ, ◌≡◌, ◌≢◌, Bool, true, false, not, ◌&&◌, Option, none, some, List, [], ◌∷◌, ◌++◌, String, ◌+++◌,
  arith, if◌then◌else◌, str_eq, quoted,
}
use antwatcher.Prelude.Decimal.{itoa}
use antwatcher.Prelude.Errors.{Err, message, sentinel, missing_capability, wrap, Result, ok, err}
use antwatcher.Bus.Contract.{
  StartPosition, earliest, now, AnyPosition, invalid, known, Capabilities, position_name,
}

-- Mode; `invalid_mode` stands for every int but the two constants.
pub data Mode : Type 0 where
  fail degrade : Mode
  invalid_mode : ℕ → Mode

-- ParseMode
unfoldable pub parse_mode : String → Result Mode
parse_mode s =
    if str_eq s "fail"
    then ok fail
    else if str_eq s "degrade"
    then ok degrade
    else err (
        message
          ("on_missing_capability must be \"fail\" or \"degrade\" (got " +++ quoted s +++ ")"))

-- Mode.String
unfoldable pub mode_name : Mode → String
mode_name fail = "fail"
mode_name degrade = "degrade"
mode_name (invalid_mode n) = "Mode(" +++ itoa n +++ ")"

pub data Severity : Type 0 where
  warning info : Severity

-- The capability that a warning names.
pub record Warning : Type 0 where
  pub capability : String
  pub severity : Severity
  pub message : String

-- checkMode
unfoldable pub check_mode : Mode → Option Err
check_mode fail = none
check_mode degrade = none
check_mode (invalid_mode n) =
    some (Err.message ("invalid policy mode " +++ mode_name (invalid_mode n)))

-- missing
unfoldable pub missing : String → String → Err
missing capability consequence = wrap "" (sentinel missing_capability) (
    ": " +++ capability +++ " (" +++ consequence
    +++ "); set bus.on_missing_capability: degrade to start anyway where allowed")

abbrev pub not_durable : Warning
not_durable = record {
  capability = "DurablePublish";
  severity = warning;
  message =
      "2xx does not mean durable: events accepted from GitHub can be lost on restart, dev only";
}

-- `mode == ModeFail`
abbrev is_fail : Mode → Bool
is_fail fail = true
is_fail _ = false

-- ResolveIngress
unfoldable pub resolve_ingress : Capabilities → Mode → Result (List Warning)
unfolding check_mode missing
resolve_ingress caps mode = elim (check_mode mode) [
  | some e ↦ err e
  | none ↦
      if caps.durable_publish
      then ok []
      else if is_fail mode
      then err (missing "DurablePublish" "the receiver would answer 2xx before the event is stored")
      else ok (not_durable ∷ [])
]

abbrev pub no_history : Warning
no_history = record {
  capability = "HistoricalReplay";
  severity = warning;
  message = "start_from: earliest downgraded to now: the bus keeps no history";
}

abbrev positions_lost : Warning
positions_lost = record {
  capability = "DurableConsumers";
  severity = warning;
  message = "consumer positions are lost on restart: the sink starts over from its start position";
}

abbrev duplicates_kept : Warning
duplicates_kept = record {
  capability = "Deduplicates";
  severity = info;
  message =
      "the bus does not collapse duplicate deliveries; sinks are idempotent through deterministic IDs";
}

-- The two warnings that do not change the position.
abbrev pub common_warnings : Capabilities → List Warning
common_warnings caps =
    (if caps.durable_consumers then [] else positions_lost ∷ [])
    ++ (if caps.deduplicates then [] else duplicates_kept ∷ [])

abbrev is_earliest : StartPosition → Bool
is_earliest earliest = true
is_earliest now = false

-- ResolveConsumer behind the checks of the mode and of the position.
unfoldable pub resolve_position :
    Capabilities → StartPosition → Mode → Result (StartPosition × List Warning)
unfolding missing
resolve_position caps requested mode =
    if not caps.fan_out
    then err (missing "FanOut" "every sink must receive every message; this cannot be degraded")
    else if is_earliest requested && not caps.historical_replay
    then (if is_fail mode
        then err (missing "HistoricalReplay" "start_from: earliest needs retained history")
        else ok (now, no_history ∷ common_warnings caps))
    else ok (requested, common_warnings caps)

-- ResolveConsumer
unfoldable pub resolve_consumer :
    Capabilities → AnyPosition → Mode → Result (StartPosition × List Warning)
unfolding check_mode resolve_position
resolve_consumer caps (invalid n) mode = elim (check_mode mode) [
  | some e ↦ err e
  | none ↦ err (Err.message ("invalid start position " +++ position_name (invalid n)))
]
resolve_consumer caps (known requested) mode = elim (check_mode mode) [
  | some e ↦ err e
  | none ↦ resolve_position caps requested mode
]

-- Where ResolveConsumer lets a consumer start at `p`, every sink gets every message; `p` is earliest
-- only if that was asked for and the bus keeps history; and it differs from what was asked for
-- only by degrading to now on a bus without history, with a warning about it.
pub resolve_consumer_sound :
    (caps : Capabilities) (requested : StartPosition) (mode : Mode) (p : StartPosition)
    (ws : List Warning)
    → resolve_consumer caps (known requested) mode ≡ ok (p, ws)
    → (caps.fan_out ≡ true)
      × (p ≡ earliest → (requested ≡ earliest) × (caps.historical_replay ≡ true))
      × (p ≢ requested
          → (mode ≡ degrade)
            × (p ≡ now)
            × (caps.historical_replay ≡ false)
            × (ws ≡ no_history ∷ common_warnings caps))
unfolding resolve_consumer
resolve_consumer_sound caps requested mode p ws h = ground arith
