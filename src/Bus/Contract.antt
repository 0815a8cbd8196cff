-- ===== src/Bus/Contract.antt =====
-- internal/bus/bus.go and capabilities.go: start positions, consumer names, capabilities.
use antwatcher.Prelude.{
  ℕ, Bool, ◌&&◌, ◌||◌, Option, none, some, String, ◌+++◌, leb, ◌==◌, if◌then◌else◌, str_eq, codes,
  all, quoted,
}
use antwatcher.Prelude.Decimal.{itoa}
use antwatcher.Prelude.Errors.{Err, message, sentinel, invalid_consumer_name, wrap, Result, ok, err}

pub data StartPosition : Type 0 where
  earliest now : StartPosition

-- A StartPosition is an int: `invalid` stands for every value but the two constants.
pub data AnyPosition : Type 0 where
  invalid : ℕ → AnyPosition
  known : StartPosition → AnyPosition

-- ParseStartPosition
unfoldable pub parse_start_position : String → Result StartPosition
unfolding quoted
parse_start_position s =
    if str_eq s "earliest"
    then ok earliest
    else if str_eq s "now"
    then ok now
    else err (message ("start position must be \"earliest\" or \"now\" (got " +++ quoted s +++ ")"))

-- StartPosition.String
unfoldable pub position_name : AnyPosition → String
position_name (known earliest) = "earliest"
position_name (known now) = "now"
position_name (invalid n) = "StartPosition(" +++ itoa n +++ ")"

pub data RetentionKind : Type 0 where
  retention_none retention_time retention_size retention_until_acked : RetentionKind

-- RetentionKind.String
unfoldable pub retention_name : RetentionKind → String
retention_name retention_none = "none"
retention_name retention_time = "time"
retention_name retention_size = "size"
retention_name retention_until_acked = "until_acked"

pub record Capabilities : Type 0 where
  pub durable_publish : Bool
  pub durable_consumers : Bool
  pub fan_out : Bool
  pub historical_replay : Bool
  pub deduplicates : Bool
  pub reports_lag : Bool
  pub retention : RetentionKind

-- The character class [A-Za-z0-9_-].
unfoldable pub is_name_char : ℕ → Bool
is_name_char c =
    (leb b'A' c && leb c b'Z')
    || (leb b'a' c && leb c b'z')
    || (leb b'0' c && leb c b'9')
    || c == b'_'
    || c == b'-'

-- ValidateConsumerName
unfoldable pub validate_consumer_name : String → Option Err
unfolding is_name_char
validate_consumer_name name =
    if str_eq name ""
    then some (wrap "" (sentinel invalid_consumer_name) ": empty")
    else if all is_name_char (codes name)
    then none
    else some (
        wrap "" (sentinel invalid_consumer_name)
          (": " +++ quoted name +++ " must match [A-Za-z0-9_-]+"))
