-- ===== src/Sink/Contract.antt =====
-- internal/sink/sink.go: the destination classes, the names of consumers, and built sinks.
use antwatcher.Prelude.{
  ◌≡◌, refl, ◌↔◌, List, [], ◌∷◌, String, ◌+++◌, arith, if◌then◌else◌, str_eq, eq_iff, quoted,
}
use antwatcher.Prelude.Errors.{message, Result, ok, err}
use antwatcher.Bus.Contract.{AnyPosition}

pub data Class : Type 0 where
  trace log analytics archive forward : Class

-- Classes
abbrev pub classes : List String
classes = "trace" ∷ "log" ∷ "analytics" ∷ "archive" ∷ "forward" ∷ []

-- Class.String
unfoldable pub class_name : Class → String
class_name trace = "trace"
class_name log = "log"
class_name analytics = "analytics"
class_name archive = "archive"
class_name forward = "forward"

-- ParseClass
unfoldable pub parse_class : String → Result Class
parse_class s =
    if str_eq s "trace"
    then ok trace
    else if str_eq s "log"
    then ok log
    else if str_eq s "analytics"
    then ok analytics
    else if str_eq s "archive"
    then ok archive
    else if str_eq s "forward"
    then ok forward
    else err (
        message (
          "unknown sink class "
          +++ quoted s
          +++ " (known: trace, log, analytics, archive, forward)"))

-- ConsumerName
unfoldable pub consumer_name : String → String
consumer_name sink_name = "sink-" +++ sink_name

-- Instance: a built sink with its position and its driver.
pub record Instance : Type 0 where
  pub name : String
  pub class : Class
  pub start_from : AnyPosition
  pub driver : String

parse_class-class_name : (c : Class) → parse_class (class_name c) ≡ ok c
unfolding parse_class class_name
parse_class-class_name trace = refl
parse_class-class_name _ = refl

parse_class_sound : (s : String) (c : Class) → parse_class s ≡ ok c → s ≡ class_name c
unfolding parse_class class_name
parse_class_sound s c h = ground (
  arith,
  eq_iff s "trace",
  eq_iff s "log",
  eq_iff s "analytics",
  eq_iff s "archive",
  eq_iff s "forward",
)

-- A class is parsed exactly from its own name.
pub parse_class_iff : (s : String) (c : Class) → (parse_class s ≡ ok c) ↔ (s ≡ class_name c)
parse_class_iff s c = (parse_class_sound s c, λ h. rw h (parse_class-class_name c))
