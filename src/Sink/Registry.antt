-- ===== src/Sink/Registry.antt =====
-- internal/sink/registry.go: the sinks that Build makes of the configuration. A driver's factory is an argument, as is
-- what the sink it returns says of itself; the events say which sinks were made and closed.
pub mod Ownership
pub mod Tests
use Prim.Native.Nat.{Ordering}
use Prim.Native.String.{compare}
use antwatcher.Prelude.{
  ℕ, ◌+◌, Bool, true, false, not, ◌&&◌, ◌||◌, Option, none, some, List, [], ◌∷◌, ◌++◌, map, String,
  ◌+++◌, if◌then◌else◌, str_eq, quoted,
}
use antwatcher.Prelude.Dict.{lookup}
use antwatcher.Prelude.Decimal.{itoa}
use antwatcher.Prelude.Sort.{sort}
use antwatcher.Prelude.Errors.{Err, message, wrap, joined, join, Result, ok, err}
use antwatcher.Bus.Contract.{StartPosition, parse_start_position, validate_consumer_name, known}
use antwatcher.Sink.Contract.{Class, class_name, parse_class, consumer_name, Instance}

-- config.SinkConfig, without the block of the driver.
pub record SinkConfig : Type 0 where
  pub name : String
  pub class : String
  pub driver : String
  pub start_from : String

-- What a sink answers: Name, Class and Close.
pub record Made : Type 0 where
  pub name : String
  pub class : Class
  pub close_err : Option Err

-- A driver's factory for the `i`-th entry and its name: an error, nil, or a sink.
abbrev pub Factory : Type 0
Factory = ℕ → String → Result (Option Made)

-- The drivers of each class.
abbrev pub Registry : Type 0
Registry = Class → List (String × Factory)

-- The sink of an entry is made, or closed.
pub data Event : Type 0 where
  made closed : ℕ → Event

-- An Instance, with the entry it is for and what its Close returns.
pub record Built : Type 0 where
  pub instance_of : Instance
  pub index : ℕ
  pub close_err : Option Err

abbrev pub before : String → String → Bool
before s t = elim (compare s t) [ Ordering.lt ↦ true | _ ↦ false ]

-- strings.Join with ", "
unfoldable pub with_commas : List String → String
with_commas [] = ""
with_commas (s ∷ []) = s
with_commas (s ∷ t ∷ ts) = s +++ ", " +++ with_commas (t ∷ ts)

-- joinNames
unfoldable pub join_names : List String → String
unfolding with_commas
join_names [] = "none"
join_names (s ∷ ss) = with_commas (s ∷ ss)

-- Registry.driversForError
unfoldable pub drivers_for_error : Registry → Class → String
unfolding join_names
drivers_for_error reg c = join_names (sort before (map (λ (name, factory). name) (reg c)))

-- "driver <class>/<driver>"
abbrev driver_text : Class → String → String
driver_text c driver = "driver " +++ class_name c +++ "/" +++ driver

-- The end of build, by what the factory returned.
unfoldable pub check_made :
    ℕ → SinkConfig → Class → StartPosition → Result (Option Made) → Result Built × List Event
check_made i cfg c start (err e) = (err (wrap (driver_text c cfg.driver +++ ": ") e ""), [])
check_made i cfg c start (ok none) =
    (err (message (driver_text c cfg.driver +++ " returned no sink")), [])
check_made i cfg c start (ok (some m)) =
    if not (str_eq m.name cfg.name) || not (str_eq (class_name m.class) (class_name c))
    then (
      err (
          message (
            driver_text c cfg.driver
            +++ " built sink "
            +++ class_name m.class
            +++ "/"
            +++ quoted m.name
            +++ " instead of "
            +++ class_name c
            +++ "/"
            +++ quoted cfg.name)),
      made i ∷ closed i ∷ [],
    )
    else (
      ok (record {
        instance_of = record {
          name = cfg.name;
          class = c;
          start_from = known start;
          driver = cfg.driver;
        };
        index = i;
        close_err = m.close_err;
      }),
      made i ∷ [],
    )

unfoldable pub build_found :
    Registry → ℕ → SinkConfig → Class → StartPosition → Option Factory → Result Built × List Event
unfolding check_made drivers_for_error
build_found reg i cfg c start none = (
  err (
      message (
        "unknown driver "
        +++ quoted cfg.driver
        +++ " for class "
        +++ class_name c
        +++ " (registered: "
        +++ drivers_for_error reg c
        +++ ")")),
  [],
)
build_found reg i cfg c start (some factory) = check_made i cfg c start (factory i cfg.name)

unfoldable pub build_at :
    Registry → ℕ → SinkConfig → Class → Result StartPosition → Result Built × List Event
unfolding build_found drivers_for_error
build_at reg i cfg c (err e) = (err (wrap "start_from: " e ""), [])
build_at reg i cfg c (ok start) =
    if str_eq cfg.driver ""
    then (
      err (
          message (
            "driver is required for class "
            +++ class_name c
            +++ " (registered: "
            +++ drivers_for_error reg c
            +++ ")")),
      [],
    )
    else build_found reg i cfg c start (lookup cfg.driver (reg c))

unfoldable pub build_class : Registry → ℕ → SinkConfig → Result Class → Result Built × List Event
unfolding build_at
build_class reg i cfg (err e) = (err e, [])
build_class reg i cfg (ok c) = build_at reg i cfg c (parse_start_position cfg.start_from)

unfoldable pub build_named : Registry → ℕ → SinkConfig → Option Err → Result Built × List Event
unfolding build_class
build_named reg i cfg (some e) = (err e, [])
build_named reg i cfg none = build_class reg i cfg (parse_class cfg.class)

-- build
unfoldable pub build : Registry → ℕ → SinkConfig → Result Built × List Event
unfolding build_named
build reg i cfg =
    if str_eq cfg.name ""
    then (err (message "name is required"), [])
    else build_named reg i cfg (validate_consumer_name (consumer_name cfg.name))

-- `seen[name]`
abbrev pub seen : String → List Built → Option ℕ
seen name [] = none
seen name (b ∷ bs) =
    let rest = seen name bs in if str_eq b.instance_of.name name then some b.index else rest

-- The errors of closeAll.
unfoldable pub close_errs : List Built → List Err
close_errs [] = []
close_errs (b ∷ bs) = elim (b.close_err) [
  | none ↦ close_errs bs
  | some e ↦ wrap ("close sink " +++ quoted b.instance_of.name +++ ": ") e "" ∷ close_errs bs
]

abbrev pub closings : List Built → List Event
closings bs = map (λ b. closed b.index) bs

-- errors.Join of an error and what closeAll returns.
abbrev join_close : Err → Option Err → Err
join_close e none = e
join_close e (some f) = joined e "\n" f

-- The return of Build on a failure.
unfoldable pub fail_build :
    ℕ → SinkConfig → List Built → Err → List Event → Result (List Built) × List Event
unfolding close_errs join
fail_build i cfg bs e events = (
  err (
      join_close (wrap ("sinks[" +++ itoa i +++ "] " +++ quoted cfg.name +++ ": ") e "")
        (join (close_errs bs))),
  events ++ closings bs,
)

abbrev pub duplicate_err : ℕ → Err
duplicate_err j = message ("duplicate sink name (also sinks[" +++ itoa j +++ "])")

unfoldable pub place_unseen :
    (List Built → Result (List Built) × List Event)
    → ℕ
    → SinkConfig
    → List Built
    → Built
    → List Event
    → Option ℕ
    → Result (List Built) × List Event
unfolding fail_build
place_unseen next i cfg bs b events (some j) =
    fail_build i cfg bs (duplicate_err j) (events ++ closed i ∷ [])
place_unseen next i cfg bs b events none =
    let rest = next (bs ++ b ∷ []) in (rest.0, events ++ rest.1)

-- The body of the loop, by what build gave, with the rest of the loop.
unfoldable pub place :
    (List Built → Result (List Built) × List Event)
    → ℕ
    → SinkConfig
    → List Built
    → Result Built × List Event
    → Result (List Built) × List Event
unfolding place_unseen fail_build
place next i cfg bs (err e, events) = fail_build i cfg bs e events
place next i cfg bs (ok b, events) = place_unseen next i cfg bs b events (seen cfg.name bs)

-- The loop of Build from the `i`-th entry on.
unfoldable pub build_from :
    Registry → ℕ → List SinkConfig → List Built → Result (List Built) × List Event
unfolding place build
build_from reg i [] bs = (ok bs, [])
build_from reg i (cfg ∷ cfgs) bs = place (build_from reg (i + 1) cfgs) i cfg bs (build reg i cfg)

-- Build
unfoldable pub build_all : Registry → List SinkConfig → Result (List Built) × List Event
unfolding build_from
build_all reg cfgs = build_from reg 0 cfgs []
