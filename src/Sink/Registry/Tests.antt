-- ===== src/Sink/Registry/Tests.antt =====
-- The build of two sinks.
use antwatcher.Prelude.{none, some, [], ◌∷◌}
use antwatcher.Prelude.Errors.{ok}
use antwatcher.Sink.Contract.{log}
use antwatcher.Sink.Registry.{SinkConfig, Registry, build_all}
use antwatcher.Sink.Registry.Ownership.{IsOwned, build_all-IsOwned}

-- Every class has one driver, whose sinks say that they are of class log.
abbrev registry : Registry
registry c =
    ("stdout", λ i name. ok (some (record { name = name; class = log; close_err = none }))) ∷ []

abbrev first : SinkConfig
first = record { name = "a"; class = "log"; driver = "stdout"; start_from = "now" }

-- A sink of another class, which is closed at once.
abbrev second : SinkConfig
second = record { name = "b"; class = "trace"; driver = "stdout"; start_from = "now" }

build_all-IsOwned_example : IsOwned (first ∷ second ∷ []) (build_all registry (first ∷ second ∷ []))
build_all-IsOwned_example = build_all-IsOwned registry (first ∷ second ∷ [])
