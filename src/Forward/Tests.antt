-- ===== src/Forward/Tests.antt =====
-- An event that is forwarded once, and the theorems at concrete inputs.
use antwatcher.Prelude.{
  ℕ, ◌+◌, ◌≤◌, ◌≡◌, ◌↔◌, refl, Option, none, some, List, [], ◌∷◌, String, arith, if◌then◌else◌,
  str_eq, eq_iff, quoted,
}
use antwatcher.Prelude.Int.{pos}
use antwatcher.Prelude.Errors.{Result, ok, err, message, join}
use antwatcher.Event.Envelope.{Envelope}
use antwatcher.Event.Message.{from_message}
use antwatcher.Event.Message.RoundTrip.{IsWritable}
use antwatcher.Forward.Copy.{
  Forward, new, copy_message, process, publish_err, from_message-copy_message,
}
use antwatcher.Forward.Chain.{Chain, arrived, hop, Chain-le}
use antwatcher.Sink.Flight.{put, move, join_or_start, enter_found, enter}
use antwatcher.Forward.Publisher.{
  active, gone, Publisher, bus_made, check_closed, drop_bus, start_close, peeked, new_publisher,
  enters, open_made, closed_read, bus_dropped, close_started, peek_returned, Reachable, fresh,
  after,
}
use antwatcher.Forward.Publisher.Leaks.{IsShut, Reachable-live}
use antwatcher.Forward.Block.{
  Node, node, also, no_nodes, mapping, scalar, value_of, Decoder, RawConfig, set_key, parse_keys,
  parse, described_names, describe_all, describe,
}
use antwatcher.Forward.Target.{
  Ingress, checked, validate, validate_ingress, made_of, parsed_into, factory,
}
use antwatcher.Forward.Target.Built.{IsFactored, factory_iff}
use antwatcher.Sink.Registry.{join_names}
use antwatcher.Prelude.Dict.{lookup, insert}
use antwatcher.Prelude.Sort.{sort}

abbrev envelope : Envelope
envelope = record {
  schema_version = pos 1;
  delivery_guid = "guid-1";
  event = "push";
  action = "";
  hook_id = "";
  received_at = 12;
  repository_id = pos 0;
  repository = "";
  forwarded_by = "first";
  forward_hops = pos 1;
  payload = "{}";
}

envelope-IsWritable : IsWritable envelope
envelope-IsWritable = record {
  has_guid = ground (arith, eq_iff "guid-1" "");
  has_event = ground (arith, eq_iff "push" "");
  version_is = refl;
  id_value = (0, omega arith, refl);
  hops_value = (1, omega arith, refl);
}

abbrev sink : Forward
sink = record { name = "second"; topic = "github.copy"; max_hops = pos 3 }

-- A clock that writes one time and reads it back, and a digest.
abbrev write_time : ℕ → String
write_time n = "1970-01-01T00:00:00Z"

abbrev read_time : String → Option ℕ
read_time s = if str_eq s "1970-01-01T00:00:00Z" then some 12 else none

abbrev digest : String → String
digest s = "2c26b46b"

abbrev copied : Envelope
copied = record envelope { forwarded_by = "second"; forward_hops = pos (1 + 1) }

from_message-copy_message_example :
    from_message read_time (copy_message digest write_time sink envelope)
    ≡ ok (record envelope { forwarded_by = "second"; forward_hops = pos (1 + 1) })
from_message-copy_message_example =
    from_message-copy_message digest write_time read_time sink envelope 1 refl refl
      envelope-IsWritable refl (omega arith)

copy_read : from_message read_time (copy_message digest write_time sink envelope) ≡ ok copied
copy_read =
    from_message-copy_message digest write_time read_time sink envelope 1 refl refl
      envelope-IsWritable refl (omega arith)

-- The publisher accepts the copy.
published : process digest write_time (λ msg. none) sink envelope ≡ none
unfolding process publish_err
published = refl

once_forwarded : Chain digest write_time read_time 3 envelope 1 copied
once_forwarded =
    hop (λ msg. none) sink 3 envelope copied copied 0 refl (omega arith) published copy_read
      (arrived copied)

Chain-le_example : 1 + 1 ≤ 3
Chain-le_example =
    Chain-le digest write_time read_time 3 envelope copied 1 1 (omega arith) refl (omega arith)
      once_forwarded

abbrev scalar_node : String → Node
scalar_node s = node scalar "!!str" s 1 no_nodes

-- A block with a driver, a topic and the block of the driver.
abbrev block : Node
block = node mapping "!!map" "" 1 (
    also (scalar_node "driver") (
      also (scalar_node "nats") (
        also (scalar_node "topic") (
          also (scalar_node "github.copy")
            (also (scalar_node "nats") (also (node mapping "!!map" "" 3 no_nodes) no_nodes))))))

abbrev decoder : Decoder
decoder = record { decode_text = λ n old. ok (value_of n); decode_int = λ n old. ok old }

abbrev bus_drivers : List (String × (Node → Result ℕ))
bus_drivers = ("nats", λ n. ok 1) ∷ []

abbrev ingress : Ingress
ingress = record { driver = "nats"; topic = "github" }

factory_iff_example : (factory decoder bus_drivers "second" block ingress ≡ ok sink) ↔ (
    (rc : RawConfig) × (parse decoder block ≡ ok rc)
    × IsFactored bus_drivers "second" ingress sink rc)
factory_iff_example = factory_iff decoder bus_drivers "second" block ingress sink

-- The block is read, described and built, unless its bus driver is not registered.
built : factory decoder bus_drivers "second" block ingress ≡ ok sink
unfolding factory parse parsed_into parse_keys set_key insert lookup describe described_names
    describe_all sort join made_of checked validate validate_ingress new
built = refl

abbrev no_drivers : List (String × (Node → Result ℕ))
no_drivers = []

unknown_driver :
    factory decoder no_drivers "second" block ingress
    ≡ err (message "unknown bus driver \"nats\" (registered: none)")
unfolding factory parse parsed_into parse_keys set_key insert lookup describe described_names
    describe_all sort join made_of join_names quoted
unknown_driver = refl

-- Close returns before a late Publish opens its bus.
abbrev closing_down : Publisher
closing_down = start_close new_publisher active

abbrev closed_down : Publisher
closed_down = peeked closing_down none

abbrev entered : Publisher
entered = record closed_down { flight = enter 1 closed_down.flight }

abbrev holding : Publisher
holding = bus_made 1 entered

closing_run : Reachable holding
unfolding enter enter_found join_or_start move put bus_made start_close peeked
closing_run =
    after entered holding
      (after closed_down entered
        (after closing_down closed_down
          (after new_publisher closing_down fresh (close_started new_publisher))
          (peek_returned closing_down refl refl))
        (enters 1 closed_down refl))
      (open_made 1 0 entered refl refl)

Reachable-live_example : (holding.live ≤ 1) × (holding.phase ≡ gone → IsShut holding)
Reachable-live_example = Reachable-live holding closing_run

-- The late caller closes its bus.
late_end :
    let read = check_closed 1 holding gone in
    Reachable (drop_bus 1 read) × ((drop_bus 1 read).live ≡ 0)
unfolding enter enter_found join_or_start move put bus_made start_close peeked check_closed drop_bus
late_end =
    let read : Publisher = check_closed 1 holding gone in
    (
      after read (drop_bus 1 read) (after holding read closing_run (closed_read 1 holding refl))
          (bus_dropped 1 read refl),
      refl,
    )
