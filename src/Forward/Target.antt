-- ===== src/Forward/Target.antt =====
-- internal/sink/forward/drivers/bus/driver.go: the checks of a configuration, and the sink that Factory builds from a
-- block.
pub mod Built
use antwatcher.Prelude.{
  ◌≡◌, ◌≢◌, ◌⊎◌, ◌↔◌, refl, ap, sym, ◌∙◌, Bool, true, false, not, ◌&&◌, Option, none, some, List,
  [], ◌∷◌, ◌++◌, String, ◌+++◌, arith, ◌==◌, if◌then◌else◌, str_eq, eq_iff, quoted, All,
}
use antwatcher.Prelude.Int.{ℤ, pos, negsuc, ltb_ℤ}
use antwatcher.Prelude.Decimal.{format_int}
use antwatcher.Prelude.Errors.{Err, message, wrap, joined, join, Result, ok, err}
use antwatcher.Forward.Copy.{Forward, new}
use antwatcher.Forward.Block.{Node, Decoder, RawConfig, parse, describe, block_names}
use antwatcher.Forward.Block.Described.{
  IsDescribed, describe_sound, describe_complete, block_names-IsDescribed,
  described_names-IsDescribed,
}

-- Config, without the blocks of the drivers.
pub record Config : Type 0 where
  pub driver : String
  pub topic : String
  pub max_hops : ℤ

-- The driver and the topic of config.Bus.
pub record Ingress : Type 0 where
  pub driver : String
  pub topic : String

abbrev err_if : Bool → String → List Err
err_if test t = if test then message t ∷ [] else []

-- Config.Validate
unfoldable pub validate : Config → Option Err
unfolding join
validate c = join (
    err_if (str_eq c.driver "") "driver is required"
    ++ err_if (str_eq c.topic "") "topic is required"
    ++ err_if (ltb_ℤ c.max_hops (pos 1))
        ("max_hops must be >= 1 (got " +++ format_int c.max_hops +++ ")"))

-- Config.ValidateIngress
unfoldable pub validate_ingress : Config → Ingress → Option Err
validate_ingress c ingress =
    if not (str_eq c.driver "")
      && str_eq c.driver ingress.driver
      && not (str_eq c.topic "")
      && str_eq c.topic ingress.topic
    then some (
        message (
          "target (driver "
          +++ quoted c.driver
          +++ ", topic "
          +++ quoted c.topic
          +++ ") is the ingress bus: forwarding into the topic the sinks consume from is a loop; use another topic, and on a shared broker a destination of its own (for nats-jetstream, another stream)"))
    else none

-- errors.Join of two errors.
abbrev join_two : Option Err → Option Err → Option Err
join_two none other = other
join_two (some e) none = some e
join_two (some e) (some f) = some (joined e "\n" f)

unfoldable pub checked : String → Config → Option Err → Result Forward
unfolding new
checked name c (some e) = err e
checked name c none = new name true c.topic c.max_hops

abbrev pub config_of : RawConfig → Config
config_of rc = record { driver = rc.driver; topic = rc.topic; max_hops = rc.max_hops }

module _ {D : Type 0} where
  -- Factory behind describe, whose blocks it only checks.
  unfoldable pub made_of :
      String → RawConfig → Ingress → Result (List (String × D)) → Result Forward
  unfolding checked validate validate_ingress
  made_of name rc ingress (err e) = err e
  made_of name rc ingress (ok blocks) =
      let c = config_of rc in checked name c (join_two (validate c) (validate_ingress c ingress))

  -- Factory behind parse.
  unfoldable pub parsed_into :
      List (String × (Node → Result D)) → String → Ingress → Result RawConfig → Result Forward
  unfolding made_of describe
  parsed_into reg name ingress (err e) = err (wrap "decode: " e "")
  parsed_into reg name ingress (ok rc) = made_of name rc ingress (describe reg rc)

  -- Factory
  unfoldable pub factory :
      Decoder → List (String × (Node → Result D)) → String → Node → Ingress → Result Forward
  unfolding parsed_into parse
  factory dec reg name raw ingress = parsed_into reg name ingress (parse dec raw)
