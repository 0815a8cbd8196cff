-- ===== src/Forward/Block.antt =====
-- internal/sink/forward/drivers/bus/driver.go: the block of a forward sink, as parse reads it and describe renders it. The
-- YAML library's Decode and the describers of the bus drivers are parameters.
pub mod Described
use antwatcher.Prelude.{
  ℕ, ◌≡◌, ◌≢◌, ◌⊎◌, ◌↔◌, refl, sym, ap, ◌∙◌, Bool, true, false, not, ◌&&◌, ◌||◌, Option, none, some,
  List, [], ◌∷◌, ◌++◌, map, String, ◌+++◌, arith, if◌then◌else◌, str_eq, eq_iff, quoted, All,
  All-append, Bool-cases, inl, inr, is_some,
}
use antwatcher.Prelude.Dict.{lookup, insert}
use antwatcher.Prelude.Int.{ℤ}
use antwatcher.Prelude.Decimal.{itoa}
use antwatcher.Prelude.Errors.{Err, message, wrap, join, joined, Result, ok, err}
use antwatcher.Prelude.Sort.{sort, insert_sorted, sort-All}
use antwatcher.Sink.Registry.{before, join_names}
use antwatcher.Forward.Copy.{default_max_hops}

-- The kinds of a yaml.Node; `unset` is the zero value.
pub data Kind : Type 0 where
  unset document sequence mapping scalar alias : Kind

-- What parse reads of a yaml.Node: the kind, the tag, the value, the line and the content.
mutual
  pub data Node : Type 0 where
    node : Kind → String → String → ℕ → Nodes → Node

  pub data Nodes : Type 0 where
    no_nodes : Nodes
    also : Node → Nodes → Nodes

abbrev pub zero_node : Node
zero_node = node unset "" "" 0 no_nodes

abbrev pub value_of : Node → String
value_of (node kind tag text line content) = text

abbrev pub line_of : Node → ℕ
line_of (node kind tag text line content) = line

-- A driver block is a mapping or null.
abbrev pub is_block : Node → Bool
is_block (node mapping tag text line content) = true
is_block (node scalar tag text line content) = str_eq tag "!!null"
is_block (node _ tag text line content) = false

-- val.Decode(target), by the node and what the target holds.
pub record Decoder : Type 0 where
  pub decode_text : Node → String → Result String
  pub decode_int : Node → ℤ → Result ℤ

-- rawConfig
pub record RawConfig : Type 0 where
  pub driver : String
  pub topic : String
  pub max_hops : ℤ
  pub drivers : List (String × Node)

abbrev pub default_raw : RawConfig
default_raw = record { driver = ""; topic = ""; max_hops = default_max_hops; drivers = [] }

-- The error of Decode under its key.
abbrev pub under_key {ℓ} : {A : Type ℓ} → String → (A → RawConfig) → Result A → Result RawConfig
under_key key set (err e) = err (wrap (key +++ ": ") e "")
under_key key set (ok a) = ok (set a)

-- The switch of parse, for one key.
unfoldable pub set_key : Decoder → Node → Node → RawConfig → Result RawConfig
set_key dec key val rc =
    let name = value_of key in
    if str_eq name "driver"
    then under_key name (λ s. record rc { driver = s }) (dec.decode_text val rc.driver)
    else if str_eq name "topic"
    then under_key name (λ s. record rc { topic = s }) (dec.decode_text val rc.topic)
    else if str_eq name "max_hops"
    then under_key name (λ n. record rc { max_hops = n }) (dec.decode_int val rc.max_hops)
    else if is_block val
    then ok (record rc { drivers = insert name val rc.drivers })
    else err (
        message (
          "line "
          +++ itoa (line_of key)
          +++ ": unknown field "
          +++ quoted name
          +++ " (driver blocks must be mappings)"))

-- One round of the loop, whose rest is `next`.
abbrev pub then_keys : Result RawConfig → (RawConfig → Result RawConfig) → Result RawConfig
then_keys (err e) next = err e
then_keys (ok rc) next = next rc

abbrev pub unless_seen : Bool → Node → Result RawConfig → Result RawConfig
unless_seen true key r =
    err (message ("line " +++ itoa (line_of key) +++ ": duplicate key " +++ quoted (value_of key)))
unless_seen false key r = r

abbrev pub was_seen : String → List String → Bool
was_seen s [] = false
was_seen s (t ∷ ts) = str_eq t s || was_seen s ts

-- The loop of parse over keys and values.
unfoldable pub parse_keys : Decoder → List String → Nodes → RawConfig → Result RawConfig
unfolding set_key
parse_keys dec seen no_nodes rc = ok rc
parse_keys dec seen (also key no_nodes) rc = ok rc
parse_keys dec seen (also key (also val rest)) rc =
    unless_seen (was_seen (value_of key) seen) key
      (then_keys (set_key dec key val rc) (parse_keys dec (value_of key ∷ seen) rest))

abbrev pub not_mapping : ℕ → Result RawConfig
not_mapping line = err (message ("line " +++ itoa line +++ ": config must be a mapping"))

-- parse
unfoldable pub parse : Decoder → Node → Result RawConfig
unfolding parse_keys
parse dec (node unset tag text line content) = ok default_raw
parse dec (node scalar tag text line content) =
    if str_eq tag "!!null" then ok default_raw else not_mapping line
parse dec (node document tag text line no_nodes) = not_mapping line
parse dec (node document tag text line (also only no_nodes)) = parse dec only
parse dec (node document tag text line (also one (also two rest))) = not_mapping line
parse dec (node mapping tag text line content) = parse_keys dec [] content default_raw
parse dec (node sequence tag text line content) = not_mapping line
parse dec (node alias tag text line content) = not_mapping line

-- rc.Drivers[name]; the describers of the bus drivers have type `Node → Result D`.
abbrev pub block_or_zero : Option Node → Node
block_or_zero none = zero_node
block_or_zero (some n) = n

abbrev pub block_names : RawConfig → List String
block_names rc = map (λ (name, block). name) rc.drivers

-- The names that describe looks up, in any order.
unfoldable pub described_names : RawConfig → List String
described_names rc =
    block_names rc
    ++ (if not (str_eq rc.driver "") && not (is_some (lookup rc.driver rc.drivers))
        then rc.driver ∷ []
        else [])

module _ {D : Type 0} where
  abbrev pub typed_or_err :
      String → Result D → List Err × List (String × D) → List Err × List (String × D)
  typed_or_err name (err e) (errs, out) = (wrap (name +++ ": ") e "" ∷ errs, out)
  typed_or_err name (ok typed) (errs, out) = (errs, (name, typed) ∷ out)

  abbrev pub describe_with :
      List (String × (Node → Result D))
      → RawConfig
      → String
      → Option (Node → Result D)
      → List Err × List (String × D)
      → List Err × List (String × D)
  describe_with reg rc name none (errs, out) = (
    message (
          "unknown bus driver "
          +++ quoted name
          +++ " (registered: "
          +++ join_names (sort before (map (λ (n, d). n) reg))
          +++ ")")
        ∷ errs,
    out,
  )
  describe_with reg rc name (some d) rest =
      typed_or_err name (d (block_or_zero (lookup name rc.drivers))) rest

  -- The loop of describe: its errors and the described blocks, in order.
  unfoldable pub describe_all :
      List (String × (Node → Result D)) → RawConfig → List String → List Err × List (String × D)
  unfolding join_names
  describe_all reg rc [] = ([], [])
  describe_all reg rc (name ∷ names) =
      describe_with reg rc name (lookup name reg) (describe_all reg rc names)

  abbrev pub unless_wrong : Option Err → List (String × D) → Result (List (String × D))
  unless_wrong (some e) out = err e
  unless_wrong none out = ok out

  -- describe: the described blocks.
  unfoldable pub describe :
      List (String × (Node → Result D)) → RawConfig → Result (List (String × D))
  unfolding describe_all described_names
  describe reg rc =
      let (errs, out) = describe_all reg rc (sort before (described_names rc)) in
      unless_wrong (join errs) out
