-- ===== src/Forward/Target/Built.antt =====
-- When Factory builds a sink.
use antwatcher.Prelude.{
  ◌≡◌, ◌≢◌, ◌⊎◌, ◌↔◌, refl, ap, sym, ◌∙◌, true, false, Option, none, some, List, String, arith,
  ◌==◌, str_eq, eq_iff, All,
}
use antwatcher.Prelude.Int.{ℤ, pos, negsuc, ltb_ℤ}
use antwatcher.Prelude.Errors.{Err, join, Result, ok, err}
use antwatcher.Forward.Copy.{Forward, new}
use antwatcher.Forward.Block.{Node, Decoder, RawConfig, parse, describe, block_names}
use antwatcher.Forward.Block.Described.{
  IsDescribed, describe_sound, describe_complete, block_names-IsDescribed,
  described_names-IsDescribed,
}
use antwatcher.Forward.Target.{
  Config, Ingress, validate, validate_ingress, join_two, checked, config_of, made_of, parsed_into,
  factory,
}

-- What Factory asks of a described target.
pub record IsTarget (c : Config) (ingress : Ingress) : Type 0 where
  pub driver : c.driver ≢ ""
  pub topic : c.topic ≢ ""
  pub max_hops : ltb_ℤ c.max_hops (pos 1) ≡ false
  pub elsewhere : (c.driver ≢ ingress.driver) ⊎ (c.topic ≢ ingress.topic)

validate-none :
    (c : Config)
    → validate c ≡ none
    → (c.driver ≢ "") × (c.topic ≢ "") × (ltb_ℤ c.max_hops (pos 1) ≡ false)
unfolding validate join
validate-none c h = ground (arith, eq_iff c.driver "", eq_iff c.topic "")

validated_lem :
    (c : Config)
    → c.driver ≢ ""
    → c.topic ≢ ""
    → ltb_ℤ c.max_hops (pos 1) ≡ false
    → validate c ≡ none
unfolding validate join
validated_lem c a b m = ground (arith, eq_iff c.driver "", eq_iff c.topic "")

join_two-none : (o p : Option Err) → join_two o p ≡ none → (o ≡ none) × (p ≡ none)
join_two-none none p h = (refl, h)
join_two-none (some e) none h = absurd (cc)
join_two-none (some e) (some f) h = absurd (cc)

ingress_none :
    (c : Config) (ingress : Ingress)
    → c.driver ≢ ""
    → c.topic ≢ ""
    → (validate_ingress c ingress ≡ none)
      ↔ ((c.driver ≢ ingress.driver) ⊎ (c.topic ≢ ingress.topic))
unfolding validate_ingress
ingress_none c ingress a b = ground (
  arith,
  eq_iff c.driver "",
  eq_iff c.topic "",
  eq_iff c.driver ingress.driver,
  eq_iff c.topic ingress.topic,
)

new_lem :
    (name topic : String) (m : ℤ)
    → topic ≢ ""
    → ltb_ℤ m (pos 1) ≡ false
    → new name true topic m ≡ ok (record { name = name; topic = topic; max_hops = m })
unfolding new
new_lem name topic (pos n) t h =
    let some_hops : (n == 0) ≡ false = ground arith in
    let no_text : str_eq topic "" ≡ false = ground (arith, eq_iff topic "") in
    rw (no_text, some_hops) (ground arith)
new_lem name topic (negsuc n) t h = absurd (ground arith)

checked_ok :
    (name : String) (c : Config) (o : Option Err) (s : Forward)
    → checked name c o ≡ ok s
    → (o ≡ none) × (new name true c.topic c.max_hops ≡ ok s)
unfolding checked
checked_ok name c none s h = (refl, h)
checked_ok name c (some e) s h = absurd (cc)

checked_sound :
    (name : String) (c : Config) (ingress : Ingress) (s : Forward)
    → checked name c (join_two (validate c) (validate_ingress c ingress)) ≡ ok s
    → IsTarget c ingress × (new name true c.topic c.max_hops ≡ ok s)
checked_sound name c ingress s h =
    let (clear, built) =
      checked_ok name c (join_two (validate c) (validate_ingress c ingress)) s h in
    let (own, other) = join_two-none (validate c) (validate_ingress c ingress) clear in
    let (a, b, m) = validate-none c own in
    (
      record {
        driver = a;
        topic = b;
        max_hops = m;
        elsewhere = (ingress_none c ingress a b).0 other;
      },
      built,
    )

checked_builds :
    (name : String) (c : Config) (ingress : Ingress)
    → IsTarget c ingress
    → checked name c (join_two (validate c) (validate_ingress c ingress))
      ≡ ok (record { name = name; topic = c.topic; max_hops = c.max_hops })
unfolding checked
checked_builds name c ingress t =
    rw
      (
        validated_lem c t.driver t.topic t.max_hops,
        (ingress_none c ingress t.driver t.topic).1 t.elsewhere,
      )
      (new_lem name c.topic c.max_hops t.topic t.max_hops)

module _ {D : Type 0} (reg : List (String × (Node → Result D))) (name : String) (ingress : Ingress)
    (s : Forward) where
  -- The sink that Factory builds of a block, and what the block is.
  abbrev pub IsFactored : RawConfig → Type 0
  IsFactored rc =
      All (IsDescribed reg rc) (block_names rc)
      × IsDescribed reg rc rc.driver
      × IsTarget (config_of rc) ingress
      × (s ≡ record { name = name; topic = rc.topic; max_hops = rc.max_hops })

  made_of_ok :
      (rc : RawConfig) (r : Result (List (String × D)))
      → made_of name rc ingress r ≡ ok s
      → (blocks : List (String × D)) × (r ≡ ok blocks)
        × IsTarget (config_of rc) ingress
        × (s ≡ record { name = name; topic = rc.topic; max_hops = rc.max_hops })
  unfolding made_of
  made_of_ok rc (err e) h = absurd (cc)
  made_of_ok rc (ok blocks) h =
      let (t, built) = checked_sound name (config_of rc) ingress s h in
      (blocks, refl, t, cc (sym h ∙ checked_builds name (config_of rc) ingress t))

  made_of_builds :
      (rc : RawConfig) (r : Result (List (String × D))) (blocks : List (String × D))
      → r ≡ ok blocks
      → IsTarget (config_of rc) ingress
      → s ≡ record { name = name; topic = rc.topic; max_hops = rc.max_hops }
      → made_of name rc ingress r ≡ ok s
  unfolding made_of
  made_of_builds rc (err e) blocks h t same = absurd (cc)
  made_of_builds rc (ok other) blocks h t same =
      checked_builds name (config_of rc) ingress t ∙ ap ok (sym same)

  parsed_into_ok :
      (r : Result RawConfig)
      → parsed_into reg name ingress r ≡ ok s
      → (rc : RawConfig) × (r ≡ ok rc) × IsFactored rc
  unfolding parsed_into
  parsed_into_ok (err e) h = absurd (cc)
  parsed_into_ok (ok rc) h =
      let (blocks, described, t, same) = made_of_ok rc (describe reg rc) h in
      let (others, own) =
        block_names-IsDescribed reg rc t.driver (describe_sound reg rc blocks described) in
      (rc, refl, (others, own, t, same))

  parsed_into_builds :
      (r : Result RawConfig) (rc : RawConfig)
      → r ≡ ok rc
      → IsFactored rc
      → parsed_into reg name ingress r ≡ ok s
  unfolding parsed_into
  parsed_into_builds (err e) rc h f = absurd (cc)
  parsed_into_builds (ok other) rc h (others, own, t, same) =
      let e : other ≡ rc = cc h in
      let (blocks, described) =
        describe_complete reg rc (described_names-IsDescribed reg rc others own) in
      rw e (made_of_builds rc (describe reg rc) blocks described t same)

-- Factory builds a sink exactly from a block that parse reads, in which every driver block, and the block of the
-- selected driver if it is missing, belongs to a registered bus driver that describes it, and
-- which names a driver and a topic, allows at least one hop, and is not the ingress bus; the sink
-- then has its topic and hop limit, so New neither panics nor puts in its default.
pub factory_iff :
    {D : Type 0}
    → (dec : Decoder) (reg : List (String × (Node → Result D))) (name : String) (raw : Node)
      (ingress : Ingress) (s : Forward)
    → (factory dec reg name raw ingress ≡ ok s)
      ↔ ((rc : RawConfig) × (parse dec raw ≡ ok rc) × IsFactored reg name ingress s rc)
unfolding factory
factory_iff dec reg name raw ingress s = (
  parsed_into_ok reg name ingress s (parse dec raw),
  λ (rc, e, f). parsed_into_builds reg name ingress s (parse dec raw) rc e f,
)
