-- ===== src/Event/Message/RoundTrip.antt =====
-- An envelope survives the bus: reading a message that was written gives the envelope back.
use antwatcher.Prelude.{
  ℕ, ◌≡◌, refl, ◌≢◌, ◌≤◌, Bool, false, not, ◌&&◌, Option, none, some, List, String, arith,
  if◌then◌else◌, str_eq, eq_iff, ap, ◌∙◌,
}
use antwatcher.Prelude.Int.{ℤ, pos}
use antwatcher.Prelude.Dict.{lookup, lookup-insert}
use antwatcher.Prelude.Decimal.{
  format_int, parse_int, parse_int-format_int, format_int-ne-nil, max_int,
}
use antwatcher.Prelude.Errors.{ok}
use antwatcher.Event.Envelope.{Envelope, schema_version_written}
use antwatcher.Event.Message.{
  Message, set_if, metadata_of, to_message, from_message, required, optional_int, guid_of,
  version_of, time_of, text_at, is_zero, is_positive,
}

lookup-set_if :
    (b : Bool) (k j v : String) (m : List (String × String))
    → lookup j (set_if b k v m) ≡ (if str_eq k j && b then some v else lookup j m)
unfolding set_if
lookup-set_if b k j v m = ground (arith, lookup-insert k j v m)

module _ (format_time : ℕ → String) (env : Envelope) where
  abbrev md : List (String × String)
  md = metadata_of format_time env

  pub guid_at : lookup "delivery_guid" md ≡ some env.delivery_guid
  unfolding metadata_of
  guid_at = simp (lookup-set_if, lookup-insert)

  pub hops_at :
      lookup "antwatcher.forward.hops" md
      ≡ (if is_positive env.forward_hops then some (format_int env.forward_hops) else none)
  unfolding metadata_of lookup
  hops_at = simp (lookup-set_if, lookup-insert)

  version_at : lookup "schema_version" md ≡ some (format_int env.schema_version)
  unfolding metadata_of lookup
  version_at = simp (lookup-set_if, lookup-insert)

  event_at : lookup "event" md ≡ some env.event
  unfolding metadata_of lookup
  event_at = simp (lookup-set_if, lookup-insert)

  received_at : lookup "received_at" md ≡ some (format_time env.received_at)
  unfolding metadata_of lookup
  received_at = simp (lookup-set_if, lookup-insert)

  repository_id_at :
      lookup "repository_id" md
      ≡ (if not (is_zero env.repository_id) then some (format_int env.repository_id) else none)
  unfolding metadata_of lookup
  repository_id_at = simp (lookup-set_if, lookup-insert)

  action_at : text_at (lookup "action" md) ≡ env.action
  unfolding metadata_of lookup
  action_at = simp (lookup-set_if, lookup-insert) (ground (arith, eq_iff env.action ""))

  hook_id_at : text_at (lookup "hook_id" md) ≡ env.hook_id
  unfolding metadata_of lookup
  hook_id_at = simp (lookup-set_if, lookup-insert) (ground (arith, eq_iff env.hook_id ""))

  repository_at : text_at (lookup "repository" md) ≡ env.repository
  unfolding metadata_of lookup
  repository_at = simp (lookup-set_if, lookup-insert) (ground (arith, eq_iff env.repository ""))

  forwarded_by_at : text_at (lookup "antwatcher.forward.by" md) ≡ env.forwarded_by
  unfolding metadata_of lookup
  forwarded_by_at = simp (lookup-set_if, lookup-insert) (ground (arith, eq_iff env.forwarded_by ""))

-- A number that was left out where it is 0 is read as it was.
optional_int_written :
    (key : String) (n : ℕ) (b : Bool)
    → n ≤ max_int
    → (b ≡ false → n ≡ 0)
    → optional_int key (if b then some (format_int (pos n)) else none) ≡ ok (pos n)
unfolding optional_int
optional_int_written key n b h z =
    ground (arith, parse_int-format_int n h, format_int-ne-nil n, eq_iff (format_int (pos n)) "")

required_present :
    (md : List (String × String)) (key v : String)
    → lookup key md ≡ some v
    → v ≢ ""
    → required md key ≡ ok v
unfolding required
required_present md key v e h = rw (e, required) (ground (arith, eq_iff v ""))

version_written : version_of (format_int (pos 1)) ≡ ok (pos 1)
unfolding version_of format_int parse_int
version_written = refl

-- What ToMessage writes so that FromMessage accepts it: the identity that the receiver demands, the
-- schema version of this build, and integers that are not negative and fit 64 bits.
pub record IsWritable (env : Envelope) : Type 0 where
  pub has_guid : env.delivery_guid ≢ ""
  pub has_event : env.event ≢ ""
  pub version_is : env.schema_version ≡ pos schema_version_written
  pub id_value : (n : ℕ) × (n ≤ max_int) × (env.repository_id ≡ pos n)
  pub hops_value : (n : ℕ) × (n ≤ max_int) × (env.forward_hops ≡ pos n)

-- Each step of FromMessage on a message, given what it finds.
from_message_steps :
    (parse_time : String → Option ℕ) (msg : Message)
    (guid version_text event received_text : String) (version repository_id hops : ℤ) (received : ℕ)
    → guid_of msg (lookup "delivery_guid" msg.metadata) ≡ ok guid
    → required msg.metadata "schema_version" ≡ ok version_text
    → version_of version_text ≡ ok version
    → required msg.metadata "event" ≡ ok event
    → required msg.metadata "received_at" ≡ ok received_text
    → time_of parse_time received_text ≡ ok received
    → optional_int "repository_id" (lookup "repository_id" msg.metadata) ≡ ok repository_id
    → optional_int "antwatcher.forward.hops" (lookup "antwatcher.forward.hops" msg.metadata)
      ≡ ok hops
    → from_message parse_time msg
      ≡ ok (record {
        schema_version = version;
        delivery_guid = guid;
        event = event;
        action = text_at (lookup "action" msg.metadata);
        hook_id = text_at (lookup "hook_id" msg.metadata);
        received_at = received;
        repository_id = repository_id;
        repository = text_at (lookup "repository" msg.metadata);
        forwarded_by = text_at (lookup "antwatcher.forward.by" msg.metadata);
        forward_hops = hops;
        payload = msg.payload;
      })
unfolding from_message
from_message_steps parse_time msg guid version_text event received_text version repository_id hops
      received a b c d e f g h =
    rw (a, b, c, d, e, f, g, h) refl

guid_of_present : (msg : Message) (g : String) → g ≢ "" → guid_of msg (some g) ≡ ok g
unfolding guid_of
guid_of_present msg g h = ground (arith, eq_iff g "")

time_of_present :
    (parse_time : String → Option ℕ) (t : String) (n : ℕ)
    → parse_time t ≡ some n
    → time_of parse_time t ≡ ok n
unfolding time_of
time_of_present parse_time t n e = rw (e, time_of)

time_text-ne-nil :
    (parse_time : String → Option ℕ) (t : String) (n : ℕ)
    → parse_time t ≡ some n
    → parse_time "" ≡ none
    → t ≢ ""
time_text-ne-nil parse_time t n e z h = cc (ap parse_time h)

module _ (format_time : ℕ → String) (env : Envelope) (n : ℕ) (fits : n ≤ max_int) where
  id_written :
      env.repository_id ≡ pos n
      → optional_int "repository_id" (lookup "repository_id" (metadata_of format_time env))
        ≡ ok (pos n)
  id_written e =
      rw (repository_id_at format_time env, e)
        (optional_int_written "repository_id" n _ fits (λ h. ground arith))

  pub hops_written :
      env.forward_hops ≡ pos n
      → optional_int "antwatcher.forward.hops"
          (lookup "antwatcher.forward.hops" (metadata_of format_time env))
        ≡ ok (pos n)
  hops_written e =
      rw (hops_at format_time env, e)
        (optional_int_written "antwatcher.forward.hops" n _ fits (λ h. ground arith))

-- Reading the message written for an envelope gives the same envelope, whatever its optional
-- fields, provided that its GUID and event are not empty, its version is that of this build and its
-- integers are natural numbers of 63 bits; of package time it is used that the text written
-- for the time of receipt is read back, and that the empty text is no time.
pub from_message-to_message :
    (format_time : ℕ → String) (parse_time : String → Option ℕ) (env : Envelope)
    → parse_time (format_time env.received_at) ≡ some env.received_at
    → parse_time "" ≡ none
    → IsWritable env
    → from_message parse_time (to_message format_time env) ≡ ok env
unfolding to_message
from_message-to_message format_time parse_time env read_back no_time w =
    let (i, i_fits, i_is) = w.id_value in
    let (k, k_fits, k_is) = w.hops_value in
    let steps =
      from_message_steps parse_time (to_message format_time env) env.delivery_guid
        (format_int (pos 1)) env.event (format_time env.received_at) (pos 1) (pos i) (pos k)
        env.received_at
        (rw (guid_at format_time env) (guid_of_present _ env.delivery_guid w.has_guid))
        (required_present _ "schema_version" _ (rw (version_at format_time env, w.version_is))
          (format_int-ne-nil 1))
        version_written
        (required_present _ "event" env.event (event_at format_time env) w.has_event)
        (required_present _ "received_at" _ (received_at format_time env)
          (time_text-ne-nil parse_time _ env.received_at read_back no_time))
        (time_of_present parse_time _ env.received_at read_back)
        (id_written format_time env i i_fits i_is) (hops_written format_time env k k_fits k_is) in
    steps
    ∙ ground (
      arith,
      action_at format_time env,
      hook_id_at format_time env,
      repository_at format_time env,
      forwarded_by_at format_time env,
    )
