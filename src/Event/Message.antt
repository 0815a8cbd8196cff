-- ===== src/Event/Message.antt =====
-- internal/event/message.go: the envelope as a Watermill message and back. The two functions of
-- package time that write and read RFC 3339 are parameters.
pub mod RoundTrip
use antwatcher.Prelude.{
  ℕ, ◌≡◌, refl, ◌≢◌, Bool, true, false, not, ◌&&◌, ◌||◌, Option, none, some, List, [], ◌∷◌, String,
  ◌+++◌, arith, ◌==◌, ltb, leb, if◌then◌else◌, str_eq, eq_iff, quoted,
}
use antwatcher.Prelude.Int.{ℤ, pos, negsuc}
use antwatcher.Prelude.Dict.{lookup, insert}
use antwatcher.Prelude.Decimal.{format_int, parse_int}
use antwatcher.Prelude.Errors.{
  Err, sentinel, missing_metadata, invalid_metadata, wrap, Result, ok, err, ◌>>=◌, ◌>>◌, guard,
}
use antwatcher.Event.Envelope.{Envelope, schema_version_written}

-- message.Message: UUID, metadata and payload.
pub record Message : Type 0 where
  pub uuid : String
  pub metadata : List (String × String)
  pub payload : String

-- `if b { msg.Metadata.Set(k, v) }`
unfoldable pub set_if : Bool → String → String → List (String × String) → List (String × String)
set_if b k v m = if b then insert k v m else m

abbrev pub is_zero : ℤ → Bool
is_zero (pos n) = n == 0
is_zero (negsuc n) = false

abbrev pub is_positive : ℤ → Bool
is_positive (pos n) = ltb 0 n
is_positive (negsuc n) = false

abbrev pub is_negative : ℤ → Bool
is_negative (pos n) = false
is_negative (negsuc n) = true

module _ (format_time : ℕ → String) where
  -- The metadata that ToMessage writes.
  unfoldable pub metadata_of : Envelope → List (String × String)
  metadata_of env =
      set_if (is_positive env.forward_hops) "antwatcher.forward.hops" (format_int env.forward_hops)
        (set_if (not (str_eq env.forwarded_by "")) "antwatcher.forward.by" env.forwarded_by (
          set_if (not (str_eq env.repository "")) "repository" env.repository (
            set_if (not (is_zero env.repository_id)) "repository_id" (format_int env.repository_id)
              (set_if (not (str_eq env.hook_id "")) "hook_id" env.hook_id (
                set_if (not (str_eq env.action "")) "action" env.action (
                  insert "received_at" (format_time env.received_at) (
                    insert "event" env.event (
                      insert "schema_version" (format_int env.schema_version)
                        (insert "delivery_guid" env.delivery_guid [])))))))))

  -- ToMessage
  unfoldable pub to_message : Envelope → Message
  to_message env = record {
    uuid = env.delivery_guid;
    metadata = metadata_of env;
    payload = env.payload;
  }

missing_key : String → Err
missing_key key = wrap "" (sentinel missing_metadata) (": " +++ key)

invalid_key : String → String → String → Err
invalid_key key value what =
    wrap "" (sentinel invalid_metadata) (": " +++ key +++ " " +++ quoted value +++ what)

-- required
unfoldable pub required : List (String × String) → String → Result String
unfolding missing_key
required md key = elim (lookup key md) [
  | none ↦ err (missing_key key)
  | some v ↦ if str_eq v "" then err (missing_key key) else ok v
]

-- `md[key]`, "" where it is missing.
abbrev pub text_at : Option String → String
text_at none = ""
text_at (some v) = v

-- The two optional integers of FromMessage: absent or empty is 0.
unfoldable pub optional_int : String → Option String → Result ℤ
unfolding invalid_key
optional_int key none = ok (pos 0)
optional_int key (some t) = if str_eq t "" then ok (pos 0) else elim (parse_int t) [
  | none ↦ err (invalid_key key t " is not a non-negative integer")
  | some n ↦
      if is_negative n then err (invalid_key key t " is not a non-negative integer") else ok n
]

-- The delivery GUID: the metadata's, or the message's UUID where the key is absent.
unfoldable pub guid_of : Message → Option String → Result String
unfolding missing_key
guid_of msg none =
    if str_eq msg.uuid ""
    then err (wrap "" (sentinel missing_metadata) ": delivery_guid (and message UUID is empty)")
    else ok msg.uuid
guid_of msg (some g) =
    if str_eq g ""
    then err (wrap "" (sentinel missing_metadata) ": delivery_guid (and message UUID is empty)")
    else ok g

-- The schema version of the text, if this build reads it.
unfoldable pub version_of : String → Result ℤ
unfolding invalid_key
version_of t = elim (parse_int t) [
  | none ↦ err (invalid_key "schema_version" t " is not an integer")
  | some (pos n) ↦
      if n == schema_version_written
      then ok (pos n)
      else err (
          wrap "" (sentinel invalid_metadata) (
            ": schema_version "
            +++ format_int (pos n)
            +++ " is not supported (this build reads 1)"))
  | some (negsuc n) ↦ err (
      wrap "" (sentinel invalid_metadata) (
        ": schema_version " +++ format_int (negsuc n) +++ " is not supported (this build reads 1)"))
]

module _ (parse_time : String → Option ℕ) where
  unfoldable pub time_of : String → Result ℕ
  unfolding invalid_key
  time_of t = elim (parse_time t) [
    | none ↦ err (invalid_key "received_at" t " is not RFC 3339")
    | some at ↦ ok at
  ]

  -- FromMessage; the message is not nil.
  unfoldable pub from_message : Message → Result Envelope
  from_message msg = do
    guid ← guid_of msg (lookup "delivery_guid" msg.metadata)
    version_text ← required msg.metadata "schema_version"
    version ← version_of version_text
    event ← required msg.metadata "event"
    received_text ← required msg.metadata "received_at"
    received ← time_of received_text
    repository_id ← optional_int "repository_id" (lookup "repository_id" msg.metadata)
    hops ← optional_int "antwatcher.forward.hops" (lookup "antwatcher.forward.hops" msg.metadata)
    ok (record {
      schema_version = version;
      delivery_guid = guid;
      event = event;
      action = text_at (lookup "action" msg.metadata);
      hook_id = text_at (lookup "hook_id" msg.metadata);
      received_at = received;
      repository_id = repository_id;
      repository = text_at (lookup "repository" msg.metadata);
      forwarded_by = text_at (lookup "antwatcher.forward.by" msg.metadata);
      forward_hops = hops;
      payload = msg.payload;
    })
