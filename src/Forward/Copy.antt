-- ===== src/Forward/Copy.antt =====
-- internal/sink/forward/sink.go: the sink, the copy it publishes, and what a reader of the target finds. The
-- publisher and crypto/sha256 with encoding/hex are parameters.
use antwatcher.Prelude.{
  ℕ, suc, zero, ◌+◌, ◌<◌, ◌≡◌, refl, ap, ◌∙◌, Bool, false, Option, none, some, String, ◌+++◌, arith,
  ◌==◌, if◌then◌else◌, str_eq, quoted,
}
use antwatcher.Prelude.Int.{ℤ, pos, negsuc, ltb_ℤ, leb_ℤ}
use antwatcher.Prelude.Dict.{lookup}
use antwatcher.Prelude.Decimal.{format_int, max_int}
use antwatcher.Prelude.Errors.{Err, message, wrap, Result, ok, err}
use antwatcher.Sink.Errors.{permanentf}
use antwatcher.Event.Envelope.{Envelope}
use antwatcher.Event.Message.{Message, to_message, from_message, guid_of}
use antwatcher.Event.Message.RoundTrip.{IsWritable, guid_at, from_message-to_message}

-- Sink, without its publisher.
pub record Forward : Type 0 where
  pub name : String
  pub topic : String
  pub max_hops : ℤ

-- DefaultMaxHops
abbrev pub default_max_hops : ℤ
default_max_hops = pos 3

abbrev pub is_zero_int : ℤ → Bool
is_zero_int (pos n) = n == 0
is_zero_int (negsuc n) = false

-- New; an error is a panic with that text.
unfoldable pub new : String → Bool → String → ℤ → Result Forward
new name has_publisher topic max_hops =
    if has_publisher
    then (if str_eq topic ""
        then err (message ("forward: New(" +++ name +++ ") with empty topic"))
        else if ltb_ℤ max_hops (pos 0)
        then err (
            message
              ("forward: New(" +++ name +++ ") with negative max hops " +++ format_int max_hops))
        else ok (record {
          name = name;
          topic = topic;
          max_hops = if is_zero_int max_hops then default_max_hops else max_hops;
        }))
    else err (message ("forward: New(" +++ name +++ ") with nil publisher"))

-- `env.ForwardHops + 1` on a 64-bit int.
unfoldable pub next_hop : ℤ → ℤ
next_hop (pos n) = if n == max_int then negsuc max_int else pos (n + 1)
next_hop (negsuc zero) = pos 0
next_hop (negsuc (suc n)) = negsuc n

-- ForwardUUID
abbrev pub forward_uuid : (String → String) → String → String → String → String
forward_uuid digest guid name topic =
    digest ("antwatcher:forward:" +++ guid +++ ":" +++ name +++ ":" +++ topic)

-- The envelope of the copy.
unfoldable pub forwarded : Forward → Envelope → Envelope
unfolding next_hop
forwarded s env = record env { forwarded_by = s.name; forward_hops = next_hop env.forward_hops }

module _ (digest : String → String) (format_time : ℕ → String) where
  -- Message
  unfoldable pub copy_message : Forward → Envelope → Message
  unfolding forwarded to_message
  copy_message s env = record (to_message format_time (forwarded s env)) {
    uuid = forward_uuid digest env.delivery_guid s.name s.topic;
  }

  -- "forward <event> <guid> to <topic>: "
  unfoldable pub forward_text : Forward → Envelope → String
  forward_text s env =
      "forward "
      +++ env.event
      +++ " "
      +++ quoted env.delivery_guid
      +++ " to "
      +++ quoted s.topic
      +++ ": "

  unfoldable pub publish_err : Forward → Envelope → Option Err → Option Err
  unfolding forward_text
  publish_err s env none = none
  publish_err s env (some e) = some (wrap (forward_text s env) e "")

  -- Process
  unfoldable pub process : (Message → Option Err) → Forward → Envelope → Option Err
  unfolding copy_message forward_text publish_err
  process publish s env =
      if leb_ℤ s.max_hops env.forward_hops
      then some (
          permanentf (
            forward_text s env
            +++ "loop detected: already forwarded "
            +++ format_int env.forward_hops
            +++ " times by "
            +++ quoted env.forwarded_by
            +++ " (max_hops "
            +++ format_int s.max_hops
            +++ ")"))
      else publish_err s env (publish (copy_message s env))

-- A message whose metadata has the delivery GUID reads the same under another UUID.
renamed_message :
    (parse_time : String → Option ℕ) (msg : Message) (uuid g : String)
    → lookup "delivery_guid" msg.metadata ≡ some g
    → from_message parse_time (record msg { uuid = uuid }) ≡ from_message parse_time msg
unfolding from_message guid_of
renamed_message parse_time msg uuid g e = rw e refl

pub next_hop_lem : (hops : ℤ) (n : ℕ) → hops ≡ pos n → n < max_int → next_hop hops ≡ pos (n + 1)
unfolding next_hop
next_hop_lem hops n e small = rw e (ground arith)

-- Whoever reads the copy of an envelope that ToMessage can write, with fewer hops than the largest
-- 64-bit number, finds the envelope itself, payload, delivery GUID and all fields, but for the two
-- markers: forwarded by this sink, and one hop more. Of package time it is used that the text written
-- for the time of receipt is read back, and that the empty text is no time.
pub from_message-copy_message :
    (digest : String → String) (format_time : ℕ → String) (parse_time : String → Option ℕ)
    (s : Forward) (env : Envelope) (n : ℕ)
    → parse_time (format_time env.received_at) ≡ some env.received_at
    → parse_time "" ≡ none
    → IsWritable env
    → env.forward_hops ≡ pos n
    → n < max_int
    → from_message parse_time (copy_message digest format_time s env)
      ≡ ok (record env { forwarded_by = s.name; forward_hops = pos (n + 1) })
unfolding copy_message forwarded to_message
from_message-copy_message digest format_time parse_time s env n read_back no_time w hops small =
    let out = forwarded s env in
    let next : next_hop env.forward_hops ≡ pos (n + 1) =
      next_hop_lem env.forward_hops n hops small in
    let writable : IsWritable out = record {
      has_guid = w.has_guid;
      has_event = w.has_event;
      version_is = w.version_is;
      id_value = w.id_value;
      hops_value = (n + 1, omega arith, next);
    } in
    renamed_message parse_time (to_message format_time out)
      (forward_uuid digest env.delivery_guid s.name s.topic) env.delivery_guid
      (guid_at format_time out)
    ∙ from_message-to_message format_time parse_time out read_back no_time writable
    ∙ ap (λ h. ok (record env { forwarded_by = s.name; forward_hops = h })) next
