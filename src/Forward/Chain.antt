-- ===== src/Forward/Chain.antt =====
-- Chains of forward sinks: how far one event can travel.
use antwatcher.Prelude.{
  ℕ, suc, ◌+◌, ◌≤◌, ◌<◌, ◌≡◌, refl, ap, sym, ◌∙◌, Bool, true, false, Option, none, some, String,
  arith, if◌then◌else◌,
}
use antwatcher.Prelude.Int.{ℤ, pos, leb_ℤ}
use antwatcher.Prelude.Dict.{lookup}
use antwatcher.Prelude.Decimal.{max_int}
use antwatcher.Prelude.Errors.{Err, Result, ok, err, ◌>>=◌}
use antwatcher.Event.Envelope.{Envelope}
use antwatcher.Event.Message.{
  Message, from_message, to_message, required, optional_int, version_of, time_of, guid_of,
}
use antwatcher.Event.Message.RoundTrip.{hops_written}
use antwatcher.Forward.Copy.{Forward, forwarded, next_hop_lem, copy_message, process}

-- A call that gives a result.
bind_ok {ℓ κ} :
    {S : Type ℓ} {T : Type κ} (r : Result S) (next : S → Result T) (t : T)
    → (r >>= next) ≡ ok t
    → (value : S) × (r ≡ ok value) × (next value ≡ ok t)
bind_ok (ok value) next t h = (value, refl, h)
bind_ok (err e) next t h = absurd (cc)

hops_of : Result Envelope → Result ℤ
hops_of (ok env) = ok env.forward_hops
hops_of (err e) = err e

-- The hops that FromMessage reads.
from_message_hops :
    (parse_time : String → Option ℕ) (msg : Message) (env : Envelope)
    → from_message parse_time msg ≡ ok env
    → optional_int "antwatcher.forward.hops" (lookup "antwatcher.forward.hops" msg.metadata)
      ≡ ok env.forward_hops
unfolding from_message hops_of
from_message_hops parse_time msg env h =
    let md = msg.metadata in
    let (guid, e1, h1) = bind_ok (guid_of msg (lookup "delivery_guid" md)) _ env h in
    let (version_text, e2, h2) = bind_ok (required md "schema_version") _ env h1 in
    let (version, e3, h3) = bind_ok (version_of version_text) _ env h2 in
    let (event, e4, h4) = bind_ok (required md "event") _ env h3 in
    let (received_text, e5, h5) = bind_ok (required md "received_at") _ env h4 in
    let (received, e6, h6) = bind_ok (time_of parse_time received_text) _ env h5 in
    let (id, e7, h7) =
      bind_ok (optional_int "repository_id" (lookup "repository_id" md)) _ env h6 in
    let (hops, e8, h8) =
      bind_ok (optional_int "antwatcher.forward.hops" (lookup "antwatcher.forward.hops" md)) _ env
        h7 in
    e8 ∙ ap hops_of h8

passed :
    (test : Bool) (e : Err) (rest : Option Err)
    → (if test then some e else rest) ≡ none
    → test ≡ false
passed false e rest h = refl
passed true e rest h = absurd (cc)

below_limit : (a b : ℤ) (limit n : ℕ) → a ≡ pos limit → b ≡ pos n → leb_ℤ a b ≡ false → n < limit
below_limit a b limit n e1 e2 h =
    let test : leb_ℤ (pos limit) (pos n) ≡ false = rw (e1, e2) at h in ground arith

module _ (digest : String → String) (format_time : ℕ → String) (parse_time : String → Option ℕ)
    (m : ℕ) where
  -- An event that is forwarded `k` times, each time by a sink whose hop limit is at most `m`: Process publishes the copy
  -- without an error, and the next sink reads it from its bus.
  pub data Chain : Envelope → ℕ → Envelope → Type 0 where
    arrived : (env : Envelope) → Chain env 0 env
    hop :
        (publish : Message → Option Err) (s : Forward) (limit : ℕ) (env read env' : Envelope)
        (k : ℕ)
        → s.max_hops ≡ pos limit
        → limit ≤ m
        → process digest format_time publish s env ≡ none
        → from_message parse_time (copy_message digest format_time s env) ≡ ok read
        → Chain read k env'
        → Chain env (suc k) env'

  -- Process publishes only below the hop limit.
  process_below :
      (publish : Message → Option Err) (s : Forward) (env : Envelope) (limit n : ℕ)
      → s.max_hops ≡ pos limit
      → env.forward_hops ≡ pos n
      → process digest format_time publish s env ≡ none
      → n < limit
  unfolding process
  process_below publish s env limit n e1 e2 h =
      below_limit s.max_hops env.forward_hops limit n e1 e2
        (passed (leb_ℤ s.max_hops env.forward_hops) _ _ h)

  -- The copy carries one hop more.
  read_hops :
      (s : Forward) (env read : Envelope) (n : ℕ)
      → env.forward_hops ≡ pos n
      → n < max_int
      → from_message parse_time (copy_message digest format_time s env) ≡ ok read
      → read.forward_hops ≡ pos (n + 1)
  unfolding copy_message to_message forwarded
  read_hops s env read n e small h =
      let found = from_message_hops parse_time (copy_message digest format_time s env) read h in
      let written =
        hops_written format_time (forwarded s env) (n + 1) (omega arith)
          (next_hop_lem env.forward_hops n e small) in
      cc (sym found ∙ written)

  -- An event that has made `n` hops, at most `m`, is forwarded at most `m - n` times more, `m` being
  -- the highest limit of the sinks on its way, a 64-bit number: however the sinks and buses are
  -- connected, no event travels forever.
  pub Chain-le :
      (env env' : Envelope) (n k : ℕ)
      → m ≤ max_int
      → env.forward_hops ≡ pos n
      → n ≤ m
      → Chain env k env'
      → n + k ≤ m
  Chain-le _ _ n _ big e small (arrived env) = omega arith
  Chain-le _ _ n _ big e small (hop publish s limit env read env' k e1 le p r c) =
      let below = process_below publish s env limit n e1 e p in
      let rest =
        Chain-le read env' (n + 1) k big (read_hops s env read n e (omega arith) r) (omega arith)
          c in
      omega arith
