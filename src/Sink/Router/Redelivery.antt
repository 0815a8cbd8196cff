-- ===== src/Sink/Router/Redelivery.antt =====
-- The broker redelivers a message until it is acked: what a series of attempts amounts to.
use antwatcher.Prelude.{
  ℕ, ◌+◌, ◌≡◌, ◌↔◌, ◌⊎◌, inl, inr, Bool, true, false, Option, none, List, [], ◌∷◌, String, arith,
  if◌then◌else◌, is_some, Option-cases,
}
use antwatcher.Prelude.Dict.{lookup}
use antwatcher.Prelude.Errors.{Err}
use antwatcher.Event.Envelope.{Envelope}
use antwatcher.Event.Message.{Message, from_message}
use antwatcher.Sink.Stalled.Invariant.{IsValid}
use antwatcher.Sink.Router.{Handler, Clock, handle}
use antwatcher.Sink.Router.Delivery.{
  IsDelivered, IsAccounted, handle_acked, handle-IsAccounted, total,
}

-- One attempt: how the sink answers then, and the clock.
pub record Attempt : Type 0 where
  pub process : Envelope → Option Err
  pub clock : Clock

-- The attempts made at one message: the handler after them, whether the message was acked, and how
-- many attempts the broker made.
unfoldable pub redeliver :
    (String → Option ℕ) → Message → List Attempt → Handler → Handler × Bool × ℕ
redeliver parse_time msg [] h = (h, false, 0)
redeliver parse_time msg (a ∷ later) h =
    let (h', o, lines) = handle parse_time a.process msg a.clock h in
    let rest = redeliver parse_time msg later h' in
    if is_some o then (rest.0, rest.1, rest.2 + 1) else (h', true, 1)

-- Some attempt finds the sink ready for the message.
abbrev pub Succeeds : (String → Option ℕ) → Message → List Attempt → Type 0
Succeeds parse_time msg [] = ⊥
Succeeds parse_time msg (a ∷ later) =
    IsDelivered a.process (from_message parse_time msg) ⊎ Succeeds parse_time msg later

-- What holds after the attempts on the handler `h` that ended in `out`.
pub record IsSettled (msg : Message) (h : Handler) (out : Handler × Bool × ℕ) : Type 0 where
  pub valid : IsValid out.0.stalled
  pub counted : total out.0 ≡ total h + out.2
  pub not_stalled : out.1 ≡ true → lookup msg.uuid out.0.stalled.entries ≡ none

redeliver_step :
    (parse_time : String → Option ℕ) (msg : Message) (a : Attempt) (later : List Attempt)
    (h : Handler)
    → IsAccounted msg.uuid a.clock.at h
        (handle parse_time a.process msg a.clock h).0
        (handle parse_time a.process msg a.clock h).1
    → IsSettled msg
        (handle parse_time a.process msg a.clock h).0
        (redeliver parse_time msg later (handle parse_time a.process msg a.clock h).0)
    → IsSettled msg h (redeliver parse_time msg (a ∷ later) h)
unfolding redeliver
redeliver_step parse_time msg a later h acc ih =
    elim (Option-cases (handle parse_time a.process msg a.clock h).1) [
      | inl acked ↦ rw acked (ground arith)
      | inr (e, failed) ↦ rw failed (ground arith)
    ]

redeliver-IsSettled :
    (parse_time : String → Option ℕ) (msg : Message) (l : List Attempt) (h : Handler)
    → IsValid h.stalled
    → IsSettled msg h (redeliver parse_time msg l h)
redeliver-IsSettled parse_time msg [] h v = unfold redeliver in ground arith
redeliver-IsSettled parse_time msg (a ∷ later) h v =
    let acc = handle-IsAccounted parse_time a.process msg a.clock h v in
    redeliver_step parse_time msg a later h acc
      (redeliver-IsSettled parse_time msg later _ acc.valid)

redeliver_acked :
    (parse_time : String → Option ℕ) (msg : Message) (l : List Attempt) (h : Handler)
    → ((redeliver parse_time msg l h).1 ≡ true) ↔ Succeeds parse_time msg l
unfolding redeliver
redeliver_acked parse_time msg [] h = ground arith
redeliver_acked parse_time msg (a ∷ later) h = ground (
  arith,
  handle_acked parse_time a.process msg a.clock h,
  redeliver_acked parse_time msg later (handle parse_time a.process msg a.clock h).0,
)

-- A message that the broker redelivers until it is acked is acked exactly when some attempt
-- succeeds, with no restart in between; then it is not stalled any more, whatever failures came
-- first, and in every case each attempt made was counted once and the stalled set is valid.
pub redeliver_lem :
    (parse_time : String → Option ℕ) (msg : Message) (l : List Attempt) (h : Handler)
    → IsValid h.stalled
    → (((redeliver parse_time msg l h).1 ≡ true) ↔ Succeeds parse_time msg l)
      × IsSettled msg h (redeliver parse_time msg l h)
redeliver_lem parse_time msg l h v =
    (redeliver_acked parse_time msg l h, redeliver-IsSettled parse_time msg l h v)
