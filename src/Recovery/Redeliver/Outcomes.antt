-- ===== src/Recovery/Redeliver/Outcomes.antt =====
-- What the requests of a scan leave behind.
use antwatcher.Prelude.{
  ℕ, ◌+◌, ◌≡◌, refl, ap, ◌∙◌, Bool, true, false, ◌&&◌, ◌||◌, Option, none, some, List, [], ◌∷◌,
  String, arith, ltb, ◌+++◌, if◌then◌else◌, length, any, Bool-cases, inl, inr, eq_iff, str_eq,
  is_some,
}
use antwatcher.Prelude.Dict.{lookup, IsDict, lookup-insert, insert-IsDict}
use antwatcher.Prelude.Errors.{Err, wrap}
use antwatcher.Prelude.Decimal.{itoa}
use antwatcher.Recovery.State.{Target, TargetState, PendingInfo}
use antwatcher.Recovery.Redeliver.{
  Options, Calls, Candidate, request, answered, request_all, redeliver, resume, concluded,
  keep_first, Outcome, note_requested, requested, candidates, is_rate_limited,
}

-- The GUIDs among the asked ones whose request GitHub accepted, the first one being the `n`-th.
abbrev pub accepted : Calls → Target → ℕ → List Candidate → List String
accepted calls t n [] = []
accepted calls t n (c ∷ cs) =
    let rest = accepted calls t (n + 1) cs in
    if is_some (calls.answer n t c.1.latest_delivery_id) then rest else c.0 ∷ rest

abbrev pub marked : ℕ → Option PendingInfo → Option PendingInfo
marked now none = none
marked now (some p) = some (record {
  latest_delivery_id = p.latest_delivery_id;
  latest_at = p.latest_at;
  requested_at = now;
})

abbrev pub among : String → List String → Bool
among g gs = any (λ j. str_eq j g) gs

lookup-requested :
    (now : ℕ) (guid g : String) (o : Option PendingInfo) (pending : List (String × PendingInfo))
    → lookup guid pending ≡ o
    → lookup g (requested now o guid pending)
      ≡ (if str_eq guid g then marked now (lookup g pending) else lookup g pending)
lookup-requested now guid g none pending h = ground (arith, eq_iff guid g)
lookup-requested now guid g (some p) pending h = ground (
  arith,
  eq_iff guid g,
  lookup-insert guid g
      (record {
        latest_delivery_id = p.latest_delivery_id;
        latest_at = p.latest_at;
        requested_at = now;
      })
      pending,
)

requested-IsDict :
    (now : ℕ) (guid : String) (o : Option PendingInfo) (pending : List (String × PendingInfo))
    → IsDict pending
    → IsDict (requested now o guid pending)
requested-IsDict now guid none pending d = d
requested-IsDict now guid (some p) pending d = insert-IsDict guid _ pending d

-- How the state of a target relates to the one before the requests.
abbrev pub IsMarked : ℕ → String → List String → TargetState → TargetState → Type 0
IsMarked now g gs before after =
    (lookup g after.pending
      ≡ (if among g gs then marked now (lookup g before.pending) else lookup g before.pending))
    × (after.redelivered ≡ before.redelivered + length gs)
    × (IsDict before.pending → IsDict after.pending)
    × (after.target ≡ before.target)
    × (after.last_scan ≡ before.last_scan)
    × (after.scanned ≡ before.scanned)

unmarked : (now : ℕ) (g : String) (st : TargetState) → IsMarked now g [] st st
unmarked now g st = (refl, omega arith, λ d. d, refl, refl, refl)

marked_twice :
    (now : ℕ) (b c : Bool) (o : Option PendingInfo)
    → (if c then marked now (if b then marked now o else o) else (if b then marked now o else o))
      ≡ (if b || c then marked now o else o)
marked_twice now true true none = refl
marked_twice now true true (some p) = refl
marked_twice now true false o = refl
marked_twice now false c o = refl

concluded-IsMarked :
    (now : ℕ) (g : String) (calls : Calls) (n : ℕ) (first : Option Err) (st : TargetState)
    → IsMarked now g
        (accepted calls st.target n (concluded first st).asked)
        st
        (concluded first st).state
concluded-IsMarked now g calls n none st = unmarked now g st
concluded-IsMarked now g calls n (some e) st = unmarked now g st

note-IsMarked :
    (now : ℕ) (g guid : String) (gs : List String) (st after : TargetState)
    → IsMarked now g gs (note_requested now guid st) after
    → IsMarked now g (guid ∷ gs) st after
unfolding note_requested
note-IsMarked now g guid gs st after (l, r, d, t, s, u) = (
  l
      ∙ (ap (λ o. if among g gs then marked now o else o)
            (lookup-requested now guid g (lookup guid st.pending) st.pending refl)
          ∙ marked_twice now (str_eq guid g) (among g gs) (lookup g st.pending)),
  omega (arith, r),
  λ h. d (requested-IsDict now guid (lookup guid st.pending) st.pending h),
  t,
  s,
  u,
)

module _ (o : Options) (calls : Calls) (now n : ℕ) (g : String) (c : Candidate) where
  -- The round of one candidate, given what the rounds after it do.
  resumed-IsMarked :
      (first : Option Err) (st : TargetState) (next : TargetState → Option Err → Outcome)
      → ((st' : TargetState) (f : Option Err)
          → st'.target ≡ st.target
          → IsMarked now g
              (accepted calls st.target (n + 1) (next st' f).asked)
              st'
              (next st' f).state)
      → (a : Option Err) → calls.answer n st.target c.1.latest_delivery_id ≡ a
      → let out = resume (answered a (calls.ended n) now first c st) c st next in
        IsMarked now g (accepted calls st.target n out.asked) st out.state
  unfolding answered note_requested
  resumed-IsMarked first st next h none e = rw e (
      note-IsMarked now g c.0
        (accepted calls st.target (n + 1) (next (note_requested now c.0 st) first).asked) st
        (next (note_requested now c.0 st) first).state (h (note_requested now c.0 st) first refl))
  resumed-IsMarked first st next h (some x) e =
      elim (Bool-cases (is_rate_limited x || calls.ended n)) [
        | inl p ↦ rw (p, e) (unmarked now g st)
        | inr p ↦
            rw (p, e)
              (h st
                (keep_first first
                  (wrap ("redeliver " +++ itoa c.1.latest_delivery_id +++ ": ") x ""))
                refl)
      ]

  step-IsMarked :
      (first : Option Err) (st : TargetState) (next : TargetState → Option Err → Outcome)
      → ((st' : TargetState) (f : Option Err)
          → st'.target ≡ st.target
          → IsMarked now g
              (accepted calls st.target (n + 1) (next st' f).asked)
              st'
              (next st' f).state)
      → let out = resume (request o calls now n first c st) c st next in
        IsMarked now g (accepted calls st.target n out.asked) st out.state
  unfolding request
  step-IsMarked first st next h =
      elim (Bool-cases (ltb 0 n && ltb 0 o.redeliver_delay && calls.interrupts n)) [
        | inl p ↦ rw p (unmarked now g st)
        | inr p ↦ rw p (
            resumed-IsMarked first st next h (calls.answer n st.target c.1.latest_delivery_id) refl)
      ]

-- The set of marked GUIDs speaks of the target before the requests.
retarget :
    (now n : ℕ) (g : String) (calls : Calls) (t u : Target) (asked : List Candidate)
    (before after : TargetState)
    → t ≡ u
    → IsMarked now g (accepted calls t n asked) before after
    → IsMarked now g (accepted calls u n asked) before after
retarget now n g calls t u asked before after e h = rw (← e) h

request_all-IsMarked :
    (o : Options) (calls : Calls) (now n : ℕ) (g : String) (first : Option Err)
    (cs : List Candidate) (st : TargetState)
    → let out = request_all o calls now n first cs st in
      IsMarked now g (accepted calls st.target n out.asked) st out.state
unfolding request_all
request_all-IsMarked o calls now n g first [] st = concluded-IsMarked now g calls n first st
request_all-IsMarked o calls now n g first (c ∷ cs) st =
    step-IsMarked o calls now n g c first st (λ st' f. request_all o calls now (n + 1) f cs st')
      (λ st' f same.
        retarget now (n + 1) g calls st'.target st.target
          (request_all o calls now (n + 1) f cs st').asked st'
          (request_all o calls now (n + 1) f cs st').state same
          (request_all-IsMarked o calls now (n + 1) g f cs st'))

-- After the requests of a scan, for every GUID: its pending entry has its request time set to the scan's time if
-- GitHub accepted its request, and is unchanged otherwise; no entry enters or leaves. The redelivery
-- counter grows by the number of accepted requests, the target and its scan times are kept, and the
-- pending set still has each GUID once if it had before.
pub redeliver_state :
    (o : Options) (calls : Calls) (now : ℕ) (g : String) (st : TargetState)
    → let out = redeliver o calls now st in
      let gs = accepted calls st.target 0 out.asked in
      (lookup g out.state.pending
        ≡ (if among g gs then marked now (lookup g st.pending) else lookup g st.pending))
      × (out.state.redelivered ≡ st.redelivered + length gs)
      × (IsDict st.pending → IsDict out.state.pending)
      × (out.state.target ≡ st.target)
      × (out.state.last_scan ≡ st.last_scan)
      × (out.state.scanned ≡ st.scanned)
unfolding redeliver
redeliver_state o calls now g st =
    request_all-IsMarked o calls now 0 g none (candidates o now st.pending) st
