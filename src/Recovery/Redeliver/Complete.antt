-- ===== src/Recovery/Redeliver/Complete.antt =====
-- A scan that nothing stops asks for every candidate.
use antwatcher.Prelude.{
  ℕ, ◌+◌, ◌+++◌, ◌≡◌, refl, ap, Bool, true, false, ◌&&◌, not, Option, none, some, List, [], ◌∷◌,
  ltb, if◌then◌else◌, filter, take, is_some,
}
use antwatcher.Prelude.Decimal.{itoa}
use antwatcher.Prelude.Sort.{sort}
use antwatcher.Prelude.Errors.{Err, wrap}
use antwatcher.Recovery.State.{Target, TargetState}
use antwatcher.Recovery.Redeliver.{
  Options, Calls, Candidate, scan_ok, scan_error, is_rate_limited, is_due, less, candidates,
  request, answered, request_all, redeliver, resume, concluded, Outcome, note_requested, keep_first,
  also_asked,
}

abbrev pub is_limit : Option Err → Bool
is_limit none = false
is_limit (some e) = is_rate_limited e

-- Nothing stops the requests: no pause is interrupted, the context does not end, and no answer is a rate limit.
pub record IsCalm (calls : Calls) : Type 0 where
  pub no_interrupt : (n : ℕ) → calls.interrupts n ≡ false
  pub no_end : (n : ℕ) → calls.ended n ≡ false
  pub no_limit : (n : ℕ) (t : Target) (id : ℕ) → is_limit (calls.answer n t id) ≡ false

-- Whether GitHub accepts all the requests, the first one being the `n`-th.
abbrev pub all_accepted : Calls → Target → ℕ → List Candidate → Bool
all_accepted calls t n [] = true
all_accepted calls t n (c ∷ cs) =
    not (is_some (calls.answer n t c.1.latest_delivery_id)) && all_accepted calls t (n + 1) cs

abbrev pub IsWhole : Outcome → List Candidate → Bool → Type 0
IsWhole out cs fine = (out.asked ≡ cs) × (out.result ≡ (if fine then scan_ok else scan_error))

concluded-IsWhole :
    (first : Option Err) (st : TargetState)
    → IsWhole (concluded first st) [] (not (is_some first) && true)
concluded-IsWhole none st = (refl, refl)
concluded-IsWhole (some e) st = (refl, refl)

also-IsWhole :
    (c : Candidate) (out : Outcome) (cs : List Candidate) (fine : Bool)
    → IsWhole out cs fine
    → IsWhole (also_asked c out) (c ∷ cs) fine
also-IsWhole c out cs fine (a, r) = (ap (λ l. c ∷ l) a, r)

-- A request that failed spoils the result.
spoilt :
    (first : Option Err) (e : Err) (out : Outcome) (cs : List Candidate) (rest : Bool)
    → IsWhole out cs (not (is_some (keep_first first e)) && rest)
    → IsWhole out cs (not (is_some first) && false)
spoilt none e out cs rest h = h
spoilt (some f) e out cs rest h = h

-- One round, given that the rounds after it are whole.
answered-IsWhole :
    (now n : ℕ) (rest : Bool) (first : Option Err) (c : Candidate) (cs : List Candidate)
    (st : TargetState) (next : TargetState → Option Err → Outcome)
    → ((st' : TargetState) (f : Option Err)
        → st'.target ≡ st.target
        → IsWhole (next st' f) cs (not (is_some f) && rest))
    → (a : Option Err) → is_limit a ≡ false
    → IsWhole
        (resume (answered a false now first c st) c st next)
        (c ∷ cs)
        (not (is_some first) && (not (is_some a) && rest))
unfolding answered note_requested
answered-IsWhole now n rest first c cs st next h none l =
    also-IsWhole c (next (note_requested now c.0 st) first) cs (not (is_some first) && rest)
      (h (note_requested now c.0 st) first refl)
answered-IsWhole now n rest first c cs st next h (some e) l =
    let kept : Option Err =
      keep_first first (wrap ("redeliver " +++ itoa c.1.latest_delivery_id +++ ": ") e "") in
    rw l (
      also-IsWhole c (next st kept) cs (not (is_some first) && false) (
        spoilt first (wrap ("redeliver " +++ itoa c.1.latest_delivery_id +++ ": ") e "")
          (next st kept) cs rest (h st kept refl)))

no_pause : (a b c : Bool) → c ≡ false → (a && b && c) ≡ false
no_pause true true c h = h
no_pause true false c h = refl
no_pause false b c h = refl

retarget :
    (calls : Calls) (t u : Target) (n : ℕ) (b : Bool) (cs : List Candidate) (out : Outcome)
    → t ≡ u
    → IsWhole out cs (b && all_accepted calls t n cs)
    → IsWhole out cs (b && all_accepted calls u n cs)
retarget calls t u n b cs out e h = rw (← e) h

module _ (o : Options) (calls : Calls) (now : ℕ) (calm : IsCalm calls) where
  request_all-IsWhole :
      (n : ℕ) (first : Option Err) (cs : List Candidate) (st : TargetState)
      → IsWhole
          (request_all o calls now n first cs st)
          cs
          (not (is_some first) && all_accepted calls st.target n cs)
  unfolding request_all request
  request_all-IsWhole n first [] st = concluded-IsWhole first st
  request_all-IsWhole n first (c ∷ cs) st =
      rw
        (
          no_pause (ltb 0 n) (ltb 0 o.redeliver_delay) (calls.interrupts n) (calm.no_interrupt n),
          calm.no_end n,
        )
        (answered-IsWhole now n (all_accepted calls st.target (n + 1) cs) first c cs st
          (λ st' f. request_all o calls now (n + 1) f cs st')
          (λ st' f same.
            retarget calls st'.target st.target (n + 1) (not (is_some f)) cs
              (request_all o calls now (n + 1) f cs st') same
              (request_all-IsWhole (n + 1) f cs st'))
          (calls.answer n st.target c.1.latest_delivery_id)
          (calm.no_limit n st.target c.1.latest_delivery_id))

-- A scan that nothing stops (no interrupted pause, no ended context, no rate limit) asks GitHub for each of the due
-- entries, in order, up to max_per_scan, whatever single requests fail; and its result is ok exactly
-- when GitHub accepts them all, and an error otherwise.
pub redeliver-IsWhole :
    (o : Options) (calls : Calls) (now : ℕ) (st : TargetState)
    → IsCalm calls
    → let due = take o.max_per_scan (sort less (filter (is_due o.grace now) st.pending)) in
      IsWhole (redeliver o calls now st) due (all_accepted calls st.target 0 due)
unfolding redeliver candidates
redeliver-IsWhole o calls now st calm =
    request_all-IsWhole o calls now calm 0 none (candidates o now st.pending) st
