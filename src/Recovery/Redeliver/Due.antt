-- ===== src/Recovery/Redeliver/Due.antt =====
-- Which redeliveries a scan asks for, and in which order.
use antwatcher.Prelude.{
  ℕ, ◌+◌, ◌≤◌, ◌≡◌, refl, ap, true, false, Option, none, some, List, [], ◌∷◌, String, arith, filter,
  take, length, All, All-take, Bool-cases, inl, inr, eq_iff, eq_refl, length-take-le, zero, suc,
}
use antwatcher.Prelude.Dict.{lookup, IsDict}
use antwatcher.Prelude.Sort.{sort, IsSorted, sort-IsSorted, sort-All}
use antwatcher.Prelude.Errors.{Err}
use antwatcher.Recovery.State.{TargetState, PendingInfo}
use antwatcher.Recovery.Redeliver.{
  Options, Calls, Candidate, Step, interrupted, stopped, continued, is_due, less, candidates,
  request, request_all, redeliver, resume, concluded, Outcome,
}

less_asymm : (a b : Candidate) → less a b ≡ true → less b a ≡ false
unfolding less
less_asymm a b h = ground arith

-- A candidate is a pending entry that is past grace.
abbrev pub IsCandidate : Options → ℕ → List (String × PendingInfo) → Candidate → Type 0
IsCandidate o now pending c = (lookup c.0 pending ≡ some c.1) × (is_due o.grace now c ≡ true)

later_entries :
    (g : String) (p : PendingInfo) (rest cs : List (String × PendingInfo))
    → lookup g rest ≡ none
    → All (λ c. lookup c.0 rest ≡ some c.1) cs
    → All (λ c. lookup c.0 ((g, p) ∷ rest) ≡ some c.1) cs
unfolding lookup
later_entries g p rest [] fresh h = tt
later_entries g p rest (c ∷ cs) fresh (e, h) =
    (ground (arith, eq_iff g c.0), later_entries g p rest cs fresh h)

entries-lookup : (d : List (String × PendingInfo)) → IsDict d → All (λ c. lookup c.0 d ≡ some c.1) d
unfolding lookup
entries-lookup [] h = tt
entries-lookup ((g, p) ∷ rest) (fresh, h) =
    (ground (arith, eq_refl g), later_entries g p rest rest fresh (entries-lookup rest h))

filter-All :
    (o : Options) (now : ℕ) (pending cs : List (String × PendingInfo))
    → All (λ c. lookup c.0 pending ≡ some c.1) cs
    → All (IsCandidate o now pending) (filter (is_due o.grace now) cs)
filter-All o now pending [] h = tt
filter-All o now pending (c ∷ cs) (e, h) = elim (Bool-cases (is_due o.grace now c)) [
  | inl d ↦ rw d ((e, d), filter-All o now pending cs h)
  | inr d ↦ rw d (filter-All o now pending cs h)
]

resumed_prefix :
    (s : Step) (c : Candidate) (cs : List Candidate) (st : TargetState)
    (next : TargetState → Option Err → Outcome)
    → ((st' : TargetState) (first : Option Err)
        → (next st' first).asked ≡ take (length (next st' first).asked) cs)
    → (resume s c st next).asked ≡ take (length (resume s c st next).asked) (c ∷ cs)
resumed_prefix interrupted c cs st next h = refl
resumed_prefix (stopped x) c cs st next h = refl
resumed_prefix (continued st' first) c cs st next h = ap (λ l. c ∷ l) (h st' first)

concluded_prefix : (first : Option Err) (st : TargetState) → (concluded first st).asked ≡ []
concluded_prefix none st = refl
concluded_prefix (some e) st = refl

asked_prefix :
    (o : Options) (calls : Calls) (now n : ℕ) (first : Option Err) (cs : List Candidate)
    (st : TargetState)
    → (request_all o calls now n first cs st).asked
      ≡ take (length (request_all o calls now n first cs st).asked) cs
unfolding request_all
asked_prefix o calls now n first [] st = rw (concluded_prefix first st) refl
asked_prefix o calls now n first (c ∷ cs) st =
    resumed_prefix (request o calls now n first c st) c cs st
      (λ st' first'. request_all o calls now (n + 1) first' cs st')
      (λ st' first'. asked_prefix o calls now (n + 1) first' cs st')

length-take-shorter {ℓ} : {A : Type ℓ} (k : ℕ) (xs : List A) → length (take k xs) ≤ length xs
length-take-shorter zero xs = omega arith
length-take-shorter (suc k) [] = omega arith
length-take-shorter (suc k) (x ∷ xs) = omega (arith, length-take-shorter k xs)

asked_length {ℓ} : {A : Type ℓ} (n k : ℕ) (xs : List A) → length (take k (take n xs)) ≤ n
asked_length n k xs = omega (arith, length-take-shorter k (take n xs), length-take-le n xs)

-- The requests of a scan, on a target whose pending set has each GUID once: they are the first ones of the
-- due entries, in the order of the comparison (no due entry is less than the one in front of it), at
-- most max_per_scan, and each is a pending entry whose latest attempt is past grace and which
-- was not requested within grace.
pub redeliver_asked :
    (o : Options) (calls : Calls) (now : ℕ) (st : TargetState)
    → IsDict st.pending
    → let asked = (redeliver o calls now st).asked in
      let due = sort less (filter (is_due o.grace now) st.pending) in
      (asked ≡ take (length asked) (take o.max_per_scan due))
      × (length asked ≤ o.max_per_scan)
      × IsSorted less due
      × All (IsCandidate o now st.pending) asked
unfolding redeliver candidates
redeliver_asked o calls now st d =
    let due : List Candidate = sort less (filter (is_due o.grace now) st.pending) in
    let prefix = asked_prefix o calls now 0 none (candidates o now st.pending) st in
    let asked : List Candidate = (redeliver o calls now st).asked in
    let valid = All-take (IsCandidate o now st.pending) o.max_per_scan due (
      sort-All less (IsCandidate o now st.pending) (filter (is_due o.grace now) st.pending)
        (filter-All o now st.pending st.pending (entries-lookup st.pending d))) in
    (
      prefix,
      rw prefix (asked_length o.max_per_scan (length asked) due),
      sort-IsSorted less less_asymm (filter (is_due o.grace now) st.pending),
      rw prefix
          (All-take (IsCandidate o now st.pending) (length asked) (take o.max_per_scan due) valid),
    )
