-- ===== src/Recovery/Scan/Window.antt =====
-- The window a scan lists, and the settings New accepts.
use antwatcher.Prelude.{
  ℕ, ◌+◌, ◌-◌, ◌≤◌, ◌<◌, ◌≡◌, ◌↔◌, refl, sym, ap, Bool, true, false, not, ◌&&◌, ◌||◌, Option, none,
  some, List, [], ◌∷◌, ◌++◌, String, arith, ltb, ◌==◌, if◌then◌else◌, Bool-cases, inl, inr, str_eq,
  length, All, map,
}
use antwatcher.Prelude.Int.{pos, ltb_ℤ, leb_ℤ}
use antwatcher.Prelude.Errors.{Err, join, join_nil, Result, ok, err}
use antwatcher.Recovery.State.{Target, TargetState}
use antwatcher.Recovery.Redeliver.{Options}
use antwatcher.Recovery.Scan.{
  Settings, is_org, max_lookback, complain, flatten, check_target, check_targets, check, new_state,
  new_loop, unless, since,
}

window_scanned :
    (now last lookback overlap t : ℕ)
    → now ≤ t + lookback
    → last ≤ t + overlap
    → (if ltb (now - lookback) (last - overlap) then last - overlap else now - lookback) ≤ t
window_scanned now last lookback overlap t n h = ground arith

-- A delivery's time `t` is inside the listed window exactly when it is inside the lookback and, once the
-- target has been scanned, not older than the last scan less the overlap.
pub since_lem :
    (o : Options) (now : ℕ) (st : TargetState) (t : ℕ)
    → ((since o now st ≤ t)
        → (now ≤ t + o.lookback) × (st.scanned ≡ true → st.last_scan ≤ t + o.overlap))
      × ((now ≤ t + o.lookback)
          → (st.scanned ≡ true → st.last_scan ≤ t + o.overlap)
          → since o now st ≤ t)
unfolding since
since_lem o now st t = elim (Bool-cases st.scanned) [
  | inl e ↦
      rw e (ground arith, λ n h. window_scanned now st.last_scan o.lookback o.overlap t n (h refl))
  | inr e ↦ rw e (ground arith, λ n h. ground arith)
]

append_nil_inv {ℓ} : {A : Type ℓ} (xs ys : List A) → xs ++ ys ≡ [] → (xs ≡ []) × (ys ≡ [])
append_nil_inv [] ys e = (refl, e)
append_nil_inv (x ∷ xs) ys e = cc

flatten_nil : (ls : List (List Err)) → flatten ls ≡ [] → All (λ l. l ≡ []) ls
flatten_nil [] h = tt
flatten_nil (l ∷ ls) h =
    let (here, there) = append_nil_inv l (flatten ls) h in (here, flatten_nil ls there)

complain_nil : (b : Bool) (t : String) → complain b t ≡ [] → b ≡ false
complain_nil true t e = cc
complain_nil false t e = refl

-- A target names one repository or one organisation, and its hook can be found.
abbrev pub IsTarget : String → Target → Type 0
IsTarget webhook_url t =
    ((if is_org t then str_eq t.repo "" else not (str_eq t.repo "") && not (str_eq t.owner ""))
      ≡ true)
    × ((not (t.hook_id == 0) || not (str_eq webhook_url "")) ≡ true)

-- The settings with which the loop can run.
abbrev pub IsRunnable : Settings → Type 0
IsRunnable s =
    (s.has_client ≡ true)
    × (0 < length s.targets)
    × All (IsTarget s.webhook_url) s.targets
    × (ltb_ℤ (pos 0) s.interval ≡ true)
    × (ltb_ℤ (pos 0) s.lookback ≡ true)
    × (leb_ℤ s.lookback (pos max_lookback) ≡ true)
    × (leb_ℤ (pos 0) s.overlap ≡ true)
    × (leb_ℤ (pos 0) s.grace ≡ true)
    × (ltb_ℤ (pos 0) s.max_per_scan ≡ true)
    × (leb_ℤ (pos 0) s.redeliver_delay ≡ true)

check_target-nil : (u : String) (i : ℕ) (t : Target) → (check_target u i t ≡ []) ↔ IsTarget u t
unfolding check_target
check_target-nil u i t = ground arith

check_targets-nil :
    (u : String) (i : ℕ) (ts : List Target) → (check_targets u i ts ≡ []) → All (IsTarget u) ts
unfolding check_targets
check_targets-nil u i [] h = tt
check_targets-nil u i (t ∷ ts) h =
    let (here, there) = append_nil_inv (check_target u i t) (check_targets u (i + 1) ts) h in
    ((check_target-nil u i t).0 here, check_targets-nil u (i + 1) ts there)

nil-check_targets :
    (u : String) (i : ℕ) (ts : List Target) → All (IsTarget u) ts → check_targets u i ts ≡ []
unfolding check_targets
nil-check_targets u i [] h = refl
nil-check_targets u i (t ∷ ts) (here, there) =
    rw ((check_target-nil u i t).1 here, nil-check_targets u (i + 1) ts there) refl

targets_of : Result (List TargetState) → List TargetState
targets_of (ok l) = l
targets_of (err e) = []

new_loop_accepted :
    (s : Settings) (l : List TargetState) (o : Option Err)
    → unless (map new_state s.targets) o ≡ ok l
    → (o ≡ none) × (l ≡ map new_state s.targets)
unfolding targets_of
new_loop_accepted s l none h = (refl, sym (ap targets_of h))
new_loop_accepted s l (some e) h = cc

check_sound : (s : Settings) → check s ≡ [] → IsRunnable s
unfolding check
check_sound s h =
    let (c0, (c1, (c2, (c3, (c4, (c5, (c6, (c7, (c8, end))))))))) =
      flatten_nil
        ((complain (not s.has_client) "recovery: client is required")
          ∷ (complain (length s.targets == 0) "recovery: at least one target is required")
          ∷ (check_targets s.webhook_url 0 s.targets)
          ∷ (complain (leb_ℤ s.interval (pos 0)) "recovery: interval must be > 0")
          ∷ (complain (leb_ℤ s.lookback (pos 0) || ltb_ℤ (pos max_lookback) s.lookback)
              "recovery: lookback must be in (0, 72h0m0s]")
          ∷ (complain (ltb_ℤ s.overlap (pos 0)) "recovery: overlap must be >= 0")
          ∷ (complain (ltb_ℤ s.grace (pos 0)) "recovery: grace must be >= 0")
          ∷ (complain (leb_ℤ s.max_per_scan (pos 0)) "recovery: max_per_scan must be > 0")
          ∷ (complain (ltb_ℤ s.redeliver_delay (pos 0)) "recovery: redeliver delay must be >= 0")
          ∷ [])
        h in
    (
      ground (arith, complain_nil (not s.has_client) "recovery: client is required" c0),
      ground (
        arith,
        complain_nil (length s.targets == 0) "recovery: at least one target is required" c1,
      ),
      check_targets-nil s.webhook_url 0 s.targets c2,
      ground (arith, complain_nil (leb_ℤ s.interval (pos 0)) "recovery: interval must be > 0" c3),
      ground (
        arith,
        complain_nil (leb_ℤ s.lookback (pos 0) || ltb_ℤ (pos max_lookback) s.lookback)
            "recovery: lookback must be in (0, 72h0m0s]" c4,
      ),
      ground (
        arith,
        complain_nil (leb_ℤ s.lookback (pos 0) || ltb_ℤ (pos max_lookback) s.lookback)
            "recovery: lookback must be in (0, 72h0m0s]" c4,
      ),
      ground (arith, complain_nil (ltb_ℤ s.overlap (pos 0)) "recovery: overlap must be >= 0" c5),
      ground (arith, complain_nil (ltb_ℤ s.grace (pos 0)) "recovery: grace must be >= 0" c6),
      ground (
        arith,
        complain_nil (leb_ℤ s.max_per_scan (pos 0)) "recovery: max_per_scan must be > 0" c7,
      ),
      ground (
        arith,
        complain_nil (ltb_ℤ s.redeliver_delay (pos 0)) "recovery: redeliver delay must be >= 0" c8,
      ),
    )

check_complete : (s : Settings) → IsRunnable s → check s ≡ []
unfolding check
check_complete s (c, n, t, h0, h1, h2, h3, h4, h5, h6) =
    rw (nil-check_targets s.webhook_url 0 s.targets t) (ground arith)

-- New accepts the settings exactly when they are runnable (a client, at least one target, each naming one
-- repository or organisation with a hook that is known or can be found, a positive interval and
-- cap, a lookback in (0, 72h], and no negative duration), and then starts every target with
-- nothing pending and no scan.
pub new_loop_iff :
    (s : Settings) (l : List TargetState)
    → (new_loop s ≡ ok l) ↔ (IsRunnable s × (l ≡ map new_state s.targets))
unfolding new_loop join
new_loop_iff s l = (
  (λ h.
      let (none_wrong, same) = new_loop_accepted s l (join (check s)) h in
      (check_sound s (join_nil (check s) none_wrong), same)),
  (λ (h, same). rw (same, check_complete s h) refl),
)
