-- ===== src/Recovery/Scan/Ends.antt =====
-- What a scan changes, whichever way it ends.
use antwatcher.Prelude.{
  ℕ, ◌+◌, ◌≡◌, ◌≢◌, ◌⊎◌, true, false, List, String, if◌then◌else◌, ◌+++◌, length,
}
use antwatcher.Prelude.Dict.{lookup, IsDict}
use antwatcher.Prelude.Errors.{Err, ok, err, text}
use antwatcher.Recovery.Decide.{Delivery}
use antwatcher.Recovery.State.{TargetState, merge}
use antwatcher.Recovery.Redeliver.{Options, redeliver}
use antwatcher.Recovery.Redeliver.Outcomes.{accepted, among, marked}
use antwatcher.Recovery.Scan.{Answers, since, merged_state, with_hook}

-- The pending set and the scan times as before.
abbrev pub IsUntouched : TargetState → TargetState → Type 0
IsUntouched before after =
    (after.pending ≡ before.pending)
    × (after.last_scan ≡ before.last_scan)
    × (after.scanned ≡ before.scanned)
    × (after.redelivered ≡ before.redelivered)

-- The target after the discovery: its hook id if that was known, the discovered one otherwise.
abbrev pub IsFound : Options → Answers → TargetState → TargetState → Type 0
IsFound o a before found =
    ((before.target.hook_id ≢ 0) × (found ≡ before))
    ⊎ ((before.target.hook_id ≡ 0)
        × ((id : ℕ) × (a.discover before.target o.webhook_url ≡ ok id)
            × (found ≡ with_hook id before)))

-- The deliveries that GitHub lists of the window have been merged; then the requests of `redeliver` have been made, and
-- the entries of those that GitHub accepted are marked as requested.
abbrev pub IsListed : Options → Answers → ℕ → TargetState → TargetState → List Delivery → Type 0
IsListed o a now found after deliveries =
    let merged = merged_state o now deliveries found in
    let gs = accepted a.calls found.target 0 (redeliver o a.calls now merged).asked in
    (a.list_deliveries found.target (since o now found) ≡ ok deliveries)
    × (after.target ≡ found.target)
    × (after.last_scan ≡ now)
    × (after.scanned ≡ true)
    × (after.redelivered ≡ found.redelivered + length gs)
    × ((g : String)
        → lookup g after.pending ≡ (
            let m = lookup g (merge o.lookback now deliveries found.pending) in
            if among g gs then marked now m else m))
    × (IsDict found.pending → IsDict after.pending)

-- The listing failed, and unless the context has ended its error is the reason that the target is degraded.
abbrev pub IsUnlisted : Options → Answers → ℕ → TargetState → TargetState → Type 0
IsUnlisted o a now found after =
    IsUntouched found after
    × (after.target ≡ found.target)
    × ((e : Err) × (a.list_deliveries found.target (since o now found) ≡ err e)
        × (a.ended ≡ false → after.degraded ≡ "list deliveries: " +++ text e))

-- The hook id was not known and its discovery failed, with the reason recorded as above.
abbrev pub IsUndiscovered : Options → Answers → ℕ → TargetState → TargetState → Type 0
IsUndiscovered o a now before after =
    IsUntouched before after
    × ((e : Err) × (before.target.hook_id ≡ 0)
        × (a.discover before.target o.webhook_url ≡ err e)
        × (a.ended ≡ false → after.degraded ≡ "hook discovery: " +++ text e))

abbrev pub IsListing : Options → Answers → ℕ → TargetState → TargetState → Type 0
IsListing o a now found after =
    IsUnlisted o a now found after
    ⊎ ((deliveries : List Delivery) × IsListed o a now found after deliveries)

abbrev pub IsScan : Options → Answers → ℕ → TargetState → TargetState → Type 0
IsScan o a now before after =
    IsUndiscovered o a now before after
    ⊎ ((found : TargetState) × IsFound o a before found × IsListing o a now found after)
