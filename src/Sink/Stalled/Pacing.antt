-- ===== src/Sink/Stalled/Pacing.antt =====
-- What a series of failures and successes amounts to: the attempt counts and the error log lines.
use antwatcher.Prelude.{
  ap, ◌∙◌, ◌||◌, ℕ, ◌+◌, ◌/◌, ◌%◌, ◌≤◌, ◌<◌, ◌≡◌, refl, true, Option, none, some, List, [], ◌∷◌,
  String, arith, str_eq, eq_iff, eq_refl, ◌==◌, if◌then◌else◌, length,
}
use antwatcher.Prelude.Dict.{
  lookup, insert, lookup-insert, lookup-erase, length-insert, length-erase-le,
}
use antwatcher.Prelude.Errors.{Err}
use antwatcher.Sink.Stalled.{
  StalledSet, StalledInfo, max_stalled_entries, record_failure, record_found, clear, clear_found,
  publish, store, bump, fresh_info, log_now, stalled_log_every,
}

-- What the router reports to the set: a permanent failure or a success of one message.
pub data Report : Type 0 where
  failed : String → Err → ℕ → Report
  succeeded : String → Report

pub apply : StalledSet → Report → StalledSet
apply s (failed uuid reason now) = (record_failure uuid reason now s).0
apply s (succeeded uuid) = (clear uuid s).0

pub apply_all : StalledSet → List Report → StalledSet
apply_all s [] = s
apply_all s (r ∷ rs) = apply_all (apply s r) rs

-- The attempts that /status shows for a message; 0 where it is not listed.
abbrev shown : Option StalledInfo → ℕ
shown none = 0
shown (some i) = i.attempts

abbrev pub attempts_of : String → StalledSet → ℕ
attempts_of uuid s = shown (lookup uuid s.entries)

-- The failures of one message since its last success, by the reports alone.
abbrev next : String → ℕ → Report → ℕ
next uuid n (failed u reason now) = if str_eq u uuid then n + 1 else n
next uuid n (succeeded u) = if str_eq u uuid then 0 else n

abbrev pub failures_since : String → ℕ → List Report → ℕ
failures_since uuid n [] = n
failures_since uuid n (r ∷ rs) = failures_since uuid (next uuid n r) rs

store_entries :
    (uuid : String) (i : StalledInfo) (s : StalledSet)
    → (store uuid i s).entries ≡ insert uuid i s.entries
unfolding store
store_entries uuid i s = ground arith

record_found_attempts :
    (o : Option StalledInfo) (uuid u : String) (reason : Err) (now : ℕ) (s : StalledSet)
    → lookup u s.entries ≡ o
    → length s.entries < max_stalled_entries
    → (attempts_of uuid (record_found o u reason now s).0
        ≡ (if str_eq u uuid then attempts_of uuid s + 1 else attempts_of uuid s))
      × (length (record_found o u reason now s).0.entries ≤ length s.entries + 1)
unfolding record_found bump
record_found_attempts none uuid u reason now s e h = ground (
  arith,
  eq_iff u uuid,
  store_entries u (bump (fresh_info now) reason now) s,
  lookup-insert u uuid (bump (fresh_info now) reason now) s.entries,
  length-insert u (bump (fresh_info now) reason now) s.entries,
)
record_found_attempts (some i) uuid u reason now s e h = ground (
  arith,
  eq_iff u uuid,
  store_entries u (bump i reason now) s,
  lookup-insert u uuid (bump i reason now) s.entries,
  length-insert u (bump i reason now) s.entries,
)

clear_found_attempts :
    (o : Option StalledInfo) (uuid u : String) (s : StalledSet)
    → lookup u s.entries ≡ o
    → (attempts_of uuid (clear_found o u s).0 ≡ (if str_eq u uuid then 0 else attempts_of uuid s))
      × (length (clear_found o u s).0.entries ≤ length s.entries)
unfolding clear_found publish
clear_found_attempts none uuid u s e = ground (arith, eq_iff u uuid)
clear_found_attempts (some i) uuid u s e =
    ground (arith, lookup-erase u uuid s.entries, length-erase-le u s.entries)

apply_attempts :
    (uuid : String) (s : StalledSet) (r : Report)
    → length s.entries < max_stalled_entries
    → (attempts_of uuid (apply s r) ≡ next uuid (attempts_of uuid s) r)
      × (length (apply s r).entries ≤ length s.entries + 1)
unfolding apply record_failure clear
apply_attempts uuid s (failed u reason now) h =
    record_found_attempts (lookup u s.entries) uuid u reason now s refl h
apply_attempts uuid s (succeeded u) h =
    ground (arith, clear_found_attempts (lookup u s.entries) uuid u s refl)

-- As long as the set has room for every report (its entries and the reports are together at most
-- 1000), the attempts shown for a message are its permanent failures since its last success:
-- the failures of other messages do not count and their successes clear nothing.
pub apply_all-attempts_of :
    (uuid : String) (s : StalledSet) (rs : List Report)
    → length s.entries + length rs ≤ max_stalled_entries
    → attempts_of uuid (apply_all s rs) ≡ failures_since uuid (attempts_of uuid s) rs
unfolding apply_all
apply_all-attempts_of uuid s [] h = refl
apply_all-attempts_of uuid s (r ∷ rs) h =
    let (step, room) = apply_attempts uuid s r (omega arith) in
    apply_all-attempts_of uuid (apply s r) rs (omega arith)
    ∙ ap (λ n. failures_since uuid n rs) step

-- One message that fails again and again: the error log lines written.
pub log_lines : String → StalledSet → List (Err × ℕ) → ℕ
log_lines uuid s [] = 0
log_lines uuid s ((reason, now) ∷ l) =
    let r = record_failure uuid reason now s in (if r.2 then 1 else 0) + log_lines uuid r.0 l

record_tracked :
    (uuid : String) (s : StalledSet) (reason : Err) (now : ℕ) (i : StalledInfo)
    → lookup uuid s.entries ≡ some i
    → (lookup uuid (record_failure uuid reason now s).0.entries ≡ some (bump i reason now))
      × ((record_failure uuid reason now s).2 ≡ log_now (i.attempts + 1))
unfolding record_failure record_found bump
record_tracked uuid s reason now i e =
    rw (e, record_failure, record_found)
      (ground (
        arith,
        eq_refl uuid,
        store_entries uuid (bump i reason now) s,
        lookup-insert uuid uuid (bump i reason now) s.entries,
      ))

log_lines_tracked :
    (uuid : String) (s : StalledSet) (l : List (Err × ℕ)) (i : StalledInfo)
    → lookup uuid s.entries ≡ some i
    → 0 < i.attempts
    → log_lines uuid s l + i.attempts / stalled_log_every
      ≡ (i.attempts + length l) / stalled_log_every
unfolding log_lines bump
log_lines_tracked uuid s [] i e pos = omega arith
log_lines_tracked uuid s ((reason, now) ∷ l) i e pos =
    let (kept, paced) = record_tracked uuid s reason now i e in
    let rest =
      log_lines_tracked uuid (record_failure uuid reason now s).0 l (bump i reason now) kept
        (omega arith) in
    rw paced (ground (arith, rest))

record_new :
    (uuid : String) (s : StalledSet) (reason : Err) (now : ℕ)
    → lookup uuid s.entries ≡ none
    → length s.entries < max_stalled_entries
    → (lookup uuid (record_failure uuid reason now s).0.entries
        ≡ some (bump (fresh_info now) reason now))
      × ((record_failure uuid reason now s).2 ≡ true)
unfolding record_failure record_found bump
record_new uuid s reason now e room =
    rw (e, record_failure, record_found)
      (ground (
        arith,
        eq_refl uuid,
        store_entries uuid (bump (fresh_info now) reason now) s,
        lookup-insert uuid uuid (bump (fresh_info now) reason now) s.entries,
      ))

-- A message that is not tracked yet and fails n times in a row, where the set has room for it, is
-- logged at error level once and then at every tenth attempt: 1 + n / 10 lines, none for n = 0.
pub log_lines_lem :
    (uuid : String) (s : StalledSet) (l : List (Err × ℕ))
    → lookup uuid s.entries ≡ none
    → length s.entries < max_stalled_entries
    → log_lines uuid s l ≡ (if length l == 0 then 0 else 1 + length l / stalled_log_every)
unfolding log_lines bump
log_lines_lem uuid s [] e room = refl
log_lines_lem uuid s ((reason, now) ∷ l) e room =
    let (kept, logged) = record_new uuid s reason now e room in
    let rest =
      log_lines_tracked uuid (record_failure uuid reason now s).0 l
        (bump (fresh_info now) reason now) kept (omega arith) in
    rw logged (ground (arith, rest))

-- On a full set a failure of a message that is not tracked changes no entry, reports one attempt,
-- and is logged at error level when it is the first of these or every tenth.
pub record_failure_full :
    (uuid : String) (reason : Err) (now : ℕ) (s : StalledSet)
    → lookup uuid s.entries ≡ none
    → max_stalled_entries ≤ length s.entries
    → let r = record_failure uuid reason now s in
      (r.0.entries ≡ s.entries)
      × (r.0.untracked ≡ s.untracked + 1)
      × (r.1 ≡ 1)
      × (r.2 ≡ (s.untracked == 0 || (s.untracked + 1) % 10 == 0))
unfolding record_failure record_found
record_failure_full uuid reason now s e full = rw (e, record_failure, record_found) (ground arith)
