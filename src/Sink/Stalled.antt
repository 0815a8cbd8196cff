-- ===== src/Sink/Stalled.antt =====
-- internal/sink/stalled.go: the messages of one sink that a permanent error holds back. Times are
-- nanoseconds since Go's zero `Time`, so 0 is the zero `Time`.
pub mod Sorting
pub mod Invariant
pub mod Pacing
use Prim.Native.Nat.{Ordering, compare as compare_ℕ}
use Prim.Native.String.{compare}
use antwatcher.Prelude.{
  ℕ, suc, ◌+◌, ◌%◌, Bool, true, false, ◌||◌, Option, none, some, List, [], ◌∷◌, map, String, ltb,
  leb, ◌==◌, if◌then◌else◌, length,
}
use antwatcher.Prelude.Dict.{lookup, insert, erase}
use antwatcher.Prelude.Sort.{sort}
use antwatcher.Prelude.Errors.{Err, text}

-- stalledLogEvery
abbrev pub stalled_log_every : ℕ
stalled_log_every = 10

-- maxStalledEntries
abbrev pub max_stalled_entries : ℕ
max_stalled_entries = 1000

pub record StalledInfo : Type 0 where
  pub reason : String
  pub first_seen : ℕ
  pub last_seen : ℕ
  pub attempts : ℕ

pub record StalledEntry : Type 0 where
  pub uuid : String
  pub info : StalledInfo

-- `metered` is false where `metrics` is nil; the gauges are those of `metrics`.
pub record StalledSet : Type 0 where
  pub sink : String
  pub metered : Bool
  pub entries : List (String × StalledInfo)
  pub untracked : ℕ
  pub stalled_gauge : ℕ
  pub messages_gauge : ℕ

-- publishLocked
unfoldable pub publish : StalledSet → StalledSet
publish s =
    if s.metered
    then record s {
      stalled_gauge = if ltb 0 (length s.entries) then 1 else 0;
      messages_gauge = length s.entries;
    }
    else s

-- newStalledSet
unfoldable pub new_stalled_set : String → Bool → StalledSet
unfolding publish
new_stalled_set sink metered = publish (record {
  sink = sink;
  metered = metered;
  entries = [];
  untracked = 0;
  stalled_gauge = 0;
  messages_gauge = 0;
})

-- `n == 1 || n%stalledLogEvery == 0`
abbrev pub log_now : ℕ → Bool
log_now n = n == 1 || n % stalled_log_every == 0

-- The upsert of `record` behind the lookup: the entry found, or the new one.
unfoldable pub bump : StalledInfo → Err → ℕ → StalledInfo
bump info reason now = record {
  reason = text reason;
  first_seen = info.first_seen;
  last_seen = now;
  attempts = info.attempts + 1;
}

-- `&StalledInfo{FirstSeen: now}`
abbrev pub fresh_info : ℕ → StalledInfo
fresh_info now = record { reason = ""; first_seen = now; last_seen = 0; attempts = 0 }

unfoldable pub store : String → StalledInfo → StalledSet → StalledSet
unfolding publish
store uuid info s = publish (record s { entries = insert uuid info s.entries })

-- The two branches of `record`: the entry that the map holds for `uuid`, or none.
unfoldable pub record_found :
    Option StalledInfo → String → Err → ℕ → StalledSet → StalledSet × ℕ × Bool
unfolding store bump
record_found (some info) uuid reason now s =
    let info' = bump info reason now in (store uuid info' s, info'.attempts, log_now info'.attempts)
record_found none uuid reason now s =
    if leb max_stalled_entries (length s.entries)
    then (record s { untracked = s.untracked + 1 }, 1, log_now (s.untracked + 1))
    else (let info' = bump (fresh_info now) reason now in
        (store uuid info' s, info'.attempts, log_now info'.attempts))

-- record: the new set, the attempt count, and whether to log at error level.
unfoldable pub record_failure : String → Err → ℕ → StalledSet → StalledSet × ℕ × Bool
unfolding record_found
record_failure uuid reason now s = record_found (lookup uuid s.entries) uuid reason now s

-- The two branches of `clear`.
unfoldable pub clear_found : Option StalledInfo → String → StalledSet → StalledSet × Bool
unfolding publish
clear_found none uuid s = (s, false)
clear_found (some _) uuid s = (publish (record s { entries = erase uuid s.entries }), true)

-- clear
unfoldable pub clear : String → StalledSet → StalledSet × Bool
unfolding clear_found
clear uuid s = clear_found (lookup uuid s.entries) uuid s

-- len
unfoldable pub len : StalledSet → ℕ
len s = length s.entries

-- The order of `list`: first occurrence, then UUID.
unfoldable pub less : StalledEntry → StalledEntry → Bool
less a b = elim (compare_ℕ a.info.first_seen b.info.first_seen) [
  | Ordering.lt ↦ true
  | Ordering.gt ↦ false
  | Ordering.eq ↦ elim (compare a.uuid b.uuid) [ Ordering.lt ↦ true | _ ↦ false ]
]

unfoldable pub entries_of : List (String × StalledInfo) → List StalledEntry
entries_of = map (λ e. record { uuid = e.0; info = e.1 })

-- list
unfoldable pub list : StalledSet → List StalledEntry
unfolding entries_of
list s = sort less (entries_of s.entries)
