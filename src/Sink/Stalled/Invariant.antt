-- ===== src/Sink/Stalled/Invariant.antt =====
-- What `record` and `clear` keep, and what they do to the entry of each message.
use antwatcher.Prelude.{
  ℕ, ◌+◌, ◌≤◌, ◌≡◌, refl, inl, inr, Bool, true, Option, none, some, [], String, arith, str_eq,
  eq_iff, ltb, leb, if◌then◌else◌, is_some, length, Bool-cases,
}
use antwatcher.Prelude.Dict.{
  lookup, insert, erase, IsDict, lookup-erase, length-insert, length-erase, length-erase-le,
  insert-IsDict, erase-IsDict,
}
use antwatcher.Prelude.Errors.{Err}
use antwatcher.Sink.Stalled.{
  StalledSet, StalledInfo, max_stalled_entries, record_failure, record_found, clear, clear_found,
  publish, store, bump, fresh_info, new_stalled_set,
}

-- The map has no key twice, it is bounded, and the gauges show it.
pub record IsValid (s : StalledSet) : Type 0 where
  pub keys_once : IsDict s.entries
  pub bounded : length s.entries ≤ max_stalled_entries
  pub messages_shown : s.metered ≡ true → s.messages_gauge ≡ length s.entries
  pub stalled_shown :
      s.metered ≡ true → s.stalled_gauge ≡ (if ltb 0 (length s.entries) then 1 else 0)

publish-IsValid :
    (s : StalledSet)
    → IsDict s.entries
    → length s.entries ≤ max_stalled_entries
    → IsValid (publish s)
unfolding publish
publish-IsValid s d b = ground arith

store-IsValid :
    (uuid : String) (info : StalledInfo) (s : StalledSet)
    → IsDict s.entries
    → length (insert uuid info s.entries) ≤ max_stalled_entries
    → IsValid (store uuid info s)
unfolding store
store-IsValid uuid info s d b =
    publish-IsValid (record s { entries = insert uuid info s.entries })
      (insert-IsDict uuid info s.entries d) b

record_found-IsValid :
    (o : Option StalledInfo) (uuid : String) (reason : Err) (now : ℕ) (s : StalledSet)
    → lookup uuid s.entries ≡ o
    → IsValid s
    → IsValid (record_found o uuid reason now s).0
unfolding record_found
record_found-IsValid (some i) uuid reason now s e v =
    store-IsValid uuid (bump i reason now) s v.keys_once
      (ground (arith, length-insert uuid (bump i reason now) s.entries))
record_found-IsValid none uuid reason now s e v =
    elim (Bool-cases (leb max_stalled_entries (length s.entries))) [
      | inl full ↦ rw full (record {
        keys_once = v.keys_once;
        bounded = v.bounded;
        messages_shown = v.messages_shown;
        stalled_shown = v.stalled_shown;
      })
      | inr room ↦ rw room (
          store-IsValid uuid (bump (fresh_info now) reason now) s v.keys_once
            (ground (arith, length-insert uuid (bump (fresh_info now) reason now) s.entries)))
    ]

record_failure-IsValid :
    (uuid : String) (reason : Err) (now : ℕ) (s : StalledSet)
    → IsValid s
    → IsValid (record_failure uuid reason now s).0
unfolding record_failure
record_failure-IsValid uuid reason now s v =
    record_found-IsValid (lookup uuid s.entries) uuid reason now s refl v

clear_found-IsValid :
    (o : Option StalledInfo) (uuid : String) (s : StalledSet)
    → IsValid s
    → IsValid (clear_found o uuid s).0
unfolding clear_found
clear_found-IsValid none uuid s v = v
clear_found-IsValid (some i) uuid s v =
    publish-IsValid (record s { entries = erase uuid s.entries })
      (erase-IsDict uuid s.entries v.keys_once)
      (omega (arith, length-erase-le uuid s.entries, v.bounded))

clear-IsValid : (uuid : String) (s : StalledSet) → IsValid s → IsValid (clear uuid s).0
unfolding clear
clear-IsValid uuid s v = clear_found-IsValid (lookup uuid s.entries) uuid s v

-- A new set is valid, and on a valid set a failure and a success leave a valid one: no message
-- twice, at most 1000 of them, and, where there are metrics, both gauges in step with the map.
pub stalled_IsValid :
    (sink : String) (metered : Bool) (uuid : String) (reason : Err) (now : ℕ) (s : StalledSet)
    → IsValid s
    → IsValid (new_stalled_set sink metered)
      × IsValid (record_failure uuid reason now s).0
      × IsValid (clear uuid s).0
unfolding new_stalled_set
stalled_IsValid sink metered uuid reason now s v = (
  publish-IsValid
      (record {
        sink = sink;
        metered = metered;
        entries = [];
        untracked = 0;
        stalled_gauge = 0;
        messages_gauge = 0;
      })
      tt (omega arith),
  record_failure-IsValid uuid reason now s v,
  clear-IsValid uuid s v,
)

clear_found_lem :
    (o : Option StalledInfo) (uuid j : String) (s : StalledSet)
    → lookup uuid s.entries ≡ o
    → IsValid s
    → ((clear_found o uuid s).1 ≡ is_some o)
      × (lookup j (clear_found o uuid s).0.entries
          ≡ (if str_eq uuid j then none else lookup j s.entries))
      × (length (clear_found o uuid s).0.entries + (if is_some o then 1 else 0) ≡ length s.entries)
unfolding clear_found publish
clear_found_lem none uuid j s e v = ground (arith, eq_iff uuid j)
clear_found_lem (some i) uuid j s e v =
    ground (arith, lookup-erase uuid j s.entries, length-erase uuid i s.entries v.keys_once e)

-- After `clear` the message is not tracked and every other message is as it was; the answer is
-- true exactly when the message was tracked, and then, on a valid set, one message less is left.
pub clear_lem :
    (uuid j : String) (s : StalledSet)
    → IsValid s
    → ((clear uuid s).1 ≡ is_some (lookup uuid s.entries))
      × (lookup j (clear uuid s).0.entries ≡ (if str_eq uuid j then none else lookup j s.entries))
      × (length (clear uuid s).0.entries + (if is_some (lookup uuid s.entries) then 1 else 0)
          ≡ length s.entries)
unfolding clear
clear_lem uuid j s v = clear_found_lem (lookup uuid s.entries) uuid j s refl v
