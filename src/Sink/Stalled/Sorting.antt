-- ===== src/Sink/Stalled/Sorting.antt =====
-- The listing of the stalled messages is ordered and complete.
use Prim.Native.Nat.{Ordering, compare as compare_ℕ}
use Prim.Native.Char.{Char, code}
use Prim.Native.String.compare
use Prim.Native.String.{String, compare, then}
use mathlib.Core.List.{Perm}
use antwatcher.Prelude.{◌≡◌, true, false, arith}
use antwatcher.Prelude.Sort.{IsSorted, sort-perm, sort-IsSorted}
use antwatcher.Sink.Stalled.{StalledSet, StalledEntry, less, entries_of, list}

cons-nil : (c : Char) (s : String) → compare (String.◌∷◌ c s) String.[] ≡ Ordering.gt
cons-nil c s = λ i. compare.cons-nil c s i

cons-cons :
    (c d : Char) (s t : String)
    → compare (String.◌∷◌ c s) (String.◌∷◌ d t) ≡ (then) (compare_ℕ (code c) (code d)) (compare s t)
cons-cons c d s t = λ i. compare.cons-cons c d s t i

lt_asymm : (s t : String) → compare s t ≡ Ordering.lt → compare t s ≡ Ordering.gt
lt_asymm String.[] String.[] h = cc
lt_asymm String.[] (String.◌∷◌ d t) h = λ i. compare.cons-nil d t i
lt_asymm (String.◌∷◌ c s) String.[] h = cc (cons-nil c s)
lt_asymm (String.◌∷◌ c s) (String.◌∷◌ d t) h =
    ground (arith, cons-cons c d s t, cons-cons d c t s, lt_asymm s t)

less_asymm : (e f : StalledEntry) → less e f ≡ true → less f e ≡ false
unfolding less
less_asymm e f h = ground (arith, lt_asymm e.uuid f.uuid)

-- /status lists exactly the entries of the map, each once, in the order of first occurrence and
-- then of the UUID: no entry is less than the one in front of it.
pub list_lem : (s : StalledSet) → Perm (list s) (entries_of s.entries) × IsSorted less (list s)
unfolding list
list_lem s =
    (sort-perm less (entries_of s.entries), sort-IsSorted less less_asymm (entries_of s.entries))
