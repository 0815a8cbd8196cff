-- ===== src/Sink/Registry/Ownership.antt =====
-- The sinks that Build makes are those it returns, and on a failure each one is closed again.
use antwatcher.Prelude.{
  ℕ, ◌+◌, ◌<◌, ◌≡◌, refl, ap, sym, ◌∙◌, Bool, true, false, not, ◌||◌, Option, none, some, List, [],
  ◌∷◌, ◌++◌, append_assoc, append-nil, map, String, arith, ◌==◌, if◌then◌else◌, if_lem, str_eq,
  eq_iff, All, All-append,
}
use antwatcher.Prelude.Dict.{lookup}
use antwatcher.Prelude.Errors.{Err, Result, ok, err}
use antwatcher.Bus.Contract.{StartPosition, parse_start_position, validate_consumer_name}
use antwatcher.Sink.Contract.{Class, class_name, parse_class, consumer_name}
use antwatcher.Sink.Registry.{
  SinkConfig, Made, Factory, Registry, Event, made, closed, Built, check_made, build_found,
  build_at, build_class, build_named, build, seen, closings, duplicate_err, fail_build,
  place_unseen, place, build_from, build_all,
}

-- A list without the first occurrence of a number, if it has one.
abbrev pub remove : ℕ → List ℕ → Option (List ℕ)
remove i [] = none
remove i (j ∷ l) =
    let rest = remove i l in
    if i == j then some l else elim rest [ none ↦ none | some m ↦ some (j ∷ m) ]

abbrev and_then : Option (List ℕ) → (List ℕ → Option (List ℕ)) → Option (List ℕ)
and_then none next = none
and_then (some l) next = next l

-- The sinks that are open after the events, in the order they were made; none if one is closed that is not
-- open.
abbrev pub live_after : List ℕ → List Event → Option (List ℕ)
live_after l [] = some l
live_after l (made i ∷ es) = live_after (l ++ i ∷ []) es
live_after l (closed i ∷ es) = and_then (remove i l) (λ m. live_after m es)

abbrev pub indices : List Built → List ℕ
indices bs = map (λ b. b.index) bs

abbrev pub names_of : List Built → List String
names_of bs = map (λ b. b.instance_of.name) bs

abbrev pub has_text : String → List String → Bool
has_text s [] = false
has_text s (t ∷ ts) = str_eq t s || has_text s ts

abbrev pub IsDistinct : List String → Type 0
IsDistinct [] = Unit
IsDistinct (s ∷ ss) = (has_text s ss ≡ false) × IsDistinct ss

-- The open sinks are those of the result, one for each entry, in order and with different names; with an error none
-- is open, and each one that was made was closed once.
abbrev pub IsOwned : List SinkConfig → Result (List Built) × List Event → Type 0
IsOwned cfgs (ok bs, es) =
    (live_after [] es ≡ some (indices bs))
    × (names_of bs ≡ map (λ c. c.name) cfgs)
    × IsDistinct (names_of bs)
IsOwned cfgs (err e, es) = live_after [] es ≡ some []

live_after-append :
    (l m : List ℕ) (es fs : List Event)
    → live_after l es ≡ some m
    → live_after l (es ++ fs) ≡ live_after m fs
live_after-append l m [] fs h = ap (λ o. and_then o (λ k. live_after k fs)) h
live_after-append l m (made i ∷ es) fs h = live_after-append (l ++ i ∷ []) m es fs h
live_after-append l m (closed i ∷ es) fs h =
    after_removal (remove i l) (λ k. live_after-append k m es fs) h
  where
    after_removal :
        (o : Option (List ℕ))
        → ((k : List ℕ) → live_after k es ≡ some m → live_after k (es ++ fs) ≡ live_after m fs)
        → and_then o (λ k. live_after k es) ≡ some m
        → and_then o (λ k. live_after k (es ++ fs)) ≡ live_after m fs
    after_removal none rest h = absurd (cc)
    after_removal (some k) rest h = rest k h

same_number : (i : ℕ) → (i == i) ≡ true
same_number i = ground arith

remove_last : (i : ℕ) (l : List ℕ) → All (λ j. j < i) l → remove i (l ++ i ∷ []) ≡ some l
remove_last i [] h = rw (same_number i) refl
remove_last i (j ∷ l) (less, h) =
    let other : (i == j) ≡ false = ground arith in rw (other, remove_last i l h) refl

live_closings : (bs : List Built) → live_after (indices bs) (closings bs) ≡ some []
live_closings [] = refl
live_closings (b ∷ bs) = rw (same_number b.index) (live_closings bs)

-- What build makes: the sink of the entry, or nothing that stays open.
abbrev IsMade : ℕ → SinkConfig → List ℕ → Result Built × List Event → Type 0
IsMade i cfg l (ok b, es) =
    (b.index ≡ i) × (b.instance_of.name ≡ cfg.name) × (live_after l es ≡ some (l ++ i ∷ []))
IsMade i cfg l (err e, es) = live_after l es ≡ some l

module _ (i : ℕ) (cfg : SinkConfig) (l : List ℕ) (older : All (λ j. j < i) l) where
  check_made-IsMade :
      (c : Class) (start : StartPosition) (r : Result (Option Made))
      → IsMade i cfg l (check_made i cfg c start r)
  unfolding check_made
  check_made-IsMade c start (err e) = refl
  check_made-IsMade c start (ok none) = refl
  check_made-IsMade c start (ok (some m)) =
      if_lem (IsMade i cfg l)
        (not (str_eq m.name cfg.name) || not (str_eq (class_name m.class) (class_name c))) _ _
        (λ h. rw (remove_last i l older) refl) (λ h. (refl, refl, refl))

  module _ (reg : Registry) where
    build_found-IsMade :
        (c : Class) (start : StartPosition) (o : Option Factory)
        → IsMade i cfg l (build_found reg i cfg c start o)
    unfolding build_found
    build_found-IsMade c start none = refl
    build_found-IsMade c start (some factory) = check_made-IsMade c start (factory i cfg.name)

    build_at-IsMade :
        (c : Class) (r : Result StartPosition) → IsMade i cfg l (build_at reg i cfg c r)
    unfolding build_at
    build_at-IsMade c (err e) = refl
    build_at-IsMade c (ok start) =
        if_lem (IsMade i cfg l) (str_eq cfg.driver "") _ _ (λ h. refl)
          (λ h. build_found-IsMade c start (lookup cfg.driver (reg c)))

    build_class-IsMade : (r : Result Class) → IsMade i cfg l (build_class reg i cfg r)
    unfolding build_class
    build_class-IsMade (err e) = refl
    build_class-IsMade (ok c) = build_at-IsMade c (parse_start_position cfg.start_from)

    build_named-IsMade : (o : Option Err) → IsMade i cfg l (build_named reg i cfg o)
    unfolding build_named
    build_named-IsMade (some e) = refl
    build_named-IsMade none = build_class-IsMade (parse_class cfg.class)

    build-IsMade : IsMade i cfg l (build reg i cfg)
    unfolding build
    build-IsMade =
        if_lem (IsMade i cfg l) (str_eq cfg.name "") _ _ (λ h. refl)
          (λ h. build_named-IsMade (validate_consumer_name (consumer_name cfg.name)))

indices-snoc : (bs : List Built) (b : Built) → indices (bs ++ b ∷ []) ≡ indices bs ++ b.index ∷ []
indices-snoc [] b = refl
indices-snoc (c ∷ bs) b = ap (λ l. c.index ∷ l) (indices-snoc bs b)

names-snoc :
    (bs : List Built) (b : Built) → names_of (bs ++ b ∷ []) ≡ names_of bs ++ b.instance_of.name ∷ []
names-snoc [] b = refl
names-snoc (c ∷ bs) b = ap (λ l. c.instance_of.name ∷ l) (names-snoc bs b)

unseen_text :
    (name : String) (bs : List Built) → seen name bs ≡ none → has_text name (names_of bs) ≡ false
unseen_text name [] h = refl
unseen_text name (b ∷ bs) h = ground (arith, unseen_text name bs)

has_text-snoc :
    (t s : String) (ss : List String) → has_text t (ss ++ s ∷ []) ≡ (has_text t ss || str_eq s t)
has_text-snoc t s [] = ground arith
has_text-snoc t s (u ∷ ss) = ground (arith, has_text-snoc t s ss)

snoc-IsDistinct :
    (ss : List String) (s : String)
    → IsDistinct ss
    → has_text s ss ≡ false
    → IsDistinct (ss ++ s ∷ [])
snoc-IsDistinct [] s d h = (refl, tt)
snoc-IsDistinct (t ∷ ss) s (new, d) h = (
  ground (arith, has_text-snoc t s ss, eq_iff t s, eq_iff s t),
  snoc-IsDistinct ss s d (ground arith),
)

-- What is left of Build with the sinks so far open.
abbrev IsLoop : List Built → List SinkConfig → Result (List Built) × List Event → Type 0
IsLoop bs cfgs (ok cs, es) =
    (live_after (indices bs) es ≡ some (indices cs))
    × (names_of cs ≡ names_of bs ++ map (λ c. c.name) cfgs)
    × IsDistinct (names_of cs)
IsLoop bs cfgs (err e, es) = live_after (indices bs) es ≡ some []

fail_build-IsLoop :
    (i : ℕ) (cfg : SinkConfig) (cfgs : List SinkConfig) (bs : List Built) (e : Err)
    (es : List Event)
    → live_after (indices bs) es ≡ some (indices bs)
    → IsLoop bs cfgs (fail_build i cfg bs e es)
unfolding fail_build
fail_build-IsLoop i cfg cfgs bs e es h =
    live_after-append (indices bs) (indices bs) es (closings bs) h ∙ live_closings bs

-- The rest of the loop, after one more sink.
joined-IsLoop :
    (bs : List Built) (b : Built) (cfg : SinkConfig) (cfgs : List SinkConfig) (es : List Event)
    (d : Result (List Built) × List Event)
    → b.instance_of.name ≡ cfg.name
    → live_after (indices bs) es ≡ some (indices (bs ++ b ∷ []))
    → IsLoop (bs ++ b ∷ []) cfgs d
    → IsLoop bs (cfg ∷ cfgs) (d.0, es ++ d.1)
joined-IsLoop bs b cfg cfgs es (ok cs, fs) name h (live, names, distinct) = (
  live_after-append (indices bs) (indices (bs ++ b ∷ [])) es fs h ∙ live,
  names
      ∙ rw (names-snoc bs b, name)
          (append_assoc (names_of bs) (cfg.name ∷ []) (map (λ c. c.name) cfgs)),
  distinct,
)
joined-IsLoop bs b cfg cfgs es (err e, fs) name h live =
    live_after-append (indices bs) (indices (bs ++ b ∷ [])) es fs h ∙ live

place_unseen-IsLoop :
    (next : List Built → Result (List Built) × List Event) (i : ℕ) (cfg : SinkConfig)
    (cfgs : List SinkConfig) (bs : List Built) (b : Built) (es : List Event) (o : Option ℕ)
    → All (λ j. j < i) (indices bs)
    → IsDistinct (names_of bs)
    → seen cfg.name bs ≡ o
    → IsMade i cfg (indices bs) (ok b, es)
    → ((c : Built)
        → c.index ≡ i
        → IsDistinct (names_of (bs ++ c ∷ []))
        → IsLoop (bs ++ c ∷ []) cfgs (next (bs ++ c ∷ [])))
    → IsLoop bs (cfg ∷ cfgs) (place_unseen next i cfg bs b es o)
unfolding place_unseen
place_unseen-IsLoop next i cfg cfgs bs b es (some j) older d s (index, name, live) rest =
    fail_build-IsLoop i cfg (cfg ∷ cfgs) bs (duplicate_err j) (es ++ closed i ∷ []) (
      live_after-append (indices bs) (indices bs ++ i ∷ []) es (closed i ∷ []) live
      ∙ rw (remove_last i (indices bs) older) refl)
place_unseen-IsLoop next i cfg cfgs bs b es none older d s (index, name, live) rest =
    joined-IsLoop bs b cfg cfgs es (next (bs ++ b ∷ [])) name
      (live ∙ ap some (rw (indices-snoc bs b, index) refl))
      (rest b index (
        rw (names-snoc bs b, name)
          (snoc-IsDistinct (names_of bs) cfg.name d (unseen_text cfg.name bs s))))

place-IsLoop :
    (next : List Built → Result (List Built) × List Event) (i : ℕ) (cfg : SinkConfig)
    (cfgs : List SinkConfig) (bs : List Built) (m : Result Built × List Event)
    → All (λ j. j < i) (indices bs)
    → IsDistinct (names_of bs)
    → IsMade i cfg (indices bs) m
    → ((c : Built)
        → c.index ≡ i
        → IsDistinct (names_of (bs ++ c ∷ []))
        → IsLoop (bs ++ c ∷ []) cfgs (next (bs ++ c ∷ [])))
    → IsLoop bs (cfg ∷ cfgs) (place next i cfg bs m)
unfolding place
place-IsLoop next i cfg cfgs bs (err e, es) older d h rest =
    fail_build-IsLoop i cfg (cfg ∷ cfgs) bs e es h
place-IsLoop next i cfg cfgs bs (ok b, es) older d h rest =
    place_unseen-IsLoop next i cfg cfgs bs b es (seen cfg.name bs) older d refl h rest

All-suc : (i : ℕ) (l : List ℕ) → All (λ j. j < i) l → All (λ j. j < i + 1) l
All-suc i [] h = tt
All-suc i (j ∷ l) (less, h) = (omega arith, All-suc i l h)

build_from-IsLoop :
    (reg : Registry) (i : ℕ) (cfgs : List SinkConfig) (bs : List Built)
    → All (λ j. j < i) (indices bs)
    → IsDistinct (names_of bs)
    → IsLoop bs cfgs (build_from reg i cfgs bs)
unfolding build_from
build_from-IsLoop reg i [] bs older d = (refl, sym (append-nil (names_of bs)), d)
build_from-IsLoop reg i (cfg ∷ cfgs) bs older d =
    place-IsLoop (build_from reg (i + 1) cfgs) i cfg cfgs bs (build reg i cfg) older d
      (build-IsMade i cfg (indices bs) older reg)
      (λ c index d'.
        build_from-IsLoop reg (i + 1) cfgs (bs ++ c ∷ [])
          (rw (indices-snoc bs c, index)
            (All-append (λ j. j < i + 1) (indices bs) (i ∷ []) (All-suc i (indices bs) older)
              (omega arith, tt)))
          d')

loop-IsOwned :
    (cfgs : List SinkConfig) (d : Result (List Built) × List Event)
    → IsLoop [] cfgs d
    → IsOwned cfgs d
loop-IsOwned cfgs (ok bs, es) h = h
loop-IsOwned cfgs (err e, es) h = h

-- Whatever the drivers do, Build owns the sinks it makes: where it succeeds, the sinks open are those it returns, one
-- for each entry of the configuration, in order, with the entries' names, which all differ; where
-- it fails, every sink that was made has been closed, and none twice.
pub build_all-IsOwned :
    (reg : Registry) (cfgs : List SinkConfig) → IsOwned cfgs (build_all reg cfgs)
unfolding build_all
build_all-IsOwned reg cfgs =
    loop-IsOwned cfgs (build_from reg 0 cfgs []) (build_from-IsLoop reg 0 cfgs [] tt tt)
