-- ===== src/Sink/Router/Build/Ends.antt =====
-- How building the router ends.
use text.Mathlib.TextLemmas.{append_cancel_left}
use antwatcher.Prelude.{
  ◌≡◌, refl, sym, ap, ◌∙◌, ◌⊎◌, inl, inr, true, false, not, Option, none, some, List, [], ◌∷◌, ◌++◌,
  append_assoc, append-nil, map, String, ◌+++◌, arith, quoted, str_eq, eq_iff, All, ◌||◌,
}
use antwatcher.Prelude.Int.{ℤ, pos, leb_ℤ}
use antwatcher.Prelude.Errors.{Err, wrap, Result, ok, err}
use antwatcher.Bus.Contract.{StartPosition}
use antwatcher.Bus.Policy.{Mode, Warning, resolve_consumer}
use antwatcher.Sink.Contract.{Instance, consumer_name}
use antwatcher.Sink.Registry.Ownership.{has_text, IsDistinct}
use antwatcher.Sink.Router.{Handler}
use antwatcher.Sink.Router.Build.{
  BusView, Takes, Binding, bind_ok, bind_failed, bind_panicked, registered, subscribed,
  bind_resolved, bind, new_handler, Startup, router_built, build_failed, bind_next, bind_all,
  build_router, consumers,
}

-- The handler of a sink: its consumer has been created on the bus, at the position that the policy gives it.
abbrev pub IsBound : BusView → Mode → Instance → Handler → Type 0
IsBound b mode inst h =
    (h.inst ≡ inst)
    × (h.consumer ≡ consumer_name inst.name)
    × (resolve_consumer b.capabilities inst.start_from mode ≡ ok (h.effective, h.warnings))
    × (b.subscribe h.consumer h.effective ≡ none)

-- The sinks have these handlers, one for each, in order.
abbrev pub AllBound : BusView → Mode → List Instance → List Handler → Type 0
AllBound b mode [] [] = Unit
AllBound b mode [] (h ∷ hs) = ⊥
AllBound b mode (inst ∷ insts) [] = ⊥
AllBound b mode (inst ∷ insts) (h ∷ hs) = IsBound b mode inst h × AllBound b mode insts hs

-- The error of a sink that the policy or the bus refuses.
abbrev pub IsRefused : BusView → Mode → Instance → Err → Type 0
IsRefused b mode inst e =
    ((x : Err) × (resolve_consumer b.capabilities inst.start_from mode ≡ err x)
      × (e ≡ wrap ("sink " +++ quoted inst.name +++ ": ") x ""))
    ⊎ ((x : Err) × (p : StartPosition) × (ws : List Warning) × (resolve_consumer b.capabilities
            inst.start_from mode
          ≡ ok (p, ws))
        × (b.subscribe (consumer_name inst.name) p ≡ some x)
        × (e
            ≡ wrap
                ("sink "
                  +++ quoted inst.name
                  +++ ": create consumer "
                  +++ quoted (consumer_name inst.name)
                  +++ ": ")
                x ""))

abbrev pub names_of : List Instance → List String
names_of = map (λ i. i.name)

abbrev of_name : List String → List String
of_name = map consumer_name

-- The two ways in which the loop ends, from the handlers `older` on.
pub data Built (b : BusView) (mode : Mode) (insts : List Instance) (older : List Handler)
    (out : Startup) : Type 0 where
  all_bound :
      (hs : List Handler)
      → AllBound b mode insts hs
      → IsDistinct (consumers hs)
      → out ≡ router_built (older ++ hs)
      → Built b mode insts older out
  failed_at :
      (before : List Instance) (inst : Instance) (later : List Instance) (hs : List Handler)
      (e : Err)
      → insts ≡ before ++ inst ∷ later
      → AllBound b mode before hs
      → IsRefused b mode inst e
      → out ≡ build_failed e (consumers (older ++ hs))
      → Built b mode insts older out

consumer_name_inj : (s t : String) → consumer_name s ≡ consumer_name t → s ≡ t
unfolding consumer_name
consumer_name_inj s t e = append_cancel_left "sink-" s t e

same_test : (s t : String) → str_eq (consumer_name s) (consumer_name t) ≡ str_eq s t
same_test s t =
    ground (arith, eq_iff s t, eq_iff (consumer_name s) (consumer_name t), consumer_name_inj s t)

-- Consumers have the same name exactly if their sinks have.
has_text-of_name :
    (s : String) (l : List String) → has_text (consumer_name s) (of_name l) ≡ has_text s l
has_text-of_name s [] = refl
has_text-of_name s (t ∷ l) = rw (same_test t s, has_text-of_name s l) refl

of_name-IsDistinct : (l : List String) → IsDistinct l → IsDistinct (of_name l)
of_name-IsDistinct [] d = tt
of_name-IsDistinct (s ∷ l) (fresh, d) = (has_text-of_name s l ∙ fresh, of_name-IsDistinct l d)

consumers_lem :
    (b : BusView) (mode : Mode) (insts : List Instance) (hs : List Handler)
    → AllBound b mode insts hs
    → consumers hs ≡ of_name (names_of insts)
unfolding consumers
consumers_lem b mode [] [] a = refl
consumers_lem b mode [] (h ∷ hs) a = absurd a
consumers_lem b mode (inst ∷ insts) [] a = absurd a
consumers_lem b mode (inst ∷ insts) (h ∷ hs) ((i, c, p, s), a) =
    rw (c, consumers_lem b mode insts hs a) refl

consumers-IsDistinct :
    (b : BusView) (mode : Mode) (insts : List Instance) (hs : List Handler)
    → AllBound b mode insts hs
    → IsDistinct (names_of insts)
    → IsDistinct (consumers hs)
consumers-IsDistinct b mode insts hs a d =
    rw (consumers_lem b mode insts hs a) (of_name-IsDistinct (names_of insts) d)

-- How one binding ends where the library's router takes the handler.
IsBinding : BusView → Mode → Instance → Binding → Type 0
IsBinding b mode inst (bind_ok h) = IsBound b mode inst h
IsBinding b mode inst (bind_failed e) = IsRefused b mode inst e
IsBinding b mode inst (bind_panicked name) = ⊥

module _ (takes : Takes) (b : BusView) (mode : Mode) (names : List String) (inst : Instance)
    (free : takes names (consumer_name inst.name) ≡ true) where
  subscribed-IsBinding :
      (p : StartPosition) (ws : List Warning) (o : Option Err)
      → resolve_consumer b.capabilities inst.start_from mode ≡ ok (p, ws)
      → b.subscribe (consumer_name inst.name) p ≡ o
      → IsBinding b mode inst (subscribed takes names inst p ws o)
  unfolding IsBinding subscribed registered new_handler
  subscribed-IsBinding p ws none e s = rw free (refl, refl, e, s)
  subscribed-IsBinding p ws (some x) e s = inr (x, p, ws, e, s, refl)

  resolved-IsBinding :
      (r : Result (StartPosition × List Warning))
      → resolve_consumer b.capabilities inst.start_from mode ≡ r
      → IsBinding b mode inst (bind_resolved takes b names inst r)
  unfolding IsBinding bind_resolved
  resolved-IsBinding (err x) e = inl (x, e, refl)
  resolved-IsBinding (ok (p, ws)) e =
      subscribed-IsBinding p ws (b.subscribe (consumer_name inst.name) p) e refl

  bind-IsBinding : IsBinding b mode inst (bind takes b mode names inst)
  unfolding bind
  bind-IsBinding = resolved-IsBinding (resolve_consumer b.capabilities inst.start_from mode) refl

later-Built :
    (b : BusView) (mode : Mode) (inst : Instance) (insts : List Instance) (older : List Handler)
    (h : Handler) (out : Startup)
    → IsBound b mode inst h
    → IsDistinct (names_of (inst ∷ insts))
    → Built b mode insts (older ++ h ∷ []) out
    → Built b mode (inst ∷ insts) older out
later-Built b mode inst insts older h out e d (all_bound hs a u o) =
    all_bound (h ∷ hs) (e, a) (consumers-IsDistinct b mode (inst ∷ insts) (h ∷ hs) (e, a) d)
      (rw append_assoc at o)
later-Built b mode inst insts older h out e d (failed_at before bad later hs x s a f o) =
    failed_at (inst ∷ before) bad later (h ∷ hs) x (ap (λ l. inst ∷ l) s) (e, a) f
      (rw append_assoc at o)

bind_next-Built :
    (b : BusView) (mode : Mode) (inst : Instance) (insts : List Instance) (older : List Handler)
    (r : Binding) (next : List Handler → Startup)
    → IsBinding b mode inst r
    → IsDistinct (names_of (inst ∷ insts))
    → ((h : Handler)
        → h.consumer ≡ consumer_name inst.name
        → Built b mode insts (older ++ h ∷ []) (next (older ++ h ∷ [])))
    → Built b mode (inst ∷ insts) older (bind_next r next older)
unfolding bind_next consumers IsBinding
bind_next-Built b mode inst insts older (bind_failed e) next f d ih =
    failed_at [] inst insts [] e refl tt f
      (ap (λ l. build_failed e (consumers l)) (sym (append-nil older)))
bind_next-Built b mode inst insts older (bind_panicked name) next f d ih = absurd f
bind_next-Built b mode inst insts older (bind_ok h) next (i, c, p, s) d ih =
    later-Built b mode inst insts older h _ (i, c, p, s) d (ih h c)

-- No sink of the list has the name of a handler.
abbrev AllFresh : List Handler → List Instance → Type 0
AllFresh older insts = All (λ i. has_text (consumer_name i.name) (consumers older) ≡ false) insts

has_text-snoc :
    (s t : String) (l : List String) → has_text s (l ++ t ∷ []) ≡ (str_eq t s || has_text s l)
has_text-snoc s t [] = refl
has_text-snoc s t (u ∷ l) = ground (arith, has_text-snoc s t l)

consumers-snoc :
    (hs : List Handler) (h : Handler) → consumers (hs ++ h ∷ []) ≡ consumers hs ++ h.consumer ∷ []
unfolding consumers
consumers-snoc [] h = refl
consumers-snoc (g ∷ hs) h = ap (λ l. g.consumer ∷ l) (consumers-snoc hs h)

next-AllFresh :
    (older : List Handler) (h : Handler) (inst : Instance) (insts : List Instance)
    → h.consumer ≡ consumer_name inst.name
    → has_text inst.name (names_of insts) ≡ false
    → AllFresh older insts
    → AllFresh (older ++ h ∷ []) insts
next-AllFresh older h inst [] c fresh f = tt
next-AllFresh older h inst (i ∷ insts) c fresh (free, f) = (
  ap (has_text (consumer_name i.name))
        (consumers-snoc older h ∙ ap (λ t. consumers older ++ t ∷ []) c)
      ∙ has_text-snoc (consumer_name i.name) (consumer_name inst.name) (consumers older)
      ∙ ground (
        arith,
        free,
        same_test inst.name i.name,
        eq_iff inst.name i.name,
        eq_iff i.name inst.name,
        fresh,
      ),
  next-AllFresh older h inst insts c (ground (arith, fresh)) f,
)

module _ (takes : Takes) (b : BusView) (mode : Mode)
    (documented : (names : List String) (name : String)
      → takes names name ≡ not (has_text name names)) where
  bind_all-Built :
      (insts : List Instance) (older : List Handler)
      → IsDistinct (names_of insts)
      → AllFresh older insts
      → Built b mode insts older (bind_all takes b mode insts older)
  unfolding bind_all consumers
  bind_all-Built [] older d f = all_bound [] tt tt (ap router_built (sym (append-nil older)))
  bind_all-Built (inst ∷ insts) older (fresh, d) (free, f) =
      bind_next-Built b mode inst insts older (bind takes b mode (consumers older) inst)
        (bind_all takes b mode insts)
        (bind-IsBinding takes b mode (consumers older) inst
          (documented (consumers older) (consumer_name inst.name) ∙ ap not free))
        (fresh, d)
        (λ h c.
          bind_all-Built insts (older ++ h ∷ []) d (next-AllFresh older h inst insts c fresh f))

no_handlers : (insts : List Instance) → AllFresh [] insts
unfolding consumers
no_handlers [] = tt
no_handlers (i ∷ insts) = (refl, no_handlers insts)

-- With a bus, metrics, positive timeouts, a router of the library that takes a handler unless it has one of the same
-- name, and sinks whose names all differ, building never panics. Either it binds every sink, in
-- configuration order, to a consumer named after it, all names different, at the position that
-- its policy gives it, and closes nothing; or it stops at the first sink that its policy or the bus
-- refuses, returns that error under the sink's name, and closes exactly the consumers that were
-- created before it.
pub build_router_lem :
    (takes : Takes) (b : BusView) (process_timeout close_timeout : ℤ) (mode : Mode)
    (insts : List Instance)
    → ((names : List String) (name : String) → takes names name ≡ not (has_text name names))
    → IsDistinct (names_of insts)
    → leb_ℤ process_timeout (pos 0) ≡ false
    → leb_ℤ close_timeout (pos 0) ≡ false
    → Built b mode insts []
        (build_router takes (some b) true process_timeout close_timeout none mode insts)
unfolding build_router
build_router_lem takes b process_timeout close_timeout mode insts documented d p c =
    rw (p, c) (bind_all-Built takes b mode documented insts [] d (no_handlers insts))
