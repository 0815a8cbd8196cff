-- ===== src/Github/Deliveries.antt =====
-- internal/ghclient/client.go: the paged listing of the delivery attempts of a hook, newest first.
use antwatcher.Prelude.{
  ℕ, zero, suc, ◌+◌, ◌≤◌, ◌≡◌, ◌≢◌, refl, ap, sym, ◌∙◌, Bool, true, false, ◌||◌, List, [], ◌∷◌,
  ◌++◌, append_assoc, append-nil, String, ◌+++◌, arith, ltb, ◌==◌, if◌then◌else◌, str_eq, eq_iff,
  no_text, length, Bool-cases, inl, inr,
}
use antwatcher.Prelude.Decimal.{itoa}
use antwatcher.Prelude.Errors.{Err, message, wrap, Result, ok, err}
use antwatcher.Recovery.State.{Target}
use antwatcher.Recovery.Decide.{Delivery}
use antwatcher.Github.Targets.{target_text}

-- maxPages
abbrev pub max_pages : ℕ
max_pages = 500

-- What the `n`-th call of the API gives for a cursor: the items of the page, as fromHookDelivery reads them, and the
-- next cursor, or an error that classify has mapped.
abbrev pub Listing : Type 0
Listing = ℕ → String → Result (List Delivery × String)

-- The loop over the items of a page: what `out` becomes, and whether it met an attempt older than `since`.
unfoldable pub collect : ℕ → List Delivery → List Delivery → List Delivery × Bool
collect since out [] = (out, false)
collect since out (d ∷ ds) =
    let rest = collect since (out ++ d ∷ []) ds in
    if ltb d.delivered_at since then (out, true) else rest

abbrev pub is_empty {ℓ} : {A : Type ℓ} → List A → Bool
is_empty [] = true
is_empty (x ∷ xs) = false

-- What follows a page: the end, or the rest of the loop from the next cursor on.
unfoldable pub after_page :
    String
    → ℕ
    → String
    → List Delivery
    → (String → List Delivery → Result (List Delivery))
    → Result (List Delivery × String)
    → Result (List Delivery)
unfolding collect
after_page task since cursor out next (err e) = err (wrap task e "")
after_page task since cursor out next (ok (items, cursor')) =
    let (out', older) = collect since out items in
    if older
    then ok out'
    else if is_empty items || str_eq cursor' "" || str_eq cursor' cursor
    then ok out'
    else next cursor' out'

-- The loop over the pages, with `left` pages to go and `n` behind.
unfoldable pub pages_from :
    Listing → String → ℕ → ℕ → ℕ → String → List Delivery → Result (List Delivery)
unfolding after_page
pages_from list task since zero n cursor out =
    err (message (task +++ "pagination did not end after " +++ itoa max_pages +++ " pages"))
pages_from list task since (suc left) n cursor out =
    after_page task since cursor out
      (λ cursor' out'. pages_from list task since left (n + 1) cursor' out') (list n cursor)

-- "ghclient: list deliveries <target>: "
unfoldable pub list_task : Target → String
list_task t = "ghclient: list deliveries " +++ target_text t +++ ": "

unfoldable pub unknown_hook : Target → Err
unknown_hook t = message ("ghclient: " +++ target_text t +++ ": hook id is unknown")

-- ListDeliveries
unfoldable pub list_deliveries : Listing → Target → ℕ → Result (List Delivery)
unfolding pages_from list_task unknown_hook
list_deliveries list t since =
    if t.hook_id == 0
    then err (unknown_hook t)
    else pages_from list (list_task t) since max_pages 0 "" []

-- The attempts in front of the first one that is older than `since`.
abbrev pub newer : ℕ → List Delivery → List Delivery
newer since [] = []
newer since (d ∷ ds) =
    let rest = newer since ds in if ltb d.delivered_at since then [] else d ∷ rest

abbrev pub concat {ℓ} : {A : Type ℓ} → List (List A) → List A
concat [] = []
concat (xs ∷ xss) = xs ++ concat xss

-- The calls from the `n`-th on serve these pages: each one but the last is not empty and points to the next one
-- by a new cursor, and the last one has no next cursor.
abbrev pub Serves : Listing → ℕ → String → List (List Delivery) → Type 0
Serves list n cursor [] = ⊥
Serves list n cursor (items ∷ []) = list n cursor ≡ ok (items, "")
Serves list n cursor (items ∷ page ∷ pages) =
    (cursor' : String) × (list n cursor ≡ ok (items, cursor'))
    × (is_empty items ≡ false)
    × (cursor' ≢ "")
    × (cursor' ≢ cursor)
    × Serves list (n + 1) cursor' (page ∷ pages)

-- Whether one of the items is older.
abbrev any_older : ℕ → List Delivery → Bool
any_older since [] = false
any_older since (d ∷ ds) = ltb d.delivered_at since || any_older since ds

collect_lem :
    (since : ℕ) (out ds : List Delivery)
    → collect since out ds ≡ (out ++ newer since ds, any_older since ds)
unfolding collect
collect_lem since out [] = ap (λ l. (l, false)) (sym (append-nil out))
collect_lem since out (d ∷ ds) = elim (Bool-cases (ltb d.delivered_at since)) [
  | inl e ↦ rw e (ap (λ l. (l, true)) (sym (append-nil out)))
  | inr e ↦ rw e (
      collect_lem since (out ++ d ∷ []) ds
      ∙ ap (λ l. (l, any_older since ds)) (append_assoc out (d ∷ []) (newer since ds)))
]

newer_older :
    (since : ℕ) (ds es : List Delivery)
    → any_older since ds ≡ true
    → newer since (ds ++ es) ≡ newer since ds
newer_older since [] es h = cc
newer_older since (d ∷ ds) es h = ground (arith, newer_older since ds es)

newer_append :
    (since : ℕ) (ds es : List Delivery)
    → any_older since ds ≡ false
    → newer since (ds ++ es) ≡ newer since ds ++ newer since es
newer_append since [] es h = refl
newer_append since (d ∷ ds) es h = ground (arith, newer_append since ds es)

no_zero : (n : ℕ) → n ≢ 0 → (n == 0) ≡ false
no_zero n h = ground arith

module _ (list : Listing) (task : String) (since : ℕ) where
  last_page :
      (items out : List Delivery) (cursor : String)
      (next : String → List Delivery → Result (List Delivery))
      → after_page task since cursor out next (ok (items, ""))
        ≡ ok (out ++ newer since (items ++ []))
  unfolding after_page
  last_page items out cursor next = elim (Bool-cases (any_older since items)) [
    | inl e ↦ rw (collect_lem since out items, e, append-nil items) refl
    | inr e ↦ rw (collect_lem since out items, e, append-nil items) (ground (arith, eq_iff "" ""))
  ]

  inner_page :
      (items more out : List Delivery) (cursor cursor' : String)
      (next : String → List Delivery → Result (List Delivery))
      → is_empty items ≡ false
      → cursor' ≢ ""
      → cursor' ≢ cursor
      → next cursor' (out ++ newer since items)
        ≡ ok ((out ++ newer since items) ++ newer since more)
      → after_page task since cursor out next (ok (items, cursor'))
        ≡ ok (out ++ newer since (items ++ more))
  unfolding after_page
  inner_page items more out cursor cursor' next full some_cursor new_cursor rest =
      elim (Bool-cases (any_older since items)) [
        | inl e ↦ rw (collect_lem since out items, e, newer_older since items more e) refl
        | inr e ↦
            rw
              (
                collect_lem since out items,
                e,
                full,
                no_text cursor' "" some_cursor,
                no_text cursor' cursor new_cursor,
                newer_append since items more e,
              )
              (rest ∙ ap ok (append_assoc out (newer since items) (newer since more)))
      ]

  pages_from_lem :
      (pages : List (List Delivery)) (left n : ℕ) (cursor : String) (out : List Delivery)
      → Serves list n cursor pages
      → length pages ≤ left
      → pages_from list task since left n cursor out ≡ ok (out ++ newer since (concat pages))
  unfolding pages_from
  pages_from_lem [] left n cursor out s h = absurd s
  pages_from_lem (items ∷ pages) zero n cursor out s h = absurd (omega arith)
  pages_from_lem (items ∷ []) (suc left) n cursor out s h =
      rw s (last_page items out cursor (λ c o. pages_from list task since left (n + 1) c o))
  pages_from_lem (items ∷ page ∷ pages) (suc left) n cursor out
        (cursor', s, full, some_cursor, new_cursor, rest) h =
      rw s (
        inner_page items (concat (page ∷ pages)) out cursor cursor'
          (λ c o. pages_from list task since left (n + 1) c o) full some_cursor new_cursor
          (pages_from_lem (page ∷ pages) left (n + 1) cursor' (out ++ newer since items) rest
            (omega arith)))

-- Where the hook id is known and the API serves the attempts in at most 500 pages, ListDeliveries
-- gives exactly what one pass over all of them would: the attempts in front of the first one older
-- than the start of the window, in order and none twice, however they fall into pages.
pub list_deliveries_lem :
    (list : Listing) (t : Target) (since : ℕ) (pages : List (List Delivery))
    → t.hook_id ≢ 0
    → Serves list 0 "" pages
    → length pages ≤ 500
    → list_deliveries list t since ≡ ok (newer since (concat pages))
unfolding list_deliveries
list_deliveries_lem list t since pages h s few =
    rw (no_zero t.hook_id h) (pages_from_lem list (list_task t) since pages max_pages 0 "" [] s few)
