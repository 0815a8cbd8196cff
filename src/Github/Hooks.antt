-- ===== src/Github/Hooks.antt =====
-- internal/ghclient/client.go: the search for the hook of a target, and the redelivery request. url.Parse,
-- URL.String and strings.ToLower are parameters.
use antwatcher.Prelude.{
  ℕ, zero, suc, ◌+◌, ◌≤◌, ◌≡◌, ◌≢◌, ◌↔◌, refl, ap, ◌∙◌, Bool, true, false, ◌||◌, Option, none, some,
  List, [], ◌∷◌, ◌++◌, append_assoc, append-nil, String, ◌+++◌, arith, ◌==◌, if◌then◌else◌, str_eq,
  length, quoted,
}
use antwatcher.Prelude.Decimal.{itoa}
use antwatcher.Prelude.Errors.{Err, message, wrap, Result, ok, err}
use antwatcher.Recovery.State.{Target}
use antwatcher.Github.Targets.{target_text}
use antwatcher.Github.Deliveries.{max_pages, concat, unknown_hook}

-- The parts of url.URL that normalizeURL reads or clears; `rest` is what it leaves alone.
pub record Url : Type 0 where
  pub scheme : String
  pub host : String
  pub path : String
  pub raw_path : String
  pub fragment : String
  pub rest : String

pub record UrlLibrary : Type 0 where
  pub parse : String → Result Url
  pub render : Url → String
  pub lower : String → String
  pub trim_space : String → String

-- strings.TrimSuffix of "/".
unfoldable pub trim_slash : String → String
trim_slash String.[] = String.[]
trim_slash (String.◌∷◌ c s) =
    let rest = trim_slash s in if str_eq (String.◌∷◌ c s) "/" then String.[] else String.◌∷◌ c rest

unfoldable pub normalized : UrlLibrary → String → Result Url → Result String
unfolding trim_slash
normalized lib raw (err e) = err e
normalized lib raw (ok u) =
    if str_eq u.scheme "" || str_eq u.host ""
    then err (message (quoted raw +++ " is not an absolute url"))
    else ok (
        lib.render (record {
          scheme = lib.lower u.scheme;
          host = lib.lower u.host;
          path = trim_slash u.path;
          raw_path = "";
          fragment = "";
          rest = u.rest;
        }))

-- normalizeURL
unfoldable pub normalize_url : UrlLibrary → String → Result String
unfolding normalized
normalize_url lib raw = normalized lib raw (lib.parse (lib.trim_space raw))

pub record Hook : Type 0 where
  pub id : ℕ
  pub url : String

-- What the `n`-th call of the API gives for a page number: the hooks and the next page, 0 at the end.
abbrev pub HookListing : Type 0
HookListing = ℕ → ℕ → Result (List Hook × ℕ)

abbrev pub same_url : Result String → String → Bool
same_url (err e) want = false
same_url (ok got) want = str_eq got want

-- The ids of the hooks of a page whose URL is the wanted one.
unfoldable pub matching : UrlLibrary → String → List Hook → List ℕ
unfolding normalize_url
matching lib want [] = []
matching lib want (h ∷ hs) =
    let rest = matching lib want hs in
    if same_url (normalize_url lib h.url) want then h.id ∷ rest else rest

-- What follows a page: the matches, with whether the listing ended, or the rest of the loop.
unfoldable pub after_hooks :
    UrlLibrary
    → String
    → ℕ
    → List ℕ
    → (ℕ → List ℕ → Result (List ℕ × Bool))
    → Result (List Hook × ℕ)
    → Result (List ℕ × Bool)
unfolding matching
after_hooks lib want at found next (err e) = err e
after_hooks lib want at found next (ok (hooks, next_page)) =
    let found' = found ++ matching lib want hooks in
    if next_page == 0 || next_page == at then ok (found', true) else next next_page found'

unfoldable pub hooks_from :
    UrlLibrary → HookListing → String → ℕ → ℕ → ℕ → List ℕ → Result (List ℕ × Bool)
unfolding after_hooks
hooks_from lib list want zero n at found = ok (found, false)
hooks_from lib list want (suc left) n at found =
    after_hooks lib want at found (λ at' found'. hooks_from lib list want left (n + 1) at' found')
      (list n at)

-- The text of %v for the ids.
unfoldable pub ids_text : List ℕ → String
ids_text [] = ""
ids_text (id ∷ []) = itoa id
ids_text (id ∷ other ∷ ids) = itoa id +++ " " +++ ids_text (other ∷ ids)

-- ErrHookAmbiguous.Error
unfoldable pub ambiguous : List ℕ → String
unfolding ids_text
ambiguous ids =
    "ghclient: "
    +++ itoa (length ids)
    +++ " hooks match the webhook url (ids ["
    +++ ids_text ids
    +++ "]); set hook_id"

-- "ghclient: discover hook <target>: "
unfoldable pub discover_prefix : Target → String
discover_prefix t = "ghclient: discover hook " +++ target_text t +++ ": "

-- The end of DiscoverHookID, by the matches.
unfoldable pub choose_hook : Target → List ℕ × Bool → Result ℕ
unfolding discover_prefix ambiguous
choose_hook t ([], true) =
    err (wrap (discover_prefix t) (message "ghclient: no hook matches the webhook url") "")
choose_hook t ([], false) = err (
    message (discover_prefix t +++ "pagination did not end after " +++ itoa max_pages +++ " pages"))
choose_hook t ((id ∷ []), ended) = ok id
choose_hook t ((id ∷ other ∷ ids), ended) =
    err (wrap (discover_prefix t) (message (ambiguous (id ∷ other ∷ ids))) "")

unfoldable pub chosen : Target → Result (List ℕ × Bool) → Result ℕ
unfolding choose_hook
chosen t (err e) = err (wrap (discover_prefix t) e "")
chosen t (ok found) = choose_hook t found

unfoldable pub wanted : UrlLibrary → HookListing → Target → Result String → Result ℕ
unfolding chosen
wanted lib list t (err e) = err (wrap (discover_prefix t +++ "webhook url: ") e "")
wanted lib list t (ok want) = chosen t (hooks_from lib list want max_pages 0 0 [])

-- DiscoverHookID
unfoldable pub discover_hook_id : UrlLibrary → HookListing → Target → String → Result ℕ
unfolding wanted hooks_from
discover_hook_id lib list t webhook_url = wanted lib list t (normalize_url lib webhook_url)

-- What the API answers a redelivery request: nil, the accepted error of go-github, or another error that
-- classify has mapped.
pub data Answer : Type 0 where
  done accepted : Answer
  refused : Err → Answer

-- Redeliver; `none` is nil.
unfoldable pub redeliver_hook : (ℕ → Answer) → Target → ℕ → Option Err
unfolding unknown_hook
redeliver_hook send t id = if t.hook_id == 0 then some (unknown_hook t) else elim (send id) [
  | done ↦ none
  | accepted ↦ none
  | refused e ↦
      some
        (wrap ("ghclient: redeliver " +++ target_text t +++ " delivery " +++ itoa id +++ ": ") e "")
]

-- The calls from the `n`-th on serve these pages of hooks, each but the last pointing to another one.
abbrev pub ServesHooks : HookListing → ℕ → ℕ → List (List Hook) → Type 0
ServesHooks list n at [] = ⊥
ServesHooks list n at (hooks ∷ []) = list n at ≡ ok (hooks, 0)
ServesHooks list n at (hooks ∷ page ∷ pages) =
    (at' : ℕ) × (list n at ≡ ok (hooks, at'))
    × (at' ≢ 0)
    × (at' ≢ at)
    × ServesHooks list (n + 1) at' (page ∷ pages)

matching-append :
    (lib : UrlLibrary) (want : String) (hs gs : List Hook)
    → matching lib want (hs ++ gs) ≡ matching lib want hs ++ matching lib want gs
unfolding matching
matching-append lib want [] gs = refl
matching-append lib want (h ∷ hs) gs = ground (arith, matching-append lib want hs gs)

other_page : (at at' : ℕ) → at' ≢ 0 → at' ≢ at → (at' == 0 || at' == at) ≡ false
other_page at at' more new = ground arith

hooks_from_lem :
    (lib : UrlLibrary) (list : HookListing) (want : String) (pages : List (List Hook))
    (left n at : ℕ) (found : List ℕ)
    → ServesHooks list n at pages
    → length pages ≤ left
    → hooks_from lib list want left n at found
      ≡ ok (found ++ matching lib want (concat pages), true)
unfolding hooks_from after_hooks
hooks_from_lem lib list want [] left n at found s h = absurd s
hooks_from_lem lib list want (hooks ∷ pages) zero n at found s h = absurd (omega arith)
hooks_from_lem lib list want (hooks ∷ []) (suc left) n at found s h = rw (s, append-nil hooks) refl
hooks_from_lem lib list want (hooks ∷ page ∷ pages) (suc left) n at found (at', s, more, new, rest)
      h =
    rw (s, other_page at at' more new, matching-append lib want hooks (concat (page ∷ pages)))
      (hooks_from_lem lib list want (page ∷ pages) left (n + 1) at'
          (found ++ matching lib want hooks) rest (omega arith)
        ∙ ap (λ l. ok (l, true))
            (append_assoc found (matching lib want hooks)
              (matching lib want (concat (page ∷ pages)))))

choose_hook-ok :
    (t : Target) (ids : List ℕ) (id : ℕ) → (choose_hook t (ids, true) ≡ ok id) ↔ (ids ≡ id ∷ [])
unfolding choose_hook
choose_hook-ok t [] id = (λ h. cc, λ h. cc)
choose_hook-ok t (i ∷ []) id = (λ h. ground arith, λ h. ground arith)
choose_hook-ok t (i ∷ j ∷ ids) id = (λ h. cc, λ h. cc)

-- Where the webhook URL can be normalized and the API serves all hooks of the target in at most 500
-- pages, DiscoverHookID finds a hook exactly if it is the only one whose URL, normalized, is the
-- normalized webhook URL, on whichever page it is.
pub discover_hook_id_iff :
    (lib : UrlLibrary) (list : HookListing) (t : Target) (webhook_url want : String)
    (pages : List (List Hook)) (id : ℕ)
    → normalize_url lib webhook_url ≡ ok want
    → ServesHooks list 0 0 pages
    → length pages ≤ 500
    → (discover_hook_id lib list t webhook_url ≡ ok id)
      ↔ (matching lib want (concat pages) ≡ id ∷ [])
unfolding discover_hook_id
discover_hook_id_iff lib list t webhook_url want pages id u s few =
    rw (u, hooks_from_lem lib list want pages max_pages 0 0 [] s few)
      (choose_hook-ok t (matching lib want (concat pages)) id)
