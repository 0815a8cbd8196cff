-- ===== src/Github/Tests.antt =====
-- A target, a listing of two pages and a search for a hook, and the theorems at these inputs.
use antwatcher.Prelude.{ℕ, ◌≡◌, ◌↔◌, refl, [], ◌∷◌, arith, ◌==◌, if◌then◌else◌}
use antwatcher.Prelude.Errors.{ok}
use antwatcher.Recovery.State.{Target}
use antwatcher.Recovery.Decide.{Delivery}
use antwatcher.Github.Targets.{TargetConfig, cut, split_repo, one_of, with_repo, target_from_config}
use antwatcher.Github.Deliveries.{Listing, list_deliveries, newer, concat, list_deliveries_lem}
use antwatcher.Github.Hooks.{
  UrlLibrary, trim_slash, normalized, normalize_url, HookListing, matching, discover_hook_id,
  discover_hook_id_iff,
}

abbrev target : Target
target = record { owner = "acme"; repo = "site"; org = ""; hook_id = 7 }

abbrev config : TargetConfig
config = record { repo = "acme/site"; org = ""; hook_id = 7 }

accepted_target : target_from_config config ≡ ok target
unfolding target_from_config split_repo with_repo one_of cut
accepted_target = refl

abbrev attempt : ℕ → ℕ → Delivery
attempt id at = record { id = id; guid = "g"; delivered_at = at; status_code = 502 }

-- Two pages of attempts, the second with one from before the window.
abbrev listing : Listing
listing n cursor =
    if n == 0
    then ok (attempt 4 90 ∷ attempt 3 80 ∷ [], "p2")
    else ok (attempt 2 50 ∷ attempt 1 20 ∷ [], "")

list_deliveries_lem_example :
    list_deliveries listing target 40
    ≡ ok (
        newer 40
          (concat ((attempt 4 90 ∷ attempt 3 80 ∷ []) ∷ (attempt 2 50 ∷ attempt 1 20 ∷ []) ∷ [])))
list_deliveries_lem_example =
    list_deliveries_lem listing target 40
      ((attempt 4 90 ∷ attempt 3 80 ∷ []) ∷ (attempt 2 50 ∷ attempt 1 20 ∷ []) ∷ [])
      (λ e. omega arith) ("p2", refl, refl, λ e. cc, λ e. cc, refl) (omega arith)

-- A library for URLs of one host.
abbrev library : UrlLibrary
library = record {
  parse = λ s.
      ok (record {
        scheme = "https";
        host = "a";
        path = s;
        raw_path = "";
        fragment = "";
        rest = "";
      });
  render = λ u. u.path;
  lower = λ s. s;
  trim_space = λ s. s;
}

abbrev hooks : HookListing
hooks n at =
    if n == 0
    then ok (record { id = 5; url = "/other" } ∷ [], 2)
    else ok (record { id = 6; url = "/hook/" } ∷ [], 0)

normal_url : normalize_url library "/hook" ≡ ok "/hook"
unfolding normalize_url normalized trim_slash
normal_url = refl

discover_hook_id_iff_example : (discover_hook_id library hooks target "/hook" ≡ ok 6) ↔ (
    matching library "/hook" (
      concat
        ((record { id = 5; url = "/other" } ∷ []) ∷ (record { id = 6; url = "/hook/" } ∷ []) ∷ []))
    ≡ 6 ∷ [])
discover_hook_id_iff_example =
    discover_hook_id_iff library hooks target "/hook" "/hook"
      ((record { id = 5; url = "/other" } ∷ []) ∷ (record { id = 6; url = "/hook/" } ∷ []) ∷ []) 6
      normal_url (2, refl, (λ e. omega arith), (λ e. omega arith), refl) (omega arith)
