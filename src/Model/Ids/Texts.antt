-- ===== src/Model/Ids/Texts.antt =====
-- No two identifiers are hashes of the same text.
use text.Mathlib.TextLemmas.{append_assoc as append_text}
use antwatcher.Prelude.{
  ℕ, ◌≤◌, ◌≡◌, refl, ap, sym, ◌∙◌, Option, none, some, List, [], ◌∷◌, ◌++◌, String, ◌+++◌,
  if◌then◌else◌, str_eq, All, All-append,
}
use antwatcher.Prelude.Decimal.{max_int}
use antwatcher.Prelude.Decimal.Parts.{
  IsPart, join_parts, join_parts_inj, decimals, decimals-IsPart, decimals_inj,
}
use antwatcher.Model.Ids.{
  kind_name, run_record, job_record, step_record, Space, trace_space, run_space, job_space,
  step_space, record_space, namespace, join_ids, hashed_text,
}

name_parts : IsPart "antwatcher"
name_parts = (refl, (refl, (refl, (refl, (refl, (refl, (refl, (refl, (refl, (refl, tt))))))))))

-- The parts of a namespace.
abbrev space_parts : Space → List String
space_parts trace_space = "trace" ∷ []
space_parts run_space = "run" ∷ []
space_parts job_space = "job" ∷ []
space_parts step_space = "step" ∷ []
space_parts (record_space kind) = "record" ∷ kind_name kind ∷ []

space_parts-IsPart : (s : Space) → All IsPart (space_parts s)
space_parts-IsPart trace_space = ((refl, (refl, (refl, (refl, (refl, tt))))), tt)
space_parts-IsPart run_space = ((refl, (refl, (refl, tt))), tt)
space_parts-IsPart job_space = ((refl, (refl, (refl, tt))), tt)
space_parts-IsPart step_space = ((refl, (refl, (refl, (refl, tt)))), tt)
space_parts-IsPart (record_space run_record) =
    ((refl, (refl, (refl, (refl, (refl, (refl, tt)))))), ((refl, (refl, (refl, tt))), tt))
space_parts-IsPart (record_space job_record) =
    ((refl, (refl, (refl, (refl, (refl, (refl, tt)))))), ((refl, (refl, (refl, tt))), tt))
space_parts-IsPart (record_space step_record) =
    ((refl, (refl, (refl, (refl, (refl, (refl, tt)))))), ((refl, (refl, (refl, (refl, tt)))), tt))

module _ (a b c d : String) where
  regrouped : (j : String) → (a +++ (b +++ (c +++ d))) +++ j ≡ a +++ (b +++ (c +++ (d +++ j)))
  regrouped j =
      append_text a (b +++ (c +++ d)) j
      ∙ ap (λ s. a +++ s) (append_text b (c +++ d) j ∙ ap (λ s. b +++ s) (append_text c d j))

  regrouped_twice :
      (e f j : String)
      → (a +++ (b +++ (c +++ (d +++ (e +++ f))))) +++ j
        ≡ a +++ (b +++ (c +++ (d +++ (e +++ (f +++ j)))))
  regrouped_twice e f j =
      ap (λ s. s +++ j) (sym (regrouped (e +++ f)))
      ∙ append_text (a +++ (b +++ (c +++ d))) (e +++ f) j
      ∙ regrouped ((e +++ f) +++ j)
      ∙ ap (λ s. a +++ (b +++ (c +++ (d +++ s)))) (append_text e f j)

-- The text of an identifier, part by part.
hashed_text_parts :
    (s : Space) (id : ℕ) (ids : List ℕ)
    → hashed_text s (id ∷ ids) ≡ join_parts ("antwatcher" ∷ (space_parts s ++ decimals (id ∷ ids)))
unfolding hashed_text join_parts namespace join_ids
hashed_text_parts trace_space id ids = regrouped "antwatcher" ":" "trace" ":" (join_ids (id ∷ ids))
hashed_text_parts run_space id ids = regrouped "antwatcher" ":" "run" ":" (join_ids (id ∷ ids))
hashed_text_parts job_space id ids = regrouped "antwatcher" ":" "job" ":" (join_ids (id ∷ ids))
hashed_text_parts step_space id ids = regrouped "antwatcher" ":" "step" ":" (join_ids (id ∷ ids))
hashed_text_parts (record_space run_record) id ids =
    regrouped_twice "antwatcher" ":" "record" ":" "run" ":" (join_ids (id ∷ ids))
hashed_text_parts (record_space job_record) id ids =
    regrouped_twice "antwatcher" ":" "record" ":" "job" ":" (join_ids (id ∷ ids))
hashed_text_parts (record_space step_record) id ids =
    regrouped_twice "antwatcher" ":" "record" ":" "step" ":" (join_ids (id ∷ ids))

-- The space that the parts begin with.
abbrev record_at : List String → Option Space
record_at [] = none
record_at (s ∷ ss) =
    if str_eq s "run"
    then some (record_space run_record)
    else if str_eq s "job"
    then some (record_space job_record)
    else some (record_space step_record)

abbrev space_at : List String → Option Space
space_at [] = none
space_at (s ∷ ss) =
    if str_eq s "trace"
    then some trace_space
    else if str_eq s "run"
    then some run_space
    else if str_eq s "job"
    then some job_space
    else if str_eq s "step"
    then some step_space
    else record_at ss

space_found : (s : Space) (ss : List String) → space_at (space_parts s ++ ss) ≡ some s
space_found trace_space ss = refl
space_found run_space ss = refl
space_found job_space ss = refl
space_found step_space ss = refl
space_found (record_space run_record) ss = refl
space_found (record_space job_record) ss = refl
space_found (record_space step_record) ss = refl

same_space : (s : Space) (ss ts : List String) → space_parts s ++ ss ≡ space_parts s ++ ts → ss ≡ ts
same_space trace_space ss ts e = cc e
same_space run_space ss ts e = cc e
same_space job_space ss ts e = cc e
same_space step_space ss ts e = cc e
same_space (record_space kind) ss ts e = cc e

-- Two identifiers are hashes of the same text only if they are for the same kind of thing and have the same
-- numbers, which fit 63 bits: what a run, a job, a step or one of their records is told apart by, the
-- hash alone can confuse, never the text.
pub hashed_text_inj :
    (s t : Space) (id : ℕ) (ids : List ℕ) (jd : ℕ) (jds : List ℕ)
    → All (λ n. n ≤ max_int) (id ∷ ids)
    → All (λ n. n ≤ max_int) (jd ∷ jds)
    → hashed_text s (id ∷ ids) ≡ hashed_text t (jd ∷ jds)
    → (s ≡ t) × (id ∷ ids ≡ jd ∷ jds)
hashed_text_inj s t id ids jd jds h k e =
    let whole = sym (hashed_text_parts s id ids) ∙ e ∙ hashed_text_parts t jd jds in
    let parts : "antwatcher" ∷ (space_parts s ++ decimals (id ∷ ids))
        ≡ "antwatcher" ∷ (space_parts t ++ decimals (jd ∷ jds)) =
      join_parts_inj _ _
        (
          name_parts,
          All-append IsPart (space_parts s) (decimals (id ∷ ids)) (space_parts-IsPart s)
              (decimals-IsPart (id ∷ ids)),
        )
        (
          name_parts,
          All-append IsPart (space_parts t) (decimals (jd ∷ jds)) (space_parts-IsPart t)
              (decimals-IsPart (jd ∷ jds)),
        )
        (λ x. cc) (λ x. cc) whole in
    let tails : space_parts s ++ decimals (id ∷ ids) ≡ space_parts t ++ decimals (jd ∷ jds) =
      cc parts in
    let same : s ≡ t = cc (
      sym (space_found s (decimals (id ∷ ids)))
      ∙ ap space_at tails
      ∙ space_found t (decimals (jd ∷ jds))) in
    let texts : decimals (id ∷ ids) ≡ decimals (jd ∷ jds) =
      same_space t (decimals (id ∷ ids)) (decimals (jd ∷ jds))
        (ap (λ x. space_parts x ++ decimals (id ∷ ids)) (sym same) ∙ tails) in
    (same, decimals_inj (id ∷ ids) (jd ∷ jds) h k texts)
