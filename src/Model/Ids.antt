-- ===== src/Model/Ids.antt =====
-- internal/model/ids.go: the texts that the identifiers are hashes of, and the identifiers of runs, jobs and steps.
-- crypto/sha256 and encoding/hex are parameters.
pub mod Texts
use text.Mathlib.TextLemmas.{append_assoc as append_text}
use antwatcher.Prelude.{
  ℕ, ◌≤◌, ◌≡◌, refl, ap, sym, ◌∙◌, Option, none, some, List, [], ◌∷◌, ◌++◌, String, ◌+++◌,
  if◌then◌else◌, str_eq, All, All-append, take,
}
use antwatcher.Prelude.Decimal.{max_int}
use antwatcher.Prelude.Decimal.Parts.{
  IsPart, join_parts, join_parts_inj, decimals, decimals-IsPart, decimals_inj,
}

-- RecordKind
pub data RecordKind : Type 0 where
  run_record job_record step_record : RecordKind

abbrev pub kind_name : RecordKind → String
kind_name run_record = "run"
kind_name job_record = "job"
kind_name step_record = "step"

-- What an identifier is for.
pub data Space : Type 0 where
  trace_space run_space job_space step_space : Space
  record_space : RecordKind → Space

-- nsTrace, nsRun, nsJob, nsStep, and nsRecord with the kind
unfoldable pub namespace : Space → String
namespace trace_space = "antwatcher:trace:"
namespace run_space = "antwatcher:run:"
namespace job_space = "antwatcher:job:"
namespace step_space = "antwatcher:step:"
namespace (record_space kind) = "antwatcher:record:" +++ kind_name kind +++ ":"

-- join, for ids that are not negative
unfoldable pub join_ids : List ℕ → String
unfolding join_parts
join_ids ids = join_parts (decimals ids)

-- The text that an identifier is the hash of.
unfoldable pub hashed_text : Space → List ℕ → String
unfolding namespace join_ids
hashed_text space ids = namespace space +++ join_ids ids

-- A run attempt, a job and a step, by the numbers that identify them.
pub record Run : Type 0 where
  pub repository_id : ℕ
  pub run_id : ℕ
  pub run_attempt : ℕ

pub record Job : Type 0 where
  pub repository_id : ℕ
  pub run_id : ℕ
  pub run_attempt : ℕ
  pub job_id : ℕ

module _ (sha256 : String → List ℕ) (hex : List ℕ → String) where
  -- TraceID
  unfoldable pub trace_id : ℕ → ℕ → ℕ → List ℕ
  unfolding hashed_text
  trace_id repository_id run_id run_attempt =
      take 16 (sha256 (hashed_text trace_space (repository_id ∷ run_id ∷ run_attempt ∷ [])))

  -- spanID
  unfoldable pub span_id : String → List ℕ
  span_id s = take 8 (sha256 s)

  -- RunSpanID
  unfoldable pub run_span_id : ℕ → ℕ → List ℕ
  unfolding span_id hashed_text
  run_span_id run_id run_attempt = span_id (hashed_text run_space (run_id ∷ run_attempt ∷ []))

  -- JobSpanID
  unfoldable pub job_span_id : ℕ → List ℕ
  unfolding span_id hashed_text
  job_span_id job_id = span_id (hashed_text job_space (job_id ∷ []))

  -- StepSpanID
  unfoldable pub step_span_id : ℕ → ℕ → List ℕ
  unfolding span_id hashed_text
  step_span_id job_id step_number = span_id (hashed_text step_space (job_id ∷ step_number ∷ []))

  -- RecordID
  unfoldable pub record_id : RecordKind → List ℕ → String
  unfolding hashed_text
  record_id kind ids = hex (sha256 (hashed_text (record_space kind) ids))

  -- The trace, the root span and the record of a run.
  unfoldable pub run_ids : Run → List ℕ × List ℕ × String
  unfolding trace_id run_span_id record_id
  run_ids r = (
    trace_id r.repository_id r.run_id r.run_attempt,
    run_span_id r.run_id r.run_attempt,
    record_id run_record (r.repository_id ∷ r.run_id ∷ r.run_attempt ∷ []),
  )

  -- The trace, the span, the parent span and the record of a job.
  unfoldable pub job_ids : Job → List ℕ × List ℕ × List ℕ × String
  unfolding trace_id run_span_id job_span_id record_id
  job_ids j = (
    trace_id j.repository_id j.run_id j.run_attempt,
    job_span_id j.job_id,
    run_span_id j.run_id j.run_attempt,
    record_id job_record (j.repository_id ∷ j.run_id ∷ j.run_attempt ∷ j.job_id ∷ []),
  )

  -- The span and the record of a step with this number.
  unfoldable pub step_ids : Job → ℕ → List ℕ × String
  unfolding step_span_id record_id
  step_ids j number = (
    step_span_id j.job_id number,
    record_id step_record (j.repository_id ∷ j.run_id ∷ j.run_attempt ∷ j.job_id ∷ number ∷ []),
  )
