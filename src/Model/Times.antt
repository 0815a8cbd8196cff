-- ===== src/Model/Times.antt =====
-- internal/model/status.go and the event times of internal/model/ids.go. A time is 0 for Go's zero Time; the `none` of a
-- time is a nil pointer.
use antwatcher.Prelude.{
  ℕ, ◌≢◌, ◌||◌, Option, none, some, String, arith, ◌==◌, if◌then◌else◌, if_lem, str_eq,
}

-- StatusRank
unfoldable pub status_rank : String → ℕ
status_rank s =
    if str_eq s "completed"
    then 3
    else if str_eq s "in_progress"
    then 2
    else if str_eq s "queued" || str_eq s "waiting" || str_eq s "requested" || str_eq s "pending"
    then 1
    else 0

-- The fields of a Run that its event time reads.
pub record RunTimes : Type 0 where
  pub status : String
  pub created_at : ℕ
  pub updated_at : ℕ
  pub started_at : Option ℕ

pub record JobTimes : Type 0 where
  pub status : String
  pub created_at : ℕ
  pub started_at : Option ℕ
  pub completed_at : Option ℕ

pub record StepTimes : Type 0 where
  pub status : String
  pub started_at : Option ℕ
  pub completed_at : Option ℕ

-- Execution, by its kind; a nil Run or Job counts as no entity.
pub data Execution : Type 0 where
  of_none : Execution
  of_run : RunTimes → Execution
  of_job : JobTimes → Execution

-- orZero
unfoldable pub or_zero : ℕ → ℕ → ℕ
or_zero t fallback = if t == 0 then fallback else t

-- orTime
unfoldable pub or_time : Option ℕ → ℕ → ℕ
unfolding or_zero
or_time none fallback = fallback
or_time (some t) fallback = or_zero t fallback

-- runEventTime
unfoldable pub run_event_time : RunTimes → ℕ → ℕ
unfolding or_zero or_time
run_event_time r received =
    if str_eq r.status "completed"
    then or_zero r.updated_at received
    else if str_eq r.status "in_progress"
    then or_time r.started_at received
    else or_zero r.created_at received

-- jobEventTime
unfoldable pub job_event_time : JobTimes → ℕ → ℕ
unfolding or_zero or_time
job_event_time j received =
    if str_eq j.status "completed"
    then or_time j.completed_at received
    else if str_eq j.status "in_progress"
    then or_time j.started_at received
    else or_zero j.created_at received

-- EventTime, of an execution whose envelope was received at this time.
unfoldable pub event_time : Execution → ℕ → ℕ
unfolding run_event_time job_event_time
event_time of_none received = received
event_time (of_run r) received = run_event_time r received
event_time (of_job j) received = job_event_time j received

-- The time of a step, by the time of its job's event.
unfoldable pub step_time : StepTimes → ℕ → ℕ
unfolding or_time
step_time step job_time =
    if str_eq step.status "completed"
    then or_time step.completed_at job_time
    else if str_eq step.status "in_progress"
    then or_time step.started_at job_time
    else job_time

-- StepEventTime
unfoldable pub step_event_time : Execution → StepTimes → ℕ → ℕ
unfolding event_time step_time
step_event_time (of_job j) step received = step_time step (event_time (of_job j) received)
step_event_time of_none step received = event_time of_none received
step_event_time (of_run r) step received = event_time (of_run r) received

module _ (received : ℕ) (known : received ≢ 0) where
  or_zero-ne-zero : (t : ℕ) → or_zero t received ≢ 0
  unfolding or_zero
  or_zero-ne-zero t = if_lem (λ n. n ≢ 0) (t == 0) _ _ (λ e. known) (λ e. ground arith)

  or_time-ne-zero : (o : Option ℕ) → or_time o received ≢ 0
  unfolding or_time
  or_time-ne-zero none = known
  or_time-ne-zero (some t) = or_zero-ne-zero t

  -- The event time is never the zero time, whichever fields are missing, if the envelope has a time of receipt.
  pub event_time-ne-zero : (exec : Execution) → event_time exec received ≢ 0
  unfolding event_time run_event_time job_event_time
  event_time-ne-zero of_none = known
  event_time-ne-zero (of_run r) =
      if_lem (λ n. n ≢ 0) (str_eq r.status "completed") _ _ (λ e. or_zero-ne-zero r.updated_at)
        (λ e.
          if_lem (λ n. n ≢ 0) (str_eq r.status "in_progress") _ _
            (λ x. or_time-ne-zero r.started_at) (λ x. or_zero-ne-zero r.created_at))
  event_time-ne-zero (of_job j) =
      if_lem (λ n. n ≢ 0) (str_eq j.status "completed") _ _ (λ e. or_time-ne-zero j.completed_at)
        (λ e.
          if_lem (λ n. n ≢ 0) (str_eq j.status "in_progress") _ _
            (λ x. or_time-ne-zero j.started_at) (λ x. or_zero-ne-zero j.created_at))

-- Nor is the time of a step in a job's event.
pub step_event_time-ne-zero :
    (received : ℕ) (exec : Execution) (step : StepTimes)
    → received ≢ 0
    → step_event_time exec step received ≢ 0
unfolding step_event_time step_time
step_event_time-ne-zero received of_none step known = event_time-ne-zero received known of_none
step_event_time-ne-zero received (of_run r) step known =
    event_time-ne-zero received known (of_run r)
step_event_time-ne-zero received (of_job j) step known =
    let job = event_time (of_job j) received in
    let job_known = event_time-ne-zero received known (of_job j) in
    if_lem (λ n. n ≢ 0) (str_eq step.status "completed") _ _
      (λ e. or_time-ne-zero job job_known step.completed_at)
      (λ e.
        if_lem (λ n. n ≢ 0) (str_eq step.status "in_progress") _ _
          (λ x. or_time-ne-zero job job_known step.started_at) (λ x. job_known))
