-- ===== src/Jobs/Queue.antt =====
-- The operations of crates/workers/src/queue.rs on the rows of `background_jobs`. Each takes the
-- time of its statement, `Utc::now()` or NOW(), as an argument.
use publaryn.Prelude.{
  ℕ, ◌+◌, ◌*◌, ◌-◌, ◌^◌, ◌%◌, String, Bool, false, not, ◌&&◌, Option, none, some, List, [], ◌∷◌,
  map, if◌then◌else◌, leb, ltb, ◌==◌, has, filter, take, count,
}
use publaryn.Query.Update.{update_where, returning, delete_where}
use publaryn.Domain.Job.{
  JobKind, JobStatus, Payload, Job, is_pending, is_running, is_finished, is_completed, is_failed,
  is_dead,
}

-- A second, in the unit of `Time`.
abbrev pub second : ℕ
second = 1000000

-- The DEFAULT values of migrations/010_background_jobs.sql.
abbrev pub default_max_attempts : ℕ
default_max_attempts = 5

abbrev pub new_job : ℕ → JobKind → Payload → ℕ → ℕ → Job
new_job id kind payload scheduled_at now = record {
  id = id;
  kind = kind;
  payload = payload;
  status = JobStatus.pending;
  attempts = 0;
  max_attempts = default_max_attempts;
  last_error = none;
  scheduled_at = scheduled_at;
  locked_until = none;
  locked_by = none;
  started_at = none;
  completed_at = none;
  created_at = now;
}

-- `enqueue_at`: `id` is the fresh `Uuid::new_v4()`. A table has no order: a new row stands first.
unfoldable pub enqueue_at : List Job → ℕ → JobKind → Payload → ℕ → ℕ → List Job
enqueue_at jobs id kind payload scheduled_at now = new_job id kind payload scheduled_at now ∷ jobs

unfoldable pub enqueue : List Job → ℕ → JobKind → Payload → ℕ → List Job
unfolding enqueue_at
enqueue jobs id kind payload now = enqueue_at jobs id kind payload now now

-- ORDER BY scheduled_at ASC.
unfoldable pub insert_by_schedule : Job → List Job → List Job
insert_by_schedule j [] = j ∷ []
insert_by_schedule j (k ∷ ks) =
    let rest = insert_by_schedule j ks in
    if leb j.scheduled_at k.scheduled_at then j ∷ k ∷ ks else k ∷ rest

unfoldable pub order_by_schedule : List Job → List Job
unfolding insert_by_schedule
order_by_schedule [] = []
order_by_schedule (j ∷ js) = insert_by_schedule j (order_by_schedule js)

-- WHERE status = 'pending' AND scheduled_at <= $3, and SKIP LOCKED: `locked` tells the rows that
-- a concurrent claim holds at this moment.
abbrev pub is_claimable : (ℕ → Bool) → ℕ → Job → Bool
is_claimable locked now j = is_pending j.status && leb j.scheduled_at now && not (locked j.id)

-- The subquery of `claim_jobs`: the ids it selects.
unfoldable pub claimed_ids : List Job → (ℕ → Bool) → ℕ → ℕ → List ℕ
unfolding order_by_schedule
claimed_ids jobs locked now batch_size =
    map (λ j. j.id) (take batch_size (order_by_schedule (filter (is_claimable locked now) jobs)))

abbrev pub start : String → ℕ → ℕ → Job → Job
start worker_id now lock_duration_seconds j = record j {
  status = JobStatus.running;
  attempts = j.attempts + 1;
  locked_until = some (now + lock_duration_seconds * second);
  locked_by = some worker_id;
  started_at = some now;
}

-- The queue after `claim_jobs`, and the jobs that it returns.
unfoldable pub claim_jobs : List Job → (ℕ → Bool) → String → ℕ → ℕ → ℕ → List Job × List Job
unfolding claimed_ids
claim_jobs jobs locked worker_id batch_size lock_duration_seconds now =
    let ids = claimed_ids jobs locked now batch_size in
    (
      update_where (λ j. has j.id ids) (start worker_id now lock_duration_seconds) jobs,
      returning (λ j. has j.id ids) (start worker_id now lock_duration_seconds) jobs,
    )

abbrev pub complete : ℕ → Job → Job
complete now j = record j {
  status = JobStatus.completed;
  completed_at = some now;
  locked_until = none;
  locked_by = none;
}

unfoldable pub complete_job : List Job → ℕ → ℕ → List Job
complete_job jobs job_id now = update_where (λ j. j.id == job_id) (complete now) jobs

-- `(1i64 << current_attempts) * 10`: a shift by the low six bits, and the bits of an `i64`.
abbrev pub backoff_seconds : ℕ → ℕ
backoff_seconds current_attempts = 2 ^ (current_attempts % 64) * 10 % 2 ^ 64

abbrev pub bury : String → ℕ → Job → Job
bury error now j = record j {
  status = JobStatus.dead;
  last_error = some error;
  completed_at = some now;
  locked_until = none;
  locked_by = none;
}

abbrev pub retry : String → ℕ → Job → Job
retry error retry_at j = record j {
  status = JobStatus.pending;
  last_error = some error;
  scheduled_at = retry_at;
  locked_until = none;
  locked_by = none;
}

unfoldable pub fail_job : List Job → ℕ → String → ℕ → ℕ → ℕ → List Job
fail_job jobs job_id error current_attempts max_attempts now =
    if leb max_attempts current_attempts
    then update_where (λ j. j.id == job_id) (bury error now) jobs
    else update_where (λ j. j.id == job_id)
        (retry error (now + backoff_seconds current_attempts * second)) jobs

-- `locked_until < NOW()`, not true of NULL.
abbrev pub is_before : Option ℕ → ℕ → Bool
is_before none now = false
is_before (some t) now = ltb t now

abbrev pub release_lock : ℕ → Job → Job
release_lock now j = record j {
  status = JobStatus.pending;
  locked_until = none;
  locked_by = none;
  started_at = none;
  scheduled_at = now;
}

unfoldable pub recover_stale_jobs : List Job → ℕ → List Job
recover_stale_jobs jobs now =
    update_where (λ j. is_running j.status && is_before j.locked_until now) (release_lock now) jobs

unfoldable pub cleanup_finished_jobs : List Job → ℕ → ℕ → List Job
cleanup_finished_jobs jobs retention_hours now =
    delete_where
      (λ j.
        is_finished j.status && is_before j.completed_at (now - retention_hours * 3600 * second))
      jobs

pub record JobCounts : Type 0 where
  pub pending : ℕ
  pub running : ℕ
  pub completed : ℕ
  pub failed : ℕ
  pub dead : ℕ

unfoldable pub job_counts : List Job → JobCounts
job_counts jobs = record {
  pending = count (λ j. is_pending j.status) jobs;
  running = count (λ j. is_running j.status) jobs;
  completed = count (λ j. is_completed j.status) jobs;
  failed = count (λ j. is_failed j.status) jobs;
  dead = count (λ j. is_dead j.status) jobs;
}
