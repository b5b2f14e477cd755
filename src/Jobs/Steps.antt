-- ===== src/Jobs/Steps.antt =====
-- The queue and the workers as a system: the rows of `background_jobs`, and the jobs that workers
-- have claimed and not yet finished. Every operation of Jobs.Queue is a step, in any order and by
-- any worker; a crash loses a claimed job without a word to the queue.
use publaryn.Prelude.{
  ℕ, ◌≤◌, ◌≡◌, ◌≢◌, String, Bool, true, none, List, [], ◌∷◌, ◌++◌, Memᴰ, is_some,
}
use publaryn.Domain.Job.{JobKind, JobStatus, Payload, Job}
use publaryn.Jobs.Queue.{
  enqueue_at, claim_jobs, complete_job, fail_job, recover_stale_jobs, cleanup_finished_jobs,
}
use publaryn.Jobs.Claim.{IsKeyed}

pub record System : Type 0 where
  pub jobs : List Job
  pub in_flight : List Job

abbrev pub nothing_yet : System
nothing_yet = record { jobs = []; in_flight = [] }

-- No row and no claimed job has this id.
abbrev pub IsFresh : ℕ → System → Type 0
IsFresh id s =
    ((j : Job) → Memᴰ j s.jobs → j.id ≢ id) × ((j : Job) → Memᴰ j s.in_flight → j.id ≢ id)

pub data Step : System → System → Type 0 where
  enqueues :
      (s : System) (id : ℕ) (kind : JobKind) (payload : Payload) (scheduled_at now : ℕ)
      → IsFresh id s
      → Step s (record s { jobs = enqueue_at s.jobs id kind payload scheduled_at now })
  claims :
      (s : System) (locked : ℕ → Bool) (worker_id : String)
      → (batch_size lock_duration_seconds now : ℕ)
      → Step s (record {
        jobs = (claim_jobs s.jobs locked worker_id batch_size lock_duration_seconds now).0;
        in_flight =
            (claim_jobs s.jobs locked worker_id batch_size lock_duration_seconds now).1
            ++ s.in_flight;
      })
  completes :
      (jobs before after : List Job) (job : Job) (now : ℕ)
      → Step
          (record { jobs = jobs; in_flight = before ++ job ∷ after })
          (record { jobs = complete_job jobs job.id now; in_flight = before ++ after })
  fails :
      (jobs before after : List Job) (job : Job) (error : String) (now : ℕ)
      → Step
          (record { jobs = jobs; in_flight = before ++ job ∷ after })
          (record {
            jobs = fail_job jobs job.id error job.attempts job.max_attempts now;
            in_flight = before ++ after;
          })
  crashes :
      (jobs before after : List Job) (job : Job)
      → Step
          (record { jobs = jobs; in_flight = before ++ job ∷ after })
          (record { jobs = jobs; in_flight = before ++ after })
  recovers : (s : System) (now : ℕ) → Step s (record s { jobs = recover_stale_jobs s.jobs now })
  cleans :
      (s : System) (retention_hours now : ℕ)
      → Step s (record s { jobs = cleanup_finished_jobs s.jobs retention_hours now })

pub data IsReachable : System → Type 0 where
  initially : IsReachable nothing_yet
  then_step : (s t : System) → IsReachable s → Step s t → IsReachable t

-- What the columns of a row say for its status.
abbrev pub FitsStatus : JobStatus → Job → Type 0
FitsStatus JobStatus.pending j = (j.locked_until ≡ none) × (j.locked_by ≡ none)
FitsStatus JobStatus.running j =
    (is_some j.locked_until ≡ true) × (is_some j.locked_by ≡ true) × (1 ≤ j.attempts)
FitsStatus JobStatus.completed j =
    (j.locked_until ≡ none) × (j.locked_by ≡ none) × (is_some j.completed_at ≡ true)
FitsStatus JobStatus.failed j = ⊥
FitsStatus JobStatus.dead j =
    (j.locked_until ≡ none)
    × (j.locked_by ≡ none)
    × (is_some j.completed_at ≡ true)
    × (j.max_attempts ≤ j.attempts)

abbrev pub IsFitting : Job → Type 0
IsFitting j = FitsStatus j.status j

-- What a worker's copy of a job has to do with the row of that id, if there still is one.
abbrev pub IsCopyOf : Job → Job → Type 0
IsCopyOf f j = f.id ≡ j.id → (f.attempts ≤ j.attempts) × (f.max_attempts ≡ j.max_attempts)

pub record IsSound (s : System) : Type 0 where
  pub keyed : IsKeyed s.jobs
  pub fitting : (j : Job) → Memᴰ j s.jobs → IsFitting j
  pub copies : (f j : Job) → Memᴰ f s.in_flight → Memᴰ j s.jobs → IsCopyOf f j
