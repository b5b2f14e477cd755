-- ===== src/Jobs/Worker.antt =====
-- `poll_and_process` of crates/workers/src/worker.rs. The handlers are an argument: for a kind,
-- the function that is registered for it, which may change the database.
use publaryn.Prelude.{ℕ, String, Bool, Option, none, some, List, [], ◌∷◌}
use publaryn.Domain.Job.{
  JobKind, Payload, Job, scan_artifact, index_package, deliver_webhook, cleanup_expired_tokens,
  cleanup_oci_blobs, reindex_search,
}
use publaryn.Db.{Db}
use publaryn.Jobs.Queue.{claim_jobs, complete_job, fail_job}

-- `Result<(), String>`, `none` for `Ok(())`, and the database that the handler leaves.
abbrev pub Handler : Type 0
Handler = Payload → Db → Option String × Db

abbrev pub Handlers : Type 0
Handlers = JobKind → Option Handler

unfoldable pub no_handler_message : JobKind → String
no_handler_message scan_artifact = "No handler registered for job kind ScanArtifact"
no_handler_message index_package = "No handler registered for job kind IndexPackage"
no_handler_message deliver_webhook = "No handler registered for job kind DeliverWebhook"
no_handler_message cleanup_expired_tokens =
    "No handler registered for job kind CleanupExpiredTokens"
no_handler_message cleanup_oci_blobs = "No handler registered for job kind CleanupOciBlobs"
no_handler_message reindex_search = "No handler registered for job kind ReindexSearch"

abbrev pub with_jobs : Db → List Job → Db
with_jobs db jobs = record db { background_jobs = jobs }

unfoldable pub record_failure : Job → String → ℕ → Db → Db
record_failure job error now db =
    with_jobs db (fail_job db.background_jobs job.id error job.attempts job.max_attempts now)

-- What follows a handler's run.
unfoldable pub record_outcome : Job → ℕ → Option String × Db → Db
unfolding record_failure
record_outcome job now (none, db) = with_jobs db (complete_job db.background_jobs job.id now)
record_outcome job now (some error, db) = record_failure job error now db

unfoldable pub process_with : Option Handler → Job → ℕ → Db → Db
unfolding record_outcome record_failure
process_with none job now db = record_failure job (no_handler_message job.kind) now db
process_with (some handler) job now db = record_outcome job now (handler job.payload db)

-- The loop over the claimed jobs; `finished_at` gives the time at which a job's end is recorded.
unfoldable pub process_all : Handlers → (ℕ → ℕ) → List Job → Db → Db
unfolding process_with
process_all handlers finished_at [] db = db
process_all handlers finished_at (job ∷ jobs) db =
    process_all handlers finished_at jobs
      (process_with (handlers job.kind) job (finished_at job.id) db)

unfoldable pub poll_and_process : Handlers → (ℕ → ℕ) → (ℕ → Bool) → String → ℕ → ℕ → ℕ → Db → Db
unfolding process_all
poll_and_process handlers finished_at locked worker_id batch_size lock_duration_seconds now db =
    let (jobs, claimed) =
      claim_jobs db.background_jobs locked worker_id batch_size lock_duration_seconds now in
    process_all handlers finished_at claimed (with_jobs db jobs)
