-- ===== src/Jobs/Settled.antt =====
-- The jobs of a worker after its turn.
use publaryn.Prelude.{ℕ, ◌≡◌, ◌⊎◌, List, Memᴰ}
use publaryn.Domain.Job.{JobStatus, Payload, Job}
use publaryn.Db.{Db}
use publaryn.Jobs.Worker.{Handler}

-- A handler touches no job but to enqueue: what it leaves was there, or is pending.
abbrev pub IsQuiet : Handler → Type 0
IsQuiet handler =
    (payload : Payload) (db : Db) (y : Job)
    → Memᴰ y (handler payload db).1.background_jobs
    → Memᴰ y db.background_jobs ⊎ (y.status ≡ JobStatus.pending)

abbrev pub IsAtRest : JobStatus → Type 0
IsAtRest s = (s ≡ JobStatus.completed) ⊎ ((s ≡ JobStatus.pending) ⊎ (s ≡ JobStatus.dead))

-- Every job with this id is completed, pending or dead.
abbrev pub IsSettled : ℕ → List Job → Type 0
IsSettled k jobs = (y : Job) → Memᴰ y jobs → y.id ≡ k → IsAtRest y.status
