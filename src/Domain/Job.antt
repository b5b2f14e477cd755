-- ===== src/Domain/Job.antt =====
-- `JobKind`, `JobStatus` and `Job` of crates/workers/src/queue.rs, and `ScanArtifactPayload` of
-- crates/workers/src/scanners.rs. The JSON payload of a job is the value that it decodes to.
use publaryn.Prelude.{ℕ, String, Bool, true, false, Option}

pub data JobKind : Type 0 where
  scan_artifact index_package deliver_webhook cleanup_expired_tokens cleanup_oci_blobs
        reindex_search :
      JobKind

pub data JobStatus : Type 0 where
  pending running completed failed dead : JobStatus

pub record ScanArtifactPayload : Type 0 where
  pub release_id : ℕ
  pub artifact_id : ℕ
  pub storage_key : String
  pub filename : String
  pub ecosystem : String

-- A payload that decodes as neither of the first two is `other`.
pub data Payload : Type 0 where
  scan : ScanArtifactPayload → Payload
  reindex : (package_id : ℕ) → Payload
  other : String → Payload

pub record Job : Type 0 where
  pub id : ℕ
  pub kind : JobKind
  pub payload : Payload
  pub status : JobStatus
  pub attempts : ℕ
  pub max_attempts : ℕ
  pub last_error : Option String
  pub scheduled_at : ℕ
  pub locked_until : Option ℕ
  pub locked_by : Option String
  pub started_at : Option ℕ
  pub completed_at : Option ℕ
  pub created_at : ℕ

abbrev pub is_pending : JobStatus → Bool
is_pending JobStatus.pending = true
is_pending _ = false

abbrev pub is_running : JobStatus → Bool
is_running JobStatus.running = true
is_running _ = false

-- `status IN ('completed', 'dead')`.
abbrev pub is_finished : JobStatus → Bool
is_finished JobStatus.completed = true
is_finished JobStatus.dead = true
is_finished _ = false

abbrev pub is_scan : JobKind → Bool
is_scan JobKind.scan_artifact = true
is_scan _ = false

abbrev pub is_completed : JobStatus → Bool
is_completed JobStatus.completed = true
is_completed _ = false

abbrev pub is_failed : JobStatus → Bool
is_failed JobStatus.failed = true
is_failed _ = false

abbrev pub is_dead : JobStatus → Bool
is_dead JobStatus.dead = true
is_dead _ = false
