-- ===== src/Queue.antt =====
-- The job queue kept in the table `job_queue_messages`: packages/db/src/index.ts (enqueue, lease,
-- complete, fail) and apps/api-worker/src/queue/processing.ts. A timestamp of the queue is its
-- number of milliseconds; all of them are written by `toISOString`, whose order is theirs.
pub mod Lease
pub mod Finish
pub mod Process
pub mod Step
pub mod Valid
pub mod Exclusive
pub mod Attempts
pub mod Counts
pub mod Settled
pub mod Retry
mod Tests
use cred_trail.Prelude.{ℕ, ◌+◌, ◌*◌, Bool, true, false, Option, none, some, String, str_eq}

pub data JobType : Type 0 where
  issue_badge revoke_badge rebuild_verification_cache import_migration_batch
        import_learner_record_batch :
      JobType

pub data MessageStatus : Type 0 where
  pending processing completed failed : MessageStatus

pub record Message : Type 0 where
  pub id : String
  pub tenant_id : String
  pub job_type : JobType
  pub payload_json : String
  pub idempotency_key : String
  pub attempt_count : ℕ
  pub max_attempts : ℕ
  pub available_at : ℕ
  pub leased_until : Option ℕ
  pub lease_token : Option String
  pub last_error : Option String
  pub completed_at : Option ℕ
  pub failed_at : Option ℕ
  pub status : MessageStatus
  pub created_at : ℕ
  pub updated_at : ℕ

-- `addSecondsToIso`, on a valid timestamp.
abbrev pub add_seconds : ℕ → ℕ → ℕ
add_seconds from seconds = from + seconds * 1000

abbrev pub is_open : MessageStatus → Bool
is_open pending = true
is_open processing = true
is_open completed = false
is_open failed = false

-- `lease_token = ?`
abbrev pub holds_token : Option String → String → Bool
holds_token none token = false
holds_token (some held) token = str_eq held token
