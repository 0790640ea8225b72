-- ===== src/Queue/Process.antt =====
-- `createProcessQueuedJobs` of queue/processing.ts: one run leases messages, executes the job of
-- each and completes or fails it. What executes a job is a parameter, with the clock.
use cred_trail.Prelude.{
  ℕ, ◌+◌, ◌⊎◌, inl, inr, Option, none, some, List, [], ◌∷◌, String, or_else, ◌<>◌, length,
}
use cred_trail.Lifecycle.{Db}
use cred_trail.Queue.{JobType, MessageStatus, Message, pending, failed}
use cred_trail.Queue.Finish.{complete_job_queue_message, fail_job_queue_message}
use cred_trail.Queue.Lease.{lease_job_queue_messages, LeaseInput}
use cred_trail.Lifecycle.Revoke.{record_assertion_revocation, RevocationStatus}

pub record RunResult : Type 0 where
  pub leased : ℕ
  pub processed : ℕ
  pub succeeded : ℕ
  pub retried : ℕ
  pub dead_lettered : ℕ
  pub failed_to_finalize : ℕ

pub record ProcessConfig : Type 0 where
  pub limit : ℕ
  pub lease_seconds : ℕ
  pub retry_delay_seconds : ℕ

pub record ProcessRequest : Type 0 where
  pub limit : Option ℕ
  pub lease_seconds : Option ℕ
  pub retry_delay_seconds : Option ℕ

unfoldable pub process_queue_input_with_defaults : ProcessRequest → ProcessConfig
process_queue_input_with_defaults input = record {
  limit = or_else input.limit 10;
  lease_seconds = or_else input.lease_seconds 30;
  retry_delay_seconds = or_else input.retry_delay_seconds 30;
}

pub record IssueBadgeJob : Type 0 where
  pub tenant_id : String
  pub badge_template_id : String
  pub recipient_identity : String
  pub recipient_identity_type : String
  pub recipient_identifiers : List (String × String)
  pub idempotency_key : String
  pub requested_by_user_id : Option String

pub record RevokeBadgeJob : Type 0 where
  pub tenant_id : String
  pub revocation_id : String
  pub assertion_id : String
  pub reason : String
  pub idempotency_key : String
  pub requested_by_user_id : Option String

-- `Row` is the type of a row of an import.
pub record ImportJob (Row : Type 0) : Type 0 where
  pub tenant_id : String
  pub batch_id : String
  pub row_number : ℕ
  pub file_name : String
  pub format : String
  pub requested_at : String
  pub requested_by_user_id : Option String
  pub row : Row

pub data QueueJob (Row : Type 0) : Type 0 where
  issue_job : IssueBadgeJob → QueueJob Row
  revoke_job : RevokeBadgeJob → QueueJob Row
  noted_job : JobType → QueueJob Row  -- the two types that are only written to the log
  import_job : ImportJob Row → QueueJob Row

pub record AuditLog : Type 0 where
  pub tenant_id : String
  pub actor_user_id : Option String
  pub action : String
  pub target_id : String
  pub revocation_id : String
  pub reason : String
  pub status : RevocationStatus
  pub revoked_at : String

-- What the loop calls: a call returns the error that it throws, if it throws one.
pub record Dependencies (E : Type 0) : Type 1 where
  pub Json : Type 0
  pub Row : Type 0
  pub type_text : JobType → String
  pub parse_json : String → Option Json
  pub parse_queue_job : JobType → String → Json → String → String ⊎ QueueJob Row
  pub issue_badge_for_tenant : IssueBadgeJob → E → Option String × E
  pub create_audit_log : AuditLog → E → Option String × E
  pub apply_import : ImportJob Row → E → Option String × E
  pub now : E → ℕ
  pub now_iso : E → String

-- The tables of the assertions, and the rest of the world.
pub record World (E : Type 0) : Type 0 where
  pub db : Db
  pub env : E

module _ {E : Type 0} (deps : Dependencies E) where
  open deps use {
    Row, type_text, parse_json, parse_queue_job, issue_badge_for_tenant, create_audit_log,
    apply_import, now, now_iso,
  }

  unfoldable pub queue_job_from_message : Message → String ⊎ QueueJob Row
  queue_job_from_message m = elim (parse_json m.payload_json) [
    | none ↦ inl ("Invalid queue payload JSON for message type \"" <> type_text m.job_type <> "\"")
    | some payload ↦ parse_queue_job m.job_type m.tenant_id payload m.idempotency_key
  ]

  abbrev with_env : World E → Option String × E → Option String × World E
  with_env w x = (x.0, record w { env = x.1 })

  unfoldable pub process_revocation : RevokeBadgeJob → World E → Option String × World E
  process_revocation job w =
      elim (record_assertion_revocation w.db (record {
        tenant_id = job.tenant_id;
        assertion_id = job.assertion_id;
        revocation_id = job.revocation_id;
        reason = job.reason;
        idempotency_key = job.idempotency_key;
        revoked_by_user_id = job.requested_by_user_id;
        revoked_at = now_iso w.env;
      })) [
        | none ↦ (
          some (
              "Assertion \"" <> job.assertion_id <> "\" not found for tenant \"" <> job.tenant_id
              <> "\""),
          w,
        )
        | some answer ↦
            with_env (record w { db = answer.1 })
              (create_audit_log
                (record {
                  tenant_id = job.tenant_id;
                  actor_user_id = job.requested_by_user_id;
                  action = "assertion.revoked";
                  target_id = job.assertion_id;
                  revocation_id = job.revocation_id;
                  reason = job.reason;
                  status = answer.0.status;
                  revoked_at = answer.0.revoked_at;
                })
                w.env)
      ]

  unfoldable pub process_queued_job : QueueJob Row → World E → Option String × World E
  unfolding process_revocation
  process_queued_job (issue_job job) w = with_env w (issue_badge_for_tenant job w.env)
  process_queued_job (revoke_job job) w = process_revocation job w
  process_queued_job (noted_job type) w = (none, w)
  process_queued_job (import_job job) w = with_env w (apply_import job w.env)

  -- The try block, before the message is completed.
  unfoldable pub execute : Message → World E → Option String × World E
  unfolding queue_job_from_message process_queued_job
  execute m w = elim (queue_job_from_message m) [
    | inl error ↦ (some error, w)
    | inr job ↦ process_queued_job job w
  ]

  abbrev count_success : RunResult → RunResult
  count_success r = record r { processed = r.processed + 1; succeeded = r.succeeded + 1 }

  abbrev pub count_failure : Option MessageStatus → RunResult → RunResult
  count_failure (some failed) r = record r {
    processed = r.processed + 1;
    dead_lettered = r.dead_lettered + 1;
  }
  count_failure (some pending) r = record r { processed = r.processed + 1; retried = r.retried + 1 }
  count_failure _ r = record r {
    processed = r.processed + 1;
    failed_to_finalize = r.failed_to_finalize + 1;
  }

  pub record RunState : Type 0 where
    pub rows : List Message
    pub world : World E
    pub result : RunResult

  -- The completion, or the catch block.
  unfoldable pub finalize : ℕ → Message → String → RunState → Option String × World E → RunState
  finalize delay m token s (none, w) = record {
    rows = complete_job_queue_message s.rows m.id token (now w.env);
    world = w;
    result = count_success s.result;
  }
  finalize delay m token s (some detail, w) =
      let answer = fail_job_queue_message s.rows (record {
        id = m.id;
        lease_token = token;
        now = now w.env;
        error = detail;
        retry_delay_seconds = delay;
      }) in
      record { rows = answer.1; world = w; result = count_failure answer.0 s.result }

  unfoldable pub process_message : ℕ → Message → RunState → RunState
  unfolding execute finalize
  process_message delay m s = elim m.lease_token [
    | none ↦ record s {
      result = record s.result { failed_to_finalize = s.result.failed_to_finalize + 1 };
    }
    | some token ↦ finalize delay m token s (execute m s.world)
  ]

  unfoldable pub process_messages : ℕ → List Message → RunState → RunState
  process_messages delay [] s = s
  process_messages delay (m ∷ ms) s = process_messages delay ms (process_message delay m s)

  abbrev pub lease_input : ProcessConfig → World E → LeaseInput
  lease_input config w = record {
    limit = config.limit;
    lease_seconds = config.lease_seconds;
    now = now w.env;
  }

  abbrev pub started : List Message × List Message → World E → RunState
  started leased w = record {
    rows = leased.1;
    world = w;
    result = record {
      leased = length leased.0;
      processed = 0;
      succeeded = 0;
      retried = 0;
      dead_lettered = 0;
      failed_to_finalize = 0;
    };
  }

  unfoldable pub process_queued_jobs : ProcessConfig → String → List Message → World E → RunState
  process_queued_jobs config token rows w =
      let leased = lease_job_queue_messages rows (lease_input config w) token in
      process_messages config.retry_delay_seconds leased.0 (started leased w)
