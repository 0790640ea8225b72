-- ===== src/Queue/Tests.antt =====
-- One message of the queue, runs of the statements on it, and the instances of the theorems.
use cred_trail.Prelude.{
  ℕ, ◌+◌, ◌≤◌, ◌≡◌, refl, inl, true, false, false≢true, Option, none, some, List, [], ◌∷◌, arith,
  String, str_eq, eq_iff, All,
}
use cred_trail.Queue.{
  Message, issue_badge, pending, processing, failed, completed, holds_token, MessageStatus,
}
use cred_trail.Queue.Exclusive.{
  run_row-foreign, run_row-failed, run_row-abandoned, lease_row-completed,
}
use cred_trail.Queue.Step.{change, lease_one, fail_one, run_row, run_events, Statement}
use cred_trail.Queue.Process.{Dependencies, ProcessConfig, process_queued_jobs, World}
use cred_trail.Queue.Retry.{Attempt, attempts, attempts-status}
use cred_trail.Queue.Attempts.{leases_taken, leases_taken_bound}
use cred_trail.Queue.Finish.{complete_row, fail_row, FailInput}
use cred_trail.Queue.Settled.{process_queued_jobs-settled}
use cred_trail.Queue.Lease.{lease_row}
use cred_trail.Queue.Counts.{process_queued_jobs-counts}
use cred_trail.Queue.Valid.{IsValid, run_events-IsValid}

abbrev message : ℕ → Option ℕ → Option String → MessageStatus → Message
message tries until token status = record {
  id = "job_1";
  tenant_id = "t";
  job_type = issue_badge;
  payload_json = "{}";
  idempotency_key = "k";
  attempt_count = tries;
  max_attempts = 3;
  available_at = 10;
  leased_until = until;
  lease_token = token;
  last_error = none;
  completed_at = none;
  failed_at = none;
  status = status;
  created_at = 10;
  updated_at = 10;
}

abbrev waiting : Message
waiting = message 0 none none pending

abbrev leased : Message
leased = message 1 (some 100) (some "a") processing

abbrev failure : String → FailInput
failure token = record {
  id = "job_1";
  lease_token = token;
  now = 60;
  error = "broken";
  retry_delay_seconds = 30;
}

waiting-IsValid : IsValid waiting
waiting-IsValid = (omega arith, refl, refl, λ e. cc)

abbrev statements : List Statement
statements =
    lease_one "a" 100 50 "job_1" ∷ fail_one (failure "a") ∷ lease_one "b" 90000 40000 "job_1" ∷ []

two_leases : leases_taken statements waiting ≡ 2
unfolding leases_taken lease_row fail_row
two_leases = refl

b≢a : ◌≡◌ {A = String} "b" "a" → ⊥
b≢a e = let no : str_eq "b" "a" ≡ true = (eq_iff "b" "a").1 e in false≢true no

run_events-IsValid_example :
    All IsValid (run_events (change (lease_one "a" 100 50 "job_1") ∷ []) (waiting ∷ []))
run_events-IsValid_example =
    run_events-IsValid (change (lease_one "a" 100 50 "job_1") ∷ []) (waiting ∷ [])
      (waiting-IsValid, tt)

run_row-foreign_example :
    run_row (lease_one "b" 200 50 "job_1" ∷ fail_one (failure "b") ∷ []) leased ≡ leased
run_row-foreign_example =
    run_row-foreign "a" 100 (lease_one "b" 200 50 "job_1" ∷ fail_one (failure "b") ∷ []) leased refl
      refl (omega arith, (b≢a, tt))

run_row-failed_example :
    run_row statements (message 3 none none failed) ≡ message 3 none none failed
run_row-failed_example =
    run_row-failed statements (message 3 none none failed) (omega arith, refl, refl, λ e. refl) refl

run_row-abandoned_example :
    run_row (lease_one "b" 900 500 "job_1" ∷ []) (message 3 (some 100) (some "a") processing)
    ≡ message 3 (some 100) (some "a") processing
run_row-abandoned_example =
    run_row-abandoned "a" (lease_one "b" 900 500 "job_1" ∷ [])
      (message 3 (some 100) (some "a") processing) refl refl (tt, tt)

lease_row-completed_example :
    let after = complete_row "job_1" "b" 60 (lease_row "b" 100 50 "job_1" waiting) in
    (after.status ≡ completed)
    × ((lease_row "a" 100 50 "job_1" after).status ≡ processing)
    × ((lease_row "a" 100 50 "job_1" after).lease_token ≡ some "a")
lease_row-completed_example =
    lease_row-completed "a" "b" "job_1" 100 100 50 50 60 waiting refl refl refl (omega arith)

leases_taken_bound_example : leases_taken statements waiting + 0 ≤ 3
leases_taken_bound_example = leases_taken_bound statements waiting waiting-IsValid

abbrev try : Attempt
try = record { token = "a"; lease_seconds = 30; error = "broken"; retry_delay_seconds = 30 }

attempts-status_example : (attempts (try ∷ try ∷ try ∷ []) waiting).status ≡ failed
attempts-status_example =
    attempts-status (try ∷ try ∷ try ∷ []) waiting refl refl (omega arith) (omega arith)

abbrev dependencies : Dependencies ℕ
dependencies = record {
  Json = Unit;
  Row = Unit;
  type_text = λ t. "issue_badge";
  parse_json = λ s. none;
  parse_queue_job = λ t tenant json key. inl "unknown";
  issue_badge_for_tenant = λ job e. (none, e);
  create_audit_log = λ log e. (none, e);
  apply_import = λ job e. (none, e);
  now = λ e. e;
  now_iso = λ e. "now";
}

abbrev config : ProcessConfig
config = record { limit = 10; lease_seconds = 30; retry_delay_seconds = 30 }

abbrev world : World ℕ
world = record { db = record { assertions = []; events = []; revocations = [] }; env = 50 }

process_queued_jobs-counts_example :
    let r = (process_queued_jobs dependencies config "a" (waiting ∷ []) world).result in
    (r.processed ≡ r.leased)
    × (r.succeeded + r.retried + r.dead_lettered + r.failed_to_finalize ≡ r.leased)
process_queued_jobs-counts_example =
    process_queued_jobs-counts dependencies config "a" (waiting ∷ []) world

process_queued_jobs-settled_example :
    All
      (λ m. holds_token m.lease_token "a" ≡ false)
      (process_queued_jobs dependencies config "a" (waiting ∷ []) world).rows
process_queued_jobs-settled_example =
    process_queued_jobs-settled dependencies config "a" (waiting ∷ []) world
