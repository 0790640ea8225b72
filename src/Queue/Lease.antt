-- ===== src/Queue/Lease.antt =====
-- `enqueueJobQueueMessage` and `leaseJobQueueMessages`, a function for each SQL statement.
use cred_trail.Prelude.{
  ℕ, ◌+◌, Bool, true, false, ◌&&◌, ◌||◌, Option, none, some, List, [], ◌∷◌, ◌++◌, map, String,
  str_eq, ltb, leb, ◌==◌, if◌then◌else◌, or_else, take, any, keep,
}
use cred_trail.Queue.{
  issue_badge, revoke_badge, rebuild_verification_cache, import_migration_batch,
  import_learner_record_batch, Message, add_seconds, is_open, holds_token, JobType,
  import_learner_record_batch, pending, processing,
}

pub record EnqueueInput : Type 0 where
  pub tenant_id : String
  pub job_type : JobType
  pub payload_json : String  -- `JSON.stringify(payload)`
  pub idempotency_key : String
  pub max_attempts : Option ℕ

unfoldable pub new_message : EnqueueInput → String → ℕ → Message
new_message input id now = record {
  id = id;
  tenant_id = input.tenant_id;
  job_type = input.job_type;
  payload_json = input.payload_json;
  idempotency_key = input.idempotency_key;
  attempt_count = 0;
  max_attempts = or_else input.max_attempts 8;
  available_at = now;
  leased_until = none;
  lease_token = none;
  last_error = none;
  completed_at = none;
  failed_at = none;
  status = pending;
  created_at = now;
  updated_at = now;
}

abbrev same_type : JobType → JobType → Bool
same_type issue_badge issue_badge = true
same_type revoke_badge revoke_badge = true
same_type rebuild_verification_cache rebuild_verification_cache = true
same_type import_migration_batch import_migration_batch = true
same_type import_learner_record_batch import_learner_record_batch = true
same_type _ _ = false

-- The primary key, and the unique key of tenant, type and idempotency key.
pub is_taken : Message → Message → Bool
is_taken new m =
    str_eq m.id new.id
    || (str_eq m.tenant_id new.tenant_id
        && (same_type m.job_type new.job_type && str_eq m.idempotency_key new.idempotency_key))

-- `none` is the error of a unique key that is taken, or of `max_attempts > 0`.
unfoldable pub enqueue_job_queue_message :
    List Message → EnqueueInput → String → ℕ → Option (Message × List Message)
enqueue_job_queue_message rows input id now =
    let new = new_message input id now in
    if new.max_attempts == 0 || any (is_taken new) rows
    then none
    else some (new, rows ++ (new ∷ []))

-- `available_at <= ? AND (leased_until IS NULL OR leased_until <= ?) AND attempt_count < max_attempts`
abbrev lease_over : ℕ → Option ℕ → Bool
lease_over now none = true
lease_over now (some until) = leb until now

abbrev pub is_due : ℕ → Message → Bool
is_due now m =
    leb m.available_at now && (lease_over now m.leased_until && ltb m.attempt_count m.max_attempts)

-- The SELECT of the candidates, before its order and its limit.
abbrev pub is_candidate : ℕ → Message → Bool
is_candidate now m = is_open m.status && is_due now m

abbrev pub take_lease : String → ℕ → ℕ → Message → Message
take_lease token until now m = record m {
  status = processing;
  attempt_count = m.attempt_count + 1;
  leased_until = some until;
  lease_token = some token;
  updated_at = now;
}

-- The UPDATE of one candidate: it reads no status.
unfoldable pub lease_row : String → ℕ → ℕ → String → Message → Message
lease_row token until now id m =
    if str_eq m.id id && is_due now m then take_lease token until now m else m

unfoldable pub lease_all : String → ℕ → ℕ → List String → List Message → List Message
lease_all token until now [] rows = rows
lease_all token until now (id ∷ ids) rows =
    lease_all token until now ids (map (lease_row token until now id) rows)

-- `ORDER BY created_at`: a sort by insertion, rows of one instant in the order of the table.
abbrev pub insert_row : Message → List Message → List Message
insert_row m [] = m ∷ []
insert_row m (x ∷ xs) = if leb m.created_at x.created_at then m ∷ x ∷ xs else x ∷ insert_row m xs

unfoldable pub by_created : List Message → List Message
by_created [] = []
by_created (m ∷ ms) = insert_row m (by_created ms)

pub record LeaseInput : Type 0 where
  pub limit : ℕ
  pub lease_seconds : ℕ
  pub now : ℕ

unfoldable pub lease_candidates : List Message → LeaseInput → List String
lease_candidates rows input =
    map (λ m. m.id) (take input.limit (by_created (keep (is_candidate input.now) rows)))

-- The messages leased, and the table after. The token is new.
unfoldable pub lease_job_queue_messages :
    List Message → LeaseInput → String → List Message × List Message
lease_job_queue_messages rows input token =
    let until = add_seconds input.now input.lease_seconds in
    let leased = lease_all token until input.now (lease_candidates rows input) rows in
    (by_created (keep (λ m. holds_token m.lease_token token) leased), leased)
