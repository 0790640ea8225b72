-- ===== src/Queue/Finish.antt =====
-- `completeJobQueueMessage` and `failJobQueueMessage`: both take effect only with the token of the
-- lease.
use cred_trail.Prelude.{
  ℕ, Bool, ◌&&◌, Option, none, some, List, map, String, str_eq, leb, if◌then◌else◌, is_some, find,
}
use cred_trail.Queue.{Message, add_seconds, holds_token, MessageStatus, pending, completed, failed}

abbrev pub completes : ℕ → Message → Message
completes now m = record m {
  status = completed;
  leased_until = none;
  lease_token = none;
  last_error = none;
  completed_at = some now;
  updated_at = now;
}

abbrev pub is_held : String → String → Message → Bool
is_held id token m = str_eq m.id id && holds_token m.lease_token token

unfoldable pub complete_row : String → String → ℕ → Message → Message
complete_row id token now m = if is_held id token m then completes now m else m

unfoldable pub complete_job_queue_message : List Message → String → String → ℕ → List Message
complete_job_queue_message rows id token now = map (complete_row id token now) rows

pub record FailInput : Type 0 where
  pub id : String
  pub lease_token : String
  pub now : ℕ
  pub error : String
  pub retry_delay_seconds : ℕ

-- The CASE expressions: a message with no attempt left fails, any other waits for its retry.
abbrev pub fails : FailInput → Message → Message
fails input m =
    if leb m.max_attempts m.attempt_count
    then record m {
      status = failed;
      leased_until = none;
      lease_token = none;
      last_error = some input.error;
      failed_at = some input.now;
      updated_at = input.now;
    }
    else record m {
      status = pending;
      available_at = add_seconds input.now input.retry_delay_seconds;
      leased_until = none;
      lease_token = none;
      last_error = some input.error;
      failed_at = none;
      updated_at = input.now;
    }

unfoldable pub fail_row : FailInput → Message → Message
fail_row input m = if is_held input.id input.lease_token m then fails input m else m

-- The status that is read back, when the row exists and nobody holds it.
abbrev read_status : Option Message → Option MessageStatus
read_status none = none
read_status (some m) = if is_some m.lease_token then none else some m.status

unfoldable pub fail_job_queue_message :
    List Message → FailInput → Option MessageStatus × List Message
fail_job_queue_message rows input =
    let after = map (fail_row input) rows in
    (read_status (find (λ m. str_eq m.id input.id) after), after)
