-- ===== src/Queue/Step.antt =====
-- The SQL statements that change the queue, in any interleaving of any number of workers: each
-- statement is atomic, and changes each row on its own.
use cred_trail.Prelude.{ℕ, Option, none, some, List, [], ◌∷◌, map, String}
use cred_trail.Queue.{Message}
use cred_trail.Queue.Lease.{lease_row, enqueue_job_queue_message, EnqueueInput}
use cred_trail.Queue.Finish.{complete_row, fail_row, FailInput}

pub data Statement : Type 0 where
  -- the UPDATE of one candidate, whatever was selected before
  lease_one : (token : String) (until now : ℕ) (id : String) → Statement
  complete_one : (id token : String) (now : ℕ) → Statement
  fail_one : FailInput → Statement

abbrev pub step_row : Statement → Message → Message
step_row (lease_one token until now id) = lease_row token until now id
step_row (complete_one id token now) = complete_row id token now
step_row (fail_one input) = fail_row input

-- A row after a sequence of statements.
unfoldable pub run_row : List Statement → Message → Message
run_row [] m = m
run_row (s ∷ ss) m = run_row ss (step_row s m)

pub data QueueEvent : Type 0 where
  change : Statement → QueueEvent
  enqueue : EnqueueInput → (id : String) → (now : ℕ) → QueueEvent

-- An INSERT that fails leaves the table.
abbrev pub inserted : List Message → Option (Message × List Message) → List Message
inserted rows none = rows
inserted rows (some x) = x.1

unfoldable pub step : QueueEvent → List Message → List Message
step (change s) rows = map (step_row s) rows
step (enqueue input id now) rows = inserted rows (enqueue_job_queue_message rows input id now)

unfoldable pub run_events : List QueueEvent → List Message → List Message
run_events [] rows = rows
run_events (e ∷ es) rows = run_events es (step e rows)
