-- ===== src/Queue/Valid.antt =====
-- The invariant of a row: its attempts, its token and its lease, against its status.
use cred_trail.Prelude.{
  ℕ, ◌≤◌, ◌<◌, ◌≡◌, refl, Bool, true, false, ◌&&◌, ◌||◌, List, [], ◌∷◌, arith, String, str_eq, leb,
  ◌==◌, ltb→lt, leb→le, is_some, if-elim, and_right, any, All, All-append, All-map,
}
use cred_trail.Queue.{Message, processing, failed, MessageStatus}
use cred_trail.Queue.Finish.{fails, is_held}
use cred_trail.Queue.Lease.{is_due, new_message, is_taken, enqueue_job_queue_message, EnqueueInput}
use cred_trail.Queue.Step.{
  change, enqueue, inserted, Statement, step_row, lease_one, complete_one, fail_one, step,
  run_events, QueueEvent,
}
use cred_trail.Queue.Finish.{complete_row, fail_row, FailInput}
use cred_trail.Queue.Lease.{is_due, take_lease, lease_row}

abbrev pub is_processing : MessageStatus → Bool
is_processing processing = true
is_processing _ = false

abbrev pub IsValid : Message → Type 0
IsValid m =
    (m.attempt_count ≤ m.max_attempts)
    × (is_some m.lease_token ≡ is_processing m.status)
    × (is_some m.leased_until ≡ is_processing m.status)
    × (m.status ≡ failed → m.attempt_count ≡ m.max_attempts)

pub is_due-attempts :
    (now : ℕ) (m : Message) → is_due now m ≡ true → m.attempt_count < m.max_attempts
is_due-attempts now m due =
    ltb→lt m.attempt_count m.max_attempts (and_right _ _ (and_right (leb m.available_at now) _ due))

take_lease-IsValid :
    (token : String) (until now : ℕ) (m : Message)
    → is_due now m ≡ true
    → IsValid (take_lease token until now m)
take_lease-IsValid token until now m due =
    let left = is_due-attempts now m due in (omega arith, refl, refl, λ e. cc)

fails-IsValid : (input : FailInput) (m : Message) → IsValid m → IsValid (fails input m)
fails-IsValid input m h =
    if-elim IsValid (leb m.max_attempts m.attempt_count)
      (λ spent.
        let le = leb→le m.max_attempts m.attempt_count spent in
        (h.0, refl, refl, λ e. omega (arith, h.0)))
      (λ left. (h.0, refl, refl, λ e. cc))

pub step_row-IsValid : (s : Statement) (m : Message) → IsValid m → IsValid (step_row s m)
unfolding lease_row complete_row fail_row
step_row-IsValid (lease_one token until now id) m h =
    if-elim IsValid (str_eq m.id id && is_due now m)
      (λ e. take_lease-IsValid token until now m (and_right (str_eq m.id id) _ e)) (λ e. h)
step_row-IsValid (complete_one id token now) m h =
    if-elim IsValid (is_held id token m) (λ e. (h.0, refl, refl, λ f. cc)) (λ e. h)
step_row-IsValid (fail_one input) m h =
    if-elim IsValid (is_held input.id input.lease_token m) (λ e. fails-IsValid input m h) (λ e. h)

enqueue-IsValid :
    (input : EnqueueInput) (id : String) (now : ℕ) (rows : List Message)
    → All IsValid rows
    → All IsValid (inserted rows (enqueue_job_queue_message rows input id now))
unfolding enqueue_job_queue_message new_message
enqueue-IsValid input id now rows held =
    if-elim (λ o. All IsValid (inserted rows o))
      ((new_message input id now).max_attempts == 0
        || any (is_taken (new_message input id now)) rows)
      (λ e. held) (λ e. All-append IsValid rows _ held ((omega arith, refl, refl, λ f. cc), tt))

-- However the statements of the workers interleave, every row of the queue stays valid: no more
-- attempts than its maximum, a token and a lease exactly while it is in processing, and the
-- failed status only with the attempts used up.
pub run_events-IsValid :
    (es : List QueueEvent) (rows : List Message)
    → All IsValid rows
    → All IsValid (run_events es rows)
unfolding step run_events
run_events-IsValid [] rows held = held
run_events-IsValid (change s ∷ es) rows held =
    run_events-IsValid es _ (All-map IsValid IsValid (step_row s) rows (step_row-IsValid s) held)
run_events-IsValid (enqueue input id now ∷ es) rows held =
    run_events-IsValid es _ (enqueue-IsValid input id now rows held)
