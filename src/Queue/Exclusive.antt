-- ===== src/Queue/Exclusive.antt =====
-- Held, abandoned, failed and completed messages under the statements of other workers.
use cred_trail.Prelude.{
  ℕ, ◌+◌, ◌≤◌, ◌<◌, ◌≡◌, refl, sym, ap, ◌∙◌, ◌≢◌, inl, inr, true, false, ◌&&◌, false≢true, Option,
  none, some, List, [], ◌∷◌, arith, String, str_eq, eq_iff, eq_refl, ltb, leb, lt→ltb, Bool-cases,
  is_some, and_left, and_right, and_refused, leb-gt, ltb-ge, All,
}
use cred_trail.Queue.{Message, processing, completed, failed, is_open, holds_token}
use cred_trail.Queue.Step.{Statement, lease_one, complete_one, fail_one, step_row, run_row}
use cred_trail.Queue.Lease.{is_due, lease_row, is_candidate, take_lease}
use cred_trail.Queue.Finish.{is_held, complete_row, fail_row, FailInput, completes}
use cred_trail.Queue.Valid.{IsValid, is_processing}

-- A statement of another worker, while the lease that ends at `until` runs.
abbrev pub IsForeign : String → ℕ → Statement → Type 0
IsForeign token until (lease_one t u now id) = now < until
IsForeign token until (complete_one id t now) = t ≢ token
IsForeign token until (fail_one input) = input.lease_token ≢ token

not_due :
    (now until : ℕ) (m : Message) → m.leased_until ≡ some until → now < until → is_due now m ≡ false
not_due now until m lease early =
    and_refused (leb m.available_at now) _
      (rw (lease) (ap (λ b. b && ltb m.attempt_count m.max_attempts) (leb-gt until now early)))

not_held :
    (id t token : String) (m : Message)
    → m.lease_token ≡ some token
    → t ≢ token
    → is_held id t m ≡ false
not_held id t token m holder other = and_refused (str_eq m.id id) _ (
    rw (holder) (elim (Bool-cases (str_eq token t)) [
      | inl same ↦ absurd (other (sym ((eq_iff token t).0 same)))
      | inr differ ↦ differ
    ]))

pub spent_not_due :
    (now : ℕ) (m : Message) → m.max_attempts ≤ m.attempt_count → is_due now m ≡ false
spent_not_due now m spent =
    and_refused (leb m.available_at now) _
      (and_refused _ _ (ltb-ge m.attempt_count m.max_attempts spent))

lease_row-not_due :
    (token : String) (until now : ℕ) (id : String) (m : Message)
    → is_due now m ≡ false
    → lease_row token until now id m ≡ m
unfolding lease_row
lease_row-not_due token until now id m e = rw (and_refused (str_eq m.id id) (is_due now m) e) refl

complete_row-not_held :
    (id token : String) (now : ℕ) (m : Message)
    → is_held id token m ≡ false
    → complete_row id token now m ≡ m
unfolding complete_row
complete_row-not_held id token now m e = rw (e) refl

fail_row-not_held :
    (input : FailInput) (m : Message)
    → is_held input.id input.lease_token m ≡ false
    → fail_row input m ≡ m
unfolding fail_row
fail_row-not_held input m e = rw (e) refl

foreign_row :
    (token : String) (until : ℕ) (s : Statement) (m : Message)
    → m.lease_token ≡ some token
    → m.leased_until ≡ some until
    → IsForeign token until s
    → step_row s m ≡ m
foreign_row token until (lease_one t u now id) m holder lease early =
    lease_row-not_due t u now id m (not_due now until m lease early)
foreign_row token until (complete_one id t now) m holder lease other =
    complete_row-not_held id t now m (not_held id t token m holder other)
foreign_row token until (fail_one input) m holder lease other =
    fail_row-not_held input m (not_held input.id input.lease_token token m holder other)

-- Until its lease expires, a leased message is as its holder left it: no sequence of leases,
-- completions and failures of workers with other tokens changes any field of it.
pub run_row-foreign :
    (token : String) (until : ℕ) (ss : List Statement) (m : Message)
    → m.lease_token ≡ some token
    → m.leased_until ≡ some until
    → All (IsForeign token until) ss
    → run_row ss m ≡ m
unfolding run_row
run_row-foreign token until [] m holder lease h = refl
run_row-foreign token until (s ∷ ss) m holder lease h =
    rw (foreign_row token until s m holder lease h.0)
      (run_row-foreign token until ss m holder lease h.1)

unheld : (o : Option String) (t : String) → is_some o ≡ false → holds_token o t ≡ false
unheld none t h = refl
unheld (some x) t h = absurd (false≢true (sym h))

no_holder : (id t : String) (m : Message) → IsValid m → m.status ≡ failed → is_held id t m ≡ false
no_holder id t m h e =
    and_refused (str_eq m.id id) _ (unheld m.lease_token t (h.1 ∙ ap is_processing e))

failed_row : (s : Statement) (m : Message) → IsValid m → m.status ≡ failed → step_row s m ≡ m
failed_row (lease_one t u now id) m h e =
    let spent = h.3 e in lease_row-not_due t u now id m (spent_not_due now m (omega arith))
failed_row (complete_one id t now) m h e = complete_row-not_held id t now m (no_holder id t m h e)
failed_row (fail_one input) m h e =
    fail_row-not_held input m (no_holder input.id input.lease_token m h e)

-- The failed status is final for the workers: no sequence of leases, completions and failures
-- changes a valid row that has it.
pub run_row-failed :
    (ss : List Statement) (m : Message) → IsValid m → m.status ≡ failed → run_row ss m ≡ m
unfolding run_row
run_row-failed [] m h e = refl
run_row-failed (s ∷ ss) m h e = rw (failed_row s m h e) (run_row-failed ss m h e)

-- Whether a statement is a completion or a failure by the holder of a token.
abbrev pub NotFinishedBy : String → Statement → Type 0
NotFinishedBy token (lease_one t u now id) = Unit
NotFinishedBy token (complete_one id t now) = t ≢ token
NotFinishedBy token (fail_one input) = input.lease_token ≢ token

abandoned_row :
    (token : String) (s : Statement) (m : Message)
    → m.lease_token ≡ some token
    → m.attempt_count ≡ m.max_attempts
    → NotFinishedBy token s
    → step_row s m ≡ m
abandoned_row token (lease_one t u now id) m holder spent h =
    lease_row-not_due t u now id m (spent_not_due now m (omega arith))
abandoned_row token (complete_one id t now) m holder spent h =
    complete_row-not_held id t now m (not_held id t token m holder h)
abandoned_row token (fail_one input) m holder spent h =
    fail_row-not_held input m (not_held input.id input.lease_token token m holder h)

-- A message that is leased for its last attempt keeps its row, even after its lease expired, unless
-- the holder of its token finishes it: no other lease, completion or failure changes it.
pub run_row-abandoned :
    (token : String) (ss : List Statement) (m : Message)
    → m.lease_token ≡ some token
    → m.attempt_count ≡ m.max_attempts
    → All (NotFinishedBy token) ss
    → run_row ss m ≡ m
unfolding run_row
run_row-abandoned token [] m holder spent h = refl
run_row-abandoned token (s ∷ ss) m holder spent h =
    rw (abandoned_row token s m holder spent h.0) (run_row-abandoned token ss m holder spent h.1)

pub lease_row-due :
    (token : String) (until now : ℕ) (id : String) (m : Message)
    → m.id ≡ id
    → is_due now m ≡ true
    → lease_row token until now id m ≡ take_lease token until now m
unfolding lease_row
lease_row-due token until now id m same due = rw ((eq_iff m.id id).1 same, due) refl

pub is_held-true :
    (id token : String) (m : Message)
    → m.id ≡ id
    → m.lease_token ≡ some token
    → is_held id token m ≡ true
is_held-true id token m same holder = rw ((eq_iff m.id id).1 same, holder) (eq_refl token)

complete_row-held :
    (id token : String) (now : ℕ) (m : Message)
    → is_held id token m ≡ true
    → complete_row id token now m ≡ completes now m
unfolding complete_row
complete_row-held id token now m e = rw (e) refl

due_after :
    (b : String) (until₂ now₁ now₂ done : ℕ) (m : Message)
    → is_due now₁ m ≡ true
    → m.attempt_count + 1 < m.max_attempts
    → is_due now₁ (completes done (take_lease b until₂ now₂ m)) ≡ true
due_after b until₂ now₁ now₂ done m due left =
    rw (and_left (leb m.available_at now₁) _ due) (lt→ltb (m.attempt_count + 1) m.max_attempts left)

-- A message that one worker selected, and that another worker then leased and completed while it
-- had an attempt left, is leased again by the first worker: it goes from completed back to
-- processing, with the first worker's token.
pub lease_row-completed :
    (a b id : String) (until₁ until₂ now₁ now₂ done : ℕ) (m : Message)
    → m.id ≡ id
    → is_candidate now₁ m ≡ true
    → is_due now₂ m ≡ true
    → m.attempt_count + 1 < m.max_attempts
    → let after = complete_row id b done (lease_row b until₂ now₂ id m) in
      (after.status ≡ completed)
      × ((lease_row a until₁ now₁ id after).status ≡ processing)
      × ((lease_row a until₁ now₁ id after).lease_token ≡ some a)
lease_row-completed a b id until₁ until₂ now₁ now₂ done m same candidate due left =
    let due₁ = and_right (is_open m.status) _ candidate in
    let leased = take_lease b until₂ now₂ m in
    let after = completes done leased in
    let held = is_held-true id b leased same refl in
    let again = due_after b until₂ now₁ now₂ done m due₁ left in
    rw
      (
        lease_row-due b until₂ now₂ id m same due,
        complete_row-held id b done leased held,
        lease_row-due a until₁ now₁ id after same again,
      )
      (refl, refl, refl)
