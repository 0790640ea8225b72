-- ===== src/Queue/Attempts.antt =====
-- The leases that a message gets, counted over the statements of all workers.
use cred_trail.Prelude.{
  ℕ, suc, ◌+◌, ◌≤◌, ◌≡◌, refl, ap, ◌∙◌, inl, inr, Bool, true, false, ◌&&◌, List, [], ◌∷◌, arith,
  str_eq, leb, if◌then◌else◌, Bool-cases, if-elim, ap-if,
}
use cred_trail.Queue.{Message}
use cred_trail.Queue.Step.{Statement, lease_one, complete_one, fail_one, step_row, run_row}
use cred_trail.Queue.Valid.{IsValid, step_row-IsValid}
use cred_trail.Queue.Finish.{is_held, complete_row, fail_row}
use cred_trail.Queue.Lease.{is_due, lease_row}

-- Whether a statement takes the lease of a row.
abbrev takes_lease : Statement → Message → Bool
takes_lease (lease_one token until now id) m = str_eq m.id id && is_due now m
takes_lease (complete_one id token now) m = false
takes_lease (fail_one input) m = false

unfoldable pub leases_taken : List Statement → Message → ℕ
leases_taken [] m = 0
leases_taken (s ∷ ss) m =
    let rest = leases_taken ss (step_row s m) in if takes_lease s m then suc rest else rest

step_attempts :
    (s : Statement) (m : Message)
    → (step_row s m).attempt_count
      ≡ (if takes_lease s m then m.attempt_count + 1 else m.attempt_count)
unfolding lease_row complete_row fail_row
step_attempts (lease_one token until now id) m =
    ap-if (λ (x : Message). x.attempt_count) (str_eq m.id id && is_due now m) _ _
step_attempts (complete_one id token now) m =
    if-elim (λ (x : Message). x.attempt_count ≡ m.attempt_count) (is_held id token m) (λ e. refl)
      (λ e. refl)
step_attempts (fail_one input) m =
    if-elim (λ (x : Message). x.attempt_count ≡ m.attempt_count)
      (is_held input.id input.lease_token m)
      (λ e.
        if-elim (λ (x : Message). x.attempt_count ≡ m.attempt_count)
          (leb m.max_attempts m.attempt_count) (λ f. refl) (λ f. refl))
      (λ e. refl)

step_taken :
    (s : Statement) (m : Message)
    → takes_lease s m ≡ true
    → (step_row s m).attempt_count ≡ m.attempt_count + 1
step_taken s m e =
    step_attempts s m ∙ ap (λ b. if b then m.attempt_count + 1 else m.attempt_count) e

step_untaken :
    (s : Statement) (m : Message)
    → takes_lease s m ≡ false
    → (step_row s m).attempt_count ≡ m.attempt_count
step_untaken s m e =
    step_attempts s m ∙ ap (λ b. if b then m.attempt_count + 1 else m.attempt_count) e

step_max : (s : Statement) (m : Message) → (step_row s m).max_attempts ≡ m.max_attempts
unfolding lease_row complete_row fail_row
step_max (lease_one token until now id) m =
    if-elim (λ (x : Message). x.max_attempts ≡ m.max_attempts) (str_eq m.id id && is_due now m)
      (λ e. refl) (λ e. refl)
step_max (complete_one id token now) m =
    if-elim (λ (x : Message). x.max_attempts ≡ m.max_attempts) (is_held id token m) (λ e. refl)
      (λ e. refl)
step_max (fail_one input) m =
    if-elim (λ (x : Message). x.max_attempts ≡ m.max_attempts)
      (is_held input.id input.lease_token m)
      (λ e.
        if-elim (λ (x : Message). x.max_attempts ≡ m.max_attempts)
          (leb m.max_attempts m.attempt_count) (λ f. refl) (λ f. refl))
      (λ e. refl)

run_attempts :
    (ss : List Statement) (m : Message)
    → leases_taken ss m + m.attempt_count ≡ (run_row ss m).attempt_count
unfolding leases_taken run_row
run_attempts [] m = omega arith
run_attempts (s ∷ ss) m = elim (Bool-cases (takes_lease s m)) [
  | inl e ↦
      let one = step_taken s m e in rw (e) (omega (arith, one, run_attempts ss (step_row s m)))
  | inr e ↦
      let same = step_untaken s m e in rw (e) (omega (arith, same, run_attempts ss (step_row s m)))
]

run_row-IsValid :
    (ss : List Statement) (m : Message)
    → IsValid m
    → IsValid (run_row ss m) × ((run_row ss m).max_attempts ≡ m.max_attempts)
unfolding run_row
run_row-IsValid [] m h = (h, refl)
run_row-IsValid (s ∷ ss) m h =
    let rest = run_row-IsValid ss (step_row s m) (step_row-IsValid s m h) in
    (rest.0, rest.1 ∙ step_max s m)

-- Over any interleaving of the workers' statements, a valid message is leased at most as often as
-- it had attempts left.
pub leases_taken_bound :
    (ss : List Statement) (m : Message)
    → IsValid m
    → leases_taken ss m + m.attempt_count ≤ m.max_attempts
leases_taken_bound ss m h =
    let rest = run_row-IsValid ss m h in
    let most = rest.0.0 in omega (arith, run_attempts ss m, rest.1)
