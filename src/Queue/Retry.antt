-- ===== src/Queue/Retry.antt =====
-- A message whose job fails at every attempt.
use cred_trail.Prelude.{
  ℕ, ◌+◌, ◌≤◌, ◌<◌, ◌≡◌, refl, sym, ap₂, ◌∙◌, ◌≢◌, inl, inr, true, false≢true, none, List, [], ◌∷◌,
  arith, String, ◌==◌, if◌then◌else◌, lt→ltb, le→leb, ==_iff, Bool-cases, leb-gt, length,
}
use cred_trail.Queue.{Message, add_seconds, pending, failed}
use cred_trail.Queue.Lease.{lease_row, is_due, take_lease}
use cred_trail.Queue.Finish.{fail_row, fails}
use cred_trail.Queue.Exclusive.{lease_row-due, is_held-true}

-- One attempt at the time the message is available: the lease, and the failure of its job.
pub record Attempt : Type 0 where
  pub token : String
  pub lease_seconds : ℕ
  pub error : String
  pub retry_delay_seconds : ℕ

unfoldable attempt : Attempt → Message → Message
attempt a m =
    let now = m.available_at in
    fail_row
      (record {
        id = m.id;
        lease_token = a.token;
        now = now;
        error = a.error;
        retry_delay_seconds = a.retry_delay_seconds;
      })
      (lease_row a.token (add_seconds now a.lease_seconds) now m.id m)

pub attempts : List Attempt → Message → Message
attempts [] m = m
attempts (a ∷ rest) m = attempts rest (attempt a m)

attempt_due :
    (a : Attempt) (m : Message)
    → m.leased_until ≡ none
    → m.attempt_count < m.max_attempts
    → is_due m.available_at m ≡ true
attempt_due a m free left =
    rw
      (
        free,
        le→leb m.available_at m.available_at (omega arith),
        lt→ltb m.attempt_count m.max_attempts left,
      )
      refl

attempt_lem :
    (a : Attempt) (m : Message)
    → is_due m.available_at m ≡ true
    → attempt a m
      ≡ fails
          (record {
            id = m.id;
            lease_token = a.token;
            now = m.available_at;
            error = a.error;
            retry_delay_seconds = a.retry_delay_seconds;
          })
          (take_lease a.token (add_seconds m.available_at a.lease_seconds) m.available_at m)
unfolding attempt fail_row
attempt_lem a m due =
    let leased = take_lease a.token (add_seconds m.available_at a.lease_seconds) m.available_at m in
    rw
      (
        lease_row-due a.token (add_seconds m.available_at a.lease_seconds) m.available_at m.id m
            refl due,
        is_held-true m.id a.token leased refl refl,
      )
      refl

-- A row that waits for its next attempt.
abbrev IsWaiting : Message → Type 0
IsWaiting m = (m.status ≡ pending) × (m.leased_until ≡ none)

attempt_more :
    (a : Attempt) (m : Message)
    → IsWaiting m
    → m.attempt_count + 1 < m.max_attempts
    → let after = attempt a m in
      IsWaiting after
      × (after.attempt_count ≡ m.attempt_count + 1)
      × (after.max_attempts ≡ m.max_attempts)
attempt_more a m h left =
    rw
      (
        attempt_lem a m (attempt_due a m h.1 (omega arith)),
        leb-gt m.max_attempts (m.attempt_count + 1) left,
      )
      ((refl, refl), refl, refl)

attempt_last :
    (a : Attempt) (m : Message)
    → IsWaiting m
    → m.attempt_count + 1 ≡ m.max_attempts
    → (attempt a m).status ≡ failed
attempt_last a m h last =
    rw
      (
        attempt_lem a m (attempt_due a m h.1 (omega arith)),
        le→leb m.max_attempts (m.attempt_count + 1) (omega arith),
      )
      refl

-- A pending message without a lease whose job fails at every attempt, each made when the message
-- is available, is failed after exactly the attempts that it had left, and pending after fewer,
-- whatever the errors, the lease times and the delays.
pub attempts-status :
    (tries : List Attempt) (m : Message)
    → m.status ≡ pending
    → m.leased_until ≡ none
    → m.attempt_count + length tries ≤ m.max_attempts
    → 0 < length tries
    → (attempts tries m).status
      ≡ (if m.attempt_count + length tries == m.max_attempts then failed else pending)
unfolding attempts
attempts-status [] m p free le pos = absurd (omega arith)
attempts-status (a ∷ []) m p free le pos =
    elim (Bool-cases (m.attempt_count + 1 == m.max_attempts)) [
      | inl e ↦
          rw (e) (attempt_last a m (p, free) ((==_iff (m.attempt_count + 1) m.max_attempts).0 e))
      | inr e ↦ rw (e) (
          let other : m.attempt_count + 1 ≢ m.max_attempts =
            λ q. false≢true (sym e ∙ (==_iff (m.attempt_count + 1) m.max_attempts).1 q) in
          (attempt_more a m (p, free) (omega (arith, le))).0.0)
    ]
attempts-status (a ∷ b ∷ rest) m p free le pos =
    let one = attempt_more a m (p, free) (omega arith) in
    let rest =
      attempts-status (b ∷ rest) (attempt a m) one.0.0 one.0.1 (omega (arith, le, one))
        (omega arith) in
    rest ∙ ap₂ (λ x y. if x == y then failed else pending) (omega (arith, one)) one.2
