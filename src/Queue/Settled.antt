-- ===== src/Queue/Settled.antt =====
-- The rows of the queue after a run of `process_queued_jobs`.
use cred_trail.Prelude.{
  ℕ, ◌≡◌, refl, ap, ◌∙◌, inl, inr, Bool, true, false, ◌&&◌, ◌||◌, false≢true, Option, none, some,
  List, [], ◌∷◌, arith, String, str_eq, eq_refl, leb, Bool-cases, if-elim, any, keep, All, All-map,
  All-weaken,
}
use cred_trail.Queue.{Message, holds_token}
use cred_trail.Queue.Finish.{
  is_held, complete_row, fail_row, complete_job_queue_message, fail_job_queue_message,
}
use cred_trail.Queue.Lease.{insert_row, by_created, lease_job_queue_messages, LeaseInput}
use cred_trail.Queue.Process.{
  process_message, process_messages, Dependencies, RunState, execute, finalize, process_queued_jobs,
  ProcessConfig, World, lease_input, started,
}
use cred_trail.Queue.Counts.{HasToken, leased-HasToken}

-- A row that still has the token is one of the messages to come.
Pending : String → List Message → Message → Type 0
Pending token ms r = holds_token r.lease_token token ≡ true → any (λ m. str_eq r.id m.id) ms ≡ true

or_swap : (a b c : Bool) → (a || (b || c)) ≡ (b || (a || c))
or_swap a b c = ground arith

still_pending : (a b c : Bool) → (a && b) ≡ false → b ≡ true → (a || c) ≡ true → c ≡ true
still_pending a b c e k h = ground arith

any-insert_row :
    (p : Message → Bool) (m : Message) (ms : List Message)
    → any p (insert_row m ms) ≡ (p m || any p ms)
any-insert_row p m [] = refl
any-insert_row p m (x ∷ xs) =
    if-elim (λ l. any p l ≡ (p m || any p (x ∷ xs))) (leb m.created_at x.created_at) (λ e. refl)
      (λ e. let ih = any-insert_row p m xs in rw (ih) (or_swap (p x) (p m) (any p xs)))

any-by_created : (p : Message → Bool) (ms : List Message) → any p (by_created ms) ≡ any p ms
unfolding by_created
any-by_created p [] = refl
any-by_created p (m ∷ ms) =
    any-insert_row p m (by_created ms) ∙ ap (λ b. p m || b) (any-by_created p ms)

complete_row-Pending :
    (token : String) (m : Message) (ms : List Message) (now : ℕ) (r : Message)
    → Pending token (m ∷ ms) r
    → Pending token ms (complete_row m.id token now r)
unfolding Pending complete_row
complete_row-Pending token m ms now r h =
    if-elim (Pending token ms) (is_held m.id token r) (λ e k. absurd (false≢true k))
      (λ e k. still_pending (str_eq r.id m.id) (holds_token r.lease_token token) _ e k (h k))

fail_row-Pending :
    (token : String) (m : Message) (ms : List Message) (now : ℕ) (error : String) (delay : ℕ)
    (r : Message)
    → Pending token (m ∷ ms) r
    → Pending token ms (
        fail_row
          (record {
            id = m.id;
            lease_token = token;
            now = now;
            error = error;
            retry_delay_seconds = delay;
          })
          r)
unfolding Pending fail_row
fail_row-Pending token m ms now error delay r h =
    if-elim (Pending token ms) (is_held m.id token r)
      (λ e.
        if-elim (Pending token ms) (leb r.max_attempts r.attempt_count)
          (λ f k. absurd (false≢true k)) (λ f k. absurd (false≢true k)))
      (λ e k. still_pending (str_eq r.id m.id) (holds_token r.lease_token token) _ e k (h k))

module _ {E : Type 0} (deps : Dependencies E) (delay : ℕ) (token : String) where
  finalize-Pending :
      (m : Message) (ms : List Message) (s : RunState deps) (x : Option String × World E)
      → All (Pending token (m ∷ ms)) s.rows
      → All (Pending token ms) (finalize deps delay m token s x).rows
  unfolding finalize complete_job_queue_message fail_job_queue_message
  finalize-Pending m ms s (none, w) ps =
      All-map (Pending token (m ∷ ms)) (Pending token ms) _ s.rows
        (complete_row-Pending token m ms (deps.now w.env)) ps
  finalize-Pending m ms s (some detail, w) ps =
      All-map (Pending token (m ∷ ms)) (Pending token ms) _ s.rows
        (fail_row-Pending token m ms (deps.now w.env) detail delay) ps

  process_message-Pending :
      (m : Message) (ms : List Message) (s : RunState deps)
      → HasToken token m
      → All (Pending token (m ∷ ms)) s.rows
      → All (Pending token ms) (process_message deps delay m s).rows
  unfolding process_message
  process_message-Pending m ms s h ps = rw (h) (finalize-Pending m ms s (execute deps m s.world) ps)

  process_messages-Pending :
      (ms : List Message) (s : RunState deps)
      → All (HasToken token) ms
      → All (Pending token ms) s.rows
      → All (Pending token []) (process_messages deps delay ms s).rows
  unfolding process_messages
  process_messages-Pending [] s h ps = ps
  process_messages-Pending (m ∷ ms) s h ps =
      process_messages-Pending ms (process_message deps delay m s) h.1
        (process_message-Pending m ms s h.0 ps)

or_right : (a b : Bool) → b ≡ true → (a || b) ≡ true
or_right a b h = ground arith

module _ (token : String) where
  abbrev holds : Message → Bool
  holds m = holds_token m.lease_token token

  Pending-cons :
      (r x : Message) (rows : List Message)
      → Pending token (keep holds rows) x
      → Pending token (keep holds (r ∷ rows)) x
  unfolding Pending
  Pending-cons r x rows h k =
      if-elim (λ l. any (λ (m : Message). str_eq x.id m.id) l ≡ true) (holds r)
        (λ e. or_right (str_eq x.id r.id) _ (h k)) (λ e. h k)

  Pending-keep : (rows : List Message) → All (Pending token (keep holds rows)) rows
  unfolding Pending
  Pending-keep [] = tt
  Pending-keep (r ∷ rows) = (
    λ k. rw (k, eq_refl r.id) refl,
    All-weaken (Pending token (keep holds rows)) (Pending token (keep holds (r ∷ rows))) rows
        (λ x. Pending-cons r x rows) (Pending-keep rows),
  )

  Pending-leased : (rows : List Message) → All (Pending token (by_created (keep holds rows))) rows
  unfolding Pending
  Pending-leased rows =
      All-weaken (Pending token (keep holds rows)) (Pending token (by_created (keep holds rows)))
        rows (λ x h k. any-by_created (λ m. str_eq x.id m.id) (keep holds rows) ∙ h k)
        (Pending-keep rows)

not-Pending :
    (token : String) (m : Message) → Pending token [] m → holds_token m.lease_token token ≡ false
unfolding Pending
not-Pending token m h = elim (Bool-cases (holds_token m.lease_token token)) [
  | inl e ↦ absurd (false≢true (h e))
  | inr e ↦ e
]

leased-Pending :
    (rows : List Message) (input : LeaseInput) (token : String)
    → let leased = lease_job_queue_messages rows input token in
      All (Pending token leased.0) leased.1
unfolding lease_job_queue_messages
leased-Pending rows input token = Pending-leased token (lease_job_queue_messages rows input token).1

-- After a run, whatever the jobs did, no row has the token of the run,
-- so no message stays leased by it.
pub process_queued_jobs-settled :
    {E : Type 0} (deps : Dependencies E) (config : ProcessConfig) (token : String)
    (rows : List Message) (w : World E)
    → All
        (λ m. holds_token m.lease_token token ≡ false)
        (process_queued_jobs deps config token rows w).rows
unfolding process_queued_jobs
process_queued_jobs-settled deps config token rows w =
    let input = lease_input deps config w in
    let leased = lease_job_queue_messages rows input token in
    All-weaken (Pending token []) (λ m. holds_token m.lease_token token ≡ false) _
      (not-Pending token)
      (process_messages-Pending deps config.retry_delay_seconds token leased.0
        (started deps leased w) (leased-HasToken rows input token)
        (leased-Pending rows input token))
