-- ===== src/Queue/Counts.antt =====
-- The counters of a run of `process_queued_jobs`.
use cred_trail.Prelude.{
  ℕ, ◌+◌, ◌≡◌, refl, ap, ◌∙◌, true, false≢true, Option, none, some, List, [], ◌∷◌, arith, String,
  eq_iff, leb, if-elim, length, keep, All, All-keep,
}
use cred_trail.Queue.{Message, MessageStatus, pending, failed, processing, completed, holds_token}
use cred_trail.Queue.Process.{
  Dependencies, World, RunState, RunResult, process_messages, execute, count_failure, finalize,
  process_message, process_queued_jobs, ProcessConfig, lease_input, started,
}
use cred_trail.Queue.Lease.{insert_row, by_created, lease_job_queue_messages, LeaseInput}

abbrev pub HasToken : String → Message → Type 0
HasToken token m = m.lease_token ≡ some token

holds_token-some :
    (o : Option String) (token : String) → holds_token o token ≡ true → o ≡ some token
holds_token-some none token h = absurd (false≢true h)
holds_token-some (some held) token h = ap some ((eq_iff held token).0 h)

module _ (P : Message → Type 0) where
  All-insert_row : (m : Message) (ms : List Message) → P m → All P ms → All P (insert_row m ms)
  All-insert_row m [] p ps = (p, tt)
  All-insert_row m (x ∷ xs) p ps =
      if-elim (All P) (leb m.created_at x.created_at) (λ e. (p, ps))
        (λ e. (ps.0, All-insert_row m xs p ps.1))

  pub All-by_created : (ms : List Message) → All P ms → All P (by_created ms)
  unfolding by_created
  All-by_created [] ps = tt
  All-by_created (m ∷ ms) ps = All-insert_row m (by_created ms) ps.0 (All-by_created ms ps.1)

pub leased-HasToken :
    (rows : List Message) (input : LeaseInput) (token : String)
    → All (HasToken token) (lease_job_queue_messages rows input token).0
unfolding lease_job_queue_messages
leased-HasToken rows input token =
    let rows₁ = (lease_job_queue_messages rows input token).1 in
    All-by_created (HasToken token) (keep (λ m. holds_token m.lease_token token) rows₁) (
      All-keep (HasToken token) (λ (m : Message). holds_token m.lease_token token) rows₁
        (λ m e. holds_token-some m.lease_token token e))

-- The messages that a run finished, by what became of them.
abbrev pub finished : RunResult → ℕ
finished r = r.succeeded + r.retried + r.dead_lettered + r.failed_to_finalize

module _ {E : Type 0} (deps : Dependencies E) (delay : ℕ) where
  -- One message more.
  Counted : RunState deps → RunState deps → Type 0
  Counted s t =
      (t.result.leased ≡ s.result.leased)
      × (t.result.processed ≡ s.result.processed + 1)
      × (finished t.result ≡ finished s.result + 1)

  count_failure_lem :
      (status : Option MessageStatus) (r : RunResult)
      → ((count_failure deps status r).leased ≡ r.leased)
        × ((count_failure deps status r).processed ≡ r.processed + 1)
        × (finished (count_failure deps status r) ≡ finished r + 1)
  count_failure_lem none r = (refl, refl, omega arith)
  count_failure_lem (some pending) r = (refl, refl, omega arith)
  count_failure_lem (some processing) r = (refl, refl, omega arith)
  count_failure_lem (some completed) r = (refl, refl, omega arith)
  count_failure_lem (some failed) r = (refl, refl, omega arith)

  finalize-Counted :
      (m : Message) (token : String) (s : RunState deps) (x : Option String × World E)
      → Counted s (finalize deps delay m token s x)
  unfolding finalize Counted
  finalize-Counted m token s (none, w) = (refl, refl, omega arith)
  finalize-Counted m token s (some detail, w) = count_failure_lem _ s.result

  process_message-Counted :
      (token : String) (m : Message) (s : RunState deps)
      → HasToken token m
      → Counted s (process_message deps delay m s)
  unfolding process_message
  process_message-Counted token m s h = rw (h) (finalize-Counted m token s (execute deps m s.world))

  process_messages-counts :
      (token : String) (ms : List Message) (s : RunState deps)
      → All (HasToken token) ms
      → let t = process_messages deps delay ms s in
        (t.result.leased ≡ s.result.leased)
        × (t.result.processed ≡ s.result.processed + length ms)
        × (finished t.result ≡ finished s.result + length ms)
  unfolding process_messages Counted
  process_messages-counts token [] s h = (refl, omega arith, omega arith)
  process_messages-counts token (m ∷ ms) s h =
      let one = process_message-Counted token m s h.0 in
      let rest = process_messages-counts token ms (process_message deps delay m s) h.1 in
      (rest.0 ∙ one.0, omega (arith, one, rest), omega (arith, one, rest))

-- A run reports each message that it leased once: as many are processed as leased, and each of
-- them succeeded, is retried, is dead-lettered or failed to finalize.
pub process_queued_jobs-counts :
    {E : Type 0} (deps : Dependencies E) (config : ProcessConfig) (token : String)
    (rows : List Message) (w : World E)
    → let r = (process_queued_jobs deps config token rows w).result in
      (r.processed ≡ r.leased)
      × (r.succeeded + r.retried + r.dead_lettered + r.failed_to_finalize ≡ r.leased)
unfolding process_queued_jobs
process_queued_jobs-counts deps config token rows w =
    let leased = lease_job_queue_messages rows (lease_input deps config w) token in
    let c =
      process_messages-counts deps config.retry_delay_seconds token leased.0 (started deps leased w)
        (leased-HasToken rows (lease_input deps config w) token) in
    (omega (arith, c), omega (arith, c))
