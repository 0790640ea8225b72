-- ===== src/Approval/Chain.antt =====
-- The invariant of a version and its steps under `decideBadgeIssuanceRuleVersion`.
use cred_trail.Prelude.{
  ℕ, ◌≡◌, refl, sym, ap, subst, ◌∙◌, true, false≢true, Option, none, some, List, [], ◌∷◌, map,
  String, ltb, if◌then◌else◌, or_else, if-elim, any, find,
}
use cred_trail.Approval.{
  draft, active, deprecated, Step, Version, approved, pending_approval, VersionKey, Tables,
  is_version, find_version_by_id, VersionStatus, role_satisfies_minimum_role, Role, StepStatus,
  Action, rejected, approved_step, rejected_step,
}
use cred_trail.Approval.Workflow.{
  set_version, is_pending_step, write_decision, Decision, DecideInput, approve, reject,
  insert_event, make_pending, unapproved, decide_step, approved_version, still_pending,
  decide_current, decide_pending, decide_version, Fresh, Answer, is_pending_approval,
  version_or_null,
}
use cred_trail.Approval.View.{
  KeepsStep, KeepsVersion, any-map, list_approval_steps-map, set_step-KeepsStep,
  set_version-KeepsVersion,
}
use cred_trail.Approval.Steps.{
  list_approval_steps, ensure_approval_steps_initialized, set_step, or_initialized,
}
use cred_trail.Approval.Order.{Increasing, InOrder, approve_last, approve_next}
use cred_trail.Approval.Fits.{Fits, IsConsistent, Increasing-map, list-is_step, consistent}

module _ (db : Tables) (input : DecideInput) (at : String) where
  abbrev marked : ℕ → StepStatus → Step → Step
  marked number status = set_step input.key number (decide_step status input at)

  marked-KeepsStep : (number : ℕ) (status : StepStatus) → KeepsStep (marked number status)
  marked-KeepsStep number status =
      set_step-KeepsStep input.key number (decide_step status input at) (λ s. (refl, refl, refl))

  versions-same :
      (g : Version → Version)
      → KeepsVersion g
      → any (is_version input.key) (map (set_version input.key g) db.versions)
        ≡ any (is_version input.key) db.versions
  versions-same g same =
      any-map input.key (set_version input.key g) (set_version-KeepsVersion input.key g same)
        db.versions

  -- One step is marked, and the version gets a status.
  marked_once :
      (number : ℕ) (status : StepStatus) (g : Version → Version)
      → KeepsVersion g
      → Increasing (list_approval_steps db input.key)
      → ((v : Version)
          → Fits (g v).status (map (marked number status) (list_approval_steps db input.key)))
      → IsConsistent
          (record db {
            steps = map (marked number status) db.steps;
            versions = map (set_version input.key g) db.versions;
          })
          input.key
  marked_once number status g same inc fits =
      let after = record db {
        steps = map (marked number status) db.steps;
        versions = map (set_version input.key g) db.versions;
      } in
      let kept = marked-KeepsStep number status in
      consistent db after input.key g
        (map (marked number status) (list_approval_steps db input.key)) same refl
        (list_approval_steps-map db after input.key (marked number status) kept refl
          (versions-same g same))
        (Increasing-map (marked number status) kept (list_approval_steps db input.key) inc) fits

  -- One step is marked and another made pending.
  marked_twice :
      (number next : ℕ)
      → Increasing (list_approval_steps db input.key)
      → InOrder (
          map
            (set_step input.key next (make_pending at))
            (map (marked number approved_step) (list_approval_steps db input.key)))
      → IsConsistent
          (record db {
            steps =
                map
                  (set_step input.key next (make_pending at))
                  (map (marked number approved_step) db.steps);
            versions = map (set_version input.key (still_pending at)) db.versions;
          })
          input.key
  marked_twice number next inc order =
      let pend = set_step input.key next (make_pending at) in
      let between = record db { steps = map (marked number approved_step) db.steps } in
      let after = record between {
        steps = map pend between.steps;
        versions = map (set_version input.key (still_pending at)) db.versions;
      } in
      let kept = marked-KeepsStep number approved_step in
      let kept₂ = set_step-KeepsStep input.key next (make_pending at) (λ s. (refl, refl, refl)) in
      let first =
        list_approval_steps-map db between input.key (marked number approved_step) kept refl refl in
      let second =
        list_approval_steps-map between after input.key pend kept₂ refl
          (versions-same (still_pending at) (λ v. (refl, refl, refl))) in
      consistent db after input.key (still_pending at)
        (map pend (map (marked number approved_step) (list_approval_steps db input.key)))
        (λ v. (refl, refl, refl)) refl (second ∙ ap (map pend) first)
        (Increasing-map pend kept₂ _ (
          Increasing-map (marked number approved_step) kept (list_approval_steps db input.key) inc))
        (λ v. order)

  decided :
      (current : Step) (next : Option Step) (decision : Decision)
      → Increasing (list_approval_steps db input.key)
      → InOrder (list_approval_steps db input.key)
      → find is_pending_step (list_approval_steps db input.key) ≡ some current
      → find (λ s. ltb current.step_number s.step_number) (list_approval_steps db input.key) ≡ next
      → IsConsistent (write_decision db input at current next decision) input.key
  unfolding write_decision
  decided current next reject inc order e n =
      marked_once current.step_number rejected_step (unapproved rejected at)
        (λ v. (refl, refl, refl)) inc (λ v. tt)
  decided current none approve inc order e n =
      marked_once current.step_number approved_step (approved_version input at)
        (λ v. (refl, refl, refl)) inc
        (λ v.
          approve_last input.key (decide_step approved_step input at) (make_pending at) (λ s. refl)
            (λ s. (refl, refl, refl)) (λ s. refl) (list_approval_steps db input.key) current inc
            (list-is_step db input.key) order e n)
  decided current (some next) approve inc order e n =
      marked_twice current.step_number next.step_number inc (
        approve_next input.key (decide_step approved_step input at) (make_pending at) (λ s. refl)
          (λ s. (refl, refl, refl)) (λ s. refl) (list_approval_steps db input.key) current next inc
          (list-is_step db input.key) order e n)

-- The event's INSERT leaves the steps and the versions.
pub decided_event :
    (db : Tables) (id : String) (key : VersionKey) (number : ℕ) (action : Action)
    (user : Option String) (role : Option Role) (comment : Option String) (at : String)
    → IsConsistent db key
    → IsConsistent (insert_event db id key number action user role comment at) key
unfolding insert_event list_approval_steps find_version_by_id
decided_event db id key number action user role comment at h = h

decide_current-IsConsistent :
    (db : Tables) (input : DecideInput) (fresh : Fresh) (at : String) (current : Step)
    → IsConsistent db input.key
    → InOrder (list_approval_steps db input.key)
    → find is_pending_step (list_approval_steps db input.key) ≡ some current
    → IsConsistent
        (decide_current db input fresh at (list_approval_steps db input.key) current).1
        input.key
unfolding decide_current
decide_current-IsConsistent db input fresh at current h order e =
    if-elim (λ (r : Answer × Tables). IsConsistent r.1 input.key)
      (role_satisfies_minimum_role input.actor_role current.required_role)
      (λ allowed.
        decided_event _ _ input.key _ _ _ _ _ _
          (decided db input at current _ input.decision h.0 order e refl))
      (λ refused. h)

initialized :
    (db : Tables) (key : VersionKey) (ids : ℕ → String) (now : String) (steps : List Step)
    → InOrder steps
    → or_initialized db key ids now steps ≡ (steps, db)
initialized db key ids now [] order = absurd order
initialized db key ids now (s ∷ ss) order = refl

is_pending_approval-eq :
    (status : VersionStatus) → is_pending_approval status ≡ true → status ≡ pending_approval
is_pending_approval-eq draft e = absurd (false≢true e)
is_pending_approval-eq pending_approval e = refl
is_pending_approval-eq approved e = absurd (false≢true e)
is_pending_approval-eq active e = absurd (false≢true e)
is_pending_approval-eq rejected e = absurd (false≢true e)
is_pending_approval-eq deprecated e = absurd (false≢true e)

module _ (db : Tables) (input : DecideInput) (fresh : Fresh) (h : IsConsistent db input.key) where
  by_current :
      (at : String) (o : Option Step)
      → InOrder (list_approval_steps db input.key)
      → find is_pending_step (list_approval_steps db input.key) ≡ o
      → IsConsistent
          (elim o as (λ x. Answer × Tables) [
            | none ↦ (version_or_null none, db)
            | some current ↦
                decide_current db input fresh at (list_approval_steps db input.key) current
          ]).1
          input.key
  by_current at none order e = h
  by_current at (some current) order e =
      decide_current-IsConsistent db input fresh at current h order e

  decide_pending-IsConsistent :
      InOrder (list_approval_steps db input.key)
      → IsConsistent (decide_pending db input fresh).1 input.key
  unfolding decide_pending ensure_approval_steps_initialized
  decide_pending-IsConsistent order =
      let at = or_else input.occurred_at fresh.now_iso in
      subst
        (λ (r : List Step × Tables).
          IsConsistent
            (elim (find is_pending_step r.0) as (λ x. Answer × Tables) [
              | none ↦ (version_or_null none, r.1)
              | some current ↦ decide_current r.1 input fresh at r.0 current
            ]).1
            input.key)
        (sym (
          initialized db input.key fresh.step_ids fresh.now_iso (list_approval_steps db input.key)
            order))
        (by_current at (find is_pending_step (list_approval_steps db input.key)) order refl)

  by_version :
      (o : Option Version)
      → find_version_by_id db input.key ≡ o
      → IsConsistent
          (elim o as (λ x. Answer × Tables) [
            | none ↦ (version_or_null none, db)
            | some v ↦
                if is_pending_approval v.status
                then decide_pending db input fresh
                else (version_or_null none, db)
          ]).1
          input.key
  by_version none e = h
  by_version (some v) e =
      if-elim (λ (r : Answer × Tables). IsConsistent r.1 input.key) (is_pending_approval v.status)
        (λ p. decide_pending-IsConsistent (
          subst (λ status. Fits status (list_approval_steps db input.key))
            (is_pending_approval-eq v.status p) (h.1 v e)))
        (λ p. h)

-- A decision, on every branch of it, keeps a version and its steps consistent: while the version
-- is pending approval its steps are approved ones, one pending one and queued ones in the order of
-- their numbers, and it is approved only with every step approved.
pub decide_version-IsConsistent :
    (db : Tables) (input : DecideInput) (fresh : Fresh)
    → IsConsistent db input.key
    → IsConsistent (decide_version db input fresh).1 input.key
unfolding decide_version
decide_version-IsConsistent db input fresh h =
    by_version db input fresh h (find_version_by_id db input.key) refl
