-- ===== src/Approval/Workflow.antt =====
-- `submitBadgeIssuanceRuleVersionForApproval` and `decideBadgeIssuanceRuleVersion`.
use cred_trail.Prelude.{
  ℕ, Bool, true, false, Option, none, some, List, [], ◌∷◌, ◌++◌, map, String, ltb, if◌then◌else◌,
  or_else, find,
}
use cred_trail.Approval.{
  Step, Version, draft, rejected, approved, pending_approval, queued_step, pending_step,
  approved_step, rejected_step, submitted_action, approved_action, rejected_action,
  role_satisfies_minimum_role, is_version, is_step, find_version_by_id, Role, VersionStatus,
  StepStatus, Action, Tables, VersionKey,
}
use cred_trail.Approval.Steps.{ensure_approval_steps_initialized, set_step}

pub record SubmitInput : Type 0 where
  pub key : VersionKey
  pub actor_user_id : Option String
  pub actor_role : Option Role
  pub comment : Option String
  pub occurred_at : Option String

pub data Decision : Type 0 where
  approve reject : Decision

pub record DecideInput : Type 0 where
  pub key : VersionKey
  pub decision : Decision
  pub actor_user_id : String
  pub actor_role : Role
  pub comment : Option String
  pub occurred_at : Option String

-- The clock and the ids of one call.
pub record Fresh : Type 0 where
  pub now_iso : String
  pub step_ids : ℕ → String
  pub event_id : String

-- The version or null, or the error that the actor's role is too low.
pub data Answer : Type 0 where
  version_or_null : Option Version → Answer
  role_error : (actor required : Role) → Answer

unfoldable pub insert_event :
    Tables
    → String
    → VersionKey
    → ℕ
    → Action
    → Option String
    → Option Role
    → Option String
    → String
    → Tables
insert_event db id key number action user role comment at = record db {
  events =
      db.events
      ++ (record {
        id = id;
        tenant_id = key.tenant_id;
        version_id = key.version_id;
        step_number = some number;
        action = action;
        actor_user_id = user;
        actor_role = role;
        comment = comment;
        occurred_at = at;
      })
        ∷ [];
}

abbrev pub reset_step : VersionKey → String → Step → Step
reset_step key at s =
    if is_step key s
    then record s {
      status = queued_step;
      decided_by_user_id = none;
      decided_at = none;
      decision_comment = none;
      updated_at = at;
    }
    else s

abbrev pub make_pending : String → Step → Step
make_pending at s = record s { status = pending_step; updated_at = at }

abbrev pub set_version : VersionKey → (Version → Version) → Version → Version
set_version key change v = if is_version key v then change v else v

abbrev pub unapproved : VersionStatus → String → Version → Version
unapproved status at v = record v {
  status = status;
  approved_by_user_id = none;
  approved_at = none;
  updated_at = at;
}

abbrev pub can_submit : VersionStatus → Bool
can_submit draft = true
can_submit rejected = true
can_submit _ = false

-- The statements of a submission, from the first step on.
unfoldable pub submit_steps : Tables → SubmitInput → Fresh → String → List Step → Answer × Tables
unfolding insert_event
submit_steps db input fresh at [] = (version_or_null none, db)
submit_steps db input fresh at (first ∷ rest) =
    let key = input.key in
    let after =
      insert_event
        (record db {
          steps =
              map (set_step key first.step_number (make_pending at))
                (map (reset_step key at) db.steps);
          versions = map (set_version key (unapproved pending_approval at)) db.versions;
        })
        fresh.event_id key first.step_number submitted_action input.actor_user_id input.actor_role
        input.comment at in
    (version_or_null (find_version_by_id after key), after)

unfoldable pub submit_found : Tables → SubmitInput → Fresh → Version → Answer × Tables
unfolding submit_steps
submit_found db input fresh v =
    let at = or_else input.occurred_at fresh.now_iso in
    let ready = ensure_approval_steps_initialized db input.key fresh.step_ids fresh.now_iso in
    if can_submit v.status
    then submit_steps ready.1 input fresh at ready.0
    else (version_or_null none, db)

unfoldable pub submit_version_for_approval : Tables → SubmitInput → Fresh → Answer × Tables
unfolding submit_found
submit_version_for_approval db input fresh = elim (find_version_by_id db input.key) [
  | none ↦ (version_or_null none, db)
  | some v ↦ submit_found db input fresh v
]

abbrev pub is_pending_step : Step → Bool
is_pending_step s = elim s.status [ pending_step ↦ true | _ ↦ false ]

abbrev pub is_pending_approval : VersionStatus → Bool
is_pending_approval status = elim status [ pending_approval ↦ true | _ ↦ false ]

abbrev pub decide_step : StepStatus → DecideInput → String → Step → Step
decide_step status input at s = record s {
  status = status;
  decided_by_user_id = some input.actor_user_id;
  decided_at = some at;
  decision_comment = input.comment;
  updated_at = at;
}

abbrev pub approved_version : DecideInput → String → Version → Version
approved_version input at v = record v {
  status = approved;
  approved_by_user_id = some input.actor_user_id;
  approved_at = some at;
  updated_at = at;
}

abbrev pub still_pending : String → Version → Version
still_pending at v = record v { status = pending_approval; updated_at = at }

-- The UPDATE statements of a decision on the current step, `next` being the step after it.
unfoldable pub write_decision :
    Tables → DecideInput → String → Step → Option Step → Decision → Tables
write_decision db input at current next reject = record db {
  steps =
      map (set_step input.key current.step_number (decide_step rejected_step input at)) db.steps;
  versions = map (set_version input.key (unapproved rejected at)) db.versions;
}
write_decision db input at current none approve = record db {
  steps =
      map (set_step input.key current.step_number (decide_step approved_step input at)) db.steps;
  versions = map (set_version input.key (approved_version input at)) db.versions;
}
write_decision db input at current (some next) approve = record db {
  steps =
      map (set_step input.key next.step_number (make_pending at)) (
        map (set_step input.key current.step_number (decide_step approved_step input at)) db.steps);
  versions = map (set_version input.key (still_pending at)) db.versions;
}

abbrev pub action_of : Decision → Action
action_of approve = approved_action
action_of reject = rejected_action

unfoldable pub decide_current :
    Tables → DecideInput → Fresh → String → List Step → Step → Answer × Tables
unfolding write_decision insert_event
decide_current db input fresh at steps current =
    let next = find (λ s. ltb current.step_number s.step_number) steps in
    let after =
      insert_event (write_decision db input at current next input.decision) fresh.event_id input.key
        current.step_number (action_of input.decision) (some input.actor_user_id)
        (some input.actor_role) input.comment at in
    if role_satisfies_minimum_role input.actor_role current.required_role
    then (version_or_null (find_version_by_id after input.key), after)
    else (role_error input.actor_role current.required_role, db)

unfoldable pub decide_pending : Tables → DecideInput → Fresh → Answer × Tables
unfolding decide_current
decide_pending db input fresh =
    let at = or_else input.occurred_at fresh.now_iso in
    let ready = ensure_approval_steps_initialized db input.key fresh.step_ids fresh.now_iso in
    elim (find is_pending_step ready.0) [
      | none ↦ (version_or_null none, ready.1)
      | some current ↦ decide_current ready.1 input fresh at ready.0 current
    ]

unfoldable pub decide_version : Tables → DecideInput → Fresh → Answer × Tables
unfolding decide_pending
decide_version db input fresh = elim (find_version_by_id db input.key) [
  | none ↦ (version_or_null none, db)
  | some v ↦
      if is_pending_approval v.status
      then decide_pending db input fresh
      else (version_or_null none, db)
]
