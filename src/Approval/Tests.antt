-- ===== src/Approval/Tests.antt =====
-- One rule with a version in approval by two steps, and the instances of the theorems.
use cred_trail.Prelude.{
  ℕ, ◌≡◌, refl, subst, inr, true, false, ◌&&◌, none, some, [], ◌∷◌, arith, String, str_eq, some-inj,
  All,
}
use cred_trail.Approval.{
  Step, Version, active, pending_approval, admin, owner, VersionKey, pending_step, queued_step,
  find_version_by_id, Role, VersionStatus, StepStatus, Tables, rejected, rejected_step,
}
use cred_trail.Approval.Fits.{IsConsistent, Fits}
use cred_trail.Approval.Workflow.{SubmitInput, approve, Fresh, DecideInput, decide_version}
use cred_trail.Approval.Activate.{
  ActivateInput, is_active, is_of_rule, activate_version, activate_version-only,
  activate_version-missing,
}
use cred_trail.Approval.Chain.{decide_version-IsConsistent}
use cred_trail.Approval.Steps.{list_approval_steps}

abbrev the_key : VersionKey
the_key = record { tenant_id = "t"; rule_id = "r"; version_id = "v" }

abbrev step : ℕ → Role → StepStatus → Step
step number role status = record {
  id = "s";
  tenant_id = "t";
  version_id = "v";
  step_number = number;
  required_role = role;
  label = none;
  status = status;
  decided_by_user_id = none;
  decided_at = none;
  decision_comment = none;
  created_at = "now";
  updated_at = "now";
}

abbrev version : String → VersionStatus → Version
version id status = record {
  id = id;
  tenant_id = "t";
  rule_id = "r";
  status = status;
  approved_by_user_id = none;
  approved_at = none;
  activated_by_user_id = none;
  activated_at = none;
  updated_at = "now";
}

abbrev tables : Tables
tables = record {
  rules =
      (record { id = "r"; tenant_id = "t"; active_version_id = some "u"; updated_at = "now" }) ∷ [];
  versions = version "v" pending_approval ∷ version "u" active ∷ [];
  steps = step 2 owner queued_step ∷ step 1 admin pending_step ∷ [];
  events = [];
}

abbrev decision : Role → DecideInput
decision role = record {
  key = the_key;
  decision = approve;
  actor_user_id = "x";
  actor_role = role;
  comment = none;
  occurred_at = none;
}

abbrev fresh : Fresh
fresh = record { now_iso = "now"; step_ids = λ n. "s"; event_id = "e" }

tables-IsConsistent : IsConsistent tables the_key
unfolding list_approval_steps find_version_by_id
tables-IsConsistent = (
  ((omega arith, tt), (tt, tt)),
  λ v e.
      subst (λ (w : Version). Fits w.status (list_approval_steps tables the_key))
        (some-inj (version "v" pending_approval) v e) (inr (refl, (refl, tt))),
)

decide_version-IsConsistent_example :
    IsConsistent (decide_version tables (decision owner) fresh).1 the_key
decide_version-IsConsistent_example =
    decide_version-IsConsistent tables (decision owner) fresh tables-IsConsistent

abbrev activation : String → ActivateInput
activation id = record {
  key = record { tenant_id = "t"; rule_id = "r"; version_id = id };
  actor_user_id = "x";
  activated_at = none;
}

activate_version-only_example :
    All
      (λ v. is_of_rule the_key v ≡ true → is_active v.status ≡ true → str_eq v.id "v" ≡ true)
      (activate_version tables (activation "v") "now").1.versions
activate_version-only_example = activate_version-only tables (activation "v") "now"

activate_version-missing_example :
    ((activate_version tables (activation "w") "now").0 ≡ none)
    × All
        (λ v. is_of_rule the_key v ≡ true → is_active v.status ≡ false)
        (activate_version tables (activation "w") "now").1.versions
    × All
        (λ r. (str_eq r.tenant_id "t" && str_eq r.id "r") ≡ true → r.active_version_id ≡ some "w")
        (activate_version tables (activation "w") "now").1.rules
activate_version-missing_example = activate_version-missing tables (activation "w") "now" refl

abbrev rejected_tables : Tables
rejected_tables = record tables {
  versions = version "v" rejected ∷ [];
  steps = step 2 owner queued_step ∷ step 1 admin rejected_step ∷ [];
}

abbrev submission : SubmitInput
submission = record {
  key = the_key;
  actor_user_id = some "x";
  actor_role = some admin;
  comment = none;
  occurred_at = none;
}
