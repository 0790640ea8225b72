-- ===== src/Approval.antt =====
-- The approval of a badge rule's versions: packages/db/src/index.ts (submit, decide, activate),
-- over the tables badge_issuance_rules, …_versions, …_approval_steps and …_approval_events.
pub mod Steps
pub mod Workflow
pub mod Activate
pub mod View
pub mod Order
pub mod Fits
pub mod Chain
pub mod Restart
pub mod Submission
mod Tests
use cred_trail.Prelude.{ℕ, Bool, ◌&&◌, Option, List, String, str_eq, leb, find}

pub data Role : Type 0 where
  viewer issuer admin owner : Role

-- `TENANT_ROLE_RANK`
abbrev pub rank : Role → ℕ
rank viewer = 0
rank issuer = 1
rank admin = 2
rank owner = 3

abbrev pub role_satisfies_minimum_role : Role → Role → Bool
role_satisfies_minimum_role actor required = leb (rank required) (rank actor)

pub data VersionStatus : Type 0 where
  draft pending_approval approved active rejected deprecated : VersionStatus

pub data StepStatus : Type 0 where
  queued_step pending_step approved_step rejected_step : StepStatus

pub data Action : Type 0 where
  submitted_action approved_action rejected_action : Action

-- The fields that the workflow reads or writes.
pub record Version : Type 0 where
  pub id : String
  pub tenant_id : String
  pub rule_id : String
  pub status : VersionStatus
  pub approved_by_user_id : Option String
  pub approved_at : Option String
  pub activated_by_user_id : Option String
  pub activated_at : Option String
  pub updated_at : String

pub record Rule : Type 0 where
  pub id : String
  pub tenant_id : String
  pub active_version_id : Option String
  pub updated_at : String

pub record Step : Type 0 where
  pub id : String
  pub tenant_id : String
  pub version_id : String
  pub step_number : ℕ
  pub required_role : Role
  pub label : Option String
  pub status : StepStatus
  pub decided_by_user_id : Option String
  pub decided_at : Option String
  pub decision_comment : Option String
  pub created_at : String
  pub updated_at : String

pub record ApprovalEvent : Type 0 where
  pub id : String
  pub tenant_id : String
  pub version_id : String
  pub step_number : Option ℕ
  pub action : Action
  pub actor_user_id : Option String
  pub actor_role : Option Role
  pub comment : Option String
  pub occurred_at : String

pub record Tables : Type 0 where
  pub rules : List Rule
  pub versions : List Version
  pub steps : List Step
  pub events : List ApprovalEvent

-- The version that a call names.
pub record VersionKey : Type 0 where
  pub tenant_id : String
  pub rule_id : String
  pub version_id : String

abbrev pub is_version : VersionKey → Version → Bool
is_version key v =
    str_eq v.tenant_id key.tenant_id && (str_eq v.rule_id key.rule_id && str_eq v.id key.version_id)

abbrev pub is_step : VersionKey → Step → Bool
is_step key s = str_eq s.tenant_id key.tenant_id && str_eq s.version_id key.version_id

unfoldable pub find_version_by_id : Tables → VersionKey → Option Version
find_version_by_id db key = find (is_version key) db.versions
