-- ===== src/Approval/Steps.antt =====
-- The approval steps of a version: their list, their insertion and the statements on them.
use cred_trail.Prelude.{
  ℕ, ◌+◌, ◌&&◌, Option, none, some, List, [], ◌∷◌, ◌++◌, String, leb, ◌==◌, if◌then◌else◌, any,
  keep,
}
use cred_trail.Approval.{Step, admin, queued_step, VersionKey, is_version, is_step, Role, Tables}

pub record ChainStep : Type 0 where
  pub required_role : Role
  pub label : Option String

-- `DEFAULT_BADGE_ISSUANCE_RULE_APPROVAL_CHAIN`
abbrev default_chain : List ChainStep
default_chain = (record { required_role = admin; label = some "Administrative approval" }) ∷ []

-- `none` is the error of an empty chain; the roles of the type are all supported.
abbrev pub normalize_chain : Option (List ChainStep) → Option (List ChainStep)
normalize_chain none = some default_chain
normalize_chain (some []) = none
normalize_chain (some (step ∷ steps)) = some (step ∷ steps)

abbrev pub insert_step : Step → List Step → List Step
insert_step s [] = s ∷ []
insert_step s (x ∷ xs) =
    if leb s.step_number x.step_number then s ∷ x ∷ xs else x ∷ insert_step s xs

-- `ORDER BY steps.step_number ASC`
abbrev pub by_step_number : List Step → List Step
by_step_number [] = []
by_step_number (s ∷ ss) = insert_step s (by_step_number ss)

unfoldable pub list_approval_steps : Tables → VersionKey → List Step
list_approval_steps db key =
    if any (is_version key) db.versions then by_step_number (keep (is_step key) db.steps) else []

abbrev new_step : VersionKey → String → String → ℕ → ChainStep → Step
new_step key id at index step = record {
  id = id;
  tenant_id = key.tenant_id;
  version_id = key.version_id;
  step_number = index + 1;
  required_role = step.required_role;
  label = step.label;
  status = queued_step;
  decided_by_user_id = none;
  decided_at = none;
  decision_comment = none;
  created_at = at;
  updated_at = at;
}

-- The loop of `insertSteps`, from an index on, with the ids that `createPrefixedId` gives.
pub chain_steps : VersionKey → (ℕ → String) → String → ℕ → List ChainStep → List Step
chain_steps key ids at index [] = []
chain_steps key ids at index (step ∷ chain) =
    new_step key (ids index) at index step ∷ chain_steps key ids at (index + 1) chain

unfoldable pub insert_approval_steps :
    Tables → VersionKey → (ℕ → String) → String → List ChainStep → Tables
unfolding chain_steps
insert_approval_steps db key ids at chain = record db {
  steps = db.steps ++ chain_steps key ids at 0 chain;
}

abbrev pub or_initialized :
    Tables → VersionKey → (ℕ → String) → String → List Step → List Step × Tables
or_initialized db key ids now [] =
    let after = insert_approval_steps db key ids now default_chain in
    (list_approval_steps after key, after)
or_initialized db key ids now (s ∷ ss) = (s ∷ ss, db)

unfoldable pub ensure_approval_steps_initialized :
    Tables → VersionKey → (ℕ → String) → String → List Step × Tables
ensure_approval_steps_initialized db key ids now =
    or_initialized db key ids now (list_approval_steps db key)

-- The UPDATE of the step of one number.
unfoldable pub set_step : VersionKey → ℕ → (Step → Step) → Step → Step
set_step key number change s = if is_step key s && (s.step_number == number) then change s else s
