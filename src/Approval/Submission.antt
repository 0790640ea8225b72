-- ===== src/Approval/Submission.antt =====
-- What a submission makes of a version and of its steps: `submitBadgeIssuanceRuleVersionForApproval`.
use cred_trail.Prelude.{ℕ, map, String}
use cred_trail.Approval.{Tables, pending_approval}
use cred_trail.Approval.Workflow.{SubmitInput, Fresh, set_version, unapproved}
use cred_trail.Approval.Restart.{restart}

module _ (db : Tables) (input : SubmitInput) (fresh : Fresh) where
  -- The tables before the event is written.
  abbrev resubmitted : String → ℕ → Tables
  resubmitted at number = record db {
    steps = restart input.key at number db.steps;
    versions = map (set_version input.key (unapproved pending_approval at)) db.versions;
  }
