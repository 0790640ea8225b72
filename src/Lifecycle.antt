-- ===== src/Lifecycle.antt =====
-- The life of an issued assertion: the tables `assertions`, `assertion_lifecycle_events` and
-- `revocations` as lists of rows, and the functions of packages/db/src/index.ts that read the
-- current state and record a transition. `Transition` is the function that records one.
pub mod Revoke
pub mod Resolve
pub mod Transition
pub mod Projection
mod Tests
use cred_trail.Prelude.{Bool, true, false, ◌&&◌, Option, List, [], ◌∷◌, String, str_eq, find}

pub data State : Type 0 where
  active suspended revoked expired : State

pub data Trigger : Type 0 where
  manual automation : Trigger

-- The columns of a row that the functions read or write.
pub record Assertion : Type 0 where
  pub tenant_id : String
  pub id : String
  pub revoked_at : Option String
  pub updated_at : String

pub record Event : Type 0 where
  pub id : String
  pub tenant_id : String
  pub assertion_id : String
  pub from_state : State
  pub to_state : State
  pub reason_code : String
  pub reason : Option String
  pub transition_source : Trigger
  pub actor_user_id : Option String
  pub transitioned_at : String
  pub created_at : String

pub record Revocation : Type 0 where
  pub id : String
  pub tenant_id : String
  pub assertion_id : String
  pub reason : String
  pub idempotency_key : String
  pub revoked_by_user_id : Option String
  pub revoked_at : String
  pub created_at : String

pub record Db : Type 0 where
  pub assertions : List Assertion
  pub events : List Event
  pub revocations : List Revocation

-- Equality of states, and `ASSERTION_LIFECYCLE_ALLOWED_TRANSITIONS[from].has(to)`.
unfoldable pub same_state : State → State → Bool
same_state active active = true
same_state suspended suspended = true
same_state revoked revoked = true
same_state expired expired = true
same_state _ _ = false

unfoldable pub is_allowed : State → State → Bool
is_allowed active suspended = true
is_allowed active revoked = true
is_allowed active expired = true
is_allowed suspended active = true
is_allowed suspended revoked = true
is_allowed suspended expired = true
is_allowed expired active = true
is_allowed expired revoked = true
is_allowed _ _ = false

abbrev pub reason_codes : List String
reason_codes =
    "administrative_hold" ∷ "policy_violation" ∷ "appeal_pending" ∷ "appeal_resolved"
    ∷ "credential_expired" ∷ "issuer_requested" ∷ "other" ∷ []

-- The rows of one assertion.
abbrev pub is_assertion : String → String → Assertion → Bool
is_assertion tenant assertion a = str_eq a.tenant_id tenant && str_eq a.id assertion

abbrev pub is_event_of : String → String → Event → Bool
is_event_of tenant assertion e = str_eq e.tenant_id tenant && str_eq e.assertion_id assertion

unfoldable pub find_assertion_by_id : Db → String → String → Option Assertion
find_assertion_by_id db tenant assertion = find (is_assertion tenant assertion) db.assertions
