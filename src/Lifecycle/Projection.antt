-- ===== src/Lifecycle/Projection.antt =====
-- `resolveAssertionLifecycleProjection`: the state from the columns of a joined row, as the ledger
-- of assertions lists it, and the state from the records.
use cred_trail.Prelude.{
  ◌≡◌, Bool, false, ◌&&◌, Option, none, some, arith, String, if◌then◌else◌, is_some, or_else,
}
use cred_trail.Lifecycle.{State, active, revoked, Assertion, Event}
use cred_trail.Lifecycle.Resolve.{
  Source, assertion_revocation, lifecycle_event, default_active, is_revoked, revoked_by_issuer,
  assertion_lifecycle_state_from_records,
}

pub record Projection : Type 0 where
  pub state : State
  pub source : Source
  pub reason_code : Option String
  pub reason : Option String
  pub transitioned_at : Option String

-- The columns of the latest event, each null where there is none.
pub record LatestColumns : Type 0 where
  pub revoked_at : Option String
  pub latest_to_state : Option State
  pub latest_reason_code : Option String
  pub latest_reason : Option String
  pub latest_transitioned_at : Option String

abbrev has_state : (State → Bool) → Option State → Bool
has_state q none = false
has_state q (some s) = q s

abbrev or_null : Option String → Option String → Option String
or_null none b = b
or_null (some a) b = some a

abbrev by_columns : LatestColumns → Option State → Projection
by_columns c none = record {
  state = active;
  source = default_active;
  reason_code = none;
  reason = none;
  transitioned_at = none;
}
by_columns c (some s) = record {
  state = s;
  source = lifecycle_event;
  reason_code = c.latest_reason_code;
  reason = c.latest_reason;
  transitioned_at = c.latest_transitioned_at;
}

pub resolve_assertion_lifecycle_projection : LatestColumns → Projection
resolve_assertion_lifecycle_projection c =
    if is_some c.revoked_at && has_state is_revoked c.latest_to_state
    then record {
      state = revoked;
      source = lifecycle_event;
      reason_code = c.latest_reason_code;
      reason = some (or_else c.latest_reason revoked_by_issuer);
      transitioned_at = or_null c.latest_transitioned_at c.revoked_at;
    }
    else if is_some c.revoked_at
    then record {
      state = revoked;
      source = assertion_revocation;
      reason_code = none;
      reason = some revoked_by_issuer;
      transitioned_at = c.revoked_at;
    }
    else by_columns c c.latest_to_state

-- The columns that the join gives.
abbrev pub join_latest : Assertion → Option Event → LatestColumns
join_latest a none = record {
  revoked_at = a.revoked_at;
  latest_to_state = none;
  latest_reason_code = none;
  latest_reason = none;
  latest_transitioned_at = none;
}
join_latest a (some e) = record {
  revoked_at = a.revoked_at;
  latest_to_state = some e.to_state;
  latest_reason_code = some e.reason_code;
  latest_reason = e.reason;
  latest_transitioned_at = some e.transitioned_at;
}

-- The ledger's projection of a row that joins an assertion and its latest event agrees, in each of
-- its fields, with the state that is resolved from the two records.
pub projection-eq-state :
    (a : Assertion) (latest : Option Event)
    → let s = assertion_lifecycle_state_from_records a latest in
      resolve_assertion_lifecycle_projection (join_latest a latest) ≡ record {
        state = s.state;
        source = s.source;
        reason_code = s.reason_code;
        reason = s.reason;
        transitioned_at = s.transitioned_at;
      }
unfolding resolve_assertion_lifecycle_projection assertion_lifecycle_state_from_records
projection-eq-state a none = ground arith
projection-eq-state a (some e) = ground arith
