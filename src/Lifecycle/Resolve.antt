-- ===== src/Lifecycle/Resolve.antt =====
-- The current state of an assertion: `findLatestAssertionLifecycleEvent`,
-- `assertionLifecycleStateFromRecords` and `resolveAssertionLifecycleState`. The order of the
-- texts in a column is the database's, a parameter.
use cred_trail.Prelude.{
  Bool, true, false, Option, none, some, List, [], ◌∷◌, String, if◌then◌else◌, or_else, keep,
}
use cred_trail.Lifecycle.{
  State, active, revoked, Assertion, Event, Db, find_assertion_by_id, is_event_of,
}

pub data Source : Type 0 where
  assertion_revocation lifecycle_event default_active : Source

pub record Resolved : Type 0 where
  pub state : State
  pub source : Source
  pub reason_code : Option String
  pub reason : Option String
  pub transitioned_at : Option String
  pub revoked_at : Option String

abbrev pub revoked_by_issuer : String
revoked_by_issuer = "credential has been revoked by issuer"

abbrev pub is_revoked : State → Bool
is_revoked revoked = true
is_revoked _ = false

by_revocation : String → Resolved
by_revocation at = record {
  state = revoked;
  source = assertion_revocation;
  reason_code = none;
  reason = some revoked_by_issuer;
  transitioned_at = some at;
  revoked_at = some at;
}

pub state_from : Option String → Option Event → Resolved
unfolding by_revocation
state_from (some at) none = by_revocation at
state_from (some at) (some e) =
    if is_revoked e.to_state
    then record {
      state = revoked;
      source = lifecycle_event;
      reason_code = some e.reason_code;
      reason = some (or_else e.reason revoked_by_issuer);
      transitioned_at = some e.transitioned_at;
      revoked_at = some at;
    }
    else by_revocation at
state_from none (some e) = record {
  state = e.to_state;
  source = lifecycle_event;
  reason_code = some e.reason_code;
  reason = e.reason;
  transitioned_at = some e.transitioned_at;
  revoked_at = none;
}
state_from none none = record {
  state = active;
  source = default_active;
  reason_code = none;
  reason = none;
  transitioned_at = none;
  revoked_at = none;
}

unfoldable pub assertion_lifecycle_state_from_records : Assertion → Option Event → Resolved
unfolding state_from
assertion_lifecycle_state_from_records a latest = state_from a.revoked_at latest

module _ (text_lt : String → String → Bool) where
  -- `ORDER BY transitioned_at DESC, created_at DESC, id DESC`: does `e` stand behind `f`?
  unfoldable pub is_before : Event → Event → Bool
  is_before e f =
      if text_lt e.transitioned_at f.transitioned_at
      then true
      else if text_lt f.transitioned_at e.transitioned_at
      then false
      else if text_lt e.created_at f.created_at
      then true
      else if text_lt f.created_at e.created_at
      then false
      else text_lt e.id f.id

  -- `LIMIT 1` of that order.
  unfoldable pub first_of_order : Option Event → List Event → Option Event
  first_of_order best [] = best
  first_of_order none (e ∷ es) = first_of_order (some e) es
  first_of_order (some b) (e ∷ es) = first_of_order (some (if is_before b e then e else b)) es

  unfoldable pub find_latest_event : Db → String → String → Option Event
  unfolding first_of_order is_before
  find_latest_event db tenant assertion =
      first_of_order none (keep (is_event_of tenant assertion) db.events)

  unfoldable pub resolve_assertion_lifecycle_state : Db → String → String → Option Resolved
  resolve_assertion_lifecycle_state db tenant assertion =
      elim (find_assertion_by_id db tenant assertion) [
        | none ↦ none
        | some a ↦
            some (assertion_lifecycle_state_from_records a (find_latest_event db tenant assertion))
      ]
