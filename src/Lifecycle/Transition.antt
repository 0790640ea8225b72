-- ===== src/Lifecycle/Transition.antt =====
-- `recordAssertionLifecycleTransition`. `Date.parse`, `trim`, the order of texts and the random
-- identifiers are parameters.
pub mod Outcome
pub mod Append
pub mod Written
pub mod Invariant
pub mod Reads
use cred_trail.Prelude.{
  Bool, not, Option, none, some, [], ◌∷◌, ◌++◌, map, String, str_eq, if◌then◌else◌, or_else, ◌<>◌,
  any, find,
}
use cred_trail.Lifecycle.{
  State, revoked, Trigger, manual, automation, Assertion, Event, Db, same_state, is_allowed,
  reason_codes, find_assertion_by_id, is_assertion, active, suspended, expired,
}
use cred_trail.Lifecycle.Revoke.{
  RevocationResult, newly_revoked, already_revoked, record_assertion_revocation,
}
use cred_trail.Lifecycle.Resolve.{find_latest_event, assertion_lifecycle_state_from_records}

pub record TransitionInput : Type 0 where
  pub tenant_id : String
  pub assertion_id : String
  pub to_state : State
  pub reason_code : String
  pub reason : Option String
  pub transition_source : Trigger
  pub actor_user_id : Option String
  pub transitioned_at : String

-- The identifiers that one call draws by `createPrefixedId`.
pub record FreshIds : Type 0 where
  pub revocation_id : String
  pub idempotency_key : String
  pub event_id : String

pub data Status : Type 0 where
  transitioned already_in_state invalid_transition : Status

pub record TransitionResult : Type 0 where
  pub status : Status
  pub from_state : State
  pub to_state : State
  pub current_state : State
  pub event : Option Event
  pub message : Option String

pub data Error : Type 0 where
  invalid_timestamp unsupported_reason_code missing_actor unexpected_actor : Error
  assertion_not_found duplicate_event_id event_not_loaded : Error

pub data Reply : Type 0 where
  done : TransitionResult → Reply
  thrown : Error → Reply

pub record Platform : Type 0 where
  pub text_lt : String → String → Bool
  pub is_timestamp : String → Bool
  pub trim : String → String

-- The checks of the input, in the source's order; `none` when all pass.
actor_error : Trigger → Option String → Option Error
actor_error manual none = some missing_actor
actor_error automation (some user) = some unexpected_actor
actor_error _ _ = none

pub input_error : Platform → TransitionInput → Option Error
unfolding actor_error
input_error p input =
    if not (p.is_timestamp input.transitioned_at)
    then some invalid_timestamp
    else if not (any (str_eq input.reason_code) reason_codes)
    then some unsupported_reason_code
    else actor_error input.transition_source input.actor_user_id

-- `normalizedReason === undefined || normalizedReason.length === 0 ? null : normalizedReason`
pub normalized_reason : Platform → Option String → Option String
normalized_reason p none = none
normalized_reason p (some text) = if str_eq (p.trim text) "" then none else some (p.trim text)

state_text : State → String
state_text active = "active"
state_text suspended = "suspended"
state_text revoked = "revoked"
state_text expired = "expired"

pub already : State → State → State → Reply
unfolding state_text
already from to current = done (record {
  status = already_in_state;
  from_state = from;
  to_state = to;
  current_state = current;
  event = none;
  message = some ("assertion is already in " <> state_text current <> " state");
})

pub not_allowed : State → State → Reply
unfolding state_text
not_allowed from to = done (record {
  status = invalid_transition;
  from_state = from;
  to_state = to;
  current_state = from;
  event = none;
  message =
      some ("transition from " <> state_text from <> " to " <> state_text to <> " is not allowed");
})

pub new_event : TransitionInput → String → State → Option String → String → Event
new_event input event_id from reason at = record {
  id = event_id;
  tenant_id = input.tenant_id;
  assertion_id = input.assertion_id;
  from_state = from;
  to_state = input.to_state;
  reason_code = input.reason_code;
  reason = reason;
  transition_source = input.transition_source;
  actor_user_id = input.actor_user_id;
  transitioned_at = at;
  created_at = at;
}

-- `UPDATE assertions SET updated_at = ? WHERE tenant_id = ? AND id = ?`
pub touch : String → String → String → Assertion → Assertion
touch tenant assertion at a =
    if is_assertion tenant assertion a then record a { updated_at = at } else a

-- The insert, the update and the read back; a taken identifier makes the insert throw.
pub append_event : Db → TransitionInput → String → State → Option String → String → Reply × Db
unfolding new_event touch
append_event db input event_id from reason at =
    let e = new_event input event_id from reason at in
    let db' = record db {
      events = db.events ++ e ∷ [];
      assertions = map (touch input.tenant_id input.assertion_id at) db.assertions;
    } in
    if any (λ old. str_eq old.id event_id) db.events
    then (thrown duplicate_event_id, db)
    else elim (find (λ row. str_eq row.id event_id) db'.events) [
      | none ↦ (thrown event_not_loaded, db')
      | some row ↦ (
        done (record {
          status = transitioned;
          from_state = from;
          to_state = input.to_state;
          current_state = input.to_state;
          event = some row;
          message = none;
        }),
        db',
      )
    ]

-- What follows a revocation that was recorded.
pub after_revocation :
    TransitionInput → String → State → Option String → RevocationResult × Db → Reply × Db
unfolding append_event already
after_revocation input event_id from reason (r, db) = elim r.status [
  | already_revoked ↦ (already from input.to_state revoked, db)
  | newly_revoked ↦ append_event db input event_id from reason r.revoked_at
]

pub apply_transition : Db → TransitionInput → FreshIds → State → Option String → Reply × Db
unfolding append_event after_revocation
apply_transition db input ids from reason =
    if same_state input.to_state revoked
    then elim (record_assertion_revocation db (record {
      tenant_id = input.tenant_id;
      assertion_id = input.assertion_id;
      revocation_id = ids.revocation_id;
      reason = or_else reason input.reason_code;
      idempotency_key = ids.idempotency_key;
      revoked_by_user_id = input.actor_user_id;
      revoked_at = input.transitioned_at;
    })) [
      | none ↦ (thrown assertion_not_found, db)
      | some result ↦ after_revocation input ids.event_id from reason result
    ]
    else append_event db input ids.event_id from reason input.transitioned_at

pub from_current : Platform → Db → TransitionInput → FreshIds → State → Reply × Db
unfolding already not_allowed normalized_reason apply_transition
from_current p db input ids current =
    if same_state current input.to_state
    then (already current input.to_state current, db)
    else if not (is_allowed current input.to_state)
    then (not_allowed current input.to_state, db)
    else apply_transition db input ids current (normalized_reason p input.reason)

unfoldable pub record_assertion_lifecycle_transition :
    Platform → Db → TransitionInput → FreshIds → Reply × Db
unfolding input_error from_current
record_assertion_lifecycle_transition p db input ids = elim (input_error p input) [
  | some error ↦ (thrown error, db)
  | none ↦ elim (find_assertion_by_id db input.tenant_id input.assertion_id) [
    | none ↦ (thrown assertion_not_found, db)
    | some a ↦
        from_current p db input ids
          (assertion_lifecycle_state_from_records a
            (find_latest_event p.text_lt db input.tenant_id input.assertion_id)).state
  ]
]
