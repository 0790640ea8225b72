-- ===== src/Lifecycle/Tests.antt =====
-- One assertion of one tenant, runs of the functions on it, and the instances of their theorems.
use cred_trail.Prelude.{
  ◌≡◌, refl, subst, Bool, true, ◌&&◌, ◌||◌, Option, none, some, List, [], ◌∷◌, String, str_eq, All,
}
use cred_trail.Lifecycle.{
  State, active, suspended, manual, Assertion, Event, Db, find_assertion_by_id, same_state,
  is_allowed,
}
use cred_trail.Lifecycle.Resolve.{
  find_latest_event, resolve_assertion_lifecycle_state, assertion_lifecycle_state_from_records,
  Resolved,
}
use cred_trail.Lifecycle.Transition.{
  TransitionInput, FreshIds, Platform, transitioned, record_assertion_lifecycle_transition,
  TransitionResult,
}
use cred_trail.Lifecycle.Transition.Outcome.{transition-revoked, IsRefused}
use cred_trail.Lifecycle.Projection.{
  resolve_assertion_lifecycle_projection, join_latest, projection-eq-state,
}
use cred_trail.Lifecycle.Transition.Invariant.{
  IsAllowed, run_transitions, run_transitions-IsAllowed,
}
use cred_trail.Lifecycle.Transition.Reads.{transition-resolve, transition_backdated}

abbrev january : String
january = "2026-01-01T00:00:00.000Z"

abbrev march : String
march = "2026-03-01T00:00:00.000Z"

abbrev platform : Platform
platform = record {
  text_lt = λ s t. str_eq s january && str_eq t march;
  is_timestamp = λ s. str_eq s january || str_eq s march;
  trim = λ s. s;
}

abbrev badge : Option String → Assertion
badge at = record { tenant_id = "t"; id = "a"; revoked_at = at; updated_at = january }

abbrev hold : String → State → State → Event
hold at from to = record {
  id = "ale_0";
  tenant_id = "t";
  assertion_id = "a";
  from_state = from;
  to_state = to;
  reason_code = "administrative_hold";
  reason = none;
  transition_source = manual;
  actor_user_id = some "u";
  transitioned_at = at;
  created_at = at;
}

abbrev store : Option String → List Event → Db
store at events = record { assertions = badge at ∷ []; events = events; revocations = [] }

abbrev ask : State → String → TransitionInput
ask to at = record {
  tenant_id = "t";
  assertion_id = "a";
  to_state = to;
  reason_code = "appeal_resolved";
  reason = none;
  transition_source = manual;
  actor_user_id = some "u";
  transitioned_at = at;
}

abbrev ids : FreshIds
ids = record { revocation_id = "rev_1"; idempotency_key = "idem_1"; event_id = "ale_1" }

transition-revoked_example : IsRefused (store (some january) []) (
    record_assertion_lifecycle_transition platform (store (some january) []) (ask active march) ids)
unfolding find_assertion_by_id
transition-revoked_example =
    transition-revoked platform (store (some january) []) (ask active march) ids
      (badge (some january)) january refl refl

abbrev held : Db
held = store none (hold january active suspended ∷ [])

abbrev held_late : Db
held_late = store none (hold march active suspended ∷ [])

abbrev report : Db → TransitionInput → TransitionResult
report db input = record {
  status = transitioned;
  from_state = suspended;
  to_state = input.to_state;
  current_state = input.to_state;
  event = some (record {
    id = "ale_1";
    tenant_id = "t";
    assertion_id = "a";
    from_state = suspended;
    to_state = input.to_state;
    reason_code = "appeal_resolved";
    reason = none;
    transition_source = manual;
    actor_user_id = some "u";
    transitioned_at = input.transitioned_at;
    created_at = input.transitioned_at;
  });
  message = none;
}

transition-resolve_example :
    (s : Resolved) × (resolve_assertion_lifecycle_state platform.text_lt
        (record_assertion_lifecycle_transition platform held (ask active march) ids).1
        "t"
        "a"
      ≡ some s)
    × (s.state ≡ active)
    × ((report held (ask active march)).current_state ≡ active)
unfolding record_assertion_lifecycle_transition find_assertion_by_id find_latest_event
    assertion_lifecycle_state_from_records same_state is_allowed
transition-resolve_example =
    transition-resolve platform held (ask active march) ids (badge none)
      (report held (ask active march))
      (record_assertion_lifecycle_transition platform held (ask active march) ids).1 refl refl refl
      (λ l h. subst (λ (o : Option Event). text_of o ≡ true) h refl)
  where
    text_of : Option Event → Bool
    text_of none = true
    text_of (some l) = platform.text_lt l.transitioned_at march

transition_backdated_example :
    (s : Resolved) × (resolve_assertion_lifecycle_state platform.text_lt
        (record_assertion_lifecycle_transition platform held_late (ask active january) ids).1
        "t"
        "a"
      ≡ some s)
    × (s.state ≡ suspended)
    × ((report held_late (ask active january)).current_state ≡ active)
unfolding record_assertion_lifecycle_transition find_assertion_by_id find_latest_event
    assertion_lifecycle_state_from_records same_state is_allowed
transition_backdated_example =
    transition_backdated platform held_late (ask active january) ids (badge none)
      (report held_late (ask active january))
      (record_assertion_lifecycle_transition platform held_late (ask active january) ids).1
      (hold march active suspended) refl refl refl refl refl refl refl

run_transitions-IsAllowed_example :
    All IsAllowed (run_transitions platform held ((ask active march, ids) ∷ [])).events
unfolding is_allowed
run_transitions-IsAllowed_example =
    run_transitions-IsAllowed platform held ((ask active march, ids) ∷ []) (refl, tt)

projection-eq-state_example :
    let s =
      assertion_lifecycle_state_from_records (badge none) (some (hold march active suspended)) in
    resolve_assertion_lifecycle_projection
      (join_latest (badge none) (some (hold march active suspended)))
    ≡ record {
      state = s.state;
      source = s.source;
      reason_code = s.reason_code;
      reason = s.reason;
      transitioned_at = s.transitioned_at;
    }
projection-eq-state_example = projection-eq-state (badge none) (some (hold march active suspended))
