-- ===== src/Lifecycle/Transition/Invariant.antt =====
-- The table of lifecycle events over calls of `record_assertion_lifecycle_transition`.
use cred_trail.Prelude.{
  ◌≡◌, refl, sym, ap, ◌⊎◌, inl, inr, true, Option, none, some, List, [], ◌∷◌, String, str_eq,
  Bool-cases, Option-cases, any, All, All-append,
}
use cred_trail.Lifecycle.{
  Db, Event, is_allowed, find_assertion_by_id, same_state, revoked, Assertion,
}
use cred_trail.Lifecycle.Revoke.{
  RevocationResult, RevocationInput, record_assertion_revocation, revoke_found, RevocationStatus,
  newly_revoked, already_revoked,
}
use cred_trail.Lifecycle.Transition.{
  append_event, TransitionInput, State, TransitionResult, Reply, transitioned, done, input_error,
  normalized_reason, already, after_revocation, apply_transition, from_current,
  record_assertion_lifecycle_transition, FreshIds, Platform, new_event,
}
use cred_trail.Lifecycle.Transition.Append.{append_event_fresh, append_event_taken}
use cred_trail.Lifecycle.Transition.Outcome.{
  from_current_same, from_current_refused, from_current_allowed, current_state_of,
  transition_of_bad_input, transition_of_missing, transition_of_found, transition_missing,
}
use cred_trail.Lifecycle.Transition.Written.{
  revocation_input, apply_missing, apply_revocation, apply_other, transition-Written,
}

abbrev pub IsAllowed : Event → Type 0
IsAllowed e = is_allowed e.from_state e.to_state ≡ true

-- The events stay, or the call reports a transition.
abbrev Reports : Db → Reply × Db → Type 0
Reports db x =
    (x.1.events ≡ db.events) ⊎ ((r : TransitionResult) × (x.0 ≡ done r) × (r.status ≡ transitioned))

append_event-Reports :
    (db db₀ : Db) (input : TransitionInput) (id : String) (from : State) (reason : Option String)
    (at : String)
    → db₀.events ≡ db.events
    → Reports db (append_event db₀ input id from reason at)
append_event-Reports db db₀ input id from reason at same =
    elim (Bool-cases (any (λ old. str_eq old.id id) db₀.events)) [
      | inl taken ↦ rw (append_event_taken db₀ input id from reason at taken) (inl same)
      | inr fresh ↦ rw (append_event_fresh db₀ input id from reason at fresh) (inr (_, refl, refl))
    ]

record_assertion_revocation-events :
    (db db₀ : Db) (input : RevocationInput) (res : RevocationResult)
    → record_assertion_revocation db input ≡ some (res, db₀)
    → db₀.events ≡ db.events
unfolding record_assertion_revocation
record_assertion_revocation-events db db₀ input res e =
    elim (Option-cases (find_assertion_by_id db input.tenant_id input.assertion_id)) [
      | inl missing ↦
          let never : ◌≡◌ {A = Option (RevocationResult × Db)} none (some (res, db₀)) =
            rw (missing, record_assertion_revocation) at e in
          absurd (cc never)
      | inr (a, found) ↦
          let same : ◌≡◌ {A = Option (RevocationResult × Db)} (some (revoke_found db input a))
              (some (res, db₀)) =
            rw (found, record_assertion_revocation) at e in
          let pair : revoke_found db input a ≡ (res, db₀) = cc in sym (ap (λ x. x.1.events) pair)
    ]

module _ (input : TransitionInput) (id : String) (from : State) (reason : Option String)
    (res : RevocationResult) (db₀ : Db) where
  after_revocation_old :
      res.status ≡ already_revoked
      → after_revocation input id from reason (res, db₀)
        ≡ (already from input.to_state revoked, db₀)
  unfolding after_revocation
  after_revocation_old h = rw (h, after_revocation) refl

  after_revocation_new :
      res.status ≡ newly_revoked
      → after_revocation input id from reason (res, db₀)
        ≡ append_event db₀ input id from reason res.revoked_at
  unfolding after_revocation
  after_revocation_new h = rw (h, after_revocation) refl

after_revocation-Reports :
    (db db₀ : Db) (input : TransitionInput) (id : String) (from : State) (reason : Option String)
    (res : RevocationResult)
    → db₀.events ≡ db.events
    → Reports db (after_revocation input id from reason (res, db₀))
after_revocation-Reports db db₀ input id from reason res same = go res.status refl
  where
    go :
        (s : RevocationStatus)
        → res.status ≡ s
        → Reports db (after_revocation input id from reason (res, db₀))
    go already_revoked h = rw (after_revocation_old input id from reason res db₀ h) (inl same)
    go newly_revoked h =
        rw (after_revocation_new input id from reason res db₀ h)
          (append_event-Reports db db₀ input id from reason res.revoked_at same)

module _ (db : Db) (input : TransitionInput) (ids : FreshIds) where
  apply_transition-Reports :
      (from : State) (reason : Option String)
      → Reports db (apply_transition db input ids from reason)
  apply_transition-Reports from reason = elim (Bool-cases (same_state input.to_state revoked)) [
    | inr other ↦
        rw (apply_other db input ids from reason other)
          (append_event-Reports db db input ids.event_id from reason input.transitioned_at refl)
    | inl to_revoked ↦
        elim (Option-cases
          (record_assertion_revocation db (revocation_input db input ids reason))) [
            | inl missing ↦
                rw (apply_missing db input ids from reason to_revoked missing) (inl refl)
            | inr ((res, db₀), e) ↦
                rw (apply_revocation db input ids from reason (res, db₀) to_revoked e) (
                  after_revocation-Reports db db₀ input ids.event_id from reason res (
                    record_assertion_revocation-events db db₀ (revocation_input db input ids reason)
                      res e))
          ]
  ]

  from_current-Reports : (p : Platform) (s : State) → Reports db (from_current p db input ids s)
  from_current-Reports p s = elim (Bool-cases (same_state s input.to_state)) [
    | inl same ↦ rw (from_current_same p db input ids s same) (inl refl)
    | inr other ↦ elim (Bool-cases (is_allowed s input.to_state)) [
      | inr no_way ↦ rw (from_current_refused p db input ids s other no_way) (inl refl)
      | inl allowed ↦
          rw (from_current_allowed p db input ids s other allowed)
            (apply_transition-Reports s (normalized_reason p input.reason))
    ]
  ]

  transition-Reports :
      (p : Platform) → Reports db (record_assertion_lifecycle_transition p db input ids)
  transition-Reports p = elim (Option-cases (input_error p input)) [
    | inr (e, bad) ↦ rw (transition_of_bad_input p db input ids bad) (inl refl)
    | inl good ↦ elim (Option-cases (find_assertion_by_id db input.tenant_id input.assertion_id)) [
      | inl missing ↦ rw (transition_of_missing p db input ids good missing) (inl refl)
      | inr (a, found) ↦
          rw (transition_of_found p db input ids good found)
            (from_current-Reports p (current_state_of p db input ids a))
    ]
  ]

new_event-IsAllowed :
    (input : TransitionInput) (id : String) (from : State) (reason : Option String)
    → is_allowed from input.to_state ≡ true
    → IsAllowed (new_event input id from reason input.transitioned_at)
unfolding new_event
new_event-IsAllowed input id from reason h = h

-- One call keeps every event allowed.
transition-All-IsAllowed :
    (p : Platform) (db : Db) (input : TransitionInput) (ids : FreshIds)
    → All IsAllowed db.events
    → All IsAllowed (record_assertion_lifecycle_transition p db input ids).1.events
transition-All-IsAllowed p db input ids h = elim (transition-Reports db input ids p) [
  | inl same ↦ rw same h
  | inr (r, e, ok) ↦
      reported (Option-cases (find_assertion_by_id db input.tenant_id input.assertion_id)) r e ok
]
  where
    reported :
        (find_assertion_by_id db input.tenant_id input.assertion_id ≡ none)
          ⊎ ((a : Assertion) × (find_assertion_by_id db input.tenant_id input.assertion_id
                ≡ some a))
        → (r : TransitionResult) → (record_assertion_lifecycle_transition p db input ids).0 ≡ done r
        → r.status ≡ transitioned
        → All IsAllowed (record_assertion_lifecycle_transition p db input ids).1.events
    reported (inl missing) r e ok = absurd ((transition_missing p db input ids missing).1 r e ok)
    reported (inr (a, found)) r e ok =
        let db' = (record_assertion_lifecycle_transition p db input ids).1 in
        let whole : record_assertion_lifecycle_transition p db input ids ≡ (done r, db') =
          ap (λ x. (x, db')) e in
        let (open_row, allowed, w) = transition-Written p db input ids a r db' found whole ok in
        rw w.events (
          All-append IsAllowed db.events
            (new_event input ids.event_id (current_state_of p db input ids a) w.reason
                input.transitioned_at
              ∷ [])
            h
            (
              new_event-IsAllowed input ids.event_id (current_state_of p db input ids a) w.reason
                  allowed,
              tt,
            ))

-- The database after a sequence of calls.
pub run_transitions : Platform → Db → List (TransitionInput × FreshIds) → Db
run_transitions p db [] = db
run_transitions p db ((input, ids) ∷ calls) =
    run_transitions p (record_assertion_lifecycle_transition p db input ids).1 calls

-- Whatever calls are made in whatever order, with any input, every event in the table is a
-- transition that the table of allowed transitions has, if the events at the start are.
pub run_transitions-IsAllowed :
    (p : Platform) (db : Db) (calls : List (TransitionInput × FreshIds))
    → All IsAllowed db.events
    → All IsAllowed (run_transitions p db calls).events
unfolding run_transitions
run_transitions-IsAllowed p db [] h = h
run_transitions-IsAllowed p db ((input, ids) ∷ calls) h =
    run_transitions-IsAllowed p (record_assertion_lifecycle_transition p db input ids).1 calls
      (transition-All-IsAllowed p db input ids h)
