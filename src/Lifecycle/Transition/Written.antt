-- ===== src/Lifecycle/Transition/Written.antt =====
-- What a reported transition has written: its event, and the assertion's `revoked_at`.
use mathlib.Core.Option
use cred_trail.Prelude.{
  ◌≡◌, refl, sym, ap, ◌∙◌, ◌⊎◌, inl, inr, true, false, Option, none, some, [], ◌∷◌, ◌++◌, map,
  arith, String, str_eq, if◌then◌else◌, Bool-cases, Option-cases, or_else, any, find,
}
use cred_trail.Lifecycle.{
  State, revoked, Db, same_state, find_assertion_by_id, Assertion, Event, is_assertion, is_allowed,
}
use cred_trail.Lifecycle.Revoke.{
  RevocationInput, revoke_found, newly_revoked, mark_revoked, record_assertion_revocation,
  RevocationResult,
}
use cred_trail.Lifecycle.Transition.{
  TransitionInput, new_event, FreshIds, TransitionResult, transitioned, append_event, done, touch,
  apply_transition, record_assertion_lifecycle_transition, Platform, input_error, normalized_reason,
  after_revocation, assertion_not_found, thrown,
}
use cred_trail.Lifecycle.Transition.Append.{
  find-map, appended, append_event_taken, append_event_fresh, touch-revoked_at, touch_key,
  mark_revoked_key, find-holds, mark_revoked-revoked_at,
}
use cred_trail.Lifecycle.Transition.Outcome.{
  from_current_inv, current_state_of, transition_of_bad_input, transition_of_found,
  transition-revoked,
}

module _ (db : Db) (input : TransitionInput) (ids : FreshIds) where
  -- The event and the assertion that a transition from `from` leaves.
  pub record Written (from : State) (r : TransitionResult) (db' : Db) : Type 0 where
    pub reason : Option String
    pub fresh : any (λ old. str_eq old.id ids.event_id) db.events ≡ false
    pub from_state : r.from_state ≡ from
    pub current_state : r.current_state ≡ input.to_state
    pub status : r.status ≡ transitioned
    pub events :
        db'.events
        ≡ db.events ++ new_event input ids.event_id from reason input.transitioned_at ∷ []
    pub after : Assertion
    pub found : find_assertion_by_id db' input.tenant_id input.assertion_id ≡ some after
    pub revoked_at :
        after.revoked_at
        ≡ (if same_state input.to_state revoked then some input.transitioned_at else none)

  pub revocation_input : Option String → RevocationInput
  revocation_input reason = record {
    tenant_id = input.tenant_id;
    assertion_id = input.assertion_id;
    revocation_id = ids.revocation_id;
    reason = or_else reason input.reason_code;
    idempotency_key = ids.idempotency_key;
    revoked_by_user_id = input.actor_user_id;
    revoked_at = input.transitioned_at;
  }

  found_touched :
      (at : String) (e : Event) {a : Assertion} (db₀ : Db)
      → find_assertion_by_id db₀ input.tenant_id input.assertion_id ≡ some a
      → find_assertion_by_id (appended db₀ input at e) input.tenant_id input.assertion_id
        ≡ some (touch input.tenant_id input.assertion_id at a)
  unfolding find_assertion_by_id appended
  found_touched at e db₀ h =
      find-map (is_assertion input.tenant_id input.assertion_id)
        (touch input.tenant_id input.assertion_id at)
        (touch_key input.tenant_id input.assertion_id at) db₀.assertions
      ∙ ap (Option.map (touch input.tenant_id input.assertion_id at)) h

  append-Written :
      (db₀ : Db) (from : State) (reason : Option String) (a : Assertion) (r : TransitionResult)
      (db' : Db)
      → db₀.events ≡ db.events
      → find_assertion_by_id db₀ input.tenant_id input.assertion_id ≡ some a
      → a.revoked_at
        ≡ (if same_state input.to_state revoked then some input.transitioned_at else none)
      → append_event db₀ input ids.event_id from reason input.transitioned_at ≡ (done r, db')
      → Written from r db'
  unfolding appended
  append-Written db₀ from reason a r db' events found at e =
      elim (Bool-cases (any (λ old. str_eq old.id ids.event_id) db₀.events)) [
        | inl taken ↦
            let bad =
              sym
                (append_event_taken db₀ input ids.event_id from reason input.transitioned_at taken)
              ∙ e in
            absurd (cc (ap (λ x. x.0) bad))
        | inr fresh ↦
            let written =
              sym
                (append_event_fresh db₀ input ids.event_id from reason input.transitioned_at fresh)
              ∙ e in
            let reply = ap (λ x. x.0) written in
            let db_eq = ap (λ x. x.1) written in
            record {
              reason = reason;
              fresh = rw (← events) fresh;
              from_state = ground arith;
              current_state = ground arith;
              status = ground arith;
              events = rw (← db_eq, ← events) refl;
              after = touch input.tenant_id input.assertion_id input.transitioned_at a;
              found = rw (← db_eq) (found_touched input.transitioned_at _ db₀ found);
              revoked_at =
                  touch-revoked_at input.tenant_id input.assertion_id input.transitioned_at a ∙ at;
            }
      ]

  revoke_found_assertions :
      (reason : Option String) (a : Assertion)
      → a.revoked_at ≡ none
      → (revoke_found db (revocation_input reason) a).1.assertions
        ≡ map (mark_revoked input.tenant_id input.assertion_id input.transitioned_at) db.assertions
  unfolding revoke_found revocation_input
  revoke_found_assertions reason a open_row = rw (open_row, revoke_found) refl

  -- A first revocation marks the row and leaves the events.
  revocation_open :
      (reason : Option String) (a : Assertion)
      → find_assertion_by_id db input.tenant_id input.assertion_id ≡ some a
      → a.revoked_at ≡ none
      → record_assertion_revocation db (revocation_input reason)
        ≡ some (
          record { status = newly_revoked; revoked_at = input.transitioned_at },
          (revoke_found db (revocation_input reason) a).1,
        )
  unfolding record_assertion_revocation revocation_input
  revocation_open reason a found open_row = rw (found, open_row, record_assertion_revocation) refl

  revoke_found_events :
      (reason : Option String) (a : Assertion)
      → (revoke_found db (revocation_input reason) a).1.events ≡ db.events
  unfolding revoke_found
  revoke_found_events reason a = refl

  found_marked :
      (reason : Option String) (a : Assertion)
      → find_assertion_by_id db input.tenant_id input.assertion_id ≡ some a
      → a.revoked_at ≡ none
      → find_assertion_by_id
          (revoke_found db (revocation_input reason) a).1
          input.tenant_id
          input.assertion_id
        ≡ some (mark_revoked input.tenant_id input.assertion_id input.transitioned_at a)
  unfolding find_assertion_by_id
  found_marked reason a found open_row =
      let t = input.tenant_id in
      let i = input.assertion_id in
      ap (find (is_assertion t i)) (revoke_found_assertions reason a open_row)
      ∙ find-map (is_assertion t i) (mark_revoked t i input.transitioned_at)
          (mark_revoked_key t i input.transitioned_at) db.assertions
      ∙ ap (Option.map (mark_revoked t i input.transitioned_at)) found

  apply_revoked :
      (from : State) (reason : Option String) (db₀ : Db)
      → same_state input.to_state revoked ≡ true
      → record_assertion_revocation db (revocation_input reason)
        ≡ some (record { status = newly_revoked; revoked_at = input.transitioned_at }, db₀)
      → apply_transition db input ids from reason
        ≡ append_event db₀ input ids.event_id from reason input.transitioned_at
  unfolding apply_transition revocation_input
  apply_revoked from reason db₀ h e = rw (h, e, apply_transition) refl

  pub apply_missing :
      (from : State) (reason : Option String)
      → same_state input.to_state revoked ≡ true
      → record_assertion_revocation db (revocation_input reason) ≡ none
      → apply_transition db input ids from reason ≡ (thrown assertion_not_found, db)
  unfolding apply_transition revocation_input
  apply_missing from reason h e = rw (h, e, apply_transition) refl

  pub apply_revocation :
      (from : State) (reason : Option String) (x : RevocationResult × Db)
      → same_state input.to_state revoked ≡ true
      → record_assertion_revocation db (revocation_input reason) ≡ some x
      → apply_transition db input ids from reason
        ≡ after_revocation input ids.event_id from reason x
  unfolding apply_transition revocation_input
  apply_revocation from reason x h e = rw (h, e, apply_transition) refl

  pub apply_other :
      (from : State) (reason : Option String)
      → same_state input.to_state revoked ≡ false
      → apply_transition db input ids from reason
        ≡ append_event db input ids.event_id from reason input.transitioned_at
  unfolding apply_transition
  apply_other from reason h = rw (h, apply_transition) refl

  -- The writing part, from an assertion that is not revoked.
  apply-Written :
      (from : State) (reason : Option String) (a : Assertion) (r : TransitionResult) (db' : Db)
      → find_assertion_by_id db input.tenant_id input.assertion_id ≡ some a
      → a.revoked_at ≡ none
      → apply_transition db input ids from reason ≡ (done r, db')
      → Written from r db'
  apply-Written from reason a r db' found open_row e =
      elim (Bool-cases (same_state input.to_state revoked)) [
        | inl yes_revoked ↦
            append-Written (revoke_found db (revocation_input reason) a).1 from reason
              (mark_revoked input.tenant_id input.assertion_id input.transitioned_at a) r db'
              (revoke_found_events reason a) (found_marked reason a found open_row)
              (rw yes_revoked (
                mark_revoked-revoked_at input.tenant_id input.assertion_id input.transitioned_at a
                  (find-holds (is_assertion input.tenant_id input.assertion_id) db.assertions
                    {a = a} (unfold find_assertion_by_id in found))
                  open_row))
              (sym (
                  apply_revoked from reason (revoke_found db (revocation_input reason) a).1
                    yes_revoked (revocation_open reason a found open_row))
                ∙ e)
        | inr other ↦
            append-Written db from reason a r db' refl found (rw other open_row)
              (sym (apply_other from reason other) ∙ e)
      ]

-- Every call that reports a transition: it was allowed from the current state, which was not
-- `revoked`, and its event and its mark are in the tables.
pub transition-Written :
    (p : Platform) (db : Db) (input : TransitionInput) (ids : FreshIds) (a : Assertion)
    (r : TransitionResult) (db' : Db)
    → find_assertion_by_id db input.tenant_id input.assertion_id ≡ some a
    → record_assertion_lifecycle_transition p db input ids ≡ (done r, db')
    → r.status ≡ transitioned
    → (a.revoked_at ≡ none)
      × (is_allowed (current_state_of p db input ids a) input.to_state ≡ true)
      × Written db input ids (current_state_of p db input ids a) r db'
transition-Written p db input ids a r db' found e ok = elim (Option-cases (input_error p input)) [
  | inr (bad, h) ↦
      let wrong = ap (λ x. x.0) (sym (transition_of_bad_input p db input ids h) ∙ e) in
      absurd (cc wrong)
  | inl good ↦
      let current = current_state_of p db input ids a in
      let (allowed, e') =
        from_current_inv p db input ids current r db'
          (sym (transition_of_found p db input ids good found) ∙ e) ok in
      let open_row = not_revoked (Option-cases a.revoked_at) in
      (
        open_row,
        allowed,
        apply-Written db input ids current (normalized_reason p input.reason) a r db' found open_row
            e',
      )
]
  where
    not_revoked :
        (a.revoked_at ≡ none) ⊎ ((at : String) × (a.revoked_at ≡ some at)) → a.revoked_at ≡ none
    not_revoked (inl h) = h
    not_revoked (inr (at, h)) =
        absurd ((transition-revoked p db input ids a at found h).1 r (ap (λ x. x.0) e) ok)
