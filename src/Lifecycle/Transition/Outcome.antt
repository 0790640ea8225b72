-- ===== src/Lifecycle/Transition/Outcome.antt =====
-- What a call of `record_assertion_lifecycle_transition` has done when it returns.
use cred_trail.Prelude.{
  ◌≡◌, refl, sym, ap, ◌∙◌, ◌≢◌, ◌↔◌, inl, inr, true, false, Option, none, some, arith, String,
  Bool-cases, Option-cases,
}
use cred_trail.Lifecycle.{
  State, revoked, Db, same_state, is_allowed, find_assertion_by_id, Assertion, Event,
}
use cred_trail.Lifecycle.Resolve.{assertion_lifecycle_state_from_records, find_latest_event}
use cred_trail.Lifecycle.Transition.{
  input_error, from_current, already, not_allowed, record_assertion_lifecycle_transition,
  TransitionInput, FreshIds, TransitionResult, Error, Reply, Platform, transitioned, done, thrown,
  assertion_not_found, normalized_reason, apply_transition,
}

-- Neither the reply nor the database shows a transition.
abbrev pub IsRefused : Db → Reply × Db → Type 0
IsRefused db x = (x.1 ≡ db) × ((r : TransitionResult) → x.0 ≡ done r → r.status ≢ transitioned)

IsRefused-thrown : (db : Db) (e : Error) → IsRefused db (thrown e, db)
IsRefused-thrown db e = (refl, λ r h. cc)

IsRefused-already : (db : Db) (a b c : State) → IsRefused db (already a b c, db)
unfolding already
IsRefused-already db a b c = (refl, λ r h t. cc)

IsRefused-not_allowed : (db : Db) (a b : State) → IsRefused db (not_allowed a b, db)
unfolding not_allowed
IsRefused-not_allowed db a b = (refl, λ r h t. cc)

pub same_state_iff : (a b : State) → (same_state a b ≡ true) ↔ (a ≡ b)
unfolding same_state
same_state_iff a b = ground arith

revoked_goes_nowhere : (s : State) → same_state revoked s ≡ false → is_allowed revoked s ≡ false
unfolding same_state is_allowed
revoked_goes_nowhere s h = ground arith

-- The three ways on from the current state.
module _ (p : Platform) (db : Db) (input : TransitionInput) (ids : FreshIds) where
  pub from_current_same :
      (s : State)
      → same_state s input.to_state ≡ true
      → from_current p db input ids s ≡ (already s input.to_state s, db)
  unfolding from_current
  from_current_same s h = rw (h, from_current)

  pub from_current_refused :
      (s : State)
      → same_state s input.to_state ≡ false
      → is_allowed s input.to_state ≡ false
      → from_current p db input ids s ≡ (not_allowed s input.to_state, db)
  unfolding from_current
  from_current_refused s h k = rw (h, k, from_current)

  pub from_current_allowed :
      (s : State)
      → same_state s input.to_state ≡ false
      → is_allowed s input.to_state ≡ true
      → from_current p db input ids s
        ≡ apply_transition db input ids s (normalized_reason p input.reason)
  unfolding from_current
  from_current_allowed s h k = rw (h, k, from_current) refl

  -- A transition that is reported was allowed, and is what `apply_transition` returned.
  pub from_current_inv :
      (s : State) (r : TransitionResult) (db' : Db)
      → from_current p db input ids s ≡ (done r, db')
      → r.status ≡ transitioned
      → (is_allowed s input.to_state ≡ true)
        × (apply_transition db input ids s (normalized_reason p input.reason) ≡ (done r, db'))
  from_current_inv s r db' e ok = elim (Bool-cases (same_state s input.to_state)) [
    | inl same ↦ absurd (
        (IsRefused-already db s input.to_state s).1 r
          (ap (λ x. x.0) (sym (from_current_same s same) ∙ e)) ok)
    | inr other ↦ elim (Bool-cases (is_allowed s input.to_state)) [
      | inr refused ↦ absurd (
          (IsRefused-not_allowed db s input.to_state).1 r
            (ap (λ x. x.0) (sym (from_current_refused s other refused) ∙ e)) ok)
      | inl allowed ↦ (allowed, sym (from_current_allowed s other allowed) ∙ e)
    ]
  ]

  from_current-revoked : IsRefused db (from_current p db input ids revoked)
  from_current-revoked = elim (Bool-cases (same_state revoked input.to_state)) [
    | inl same ↦
        rw (from_current_same revoked same) (IsRefused-already db revoked input.to_state revoked)
    | inr other ↦
        rw (from_current_refused revoked other (revoked_goes_nowhere input.to_state other))
          (IsRefused-not_allowed db revoked input.to_state)
  ]

-- The call up to the current state.
module _ (p : Platform) (db : Db) (input : TransitionInput) (ids : FreshIds) where
  abbrev pub current_state_of : Assertion → State
  current_state_of a =
      (assertion_lifecycle_state_from_records a
        (find_latest_event p.text_lt db input.tenant_id input.assertion_id)).state

  pub transition_of_bad_input :
      {e : Error}
      → input_error p input ≡ some e
      → record_assertion_lifecycle_transition p db input ids ≡ (thrown e, db)
  unfolding record_assertion_lifecycle_transition
  transition_of_bad_input h = rw (h, record_assertion_lifecycle_transition)

  pub transition_of_missing :
      input_error p input ≡ none
      → find_assertion_by_id db input.tenant_id input.assertion_id ≡ none
      → record_assertion_lifecycle_transition p db input ids ≡ (thrown assertion_not_found, db)
  unfolding record_assertion_lifecycle_transition
  transition_of_missing h k = rw (h, k, record_assertion_lifecycle_transition)

  pub transition_of_found :
      {a : Assertion}
      → input_error p input ≡ none
      → find_assertion_by_id db input.tenant_id input.assertion_id ≡ some a
      → record_assertion_lifecycle_transition p db input ids
        ≡ from_current p db input ids (current_state_of a)
  unfolding record_assertion_lifecycle_transition
  transition_of_found h k = rw (h, k, record_assertion_lifecycle_transition)

pub state_from-revoked :
    (a : Assertion) (latest : Option Event) (at : String)
    → a.revoked_at ≡ some at
    → (assertion_lifecycle_state_from_records a latest).state ≡ revoked
unfolding assertion_lifecycle_state_from_records
state_from-revoked a latest at h = ground arith

-- A revoked assertion is final: no call changes the database, and none reports a transition.
pub transition-revoked :
    (p : Platform) (db : Db) (input : TransitionInput) (ids : FreshIds) (a : Assertion)
    (at : String)
    → find_assertion_by_id db input.tenant_id input.assertion_id ≡ some a
    → a.revoked_at ≡ some at
    → IsRefused db (record_assertion_lifecycle_transition p db input ids)
transition-revoked p db input ids a at found rev = elim (Option-cases (input_error p input)) [
  | inr (e, bad) ↦ rw (transition_of_bad_input p db input ids bad) (IsRefused-thrown db e)
  | inl good ↦
      let latest = find_latest_event p.text_lt db input.tenant_id input.assertion_id in
      rw (transition_of_found p db input ids good found, state_from-revoked a latest at rev)
        (from_current-revoked p db input ids)
]

-- Without the assertion nothing is written.
pub transition_missing :
    (p : Platform) (db : Db) (input : TransitionInput) (ids : FreshIds)
    → find_assertion_by_id db input.tenant_id input.assertion_id ≡ none
    → IsRefused db (record_assertion_lifecycle_transition p db input ids)
transition_missing p db input ids missing = elim (Option-cases (input_error p input)) [
  | inr (e, bad) ↦ rw (transition_of_bad_input p db input ids bad) (IsRefused-thrown db e)
  | inl good ↦
      rw (transition_of_missing p db input ids good missing)
        (IsRefused-thrown db assertion_not_found)
]
