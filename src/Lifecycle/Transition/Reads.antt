-- ===== src/Lifecycle/Transition/Reads.antt =====
-- Reading the state of an assertion after a transition that was reported.
use cred_trail.Prelude.{
  ◌≡◌, refl, sym, ap, ◌∙◌, inl, inr, Bool, true, false, Option, none, some, List, [], ◌∷◌, ◌++◌,
  arith, String, eq_refl, if◌then◌else◌, Bool-cases, keep,
}
use cred_trail.Lifecycle.{
  revoked, Db, same_state, find_assertion_by_id, is_event_of, Assertion, Event,
}
use cred_trail.Lifecycle.Resolve.{
  find_latest_event, is_before, first_of_order, assertion_lifecycle_state_from_records,
  resolve_assertion_lifecycle_state, Resolved,
}
use cred_trail.Lifecycle.Transition.{
  TransitionInput, new_event, record_assertion_lifecycle_transition, FreshIds, TransitionResult,
  Platform, transitioned, done,
}
use cred_trail.Lifecycle.Transition.Written.{Written, transition-Written}
use cred_trail.Lifecycle.Transition.Outcome.{current_state_of}

module _ (text_lt : String → String → Bool) where
  -- The later of the latest event so far and one more.
  abbrev later_of : Option Event → Event → Option Event
  later_of none e = some e
  later_of (some b) e = some (if is_before text_lt b e then e else b)

  first_of_order-append :
      (o : Option Event) (xs : List Event) (e : Event)
      → first_of_order text_lt o (xs ++ e ∷ []) ≡ later_of (first_of_order text_lt o xs) e
  unfolding first_of_order
  first_of_order-append none [] e = refl
  first_of_order-append (some b) [] e = refl
  first_of_order-append none (x ∷ xs) e = first_of_order-append (some x) xs e
  first_of_order-append (some b) (x ∷ xs) e =
      first_of_order-append (some (if is_before text_lt b x then x else b)) xs e

  keep-append :
      (q : Event → Bool) (xs : List Event) (e : Event)
      → q e ≡ true
      → keep q (xs ++ e ∷ []) ≡ keep q xs ++ e ∷ []
  keep-append q [] e h = rw h
  keep-append q (x ∷ xs) e h = elim (Bool-cases (q x)) [
    | inl y ↦ rw y (ap (λ l. x ∷ l) (keep-append q xs e h))
    | inr n ↦ rw n (keep-append q xs e h)
  ]

  find_latest_event-append :
      (db db' : Db) (t i : String) (e : Event)
      → is_event_of t i e ≡ true
      → db'.events ≡ db.events ++ e ∷ []
      → find_latest_event text_lt db' t i ≡ later_of (find_latest_event text_lt db t i) e
  unfolding find_latest_event
  find_latest_event-append db db' t i e h k = rw k (
      rw (keep-append (is_event_of t i) db.events e h)
        (first_of_order-append none (keep (is_event_of t i) db.events) e))

module _ (p : Platform) (db : Db) (input : TransitionInput) (ids : FreshIds) (a : Assertion)
    (r : TransitionResult) (db' : Db) where
  resolve_lem :
      (after : Assertion) (latest : Option Event)
      → find_assertion_by_id db' input.tenant_id input.assertion_id ≡ some after
      → find_latest_event p.text_lt db' input.tenant_id input.assertion_id ≡ latest
      → resolve_assertion_lifecycle_state p.text_lt db' input.tenant_id input.assertion_id
        ≡ some (assertion_lifecycle_state_from_records after latest)
  unfolding resolve_assertion_lifecycle_state
  resolve_lem after latest found e = rw (found, e, resolve_assertion_lifecycle_state) refl

  abbrev event_of : Option String → Event
  event_of reason =
      new_event input ids.event_id (current_state_of p db input ids a) reason input.transitioned_at

  latest_after :
      (w : Written db input ids (current_state_of p db input ids a) r db')
      → find_latest_event p.text_lt db' input.tenant_id input.assertion_id
        ≡ later_of p.text_lt
            (find_latest_event p.text_lt db input.tenant_id input.assertion_id)
            (event_of w.reason)
  unfolding new_event
  latest_after w =
      find_latest_event-append p.text_lt db db' input.tenant_id input.assertion_id
        (event_of w.reason) (rw (eq_refl input.tenant_id, eq_refl input.assertion_id) refl) w.events

  -- The state that is read when the new event is the latest.
  state_of_new :
      (after : Assertion) (reason : Option String)
      → after.revoked_at
        ≡ (if same_state input.to_state revoked then some input.transitioned_at else none)
      → (assertion_lifecycle_state_from_records after (some (event_of reason))).state
        ≡ input.to_state
  unfolding assertion_lifecycle_state_from_records new_event same_state
  state_of_new after reason h = ground arith

  later_of_newest :
      (o : Option Event) (reason : Option String)
      → ((l : Event) → o ≡ some l → p.text_lt l.transitioned_at input.transitioned_at ≡ true)
      → later_of p.text_lt o (event_of reason) ≡ some (event_of reason)
  unfolding is_before new_event
  later_of_newest none reason h = refl
  later_of_newest (some l) reason h = rw (h l refl) refl

  -- A reported transition whose timestamp is after that of the latest event of the assertion is
  -- what a read then finds: the read gives the target state, and so does the reply.
  pub transition-resolve :
      find_assertion_by_id db input.tenant_id input.assertion_id ≡ some a
      → record_assertion_lifecycle_transition p db input ids ≡ (done r, db')
      → r.status ≡ transitioned
      → ((l : Event)
          → find_latest_event p.text_lt db input.tenant_id input.assertion_id ≡ some l
          → p.text_lt l.transitioned_at input.transitioned_at ≡ true)
      → (s : Resolved) × (resolve_assertion_lifecycle_state p.text_lt db' input.tenant_id
            input.assertion_id
          ≡ some s)
        × (s.state ≡ input.to_state)
        × (r.current_state ≡ input.to_state)
  transition-resolve found e ok newest =
      let w = (transition-Written p db input ids a r db' found e ok).2 in
      let latest = find_latest_event p.text_lt db input.tenant_id input.assertion_id in
      (
        assertion_lifecycle_state_from_records w.after (some (event_of w.reason)),
        resolve_lem w.after (some (event_of w.reason)) w.found
            (latest_after w ∙ later_of_newest latest w.reason newest),
        state_of_new w.after w.reason w.revoked_at,
        w.current_state,
      )

  state_of_old :
      (after : Assertion) (l : Event)
      → after.revoked_at ≡ none
      → (assertion_lifecycle_state_from_records after (some l)).state ≡ l.to_state
  unfolding assertion_lifecycle_state_from_records
  state_of_old after l h = ground arith

  later_of_oldest :
      (l : Event) (reason : Option String)
      → p.text_lt l.transitioned_at input.transitioned_at ≡ false
      → p.text_lt input.transitioned_at l.transitioned_at ≡ true
      → later_of p.text_lt (some l) (event_of reason) ≡ some l
  unfolding is_before new_event
  later_of_oldest l reason h k = rw (h, k) refl

  -- A reported transition to another state than `revoked` whose timestamp is before that of the
  -- latest event is not what a read then finds: the read still gives the state from before, which
  -- the reply names as the one that was left.
  pub transition_backdated :
      (l : Event)
      → find_assertion_by_id db input.tenant_id input.assertion_id ≡ some a
      → record_assertion_lifecycle_transition p db input ids ≡ (done r, db')
      → r.status ≡ transitioned
      → same_state input.to_state revoked ≡ false
      → find_latest_event p.text_lt db input.tenant_id input.assertion_id ≡ some l
      → p.text_lt l.transitioned_at input.transitioned_at ≡ false
      → p.text_lt input.transitioned_at l.transitioned_at ≡ true
      → (s : Resolved) × (resolve_assertion_lifecycle_state p.text_lt db' input.tenant_id
            input.assertion_id
          ≡ some s)
        × (s.state ≡ r.from_state)
        × (r.current_state ≡ input.to_state)
  transition_backdated l found e ok other latest h k =
      let (open_row, allowed, w) = transition-Written p db input ids a r db' found e ok in
      let shut : w.after.revoked_at ≡ none =
        w.revoked_at ∙ ap (λ b. if b then some input.transitioned_at else none) other in
      let current : current_state_of p db input ids a ≡ l.to_state =
        ap (λ o. (assertion_lifecycle_state_from_records a o).state) latest
        ∙ state_of_old a l open_row in
      (
        assertion_lifecycle_state_from_records w.after (some l),
        resolve_lem w.after (some l) w.found (
            latest_after w
            ∙ ap (λ o. later_of p.text_lt o (event_of w.reason)) latest
            ∙ later_of_oldest l w.reason h k),
        state_of_old w.after l shut ∙ sym current ∙ sym w.from_state,
        w.current_state,
      )
