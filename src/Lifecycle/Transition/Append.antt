-- ===== src/Lifecycle/Transition/Append.antt =====
-- The part of a call of `record_assertion_lifecycle_transition` that writes: what a reported
-- transition has left in the tables.
use cred_trail.Prelude.{
  ◌≡◌, refl, sym, ap, subst, ◌∙◌, inl, inr, Bool, true, false, not, ◌&&◌, ◌||◌, false≢true, Option,
  none, some, List, [], ◌∷◌, ◌++◌, map, arith, String, str_eq, eq_refl, Bool-cases, is_some, any,
  find,
}
use cred_trail.Lifecycle.{is_assertion, Assertion, State, Event, Db}
use cred_trail.Lifecycle.Revoke.{mark_revoked}
use cred_trail.Lifecycle.Transition.{
  touch, new_event, append_event, TransitionInput, transitioned, duplicate_event_id, done, thrown,
}
use mathlib.Core.Option

-- A search over rows whose keys a change keeps.
pub find-map :
    (q : Assertion → Bool) (f : Assertion → Assertion)
    → ((a : Assertion) → q (f a) ≡ q a)
    → (xs : List Assertion) → find q (map f xs) ≡ Option.map f (find q xs)
find-map q f h [] = refl
find-map q f h (x ∷ xs) = elim (Bool-cases (q x)) [
  | inl y ↦ rw (h x, y)
  | inr n ↦ rw (h x, n) (find-map q f h xs)
]

pub touch_key :
    (t i at : String) (a : Assertion) → is_assertion t i (touch t i at a) ≡ is_assertion t i a
unfolding touch
touch_key t i at a = elim (Bool-cases (is_assertion t i a)) [
  | inl y ↦ rw (y, touch) y
  | inr n ↦ rw (n, touch) n
]

pub mark_revoked_key :
    (t i at : String) (a : Assertion)
    → is_assertion t i (mark_revoked t i at a) ≡ is_assertion t i a
unfolding mark_revoked
mark_revoked_key t i at a = elim (Bool-cases (is_assertion t i a && not (is_some a.revoked_at))) [
  | inl y ↦ rw (y, mark_revoked) refl
  | inr n ↦ rw (n, mark_revoked) refl
]

-- The rows after the insert of an event.
unfoldable pub appended : Db → TransitionInput → String → Event → Db
appended db input at e = record db {
  events = db.events ++ e ∷ [];
  assertions = map (touch input.tenant_id input.assertion_id at) db.assertions;
}

find-append :
    (q : Event → Bool) (xs : List Event) (e : Event)
    → any q xs ≡ false
    → q e ≡ true
    → find q (xs ++ e ∷ []) ≡ some e
find-append q [] e h k = rw k
find-append q (x ∷ xs) e h k = elim (Bool-cases (q x)) [
  | inl y ↦ absurd (false≢true (sym h ∙ ap (λ b. b || any q xs) y))
  | inr n ↦ rw n (find-append q xs e (rw n at h) k)
]

module _ (db : Db) (input : TransitionInput) (id : String) (from : State) (reason : Option String)
    (at : String) where
  pub append_event_taken :
      any (λ old. str_eq old.id id) db.events ≡ true
      → append_event db input id from reason at ≡ (thrown duplicate_event_id, db)
  unfolding append_event
  append_event_taken h = rw (h, append_event)

  pub append_event_fresh :
      any (λ old. str_eq old.id id) db.events ≡ false
      → let e = new_event input id from reason at in
        append_event db input id from reason at ≡ (
          done (record {
            status = transitioned;
            from_state = from;
            to_state = input.to_state;
            current_state = input.to_state;
            event = some e;
            message = none;
          }),
          appended db input at e,
        )
  unfolding append_event appended
  append_event_fresh h = rw (
    h,
    find-append (λ row. str_eq row.id id) db.events (new_event input id from reason at) h
        (eq_refl id),
    append_event,
  )

pub touch-revoked_at :
    (t i at : String) (a : Assertion) → (touch t i at a).revoked_at ≡ a.revoked_at
unfolding touch
touch-revoked_at t i at a = ground arith

pub find-holds :
    (q : Assertion → Bool) (xs : List Assertion) {a : Assertion} → find q xs ≡ some a → q a ≡ true
find-holds q [] {a} h = cc
find-holds q (x ∷ xs) {a} h = elim (Bool-cases (q x)) [
  | inl y ↦
      let found : ◌≡◌ {A = Option Assertion} (some x) (some a) = rw y at h in
      let same : x ≡ a = cc in subst (λ w. q w ≡ true) same y
  | inr n ↦ find-holds q xs {a = a} (rw n at h)
]

module _ (t i at : String) (a : Assertion) where
  pub mark_revoked-revoked_at :
      is_assertion t i a ≡ true → a.revoked_at ≡ none → (mark_revoked t i at a).revoked_at ≡ some at
  unfolding mark_revoked
  mark_revoked-revoked_at h k = rw (h, k, mark_revoked) refl
