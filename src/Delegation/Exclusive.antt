-- ===== src/Delegation/Exclusive.antt =====
-- Two grants that cover one request, under sequences of calls.
use cred_trail.Prelude.{
  ℕ, suc, ◌≡◌, refl, sym, ap, subst, ◌∙◌, ◌⊎◌, inl, inr, Bool, true, false, not, ◌&&◌, ◌||◌,
  false≢true, List, [], ◌∷◌, Memᴰ, arith, String, str_eq, eq_iff, ◌==◌, Bool-cases, is_some,
  and_left, and_right, has-Memᴰ, has, length, All-weaken, or_back, Pairwise, any-weaken,
}
use cred_trail.Delegation.{
  Grant, same_action, includes, is_revoked_grant, DelegatedAction, Authority, Clock,
}
use cred_trail.Delegation.Create.{in_conflict, has_template_scope_overlap, has_action_overlap}
use cred_trail.Delegation.Apart.{
  IsApart, HasNoConflict, run_calls, run_calls-HasNoConflict, GrantCall,
}
use cred_trail.OrgUnits.{OrgUnit}
use cred_trail.Delegation.Covering.{IsCovering, same_action-eq, includes-Memᴰ}
use cred_trail.Delegation.Resolve.{ResolveInput}

-- Two grants on one org unit both cover a request, as the lookup tests it, at most at a moment at
-- which one of them ends.
abbrev pub IsExclusive : Clock → Grant → Grant → Type 0
IsExclusive clock old new =
    (units : List OrgUnit) (input : ResolveInput) (at : String)
    → old.org_unit_id ≡ new.org_unit_id
    → IsCovering clock units input at old
    → IsCovering clock units input at new
    → (clock.text_lt at old.ends_at && clock.text_lt at new.ends_at) ≡ false

-- What is not after a first text is before whatever the first is before.
abbrev pub IsOrder : (String → String → Bool) → Type 0
IsOrder lt = (x y z : String) → lt x y ≡ false → lt x z ≡ true → lt y z ≡ true

shared_action :
    (a : DelegatedAction) (new old : List DelegatedAction)
    → includes new a ≡ true
    → includes old a ≡ true
    → has_action_overlap new old ≡ true
unfolding has_action_overlap
shared_action a new old h k =
    any-weaken (λ b. same_action b a) (includes old) new
      (λ b e. subst (λ c. includes old c ≡ true) (sym (same_action-eq b a e)) k) h

nonempty : (n : ℕ) (b : Bool) → (suc n == 0 || b) ≡ true → b ≡ true
nonempty n b h = ground arith

shared_template :
    (t : String) (new old : List String)
    → (length new == 0 || has t new) ≡ true
    → (length old == 0 || has t old) ≡ true
    → has_template_scope_overlap new old ≡ true
unfolding has_template_scope_overlap
shared_template t [] old h k = refl
shared_template t (x ∷ xs) [] h k = refl
shared_template t (x ∷ xs) (y ∷ ys) h k =
    any-weaken (λ z. str_eq z t) (λ z. has z (y ∷ ys)) (x ∷ xs)
      (λ z e.
        subst (λ w. has w (y ∷ ys) ≡ true) (sym ((eq_iff z t).0 e))
          (nonempty (length ys) (has t (y ∷ ys)) k))
      (nonempty (length xs) (has t (x ∷ xs)) h)

named_or_all :
    (t : String) (ids : List String)
    → (ids ≡ []) ⊎ Memᴰ t ids
    → (length ids == 0 || has t ids) ≡ true
named_or_all t ids (inl e) = rw (e) refl
named_or_all t ids (inr there) = or_back (length ids == 0) (has t ids) ((has-Memᴰ t ids).1 there)

same_keys : (t d u : Bool) → t ≡ true → d ≡ true → u ≡ true → ((t && d) && u) ≡ true
same_keys t d u ht hd hu = ground arith

conflict_parts :
    (o t d u r s e a m : Bool)
    → o ≡ false
    → ((t && d) && u) ≡ true
    → r ≡ false
    → s ≡ true
    → e ≡ true
    → a ≡ true
    → m ≡ true
    → (not o && ((((t && d) && (u && not r)) && (s && e)) && (a && m))) ≡ true
conflict_parts o t d u r s e a m ho hk hr hs he ha hm = ground arith

IsApart-IsExclusive :
    (clock : Clock) (old new : Grant)
    → IsOrder clock.text_lt
    → IsApart clock old new
    → IsExclusive clock old new
unfolding in_conflict
IsApart-IsExclusive clock old new order apart units input at unit (t, d, r, s, e, a, u, m)
      (t', d', r', s', e', a', u', m') =
    elim (Bool-cases (clock.text_lt at old.ends_at && clock.text_lt at new.ends_at)) [
      | inr over ↦ over
      | inl going ↦
          let old_ends = and_left (clock.text_lt at old.ends_at) _ going in
          let new_ends = and_right _ (clock.text_lt at new.ends_at) going in
          let action = input.required_action in
          let template = input.badge_template_id in
          absurd (
            false≢true (
              sym apart.1
              ∙ conflict_parts (is_revoked_grant new) (str_eq old.tenant_id new.tenant_id)
                  (str_eq old.delegate_user_id new.delegate_user_id)
                  (str_eq old.org_unit_id new.org_unit_id) (is_revoked_grant old)
                  (clock.text_lt old.starts_at new.ends_at)
                  (clock.text_lt new.starts_at old.ends_at)
                  (has_action_overlap new.allowed_actions old.allowed_actions)
                  (has_template_scope_overlap new.badge_template_ids old.badge_template_ids)
                  (ap is_some r')
                  (same_keys (str_eq old.tenant_id new.tenant_id)
                    (str_eq old.delegate_user_id new.delegate_user_id)
                    (str_eq old.org_unit_id new.org_unit_id)
                    ((eq_iff old.tenant_id new.tenant_id).1 (t ∙ sym t'))
                    ((eq_iff old.delegate_user_id new.delegate_user_id).1 (d ∙ sym d'))
                    ((eq_iff old.org_unit_id new.org_unit_id).1 unit))
                  (ap is_some r) (order at old.starts_at new.ends_at s new_ends)
                  (order at new.starts_at old.ends_at s' old_ends)
                  (shared_action action new.allowed_actions old.allowed_actions
                    ((includes-Memᴰ new.allowed_actions action).1 a')
                    ((includes-Memᴰ old.allowed_actions action).1 a))
                  (shared_template template new.badge_template_ids old.badge_template_ids
                    (named_or_all template new.badge_template_ids m')
                    (named_or_all template old.badge_template_ids m))))
    ]

Pairwise-weaken {ℓ κ ι} :
    {A : Type ℓ} (R : A → A → Type κ) (S : A → A → Type ι) (xs : List A)
    → ((x y : A) → R x y → S x y)
    → Pairwise R xs
    → Pairwise S xs
Pairwise-weaken R S [] h k = tt
Pairwise-weaken R S (x ∷ xs) h k =
    (All-weaken (R x) (S x) xs (h x) k.0, Pairwise-weaken R S xs h k.1)

-- Whatever grants are made, revoked and looked up, in any order, where no two grants are in conflict
-- and no two have one id at the start: two grants on one org unit both cover a request of a member,
-- as the lookup tests it, at no moment but one at which one of them ends (a grant may start when
-- another ends, and both are in force then). The database's order of texts is an order.
pub run_calls-IsExclusive :
    (clock : Clock) (calls : List GrantCall) (db : Authority)
    → IsOrder clock.text_lt
    → HasNoConflict clock db
    → Pairwise (IsExclusive clock) (run_calls clock calls db).grants
unfolding HasNoConflict
run_calls-IsExclusive clock calls db order h =
    Pairwise-weaken (IsApart clock) (IsExclusive clock) (run_calls clock calls db).grants
      (λ old new apart. IsApart-IsExclusive clock old new order apart)
      (run_calls-HasNoConflict clock calls db h)
