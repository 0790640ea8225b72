-- ===== src/Delegation/Tests.antt =====
-- Two grants on a small institution, and the instances of the theorems.
use cred_trail.Prelude.{
  ℕ, ◌≡◌, refl, ◌↔◌, true, false, Option, none, some, List, [], ◌∷◌, arith, String, str_eq, ltb,
  if◌then◌else◌, is_some, or_else, Some, Pairwise, ok, err,
}
use cred_trail.OrgUnits.{OrgUnit, institution, find_tenant_org_unit_by_id, required_parent_type}
use cred_trail.Delegation.{
  Grant, issue_badge_action, revoke_badge_action, same_action, normalize_actions,
  normalize_badge_template_ids, grant_status, is_grant, find_grant_row, record_expired_events,
  map_grant_row, find_grant_by_id, is_within_scope, DelegatedAction, GrantStatus, Authority, Clock,
  grant_active, grant_revoked, grant_conflict,
}
use cred_trail.Delegation.Exclusive.{IsExclusive, IsOrder, run_calls-IsExclusive}
use cred_trail.Delegation.Apart.{
  create_call, revoke_call, resolve_call, HasNoConflict, run_calls, GrantCall,
}
use cred_trail.Approval.{issuer}
use cred_trail.Delegation.Create.{
  has_template_scope_overlap, has_action_overlap, in_conflict, check_templates, new_grant,
  insert_grant, create_grant, CreateGrantInput, granted,
}
use cred_trail.Delegation.Revoked.{revoke_grant-find_active_grant}
use cred_trail.Delegation.Lookup.{find_active_grant-IsCovering}
use cred_trail.Delegation.Resolve.{
  revoke_always, revoked_grant_event, write_revocation, revoke_found, revoke_grant, first_covering,
  find_active_grant, RevokeGrantInput, RevokeGrantResult, ResolveInput, grant_newly_revoked, covers,
}
use cred_trail.OrgUnits.Ancestors.{org_ancestors, climb, IsForest}
use cred_trail.OrgUnits.Scopes.{find_tenant_membership}
use cred_trail.Delegation.Covering.{IsCovering}

-- The days of a week without a zone.
abbrev day : String → Option ℕ
day t =
    if str_eq t "1"
    then some 1
    else if str_eq t "2"
    then some 2
    else if str_eq t "3"
    then some 3
    else if str_eq t "4"
    then some 4
    else none

abbrev days : Clock
days = record { parse_ms = day; text_lt = λ s t. ltb (or_else (day s) 0) (or_else (day t) 0) }

abbrev school : OrgUnit
school = record {
  id = "i";
  tenant_id = "t";
  unit_type = institution;
  slug = "i";
  display_name = "i";
  parent_org_unit_id = none;
  created_by_user_id = none;
  is_active = true;
  created_at = "1";
  updated_at = "1";
}

abbrev authority : List Grant → Authority
authority grants = record {
  members = record {
    memberships =
        (record {
          tenant_id = "t";
          user_id = "u";
          role = issuer;
          created_at = "1";
          updated_at = "1";
        })
        ∷ [];
    org_units = school ∷ [];
    scopes = [];
  };
  templates = [];
  grants = grants;
  grant_events = [];
}

abbrev grant_input : DelegatedAction → CreateGrantInput
grant_input action = record {
  tenant_id = "t";
  delegate_user_id = "u";
  delegated_by_user_id = none;
  org_unit_id = "i";
  allowed_actions = action ∷ [];
  badge_template_ids = none;
  starts_at = "1";
  ends_at = "3";
  reason = none;
}

abbrev first_grant : Grant
first_grant = new_grant (grant_input issue_badge_action) (issue_badge_action ∷ []) [] "g" "1"

abbrev second_grant : Grant
second_grant = new_grant (grant_input revoke_badge_action) (revoke_badge_action ∷ []) [] "h" "1"

abbrev held : Authority
held = authority (first_grant ∷ [])

held-HasNoConflict : HasNoConflict days held
unfolding HasNoConflict
held-HasNoConflict = (tt, tt)

abbrev revocation : RevokeGrantInput
revocation = record {
  tenant_id = "t";
  grant_id = "g";
  revoked_by_user_id = none;
  revoked_reason = none;
  revoked_at = "2";
}

abbrev wish : DelegatedAction → ResolveInput
wish action = record {
  tenant_id = "t";
  user_id = "u";
  org_unit_id = "i";
  badge_template_id = "b";
  required_action = action;
}

abbrev some_calls : List GrantCall
some_calls =
    create_call (grant_input revoke_badge_action) "h" "1" []
    ∷ resolve_call (wish issue_badge_action) "2" []
    ∷ revoke_call revocation "2" []
    ∷ []

ltb_order : (a b c : ℕ) → ltb a b ≡ false → ltb a c ≡ true → ltb b c ≡ true
ltb_order a b c h k = ground arith

days-IsOrder : IsOrder days.text_lt
days-IsOrder x y z h k = ltb_order (or_else (day x) 0) (or_else (day y) 0) (or_else (day z) 0) h k

run_calls-IsExclusive_example : Pairwise (IsExclusive days) (run_calls days some_calls held).grants
run_calls-IsExclusive_example =
    run_calls-IsExclusive days some_calls held days-IsOrder held-HasNoConflict

-- A second grant of the same action is refused.
conflicting : create_grant days held (grant_input issue_badge_action) "h" "1" ≡ err grant_conflict
unfolding create_grant normalize_actions normalize_badge_template_ids find_tenant_membership
    find_tenant_org_unit_by_id check_templates in_conflict has_action_overlap
    has_template_scope_overlap same_action
conflicting = refl

school-IsForest : IsForest (school ∷ [])
unfolding IsForest required_parent_type
school-IsForest = (refl, tt)

find_active_grant-IsCovering_example :
    (found : Option (Grant × GrantStatus)) × (after : Authority) × (find_active_grant days held
        (wish issue_badge_action)
        "2"
      ≡ ok (found, after))
    × (after.grants ≡ first_grant ∷ [])
    × ((is_some found ≡ true)
        ↔ Some (IsCovering days (school ∷ []) (wish issue_badge_action) "2") (first_grant ∷ []))
find_active_grant-IsCovering_example =
    find_active_grant-IsCovering days held (wish issue_badge_action) "2" refl
      ((refl, refl, refl), tt) school-IsForest

abbrev revoked_result : RevokeGrantResult × Authority
revoked_result = (
  record {
    status = grant_newly_revoked;
    grant = (revoke_always revocation "2" first_grant, grant_revoked);
  },
  record (authority (revoke_always revocation "2" first_grant ∷ [])) {
    grant_events = revoked_grant_event revocation ∷ [];
  },
)

revoked : revoke_grant days held revocation "2" ≡ ok revoked_result
unfolding revoke_grant find_grant_by_id find_grant_row map_grant_row normalize_actions grant_status
    same_action record_expired_events revoke_found write_revocation
revoked = refl

abbrev next_calls : List GrantCall
next_calls = create_call (grant_input issue_badge_action) "h" "1" [] ∷ []

abbrev remade : Grant × GrantStatus
remade =
    (new_grant (grant_input issue_badge_action) (issue_badge_action ∷ []) [] "h" "1", grant_active)

abbrev last_authority : Authority
last_authority = record (authority (revoke_always revocation "2" first_grant ∷ remade.0 ∷ [])) {
  grant_events =
      revoked_grant_event revocation ∷ granted (grant_input issue_badge_action) "h" "1" ∷ [];
}

found_again :
    find_active_grant days
      (run_calls days next_calls revoked_result.1)
      (wish issue_badge_action)
      "2"
    ≡ ok (some remade, last_authority)
unfolding find_active_grant run_calls create_grant normalize_actions normalize_badge_template_ids
    find_tenant_membership find_tenant_org_unit_by_id check_templates in_conflict has_action_overlap
    has_template_scope_overlap same_action insert_grant find_grant_by_id find_grant_row
    map_grant_row grant_status record_expired_events first_covering covers is_within_scope
    org_ancestors climb
found_again = refl

revoke_grant-find_active_grant_example : is_grant "t" "g" remade.0 ≡ false
revoke_grant-find_active_grant_example =
    revoke_grant-find_active_grant days held revocation "2" revoked_result next_calls
      (wish issue_badge_action) "2" remade last_authority (tt, tt) revoked found_again
