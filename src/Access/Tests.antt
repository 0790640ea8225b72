-- ===== src/Access/Tests.antt =====
-- A member of a small institution, and the instances of the theorems.
use cred_trail.Prelude.{◌≡◌, refl, ◌↔◌, true, false, Option, none, some, [], ◌∷◌, String, ok, err}
use cred_trail.OrgUnits.{
  OrgUnit, institution, college, required_parent_type, find_tenant_org_unit_by_id, OrgUnitType,
}
use cred_trail.OrgUnits.Ancestors.{itself, above, climb, org_ancestors, IsForest}
use cred_trail.Delegation.{issue_badge_action, Authority, Clock}
use cred_trail.Approval.{Role, viewer, issuer, admin}
use cred_trail.Access.{
  denied, has_required_role, require_principal_tenant_role, session_of, require_tenant_role,
  Principal, Denial, TenantAccess,
}
use cred_trail.Access.Guards.{require_scoped-below, require_delegated-MayAct}
use cred_trail.Access.Permission.{
  can_bypass_org_scope_checks, has_scoped_org_unit_permission, require_scoped_org_unit_permission,
  require_delegated_issuing_authority_permission, ScopedRequest, DelegatedRequest,
}
use cred_trail.Access.Entry.{require_tenant_role-IsGranted, IsGranted}
use cred_trail.OrgUnits.Scopes.{
  find_tenant_membership, same_role, list_scopes, has_org_unit_access, Membership, Members,
  scope_issuer, has_scope_assignments,
}
use cred_trail.Access.Meaning.{MayAct}

abbrev unit : String → OrgUnitType → Option String → OrgUnit
unit id t parent = record {
  id = id;
  tenant_id = "t";
  unit_type = t;
  slug = id;
  display_name = id;
  parent_org_unit_id = parent;
  created_by_user_id = none;
  is_active = true;
  created_at = "1";
  updated_at = "1";
}

abbrev top : OrgUnit
top = unit "i" institution none

abbrev membership : Role → Membership
membership role = record {
  tenant_id = "t";
  user_id = "u";
  role = role;
  created_at = "1";
  updated_at = "1";
}

abbrev members : Role → Members
members role = record {
  memberships = membership role ∷ [];
  org_units = top ∷ unit "c" college (some "i") ∷ [];
  scopes =
      (record {
        tenant_id = "t";
        user_id = "u";
        org_unit_id = "i";
        role = scope_issuer;
        created_by_user_id = none;
        created_at = "1";
        updated_at = "1";
      })
      ∷ [];
}

abbrev someone : Principal
someone = record { user_id = "u"; auth_session_id = "s"; expires_at = "9" }

abbrev let_in : TenantAccess
let_in = record { principal = someone; session = session_of someone "t"; membership_role = issuer }

entered :
    require_tenant_role (members issuer) (some "other") (some someone) "t" (admin ∷ issuer ∷ [])
    ≡ ok let_in
unfolding require_tenant_role require_principal_tenant_role find_tenant_membership has_required_role
    same_role
entered = refl

require_tenant_role-IsGranted_example :
    IsGranted (members issuer) (some "other") (some someone) "t" (admin ∷ issuer ∷ []) let_in
require_tenant_role-IsGranted_example =
    require_tenant_role-IsGranted (members issuer) (some "other") (some someone) "t"
      (admin ∷ issuer ∷ []) let_in entered

-- A viewer is refused what asks for an issuer.
refused_viewer :
    require_tenant_role (members viewer) none (some someone) "t" (admin ∷ issuer ∷ [])
    ≡ err (denied 403 "Insufficient role for requested action")
unfolding require_tenant_role require_principal_tenant_role find_tenant_membership has_required_role
    same_role
refused_viewer = refl

abbrev always : Clock
always = record { parse_ms = λ t. some 1; text_lt = λ s t. false }

abbrev authority : Authority
authority = record { members = members issuer; templates = []; grants = []; grant_events = [] }

abbrev request : DelegatedRequest
request = record {
  tenant_id = "t";
  user_id = "u";
  membership_role = issuer;
  owner_org_unit_id = "c";
  badge_template_id = "b";
  required_action = issue_badge_action;
}

members-IsForest : IsForest (members issuer).org_units
unfolding IsForest required_parent_type find_tenant_org_unit_by_id
members-IsForest = (refl, ((top, refl, refl), tt))

require_delegated-MayAct_example :
    (refusal : Option Denial) × (after : Authority)
    × (require_delegated_issuing_authority_permission always authority request "1"
        ≡ ok (refusal, after))
    × ((refusal ≡ none) ↔ MayAct always authority request "1")
    × (after.grants ≡ [])
require_delegated-MayAct_example =
    require_delegated-MayAct always authority request "1" refl tt members-IsForest

abbrev scoped_wish : String → ScopedRequest
scoped_wish unit_id = record {
  tenant_id = "t";
  user_id = "u";
  membership_role = issuer;
  org_unit_id = unit_id;
  required_role = scope_issuer;
  allow_when_no_scopes = false;
}

found_top : find_tenant_org_unit_by_id (members issuer).org_units "t" "i" ≡ some top
unfolding find_tenant_org_unit_by_id
found_top = refl

found_below :
    find_tenant_org_unit_by_id (members issuer).org_units "t" "c"
    ≡ some (unit "c" college (some "i"))
unfolding find_tenant_org_unit_by_id
found_below = refl

on_top : require_scoped_org_unit_permission (members issuer) (scoped_wish "i") ≡ none
unfolding require_scoped_org_unit_permission has_scoped_org_unit_permission
    can_bypass_org_scope_checks has_scope_assignments list_scopes has_org_unit_access org_ancestors
    climb find_tenant_org_unit_by_id
on_top = refl

require_scoped-below_example :
    require_scoped_org_unit_permission (members issuer) (scoped_wish "c") ≡ none
require_scoped-below_example =
    require_scoped-below (members issuer) (scoped_wish "i") top "c" members-IsForest
      (above found_below refl (itself found_top)) on_top
