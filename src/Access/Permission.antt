-- ===== src/Access/Permission.antt =====
-- The permissions on an org unit: `requireScopedOrgUnitPermission` and
-- `requireDelegatedIssuingAuthorityPermission`.
use cred_trail.Prelude.{
  Bool, true, false, not, Option, none, some, String, if◌then◌else◌, is_some, Result, ◌>>=◌, ok,
}
use cred_trail.Access.{Denial, denied}
use cred_trail.Approval.{Role, issuer, admin, owner}
use cred_trail.Delegation.{DelegatedAction, Authority, GrantError, Clock}
use cred_trail.Delegation.Resolve.{find_active_grant, ResolveInput}
use cred_trail.OrgUnits.Scopes.{
  has_scope_assignments, has_org_unit_access, ScopeRole, Members, scope_issuer,
}

unfoldable pub can_bypass_org_scope_checks : Role → Bool
can_bypass_org_scope_checks owner = true
can_bypass_org_scope_checks admin = true
can_bypass_org_scope_checks _ = false

abbrev pub is_issuer : Role → Bool
is_issuer issuer = true
is_issuer _ = false

pub record ScopedRequest : Type 0 where
  pub tenant_id : String
  pub user_id : String
  pub membership_role : Role
  pub org_unit_id : String
  pub required_role : ScopeRole
  pub allow_when_no_scopes : Bool

unfoldable pub has_scoped_org_unit_permission : Members → ScopedRequest → Bool
has_scoped_org_unit_permission db r =
    if can_bypass_org_scope_checks r.membership_role
    then true
    else if not (is_issuer r.membership_role)
    then false
    else if not (has_scope_assignments db r.tenant_id r.user_id)
    then r.allow_when_no_scopes
    else has_org_unit_access db r.tenant_id r.user_id r.org_unit_id r.required_role

unfoldable pub require_scoped_org_unit_permission : Members → ScopedRequest → Option Denial
require_scoped_org_unit_permission db r =
    if has_scoped_org_unit_permission db r
    then none
    else some (denied 403 "Insufficient org-unit scope for requested action")

pub record DelegatedRequest : Type 0 where
  pub tenant_id : String
  pub user_id : String
  pub membership_role : Role
  pub owner_org_unit_id : String
  pub badge_template_id : String
  pub required_action : DelegatedAction

abbrev pub grant_request : DelegatedRequest → ResolveInput
grant_request r = record {
  tenant_id = r.tenant_id;
  user_id = r.user_id;
  org_unit_id = r.owner_org_unit_id;
  badge_template_id = r.badge_template_id;
  required_action = r.required_action;
}

abbrev pub scoped_request : DelegatedRequest → ScopedRequest
scoped_request r = record {
  tenant_id = r.tenant_id;
  user_id = r.user_id;
  membership_role = r.membership_role;
  org_unit_id = r.owner_org_unit_id;
  required_role = scope_issuer;
  allow_when_no_scopes = true;
}

-- Without a grant, an issuer's scopes decide.
unfoldable pub without_grant : Members → DelegatedRequest → Option Denial
without_grant db r =
    if is_issuer r.membership_role
    then require_scoped_org_unit_permission db (scoped_request r)
    else some (denied 403 "Insufficient role for requested action")

unfoldable pub require_delegated_issuing_authority_permission :
    Clock
    → Authority
    → DelegatedRequest
    → (now_iso : String) → Result GrantError (Option Denial × Authority)
require_delegated_issuing_authority_permission clock db r now_iso =
    if can_bypass_org_scope_checks r.membership_role then ok (none, db) else do
      found ← find_active_grant clock db (grant_request r) now_iso
      ok (if is_some found.0 then none else without_grant db.members r, found.1)
