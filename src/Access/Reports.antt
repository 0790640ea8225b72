-- ===== src/Access/Reports.antt =====
-- Which reports a member sees: `resolveTenantReportingAccess` and `resolveTenantExecutiveAccess`.
-- The order of `localeCompare` is a parameter.
use cred_trail.Prelude.{
  Bool, true, false, not, ◌&&◌, Option, none, some, List, [], map, String, ◌==◌, if◌then◌else◌,
  distinct, sort, length, keep,
}
use cred_trail.OrgUnits.Scopes.{
  Members, list_scopes, Scope, scope_viewer, scope_issuer, scope_admin,
}
use cred_trail.Approval.{Role, viewer, admin, owner}
use cred_trail.Access.Permission.{is_issuer}

pub data Visibility : Type 0 where
  tenant_wide scoped : Visibility

pub record ReportAccess : Type 0 where
  pub tenant_id : String
  pub membership_role : Role
  pub visibility : Visibility
  pub scoped_org_unit_ids : List String

abbrev pub tenant_access : String → Role → ReportAccess
tenant_access tenant_id role = record {
  tenant_id = tenant_id;
  membership_role = role;
  visibility = tenant_wide;
  scoped_org_unit_ids = [];
}

-- `REPORTING_SCOPE_ROLES` and `EXECUTIVE_SCOPE_ROLES`
abbrev pub is_reporting_scope : Scope → Bool
is_reporting_scope s = elim s.role [
  | scope_admin ↦ true
  | scope_issuer ↦ true
  | scope_viewer ↦ false
]

abbrev pub is_executive_scope : Scope → Bool
is_executive_scope s = elim s.role [
  | scope_admin ↦ true
  | scope_issuer ↦ true
  | scope_viewer ↦ true
]

abbrev pub unit_ids : (String → String → Bool) → (Scope → Bool) → List Scope → List String
unit_ids locale_lt p scopes = sort locale_lt (distinct (map (λ s. s.org_unit_id) (keep p scopes)))

abbrev pub scoped_access : String → Role → List String → Option ReportAccess
scoped_access tenant_id role ids =
    if length ids == 0
    then none
    else some (record {
      tenant_id = tenant_id;
      membership_role = role;
      visibility = scoped;
      scoped_org_unit_ids = ids;
    })

abbrev pub is_administrator : Role → Bool
is_administrator owner = true
is_administrator admin = true
is_administrator _ = false

abbrev pub is_viewer : Role → Bool
is_viewer viewer = true
is_viewer _ = false

unfoldable pub resolve_tenant_reporting_access :
    (String → String → Bool) → Members → (tenant_id user_id : String) → Role → Option ReportAccess
resolve_tenant_reporting_access locale_lt db tenant_id user_id role =
    let scopes = list_scopes db tenant_id user_id in
    if is_administrator role
    then some (tenant_access tenant_id role)
    else if not (is_issuer role)
    then none
    else if length scopes == 0
    then some (tenant_access tenant_id role)
    else scoped_access tenant_id role (unit_ids locale_lt is_reporting_scope scopes)

unfoldable pub resolve_tenant_executive_access :
    (String → String → Bool) → Members → (tenant_id user_id : String) → Role → Option ReportAccess
resolve_tenant_executive_access locale_lt db tenant_id user_id role =
    let scopes = list_scopes db tenant_id user_id in
    if is_administrator role
    then some (tenant_access tenant_id role)
    else if not (is_issuer role) && not (is_viewer role)
    then none
    else scoped_access tenant_id role (unit_ids locale_lt is_executive_scope scopes)
