-- ===== src/OrgUnits/Scopes.antt =====
-- The members of a tenant and their scopes on its org units: `upsertTenantMembershipRole`,
-- `ensureTenantMembership`, `upsertTenantMembershipOrgUnitScope` and the functions that remove,
-- list and read the scopes, over the tables memberships and tenant_membership_org_unit_scopes.
use cred_trail.Prelude.{
  ℕ, Bool, true, false, not, ◌&&◌, Option, none, some, List, String, str_eq, ltb, leb, upsert,
  length, any, find, keep, Result, ◌>>=◌, or_throw, ok,
}
use cred_trail.OrgUnits.{OrgUnit, find_tenant_org_unit_by_id}
use cred_trail.Approval.{Role, viewer, issuer, admin, owner}
use cred_trail.OrgUnits.Ancestors.{org_ancestors}

pub data ScopeRole : Type 0 where
  scope_viewer scope_issuer scope_admin : ScopeRole

pub record Membership : Type 0 where
  pub tenant_id : String
  pub user_id : String
  pub role : Role
  pub created_at : String
  pub updated_at : String

pub record Scope : Type 0 where
  pub tenant_id : String
  pub user_id : String
  pub org_unit_id : String
  pub role : ScopeRole
  pub created_by_user_id : Option String
  pub created_at : String
  pub updated_at : String

pub record Members : Type 0 where
  pub memberships : List Membership
  pub org_units : List OrgUnit
  pub scopes : List Scope

pub data MemberError : Type 0 where
  membership_not_found unable_to_upsert_role org_unit_not_found unable_to_upsert_scope : MemberError

abbrev pub is_membership : String → String → Membership → Bool
is_membership tenant_id user_id m = str_eq m.tenant_id tenant_id && str_eq m.user_id user_id

unfoldable pub find_tenant_membership : Members → String → String → Option Membership
find_tenant_membership db tenant_id user_id = find (is_membership tenant_id user_id) db.memberships

unfoldable pub same_role : Role → Role → Bool
same_role viewer viewer = true
same_role issuer issuer = true
same_role admin admin = true
same_role owner owner = true
same_role _ _ = false

-- `existing?.role !== written.role`
abbrev pub is_changed {ℓ} : {A : Type ℓ} → (A → A → Bool) → Option A → A → Bool
is_changed same none written = true
is_changed same (some previous) written = not (same previous written)

pub record RoleResult : Type 0 where
  pub membership : Membership
  pub previous_role : Option Role
  pub changed : Bool

abbrev pub role_of : Option Membership → Option Role
role_of none = none
role_of (some m) = some m.role

abbrev pub write_role : String → String → Role → String → List Membership → List Membership
write_role tenant_id user_id role now_iso =
    upsert (is_membership tenant_id user_id) (λ m. record m { role = role; updated_at = now_iso })
      (record {
        tenant_id = tenant_id;
        user_id = user_id;
        role = role;
        created_at = now_iso;
        updated_at = now_iso;
      })

unfoldable pub upsert_tenant_membership_role :
    Members
    → (tenant_id user_id : String) → Role
    → (now_iso : String) → Result MemberError (RoleResult × Members)
upsert_tenant_membership_role db tenant_id user_id role now_iso =
    let existing = find_tenant_membership db tenant_id user_id in
    let after = record db {
      memberships = write_role tenant_id user_id role now_iso db.memberships;
    } in
    do
      membership ← or_throw (find_tenant_membership after tenant_id user_id) unable_to_upsert_role
      ok (
        record {
          membership = membership;
          previous_role = role_of existing;
          changed = is_changed same_role (role_of existing) membership.role;
        },
        after,
      )

-- A new member is a viewer; the role of a member stays.
unfoldable pub ensure_tenant_membership :
    Members
    → (tenant_id user_id now_iso : String) → Result MemberError ((Membership × Bool) × Members)
ensure_tenant_membership db tenant_id user_id now_iso =
    elim (find_tenant_membership db tenant_id user_id) [
      | some existing ↦ ok ((existing, false), db)
      | none ↦ do
        upserted ← upsert_tenant_membership_role db tenant_id user_id viewer now_iso
        ok ((upserted.0.membership, true), upserted.1)
    ]

abbrev pub is_scope_of : String → String → Scope → Bool
is_scope_of tenant_id user_id s = str_eq s.tenant_id tenant_id && str_eq s.user_id user_id

abbrev pub is_scope : String → String → String → Scope → Bool
is_scope tenant_id user_id org_unit_id s =
    is_scope_of tenant_id user_id s && str_eq s.org_unit_id org_unit_id

unfoldable pub find_scope : Members → (tenant_id user_id org_unit_id : String) → Option Scope
find_scope db tenant_id user_id org_unit_id =
    find (is_scope tenant_id user_id org_unit_id) db.scopes

unfoldable pub same_scope_role : ScopeRole → ScopeRole → Bool
same_scope_role scope_viewer scope_viewer = true
same_scope_role scope_issuer scope_issuer = true
same_scope_role scope_admin scope_admin = true
same_scope_role _ _ = false

abbrev pub scope_role_of : Option Scope → Option ScopeRole
scope_role_of none = none
scope_role_of (some s) = some s.role

pub record ScopeInput : Type 0 where
  pub tenant_id : String
  pub user_id : String
  pub org_unit_id : String
  pub role : ScopeRole
  pub created_by_user_id : Option String

pub record ScopeResult : Type 0 where
  pub scope : Scope
  pub previous_role : Option ScopeRole
  pub changed : Bool

abbrev pub new_scope : ScopeInput → String → Scope
new_scope input now_iso = record {
  tenant_id = input.tenant_id;
  user_id = input.user_id;
  org_unit_id = input.org_unit_id;
  role = input.role;
  created_by_user_id = input.created_by_user_id;
  created_at = now_iso;
  updated_at = now_iso;
}

abbrev pub change_scope : ScopeInput → String → Scope → Scope
change_scope input now_iso s = record s { role = input.role; updated_at = now_iso }

abbrev pub write_scope : ScopeInput → String → List Scope → List Scope
write_scope input now_iso =
    upsert (is_scope input.tenant_id input.user_id input.org_unit_id) (change_scope input now_iso)
      (new_scope input now_iso)

-- The written row is read back.
unfoldable pub stored_scope :
    Members → ScopeInput → Option Scope → Result MemberError (ScopeResult × Members)
stored_scope after input previous = do
  scope ←
      or_throw (find_scope after input.tenant_id input.user_id input.org_unit_id)
        unable_to_upsert_scope
  ok (
    record {
      scope = scope;
      previous_role = scope_role_of previous;
      changed = is_changed same_scope_role (scope_role_of previous) scope.role;
    },
    after,
  )

unfoldable pub upsert_scope :
    Members → ScopeInput → (now_iso : String) → Result MemberError (ScopeResult × Members)
upsert_scope db input now_iso = do
  membership ←
      or_throw (find_tenant_membership db input.tenant_id input.user_id) membership_not_found
  unit ←
      or_throw (find_tenant_org_unit_by_id db.org_units input.tenant_id input.org_unit_id)
        org_unit_not_found
  stored_scope (record db { scopes = write_scope input now_iso db.scopes }) input
      (find_scope db input.tenant_id input.user_id input.org_unit_id)

-- Whether a row was removed, and the tables after it.
unfoldable pub remove_scope : Members → (tenant_id user_id org_unit_id : String) → Bool × Members
remove_scope db tenant_id user_id org_unit_id = (
  any (is_scope tenant_id user_id org_unit_id) db.scopes,
  record db { scopes = keep (λ s. not (is_scope tenant_id user_id org_unit_id s)) db.scopes },
)

-- The scopes of one member; the callers of this development do not read their order.
unfoldable pub list_scopes : Members → (tenant_id user_id : String) → List Scope
list_scopes db tenant_id user_id = keep (is_scope_of tenant_id user_id) db.scopes

unfoldable pub has_scope_assignments : Members → (tenant_id user_id : String) → Bool
has_scope_assignments db tenant_id user_id = ltb 0 (length (list_scopes db tenant_id user_id))

-- `TENANT_MEMBERSHIP_ORG_UNIT_SCOPE_ROLE_PRIORITY`
abbrev pub priority : ScopeRole → ℕ
priority scope_viewer = 1
priority scope_issuer = 2
priority scope_admin = 3

-- A scope on the unit whose role is enough.
abbrev pub grants_on : Members → (tenant_id user_id : String) → ScopeRole → OrgUnit → Bool
grants_on db tenant_id user_id required u =
    any (λ s. is_scope tenant_id user_id u.id s && leb (priority required) (priority s.role))
      db.scopes

-- The query joins the ancestors and the scopes; the code reads only whether it has a row.
unfoldable pub has_org_unit_access :
    Members → (tenant_id user_id org_unit_id : String) → ScopeRole → Bool
has_org_unit_access db tenant_id user_id org_unit_id required =
    any (grants_on db tenant_id user_id required) (org_ancestors db.org_units tenant_id org_unit_id)
