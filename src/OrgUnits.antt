-- ===== src/OrgUnits.antt =====
-- The org units of a tenant and the scopes of its members on them: the tables tenant_org_units and
-- tenant_membership_org_unit_scopes of packages/db/src/index.ts. An id is a primary key, so that a
-- join on it meets at most one row, the one that `find` returns.
pub mod Ancestors
pub mod Forest
pub mod Reach
pub mod Scopes
pub mod Assigned
mod Tests
use cred_trail.Prelude.{
  Bool, true, false, not, ◌&&◌, ◌||◌, Option, none, some, List, [], ◌∷◌, ◌++◌, String, str_eq,
  if◌then◌else◌, is_some, or_else, ◌<>◌, any, find, Result, ◌>>=◌, ◌>>◌, Check, throw_if, or_throw,
  ok,
}

pub data OrgUnitType : Type 0 where
  institution college department program : OrgUnitType

pub record OrgUnit : Type 0 where
  pub id : String
  pub tenant_id : String
  pub unit_type : OrgUnitType
  pub slug : String
  pub display_name : String
  pub parent_org_unit_id : Option String
  pub created_by_user_id : Option String
  pub is_active : Bool
  pub created_at : String
  pub updated_at : String

pub record CreateOrgUnitInput : Type 0 where
  pub tenant_id : String
  pub unit_type : OrgUnitType
  pub slug : String
  pub display_name : String
  pub parent_org_unit_id : Option String
  pub created_by_user_id : Option String

-- The errors that `createTenantOrgUnit` throws, and the database's refusal of an INSERT.
pub data OrgUnitError : Type 0 where
  cannot_have_parent requires_parent parent_not_found wrong_parent_type parent_inactive
        unique_violation unable_to_create :
      OrgUnitError

-- `REQUIRED_PARENT_ORG_UNIT_TYPE`
unfoldable pub required_parent_type : OrgUnitType → Option OrgUnitType
required_parent_type institution = none
required_parent_type college = some institution
required_parent_type department = some college
required_parent_type program = some department

unfoldable pub same_type : OrgUnitType → OrgUnitType → Bool
same_type institution institution = true
same_type college college = true
same_type department department = true
same_type program program = true
same_type _ _ = false

abbrev pub is_unit : String → String → OrgUnit → Bool
is_unit tenant_id id u = str_eq u.tenant_id tenant_id && str_eq u.id id

unfoldable pub find_tenant_org_unit_by_id : List OrgUnit → String → String → Option OrgUnit
find_tenant_org_unit_by_id rows tenant_id id = find (is_unit tenant_id id) rows

-- The PRIMARY KEY and the UNIQUE columns of the table.
abbrev pub clashes : OrgUnit → OrgUnit → Bool
clashes new old =
    str_eq old.id new.id || (str_eq old.tenant_id new.tenant_id && str_eq old.slug new.slug)

abbrev pub new_unit : CreateOrgUnitInput → String → String → OrgUnit
new_unit input id now_iso = record {
  id = id;
  tenant_id = input.tenant_id;
  unit_type = input.unit_type;
  slug = input.slug;
  display_name = input.display_name;
  parent_org_unit_id = input.parent_org_unit_id;
  created_by_user_id = input.created_by_user_id;
  is_active = true;
  created_at = now_iso;
  updated_at = now_iso;
}

-- The row and the table after it.
unfoldable pub insert_unit : List OrgUnit → OrgUnit → Result OrgUnitError (OrgUnit × List OrgUnit)
insert_unit rows u = do
  throw_if (any (clashes u) rows) unique_violation
  created ← or_throw (find_tenant_org_unit_by_id (rows ++ u ∷ []) u.tenant_id u.id) unable_to_create
  ok (created, rows ++ u ∷ [])

-- The checks of a parent that is given; `requiredParentType ?? "institution"` is the expected type.
unfoldable pub check_parent :
    List OrgUnit → String → Option OrgUnitType → Option String → Check OrgUnitError
check_parent rows tenant_id required none = ok tt
check_parent rows tenant_id required (some parent_id) = do
  parent ← or_throw (find_tenant_org_unit_by_id rows tenant_id parent_id) parent_not_found
  throw_if (not (same_type parent.unit_type (or_else required institution))) wrong_parent_type
  throw_if (not parent.is_active) parent_inactive

unfoldable pub create_tenant_org_unit :
    List OrgUnit
    → CreateOrgUnitInput
    → (id now_iso : String) → Result OrgUnitError (OrgUnit × List OrgUnit)
create_tenant_org_unit rows input id now_iso =
    let required = required_parent_type input.unit_type in
    do
      throw_if (not (is_some required) && is_some input.parent_org_unit_id) cannot_have_parent
      throw_if (is_some required && not (is_some input.parent_org_unit_id)) requires_parent
      check_parent rows input.tenant_id required input.parent_org_unit_id
      insert_unit rows (new_unit input id now_iso)

-- `institutionOrgUnitIdForTenant` and `ensureInstitutionOrgUnitForTenant`: ON CONFLICT DO NOTHING.
unfoldable pub institution_org_unit_id_for_tenant : String → String
institution_org_unit_id_for_tenant tenant_id = tenant_id <> ":org:institution"

abbrev pub institution_unit : String → String → OrgUnit
institution_unit tenant_id now_iso = record {
  id = institution_org_unit_id_for_tenant tenant_id;
  tenant_id = tenant_id;
  unit_type = institution;
  slug = "institution";
  display_name = tenant_id <> " Institution";
  parent_org_unit_id = none;
  created_by_user_id = none;
  is_active = true;
  created_at = now_iso;
  updated_at = now_iso;
}

unfoldable pub ensure_institution_org_unit_for_tenant :
    List OrgUnit → (tenant_id now_iso : String) → String × List OrgUnit
ensure_institution_org_unit_for_tenant rows tenant_id now_iso =
    let seed = institution_unit tenant_id now_iso in
    (seed.id, if any (clashes seed) rows then rows else rows ++ seed ∷ [])
