-- ===== src/OrgUnits/Tests.antt =====
-- A small institution, and the instances of the theorems.
use cred_trail.Prelude.{
  ◌≡◌, refl, ◌↔◌, true, Option, none, some, List, [], ◌∷◌, ◌++◌, String, str_eq, any, ok, err,
}
use cred_trail.OrgUnits.{
  OrgUnit, required_parent_type, same_type, find_tenant_org_unit_by_id, insert_unit, check_parent,
  create_tenant_org_unit, OrgUnitType, CreateOrgUnitInput, institution, college, department,
  wrong_parent_type,
}
use cred_trail.OrgUnits.Assigned.{
  assign, run_ops, role_at, can_assign, replay, run_ops-replay, ScopeOp, withdraw,
}
use cred_trail.Approval.{issuer}
use cred_trail.OrgUnits.Ancestors.{climb, org_ancestors, IsForest, IsAncestor}
use cred_trail.OrgUnits.Forest.{create_tenant_org_unit-IsForest}
use cred_trail.OrgUnits.Scopes.{
  find_tenant_membership, find_scope, stored_scope, upsert_scope, remove_scope, ScopeRole, Members,
  ScopeInput, scope_issuer, scope_admin,
}
use cred_trail.OrgUnits.Reach.{org_ancestors-ends, org_ancestors-IsAncestor}

abbrev unit : String → OrgUnitType → Option String → OrgUnit
unit id t parent = record {
  id = id;
  tenant_id = "t";
  unit_type = t;
  slug = id;
  display_name = id;
  parent_org_unit_id = parent;
  created_by_user_id = none;
  is_active = true;
  created_at = "now";
  updated_at = "now";
}

abbrev campus : List OrgUnit
campus = unit "i" institution none ∷ unit "c" college (some "i") ∷ []

campus-IsForest : IsForest campus
unfolding IsForest required_parent_type find_tenant_org_unit_by_id
campus-IsForest = (refl, ((unit "i" institution none, refl, refl), tt))

abbrev department_input : CreateOrgUnitInput
department_input = record {
  tenant_id = "t";
  unit_type = department;
  slug = "d";
  display_name = "d";
  parent_org_unit_id = some "c";
  created_by_user_id = none;
}

abbrev grown : List OrgUnit
grown = campus ++ unit "d" department (some "c") ∷ []

created :
    create_tenant_org_unit campus department_input "d" "now"
    ≡ ok (unit "d" department (some "c"), grown)
unfolding create_tenant_org_unit check_parent insert_unit find_tenant_org_unit_by_id
    required_parent_type same_type
created = refl

create_tenant_org_unit-IsForest_example : IsForest grown
create_tenant_org_unit-IsForest_example =
    create_tenant_org_unit-IsForest campus department_input "d" "now"
      (unit "d" department (some "c"), grown) campus-IsForest created

grown-IsForest : IsForest grown
unfolding IsForest required_parent_type find_tenant_org_unit_by_id
grown-IsForest = (
  refl,
  ((unit "i" institution none, refl, refl), ((unit "c" college (some "i"), refl, refl), tt)),
)

-- A college under a college is refused.
misplaced :
    create_tenant_org_unit campus (record department_input { unit_type = college }) "d" "now"
    ≡ err wrong_parent_type
unfolding create_tenant_org_unit check_parent insert_unit find_tenant_org_unit_by_id
    required_parent_type same_type
misplaced = refl

org_ancestors-ends_example : climb 4 grown "t" (some "d") ≡ some (org_ancestors grown "t" "d")
org_ancestors-ends_example = org_ancestors-ends grown "t" "d" grown-IsForest

org_ancestors-IsAncestor_example :
    (any (λ u. str_eq u.id "i") (org_ancestors campus "t" "c") ≡ true)
    ↔ ((v : OrgUnit) × IsAncestor campus "t" "c" v × (str_eq v.id "i" ≡ true))
org_ancestors-IsAncestor_example =
    org_ancestors-IsAncestor (λ u. str_eq u.id "i") campus "t" "c" campus-IsForest

abbrev members : Members
members = record {
  memberships =
      (record {
        tenant_id = "t";
        user_id = "u";
        role = issuer;
        created_at = "now";
        updated_at = "now";
      })
      ∷ [];
  org_units = campus;
  scopes = [];
}

abbrev scope_input : String → ScopeRole → ScopeInput
scope_input unit_id role = record {
  tenant_id = "t";
  user_id = "u";
  org_unit_id = unit_id;
  role = role;
  created_by_user_id = none;
}

abbrev some_ops : List ScopeOp
some_ops =
    assign (scope_input "i" scope_issuer) "1"
    ∷ assign (scope_input "x" scope_issuer) "2"
    ∷ assign (scope_input "i" scope_admin) "3"
    ∷ withdraw "t" "u" "c"
    ∷ []

run_ops-replay_example :
    role_at (run_ops some_ops members) ≡ replay (can_assign members) some_ops (role_at members)
run_ops-replay_example = run_ops-replay some_ops members

last_role : role_at (run_ops some_ops members) "t" "u" "i" ≡ some scope_admin
unfolding run_ops upsert_scope stored_scope find_scope find_tenant_membership remove_scope
    find_tenant_org_unit_by_id
last_role = refl
