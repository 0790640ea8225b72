-- ===== src/OrgUnits/Ancestors.antt =====
-- The recursive query `org_ancestors` of packages/db/src/index.ts, which climbs from an org unit to
-- its ancestors, and the tables on which it ends.
use cred_trail.Prelude.{
  ℕ, zero, suc, ◌≤◌, ◌<◌, ◌≡◌, refl, sym, ap, subst, ◌∙◌, Option, none, some, List, [], ◌∷◌, arith,
  String, str_eq, eq_iff, or_else, and_left, some-inj, none≢some, All, find-true, find-All,
}
use cred_trail.OrgUnits.{
  OrgUnit, find_tenant_org_unit_by_id, required_parent_type, OrgUnitType, institution, college,
  department, program,
}

abbrev pub with_row : OrgUnit → Option (List OrgUnit) → Option (List OrgUnit)
with_row u none = none
with_row u (some above) = some (u ∷ above)

-- The rows of the recursive query from the unit of an id up; none where it has not ended.
unfoldable pub climb : ℕ → List OrgUnit → String → Option String → Option (List OrgUnit)
climb fuel rows tenant_id none = some []
climb zero rows tenant_id (some id) = elim (find_tenant_org_unit_by_id rows tenant_id id) [
  | none ↦ some []
  | some u ↦ none
]
climb (suc fuel) rows tenant_id (some id) = elim (find_tenant_org_unit_by_id rows tenant_id id) [
  | none ↦ some []
  | some u ↦ with_row u (climb fuel rows tenant_id u.parent_org_unit_id)
]

-- The rows of the query. Four are enough, one for each type of unit, where the units form a forest
-- (`climb-ends`); in other tables, where the query of the source may climb further or not end,
-- this list is not its answer.
unfoldable pub org_ancestors : List OrgUnit → String → String → List OrgUnit
org_ancestors rows tenant_id id = or_else (climb 4 rows tenant_id (some id)) []

-- What `createTenantOrgUnit` makes of a row: a unit of the type that its own type requires, of its
-- own tenant, is found by its parent's id.
abbrev pub ParentOf : List OrgUnit → String → OrgUnitType → String → Type 0
ParentOf rows tenant_id t parent_id =
    (parent : OrgUnit) × (find_tenant_org_unit_by_id rows tenant_id parent_id ≡ some parent)
    × (required_parent_type t ≡ some parent.unit_type)

abbrev pub IsPlaced : List OrgUnit → String → OrgUnitType → Option String → Type 0
IsPlaced rows tenant_id t none = required_parent_type t ≡ none
IsPlaced rows tenant_id t (some parent_id) = ParentOf rows tenant_id t parent_id

abbrev pub HasPlace : List OrgUnit → OrgUnit → Type 0
HasPlace rows u = IsPlaced rows u.tenant_id u.unit_type u.parent_org_unit_id

unfoldable pub IsForest : List OrgUnit → Type 0
IsForest rows = All (HasPlace rows) rows

-- The number of types from a type up.
abbrev pub height : OrgUnitType → ℕ
height institution = 1
height college = 2
height department = 3
height program = 4

height-parent : (t p : OrgUnitType) → required_parent_type t ≡ some p → suc (height p) ≡ height t
unfolding required_parent_type
height-parent institution p h = absurd (none≢some h)
height-parent college p h = ap (λ x. suc (height x)) (sym (some-inj _ p h))
height-parent department p h = ap (λ x. suc (height x)) (sym (some-inj _ p h))
height-parent program p h = ap (λ x. suc (height x)) (sym (some-inj _ p h))

height_positive : (t : OrgUnitType) → 0 < height t
height_positive institution = omega arith
height_positive college = omega arith
height_positive department = omega arith
height_positive program = omega arith

pub climb-found :
    (fuel : ℕ) (rows : List OrgUnit) (tenant_id id : String) (u : OrgUnit)
    → find_tenant_org_unit_by_id rows tenant_id id ≡ some u
    → climb (suc fuel) rows tenant_id (some id)
      ≡ with_row u (climb fuel rows tenant_id u.parent_org_unit_id)
unfolding climb
climb-found fuel rows tenant_id id u e = rw (climb, e) refl

module _ (rows : List OrgUnit) (tenant_id : String) (forest : IsForest rows) where
  pub found-IsPlaced :
      (id : String) (u : OrgUnit)
      → find_tenant_org_unit_by_id rows tenant_id id ≡ some u
      → IsPlaced rows tenant_id u.unit_type u.parent_org_unit_id
  unfolding find_tenant_org_unit_by_id IsForest
  found-IsPlaced id u e =
      subst (λ t. IsPlaced rows t u.unit_type u.parent_org_unit_id)
        ((eq_iff u.tenant_id tenant_id).0 (and_left _ (str_eq u.id id) (find-true _ rows u e)))
        (find-All (HasPlace rows) _ rows u forest e)

  -- Any number of rows that reaches the top is enough.
  pub climb-ends :
      (fuel : ℕ) (t : OrgUnitType) (o : Option String)
      → IsPlaced rows tenant_id t o
      → height t ≤ suc fuel
      → (above : List OrgUnit) × (climb fuel rows tenant_id o ≡ some above)
  unfolding climb
  climb-ends fuel t none place h = ([], refl)
  climb-ends zero t (some id) (parent, found, fits) h =
      absurd
        (omega (arith, height-parent t parent.unit_type fits, height_positive parent.unit_type))
  climb-ends (suc fuel) t (some id) (parent, found, fits) h =
      let (above, e) =
        climb-ends fuel parent.unit_type parent.parent_org_unit_id (found-IsPlaced id parent found)
          (omega (arith, height-parent t parent.unit_type fits)) in
      (parent ∷ above, climb-found fuel rows tenant_id id parent found ∙ ap (with_row parent) e)

-- `IsAncestor rows tenant id v`: `v` is the unit of the id or stands above it.
pub data IsAncestor (rows : List OrgUnit) (tenant_id : String) : String → OrgUnit → Type 0 where
  itself :
      {id : String} {u : OrgUnit}
      → find_tenant_org_unit_by_id rows tenant_id id ≡ some u
      → IsAncestor rows tenant_id id u
  above :
      {id parent_id : String} {u v : OrgUnit}
      → find_tenant_org_unit_by_id rows tenant_id id ≡ some u
      → u.parent_org_unit_id ≡ some parent_id
      → IsAncestor rows tenant_id parent_id v
      → IsAncestor rows tenant_id id v
