-- ===== src/OrgUnits/Forest.antt =====
-- The places of the units under `createTenantOrgUnit`.
use cred_trail.Prelude.{
  ◌≡◌, refl, sym, ap, subst, ◌∙◌, false, not, ◌&&◌, false≢true, Option, none, some, List, [], ◌∷◌,
  ◌++◌, String, is_some, any, All-append, All-weaken, find-append, ok-inj, throw_if-ok, bind-ok,
  or_throw-ok, ok,
}
use cred_trail.OrgUnits.{
  OrgUnit, required_parent_type, same_type, is_unit, find_tenant_org_unit_by_id, clashes, new_unit,
  insert_unit, check_parent, create_tenant_org_unit, OrgUnitType, CreateOrgUnitInput, institution,
  college, department, program, unique_violation, unable_to_create, cannot_have_parent,
  requires_parent, parent_not_found, wrong_parent_type,
}
use cred_trail.OrgUnits.Ancestors.{IsPlaced, HasPlace, IsForest}

IsPlaced-append :
    (rows more : List OrgUnit) (tenant_id : String) (t : OrgUnitType) (o : Option String)
    → IsPlaced rows tenant_id t o
    → IsPlaced (rows ++ more) tenant_id t o
unfolding find_tenant_org_unit_by_id
IsPlaced-append rows more tenant_id t none h = h
IsPlaced-append rows more tenant_id t (some id) (parent, found, fits) =
    (parent, find-append (is_unit tenant_id id) rows more parent found, fits)

IsForest-append :
    (rows : List OrgUnit) (u : OrgUnit)
    → IsForest rows
    → HasPlace rows u
    → IsForest (rows ++ u ∷ [])
unfolding IsForest
IsForest-append rows u forest place =
    All-append (HasPlace (rows ++ u ∷ [])) rows (u ∷ [])
      (All-weaken (HasPlace rows) (HasPlace (rows ++ u ∷ [])) rows
        (λ v h. IsPlaced-append rows (u ∷ []) v.tenant_id v.unit_type v.parent_org_unit_id h)
        forest)
      (IsPlaced-append rows (u ∷ []) u.tenant_id u.unit_type u.parent_org_unit_id place, tt)

same_type-eq : (a b : OrgUnitType) → not (same_type a b) ≡ false → a ≡ b
unfolding same_type
same_type-eq institution institution h = refl
same_type-eq college college h = refl
same_type-eq department department h = refl
same_type-eq program program h = refl
same_type-eq institution college h = absurd (false≢true (sym h))
same_type-eq institution department h = absurd (false≢true (sym h))
same_type-eq institution program h = absurd (false≢true (sym h))
same_type-eq college institution h = absurd (false≢true (sym h))
same_type-eq college department h = absurd (false≢true (sym h))
same_type-eq college program h = absurd (false≢true (sym h))
same_type-eq department institution h = absurd (false≢true (sym h))
same_type-eq department college h = absurd (false≢true (sym h))
same_type-eq department program h = absurd (false≢true (sym h))
same_type-eq program institution h = absurd (false≢true (sym h))
same_type-eq program college h = absurd (false≢true (sym h))
same_type-eq program department h = absurd (false≢true (sym h))

-- The guards of the code place a unit that has a parent exactly where its type requires one.
checked-IsPlaced :
    (rows : List OrgUnit) (tenant_id : String) (t : OrgUnitType) (o : Option String)
    (required : Option OrgUnitType)
    → required_parent_type t ≡ required
    → (not (is_some required) && is_some o) ≡ false
    → (is_some required && not (is_some o)) ≡ false
    → check_parent rows tenant_id required o ≡ ok tt
    → IsPlaced rows tenant_id t o
unfolding check_parent
checked-IsPlaced rows tenant_id t none none e a b h = e
checked-IsPlaced rows tenant_id t none (some r) e a b h = absurd (false≢true (sym b))
checked-IsPlaced rows tenant_id t (some id) none e a b h = absurd (false≢true (sym a))
checked-IsPlaced rows tenant_id t (some id) (some r) e a b h =
    let (parent, found, rest) =
      or_throw-ok (find_tenant_org_unit_by_id rows tenant_id id) parent_not_found _ tt h in
    let (same, _) = throw_if-ok (not (same_type parent.unit_type r)) wrong_parent_type _ tt rest in
    (parent, found, e ∙ ap some (sym (same_type-eq parent.unit_type r same)))

insert_unit-rows :
    (rows : List OrgUnit) (u : OrgUnit) (after : OrgUnit × List OrgUnit)
    → insert_unit rows u ≡ ok after
    → after.1 ≡ rows ++ u ∷ []
unfolding insert_unit
insert_unit-rows rows u after h =
    let (_, stored) = throw_if-ok (any (clashes u) rows) unique_violation _ after h in
    let (created, _, same) =
      or_throw-ok (find_tenant_org_unit_by_id (rows ++ u ∷ []) u.tenant_id u.id) unable_to_create _
        after stored in
    ap (λ x. x.1) (sym (ok-inj (created, rows ++ u ∷ []) after same))

-- A table in which every unit stands under an existing unit of the type that its own type requires
-- keeps this when `createTenantOrgUnit` adds a unit to it.
pub create_tenant_org_unit-IsForest :
    (rows : List OrgUnit) (input : CreateOrgUnitInput) (id now_iso : String)
    (after : OrgUnit × List OrgUnit)
    → IsForest rows
    → create_tenant_org_unit rows input id now_iso ≡ ok after
    → IsForest after.1
unfolding create_tenant_org_unit
create_tenant_org_unit-IsForest rows input id now_iso after forest h =
    let required = required_parent_type input.unit_type in
    let (a, h1) =
      throw_if-ok (not (is_some required) && is_some input.parent_org_unit_id) cannot_have_parent _
        after h in
    let (b, h2) =
      throw_if-ok (is_some required && not (is_some input.parent_org_unit_id)) requires_parent _
        after h1 in
    let (_, c, stored) =
      bind-ok (check_parent rows input.tenant_id required input.parent_org_unit_id) _ after h2 in
    subst IsForest (sym (insert_unit-rows rows (new_unit input id now_iso) after stored)) (
      IsForest-append rows (new_unit input id now_iso) forest (
        checked-IsPlaced rows input.tenant_id input.unit_type input.parent_org_unit_id required refl
          a b c))
