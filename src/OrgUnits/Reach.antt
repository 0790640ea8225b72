-- ===== src/OrgUnits/Reach.antt =====
-- What the recursive query finds, against the relation "is the unit or stands above it".
use cred_trail.Prelude.{
  ℕ, zero, suc, ◌≤◌, ◌≡◌, refl, sym, ap, subst, ◌∙◌, ◌↔◌, inl, inr, Bool, true, false, ◌||◌,
  false≢true, Option, none, some, List, [], ◌∷◌, arith, String, Bool-cases, Option-cases, or_else,
  some-inj, none≢some, any,
}
use cred_trail.OrgUnits.{
  OrgUnit, find_tenant_org_unit_by_id, OrgUnitType, institution, college, department, program,
}
use cred_trail.OrgUnits.Ancestors.{
  climb, itself, above, with_row, IsAncestor, org_ancestors, IsForest, height, climb-found,
  found-IsPlaced, climb-ends,
}

climb-missing :
    (fuel : ℕ) (rows : List OrgUnit) (tenant_id id : String)
    → find_tenant_org_unit_by_id rows tenant_id id ≡ none
    → climb fuel rows tenant_id (some id) ≡ some []
unfolding climb
climb-missing zero rows tenant_id id e = rw (climb, e) refl
climb-missing (suc fuel) rows tenant_id id e = rw (climb, e) refl

climb-short :
    (rows : List OrgUnit) (tenant_id id : String) (u : OrgUnit)
    → find_tenant_org_unit_by_id rows tenant_id id ≡ some u
    → climb 0 rows tenant_id (some id) ≡ none
unfolding climb
climb-short rows tenant_id id u e = rw (climb, e) refl

with_row-some :
    (u : OrgUnit) (o : Option (List OrgUnit)) (xs : List OrgUnit)
    → with_row u o ≡ some xs
    → (rest : List OrgUnit) × (o ≡ some rest) × (xs ≡ u ∷ rest)
with_row-some u none xs h = absurd (none≢some h)
with_row-some u (some rest) xs h = (rest, refl, sym (some-inj (u ∷ rest) xs h))

-- A row of the query that passes a test, with the id that it was reached from.
abbrev Reached : (OrgUnit → Bool) → List OrgUnit → String → Option String → Type 0
Reached p rows tenant_id o =
    (id : String) × (o ≡ some id) × (v : OrgUnit) × IsAncestor rows tenant_id id v × (p v ≡ true)

or_second : (a b : Bool) → a ≡ false → (a || b) ≡ true → b ≡ true
or_second a b e h = ground arith

module _ (p : OrgUnit → Bool) (rows : List OrgUnit) (tenant_id : String) where
  up_one :
      (id : String) (u : OrgUnit)
      → find_tenant_org_unit_by_id rows tenant_id id ≡ some u
      → Reached p rows tenant_id u.parent_org_unit_id
      → Reached p rows tenant_id (some id)
  up_one id u found (parent_id, e, v, up, h) = (id, refl, v, above found e up, h)

  row_passes :
      (id : String) (u : OrgUnit) (rest : List OrgUnit)
      → find_tenant_org_unit_by_id rows tenant_id id ≡ some u
      → (any p rest ≡ true → Reached p rows tenant_id u.parent_org_unit_id)
      → any p (u ∷ rest) ≡ true
      → Reached p rows tenant_id (some id)
  row_passes id u rest found more h = elim (Bool-cases (p u)) [
    | inl e ↦ (id, refl, u, itself found, e)
    | inr e ↦ up_one id u found (more (or_second (p u) (any p rest) e h))
  ]

  climb_sound :
      (fuel : ℕ) (o : Option String) (xs : List OrgUnit)
      → climb fuel rows tenant_id o ≡ some xs
      → any p xs ≡ true
      → Reached p rows tenant_id o
  unfolding climb
  climb_sound fuel none xs e h =
      absurd (false≢true (subst (λ ys. any p ys ≡ true) (sym (some-inj [] xs e)) h))
  climb_sound zero (some id) xs e h =
      elim (Option-cases (find_tenant_org_unit_by_id rows tenant_id id)) [
        | inl missing ↦
            let nothing = some-inj [] xs (sym (climb-missing 0 rows tenant_id id missing) ∙ e) in
            absurd (false≢true (subst (λ ys. any p ys ≡ true) (sym nothing) h))
        | inr (u, found) ↦ absurd (none≢some (sym (climb-short rows tenant_id id u found) ∙ e))
      ]
  climb_sound (suc fuel) (some id) xs e h =
      elim (Option-cases (find_tenant_org_unit_by_id rows tenant_id id)) [
        | inl missing ↦
            let nothing =
              some-inj [] xs (sym (climb-missing (suc fuel) rows tenant_id id missing) ∙ e) in
            absurd (false≢true (subst (λ ys. any p ys ≡ true) (sym nothing) h))
        | inr (u, found) ↦
            let (rest, climbed, same) =
              with_row-some u (climb fuel rows tenant_id u.parent_org_unit_id) xs
                (sym (climb-found fuel rows tenant_id id u found) ∙ e) in
            row_passes id u rest found (climb_sound fuel u.parent_org_unit_id rest climbed)
              (subst (λ ys. any p ys ≡ true) same h)
      ]

  or_first : (a b : Bool) → a ≡ true → (a || b) ≡ true
  or_first a b e = ground arith

  or_rest : (a b : Bool) → b ≡ true → (a || b) ≡ true
  or_rest a b e = ground arith

  climb_complete :
      (fuel : ℕ) {id : String} (v : OrgUnit) (xs : List OrgUnit)
      → IsAncestor rows tenant_id id v
      → climb fuel rows tenant_id (some id) ≡ some xs
      → p v ≡ true
      → any p xs ≡ true
  climb_complete zero {id} v xs (itself found) e h =
      absurd (none≢some (sym (climb-short rows tenant_id id v found) ∙ e))
  climb_complete zero {id} v xs (above {u = u} found up more) e h =
      absurd (none≢some (sym (climb-short rows tenant_id id u found) ∙ e))
  climb_complete (suc fuel) {id} v xs (itself found) e h =
      let (rest, _, same) =
        with_row-some v (climb fuel rows tenant_id v.parent_org_unit_id) xs
          (sym (climb-found fuel rows tenant_id id v found) ∙ e) in
      subst (λ ys. any p ys ≡ true) (sym same) (or_first (p v) (any p rest) h)
  climb_complete (suc fuel) {id} v xs (above {u = u} found up more) e h =
      let (rest, climbed, same) =
        with_row-some u (climb fuel rows tenant_id u.parent_org_unit_id) xs
          (sym (climb-found fuel rows tenant_id id u found) ∙ e) in
      subst (λ ys. any p ys ≡ true) (sym same)
        (or_rest (p u) (any p rest)
          (climb_complete fuel v rest more (ap (climb fuel rows tenant_id) (sym up) ∙ climbed) h))

height-le : (t : OrgUnitType) → height t ≤ 4
height-le institution = omega arith
height-le college = omega arith
height-le department = omega arith
height-le program = omega arith

ended : {A : Type 0} (o : Option (List A)) (xs : List A) → o ≡ some xs → o ≡ some (or_else o [])
ended none xs e = absurd (none≢some e)
ended (some ys) xs e = refl

-- In a forest the recursive query over the ancestors of a unit comes to an end: no type of unit has
-- more than three types above it, so that four rows are enough.
pub org_ancestors-ends :
    (rows : List OrgUnit) (tenant_id id : String)
    → IsForest rows
    → climb 4 rows tenant_id (some id) ≡ some (org_ancestors rows tenant_id id)
unfolding org_ancestors
org_ancestors-ends rows tenant_id id forest =
    elim (Option-cases (find_tenant_org_unit_by_id rows tenant_id id)) [
      | inl missing ↦
          ended (climb 4 rows tenant_id (some id)) [] (climb-missing 4 rows tenant_id id missing)
      | inr (u, found) ↦
          let (rest, e) =
            climb-ends rows tenant_id forest 3 u.unit_type u.parent_org_unit_id
              (found-IsPlaced rows tenant_id forest id u found) (height-le u.unit_type) in
          ended (climb 4 rows tenant_id (some id)) (u ∷ rest)
            (climb-found 3 rows tenant_id id u found ∙ ap (with_row u) e)
    ]

-- In a forest the query over the ancestors of a unit meets a row that passes a test exactly where
-- the unit itself, or a unit above it, passes.
pub org_ancestors-IsAncestor :
    (p : OrgUnit → Bool) (rows : List OrgUnit) (tenant_id id : String)
    → IsForest rows
    → (any p (org_ancestors rows tenant_id id) ≡ true)
      ↔ ((v : OrgUnit) × IsAncestor rows tenant_id id v × (p v ≡ true))
org_ancestors-IsAncestor p rows tenant_id id forest =
    let ends = org_ancestors-ends rows tenant_id id forest in
    (
      λ h.
          let (id', same, v, up, passed) = climb_sound p rows tenant_id 4 (some id) _ ends h in
          (v, subst (λ i. IsAncestor rows tenant_id i v) (sym (some-inj id id' same)) up, passed),
      λ (v, up, passed). climb_complete p rows tenant_id 4 v _ up ends passed,
    )
