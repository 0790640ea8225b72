-- ===== src/Access/Guards.antt =====
-- Whom the permissions on org units let through.
use cred_trail.Prelude.{
  ◌≡◌, refl, sym, ap, subst, ◌↔◌, inl, inr, Bool, true, false, not, ◌&&◌, ◌||◌, false≢true, Option,
  none, some, List, arith, String, str_eq, eq_iff, if◌then◌else◌, Bool-cases, is_some, and_right,
  none≢some, Some, All, find-true, ok,
}
use cred_trail.Access.Permission.{
  grant_request, can_bypass_org_scope_checks, is_issuer, has_scoped_org_unit_permission,
  require_scoped_org_unit_permission, without_grant, require_delegated_issuing_authority_permission,
  ScopedRequest, DelegatedRequest,
}
use cred_trail.Access.{Denial, denied}
use cred_trail.Delegation.{Authority, Clock}
use cred_trail.OrgUnits.{is_unit, find_tenant_org_unit_by_id, OrgUnit}
use cred_trail.Delegation.Lookup.{IsReadable, find_active_grant-IsCovering}
use cred_trail.OrgUnits.Ancestors.{IsForest, IsAncestor, itself, above}
use cred_trail.OrgUnits.Scopes.{
  has_scope_assignments, has_org_unit_access, Members, scope_issuer, grants_on, ScopeRole,
}
use cred_trail.OrgUnits.Reach.{org_ancestors-IsAncestor}
use cred_trail.Access.Meaning.{
  MayAct, access-HasIssuerScope, unscoped-HasNoScope, administrator, is_issuer-eq, tests_mean,
}
use cred_trail.Delegation.Covering.{IsCovering}

without_grant-is_some :
    (db : Members) (r : DelegatedRequest)
    → can_bypass_org_scope_checks r.membership_role ≡ false
    → is_some (without_grant db r)
      ≡ not (
          is_issuer r.membership_role
          && (not (has_scope_assignments db r.tenant_id r.user_id)
              || has_org_unit_access db r.tenant_id r.user_id r.owner_org_unit_id scope_issuer))
unfolding without_grant require_scoped_org_unit_permission has_scoped_org_unit_permission
without_grant-is_some db r e = rw (e) ground arith

refused :
    {A : Type 0} (bypass found g rest : Bool) (w : Option A)
    → bypass ≡ false
    → found ≡ g
    → is_some w ≡ not rest
    → is_some (if found then none else w) ≡ not (bypass || (g || rest))
refused bypass true g rest w h k l = rw (h, ← k) refl
refused bypass false g rest w h k l = rw (h, ← k) l

-- A refusal is missing exactly where the tests pass.
let_in : {A : Type 0} (o : Option A) (b : Bool) → is_some o ≡ not b → (o ≡ none) ↔ (b ≡ true)
let_in none true h = (λ e. refl, λ e. refl)
let_in none false h = absurd (false≢true h)
let_in (some x) true h = absurd (false≢true (sym h))
let_in (some x) false h = (λ e. absurd (none≢some (sym e)), λ e. absurd (false≢true e))

answered :
    (clock : Clock) (db : Authority) (r : DelegatedRequest) (now_iso : String) (found : Bool)
    → can_bypass_org_scope_checks r.membership_role ≡ false
    → (found ≡ true)
      ↔ Some (IsCovering clock db.members.org_units (grant_request r) now_iso) db.grants
    → IsForest db.members.org_units
    → ((if found then none else without_grant db.members r) ≡ none) ↔ MayAct clock db r now_iso
answered clock db r now_iso found e covered forest =
    let units = db.members.org_units in
    let rest =
      is_issuer r.membership_role
      && (not (has_scope_assignments db.members r.tenant_id r.user_id)
          || has_org_unit_access db.members r.tenant_id r.user_id r.owner_org_unit_id
              scope_issuer) in
    let step =
      let_in (if found then none else without_grant db.members r)
        (can_bypass_org_scope_checks r.membership_role || (found || rest))
        (refused (can_bypass_org_scope_checks r.membership_role) found found rest
          (without_grant db.members r) e refl (without_grant-is_some db.members r e)) in
    let meaning =
      tests_mean (can_bypass_org_scope_checks r.membership_role) found (is_issuer r.membership_role)
        (has_scope_assignments db.members r.tenant_id r.user_id)
        (has_org_unit_access db.members r.tenant_id r.user_id r.owner_org_unit_id scope_issuer)
        (administrator r.membership_role) covered (is_issuer-eq r.membership_role)
        (unscoped-HasNoScope db.members r.tenant_id r.user_id)
        (access-HasIssuerScope db.members r.tenant_id r.user_id r.owner_org_unit_id forest) in
    (λ h. meaning.0 (step.0 h), λ h. step.1 (meaning.1 h))

-- Where the time is valid, every grant can be read and the org units are a forest: the check for an
-- action on a badge template returns, keeps the grants, and refuses nobody but those who are no
-- owner or administrator, hold no grant of that tenant that covers the action, the unit and the
-- template at that time and is not revoked, and are no issuer with either no scopes at all or an
-- issuer's or administrator's scope on the unit or above it; and it refuses all of them.
pub require_delegated-MayAct :
    (clock : Clock) (db : Authority) (r : DelegatedRequest) (now_iso : String)
    → is_some (clock.parse_ms now_iso) ≡ true
    → All (IsReadable clock) db.grants
    → IsForest db.members.org_units
    → (refusal : Option Denial) × (after : Authority)
      × (require_delegated_issuing_authority_permission clock db r now_iso ≡ ok (refusal, after))
      × ((refusal ≡ none) ↔ MayAct clock db r now_iso)
      × (after.grants ≡ db.grants)
unfolding require_delegated_issuing_authority_permission
require_delegated-MayAct clock db r now_iso valid readable forest =
    elim (Bool-cases (can_bypass_org_scope_checks r.membership_role)) [
      | inl e ↦ (
        none,
        db,
        rw (e) refl,
        (λ h. inl ((administrator r.membership_role).0 e), λ h. refl),
        refl,
      )
      | inr e ↦
          let (found, after, looked, same, covered) =
            find_active_grant-IsCovering clock db (grant_request r) now_iso valid readable forest in
          (
            if is_some found then none else without_grant db.members r,
            after,
            rw (e, looked) refl,
            answered clock db r now_iso (is_some found) e covered forest,
            same,
          )
    ]

-- Ancestors of ancestors are ancestors.
IsAncestor-trans :
    (rows : List OrgUnit) (tenant_id : String) {id : String} (u v : OrgUnit)
    → IsAncestor rows tenant_id id u
    → IsAncestor rows tenant_id u.id v
    → IsAncestor rows tenant_id id v
unfolding find_tenant_org_unit_by_id
IsAncestor-trans rows tenant_id {id} u v (itself found) up =
    subst (λ i. IsAncestor rows tenant_id i v)
      ((eq_iff u.id id).0 (
        and_right (str_eq u.tenant_id tenant_id) _ (find-true (is_unit tenant_id id) rows u found)))
      up
IsAncestor-trans rows tenant_id u v (above found parent more) up =
    above found parent (IsAncestor-trans rows tenant_id u v more up)

-- The chain of conditions of the permission, whose last one gives way.
permission_mono :
    (bypass other unscoped allow here there : Bool)
    → (here ≡ true → there ≡ true)
    → (if bypass then true else if other then false else if unscoped then allow else here) ≡ true
    → (if bypass then true else if other then false else if unscoped then allow else there) ≡ true
permission_mono true other unscoped allow here there h e = refl
permission_mono false true unscoped allow here there h e = e
permission_mono false false true allow here there h e = e
permission_mono false false false allow here there h e = h e

has_org_unit_access-below :
    (db : Members) (tenant_id user_id id : String) (required : ScopeRole) (u : OrgUnit)
    → IsForest db.org_units
    → IsAncestor db.org_units tenant_id id u
    → has_org_unit_access db tenant_id user_id u.id required ≡ true
    → has_org_unit_access db tenant_id user_id id required ≡ true
unfolding has_org_unit_access
has_org_unit_access-below db tenant_id user_id id required u forest up h =
    let test = grants_on db tenant_id user_id required in
    let (v, higher, passed) =
      (org_ancestors-IsAncestor test db.org_units tenant_id u.id forest).0 h in
    (org_ancestors-IsAncestor test db.org_units tenant_id id forest).1
      (v, IsAncestor-trans db.org_units tenant_id u v up higher, passed)

let_through : {A : Type 0} (b : Bool) (d : A) → (if b then none else some d) ≡ none → b ≡ true
let_through true d h = refl
let_through false d h = absurd (none≢some (sym h))

-- In a forest of org units, whoever is let through on a unit is let through, by the same request,
-- on every unit below it.
pub require_scoped-below :
    (db : Members) (r : ScopedRequest) (u : OrgUnit) (id : String)
    → IsForest db.org_units
    → IsAncestor db.org_units r.tenant_id id u
    → require_scoped_org_unit_permission db (record r { org_unit_id = u.id }) ≡ none
    → require_scoped_org_unit_permission db (record r { org_unit_id = id }) ≡ none
unfolding require_scoped_org_unit_permission has_scoped_org_unit_permission
require_scoped-below db r u id forest up h =
    ap
      (λ b.
        if b then none else some (denied 403 "Insufficient org-unit scope for requested action"))
      (permission_mono (can_bypass_org_scope_checks r.membership_role)
        (not (is_issuer r.membership_role)) (not (has_scope_assignments db r.tenant_id r.user_id))
        r.allow_when_no_scopes (has_org_unit_access db r.tenant_id r.user_id u.id r.required_role)
        (has_org_unit_access db r.tenant_id r.user_id id r.required_role)
        (has_org_unit_access-below db r.tenant_id r.user_id id r.required_role u forest up)
        (let_through _ (denied 403 "Insufficient org-unit scope for requested action") h))
