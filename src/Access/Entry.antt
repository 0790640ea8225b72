-- ===== src/Access/Entry.antt =====
-- What `requireTenantRole` lets through.
use cred_trail.Prelude.{
  ◌≡◌, refl, sym, subst, ◌∙◌, ◌≢◌, Bool, true, false, not, false≢true, Option, none, some, List,
  Memᴰ, arith, String, str_eq, eq_iff, and_left, and_right, some-inj, none≢some, Some, any-Some,
  find-Memᴰ, find-true, ok-inj, throw_if-ok, bind-ok, or_throw-ok, ok,
}
use cred_trail.Access.{
  TenantAccess, denied, has_required_role, require_principal_tenant_role, session_of, setup_pending,
  is_text, require_tenant_role, Principal,
}
use cred_trail.OrgUnits.Scopes.{
  Membership, find_tenant_membership, Members, is_membership, same_role,
}
use cred_trail.Approval.{Role, viewer, issuer, admin, owner}

-- What an access given must rest on: a row of the table of members, of the very tenant and user,
-- whose role is on the list.
abbrev pub IsGranted :
    Members → Option String → Option Principal → String → List Role → TenantAccess → Type 0
IsGranted db pending_break_glass principal tenant_id allowed access =
    Some
      (λ m.
        (m.tenant_id ≡ tenant_id)
        × (m.user_id ≡ access.principal.user_id)
        × (m.role ≡ access.membership_role))
      db.memberships
    × Memᴰ access.membership_role allowed
    × (principal ≡ some access.principal)
    × (access.session.tenant_id ≡ tenant_id)
    × (access.session.user_id ≡ access.principal.user_id)
    × (pending_break_glass ≢ some tenant_id)

abbrev access_of : Principal × Role → String → TenantAccess
access_of r tenant_id = record {
  principal = r.0;
  session = session_of r.0 tenant_id;
  membership_role = r.1;
}

negation_false : (b : Bool) → not b ≡ false → b ≡ true
negation_false b h = ground arith

same_role-eq : (a b : Role) → same_role a b ≡ true → a ≡ b
unfolding same_role
same_role-eq viewer viewer h = refl
same_role-eq viewer issuer h = absurd (false≢true h)
same_role-eq viewer admin h = absurd (false≢true h)
same_role-eq viewer owner h = absurd (false≢true h)
same_role-eq issuer viewer h = absurd (false≢true h)
same_role-eq issuer issuer h = refl
same_role-eq issuer admin h = absurd (false≢true h)
same_role-eq issuer owner h = absurd (false≢true h)
same_role-eq admin viewer h = absurd (false≢true h)
same_role-eq admin issuer h = absurd (false≢true h)
same_role-eq admin admin h = refl
same_role-eq admin owner h = absurd (false≢true h)
same_role-eq owner viewer h = absurd (false≢true h)
same_role-eq owner issuer h = absurd (false≢true h)
same_role-eq owner admin h = absurd (false≢true h)
same_role-eq owner owner h = refl

required-Memᴰ :
    (role : Role) (allowed : List Role) → has_required_role role allowed ≡ true → Memᴰ role allowed
unfolding has_required_role
required-Memᴰ role allowed h =
    let (r, there, e) = any-Some (λ r. same_role r role) allowed h in
    subst (λ x. Memᴰ x allowed) (same_role-eq r role e) there

membership_row :
    (db : Members) (tenant_id user_id : String) (m : Membership)
    → find_tenant_membership db tenant_id user_id ≡ some m
    → Memᴰ m db.memberships × (m.tenant_id ≡ tenant_id) × (m.user_id ≡ user_id)
unfolding find_tenant_membership
membership_row db tenant_id user_id m h =
    let k = find-true (is_membership tenant_id user_id) db.memberships m h in
    (
      find-Memᴰ (is_membership tenant_id user_id) db.memberships m h,
      (eq_iff m.tenant_id tenant_id).0 (and_left _ (str_eq m.user_id user_id) k),
      (eq_iff m.user_id user_id).0 (and_right (str_eq m.tenant_id tenant_id) _ k),
    )

not_pending :
    (pending : Option String) (tenant_id : String)
    → is_text pending tenant_id ≡ false
    → pending ≢ some tenant_id
not_pending none tenant_id h e = none≢some e
not_pending (some t) tenant_id h e =
    false≢true (sym h ∙ (eq_iff t tenant_id).1 (some-inj t tenant_id e))

-- What `requireTenantRole` lets through is an authenticated user for whom the table of members has
-- a row of the very tenant with a role on the list, which is the role of the access; the session is
-- the user's and for that tenant, and no break-glass setup is pending there.
pub require_tenant_role-IsGranted :
    (db : Members) (pending_break_glass : Option String) (principal : Option Principal)
    (tenant_id : String) (allowed : List Role) (access : TenantAccess)
    → require_tenant_role db pending_break_glass principal tenant_id allowed ≡ ok access
    → IsGranted db pending_break_glass principal tenant_id allowed access
unfolding require_tenant_role require_principal_tenant_role
require_tenant_role-IsGranted db pending_break_glass principal tenant_id allowed access h =
    let (ready, h1) =
      throw_if-ok (is_text pending_break_glass tenant_id) setup_pending _ access h in
    let (result, e, h2) =
      bind-ok (require_principal_tenant_role db principal tenant_id allowed) _ access h1 in
    let (user, someone, e1) = or_throw-ok principal (denied 401 "Not authenticated") _ result e in
    let (m, found, e2) =
      or_throw-ok (find_tenant_membership db tenant_id user.user_id)
        (denied 403 "Membership not found for requested tenant") _ result e1 in
    let (fits, e3) =
      throw_if-ok (not (has_required_role m.role allowed))
        (denied 403 "Insufficient role for requested action") _ result e2 in
    let from = ok-inj (user, m.role) result e3 in
    let (there, tenant, owned) = membership_row db tenant_id user.user_id m found in
    subst (IsGranted db pending_break_glass principal tenant_id allowed) (ok-inj _ access h2) (
      subst
        (λ r. IsGranted db pending_break_glass principal tenant_id allowed (access_of r tenant_id))
        from
        (
          (m, there, (tenant, owned, refl)),
          required-Memᴰ m.role allowed (negation_false (has_required_role m.role allowed) fits),
          someone,
          refl,
          refl,
          not_pending pending_break_glass tenant_id ready,
        ))
