-- ===== src/Access/Meaning.antt =====
-- Who may act, stated on the rows of the members' tables, and the tests of the code against it.
use cred_trail.Prelude.{
  ℕ, suc, ◌≡◌, refl, sym, ap, ◌∙◌, ◌↔◌, ◌⊎◌, inl, inr, Bool, true, false, not, ◌&&◌, ◌||◌,
  false≢true, List, [], ◌∷◌, Memᴰ, arith, String, str_eq, eq_iff, ltb, leb, Bool-cases, and_left,
  and_right, Some, any-Some, Some-any, length, any, keep,
}
use cred_trail.Approval.{owner, admin, issuer, Role, viewer}
use cred_trail.OrgUnits.Ancestors.{IsAncestor, IsForest}
use cred_trail.Delegation.{Authority, Clock}
use cred_trail.OrgUnits.{OrgUnit}
use cred_trail.Access.Permission.{
  grant_request, DelegatedRequest, can_bypass_org_scope_checks, is_issuer,
}
use cred_trail.Delegation.Covering.{IsCovering}
use cred_trail.OrgUnits.Scopes.{
  is_scope_of, is_scope, list_scopes, has_scope_assignments, priority, grants_on,
  has_org_unit_access, ScopeRole, Scope, Members, scope_viewer, scope_issuer, scope_admin,
}
use cred_trail.OrgUnits.Reach.{org_ancestors-IsAncestor}

-- A scope of the member, and one whose role is an issuer's or an administrator's.
abbrev pub IsScopeOf : (tenant_id user_id : String) → Scope → Type 0
IsScopeOf tenant_id user_id s = (s.tenant_id ≡ tenant_id) × (s.user_id ≡ user_id)

abbrev pub IsIssuing : Scope → Type 0
IsIssuing s = (s.role ≡ scope_issuer) ⊎ (s.role ≡ scope_admin)

abbrev pub HasNoScope : Members → (tenant_id user_id : String) → Type 0
HasNoScope db tenant_id user_id = (s : Scope) → Memᴰ s db.scopes → IsScopeOf tenant_id user_id s → ⊥

-- A scope that lets its member issue, on the unit or above it.
abbrev pub HasIssuerScope : Members → (tenant_id user_id org_unit_id : String) → Type 0
HasIssuerScope db tenant_id user_id org_unit_id =
    (u : OrgUnit) × IsAncestor db.org_units tenant_id org_unit_id u
    × Some (λ s. IsScopeOf tenant_id user_id s × (s.org_unit_id ≡ u.id) × IsIssuing s) db.scopes

-- An administrator, a holder of a grant that covers the request, or an issuer who has no scopes at
-- all or one to issue on the unit or above it.
abbrev pub MayAct : Clock → Authority → DelegatedRequest → (now_iso : String) → Type 0
MayAct clock db r now_iso =
    ((r.membership_role ≡ owner) ⊎ (r.membership_role ≡ admin))
    ⊎ (Some (IsCovering clock db.members.org_units (grant_request r) now_iso) db.grants
        ⊎ ((r.membership_role ≡ issuer)
            × (HasNoScope db.members r.tenant_id r.user_id
                ⊎ HasIssuerScope db.members r.tenant_id r.user_id r.owner_org_unit_id)))

issuing : (s : Scope) → (leb 2 (priority s.role) ≡ true) ↔ IsIssuing s
issuing s =
    elim s.role
      as (λ (x : ScopeRole).
        (leb 2 (priority x) ≡ true) ↔ ((x ≡ scope_issuer) ⊎ (x ≡ scope_admin))) [
          | scope_issuer ↦ (λ h. inl refl, λ h. refl)
          | scope_admin ↦ (λ h. inr refl, λ h. refl)
          | scope_viewer ↦ (
            λ h. absurd (false≢true h),
            λ h. elim h [
              | inl e ↦ absurd (omega (arith, ap priority e))
              | inr e ↦ absurd (omega (arith, ap priority e))
            ],
          )
        ]

three_parts : (t u o : Bool) → ((t && u) && o) ≡ true → (t ≡ true) × (u ≡ true) × (o ≡ true)
three_parts t u o h = ground arith

four_whole :
    (t u o p : Bool) → t ≡ true → u ≡ true → o ≡ true → p ≡ true → (((t && u) && o) && p) ≡ true
four_whole t u o p ht hu ho hp = ground arith

pub both_true : (t u : Bool) → t ≡ true → u ≡ true → (t && u) ≡ true
both_true t u ht hu = ground arith

pub scope_row :
    (tenant_id user_id : String) (s : Scope)
    → (is_scope_of tenant_id user_id s ≡ true) ↔ IsScopeOf tenant_id user_id s
scope_row tenant_id user_id s = (
  λ h. (
    (eq_iff s.tenant_id tenant_id).0 (and_left _ (str_eq s.user_id user_id) h),
    (eq_iff s.user_id user_id).0 (and_right (str_eq s.tenant_id tenant_id) _ h),
  ),
  λ (t, u). both_true _ _ ((eq_iff s.tenant_id tenant_id).1 t) ((eq_iff s.user_id user_id).1 u),
)

grants_on-Some :
    (db : Members) (tenant_id user_id : String) (u : OrgUnit)
    → (grants_on db tenant_id user_id scope_issuer u ≡ true)
      ↔ Some (λ s. IsScopeOf tenant_id user_id s × (s.org_unit_id ≡ u.id) × IsIssuing s) db.scopes
grants_on-Some db tenant_id user_id u =
    let test : Scope → Bool = λ s. is_scope tenant_id user_id u.id s && leb 2 (priority s.role) in
    (
      λ h.
          let (s, there, k) = any-Some test db.scopes h in
          let (t, m, o) =
            three_parts (str_eq s.tenant_id tenant_id) (str_eq s.user_id user_id)
              (str_eq s.org_unit_id u.id)
              (and_left (is_scope tenant_id user_id u.id s) (leb 2 (priority s.role)) k) in
          (
            s,
            there,
            (
              ((eq_iff s.tenant_id tenant_id).0 t, (eq_iff s.user_id user_id).0 m),
              (eq_iff s.org_unit_id u.id).0 o,
              (issuing s).0 (and_right (is_scope tenant_id user_id u.id s) _ k),
            ),
          ),
      λ (s, there, ((t, m), o, i)). Some-any test db.scopes s there (
          four_whole (str_eq s.tenant_id tenant_id) (str_eq s.user_id user_id)
            (str_eq s.org_unit_id u.id) (leb 2 (priority s.role))
            ((eq_iff s.tenant_id tenant_id).1 t) ((eq_iff s.user_id user_id).1 m)
            ((eq_iff s.org_unit_id u.id).1 o) ((issuing s).1 i)),
    )

pub access-HasIssuerScope :
    (db : Members) (tenant_id user_id org_unit_id : String)
    → IsForest db.org_units
    → (has_org_unit_access db tenant_id user_id org_unit_id scope_issuer ≡ true)
      ↔ HasIssuerScope db tenant_id user_id org_unit_id
unfolding has_org_unit_access
access-HasIssuerScope db tenant_id user_id org_unit_id forest =
    let both =
      org_ancestors-IsAncestor (grants_on db tenant_id user_id scope_issuer) db.org_units tenant_id
        org_unit_id forest in
    (
      λ h. let (u, up, k) = both.0 h in (u, up, (grants_on-Some db tenant_id user_id u).0 k),
      λ (u, up, k). both.1 (u, up, (grants_on-Some db tenant_id user_id u).1 k),
    )

positive : (n : ℕ) → ltb 0 (suc n) ≡ true
positive n = ground arith

-- A member with scopes has a row.
kept_row : {A : Type 0} (p : A → Bool) (xs : List A) → ltb 0 (length (keep p xs)) ≡ any p xs
kept_row p [] = refl
kept_row p (x ∷ xs) = elim (Bool-cases (p x)) [
  | inl c ↦ rw (c) (positive (length (keep p xs)))
  | inr c ↦ rw (c) (kept_row p xs)
]

pub unscoped-HasNoScope :
    (db : Members) (tenant_id user_id : String)
    → (has_scope_assignments db tenant_id user_id ≡ false) ↔ HasNoScope db tenant_id user_id
unfolding has_scope_assignments list_scopes
unscoped-HasNoScope db tenant_id user_id =
    let same = kept_row (is_scope_of tenant_id user_id) db.scopes in
    (
      λ h s there own. false≢true (
          sym h
          ∙ same
          ∙ Some-any (is_scope_of tenant_id user_id) db.scopes s there
              ((scope_row tenant_id user_id s).1 own)),
      λ h. elim (Bool-cases (ltb 0 (length (keep (is_scope_of tenant_id user_id) db.scopes)))) [
        | inl some_row ↦
            let (s, there, k) =
              any-Some (is_scope_of tenant_id user_id) db.scopes (sym same ∙ some_row) in
            absurd (h s there ((scope_row tenant_id user_id s).0 k))
        | inr no_row ↦ no_row
      ],
    )

pub administrator :
    (role : Role) → (can_bypass_org_scope_checks role ≡ true) ↔ ((role ≡ owner) ⊎ (role ≡ admin))
unfolding can_bypass_org_scope_checks
administrator owner = (λ h. inl refl, λ h. refl)
administrator admin = (λ h. inr refl, λ h. refl)
administrator issuer = (
  λ h. absurd (false≢true h),
  λ h. elim h [
    | inl e ↦ ap can_bypass_org_scope_checks e
    | inr e ↦ ap can_bypass_org_scope_checks e
  ],
)
administrator viewer = (
  λ h. absurd (false≢true h),
  λ h. elim h [
    | inl e ↦ ap can_bypass_org_scope_checks e
    | inr e ↦ ap can_bypass_org_scope_checks e
  ],
)

pub is_issuer-eq : (role : Role) → (is_issuer role ≡ true) ↔ (role ≡ issuer)
is_issuer-eq issuer = (λ h. refl, λ h. refl)
is_issuer-eq owner = (λ h. absurd (false≢true h), λ h. ap is_issuer h)
is_issuer-eq admin = (λ h. absurd (false≢true h), λ h. ap is_issuer h)
is_issuer-eq viewer = (λ h. absurd (false≢true h), λ h. ap is_issuer h)

one_of_three :
    (b f i n a : Bool)
    → (b || (f || (i && (not n || a)))) ≡ true
    → (b ≡ true) ⊎ ((f ≡ true) ⊎ ((i ≡ true) × ((n ≡ false) ⊎ (a ≡ true))))
one_of_three true f i n a h = inl refl
one_of_three false true i n a h = inr (inl refl)
one_of_three false false true true true h = inr (inr (refl, inr refl))
one_of_three false false true false a h = inr (inr (refl, inl refl))
one_of_three false false true true false h = absurd (false≢true h)
one_of_three false false false n a h = absurd (false≢true h)

three_of :
    (b f i n a : Bool)
    → ((b ≡ true) ⊎ ((f ≡ true) ⊎ ((i ≡ true) × ((n ≡ false) ⊎ (a ≡ true)))))
    → (b || (f || (i && (not n || a)))) ≡ true
three_of b f i n a (inl e) = rw (e) refl
three_of b f i n a (inr (inl e)) = ground arith
three_of b f i n a (inr (inr (e, inl k))) = ground arith
three_of b f i n a (inr (inr (e, inr k))) = ground arith

pub tests_mean :
    {P Q R N A : Type 0} (b f i n a : Bool)
    → (b ≡ true) ↔ P
    → (f ≡ true) ↔ Q
    → (i ≡ true) ↔ R
    → (n ≡ false) ↔ N
    → (a ≡ true) ↔ A
    → ((b || (f || (i && (not n || a)))) ≡ true) ↔ (P ⊎ (Q ⊎ (R × (N ⊎ A))))
tests_mean b f i n a p q r m l = (
  λ h. elim (one_of_three b f i n a h) [
    | inl e ↦ inl (p.0 e)
    | inr (inl e) ↦ inr (inl (q.0 e))
    | inr (inr (e, inl k)) ↦ inr (inr (r.0 e, inl (m.0 k)))
    | inr (inr (e, inr k)) ↦ inr (inr (r.0 e, inr (l.0 k)))
  ],
  λ h. three_of b f i n a (elim h [
    | inl e ↦ inl (p.1 e)
    | inr (inl e) ↦ inr (inl (q.1 e))
    | inr (inr (e, inl k)) ↦ inr (inr (r.1 e, inl (m.1 k)))
    | inr (inr (e, inr k)) ↦ inr (inr (r.1 e, inr (l.1 k)))
  ]),
)
