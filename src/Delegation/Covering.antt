-- ===== src/Delegation/Covering.antt =====
-- When a grant covers a request at a time, stated on the fields of the grant, and the tests of the
-- lookup against it.
use cred_trail.Prelude.{
  ℕ, suc, ◌≡◌, refl, sym, ap, subst, ◌↔◌, ◌⊎◌, inl, inr, Bool, true, false, not, ◌&&◌, false≢true,
  Option, none, some, List, [], ◌∷◌, Memᴰ, arith, String, str_eq, eq_iff, ltb, is_some, and_left,
  and_right, Some, any-Some, Some-any, has-Memᴰ, has, length, any,
}
use cred_trail.OrgUnits.Ancestors.{IsAncestor, IsForest}
use cred_trail.Delegation.{
  same_action, includes, is_revoked_grant, is_within_scope, DelegatedAction, Grant, Clock,
  issue_badge_action, revoke_badge_action, manage_lifecycle_action,
}
use cred_trail.OrgUnits.{OrgUnit}
use cred_trail.Delegation.Resolve.{is_in_force, ResolveInput, covers}
use cred_trail.OrgUnits.Reach.{org_ancestors-IsAncestor}

-- The unit with the second id is the unit with the first one or stands above it.
abbrev pub IsUnder : List OrgUnit → (tenant_id id scoped_id : String) → Type 0
IsUnder units tenant_id id scoped_id =
    (u : OrgUnit) × IsAncestor units tenant_id id u × (u.id ≡ scoped_id)

-- A grant to the very user in the very tenant, not revoked, from its start to its end, both
-- included, that names the action, stands on the unit or above it, and names the template or none.
abbrev pub IsCovering : Clock → List OrgUnit → ResolveInput → (at_iso : String) → Grant → Type 0
IsCovering clock units input at_iso g =
    (g.tenant_id ≡ input.tenant_id)
    × (g.delegate_user_id ≡ input.user_id)
    × (g.revoked_at ≡ none)
    × (clock.text_lt at_iso g.starts_at ≡ false)
    × (clock.text_lt g.ends_at at_iso ≡ false)
    × Memᴰ input.required_action g.allowed_actions
    × IsUnder units input.tenant_id input.org_unit_id g.org_unit_id
    × ((g.badge_template_ids ≡ []) ⊎ Memᴰ input.badge_template_id g.badge_template_ids)

pub same_action-eq : (a b : DelegatedAction) → same_action a b ≡ true → a ≡ b
unfolding same_action
same_action-eq issue_badge_action issue_badge_action h = refl
same_action-eq issue_badge_action revoke_badge_action h = absurd (false≢true h)
same_action-eq issue_badge_action manage_lifecycle_action h = absurd (false≢true h)
same_action-eq revoke_badge_action issue_badge_action h = absurd (false≢true h)
same_action-eq revoke_badge_action revoke_badge_action h = refl
same_action-eq revoke_badge_action manage_lifecycle_action h = absurd (false≢true h)
same_action-eq manage_lifecycle_action issue_badge_action h = absurd (false≢true h)
same_action-eq manage_lifecycle_action revoke_badge_action h = absurd (false≢true h)
same_action-eq manage_lifecycle_action manage_lifecycle_action h = refl

same_action-same : (a : DelegatedAction) → same_action a a ≡ true
unfolding same_action
same_action-same issue_badge_action = refl
same_action-same revoke_badge_action = refl
same_action-same manage_lifecycle_action = refl

pub includes-Memᴰ :
    (actions : List DelegatedAction) (a : DelegatedAction)
    → (includes actions a ≡ true) ↔ Memᴰ a actions
includes-Memᴰ actions a = (
  λ h.
      let (b, there, e) = any-Some (λ b. same_action b a) actions h in
      subst (λ c. Memᴰ c actions) (same_action-eq b a e) there,
  λ there. Some-any (λ b. same_action b a) actions a there (same_action-same a),
)

is_within_scope-IsUnder :
    (units : List OrgUnit) (tenant_id id scoped_id : String)
    → IsForest units
    → (is_within_scope units tenant_id id scoped_id ≡ true) ↔ IsUnder units tenant_id id scoped_id
unfolding is_within_scope
is_within_scope-IsUnder units tenant_id id scoped_id forest =
    let both = org_ancestors-IsAncestor (λ u. str_eq u.id scoped_id) units tenant_id id forest in
    (
      λ h. let (u, up, e) = both.0 h in (u, up, (eq_iff u.id scoped_id).0 e),
      λ (u, up, e). both.1 (u, up, (eq_iff u.id scoped_id).1 e),
    )

named : (n : ℕ) (b : Bool) → (ltb 0 (suc n) && not b) ≡ false → b ≡ true
named n b h = ground arith

unrestricted : (n : ℕ) (b : Bool) → b ≡ true → (ltb 0 n && not b) ≡ false
unrestricted n b h = ground arith

lists_template :
    (t : String) (ids : List String)
    → ((ltb 0 (length ids) && not (has t ids)) ≡ false) ↔ ((ids ≡ []) ⊎ Memᴰ t ids)
lists_template t [] = (λ h. inl refl, λ h. refl)
lists_template t (x ∷ xs) = (
  λ h. inr ((has-Memᴰ t (x ∷ xs)).0 (named (length xs) (has t (x ∷ xs)) h)),
  λ h. elim h [
    | inl e ↦ absurd (omega (arith, ap length e))
    | inr there ↦ unrestricted (length (x ∷ xs)) (has t (x ∷ xs)) ((has-Memᴰ t (x ∷ xs)).1 there)
  ],
)

unset : {A : Type 0} (o : Option A) → is_some o ≡ false → o ≡ none
unset none h = refl
unset (some x) h = absurd (false≢true (sym h))

and_both : (a b : Bool) → a ≡ true → b ≡ true → (a && b) ≡ true
and_both a b h k = ground arith

-- The tests of the query, and those of the loop.
force_parts :
    (t d r s e : Bool)
    → (((t && d) && not r) && (not s && not e)) ≡ true
    → (t ≡ true) × (d ≡ true) × (r ≡ false) × (s ≡ false) × (e ≡ false)
force_parts t d r s e h = ground arith

force_whole :
    (t d r s e : Bool)
    → t ≡ true
    → d ≡ true
    → r ≡ false
    → s ≡ false
    → e ≡ false
    → (((t && d) && not r) && (not s && not e)) ≡ true
force_whole t d r s e ht hd hr hs he = ground arith

cover_parts : (i w l : Bool) → (i && (w && not l)) ≡ true → (i ≡ true) × (w ≡ true) × (l ≡ false)
cover_parts i w l h = ground arith

cover_whole : (i w l : Bool) → i ≡ true → w ≡ true → l ≡ false → (i && (w && not l)) ≡ true
cover_whole i w l hi hw hl = ground arith

module _ (clock : Clock) (units : List OrgUnit) (input : ResolveInput) (at_iso : String) (g : Grant)
    (forest : IsForest units) where
  covers-IsCovering :
      is_in_force clock input at_iso g ≡ true
      → covers units input g ≡ true
      → IsCovering clock units input at_iso g
  unfolding covers
  covers-IsCovering h k =
      let (t, d, r, s, e) =
        force_parts (str_eq g.tenant_id input.tenant_id) (str_eq g.delegate_user_id input.user_id)
          (is_revoked_grant g) (clock.text_lt at_iso g.starts_at) (clock.text_lt g.ends_at at_iso)
          h in
      let (i, w, l) =
        cover_parts (includes g.allowed_actions input.required_action)
          (is_within_scope units input.tenant_id input.org_unit_id g.org_unit_id)
          (ltb 0 (length g.badge_template_ids)
            && not (has input.badge_template_id g.badge_template_ids))
          k in
      (
        (eq_iff g.tenant_id input.tenant_id).0 t,
        (eq_iff g.delegate_user_id input.user_id).0 d,
        unset g.revoked_at r,
        s,
        e,
        (includes-Memᴰ g.allowed_actions input.required_action).0 i,
        (is_within_scope-IsUnder units input.tenant_id input.org_unit_id g.org_unit_id forest).0 w,
        (lists_template input.badge_template_id g.badge_template_ids).0 l,
      )

  IsCovering-covers :
      IsCovering clock units input at_iso g
      → (is_in_force clock input at_iso g && covers units input g) ≡ true
  unfolding covers
  IsCovering-covers (t, d, r, s, e, i, w, l) =
      and_both (is_in_force clock input at_iso g) (covers units input g)
        (force_whole (str_eq g.tenant_id input.tenant_id) (str_eq g.delegate_user_id input.user_id)
          (is_revoked_grant g) (clock.text_lt at_iso g.starts_at) (clock.text_lt g.ends_at at_iso)
          ((eq_iff g.tenant_id input.tenant_id).1 t) ((eq_iff g.delegate_user_id input.user_id).1 d)
          (ap is_some r) s e)
        (cover_whole (includes g.allowed_actions input.required_action)
          (is_within_scope units input.tenant_id input.org_unit_id g.org_unit_id)
          (ltb 0 (length g.badge_template_ids)
            && not (has input.badge_template_id g.badge_template_ids))
          ((includes-Memᴰ g.allowed_actions input.required_action).1 i)
          ((is_within_scope-IsUnder units input.tenant_id input.org_unit_id g.org_unit_id forest).1
            w)
          ((lists_template input.badge_template_id g.badge_template_ids).1 l))

-- Some row passes the tests exactly where some grant covers the request.
pub any-IsCovering :
    (clock : Clock) (units : List OrgUnit) (input : ResolveInput) (at_iso : String)
    (grants : List Grant)
    → IsForest units
    → (any (λ g. is_in_force clock input at_iso g && covers units input g) grants ≡ true)
      ↔ Some (IsCovering clock units input at_iso) grants
any-IsCovering clock units input at_iso grants forest = (
  λ h.
      let (g, there, k) =
        any-Some (λ g. is_in_force clock input at_iso g && covers units input g) grants h in
      (
        g,
        there,
        covers-IsCovering clock units input at_iso g forest
            (and_left (is_in_force clock input at_iso g) _ k)
            (and_right (is_in_force clock input at_iso g) _ k),
      ),
  λ (g, there, k).
      Some-any (λ g. is_in_force clock input at_iso g && covers units input g) grants g there
        (IsCovering-covers clock units input at_iso g forest k),
)
