-- ===== src/OrgUnits/Assigned.antt =====
-- The table of scopes, row by row, against the function from a member and a unit to a role that it
-- stands for.
use cred_trail.Prelude.{
  ◌≡◌, refl, sym, ap, ap₂, subst, ◌∙◌, fun_ext, inl, inr, Bool, true, false, not, ◌&&◌, Option,
  none, some, List, [], ◌∷◌, String, str_eq, eq_iff, eq_refl, if◌then◌else◌, Option-cases, is_some,
  if-elim, and_left, and_right, ap-if, find-upsert_self, find-upsert_other, find-removed, find-kept,
  find, keep, Result, ok, err,
}
use cred_trail.OrgUnits.Scopes.{
  Scope, find_tenant_membership, is_scope, find_scope, scope_role_of, upsert_scope, remove_scope,
  ScopeRole, Members, MemberError, ScopeInput, write_scope, new_scope, change_scope, stored_scope,
  ScopeResult,
}
use cred_trail.OrgUnits.{find_tenant_org_unit_by_id}

pub data ScopeOp : Type 0 where
  assign : ScopeInput → (now_iso : String) → ScopeOp
  withdraw : (tenant_id user_id org_unit_id : String) → ScopeOp

-- A call that throws leaves the tables.
abbrev pub after_or {ℓ} : {A : Type ℓ} → Members → Result MemberError (A × Members) → Members
after_or db (err e) = db
after_or db (ok x) = x.1

abbrev pub apply_op : ScopeOp → Members → Members
apply_op (assign input now_iso) db = after_or db (upsert_scope db input now_iso)
apply_op (withdraw tenant_id user_id org_unit_id) db =
    (remove_scope db tenant_id user_id org_unit_id).1

unfoldable pub run_ops : List ScopeOp → Members → Members
run_ops [] db = db
run_ops (op ∷ ops) db = run_ops ops (apply_op op db)

-- What is promised: the role of each member on each unit.
abbrev pub Assigned : Type 0
Assigned = String → String → String → Option ScopeRole

abbrev pub role_at : Members → Assigned
role_at db tenant_id user_id org_unit_id =
    scope_role_of (find_scope db tenant_id user_id org_unit_id)

abbrev pub can_assign : Members → ScopeInput → Bool
can_assign db input =
    is_some (find_tenant_membership db input.tenant_id input.user_id)
    && is_some (find_tenant_org_unit_by_id db.org_units input.tenant_id input.org_unit_id)

abbrev pub same_key : (t u o t' u' o' : String) → Bool
same_key t u o t' u' o' = (str_eq t' t && str_eq u' u) && str_eq o' o

-- What an operation is to make of the roles, where `permits` says which assignments are accepted.
abbrev pub promised : (ScopeInput → Bool) → ScopeOp → Assigned → Assigned
promised permits (assign input now_iso) f t u o =
    if permits input && same_key t u o input.tenant_id input.user_id input.org_unit_id
    then some input.role
    else f t u o
promised permits (withdraw tenant_id user_id org_unit_id) f t u o =
    if same_key t u o tenant_id user_id org_unit_id then none else f t u o

unfoldable pub replay : (ScopeInput → Bool) → List ScopeOp → Assigned → Assigned
replay permits [] f = f
replay permits (op ∷ ops) f = replay permits ops (promised permits op f)

key_other :
    (t u o t' u' o' a b c : String)
    → same_key t u o t' u' o' ≡ false
    → same_key t' u' o' a b c ≡ true
    → same_key t u o a b c ≡ false
key_other t u o t' u' o' a b c other own =
    rw
      (
        (eq_iff a t').0 (and_left _ (str_eq b u') (and_left _ (str_eq c o') own)),
        (eq_iff b u').0 (and_right (str_eq a t') _ (and_left _ (str_eq c o') own)),
        (eq_iff c o').0 (and_right (str_eq a t' && str_eq b u') _ own),
      )
      other

key_self : (t u o : String) → same_key t u o t u o ≡ true
key_self t u o = rw (eq_refl t, eq_refl u, eq_refl o) refl

key_eq : (t u o t' u' o' : String) → same_key t u o t' u' o' ≡ true → (t' ≡ t) × (u' ≡ u) × (o' ≡ o)
key_eq t u o t' u' o' own = (
  (eq_iff t' t).0 (and_left _ (str_eq u' u) (and_left _ (str_eq o' o) own)),
  (eq_iff u' u).0 (and_right (str_eq t' t) _ (and_left _ (str_eq o' o) own)),
  (eq_iff o' o).0 (and_right (str_eq t' t && str_eq u' u) _ own),
)

subst_key :
    (P : String → String → String → Type 0) {t t' u u' o o' : String}
    → t ≡ t'
    → u ≡ u'
    → o ≡ o'
    → P t u o
    → P t' u' o'
subst_key P {t' = t'} {u = u} {u' = u'} {o = o} et eu eo p =
    subst (λ z. P t' u' z) eo (subst (λ z. P t' z o) eu (subst (λ z. P z u o) et p))

written :
    (input : ScopeInput) (now_iso : String) (rows : List Scope)
    → (s : Scope) × (find
          (is_scope input.tenant_id input.user_id input.org_unit_id)
          (write_scope input now_iso rows)
        ≡ some s)
      × (s.role ≡ input.role)
written input now_iso rows =
    let own = is_scope input.tenant_id input.user_id input.org_unit_id in
    let change = change_scope input now_iso in
    let new = new_scope input now_iso in
    let e =
      find-upsert_self own change new rows
        (key_self input.tenant_id input.user_id input.org_unit_id) (λ r h. h) in
    elim (Option-cases (find own rows)) [
      | inl missing ↦
          (new, e ∙ ap (λ o. elim o [ none ↦ some new | some r ↦ some (change r) ]) missing, refl)
      | inr (r, found) ↦ (
        change r,
        e ∙ ap (λ o. elim o [ none ↦ some new | some r ↦ some (change r) ]) found,
        refl,
      )
    ]

-- What an accepted assignment leaves: its own row, and every other member and unit as it was.
assigned :
    (input : ScopeInput) (now_iso : String) (rows : List Scope) (t u o : String)
    → scope_role_of (find (is_scope t u o) (write_scope input now_iso rows)) ≡ (
        if same_key t u o input.tenant_id input.user_id input.org_unit_id
        then some input.role
        else scope_role_of (find (is_scope t u o) rows))
assigned input now_iso rows t u o =
    if-elim (λ r. scope_role_of (find (is_scope t u o) (write_scope input now_iso rows)) ≡ r)
      (same_key t u o input.tenant_id input.user_id input.org_unit_id)
      (λ e.
        let (et, eu, eo) = key_eq t u o input.tenant_id input.user_id input.org_unit_id e in
        let (s, found, role) = written input now_iso rows in
        subst_key
          (λ t₁ u₁ o₁.
            scope_role_of (find (is_scope t₁ u₁ o₁) (write_scope input now_iso rows))
            ≡ some input.role)
          et eu eo (ap scope_role_of found ∙ ap some role))
      (λ e. ap scope_role_of (
        find-upsert_other (is_scope t u o)
          (is_scope input.tenant_id input.user_id input.org_unit_id) (change_scope input now_iso)
          (new_scope input now_iso) rows e
          (λ r own.
            let no =
              key_other t u o input.tenant_id input.user_id input.org_unit_id r.tenant_id r.user_id
                r.org_unit_id e own in
            (no, no))))

reread_scope :
    (db : Members) (input : ScopeInput) (now_iso : String) (previous : Option Scope)
    → after_or {A = ScopeResult} db
        (stored_scope (record db { scopes = write_scope input now_iso db.scopes }) input previous)
      ≡ record db { scopes = write_scope input now_iso db.scopes }
unfolding stored_scope find_scope
reread_scope db input now_iso previous =
    let (s, found, role) = written input now_iso db.scopes in rw (found) refl

upsert_scope-after :
    (db : Members) (input : ScopeInput) (now_iso : String)
    → after_or db (upsert_scope db input now_iso) ≡ (
        if can_assign db input
        then record db { scopes = write_scope input now_iso db.scopes }
        else db)
unfolding upsert_scope find_scope
upsert_scope-after db input now_iso =
    elim (Option-cases (find_tenant_membership db input.tenant_id input.user_id)) [
      | inl missing ↦ rw (missing) refl
      | inr (m, member) ↦
          elim (Option-cases
            (find_tenant_org_unit_by_id db.org_units input.tenant_id input.org_unit_id)) [
              | inl missing ↦ rw (member, missing) refl
              | inr (u, unit) ↦
                  rw (member, unit)
                    (reread_scope db input now_iso
                      (find (is_scope input.tenant_id input.user_id input.org_unit_id) db.scopes))
            ]
    ]

removed :
    (rows : List Scope) (t u o t' u' o' : String)
    → scope_role_of (find (is_scope t u o) (keep (λ s. not (is_scope t' u' o' s)) rows))
      ≡ (if same_key t u o t' u' o' then none else scope_role_of (find (is_scope t u o) rows))
removed rows t u o t' u' o' =
    if-elim
      (λ r. scope_role_of (find (is_scope t u o) (keep (λ s. not (is_scope t' u' o' s)) rows)) ≡ r)
      (same_key t u o t' u' o')
      (λ e.
        let (et, eu, eo) = key_eq t u o t' u' o' e in
        subst_key
          (λ t₁ u₁ o₁.
            scope_role_of (find (is_scope t u o) (keep (λ s. not (is_scope t₁ u₁ o₁ s)) rows))
            ≡ none)
          (sym et) (sym eu) (sym eo) (ap scope_role_of (find-removed (is_scope t u o) rows)))
      (λ e. ap scope_role_of (
        find-kept (is_scope t u o) (is_scope t' u' o') rows
          (λ r. key_other t u o t' u' o' r.tenant_id r.user_id r.org_unit_id e)))

and_if :
    {A : Type 0} (a b : Bool) (x y : A)
    → (if a then (if b then x else y) else y) ≡ (if a && b then x else y)
and_if true b x y = refl
and_if false b x y = refl

-- One operation on the tables makes of the roles what is promised.
apply_op-promised :
    (op : ScopeOp) (db : Members) (t u o : String)
    → role_at (apply_op op db) t u o ≡ promised (can_assign db) op (role_at db) t u o
unfolding find_scope remove_scope
apply_op-promised (assign input now_iso) db t u o =
    ap (λ d. role_at d t u o) (upsert_scope-after db input now_iso)
    ∙ ap-if (λ d. role_at d t u o) (can_assign db input) _ db
    ∙ ap (λ r. if can_assign db input then r else role_at db t u o)
        (assigned input now_iso db.scopes t u o)
    ∙ and_if (can_assign db input) (same_key t u o input.tenant_id input.user_id input.org_unit_id)
        (some input.role) (role_at db t u o)
apply_op-promised (withdraw t' u' o') db t u o = removed db.scopes t u o t' u' o'

apply_op-can_assign : (op : ScopeOp) (db : Members) → can_assign (apply_op op db) ≡ can_assign db
unfolding remove_scope find_tenant_membership
apply_op-can_assign (assign input now_iso) db =
    ap can_assign (upsert_scope-after db input now_iso)
    ∙ if-elim (λ d. can_assign d ≡ can_assign db) (can_assign db input) (λ e. refl) (λ e. refl)
apply_op-can_assign (withdraw t' u' o') db = refl

-- After any sequence of assignments and withdrawals, the table of scopes holds for every member and
-- unit the role that the sequence promises: the last accepted assignment since the last withdrawal,
-- where an assignment is accepted if its member and its unit exist.
pub run_ops-replay :
    (ops : List ScopeOp) (db : Members)
    → role_at (run_ops ops db) ≡ replay (can_assign db) ops (role_at db)
unfolding run_ops replay
run_ops-replay [] db = refl
run_ops-replay (op ∷ ops) db =
    run_ops-replay ops (apply_op op db)
    ∙ ap₂ (λ permits f. replay permits ops f) (apply_op-can_assign op db)
        (fun_ext (λ t. fun_ext (λ u. fun_ext (λ o. apply_op-promised op db t u o))))
