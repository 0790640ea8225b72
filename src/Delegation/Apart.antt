-- ===== src/Delegation/Apart.antt =====
-- Sequences of calls on the grants, and the conflicts that they keep out.
use cred_trail.Prelude.{
  ◌≡◌, refl, sym, ap, subst, ◌∙◌, ◌⊎◌, inl, inr, Bool, false, not, ◌&&◌, Option, List, [], ◌∷◌,
  ◌++◌, map, arith, String, str_eq, leb, if-elim, and_refused, sort, any, keep, All, any-false,
  Pairwise, Pairwise-append, Pairwise-map, Result, ok-inj, throw_if-ok, bind-ok, or_throw-ok, ok,
  err,
}
use cred_trail.Delegation.{
  Grant, normalize_actions, normalize_badge_template_ids, is_revoked_grant, find_grant_row,
  record_expired_events, mapped_option, find_grant_by_id, GrantStatus, GrantEvent, Authority,
  GrantError, Clock, bad_timestamp, ends_before_start, delegate_not_member, scope_not_found,
  scope_inactive, grant_conflict, grant_id_taken, grant_not_loaded, grant_not_found,
}
use cred_trail.Delegation.Create.{
  in_conflict, check_templates, new_grant, granted, insert_grant, create_grant, CreateGrantInput,
  has_template_scope_overlap, has_action_overlap,
}
use cred_trail.OrgUnits.{find_tenant_org_unit_by_id}
use cred_trail.Delegation.Resolve.{
  revoke_grant, find_active_grant, RevokeGrantInput, ResolveInput, is_revocable, revoke_always,
  revoke_row, write_revocation, revoke_found, is_in_force, starts_before, first_covering,
  RevokeGrantResult,
}
use cred_trail.OrgUnits.Scopes.{find_tenant_membership}

-- `new` was made after `old`: another id, and, as long as neither is revoked, no conflict.
abbrev pub IsApart : Clock → Grant → Grant → Type 0
IsApart clock old new =
    (str_eq old.id new.id ≡ false)
    × ((not (is_revoked_grant new) && in_conflict clock new old) ≡ false)

unfoldable pub HasNoConflict : Clock → Authority → Type 0
HasNoConflict clock db = Pairwise (IsApart clock) db.grants

pub data GrantCall : Type 0 where
  create_call : CreateGrantInput → (id now_iso : String) → (written : List GrantEvent) → GrantCall
  revoke_call : RevokeGrantInput → (now_iso : String) → (written : List GrantEvent) → GrantCall
  resolve_call : ResolveInput → (at_iso : String) → (written : List GrantEvent) → GrantCall

-- A call that throws leaves the grants, and may have written events of expiry before: any events
-- stand for them.
abbrev pub left_by {ℓ} :
    {A : Type ℓ} → Authority → List GrantEvent → Result GrantError (A × Authority) → Authority
left_by db written (err e) = record db { grant_events = db.grant_events ++ written }
left_by db written (ok x) = x.1

abbrev pub call : Clock → GrantCall → Authority → Authority
call clock (create_call input id now_iso written) db =
    left_by db written (create_grant clock db input id now_iso)
call clock (revoke_call input now_iso written) db =
    left_by db written (revoke_grant clock db input now_iso)
call clock (resolve_call input at_iso written) db =
    left_by db written (find_active_grant clock db input at_iso)

unfoldable pub run_calls : Clock → List GrantCall → Authority → Authority
run_calls clock [] db = db
run_calls clock (c ∷ cs) db = run_calls clock cs (call clock c db)

-- What a call leaves satisfies what the grants before it and every returned state do.
pub left_by-elim {ℓ} :
    {A : Type ℓ} (P : List Grant → Type 0) (db : Authority) (written : List GrantEvent)
    (r : Result GrantError (A × Authority))
    → P db.grants
    → ((x : A × Authority) → r ≡ ok x → P x.1.grants)
    → P (left_by db written r).grants
left_by-elim P db written (err e) h k = h
left_by-elim P db written (ok x) h k = k x refl

pub find_grant_by_id-grants :
    (clock : Clock) (db : Authority) (tenant_id id now_iso : String)
    (after : Option (Grant × GrantStatus) × Authority)
    → find_grant_by_id clock db tenant_id id now_iso ≡ ok after
    → after.1.grants ≡ db.grants
unfolding find_grant_by_id record_expired_events
find_grant_by_id-grants clock db tenant_id id now_iso after h =
    let (found, _, e) =
      bind-ok (mapped_option clock now_iso (find_grant_row db.grants tenant_id id)) _ after h in
    ap (λ x. x.1.grants) (sym (ok-inj _ after e))

insert_grant-grants :
    (clock : Clock) (db : Authority) (g : Grant) (event : GrantEvent) (now_iso : String)
    (after : (Grant × GrantStatus) × Authority)
    → insert_grant clock db g event now_iso ≡ ok after
    → (any (λ old. str_eq old.id g.id) db.grants ≡ false) × (after.1.grants ≡ db.grants ++ g ∷ [])
unfolding insert_grant
insert_grant-grants clock db g event now_iso after h =
    let (fresh, h1) =
      throw_if-ok (any (λ old. str_eq old.id g.id) db.grants) grant_id_taken _ after h in
    let (found, e, h2) = bind-ok (find_grant_by_id clock _ g.tenant_id g.id now_iso) _ after h1 in
    let (created, _, h3) = or_throw-ok found.0 grant_not_loaded _ after h2 in
    (
      fresh,
      ap (λ x. x.1.grants) (sym (ok-inj (created, found.1) after h3))
          ∙ find_grant_by_id-grants clock _ g.tenant_id g.id now_iso found e,
    )

-- What a grant that was created had to satisfy.
pub create_grant-grants :
    (clock : Clock) (db : Authority) (input : CreateGrantInput) (id now_iso : String)
    (after : (Grant × GrantStatus) × Authority)
    → create_grant clock db input id now_iso ≡ ok after
    → (new : Grant) × (any (λ old. str_eq old.id new.id) db.grants ≡ false)
      × (any (in_conflict clock new) db.grants ≡ false)
      × (after.1.grants ≡ db.grants ++ new ∷ [])
unfolding create_grant
create_grant-grants clock db input id now_iso after h =
    let (starts, _, h1) = or_throw-ok (clock.parse_ms input.starts_at) bad_timestamp _ after h in
    let (ends, _, h2) = or_throw-ok (clock.parse_ms input.ends_at) bad_timestamp _ after h1 in
    let (_, h3) = throw_if-ok (leb ends starts) ends_before_start _ after h2 in
    let (actions, _, h4) = bind-ok (normalize_actions input.allowed_actions) _ after h3 in
    let template_ids = normalize_badge_template_ids clock.text_lt input.badge_template_ids in
    let new = new_grant input actions template_ids id now_iso in
    let (_, _, h5) =
      or_throw-ok (find_tenant_membership db.members input.tenant_id input.delegate_user_id)
        delegate_not_member _ after h4 in
    let (unit, _, h6) =
      or_throw-ok
        (find_tenant_org_unit_by_id db.members.org_units input.tenant_id input.org_unit_id)
        scope_not_found _ after h5 in
    let (_, h7) = throw_if-ok (not unit.is_active) scope_inactive _ after h6 in
    let (_, _, h8) =
      bind-ok (check_templates db input.tenant_id input.org_unit_id template_ids) _ after h7 in
    let (apart, h9) =
      throw_if-ok (any (in_conflict clock new) db.grants) grant_conflict _ after h8 in
    let (fresh, e) = insert_grant-grants clock db new (granted input id now_iso) now_iso after h9 in
    (new, fresh, apart, e)

clear_of_each :
    (clock : Clock) (new : Grant) (gs : List Grant)
    → All (λ old. str_eq old.id new.id ≡ false) gs
    → All (λ old. in_conflict clock new old ≡ false) gs
    → All (λ old. IsApart clock old new) gs
clear_of_each clock new [] h k = tt
clear_of_each clock new (g ∷ gs) h k = (
  (h.0, and_refused (not (is_revoked_grant new)) (in_conflict clock new g) k.0),
  clear_of_each clock new gs h.1 k.1,
)

create_grant-HasNoConflict :
    (clock : Clock) (db : Authority) (input : CreateGrantInput) (id now_iso : String)
    (after : (Grant × GrantStatus) × Authority)
    → HasNoConflict clock db
    → create_grant clock db input id now_iso ≡ ok after
    → HasNoConflict clock after.1
unfolding HasNoConflict
create_grant-HasNoConflict clock db input id now_iso after apart h =
    let (new, fresh, free, e) = create_grant-grants clock db input id now_iso after h in
    subst (Pairwise (IsApart clock)) (sym e) (
      Pairwise-append (IsApart clock) db.grants new apart (
        clear_of_each clock new db.grants (any-false (λ old. str_eq old.id new.id) db.grants fresh)
          (any-false (in_conflict clock new) db.grants free)))

-- A revocation takes a grant out of every conflict.
dropped : (a b c d : Bool) → (((a && (b && false)) && c) && d) ≡ false
dropped a b c d = ground arith

revoked-Apart :
    (clock : Clock) (input : RevokeGrantInput) (now_iso : String) (old new : Grant)
    → in_conflict clock new (revoke_always input now_iso old) ≡ false
unfolding in_conflict
revoked-Apart clock input now_iso old new =
    dropped (str_eq old.tenant_id new.tenant_id && str_eq old.delegate_user_id new.delegate_user_id)
      (str_eq old.org_unit_id new.org_unit_id)
      (clock.text_lt old.starts_at new.ends_at && clock.text_lt new.starts_at old.ends_at)
      (has_action_overlap new.allowed_actions old.allowed_actions
        && has_template_scope_overlap new.badge_template_ids old.badge_template_ids)

revoke_row-IsApart :
    (clock : Clock) (input : RevokeGrantInput) (now_iso : String) (old new : Grant)
    → IsApart clock old new
    → IsApart clock (revoke_row input now_iso old) (revoke_row input now_iso new)
unfolding in_conflict
revoke_row-IsApart clock input now_iso old new apart =
    if-elim (λ g. IsApart clock g (revoke_row input now_iso new)) (is_revocable input old)
      (λ e.
        if-elim (λ g. IsApart clock (revoke_always input now_iso old) g) (is_revocable input new)
          (λ e'. (apart.0, refl))
          (λ e'. (
            apart.0,
            and_refused (not (is_revoked_grant new)) _ (revoked-Apart clock input now_iso old new),
          )))
      (λ e.
        if-elim (λ g. IsApart clock old g) (is_revocable input new) (λ e'. (apart.0, refl))
          (λ e'. apart))

pub revoke_found-grants :
    (clock : Clock) (db : Authority) (input : RevokeGrantInput) (now_iso : String)
    (after : RevokeGrantResult × Authority)
    → revoke_found clock db input now_iso ≡ ok after
    → after.1.grants ≡ map (revoke_row input now_iso) db.grants
unfolding revoke_found write_revocation
revoke_found-grants clock db input now_iso after h =
    let (found, e, h1) =
      bind-ok
        (find_grant_by_id clock (write_revocation db input now_iso) input.tenant_id input.grant_id
          input.revoked_at)
        _ after h in
    let (revoked, _, h2) = or_throw-ok found.0 grant_not_loaded _ after h1 in
    ap (λ x. x.1.grants) (sym (ok-inj _ after h2))
    ∙ find_grant_by_id-grants clock (write_revocation db input now_iso) input.tenant_id
        input.grant_id input.revoked_at found e

-- A revocation that returns has left the grants, or run the UPDATE on each.
pub revoke_grant-grants :
    (clock : Clock) (db : Authority) (input : RevokeGrantInput) (now_iso : String)
    (after : RevokeGrantResult × Authority)
    → revoke_grant clock db input now_iso ≡ ok after
    → (after.1.grants ≡ db.grants) ⊎ (after.1.grants ≡ map (revoke_row input now_iso) db.grants)
unfolding revoke_grant
revoke_grant-grants clock db input now_iso after h =
    let (_, _, h1) = or_throw-ok (clock.parse_ms input.revoked_at) bad_timestamp _ after h in
    let (found, e, h2) =
      bind-ok (find_grant_by_id clock db input.tenant_id input.grant_id input.revoked_at) _ after
        h1 in
    let (existing, _, h3) = or_throw-ok found.0 grant_not_found _ after h2 in
    let kept =
      find_grant_by_id-grants clock db input.tenant_id input.grant_id input.revoked_at found e in
    if-elim
      (λ r.
        r ≡ ok after
        → (after.1.grants ≡ db.grants)
          ⊎ (after.1.grants ≡ map (revoke_row input now_iso) db.grants))
      (is_revoked_grant existing.0)
      (λ b h4. inl (ap (λ x. x.1.grants) (sym (ok-inj _ after h4)) ∙ kept))
      (λ b h4. inr (
        revoke_found-grants clock found.1 input now_iso after h4
        ∙ ap (map (revoke_row input now_iso)) kept))
      h3

revoke_grant-HasNoConflict :
    (clock : Clock) (db : Authority) (input : RevokeGrantInput) (now_iso : String)
    (after : RevokeGrantResult × Authority)
    → HasNoConflict clock db
    → revoke_grant clock db input now_iso ≡ ok after
    → HasNoConflict clock after.1
unfolding HasNoConflict
revoke_grant-HasNoConflict clock db input now_iso after apart h =
    elim (revoke_grant-grants clock db input now_iso after h) [
      | inl same ↦ subst (Pairwise (IsApart clock)) (sym same) apart
      | inr updated ↦ subst (Pairwise (IsApart clock)) (sym updated) (
          Pairwise-map (IsApart clock) (revoke_row input now_iso) db.grants
            (revoke_row-IsApart clock input now_iso) apart)
    ]

pub find_active_grant-grants :
    (clock : Clock) (db : Authority) (input : ResolveInput) (at_iso : String)
    (after : Option (Grant × GrantStatus) × Authority)
    → find_active_grant clock db input at_iso ≡ ok after
    → after.1.grants ≡ db.grants
unfolding find_active_grant record_expired_events
find_active_grant-grants clock db input at_iso after h =
    let (_, _, h1) = or_throw-ok (clock.parse_ms at_iso) bad_timestamp _ after h in
    let (found, _, h2) =
      bind-ok
        (first_covering clock db.members.org_units input at_iso
          (sort (starts_before clock) (keep (is_in_force clock input at_iso) db.grants)))
        _ after h1 in
    ap (λ x. x.1.grants) (sym (ok-inj _ after h2))

pub call-HasNoConflict :
    (clock : Clock) (c : GrantCall) (db : Authority)
    → HasNoConflict clock db
    → HasNoConflict clock (call clock c db)
unfolding HasNoConflict
call-HasNoConflict clock (create_call input id now_iso written) db h =
    left_by-elim (Pairwise (IsApart clock)) db written (create_grant clock db input id now_iso) h
      (λ after e. create_grant-HasNoConflict clock db input id now_iso after h e)
call-HasNoConflict clock (revoke_call input now_iso written) db h =
    left_by-elim (Pairwise (IsApart clock)) db written (revoke_grant clock db input now_iso) h
      (λ after e. revoke_grant-HasNoConflict clock db input now_iso after h e)
call-HasNoConflict clock (resolve_call input at_iso written) db h =
    left_by-elim (Pairwise (IsApart clock)) db written (find_active_grant clock db input at_iso) h
      (λ after e.
        subst (Pairwise (IsApart clock))
          (sym (find_active_grant-grants clock db input at_iso after e)) h)

-- Whatever grants are made, revoked and looked up, in any order: no two grants that are not revoked
-- give one member, on one org unit and in overlapping times, the same action on the same template,
-- and no two grants have one id, if this was so at the start.
pub run_calls-HasNoConflict :
    (clock : Clock) (calls : List GrantCall) (db : Authority)
    → HasNoConflict clock db
    → HasNoConflict clock (run_calls clock calls db)
unfolding run_calls
run_calls-HasNoConflict clock [] db h = h
run_calls-HasNoConflict clock (c ∷ cs) db h =
    run_calls-HasNoConflict clock cs (call clock c db) (call-HasNoConflict clock c db h)
