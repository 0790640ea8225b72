-- ===== src/Delegation/Revoked.antt =====
-- What `revokeDelegatedIssuingAuthorityGrant` leaves behind, under every later call.
use cred_trail.Prelude.{
  ◌≡◌, sym, ap, subst, ◌∙◌, inl, inr, Bool, true, false, not, ◌&&◌, false≢true, none, some, List,
  [], ◌∷◌, arith, String, str_eq, Bool-cases, is_some, if-elim, some-inj, none≢some, sort, All-sort,
  any, keep, All, All-append, All-map, All-images, Pairwise, any-weaken, any-append_left, find-any,
  ok-inj, bind-ok, or_throw-ok, ok,
}
use cred_trail.Delegation.{
  Grant, is_revoked_grant, is_grant, find_grant_by_id, GrantStatus, Authority, Clock, bad_timestamp,
  grant_not_found, normalize_actions, grant_status, map_grant_row,
}
use cred_trail.Delegation.Final.{
  IsFinal, IsRevoked, same_id, found-All, revoke_row-IsRevoked, any-revoke_row, mapped-row,
  revoke_row-stays, HasOtherId,
}
use cred_trail.Delegation.Apart.{
  find_grant_by_id-grants, create_grant-grants, call, run_calls, left_by-elim, revoke_found-grants,
  revoke_grant-grants, find_active_grant-grants, GrantCall, create_call, revoke_call, resolve_call,
}
use cred_trail.Delegation.Create.{create_grant, CreateGrantInput}
use cred_trail.Delegation.Resolve.{
  revoke_row, revoke_found, revoke_grant, RevokeGrantInput, RevokeGrantResult, is_in_force,
  starts_before, covers, first_covering, find_active_grant, ResolveInput,
}
use cred_trail.OrgUnits.{OrgUnit}

revoke_found-IsFinal :
    (clock : Clock) (db : Authority) (input : RevokeGrantInput) (now_iso : String)
    (after : RevokeGrantResult × Authority)
    → any (is_grant input.tenant_id input.grant_id) db.grants ≡ true
    → revoke_found clock db input now_iso ≡ ok after
    → IsFinal input.tenant_id input.grant_id after.1.grants
unfolding IsFinal
revoke_found-IsFinal clock db input now_iso after there h =
    subst (IsFinal input.tenant_id input.grant_id)
      (sym (revoke_found-grants clock db input now_iso after h))
      (
        any-revoke_row input.tenant_id input.grant_id input now_iso db.grants there,
        All-images (IsRevoked input.tenant_id input.grant_id) (revoke_row input now_iso) db.grants
            (revoke_row-IsRevoked input now_iso),
      )

revoke_grant-IsFinal :
    (clock : Clock) (db : Authority) (input : RevokeGrantInput) (now_iso : String)
    (after : RevokeGrantResult × Authority)
    → Pairwise HasOtherId db.grants
    → revoke_grant clock db input now_iso ≡ ok after
    → IsFinal input.tenant_id input.grant_id after.1.grants
unfolding revoke_grant IsFinal
revoke_grant-IsFinal clock db input now_iso after apart h =
    let tenant_id = input.tenant_id in
    let id = input.grant_id in
    let (_, _, h1) = or_throw-ok (clock.parse_ms input.revoked_at) bad_timestamp _ after h in
    let (found, e, h2) =
      bind-ok (find_grant_by_id clock db tenant_id id input.revoked_at) _ after h1 in
    let (existing, shown, h3) = or_throw-ok found.0 grant_not_found _ after h2 in
    let (g, there, at) = mapped-row clock db tenant_id id input.revoked_at found existing e shown in
    let kept = find_grant_by_id-grants clock db tenant_id id input.revoked_at found e in
    let present = find-any (is_grant tenant_id id) db.grants g there in
    if-elim (λ r. r ≡ ok after → IsFinal tenant_id id after.1.grants) (is_revoked_grant existing.0)
      (λ b h4.
        subst (λ x. IsFinal tenant_id id x.1.grants) (ok-inj _ after h4)
          (subst (IsFinal tenant_id id) (sym kept)
            (present, found-All tenant_id id db.grants g apart there (ap is_some (sym at) ∙ b))))
      (λ b h4.
        revoke_found-IsFinal clock found.1 input now_iso after
          (subst (λ gs. any (is_grant tenant_id id) gs ≡ true) (sym kept) present) h4)
      h3

revoke_grant-stays :
    (clock : Clock) (tenant_id id : String) (db : Authority) (input : RevokeGrantInput)
    (now_iso : String) (after : RevokeGrantResult × Authority)
    → IsFinal tenant_id id db.grants
    → revoke_grant clock db input now_iso ≡ ok after
    → IsFinal tenant_id id after.1.grants
unfolding IsFinal
revoke_grant-stays clock tenant_id id db input now_iso after final h =
    elim (revoke_grant-grants clock db input now_iso after h) [
      | inl same ↦ subst (IsFinal tenant_id id) (sym same) final
      | inr updated ↦ subst (IsFinal tenant_id id) (sym updated) (
        any-revoke_row tenant_id id input now_iso db.grants final.0,
        All-map (IsRevoked tenant_id id) (IsRevoked tenant_id id) (revoke_row input now_iso)
            db.grants (revoke_row-stays tenant_id id input now_iso) final.1,
      )
    ]

create_grant-stays :
    (clock : Clock) (tenant_id id : String) (db : Authority) (input : CreateGrantInput)
    (new_id now_iso : String) (after : (Grant × GrantStatus) × Authority)
    → IsFinal tenant_id id db.grants
    → create_grant clock db input new_id now_iso ≡ ok after
    → IsFinal tenant_id id after.1.grants
unfolding IsFinal
create_grant-stays clock tenant_id id db input new_id now_iso after final h =
    let (new, fresh, _, e) = create_grant-grants clock db input new_id now_iso after h in
    subst (IsFinal tenant_id id) (sym e) (
      any-append_left (is_grant tenant_id id) db.grants (new ∷ []) final.0,
      All-append (IsRevoked tenant_id id) db.grants (new ∷ []) final.1 (
        (λ own. absurd (
            false≢true (
              sym fresh
              ∙ any-weaken (is_grant tenant_id id) (λ old. str_eq old.id new.id) db.grants
                  (λ old o. same_id tenant_id id old new o own) final.0))),
        tt,
      ),
    )

call-IsFinal :
    (clock : Clock) (tenant_id id : String) (c : GrantCall) (db : Authority)
    → IsFinal tenant_id id db.grants
    → IsFinal tenant_id id (call clock c db).grants
call-IsFinal clock tenant_id id (create_call input new_id now_iso written) db h =
    left_by-elim (IsFinal tenant_id id) db written (create_grant clock db input new_id now_iso) h
      (λ after e. create_grant-stays clock tenant_id id db input new_id now_iso after h e)
call-IsFinal clock tenant_id id (revoke_call input now_iso written) db h =
    left_by-elim (IsFinal tenant_id id) db written (revoke_grant clock db input now_iso) h
      (λ after e. revoke_grant-stays clock tenant_id id db input now_iso after h e)
call-IsFinal clock tenant_id id (resolve_call input at_iso written) db h =
    left_by-elim (IsFinal tenant_id id) db written (find_active_grant clock db input at_iso) h
      (λ after e.
        subst (IsFinal tenant_id id) (sym (find_active_grant-grants clock db input at_iso after e))
          h)

run_calls-IsFinal :
    (clock : Clock) (tenant_id id : String) (calls : List GrantCall) (db : Authority)
    → IsFinal tenant_id id db.grants
    → IsFinal tenant_id id (run_calls clock calls db).grants
unfolding run_calls
run_calls-IsFinal clock tenant_id id [] db h = h
run_calls-IsFinal clock tenant_id id (c ∷ cs) db h =
    run_calls-IsFinal clock tenant_id id cs (call clock c db)
      (call-IsFinal clock tenant_id id c db h)

-- A grant that the loop returns has what all its rows have, beside the actions.
first_covering-not :
    (clock : Clock) (units : List OrgUnit) (input : ResolveInput) (at_iso : String)
    (tenant_id id : String) (gs : List Grant) (found : Grant × GrantStatus)
    → All (λ g. is_grant tenant_id id g ≡ false) gs
    → first_covering clock units input at_iso gs ≡ ok (some found)
    → is_grant tenant_id id found.0 ≡ false
unfolding first_covering map_grant_row
first_covering-not clock units input at_iso tenant_id id [] found h e =
    absurd (none≢some (ok-inj none (some found) e))
first_covering-not clock units input at_iso tenant_id id (g ∷ gs) found h e =
    let (mapped, m, e1) = bind-ok (map_grant_row clock at_iso g) _ (some found) e in
    let (actions, _, m1) = bind-ok (normalize_actions g.allowed_actions) _ mapped m in
    let (status, _, m2) = bind-ok (grant_status clock g at_iso) _ mapped m1 in
    let same = ok-inj (record g { allowed_actions = actions }, status) mapped m2 in
    if-elim (λ r. r ≡ ok (some found) → is_grant tenant_id id found.0 ≡ false)
      (covers units input mapped.0)
      (λ c e2.
        subst (λ x. is_grant tenant_id id x.0 ≡ false)
          (same ∙ some-inj mapped found (ok-inj (some mapped) (some found) e2)) h.0)
      (λ c e2. first_covering-not clock units input at_iso tenant_id id gs found h.1 e2) e1

not_revoked : (a b c d : Bool) → ((a && not b) && (c && d)) ≡ true → b ≡ false
not_revoked a b c d h = ground arith

in_force-not :
    (clock : Clock) (input : ResolveInput) (at_iso tenant_id id : String) (gs : List Grant)
    → All (IsRevoked tenant_id id) gs
    → All (λ g. is_grant tenant_id id g ≡ false) (keep (is_in_force clock input at_iso) gs)
in_force-not clock input at_iso tenant_id id [] h = tt
in_force-not clock input at_iso tenant_id id (g ∷ gs) h =
    if-elim (All (λ x. is_grant tenant_id id x ≡ false)) (is_in_force clock input at_iso g)
      (λ e. (
        elim (Bool-cases (is_grant tenant_id id g)) [
          | inl own ↦ absurd (
              false≢true (
                sym (
                  not_revoked
                    (str_eq g.tenant_id input.tenant_id && str_eq g.delegate_user_id input.user_id)
                    (is_revoked_grant g) (not (clock.text_lt at_iso g.starts_at))
                    (not (clock.text_lt g.ends_at at_iso)) e)
                ∙ h.0 own))
          | inr other ↦ other
        ],
        in_force-not clock input at_iso tenant_id id gs h.1,
      ))
      (λ e. in_force-not clock input at_iso tenant_id id gs h.1)

-- In a table whose grants have distinct ids, the primary key: once
-- `revokeDelegatedIssuingAuthorityGrant` has returned for a grant, no lookup ever answers with that
-- grant again, whatever grants are made, revoked and looked up in between.
pub revoke_grant-find_active_grant :
    (clock : Clock) (db : Authority) (input : RevokeGrantInput) (now_iso : String)
    (after : RevokeGrantResult × Authority) (calls : List GrantCall) (request : ResolveInput)
    (at_iso : String) (found : Grant × GrantStatus) (last : Authority)
    → Pairwise HasOtherId db.grants
    → revoke_grant clock db input now_iso ≡ ok after
    → find_active_grant clock (run_calls clock calls after.1) request at_iso ≡ ok (some found, last)
    → is_grant input.tenant_id input.grant_id found.0 ≡ false
unfolding find_active_grant IsFinal
revoke_grant-find_active_grant clock db input now_iso after calls request at_iso found last apart h
      e =
    let tenant_id = input.tenant_id in
    let id = input.grant_id in
    let later = run_calls clock calls after.1 in
    let final =
      run_calls-IsFinal clock tenant_id id calls after.1
        (revoke_grant-IsFinal clock db input now_iso after apart h) in
    let rows = keep (is_in_force clock request at_iso) later.grants in
    let (_, _, e1) = or_throw-ok (clock.parse_ms at_iso) bad_timestamp _ (some found, last) e in
    let (answer, e2, e3) =
      bind-ok
        (first_covering clock later.members.org_units request at_iso
          (sort (starts_before clock) rows))
        _ (some found, last) e1 in
    first_covering-not clock later.members.org_units request at_iso tenant_id id
      (sort (starts_before clock) rows) found
      (All-sort (λ g. is_grant tenant_id id g ≡ false) (starts_before clock) rows
        (in_force-not clock request at_iso tenant_id id later.grants final.1))
      (e2 ∙ ap (λ x. ok x.0) (ok-inj _ (some found, last) e3))
