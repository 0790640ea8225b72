-- ===== src/Delegation/Resolve.antt =====
-- `revokeDelegatedIssuingAuthorityGrant`, `listDelegatedIssuingAuthorityGrants` and
-- `findActiveDelegatedIssuingAuthorityGrantForAction`.
use cred_trail.Prelude.{
  Bool, true, false, not, ◌&&◌, Option, none, some, List, [], ◌∷◌, ◌++◌, map, String, str_eq, ltb,
  if◌then◌else◌, has, sort, length, any, keep, Result, ◌>>=◌, or_throw, ok,
}
use cred_trail.Delegation.{
  Grant, includes, is_revoked_grant, valid_timestamp, is_grant, record_expired_events,
  map_grant_row, find_grant_by_id, is_within_scope, DelegatedAction, GrantStatus, GrantEvent,
  Authority, GrantError, Clock, grant_expired, grant_revoked, revoked_event, grant_not_found,
  grant_not_loaded,
}
use cred_trail.OrgUnits.{OrgUnit}

pub record RevokeGrantInput : Type 0 where
  pub tenant_id : String
  pub grant_id : String
  pub revoked_by_user_id : Option String
  pub revoked_reason : Option String
  pub revoked_at : String

pub data RevokeStatus : Type 0 where
  grant_newly_revoked grant_already_revoked : RevokeStatus

pub record RevokeGrantResult : Type 0 where
  pub status : RevokeStatus
  pub grant : Grant × GrantStatus

-- The UPDATE on one row: it writes only a row that is not revoked.
abbrev pub is_revocable : RevokeGrantInput → Grant → Bool
is_revocable input g = is_grant input.tenant_id input.grant_id g && not (is_revoked_grant g)

abbrev pub revoke_always : RevokeGrantInput → (now_iso : String) → Grant → Grant
revoke_always input now_iso g = record g {
  revoked_at = some input.revoked_at;
  revoked_by_user_id = input.revoked_by_user_id;
  revoked_reason = input.revoked_reason;
  updated_at = now_iso;
}

abbrev pub revoke_row : RevokeGrantInput → (now_iso : String) → Grant → Grant
revoke_row input now_iso g = if is_revocable input g then revoke_always input now_iso g else g

abbrev pub revoked_grant_event : RevokeGrantInput → GrantEvent
revoked_grant_event input = record {
  tenant_id = input.tenant_id;
  grant_id = input.grant_id;
  event_type = revoked_event;
  actor_user_id = input.revoked_by_user_id;
  reason = input.revoked_reason;
  occurred_at = input.revoked_at;
}

-- The UPDATE, with the event where it wrote a row.
unfoldable pub write_revocation : Authority → RevokeGrantInput → (now_iso : String) → Authority
write_revocation db input now_iso = record db {
  grants = map (revoke_row input now_iso) db.grants;
  grant_events =
      if any (is_revocable input) db.grants
      then db.grant_events ++ revoked_grant_event input ∷ []
      else db.grant_events;
}

unfoldable pub revoke_found :
    Clock
    → Authority
    → RevokeGrantInput
    → (now_iso : String) → Result GrantError (RevokeGrantResult × Authority)
revoke_found clock db input now_iso = do
  found ←
      find_grant_by_id clock (write_revocation db input now_iso) input.tenant_id input.grant_id
        input.revoked_at
  revoked ← or_throw found.0 grant_not_loaded
  ok (
    record {
      status =
          if any (is_revocable input) db.grants then grant_newly_revoked else grant_already_revoked;
      grant = revoked;
    },
    found.1,
  )

unfoldable pub revoke_grant :
    Clock
    → Authority
    → RevokeGrantInput
    → (now_iso : String) → Result GrantError (RevokeGrantResult × Authority)
revoke_grant clock db input now_iso = do
  at_ms ← valid_timestamp clock input.revoked_at
  found ← find_grant_by_id clock db input.tenant_id input.grant_id input.revoked_at
  existing ← or_throw found.0 grant_not_found
  if is_revoked_grant existing.0
      then ok (record { status = grant_already_revoked; grant = existing }, found.1)
      else revoke_found clock found.1 input now_iso

pub record ListGrantsInput : Type 0 where
  pub tenant_id : String
  pub delegate_user_id : Option String
  pub include_revoked : Bool
  pub include_expired : Bool

abbrev pub is_listed : ListGrantsInput → Grant → Bool
is_listed input g =
    str_eq g.tenant_id input.tenant_id
    && elim input.delegate_user_id [ none ↦ true | some user ↦ str_eq g.delegate_user_id user ]

abbrev pub is_shown : ListGrantsInput → GrantStatus → Bool
is_shown input grant_revoked = input.include_revoked
is_shown input grant_expired = input.include_expired
is_shown input _ = true

unfoldable pub map_grant_rows :
    Clock → (now_iso : String) → List Grant → Result GrantError (List (Grant × GrantStatus))
map_grant_rows clock now_iso [] = ok []
map_grant_rows clock now_iso (g ∷ gs) = do
  mapped ← map_grant_row clock now_iso g
  rest ← map_grant_rows clock now_iso gs
  ok (mapped ∷ rest)

-- `ORDER BY created_at DESC`
unfoldable pub list_grants :
    Clock
    → Authority
    → ListGrantsInput
    → (now_iso : String) → Result GrantError (List (Grant × GrantStatus) × Authority)
list_grants clock db input now_iso = do
  mapped ←
      map_grant_rows clock now_iso
        (sort (λ g h. clock.text_lt h.created_at g.created_at) (keep (is_listed input) db.grants))
  ok (
    keep (λ shown. is_shown input shown.1) mapped,
    record_expired_events clock db input.tenant_id now_iso,
  )

pub record ResolveInput : Type 0 where
  pub tenant_id : String
  pub user_id : String
  pub org_unit_id : String
  pub badge_template_id : String
  pub required_action : DelegatedAction

-- The rows of the query, `ORDER BY starts_at ASC, created_at ASC`.
abbrev pub is_in_force : Clock → ResolveInput → (at_iso : String) → Grant → Bool
is_in_force clock input at_iso g =
    ((str_eq g.tenant_id input.tenant_id && str_eq g.delegate_user_id input.user_id)
      && not (is_revoked_grant g))
    && (not (clock.text_lt at_iso g.starts_at) && not (clock.text_lt g.ends_at at_iso))

abbrev pub starts_before : Clock → Grant → Grant → Bool
starts_before clock g h =
    if clock.text_lt g.starts_at h.starts_at
    then true
    else if clock.text_lt h.starts_at g.starts_at
    then false
    else clock.text_lt g.created_at h.created_at

-- The tests of the loop, each of which goes on with the next row.
unfoldable pub covers : List OrgUnit → ResolveInput → Grant → Bool
covers units input g =
    includes g.allowed_actions input.required_action
    && (is_within_scope units input.tenant_id input.org_unit_id g.org_unit_id
        && not (
            ltb 0 (length g.badge_template_ids)
            && not (has input.badge_template_id g.badge_template_ids)))

unfoldable pub first_covering :
    Clock
    → List OrgUnit
    → ResolveInput
    → (at_iso : String) → List Grant
    → Result GrantError (Option (Grant × GrantStatus))
first_covering clock units input at_iso [] = ok none
first_covering clock units input at_iso (g ∷ gs) = do
  mapped ← map_grant_row clock at_iso g
  if covers units input mapped.0
      then ok (some mapped)
      else first_covering clock units input at_iso gs

unfoldable pub find_active_grant :
    Clock
    → Authority
    → ResolveInput
    → (at_iso : String) → Result GrantError (Option (Grant × GrantStatus) × Authority)
find_active_grant clock db input at_iso = do
  at_ms ← valid_timestamp clock at_iso
  found ←
      first_covering clock db.members.org_units input at_iso
        (sort (starts_before clock) (keep (is_in_force clock input at_iso) db.grants))
  ok (found, record_expired_events clock db input.tenant_id at_iso)
