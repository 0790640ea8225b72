-- ===== src/Delegation/Create.antt =====
-- `createDelegatedIssuingAuthorityGrant`.
use cred_trail.Prelude.{
  Bool, true, false, not, ◌&&◌, ◌||◌, Option, none, List, [], ◌∷◌, ◌++◌, String, str_eq, leb,
  if◌then◌else◌, has, any, find, Result, ◌>>=◌, ◌>>◌, Check, throw_if, or_throw, ok,
}
use cred_trail.Delegation.{
  Grant, includes, normalize_actions, normalize_badge_template_ids, is_revoked_grant,
  valid_timestamp, find_grant_by_id, is_within_scope, DelegatedAction, GrantStatus, GrantEvent,
  Template, Authority, GrantError, Clock, granted_event, grant_not_loaded, ends_before_start,
  delegate_not_member, scope_not_found, scope_inactive, template_not_found, template_outside_scope,
  grant_conflict, grant_id_taken,
}
use cred_trail.OrgUnits.{find_tenant_org_unit_by_id}
use cred_trail.OrgUnits.Scopes.{find_tenant_membership}

pub record CreateGrantInput : Type 0 where
  pub tenant_id : String
  pub delegate_user_id : String
  pub delegated_by_user_id : Option String
  pub org_unit_id : String
  pub allowed_actions : List DelegatedAction
  pub badge_template_ids : Option (List String)
  pub starts_at : String
  pub ends_at : String
  pub reason : Option String

abbrev is_empty : List String → Bool
is_empty [] = true
is_empty (x ∷ xs) = false

-- No list of templates stands for every template of the unit.
unfoldable pub has_template_scope_overlap : List String → List String → Bool
has_template_scope_overlap candidate existing =
    if is_empty candidate || is_empty existing then true else any (λ t. has t existing) candidate

unfoldable pub has_action_overlap : List DelegatedAction → List DelegatedAction → Bool
has_action_overlap candidate existing = any (includes existing) candidate

-- The rows of the query for conflicts.
abbrev pub is_candidate_conflict : Clock → Grant → Grant → Bool
is_candidate_conflict clock new old =
    ((str_eq old.tenant_id new.tenant_id && str_eq old.delegate_user_id new.delegate_user_id)
      && (str_eq old.org_unit_id new.org_unit_id && not (is_revoked_grant old)))
    && (clock.text_lt old.starts_at new.ends_at && clock.text_lt new.starts_at old.ends_at)

-- The loop over them, which throws at the first conflict.
unfoldable pub in_conflict : Clock → Grant → Grant → Bool
in_conflict clock new old =
    is_candidate_conflict clock new old
    && (has_action_overlap new.allowed_actions old.allowed_actions
        && has_template_scope_overlap new.badge_template_ids old.badge_template_ids)

abbrev pub is_template : String → String → Template → Bool
is_template tenant_id id t = str_eq t.tenant_id tenant_id && str_eq t.id id

unfoldable pub check_templates :
    Authority → (tenant_id org_unit_id : String) → List String → Check GrantError
check_templates db tenant_id org_unit_id [] = ok tt
check_templates db tenant_id org_unit_id (id ∷ ids) = do
  template ← or_throw (find (is_template tenant_id id) db.templates) template_not_found
  throw_if
      (not (is_within_scope db.members.org_units tenant_id template.owner_org_unit_id org_unit_id))
      template_outside_scope
  check_templates db tenant_id org_unit_id ids

abbrev pub new_grant :
    CreateGrantInput → List DelegatedAction → List String → (id now_iso : String) → Grant
new_grant input actions template_ids id now_iso = record {
  id = id;
  tenant_id = input.tenant_id;
  delegate_user_id = input.delegate_user_id;
  delegated_by_user_id = input.delegated_by_user_id;
  org_unit_id = input.org_unit_id;
  allowed_actions = actions;
  badge_template_ids = template_ids;
  starts_at = input.starts_at;
  ends_at = input.ends_at;
  revoked_at = none;
  revoked_by_user_id = none;
  revoked_reason = none;
  created_at = now_iso;
  updated_at = now_iso;
}

abbrev pub granted : CreateGrantInput → (id now_iso : String) → GrantEvent
granted input id now_iso = record {
  tenant_id = input.tenant_id;
  grant_id = id;
  event_type = granted_event;
  actor_user_id = input.delegated_by_user_id;
  reason = input.reason;
  occurred_at = now_iso;
}

-- The INSERTs, and the row read back.
unfoldable pub insert_grant :
    Clock
    → Authority
    → Grant
    → GrantEvent
    → (now_iso : String) → Result GrantError ((Grant × GrantStatus) × Authority)
insert_grant clock db g event now_iso = do
  throw_if (any (λ old. str_eq old.id g.id) db.grants) grant_id_taken
  found ←
      find_grant_by_id clock
        (record db { grants = db.grants ++ g ∷ []; grant_events = db.grant_events ++ event ∷ [] })
        g.tenant_id g.id now_iso
  created ← or_throw found.0 grant_not_loaded
  ok (created, found.1)

unfoldable pub create_grant :
    Clock
    → Authority
    → CreateGrantInput
    → (id now_iso : String) → Result GrantError ((Grant × GrantStatus) × Authority)
create_grant clock db input id now_iso = do
  starts_at_ms ← valid_timestamp clock input.starts_at
  ends_at_ms ← valid_timestamp clock input.ends_at
  throw_if (leb ends_at_ms starts_at_ms) ends_before_start
  actions ← normalize_actions input.allowed_actions
  let template_ids = normalize_badge_template_ids clock.text_lt input.badge_template_ids in
      let new = new_grant input actions template_ids id now_iso in
      do
        membership ←
            or_throw (find_tenant_membership db.members input.tenant_id input.delegate_user_id)
              delegate_not_member
        unit ←
            or_throw
              (find_tenant_org_unit_by_id db.members.org_units input.tenant_id input.org_unit_id)
              scope_not_found
        throw_if (not unit.is_active) scope_inactive
        check_templates db input.tenant_id input.org_unit_id template_ids
        throw_if (any (in_conflict clock new) db.grants) grant_conflict
        insert_grant clock db new (granted input id now_iso) now_iso
