-- ===== src/Delegation.antt =====
-- Delegated issuing authority: the grants by which a member may issue, revoke or manage badges of
-- an org unit for a time, in the table delegated_issuing_authority_grants of
-- packages/db/src/index.ts. The rows of …_grant_badge_templates stand with their grant, and of
-- the rows of …_grant_events the columns that a function reads.
pub mod Create
pub mod Resolve
pub mod Apart
pub mod Covering
pub mod Lookup
pub mod Final
pub mod Revoked
pub mod Exclusive
mod Tests
use cred_trail.Prelude.{
  ℕ, Bool, true, false, not, ◌&&◌, Option, none, some, List, [], ◌∷◌, ◌++◌, map, String, str_eq,
  ltb, if◌then◌else◌, is_some, distinct, sort, any, find, keep, Result, ◌>>=◌, ◌>>◌, or_throw, ok,
  err,
}
use cred_trail.OrgUnits.{OrgUnit}
use cred_trail.OrgUnits.Scopes.{Members}
use cred_trail.OrgUnits.Ancestors.{org_ancestors}

pub data DelegatedAction : Type 0 where
  issue_badge_action revoke_badge_action manage_lifecycle_action : DelegatedAction

pub data GrantStatus : Type 0 where
  grant_scheduled grant_active grant_expired grant_revoked : GrantStatus

pub data GrantEventType : Type 0 where
  granted_event revoked_event expired_event : GrantEventType

pub record Grant : Type 0 where
  pub id : String
  pub tenant_id : String
  pub delegate_user_id : String
  pub delegated_by_user_id : Option String
  pub org_unit_id : String
  pub allowed_actions : List DelegatedAction
  pub badge_template_ids : List String
  pub starts_at : String
  pub ends_at : String
  pub revoked_at : Option String
  pub revoked_by_user_id : Option String
  pub revoked_reason : Option String
  pub created_at : String
  pub updated_at : String

pub record GrantEvent : Type 0 where
  pub tenant_id : String
  pub grant_id : String
  pub event_type : GrantEventType
  pub actor_user_id : Option String
  pub reason : Option String
  pub occurred_at : String

pub record Template : Type 0 where
  pub id : String
  pub tenant_id : String
  pub owner_org_unit_id : String
  pub governance_metadata_json : Option String
  pub updated_at : String

pub record Authority : Type 0 where
  pub members : Members
  pub templates : List Template
  pub grants : List Grant
  pub grant_events : List GrantEvent

pub data GrantError : Type 0 where
  bad_timestamp ends_before_start no_action delegate_not_member scope_not_found scope_inactive
        template_not_found template_outside_scope grant_conflict grant_id_taken grant_not_found
        grant_not_loaded :
      GrantError

-- The clock: `Date.parse`, in milliseconds from the earliest date that JavaScript has, and the
-- database's order of texts, by which its queries compare timestamps.
pub record Clock : Type 0 where
  pub parse_ms : String → Option ℕ
  pub text_lt : String → String → Bool

unfoldable pub same_action : DelegatedAction → DelegatedAction → Bool
same_action issue_badge_action issue_badge_action = true
same_action revoke_badge_action revoke_badge_action = true
same_action manage_lifecycle_action manage_lifecycle_action = true
same_action _ _ = false

abbrev pub includes : List DelegatedAction → DelegatedAction → Bool
includes actions a = any (λ b. same_action b a) actions

-- `Array.from(new Set(actions))` and `sort`: the distinct actions, in the order of their names.
unfoldable pub normalize_actions : List DelegatedAction → Result GrantError (List DelegatedAction)
normalize_actions [] = err no_action
normalize_actions (a ∷ rest) = ok (
    keep (includes (a ∷ rest))
      (issue_badge_action ∷ manage_lifecycle_action ∷ revoke_badge_action ∷ []))

unfoldable pub normalize_badge_template_ids :
    (String → String → Bool) → Option (List String) → List String
normalize_badge_template_ids lt none = []
normalize_badge_template_ids lt (some ids) = sort lt (distinct ids)

abbrev pub is_revoked_grant : Grant → Bool
is_revoked_grant g = is_some g.revoked_at

abbrev pub valid_timestamp : Clock → String → Result GrantError ℕ
valid_timestamp clock t = or_throw (clock.parse_ms t) bad_timestamp

-- `delegatedIssuingAuthorityGrantStatusForRecord`
unfoldable pub grant_status : Clock → Grant → (now_iso : String) → Result GrantError GrantStatus
grant_status clock g now_iso = if is_revoked_grant g then ok grant_revoked else do
  now_ms ← valid_timestamp clock now_iso
  starts_at_ms ← valid_timestamp clock g.starts_at
  ends_at_ms ← valid_timestamp clock g.ends_at
  ok (
      if ltb now_ms starts_at_ms
      then grant_scheduled
      else if ltb ends_at_ms now_ms
      then grant_expired
      else grant_active)

abbrev pub is_grant : String → String → Grant → Bool
is_grant tenant_id id g = str_eq g.tenant_id tenant_id && str_eq g.id id

unfoldable pub find_grant_row : List Grant → String → String → Option Grant
find_grant_row grants tenant_id id = find (is_grant tenant_id id) grants

abbrev pub is_expired_event : GrantEventType → Bool
is_expired_event expired_event = true
is_expired_event _ = false

abbrev pub is_expiry_of : Grant → GrantEvent → Bool
is_expiry_of g e =
    (str_eq e.tenant_id g.tenant_id && str_eq e.grant_id g.id) && is_expired_event e.event_type

-- Past its end, not revoked, and with no event of its expiry yet.
abbrev pub is_newly_expired : Clock → Authority → String → String → Grant → Bool
is_newly_expired clock db tenant_id now_iso g =
    (str_eq g.tenant_id tenant_id && not (is_revoked_grant g))
    && (clock.text_lt g.ends_at now_iso && not (any (is_expiry_of g) db.grant_events))

abbrev pub expiry : String → Grant → GrantEvent
expiry tenant_id g = record {
  tenant_id = tenant_id;
  grant_id = g.id;
  event_type = expired_event;
  actor_user_id = none;
  reason = none;
  occurred_at = g.ends_at;
}

unfoldable pub record_expired_events : Clock → Authority → (tenant_id now_iso : String) → Authority
record_expired_events clock db tenant_id now_iso = record db {
  grant_events =
      db.grant_events
      ++ map (expiry tenant_id) (keep (is_newly_expired clock db tenant_id now_iso) db.grants);
}

-- The row with its actions read back and its status at the moment of the call.
unfoldable pub map_grant_row :
    Clock → (now_iso : String) → Grant → Result GrantError (Grant × GrantStatus)
map_grant_row clock now_iso g = do
  actions ← normalize_actions g.allowed_actions
  status ← grant_status clock g now_iso
  ok (record g { allowed_actions = actions }, status)

abbrev pub mapped_option :
    Clock → String → Option Grant → Result GrantError (Option (Grant × GrantStatus))
mapped_option clock now_iso none = ok none
mapped_option clock now_iso (some g) = do mapped ← map_grant_row clock now_iso g; ok (some mapped)

unfoldable pub find_grant_by_id :
    Clock
    → Authority
    → (tenant_id id now_iso : String) → Result GrantError (Option (Grant × GrantStatus) × Authority)
find_grant_by_id clock db tenant_id id now_iso = do
  found ← mapped_option clock now_iso (find_grant_row db.grants tenant_id id)
  ok (found, record_expired_events clock db tenant_id now_iso)

-- `isOrgUnitWithinDelegatedAuthorityScope`
unfoldable pub is_within_scope : List OrgUnit → (tenant_id target_id scoped_id : String) → Bool
is_within_scope units tenant_id target_id scoped_id =
    any (λ u. str_eq u.id scoped_id) (org_ancestors units tenant_id target_id)
