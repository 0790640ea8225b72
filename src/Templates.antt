-- ===== src/Templates.antt =====
-- Badge templates and the events of their ownership: `findBadgeTemplateById` and
-- `createBadgeTemplate` of packages/db/src/index.ts.
pub mod Transfer
pub mod Update
pub mod History
pub mod Created
pub mod Changed
pub mod Moved
pub mod Traced
mod Tests
use cred_trail.Prelude.{
  Bool, false, ◌&&◌, ◌||◌, Option, none, some, List, [], ◌∷◌, ◌++◌, String, str_eq, or_else, any,
  find, Result, ◌>>=◌, ◌>>◌, throw_if, or_throw, ok,
}
use cred_trail.OrgUnits.{
  OrgUnit, find_tenant_org_unit_by_id, ensure_institution_org_unit_for_tenant,
}

pub data OwnershipReason : Type 0 where
  initial_assignment administrative_transfer reorganization governance_policy_update other_reason :
      OwnershipReason

pub record BadgeTemplate : Type 0 where
  pub id : String
  pub tenant_id : String
  pub slug : String
  pub title : String
  pub description : Option String
  pub criteria_uri : Option String
  pub image_uri : Option String
  pub created_by_user_id : Option String
  pub owner_org_unit_id : String
  pub governance_metadata_json : Option String
  pub is_archived : Bool
  pub created_at : String
  pub updated_at : String

pub record OwnershipEvent : Type 0 where
  pub id : String
  pub tenant_id : String
  pub badge_template_id : String
  pub from_org_unit_id : Option String
  pub to_org_unit_id : String
  pub reason_code : OwnershipReason
  pub reason : Option String
  pub governance_metadata_json : Option String
  pub transferred_by_user_id : Option String
  pub transferred_at : String
  pub created_at : String

pub record TemplateTables : Type 0 where
  pub templates : List BadgeTemplate
  pub ownership_events : List OwnershipEvent
  pub org_units : List OrgUnit

pub record CreateTemplateInput : Type 0 where
  pub tenant_id : String
  pub slug : String
  pub title : String
  pub description : Option String
  pub criteria_uri : Option String
  pub image_uri : Option String
  pub created_by_user_id : Option String
  pub owner_org_unit_id : Option String
  pub governance_metadata_json : Option String

pub data TemplateError : Type 0 where
  no_fields : TemplateError
  transfer_time_invalid owner_not_found no_such_template template_not_reread template_refused :
      TemplateError

abbrev pub is_badge_template : String → String → BadgeTemplate → Bool
is_badge_template tenant_id id t = str_eq t.tenant_id tenant_id && str_eq t.id id

unfoldable pub find_badge_template_by_id :
    List BadgeTemplate → (tenant_id id : String) → Option BadgeTemplate
find_badge_template_by_id rows tenant_id id = find (is_badge_template tenant_id id) rows

-- The PRIMARY KEY and the UNIQUE slug of a tenant, on which the INSERT fails.
abbrev pub is_template_clash : BadgeTemplate → BadgeTemplate → Bool
is_template_clash new old =
    str_eq old.id new.id || (str_eq old.tenant_id new.tenant_id && str_eq old.slug new.slug)

abbrev pub default_governance : String
default_governance = "{\"stability\":\"institution_registry\"}"

abbrev pub new_template : CreateTemplateInput → (owner id now_iso : String) → BadgeTemplate
new_template input owner id now_iso = record {
  id = id;
  tenant_id = input.tenant_id;
  slug = input.slug;
  title = input.title;
  description = input.description;
  criteria_uri = input.criteria_uri;
  image_uri = input.image_uri;
  created_by_user_id = input.created_by_user_id;
  owner_org_unit_id = owner;
  governance_metadata_json = some (or_else input.governance_metadata_json default_governance);
  is_archived = false;
  created_at = now_iso;
  updated_at = now_iso;
}

abbrev pub initial_event : BadgeTemplate → (event_id : String) → OwnershipEvent
initial_event t event_id = record {
  id = event_id;
  tenant_id = t.tenant_id;
  badge_template_id = t.id;
  from_org_unit_id = none;
  to_org_unit_id = t.owner_org_unit_id;
  reason_code = initial_assignment;
  reason = some "Badge template ownership assigned at creation";
  governance_metadata_json = t.governance_metadata_json;
  transferred_by_user_id = t.created_by_user_id;
  transferred_at = t.created_at;
  created_at = t.created_at;
}

-- The institution's unit is made first where the tenant has none.
unfoldable pub create_badge_template :
    TemplateTables
    → CreateTemplateInput
    → (id event_id now_iso : String) → Result TemplateError (BadgeTemplate × TemplateTables)
create_badge_template db input id event_id now_iso =
    let ensured = ensure_institution_org_unit_for_tenant db.org_units input.tenant_id now_iso in
    let owner = or_else input.owner_org_unit_id ensured.0 in
    let t = new_template input owner id now_iso in
    do
      unit ← or_throw (find_tenant_org_unit_by_id ensured.1 input.tenant_id owner) owner_not_found
      throw_if (any (is_template_clash t) db.templates) template_refused
      ok (
        t,
        record {
          templates = db.templates ++ t ∷ [];
          ownership_events = db.ownership_events ++ initial_event t event_id ∷ [];
          org_units = ensured.1;
        },
      )
