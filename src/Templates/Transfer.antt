-- ===== src/Templates/Transfer.antt =====
-- The transfer of a template to another org unit: `transferBadgeTemplateOwnership`.
use cred_trail.Prelude.{
  Bool, not, Option, none, some, [], ◌∷◌, ◌++◌, map, String, str_eq, if◌then◌else◌, Result, ◌>>=◌,
  ◌>>◌, throw_if, or_throw, ok,
}
use cred_trail.Templates.{
  template_not_reread, transfer_time_invalid, no_such_template, owner_not_found, is_badge_template,
  find_badge_template_by_id, OwnershipReason, BadgeTemplate, OwnershipEvent, TemplateTables,
  TemplateError,
}
use cred_trail.OrgUnits.{find_tenant_org_unit_by_id}

pub record TransferInput : Type 0 where
  pub tenant_id : String
  pub badge_template_id : String
  pub to_org_unit_id : String
  pub reason_code : OwnershipReason
  pub reason : Option String
  pub governance_metadata_json : Option String
  pub transferred_by_user_id : Option String
  pub transferred_at : String

abbrev pub move_template : TransferInput → Option String → BadgeTemplate → BadgeTemplate
move_template input governance t =
    if is_badge_template input.tenant_id input.badge_template_id t
    then record t {
      owner_org_unit_id = input.to_org_unit_id;
      governance_metadata_json = governance;
      updated_at = input.transferred_at;
    }
    else t

abbrev pub or_older : Option String → Option String → Option String
or_older none older = older
or_older (some json) older = some json

-- An empty reason, trimmed, is none.
abbrev pub normalized_reason : (String → String) → Option String → Option String
normalized_reason trim none = none
normalized_reason trim (some reason) = if str_eq (trim reason) "" then none else some (trim reason)

abbrev pub transfer_event :
    (String → String) → TransferInput → BadgeTemplate → (event_id : String) → OwnershipEvent
transfer_event trim input t event_id = record {
  id = event_id;
  tenant_id = input.tenant_id;
  badge_template_id = input.badge_template_id;
  from_org_unit_id = some t.owner_org_unit_id;
  to_org_unit_id = input.to_org_unit_id;
  reason_code = input.reason_code;
  reason = normalized_reason trim input.reason;
  governance_metadata_json = or_older input.governance_metadata_json t.governance_metadata_json;
  transferred_by_user_id = input.transferred_by_user_id;
  transferred_at = input.transferred_at;
  created_at = input.transferred_at;
}

unfoldable pub write_transfer :
    (String → String)
    → TemplateTables
    → TransferInput
    → BadgeTemplate
    → (event_id : String)
    → Result TemplateError ((BadgeTemplate × Option OwnershipEvent) × TemplateTables)
write_transfer trim db input t event_id =
    let event = transfer_event trim input t event_id in
    let moved = map (move_template input event.governance_metadata_json) db.templates in
    do
      updated ←
          or_throw (find_badge_template_by_id moved input.tenant_id input.badge_template_id)
            template_not_reread
      ok (
        (updated, some event),
        record db { templates = moved; ownership_events = db.ownership_events ++ event ∷ [] },
      )

-- `is_time` is the test that `Date.parse` gives a finite number. Nothing is written where the unit
-- owns the template already.
unfoldable pub transfer_ownership :
    (is_time : String → Bool)
    → (trim : String → String) → TemplateTables
    → TransferInput
    → (event_id : String)
    → Result TemplateError ((BadgeTemplate × Option OwnershipEvent) × TemplateTables)
transfer_ownership is_time trim db input event_id = do
  throw_if (not (is_time input.transferred_at)) transfer_time_invalid
  t ←
      or_throw (find_badge_template_by_id db.templates input.tenant_id input.badge_template_id)
        no_such_template
  unit ←
      or_throw (find_tenant_org_unit_by_id db.org_units input.tenant_id input.to_org_unit_id)
        owner_not_found
  if str_eq t.owner_org_unit_id input.to_org_unit_id
      then ok ((t, none), db)
      else write_transfer trim db input t event_id
