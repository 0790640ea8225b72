-- ===== src/Templates/Tests.antt =====
-- A template that is created, moved and archived, and the instance of the theorem.
use cred_trail.Prelude.{◌≡◌, refl, true, none, some, List, [], ◌∷◌, String}
use cred_trail.Templates.{
  find_badge_template_by_id, create_badge_template, TemplateTables, CreateTemplateInput,
  reorganization,
}
use cred_trail.OrgUnits.{
  institution_org_unit_id_for_tenant, find_tenant_org_unit_by_id,
  ensure_institution_org_unit_for_tenant, OrgUnit, institution,
}
use cred_trail.Templates.History.{
  owner_of, IsTraced, call_templates, TemplateCall, create_template, transfer_template,
  archive_template, follow, update_template,
}
use cred_trail.Templates.Traced.{call_templates-IsTraced}
use cred_trail.Templates.Update.{set_archived_state, update_badge_template, UpdateTemplateInput}
use cred_trail.Templates.Transfer.{write_transfer, transfer_ownership, TransferInput}

abbrev unit : String → OrgUnit
unit id = record {
  id = id;
  tenant_id = "t";
  unit_type = institution;
  slug = id;
  display_name = id;
  parent_org_unit_id = none;
  created_by_user_id = none;
  is_active = true;
  created_at = "now";
  updated_at = "now";
}

abbrev no_templates : TemplateTables
no_templates = record {
  templates = [];
  ownership_events = [];
  org_units = unit "t:org:institution" ∷ unit "c" ∷ [];
}

abbrev to_create : CreateTemplateInput
to_create = record {
  tenant_id = "t";
  slug = "badge";
  title = "Badge";
  description = none;
  criteria_uri = none;
  image_uri = none;
  created_by_user_id = some "u";
  owner_org_unit_id = none;
  governance_metadata_json = none;
}

abbrev to_move : TransferInput
to_move = record {
  tenant_id = "t";
  badge_template_id = "b";
  to_org_unit_id = "c";
  reason_code = reorganization;
  reason = none;
  governance_metadata_json = none;
  transferred_by_user_id = some "u";
  transferred_at = "now";
}

abbrev to_rename : UpdateTemplateInput
to_rename = record {
  tenant_id = "t";
  id = "b";
  slug = some "renamed";
  title = none;
  description = some none;
  criteria_uri = none;
  image_uri = none;
}

abbrev calls : List TemplateCall
calls =
    create_template to_create "b" "1" "now"
    ∷ transfer_template to_move "2"
    ∷ update_template to_rename "later"
    ∷ archive_template "t" "b" true "now"
    ∷ []

moved_to_college :
    owner_of (
      find_badge_template_by_id
        (call_templates (λ s. true) (λ s. s) calls no_templates).templates
        "t"
        "b")
    ≡ some "c"
unfolding call_templates create_badge_template transfer_ownership write_transfer set_archived_state
    find_badge_template_by_id ensure_institution_org_unit_for_tenant find_tenant_org_unit_by_id
    institution_org_unit_id_for_tenant update_badge_template
moved_to_college = refl

no_templates-IsTraced : IsTraced "t" "b" no_templates
unfolding follow find_badge_template_by_id
no_templates-IsTraced = refl

call_templates-IsTraced_example :
    IsTraced "t" "b" (call_templates (λ s. true) (λ s. s) calls no_templates)
call_templates-IsTraced_example =
    call_templates-IsTraced (λ s. true) (λ s. s) "t" "b" calls no_templates no_templates-IsTraced
