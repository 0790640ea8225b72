-- ===== src/Templates/Update.antt =====
-- The changes that keep the owner: `updateBadgeTemplate` and `setBadgeTemplateArchivedState`.
use cred_trail.Prelude.{
  Bool, false, not, ◌&&◌, ◌||◌, Option, none, some, List, map, String, str_eq, if◌then◌else◌,
  is_some, or_else, any, Result, ◌>>◌, throw_if, ok,
}
use cred_trail.Templates.{
  no_fields, template_refused, is_badge_template, find_badge_template_by_id, BadgeTemplate,
  TemplateTables, TemplateError,
}

pub record UpdateTemplateInput : Type 0 where
  pub tenant_id : String
  pub id : String
  pub slug : Option String
  pub title : Option String
  pub description : Option (Option String)
  pub criteria_uri : Option (Option String)
  pub image_uri : Option (Option String)

abbrev pub archive :
    (tenant_id id : String) → Bool → (now_iso : String) → BadgeTemplate → BadgeTemplate
archive tenant_id id is_archived now_iso t =
    if is_badge_template tenant_id id t
    then record t { is_archived = is_archived; updated_at = now_iso }
    else t

unfoldable pub set_archived_state :
    TemplateTables
    → (tenant_id id : String) → Bool
    → (now_iso : String) → Option BadgeTemplate × TemplateTables
set_archived_state db tenant_id id is_archived now_iso =
    let changed = map (archive tenant_id id is_archived now_iso) db.templates in
    (find_badge_template_by_id changed tenant_id id, record db { templates = changed })

abbrev pub is_empty_update : UpdateTemplateInput → Bool
is_empty_update input = not (
    is_some input.slug
    || is_some input.title
    || is_some input.description
    || is_some input.criteria_uri
    || is_some input.image_uri)

abbrev pub set_columns : UpdateTemplateInput → (now_iso : String) → BadgeTemplate → BadgeTemplate
set_columns input now_iso t =
    if is_badge_template input.tenant_id input.id t
    then record t {
      slug = or_else input.slug t.slug;
      title = or_else input.title t.title;
      description = or_else input.description t.description;
      criteria_uri = or_else input.criteria_uri t.criteria_uri;
      image_uri = or_else input.image_uri t.image_uri;
      updated_at = now_iso;
    }
    else t

-- The UPDATE of a row fails where another template of the tenant has the slug.
abbrev pub takes_slug : (tenant_id id slug : String) → BadgeTemplate → Bool
takes_slug tenant_id id slug t =
    str_eq t.tenant_id tenant_id && str_eq t.slug slug && not (str_eq t.id id)

abbrev pub is_slug_taken : UpdateTemplateInput → Option String → List BadgeTemplate → Bool
is_slug_taken input none rows = false
is_slug_taken input (some slug) rows =
    any (is_badge_template input.tenant_id input.id) rows
    && any (takes_slug input.tenant_id input.id slug) rows

unfoldable pub update_badge_template :
    TemplateTables
    → UpdateTemplateInput
    → (now_iso : String) → Result TemplateError (Option BadgeTemplate × TemplateTables)
update_badge_template db input now_iso =
    let changed = map (set_columns input now_iso) db.templates in
    do
      throw_if (is_empty_update input) no_fields
      throw_if (is_slug_taken input input.slug db.templates) template_refused
      ok (
        find_badge_template_by_id changed input.tenant_id input.id,
        record db { templates = changed },
      )
