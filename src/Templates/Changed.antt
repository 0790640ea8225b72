-- ===== src/Templates/Changed.antt =====
-- The histories of templates under `updateBadgeTemplate` and `setBadgeTemplateArchivedState`.
use cred_trail.Prelude.{
  ◌≡◌, refl, sym, ap, subst, ◌∙◌, Bool, ◌&&◌, Option, some, map, String, str_eq, if◌then◌else◌,
  if-elim, ok-inj, throw_if-ok, ok,
}
use cred_trail.Templates.{
  no_fields, template_refused, is_badge_template, find_badge_template_by_id, BadgeTemplate,
  TemplateTables,
}
use cred_trail.Templates.History.{IsTraced, owner_of-map}
use cred_trail.Templates.Update.{
  set_archived_state, is_empty_update, set_columns, is_slug_taken, update_badge_template,
  UpdateTemplateInput, archive,
}

kept_by_if {ℓ} :
    {A B : Type ℓ} (b : Bool) (g : A → B) (x y : A) → g x ≡ g y → g (if b then x else y) ≡ g y
kept_by_if b g x y h = if-elim (λ z. g z ≡ g y) b (λ e. h) (λ e. refl)

module _ (tenant_id id : String) where
  -- A change of rows that keeps keys and owners keeps the history.
  rows-IsTraced :
      (db : TemplateTables) (f : BadgeTemplate → BadgeTemplate)
      → ((t : BadgeTemplate) → (f t).tenant_id ≡ t.tenant_id)
      → ((t : BadgeTemplate) → (f t).id ≡ t.id)
      → ((t : BadgeTemplate) → (f t).owner_org_unit_id ≡ t.owner_org_unit_id)
      → IsTraced tenant_id id db
      → IsTraced tenant_id id (record db { templates = map f db.templates })
  unfolding find_badge_template_by_id
  rows-IsTraced db f tenants ids owners traced =
      traced
      ∙ ap some (
          sym (
            owner_of-map tenant_id id f db.templates
              (λ t.
                ap (λ k. str_eq k tenant_id && str_eq (f t).id id) (tenants t)
                ∙ ap (λ k. str_eq t.tenant_id tenant_id && str_eq k id) (ids t))
              (λ t own. owners t)))

  pub archive-IsTraced :
      (db : TemplateTables) (t_tenant t_id : String) (is_archived : Bool) (now_iso : String)
      → IsTraced tenant_id id db
      → IsTraced tenant_id id (set_archived_state db t_tenant t_id is_archived now_iso).1
  unfolding set_archived_state
  archive-IsTraced db t_tenant t_id is_archived now_iso =
      rows-IsTraced db (archive t_tenant t_id is_archived now_iso)
        (λ t.
          kept_by_if (is_badge_template t_tenant t_id t) (λ (x : BadgeTemplate). x.tenant_id) _ t
            refl)
        (λ t. kept_by_if (is_badge_template t_tenant t_id t) (λ (x : BadgeTemplate). x.id) _ t refl)
        (λ t.
          kept_by_if (is_badge_template t_tenant t_id t)
            (λ (x : BadgeTemplate). x.owner_org_unit_id) _ t refl)

  pub update-IsTraced :
      (db : TemplateTables) (input : UpdateTemplateInput) (now_iso : String)
      (after : Option BadgeTemplate × TemplateTables)
      → update_badge_template db input now_iso ≡ ok after
      → IsTraced tenant_id id db
      → IsTraced tenant_id id after.1
  unfolding update_badge_template
  update-IsTraced db input now_iso after h traced =
      let own = is_badge_template input.tenant_id input.id in
      let (_, h1) = throw_if-ok (is_empty_update input) no_fields _ after h in
      let (_, h2) =
        throw_if-ok (is_slug_taken input input.slug db.templates) template_refused _ after h1 in
      subst (λ x. IsTraced tenant_id id x.1) (ok-inj _ after h2)
        (rows-IsTraced db (set_columns input now_iso)
          (λ t. kept_by_if (own t) (λ (x : BadgeTemplate). x.tenant_id) _ t refl)
          (λ t. kept_by_if (own t) (λ (x : BadgeTemplate). x.id) _ t refl)
          (λ t. kept_by_if (own t) (λ (x : BadgeTemplate). x.owner_org_unit_id) _ t refl) traced)
