-- ===== src/Templates/Created.antt =====
-- The histories of templates under `createBadgeTemplate`.
use cred_trail.Prelude.{
  ◌≡◌, refl, sym, ap, subst, ◌∙◌, inl, inr, true, false, false≢true, none, some, List, String,
  str_eq, eq_iff, if◌then◌else◌, Bool-cases, Option-cases, or_else, and_right, any, find,
  any-weaken, find-any, ok-inj, throw_if-ok, or_throw-ok, ok,
}
use cred_trail.Templates.{
  owner_not_found, template_refused, is_badge_template, find_badge_template_by_id,
  is_template_clash, new_template, initial_event, create_badge_template, BadgeTemplate,
  TemplateTables, CreateTemplateInput,
}
use cred_trail.OrgUnits.{find_tenant_org_unit_by_id, ensure_institution_org_unit_for_tenant}
use cred_trail.Templates.History.{
  owner_of, IsTraced, find-append_last, find-append_miss, own_event, other_event, follow,
}

same_id_clash :
    (old new : BadgeTemplate) → str_eq old.id new.id ≡ true → is_template_clash new old ≡ true
same_id_clash old new e = rw (e) refl

module _ (tenant_id id : String) where
  -- A row that the keys accept is the first of its template.
  fresh-none :
      (rows : List BadgeTemplate) (t : BadgeTemplate)
      → any (is_template_clash t) rows ≡ false
      → is_badge_template tenant_id id t ≡ true
      → find (is_badge_template tenant_id id) rows ≡ none
  fresh-none rows t free own = elim (Option-cases (find (is_badge_template tenant_id id) rows)) [
    | inl missing ↦ missing
    | inr (x, found) ↦ absurd (
        false≢true (
          sym free
          ∙ any-weaken (is_badge_template tenant_id id) (is_template_clash t) rows
              (λ y h. same_id_clash y t (
                (eq_iff y.id t.id).1 (
                  (eq_iff y.id id).0 (and_right (str_eq y.tenant_id tenant_id) _ h)
                  ∙ sym ((eq_iff t.id id).0 (and_right (str_eq t.tenant_id tenant_id) _ own)))))
              (find-any (is_badge_template tenant_id id) rows x found)))
  ]

  pub create-IsTraced :
      (db : TemplateTables) (input : CreateTemplateInput) (new_id event_id now_iso : String)
      (after : BadgeTemplate × TemplateTables)
      → create_badge_template db input new_id event_id now_iso ≡ ok after
      → IsTraced tenant_id id db
      → IsTraced tenant_id id after.1
  unfolding create_badge_template find_badge_template_by_id
  create-IsTraced db input new_id event_id now_iso after h traced =
      let ensured = ensure_institution_org_unit_for_tenant db.org_units input.tenant_id now_iso in
      let owner = or_else input.owner_org_unit_id ensured.0 in
      let t = new_template input owner new_id now_iso in
      let p = is_badge_template tenant_id id in
      let (unit, _, h1) =
        or_throw-ok (find_tenant_org_unit_by_id ensured.1 input.tenant_id owner) owner_not_found _
          after h in
      let (free, h2) =
        throw_if-ok (any (is_template_clash t) db.templates) template_refused _ after h1 in
      subst (λ x. IsTraced tenant_id id x.1) (ok-inj _ after h2)
        (elim (Bool-cases (p t)) [
          | inl own ↦
              let missing = fresh-none db.templates t free own in
              own_event tenant_id id none db.ownership_events (initial_event t event_id) own
                (traced ∙ ap (λ o. some (owner_of o)) missing) refl
              ∙ sym (
                  ap (λ o. some (owner_of o))
                    (find-append_last p db.templates t missing
                      ∙ ap (λ b. if b then some t else none) own))
          | inr other ↦
              ap (follow none)
                (other_event tenant_id id db.ownership_events (initial_event t event_id) other)
              ∙ traced
              ∙ sym (ap (λ o. some (owner_of o)) (find-append_miss p db.templates t other))
        ])
