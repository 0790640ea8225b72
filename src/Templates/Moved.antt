-- ===== src/Templates/Moved.antt =====
-- The histories of templates under `transferBadgeTemplateOwnership`.
use cred_trail.Prelude.{
  ◌≡◌, refl, sym, ap, subst, ◌∙◌, inl, inr, Bool, true, false, not, ◌&&◌, false≢true, Option, none,
  some, List, [], ◌∷◌, ◌++◌, map, String, str_eq, eq_iff, eq_refl, Bool-cases, if-elim, and_left,
  and_right, none≢some, find, ok-inj, throw_if-ok, or_throw-ok, ok,
}
use cred_trail.Templates.{
  owner_not_found, no_such_template, template_not_reread, transfer_time_invalid, is_badge_template,
  find_badge_template_by_id, BadgeTemplate, OwnershipEvent, TemplateTables,
}
use cred_trail.Templates.History.{
  is_event_of, is_owner, owner_of, IsTraced, owner_of-map, own_event, other_event, follow,
}
use cred_trail.OrgUnits.{find_tenant_org_unit_by_id}
use cred_trail.Templates.Transfer.{
  move_template, transfer_event, write_transfer, transfer_ownership, TransferInput,
}

module _ (tenant_id id : String) where
  both_keys :
      (input : TransferInput) (t : BadgeTemplate)
      → is_badge_template input.tenant_id input.badge_template_id t ≡ true
      → is_badge_template tenant_id id t ≡ true
      → (str_eq input.tenant_id tenant_id && str_eq input.badge_template_id id) ≡ true
  both_keys input t h own =
      let a =
        (eq_iff t.tenant_id input.tenant_id).0
          (and_left _ (str_eq t.id input.badge_template_id) h) in
      let b =
        (eq_iff t.id input.badge_template_id).0
          (and_right (str_eq t.tenant_id input.tenant_id) _ h) in
      subst (λ k. (str_eq k tenant_id && str_eq input.badge_template_id id) ≡ true) a
        (subst (λ k. (str_eq t.tenant_id tenant_id && str_eq k id) ≡ true) b own)

  move-other :
      (input : TransferInput) (governance : Option String) (rows : List BadgeTemplate)
      → (str_eq input.tenant_id tenant_id && str_eq input.badge_template_id id) ≡ false
      → owner_of (find (is_badge_template tenant_id id) (map (move_template input governance) rows))
        ≡ owner_of (find (is_badge_template tenant_id id) rows)
  move-other input governance rows other =
      owner_of-map tenant_id id (move_template input governance) rows
        (λ t.
          if-elim (λ x. is_badge_template tenant_id id x ≡ is_badge_template tenant_id id t)
            (is_badge_template input.tenant_id input.badge_template_id t) (λ e. refl) (λ e. refl))
        (λ t own.
          if-elim (λ (x : BadgeTemplate). x.owner_org_unit_id ≡ t.owner_org_unit_id)
            (is_badge_template input.tenant_id input.badge_template_id t)
            (λ e. absurd (false≢true (sym other ∙ both_keys input t e own))) (λ e. refl))

moved-owner :
    (input : TransferInput) (governance : Option String) (rows : List BadgeTemplate)
    (t : BadgeTemplate)
    → find (is_badge_template input.tenant_id input.badge_template_id) rows ≡ some t
    → owner_of (
        find
          (is_badge_template input.tenant_id input.badge_template_id)
          (map (move_template input governance) rows))
      ≡ some input.to_org_unit_id
moved-owner input governance [] t h = absurd (none≢some h)
moved-owner input governance (x ∷ xs) t h =
    elim (Bool-cases (is_badge_template input.tenant_id input.badge_template_id x)) [
      | inl c ↦ rw (c, c) refl
      | inr c ↦ rw (c, c) (moved-owner input governance xs t (rw (c) at h))
    ]

moved_own :
    (tenant_id id : String) (input : TransferInput) (governance : Option String)
    (db : TemplateTables) (event : OwnershipEvent) (t : BadgeTemplate)
    → input.tenant_id ≡ tenant_id
    → input.badge_template_id ≡ id
    → is_event_of tenant_id id event ≡ true
    → event.from_org_unit_id ≡ some t.owner_org_unit_id
    → event.to_org_unit_id ≡ input.to_org_unit_id
    → find (is_badge_template input.tenant_id input.badge_template_id) db.templates ≡ some t
    → IsTraced tenant_id id db
    → IsTraced tenant_id id (record db {
      templates = map (move_template input governance) db.templates;
      ownership_events = db.ownership_events ++ event ∷ [];
    })
unfolding find_badge_template_by_id
moved_own tenant_id id input governance db event t et ei own from to found traced =
    let here =
      subst (λ a. find (is_badge_template a id) db.templates ≡ some t) et
        (subst (λ b. find (is_badge_template input.tenant_id b) db.templates ≡ some t) ei found) in
    let rows = map (move_template input governance) db.templates in
    let there =
      subst (λ a. owner_of (find (is_badge_template a id) rows) ≡ some input.to_org_unit_id) et
        (subst
          (λ b.
            owner_of (find (is_badge_template input.tenant_id b) rows) ≡ some input.to_org_unit_id)
          ei (moved-owner input governance db.templates t found)) in
    own_event tenant_id id (some t.owner_org_unit_id) db.ownership_events event own
      (traced ∙ ap (λ o. some (owner_of o)) here)
      (subst (λ o. is_owner o (some t.owner_org_unit_id) ≡ true) (sym from)
        (eq_refl t.owner_org_unit_id))
    ∙ ap (λ x. some (some x)) to
    ∙ ap some (sym there)

write_transfer-IsTraced :
    (tenant_id id : String) (trim : String → String) (db : TemplateTables) (input : TransferInput)
    (t : BadgeTemplate) (event_id : String)
    (after : (BadgeTemplate × Option OwnershipEvent) × TemplateTables)
    → find_badge_template_by_id db.templates input.tenant_id input.badge_template_id ≡ some t
    → write_transfer trim db input t event_id ≡ ok after
    → IsTraced tenant_id id db
    → IsTraced tenant_id id after.1
unfolding write_transfer find_badge_template_by_id
write_transfer-IsTraced tenant_id id trim db input t event_id after found h traced =
    let event = transfer_event trim input t event_id in
    let governance = event.governance_metadata_json in
    let rows = map (move_template input governance) db.templates in
    let (updated, _, h1) =
      or_throw-ok (find (is_badge_template input.tenant_id input.badge_template_id) rows)
        template_not_reread _ after h in
    subst (λ x. IsTraced tenant_id id x.1) (ok-inj _ after h1)
      (elim (Bool-cases (is_event_of tenant_id id event)) [
        | inl own ↦
            moved_own tenant_id id input governance db event t
              ((eq_iff input.tenant_id tenant_id).0
                (and_left _ (str_eq input.badge_template_id id) own))
              ((eq_iff input.badge_template_id id).0
                (and_right (str_eq input.tenant_id tenant_id) _ own))
              own refl refl found traced
        | inr other ↦
            ap (follow none) (other_event tenant_id id db.ownership_events event other)
            ∙ traced
            ∙ ap some (sym (move-other tenant_id id input governance db.templates other))
      ])

pub transfer-IsTraced :
    (tenant_id id : String) (is_time : String → Bool) (trim : String → String) (db : TemplateTables)
    (input : TransferInput) (event_id : String)
    (after : (BadgeTemplate × Option OwnershipEvent) × TemplateTables)
    → transfer_ownership is_time trim db input event_id ≡ ok after
    → IsTraced tenant_id id db
    → IsTraced tenant_id id after.1
unfolding transfer_ownership
transfer-IsTraced tenant_id id is_time trim db input event_id after h traced =
    let (_, h1) =
      throw_if-ok (not (is_time input.transferred_at)) transfer_time_invalid _ after h in
    let (t, found, h2) =
      or_throw-ok (find_badge_template_by_id db.templates input.tenant_id input.badge_template_id)
        no_such_template _ after h1 in
    let (unit, _, h3) =
      or_throw-ok (find_tenant_org_unit_by_id db.org_units input.tenant_id input.to_org_unit_id)
        owner_not_found _ after h2 in
    if-elim (λ r. r ≡ ok after → IsTraced tenant_id id after.1)
      (str_eq t.owner_org_unit_id input.to_org_unit_id)
      (λ e h4. subst (λ x. IsTraced tenant_id id x.1) (ok-inj _ after h4) traced)
      (λ e h4. write_transfer-IsTraced tenant_id id trim db input t event_id after found h4 traced)
      h3
