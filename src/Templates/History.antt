-- ===== src/Templates/History.antt =====
-- The history of a template's owners, in the order in which its events were written.
use cred_trail.Prelude.{
  ◌≡◌, refl, sym, ap, ◌∙◌, inl, inr, Bool, true, false, ◌&&◌, Option, none, some, List, [], ◌∷◌,
  ◌++◌, map, append-nil, String, str_eq, if◌then◌else◌, Bool-cases, some-inj, none≢some, find, keep,
  Result, ok, err,
}
use cred_trail.Templates.{
  BadgeTemplate, is_badge_template, find_badge_template_by_id, create_badge_template,
  OwnershipEvent, TemplateTables, CreateTemplateInput, TemplateError,
}
use cred_trail.OrgUnits.{ensure_institution_org_unit_for_tenant}
use cred_trail.Templates.Update.{set_archived_state, update_badge_template, UpdateTemplateInput}
use cred_trail.Templates.Transfer.{transfer_ownership, TransferInput}

-- Following the events from an owner on: each has to start from the owner before it.
abbrev pub is_owner : Option String → Option String → Bool
is_owner none none = true
is_owner (some a) (some b) = str_eq a b
is_owner _ _ = false

unfoldable pub follow : Option String → List OwnershipEvent → Option (Option String)
follow owner [] = some owner
follow owner (e ∷ es) =
    let rest = follow (some e.to_org_unit_id) es in
    if is_owner e.from_org_unit_id owner then rest else none

abbrev pub is_event_of : String → String → OwnershipEvent → Bool
is_event_of tenant_id id e = str_eq e.tenant_id tenant_id && str_eq e.badge_template_id id

abbrev pub owner_of : Option BadgeTemplate → Option String
owner_of none = none
owner_of (some t) = some t.owner_org_unit_id

-- The events of a template lead from no owner to its present one; without a template there are none.
abbrev pub IsTraced : String → String → TemplateTables → Type 0
IsTraced tenant_id id db =
    follow none (keep (is_event_of tenant_id id) db.ownership_events)
    ≡ some (owner_of (find_badge_template_by_id db.templates tenant_id id))

pub data TemplateCall : Type 0 where
  create_template : CreateTemplateInput → (id event_id now_iso : String) → TemplateCall
  transfer_template : TransferInput → (event_id : String) → TemplateCall
  update_template : UpdateTemplateInput → (now_iso : String) → TemplateCall
  archive_template : (tenant_id id : String) → Bool → (now_iso : String) → TemplateCall

-- A call that throws leaves the given tables.
abbrev pub tables_after {ℓ} :
    {A : Type ℓ} → TemplateTables → Result TemplateError (A × TemplateTables) → TemplateTables
tables_after db (err e) = db
tables_after db (ok x) = x.1

-- The institution's unit stays where the creation of a template fails after it.
abbrev pub with_institution : TemplateTables → (tenant_id now_iso : String) → TemplateTables
with_institution db tenant_id now_iso = record db {
  org_units = (ensure_institution_org_unit_for_tenant db.org_units tenant_id now_iso).1;
}

abbrev pub call_template :
    (String → Bool) → (String → String) → TemplateCall → TemplateTables → TemplateTables
call_template is_time trim (create_template input id event_id now_iso) db =
    tables_after (with_institution db input.tenant_id now_iso)
      (create_badge_template db input id event_id now_iso)
call_template is_time trim (transfer_template input event_id) db =
    tables_after db (transfer_ownership is_time trim db input event_id)
call_template is_time trim (update_template input now_iso) db =
    tables_after db (update_badge_template db input now_iso)
call_template is_time trim (archive_template tenant_id id is_archived now_iso) db =
    (set_archived_state db tenant_id id is_archived now_iso).1

unfoldable pub call_templates :
    (String → Bool) → (String → String) → List TemplateCall → TemplateTables → TemplateTables
call_templates is_time trim [] db = db
call_templates is_time trim (c ∷ cs) db =
    call_templates is_time trim cs (call_template is_time trim c db)

pub follow-append :
    (owner last : Option String) (es : List OwnershipEvent) (e : OwnershipEvent)
    → follow owner es ≡ some last
    → is_owner e.from_org_unit_id last ≡ true
    → follow owner (es ++ e ∷ []) ≡ some (some e.to_org_unit_id)
unfolding follow
follow-append owner last [] e h k = rw (some-inj owner last h, k) refl
follow-append owner last (x ∷ xs) e h k = elim (Bool-cases (is_owner x.from_org_unit_id owner)) [
  | inl c ↦ rw (c) (follow-append (some x.to_org_unit_id) last xs e (rw (c) at h) k)
  | inr c ↦ absurd (none≢some (rw (c) at h))
]

module _ {A : Type 0} (p : A → Bool) where
  pub keep-append : (xs : List A) (x : A) → keep p (xs ++ x ∷ []) ≡ keep p xs ++ keep p (x ∷ [])
  keep-append [] x = refl
  keep-append (y ∷ ys) x = elim (Bool-cases (p y)) [
    | inl c ↦ rw (c) (ap (λ l. y ∷ l) (keep-append ys x))
    | inr c ↦ rw (c) (keep-append ys x)
  ]

  pub find-append_last :
      (xs : List A) (x : A) → find p xs ≡ none → find p (xs ++ x ∷ []) ≡ find p (x ∷ [])
  find-append_last [] x h = refl
  find-append_last (y ∷ ys) x h = elim (Bool-cases (p y)) [
    | inl c ↦ absurd (none≢some (sym (rw (c) at h)))
    | inr c ↦ rw (c) (find-append_last ys x (rw (c) at h))
  ]

  pub find-append_miss : (xs : List A) (x : A) → p x ≡ false → find p (xs ++ x ∷ []) ≡ find p xs
  find-append_miss [] x h = rw (h) refl
  find-append_miss (y ∷ ys) x h = elim (Bool-cases (p y)) [
    | inl c ↦ rw (c) refl
    | inr c ↦ rw (c) (find-append_miss ys x h)
  ]

-- A change of rows that keeps the key, and the owner of the row of the key, keeps the owner found.
pub owner_of-map :
    (tenant_id id : String) (f : BadgeTemplate → BadgeTemplate) (rows : List BadgeTemplate)
    → ((t : BadgeTemplate)
        → is_badge_template tenant_id id (f t) ≡ is_badge_template tenant_id id t)
    → ((t : BadgeTemplate)
        → is_badge_template tenant_id id t ≡ true
        → (f t).owner_org_unit_id ≡ t.owner_org_unit_id)
    → owner_of (find (is_badge_template tenant_id id) (map f rows))
      ≡ owner_of (find (is_badge_template tenant_id id) rows)
owner_of-map tenant_id id f [] h k = refl
owner_of-map tenant_id id f (t ∷ ts) h k = elim (Bool-cases (is_badge_template tenant_id id t)) [
  | inl c ↦ rw (h t ∙ c, c) (ap some (k t c))
  | inr c ↦ rw (h t ∙ c, c) (owner_of-map tenant_id id f ts h k)
]

module _ (tenant_id id : String) where
  pub own_event :
      (last : Option String) (es : List OwnershipEvent) (e : OwnershipEvent)
      → is_event_of tenant_id id e ≡ true
      → follow none (keep (is_event_of tenant_id id) es) ≡ some last
      → is_owner e.from_org_unit_id last ≡ true
      → follow none (keep (is_event_of tenant_id id) (es ++ e ∷ [])) ≡ some (some e.to_org_unit_id)
  own_event last es e own h k =
      ap (follow none) (keep-append (is_event_of tenant_id id) es e)
      ∙ ap (λ b. follow none (keep (is_event_of tenant_id id) es ++ (if b then e ∷ [] else []))) own
      ∙ follow-append none last (keep (is_event_of tenant_id id) es) e h k

  pub other_event :
      (es : List OwnershipEvent) (e : OwnershipEvent)
      → is_event_of tenant_id id e ≡ false
      → keep (is_event_of tenant_id id) (es ++ e ∷ []) ≡ keep (is_event_of tenant_id id) es
  other_event es e other =
      keep-append (is_event_of tenant_id id) es e
      ∙ ap (λ b. keep (is_event_of tenant_id id) es ++ (if b then e ∷ [] else [])) other
      ∙ append-nil (keep (is_event_of tenant_id id) es)
