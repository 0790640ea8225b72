-- ===== src/Templates/Traced.antt =====
-- The histories of templates over sequences of calls.
use cred_trail.Prelude.{◌≡◌, refl, Bool, List, [], ◌∷◌, String, Result, ok, err}
use cred_trail.Templates.{create_badge_template, TemplateTables, TemplateError}
use cred_trail.Templates.History.{
  IsTraced, tables_after, with_institution, call_template, call_templates, TemplateCall,
  create_template, transfer_template, update_template, archive_template,
}
use cred_trail.Templates.Update.{update_badge_template}
use cred_trail.Templates.Transfer.{transfer_ownership}
use cred_trail.Templates.Moved.{transfer-IsTraced}
use cred_trail.Templates.Created.{create-IsTraced}
use cred_trail.Templates.Changed.{archive-IsTraced, update-IsTraced}

tables_after-elim {ℓ} :
    {A : Type ℓ} (P : TemplateTables → Type 0) (db : TemplateTables)
    (r : Result TemplateError (A × TemplateTables))
    → P db
    → ((x : A × TemplateTables) → r ≡ ok x → P x.1)
    → P (tables_after db r)
tables_after-elim P db (err e) h k = h
tables_after-elim P db (ok x) h k = k x refl

call_template-IsTraced :
    (is_time : String → Bool) (trim : String → String) (tenant_id id : String) (c : TemplateCall)
    (db : TemplateTables)
    → IsTraced tenant_id id db
    → IsTraced tenant_id id (call_template is_time trim c db)
call_template-IsTraced is_time trim tenant_id id (create_template input new_id event_id now_iso) db
      h =
    tables_after-elim (IsTraced tenant_id id) (with_institution db input.tenant_id now_iso)
      (create_badge_template db input new_id event_id now_iso) h
      (λ after e. create-IsTraced tenant_id id db input new_id event_id now_iso after e h)
call_template-IsTraced is_time trim tenant_id id (transfer_template input event_id) db h =
    tables_after-elim (IsTraced tenant_id id) db (transfer_ownership is_time trim db input event_id)
      h (λ after e. transfer-IsTraced tenant_id id is_time trim db input event_id after e h)
call_template-IsTraced is_time trim tenant_id id (update_template input now_iso) db h =
    tables_after-elim (IsTraced tenant_id id) db (update_badge_template db input now_iso) h
      (λ after e. update-IsTraced tenant_id id db input now_iso after e h)
call_template-IsTraced is_time trim tenant_id id (archive_template t_tenant t_id flag now_iso) db
      h =
    archive-IsTraced tenant_id id db t_tenant t_id flag now_iso h

-- Whatever templates are created, transferred, updated and archived, one call after the other: the
-- ownership events of every template form a chain, each starting from the owner before it, that
-- leads from no owner to the template's present owner, if they did so at the start; a template that
-- does not exist has no events.
pub call_templates-IsTraced :
    (is_time : String → Bool) (trim : String → String) (tenant_id id : String)
    (calls : List TemplateCall) (db : TemplateTables)
    → IsTraced tenant_id id db
    → IsTraced tenant_id id (call_templates is_time trim calls db)
unfolding call_templates
call_templates-IsTraced is_time trim tenant_id id [] db h = h
call_templates-IsTraced is_time trim tenant_id id (c ∷ cs) db h =
    call_templates-IsTraced is_time trim tenant_id id cs (call_template is_time trim c db)
      (call_template-IsTraced is_time trim tenant_id id c db h)
