-- ===== src/Access/Seen.antt =====
-- The units that an issuer sees in reports and dashboards, against the rows of the scopes.
use cred_trail.Prelude.{◌≡◌, ◌↔◌, Bool, false, Option, none, some, Memᴰ, String, Some, has}
use cred_trail.Access.Reports.{ReportAccess, scoped}
use cred_trail.Access.Meaning.{IsScopeOf, IsIssuing}
use cred_trail.OrgUnits.Scopes.{Members}

-- Nothing where no scope passes a test, and else the units of those that do.
abbrev IsFiltered : Option ReportAccess → (String → Bool) → Type 0
IsFiltered none on = (id : String) → on id ≡ false
IsFiltered (some a) on =
    (a.visibility ≡ scoped) × ((id : String) → has id a.scoped_org_unit_ids ≡ on id)

-- What is seen by scopes: exactly the units of a kind, and nothing where there is none.
abbrev pub IsSeen : Option ReportAccess → (String → Type 0) → Type 0
IsSeen none on = (id : String) → ¬ on id
IsSeen (some a) on =
    (a.visibility ≡ scoped) × ((id : String) → Memᴰ id a.scoped_org_unit_ids ↔ on id)

-- A unit on which the member has a scope, and one on which it lets the member issue.
abbrev pub HasScopeOn : Members → (tenant_id user_id : String) → String → Type 0
HasScopeOn db tenant_id user_id id =
    Some (λ s. IsScopeOf tenant_id user_id s × (s.org_unit_id ≡ id)) db.scopes

abbrev pub HasIssuingOn : Members → (tenant_id user_id : String) → String → Type 0
HasIssuingOn db tenant_id user_id id =
    Some (λ s. IsScopeOf tenant_id user_id s × (s.org_unit_id ≡ id) × IsIssuing s) db.scopes
