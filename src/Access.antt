-- ===== src/Access.antt =====
-- Who may act in a tenant: apps/api-worker/src/auth/tenant-access.ts, over the memberships, the
-- scopes on org units and the delegated grants of packages/db/src/index.ts.
pub mod Permission
pub mod Meaning
pub mod Guards
pub mod Reports
pub mod Seen
pub mod Entry
mod Tests
use cred_trail.Prelude.{
  ℕ, Bool, false, not, Option, none, some, List, String, str_eq, if◌then◌else◌, ◌<>◌, any, Result,
  ◌>>=◌, ◌>>◌, throw_if, or_throw, ok,
}
use cred_trail.OrgUnits.Scopes.{find_tenant_membership, same_role, Members}
use cred_trail.Approval.{Role}

pub record Principal : Type 0 where
  pub user_id : String
  pub auth_session_id : String
  pub expires_at : String

-- A response that refuses: its status and the texts of its body.
pub record Denial : Type 0 where
  pub status : ℕ
  pub error : String
  pub reason : Option String

abbrev pub denied : ℕ → String → Denial
denied status error = record { status = status; error = error; reason = none }

-- `sessionCompatibilityFromPrincipal`
pub record Session : Type 0 where
  pub id : String
  pub tenant_id : String
  pub user_id : String
  pub session_token_hash : String
  pub expires_at : String
  pub last_seen_at : String
  pub revoked_at : Option String
  pub created_at : String

pub record TenantAccess : Type 0 where
  pub principal : Principal
  pub session : Session
  pub membership_role : Role

unfoldable pub has_required_role : Role → List Role → Bool
has_required_role membership_role allowed = any (λ r. same_role r membership_role) allowed

unfoldable pub require_principal_tenant_role :
    Members → Option Principal → (tenant_id : String) → List Role → Result Denial (Principal × Role)
require_principal_tenant_role db principal tenant_id allowed = do
  user ← or_throw principal (denied 401 "Not authenticated")
  membership ←
      or_throw (find_tenant_membership db tenant_id user.user_id)
        (denied 403 "Membership not found for requested tenant")
  throw_if (not (has_required_role membership.role allowed))
      (denied 403 "Insufficient role for requested action")
  ok (user, membership.role)

abbrev pub session_of : Principal → String → Session
session_of p tenant_id = record {
  id = p.auth_session_id;
  tenant_id = tenant_id;
  user_id = p.user_id;
  session_token_hash = "";
  expires_at = p.expires_at;
  last_seen_at = p.expires_at;
  revoked_at = none;
  created_at = p.expires_at;
}

abbrev pub setup_pending : Denial
setup_pending = record {
  status = 423;
  error = "Local MFA enrollment must be completed before tenant access is granted";
  reason = some "break_glass_mfa_setup_pending";
}

abbrev pub is_text : Option String → String → Bool
is_text none t = false
is_text (some s) t = str_eq s t

unfoldable pub require_tenant_role :
    Members
    → (pending_break_glass : Option String) → Option Principal
    → (tenant_id : String) → List Role
    → Result Denial TenantAccess
require_tenant_role db pending_break_glass principal tenant_id allowed = do
  throw_if (is_text pending_break_glass tenant_id) setup_pending
  result ← require_principal_tenant_role db principal tenant_id allowed
  ok (record {
    principal = result.0;
    session = session_of result.0 tenant_id;
    membership_role = result.1;
  })

-- `requireBootstrapAdmin` and `requireBootstrapAdminUiToken`; the trimmed token of the environment.
unfoldable pub require_bootstrap_admin : (configured authorization : Option String) → Option Denial
require_bootstrap_admin none authorization =
    some (denied 503 "Bootstrap admin API is not configured")
require_bootstrap_admin (some token) authorization =
    if str_eq token ""
    then some (denied 503 "Bootstrap admin API is not configured")
    else if is_text authorization ("Bearer " <> token)
    then none
    else some (denied 401 "Unauthorized")

unfoldable pub require_bootstrap_admin_ui_token : (configured token : Option String) → Option Denial
require_bootstrap_admin_ui_token none token =
    some (denied 503 "Bootstrap admin API is not configured")
require_bootstrap_admin_ui_token (some configured) token =
    if str_eq configured ""
    then some (denied 503 "Bootstrap admin API is not configured")
    else if is_text token configured
    then none
    else some (denied 401 "Unauthorized")
