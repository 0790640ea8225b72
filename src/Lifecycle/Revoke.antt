-- ===== src/Lifecycle/Revoke.antt =====
-- `recordAssertionRevocation`, which sets `revoked_at` of an assertion that has none.
use cred_trail.Prelude.{
  Bool, not, ◌&&◌, ◌||◌, Option, none, some, List, [], ◌∷◌, ◌++◌, map, String, str_eq,
  if◌then◌else◌, is_some, or_else, any,
}
use cred_trail.Lifecycle.{Assertion, Revocation, Db, is_assertion, find_assertion_by_id}

pub record RevocationInput : Type 0 where
  pub tenant_id : String
  pub assertion_id : String
  pub revocation_id : String
  pub reason : String
  pub idempotency_key : String
  pub revoked_by_user_id : Option String
  pub revoked_at : String

pub data RevocationStatus : Type 0 where
  newly_revoked already_revoked : RevocationStatus

pub record RevocationResult : Type 0 where
  pub status : RevocationStatus
  pub revoked_at : String

-- `UPDATE assertions SET revoked_at = ?, updated_at = ? WHERE … AND revoked_at IS NULL`
unfoldable pub mark_revoked : String → String → String → Assertion → Assertion
mark_revoked tenant assertion at a =
    if is_assertion tenant assertion a && not (is_some a.revoked_at)
    then record a { revoked_at = some at; updated_at = at }
    else a

-- The unique keys of the table `revocations`.
conflicts : RevocationInput → Revocation → Bool
conflicts input r =
    str_eq r.id input.revocation_id
    || (str_eq r.tenant_id input.tenant_id
        && (str_eq r.idempotency_key input.idempotency_key
            || str_eq r.assertion_id input.assertion_id))

-- `INSERT INTO revocations … ON CONFLICT DO NOTHING`
pub insert_revocation : RevocationInput → String → List Revocation → List Revocation
insert_revocation input effective rows =
    if any (conflicts input) rows
    then rows
    else rows
      ++ (record {
        id = input.revocation_id;
        tenant_id = input.tenant_id;
        assertion_id = input.assertion_id;
        reason = input.reason;
        idempotency_key = input.idempotency_key;
        revoked_by_user_id = input.revoked_by_user_id;
        revoked_at = effective;
        created_at = input.revoked_at;
      })
        ∷ []

abbrev status_of : Option String → RevocationStatus
status_of none = newly_revoked
status_of (some at) = already_revoked

unfoldable pub revoke_found : Db → RevocationInput → Assertion → RevocationResult × Db
unfolding mark_revoked conflicts insert_revocation
revoke_found db input assertion =
    let effective = or_else assertion.revoked_at input.revoked_at in
    let rows =
      if is_some assertion.revoked_at
      then db.assertions
      else map (mark_revoked input.tenant_id input.assertion_id input.revoked_at) db.assertions in
    (
      record { status = status_of assertion.revoked_at; revoked_at = effective },
      record db {
        assertions = rows;
        revocations = insert_revocation input effective db.revocations;
      },
    )

-- `none` is the error that the assertion is not found.
unfoldable pub record_assertion_revocation : Db → RevocationInput → Option (RevocationResult × Db)
unfolding revoke_found
record_assertion_revocation db input =
    elim (find_assertion_by_id db input.tenant_id input.assertion_id) [
      | none ↦ none
      | some assertion ↦ some (revoke_found db input assertion)
    ]
