-- ===== src/OAuth.antt =====
-- The authorization codes, access tokens and refresh tokens of Open Badges 3.0: the tables
-- oauth_authorization_codes, oauth_access_tokens and oauth_refresh_tokens of
-- packages/db/src/index.ts. A timestamp is its number of milliseconds; all of these are written by
-- `toISOString`, whose order is theirs. The hashes are UNIQUE columns.
pub mod Once
pub mod Endpoint
pub mod Exchange
pub mod Earned
mod Tests
use cred_trail.Prelude.{
  ℕ, Bool, not, ◌&&◌, ◌||◌, Option, none, some, List, [], ◌∷◌, ◌++◌, String, str_eq, ltb,
  if◌then◌else◌, is_some, or_else, update, returning, any, find,
}

pub record Code : Type 0 where
  pub id : String
  pub client_id : String
  pub user_id : String
  pub tenant_id : String
  pub code_hash : String
  pub redirect_uri : String
  pub scope : String
  pub code_challenge : Option String
  pub code_challenge_method : Option String
  pub expires_at : ℕ
  pub used_at : Option ℕ
  pub created_at : ℕ

-- A row of the access tokens or of the refresh tokens, which have the same columns.
pub record Token : Type 0 where
  pub id : String
  pub client_id : String
  pub user_id : String
  pub tenant_id : String
  pub token_hash : String
  pub scope : String
  pub expires_at : ℕ
  pub revoked_at : Option ℕ
  pub created_at : ℕ

pub record OAuthTables : Type 0 where
  pub codes : List Code
  pub access_tokens : List Token
  pub refresh_tokens : List Token

pub record ConsumeCodeInput : Type 0 where
  pub client_id : String
  pub code_hash : String
  pub redirect_uri : String
  pub now : ℕ

pub record TokenInput : Type 0 where
  pub client_id : String
  pub token_hash : String
  pub now : ℕ

abbrev pub has_code_hash : String → Code → Bool
has_code_hash hash c = str_eq c.code_hash hash

abbrev pub has_token_hash : String → Token → Bool
has_token_hash hash t = str_eq t.token_hash hash

abbrev pub is_used : Code → Bool
is_used c = is_some c.used_at

abbrev pub is_revoked_token : Token → Bool
is_revoked_token t = is_some t.revoked_at

-- The INSERTs; none where a UNIQUE column refuses.
unfoldable pub create_code : List Code → Code → Option (List Code)
create_code codes new =
    if any (λ c. str_eq c.id new.id || has_code_hash new.code_hash c) codes
    then none
    else some (codes ++ new ∷ [])

unfoldable pub create_token : List Token → Token → Option (List Token)
create_token tokens new =
    if any (λ t. str_eq t.id new.id || has_token_hash new.token_hash t) tokens
    then none
    else some (tokens ++ new ∷ [])

abbrev pub is_consumable : ConsumeCodeInput → Code → Bool
is_consumable input c =
    has_code_hash input.code_hash c
    && ((str_eq c.client_id input.client_id && str_eq c.redirect_uri input.redirect_uri)
        && (not (is_used c) && ltb input.now c.expires_at))

abbrev pub use_code : ConsumeCodeInput → Code → Code
use_code input c = record c { used_at = some input.now }

-- The row that RETURNING gives, and the table after the UPDATE.
unfoldable pub consume_code : List Code → ConsumeCodeInput → Option Code × List Code
consume_code codes input = (
  returning (is_consumable input) (use_code input) codes,
  update (is_consumable input) (use_code input) codes,
)

abbrev pub is_usable : TokenInput → Token → Bool
is_usable input t =
    has_token_hash input.token_hash t
    && (str_eq t.client_id input.client_id
        && (not (is_revoked_token t) && ltb input.now t.expires_at))

abbrev pub revoke_at : ℕ → Token → Token
revoke_at now t = record t { revoked_at = some now }

unfoldable pub consume_refresh_token : List Token → TokenInput → Option Token × List Token
consume_refresh_token tokens input = (
  returning (is_usable input) (revoke_at input.now) tokens,
  update (is_usable input) (revoke_at input.now) tokens,
)

-- `SET revoked_at = COALESCE(revoked_at, ?)`, for an access token and for a refresh token.
abbrev pub is_of_client : TokenInput → Token → Bool
is_of_client input t = has_token_hash input.token_hash t && str_eq t.client_id input.client_id

abbrev pub coalesce_revoked : ℕ → Token → Token
coalesce_revoked now t = record t { revoked_at = some (or_else t.revoked_at now) }

unfoldable pub revoke_token_by_hash : List Token → TokenInput → List Token
revoke_token_by_hash tokens input = update (is_of_client input) (coalesce_revoked input.now) tokens

abbrev pub is_live : (token_hash : String) → (now : ℕ) → Token → Bool
is_live token_hash now t =
    has_token_hash token_hash t && (not (is_revoked_token t) && ltb now t.expires_at)

unfoldable pub find_active_access_token :
    List Token → (token_hash : String) → (now : ℕ) → Option Token
find_active_access_token tokens token_hash now = find (is_live token_hash now) tokens
