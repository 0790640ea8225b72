-- ===== src/OAuth/Endpoint.antt =====
-- The token endpoint: `handleOAuthTokenRequest` of apps/api-worker/src/routes/ob3-routes.ts for a
-- client that is authenticated, with `issueOAuthAccessAndRefreshTokens` of ob3/oauth-token-
-- helpers.ts. The hashes, the test of a verifier by its regular expression and the words of a text
-- are parameters.
use cred_trail.Prelude.{
  ℕ, ◌+◌, ◌*◌, Bool, false, not, ◌&&◌, ◌||◌, Option, none, some, List, [], ◌∷◌, String, str_eq,
  ◌==◌, if◌then◌else◌, is_some, or_else, ◌<>◌, has, distinct, length, all, Result, ◌>>=◌, ◌>>◌,
  throw_if, or_throw, ok, err,
}
use cred_trail.OAuth.{
  Code, create_token, consume_code, consume_refresh_token, Token, OAuthTables, ConsumeCodeInput,
  TokenInput,
}

pub record Texts : Type 0 where
  pub sha256_hex : String → String
  pub sha256_base64url : String → String
  pub is_pkce_code_verifier : String → Bool
  -- `value.trim().split(/\s+/)` and the filter of the empty words
  pub words : String → List String

-- The fields of the form, trimmed, where they are not empty; the verifier as it was sent.
pub record TokenRequest : Type 0 where
  pub grant_type : Option String
  pub code : Option String
  pub redirect_uri : Option String
  pub code_verifier : Option String
  pub scope : Option String
  pub refresh_token : Option String

-- What `generateOpaqueToken` and `createPrefixedId` give to one request.
pub record Drawn : Type 0 where
  pub access_token : String
  pub refresh_token : String
  pub access_id : String
  pub refresh_id : String

pub record IssuedTokens : Type 0 where
  pub access_token : String
  pub refresh_token : String
  pub expires_in : ℕ
  pub scope : String

-- The OAuth error of a response of status 400, and an INSERT that throws.
pub data TokenRefusal : Type 0 where
  invalid_request invalid_grant invalid_scope unsupported_grant_type insert_refused : TokenRefusal

abbrev pub access_token_ttl_seconds : ℕ
access_token_ttl_seconds = 60 * 60

abbrev pub refresh_token_ttl_seconds : ℕ
refresh_token_ttl_seconds = 30 * 24 * 60 * 60

abbrev pub supported_scopes : List String
supported_scopes =
    "https://purl.imsglobal.org/spec/ob/v3p0/scope/credential.readonly"
    ∷ "https://purl.imsglobal.org/spec/ob/v3p0/scope/credential.upsert"
    ∷ "https://purl.imsglobal.org/spec/ob/v3p0/scope/profile.readonly"
    ∷ "https://purl.imsglobal.org/spec/ob/v3p0/scope/profile.update" ∷ []

abbrev pub all_scopes_supported : List String → Bool
all_scopes_supported scopes = all (λ s. has s supported_scopes) scopes

abbrev pub is_subset : List String → List String → Bool
is_subset subset superset = all (λ s. has s superset) subset

abbrev pub split_space_delimited : Texts → String → List String
split_space_delimited texts value = distinct (texts.words value)

-- `join(" ")`
abbrev pub join_words : List String → String
join_words [] = ""
join_words (w ∷ ws) = elim ws [ [] ↦ w | _ ∷ _ ↦ w <> " " <> join_words ws ]

abbrev pub new_token :
    (id client_id user_id tenant_id token_hash scope : String) → (expires_at now : ℕ) → Token
new_token id client_id user_id tenant_id token_hash scope expires_at now = record {
  id = id;
  client_id = client_id;
  user_id = user_id;
  tenant_id = tenant_id;
  token_hash = token_hash;
  scope = scope;
  expires_at = expires_at;
  revoked_at = none;
  created_at = now;
}

abbrev pub is_text : Option String → String → Bool
is_text none t = false
is_text (some s) t = str_eq s t

-- A request's answer and the tables after it: what was written before a refusal stays.
abbrev pub Answer : Type 0
Answer = Result TokenRefusal IssuedTokens × OAuthTables

abbrev pub check_scopes : (requested granted : List String) → Result TokenRefusal (List String)
check_scopes requested granted = do
  throw_if
      ((length requested == 0)
        || (not (all_scopes_supported requested) || not (is_subset requested granted)))
      invalid_scope
  ok requested

-- After the second INSERT, and after the first.
abbrev pub with_refresh : OAuthTables → Drawn → String → Option (List Token) → Answer
with_refresh db drawn scope none = (err insert_refused, db)
with_refresh db drawn scope (some refresh_tokens) = (
  ok (record {
    access_token = drawn.access_token;
    refresh_token = drawn.refresh_token;
    expires_in = access_token_ttl_seconds;
    scope = scope;
  }),
  record db { refresh_tokens = refresh_tokens },
)

abbrev pub with_access :
    OAuthTables → Drawn → String → (first second : Option (List Token)) → Answer
with_access db drawn scope none second = (err insert_refused, db)
with_access db drawn scope (some access_tokens) second =
    with_refresh (record db { access_tokens = access_tokens }) drawn scope second

module _ (texts : Texts) where
  abbrev pub access_row : Drawn → (client_id user_id tenant_id scope : String) → ℕ → Token
  access_row drawn client_id user_id tenant_id scope now =
      new_token drawn.access_id client_id user_id tenant_id (texts.sha256_hex drawn.access_token)
        scope (now + access_token_ttl_seconds * 1000) now

  abbrev pub refresh_row : Drawn → (client_id user_id tenant_id scope : String) → ℕ → Token
  refresh_row drawn client_id user_id tenant_id scope now =
      new_token drawn.refresh_id client_id user_id tenant_id (texts.sha256_hex drawn.refresh_token)
        scope (now + refresh_token_ttl_seconds * 1000) now

  unfoldable pub issue_tokens :
      OAuthTables
      → Drawn
      → (client_id user_id tenant_id : String) → List String
      → (now : ℕ) → Answer
  issue_tokens db drawn client_id user_id tenant_id scopes now =
      let scope = join_words scopes in
      with_access db drawn scope
        (create_token db.access_tokens (access_row drawn client_id user_id tenant_id scope now))
        (create_token db.refresh_tokens (refresh_row drawn client_id user_id tenant_id scope now))

  -- The checks before the code is consumed: the code, the redirect URI and the verifier.
  unfoldable pub code_request : TokenRequest → Result TokenRefusal (String × String × String)
  code_request r = do
    code ← or_throw r.code invalid_request
    redirect_uri ← or_throw r.redirect_uri invalid_request
    code_verifier ← or_throw r.code_verifier invalid_request
    throw_if (str_eq code_verifier "") invalid_request
    throw_if (not (texts.is_pkce_code_verifier code_verifier)) invalid_request
    ok (code, redirect_uri, code_verifier)

  -- The checks of the consumed code: its PKCE binding, then the scopes.
  unfoldable pub check_code :
      Code → (code_verifier : String) → Option String → Result TokenRefusal (List String)
  check_code c code_verifier requested_scope = do
    challenge ← or_throw c.code_challenge invalid_grant
    throw_if (not (is_text c.code_challenge_method "S256")) invalid_grant
    throw_if (not (str_eq (texts.sha256_base64url code_verifier) challenge)) invalid_grant
    scope ← or_throw requested_scope invalid_request
    check_scopes (split_space_delimited texts scope) (split_space_delimited texts c.scope)

  abbrev pub issue_or_refuse :
      OAuthTables
      → Drawn
      → (client_id user_id tenant_id : String) → Result TokenRefusal (List String)
      → (now : ℕ) → Answer
  issue_or_refuse db drawn client_id user_id tenant_id (err e) now = (err e, db)
  issue_or_refuse db drawn client_id user_id tenant_id (ok scopes) now =
      issue_tokens db drawn client_id user_id tenant_id scopes now

  abbrev pub consume_input :
      (client_id : String) → (String × String × String) → ℕ → ConsumeCodeInput
  consume_input client_id sent now = record {
    client_id = client_id;
    code_hash = texts.sha256_hex sent.0;
    redirect_uri = sent.1;
    now = now;
  }

  abbrev pub exchange_consumed :
      OAuthTables
      → Drawn
      → (client_id code_verifier : String) → Option String
      → (now : ℕ) → Option Code
      → Answer
  exchange_consumed db drawn client_id code_verifier requested_scope now none =
      (err invalid_grant, db)
  exchange_consumed db drawn client_id code_verifier requested_scope now (some c) =
      issue_or_refuse db drawn client_id c.user_id c.tenant_id
        (check_code c code_verifier requested_scope) now

  unfoldable pub exchange_code :
      OAuthTables
      → Drawn
      → (client_id : String) → (String × String × String)
      → Option String
      → (now : ℕ) → Answer
  exchange_code db drawn client_id sent requested_scope now =
      let consumed = consume_code db.codes (consume_input client_id sent now) in
      exchange_consumed (record db { codes = consumed.1 }) drawn client_id sent.2 requested_scope
        now consumed.0

  abbrev pub exchange_or_refuse :
      OAuthTables
      → Drawn
      → (client_id : String) → Result TokenRefusal (String × String × String)
      → Option String
      → (now : ℕ) → Answer
  exchange_or_refuse db drawn client_id (err e) requested_scope now = (err e, db)
  exchange_or_refuse db drawn client_id (ok sent) requested_scope now =
      exchange_code db drawn client_id sent requested_scope now

  abbrev pub requested_or : List String → Option String → List String
  requested_or granted none = granted
  requested_or granted (some scope) = split_space_delimited texts scope

  abbrev pub refresh_input : (client_id refresh_token : String) → ℕ → TokenInput
  refresh_input client_id refresh_token now = record {
    client_id = client_id;
    token_hash = texts.sha256_hex refresh_token;
    now = now;
  }

  abbrev pub refresh_consumed :
      OAuthTables → Drawn → (client_id : String) → Option String → (now : ℕ) → Option Token → Answer
  refresh_consumed db drawn client_id requested_scope now none = (err invalid_grant, db)
  refresh_consumed db drawn client_id requested_scope now (some t) =
      let granted = split_space_delimited texts t.scope in
      issue_or_refuse db drawn client_id t.user_id t.tenant_id
        (check_scopes (requested_or granted requested_scope) granted) now

  unfoldable pub exchange_refresh_token :
      OAuthTables
      → Drawn
      → (client_id : String) → Option String
      → Option String
      → (now : ℕ) → Answer
  exchange_refresh_token db drawn client_id none requested_scope now = (err invalid_request, db)
  exchange_refresh_token db drawn client_id (some refresh_token) requested_scope now =
      let consumed =
        consume_refresh_token db.refresh_tokens (refresh_input client_id refresh_token now) in
      refresh_consumed (record db { refresh_tokens = consumed.1 }) drawn client_id requested_scope
        now consumed.0

  -- `force_refresh` is the refresh endpoint, where the grant type may be left out.
  unfoldable pub handle_oauth_token_request :
      OAuthTables
      → Drawn
      → (client_id : String) → TokenRequest
      → (force_refresh : Bool) → (now : ℕ) → Answer
  handle_oauth_token_request db drawn client_id r force_refresh now =
      let grant_type =
        if force_refresh then some (or_else r.grant_type "refresh_token") else r.grant_type in
      if is_text grant_type "authorization_code"
      then exchange_or_refuse db drawn client_id (code_request r) r.scope now
      else if is_text grant_type "refresh_token"
      then exchange_refresh_token db drawn client_id r.refresh_token r.scope now
      else if force_refresh && (is_some r.grant_type && not (is_text r.grant_type "refresh_token"))
      then (err invalid_request, db)
      else (err unsupported_grant_type, db)
