-- ===== src/OAuth/Tests.antt =====
-- One client's code and tokens, and the instances of the theorems.
use cred_trail.Prelude.{◌≡◌, refl, true, false, none, some, List, [], ◌∷◌, String, ok}
use cred_trail.OAuth.{
  Code, create_token, use_code, consume_code, revoke_at, consume_refresh_token,
  find_active_access_token, Token, OAuthTables, ConsumeCodeInput, TokenInput,
}
use cred_trail.OAuth.Once.{
  insert_code, execute, execute_all, consume_code-once, consume_refresh_token-once,
  revoke_access-final, OAuthStatement, consume_a_code, consume_a_refresh, revoke_access,
}
use cred_trail.OAuth.Endpoint.{
  new_token, access_row, refresh_row, issue_tokens, code_request, check_code, exchange_code,
  handle_oauth_token_request, Texts, TokenRequest, Drawn, IssuedTokens,
}
use cred_trail.OAuth.Earned.{IsPaidOut, exchange_code-HasEarned, HasEarned}

abbrev plain : Texts
plain = record {
  sha256_hex = λ s. s;
  sha256_base64url = λ s. s;
  is_pkce_code_verifier = λ s. true;
  words = λ s. s ∷ [];
}

abbrev readonly : String
readonly = "https://purl.imsglobal.org/spec/ob/v3p0/scope/credential.readonly"

abbrev code : Code
code = record {
  id = "1";
  client_id = "c";
  user_id = "u";
  tenant_id = "t";
  code_hash = "secret";
  redirect_uri = "uri";
  scope = readonly;
  code_challenge = some "verifier";
  code_challenge_method = some "S256";
  expires_at = 10;
  used_at = none;
  created_at = 0;
}

abbrev token : Token
token = new_token "2" "c" "u" "t" "old" readonly 10 0

abbrev tables : OAuthTables
tables = record { codes = code ∷ []; access_tokens = token ∷ []; refresh_tokens = token ∷ [] }

abbrev code_input : ConsumeCodeInput
code_input = record { client_id = "c"; code_hash = "secret"; redirect_uri = "uri"; now = 5 }

abbrev token_input : TokenInput
token_input = record { client_id = "c"; token_hash = "old"; now = 5 }

abbrev in_between : List OAuthStatement
in_between = insert_code (record code { id = "3"; code_hash = "new" }) ∷ []

code_consumed : (consume_code tables.codes code_input).0 ≡ some (use_code code_input code)
unfolding consume_code
code_consumed = refl

refresh_consumed :
    (consume_refresh_token tables.refresh_tokens token_input).0 ≡ some (revoke_at 5 token)
unfolding consume_refresh_token
refresh_consumed = refl

consume_code-once_example :
    (consume_code
      (execute_all in_between (execute (consume_a_code code_input) tables)).codes
      (record code_input { now = 6 })).0
    ≡ none
consume_code-once_example =
    consume_code-once tables code_input (record code_input { now = 6 }) (use_code code_input code)
      in_between (tt, tt) code_consumed refl

consume_refresh_token-once_example :
    (consume_refresh_token
      (execute_all in_between (execute (consume_a_refresh token_input) tables)).refresh_tokens
      (record token_input { now = 6 })).0
    ≡ none
consume_refresh_token-once_example =
    consume_refresh_token-once tables token_input (record token_input { now = 6 })
      (revoke_at 5 token) in_between (tt, tt) refresh_consumed refl

revoke_access-final_example :
    find_active_access_token
      (execute_all in_between (execute (revoke_access token_input) tables)).access_tokens
      "old"
      6
    ≡ none
revoke_access-final_example =
    revoke_access-final tables token_input token in_between 6 (tt, tt) refl

abbrev drawn : Drawn
drawn = record { access_token = "a"; refresh_token = "r"; access_id = "4"; refresh_id = "5" }

abbrev code_form : TokenRequest
code_form = record {
  grant_type = some "authorization_code";
  code = some "secret";
  redirect_uri = some "uri";
  code_verifier = some "verifier";
  scope = some readonly;
  refresh_token = none;
}

abbrev answer : IssuedTokens
answer = record { access_token = "a"; refresh_token = "r"; expires_in = 3600; scope = readonly }

abbrev after_code : OAuthTables
after_code = record {
  codes = use_code code_input code ∷ [];
  access_tokens = token ∷ access_row plain drawn "c" "u" "t" readonly 5 ∷ [];
  refresh_tokens = token ∷ refresh_row plain drawn "c" "u" "t" readonly 5 ∷ [];
}

code_answered :
    handle_oauth_token_request plain tables drawn "c" code_form false 5 ≡ (ok answer, after_code)
unfolding handle_oauth_token_request code_request exchange_code consume_code check_code issue_tokens
    create_token
code_answered = refl

exchange_code-HasEarned_example :
    (sent : String) × (redirect_uri : String) × (code_verifier : String) × (row : Code)
    × (scopes : List String) × (code_form.code ≡ some sent)
    × (code_form.redirect_uri ≡ some redirect_uri)
    × (code_form.code_verifier ≡ some code_verifier)
    × HasEarned plain tables "c" sent redirect_uri code_verifier scopes 5 after_code row
    × IsPaidOut plain tables drawn "c" row.user_id row.tenant_id scopes 5 answer after_code
exchange_code-HasEarned_example =
    exchange_code-HasEarned plain tables drawn "c" code_form 5 answer after_code refl code_answered

abbrev after_refresh : OAuthTables
after_refresh = record {
  codes = code ∷ [];
  access_tokens = token ∷ access_row plain drawn "c" "u" "t" readonly 5 ∷ [];
  refresh_tokens = revoke_at 5 token ∷ refresh_row plain drawn "c" "u" "t" readonly 5 ∷ [];
}
