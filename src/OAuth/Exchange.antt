-- ===== src/OAuth/Exchange.antt =====
-- An answer of the token endpoint with tokens, taken apart along the steps of the code.
use cred_trail.Prelude.{
  ℕ, ◌≡◌, refl, sym, ap, subst, ◌∙◌, Bool, true, false, not, ◌||◌, Option, none, some, List, [],
  ◌∷◌, ◌++◌, arith, String, str_eq, eq_iff, ◌==◌, if-elim, some-inj, none≢some, length, any, Result,
  err≢ok, ok-inj, throw_if-ok, or_throw-ok, ok, err,
}
use cred_trail.OAuth.Endpoint.{
  is_subset, all_scopes_supported, join_words, access_row, refresh_row, issue_tokens, check_scopes,
  Texts, Drawn, IssuedTokens, invalid_scope, with_access, split_space_delimited, is_text,
  code_request, check_code, issue_or_refuse, consume_input, exchange_consumed, exchange_code,
  exchange_or_refuse, requested_or, refresh_input, refresh_consumed, exchange_refresh_token,
  handle_oauth_token_request, TokenRequest, TokenRefusal, invalid_request, invalid_grant,
  access_token_ttl_seconds,
}
use cred_trail.OAuth.{
  has_token_hash, create_token, Token, OAuthTables, consume_code, consume_refresh_token, Code,
}

create_token-some :
    (tokens : List Token) (new : Token) (after : List Token)
    → create_token tokens new ≡ some after
    → after ≡ tokens ++ new ∷ []
unfolding create_token
create_token-some tokens new after =
    if-elim (λ o. o ≡ some after → after ≡ tokens ++ new ∷ [])
      (any (λ t. str_eq t.id new.id || has_token_hash new.token_hash t) tokens)
      (λ e h. absurd (none≢some h)) (λ e h. sym (some-inj (tokens ++ new ∷ []) after h))

-- The tokens of an answer.
abbrev pub issued : Drawn → (scope : String) → IssuedTokens
issued drawn scope = record {
  access_token = drawn.access_token;
  refresh_token = drawn.refresh_token;
  expires_in = access_token_ttl_seconds;
  scope = scope;
}

or_none : (a b c : Bool) → (a || (not b || not c)) ≡ false → (b ≡ true) × (c ≡ true)
or_none a b c h = ground arith

with_access-ok :
    (db : OAuthTables) (drawn : Drawn) (scope : String) (first second : Option (List Token))
    (t : IssuedTokens) (after : OAuthTables)
    → with_access db drawn scope first second ≡ (ok t, after)
    → (access_tokens refresh_tokens : List Token) × (first ≡ some access_tokens)
      × (second ≡ some refresh_tokens)
      × (t ≡ issued drawn scope)
      × (after ≡ record db { access_tokens = access_tokens; refresh_tokens = refresh_tokens })
with_access-ok db drawn scope none second t after h = absurd (err≢ok (ap (λ x. x.0) h))
with_access-ok db drawn scope (some a) none t after h = absurd (err≢ok (ap (λ x. x.0) h))
with_access-ok db drawn scope (some a) (some r) t after h =
    (a, r, refl, refl, sym (ok-inj (issued drawn scope) t (ap (λ x. x.0) h)), sym (ap (λ x. x.1) h))

module _ (texts : Texts) where
  -- The tokens of an answer: their scopes, and the two rows.
  abbrev pub IsIssued :
      OAuthTables
      → Drawn
      → (client_id user_id tenant_id : String) → List String
      → ℕ
      → IssuedTokens
      → OAuthTables
      → Type 0
  IsIssued db drawn client_id user_id tenant_id scopes now t after =
      (t ≡ issued drawn (join_words scopes))
      × (after.codes ≡ db.codes)
      × (after.access_tokens
          ≡ db.access_tokens
            ++ access_row texts drawn client_id user_id tenant_id (join_words scopes) now ∷ [])
      × (after.refresh_tokens
          ≡ db.refresh_tokens
            ++ refresh_row texts drawn client_id user_id tenant_id (join_words scopes) now ∷ [])

  issue_tokens-IsIssued :
      (db : OAuthTables) (drawn : Drawn) (client_id user_id tenant_id : String)
      (scopes : List String) (now : ℕ) (t : IssuedTokens) (after : OAuthTables)
      → issue_tokens texts db drawn client_id user_id tenant_id scopes now ≡ (ok t, after)
      → IsIssued db drawn client_id user_id tenant_id scopes now t after
  unfolding issue_tokens
  issue_tokens-IsIssued db drawn client_id user_id tenant_id scopes now t after h =
      let scope = join_words scopes in
      let access = access_row texts drawn client_id user_id tenant_id scope now in
      let refresh = refresh_row texts drawn client_id user_id tenant_id scope now in
      let (a, r, ea, er, es, same) =
        with_access-ok db drawn scope (create_token db.access_tokens access)
          (create_token db.refresh_tokens refresh) t after h in
      (
        es,
        ap (λ d. d.codes) same,
        ap (λ d. d.access_tokens) same ∙ create_token-some db.access_tokens access a ea,
        ap (λ d. d.refresh_tokens) same ∙ create_token-some db.refresh_tokens refresh r er,
      )

  check_scopes-ok :
      (requested granted scopes : List String)
      → check_scopes requested granted ≡ ok scopes
      → (requested ≡ scopes)
        × (all_scopes_supported scopes ≡ true)
        × (is_subset scopes granted ≡ true)
  check_scopes-ok requested granted scopes h =
      let (e, k) =
        throw_if-ok
          ((length requested == 0)
            || (not (all_scopes_supported requested) || not (is_subset requested granted)))
          invalid_scope _ scopes h in
      let same = ok-inj requested scopes k in
      let both =
        or_none (length requested == 0) (all_scopes_supported requested)
          (is_subset requested granted) e in
      (
        same,
        subst (λ s. all_scopes_supported s ≡ true) same both.0,
        subst (λ s. is_subset s granted ≡ true) same both.1,
      )

  issue_or_refuse-ok :
      (db : OAuthTables) (drawn : Drawn) (client_id user_id tenant_id : String)
      (checked : Result TokenRefusal (List String)) (now : ℕ) (t : IssuedTokens)
      (after : OAuthTables)
      → issue_or_refuse texts db drawn client_id user_id tenant_id checked now ≡ (ok t, after)
      → (scopes : List String) × (checked ≡ ok scopes)
        × IsIssued db drawn client_id user_id tenant_id scopes now t after
  issue_or_refuse-ok db drawn client_id user_id tenant_id (err e) now t after h =
      absurd (err≢ok (ap (λ x. x.0) h))
  issue_or_refuse-ok db drawn client_id user_id tenant_id (ok scopes) now t after h = (
    scopes,
    refl,
    issue_tokens-IsIssued db drawn client_id user_id tenant_id scopes now t after h,
  )

  -- What the verifier and the scopes of a request must be for a code.
  abbrev pub IsEarned : Code → (code_verifier : String) → List String → Type 0
  IsEarned c code_verifier scopes =
      (c.code_challenge ≡ some (texts.sha256_base64url code_verifier))
      × (all_scopes_supported scopes ≡ true)
      × (is_subset scopes (split_space_delimited texts c.scope) ≡ true)

  negation_false : (b : Bool) → not b ≡ false → b ≡ true
  negation_false b h = ground arith

  check_code-IsEarned :
      (c : Code) (code_verifier : String) (requested : Option String) (scopes : List String)
      → check_code texts c code_verifier requested ≡ ok scopes
      → IsEarned c code_verifier scopes
  unfolding check_code
  check_code-IsEarned c code_verifier requested scopes h =
      let (challenge, bound, h1) = or_throw-ok c.code_challenge invalid_grant _ scopes h in
      let (_, h2) =
        throw_if-ok (not (is_text c.code_challenge_method "S256")) invalid_grant _ scopes h1 in
      let (proved, h3) =
        throw_if-ok (not (str_eq (texts.sha256_base64url code_verifier) challenge)) invalid_grant _
          scopes h2 in
      let (scope, _, h4) = or_throw-ok requested invalid_request _ scopes h3 in
      let (_, supported, within) =
        check_scopes-ok (split_space_delimited texts scope) (split_space_delimited texts c.scope)
          scopes h4 in
      (
        bound
            ∙ ap some (
                sym (
                  (eq_iff (texts.sha256_base64url code_verifier) challenge).0 (
                    negation_false (str_eq (texts.sha256_base64url code_verifier) challenge)
                      proved))),
        supported,
        within,
      )

  exchange_consumed-ok :
      (db : OAuthTables) (drawn : Drawn) (client_id code_verifier : String)
      (requested : Option String) (now : ℕ) (o : Option Code) (t : IssuedTokens)
      (after : OAuthTables)
      → exchange_consumed texts db drawn client_id code_verifier requested now o ≡ (ok t, after)
      → (c : Code) × (scopes : List String) × (o ≡ some c)
        × IsEarned c code_verifier scopes
        × IsIssued db drawn client_id c.user_id c.tenant_id scopes now t after
  exchange_consumed-ok db drawn client_id code_verifier requested now none t after h =
      absurd (err≢ok (ap (λ x. x.0) h))
  exchange_consumed-ok db drawn client_id code_verifier requested now (some c) t after h =
      let (scopes, checked, issued) =
        issue_or_refuse-ok db drawn client_id c.user_id c.tenant_id
          (check_code texts c code_verifier requested) now t after h in
      (c, scopes, refl, check_code-IsEarned c code_verifier requested scopes checked, issued)

  exchange_or_refuse-ok :
      (db : OAuthTables) (drawn : Drawn) (client_id : String)
      (checked : Result TokenRefusal (String × String × String)) (requested : Option String)
      (now : ℕ) (t : IssuedTokens) (after : OAuthTables)
      → exchange_or_refuse texts db drawn client_id checked requested now ≡ (ok t, after)
      → (sent : String × String × String) × (checked ≡ ok sent)
        × (exchange_code texts db drawn client_id sent requested now ≡ (ok t, after))
  exchange_or_refuse-ok db drawn client_id (err e) requested now t after h =
      absurd (err≢ok (ap (λ x. x.0) h))
  exchange_or_refuse-ok db drawn client_id (ok sent) requested now t after h = (sent, refl, h)

  pub code_exchanged :
      (db : OAuthTables) (drawn : Drawn) (client_id : String) (r : TokenRequest) (now : ℕ)
      (t : IssuedTokens) (after : OAuthTables)
      → is_text r.grant_type "authorization_code" ≡ true
      → handle_oauth_token_request texts db drawn client_id r false now ≡ (ok t, after)
      → (c : Code) × (scopes : List String) × (sent : String × String × String) × (code_request
            texts r
          ≡ ok sent)
        × ((consume_code db.codes (consume_input texts client_id sent now)).0 ≡ some c)
        × IsEarned c sent.2 scopes
        × IsIssued
            (record db {
              codes = (consume_code db.codes (consume_input texts client_id sent now)).1;
            })
            drawn
            client_id
            c.user_id
            c.tenant_id
            scopes
            now
            t
            after
  unfolding handle_oauth_token_request exchange_code
  code_exchanged db drawn client_id r now t after grant h =
      let (sent, checked, exchanged) =
        exchange_or_refuse-ok db drawn client_id (code_request texts r) r.scope now t after
          (rw (grant) at h) in
      let consumed = consume_code db.codes (consume_input texts client_id sent now) in
      let (c, scopes, found, earned, issued) =
        exchange_consumed-ok (record db { codes = consumed.1 }) drawn client_id sent.2 r.scope now
          consumed.0 t after exchanged in
      (c, scopes, sent, checked, found, earned, issued)

  refresh_consumed-ok :
      (db : OAuthTables) (drawn : Drawn) (client_id : String) (requested : Option String) (now : ℕ)
      (o : Option Token) (t : IssuedTokens) (after : OAuthTables)
      → refresh_consumed texts db drawn client_id requested now o ≡ (ok t, after)
      → (old : Token) × (scopes : List String) × (o ≡ some old)
        × (is_subset scopes (split_space_delimited texts old.scope) ≡ true)
        × IsIssued db drawn client_id old.user_id old.tenant_id scopes now t after
  refresh_consumed-ok db drawn client_id requested now none t after h =
      absurd (err≢ok (ap (λ x. x.0) h))
  refresh_consumed-ok db drawn client_id requested now (some old) t after h =
      let granted = split_space_delimited texts old.scope in
      let (scopes, checked, issued) =
        issue_or_refuse-ok db drawn client_id old.user_id old.tenant_id
          (check_scopes (requested_or texts granted requested) granted) now t after h in
      let (_, _, within) =
        check_scopes-ok (requested_or texts granted requested) granted scopes checked in
      (old, scopes, refl, within, issued)

  pub refresh_token_exchanged :
      (db : OAuthTables) (drawn : Drawn) (client_id refresh_token : String)
      (requested : Option String) (now : ℕ) (t : IssuedTokens) (after : OAuthTables)
      → exchange_refresh_token texts db drawn client_id (some refresh_token) requested now
        ≡ (ok t, after)
      → (old : Token) × (scopes : List String) × ((consume_refresh_token db.refresh_tokens
            (refresh_input texts client_id refresh_token now)).0
          ≡ some old)
        × (is_subset scopes (split_space_delimited texts old.scope) ≡ true)
        × IsIssued
            (record db {
              refresh_tokens =
                  (consume_refresh_token db.refresh_tokens
                    (refresh_input texts client_id refresh_token now)).1;
            })
            drawn
            client_id
            old.user_id
            old.tenant_id
            scopes
            now
            t
            after
  unfolding exchange_refresh_token
  refresh_token_exchanged db drawn client_id refresh_token requested now t after h =
      let consumed =
        consume_refresh_token db.refresh_tokens (refresh_input texts client_id refresh_token now) in
      refresh_consumed-ok (record db { refresh_tokens = consumed.1 }) drawn client_id requested now
        consumed.0 t after h
