-- ===== src/OAuth/Earned.antt =====
-- What the token endpoint issues, against the rows of the codes and of the refresh tokens.
use cred_trail.Prelude.{
  ℕ, ◌+◌, ◌<◌, ◌≡◌, refl, sym, ap, subst, ◌∙◌, Bool, true, false, not, ◌&&◌, false≢true, Option,
  none, some, List, [], ◌∷◌, ◌++◌, Memᴰ, arith, String, str_eq, eq_iff, ltb, ltb→lt, is_some,
  update-Memᴰ, returning-row, all-Memᴰ, has-Memᴰ, has, All, ok-inj, throw_if-ok, or_throw-ok, ok,
}
use cred_trail.OAuth.Endpoint.{
  IssuedTokens, supported_scopes, is_subset, split_space_delimited, join_words, is_text, access_row,
  refresh_row, code_request, consume_input, handle_oauth_token_request, Texts, TokenRequest, Drawn,
  invalid_request,
}
use cred_trail.OAuth.{
  is_used, is_consumable, use_code, consume_code, Code, Token, OAuthTables, ConsumeCodeInput,
}
use cred_trail.OAuth.Exchange.{IsIssued, code_exchanged}

-- A token of the client for the user and the tenant, with the hash, the scope and the end.
abbrev pub IsTokenFor :
    (client_id user_id tenant_id hash scope : String) → (expires_at : ℕ) → Token → Type 0
IsTokenFor client_id user_id tenant_id hash scope expires_at t =
    (t.client_id ≡ client_id)
    × (t.user_id ≡ user_id)
    × (t.tenant_id ≡ tenant_id)
    × (t.token_hash ≡ hash)
    × (t.scope ≡ scope)
    × (t.expires_at ≡ expires_at)
    × (t.revoked_at ≡ none)

-- A code of the client for the redirect URI, not used and not over.
abbrev pub IsOpenCode : (client_id hash redirect_uri : String) → (now : ℕ) → Code → Type 0
IsOpenCode client_id hash redirect_uri now c =
    (c.client_id ≡ client_id)
    × (c.code_hash ≡ hash)
    × (c.redirect_uri ≡ redirect_uri)
    × (c.used_at ≡ none)
    × (now < c.expires_at)

-- A token of the client, not revoked and not over.
abbrev pub IsOpenToken : (client_id hash : String) → (now : ℕ) → Token → Type 0
IsOpenToken client_id hash now t =
    (t.client_id ≡ client_id) × (t.token_hash ≡ hash) × (t.revoked_at ≡ none) × (now < t.expires_at)

code_parts :
    (h c r u l : Bool)
    → (h && ((c && r) && (not u && l))) ≡ true
    → (h ≡ true) × (c ≡ true) × (r ≡ true) × (u ≡ false) × (l ≡ true)
code_parts h c r u l e = ground arith

unset : (o : Option ℕ) → is_some o ≡ false → o ≡ none
unset none h = refl
unset (some x) h = absurd (false≢true (sym h))

consumed_code :
    (codes : List Code) (input : ConsumeCodeInput) (c : Code)
    → (consume_code codes input).0 ≡ some c
    → (row : Code) × Memᴰ row codes
      × IsOpenCode input.client_id input.code_hash input.redirect_uri input.now row
      × (c ≡ record row { used_at = some input.now })
      × Memᴰ (record row { used_at = some input.now }) (consume_code codes input).1
unfolding consume_code
consumed_code codes input c h =
    let (row, there, k, same) = returning-row (is_consumable input) (use_code input) codes c h in
    let (hash, client, uri, fresh, open_yet) =
      code_parts (str_eq row.code_hash input.code_hash) (str_eq row.client_id input.client_id)
        (str_eq row.redirect_uri input.redirect_uri) (is_used row) (ltb input.now row.expires_at)
        k in
    (
      row,
      there,
      (
        (eq_iff row.client_id input.client_id).0 client,
        (eq_iff row.code_hash input.code_hash).0 hash,
        (eq_iff row.redirect_uri input.redirect_uri).0 uri,
        unset row.used_at fresh,
        ltb→lt input.now row.expires_at open_yet,
      ),
      same,
      update-Memᴰ (is_consumable input) (use_code input) codes row there k,
    )

subset-Memᴰ :
    (subset superset : List String)
    → is_subset subset superset ≡ true
    → All (λ s. Memᴰ s superset) subset
subset-Memᴰ subset superset h =
    all-Memᴰ (λ s. has s superset) (λ s. Memᴰ s superset) subset (λ s. (has-Memᴰ s superset).0) h

module _ (texts : Texts) where
  -- One access token for an hour and one refresh token for thirty days are written, and answered.
  abbrev pub IsPaidOut :
      OAuthTables
      → Drawn
      → (client_id user_id tenant_id : String) → List String
      → ℕ
      → IssuedTokens
      → OAuthTables
      → Type 0
  IsPaidOut before drawn client_id user_id tenant_id scopes now t after =
      (t.access_token ≡ drawn.access_token)
      × (t.refresh_token ≡ drawn.refresh_token)
      × (t.scope ≡ join_words scopes)
      × (a : Token) × (after.access_tokens ≡ before.access_tokens ++ a ∷ [])
      × IsTokenFor client_id user_id tenant_id (texts.sha256_hex drawn.access_token)
          (join_words scopes) (now + 3600000) a
      × (r : Token) × (after.refresh_tokens ≡ before.refresh_tokens ++ r ∷ [])
      × IsTokenFor client_id user_id tenant_id (texts.sha256_hex drawn.refresh_token)
          (join_words scopes) (now + 2592000000) r

  issued-IsPaidOut :
      (before : OAuthTables) (drawn : Drawn) (client_id user_id tenant_id : String)
      (scopes : List String) (now : ℕ) (t : IssuedTokens) (after : OAuthTables)
      → IsIssued texts before drawn client_id user_id tenant_id scopes now t after
      → IsPaidOut before drawn client_id user_id tenant_id scopes now t after
  issued-IsPaidOut before drawn client_id user_id tenant_id scopes now t after (e, c, a, r) = (
    ap (λ (x : IssuedTokens). x.access_token) e,
    ap (λ (x : IssuedTokens). x.refresh_token) e,
    ap (λ (x : IssuedTokens). x.scope) e,
    access_row texts drawn client_id user_id tenant_id (join_words scopes) now,
    a,
    (refl, refl, refl, refl, refl, refl, refl),
    refresh_row texts drawn client_id user_id tenant_id (join_words scopes) now,
    r,
    (refl, refl, refl, refl, refl, refl, refl),
  )

  -- The code of a request has earned its tokens, and is spent.
  abbrev pub HasEarned :
      OAuthTables
      → (client_id code redirect_uri code_verifier : String) → List String
      → ℕ
      → OAuthTables
      → Code
      → Type 0
  HasEarned db client_id code redirect_uri code_verifier scopes now after row =
      Memᴰ row db.codes
      × IsOpenCode client_id (texts.sha256_hex code) redirect_uri now row
      × Memᴰ (record row { used_at = some now }) after.codes
      × (row.code_challenge ≡ some (texts.sha256_base64url code_verifier))
      × All (λ s. Memᴰ s supported_scopes) scopes
      × All (λ s. Memᴰ s (split_space_delimited texts row.scope)) scopes

  request_sent :
      (r : TokenRequest) (sent : String × String × String)
      → code_request texts r ≡ ok sent
      → (r.code ≡ some sent.0) × (r.redirect_uri ≡ some sent.1) × (r.code_verifier ≡ some sent.2)
  unfolding code_request
  request_sent r sent h =
      let (code, e, h1) = or_throw-ok r.code invalid_request _ sent h in
      let (redirect_uri, f, h2) = or_throw-ok r.redirect_uri invalid_request _ sent h1 in
      let (code_verifier, g, h3) = or_throw-ok r.code_verifier invalid_request _ sent h2 in
      let (_, h4) = throw_if-ok (str_eq code_verifier "") invalid_request _ sent h3 in
      let (_, h5) =
        throw_if-ok (not (texts.is_pkce_code_verifier code_verifier)) invalid_request _ sent h4 in
      let same = ok-inj (code, redirect_uri, code_verifier) sent h5 in
      (e ∙ ap (λ x. some x.0) same, f ∙ ap (λ x. some x.1) same, g ∙ ap (λ x. some x.2) same)

  -- Where the token endpoint answers a code with tokens: the table of codes had a row of the client
  -- with the code's hash and the redirect URI, unused and not yet over, whose challenge is the hash of
  -- the verifier, and has it marked as used afterwards; the scopes are supported and are scopes of the
  -- row; and what was written is one access token and one refresh token, not revoked, for the
  -- client and for the row's own user and tenant, with these scopes.
  pub exchange_code-HasEarned :
      (db : OAuthTables) (drawn : Drawn) (client_id : String) (r : TokenRequest) (now : ℕ)
      (t : IssuedTokens) (after : OAuthTables)
      → is_text r.grant_type "authorization_code" ≡ true
      → handle_oauth_token_request texts db drawn client_id r false now ≡ (ok t, after)
      → (code : String) × (redirect_uri : String) × (code_verifier : String) × (row : Code)
        × (scopes : List String) × (r.code ≡ some code)
        × (r.redirect_uri ≡ some redirect_uri)
        × (r.code_verifier ≡ some code_verifier)
        × HasEarned db client_id code redirect_uri code_verifier scopes now after row
        × IsPaidOut db drawn client_id row.user_id row.tenant_id scopes now t after
  exchange_code-HasEarned db drawn client_id r now t after grant h =
      let (c, scopes, sent, asked, found, (challenge, supported, within), paid) =
        code_exchanged texts db drawn client_id r now t after grant h in
      let (row, there, open_yet, same, spent) =
        consumed_code db.codes (consume_input texts client_id sent now) c found in
      let (e, f, g) = request_sent r sent asked in
      (
        sent.0,
        sent.1,
        sent.2,
        row,
        scopes,
        e,
        f,
        g,
        (
          there,
          open_yet,
          subst (Memᴰ (record row { used_at = some now })) (sym paid.1) spent,
          ap (λ (x : Code). x.code_challenge) (sym same) ∙ challenge,
          subset-Memᴰ scopes supported_scopes supported,
          subset-Memᴰ scopes (split_space_delimited texts row.scope) (
              subst (λ (x : Code). is_subset scopes (split_space_delimited texts x.scope) ≡ true)
                same within),
        ),
        subst (λ (x : Code). IsPaidOut db drawn client_id x.user_id x.tenant_id scopes now t after)
            same
            (issued-IsPaidOut
              (record db {
                codes = (consume_code db.codes (consume_input texts client_id sent now)).1;
              })
              drawn client_id c.user_id c.tenant_id scopes now t after paid),
      )
