-- ===== src/OAuth/Once.antt =====
-- Codes and tokens under the statements of other requests: each SQL statement is atomic, and the
-- statements of all requests stand in one order.
use cred_trail.Prelude.{
  ℕ, ◌≡◌, refl, sym, ap, subst, ◌∙◌, inl, inr, Bool, true, false, not, ◌&&◌, ◌||◌, false≢true,
  Option, none, some, List, [], ◌∷◌, arith, String, str_eq, eq_iff, ltb, Bool-cases, if-elim,
  and_left, IsMarked, IsUnique, returning-IsMarked, update-IsMarked, insert-IsMarked, IsMarked-find,
  any, find, or_back, any-weaken,
}
use cred_trail.OAuth.{
  Code, has_code_hash, has_token_hash, is_used, is_revoked_token, create_code, create_token,
  consume_code, consume_refresh_token, revoke_token_by_hash, Token, OAuthTables, ConsumeCodeInput,
  TokenInput, is_consumable, use_code, is_usable, revoke_at, is_of_client, coalesce_revoked,
  is_live, find_active_access_token,
}

pub data OAuthStatement : Type 0 where
  insert_code : Code → OAuthStatement
  insert_access insert_refresh : Token → OAuthStatement
  consume_a_code : ConsumeCodeInput → OAuthStatement
  consume_a_refresh revoke_access revoke_refresh : TokenInput → OAuthStatement

abbrev pub rows_or {ℓ} : {A : Type ℓ} → List A → Option (List A) → List A
rows_or rows none = rows
rows_or rows (some after) = after

abbrev pub execute : OAuthStatement → OAuthTables → OAuthTables
execute (insert_code c) db = record db { codes = rows_or db.codes (create_code db.codes c) }
execute (insert_access t) db = record db {
  access_tokens = rows_or db.access_tokens (create_token db.access_tokens t);
}
execute (insert_refresh t) db = record db {
  refresh_tokens = rows_or db.refresh_tokens (create_token db.refresh_tokens t);
}
execute (consume_a_code input) db = record db { codes = (consume_code db.codes input).1 }
execute (consume_a_refresh input) db = record db {
  refresh_tokens = (consume_refresh_token db.refresh_tokens input).1;
}
execute (revoke_access input) db = record db {
  access_tokens = revoke_token_by_hash db.access_tokens input;
}
execute (revoke_refresh input) db = record db {
  refresh_tokens = revoke_token_by_hash db.refresh_tokens input;
}

unfoldable pub execute_all : List OAuthStatement → OAuthTables → OAuthTables
execute_all [] db = db
execute_all (s ∷ ss) db = execute_all ss (execute s db)

-- The marks of one code and of one token.
abbrev pub IsSpent : String → List Code → Type 0
IsSpent hash codes = IsMarked (has_code_hash hash) is_used codes

abbrev pub IsDead : String → List Token → Type 0
IsDead hash tokens = IsMarked (has_token_hash hash) is_revoked_token tokens

-- A row that the UNIQUE columns accept is of another key than the rows that are there.
new_code-other :
    (hash : String) (codes : List Code) (new : Code)
    → any (has_code_hash hash) codes ≡ true
    → any (λ c. str_eq c.id new.id || has_code_hash new.code_hash c) codes ≡ false
    → has_code_hash hash new ≡ false
new_code-other hash codes new there e = elim (Bool-cases (has_code_hash hash new)) [
  | inl own ↦
      let clash =
        any-weaken (has_code_hash hash) (λ c. str_eq c.id new.id || has_code_hash new.code_hash c)
          codes
          (λ c h.
            or_back (str_eq c.id new.id) (has_code_hash new.code_hash c)
              (subst (λ k. has_code_hash k c ≡ true) (sym ((eq_iff new.code_hash hash).0 own)) h))
          there in
      absurd (false≢true (sym e ∙ clash))
  | inr other ↦ other
]

new_token-other :
    (hash : String) (tokens : List Token) (new : Token)
    → any (has_token_hash hash) tokens ≡ true
    → any (λ t. str_eq t.id new.id || has_token_hash new.token_hash t) tokens ≡ false
    → has_token_hash hash new ≡ false
new_token-other hash tokens new there e = elim (Bool-cases (has_token_hash hash new)) [
  | inl own ↦
      let clash =
        any-weaken (has_token_hash hash)
          (λ t. str_eq t.id new.id || has_token_hash new.token_hash t) tokens
          (λ t h.
            or_back (str_eq t.id new.id) (has_token_hash new.token_hash t)
              (subst (λ k. has_token_hash k t ≡ true) (sym ((eq_iff new.token_hash hash).0 own)) h))
          there in
      absurd (false≢true (sym e ∙ clash))
  | inr other ↦ other
]

create_code-IsSpent :
    (hash : String) (codes : List Code) (new : Code)
    → IsSpent hash codes
    → IsSpent hash (rows_or codes (create_code codes new))
unfolding create_code
create_code-IsSpent hash codes new spent =
    if-elim (λ o. IsSpent hash (rows_or codes o))
      (any (λ c. str_eq c.id new.id || has_code_hash new.code_hash c) codes) (λ e. spent)
      (λ e.
        insert-IsMarked (has_code_hash hash) is_used codes new
          (new_code-other hash codes new spent.0 e) spent)

create_token-IsDead :
    (hash : String) (tokens : List Token) (new : Token)
    → IsDead hash tokens
    → IsDead hash (rows_or tokens (create_token tokens new))
unfolding create_token
create_token-IsDead hash tokens new dead =
    if-elim (λ o. IsDead hash (rows_or tokens o))
      (any (λ t. str_eq t.id new.id || has_token_hash new.token_hash t) tokens) (λ e. dead)
      (λ e.
        insert-IsMarked (has_token_hash hash) is_revoked_token tokens new
          (new_token-other hash tokens new dead.0 e) dead)

execute_all-IsSpent :
    (hash : String) (ss : List OAuthStatement) (db : OAuthTables)
    → IsSpent hash db.codes
    → IsSpent hash (execute_all ss db).codes
unfolding execute_all consume_code
execute_all-IsSpent hash [] db h = h
execute_all-IsSpent hash (s ∷ ss) db h =
    execute_all-IsSpent hash ss (execute s db) (elim s as (λ k. IsSpent hash (execute k db).codes) [
      | insert_code c ↦ create_code-IsSpent hash db.codes c h
      | consume_a_code input ↦
          update-IsMarked (has_code_hash hash) is_used (is_consumable input) (use_code input)
            db.codes (λ x. refl) (λ x u. refl) h
      | _ ↦ h
    ])

access_marked_later :
    (hash : String) (ss : List OAuthStatement) (db : OAuthTables)
    → IsDead hash db.access_tokens
    → IsDead hash (execute_all ss db).access_tokens
unfolding execute_all revoke_token_by_hash
access_marked_later hash [] db h = h
access_marked_later hash (s ∷ ss) db h =
    access_marked_later hash ss (execute s db)
      (elim s as (λ k. IsDead hash (execute k db).access_tokens) [
        | insert_access t ↦ create_token-IsDead hash db.access_tokens t h
        | revoke_access input ↦
            update-IsMarked (has_token_hash hash) is_revoked_token (is_of_client input)
              (coalesce_revoked input.now) db.access_tokens (λ x. refl) (λ x u. refl) h
        | _ ↦ h
      ])

refresh_marked_later :
    (hash : String) (ss : List OAuthStatement) (db : OAuthTables)
    → IsDead hash db.refresh_tokens
    → IsDead hash (execute_all ss db).refresh_tokens
unfolding execute_all revoke_token_by_hash consume_refresh_token
refresh_marked_later hash [] db h = h
refresh_marked_later hash (s ∷ ss) db h =
    refresh_marked_later hash ss (execute s db)
      (elim s as (λ k. IsDead hash (execute k db).refresh_tokens) [
        | insert_refresh t ↦ create_token-IsDead hash db.refresh_tokens t h
        | consume_a_refresh input ↦
            update-IsMarked (has_token_hash hash) is_revoked_token (is_usable input)
              (revoke_at input.now) db.refresh_tokens (λ x. refl) (λ x u. refl) h
        | revoke_refresh input ↦
            update-IsMarked (has_token_hash hash) is_revoked_token (is_of_client input)
              (coalesce_revoked input.now) db.refresh_tokens (λ x. refl) (λ x u. refl) h
        | _ ↦ h
      ])

unused : (a b c d : Bool) → (a && (b && (not c && d))) ≡ true → (a ≡ true) × (c ≡ false)
unused a b c d h = ground arith

live : (a c d : Bool) → (a && (not c && d)) ≡ true → (a ≡ true) × (c ≡ false)
live a c d h = ground arith

-- An authorization code that was consumed once is never consumed again: whatever statements are
-- executed in between, a later attempt with the same code, by any client, finds no row.
pub consume_code-once :
    (db : OAuthTables) (input again : ConsumeCodeInput) (c : Code) (ss : List OAuthStatement)
    → IsUnique (has_code_hash input.code_hash) db.codes
    → (consume_code db.codes input).0 ≡ some c
    → again.code_hash ≡ input.code_hash
    → (consume_code (execute_all ss (execute (consume_a_code input) db)).codes again).0 ≡ none
unfolding consume_code
consume_code-once db input again c ss unique e same =
    let hash = input.code_hash in
    let spent = execute_all-IsSpent hash ss (execute (consume_a_code input) db) (
      returning-IsMarked (has_code_hash hash) is_used (is_consumable input) (use_code input)
        db.codes c (λ x m. and_left (has_code_hash hash x) _ m) (λ x. refl) (λ x. refl) unique e) in
    let later = (execute_all ss (execute (consume_a_code input) db)).codes in
    ap (λ o. elim o [ none ↦ none | some r ↦ some (use_code again r) ])
      (IsMarked-find (has_code_hash hash) is_used (is_consumable again) later
        (λ x m.
          let both =
            unused (has_code_hash again.code_hash x)
              (str_eq x.client_id again.client_id && str_eq x.redirect_uri again.redirect_uri)
              (is_used x) (ltb again.now x.expires_at) m in
          (subst (λ k. has_code_hash k x ≡ true) same both.0, both.1))
        spent)

-- A refresh token that was consumed once is never consumed again.
pub consume_refresh_token-once :
    (db : OAuthTables) (input again : TokenInput) (t : Token) (ss : List OAuthStatement)
    → IsUnique (has_token_hash input.token_hash) db.refresh_tokens
    → (consume_refresh_token db.refresh_tokens input).0 ≡ some t
    → again.token_hash ≡ input.token_hash
    → (consume_refresh_token
        (execute_all ss (execute (consume_a_refresh input) db)).refresh_tokens
        again).0
      ≡ none
unfolding consume_refresh_token
consume_refresh_token-once db input again t ss unique e same =
    let hash = input.token_hash in
    let dead = refresh_marked_later hash ss (execute (consume_a_refresh input) db) (
      returning-IsMarked (has_token_hash hash) is_revoked_token (is_usable input)
        (revoke_at input.now) db.refresh_tokens t (λ x m. and_left (has_token_hash hash x) _ m)
        (λ x. refl) (λ x. refl) unique e) in
    let later = (execute_all ss (execute (consume_a_refresh input) db)).refresh_tokens in
    ap (λ o. elim o [ none ↦ none | some r ↦ some (revoke_at again.now r) ])
      (IsMarked-find (has_token_hash hash) is_revoked_token (is_usable again) later
        (λ x m.
          let both =
            unused (has_token_hash again.token_hash x) (str_eq x.client_id again.client_id)
              (is_revoked_token x) (ltb again.now x.expires_at) m in
          (subst (λ k. has_token_hash k x ≡ true) same both.0, both.1))
        dead)

-- An access token of the client that revokes it is never accepted again.
pub revoke_access-final :
    (db : OAuthTables) (input : TokenInput) (t : Token) (ss : List OAuthStatement) (now : ℕ)
    → IsUnique (has_token_hash input.token_hash) db.access_tokens
    → find (is_of_client input) db.access_tokens ≡ some t
    → find_active_access_token
        (execute_all ss (execute (revoke_access input) db)).access_tokens
        input.token_hash
        now
      ≡ none
unfolding find_active_access_token revoke_token_by_hash
revoke_access-final db input t ss now unique there =
    let hash = input.token_hash in
    let dead = access_marked_later hash ss (execute (revoke_access input) db) (
      returning-IsMarked (has_token_hash hash) is_revoked_token (is_of_client input)
        (coalesce_revoked input.now) db.access_tokens (coalesce_revoked input.now t)
        (λ x m. and_left (has_token_hash hash x) _ m) (λ x. refl) (λ x. refl) unique
        (ap (λ o. elim o [ none ↦ none | some r ↦ some (coalesce_revoked input.now r) ]) there)) in
    IsMarked-find (has_token_hash hash) is_revoked_token (is_live hash now)
      (execute_all ss (execute (revoke_access input) db)).access_tokens
      (λ x m. live (has_token_hash hash x) (is_revoked_token x) (ltb now x.expires_at) m) dead
