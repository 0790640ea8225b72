-- ===== src/Delegation/Lookup.antt =====
-- What the lookup of a grant answers, against the table of grants.
use cred_trail.Prelude.{
  ℕ, ◌≡◌, refl, sym, ◌∙◌, ◌↔◌, inl, inr, Bool, true, false≢true, Option, none, some, List, [], ◌∷◌,
  arith, String, ltb, if◌then◌else◌, Bool-cases, is_some, if-elim, is_some-some, Some, sort,
  any-sort, All-kept, All-sort, length, any, keep, All, any-keep, ok,
}
use cred_trail.Delegation.{
  Grant, same_action, includes, normalize_actions, is_revoked_grant, grant_status, map_grant_row,
  DelegatedAction, GrantStatus, Clock, issue_badge_action, revoke_badge_action,
  manage_lifecycle_action, grant_revoked, record_expired_events, Authority, grant_scheduled,
  grant_active, grant_expired,
}
use cred_trail.OrgUnits.{OrgUnit}
use cred_trail.Delegation.Resolve.{
  is_in_force, starts_before, first_covering, find_active_grant, ResolveInput, covers,
}
use cred_trail.Delegation.Covering.{IsCovering, any-IsCovering}
use cred_trail.OrgUnits.Ancestors.{IsForest}

-- A grant whose row can be read: its timestamps are valid and it allows some action.
abbrev pub IsReadable : Clock → Grant → Type 0
IsReadable clock g =
    (is_some (clock.parse_ms g.starts_at) ≡ true)
    × (is_some (clock.parse_ms g.ends_at) ≡ true)
    × (ltb 0 (length g.allowed_actions) ≡ true)

includes-kept :
    (p : DelegatedAction → Bool) (a : DelegatedAction)
    → includes (keep p (issue_badge_action ∷ manage_lifecycle_action ∷ revoke_badge_action ∷ [])) a
      ≡ p a
unfolding same_action
includes-kept p issue_badge_action = ground arith
includes-kept p manage_lifecycle_action = ground arith
includes-kept p revoke_badge_action = ground arith

normalized :
    (actions : List DelegatedAction)
    → ltb 0 (length actions) ≡ true
    → (kept : List DelegatedAction) × (normalize_actions actions ≡ ok kept)
      × ((a : DelegatedAction) → includes kept a ≡ includes actions a)
unfolding normalize_actions
normalized [] h = absurd (false≢true h)
normalized (x ∷ xs) h = (_, refl, includes-kept (includes (x ∷ xs)))

abbrev status_at : (now starts ends : ℕ) → GrantStatus
status_at now starts ends =
    if ltb now starts then grant_scheduled else if ltb ends now then grant_expired else grant_active

grant_status-ok :
    (clock : Clock) (at_iso : String) (g : Grant)
    → is_some (clock.parse_ms at_iso) ≡ true
    → IsReadable clock g
    → (status : GrantStatus) × (grant_status clock g at_iso ≡ ok status)
unfolding grant_status
grant_status-ok clock at_iso g t (s, e, _) =
    let (now, en) = is_some-some (clock.parse_ms at_iso) t in
    let (starts, es) = is_some-some (clock.parse_ms g.starts_at) s in
    let (ends, ee) = is_some-some (clock.parse_ms g.ends_at) e in
    if-elim (λ r. (status : GrantStatus) × (r ≡ ok status)) (is_revoked_grant g)
      (λ b. (grant_revoked, refl)) (λ b. (status_at now starts ends, rw (en, es, ee) refl))

mapped_row :
    (clock : Clock) (at_iso : String) (g : Grant)
    → is_some (clock.parse_ms at_iso) ≡ true
    → IsReadable clock g
    → (kept : List DelegatedAction) × (status : GrantStatus) × (map_grant_row clock at_iso g
        ≡ ok (record g { allowed_actions = kept }, status))
      × ((a : DelegatedAction) → includes kept a ≡ includes g.allowed_actions a)
unfolding map_grant_row
mapped_row clock at_iso g t r =
    let (kept, ek, same) = normalized g.allowed_actions r.2 in
    let (status, es) = grant_status-ok clock at_iso g t r in (kept, status, rw (ek, es) refl, same)

module _ (clock : Clock) (units : List OrgUnit) (input : ResolveInput) (at_iso : String)
    (valid : is_some (clock.parse_ms at_iso) ≡ true) where
  covers-mapped :
      (g : Grant) (kept : List DelegatedAction)
      → ((a : DelegatedAction) → includes kept a ≡ includes g.allowed_actions a)
      → covers units input (record g { allowed_actions = kept }) ≡ covers units input g
  unfolding covers
  covers-mapped g kept same = rw (same input.required_action) refl

  first_covering-any :
      (gs : List Grant)
      → All (IsReadable clock) gs
      → (found : Option (Grant × GrantStatus)) × (first_covering clock units input at_iso gs
          ≡ ok found)
        × (is_some found ≡ any (covers units input) gs)
  unfolding first_covering
  first_covering-any [] h = (none, refl, refl)
  first_covering-any (g ∷ gs) h =
      let (kept, status, e, same) = mapped_row clock at_iso g valid h.0 in
      let (found, rest, answer) = first_covering-any gs h.1 in
      let c = covers-mapped g kept same in
      elim (Bool-cases (covers units input g)) [
        | inl hit ↦
            (some (record g { allowed_actions = kept }, status), rw (e, c, hit) refl, rw (hit) refl)
        | inr miss ↦ (found, rw (e, c, miss) rest, rw (miss) answer)
      ]

-- Where the time asked for is valid, every grant can be read and the org units are a forest: the
-- lookup of a member's authority returns, changes no grant, and answers with a grant exactly where
-- some grant of the table is the member's in that tenant, not revoked, not before its start nor
-- after its end at that time, names the action, stands on the unit or above it, and names the
-- template or none.
pub find_active_grant-IsCovering :
    (clock : Clock) (db : Authority) (input : ResolveInput) (at_iso : String)
    → is_some (clock.parse_ms at_iso) ≡ true
    → All (IsReadable clock) db.grants
    → IsForest db.members.org_units
    → (found : Option (Grant × GrantStatus)) × (after : Authority) × (find_active_grant clock db
          input at_iso
        ≡ ok (found, after))
      × (after.grants ≡ db.grants)
      × ((is_some found ≡ true)
          ↔ Some (IsCovering clock db.members.org_units input at_iso) db.grants)
unfolding find_active_grant record_expired_events
find_active_grant-IsCovering clock db input at_iso valid readable forest =
    let units = db.members.org_units in
    let (now, en) = is_some-some (clock.parse_ms at_iso) valid in
    let rows = keep (is_in_force clock input at_iso) db.grants in
    let (found, e, answer) =
      first_covering-any clock units input at_iso valid (sort (starts_before clock) rows) (
        All-sort (IsReadable clock) (starts_before clock) rows
          (All-kept (IsReadable clock) (is_in_force clock input at_iso) db.grants readable)) in
    let same =
      answer
      ∙ any-sort (starts_before clock) (covers units input) rows
      ∙ any-keep (covers units input) (is_in_force clock input at_iso) db.grants in
    let both = any-IsCovering clock units input at_iso db.grants forest in
    (
      found,
      record_expired_events clock db input.tenant_id at_iso,
      rw (en, e) refl,
      refl,
      (λ h. both.0 (sym same ∙ h), λ h. same ∙ both.1 h),
    )
