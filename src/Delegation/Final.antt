-- ===== src/Delegation/Final.antt =====
-- Revoked grants under the UPDATE of a revocation.
use cred_trail.Prelude.{
  ◌≡◌, refl, sym, ap, subst, ◌∙◌, inl, inr, Bool, true, false, not, ◌&&◌, false≢true, Option, none,
  some, List, [], ◌∷◌, map, arith, String, str_eq, eq_iff, Bool-cases, Option-cases, if-elim,
  and_right, some-inj, none≢some, any, find, All, All-weaken, Pairwise, any-weaken, any-map, ok-inj,
  bind-ok, ok,
}
use cred_trail.Delegation.{
  Grant, is_revoked_grant, is_grant, Clock, normalize_actions, grant_status, find_grant_row,
  map_grant_row, mapped_option, find_grant_by_id, GrantStatus, Authority,
}
use cred_trail.Delegation.Resolve.{is_revocable, revoke_row, RevokeGrantInput}

-- The grant of this id is in the table, and is revoked.
abbrev pub IsRevoked : String → String → Grant → Type 0
IsRevoked tenant_id id g = is_grant tenant_id id g ≡ true → is_revoked_grant g ≡ true

unfoldable pub IsFinal : String → String → List Grant → Type 0
IsFinal tenant_id id grants =
    (any (is_grant tenant_id id) grants ≡ true) × All (IsRevoked tenant_id id) grants

has_id : (tenant_id id : String) (g : Grant) → is_grant tenant_id id g ≡ true → g.id ≡ id
has_id tenant_id id g own = (eq_iff g.id id).0 (and_right (str_eq g.tenant_id tenant_id) _ own)

pub same_id :
    (tenant_id id : String) (x y : Grant)
    → is_grant tenant_id id x ≡ true
    → is_grant tenant_id id y ≡ true
    → str_eq x.id y.id ≡ true
same_id tenant_id id x y own o =
    (eq_iff x.id y.id).1 (has_id tenant_id id x own ∙ sym (has_id tenant_id id y o))

and_not : (a b : Bool) → (a && not b) ≡ false → a ≡ true → b ≡ true
and_not a b h k = ground arith

-- Ids are different, so that a row with the id of the first one found is that row.
-- Two rows with two ids, as the PRIMARY KEY has it.
abbrev pub HasOtherId : Grant → Grant → Type 0
HasOtherId old new = str_eq old.id new.id ≡ false

pub found-All :
    (tenant_id id : String) (gs : List Grant) (g : Grant)
    → Pairwise HasOtherId gs
    → find (is_grant tenant_id id) gs ≡ some g
    → is_revoked_grant g ≡ true
    → All (IsRevoked tenant_id id) gs
found-All tenant_id id [] g h e r = tt
found-All tenant_id id (x ∷ xs) g h e r = elim (Bool-cases (is_grant tenant_id id x)) [
  | inl own ↦ (
    λ o. subst (λ y. is_revoked_grant y ≡ true) (sym (some-inj x g (rw (own) at e))) r,
    All-weaken (HasOtherId x) (IsRevoked tenant_id id) xs
        (λ y apart o. absurd (false≢true (sym apart ∙ same_id tenant_id id x y own o))) h.0,
  )
  | inr other ↦ (
    λ o. absurd (false≢true (sym other ∙ o)),
    found-All tenant_id id xs g h.1 (rw (other) at e) r,
  )
]

pub revoke_row-IsRevoked :
    (input : RevokeGrantInput) (now_iso : String) (g : Grant)
    → IsRevoked input.tenant_id input.grant_id (revoke_row input now_iso g)
revoke_row-IsRevoked input now_iso g =
    if-elim (IsRevoked input.tenant_id input.grant_id) (is_revocable input g) (λ e o. refl)
      (λ e o. and_not (is_grant input.tenant_id input.grant_id g) (is_revoked_grant g) e o)

keeps_key :
    (tenant_id id : String) (input : RevokeGrantInput) (now_iso : String) (g : Grant)
    → is_grant tenant_id id (revoke_row input now_iso g) ≡ is_grant tenant_id id g
keeps_key tenant_id id input now_iso g =
    if-elim (λ r. is_grant tenant_id id r ≡ is_grant tenant_id id g) (is_revocable input g)
      (λ e. refl) (λ e. refl)

pub revoke_row-stays :
    (tenant_id id : String) (input : RevokeGrantInput) (now_iso : String) (g : Grant)
    → IsRevoked tenant_id id g
    → IsRevoked tenant_id id (revoke_row input now_iso g)
revoke_row-stays tenant_id id input now_iso g h =
    if-elim (IsRevoked tenant_id id) (is_revocable input g) (λ e o. refl) (λ e. h)

pub any-revoke_row :
    (tenant_id id : String) (input : RevokeGrantInput) (now_iso : String) (gs : List Grant)
    → any (is_grant tenant_id id) gs ≡ true
    → any (is_grant tenant_id id) (map (revoke_row input now_iso) gs) ≡ true
any-revoke_row tenant_id id input now_iso gs h =
    any-map (is_grant tenant_id id) (revoke_row input now_iso) gs
    ∙ any-weaken (is_grant tenant_id id) (λ g. is_grant tenant_id id (revoke_row input now_iso g))
        gs (λ g e. keeps_key tenant_id id input now_iso g ∙ e) h

-- The row behind a grant that was found.
pub mapped-row :
    (clock : Clock) (db : Authority) (tenant_id id now_iso : String)
    (found : Option (Grant × GrantStatus) × Authority) (existing : Grant × GrantStatus)
    → find_grant_by_id clock db tenant_id id now_iso ≡ ok found
    → found.0 ≡ some existing
    → (g : Grant) × (find (is_grant tenant_id id) db.grants ≡ some g)
      × (existing.0.revoked_at ≡ g.revoked_at)
unfolding find_grant_by_id find_grant_row map_grant_row
mapped-row clock db tenant_id id now_iso found existing h e =
    let (row, m, h1) =
      bind-ok (mapped_option clock now_iso (find (is_grant tenant_id id) db.grants)) _ found h in
    let shown = ap (λ x. x.0) (ok-inj _ found h1) ∙ e in
    elim (Option-cases (find (is_grant tenant_id id) db.grants)) [
      | inl missing ↦
          absurd (
            none≢some
              (ok-inj none row (ap (mapped_option clock now_iso) (sym missing) ∙ m) ∙ shown))
      | inr (g, there) ↦
          let (mapped, mr, m1) =
            bind-ok (map_grant_row clock now_iso g) _ row
              (ap (mapped_option clock now_iso) (sym there) ∙ m) in
          let (actions, _, m2) = bind-ok (normalize_actions g.allowed_actions) _ mapped mr in
          let (status, _, m3) = bind-ok (grant_status clock g now_iso) _ mapped m2 in
          let same = some-inj mapped existing (ok-inj (some mapped) row m1 ∙ shown) in
          (
            g,
            there,
            ap (λ x. x.0.revoked_at)
                (sym (ok-inj (record g { allowed_actions = actions }, status) mapped m3 ∙ same)),
          )
    ]
