-- ===== src/Approval/Activate.antt =====
-- `activateBadgeIssuanceRuleVersion`: one version of a rule becomes active, and the version that
-- was active is deprecated.
use cred_trail.Prelude.{
  ◌≡◌, refl, sym, ◌∙◌, Bool, true, false, not, ◌&&◌, false≢true, Option, none, some, map, arith,
  String, str_eq, if◌then◌else◌, or_else, if-elim, and_right, any, All, All-map, All-images,
  any-false,
}
use cred_trail.Approval.{
  Version, active, deprecated, VersionKey, is_version, find_version_by_id, VersionStatus, Rule,
  Tables,
}

pub record ActivateInput : Type 0 where
  pub key : VersionKey
  pub actor_user_id : String
  pub activated_at : Option String

abbrev pub is_active : VersionStatus → Bool
is_active status = elim status [ active ↦ true | _ ↦ false ]

abbrev pub is_of_rule : VersionKey → Version → Bool
is_of_rule key v = str_eq v.tenant_id key.tenant_id && str_eq v.rule_id key.rule_id

abbrev pub deprecate_existing : VersionKey → String → Version → Version
deprecate_existing key at v =
    if is_of_rule key v && (is_active v.status && not (str_eq v.id key.version_id))
    then record v { status = deprecated; updated_at = at }
    else v

abbrev pub activate : ActivateInput → String → Version → Version
activate input at v =
    if is_version input.key v
    then record v {
      status = active;
      activated_by_user_id = some input.actor_user_id;
      activated_at = some at;
      updated_at = at;
    }
    else v

abbrev pub set_active_version : VersionKey → String → Rule → Rule
set_active_version key at r =
    if str_eq r.tenant_id key.tenant_id && str_eq r.id key.rule_id
    then record r { active_version_id = some key.version_id; updated_at = at }
    else r

-- Null is returned where the second UPDATE wrote no row; all three have run by then.
unfoldable pub activate_version : Tables → ActivateInput → String → Option Version × Tables
activate_version db input now_iso =
    let at = or_else input.activated_at now_iso in
    let key = input.key in
    let after = record db {
      versions = map (activate input at) (map (deprecate_existing key at) db.versions);
      rules = map (set_active_version key at) db.rules;
    } in
    (if any (is_version key) db.versions then find_version_by_id after key else none, after)

abbrev IsOnlyActive : VersionKey → Version → Type 0
IsOnlyActive key v =
    is_of_rule key v ≡ true → is_active v.status ≡ true → str_eq v.id key.version_id ≡ true

kept_active : (a b c : Bool) → (a && (b && not c)) ≡ false → a ≡ true → b ≡ true → c ≡ true
kept_active a b c e ha hb = ground arith

deprecate_row :
    (key : VersionKey) (at : String) (v : Version) → IsOnlyActive key (deprecate_existing key at v)
deprecate_row key at v =
    if-elim (IsOnlyActive key)
      (is_of_rule key v && (is_active v.status && not (str_eq v.id key.version_id)))
      (λ e r a. absurd (false≢true a))
      (λ e. kept_active (is_of_rule key v) (is_active v.status) (str_eq v.id key.version_id) e)

activate_row :
    (input : ActivateInput) (at : String) (v : Version)
    → IsOnlyActive input.key v
    → IsOnlyActive input.key (activate input at v)
activate_row input at v h =
    if-elim (IsOnlyActive input.key) (is_version input.key v)
      (λ e r a.
        and_right (str_eq v.rule_id input.key.rule_id) _
          (and_right (str_eq v.tenant_id input.key.tenant_id) _ e))
      (λ e. h)

-- A version that is not the one of the key, and is not active if it is of the rule.
abbrev IsOther : VersionKey → Version → Type 0
IsOther key v = (is_version key v ≡ false) × (is_of_rule key v ≡ true → is_active v.status ≡ false)

none_active :
    (t r b c : Bool)
    → (t && (r && c)) ≡ false
    → ((t && r) && (b && not c)) ≡ false
    → (t && r) ≡ true
    → b ≡ false
none_active t r b c h e k = ground arith

deprecate-IsOther :
    (key : VersionKey) (at : String) (v : Version)
    → is_version key v ≡ false
    → IsOther key (deprecate_existing key at v)
deprecate-IsOther key at v h =
    if-elim (IsOther key)
      (is_of_rule key v && (is_active v.status && not (str_eq v.id key.version_id)))
      (λ e. (h, λ r. refl))
      (λ e. (
        h,
        none_active (str_eq v.tenant_id key.tenant_id) (str_eq v.rule_id key.rule_id)
            (is_active v.status) (str_eq v.id key.version_id) h e,
      ))

abbrev IsInactive : VersionKey → Version → Type 0
IsInactive key v = is_of_rule key v ≡ true → is_active v.status ≡ false

activate-IsInactive :
    (input : ActivateInput) (at : String) (v : Version)
    → IsOther input.key v
    → IsInactive input.key (activate input at v)
activate-IsInactive input at v h =
    if-elim (IsInactive input.key) (is_version input.key v) (λ e. absurd (false≢true (sym h.0 ∙ e)))
      (λ e. h.1)

abbrev PointsAt : VersionKey → Rule → Type 0
PointsAt key r =
    (str_eq r.tenant_id key.tenant_id && str_eq r.id key.rule_id) ≡ true
    → r.active_version_id ≡ some key.version_id

set_active_row :
    (key : VersionKey) (at : String) (r : Rule) → PointsAt key (set_active_version key at r)
set_active_row key at r =
    if-elim (PointsAt key) (str_eq r.tenant_id key.tenant_id && str_eq r.id key.rule_id)
      (λ e k. refl) (λ e k. absurd (false≢true (sym e ∙ k)))

-- After an activation no version of the rule is active but the one that was asked for, whatever
-- versions were active before.
pub activate_version-only :
    (db : Tables) (input : ActivateInput) (now_iso : String)
    → All
        (λ v.
          is_of_rule input.key v ≡ true
          → is_active v.status ≡ true
          → str_eq v.id input.key.version_id ≡ true)
        (activate_version db input now_iso).1.versions
unfolding activate_version
activate_version-only db input now_iso =
    let at = or_else input.activated_at now_iso in
    let key = input.key in
    All-map (IsOnlyActive key) (IsOnlyActive key) (activate input at)
      (map (deprecate_existing key at) db.versions) (activate_row input at)
      (All-images (IsOnlyActive key) (deprecate_existing key at) db.versions (deprecate_row key at))

-- Asked for a version that the rule does not have, an activation answers null, but leaves the rule
-- with no active version and with the missing version's id as its active one.
pub activate_version-missing :
    (db : Tables) (input : ActivateInput) (now_iso : String)
    → any (is_version input.key) db.versions ≡ false
    → ((activate_version db input now_iso).0 ≡ none)
      × All
          (λ v. is_of_rule input.key v ≡ true → is_active v.status ≡ false)
          (activate_version db input now_iso).1.versions
      × All
          (λ r.
            (str_eq r.tenant_id input.key.tenant_id && str_eq r.id input.key.rule_id) ≡ true
            → r.active_version_id ≡ some input.key.version_id)
          (activate_version db input now_iso).1.rules
unfolding activate_version
activate_version-missing db input now_iso missing =
    let at = or_else input.activated_at now_iso in
    let key = input.key in
    (
      rw (missing) refl,
      All-map (IsOther key) (IsInactive key) (activate input at)
          (map (deprecate_existing key at) db.versions) (activate-IsInactive input at)
          (All-map (λ v. is_version key v ≡ false) (IsOther key) (deprecate_existing key at)
            db.versions (deprecate-IsOther key at)
            (any-false (is_version key) db.versions missing)),
      All-images (PointsAt key) (set_active_version key at) db.rules (set_active_row key at),
    )
