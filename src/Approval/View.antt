-- ===== src/Approval/View.antt =====
-- The list of a version's steps under the updates of the workflow, row by row.
use cred_trail.Prelude.{
  ℕ, ◌≡◌, refl, sym, ap₂, ◌∙◌, inl, inr, ◌&&◌, Option, some, List, [], ◌∷◌, map, str_eq, leb, ◌==◌,
  if◌then◌else◌, Bool-cases, if-elim, ap-if, some-inj, any, find, keep,
}
use cred_trail.Approval.{Step, Version, VersionKey, is_version, is_step, Tables}
use cred_trail.Approval.Steps.{insert_step, by_step_number, list_approval_steps, set_step}
use cred_trail.Approval.Workflow.{set_version}

-- The same row, by its keys.
abbrev pub KeepsStep : (Step → Step) → Type 0
KeepsStep f =
    (s : Step)
    → ((f s).tenant_id ≡ s.tenant_id)
      × ((f s).version_id ≡ s.version_id)
      × ((f s).step_number ≡ s.step_number)

abbrev pub KeepsVersion : (Version → Version) → Type 0
KeepsVersion f =
    (v : Version)
    → ((f v).tenant_id ≡ v.tenant_id) × ((f v).rule_id ≡ v.rule_id) × ((f v).id ≡ v.id)

pub is_step-same :
    (key : VersionKey) (f : Step → Step)
    → KeepsStep f
    → (s : Step) → is_step key (f s) ≡ is_step key s
is_step-same key f same s =
    ap₂ (λ t v. str_eq t key.tenant_id && str_eq v key.version_id) (same s).0 (same s).1

module _ (f : Step → Step) (same : KeepsStep f) where
  insert_step-map :
      (s : Step) (xs : List Step) → insert_step (f s) (map f xs) ≡ map f (insert_step s xs)
  insert_step-map s [] = refl
  insert_step-map s (x ∷ xs) =
      ap₂ (λ b l. if b then f s ∷ f x ∷ map f xs else f x ∷ l) (ap₂ leb (same s).2 (same x).2)
        (insert_step-map s xs)
      ∙ sym (ap-if (map f) (leb s.step_number x.step_number) (s ∷ x ∷ xs) (x ∷ insert_step s xs))

  by_step_number-map : (xs : List Step) → by_step_number (map f xs) ≡ map f (by_step_number xs)
  by_step_number-map [] = refl
  by_step_number-map (x ∷ xs) = rw (by_step_number-map xs) (insert_step-map x (by_step_number xs))

  keep-map :
      (key : VersionKey) (xs : List Step)
      → keep (is_step key) (map f xs) ≡ map f (keep (is_step key) xs)
  keep-map key [] = refl
  keep-map key (x ∷ xs) =
      ap₂ (λ b l. if b then f x ∷ l else l) (is_step-same key f same x) (keep-map key xs)
      ∙ sym (ap-if (map f) (is_step key x) (x ∷ keep (is_step key) xs) (keep (is_step key) xs))

pub any-map :
    (key : VersionKey) (g : Version → Version)
    → KeepsVersion g
    → (vs : List Version) → any (is_version key) (map g vs) ≡ any (is_version key) vs
any-map key g same [] = refl
any-map key g same (v ∷ vs) = rw ((same v).0, (same v).1, (same v).2, any-map key g same vs) refl

-- What the list of the steps is after an update of the steps, row by row.
pub list_approval_steps-map :
    (db after : Tables) (key : VersionKey) (f : Step → Step)
    → KeepsStep f
    → after.steps ≡ map f db.steps
    → any (is_version key) after.versions ≡ any (is_version key) db.versions
    → list_approval_steps after key ≡ map f (list_approval_steps db key)
unfolding list_approval_steps
list_approval_steps-map db after key f kf ef eg =
    rw (ef, eg, keep-map f kf key db.steps, by_step_number-map f kf (keep (is_step key) db.steps))
      (sym (
        ap-if (map f) (any (is_version key) db.versions)
          (by_step_number (keep (is_step key) db.steps)) []))

pub set_step-KeepsStep :
    (key : VersionKey) (n : ℕ) (f : Step → Step) → KeepsStep f → KeepsStep (set_step key n f)
unfolding set_step
set_step-KeepsStep key n f same s =
    if-elim
      (λ (x : Step).
        (x.tenant_id ≡ s.tenant_id)
        × (x.version_id ≡ s.version_id)
        × (x.step_number ≡ s.step_number))
      (is_step key s && (s.step_number == n)) (λ e. same s) (λ e. (refl, refl, refl))

pub set_version-KeepsVersion :
    (key : VersionKey) (g : Version → Version) → KeepsVersion g → KeepsVersion (set_version key g)
set_version-KeepsVersion key g same v =
    if-elim (λ (x : Version). (x.tenant_id ≡ v.tenant_id) × (x.rule_id ≡ v.rule_id) × (x.id ≡ v.id))
      (is_version key v) (λ e. same v) (λ e. (refl, refl, refl))

pub is_version-same :
    (key : VersionKey) (g : Version → Version)
    → KeepsVersion g
    → (v : Version) → is_version key (g v) ≡ is_version key v
is_version-same key g same v =
    ap₂ (λ t b. str_eq t key.tenant_id && b) (same v).0
      (ap₂ (λ r i. str_eq r key.rule_id && str_eq i key.version_id) (same v).1 (same v).2)

pub find-set_version :
    (key : VersionKey) (g : Version → Version)
    → KeepsVersion g
    → (vs : List Version) (w : Version)
    → find (is_version key) (map (set_version key g) vs) ≡ some w
    → (v : Version) × (find (is_version key) vs ≡ some v) × (w ≡ g v)
find-set_version key g same [] w e = absurd (cc e)
find-set_version key g same (v ∷ vs) w e = elim (Bool-cases (is_version key v)) [
  | inl hit ↦
      let kept = is_version-same key g same v ∙ hit in
      let found : ◌≡◌ {A = Option Version} (some (g v)) (some w) = rw (hit, kept) at e in
      (v, rw (hit) refl, sym (some-inj (g v) w found))
  | inr miss ↦
      let rest : find (is_version key) (map (set_version key g) vs) ≡ some w =
        rw (miss, miss) at e in
      let ih = find-set_version key g same vs w rest in (ih.0, rw (miss) ih.1, ih.2)
]
