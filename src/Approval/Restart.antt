-- ===== src/Approval/Restart.antt =====
-- The steps of a version as a submission starts them anew.
use cred_trail.Prelude.{
  ℕ, ◌<◌, ◌≡◌, refl, sym, ap, ap₂, subst, ◌∙◌, inl, inr, true, Option, some, List, [], ◌∷◌, map,
  arith, String, Bool-cases, if-elim, some-inj, none≢some, find, All, All-map,
}
use cred_trail.Approval.{
  pending_approval, is_version, is_step, find_version_by_id, Version, Step, Tables, VersionKey,
  pending_step,
}
use cred_trail.Approval.Workflow.{reset_step, make_pending, set_version}
use cred_trail.Approval.View.{KeepsStep, KeepsVersion, is_step-same, is_version-same}
use cred_trail.Approval.Steps.{list_approval_steps, set_step}
use cred_trail.Approval.Order.{Increasing, IsQueued, set_step_self, set_step-later}

pub reset_step-KeepsStep : (key : VersionKey) (at : String) → KeepsStep (reset_step key at)
reset_step-KeepsStep key at s =
    if-elim
      (λ (x : Step).
        (x.tenant_id ≡ s.tenant_id)
        × (x.version_id ≡ s.version_id)
        × (x.step_number ≡ s.step_number))
      (is_step key s) (λ e. (refl, refl, refl)) (λ e. (refl, refl, refl))

reset_step-IsQueued :
    (key : VersionKey) (at : String) (s : Step)
    → is_step key s ≡ true
    → IsQueued (reset_step key at s)
reset_step-IsQueued key at s own = rw (own) refl

-- The first step is pending, and every later one queued.
abbrev pub IsRestarted : List Step → Type 0
IsRestarted [] = ⊥
IsRestarted (s ∷ ss) = (s.status ≡ pending_step) × All IsQueued ss

-- The version waits for its approval, and its steps are those of before, started anew.
abbrev pub IsSubmitted : Tables → VersionKey → (numbers : List ℕ) → Type 0
IsSubmitted after key numbers =
    ((w : Version) × (find_version_by_id after key ≡ some w) × (w.status ≡ pending_approval))
    × (map (λ t. t.step_number) (list_approval_steps after key) ≡ numbers)
    × IsRestarted (list_approval_steps after key)

module _ (key : VersionKey) (at : String) where
  abbrev pub restart : ℕ → List Step → List Step
  restart number steps = map (set_step key number (make_pending at)) (map (reset_step key at) steps)

  first_pending :
      (s : Step)
      → is_step key s ≡ true
      → (set_step key s.step_number (make_pending at) (reset_step key at s)).status ≡ pending_step
  first_pending s own =
      let same = reset_step-KeepsStep key at in
      subst (λ n. (set_step key n (make_pending at) (reset_step key at s)).status ≡ pending_step)
        (same s).2
        (ap (λ (x : Step). x.status)
          (set_step_self key (make_pending at) (reset_step key at s)
            (is_step-same key (reset_step key at) same s ∙ own)))

  pub restart-IsRestarted :
      (s : Step) (ss : List Step)
      → Increasing (s ∷ ss)
      → All (λ t. is_step key t ≡ true) (s ∷ ss)
      → IsRestarted (restart s.step_number (s ∷ ss))
  restart-IsRestarted s ss inc owns =
      let reset = reset_step key at in
      let later : All (λ t. s.step_number < t.step_number) (map reset ss) =
        All-map (λ t. s.step_number < t.step_number) (λ t. s.step_number < t.step_number) reset ss
          (λ t lt. let same = (reset_step-KeepsStep key at t).2 in omega arith) inc.0 in
      (
        first_pending s owns.0,
        subst (All IsQueued)
            (sym (set_step-later key s.step_number (make_pending at) (map reset ss) later))
            (All-map (λ t. is_step key t ≡ true) IsQueued reset ss (reset_step-IsQueued key at)
              owns.1),
      )

pub same_numbers :
    (f : Step → Step)
    → ((t : Step) → (f t).step_number ≡ t.step_number)
    → (ss : List Step)
    → map (λ (t : Step). t.step_number) (map f ss) ≡ map (λ (t : Step). t.step_number) ss
same_numbers f h [] = refl
same_numbers f h (t ∷ ts) = ap₂ (λ n ns. n ∷ ns) (h t) (same_numbers f h ts)

pub found_changed :
    (key : VersionKey) (g : Version → Version)
    → KeepsVersion g
    → (vs : List Version) (v : Version) → find (is_version key) vs ≡ some v
    → find (is_version key) (map (set_version key g) vs) ≡ some (g v)
found_changed key g same [] v e = absurd (none≢some e)
found_changed key g same (x ∷ xs) v e = elim (Bool-cases (is_version key x)) [
  | inl hit ↦
      let kept = is_version-same key g same x ∙ hit in
      let found : ◌≡◌ {A = Option Version} (some x) (some v) = rw (hit) at e in
      rw (hit, kept) (ap (λ y. some (g y)) (some-inj x v found))
  | inr miss ↦
      let rest : find (is_version key) xs ≡ some v = rw (miss) at e in
      rw (miss, miss) (found_changed key g same xs v rest)
]
