-- ===== src/Approval/Fits.antt =====
-- The invariant of a version and its approval steps.
use cred_trail.Prelude.{
  ◌<◌, ◌≡◌, sym, subst, true, some, List, [], ◌∷◌, map, arith, leb, if-elim, any, find, keep, All,
  All-map, All-keep,
}
use cred_trail.Approval.{
  Step, Version, approved, pending_approval, VersionKey, Tables, is_version, is_step,
  find_version_by_id, VersionStatus,
}
use cred_trail.Approval.Workflow.{set_version}
use cred_trail.Approval.View.{KeepsStep, KeepsVersion, find-set_version}
use cred_trail.Approval.Steps.{list_approval_steps, insert_step, by_step_number}
use cred_trail.Approval.Order.{Increasing, IsApproved, InOrder}

-- The statuses of a version and of its steps fit.
abbrev pub Fits : VersionStatus → List Step → Type 0
Fits pending_approval steps = InOrder steps
Fits approved steps = All IsApproved steps
Fits _ steps = Unit

-- The numbers of the steps increase, as the unique key of version and number has it.
abbrev pub IsConsistent : Tables → VersionKey → Type 0
IsConsistent db key =
    Increasing (list_approval_steps db key)
    × ((v : Version)
        → find_version_by_id db key ≡ some v
        → Fits v.status (list_approval_steps db key))

pub Increasing-map :
    (f : Step → Step) → KeepsStep f → (ss : List Step) → Increasing ss → Increasing (map f ss)
Increasing-map f same [] h = tt
Increasing-map f same (s ∷ ss) h = (
  All-map (λ t. s.step_number < t.step_number) (λ t. (f s).step_number < t.step_number) f ss
      (λ t lt. let a = (same s).2 in let b = (same t).2 in omega arith) h.0,
  Increasing-map f same ss h.1,
)

All-insert_step :
    (P : Step → Type 0) (s : Step) (ss : List Step) → P s → All P ss → All P (insert_step s ss)
All-insert_step P s [] p ps = (p, tt)
All-insert_step P s (x ∷ xs) p ps =
    if-elim (All P) (leb s.step_number x.step_number) (λ e. (p, ps))
      (λ e. (ps.0, All-insert_step P s xs p ps.1))

All-by_step_number : (P : Step → Type 0) (ss : List Step) → All P ss → All P (by_step_number ss)
All-by_step_number P [] ps = tt
All-by_step_number P (s ∷ ss) ps =
    All-insert_step P s (by_step_number ss) ps.0 (All-by_step_number P ss ps.1)

pub list-is_step :
    (db : Tables) (key : VersionKey) → All (λ s. is_step key s ≡ true) (list_approval_steps db key)
unfolding list_approval_steps
list-is_step db key =
    if-elim (All (λ s. is_step key s ≡ true)) (any (is_version key) db.versions)
      (λ e.
        All-by_step_number (λ s. is_step key s ≡ true) (keep (is_step key) db.steps)
          (All-keep (λ s. is_step key s ≡ true) (is_step key) db.steps (λ s h. h)))
      (λ e. tt)

-- The invariant from the list of the steps and the status that the version got.
pub consistent :
    (db after : Tables) (key : VersionKey) (g : Version → Version) (steps : List Step)
    → KeepsVersion g
    → after.versions ≡ map (set_version key g) db.versions
    → list_approval_steps after key ≡ steps
    → Increasing steps
    → ((v : Version) → Fits (g v).status steps)
    → IsConsistent after key
unfolding find_version_by_id
consistent db after key g steps same ev es inc fits = (
  subst Increasing (sym es) inc,
  λ w e.
      let found : find (is_version key) (map (set_version key g) db.versions) ≡ some w =
        rw (ev) at e in
      let old = find-set_version key g same db.versions w found in
      subst (Fits w.status) (sym es)
        (subst (λ (x : Version). Fits x.status steps) (sym old.2) (fits old.0)),
)
