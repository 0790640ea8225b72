-- ===== src/Rules/Sound.antt =====
-- The evaluation of a rule, condition by condition, against its meaning (Rules/Meaning.antt).
use cred_trail.Prelude.{
  ℕ, ◌≤◌, ◌≡◌, refl, sym, subst, ◌∙◌, ◌↔◌, ◌⊎◌, inl, inr, Bool, true, false, false≢true, Option,
  none, some, List, arith, String, Option-cases, or_else,
}
use cred_trail.Rules.{
  Numbers, ScoreField, final_score, current_score, is_matched, GradeThreshold, CourseCompletion,
  AssignmentSubmission, TimeWindow,
}
use cred_trail.Rules.Facts.{Facts, GradeFact, CompletionFact, SubmissionFact}
use cred_trail.Rules.Meaning.{Given, HasScore, IsSubmitted}
use cred_trail.Rules.Leaf.{
  score_of, below, above, null_or_below, grade_score, completion_found, includes, grade_found,
  program_counted, is_submitted, state_refused, submission_found, badge_checked, parsed, window_at,
}

module _ (js : Numbers) (facts : Facts js.Number) where
  open js use {Number, lt, parse_date}

  score_of_final :
      (cur fin : Option Number) (s : Number)
      → (score_of final_score cur fin ≡ some s) ↔ ((fin ≡ some s) ⊎ ((fin ≡ none) × (cur ≡ some s)))
  score_of_final cur none s = ground arith
  score_of_final cur (some x) s = ground arith

  score_of_iff :
      (f : ScoreField) (g : GradeFact Number) (s : Number)
      → (score_of f g.current_score g.final_score ≡ some s) ↔ HasScore js facts f g s
  score_of_iff current_score g s = (λ h. h, λ h. h)
  score_of_iff final_score g s = score_of_final g.current_score g.final_score s

  pub below_iff :
      (v : Number) (m : Option Number) → (below lt v m ≡ false) ↔ Given m (λ b. lt v b ≡ false)
  below_iff v none = (λ h. tt, λ h. refl)
  below_iff v (some b) = (λ h. h, λ h. h)

  pub above_iff :
      (v : Number) (m : Option Number) → (above lt v m ≡ false) ↔ Given m (λ b. lt b v ≡ false)
  above_iff v none = (λ h. tt, λ h. refl)
  above_iff v (some b) = (λ h. h, λ h. h)

  pub null_or_below_iff :
      (v m : Option Number)
      → (null_or_below lt v m ≡ false)
        ↔ Given m (λ b. (x : Number) × (v ≡ some x) × (lt x b ≡ false))
  null_or_below_iff v none = (λ h. tt, λ h. refl)
  null_or_below_iff none (some b) = (λ h. cc, λ h. cc h.1)
  null_or_below_iff (some x) (some b) =
      (λ h. (x, refl, h), λ h. let e : x ≡ h.0 = cc h.1 in subst (λ w. lt w b ≡ false) (sym e) h.2)

  grade_score_iff :
      (c : GradeThreshold Number) (course : String) (s : Number)
      → (is_matched (grade_score js c course (some s)) ≡ true)
        ↔ ((below lt s c.min_score ≡ false) × (above lt s c.max_score ≡ false))
  unfolding grade_score
  grade_score_iff c course s = ground arith

  grade_found_lem :
      (c : GradeThreshold Number) (course : String) (g : GradeFact Number)
      → grade_found js c course (some g)
        ≡ grade_score js c course
            (score_of (or_else c.score_field final_score) g.current_score g.final_score)
  unfolding grade_found
  grade_found_lem c course g = refl

  grade_score-none :
      (c : GradeThreshold Number) (course : String)
      → is_matched (grade_score js c course none) ≡ false
  unfolding grade_score
  grade_score-none c course = refl

  pub grade_sound :
      (c : GradeThreshold Number) (course : String) (o : Option (GradeFact Number))
      → is_matched (grade_found js c course o) ≡ true
      → (g : GradeFact Number) × (o ≡ some g)
        × ((s : Number) × HasScore js facts (or_else c.score_field final_score) g s
            × Given c.min_score (λ m. lt s m ≡ false)
            × Given c.max_score (λ m. lt m s ≡ false))
  grade_sound c course none h = unfold grade_found in cc h
  grade_sound c course (some g) h =
      let field = or_else c.score_field final_score in
      elim (Option-cases (score_of field g.current_score g.final_score)) [
        | inl missing ↦ absurd (
            false≢true
              (sym (grade_score-none c course) ∙ rw (grade_found_lem c course g, missing) at h))
        | inr (s, found) ↦
            let passed : is_matched (grade_score js c course (some s)) ≡ true =
              rw (grade_found_lem c course g, found) at h in
            let (low, high) = (grade_score_iff c course s).0 passed in
            (
              g,
              refl,
              (
                s,
                (score_of_iff field g s).0 found,
                (below_iff s c.min_score).0 low,
                (above_iff s c.max_score).0 high,
              ),
            )
      ]

  pub grade_complete :
      (c : GradeThreshold Number) (course : String) (g : GradeFact Number) (s : Number)
      → HasScore js facts (or_else c.score_field final_score) g s
      → Given c.min_score (λ m. lt s m ≡ false)
      → Given c.max_score (λ m. lt m s ≡ false)
      → is_matched (grade_found js c course (some g)) ≡ true
  grade_complete c course g s has low high =
      rw (grade_found_lem c course g, (score_of_iff (or_else c.score_field final_score) g s).1 has)
        ((grade_score_iff c course s).1
          ((below_iff s c.min_score).1 low, (above_iff s c.max_score).1 high))

  pub completion_iff :
      (c : CourseCompletion Number) (course : String) (f : CompletionFact Number)
      → (is_matched (completion_found js c course (some f)) ≡ true) ↔ (
          ((or_else c.require_completed true ≡ true) → f.completed ≡ true)
          × (null_or_below lt f.completion_percent c.min_completion_percent ≡ false))
  unfolding completion_found
  completion_iff c course f = (λ h. (λ r. ground arith, ground arith), λ h. ground arith)

  pub program_iff :
      (completed total minimum : ℕ)
      → (is_matched (program_counted js completed total minimum) ≡ true) ↔ (minimum ≤ completed)
  unfolding program_counted
  program_iff completed total minimum = ground arith

  pub IsSubmitted-iff :
      (s : SubmissionFact Number) → (is_submitted js s ≡ true) ↔ IsSubmitted js facts s
  IsSubmitted-iff s = ground arith

  pub state_iff :
      (states : Option (List String)) (state : Option String)
      → (state_refused js states state ≡ false)
        ↔ Given states (λ l. (w : String) × (state ≡ some w) × (includes l w ≡ true))
  state_iff none state = (λ h. tt, λ h. refl)
  state_iff (some l) none = (λ h. cc, λ h. cc h.1)
  state_iff (some l) (some w) =
      (λ h. (w, refl, ground arith), λ h. let e : w ≡ h.0 = cc h.1 in rw e (rw h.2))

  pub submission_iff :
      (c : AssignmentSubmission Number) (s : SubmissionFact Number)
      → (is_matched (submission_found js c (some s)) ≡ true) ↔ (
          ((or_else c.require_submitted true ≡ true) → is_submitted js s ≡ true)
          × (null_or_below lt s.score c.min_score ≡ false)
          × (state_refused js c.workflow_states s.workflow_state ≡ false))
  unfolding submission_found
  submission_iff c s = (λ h. (λ r. ground arith, ground arith, ground arith), λ h. ground arith)

  pub badge_iff :
      (badge : String) (b : Bool) → (is_matched (badge_checked js badge b) ≡ true) ↔ (b ≡ true)
  unfolding badge_checked
  badge_iff badge true = ground arith
  badge_iff badge false = ground arith

  pub window_iff :
      (c : TimeWindow) (now : Number)
      → (is_matched (window_at js c (some now)) ≡ true) ↔ (
          (below lt now (parsed js c.not_before) ≡ false)
          × (above lt now (parsed js c.not_after) ≡ false))
  unfolding window_at
  window_iff c now = (λ h. (ground arith, ground arith), λ h. ground arith)
