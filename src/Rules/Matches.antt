-- ===== src/Rules/Matches.antt =====
-- The evaluation of a whole rule against its meaning (Rules/Meaning.antt).
use cred_trail.Prelude.{
  ◌≡◌, refl, ◌≢◌, ◌↔◌, ◌⊎◌, inl, inr, Bool, true, false, not, ◌&&◌, ◌||◌, false≢true, Option, none,
  some, [], String, or_else, length,
}
use cred_trail.Rules.{
  Numbers, is_matched, CourseCompletion, AssignmentSubmission, TimeWindow, Predicate,
  grade_threshold, course_completion, program_completion, assignment_submission, prerequisite_badge,
  time_window, GradeThreshold, Condition, Conditions, all_of, any_of, not_of, predicate,
}
use cred_trail.Rules.Facts.{
  Facts, find_grade, CompletionFact, SubmissionFact, find_completion, find_submission,
}
use cred_trail.Rules.Leaf.{
  evaluate_predicate, includes, completion_found, submission_found, window_at, course_or_unknown,
  parsed, grade_found, completed_count,
}
use cred_trail.Rules.Meaning.{Given, IsSubmitted, PredicateHolds, Holds, AllHold, AnyHolds}
use cred_trail.Rules.Sound.{
  grade_sound, below_iff, above_iff, null_or_below_iff, completion_iff, IsSubmitted-iff, state_iff,
  submission_iff, window_iff, grade_complete, program_iff, badge_iff,
}
use cred_trail.Rules.Evaluate.{
  every_matched, some_matched, evaluate_condition, evaluate_conditions, evaluate_definition,
}

not-true : (b : Bool) → b ≢ true → not b ≡ true
not-true true h = absurd (h refl)
not-true false h = refl

true-not : (b : Bool) → b ≡ true → not b ≡ true → ⊥
true-not true h k = false≢true k
true-not false h k = false≢true h

module _ {P Q : Type 0} where
  and_holds : (b c : Bool) → (b ≡ true) ↔ P → (c ≡ true) ↔ Q → ((b && c) ≡ true) ↔ (P × Q)
  and_holds true c p q = (λ h. (p.0 refl, q.0 h), λ h. q.1 h.1)
  and_holds false c p q = (λ h. cc, λ h. p.1 h.0)

  or_holds : (b c : Bool) → (b ≡ true) ↔ P → (c ≡ true) ↔ Q → ((b || c) ≡ true) ↔ (P ⊎ Q)
  or_holds true c p q = (λ h. inl (p.0 refl), λ h. refl)
  or_holds false c p q =
      (λ h. inr (q.0 h), λ h. elim h [ inl x ↦ absurd (false≢true (p.1 x)) | inr y ↦ q.1 y ])

module _ (js : Numbers) (facts : Facts js.Number) where
  open js use {Number, parse_date}

  completion_sound :
      (c : CourseCompletion Number) (course : String) (o : Option (CompletionFact Number))
      → is_matched (completion_found js c course o) ≡ true
      → (f : CompletionFact Number) × (o ≡ some f)
        × ((or_else c.require_completed true ≡ true) → f.completed ≡ true)
        × Given c.min_completion_percent
            (λ m. (v : Number) × (f.completion_percent ≡ some v) × (js.lt v m ≡ false))
  completion_sound c course none h = unfold completion_found in cc h
  completion_sound c course (some f) h =
      let (done, percent) = (completion_iff js facts c course f).0 h in
      (
        f,
        refl,
        done,
        (null_or_below_iff js facts f.completion_percent c.min_completion_percent).0 percent,
      )

  submission_sound :
      (c : AssignmentSubmission Number) (o : Option (SubmissionFact Number))
      → is_matched (submission_found js c o) ≡ true
      → (s : SubmissionFact Number) × (o ≡ some s)
        × ((or_else c.require_submitted true ≡ true) → IsSubmitted js facts s)
        × Given c.min_score (λ m. (v : Number) × (s.score ≡ some v) × (js.lt v m ≡ false))
        × Given c.workflow_states (λ states.
          (state : String) × (s.workflow_state ≡ some state) × (includes states state ≡ true))
  submission_sound c none h = unfold submission_found in cc h
  submission_sound c (some s) h =
      let (handed, score, state) = (submission_iff js facts c s).0 h in
      (
        s,
        refl,
        (λ r. (IsSubmitted-iff js facts s).0 (handed r)),
        (null_or_below_iff js facts s.score c.min_score).0 score,
        (state_iff js facts c.workflow_states s.workflow_state).0 state,
      )

  window_sound :
      (c : TimeWindow) (o : Option Number)
      → is_matched (window_at js c o) ≡ true
      → (now : Number) × (o ≡ some now)
        × Given (parsed js c.not_before) (λ t. js.lt now t ≡ false)
        × Given (parsed js c.not_after) (λ t. js.lt t now ≡ false)
  window_sound c none h = unfold window_at in cc h
  window_sound c (some now) h =
      let (early, late) = (window_iff js facts c now).0 h in
      (
        now,
        refl,
        (below_iff js facts now (parsed js c.not_before)).0 early,
        (above_iff js facts now (parsed js c.not_after)).0 late,
      )

  predicate_sound :
      (p : Predicate Number)
      → is_matched (evaluate_predicate js p facts) ≡ true
      → PredicateHolds js facts p
  predicate_sound (grade_threshold c) h =
      grade_sound js facts c (course_or_unknown js c.course_id)
        (find_grade facts (course_or_unknown js c.course_id)) (unfold evaluate_predicate in h)
  predicate_sound (course_completion c) h =
      completion_sound c (course_or_unknown js c.course_id)
        (find_completion facts (course_or_unknown js c.course_id)) (unfold evaluate_predicate in h)
  predicate_sound (program_completion c) h =
      let courses = or_else c.course_ids [] in
      (program_iff js facts (completed_count js facts courses) (length courses)
          (or_else c.minimum_completed (length courses))).0
        (unfold evaluate_predicate in h)
  predicate_sound (assignment_submission c) h =
      submission_sound c (find_submission facts c.course_id c.assignment_id)
        (unfold evaluate_predicate in h)
  predicate_sound (prerequisite_badge id) h =
      (badge_iff js facts (or_else id "")
          (includes facts.earned_badge_template_ids (or_else id ""))).0
        (unfold evaluate_predicate in h)
  predicate_sound (time_window c) h =
      window_sound c (parse_date facts.now_iso) (unfold evaluate_predicate in h)

  -- What the evaluation of a predicate is, with the parts shut.
  course_completion_lem :
      (c : CourseCompletion Number)
      → evaluate_predicate js (course_completion c) facts
        ≡ completion_found js c
            (course_or_unknown js c.course_id)
            (find_completion facts (course_or_unknown js c.course_id))
  unfolding evaluate_predicate
  course_completion_lem c = refl

  grade_threshold_lem :
      (c : GradeThreshold Number)
      → evaluate_predicate js (grade_threshold c) facts
        ≡ grade_found js c
            (course_or_unknown js c.course_id)
            (find_grade facts (course_or_unknown js c.course_id))
  unfolding evaluate_predicate
  grade_threshold_lem c = refl

  submission_lem :
      (c : AssignmentSubmission Number)
      → evaluate_predicate js (assignment_submission c) facts
        ≡ submission_found js c (find_submission facts c.course_id c.assignment_id)
  unfolding evaluate_predicate
  submission_lem c = refl

  window_lem :
      (c : TimeWindow)
      → evaluate_predicate js (time_window c) facts ≡ window_at js c (parse_date facts.now_iso)
  unfolding evaluate_predicate
  window_lem c = refl

  predicate_complete :
      (p : Predicate Number)
      → PredicateHolds js facts p
      → is_matched (evaluate_predicate js p facts) ≡ true
  predicate_complete (grade_threshold c) h =
      rw (grade_threshold_lem c, h.1)
        (grade_complete js facts c (course_or_unknown js c.course_id) h.0 h.2.0 h.2.1 h.2.2 h.2.3)
  predicate_complete (course_completion c) h =
      rw (course_completion_lem c, h.1)
        ((completion_iff js facts c (course_or_unknown js c.course_id) h.0).1
          (h.2, (null_or_below_iff js facts h.0.completion_percent c.min_completion_percent).1 h.3))
  predicate_complete (program_completion c) h =
      let courses = or_else c.course_ids [] in
      unfold evaluate_predicate in
      (program_iff js facts (completed_count js facts courses) (length courses)
          (or_else c.minimum_completed (length courses))).1
        h
  predicate_complete (assignment_submission c) h =
      rw (submission_lem c, h.1)
        ((submission_iff js facts c h.0).1 (
          (λ r. (IsSubmitted-iff js facts h.0).1 (h.2 r)),
          (null_or_below_iff js facts h.0.score c.min_score).1 h.3,
          (state_iff js facts c.workflow_states h.0.workflow_state).1 h.4,
        ))
  predicate_complete (prerequisite_badge id) h =
      unfold evaluate_predicate in
      (badge_iff js facts (or_else id "")
          (includes facts.earned_badge_template_ids (or_else id ""))).1
        h
  predicate_complete (time_window c) h =
      rw (window_lem c, h.1)
        ((window_iff js facts c h.0).1 (
          (below_iff js facts h.0 (parsed js c.not_before)).1 h.2,
          (above_iff js facts h.0 (parsed js c.not_after)).1 h.3,
        ))

  mutual
    unfolding evaluate_condition

    condition_iff :
        (c : Condition Number)
        → (is_matched (evaluate_condition js facts c) ≡ true) ↔ Holds js facts c
    condition_iff (all_of cs) = all_iff cs
    condition_iff (any_of cs) = any_iff cs
    condition_iff (not_of c) =
        let ih = condition_iff c in
        (
          λ h k. true-not (is_matched (evaluate_condition js facts c)) (ih.1 k) h,
          λ h. not-true (is_matched (evaluate_condition js facts c)) (λ e. h (ih.0 e)),
        )
    condition_iff (predicate p) = (predicate_sound p, predicate_complete p)

    all_iff :
        (cs : Conditions Number)
        → (every_matched (evaluate_conditions js facts cs) ≡ true) ↔ AllHold js facts cs
    all_iff Conditions.nil = (λ h. tt, λ h. refl)
    all_iff (Conditions.cons c cs) =
        and_holds (is_matched (evaluate_condition js facts c))
          (every_matched (evaluate_conditions js facts cs)) (condition_iff c) (all_iff cs)

    any_iff :
        (cs : Conditions Number)
        → (some_matched (evaluate_conditions js facts cs) ≡ true) ↔ AnyHolds js facts cs
    any_iff Conditions.nil = (λ h. cc, λ h. absurd h)
    any_iff (Conditions.cons c cs) =
        or_holds (is_matched (evaluate_condition js facts c))
          (some_matched (evaluate_conditions js facts cs)) (condition_iff c) (any_iff cs)

-- A rule is reported as matched exactly when its conditions hold of the facts: every group as the
-- conjunction, disjunction or negation of its parts, every predicate as the statement about the
-- learner's facts that it names.
pub evaluate_definition-Holds :
    (js : Numbers) (c : Condition js.Number) (facts : Facts js.Number)
    → ((evaluate_definition js c facts).matched ≡ true) ↔ Holds js facts c
unfolding evaluate_definition
evaluate_definition-Holds js c facts = condition_iff js facts c
