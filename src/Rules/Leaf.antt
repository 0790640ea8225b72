-- ===== src/Rules/Leaf.antt =====
-- `evaluatePredicate` of rules/engine.ts, a function for each type of predicate.
use cred_trail.Prelude.{
  ℕ, suc, Bool, true, false, not, ◌&&◌, ◌||◌, Option, none, some, List, [], ◌∷◌, String, str_eq,
  ltb, ◌==◌, if◌then◌else◌, is_some, or_else, ◌<>◌, length, any,
}
use cred_trail.Rules.{
  Numbers, ScoreField, final_score, current_score, GradeThreshold, CourseCompletion,
  AssignmentSubmission, TimeWindow, Predicate, grade_threshold, course_completion,
  program_completion, assignment_submission, prerequisite_badge, time_window, ResultKind,
  matched_kind, failed_condition, missing_data, Node, leaf,
}
use cred_trail.Rules.Facts.{
  GradeFact, CompletionFact, SubmissionFact, Facts, find_grade, find_completion, find_submission,
}

abbrev pub includes : List String → String → Bool
includes xs x = any (λ y. str_eq y x) xs

abbrev pub score_of {ℓ} : {N : Type ℓ} → ScoreField → Option N → Option N → Option N
score_of current_score current final = current
score_of final_score current none = current
score_of final_score current (some s) = some s

-- `condition.min !== undefined && value < condition.min`, and its like.
abbrev pub below {ℓ} : {N : Type ℓ} → (N → N → Bool) → N → Option N → Bool
below lt value none = false
below lt value (some bound) = lt value bound

abbrev pub above {ℓ} : {N : Type ℓ} → (N → N → Bool) → N → Option N → Bool
above lt value none = false
above lt value (some bound) = lt bound value

-- `condition.min !== undefined && (value === null || value < condition.min)`
abbrev pub null_or_below {ℓ} : {N : Type ℓ} → (N → N → Bool) → Option N → Option N → Bool
null_or_below lt value none = false
null_or_below lt none (some bound) = true
null_or_below lt (some v) (some bound) = lt v bound

abbrev pub kind_of {ℓ} : {N : Type ℓ} → Option N → ResultKind
kind_of none = missing_data
kind_of (some v) = failed_condition

module _ (js : Numbers) where
  open js use {Number, lt, to_fixed, to_text, count_text, parse_date}

  abbrev pub bound_text : (Number → String) → Option Number → String
  bound_text show none = ""
  bound_text show (some bound) = show bound

  unfoldable pub grade_score : GradeThreshold Number → String → Option Number → Node
  grade_score c course none =
      leaf "grade_threshold" false ("Score is unavailable for course " <> course) missing_data
  grade_score c course (some score) =
      if below lt score c.min_score
      then leaf "grade_threshold" false
          ("Score " <> to_fixed score <> " is below minimum " <> bound_text to_fixed c.min_score)
          failed_condition
      else if above lt score c.max_score
      then leaf "grade_threshold" false
          ("Score " <> to_fixed score <> " exceeds maximum " <> bound_text to_fixed c.max_score)
          failed_condition
      else leaf "grade_threshold" true
          ("Score " <> to_fixed score <> " satisfies threshold for course " <> course) matched_kind

  unfoldable pub grade_found : GradeThreshold Number → String → Option (GradeFact Number) → Node
  unfolding grade_score
  grade_found c course none =
      leaf "grade_threshold" false ("No grade fact found for course " <> course) missing_data
  grade_found c course (some g) =
      grade_score c course
        (score_of (or_else c.score_field final_score) g.current_score g.final_score)

  abbrev pub course_or_unknown : Option String → String
  course_or_unknown course = or_else course "unknown course"

  unfoldable pub completion_found :
      CourseCompletion Number → String → Option (CompletionFact Number) → Node
  completion_found c course none =
      leaf "course_completion" false ("No completion fact found for course " <> course) missing_data
  completion_found c course (some f) =
      if or_else c.require_completed true && not f.completed
      then leaf "course_completion" false ("Course " <> course <> " is not marked completed")
          failed_condition
      else if null_or_below lt f.completion_percent c.min_completion_percent
      then leaf "course_completion" false
          ("Completion percent for course "
            <> course
            <> " is below "
            <> bound_text to_text c.min_completion_percent)
          failed_condition
      else leaf "course_completion" true ("Completion criteria satisfied for course " <> course)
          matched_kind

  abbrev pub is_completed : Option (CompletionFact Number) → Bool
  is_completed none = false
  is_completed (some f) = f.completed

  -- The loop that counts the completed courses.
  unfoldable pub completed_count : Facts Number → List String → ℕ
  completed_count facts [] = 0
  completed_count facts (course ∷ courses) =
      let rest = completed_count facts courses in
      if is_completed (find_completion facts course) then suc rest else rest

  unfoldable pub program_counted : ℕ → ℕ → ℕ → Node
  program_counted completed total minimum =
      if ltb completed minimum
      then leaf "program_completion" false
          ("Completed "
            <> count_text completed
            <> "/"
            <> count_text total
            <> " courses; requires "
            <> count_text minimum)
          (if completed == 0 then missing_data else failed_condition)
      else leaf "program_completion" true
          ("Completed " <> count_text completed <> "/" <> count_text total <> " required courses")
          matched_kind

  -- `submittedAt !== null || (workflowState !== null && workflowState !== "unsubmitted")`
  abbrev pub is_submitted : SubmissionFact Number → Bool
  is_submitted s =
      is_some s.submitted_at
      || (is_some s.workflow_state && not (str_eq (or_else s.workflow_state "") "unsubmitted"))

  abbrev pub state_refused : Option (List String) → Option String → Bool
  state_refused none state = false
  state_refused (some states) none = true
  state_refused (some states) (some state) = not (includes states state)

  unfoldable pub submission_found :
      AssignmentSubmission Number → Option (SubmissionFact Number) → Node
  submission_found c none =
      leaf "assignment_submission" false ("No submission found for assignment " <> c.assignment_id)
        missing_data
  submission_found c (some s) =
      if or_else c.require_submitted true && not (is_submitted s)
      then leaf "assignment_submission" false
          ("Assignment " <> c.assignment_id <> " has not been submitted") failed_condition
      else if null_or_below lt s.score c.min_score
      then leaf "assignment_submission" false
          ("Assignment score is below required threshold " <> bound_text to_text c.min_score)
          (kind_of s.score)
      else if state_refused c.workflow_states s.workflow_state
      then leaf "assignment_submission" false
          ("Submission workflow state " <> or_else s.workflow_state "null" <> " is not allowed")
          (kind_of s.workflow_state)
      else leaf "assignment_submission" true
          ("Submission criteria satisfied for assignment " <> c.assignment_id) matched_kind

  unfoldable pub badge_checked : String → Bool → Node
  badge_checked badge true =
      leaf "prerequisite_badge" true ("Prerequisite badge " <> badge <> " is present") matched_kind
  badge_checked badge false =
      leaf "prerequisite_badge" false ("Prerequisite badge " <> badge <> " is missing")
        failed_condition

  abbrev pub parsed : Option String → Option Number
  parsed none = none
  parsed (some text) = parse_date text

  unfoldable pub window_at : TimeWindow → Option Number → Node
  window_at c none = leaf "time_window" false "Evaluation timestamp is invalid" missing_data
  window_at c (some now) =
      if below lt now (parsed c.not_before)
      then leaf "time_window" false ("Current time is before " <> or_else c.not_before "undefined")
          failed_condition
      else if above lt now (parsed c.not_after)
      then leaf "time_window" false ("Current time is after " <> or_else c.not_after "undefined")
          failed_condition
      else leaf "time_window" true "Evaluation timestamp is within allowed window" matched_kind

  unfoldable pub evaluate_predicate : Predicate Number → Facts Number → Node
  unfolding grade_found completion_found program_counted submission_found badge_checked window_at
  evaluate_predicate (grade_threshold c) facts =
      let course = course_or_unknown c.course_id in grade_found c course (find_grade facts course)
  evaluate_predicate (course_completion c) facts =
      let course = course_or_unknown c.course_id in
      completion_found c course (find_completion facts course)
  evaluate_predicate (program_completion c) facts =
      let courses = or_else c.course_ids [] in
      program_counted (completed_count facts courses) (length courses)
        (or_else c.minimum_completed (length courses))
  evaluate_predicate (assignment_submission c) facts =
      submission_found c (find_submission facts c.course_id c.assignment_id)
  evaluate_predicate (prerequisite_badge id) facts =
      let badge = or_else id "" in
      badge_checked badge (includes facts.earned_badge_template_ids badge)
  evaluate_predicate (time_window c) facts = window_at c (parse_date facts.now_iso)
