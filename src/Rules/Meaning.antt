-- ===== src/Rules/Meaning.antt =====
-- What it means that a rule matches, stated without the evaluation: groups are conjunctions,
-- disjunctions and negations, and each predicate is a statement about the facts.
use cred_trail.Prelude.{
  ◌≤◌, ◌≡◌, ◌⊎◌, true, false, Option, none, some, [], String, str_eq, or_else, length,
}
use cred_trail.Rules.{
  Numbers, Condition, Conditions, all_of, any_of, not_of, predicate, GradeThreshold, ScoreField,
  final_score, current_score, CourseCompletion, ProgramCompletion, AssignmentSubmission, TimeWindow,
  Predicate, grade_threshold, course_completion, program_completion, assignment_submission,
  prerequisite_badge, time_window,
}
use cred_trail.Rules.Facts.{
  Facts, find_grade, find_completion, find_submission, GradeFact, CompletionFact, SubmissionFact,
}
use cred_trail.Rules.Leaf.{includes, completed_count, course_or_unknown, parsed}

-- A bound that is given is kept.
abbrev pub Given {ℓ} : {A : Type ℓ} → Option A → (A → Type 0) → Type 0
Given none P = Unit
Given (some a) P = P a

module _ (js : Numbers) (facts : Facts js.Number) where
  open js use {Number, lt, parse_date}

  -- The score that the predicate names: the current one, or the final one where there is one.
  abbrev pub HasScore : ScoreField → GradeFact Number → Number → Type 0
  HasScore current_score g s = g.current_score ≡ some s
  HasScore final_score g s =
      (g.final_score ≡ some s) ⊎ ((g.final_score ≡ none) × (g.current_score ≡ some s))

  abbrev pub GradeHolds : GradeThreshold Number → Type 0
  GradeHolds c =
      (g : GradeFact Number) × (find_grade facts (course_or_unknown js c.course_id) ≡ some g)
      × ((s : Number) × HasScore (or_else c.score_field final_score) g s
          × Given c.min_score (λ m. lt s m ≡ false)
          × Given c.max_score (λ m. lt m s ≡ false))

  abbrev pub CompletionHolds : CourseCompletion Number → Type 0
  CompletionHolds c =
      (f : CompletionFact Number) × (find_completion facts (course_or_unknown js c.course_id)
        ≡ some f)
      × ((or_else c.require_completed true ≡ true) → f.completed ≡ true)
      × Given c.min_completion_percent
          (λ m. (v : Number) × (f.completion_percent ≡ some v) × (lt v m ≡ false))

  abbrev pub ProgramHolds : ProgramCompletion → Type 0
  ProgramHolds c =
      let courses = or_else c.course_ids [] in
      or_else c.minimum_completed (length courses) ≤ completed_count js facts courses

  -- Handed in, or in a workflow state that is not "unsubmitted".
  abbrev pub IsSubmitted : SubmissionFact Number → Type 0
  IsSubmitted s =
      ((at : String) × (s.submitted_at ≡ some at))
      ⊎ ((state : String) × (s.workflow_state ≡ some state) × (str_eq state "unsubmitted" ≡ false))

  abbrev pub SubmissionHolds : AssignmentSubmission Number → Type 0
  SubmissionHolds c =
      (s : SubmissionFact Number) × (find_submission facts c.course_id c.assignment_id ≡ some s)
      × ((or_else c.require_submitted true ≡ true) → IsSubmitted s)
      × Given c.min_score (λ m. (v : Number) × (s.score ≡ some v) × (lt v m ≡ false))
      × Given c.workflow_states (λ states.
        (state : String) × (s.workflow_state ≡ some state) × (includes states state ≡ true))

  -- The time is known and lies between those bounds that are dates.
  abbrev pub WindowHolds : TimeWindow → Type 0
  WindowHolds c =
      (now : Number) × (parse_date facts.now_iso ≡ some now)
      × Given (parsed js c.not_before) (λ t. lt now t ≡ false)
      × Given (parsed js c.not_after) (λ t. lt t now ≡ false)

  abbrev pub PredicateHolds : Predicate Number → Type 0
  PredicateHolds (grade_threshold c) = GradeHolds c
  PredicateHolds (course_completion c) = CompletionHolds c
  PredicateHolds (program_completion c) = ProgramHolds c
  PredicateHolds (assignment_submission c) = SubmissionHolds c
  PredicateHolds (prerequisite_badge id) =
      includes facts.earned_badge_template_ids (or_else id "") ≡ true
  PredicateHolds (time_window c) = WindowHolds c

  abbrev mutual
    pub Holds : Condition Number → Type 0
    Holds (all_of cs) = AllHold cs
    Holds (any_of cs) = AnyHolds cs
    Holds (not_of c) = ¬ Holds c
    Holds (predicate p) = PredicateHolds p

    pub AllHold : Conditions Number → Type 0
    AllHold Conditions.nil = Unit
    AllHold (Conditions.cons c cs) = Holds c × AllHold cs

    pub AnyHolds : Conditions Number → Type 0
    AnyHolds Conditions.nil = ⊥
    AnyHolds (Conditions.cons c cs) = Holds c ⊎ AnyHolds cs
