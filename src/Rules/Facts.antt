-- ===== src/Rules/Facts.antt =====
-- The facts about a learner that a rule is evaluated over (rules/engine.ts).
use cred_trail.Prelude.{Bool, ◌&&◌, Option, List, String, str_eq, find}

pub record GradeFact (N : Type 0) : Type 0 where
  pub course_id : String
  pub learner_id : String
  pub current_score : Option N
  pub final_score : Option N

pub record CompletionFact (N : Type 0) : Type 0 where
  pub course_id : String
  pub learner_id : String
  pub completed : Bool
  pub completion_percent : Option N

pub record SubmissionFact (N : Type 0) : Type 0 where
  pub course_id : String
  pub assignment_id : String
  pub learner_id : String
  pub score : Option N
  pub workflow_state : Option String
  pub submitted_at : Option String

pub record Facts (N : Type 0) : Type 0 where
  pub learner_id : String
  pub now_iso : String
  pub grades : List (GradeFact N)
  pub completions : List (CompletionFact N)
  pub submissions : List (SubmissionFact N)
  pub earned_badge_template_ids : List String

module _ {N : Type 0} (facts : Facts N) where
  -- The three searches, each for the learner of the facts.
  unfoldable pub find_grade : String → Option (GradeFact N)
  find_grade course =
      find (λ g. str_eq g.course_id course && str_eq g.learner_id facts.learner_id) facts.grades

  unfoldable pub find_completion : String → Option (CompletionFact N)
  find_completion course =
      find (λ c. str_eq c.course_id course && str_eq c.learner_id facts.learner_id)
        facts.completions

  unfoldable pub find_submission : String → String → Option (SubmissionFact N)
  find_submission course assignment =
      find
        (λ s.
          str_eq s.course_id course
          && (str_eq s.assignment_id assignment && str_eq s.learner_id facts.learner_id))
        facts.submissions
