-- ===== src/Rules.antt =====
-- The rule engine that decides whether a learner has earned a badge:
-- apps/api-worker/src/rules/engine.ts, over the conditions of packages/validation/src/index.ts.
-- The numbers of the source (scores, percents, milliseconds) are a type parameter.
pub mod Facts
pub mod Leaf
pub mod Evaluate
pub mod Meaning
pub mod Sound
pub mod Matches
pub mod Summary
pub mod Requirements
pub mod Relevant
mod Tests
use cred_trail.Prelude.{ℕ, Bool, Option, List, String}

-- What the engine uses of JavaScript's numbers, dates and texts.
pub record Numbers : Type 1 where
  pub Number : Type 0
  pub lt : Number → Number → Bool
  pub to_fixed : Number → String  -- toFixed(2)
  pub to_text : Number → String
  pub count_text : ℕ → String
  pub parse_date : String → Option Number  -- `none` where Date.parse gives no finite number

pub data ScoreField : Type 0 where
  final_score current_score : ScoreField

-- The fields that the engine reads; an id of a value list is resolved before it runs.
pub record GradeThreshold (N : Type 0) : Type 0 where
  pub course_id : Option String
  pub score_field : Option ScoreField
  pub min_score : Option N
  pub max_score : Option N

pub record CourseCompletion (N : Type 0) : Type 0 where
  pub course_id : Option String
  pub require_completed : Option Bool
  pub min_completion_percent : Option N

pub record ProgramCompletion : Type 0 where
  pub course_ids : Option (List String)
  pub minimum_completed : Option ℕ

pub record AssignmentSubmission (N : Type 0) : Type 0 where
  pub course_id : String
  pub assignment_id : String
  pub min_score : Option N
  pub require_submitted : Option Bool
  pub workflow_states : Option (List String)

pub record TimeWindow : Type 0 where
  pub not_before : Option String
  pub not_after : Option String

pub data Predicate (N : Type 0) : Type 0 where
  grade_threshold : GradeThreshold N → Predicate N
  course_completion : CourseCompletion N → Predicate N
  program_completion : ProgramCompletion → Predicate N
  assignment_submission : AssignmentSubmission N → Predicate N
  prerequisite_badge : Option String → Predicate N
  time_window : TimeWindow → Predicate N

mutual
  pub data Condition (N : Type 0) : Type 0 where
    all_of : Conditions N → Condition N
    any_of : Conditions N → Condition N
    not_of : Condition N → Condition N
    predicate : Predicate N → Condition N

  pub data Conditions (N : Type 0) : Type 0 where
    nil : Conditions N
    cons : Condition N → Conditions N → Conditions N

pub data ResultKind : Type 0 where
  matched_kind failed_condition missing_data : ResultKind

-- A node of the evaluation: a predicate's, or a group's with its children.
mutual
  pub data Node : Type 0 where
    leaf : (type : String) (matched : Bool) (detail : String) (result_kind : ResultKind) → Node
    group : (type : String) (matched : Bool) (detail : String) (children : Nodes) → Node

  pub data Nodes : Type 0 where
    nil : Nodes
    cons : Node → Nodes → Nodes

abbrev pub is_matched : Node → Bool
is_matched (leaf t m d k) = m
is_matched (group t m d c) = m
