-- ===== src/Rules/Summary.antt =====
-- `summarizeBadgeIssuanceRuleEvaluation` of rules/engine.ts: the leaves of an evaluation counted by
-- their result.
use cred_trail.Prelude.{
  ℕ, ◌+◌, ◌≡◌, refl, Bool, true, false, not, ◌&&◌, Option, none, some, arith, String, ltb,
  if◌then◌else◌, or_else,
}
use cred_trail.Rules.{
  Numbers, Condition, Conditions, all_of, any_of, not_of, predicate, Node, Nodes, leaf, group,
  ResultKind, matched_kind, failed_condition, missing_data, GradeThreshold, Predicate,
  CourseCompletion, AssignmentSubmission, TimeWindow, final_score, grade_threshold,
  course_completion, program_completion, assignment_submission, prerequisite_badge, time_window,
}
use cred_trail.Rules.Facts.{Facts, GradeFact, CompletionFact, SubmissionFact}
use cred_trail.Rules.Evaluate.{
  EvaluationResult, evaluate_condition, evaluate_conditions, evaluate_definition, every_matched,
  some_matched,
}
use cred_trail.Rules.Leaf.{
  grade_score, evaluate_predicate, score_of, below, above, null_or_below, grade_found,
  course_or_unknown, completion_found, program_counted, is_submitted, state_refused,
  submission_found, badge_checked, parsed, window_at,
}

pub record EvaluationSummary : Type 0 where
  pub matched_leaf_count : ℕ
  pub failed_condition_count : ℕ
  pub missing_data_count : ℕ

count_kind : ResultKind → EvaluationSummary → EvaluationSummary
count_kind matched_kind s = record s { matched_leaf_count = s.matched_leaf_count + 1 }
count_kind failed_condition s = record s { failed_condition_count = s.failed_condition_count + 1 }
count_kind missing_data s = record s { missing_data_count = s.missing_data_count + 1 }

-- `visit`; a group with no children has no result of its own, and counts as failed.
mutual
  visit : Node → EvaluationSummary → EvaluationSummary
  visit (leaf t m d k) s = count_kind k s
  visit (group t m d Nodes.nil) s = count_kind failed_condition s
  visit (group t m d (Nodes.cons n ns)) s = visit_all ns (visit n s)

  visit_all : Nodes → EvaluationSummary → EvaluationSummary
  visit_all Nodes.nil s = s
  visit_all (Nodes.cons n ns) s = visit_all ns (visit n s)

unfoldable pub summarize_evaluation : EvaluationResult → EvaluationSummary
unfolding visit count_kind
summarize_evaluation e =
    visit e.tree
      (record { matched_leaf_count = 0; failed_condition_count = 0; missing_data_count = 0 })

abbrev pub total : EvaluationSummary → ℕ
total s = s.matched_leaf_count + s.failed_condition_count + s.missing_data_count

-- The leaves of an evaluation; a group with no child counts once.
mutual
  leaf_count : Node → ℕ
  leaf_count (leaf t m d k) = 1
  leaf_count (group t m d Nodes.nil) = 1
  leaf_count (group t m d (Nodes.cons n ns)) = leaf_count n + leaves_count ns

  leaves_count : Nodes → ℕ
  leaves_count Nodes.nil = 0
  leaves_count (Nodes.cons n ns) = leaf_count n + leaves_count ns

total-count_kind : (k : ResultKind) (s : EvaluationSummary) → total (count_kind k s) ≡ total s + 1
unfolding count_kind
total-count_kind matched_kind s = omega arith
total-count_kind failed_condition s = omega arith
total-count_kind missing_data s = omega arith

mutual
  unfolding visit leaf_count

  total-visit : (n : Node) (s : EvaluationSummary) → total (visit n s) ≡ total s + leaf_count n
  total-visit (leaf t m d k) s = total-count_kind k s
  total-visit (group t m d Nodes.nil) s = total-count_kind failed_condition s
  total-visit (group t m d (Nodes.cons n ns)) s =
      omega (arith, total-visit n s, total-visit_all ns (visit n s))

  total-visit_all :
      (ns : Nodes) (s : EvaluationSummary) → total (visit_all ns s) ≡ total s + leaves_count ns
  total-visit_all Nodes.nil s = omega arith
  total-visit_all (Nodes.cons n ns) s =
      omega (arith, total-visit n s, total-visit_all ns (visit n s))

-- The predicates of a rule; a group with no part counts once.
mutual
  pub predicate_count : {N : Type 0} → Condition N → ℕ
  predicate_count (all_of cs) = group_count cs
  predicate_count (any_of cs) = group_count cs
  predicate_count (not_of c) = predicate_count c
  predicate_count (predicate p) = 1

  pub group_count : {N : Type 0} → Conditions N → ℕ
  group_count Conditions.nil = 1
  group_count (Conditions.cons c cs) = predicate_count c + predicates_count cs

  pub predicates_count : {N : Type 0} → Conditions N → ℕ
  predicates_count Conditions.nil = 0
  predicates_count (Conditions.cons c cs) = predicate_count c + predicates_count cs

leaf_if :
    (b : Bool) (m n : Node)
    → leaf_count m ≡ 1
    → leaf_count n ≡ 1
    → leaf_count (if b then m else n) ≡ 1
leaf_if true m n hm hn = hm
leaf_if false m n hm hn = hn

module _ (js : Numbers) (facts : Facts js.Number) where
  open js use {Number, lt, parse_date}

  grade_leaf :
      (c : GradeThreshold Number) (course : String) (s : Option Number)
      → leaf_count (grade_score js c course s) ≡ 1
  unfolding grade_score leaf_count
  grade_leaf c course none = refl
  grade_leaf c course (some s) =
      leaf_if (below lt s c.min_score) _ _ refl (leaf_if (above lt s c.max_score) _ _ refl refl)

  found_leaf :
      (c : GradeThreshold Number) (course : String) (g : Option (GradeFact Number))
      → leaf_count (grade_found js c course g) ≡ 1
  unfolding grade_found leaf_count
  found_leaf c course none = refl
  found_leaf c course (some g) =
      grade_leaf c course
        (score_of (or_else c.score_field final_score) g.current_score g.final_score)

  completion_leaf :
      (c : CourseCompletion Number) (course : String) (f : Option (CompletionFact Number))
      → leaf_count (completion_found js c course f) ≡ 1
  unfolding completion_found leaf_count
  completion_leaf c course none = refl
  completion_leaf c course (some f) =
      leaf_if (or_else c.require_completed true && not f.completed) _ _ refl
        (leaf_if (null_or_below lt f.completion_percent c.min_completion_percent) _ _ refl refl)

  program_leaf : (n m k : ℕ) → leaf_count (program_counted js n m k) ≡ 1
  unfolding program_counted leaf_count
  program_leaf n m k = leaf_if (ltb n k) _ _ refl refl

  submission_leaf :
      (c : AssignmentSubmission Number) (s : Option (SubmissionFact Number))
      → leaf_count (submission_found js c s) ≡ 1
  unfolding submission_found leaf_count
  submission_leaf c none = refl
  submission_leaf c (some s) =
      leaf_if (or_else c.require_submitted true && not (is_submitted js s)) _ _ refl (
        leaf_if (null_or_below lt s.score c.min_score) _ _ refl
          (leaf_if (state_refused js c.workflow_states s.workflow_state) _ _ refl refl))

  badge_leaf : (id : String) (b : Bool) → leaf_count (badge_checked js id b) ≡ 1
  unfolding badge_checked leaf_count
  badge_leaf id true = refl
  badge_leaf id false = refl

  window_leaf : (c : TimeWindow) (now : Option Number) → leaf_count (window_at js c now) ≡ 1
  unfolding window_at leaf_count
  window_leaf c none = refl
  window_leaf c (some now) =
      leaf_if (below lt now (parsed js c.not_before)) _ _ refl
        (leaf_if (above lt now (parsed js c.not_after)) _ _ refl refl)

  predicate_leaf : (p : Predicate Number) → leaf_count (evaluate_predicate js p facts) ≡ 1
  unfolding evaluate_predicate
  predicate_leaf (grade_threshold c) = found_leaf c (course_or_unknown js c.course_id) _
  predicate_leaf (course_completion c) = completion_leaf c (course_or_unknown js c.course_id) _
  predicate_leaf (program_completion c) = program_leaf _ _ _
  predicate_leaf (assignment_submission c) = submission_leaf c _
  predicate_leaf (prerequisite_badge id) = badge_leaf _ _
  predicate_leaf (time_window c) = window_leaf c _

  mutual
    unfolding evaluate_condition leaf_count predicate_count

    leaf_count-evaluate :
        (c : Condition Number) → leaf_count (evaluate_condition js facts c) ≡ predicate_count c
    leaf_count-evaluate (all_of cs) =
        group_evaluate cs "all" (every_matched (evaluate_conditions js facts cs)) (
          if every_matched (evaluate_conditions js facts cs)
          then "All conditions matched"
          else "At least one condition failed")
    leaf_count-evaluate (any_of cs) =
        group_evaluate cs "any" (some_matched (evaluate_conditions js facts cs)) (
          if some_matched (evaluate_conditions js facts cs)
          then "At least one condition matched"
          else "No conditions matched")
    leaf_count-evaluate (not_of c) = omega (arith, leaf_count-evaluate c)
    leaf_count-evaluate (predicate p) = predicate_leaf p

    group_evaluate :
        (cs : Conditions Number) (t : String) (m : Bool) (d : String)
        → leaf_count (group t m d (evaluate_conditions js facts cs)) ≡ group_count cs
    group_evaluate Conditions.nil t m d = refl
    group_evaluate (Conditions.cons c cs) t m d =
        omega (arith, leaf_count-evaluate c, leaves_count-evaluate cs)

    leaves_count-evaluate :
        (cs : Conditions Number)
        → leaves_count (evaluate_conditions js facts cs) ≡ predicates_count cs
    leaves_count-evaluate Conditions.nil = refl
    leaves_count-evaluate (Conditions.cons c cs) =
        omega (arith, leaf_count-evaluate c, leaves_count-evaluate cs)

-- The three counts of the summary of an evaluation add up to the number of predicates of the rule,
-- an empty group counting as one.
pub summarize-total :
    (js : Numbers) (c : Condition js.Number) (facts : Facts js.Number)
    → total (summarize_evaluation (evaluate_definition js c facts)) ≡ predicate_count c
unfolding summarize_evaluation evaluate_definition
summarize-total js c facts = omega (
  arith,
  total-visit (evaluate_condition js facts c)
      (record { matched_leaf_count = 0; failed_condition_count = 0; missing_data_count = 0 }),
  leaf_count-evaluate js facts c,
)
