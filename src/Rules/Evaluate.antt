-- ===== src/Rules/Evaluate.antt =====
-- `evaluateCondition` and `evaluateBadgeIssuanceRuleDefinition` of rules/engine.ts.
use cred_trail.Prelude.{Bool, true, false, not, ◌&&◌, ◌||◌, if◌then◌else◌}
use cred_trail.Rules.{
  Numbers, Condition, Conditions, all_of, any_of, not_of, predicate, Node, Nodes, group, is_matched,
}
use cred_trail.Rules.Facts.{Facts}
use cred_trail.Rules.Leaf.{evaluate_predicate}

abbrev pub every_matched : Nodes → Bool
every_matched Nodes.nil = true
every_matched (Nodes.cons n ns) = is_matched n && every_matched ns

abbrev pub some_matched : Nodes → Bool
some_matched Nodes.nil = false
some_matched (Nodes.cons n ns) = is_matched n || some_matched ns

abbrev all_node : Nodes → Node
all_node children =
    group "all" (every_matched children)
      (if every_matched children then "All conditions matched" else "At least one condition failed")
      children

abbrev any_node : Nodes → Node
any_node children =
    group "any" (some_matched children)
      (if some_matched children then "At least one condition matched" else "No conditions matched")
      children

abbrev not_node : Node → Node
not_node child =
    group "not" (not (is_matched child))
      (if not (is_matched child) then "Negated condition matched" else "Negated condition failed")
      (Nodes.cons child Nodes.nil)

module _ (js : Numbers) where
  open js use {Number}

  unfoldable mutual
    pub evaluate_condition : Facts Number → Condition Number → Node
    evaluate_condition facts (all_of cs) = all_node (evaluate_conditions facts cs)
    evaluate_condition facts (any_of cs) = any_node (evaluate_conditions facts cs)
    evaluate_condition facts (not_of c) = not_node (evaluate_condition facts c)
    evaluate_condition facts (predicate p) = evaluate_predicate js p facts

    pub evaluate_conditions : Facts Number → Conditions Number → Nodes
    evaluate_conditions facts Conditions.nil = Nodes.nil
    evaluate_conditions facts (Conditions.cons c cs) =
        Nodes.cons (evaluate_condition facts c) (evaluate_conditions facts cs)

-- The result is whether the root matched, and the tree.
pub record EvaluationResult : Type 0 where
  pub matched : Bool
  pub tree : Node

unfoldable pub evaluate_definition :
    (js : Numbers) → Condition js.Number → Facts js.Number → EvaluationResult
evaluate_definition js conditions facts =
    let tree = evaluate_condition js facts conditions in
    record { matched = is_matched tree; tree = tree }
