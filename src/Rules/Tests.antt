-- ===== src/Rules/Tests.antt =====
-- A rule of two predicates, run on one learner's facts, and the instances of the theorems.
use cred_trail.Prelude.{
  ℕ, ◌≡◌, refl, ◌↔◌, Bool, true, none, some, [], ◌∷◌, String, str_eq, ltb, if◌then◌else◌, All,
}
use cred_trail.Rules.{
  Condition, Numbers, Conditions, grade_threshold, prerequisite_badge, all_of, not_of, predicate,
}
use cred_trail.Rules.Matches.{evaluate_definition-Holds}
use cred_trail.Rules.Summary.{summarize-total, summarize_evaluation, total, predicate_count}
use cred_trail.Rules.Meaning.{Holds}
use cred_trail.Rules.Leaf.{evaluate_predicate}
use cred_trail.Rules.Facts.{find_grade, Facts, find_completion, find_submission}
use cred_trail.Rules.Evaluate.{evaluate_condition, evaluate_definition}
use cred_trail.Rules.Requirements.{extract_requirements, collect}
use cred_trail.Rules.Relevant.{
  IsNamed, SameCourse, SameBadge, evaluate_definition-extract_requirements,
}

abbrev js : Numbers
js = record {
  Number = ℕ;
  lt = ltb;
  to_fixed = λ n. "n";
  to_text = λ n. "n";
  count_text = λ n. "n";
  parse_date = λ s. if str_eq s "now" then some 5 else none;
}

abbrev facts : Facts ℕ
facts = record {
  learner_id = "l";
  now_iso = "now";
  grades =
      (record { course_id = "c"; learner_id = "l"; current_score = some 70; final_score = none })
      ∷ [];
  completions = [];
  submissions = [];
  earned_badge_template_ids = "b" ∷ [];
}

abbrev passed : Condition ℕ
passed = predicate (
    grade_threshold
      (record { course_id = some "c"; score_field = none; min_score = some 60; max_score = none }))

abbrev rule : Condition ℕ
rule = all_of (
    Conditions.cons passed
      (Conditions.cons (not_of (predicate (prerequisite_badge (some "x")))) Conditions.nil))

rule_matches : (evaluate_definition js rule facts).matched ≡ true
unfolding evaluate_definition evaluate_condition evaluate_predicate find_grade
rule_matches = refl

evaluate_definition-Holds_example :
    ((evaluate_definition js rule facts).matched ≡ true) ↔ Holds js facts rule
evaluate_definition-Holds_example = evaluate_definition-Holds js rule facts

summarize-total_example :
    total (summarize_evaluation (evaluate_definition js rule facts)) ≡ predicate_count rule
summarize-total_example = summarize-total js rule facts

-- The same learner with facts that the rule does not ask for.
abbrev more_facts : Facts ℕ
more_facts = record facts {
  grades =
      (record { course_id = "d"; learner_id = "l"; current_score = none; final_score = some 10 })
      ∷ facts.grades;
  earned_badge_template_ids = "z" ∷ "b" ∷ [];
}

abbrev order : String → String → Bool
order s t = str_eq s "a"

rule-IsNamed : IsNamed rule
unfolding IsNamed
rule-IsNamed = (refl, (refl, tt))

same_courses : All (SameCourse js facts more_facts) (extract_requirements order rule).course_ids
unfolding extract_requirements collect find_grade find_completion find_submission
same_courses = ((refl, refl, λ a. refl), tt)

same_badges :
    All
      (SameBadge js facts more_facts)
      (extract_requirements order rule).prerequisite_badge_template_ids
unfolding extract_requirements collect
same_badges = (refl, tt)

evaluate_definition-extract_requirements_example :
    evaluate_definition js rule facts ≡ evaluate_definition js rule more_facts
evaluate_definition-extract_requirements_example =
    evaluate_definition-extract_requirements js order rule facts more_facts rule-IsNamed refl
      same_courses same_badges
