-- ===== src/Rules/Requirements.antt =====
-- `extractBadgeIssuanceRuleRequirements` of rules/engine.ts: the courses, assignments and badges
-- that a rule needs facts about.
use cred_trail.Prelude.{
  Bool, Option, none, some, List, [], ◌∷◌, ◌++◌, map, String, str_eq, if◌then◌else◌, or_else, ◌<>◌,
  if-elim, any, All,
}
use cred_trail.Rules.{
  Condition, Conditions, all_of, any_of, not_of, predicate, grade_threshold, course_completion,
  program_completion, assignment_submission, prerequisite_badge, time_window,
}

pub record AssignmentRef : Type 0 where
  pub course_id : String
  pub assignment_id : String

-- The two sets and the map that the collection fills, in the order of insertion.
pub record Collected : Type 0 where
  pub course_ids : List String
  pub assignment_refs : List (String × AssignmentRef)
  pub badge_ids : List String

abbrev assignment_key : String → String → String
assignment_key course assignment = course <> "::" <> assignment

-- `Set.add`
abbrev pub add_text : String → List String → List String
add_text x xs = if any (λ y. str_eq y x) xs then xs else xs ++ x ∷ []

-- `Map.set`: the value of a key that is there is replaced in its place.
pub set_ref : String → AssignmentRef → List (String × AssignmentRef) → List (String × AssignmentRef)
set_ref k ref [] = (k, ref) ∷ []
set_ref k ref (entry ∷ entries) =
    let rest = set_ref k ref entries in
    if str_eq entry.0 k then (k, ref) ∷ entries else entry ∷ rest

abbrev pub add_course : Option String → Collected → Collected
add_course none acc = acc
add_course (some c) acc = record acc { course_ids = add_text c acc.course_ids }

abbrev pub add_texts : List String → List String → List String
add_texts [] acc = acc
add_texts (c ∷ cs) acc = add_texts cs (add_text c acc)

abbrev pub add_badge : Option String → Collected → Collected
add_badge none acc = acc
add_badge (some b) acc = record acc { badge_ids = add_text b acc.badge_ids }

unfoldable mutual
  unfolding set_ref

  pub collect : {N : Type 0} → Condition N → Collected → Collected
  collect (all_of cs) acc = collect_all cs acc
  collect (any_of cs) acc = collect_all cs acc
  collect (not_of c) acc = collect c acc
  collect (predicate (grade_threshold c)) acc = add_course c.course_id acc
  collect (predicate (course_completion c)) acc = add_course c.course_id acc
  collect (predicate (program_completion c)) acc = record acc {
    course_ids = add_texts (or_else c.course_ids []) acc.course_ids;
  }
  collect (predicate (assignment_submission c)) acc = record acc {
    course_ids = add_text c.course_id acc.course_ids;
    assignment_refs =
        set_ref (assignment_key c.course_id c.assignment_id)
          (record { course_id = c.course_id; assignment_id = c.assignment_id }) acc.assignment_refs;
  }
  collect (predicate (prerequisite_badge id)) acc = add_badge id acc
  collect (predicate (time_window c)) acc = acc

  pub collect_all : {N : Type 0} → Conditions N → Collected → Collected
  collect_all Conditions.nil acc = acc
  collect_all (Conditions.cons c cs) acc = collect_all cs (collect c acc)

pub record Requirements : Type 0 where
  pub course_ids : List String
  pub assignment_refs : List AssignmentRef
  pub prerequisite_badge_template_ids : List String

-- `Array.sort` of texts, by their order.
abbrev insert_text : (String → String → Bool) → String → List String → List String
insert_text lt x [] = x ∷ []
insert_text lt x (y ∷ ys) = if lt y x then y ∷ insert_text lt x ys else x ∷ y ∷ ys

pub sorted : (String → String → Bool) → List String → List String
sorted lt [] = []
sorted lt (x ∷ xs) = insert_text lt x (sorted lt xs)

unfoldable pub extract_requirements :
    {N : Type 0} → (String → String → Bool) → Condition N → Requirements
unfolding sorted
extract_requirements lt conditions =
    let found =
      collect conditions (record { course_ids = []; assignment_refs = []; badge_ids = [] }) in
    record {
      course_ids = sorted lt found.course_ids;
      assignment_refs = map (λ entry. entry.1) found.assignment_refs;
      prerequisite_badge_template_ids = sorted lt found.badge_ids;
    }

All-insert_text :
    (P : String → Type 0) (lt : String → String → Bool) (x : String) (xs : List String)
    → All P (insert_text lt x xs)
    → P x × All P xs
All-insert_text P lt x [] h = h
All-insert_text P lt x (y ∷ ys) h =
    if-elim (λ l. All P l → P x × (P y × All P ys)) (lt y x)
      (λ e k. let rest = All-insert_text P lt x ys k.1 in (rest.0, (k.0, rest.1))) (λ e k. k) h

-- What holds of the sorted texts holds of the texts.
pub All-sorted :
    (P : String → Type 0) (lt : String → String → Bool) (xs : List String)
    → All P (sorted lt xs)
    → All P xs
unfolding sorted
All-sorted P lt [] h = tt
All-sorted P lt (x ∷ xs) h =
    let both = All-insert_text P lt x (sorted lt xs) h in (both.0, All-sorted P lt xs both.1)
