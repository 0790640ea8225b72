-- ===== src/Rules/Relevant.antt =====
-- The facts that the evaluation of a rule reads, against the requirements of the rule.
use cred_trail.Prelude.{
  suc, ◌≡◌, refl, ap, ap₂, subst, inl, inr, Bool, true, false≢true, Option, none, some, List, [],
  ◌∷◌, ◌++◌, String, str_eq, eq_iff, if◌then◌else◌, Bool-cases, is_some, or_else, if-elim, length,
  any, All,
}
use cred_trail.Rules.{
  Numbers, Condition, Conditions, Predicate, all_of, any_of, not_of, predicate, grade_threshold,
  course_completion, program_completion, assignment_submission, prerequisite_badge, time_window,
  GradeThreshold, CourseCompletion, Nodes,
}
use cred_trail.Rules.Facts.{Facts, find_grade, find_completion, find_submission}
use cred_trail.Rules.Requirements.{
  Collected, collect, collect_all, add_text, add_texts, add_course, add_badge, extract_requirements,
  All-sorted,
}
use cred_trail.Rules.Leaf.{
  includes, grade_found, course_or_unknown, completion_found, is_completed, completed_count,
  program_counted, submission_found, badge_checked, window_at, evaluate_predicate,
}
use cred_trail.Rules.Evaluate.{evaluate_condition, evaluate_conditions, evaluate_definition}

module _ (P : String → Type 0) where
  included : (x : String) (xs : List String) → any (λ y. str_eq y x) xs ≡ true → All P xs → P x
  included x [] e h = absurd (false≢true e)
  included x (y ∷ ys) e h = elim (Bool-cases (str_eq y x)) [
    | inl same ↦ subst P ((eq_iff y x).0 same) h.0
    | inr other ↦
        let rest : any (λ z. str_eq z x) ys ≡ true = rw (other) at e in included x ys rest h.1
  ]

  All-front : (xs ys : List String) → All P (xs ++ ys) → All P xs × All P ys
  All-front [] ys h = (tt, h)
  All-front (x ∷ xs) ys h = let rest = All-front xs ys h.1 in ((h.0, rest.0), rest.1)

  All-add_text : (x : String) (xs : List String) → All P (add_text x xs) → P x × All P xs
  All-add_text x xs =
      if-elim (λ l. All P l → P x × All P xs) (any (λ y. str_eq y x) xs)
        (λ e h. (included x xs e h, h))
        (λ e h. let both = All-front xs (x ∷ []) h in (both.1.0, both.0))

  All-add_texts : (cs xs : List String) → All P (add_texts cs xs) → All P cs × All P xs
  All-add_texts [] xs h = (tt, h)
  All-add_texts (c ∷ cs) xs h =
      let rest = All-add_texts cs (add_text c xs) h in
      let both = All-add_text c xs rest.1 in ((both.0, rest.0), both.1)

-- Every course and badge that a predicate may leave out is given, as after the value lists are
-- resolved.
unfoldable mutual
  pub IsNamed : {N : Type 0} → Condition N → Type 0
  IsNamed (all_of cs) = AllNamed cs
  IsNamed (any_of cs) = AllNamed cs
  IsNamed (not_of c) = IsNamed c
  IsNamed (predicate (grade_threshold c)) = is_some c.course_id ≡ true
  IsNamed (predicate (course_completion c)) = is_some c.course_id ≡ true
  IsNamed (predicate (program_completion c)) = Unit
  IsNamed (predicate (assignment_submission c)) = Unit
  IsNamed (predicate (prerequisite_badge id)) = is_some id ≡ true
  IsNamed (predicate (time_window c)) = Unit

  pub AllNamed : {N : Type 0} → Conditions N → Type 0
  AllNamed Conditions.nil = Unit
  AllNamed (Conditions.cons c cs) = IsNamed c × AllNamed cs

module _ (js : Numbers) (f g : Facts js.Number) where
  open js use {Number}

  -- Both facts say the same about a course, and about a badge.
  abbrev pub SameCourse : String → Type 0
  SameCourse course =
      (find_grade f course ≡ find_grade g course)
      × (find_completion f course ≡ find_completion g course)
      × ((a : String) → find_submission f course a ≡ find_submission g course a)

  abbrev pub SameBadge : String → Type 0
  SameBadge badge =
      includes f.earned_badge_template_ids badge ≡ includes g.earned_badge_template_ids badge

  abbrev Same : Collected → Type 0
  Same acc = All SameCourse acc.course_ids × All SameBadge acc.badge_ids

  grade_alike :
      (c : GradeThreshold Number) (o : Option String) (acc : Collected)
      → Same (add_course o acc)
      → Same acc
        × (is_some o ≡ true
            → let course = course_or_unknown js o in
              grade_found js c course (find_grade f course)
              ≡ grade_found js c course (find_grade g course))
  grade_alike c none acc h = (h, λ e. absurd (false≢true e))
  grade_alike c (some course) acc h =
      let both = All-add_text SameCourse course acc.course_ids h.0 in
      ((both.1, h.1), λ e. ap (grade_found js c course) both.0.0)

  completion_alike :
      (c : CourseCompletion Number) (o : Option String) (acc : Collected)
      → Same (add_course o acc)
      → Same acc
        × (is_some o ≡ true
            → let course = course_or_unknown js o in
              completion_found js c course (find_completion f course)
              ≡ completion_found js c course (find_completion g course))
  completion_alike c none acc h = (h, λ e. absurd (false≢true e))
  completion_alike c (some course) acc h =
      let both = All-add_text SameCourse course acc.course_ids h.0 in
      ((both.1, h.1), λ e. ap (completion_found js c course) both.0.1)

  badge_alike :
      (o : Option String) (acc : Collected)
      → Same (add_badge o acc)
      → Same acc × (is_some o ≡ true → SameBadge (or_else o ""))
  badge_alike none acc h = (h, λ e. absurd (false≢true e))
  badge_alike (some b) acc h =
      let both = All-add_text SameBadge b acc.badge_ids h.1 in ((h.0, both.1), λ e. both.0)

  completed_same :
      (cs : List String) → All SameCourse cs → completed_count js f cs ≡ completed_count js g cs
  unfolding completed_count
  completed_same [] h = refl
  completed_same (c ∷ cs) h =
      ap₂ (λ o n. if is_completed js o then suc n else n) h.0.1 (completed_same cs h.1)

  predicate_alike :
      f.now_iso ≡ g.now_iso
      → (p : Predicate Number) (acc : Collected) → Same (collect (predicate p) acc)
      → Same acc × (IsNamed (predicate p) → evaluate_predicate js p f ≡ evaluate_predicate js p g)
  unfolding collect IsNamed evaluate_predicate
  predicate_alike now (grade_threshold c) acc h = grade_alike c c.course_id acc h
  predicate_alike now (course_completion c) acc h = completion_alike c c.course_id acc h
  predicate_alike now (program_completion c) acc h =
      let courses = or_else c.course_ids [] in
      let both = All-add_texts SameCourse courses acc.course_ids h.0 in
      (
        (both.1, h.1),
        λ e.
            ap
              (λ n.
                program_counted js n (length courses)
                  (or_else c.minimum_completed (length courses)))
              (completed_same courses both.0),
      )
  predicate_alike now (assignment_submission c) acc h =
      let both = All-add_text SameCourse c.course_id acc.course_ids h.0 in
      ((both.1, h.1), λ e. ap (submission_found js c) (both.0.2 c.assignment_id))
  predicate_alike now (prerequisite_badge id) acc h =
      let rest = badge_alike id acc h in
      (rest.0, λ e. ap (badge_checked js (or_else id "")) (rest.1 e))
  predicate_alike now (time_window c) acc h =
      (h, λ e. ap (λ t. window_at js c (js.parse_date t)) now)

  mutual
    unfolding collect IsNamed evaluate_condition

    condition_alike :
        f.now_iso ≡ g.now_iso
        → (c : Condition Number) (acc : Collected) → Same (collect c acc)
        → Same acc × (IsNamed c → evaluate_condition js f c ≡ evaluate_condition js g c)
    condition_alike now (all_of cs) acc h =
        let rest = conditions_alike now cs acc h in (rest.0, λ n. rw (rest.1 n) refl)
    condition_alike now (any_of cs) acc h =
        let rest = conditions_alike now cs acc h in (rest.0, λ n. rw (rest.1 n) refl)
    condition_alike now (not_of c) acc h =
        let rest = condition_alike now c acc h in (rest.0, λ n. rw (rest.1 n) refl)
    condition_alike now (predicate p) acc h = predicate_alike now p acc h

    conditions_alike :
        f.now_iso ≡ g.now_iso
        → (cs : Conditions Number) (acc : Collected) → Same (collect_all cs acc)
        → Same acc × (AllNamed cs → evaluate_conditions js f cs ≡ evaluate_conditions js g cs)
    conditions_alike now Conditions.nil acc h = (h, λ n. refl)
    conditions_alike now (Conditions.cons c cs) acc h =
        let rest = conditions_alike now cs (collect c acc) h in
        let first = condition_alike now c acc rest.0 in
        (first.0, λ n. ap₂ Nodes.cons (first.1 n.0) (rest.1 n.1))

-- A rule is evaluated alike, in its result and in every node, over two records of facts of the
-- same time that agree on the grade, the completion and the submissions of every course of its
-- requirements, and on having every prerequisite badge of them, provided that each predicate names
-- its course or badge.
pub evaluate_definition-extract_requirements :
    (js : Numbers) (text_lt : String → String → Bool) (c : Condition js.Number)
    (f g : Facts js.Number)
    → IsNamed c
    → f.now_iso ≡ g.now_iso
    → All (SameCourse js f g) (extract_requirements text_lt c).course_ids
    → All (SameBadge js f g) (extract_requirements text_lt c).prerequisite_badge_template_ids
    → evaluate_definition js c f ≡ evaluate_definition js c g
unfolding extract_requirements evaluate_definition
evaluate_definition-extract_requirements js text_lt c f g named now courses badges =
    let start : Collected = record { course_ids = []; assignment_refs = []; badge_ids = [] } in
    let found = collect c start in
    let same = condition_alike js f g now c start (
      All-sorted (SameCourse js f g) text_lt found.course_ids courses,
      All-sorted (SameBadge js f g) text_lt found.badge_ids badges,
    ) in
    rw (same.1 named) refl
