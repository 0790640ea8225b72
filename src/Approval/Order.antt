-- ===== src/Approval/Order.antt =====
-- The steps of a version in the order of their numbers: approved ones, then the pending one, then
-- the queued ones; and what the approval of the pending step makes of them.
use cred_trail.Prelude.{
  ℕ, ◌<◌, ◌≡◌, refl, sym, ap, ap₂, subst, ◌∙◌, ◌≢◌, ◌⊎◌, inl, inr, Bool, true, false, ◌&&◌, Option,
  none, some, List, [], ◌∷◌, map, arith, ltb, ◌==◌, lt→ltb, ==_iff, ==_self, Bool-cases, if-elim,
  and_right, ltb-ge, some-inj, find, All,
}
use cred_trail.Approval.{Step, queued_step, pending_step, approved_step, VersionKey, is_step}
use cred_trail.Approval.Workflow.{is_pending_step}
use cred_trail.Approval.Steps.{set_step}
use cred_trail.Approval.View.{KeepsStep}

abbrev pub Increasing : List Step → Type 0
Increasing [] = Unit
Increasing (s ∷ ss) = All (λ t. s.step_number < t.step_number) ss × Increasing ss

abbrev pub IsQueued : Step → Type 0
IsQueued s = s.status ≡ queued_step

abbrev pub IsApproved : Step → Type 0
IsApproved s = s.status ≡ approved_step

abbrev pub InOrder : List Step → Type 0
InOrder [] = ⊥
InOrder (s ∷ ss) = (IsApproved s × InOrder ss) ⊎ ((s.status ≡ pending_step) × All IsQueued ss)

pub set_step-other :
    (key : VersionKey) (n : ℕ) (f : Step → Step) (s : Step)
    → s.step_number ≢ n
    → set_step key n f s ≡ s
unfolding set_step
set_step-other key n f s other =
    if-elim (λ x. x ≡ s) (is_step key s && (s.step_number == n))
      (λ e. absurd (other ((==_iff s.step_number n).0 (and_right (is_step key s) _ e)))) (λ e. refl)

pub set_step_self :
    (key : VersionKey) (f : Step → Step) (s : Step)
    → is_step key s ≡ true
    → set_step key s.step_number f s ≡ f s
unfolding set_step
set_step_self key f s own = rw (own, ==_self s.step_number) refl

pub set_step-later :
    (key : VersionKey) (n : ℕ) (f : Step → Step) (ss : List Step)
    → All (λ t. n < t.step_number) ss
    → map (set_step key n f) ss ≡ ss
set_step-later key n f [] h = refl
set_step-later key n f (s ∷ ss) h =
    ap₂ (λ x xs. x ∷ xs) (set_step-other key n f s (λ e. absurd (omega (arith, h.0, e))))
      (set_step-later key n f ss h.1)

not-Pending : (s : Step) → IsApproved s → is_pending_step s ≡ false
not-Pending s h = rw (h) refl

at_pending : (s : Step) → s.status ≡ pending_step → is_pending_step s ≡ true
at_pending s h = rw (h) refl

found-All :
    (P : Step → Type 0) (p : Step → Bool) (ss : List Step) (s : Step)
    → All P ss
    → find p ss ≡ some s
    → P s
found-All P p [] s h e = absurd (cc e)
found-All P p (x ∷ xs) s h e = elim (Bool-cases (p x)) [
  | inl hit ↦
      let same : ◌≡◌ {A = Option Step} (some x) (some s) = rw (hit) at e in
      subst P (some-inj x s same) h.0
  | inr miss ↦ let rest : find p xs ≡ some s = rw (miss) at e in found-All P p xs s h.1 rest
]

module _ (key : VersionKey) (f g : Step → Step)
    (approves : (s : Step) → (f s).status ≡ approved_step) (keeps : KeepsStep f)
    (waits : (s : Step) → (g s).status ≡ pending_step) where
  -- The pending step is at the head.
  head_last :
      (s : Step) (ss : List Step)
      → is_step key s ≡ true
      → All (λ t. s.step_number < t.step_number) ss
      → find (λ t. ltb s.step_number t.step_number) ss ≡ none
      → All IsApproved (map (set_step key s.step_number f) (s ∷ ss))
  head_last s [] own later e = (ap (λ x. x.status) (set_step_self key f s own) ∙ approves s, tt)
  head_last s (x ∷ xs) own later e =
      let no : ◌≡◌ {A = Option Step} (some x) none =
        rw (lt→ltb s.step_number x.step_number later.0) at e in
      absurd (cc no)

  head_next :
      (s x : Step) (ss : List Step)
      → is_step key s ≡ true
      → All (λ t. is_step key t ≡ true) ss
      → All (λ t. s.step_number < t.step_number) ss
      → Increasing ss
      → All IsQueued ss
      → find (λ t. ltb s.step_number t.step_number) ss ≡ some x
      → InOrder (map (set_step key x.step_number g) (map (set_step key s.step_number f) (s ∷ ss)))
  head_next s x [] own owns later inc queued e = absurd (cc e)
  head_next s x (y ∷ ys) own owns later inc queued e =
      let hit : ◌≡◌ {A = Option Step} (some y) (some x) =
        rw (lt→ltb s.step_number y.step_number later.0) at e in
      let number = (keeps s).2 in
      let above = later.0 in
      let first =
        ap₂ (λ a l. a ∷ l) (set_step_self key f s own)
          (set_step-later key s.step_number f (y ∷ ys) later) in
      let second =
        ap₂ (λ a l. a ∷ l) (set_step-other key y.step_number g (f s) (λ q. absurd (omega arith)))
          (ap₂ (λ a l. a ∷ l) (set_step_self key g y owns.0)
            (set_step-later key y.step_number g ys inc.0)) in
      subst
        (λ c.
          InOrder
            (map (set_step key c.step_number g) (map (set_step key s.step_number f) (s ∷ y ∷ ys))))
        (some-inj y x hit)
        (subst InOrder (sym (ap (map (set_step key y.step_number g)) first ∙ second))
          (inl (approves s, inr (waits y, queued.1))))

  pub approve_last :
      (ss : List Step) (s : Step)
      → Increasing ss
      → All (λ t. is_step key t ≡ true) ss
      → InOrder ss
      → find is_pending_step ss ≡ some s
      → find (λ t. ltb s.step_number t.step_number) ss ≡ none
      → All IsApproved (map (set_step key s.step_number f) ss)
  approve_last [] s inc owns order e last = tt
  approve_last (x ∷ xs) s inc owns (inl h) e last =
      let rest : find is_pending_step xs ≡ some s = rw (not-Pending x h.0) at e in
      let above = found-All (λ t. x.step_number < t.step_number) is_pending_step xs s inc.0 rest in
      let last₁ : find (λ t. ltb s.step_number t.step_number) xs ≡ none =
        rw (ltb-ge s.step_number x.step_number (omega arith)) at last in
      (
        ap (λ (t : Step). t.status)
              (set_step-other key s.step_number f x (λ q. absurd (omega arith)))
            ∙ h.0,
        approve_last xs s inc.1 owns.1 h.1 rest last₁,
      )
  approve_last (x ∷ xs) s inc owns (inr h) e last =
      let hit : ◌≡◌ {A = Option Step} (some x) (some s) = rw (at_pending x h.0) at e in
      subst
        (λ c.
          find (λ t. ltb c.step_number t.step_number) (x ∷ xs) ≡ none
          → All IsApproved (map (set_step key c.step_number f) (x ∷ xs)))
        (some-inj x s hit)
        (λ l.
          let rest : find (λ t. ltb x.step_number t.step_number) xs ≡ none =
            rw (ltb-ge x.step_number x.step_number (omega arith)) at l in
          head_last x xs owns.0 inc.0 rest)
        last

  pub approve_next :
      (ss : List Step) (s x : Step)
      → Increasing ss
      → All (λ t. is_step key t ≡ true) ss
      → InOrder ss
      → find is_pending_step ss ≡ some s
      → find (λ t. ltb s.step_number t.step_number) ss ≡ some x
      → InOrder (map (set_step key x.step_number g) (map (set_step key s.step_number f) ss))
  approve_next [] s x inc owns order e next = order
  approve_next (y ∷ ys) s x inc owns (inl h) e next =
      let rest : find is_pending_step ys ≡ some s = rw (not-Pending y h.0) at e in
      let above = found-All (λ t. y.step_number < t.step_number) is_pending_step ys s inc.0 rest in
      let next₁ : find (λ t. ltb s.step_number t.step_number) ys ≡ some x =
        rw (ltb-ge s.step_number y.step_number (omega arith)) at next in
      let beyond =
        found-All (λ t. y.step_number < t.step_number) (λ t. ltb s.step_number t.step_number) ys x
          inc.0 next₁ in
      let same =
        ap (set_step key x.step_number g)
          (set_step-other key s.step_number f y (λ q. absurd (omega arith)))
        ∙ set_step-other key x.step_number g y (λ q. absurd (omega arith)) in
      inl (ap (λ (t : Step). t.status) same ∙ h.0, approve_next ys s x inc.1 owns.1 h.1 rest next₁)
  approve_next (y ∷ ys) s x inc owns (inr h) e next =
      let hit : ◌≡◌ {A = Option Step} (some y) (some s) = rw (at_pending y h.0) at e in
      subst
        (λ c.
          find (λ t. ltb c.step_number t.step_number) (y ∷ ys) ≡ some x
          → InOrder
              (map (set_step key x.step_number g) (map (set_step key c.step_number f) (y ∷ ys))))
        (some-inj y s hit)
        (λ l.
          let rest : find (λ t. ltb y.step_number t.step_number) ys ≡ some x =
            rw (ltb-ge y.step_number y.step_number (omega arith)) at l in
          head_next y x ys owns.0 owns.1 inc.0 inc.1 h.1 rest)
        next
