-- ===== src/Prelude/Sets.antt =====
-- Sets of texts as the source makes them, `Array.from(new Set(xs))` and `sort`, and a table whose
-- row is written by INSERT … ON CONFLICT DO UPDATE.
use mathlib.Core.Path.{◌≡◌, refl, ap, ◌∙◌}
use mathlib.Core.Logic.{inl, inr}
use mathlib.Core.Bool.{Bool, true, false, not, ◌||◌}
use mathlib.Core.Option.{none, some}
use mathlib.Core.List.{List, [], ◌∷◌}
use native.Mathlib.Omega.{arith}
use Prim.Native.String.{String}
use text.Mathlib.Text.{◌==◌ as str_eq}
use text.Mathlib.TextEquality.{eq_iff}
use cred_trail.Prelude.Tests.{if◌then◌else◌, if-elim, Bool-cases}
use cred_trail.Prelude.Lists.{All, any, find, keep}

abbrev pub has : String → List String → Bool
has x xs = any (λ y. str_eq y x) xs

abbrev pub distinct : List String → List String
distinct [] = []
distinct (x ∷ xs) = x ∷ keep (λ y. not (str_eq y x)) (distinct xs)

-- A stable sort by a comparison, and what it keeps.
module _ {ℓ} {A : Type ℓ} (lt : A → A → Bool) where
  abbrev pub sort_in : A → List A → List A
  sort_in x [] = x ∷ []
  sort_in x (y ∷ ys) = if lt y x then y ∷ sort_in x ys else x ∷ y ∷ ys

  abbrev pub sort : List A → List A
  sort [] = []
  sort (x ∷ xs) = sort_in x (sort xs)

or_swap : (a b c : Bool) → (a || (b || c)) ≡ (b || (a || c))
or_swap a b c = ground arith

module _ {ℓ} {A : Type ℓ} (lt : A → A → Bool) (p : A → Bool) where
  any-sort_in : (y : A) (ys : List A) → any p (sort_in lt y ys) ≡ any p (y ∷ ys)
  any-sort_in y [] = refl
  any-sort_in y (z ∷ zs) =
      if-elim (λ l. any p l ≡ any p (y ∷ z ∷ zs)) (lt z y)
        (λ e. ap (λ b. p z || b) (any-sort_in y zs) ∙ or_swap (p z) (p y) (any p zs)) (λ e. refl)

  pub any-sort : (xs : List A) → any p (sort lt xs) ≡ any p xs
  any-sort [] = refl
  any-sort (y ∷ ys) = any-sort_in y (sort lt ys) ∙ ap (λ b. p y || b) (any-sort ys)

pub has-sort :
    (lt : String → String → Bool) (x : String) (xs : List String) → has x (sort lt xs) ≡ has x xs
has-sort lt x xs = any-sort lt (λ y. str_eq y x) xs

str_eq_other : (x y z : String) → str_eq y x ≡ false → str_eq z y ≡ true → str_eq z x ≡ false
str_eq_other x y z h e = rw ((eq_iff z y).0 e) h

has-keep :
    (x y : String) (zs : List String)
    → str_eq y x ≡ false
    → has x (keep (λ z. not (str_eq z y)) zs) ≡ has x zs
has-keep x y [] h = refl
has-keep x y (z ∷ zs) h = elim (Bool-cases (str_eq z y)) [
  | inl e ↦ rw (e, str_eq_other x y z h e) (has-keep x y zs h)
  | inr e ↦ rw (e) (ap (λ b. str_eq z x || b) (has-keep x y zs h))
]

pub has-distinct : (x : String) (xs : List String) → has x (distinct xs) ≡ has x xs
has-distinct x [] = refl
has-distinct x (y ∷ ys) = elim (Bool-cases (str_eq y x)) [
  | inl e ↦ rw (e) refl
  | inr e ↦ rw (e) (has-keep x y (distinct ys) e ∙ has-distinct x ys)
]

module _ {ℓ} {A : Type ℓ} where
  -- A row that matches is changed, and a new one is added where none does.
  abbrev pub upsert : (A → Bool) → (A → A) → A → List A → List A
  upsert matches change new [] = new ∷ []
  upsert matches change new (r ∷ rs) =
      if matches r then change r ∷ rs else r ∷ upsert matches change new rs

  -- Reading back the written row, and any other.
  pub find-upsert_self :
      (matches : A → Bool) (change : A → A) (new : A) (rs : List A)
      → matches new ≡ true
      → ((r : A) → matches r ≡ true → matches (change r) ≡ true)
      → find matches (upsert matches change new rs)
        ≡ elim (find matches rs) [ none ↦ some new | some r ↦ some (change r) ]
  find-upsert_self matches change new [] h k = rw (h) refl
  find-upsert_self matches change new (r ∷ rs) h k = elim (Bool-cases (matches r)) [
    | inl e ↦ rw (e, k r e) refl
    | inr e ↦ rw (e, e) (find-upsert_self matches change new rs h k)
  ]

  pub find-upsert_other :
      (p matches : A → Bool) (change : A → A) (new : A) (rs : List A)
      → p new ≡ false
      → ((r : A) → matches r ≡ true → (p r ≡ false) × (p (change r) ≡ false))
      → find p (upsert matches change new rs) ≡ find p rs
  find-upsert_other p matches change new [] h k = rw (h) refl
  find-upsert_other p matches change new (r ∷ rs) h k = elim (Bool-cases (matches r)) [
    | inl e ↦ rw (e, (k r e).0, (k r e).1) refl
    | inr e ↦
        rw (e) (ap (λ o. if p r then some r else o) (find-upsert_other p matches change new rs h k))
  ]

  pub find-removed : (p : A → Bool) (rs : List A) → find p (keep (λ r. not (p r)) rs) ≡ none
  find-removed p [] = refl
  find-removed p (r ∷ rs) = elim (Bool-cases (p r)) [
    | inl e ↦ rw (e) (find-removed p rs)
    | inr e ↦ rw (e, e) (find-removed p rs)
  ]

  pub find-kept :
      (p matches : A → Bool) (rs : List A)
      → ((r : A) → matches r ≡ true → p r ≡ false)
      → find p (keep (λ r. not (matches r)) rs) ≡ find p rs
  find-kept p matches [] h = refl
  find-kept p matches (r ∷ rs) h = elim (Bool-cases (matches r)) [
    | inl e ↦ rw (e, h r e) (find-kept p matches rs h)
    | inr e ↦ rw (e) (ap (λ o. if p r then some r else o) (find-kept p matches rs h))
  ]

pub All-kept {ℓ κ} :
    {A : Type ℓ} (P : A → Type κ) (p : A → Bool) (xs : List A) → All P xs → All P (keep p xs)
All-kept P p [] h = tt
All-kept P p (x ∷ xs) h =
    if-elim (All P) (p x) (λ e. (h.0, All-kept P p xs h.1)) (λ e. All-kept P p xs h.1)

All-sort_in {ℓ κ} :
    {A : Type ℓ} (P : A → Type κ) (lt : A → A → Bool) (x : A) (xs : List A)
    → P x
    → All P xs
    → All P (sort_in lt x xs)
All-sort_in P lt x [] p ps = (p, tt)
All-sort_in P lt x (y ∷ ys) p ps =
    if-elim (All P) (lt y x) (λ e. (ps.0, All-sort_in P lt x ys p ps.1)) (λ e. (p, ps))

pub All-sort {ℓ κ} :
    {A : Type ℓ} (P : A → Type κ) (lt : A → A → Bool) (xs : List A) → All P xs → All P (sort lt xs)
All-sort P lt [] h = tt
All-sort P lt (x ∷ xs) h = All-sort_in P lt x (sort lt xs) h.0 (All-sort P lt xs h.1)
