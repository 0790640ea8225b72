-- ===== src/Prelude/Marks.antt =====
-- Rows that are found by a key and are marked once and for all: a code that is used, a token that
-- is revoked, a nonce that is consumed.
use mathlib.Core.Path.{◌≡◌, refl, sym, ◌∙◌}
use mathlib.Core.Logic.{inl, inr}
use mathlib.Core.Bool.{Bool, true, false, false≢true}
use mathlib.Core.Option.{Option, none, some}
use mathlib.Core.List.{List, [], ◌∷◌, ◌++◌, map}
use cred_trail.Prelude.Tests.{if◌then◌else◌, if-elim, Bool-cases, Option-cases, none≢some}
use cred_trail.Prelude.Lists.{
  any, find, All, All-append, All-map, All-weaken, Pairwise, any-append_left, any-map, any-weaken,
  find-All, find-true, find-any,
}

module _ {A : Type 0} where
  -- An UPDATE … WHERE matches, and what its RETURNING gives to a caller that reads one row.
  abbrev pub update : (A → Bool) → (A → A) → List A → List A
  update matches change rows = map (λ r. if matches r then change r else r) rows

  abbrev pub returning : (A → Bool) → (A → A) → List A → Option A
  returning matches change rows = elim (find matches rows) [
    | none ↦ none
    | some r ↦ some (change r)
  ]

  -- There are rows of the key, and all of them are marked.
  abbrev pub IsMarked : (key marked : A → Bool) → List A → Type 0
  IsMarked key marked rows = (any key rows ≡ true) × All (λ r. key r ≡ true → marked r ≡ true) rows

  -- No two rows are of the key.
  abbrev pub IsUnique : (A → Bool) → List A → Type 0
  IsUnique key rows = Pairwise (λ x y. key x ≡ true → key y ≡ true → ⊥) rows

  -- Where a row of the key is found by a stronger test, every row of the key passes the test.
  unique-find :
      (key matches : A → Bool) (rows : List A) (r : A)
      → ((x : A) → matches x ≡ true → key x ≡ true)
      → IsUnique key rows
      → find matches rows ≡ some r
      → All (λ x. key x ≡ true → matches x ≡ true) rows
  unique-find key matches [] r h u e = tt
  unique-find key matches (x ∷ xs) r h u e = elim (Bool-cases (matches x)) [
    | inl c ↦ (
      λ k. c,
      All-weaken (λ y. key x ≡ true → key y ≡ true → ⊥) (λ y. key y ≡ true → matches y ≡ true) xs
          (λ y apart k. absurd (apart (h x c) k)) u.0,
    )
    | inr c ↦
        let there : find matches xs ≡ some r = rw (c) at e in
        (
          λ k. absurd (
              find-All (λ y. key x ≡ true → key y ≡ true → ⊥) matches xs r u.0 there k
                (h r (find-true matches xs r there))),
          unique-find key matches xs r h u.1 there,
        )
  ]

  -- An UPDATE that returns a row of the key has marked the key.
  pub returning-IsMarked :
      (key marked matches : A → Bool) (change : A → A) (rows : List A) (r : A)
      → ((x : A) → matches x ≡ true → key x ≡ true)
      → ((x : A) → key (change x) ≡ key x)
      → ((x : A) → marked (change x) ≡ true)
      → IsUnique key rows
      → returning matches change rows ≡ some r
      → IsMarked key marked (update matches change rows)
  returning-IsMarked key marked matches change rows r h k m u e =
      elim (Option-cases (find matches rows)) [
        | inl missing ↦ absurd (none≢some (rw (returning, missing) at e))
        | inr (x, found) ↦ (
          any-map key (λ r. if matches r then change r else r) rows
              ∙ any-weaken matches (λ r. key (if matches r then change r else r)) rows
                  (λ r c. if-elim (λ x. key x ≡ true) (matches r) (λ e. k r ∙ h r c) (λ e. h r c))
                  (find-any matches rows x found),
          All-map (λ r. key r ≡ true → matches r ≡ true) (λ r. key r ≡ true → marked r ≡ true)
              (λ r. if matches r then change r else r) rows
              (λ r own.
                if-elim (λ x. key x ≡ true → marked x ≡ true) (matches r) (λ c o. m r)
                  (λ c o. absurd (false≢true (sym c ∙ own o))))
              (unique-find key matches rows x h u found),
        )
      ]

  -- An UPDATE that keeps the key and never takes a mark away leaves the marks.
  pub update-IsMarked :
      (key marked matches : A → Bool) (change : A → A) (rows : List A)
      → ((x : A) → key (change x) ≡ key x)
      → ((x : A) → marked x ≡ true → marked (change x) ≡ true)
      → IsMarked key marked rows
      → IsMarked key marked (update matches change rows)
  update-IsMarked key marked matches change rows k m (there, all_marked) = (
    any-map key (λ r. if matches r then change r else r) rows
        ∙ any-weaken key (λ r. key (if matches r then change r else r)) rows
            (λ r h. if-elim (λ x. key x ≡ true) (matches r) (λ e. k r ∙ h) (λ e. h)) there,
    All-map (λ r. key r ≡ true → marked r ≡ true) (λ r. key r ≡ true → marked r ≡ true)
        (λ r. if matches r then change r else r) rows
        (λ r h.
          if-elim (λ x. key x ≡ true → marked x ≡ true) (matches r)
            (λ e own. m r (h (sym (k r) ∙ own))) (λ e. h))
        all_marked,
  )

  -- A new row of another key leaves them too.
  pub insert-IsMarked :
      (key marked : A → Bool) (rows : List A) (new : A)
      → key new ≡ false
      → IsMarked key marked rows
      → IsMarked key marked (rows ++ new ∷ [])
  insert-IsMarked key marked rows new h (there, all_marked) = (
    any-append_left key rows (new ∷ []) there,
    All-append (λ r. key r ≡ true → marked r ≡ true) rows (new ∷ []) all_marked
        ((λ own. absurd (false≢true (sym h ∙ own))), tt),
  )

  none_matches :
      (key marked matches : A → Bool) (rows : List A)
      → ((x : A) → matches x ≡ true → (key x ≡ true) × (marked x ≡ false))
      → All (λ r. key r ≡ true → marked r ≡ true) rows
      → find matches rows ≡ none
  none_matches key marked matches [] h all_marked = refl
  none_matches key marked matches (x ∷ xs) h all_marked = elim (Bool-cases (matches x)) [
    | inl c ↦ absurd (false≢true (sym (h x c).1 ∙ all_marked.0 (h x c).0))
    | inr c ↦ rw (c) (none_matches key marked matches xs h all_marked.1)
  ]

  -- What asks for an unmarked row of the key finds none.
  pub IsMarked-find :
      (key marked matches : A → Bool) (rows : List A)
      → ((x : A) → matches x ≡ true → (key x ≡ true) × (marked x ≡ false))
      → IsMarked key marked rows
      → find matches rows ≡ none
  IsMarked-find key marked matches rows h (there, all_marked) =
      none_matches key marked matches rows h all_marked
