-- ===== src/Prelude/Members.antt =====
-- Members of a list, against the Boolean searches of the models.
use mathlib.Core.Path.{◌≡◌, refl, sym, subst}
use mathlib.Core.Logic.{◌↔◌, inl, inr}
use mathlib.Core.Bool.{Bool, true, false≢true}
use mathlib.Core.Option.{some}
use mathlib.Core.List.{List, [], ◌∷◌, ◌++◌, Memᴰ}
use Prim.Native.String.{String}
use text.Mathlib.Text.{◌==◌ as str_eq}
use text.Mathlib.TextEquality.{eq_iff}
use cred_trail.Prelude.Tests.{Bool-cases, Option-cases, some-inj, none≢some, and_left, and_right}
use cred_trail.Prelude.Lists.{any, all, All, find, find-true, or_back}
use cred_trail.Prelude.Sets.{has}
use cred_trail.Prelude.Marks.{update, returning}

-- An element of a list that has a property.
abbrev pub Some {ℓ κ} : {A : Type ℓ} → (A → Type κ) → List A → Type (ℓ ⊔ κ)
Some {A = A} P xs = (x : A) × Memᴰ x xs × P x

module _ {A : Type 0} where
  pub any-Some : (p : A → Bool) (xs : List A) → any p xs ≡ true → Some (λ x. p x ≡ true) xs
  any-Some p [] h = absurd (false≢true h)
  any-Some p (x ∷ xs) h = elim (Bool-cases (p x)) [
    | inl c ↦ (x, Memᴰ.head refl, c)
    | inr c ↦ let (y, there, k) = any-Some p xs (rw (c) at h) in (y, Memᴰ.tail there, k)
  ]

  pub Some-any : (p : A → Bool) (xs : List A) (x : A) → Memᴰ x xs → p x ≡ true → any p xs ≡ true
  Some-any p [] x there h = elim there [ ]
  Some-any p (y ∷ ys) x (Memᴰ.head e) h = rw (← e, h) refl
  Some-any p (y ∷ ys) x (Memᴰ.tail there) h = or_back (p y) (any p ys) (Some-any p ys x there h)

  pub find-Memᴰ : (p : A → Bool) (xs : List A) (x : A) → find p xs ≡ some x → Memᴰ x xs
  find-Memᴰ p [] x h = absurd (none≢some h)
  find-Memᴰ p (y ∷ ys) x h = elim (Bool-cases (p y)) [
    | inl c ↦ Memᴰ.head (sym (some-inj y x (rw (c) at h)))
    | inr c ↦ Memᴰ.tail (find-Memᴰ p ys x (rw (c) at h))
  ]

  -- The row that an UPDATE changes is there afterwards in its new form.
  pub update-Memᴰ :
      (p : A → Bool) (f : A → A) (xs : List A) (x : A)
      → Memᴰ x xs
      → p x ≡ true
      → Memᴰ (f x) (update p f xs)
  update-Memᴰ p f [] x there h = elim there [ ]
  update-Memᴰ p f (y ∷ ys) x (Memᴰ.head e) h = rw (← e, h) (Memᴰ.head refl)
  update-Memᴰ p f (y ∷ ys) x (Memᴰ.tail there) h = Memᴰ.tail (update-Memᴰ p f ys x there h)

  pub Memᴰ-append : (x : A) (xs ys : List A) → Memᴰ x xs → Memᴰ x (xs ++ ys)
  Memᴰ-append x [] ys there = elim there [ ]
  Memᴰ-append x (y ∷ xs) ys (Memᴰ.head e) = Memᴰ.head e
  Memᴰ-append x (y ∷ xs) ys (Memᴰ.tail there) = Memᴰ.tail (Memᴰ-append x xs ys there)

  -- The row that an UPDATE returns, as it was.
  pub returning-row :
      (p : A → Bool) (f : A → A) (xs : List A) (c : A)
      → returning p f xs ≡ some c
      → (row : A) × Memᴰ row xs × (p row ≡ true) × (c ≡ f row)
  returning-row p f xs c h = elim (Option-cases (find p xs)) [
    | inl missing ↦ absurd (none≢some (rw (returning, missing) at h))
    | inr (row, found) ↦ (
      row,
      find-Memᴰ p xs row found,
      find-true p xs row found,
      sym (some-inj (f row) c (rw (returning, found) at h)),
    )
  ]

  pub all-Memᴰ :
      (p : A → Bool) (P : A → Type 0) (xs : List A)
      → ((x : A) → p x ≡ true → P x)
      → all p xs ≡ true
      → All P xs
  all-Memᴰ p P [] f h = tt
  all-Memᴰ p P (x ∷ xs) f h =
      (f x (and_left (p x) (all p xs) h), all-Memᴰ p P xs f (and_right (p x) (all p xs) h))

-- `has` is membership.
pub has-Memᴰ : (x : String) (xs : List String) → (has x xs ≡ true) ↔ Memᴰ x xs
has-Memᴰ x xs = (
  λ h.
      let (y, there, e) = any-Some (λ y. str_eq y x) xs h in
      subst (λ z. Memᴰ z xs) ((eq_iff y x).0 e) there,
  λ there. Some-any (λ y. str_eq y x) xs x there ((eq_iff x x).1 refl),
)
