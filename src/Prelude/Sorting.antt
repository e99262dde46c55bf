-- ===== src/Prelude/Sorting.antt =====
-- `sort.SliceStable`: a stable sort by a comparison, as insertion from the right.
use mathlib.Core.Path.{◌≡◌}
use mathlib.Core.Logic.{◌⊎◌, inl, inr, ◌↔◌}
use mathlib.Core.Bool.{Bool, true, false}
use mathlib.Core.List.{List, [], ◌∷◌}
use indexjack.Prelude.Tests.{if◌then◌else◌, Bool-cases}
use indexjack.Prelude.Lists.{All, All-of, All-Within, Within}

module _ {ℓ} {A : Type ℓ} (less : A → A → Bool) where
  unfoldable pub insert : A → List A → List A
  insert x [] = x ∷ []
  insert x (y ∷ ys) = let rest = insert x ys in if less y x then y ∷ rest else x ∷ y ∷ ys

  unfoldable pub sort : List A → List A
  unfolding insert
  sort [] = []
  sort (x ∷ xs) = insert x (sort xs)

module _ {A : Type 0} (less : A → A → Bool) where
  Within-insert :
      (x : A) (ys : List A) (a : A) → Within a (insert less x ys) → (a ≡ x) ⊎ Within a ys
  unfolding insert
  Within-insert x [] a w = w
  Within-insert x (y ∷ ys) a w = elim (Bool-cases (less y x)) [
    | inl e ↦
        let v : Within a (y ∷ insert less x ys) = rw (e, insert) at w in
        elim v [
          | inl here ↦ inr (inl here)
          | inr there ↦ elim (Within-insert x ys a there) [ inl p ↦ inl p | inr q ↦ inr (inr q) ]
        ]
    | inr e ↦ let v : Within a (x ∷ y ∷ ys) = rw (e, insert) at w in v
  ]

  insert-Within :
      (x : A) (ys : List A) (a : A) → (a ≡ x) ⊎ Within a ys → Within a (insert less x ys)
  unfolding insert
  insert-Within x [] a w = w
  insert-Within x (y ∷ ys) a w = elim (Bool-cases (less y x)) [
    | inl e ↦
        let later : (a ≡ x) ⊎ Within a ys → Within a (insert less x ys) = insert-Within x ys a in
        rw (e, insert)
          (elim w [
            | inl p ↦ inr (later (inl p))
            | inr v ↦ elim v [ inl q ↦ inl q | inr q ↦ inr (later (inr q)) ]
          ])
    | inr e ↦ rw (e, insert) w
  ]

  -- Sorting keeps the elements.
  pub sort-Within : (xs : List A) (a : A) → Within a (sort less xs) ↔ Within a xs
  unfolding sort
  sort-Within [] a = (λ w. w, λ w. w)
  sort-Within (x ∷ xs) a =
      let (to, from) = sort-Within xs a in
      (
        λ w. elim (Within-insert x (sort less xs) a w) [ inl p ↦ inl p | inr q ↦ inr (to q) ],
        λ w. insert-Within x (sort less xs) a (elim w [ inl p ↦ inl p | inr q ↦ inr (from q) ]),
      )

  -- No element stands behind one that it comes before.
  abbrev pub IsSorted : List A → Type 0
  IsSorted [] = Unit
  IsSorted (x ∷ xs) = All (λ y. less y x ≡ false) xs × IsSorted xs

  module _ (asym : (x y : A) → less x y ≡ true → less y x ≡ false)
      (behind : (x y z : A) → less z y ≡ false → less y x ≡ false → less z x ≡ false) where
    insert-IsSorted : (x : A) (ys : List A) → IsSorted ys → IsSorted (insert less x ys)
    unfolding insert
    insert-IsSorted x [] h = (tt, tt)
    insert-IsSorted x (y ∷ ys) h = elim (Bool-cases (less y x)) [
      | inl e ↦
          rw (e, insert)
            (
              All-of (λ z. less z y ≡ false) (insert less x ys)
                  (λ z w. elim (Within-insert x ys z w) [
                    | inl p ↦ rw p (asym y x e)
                    | inr q ↦ All-Within (λ z. less z y ≡ false) ys z h.0 q
                  ]),
              insert-IsSorted x ys h.1,
            )
      | inr e ↦
          rw (e, insert)
            (
              (
                e,
                All-of (λ z. less z x ≡ false) ys
                    (λ z w. behind x y z (All-Within (λ z. less z y ≡ false) ys z h.0 w) e),
              ),
              h,
            )
    ]

    pub sort-IsSorted : (xs : List A) → IsSorted (sort less xs)
    unfolding sort
    sort-IsSorted [] = tt
    sort-IsSorted (x ∷ xs) = insert-IsSorted x (sort less xs) (sort-IsSorted xs)
