-- ===== src/Prelude/Lists.antt =====
-- Lists over the native numbers, and predicates on lists by recursion.
use Prim.Native.Nat.{ℕ, zero, suc, ◌+◌}
use mathlib.Core.Path.{◌≡◌, refl, ap}
use mathlib.Core.Logic.{◌⊎◌, inl, inr}
use mathlib.Core.Bool.{Bool, true, false}
use mathlib.Core.Option.{Option, none, some}
use mathlib.Core.List.{List, [], ◌∷◌, ◌++◌, map}
use native.Mathlib.Omega.{arith}
use indexjack.Prelude.Tests.{Bool-cases, if◌then◌else◌}

module _ {ℓ} {A : Type ℓ} where
  abbrev pub length : List A → ℕ
  length [] = 0
  length (x ∷ xs) = suc (length xs)

  abbrev pub take : ℕ → List A → List A
  take zero xs = []
  take (suc n) [] = []
  take (suc n) (x ∷ xs) = x ∷ take n xs

  abbrev pub drop : ℕ → List A → List A
  drop zero xs = xs
  drop (suc n) [] = []
  drop (suc n) (x ∷ xs) = drop n xs

  abbrev pub get_elem? : List A → ℕ → Option A
  get_elem? [] i = none
  get_elem? (x ∷ xs) zero = some x
  get_elem? (x ∷ xs) (suc i) = get_elem? xs i

  -- The elements that pass a test, in order.
  unfoldable pub select : (A → Bool) → List A → List A
  select p [] = []
  select p (x ∷ xs) = let rest = select p xs in if p x then x ∷ rest else rest

  -- The first element that passes a test.
  unfoldable pub find? : (A → Bool) → List A → Option A
  find? p [] = none
  find? p (x ∷ xs) = let rest = find? p xs in if p x then some x else rest

  unfoldable pub any : (A → Bool) → List A → Bool
  any p [] = false
  any p (x ∷ xs) = let rest = any p xs in if p x then true else rest

  pub length-append : (xs ys : List A) → length (xs ++ ys) ≡ length xs + length ys
  length-append [] ys = omega arith
  length-append (x ∷ xs) ys = omega (arith, length-append xs ys)

module _ {ℓ κ} {A : Type ℓ} (P : A → Type κ) where
  abbrev pub All : List A → Type κ
  All [] = Unit
  All (x ∷ xs) = P x × All xs

-- A place of an element in a list.
abbrev pub Within : {A : Type 0} → A → List A → Type 0
Within a [] = ⊥
Within a (x ∷ xs) = (a ≡ x) ⊎ Within a xs

module _ {A : Type 0} where
  pub Within-find? :
      (p : A → Bool) (xs : List A) (a : A) → find? p xs ≡ some a → Within a xs × (p a ≡ true)
  unfolding find?
  Within-find? p [] a h = cc
  Within-find? p (x ∷ xs) a h = ground (arith, Within-find? p xs a)

  pub find?-Within :
      (p : A → Bool) (xs : List A) (a : A)
      → Within a xs
      → p a ≡ true
      → (b : A) × (find? p xs ≡ some b)
  unfolding find?
  find?-Within p [] a w h = elim w [ ]
  find?-Within p (x ∷ xs) a (inl e) h = (x, ground (arith, ap p e))
  find?-Within p (x ∷ xs) a (inr w) h = elim (Bool-cases (p x)) [
    | inl e ↦ (x, rw e)
    | inr e ↦ let (b, f) = find?-Within p xs a w h in (b, rw e f)
  ]

  pub Within-select :
      (p : A → Bool) (xs : List A) (a : A) → Within a (select p xs) → Within a xs × (p a ≡ true)
  unfolding select
  Within-select p [] a w = elim w [ ]
  Within-select p (x ∷ xs) a w = elim (Bool-cases (p x)) [
    | inl e ↦
        let v : Within a (x ∷ select p xs) = rw (e, select) at w in
        elim v [
          | inl here ↦ (inl here, rw here e)
          | inr there ↦ let (u, q) = Within-select p xs a there in (inr u, q)
        ]
    | inr e ↦
        let there : Within a (select p xs) = rw (e, select) at w in
        let (v, q) = Within-select p xs a there in (inr v, q)
  ]

  pub select-Within :
      (p : A → Bool) (xs : List A) (a : A) → Within a xs → p a ≡ true → Within a (select p xs)
  unfolding select
  select-Within p [] a w q = elim w [ ]
  select-Within p (x ∷ xs) a (inl here) q = rw (← here) (rw (q, select) (inl refl))
  select-Within p (x ∷ xs) a (inr there) q = elim (Bool-cases (p x)) [
    | inl e ↦ rw (e, select) (inr (select-Within p xs a there q))
    | inr e ↦ rw (e, select) (select-Within p xs a there q)
  ]

  pub All-Within : (P : A → Type 0) (xs : List A) (a : A) → All P xs → Within a xs → P a
  All-Within P [] a h w = elim w [ ]
  All-Within P (x ∷ xs) a h (inl here) = rw here h.0
  All-Within P (x ∷ xs) a h (inr there) = All-Within P xs a h.1 there

pub Within-map :
    {A B : Type 0} (f : A → B) (xs : List A) (a : A) → Within a xs → Within (f a) (map f xs)
Within-map f [] a w = elim w [ ]
Within-map f (x ∷ xs) a (inl e) = inl (ap f e)
Within-map f (x ∷ xs) a (inr w) = inr (Within-map f xs a w)

pub All-of : {A : Type 0} (P : A → Type 0) (xs : List A) → ((a : A) → Within a xs → P a) → All P xs
All-of P [] h = tt
All-of P (x ∷ xs) h = (h x (inl refl), All-of P xs (λ a w. h a (inr w)))

pub append-Within :
    {A : Type 0} (xs ys : List A) (a : A) → Within a (xs ++ ys) → Within a xs ⊎ Within a ys
append-Within [] ys a w = inr w
append-Within (x ∷ xs) ys a (inl e) = inl (inl e)
append-Within (x ∷ xs) ys a (inr w) = elim (append-Within xs ys a w) [
  | inl v ↦ inl (inr v)
  | inr v ↦ inr v
]

-- What a mapped list holds comes from the list.
pub map-Within :
    {A B : Type 0} (f : A → B) (xs : List A) (b : B)
    → Within b (map f xs)
    → (a : A) × Within a xs × (b ≡ f a)
map-Within f [] b w = elim w [ ]
map-Within f (x ∷ xs) b (inl e) = (x, inl refl, e)
map-Within f (x ∷ xs) b (inr w) = let (a, v, e) = map-Within f xs b w in (a, inr v, e)

-- Where a test fails on every element.
pub any-Within :
    {A : Type 0} (p : A → Bool) (xs : List A) (a : A) → any p xs ≡ false → Within a xs → p a ≡ false
unfolding any
any-Within p [] a h w = elim w [ ]
any-Within p (x ∷ xs) a h w = elim (Bool-cases (p x)) [
  | inl e ↦ absurd (ground (arith, e, h))
  | inr e ↦
      let later : any p xs ≡ false = rw (e, any) at h in
      elim w [ inl here ↦ rw here e | inr there ↦ any-Within p xs a later there ]
]
