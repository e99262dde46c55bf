-- ===== src/Prelude/Distinctness.antt =====
-- Lists of texts without repetition, and the sets of texts seen so far that the code keeps.
use mathlib.Core.Path.{◌≡◌, refl, sym, ◌∙◌}
use mathlib.Core.Logic.{inl, inr}
use mathlib.Core.Bool.{true, false}
use mathlib.Core.List.{List, [], ◌∷◌, map}
use native.Mathlib.Omega.{arith}
use indexjack.Prelude.Lists.{Within, Within-map}
use indexjack.Prelude.Texts.{Text, text_eq_iff, member}

pub member→Within : (s : Text) (ts : List Text) → member s ts ≡ true → Within s ts
unfolding member
member→Within s [] h = cc
member→Within s (t ∷ ts) h = ground (arith, text_eq_iff s t, member→Within s ts)

pub Within→member : (s : Text) (ts : List Text) → Within s ts → member s ts ≡ true
unfolding member
Within→member s [] h = elim h [ ]
Within→member s (t ∷ ts) h = ground (arith, text_eq_iff s t, Within→member s ts)

pub not-member : (s : Text) (ts : List Text) → member s ts ≡ false → ¬ Within s ts
not-member s ts h w = cc (h, Within→member s ts w)

pub not-Within : (s : Text) (ts : List Text) → ¬ Within s ts → member s ts ≡ false
not-Within s ts h = ground (arith, member→Within s ts)

abbrev pub Distinct : List Text → Type 0
Distinct [] = Unit
Distinct (x ∷ xs) = (¬ Within x xs) × Distinct xs

-- None of `xs` is among those seen, and none comes twice: what a loop with a set checks.
abbrev pub Fresh : List Text → List Text → Type 0
Fresh seen [] = Unit
Fresh seen (x ∷ xs) = (¬ Within x seen) × Fresh (x ∷ seen) xs

abbrev Apart : List Text → List Text → Type 0
Apart seen xs = (x : Text) → Within x xs → ¬ Within x seen

Fresh-Apart : (seen xs : List Text) → Fresh seen xs → Apart seen xs
Fresh-Apart seen [] h x w v = elim w [ ]
Fresh-Apart seen (y ∷ ys) h x (inl e) v = h.0 (rw e at v)
Fresh-Apart seen (y ∷ ys) h x (inr w) v = Fresh-Apart (y ∷ seen) ys h.1 x w (inr v)

pub Fresh→Distinct : (seen xs : List Text) → Fresh seen xs → Distinct xs
Fresh→Distinct seen [] h = tt
Fresh→Distinct seen (y ∷ ys) h =
    (λ w. Fresh-Apart (y ∷ seen) ys h.1 y w (inl refl), Fresh→Distinct (y ∷ seen) ys h.1)

Distinct→Fresh-Apart : (seen xs : List Text) → Apart seen xs → Distinct xs → Fresh seen xs
Distinct→Fresh-Apart seen [] a d = tt
Distinct→Fresh-Apart seen (y ∷ ys) a d =
    (a y (inl refl), Distinct→Fresh-Apart (y ∷ seen) ys later d.1)
  where
    later : Apart (y ∷ seen) ys
    later x w (inl e) = d.0 (rw e at w)
    later x w (inr v) = a x (inr w) v

pub Distinct→Fresh : (xs : List Text) → Distinct xs → Fresh [] xs
Distinct→Fresh xs d = Distinct→Fresh-Apart [] xs (λ x w v. elim v [ ]) d

-- In a list of records whose keys are distinct, a key belongs to one record.
pub Distinct-unique :
    {A : Type 0} (key : A → Text) (xs : List A) (a b : A)
    → Distinct (map key xs)
    → Within a xs
    → Within b xs
    → key a ≡ key b
    → a ≡ b
Distinct-unique key [] a b d wa wb e = elim wa [ ]
Distinct-unique key (x ∷ xs) a b d (inl p) (inl q) e = p ∙ sym q
Distinct-unique key (x ∷ xs) a b d (inl p) (inr q) e =
    absurd (d.0 (rw (← p, e) (Within-map key xs b q)))
Distinct-unique key (x ∷ xs) a b d (inr p) (inl q) e =
    absurd (d.0 (rw (← q, ← e) (Within-map key xs a p)))
Distinct-unique key (x ∷ xs) a b d (inr p) (inr q) e = Distinct-unique key xs a b d.1 p q e
