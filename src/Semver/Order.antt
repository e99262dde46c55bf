-- ===== src/Semver/Order.antt =====
-- The order of versions, and what a range admits.
use indexjack.Prelude.{◌≤◌, Bool, true, false, ◌≡◌, refl, ◌↔◌, Ordering, arith}
use indexjack.Semver.{Version, compare, not_less, RangeKind, exact, caret, at_least, satisfies}

-- The order that versions stand for: by major, then minor, then patch component.
pub record AtLeast (a b : Version) : Type 0 where
  pub by_major : b.major ≤ a.major
  pub by_minor : a.major ≡ b.major → b.minor ≤ a.minor
  pub by_patch : a.major ≡ b.major → a.minor ≡ b.minor → b.patch ≤ a.patch

abbrev pub flip : Ordering → Ordering
flip Ordering.lt = Ordering.gt
flip Ordering.eq = Ordering.eq
flip Ordering.gt = Ordering.lt

-- Swapping the arguments of `compare` swaps its answer.
pub compare-flip : (a b : Version) → compare b a ≡ flip (compare a b)
unfolding compare
compare-flip a b = ground arith

-- `compare` answers 0 exactly on equal versions.
pub compare-eq_iff : (a b : Version) → (compare a b ≡ Ordering.eq) ↔ (a ≡ b)
unfolding compare
compare-eq_iff a b = ground arith

pub compare_self : (a : Version) → compare a a ≡ Ordering.eq
compare_self a = (compare-eq_iff a a).1 refl

-- The order that `compare` decides is transitive.
pub not_less_trans :
    (a b c : Version)
    → not_less (compare a b) ≡ true
    → not_less (compare b c) ≡ true
    → not_less (compare a c) ≡ true
unfolding compare
not_less_trans a b c p q = ground arith

-- Where the order of versions is decided by a further test on a tie, it stays an order.
pub tie_lem :
    (a b c : Version) (s t u : Bool)
    → (t ≡ false → s ≡ false → u ≡ false)
    → (elim (compare c b) [ Ordering.gt ↦ true | Ordering.lt ↦ false | Ordering.eq ↦ t ]) ≡ false
    → (elim (compare b a) [ Ordering.gt ↦ true | Ordering.lt ↦ false | Ordering.eq ↦ s ]) ≡ false
    → (elim (compare c a) [ Ordering.gt ↦ true | Ordering.lt ↦ false | Ordering.eq ↦ u ]) ≡ false
unfolding compare
tie_lem a b c s t u f p q = ground (arith, f)

-- `compare` finds a version not less than another exactly in the lexicographic order of major,
-- minor and patch component.
pub compare-AtLeast : (a b : Version) → (not_less (compare a b) ≡ true) ↔ AtLeast a b
unfolding compare
compare-AtLeast a b = (
  λ h. record {
    by_major = ground arith;
    by_minor = λ p. ground arith;
    by_patch = λ p q. ground arith;
  },
  λ h. ground (arith, h.by_minor, h.by_patch),
)

-- What each form of range admits, in the words of the documentation.
abbrev pub Admits : RangeKind → Version → Version → Type 0
Admits exact base v = v ≡ base
Admits caret base v = (v.major ≡ base.major) × AtLeast v base
Admits at_least base v = AtLeast v base

-- A range is satisfied exactly by its base where it is exact, by the versions of its major
-- component that are at least its base where it is a caret range, and by all versions at least its
-- base otherwise.
pub satisfies-Admits :
    (k : RangeKind) (base v : Version)
    → (satisfies (record { kind = k; base = base }) v ≡ true) ↔ Admits k base v
unfolding satisfies
satisfies-Admits exact base v = ground (arith, compare-eq_iff v base)
satisfies-Admits caret base v = ground (arith, compare-AtLeast v base)
satisfies-Admits at_least base v = compare-AtLeast v base
