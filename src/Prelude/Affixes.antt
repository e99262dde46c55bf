-- ===== src/Prelude/Affixes.antt =====
-- Laws of the prefixes and suffixes of texts.
use Prim.Native.Nat.{ℕ, zero, suc, ◌-◌}
use mathlib.Core.Path.{◌≡◌, refl, sym, ap, ◌∙◌}
use mathlib.Core.Bool.{true}
use mathlib.Core.List.{[], ◌∷◌, ◌++◌}
use native.Mathlib.Omega.{arith}
use indexjack.Prelude.Lists.{length, take, drop, length-append}
use indexjack.Prelude.Texts.{Text, text_eq_iff, has_prefix, has_suffix, trim_suffix}

take-drop : (n : ℕ) (s : Text) → take n s ++ drop n s ≡ s
take-drop zero s = refl
take-drop (suc n) [] = refl
take-drop (suc n) (c ∷ s) = ap (λ t. c ∷ t) (take-drop n s)

drop-append : (s t : Text) → drop (length s) (s ++ t) ≡ t
drop-append [] t = refl
drop-append (c ∷ s) t = drop-append s t

take-append : (s t : Text) → take (length s) (s ++ t) ≡ s
take-append [] t = refl
take-append (c ∷ s) t = ap (λ r. c ∷ r) (take-append s t)

-- `has_prefix` finds a rest.
pub prefix-rest : (s t : Text) → has_prefix s t ≡ true → (r : Text) × (s ≡ t ++ r)
unfolding has_prefix
prefix-rest s [] h = (s, refl)
prefix-rest [] (b ∷ t) h = cc
prefix-rest (a ∷ s) (b ∷ t) h =
    let (r, e) = prefix-rest s t (ground arith) in (r, ground (arith, e))

pub has_prefix-append : (s t : Text) → has_prefix (t ++ s) t ≡ true
unfolding has_prefix
has_prefix-append s [] = refl
has_prefix-append s (b ∷ t) = ground (arith, has_prefix-append s t)

suffix_length : (p t : Text) → length (p ++ t) - length t ≡ length p
suffix_length p t = omega (arith, length-append p t)

pub has_suffix-append : (p t : Text) → has_suffix (p ++ t) t ≡ true
unfolding has_suffix
has_suffix-append p t =
    rw (suffix_length p t, drop-append p t) (ground (arith, text_eq_iff t t, length-append p t))

pub trim_suffix-append : (p t : Text) → trim_suffix (p ++ t) t ≡ p
unfolding trim_suffix
trim_suffix-append p t = rw (has_suffix-append p t, suffix_length p t, take-append p t) refl

-- A text with a suffix is what is left of it and the suffix.
pub suffix-rest : (s t : Text) → has_suffix s t ≡ true → s ≡ trim_suffix s t ++ t
unfolding has_suffix trim_suffix
suffix-rest s t h =
    let same : drop (length s - length t) s ≡ t =
      (text_eq_iff (drop (length s - length t) s) t).0 (ground arith) in
    rw h (
      sym (
        ap (λ r. take (length s - length t) s ++ r) (sym same) ∙ take-drop (length s - length t) s))
