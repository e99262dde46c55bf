-- ===== src/Semver/Decimal.antt =====
-- Decimal numerals: `%d` of package fmt and the digits that package strconv reads.
use indexjack.Prelude.{
  ℕ, zero, suc, ◌-◌, ◌+◌, ◌*◌, ◌/◌, ◌%◌, ◌<◌, ◌≤◌, ◌≢◌, ltb, ◌==◌, if◌then◌else◌, Bool, true, false,
  ◌||◌, ◌&&◌, not, [], ◌∷◌, ◌++◌, Option, none, some, Text, ◌≡◌, refl, ap, ◌∙◌, arith, Bool-cases,
  inl, inr,
}
use mathlib.Core.List.{append_assoc, append-nil}
use mathlib.Core.Path.{subst}

digits : ℕ → ℕ → Text
digits zero n = []
digits (suc f) n =
    let higher = digits f (n / 10) in
    if ltb n 10 then (b'0' + n) ∷ [] else higher ++ (b'0' + n % 10) ∷ []

unfoldable pub decimal : ℕ → Text
unfolding digits
decimal n = digits (suc n) n

-- The value of the digits, after those already read.
unfoldable pub scan_uint : ℕ → Text → Option ℕ
scan_uint n [] = some n
scan_uint n (c ∷ p) =
    let rest = scan_uint (n * 10 + (c - b'0')) p in if ltb c b'0' || ltb b'9' c then none else rest

unfoldable pub leading_zero : Text → Bool
leading_zero (c ∷ d ∷ p) = c == b'0'
leading_zero _ = false

unfoldable pub all_digits : Text → Bool
all_digits [] = true
all_digits (c ∷ p) = not (ltb c b'0' || ltb b'9' c) && all_digits p

digits-suc :
    (f n : ℕ) → ltb n 10 ≡ false → digits (suc f) n ≡ digits f (n / 10) ++ (b'0' + n % 10) ∷ []
unfolding digits
digits-suc f n h = rw h

-- Enough fuel makes no difference.
digits_fuel : (f g n : ℕ) → n < f → n < g → digits f n ≡ digits g n
unfolding digits
digits_fuel zero g n h k = elim h [ ]
digits_fuel (suc f) zero n h k = elim k [ ]
digits_fuel (suc f) (suc g) n h k = elim (Bool-cases (ltb n 10)) [
  | inl e ↦ rw e
  | inr e ↦ rw (e, digits_fuel f g (n / 10) (ground arith) (ground arith))
]

pub decimal_step : (n d : ℕ) → 0 < n → d < 10 → decimal (n * 10 + d) ≡ decimal n ++ (b'0' + d) ∷ []
unfolding decimal
decimal_step n d h k =
    let m = n * 10 + d in
    let big : ltb m 10 ≡ false = ground arith in
    let quot : m / 10 ≡ n = omega arith in
    let rem : m % 10 ≡ d = omega arith in
    digits-suc m m big ∙ cc (quot, rem, digits_fuel m (suc n) n (omega arith) (omega arith))

pub decimal_digit : (d : ℕ) → d < 10 → decimal d ≡ (b'0' + d) ∷ []
unfolding decimal
decimal_digit d h = ground arith

-- Induction over the digits of a numeral.
module _ {ℓ} (P : ℕ → Text → Type ℓ) (one : (d : ℕ) → d < 10 → P d ((b'0' + d) ∷ []))
    (more : (n d : ℕ) (p : Text)
      → 0 < n
      → d < 10
      → P n p
      → P (n * 10 + d) (p ++ (b'0' + d) ∷ [])) where
  digits_induction : (f n : ℕ) → n < f → P n (digits f n)
  unfolding digits
  digits_induction zero n h = elim h [ ]
  digits_induction (suc f) n h = elim (Bool-cases (ltb n 10)) [
    | inl e ↦ rw (digits, e) (one n (ground arith))
    | inr e ↦ rw (digits-suc f n e) (
        subst (λ k. P k (digits f (n / 10) ++ (b'0' + n % 10) ∷ [])) (omega arith)
          (more (n / 10) (n % 10) (digits f (n / 10)) (ground arith) (omega arith)
            (digits_induction f (n / 10) (ground arith))))
  ]

  pub decimal_induction : (n : ℕ) → P n (decimal n)
  unfolding decimal
  decimal_induction n = digits_induction (suc n) n (omega arith)

-- A digit read, as the value that it adds.
scan_uint-cons :
    (n m c : ℕ) (p : Text)
    → scan_uint n (c ∷ p) ≡ some m
    → (b'0' ≤ c) × (c ≤ b'9') × (scan_uint (n * 10 + (c - b'0')) p ≡ some m)
unfolding scan_uint
scan_uint-cons n m c p e = ground arith

-- The digits that are read after the number `n`.
pub decimal-scan_uint :
    (n m : ℕ) (p : Text) → 0 < n → scan_uint n p ≡ some m → decimal m ≡ decimal n ++ p
decimal-scan_uint n m [] h e =
    let same : n ≡ m = unfold scan_uint in ground arith in rw (append-nil, same)
decimal-scan_uint n m (c ∷ p) h e =
    let (lo, hi, rest) = scan_uint-cons n m c p e in
    let d = c - b'0' in
    let char : b'0' + d ≡ c = omega arith in
    decimal-scan_uint (n * 10 + d) m p (omega arith) rest
    ∙ (ap (λ t. t ++ p) (decimal_step n d h (omega arith)) ∙ rw (char, append_assoc) refl)

-- The numeral 0 stands alone.
canonical_zero :
    (m c : ℕ) (p : Text)
    → c ≡ b'0'
    → leading_zero (c ∷ p) ≡ false
    → scan_uint 0 p ≡ some m
    → decimal m ≡ c ∷ p
unfolding leading_zero scan_uint decimal
canonical_zero m c [] e z s = ground arith
canonical_zero m c (k ∷ p) e z s = ground arith

-- A numeral without a leading zero is the decimal form of its value.
pub decimal-canonical :
    (m c : ℕ) (p : Text)
    → leading_zero (c ∷ p) ≡ false
    → scan_uint 0 (c ∷ p) ≡ some m
    → decimal m ≡ c ∷ p
decimal-canonical m c p z e =
    let (lo, hi, more) = scan_uint-cons 0 m c p e in
    let d = c - b'0' in
    let char : b'0' + d ≡ c = omega arith in
    let rest : scan_uint d p ≡ some m = subst (λ k. scan_uint k p ≡ some m) (omega arith) more in
    let one : decimal d ≡ c ∷ [] = rw (decimal_digit d (omega arith)) (rw char refl) in
    elim (Bool-cases (ltb 0 d)) [
      | inl pos ↦ decimal-scan_uint d m p (ground arith) rest ∙ ap (λ t. t ++ p) one
      | inr nil ↦
          canonical_zero m c p (ground arith) z
            (subst (λ k. scan_uint k p ≡ some m) (ground arith) rest)
    ]

-- Reading one more digit.
scan_uint-snoc :
    (a m d : ℕ) (p : Text)
    → scan_uint a p ≡ some m
    → d < 10
    → scan_uint a (p ++ (b'0' + d) ∷ []) ≡ some (m * 10 + d)
unfolding scan_uint
scan_uint-snoc a m d [] e h = ground arith
scan_uint-snoc a m d (c ∷ p) e h = ground (arith, scan_uint-snoc (a * 10 + (c - b'0')) m d p)

-- What `parse_part` asks of a decimal form.
pub record IsNumeral (n : ℕ) (p : Text) : Type 0 where
  pub digits_only : all_digits p ≡ true
  pub reads : scan_uint 0 p ≡ some n
  pub canonical : leading_zero p ≡ false
  pub nonzero_first : 0 < n → (c : ℕ) × (q : Text) × (p ≡ c ∷ q) × (c ≢ b'0')
  pub nonempty : (c : ℕ) × (q : Text) × (p ≡ c ∷ q)

all_digits-snoc :
    (d : ℕ) (p : Text) → all_digits p ≡ true → d < 10 → all_digits (p ++ (b'0' + d) ∷ []) ≡ true
unfolding all_digits
all_digits-snoc d [] e h = ground arith
all_digits-snoc d (c ∷ p) e h = ground (arith, all_digits-snoc d p)

leading_zero-nonzero : (c : ℕ) (p : Text) → c ≢ b'0' → leading_zero (c ∷ p) ≡ false
unfolding leading_zero
leading_zero-nonzero c [] h = refl
leading_zero-nonzero c (k ∷ p) h = ground arith

decimal_one : (d : ℕ) → d < 10 → IsNumeral d ((b'0' + d) ∷ [])
unfolding all_digits scan_uint leading_zero
decimal_one d h = record {
  digits_only = ground arith;
  reads = ground arith;
  canonical = refl;
  nonzero_first = λ k. (b'0' + d, [], refl, omega arith);
  nonempty = (b'0' + d, [], refl);
}

decimal_more :
    (n d : ℕ) (p : Text)
    → 0 < n
    → d < 10
    → IsNumeral n p
    → IsNumeral (n * 10 + d) (p ++ (b'0' + d) ∷ [])
decimal_more n d p h k v =
    let (c, q, e, nz) = v.nonzero_first h in
    record {
      digits_only = all_digits-snoc d p v.digits_only k;
      reads = scan_uint-snoc 0 n d p v.reads k;
      canonical = rw e (leading_zero-nonzero c _ nz);
      nonzero_first = λ _. (c, q ++ (b'0' + d) ∷ [], rw e, nz);
      nonempty = (c, q ++ (b'0' + d) ∷ [], rw e);
    }

pub decimal-IsNumeral : (n : ℕ) → IsNumeral n (decimal n)
decimal-IsNumeral = decimal_induction IsNumeral decimal_one decimal_more
