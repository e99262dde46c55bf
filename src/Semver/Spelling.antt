-- ===== src/Semver/Spelling.antt =====
-- One version value has exactly one spelling: `parse` and `to_string` undo one another.
use indexjack.Prelude.{
  ℕ, ◌≤◌, ◌==◌, true, false, List, [], ◌∷◌, ◌++◌, some, ok, Text, split_on, ◌≡◌, refl, sym, ap, ◌∙◌,
  arith, Bool-cases, inl, inr,
}
use indexjack.Semver.Decimal.{
  decimal, scan_uint, leading_zero, all_digits, IsNumeral, decimal-IsNumeral, decimal-canonical,
}
use indexjack.Semver.{Version, max_u64, dot, parse_part, parse_parts, parse, to_string}

-- The parts with the separator between them.
join : ℕ → List Text → Text
join d [] = []
join d (p ∷ []) = p
join d (p ∷ q ∷ ps) = p ++ (d ∷ join d (q ∷ ps))

-- Joining what was split gives the text back.
join-push : (d c : ℕ) (p : Text) (ps : List Text) → join d ((c ∷ p) ∷ ps) ≡ c ∷ join d (p ∷ ps)
unfolding join
join-push d c p [] = refl
join-push d c p (q ∷ ps) = refl

split_on-cons : (d : ℕ) (s : Text) → (p : Text) × (ps : List Text) × (split_on d s ≡ p ∷ ps)
unfolding split_on
split_on-cons d [] = ([], [], refl)
split_on-cons d (c ∷ s) = elim (Bool-cases (c == d)) [
  | inl e ↦ ([], split_on d s, rw e)
  | inr e ↦ let (p, ps, h) = split_on-cons d s in (c ∷ p, ps, rw (e, h))
]

join-split_on : (d : ℕ) (s : Text) → join d (split_on d s) ≡ s
unfolding split_on join
join-split_on d [] = refl
join-split_on d (c ∷ s) =
    let (p, ps, h) = split_on-cons d s in
    let ih : join d (p ∷ ps) ≡ s = rw h at (join-split_on d s) in
    elim (Bool-cases (c == d)) [
      | inl e ↦ rw (e, h) (ground (arith, ih))
      | inr e ↦ rw (e, h) (join-push d c p ps ∙ ap (λ t. c ∷ t) ih)
    ]

-- Digits hold no separator.
split_on-digits :
    (p s : Text) → all_digits p ≡ true → split_on dot (p ++ dot ∷ s) ≡ p ∷ split_on dot s
unfolding split_on all_digits
split_on-digits [] s h = refl
split_on-digits (c ∷ p) s h = ground (arith, split_on-digits p s)

split_on-last : (p : Text) → all_digits p ≡ true → split_on dot p ≡ p ∷ []
unfolding split_on all_digits
split_on-last [] h = refl
split_on-last (c ∷ p) h = ground (arith, split_on-last p)

-- What `parse_part` has checked.
parse_part-cons :
    (c : ℕ) (p : Text) (n : ℕ)
    → parse_part (c ∷ p) ≡ ok n
    → (leading_zero (c ∷ p) ≡ false) × (scan_uint 0 (c ∷ p) ≡ some n) × (n ≤ max_u64)
unfolding parse_part
parse_part-cons c p n h = ground arith

part_of_numeral : (n : ℕ) (p : Text) → IsNumeral n p → n ≤ max_u64 → parse_part p ≡ ok n
unfolding parse_part
part_of_numeral n [] v h = let (c, q, e) = v.nonempty in cc
part_of_numeral n (c ∷ p) v h = ground (arith, v.digits_only, v.reads, v.canonical)

parse_part-decimal : (n : ℕ) → n ≤ max_u64 → parse_part (decimal n) ≡ ok n
parse_part-decimal n h = part_of_numeral n (decimal n) (decimal-IsNumeral n) h

decimal-parse_part : (p : Text) (n : ℕ) → parse_part p ≡ ok n → (decimal n ≡ p) × (n ≤ max_u64)
decimal-parse_part [] n h = unfold parse_part in cc
decimal-parse_part (c ∷ p) n h =
    let (z, s, le) = parse_part-cons c p n h in (decimal-canonical n c p z s, le)

-- The components fit in 64 bits, as a `uint64` does.
pub record IsWord (v : Version) : Type 0 where
  pub major : v.major ≤ max_u64
  pub minor : v.minor ≤ max_u64
  pub patch : v.patch ≤ max_u64

split_on-to_string :
    (v : Version)
    → split_on dot (to_string v) ≡ decimal v.major ∷ decimal v.minor ∷ decimal v.patch ∷ []
unfolding to_string
split_on-to_string v =
    let num = λ (n : ℕ). (decimal-IsNumeral n).digits_only in
    cc (
      split_on-digits (decimal v.major) (decimal v.minor ++ (dot ∷ decimal v.patch)) (num v.major),
      split_on-digits (decimal v.minor) (decimal v.patch) (num v.minor),
      split_on-last (decimal v.patch) (num v.patch),
    )

-- A version whose components are below 2 ^ 64 is read back from its spelling.
pub parse-to_string : (v : Version) → IsWord v → parse (to_string v) ≡ ok v
unfolding parse parse_parts
parse-to_string v w = rw (
  split_on-to_string v,
  parse_part-decimal v.major w.major,
  parse_part-decimal v.minor w.minor,
  parse_part-decimal v.patch w.patch,
)

parse_parts-inv :
    (a b c : Text) (v : Version)
    → parse_parts (a ∷ b ∷ c ∷ []) ≡ ok v
    → (parse_part a ≡ ok v.major) × (parse_part b ≡ ok v.minor) × (parse_part c ≡ ok v.patch)
unfolding parse_parts
parse_parts-inv a b c v h = ground arith

-- What a successful `parse_parts` read.
parse_parts-ok :
    (ps : List Text) (v : Version) → parse_parts ps ≡ ok v → (join dot ps ≡ to_string v) × IsWord v
unfolding parse_parts join to_string
parse_parts-ok (a ∷ b ∷ c ∷ []) v h =
    let (p, q, r) = parse_parts-inv a b c v h in
    let (da, wa) = decimal-parse_part a v.major p in
    let (db, wb) = decimal-parse_part b v.minor q in
    let (dc, wc) = decimal-parse_part c v.patch r in
    (rw (da, db, dc) refl, record { major = wa; minor = wb; patch = wc })
parse_parts-ok ps v h = cc

-- A text that is read as a version is the spelling of that version, whose components are below 2 ^
-- 64: there are no leading zeros, signs or spaces.
pub to_string-parse : (s : Text) (v : Version) → parse s ≡ ok v → (to_string v ≡ s) × IsWord v
unfolding parse
to_string-parse s v h =
    let (e, w) = parse_parts-ok (split_on dot s) v h in (sym e ∙ join-split_on dot s, w)

-- No two texts parse to the same version.
pub parse_injective : (s t : Text) (v : Version) → parse s ≡ ok v → parse t ≡ ok v → s ≡ t
parse_injective s t v p q = sym (to_string-parse s v p).0 ∙ (to_string-parse t v q).0
