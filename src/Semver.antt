-- ===== src/Semver.antt =====
-- internal/semver/semver.go: exact versions, their order, and dependency ranges.
pub mod Decimal
pub mod Order
pub mod Spelling
use indexjack.Prelude.{
  ℕ, ◌-◌, ◌+◌, ◌*◌, ◌^◌, ltb, leb, ◌==◌, if◌then◌else◌, Bool, true, false, ◌&&◌, ◌||◌, not, List,
  [], ◌∷◌, ◌++◌, Option, none, some, Result, ok, err, ◌>>=◌, Text, codes, has_prefix, trim_prefix,
  split_on, length, Ordering,
}
use Decimal.{decimal, scan_uint, leading_zero, all_digits}

-- The sentinels that the errors wrap; the texts of the messages are left out.
pub data Error : Type 0 where
  invalid_version invalid_range : Error

pub record Version : Type 0 where
  pub major : ℕ
  pub minor : ℕ
  pub patch : ℕ

abbrev pub max_u64 : ℕ
max_u64 = 2 ^ 64 - 1

abbrev pub dot : ℕ
dot = b'.'

-- `strconv.ParseUint(p, 10, 64)`: a syntax error or a value out of range is `none`.
parse_uint : Text → Option ℕ
unfolding scan_uint
parse_uint [] = none
parse_uint p = elim (scan_uint 0 p) [
  | none ↦ none
  | some n ↦ if ltb max_u64 n then none else some n
]

-- One round of the loop in `Parse`.
parse_part : Text → Result Error ℕ
unfolding leading_zero all_digits parse_uint
parse_part [] = err invalid_version
parse_part p =
    if leading_zero p
    then err invalid_version
    else if not (all_digits p)
    then err invalid_version
    else elim (parse_uint p) [ none ↦ err invalid_version | some n ↦ ok n ]

parse_parts : List Text → Result Error Version
unfolding parse_part
parse_parts (a ∷ b ∷ c ∷ []) = do
  x ← parse_part a
  y ← parse_part b
  z ← parse_part c
  ok (record { major = x; minor = y; patch = z })
parse_parts _ = err invalid_version

unfoldable pub parse : Text → Result Error Version
unfolding parse_parts
parse s = parse_parts (split_on dot s)

unfoldable pub to_string : Version → Text
unfolding decimal
to_string v = decimal v.major ++ (dot ∷ (decimal v.minor ++ (dot ∷ decimal v.patch)))

-- -1, 0 and 1 are `Ordering.lt`, `Ordering.eq` and `Ordering.gt`.
cmp_uint : ℕ → ℕ → Ordering
cmp_uint a b = if ltb a b then Ordering.lt else if ltb b a then Ordering.gt else Ordering.eq

unfoldable pub compare : Version → Version → Ordering
unfolding cmp_uint
compare a b =
    if not (a.major == b.major)
    then cmp_uint a.major b.major
    else if not (a.minor == b.minor)
    then cmp_uint a.minor b.minor
    else if not (a.patch == b.patch)
    then cmp_uint a.patch b.patch
    else Ordering.eq

pub data RangeKind : Type 0 where
  exact caret at_least : RangeKind

pub record Range : Type 0 where
  pub kind : RangeKind
  pub base : Version

range_of : RangeKind → Text → Result Error Range
range_of k body = elim (parse body) [
  | err _ ↦ err invalid_range
  | ok v ↦ ok (record { kind = k; base = v })
]

unfoldable pub parse_range : Text → Result Error Range
unfolding range_of
parse_range s =
    if has_prefix s (codes "^")
    then range_of caret (trim_prefix s (codes "^"))
    else if has_prefix s (codes ">=")
    then range_of at_least (trim_prefix s (codes ">="))
    else range_of exact s

unfoldable pub range_to_string : Range → Text
unfolding to_string
range_to_string r = elim r.kind [
  | caret ↦ codes "^" ++ to_string r.base
  | at_least ↦ codes ">=" ++ to_string r.base
  | exact ↦ to_string r.base
]

abbrev pub not_less : Ordering → Bool
not_less Ordering.lt = false
not_less _ = true

abbrev pub is_equal : Ordering → Bool
is_equal Ordering.eq = true
is_equal _ = false

unfoldable pub satisfies : Range → Version → Bool
unfolding compare
satisfies r v = elim r.kind [
  | exact ↦ is_equal (compare v r.base)
  | caret ↦ (v.major == r.base.major) && not_less (compare v r.base)
  | at_least ↦ not_less (compare v r.base)
]
