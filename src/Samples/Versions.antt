-- ===== src/Samples/Versions.antt =====
-- Tests of versions and ranges.
use indexjack.Prelude
use indexjack.Prelude.{Bool, true, Result, ok, Text, codes, ◌≤◌, ◌≡◌, ◌↔◌, refl, arith}
use indexjack.Semver
use indexjack.Semver.Decimal
use indexjack.Semver.{
  Version, max_u64, parse, to_string, compare, not_less, Range, caret, satisfies,
}
use indexjack.Semver.Order.{Admits, satisfies-Admits}
use indexjack.Semver.Spelling.{IsWord, parse-to_string, to_string-parse}

abbrev newer : Version
newer = record { major = 1; minor = 10; patch = 0 }

abbrev older : Version
older = record { major = 1; minor = 9; patch = 9 }

is_word : IsWord newer
is_word = record { major = omega arith; minor = omega arith; patch = omega arith }

parses : parse (codes "1.10.0") ≡ ok newer
unfolding Semver.parse Prelude.split_on Prelude.is_empty Prelude.text_eq Decimal.all_digits
    Decimal.leading_zero Decimal.scan_uint
parses = refl

parse-to_string_example : parse (to_string newer) ≡ ok newer
parse-to_string_example = parse-to_string newer is_word

to_string-parse_example : (to_string newer ≡ codes "1.10.0") × IsWord newer
to_string-parse_example = to_string-parse (codes "1.10.0") newer parses

satisfies-Admits_example :
    (satisfies (record { kind = caret; base = older }) newer ≡ true) ↔ Admits caret older newer
satisfies-Admits_example = satisfies-Admits caret older newer
