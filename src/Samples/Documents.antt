-- ===== src/Samples/Documents.antt =====
-- Tests of strict JSON.
use indexjack.Prelude
use indexjack.Prelude.{List, [], ◌∷◌, ok, err, codes, ◌≡◌, ◌↔◌, refl}
use indexjack.CanonicalJson.{
  Token, open_object, close_object, open_array, close_array, text, other, check_duplicate_keys,
  duplicate_key, out_of_fuel,
}
use indexjack.CanonicalJson.Strictness.{Value}
use indexjack.CanonicalJson.Depth.{check_duplicate_keys-ends}
use indexjack.CanonicalJson.Acceptance.{check_duplicate_keys_iff}

-- {"a": [1], "b": {"a": 2}}
abbrev nested : List Token
nested =
    open_object
    ∷ text (codes "a")
    ∷ open_array
    ∷ other
    ∷ close_array
    ∷ text (codes "b")
    ∷ open_object
    ∷ text (codes "a")
    ∷ other
    ∷ close_object
    ∷ close_object
    ∷ []

-- {"a": 1, "a": 2}
abbrev repeated : List Token
repeated = open_object ∷ text (codes "a") ∷ other ∷ text (codes "a") ∷ other ∷ close_object ∷ []

accepts_nested : check_duplicate_keys nested ≡ ok []
unfolding check_duplicate_keys Prelude.member Prelude.text_eq
accepts_nested = refl

refuses_repeated : check_duplicate_keys repeated ≡ err duplicate_key
unfolding check_duplicate_keys Prelude.member Prelude.text_eq
refuses_repeated = refl

check_duplicate_keys_iff_example :
    (check_duplicate_keys nested ≡ ok [])
    ↔ ((t : Token) × (us : List Token) × (nested ≡ t ∷ us) × Value 0 t us [])
check_duplicate_keys_iff_example = check_duplicate_keys_iff nested []

check_duplicate_keys-ends_example : ¬ (check_duplicate_keys repeated ≡ err out_of_fuel)
check_duplicate_keys-ends_example = check_duplicate_keys-ends repeated
