-- ===== src/CanonicalJson.antt =====
-- internal/canonicaljson/canonicaljson.go: the check for duplicate keys over the tokens of
-- encoding/json, and strict decoding.
pub mod Depth
pub mod Strictness
pub mod Acceptance
use indexjack.Prelude.{
  ℕ, zero, suc, ◌+◌, ◌*◌, ltb, if◌then◌else◌, Bool, true, false, List, [], ◌∷◌, Option, none, some,
  Result, ok, err, ◌>>=◌, Text, Bytes, member, length,
}

-- `json.Token`: the delimiters, a string, or any other value.
pub data Token : Type 0 where
  open_object close_object open_array close_array : Token
  text : Text → Token
  other : Token

-- `token_error` is an error of `Decoder.Token`, the end of the input included; `out_of_fuel` belongs
-- to the model alone.
pub data Error : Type 0 where
  duplicate_key too_deep token_error bad_key bad_delimiter not_decoded trailing_content : Error
  out_of_fuel : Error

-- The tokens still to come. Each call answers with the tokens that it leaves.
abbrev Walk : Type 0
Walk = Result Error (List Token)

-- `checkValue`, given the walk that follows a first token.
check_value : (Token → ℕ → List Token → Walk) → ℕ → List Token → Walk
check_value from depth [] = if ltb 32 depth then err too_deep else err token_error
check_value from depth (t ∷ ts) =
    let rest = from t depth ts in if ltb 32 depth then err too_deep else rest

mutual
  -- `checkFrom`, and the loops of its two cases.
  pub check_from : ℕ → Token → ℕ → List Token → Walk
  check_from zero t depth ts = err out_of_fuel
  check_from (suc f) open_object depth ts = check_object f [] depth ts
  check_from (suc f) open_array depth ts = check_array f depth ts
  check_from (suc f) close_object depth ts = err bad_delimiter
  check_from (suc f) close_array depth ts = err bad_delimiter
  check_from (suc f) (text s) depth ts = ok ts
  check_from (suc f) other depth ts = ok ts

  pub check_object : ℕ → List Text → ℕ → List Token → Walk
  check_object zero seen depth ts = err out_of_fuel
  check_object (suc f) seen depth [] = err token_error
  check_object (suc f) seen depth (close_object ∷ ts) = ok ts
  check_object (suc f) seen depth (text key ∷ ts) =
      let rest = check_value (check_from f) (depth + 1) ts >>= check_object f (key ∷ seen) depth in
      if member key seen then err duplicate_key else rest
  check_object (suc f) seen depth (t ∷ ts) = err bad_key

  pub check_array : ℕ → ℕ → List Token → Walk
  check_array zero depth ts = err out_of_fuel
  check_array (suc f) depth [] = err token_error
  check_array (suc f) depth (close_array ∷ ts) = ok ts
  check_array (suc f) depth (t ∷ ts) = check_from f t (depth + 1) ts >>= check_array f depth

-- A walk takes two steps for each token at most.
unfoldable pub check_duplicate_keys : List Token → Walk
unfolding check_value check_from check_object check_array
check_duplicate_keys ts = check_value (check_from (2 * length ts + 2)) 0 ts

-- What encoding/json does with the bytes: the tokens it reads, and the strict decoding into a type,
-- with whether the input ends behind the value.
pub record Decoder {ℓ} (A : Type ℓ) : Type ℓ where
  pub tokens : Bytes → List Token
  pub decode : Bytes → Option (A × Bool)

unfoldable pub unmarshal {ℓ} : {A : Type ℓ} → Decoder A → Bytes → Result Error A
unmarshal d raw = elim (check_duplicate_keys (d.tokens raw)) [
  | err e ↦ err e
  | ok _ ↦ elim (d.decode raw) [
    | none ↦ err not_decoded
    | some (v, at_end) ↦ if at_end then ok v else err trailing_content
  ]
]
