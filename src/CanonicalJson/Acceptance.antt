-- ===== src/CanonicalJson/Acceptance.antt =====
-- The walk over the tokens accepts every strict value.
use indexjack.Prelude.{
  ℕ, zero, suc, ◌+◌, ◌*◌, ◌≤◌, List, ◌∷◌, ok, ◌>>=◌, Text, not-Within, length, ◌≡◌, ◌↔◌, ◌∙◌, refl,
  arith,
}
use indexjack.CanonicalJson.{
  Token, open_object, close_object, open_array, close_array, text, other, check_value, check_from,
  check_object, check_array, check_duplicate_keys, Walk,
}
use indexjack.CanonicalJson.Depth.{fuel_lem}
use indexjack.CanonicalJson.Strictness.{
  Value, string, plain, object, array, Members, last_member, next_member, Elements, last_element,
  next_element, check_duplicate_keys-Value,
}

-- What fuel `f` is enough to accept.
record Complete (f : ℕ) : Type 0 where
  value :
      {d : ℕ} {t : Token} {ts rest : List Token}
      → 2 * length ts + 2 ≤ f
      → Value d t ts rest
      → check_from f t d ts ≡ ok rest
  members :
      {seen : List Text} {d : ℕ} {ts rest : List Token}
      → 2 * length ts + 1 ≤ f
      → Members seen d ts rest
      → check_object f seen d ts ≡ ok rest
  elements :
      {d : ℕ} {ts rest : List Token}
      → 2 * length ts + 1 ≤ f
      → Elements d ts rest
      → check_array f d ts ≡ ok rest

-- An accepted value leaves no more tokens than it took.
value-shorter :
    (f d : ℕ) (t : Token) (ts mid : List Token)
    → 2 * length ts + 2 ≤ f
    → check_from f t d ts ≡ ok mid
    → length mid ≤ length ts
value-shorter f d t ts mid n p = ((fuel_lem f).value t d ts n).shorter mid p

check_value_lem :
    (from : Token → ℕ → List Token → Walk) (depth : ℕ) (t : Token) (ts mid : List Token)
    → depth ≤ 32
    → from t depth ts ≡ ok mid
    → check_value from depth (t ∷ ts) ≡ ok mid
unfolding check_value
check_value_lem from depth t ts mid n p = ground (arith, n, p)

module _ (f : ℕ) (h : Complete f) where
  from_complete :
      {d : ℕ} {t : Token} {ts rest : List Token}
      → 2 * length ts + 2 ≤ suc f
      → Value d t ts rest
      → check_from (suc f) t d ts ≡ ok rest
  unfolding check_from
  from_complete n string = refl
  from_complete n plain = refl
  from_complete n (object m) = h.members (omega (arith, n)) m
  from_complete n (array m) = h.elements (omega (arith, n)) m

  element_complete :
      (d : ℕ) (t : Token) (ts mid rest : List Token)
      → 2 * length (t ∷ ts) + 1 ≤ suc f
      → Value (d + 1) t ts mid
      → Elements d mid rest
      → (check_from f t (d + 1) ts >>= check_array f d) ≡ ok rest
  element_complete d t ts mid rest n v e =
      let p = h.value (omega (arith, n)) v in
      let short = value-shorter f (d + 1) t ts mid (omega (arith, n)) p in
      rw p (h.elements (omega (arith, n, short)) e)

  array_step :
      (d : ℕ) (t : Token) (ts mid : List Token)
      → Value (d + 1) t ts mid
      → check_array (suc f) d (t ∷ ts) ≡ (check_from f t (d + 1) ts >>= check_array f d)
  unfolding check_array
  array_step d open_object ts mid v = refl
  array_step d close_object ts mid v = refl
  array_step d open_array ts mid v = refl
  array_step d close_array ts mid v = elim v [ ]
  array_step d (text s) ts mid v = refl
  array_step d other ts mid v = refl

  array_complete :
      {d : ℕ} {ts rest : List Token}
      → 2 * length ts + 1 ≤ suc f
      → Elements d ts rest
      → check_array (suc f) d ts ≡ ok rest
  unfolding check_array
  array_complete n last_element = refl
  array_complete n (next_element {d = d} {t = t} {ts = ts} {mid = mid} {rest = rest} v e) =
      array_step d t ts mid v ∙ element_complete d t ts mid rest n v e

  object_complete :
      {seen : List Text} {d : ℕ} {ts rest : List Token}
      → 2 * length ts + 1 ≤ suc f
      → Members seen d ts rest
      → check_object (suc f) seen d ts ≡ ok rest
  unfolding check_object
  object_complete n last_member = refl
  object_complete n
        (next_member {seen = seen} {d = d} {key = key} {t = t} {ts = ts} {mid = mid} {rest = rest}
          new deep v m) =
      let p = h.value (omega (arith, n)) v in
      let short = value-shorter f (d + 1) t ts mid (omega (arith, n)) p in
      let q = h.members (omega (arith, n, short)) m in
      rw
        (
          not-Within key seen new,
          check_value_lem (check_from f) (d + 1) t ts mid (omega (arith, deep)) p,
        )
        q

complete_lem : (f : ℕ) → Complete f
complete_lem zero = record {
  value = λ n v. absurd (omega (arith, n));
  members = λ n m. absurd (omega (arith, n));
  elements = λ n e. absurd (omega (arith, n));
}
complete_lem (suc f) =
    let h = complete_lem f in
    record {
      value = from_complete f h;
      members = object_complete f h;
      elements = array_complete f h;
    }

accepted :
    (t : Token) (us rest : List Token) → Value 0 t us rest → check_duplicate_keys (t ∷ us) ≡ ok rest
unfolding check_duplicate_keys
accepted t us rest v =
    let f = 2 * length (t ∷ us) + 2 in
    check_value_lem (check_from f) 0 t us rest (omega arith)
      ((complete_lem f).value (omega arith) v)

-- The walk over the tokens of a document succeeds, leaving `rest`, exactly where the tokens begin
-- with a strict value in front of `rest`: its brackets and braces match, each member has a text for
-- a key, no object has a key twice, and the value of a member stands at most 32 levels deep.
pub check_duplicate_keys_iff :
    (ts rest : List Token)
    → (check_duplicate_keys ts ≡ ok rest)
      ↔ ((t : Token) × (us : List Token) × (ts ≡ t ∷ us) × Value 0 t us rest)
check_duplicate_keys_iff ts rest =
    (check_duplicate_keys-Value ts rest, λ (t, us, same, v). rw same (accepted t us rest v))
