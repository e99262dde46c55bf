-- ===== src/CanonicalJson/Strictness.antt =====
-- What the walk over the tokens accepts.
use indexjack.Prelude.{
  ℕ, zero, suc, ◌+◌, ◌*◌, ◌≤◌, ◌<◌, false, Bool-cases, List, [], ◌∷◌, ok, ◌>>=◌, >>=-eq-ok,
  ok-injective, Text, member, Within, not-member, length, ◌≡◌, inl, inr, refl, arith,
}
use indexjack.CanonicalJson.{
  Token, open_object, close_object, open_array, close_array, text, other, check_value, check_from,
  check_object, check_array, check_duplicate_keys, Walk,
}

mutual
  -- A value that begins with a token, at a depth, in front of the tokens that are left.
  pub data Value : ℕ → Token → List Token → List Token → Type 0 where
    string : {d : ℕ} {s : Text} {ts : List Token} → Value d (text s) ts ts
    plain : {d : ℕ} {ts : List Token} → Value d other ts ts
    object : {d : ℕ} {ts rest : List Token} → Members [] d ts rest → Value d open_object ts rest
    array : {d : ℕ} {ts rest : List Token} → Elements d ts rest → Value d open_array ts rest

  -- The members behind those with the keys seen: no key twice, and no value deeper than 32.
  pub data Members : List Text → ℕ → List Token → List Token → Type 0 where
    last_member :
        {seen : List Text} {d : ℕ} {ts : List Token} → Members seen d (close_object ∷ ts) ts
    next_member :
        {seen : List Text} {d : ℕ} {key : Text} {t : Token} {ts mid rest : List Token}
        → ¬ Within key seen
        → d < 32
        → Value (d + 1) t ts mid
        → Members (key ∷ seen) d mid rest
        → Members seen d (text key ∷ t ∷ ts) rest

  pub data Elements : ℕ → List Token → List Token → Type 0 where
    last_element : {d : ℕ} {ts : List Token} → Elements d (close_array ∷ ts) ts
    next_element :
        {d : ℕ} {t : Token} {ts mid rest : List Token}
        → Value (d + 1) t ts mid
        → Elements d mid rest
        → Elements d (t ∷ ts) rest

check_value-ok :
    (from : Token → ℕ → List Token → Walk) (depth : ℕ) (ts rest : List Token)
    → check_value from depth ts ≡ ok rest
    → (t : Token) × (us : List Token) × (ts ≡ t ∷ us) × (depth ≤ 32) × (from t depth us ≡ ok rest)
unfolding check_value
check_value-ok from depth [] rest h = absurd (ground (arith, h))
check_value-ok from depth (t ∷ us) rest h = (t, us, refl, ground (arith, h), ground (arith, h))

-- What the three functions accept, on any fuel.
record Sound (f : ℕ) : Type 0 where
  value :
      (t : Token) (depth : ℕ) (ts rest : List Token)
      → check_from f t depth ts ≡ ok rest
      → Value depth t ts rest
  members :
      (seen : List Text) (depth : ℕ) (ts rest : List Token)
      → check_object f seen depth ts ≡ ok rest
      → Members seen depth ts rest
  elements :
      (depth : ℕ) (ts rest : List Token) → check_array f depth ts ≡ ok rest → Elements depth ts rest

module _ (f : ℕ) (h : Sound f) where
  from_sound :
      (t : Token) (depth : ℕ) (ts rest : List Token)
      → check_from (suc f) t depth ts ≡ ok rest
      → Value depth t ts rest
  unfolding check_from
  from_sound open_object depth ts rest p = object (h.members [] depth ts rest p)
  from_sound open_array depth ts rest p = array (h.elements depth ts rest p)
  from_sound close_object depth ts rest p = absurd cc
  from_sound close_array depth ts rest p = absurd cc
  from_sound (text s) depth ts rest p = rw (← ok-injective p) string
  from_sound other depth ts rest p = rw (← ok-injective p) plain

  element_sound :
      (t : Token) (depth : ℕ) (ts rest : List Token)
      → (check_from f t (depth + 1) ts >>= check_array f depth) ≡ ok rest
      → Elements depth (t ∷ ts) rest
  element_sound t depth ts rest p =
      let (mid, q, r) = >>=-eq-ok (check_from f t (depth + 1) ts) (check_array f depth) p in
      next_element (h.value t (depth + 1) ts mid q) (h.elements depth mid rest r)

  array_sound :
      (depth : ℕ) (ts rest : List Token)
      → check_array (suc f) depth ts ≡ ok rest
      → Elements depth ts rest
  unfolding check_array
  array_sound depth [] rest p = absurd cc
  array_sound depth (close_array ∷ ts) rest p = rw (← ok-injective p) last_element
  array_sound depth (open_array ∷ ts) rest p = element_sound open_array depth ts rest p
  array_sound depth (open_object ∷ ts) rest p = element_sound open_object depth ts rest p
  array_sound depth (close_object ∷ ts) rest p = element_sound close_object depth ts rest p
  array_sound depth (text s ∷ ts) rest p = element_sound (text s) depth ts rest p
  array_sound depth (other ∷ ts) rest p = element_sound other depth ts rest p

  member_sound :
      (seen : List Text) (key : Text) (depth : ℕ) (ts rest : List Token)
      → member key seen ≡ false
      → (check_value (check_from f) (depth + 1) ts >>= check_object f (key ∷ seen) depth) ≡ ok rest
      → Members seen depth (text key ∷ ts) rest
  member_sound seen key depth ts rest new p =
      let (mid, q, r) =
        >>=-eq-ok (check_value (check_from f) (depth + 1) ts) (check_object f (key ∷ seen) depth)
          p in
      let (t, us, same, deep, v) = check_value-ok (check_from f) (depth + 1) ts mid q in
      rw same (
        next_member (not-member key seen new) (omega (arith, deep)) (h.value t (depth + 1) us mid v)
          (h.members (key ∷ seen) depth mid rest r))

  object_sound :
      (seen : List Text) (depth : ℕ) (ts rest : List Token)
      → check_object (suc f) seen depth ts ≡ ok rest
      → Members seen depth ts rest
  unfolding check_object
  object_sound seen depth [] rest p = absurd cc
  object_sound seen depth (close_object ∷ ts) rest p = rw (← ok-injective p) last_member
  object_sound seen depth (open_array ∷ ts) rest p = absurd cc
  object_sound seen depth (close_array ∷ ts) rest p = absurd cc
  object_sound seen depth (open_object ∷ ts) rest p = absurd cc
  object_sound seen depth (other ∷ ts) rest p = absurd cc
  object_sound seen depth (text key ∷ ts) rest p = elim (Bool-cases (member key seen)) [
    | inl e ↦ absurd (ground (arith, e, p))
    | inr e ↦ member_sound seen key depth ts rest e (ground (arith, e, p))
  ]

sound_lem : (f : ℕ) → Sound f
unfolding check_from check_object check_array
sound_lem zero = record {
  value = λ t depth ts rest p. absurd cc;
  members = λ seen depth ts rest p. absurd cc;
  elements = λ depth ts rest p. absurd cc;
}
sound_lem (suc f) =
    let h = sound_lem f in
    record { value = from_sound f h; members = object_sound f h; elements = array_sound f h }

-- Tokens that pass begin with one strict value, and what is handed back stands behind it.
pub check_duplicate_keys-Value :
    (ts rest : List Token)
    → check_duplicate_keys ts ≡ ok rest
    → (t : Token) × (us : List Token) × (ts ≡ t ∷ us) × Value 0 t us rest
unfolding check_duplicate_keys
check_duplicate_keys-Value ts rest p =
    let (t, us, same, deep, v) = check_value-ok (check_from (2 * length ts + 2)) 0 ts rest p in
    (t, us, same, (sound_lem (2 * length ts + 2)).value t 0 us rest v)
