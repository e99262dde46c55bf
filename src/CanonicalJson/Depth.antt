-- ===== src/CanonicalJson/Depth.antt =====
-- The walk over the tokens ends: its fuel is enough.
use indexjack.Prelude.{
  ℕ, zero, suc, ◌+◌, ◌*◌, ◌≤◌, ltb, Bool-cases, List, [], ◌∷◌, ok, err, ◌>>=◌, Text, member, length,
  ◌≡◌, ok-injective, inl, inr, refl, arith,
}
use indexjack.CanonicalJson.{
  Token, open_object, close_object, open_array, close_array, text, other, Error, too_deep,
  token_error, bad_delimiter, bad_key, duplicate_key, out_of_fuel, check_value, check_from,
  check_object, check_array, check_duplicate_keys, Walk,
}

-- A walk that had fuel enough, and that leaves no more tokens than it took.
pub record Ends (ts : List Token) (w : Walk) : Type 0 where
  pub fuelled : ¬ (w ≡ err out_of_fuel)
  pub shorter : (rest : List Token) → w ≡ ok rest → length rest ≤ length ts

chain-Ends :
    (ts : List Token) (m : Walk) (k : List Token → Walk)
    → Ends ts m
    → ((rest : List Token) → length rest ≤ length ts → Ends ts (k rest))
    → Ends ts (m >>= k)
chain-Ends ts (ok rest) k m more = more rest (m.shorter rest refl)
chain-Ends ts (err e) k m more = record {
  fuelled = λ h. m.fuelled cc;
  shorter = λ rest h. absurd cc;
}

-- More tokens before the walk do no harm.
weaken-Ends : (ts us : List Token) (w : Walk) → length ts ≤ length us → Ends ts w → Ends us w
weaken-Ends ts us w h e = record {
  fuelled = e.fuelled;
  shorter = λ rest p. omega (arith, h, e.shorter rest p);
}

failed-Ends : (ts : List Token) (e : Error) → ¬ (e ≡ out_of_fuel) → Ends ts (err e)
failed-Ends ts e h = record { fuelled = λ p. h cc; shorter = λ rest p. absurd cc }

same_length : (ts us : List Token) → ts ≡ us → length us ≡ length ts
same_length ts us p = rw p refl

done-Ends : (ts : List Token) → Ends ts (ok ts)
done-Ends ts = record {
  fuelled = λ p. cc;
  shorter = λ rest p. omega (arith, same_length ts rest (ok-injective p));
}

check_value-Ends :
    (from : Token → ℕ → List Token → Walk) (depth : ℕ) (ts : List Token)
    → ((t : Token) (us : List Token) → suc (length us) ≡ length ts → Ends us (from t depth us))
    → Ends ts (check_value from depth ts)
unfolding check_value
check_value-Ends from depth [] h = elim (Bool-cases (ltb 32 depth)) [
  | inl e ↦ rw e (failed-Ends [] too_deep (λ p. cc))
  | inr e ↦ rw e (failed-Ends [] token_error (λ p. cc))
]
check_value-Ends from depth (t ∷ ts) h = elim (Bool-cases (ltb 32 depth)) [
  | inl e ↦ rw e (failed-Ends (t ∷ ts) too_deep (λ p. cc))
  | inr e ↦ rw e (weaken-Ends ts (t ∷ ts) (from t depth ts) (omega arith) (h t ts refl))
]

-- What fuel `f` is enough for, in each of the three functions.
pub record Fuelled (f : ℕ) : Type 0 where
  pub value :
      (t : Token) (depth : ℕ) (ts : List Token)
      → 2 * length ts + 2 ≤ f
      → Ends ts (check_from f t depth ts)
  pub members :
      (seen : List Text) (depth : ℕ) (ts : List Token)
      → 2 * length ts + 1 ≤ f
      → Ends ts (check_object f seen depth ts)
  pub elements :
      (depth : ℕ) (ts : List Token) → 2 * length ts + 1 ≤ f → Ends ts (check_array f depth ts)

module _ (f : ℕ) (h : Fuelled f) where
  value_lem :
      (t : Token) (depth : ℕ) (ts : List Token)
      → 2 * length ts + 2 ≤ suc f
      → Ends ts (check_from (suc f) t depth ts)
  unfolding check_from
  value_lem open_object depth ts n = h.members [] depth ts (omega arith)
  value_lem open_array depth ts n = h.elements depth ts (omega arith)
  value_lem close_object depth ts n = failed-Ends ts bad_delimiter (λ p. cc)
  value_lem close_array depth ts n = failed-Ends ts bad_delimiter (λ p. cc)
  value_lem (text s) depth ts n = done-Ends ts
  value_lem other depth ts n = done-Ends ts

  element_lem :
      (t : Token) (depth : ℕ) (ts : List Token)
      → 2 * length (t ∷ ts) + 1 ≤ suc f
      → Ends (t ∷ ts) (check_from f t (depth + 1) ts >>= check_array f depth)
  element_lem t depth ts n = weaken-Ends ts (t ∷ ts) _ (omega arith) (
      chain-Ends ts (check_from f t (depth + 1) ts) (check_array f depth)
        (h.value t (depth + 1) ts (omega (arith, n)))
        (λ rest p. weaken-Ends rest ts _ p (h.elements depth rest (omega (arith, n, p)))))

  elements_lem :
      (depth : ℕ) (ts : List Token)
      → 2 * length ts + 1 ≤ suc f
      → Ends ts (check_array (suc f) depth ts)
  unfolding check_array
  elements_lem depth [] n = failed-Ends [] token_error (λ p. cc)
  elements_lem depth (close_array ∷ ts) n =
      weaken-Ends ts (close_array ∷ ts) (ok ts) (omega arith) (done-Ends ts)
  elements_lem depth (open_array ∷ ts) n = element_lem open_array depth ts n
  elements_lem depth (open_object ∷ ts) n = element_lem open_object depth ts n
  elements_lem depth (close_object ∷ ts) n = element_lem close_object depth ts n
  elements_lem depth (text s ∷ ts) n = element_lem (text s) depth ts n
  elements_lem depth (other ∷ ts) n = element_lem other depth ts n

  members_lem :
      (seen : List Text) (depth : ℕ) (ts : List Token)
      → 2 * length ts + 1 ≤ suc f
      → Ends ts (check_object (suc f) seen depth ts)
  unfolding check_object
  members_lem seen depth [] n = failed-Ends [] token_error (λ p. cc)
  members_lem seen depth (close_object ∷ ts) n =
      weaken-Ends ts (close_object ∷ ts) (ok ts) (omega arith) (done-Ends ts)
  members_lem seen depth (open_array ∷ ts) n = failed-Ends (open_array ∷ ts) bad_key (λ p. cc)
  members_lem seen depth (close_array ∷ ts) n = failed-Ends (close_array ∷ ts) bad_key (λ p. cc)
  members_lem seen depth (open_object ∷ ts) n = failed-Ends (open_object ∷ ts) bad_key (λ p. cc)
  members_lem seen depth (other ∷ ts) n = failed-Ends (other ∷ ts) bad_key (λ p. cc)
  members_lem seen depth (text key ∷ ts) n = elim (Bool-cases (member key seen)) [
    | inl e ↦ rw e (failed-Ends (text key ∷ ts) duplicate_key (λ p. cc))
    | inr e ↦ rw e (
        weaken-Ends ts (text key ∷ ts) _ (omega arith) (
          chain-Ends ts (check_value (check_from f) (depth + 1) ts)
            (check_object f (key ∷ seen) depth)
            (check_value-Ends (check_from f) (depth + 1) ts
              (λ t us p. h.value t (depth + 1) us (omega (arith, n, p))))
            (λ rest p.
              weaken-Ends rest ts _ p (h.members (key ∷ seen) depth rest (omega (arith, n, p))))))
  ]

pub fuel_lem : (f : ℕ) → Fuelled f
fuel_lem zero = record {
  value = λ t depth ts n. absurd (omega (arith, n));
  members = λ seen depth ts n. absurd (omega (arith, n));
  elements = λ depth ts n. absurd (omega (arith, n));
}
fuel_lem (suc f) =
    let h = fuel_lem f in
    record { value = value_lem f h; members = members_lem f h; elements = elements_lem f h }

-- The walk over the tokens never runs out of the fuel that `check_duplicate_keys` gives it,
-- whatever the tokens.
pub check_duplicate_keys-ends : (ts : List Token) → ¬ (check_duplicate_keys ts ≡ err out_of_fuel)
unfolding check_duplicate_keys
check_duplicate_keys-ends ts =
    (check_value-Ends (check_from (2 * length ts + 2)) 0 ts
      (λ t us p. (fuel_lem (2 * length ts + 2)).value t 0 us (omega (arith, p)))).fuelled
