-- ===== src/SourcePolicy/Descriptions.antt =====
-- Valid sources, patterns and mappings, described without loops.
use indexjack.Prelude.{
  ℕ, ◌+◌, ◌≤◌, true, [], ◌∷◌, ◌++◌, map, ok, Text, has_prefix, has_suffix, trim_suffix, contains,
  count_byte, is_empty, length, Within, All, Distinct, has_suffix-append, suffix-rest, ◌≡◌, ◌≢◌,
  ◌⊎◌, ◌↔◌, inl, inr, refl, ap, ◌∙◌, arith, Bool-cases,
}
use indexjack.SourcePolicy
use indexjack.SourcePolicy.{
  Error, invalid_policy, unknown_source, unsupported_mode, Source, Mapping, Policy, source_id,
  source_by_id, has_id, mode_exclusive, mode_combined, role_private, role_public, star,
  validate_pattern, check_sources, declares, check_pool, check_mode, check_mappings, validate,
}

abbrev pub IsValidSource : Source → Type 0
IsValidSource s = (s.id ≢ []) × (s.url ≢ []) × ((s.role ≡ role_private) ⊎ (s.role ≡ role_public))

-- A literal name, or a literal prefix with one trailing star.
abbrev pub IsValidPattern : Text → Type 0
IsValidPattern t = (t ≢ []) × (p : Text) × (count_byte b'*' p ≡ 0) × ((t ≡ p) ⊎ (t ≡ p ++ star))

abbrev pub Declares : Policy → Text → Type 0
Declares p id = (s : Source) × Within s p.sources × (s.id ≡ id)

abbrev pub IsExclusive : Policy → Mapping → Type 0
IsExclusive p m =
    (m.mode ≡ mode_exclusive) × (m.source ≢ []) × (m.sources ≡ []) × Declares p m.source

abbrev pub IsCombined : Policy → Mapping → Type 0
IsCombined p m =
    (m.mode ≡ mode_combined)
    × (m.source ≡ [])
    × (2 ≤ length m.sources)
    × Distinct m.sources
    × All (Declares p) m.sources

abbrev pub IsValidMapping : Policy → Mapping → Type 0
IsValidMapping p m = IsValidPattern m.pattern × (IsExclusive p m ⊎ IsCombined p m)

abbrev pub pattern_of : Mapping → Text
pattern_of m = m.pattern

pub record IsValid (p : Policy) : Type 0 where
  pub format : p.format ≡ SourcePolicy.format
  pub some_source : p.sources ≢ []
  pub some_mapping : p.mappings ≢ []
  pub sources : All IsValidSource p.sources
  pub ids : Distinct (map source_id p.sources)
  pub mappings : All (IsValidMapping p) p.mappings
  pub patterns : Distinct (map pattern_of p.mappings)

-- `contains` looks for a single byte as `count_byte` counts it.
contains-count_byte : (t : Text) → (contains t star ≡ true) ↔ (1 ≤ count_byte b'*' t)
unfolding contains count_byte has_prefix
contains-count_byte [] = ground arith
contains-count_byte (c ∷ t) = ground (arith, contains-count_byte t)

count_byte-append : (c : ℕ) (s t : Text) → count_byte c (s ++ t) ≡ count_byte c s + count_byte c t
unfolding count_byte
count_byte-append c [] t = omega arith
count_byte-append c (a ∷ s) t = ground (arith, count_byte-append c s t)

count_byte-star : (p : Text) → count_byte b'*' (p ++ star) ≡ count_byte b'*' p + 1
count_byte-star p = count_byte-append b'*' p star ∙ unfold count_byte in refl

pub pattern-IsValid : (t : Text) → validate_pattern t ≡ ok tt → IsValidPattern t
unfolding validate_pattern is_empty
pattern-IsValid [] h = cc
pattern-IsValid (c ∷ r) h = elim (Bool-cases (has_suffix (c ∷ r) star)) [
  | inl e ↦
      let p = trim_suffix (c ∷ r) star in
      let cut : c ∷ r ≡ p ++ star = suffix-rest (c ∷ r) star e in
      (λ q. cc, p, ground (arith, ap (count_byte b'*') cut, count_byte-star p), inr cut)
  | inr e ↦ (λ q. cc, c ∷ r, ground (arith, contains-count_byte (c ∷ r)), inl refl)
]

pub IsValid-pattern : (t : Text) → IsValidPattern t → validate_pattern t ≡ ok tt
unfolding validate_pattern is_empty
IsValid-pattern [] (n, p, z, v) = absurd (n refl)
IsValid-pattern (c ∷ r) (n, p, z, inl e) =
    ground (arith, ap (count_byte b'*') e, contains-count_byte (c ∷ r))
IsValid-pattern (c ∷ r) (n, p, z, inr e) = ground (
  arith,
  ap (count_byte b'*') e,
  count_byte-star p,
  has_suffix-append p star,
  ap (λ t. has_suffix t star) e,
)
