-- ===== src/SourcePolicy/Matching.antt =====
-- Which names a pattern covers.
use indexjack.Prelude.{
  true, false, ◌++◌, Text, text_eq_iff, has_suffix, trim_suffix, prefix-rest, has_prefix-append,
  Within, Within-select, has_suffix-append, trim_suffix-append, suffix-rest, ◌≡◌, ◌⊎◌, ◌↔◌, inl,
  inr, arith, Bool-cases,
}
use indexjack.SourcePolicy.{Mapping, Policy, star, matches, matching}

-- A literal pattern covers itself, and a pattern with a trailing star covers what it begins.
abbrev pub Covers : Text → Text → Type 0
Covers pattern name =
    ((p : Text) × (rest : Text) × (pattern ≡ p ++ star) × (name ≡ p ++ rest))
    ⊎ ((has_suffix pattern star ≡ false) × (pattern ≡ name))

-- A pattern matches a name exactly where it is a text followed by a star and the name begins with
-- that text, or where it does not end in a star and is the name.
pub matches-Covers : (pattern name : Text) → (matches pattern name ≡ true) ↔ Covers pattern name
unfolding matches
matches-Covers pattern name = (to, from)
  where
    to : matches pattern name ≡ true → Covers pattern name
    to h = elim (Bool-cases (has_suffix pattern star)) [
      | inl e ↦
          let p = trim_suffix pattern star in
          let (r, f) = prefix-rest name p (ground arith) in
          inl (p, r, suffix-rest pattern star e, f)
      | inr e ↦ inr (e, (text_eq_iff pattern name).0 (ground arith))
    ]

    from : Covers pattern name → matches pattern name ≡ true
    from (inl (p, r, e, f)) =
        rw (e, f) (rw (has_suffix-append p star, trim_suffix-append p star) (has_prefix-append r p))
    from (inr (e, f)) = rw e ((text_eq_iff pattern name).1 f)

-- The mappings whose pattern covers a name are what `matching` lists.
pub matching-Covers :
    (p : Policy) (name : Text) (m : Mapping)
    → Within m (matching p name)
    → Within m p.mappings × Covers m.pattern name
unfolding matching
matching-Covers p name m w =
    let (v, e) = Within-select (λ n. matches n.pattern name) p.mappings m w in
    (v, (matches-Covers m.pattern name).0 e)
