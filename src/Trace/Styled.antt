-- ===== src/Trace/Styled.antt =====
-- The presentation that a package may ask for.
use indexjack.Prelude.{
  Bool-cases, List, [], ◌∷◌, Option, none, some, Option-cases, ok, Text, codes, text_eq,
  text_eq_iff, Within, ◌≡◌, ◌⊎◌, inl, inr, refl, ap, ◌∙◌,
}
use indexjack.PkgArchive.{
  Package, Table, lookup, schema, kind_report_format, policy_lookup, validate_policy,
}
use indexjack.PkgArchive.Policies.{validate_policy-IsAccepted, policy_lookup_listed}
use indexjack.Resolver.{Resolution}
use indexjack.Trace.{Style, fallback_style, found_or, style_of, style_from}

-- A style of enumerated values.
pub record IsEnumerated (s : Style) : Type 0 where
  pub title : (s.title ≡ codes "plain") ⊎ (s.title ≡ codes "upper")
  pub divider : (s.divider ≡ codes "dash") ⊎ (s.divider ≡ codes "equals")
  pub field_case : (s.field_case ≡ codes "lower") ⊎ (s.field_case ≡ codes "upper")

abbrev report_keys : Table (List Text)
report_keys =
    (codes "divider", codes "dash" ∷ codes "equals" ∷ [])
    ∷ (codes "field_case", codes "lower" ∷ codes "upper" ∷ [])
    ∷ (codes "title_style", codes "plain" ∷ codes "upper" ∷ [])
    ∷ []

report_schema : lookup kind_report_format schema ≡ some report_keys
unfolding lookup text_eq
report_schema = refl

report_values :
    (lookup (codes "title_style") report_keys ≡ some (codes "plain" ∷ codes "upper" ∷ []))
    × (lookup (codes "divider") report_keys ≡ some (codes "dash" ∷ codes "equals" ∷ []))
    × (lookup (codes "field_case") report_keys ≡ some (codes "lower" ∷ codes "upper" ∷ []))
unfolding lookup text_eq
report_values = (refl, refl, refl)

-- One of two values, with the first for a missing one.
one_of :
    (a b : Text) (found : Option Text)
    → ((v : Text) → found ≡ some v → Within v (a ∷ b ∷ []))
    → (found_or a found ≡ a) ⊎ (found_or a found ≡ b)
one_of a b none h = inl refl
one_of a b (some v) h = elim (h v refl) [
  | inl e ↦ inl e
  | inr w ↦ elim w [ inl e ↦ inr e | inr none_of ↦ elim none_of [ ] ]
]

style_of-IsEnumerated :
    (res : Resolution) (pkg : Package)
    → validate_policy pkg.policy ≡ ok tt
    → pkg.policy.kind ≡ kind_report_format
    → IsEnumerated (style_of res pkg)
unfolding style_of
style_of-IsEnumerated res pkg valid kind =
    let p = pkg.policy in
    let a = validate_policy-IsAccepted p valid in
    let listed : lookup p.kind schema ≡ some report_keys =
      ap (λ k. lookup k schema) kind ∙ report_schema in
    let (titles, dividers, cases) = report_values in
    record {
      title =
          one_of (codes "plain") (codes "upper") (policy_lookup p (codes "title_style"))
            (λ v h. policy_lookup_listed p (codes "title_style") v report_keys _ a listed titles h);
      divider =
          one_of (codes "dash") (codes "equals") (policy_lookup p (codes "divider"))
            (λ v h. policy_lookup_listed p (codes "divider") v report_keys _ a listed dividers h);
      field_case =
          one_of (codes "lower") (codes "upper") (policy_lookup p (codes "field_case"))
            (λ v h. policy_lookup_listed p (codes "field_case") v report_keys _ a listed cases h);
    }

fallback-IsEnumerated : IsEnumerated fallback_style
fallback-IsEnumerated = record { title = inl refl; divider = inl refl; field_case = inl refl }

-- Where the policy of a resolved report-format package has passed the loader's check, the title
-- style, the divider and the field case of the trace are enumerated ones, and so they are where
-- there is no such package.
pub style_from-IsEnumerated :
    (found : Option Resolution)
    → ((res : Resolution) (pkg : Package)
        → found ≡ some res
        → res.pkg ≡ some pkg
        → validate_policy pkg.policy ≡ ok tt)
    → IsEnumerated (style_from found)
unfolding style_from
style_from-IsEnumerated none loaded = fallback-IsEnumerated
style_from-IsEnumerated (some res) loaded = elim (Option-cases res.pkg) [
  | inl e ↦ rw (e, style_from) fallback-IsEnumerated
  | inr (pkg, e) ↦ elim (Bool-cases (text_eq pkg.policy.kind kind_report_format)) [
    | inr f ↦ rw (e, f, style_from) fallback-IsEnumerated
    | inl f ↦
        rw (e, f, style_from)
          (style_of-IsEnumerated res pkg (loaded res pkg refl e)
            ((text_eq_iff pkg.policy.kind kind_report_format).0 f))
  ]
]
