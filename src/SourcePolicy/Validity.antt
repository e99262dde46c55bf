-- ===== src/SourcePolicy/Validity.antt =====
-- `Validate`: the policies it accepts, described without its loops.
use indexjack.Prelude.{
  true, false, List, [], ◌∷◌, map, ok, Text, text_eq, text_eq_iff, member, length, All, Fresh,
  Fresh→Distinct, Distinct→Fresh, not-member, not-Within, ◌≡◌, ◌≢◌, ◌↔◌, refl, arith,
}
use indexjack.SourcePolicy
use indexjack.SourcePolicy.{
  Error, invalid_policy, unknown_source, unsupported_mode, Source, Mapping, Policy, source_id,
  source_by_id, has_id, mode_exclusive, mode_combined, role_private, role_public, star,
  validate_pattern, check_sources, declares, check_pool, check_mode, check_mappings, validate,
}
use indexjack.SourcePolicy.Descriptions.{
  IsValidMapping, pattern_of, IsValid, pattern-IsValid, IsValid-pattern,
}
use indexjack.SourcePolicy.Mappings.{
  sources-IsValid, IsValid-sources, empty_length, mode-IsValid, IsValid-mode,
}

check_mappings-cons :
    (p : Policy) (seen : List Text) (m : Mapping) (ms : List Mapping)
    → check_mappings p seen (m ∷ ms) ≡ ok tt
    → (validate_pattern m.pattern ≡ ok tt)
      × (member m.pattern seen ≡ false)
      × (check_mode p m ≡ ok tt)
      × (check_mappings p (m.pattern ∷ seen) ms ≡ ok tt)
unfolding check_mappings
check_mappings-cons p seen m ms h = ground arith

mappings-IsValid :
    (p : Policy) (seen : List Text) (ms : List Mapping)
    → check_mappings p seen ms ≡ ok tt
    → All (IsValidMapping p) ms × Fresh seen (map pattern_of ms)
mappings-IsValid p seen [] h = (tt, tt)
mappings-IsValid p seen (m ∷ ms) h =
    let (t, new, k, rest) = check_mappings-cons p seen m ms h in
    let (vs, fs) = mappings-IsValid p (m.pattern ∷ seen) ms rest in
    (((pattern-IsValid m.pattern t, mode-IsValid p m k), vs), (not-member m.pattern seen new, fs))

IsValid-mappings :
    (p : Policy) (seen : List Text) (ms : List Mapping)
    → All (IsValidMapping p) ms
    → Fresh seen (map pattern_of ms)
    → check_mappings p seen ms ≡ ok tt
unfolding check_mappings
IsValid-mappings p seen [] v f = refl
IsValid-mappings p seen (m ∷ ms) v f = rw (
  IsValid-pattern m.pattern v.0.0,
  not-Within m.pattern seen f.0,
  IsValid-mode p m v.0.1,
  IsValid-mappings p (m.pattern ∷ seen) ms v.1 f.1,
)

validate-inv :
    (p : Policy)
    → validate p ≡ ok tt
    → (text_eq p.format SourcePolicy.format ≡ true)
      × (length p.sources ≢ 0)
      × (length p.mappings ≢ 0)
      × (check_sources [] p.sources ≡ ok tt)
      × (check_mappings p [] p.mappings ≡ ok tt)
unfolding validate
validate-inv p h = ground arith

sound : (p : Policy) → validate p ≡ ok tt → IsValid p
sound p h =
    let (f, s, m, ss, ms) = validate-inv p h in
    let (vs, fs) = sources-IsValid [] p.sources ss in
    let (vm, fm) = mappings-IsValid p [] p.mappings ms in
    record {
      format = (text_eq_iff p.format SourcePolicy.format).0 f;
      some_source = λ e. s ((empty_length p.sources).1 e);
      some_mapping = λ e. m ((empty_length p.mappings).1 e);
      sources = vs;
      ids = Fresh→Distinct [] (map source_id p.sources) fs;
      mappings = vm;
      patterns = Fresh→Distinct [] (map pattern_of p.mappings) fm;
    }

complete : (p : Policy) → IsValid p → validate p ≡ ok tt
unfolding validate
complete p v =
    let ss =
      IsValid-sources [] p.sources v.sources (Distinct→Fresh (map source_id p.sources) v.ids) in
    let ms =
      IsValid-mappings p [] p.mappings v.mappings
        (Distinct→Fresh (map pattern_of p.mappings) v.patterns) in
    rw (ss, ms)
      (ground (
        arith,
        text_eq_iff p.format SourcePolicy.format,
        empty_length p.sources,
        empty_length p.mappings,
        v.format,
      ))

-- `validate` passes a source policy exactly where its format is the known one, it has sources and
-- mappings, each source has an id, a URL and a known role, no id and no pattern is repeated, each
-- pattern has at most one star, at its end, and each mapping is exclusive with one declared source
-- or combined with two or more different declared ones.
pub validate-IsValid : (p : Policy) → (validate p ≡ ok tt) ↔ IsValid p
validate-IsValid p = (sound p, complete p)
