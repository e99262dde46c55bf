-- ===== src/SourcePolicy/Binding.antt =====
-- What a decision in exclusive mode commits to.
use indexjack.Prelude.{
  List, [], ◌∷◌, some, Option-cases, Result-cases, ok, Text, text_eq_iff, Within, select-Within,
  ◌≡◌, ◌≢◌, ◌↔◌, inl, inr, refl, sym, ap, ◌∙◌, arith,
}
use mathlib.Core.Path.{subst}
use indexjack.SourcePolicy.{
  Source, Mapping, Policy, Decision, source_by_id, mode_exclusive, mode_combined, validate, matches,
  bound_decision, decide, resolve_matched, matching, resolve,
}
use indexjack.SourcePolicy.Mappings.{source_by_id-found}
use indexjack.SourcePolicy.Matching.{Covers, matches-Covers, matching-Covers}
use indexjack.SourcePolicy.Answering.{excluded_by-Within, decide-fields}

resolve_checked :
    (p : Policy) (name : Text) (d : Decision)
    → resolve p name ≡ ok d
    → (validate p ≡ ok tt) × (resolve_matched p name (matching p name) ≡ ok d)
resolve_checked p name d h = elim (Result-cases (validate p)) [
  | inl (u, e) ↦ (e, unfold resolve in ground (arith, e))
  | inr (x, e) ↦ absurd (unfold resolve in ground (arith, e))
]

resolve_matched-inv :
    (p : Policy) (name : Text) (ms : List Mapping) (d : Decision)
    → resolve_matched p name ms ≡ ok d
    → (m : Mapping) × (ms ≡ m ∷ []) × (decide p name m ≡ ok d)
unfolding resolve_matched
resolve_matched-inv p name [] d h = cc
resolve_matched-inv p name (m ∷ []) d h = (m, refl, h)
resolve_matched-inv p name (m ∷ n ∷ ms) d h = cc

decide_bound :
    (p : Policy) (name : Text) (m : Mapping) (d : Decision)
    → decide p name m ≡ ok d
    → m.mode ≡ mode_exclusive
    → (s : Source) × (source_by_id p m.source ≡ some s) × (d ≡ bound_decision p name m s)
unfolding decide
decide_bound p name m d h e = elim (Option-cases (source_by_id p m.source)) [
  | inl none_found ↦ absurd (ground (arith, none_found, text_eq_iff m.mode mode_combined))
  | inr (s, found) ↦ (s, found, ground (arith, found, text_eq_iff m.mode mode_combined))
]

single :
    (p : Policy) (name : Text) (m n : Mapping)
    → matching p name ≡ m ∷ []
    → Within n p.mappings
    → Covers n.pattern name
    → n ≡ m
single p name m n e w c =
    let found : Within n (matching p name) =
      unfold matching in
      select-Within (λ k. matches k.pattern name) p.mappings n w
        ((matches-Covers n.pattern name).1 c) in
    let alone : Within n (m ∷ []) = rw e at found in
    elim alone [ inl same ↦ same | inr w' ↦ elim w' [ ] ]

-- What an exclusive decision commits to.
pub record Binds (p : Policy) (name : Text) (d : Decision) : Type 0 where
  pub declared : Within d.bound p.sources
  pub pool : d.pool ≡ d.bound ∷ []
  pub mapping :
      (m : Mapping) × Within m p.mappings × Covers m.pattern name × (m.source ≡ d.bound.id)
  pub only_mapping :
      (m : Mapping) → Within m p.mappings → Covers m.pattern name → m.source ≡ d.bound.id
  pub excluded : (s : Source) → Within s d.excluded ↔ (Within s p.sources × (s.id ≢ d.bound.id))

bound-Binds :
    (p : Policy) (name : Text) (m : Mapping) (s : Source)
    → matching p name ≡ m ∷ []
    → source_by_id p m.source ≡ some s
    → Within m p.mappings × Covers m.pattern name
    → Binds p name (bound_decision p name m s)
bound-Binds p name m s one found (w, c) =
    let (v, same) = source_by_id-found p m.source s found in
    record {
      declared = v;
      pool = refl;
      mapping = (m, w, c, sym same);
      only_mapping =
          λ n wn cn. ap (λ (k : Mapping). k.source) (single p name m n one wn cn) ∙ sym same;
      excluded = λ t. (
        λ x. let (u, n) = (excluded_by-Within p (s.id ∷ []) t).0 x in (u, λ e. n (inl e)),
        λ (u, n). (excluded_by-Within p (s.id ∷ []) t).1 (u, only n),
      );
    }
  where
    only : {i j : Text} → i ≢ j → ¬ Within i (j ∷ [])
    only n (inl e) = n e
    only n (inr w) = w

-- Where a policy resolves a name in exclusive mode, the bound source is declared, it is the whole
-- pool, every mapping that covers the name names it and one does, and the excluded sources are
-- exactly the declared sources of another id.
pub resolve-Binds :
    (p : Policy) (name : Text) (d : Decision)
    → resolve p name ≡ ok d
    → d.mode ≡ mode_exclusive
    → Binds p name d
resolve-Binds p name d h e =
    let (_, r) = resolve_checked p name d h in
    let (m, one, dec) = resolve_matched-inv p name (matching p name) d r in
    let (_, _, mode) = decide-fields p name m d dec in
    let (s, found, same) = decide_bound p name m d dec (sym mode ∙ e) in
    let listed : Within m (matching p name) = rw one (inl refl) in
    subst (Binds p name) (sym same)
      (bound-Binds p name m s one found (matching-Covers p name m listed))
