-- ===== src/SourcePolicy/Answering.antt =====
-- What `Resolve` answers, by the number of matching mappings.
use indexjack.Prelude.{
  not, List, [], ◌∷◌, ok, err, Text, member, Within, Within-select, select-Within, not-member,
  not-Within, ◌≡◌, ◌≢◌, ◌↔◌, arith,
}
use indexjack.SourcePolicy.{
  no_mapping, ambiguous_mapping, Source, Mapping, Policy, Decision, mode_exclusive, mode_combined,
  excluded_by, decide, resolve_matched, matching, resolve,
}
use indexjack.SourcePolicy.Descriptions.{IsValid}
use indexjack.SourcePolicy.Validity.{validate-IsValid}

-- `excluded_by` lists the declared sources outside the pool.
pub excluded_by-Within :
    (p : Policy) (pooled : List Text) (s : Source)
    → Within s (excluded_by p pooled) ↔ (Within s p.sources × (¬ Within s.id pooled))
unfolding excluded_by
excluded_by-Within p pooled s = (
  λ w.
      let (v, e) = Within-select (λ t. not (member t.id pooled)) p.sources s w in
      (v, not-member s.id pooled (ground arith)),
  λ (v, n).
      let out = not-Within s.id pooled n in
      select-Within (λ t. not (member t.id pooled)) p.sources s v (rw out),
)

mode_disjoint : mode_exclusive ≢ mode_combined
mode_disjoint e = cc

-- What `resolve` answers on a valid policy, by the mappings that cover the name.
abbrev pub Answers : Policy → Text → List Mapping → Type 0
Answers p name [] = resolve p name ≡ err no_mapping
Answers p name (m ∷ []) =
    (d : Decision) × (resolve p name ≡ ok d)
    × (d.name ≡ name)
    × (d.pattern ≡ m.pattern)
    × (d.mode ≡ m.mode)
Answers p name (m ∷ n ∷ ms) = resolve p name ≡ err ambiguous_mapping

pub resolve_valid :
    (p : Policy) (name : Text)
    → IsValid p
    → resolve p name ≡ resolve_matched p name (matching p name)
unfolding resolve
resolve_valid p name v = rw ((validate-IsValid p).1 v)

pub decide-fields :
    (p : Policy) (name : Text) (m : Mapping) (d : Decision)
    → decide p name m ≡ ok d
    → (d.name ≡ name) × (d.pattern ≡ m.pattern) × (d.mode ≡ m.mode)
unfolding decide
decide-fields p name m d h = ground arith
