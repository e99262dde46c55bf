-- ===== src/Resolver/Candidates.antt =====
-- `orderCandidates`: the published versions that can be read, the highest first.
use indexjack.Prelude.{
  true, false, List, [], ◌∷◌, Result-cases, ok, Text, text_lt, text_lt_asym, text_lt_behind,
  sort-Within, IsSorted, sort-IsSorted, Within, ◌≡◌, ◌↔◌, inl, inr, refl, ap, ◌∙◌, arith,
}
use indexjack.Semver
use indexjack.Semver.Order.{compare-flip, tie_lem}
use indexjack.Registry.{Metadata, VersionInfo}
use indexjack.Resolver.{Candidate, candidate_of, parsed, offered, comes_before, order_candidates}

-- A version that the metadata lists and that can be read, as a candidate.
abbrev pub IsOffered : Text → Text → List VersionInfo → Candidate → Type 0
IsOffered source name versions c =
    (v : VersionInfo) × Within v versions
    × (p : Semver.Version) × (Semver.parse v.version ≡ ok p)
    × (c ≡ candidate_of source name v)

offered-IsOffered :
    (source name : Text) (vs : List VersionInfo) (c : Candidate)
    → Within c (offered source name vs)
    → IsOffered source name vs c
unfolding offered
offered-IsOffered source name [] c w = elim w [ ]
offered-IsOffered source name (v ∷ vs) c w = elim (Result-cases (Semver.parse v.version)) [
  | inl (p, e) ↦
      let u : Within c (candidate_of source name v ∷ offered source name vs) =
        rw (e, offered) at w in
      elim u [
        | inl here ↦ (v, inl refl, p, e, here)
        | inr there ↦
            let (x, wx, q, f, same) = offered-IsOffered source name vs c there in
            (x, inr wx, q, f, same)
      ]
  | inr (x, e) ↦
      let there : Within c (offered source name vs) = rw (e, offered) at w in
      let (y, wy, q, f, same) = offered-IsOffered source name vs c there in (y, inr wy, q, f, same)
]

IsOffered-offered :
    (source name : Text) (vs : List VersionInfo) (c : Candidate)
    → IsOffered source name vs c
    → Within c (offered source name vs)
unfolding offered
IsOffered-offered source name [] c (v, w, p, e, same) = elim w [ ]
IsOffered-offered source name (x ∷ vs) c (v, inl here, p, e, same) =
    let f : Semver.parse x.version ≡ ok p = rw here at e in
    rw (f, offered) (inl (same ∙ ap (candidate_of source name) here))
IsOffered-offered source name (x ∷ vs) c (v, inr there, p, e, same) =
    let w = IsOffered-offered source name vs c (v, there, p, e, same) in
    elim (Result-cases (Semver.parse x.version)) [
      | inl (q, f) ↦ rw (f, offered) (inr w)
      | inr (y, f) ↦ rw (f, offered) w
    ]

comes_before-asym : (a b : Candidate) → comes_before a b ≡ true → comes_before b a ≡ false
unfolding comes_before
comes_before-asym a b h =
    ground
      (arith, compare-flip (parsed a.version) (parsed b.version), text_lt_asym a.source b.source)

comes_before-behind :
    (a b c : Candidate)
    → comes_before c b ≡ false
    → comes_before b a ≡ false
    → comes_before c a ≡ false
unfolding comes_before
comes_before-behind a b c p q =
    tie_lem (parsed a.version) (parsed b.version) (parsed c.version) (text_lt b.source a.source)
      (text_lt c.source b.source) (text_lt c.source a.source)
      (text_lt_behind a.source b.source c.source) p q

-- `order_candidates` answers exactly the versions of the metadata that can be read, and no
-- candidate stands behind one that it comes before: the newest stand first.
pub order_candidates-IsOffered :
    (source : Text) (meta : Metadata)
    → IsSorted comes_before (order_candidates source meta)
      × ((c : Candidate)
          → Within c (order_candidates source meta) ↔ IsOffered source meta.name meta.versions c)
unfolding order_candidates
order_candidates-IsOffered source meta =
    let found = offered source meta.name meta.versions in
    (
      sort-IsSorted comes_before comes_before-asym comes_before-behind found,
      λ c.
          let (to, from) = sort-Within comes_before found c in
          (
            λ w. offered-IsOffered source meta.name meta.versions c (to w),
            λ h. from (IsOffered-offered source meta.name meta.versions c h),
          ),
    )
