-- ===== src/CombinedIndex/Compatible.antt =====
-- Which published versions the combined index takes, and what a pool of sources answers.
use indexjack.Prelude.{
  ℕ, true, false, Bool-cases, List, [], ◌∷◌, map, Result-cases, ok, err, Text, Within, ◌≡◌, ◌⊎◌,
  ◌↔◌, inl, inr, refl, ap, ◌∙◌, arith,
}
use indexjack.Semver
use indexjack.SourcePolicy.{Source}
use indexjack.BuildManifest.{Dependency}
use indexjack.Registry.{not_found, Metadata, VersionInfo}
use indexjack.Resolver.{Candidate, candidate_of, Fetcher}
use indexjack.CombinedIndex.{Config, compatible, candidate_in}

-- What the pooled sources answered, in order, from one state of the network to another.
pub data Answered {N : Type 0} (cfg : Config N) (dep : Dependency)
    : List Source → N → List (Source × Metadata) → N → Type 0 where
  all_asked : {n : N} → Answered cfg dep [] n [] n
  answered :
      {s : Source} {pool : List Source} {n m k : N} {meta : Metadata}
      {heard : List (Source × Metadata)} {client : Fetcher N}
      → cfg.dial s ≡ ok client
      → client.metadata dep.name n ≡ (ok meta, m)
      → Answered cfg dep pool m heard k
      → Answered cfg dep (s ∷ pool) n ((s, meta) ∷ heard) k
  absent :
      {s : Source} {pool : List Source} {n m k : N} {heard : List (Source × Metadata)}
      {client : Fetcher N}
      → cfg.dial s ≡ ok client
      → client.metadata dep.name n ≡ (err not_found, m)
      → Answered cfg dep pool m heard k
      → Answered cfg dep (s ∷ pool) n heard k

-- A published version that can be read and lies in the range, as a candidate.
abbrev pub IsCompatible : Semver.Range → Text → Text → List VersionInfo → Candidate → Type 0
IsCompatible range source name vs c =
    (v : VersionInfo) × Within v vs
    × (p : Semver.Version) × (Semver.parse v.version ≡ ok p)
    × (Semver.satisfies range p ≡ true)
    × (c ≡ candidate_of source name v)

abbrev pub IsPooled : Semver.Range → List (Source × Metadata) → Candidate → Type 0
IsPooled range [] c = ⊥
IsPooled range ((s, meta) ∷ heard) c =
    IsCompatible range s.id meta.name meta.versions c ⊎ IsPooled range heard c

compatible-cases :
    (range : Semver.Range) (source : Text) (rank : ℕ) (name : Text) (v : VersionInfo)
    (vs : List VersionInfo)
    → ((p : Semver.Version) × (Semver.parse v.version ≡ ok p)
        × (Semver.satisfies range p ≡ true)
        × (map candidate_in (compatible range source rank name (v ∷ vs))
            ≡ candidate_of source name v ∷ map candidate_in (compatible range source rank name vs)))
      ⊎ (((p : Semver.Version) → Semver.parse v.version ≡ ok p → Semver.satisfies range p ≡ false)
          × (map candidate_in (compatible range source rank name (v ∷ vs))
              ≡ map candidate_in (compatible range source rank name vs)))
unfolding compatible
compatible-cases range source rank name v vs = elim (Result-cases (Semver.parse v.version)) [
  | inr (x, e) ↦ inr (λ p f. absurd (ground (arith, e, f)), ground (arith, e))
  | inl (p, e) ↦ elim (Bool-cases (Semver.satisfies range p)) [
    | inl f ↦ inl (p, e, f, ground (arith, e, f))
    | inr f ↦
        inr (λ q g. let same : p ≡ q = ground (arith, e, g) in rw (← same) f, ground (arith, e, f))
  ]
]

pub compatible-IsCompatible :
    (range : Semver.Range) (source : Text) (rank : ℕ) (name : Text) (vs : List VersionInfo)
    (c : Candidate)
    → Within c (map candidate_in (compatible range source rank name vs))
      ↔ IsCompatible range source name vs c
unfolding compatible
compatible-IsCompatible range source rank name [] c =
    (λ w. elim w [ ], λ (v, w, _, _, _, _). elim w [ ])
compatible-IsCompatible range source rank name (v ∷ vs) c =
    let (to, from) = compatible-IsCompatible range source rank name vs c in
    elim (compatible-cases range source rank name v vs) [
      | inl (p, e, f, same) ↦ (
        λ w. elim (rw same at w) [
          | inl here ↦ (v, inl refl, p, e, f, here)
          | inr there ↦ let (u, w2, q, g, h, k) = to there in (u, inr w2, q, g, h, k)
        ],
        λ (u, w, q, g, h, k). rw same (elim w [
          | inl here ↦ inl (k ∙ ap (candidate_of source name) here)
          | inr there ↦ inr (from (u, there, q, g, h, k))
        ]),
      )
      | inr (none_, same) ↦ (
        λ w. let (u, w2, q, g, h, k) = to (rw same at w) in (u, inr w2, q, g, h, k),
        λ (u, w, q, g, h, k). rw same (elim w [
          | inl here ↦ let bad = none_ q (rw here at g) in absurd (ground (arith, bad, h))
          | inr there ↦ from (u, there, q, g, h, k)
        ]),
      )
    ]
