-- ===== src/CombinedIndex.antt =====
-- internal/combinedindex/combinedindex.go: the intentionally vulnerable resolver. It asks every
-- pooled source and compares no digest; the rest it shares with the secure one.
pub mod Precedence
pub mod Highest
pub mod Loaded
pub mod Compatible
pub mod Merged
use indexjack.Prelude.{
  ℕ, ◌+◌, ltb, ◌==◌, if◌then◌else◌, Bool, true, false, not, List, [], ◌∷◌, ◌++◌, map, Option, none,
  some, Result, ok, err, ◌>>=◌, Text, Bytes, text_eq, text_lt, find?, sort, length, pos, Ordering,
}
use indexjack.Semver
use indexjack.SourcePolicy
use indexjack.SourcePolicy.{Policy, Source, Decision, no_source, source_id, has_id}
use indexjack.BuildManifest.{Dependency}
use indexjack.PkgArchive
use indexjack.PkgArchive.Identity.{digest}
use indexjack.Registry.{FetchError, not_found, Metadata, VersionInfo}
use indexjack.Vulnerable.{Environment, Refusal, gate}
use indexjack.Resolver.{
  Candidate, candidate_of, Resolution, started, highest_version, unverified, Fetcher, Platform,
  Attempt, stop, policy_class, fetch_class, source_policy_invalid, registry_unavailable,
  no_compatible_candidate, artifact_malformed, source_policy, registry_query, artifact_fetch,
  artifact_parse,
}

-- There is no lock here.
pub record Config (N : Type 0) : Type 0 where
  pub policy : Policy
  pub dial : Source → Result FetchError (Fetcher N)

-- A nil resolution with the gate's error, or an attempt.
pub data Reply (N : Type 0) : Type 0 where
  refused : Refusal → N → Reply N
  attempted : Attempt N → Reply N

pub record Offer : Type 0 where
  pub candidate : Candidate
  pub version : Semver.Version
  pub rank : ℕ

-- The loop over the versions of one source.
pub compatible : Semver.Range → Text → ℕ → Text → List VersionInfo → List Offer
compatible range source rank name [] = []
compatible range source rank name (v ∷ vs) =
    let rest = compatible range source rank name vs in
    elim (Semver.parse v.version) [
      | err _ ↦ rest
      | ok version ↦
          if Semver.satisfies range version
          then record { candidate = candidate_of source name v; version = version; rank = rank }
            ∷ rest
          else rest
    ]

-- Where two versions are equal, the rank decides, and then the source id.
pub tie : Offer → Offer → Bool
tie a b =
    if not (a.rank == b.rank)
    then ltb a.rank b.rank
    else text_lt a.candidate.source b.candidate.source

pub ahead : Offer → Offer → Bool
ahead a b = elim (Semver.compare a.version b.version) [
  | Ordering.gt ↦ true
  | Ordering.lt ↦ false
  | Ordering.eq ↦ tie a b
]

abbrev pub candidate_in : Offer → Candidate
candidate_in o = o.candidate

source_by_id : List Source → Text → Source
source_by_id pool id = elim (find? (has_id id) pool) [ some s ↦ s | none ↦ no_source ]

-- What the questions to the pool end with: a failure, or the offers, the record and the network.
pub record Pooled (N : Type 0) : Type 0 where
  pub offers : List Offer
  pub resolution : Resolution
  pub network : N

module _ {N : Type 0} (platform : Platform) where
  -- The artifact is parsed by the same loader, and nothing is compared with its digest.
  parse_stage : Resolution → Result FetchError Bytes × N → Attempt N
  parse_stage res (err e, n) = stop res (fetch_class e) artifact_fetch n
  parse_stage res (ok raw, n) =
      let known = record res {
        size = pos (length raw);
        digest = digest platform.sha256 raw;
        integrity = unverified;
      } in
      elim (PkgArchive.parse platform.reader raw) [
        | err _ ↦ stop known artifact_malformed artifact_parse n
        | ok pkg ↦ record {
          resolution = record known { pkg = some pkg };
          failure = none;
          network = n;
        }
      ]

  module _ (cfg : Config N) (dep : Dependency) where
    -- One source's answer; a source that does not carry the name offers nothing.
    pub hear :
        Semver.Range
        → ℕ
        → Source
        → List Offer
        → Resolution
        → Result FetchError Metadata × N
        → Result (Attempt N) (Pooled N)
    hear range rank s offers res (ok meta, n) = ok (record {
      offers = offers ++ compatible range s.id rank meta.name meta.versions;
      resolution = res;
      network = n;
    })
    hear range rank s offers res (err not_found, n) =
        ok (record { offers = offers; resolution = res; network = n })
    hear range rank s offers res (err e, n) = err (stop res registry_unavailable registry_query n)

    pub ask :
        Semver.Range → ℕ → Source → List Offer → Resolution → N → Result (Attempt N) (Pooled N)
    ask range rank s offers res n = elim (cfg.dial s) [
      | err _ ↦ err (stop res registry_unavailable registry_query n)
      | ok client ↦
          hear range rank s offers (record res { queried = res.queried ++ s.id ∷ [] })
            (client.metadata dep.name n)
    ]

    -- Every pooled source is asked, in order.
    pub poll :
        Semver.Range → ℕ → List Source → List Offer → Resolution → N → Result (Attempt N) (Pooled N)
    poll range rank [] offers res n = ok (record { offers = offers; resolution = res; network = n })
    poll range rank (s ∷ pool) offers res n = ask range rank s offers res n >>= λ p.
        poll range (1 + rank) pool p.offers p.resolution p.network

    pub fetch_stage : List Source → Candidate → Resolution → N → Attempt N
    fetch_stage pool selected res n = elim (cfg.dial (source_by_id pool selected.source)) [
      | err _ ↦ stop res registry_unavailable artifact_fetch n
      | ok client ↦ parse_stage res (client.artifact dep.name selected.version n)
    ]

    -- The head of the merged and sorted offers is selected.
    select_stage : List Source → List Offer → Resolution → N → Attempt N
    select_stage pool [] res n =
        stop (record res { candidates = [] }) no_compatible_candidate registry_query n
    select_stage pool (o ∷ offers) res n =
        fetch_stage pool o.candidate
          (record res { candidates = map candidate_in (o ∷ offers); selected = o.candidate }) n

    merged : List Source → Result (Attempt N) (Pooled N) → Attempt N
    merged pool (err a) = a
    merged pool (ok p) = select_stage pool (sort ahead p.offers) p.resolution p.network

    range_stage : Decision → Resolution → N → Attempt N
    range_stage decision res n = elim (Semver.parse_range dep.range) [
      | err _ ↦ stop res source_policy_invalid source_policy n
      | ok range ↦ merged decision.pool (poll range 0 decision.pool [] res n)
    ]

    policy_stage : Resolution → N → Attempt N
    policy_stage res n = elim (SourcePolicy.resolve cfg.policy dep.name) [
      | err e ↦ stop res (policy_class e) source_policy n
      | ok decision ↦
          range_stage decision
            (record res { policy = decision; excluded = map source_id decision.excluded }) n
    ]

    attempt : N → Attempt N
    attempt n = elim (SourcePolicy.validate cfg.policy) [
      | err _ ↦ stop (started highest_version dep) source_policy_invalid source_policy n
      | ok _ ↦
          policy_stage
            (record (started highest_version dep) {
              display_order = SourcePolicy.display_order cfg.policy;
            })
            n
    ]

    unfoldable pub resolve : Environment → N → Reply N
    unfolding compatible tie ahead source_by_id parse_stage hear ask poll fetch_stage select_stage
        merged range_stage policy_stage attempt
    resolve env n = elim (gate env) [ err r ↦ refused r n | ok _ ↦ attempted (attempt n) ]
