-- ===== src/CombinedIndex/Loaded.antt =====
-- What the combined index delivers is a parsed package.
use indexjack.Prelude.{
  List, [], ◌∷◌, none, some, Result, Result-cases, ok, err, Bytes, sort, ◌≡◌, inl, inr, refl, arith,
}
use indexjack.Semver
use indexjack.SourcePolicy
use indexjack.SourcePolicy.{Source, Decision}
use indexjack.BuildManifest.{Dependency}
use indexjack.PkgArchive
use indexjack.Registry.{FetchError}
use indexjack.Vulnerable.{Environment, gate}
use indexjack.Resolver.{Candidate, Resolution, Platform, Attempt}
use indexjack.CombinedIndex.{
  Config, attempted, Offer, ahead, parse_stage, poll, Pooled, fetch_stage, source_by_id,
  select_stage, merged, range_stage, policy_stage, attempt, resolve,
}
use indexjack.CombinedIndex.Highest.{poll-stops}

-- The package of a resolution, and the bytes that it was read from.
pub record IsParsed (platform : Platform) (res : Resolution) : Type 0 where
  pub raw : Bytes
  pub pkg : PkgArchive.Package
  pub parsed : PkgArchive.parse platform.reader raw ≡ ok pkg
  pub delivered : res.pkg ≡ some pkg

module _ {N : Type 0} (platform : Platform) where
  parse_stage-IsParsed :
      (res : Resolution) (answer : Result FetchError Bytes × N)
      → (parse_stage platform res answer).failure ≡ none
      → IsParsed platform (parse_stage platform res answer).resolution
  unfolding parse_stage
  parse_stage-IsParsed res (err e, n) h = absurd (ground (arith, h))
  parse_stage-IsParsed res (ok raw, n) h =
      elim (Result-cases (PkgArchive.parse platform.reader raw)) [
        | inl (pkg, e) ↦ record { raw = raw; pkg = pkg; parsed = e; delivered = ground (arith, e) }
        | inr (x, e) ↦ absurd (ground (arith, e, h))
      ]

  module _ (cfg : Config N) (dep : Dependency) where
    fetch_stage-IsParsed :
        (pool : List Source) (c : Candidate) (res : Resolution) (n : N)
        → (fetch_stage platform cfg dep pool c res n).failure ≡ none
        → IsParsed platform (fetch_stage platform cfg dep pool c res n).resolution
    unfolding fetch_stage
    fetch_stage-IsParsed pool c res n h =
        elim (Result-cases (cfg.dial (source_by_id pool c.source))) [
          | inl (client, e) ↦
              let answer = client.artifact dep.name c.version n in
              let same : fetch_stage platform cfg dep pool c res n
                  ≡ parse_stage platform res answer =
                rw (e, fetch_stage) refl in
              rw same (parse_stage-IsParsed res answer (rw same at h))
          | inr (x, e) ↦ absurd (ground (arith, e, h))
        ]

    select_stage-IsParsed :
        (pool : List Source) (offers : List Offer) (res : Resolution) (n : N)
        → (select_stage platform cfg dep pool offers res n).failure ≡ none
        → IsParsed platform (select_stage platform cfg dep pool offers res n).resolution
    unfolding select_stage
    select_stage-IsParsed pool [] res n h = absurd cc
    select_stage-IsParsed pool (o ∷ offers) res n h = fetch_stage-IsParsed pool o.candidate _ n h

    merged-IsParsed :
        (range : Semver.Range) (pool : List Source) (res : Resolution) (n : N)
        (r : Result (Attempt N) (Pooled N))
        → poll platform cfg dep range 0 pool [] res n ≡ r
        → (merged platform cfg dep pool r).failure ≡ none
        → IsParsed platform (merged platform cfg dep pool r).resolution
    unfolding merged
    merged-IsParsed range pool res n (err a) e h =
        absurd (poll-stops platform cfg dep range 0 pool [] res n a e h)
    merged-IsParsed range pool res n (ok p) e h =
        select_stage-IsParsed pool (sort ahead p.offers) p.resolution p.network h

    range_stage-IsParsed :
        (d : Decision) (res : Resolution) (n : N)
        → (range_stage platform cfg dep d res n).failure ≡ none
        → IsParsed platform (range_stage platform cfg dep d res n).resolution
    unfolding range_stage
    range_stage-IsParsed d res n h = elim (Result-cases (Semver.parse_range dep.range)) [
      | inl (range, e) ↦
          rw (e, range_stage)
            (merged-IsParsed range d.pool res n (poll platform cfg dep range 0 d.pool [] res n) refl
              (rw (e, range_stage) at h))
      | inr (x, e) ↦ absurd (ground (arith, e, h))
    ]

    policy_stage-IsParsed :
        (res : Resolution) (n : N)
        → (policy_stage platform cfg dep res n).failure ≡ none
        → IsParsed platform (policy_stage platform cfg dep res n).resolution
    unfolding policy_stage
    policy_stage-IsParsed res n h = elim (Result-cases (SourcePolicy.resolve cfg.policy dep.name)) [
      | inl (d, e) ↦ rw (e, policy_stage) (range_stage-IsParsed d _ n (rw (e, policy_stage) at h))
      | inr (x, e) ↦ absurd (ground (arith, e, h))
    ]

    attempt-IsParsed :
        (n : N)
        → (attempt platform cfg dep n).failure ≡ none
        → IsParsed platform (attempt platform cfg dep n).resolution
    unfolding attempt
    attempt-IsParsed n h = elim (Result-cases (SourcePolicy.validate cfg.policy)) [
      | inl (_, e) ↦ rw (e, attempt) (policy_stage-IsParsed _ n (rw (e, attempt) at h))
      | inr (x, e) ↦ absurd (ground (arith, e, h))
    ]

    -- An attempt without a failure has a parsed package.
    pub resolve-IsParsed :
        (env : Environment) (n : N) (a : Attempt N)
        → resolve platform cfg dep env n ≡ attempted a
        → a.failure ≡ none
        → IsParsed platform a.resolution
    unfolding resolve
    resolve-IsParsed env n a h f = elim (Result-cases (gate env)) [
      | inl (_, e) ↦
          let same : attempt platform cfg dep n ≡ a = ground (arith, e, h) in
          let parsed = attempt-IsParsed n (rw same f) in rw same at parsed
      | inr (x, e) ↦ absurd (ground (arith, e, h))
    ]
