-- ===== src/Resolver/Accepted.antt =====
-- What a resolution that succeeded has established, step by step.
use indexjack.Prelude.{
  true, [], ◌∷◌, map, none, Result-cases, ok, text_eq_iff, length, pos, ◌≡◌, inl, inr, refl, ap,
  ◌∙◌, arith,
}
use indexjack.Semver
use indexjack.SourcePolicy
use indexjack.SourcePolicy.{Decision, mode_exclusive, source_id}
use indexjack.LockFile
use indexjack.LockFile.{Record}
use indexjack.LockFile.Records.{verify_bytes-Verifies}
use indexjack.BuildManifest.{Dependency}
use indexjack.PkgArchive.Identity.{digest}
use indexjack.Resolver.{
  Resolution, started, locked_version, Fetcher, Config, Platform, Attempt, query_stage, range_stage,
  agree_stage, lock_stage, policy_stage, resolve,
}
use indexjack.Resolver.Delivered.{Delivered, finished, chosen, answered-Delivered}

module _ {N : Type 0} (platform : Platform) where
  module _ (cfg : Config N) where
    query_stage-Delivered :
        (dep : Dependency) (d : Decision) (r : Record) (res : Resolution) (n : N)
        → (query_stage platform cfg dep d r res n).failure ≡ none
        → (client : Fetcher N) × (cfg.dial d.bound ≡ ok client)
          × (x : Delivered platform dep d r client n) × ((query_stage platform cfg dep d r res
                n).resolution
              ≡ finished platform
                  (chosen d (record res { queried = d.bound.id ∷ [] }) x.meta x.candidate)
                  x.raw
                  x.pkg)
    unfolding query_stage
    query_stage-Delivered dep d r res n h = elim (Result-cases (cfg.dial d.bound)) [
      | inl (client, e) ↦
          let (x, f) =
            answered-Delivered platform dep d r client (record res { queried = d.bound.id ∷ [] }) n
              (client.metadata dep.name n) refl (ground (arith, e)) in
          (client, e, x, ground (arith, e, f))
      | inr (x, e) ↦ absurd (ground (arith, e))
    ]

    -- The checks on policy, lock and range, and then the delivery.
    pub record IsAccepted (dep : Dependency) (n : N) : Type 0 where
      pub decision : Decision
      pub decided : SourcePolicy.resolve cfg.policy dep.name ≡ ok decision
      pub exclusive : decision.mode ≡ mode_exclusive
      pub locked : Record
      pub pinned : LockFile.record_of cfg.lock dep.alias ≡ ok locked
      pub name : locked.name ≡ dep.name
      pub source : locked.source ≡ decision.bound.id
      pub range : Semver.Range
      pub ranged : Semver.parse_range dep.range ≡ ok range
      pub version : Semver.Version
      pub versioned : Semver.parse locked.version ≡ ok version
      pub satisfied : Semver.satisfies range version ≡ true
      pub client : Fetcher N
      pub dialled : cfg.dial decision.bound ≡ ok client
      pub delivered : Delivered platform dep decision locked client n

    range_stage-ok :
        (dep : Dependency) (d : Decision) (r : Record) (res : Resolution) (n : N)
        → (range_stage platform cfg dep d r res n).failure ≡ none
        → (range : Semver.Range) × (Semver.parse_range dep.range ≡ ok range)
          × (v : Semver.Version) × (Semver.parse r.version ≡ ok v)
          × (Semver.satisfies range v ≡ true)
          × (range_stage platform cfg dep d r res n ≡ query_stage platform cfg dep d r res n)
    unfolding range_stage
    range_stage-ok dep d r res n h = elim (Result-cases (Semver.parse_range dep.range)) [
      | inl (range, e) ↦ elim (Result-cases (Semver.parse r.version)) [
        | inl (v, f) ↦ (range, e, v, f, ground (arith, e, f), ground (arith, e, f))
        | inr (x, f) ↦ absurd (ground (arith, e, f))
      ]
      | inr (x, e) ↦ absurd (ground (arith, e))
    ]

    agree_stage-ok :
        (dep : Dependency) (d : Decision) (r : Record) (res : Resolution) (n : N)
        → (agree_stage platform cfg dep d r res n).failure ≡ none
        → (r.name ≡ dep.name)
          × (r.source ≡ d.bound.id)
          × (agree_stage platform cfg dep d r res n ≡ range_stage platform cfg dep d r res n)
    unfolding agree_stage
    agree_stage-ok dep d r res n h =
        ground (arith, text_eq_iff r.name dep.name, text_eq_iff r.source d.bound.id)

    -- The record when policy and lock agree.
    abbrev pub agreed : Dependency → Decision → Record → Resolution
    agreed dep d r = record (started locked_version dep) {
      display_order = SourcePolicy.display_order cfg.policy;
      policy = d;
      excluded = map source_id d.excluded;
      locked = r;
    }

    resolve-ok :
        (dep : Dependency) (n : N)
        → (resolve platform cfg dep n).failure ≡ none
        → (d : Decision) × (SourcePolicy.resolve cfg.policy dep.name ≡ ok d)
          × (d.mode ≡ mode_exclusive)
          × (r : Record) × (LockFile.record_of cfg.lock dep.alias ≡ ok r)
          × (resolve platform cfg dep n ≡ agree_stage platform cfg dep d r (agreed dep d r) n)
    unfolding resolve policy_stage lock_stage
    resolve-ok dep n h = elim (Result-cases (SourcePolicy.resolve cfg.policy dep.name)) [
      | inl (d, e) ↦ elim (Result-cases (LockFile.record_of cfg.lock dep.alias)) [
        | inl (r, f) ↦ (
          d,
          e,
          ground (arith, e, f, text_eq_iff d.mode mode_exclusive),
          r,
          f,
          ground (arith, e, f),
        )
        | inr (x, f) ↦ absurd (ground (arith, e, f))
      ]
      | inr (x, e) ↦ absurd (ground (arith, e))
    ]

    -- Where the secure resolver reports no failure, policy, lock, range, source and package have
    -- passed every check, the resolution is exactly the record built from them, and the bytes that
    -- the bound source's client returned have the locked size and the locked digest.
    pub resolve-IsAccepted :
        (dep : Dependency) (n : N)
        → (resolve platform cfg dep n).failure ≡ none
        → (x : IsAccepted dep n) × ((resolve platform cfg dep n).resolution
            ≡ finished platform
                (chosen x.decision
                  (record (agreed dep x.decision x.locked) { queried = x.decision.bound.id ∷ [] })
                  x.delivered.meta
                  x.delivered.candidate)
                x.delivered.raw
                x.delivered.pkg)
          × (pos (length x.delivered.raw) ≡ x.locked.size)
          × (digest platform.sha256 x.delivered.raw ≡ x.locked.sha256)
    resolve-IsAccepted dep n h =
        let (d, e, m, r, f, same) = resolve-ok dep n h in
        let res = agreed dep d r in
        let h1 : (agree_stage platform cfg dep d r res n).failure ≡ none = rw same at h in
        let (name, source, same1) = agree_stage-ok dep d r res n h1 in
        let h2 : (range_stage platform cfg dep d r res n).failure ≡ none = rw same1 at h1 in
        let (range, ranged, v, versioned, sat, same2) = range_stage-ok dep d r res n h2 in
        let h3 : (query_stage platform cfg dep d r res n).failure ≡ none = rw same2 at h2 in
        let (client, dialled, x, out) = query_stage-Delivered dep d r res n h3 in
        let (size, hash) =
          (verify_bytes-Verifies platform.sha256 r x.raw).accepts.0 x.verified_bytes in
        (
          record {
            decision = d;
            decided = e;
            exclusive = m;
            locked = r;
            pinned = f;
            name = name;
            source = source;
            range = range;
            ranged = ranged;
            version = v;
            versioned = versioned;
            satisfied = sat;
            client = client;
            dialled = dialled;
            delivered = x;
          },
          ap (λ (a : Attempt N). a.resolution) (same ∙ (same1 ∙ same2)) ∙ out,
          size,
          hash,
        )
