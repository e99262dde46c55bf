-- ===== src/Resolver/Delivered.antt =====
-- internal/resolver/resolver.go: what the bound source's client has delivered.
use indexjack.Prelude.{
  none, some, Option-cases, Result, Result-cases, ok, err, Bytes, text_eq_iff, find?, length, pos,
  ◌≡◌, inl, inr, refl, ap, arith,
}
use indexjack.SourcePolicy.{Decision}
use indexjack.LockFile
use indexjack.LockFile.{Record}
use indexjack.BuildManifest.{Dependency}
use indexjack.PkgArchive
use indexjack.PkgArchive.Identity.{digest}
use indexjack.Registry.{FetchError, Metadata}
use indexjack.Resolver.{
  Resolution, Candidate, verified, Fetcher, Platform, order_candidates, has_version, parse_stage,
  verify_stage, fetched, select_stage, described,
}

-- The resolution after size and digest matched and the package was read.
abbrev pub finished : Platform → Resolution → Bytes → PkgArchive.Package → Resolution
finished platform res raw pkg = record res {
  size = pos (length raw);
  digest = digest platform.sha256 raw;
  integrity = verified;
  pkg = some pkg;
}

-- The bytes that were fetched, and what was checked of them.
record Read (platform : Platform) (dep : Dependency) (r : Record) (res : Resolution) (raw : Bytes)
    (out : Resolution) : Type 0 where
  pkg : PkgArchive.Package
  verified_bytes : LockFile.verify_bytes platform.sha256 r raw ≡ ok tt
  parsed : PkgArchive.parse platform.reader raw ≡ ok pkg
  name : pkg.manifest.name ≡ dep.name
  version : pkg.manifest.version ≡ r.version
  result : out ≡ finished platform res raw pkg

-- What the bound source's client delivered.
pub record Delivered {N : Type 0} (platform : Platform) (dep : Dependency) (d : Decision)
    (r : Record) (client : Fetcher N) (n : N) : Type 0 where
  pub meta : Metadata
  pub described : (client.metadata dep.name n).0 ≡ ok meta
  pub candidate : Candidate
  pub offered : find? (has_version r.version) (order_candidates d.bound.id meta) ≡ some candidate
  pub raw : Bytes
  pub fetched : (client.artifact dep.name r.version (client.metadata dep.name n).1).0 ≡ ok raw
  pub pkg : PkgArchive.Package
  pub verified_bytes : LockFile.verify_bytes platform.sha256 r raw ≡ ok tt
  pub parsed : PkgArchive.parse platform.reader raw ≡ ok pkg
  pub name : pkg.manifest.name ≡ dep.name
  pub version : pkg.manifest.version ≡ r.version

-- What the selection adds to the record.
abbrev pub chosen : Decision → Resolution → Metadata → Candidate → Resolution
chosen d res meta c = record res { candidates = order_candidates d.bound.id meta; selected = c }

module _ {N : Type 0} (platform : Platform) where
  verify_stage-Read :
      (dep : Dependency) (r : Record) (res : Resolution) (raw : Bytes) (n : N)
      → (verify_stage platform dep r res raw n).failure ≡ none
      → Read platform dep r res raw (verify_stage platform dep r res raw n).resolution
  unfolding verify_stage parse_stage
  verify_stage-Read dep r res raw n h =
      elim (Result-cases (LockFile.verify_bytes platform.sha256 r raw)) [
        | inl (_, e) ↦ elim (Result-cases (PkgArchive.parse platform.reader raw)) [
          | inl (pkg, f) ↦ record {
            pkg = pkg;
            verified_bytes = e;
            parsed = f;
            name = ground (arith, e, f, text_eq_iff pkg.manifest.name dep.name);
            version = ground (arith, e, f, text_eq_iff pkg.manifest.version r.version);
            result = ground (arith, e, f);
          }
          | inr (x, f) ↦ absurd (ground (arith, e, f))
        ]
        | inr (x, e) ↦ absurd (ground (arith, e))
      ]

  fetched-Read :
      (dep : Dependency) (r : Record) (res : Resolution) (answer : Result FetchError Bytes × N)
      → (fetched platform dep r res answer).failure ≡ none
      → (raw : Bytes) × (answer.0 ≡ ok raw)
        × Read platform dep r res raw (fetched platform dep r res answer).resolution
  unfolding fetched
  fetched-Read dep r res (err e, n) h = cc
  fetched-Read dep r res (ok raw, n) h = (raw, refl, verify_stage-Read dep r res raw n h)

  selected-Delivered :
      (dep : Dependency) (d : Decision) (r : Record) (client : Fetcher N) (res : Resolution)
      (n m : N) (meta : Metadata) (c : Candidate)
      → client.metadata dep.name n ≡ (ok meta, m)
      → find? (has_version r.version) (order_candidates d.bound.id meta) ≡ some c
      → (fetched platform dep r
          (chosen d res meta c)
          (client.artifact dep.name r.version m)).failure
        ≡ none
      → (x : Delivered platform dep d r client n) × ((fetched platform dep r
            (chosen d res meta c)
            (client.artifact dep.name r.version m)).resolution
          ≡ finished platform (chosen d res x.meta x.candidate) x.raw x.pkg)
  selected-Delivered dep d r client res n m meta c e f h =
      let (raw, got, read) =
        fetched-Read dep r (chosen d res meta c) (client.artifact dep.name r.version m) h in
      let after : (client.metadata dep.name n).1 ≡ m = ap (λ a. a.1) e in
      (
        record {
          meta = meta;
          described = ap (λ a. a.0) e;
          candidate = c;
          offered = f;
          raw = raw;
          fetched = rw after got;
          pkg = read.pkg;
          verified_bytes = read.verified_bytes;
          parsed = read.parsed;
          name = read.name;
          version = read.version;
        },
        read.result,
      )

  pub answered-Delivered :
      (dep : Dependency) (d : Decision) (r : Record) (client : Fetcher N) (res : Resolution) (n : N)
      (answer : Result FetchError Metadata × N)
      → client.metadata dep.name n ≡ answer
      → (described platform dep d r client res answer).failure ≡ none
      → (x : Delivered platform dep d r client n) × ((described platform dep d r client res
            answer).resolution
          ≡ finished platform (chosen d res x.meta x.candidate) x.raw x.pkg)
  unfolding described select_stage
  answered-Delivered dep d r client res n (err x, m) e h = cc
  answered-Delivered dep d r client res n (ok meta, m) e h =
      elim (Option-cases (find? (has_version r.version) (order_candidates d.bound.id meta))) [
        | inl f ↦ absurd (ground (arith, f))
        | inr (c, f) ↦
            let (x, g) = selected-Delivered dep d r client res n m meta c e f (ground (arith, f)) in
            (x, ground (arith, f, g))
      ]
