-- ===== src/Resolver/Isolation.antt =====
-- The resolver talks to the bound source, and to nobody else.
use indexjack.Prelude.{
  Result, Result-cases, ok, Text, text_eq, text_eq_iff, map, ◌≡◌, inl, inr, arith, Bool-cases,
}
use indexjack.Semver
use indexjack.SourcePolicy
use indexjack.SourcePolicy.{Policy, Source, Decision, mode_exclusive, source_id}
use indexjack.LockFile
use indexjack.LockFile.{Lock, Record}
use indexjack.BuildManifest.{Dependency}
use indexjack.Registry.{FetchError}
use indexjack.Resolver.{
  Resolution, started, locked_version, Fetcher, Config, Platform, query_stage, range_stage,
  agree_stage, lock_stage, policy_stage, resolve,
}

-- A client whose requests keep a property of the network.
pub record ClientKeeps {N : Type 0} (P : N → Type 0) (client : Fetcher N) : Type 0 where
  pub metadata : (name : Text) (n : N) → P n → P (client.metadata name n).1
  pub artifact : (name version : Text) (n : N) → P n → P (client.artifact name version n).1

module _ {N : Type 0} (platform : Platform) (P : N → Type 0) where
  module _ (cfg : Config N) where
    -- The clients of the source that an exclusive decision binds.
    abbrev pub BoundClientKeeps : Dependency → Type 0
    BoundClientKeeps dep =
        (d : Decision) (client : Fetcher N)
        → SourcePolicy.resolve cfg.policy dep.name ≡ ok d
        → d.mode ≡ mode_exclusive
        → cfg.dial d.bound ≡ ok client
        → ClientKeeps P client

module _ {N : Type 0} (platform : Platform) (cfg : Config N)
    (dial : Source → Result FetchError (Fetcher N)) where
  -- The same configuration over another network of sources.
  abbrev pub redialled : Config N
  redialled = record cfg { dial = dial }

  query_stage-redialled :
      (dep : Dependency) (d : Decision) (r : Record) (res : Resolution) (n : N)
      → cfg.dial d.bound ≡ dial d.bound
      → query_stage platform cfg dep d r res n ≡ query_stage platform redialled dep d r res n
  unfolding query_stage
  query_stage-redialled dep d r res n e = ground (arith, e)

  lock_stage-redialled :
      (dep : Dependency) (d : Decision) (res : Resolution) (n : N)
      → cfg.dial d.bound ≡ dial d.bound
      → lock_stage platform cfg dep d res n ≡ lock_stage platform redialled dep d res n
  unfolding lock_stage agree_stage range_stage
  lock_stage-redialled dep d res n e = elim (Result-cases (LockFile.record_of cfg.lock dep.alias)) [
    | inl (r, f) ↦ ground (arith, f, query_stage-redialled dep d r (record res { locked = r }) n e)
    | inr (x, f) ↦ ground (arith, f)
  ]

  -- A resolution of the secure resolver is the same, to its last field and to the state of the
  -- network, under any two ways of dialling that agree on the source that the policy binds the name
  -- to: no other source can influence it.
  pub resolve-redialled :
      (dep : Dependency) (n : N)
      → ((d : Decision)
          → SourcePolicy.resolve cfg.policy dep.name ≡ ok d
          → d.mode ≡ mode_exclusive
          → cfg.dial d.bound ≡ dial d.bound)
      → resolve platform cfg dep n ≡ resolve platform redialled dep n
  unfolding resolve policy_stage
  resolve-redialled dep n same = elim (Result-cases (SourcePolicy.resolve cfg.policy dep.name)) [
    | inl (d, e) ↦ elim (Bool-cases (text_eq d.mode mode_exclusive)) [
      | inl x ↦ ground (
        arith,
        e,
        x,
        lock_stage-redialled dep d
            (record (started locked_version dep) {
              display_order = SourcePolicy.display_order cfg.policy;
              policy = d;
              excluded = map source_id d.excluded;
            })
            n (same d e ((text_eq_iff d.mode mode_exclusive).0 x)),
      )
      | inr x ↦ ground (arith, e, x)
    ]
    | inr (x, e) ↦ ground (arith, e)
  ]
