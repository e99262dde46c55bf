-- ===== src/Resolver/FailsClosed.antt =====
-- A resolution that fails accepts nothing, and says nothing to the network before its lock agrees.
use indexjack.Prelude.{
  Bool, true, false, [], none, some, Option-cases, Result, Result-cases, ok, err, Bytes, text_eq,
  find?, ◌≡◌, ◌⊎◌, inl, inr, refl, arith, Bool-cases,
}
use indexjack.SourcePolicy
use indexjack.SourcePolicy.{Decision, mode_exclusive}
use indexjack.LockFile
use indexjack.LockFile.{Record}
use indexjack.BuildManifest.{Dependency}
use indexjack.Registry.{FetchError, Metadata}
use indexjack.Resolver.{
  Stage, source_policy, lock, registry_query, artifact_fetch, integrity, artifact_parse, Class,
  lock_name_mismatch, lock_source_mismatch, lock_range_conflict, lock_invalid, Failure, Candidate,
  stop, unset, Resolution, Fetcher, Config, Platform, Attempt, has_version, parse_stage,
  verify_stage, fetched, select_stage, described, query_stage, range_stage, agree_stage, lock_stage,
  policy_stage, resolve,
}

-- The stages at which a registry has been contacted, or tried.
abbrev pub contacts : Stage → Bool
contacts source_policy = false
contacts lock = false
contacts _ = true

-- What holds of an attempt that failed, begun in the network `n`.
pub record FailsClosed {N : Type 0} (n : N) (a : Attempt N) (f : Failure) : Type 0 where
  pub refused : a.resolution.pkg ≡ none
  pub unread : (f.stage ≡ artifact_parse) ⊎ (a.resolution.integrity ≡ unset)
  pub silent : (contacts f.stage ≡ true) ⊎ ((a.network ≡ n) × (a.resolution.queried ≡ []))

-- The fields that are still unset.
record IsFresh (res : Resolution) : Type 0 where
  no_package : res.pkg ≡ none
  unchecked : res.integrity ≡ unset

-- Every failure of the attempt is closed.
abbrev pub Closes : {N : Type 0} → N → Attempt N → Type 0
Closes n a = (f : Failure) → a.failure ≡ some f → FailsClosed n a f

module _ {N : Type 0} (start : N) where
  -- Stopping late, and stopping before anything was contacted.
  stop_late :
      (res : Resolution) (class : Class) (stage : Stage) (n : N)
      → IsFresh res
      → contacts stage ≡ true
      → Closes start (stop res class stage n)
  stop_late res class stage n fresh c f h = record {
    refused = fresh.no_package;
    unread = inr fresh.unchecked;
    silent = inl (ground arith);
  }

  stop_early :
      (res : Resolution) (class : Class) (stage : Stage)
      → IsFresh res
      → res.queried ≡ []
      → Closes start (stop res class stage start)
  stop_early res class stage fresh q f h = record {
    refused = fresh.no_package;
    unread = inr fresh.unchecked;
    silent = inr (refl, q);
  }

module _ {N : Type 0} (platform : Platform) (start : N) where
  parse_stage-Closes :
      (dep : Dependency) (r : Record) (res : Resolution) (raw : Bytes) (n : N)
      → res.pkg ≡ none
      → Closes start (parse_stage platform dep r res raw n)
  unfolding parse_stage
  parse_stage-Closes dep r res raw n p f h = ground arith

  verify_stage-Closes :
      (dep : Dependency) (r : Record) (res : Resolution) (raw : Bytes) (n : N)
      → IsFresh res
      → Closes start (verify_stage platform dep r res raw n)
  unfolding verify_stage
  verify_stage-Closes dep r res raw n fresh =
      elim (Result-cases (LockFile.verify_bytes platform.sha256 r raw)) [
        | inl (_, e) ↦ rw (e, verify_stage) (parse_stage-Closes dep r _ raw n fresh.no_package)
        | inr (x, e) ↦ rw (e, verify_stage) (stop_late start res _ integrity n fresh refl)
      ]

  fetched-Closes :
      (dep : Dependency) (r : Record) (res : Resolution) (answer : Result FetchError Bytes × N)
      → IsFresh res
      → Closes start (fetched platform dep r res answer)
  unfolding fetched
  fetched-Closes dep r res (err e, n) fresh = stop_late start res _ artifact_fetch n fresh refl
  fetched-Closes dep r res (ok raw, n) fresh = verify_stage-Closes dep r res raw n fresh

  select_stage-Closes :
      (dep : Dependency) (r : Record) (client : Fetcher N) (res : Resolution) (n : N)
      → IsFresh res
      → Closes start (select_stage platform dep r client res n)
  unfolding select_stage
  select_stage-Closes dep r client res n fresh =
      elim (Option-cases (find? (has_version r.version) res.candidates)) [
        | inl e ↦ rw (e, select_stage) (stop_late start res _ registry_query n fresh refl)
        | inr (c, e) ↦ rw (e, select_stage) (fetched-Closes dep r _ _ (same fresh))
      ]
    where
      same : {c : Candidate} → IsFresh res → IsFresh (record res { selected = c })
      same v = record { no_package = v.no_package; unchecked = v.unchecked }

  described-Closes :
      (dep : Dependency) (d : Decision) (r : Record) (client : Fetcher N) (res : Resolution)
      (answer : Result FetchError Metadata × N)
      → IsFresh res
      → Closes start (described platform dep d r client res answer)
  unfolding described
  described-Closes dep d r client res (err e, n) fresh =
      stop_late start res _ registry_query n fresh refl
  described-Closes dep d r client res (ok meta, n) fresh =
      select_stage-Closes dep r client _ n
        (record { no_package = fresh.no_package; unchecked = fresh.unchecked })

  module _ (cfg : Config N) where
    query_stage-Closes :
        (dep : Dependency) (d : Decision) (r : Record) (res : Resolution)
        → IsFresh res
        → Closes start (query_stage platform cfg dep d r res start)
    unfolding query_stage
    query_stage-Closes dep d r res fresh = elim (Result-cases (cfg.dial d.bound)) [
      | inl (client, e) ↦
          rw (e, query_stage)
            (described-Closes dep d r client _ _
              (record { no_package = fresh.no_package; unchecked = fresh.unchecked }))
      | inr (x, e) ↦ rw (e, query_stage) (stop_late start res _ registry_query start fresh refl)
    ]

    agree_stage-Closes :
        (dep : Dependency) (d : Decision) (r : Record) (res : Resolution)
        → IsFresh res
        → res.queried ≡ []
        → Closes start (agree_stage platform cfg dep d r res start)
    unfolding agree_stage range_stage
    agree_stage-Closes dep d r res fresh q f h = ground (
      arith,
      query_stage-Closes dep d r res fresh f,
      stop_early start res lock_name_mismatch lock fresh q f,
      stop_early start res lock_source_mismatch lock fresh q f,
      stop_early start res lock_range_conflict lock fresh q f,
      stop_early start res lock_invalid lock fresh q f,
    )

    lock_stage-Closes :
        (dep : Dependency) (d : Decision) (res : Resolution)
        → IsFresh res
        → res.queried ≡ []
        → Closes start (lock_stage platform cfg dep d res start)
    unfolding lock_stage
    lock_stage-Closes dep d res fresh q =
        elim (Result-cases (LockFile.record_of cfg.lock dep.alias)) [
          | inl (r, e) ↦
              rw (e, lock_stage)
                (agree_stage-Closes dep d r _
                  (record { no_package = fresh.no_package; unchecked = fresh.unchecked }) q)
          | inr (x, e) ↦ rw (e, lock_stage) (stop_early start res _ lock fresh q)
        ]

    policy_stage-Closes :
        (dep : Dependency) (res : Resolution)
        → IsFresh res
        → res.queried ≡ []
        → Closes start (policy_stage platform cfg dep res start)
    unfolding policy_stage
    policy_stage-Closes dep res fresh q =
        elim (Result-cases (SourcePolicy.resolve cfg.policy dep.name)) [
          | inl (d, e) ↦ elim (Bool-cases (text_eq d.mode mode_exclusive)) [
            | inl x ↦
                rw (e, policy_stage)
                  (rw x (
                    lock_stage-Closes dep d _
                      (record { no_package = fresh.no_package; unchecked = fresh.unchecked }) q))
            | inr x ↦ rw (e, policy_stage) (rw x (stop_early start res _ source_policy fresh q))
          ]
          | inr (x, e) ↦ rw (e, policy_stage) (stop_early start res _ source_policy fresh q)
        ]

    -- Where the secure resolver fails, no package is delivered; unless it failed in parsing the
    -- artifact no integrity verdict is recorded; and a failure in the stages of policy and lock
    -- leaves the network untouched and the list of queried sources empty.
    pub resolve-FailsClosed :
        (dep : Dependency) (f : Failure)
        → (resolve platform cfg dep start).failure ≡ some f
        → FailsClosed start (resolve platform cfg dep start) f
    unfolding resolve
    resolve-FailsClosed dep = elim (Result-cases (SourcePolicy.validate cfg.policy)) [
      | inl (_, e) ↦
          rw (e, resolve)
            (policy_stage-Closes dep _ (record { no_package = refl; unchecked = refl }) refl)
      | inr (x, e) ↦
          rw (e, resolve)
            (stop_early start _ _ source_policy (record { no_package = refl; unchecked = refl })
              refl)
    ]
