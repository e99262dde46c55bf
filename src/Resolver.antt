-- ===== src/Resolver.antt =====
-- internal/resolver/resolver.go: the secure resolver. Its stages are functions, each of which calls
-- the next, and the state `N` of the network is handed through every request. `sha256` and `reader`
-- are the standard library's hash function and archive reader.
pub mod FailsClosed
pub mod Delivered
pub mod Accepted
pub mod Isolation
pub mod Candidates
use indexjack.Prelude.{
  ℕ, if◌then◌else◌, Bool, true, false, ◌&&◌, ◌||◌, not, List, [], ◌∷◌, map, Option, none, some,
  Result, ok, err, Text, Bytes, text_eq, text_lt, find?, sort, length, ℤ, pos, Ordering,
}
use indexjack.Semver
use indexjack.SourcePolicy
use indexjack.SourcePolicy.{Policy, Source, Decision, mode_exclusive, no_decision, source_id}
use indexjack.LockFile
use indexjack.LockFile.{Lock, Record, no_record}
use indexjack.BuildManifest.{Dependency}
use indexjack.PkgArchive
use indexjack.PkgArchive.{Reader}
use indexjack.PkgArchive.Identity.{digest}
use indexjack.Registry.{FetchError, not_found, Metadata, VersionInfo}

pub data Stage : Type 0 where
  source_policy lock registry_query artifact_fetch integrity artifact_parse : Stage
  policy_evaluation : Stage

pub data Class : Type 0 where
  source_policy_unresolved source_policy_ambiguous source_policy_invalid : Class
  source_policy_not_exclusive lock_missing lock_duplicate lock_invalid : Class
  lock_source_mismatch lock_name_mismatch lock_range_conflict registry_unavailable : Class
  artifact_unavailable artifact_size_mismatch artifact_digest_mismatch artifact_malformed : Class
  manifest_mismatch no_compatible_candidate : Class
  policy_candidate_unknown policy_kind_unexpected : Class

pub record Failure : Type 0 where
  pub class : Class
  pub stage : Stage

-- The selection rules of the two resolvers.
pub data Rule : Type 0 where
  locked_version highest_version : Rule

-- The integrity verdicts; `unset` is the empty text.
pub data Integrity : Type 0 where
  unset verified unverified : Integrity

pub record Candidate : Type 0 where
  pub source : Text
  pub name : Text
  pub version : Text
  pub size : ℤ
  pub sha256 : Text

abbrev pub no_candidate : Candidate
no_candidate = record { source = []; name = []; version = []; size = pos 0; sha256 = [] }

pub record Resolution : Type 0 where
  pub alias : Text
  pub name : Text
  pub range : Text
  pub display_order : List Text
  pub policy : Decision
  pub queried : List Text
  pub excluded : List Text
  pub candidates : List Candidate
  pub selection_rule : Rule
  pub selected : Candidate
  pub locked : Record
  pub size : ℤ
  pub digest : Text
  pub integrity : Integrity
  pub pkg : Option PkgArchive.Package

-- The record that exists from the first step.
abbrev pub started : Rule → Dependency → Resolution
started rule dep = record {
  alias = dep.alias;
  name = dep.name;
  range = dep.range;
  display_order = [];
  policy = no_decision;
  queried = [];
  excluded = [];
  candidates = [];
  selection_rule = rule;
  selected = no_candidate;
  locked = no_record;
  size = pos 0;
  digest = [];
  integrity = unset;
  pkg = none;
}

-- A registry client over the state of the network.
pub record Fetcher (N : Type 0) : Type 0 where
  pub metadata : Text → N → Result FetchError Metadata × N
  pub artifact : Text → Text → N → Result FetchError Bytes × N

pub record Config (N : Type 0) : Type 0 where
  pub policy : Policy
  pub lock : Lock
  pub dial : Source → Result FetchError (Fetcher N)

-- What the standard library computes from bytes.
pub record Platform : Type 0 where
  pub sha256 : Bytes → Bytes
  pub reader : Reader

-- The resolution as far as it got, the failure if there is one, and the network.
pub record Attempt (N : Type 0) : Type 0 where
  pub resolution : Resolution
  pub failure : Option Failure
  pub network : N

abbrev pub stop : {N : Type 0} → Resolution → Class → Stage → N → Attempt N
stop res class stage n = record {
  resolution = res;
  failure = some (record { class = class; stage = stage });
  network = n;
}

abbrev pub policy_class : SourcePolicy.Error → Class
policy_class SourcePolicy.ambiguous_mapping = source_policy_ambiguous
policy_class _ = source_policy_unresolved

abbrev pub lock_class : LockFile.Error → Class
lock_class LockFile.missing_record = lock_missing
lock_class LockFile.duplicate_record = lock_duplicate
lock_class _ = lock_invalid

abbrev pub bytes_class : LockFile.Error → Class
bytes_class LockFile.size_mismatch = artifact_size_mismatch
bytes_class _ = artifact_digest_mismatch

abbrev pub fetch_class : FetchError → Class
fetch_class not_found = artifact_unavailable
fetch_class _ = registry_unavailable

abbrev zero_version : Semver.Version
zero_version = record { major = 0; minor = 0; patch = 0 }

-- `parsed[v]`, for a version that was read.
unfoldable pub parsed : Text → Semver.Version
parsed v = elim (Semver.parse v) [ ok p ↦ p | err _ ↦ zero_version ]

abbrev pub candidate_of : Text → Text → VersionInfo → Candidate
candidate_of source name v = record {
  source = source;
  name = name;
  version = v.version;
  size = v.size;
  sha256 = v.sha256;
}

-- The loop over the published versions.
pub offered : Text → Text → List VersionInfo → List Candidate
offered source name [] = []
offered source name (v ∷ vs) =
    let rest = offered source name vs in
    elim (Semver.parse v.version) [ err _ ↦ rest | ok _ ↦ candidate_of source name v ∷ rest ]

-- `c > 0`, and by source id where `c` is 0.
pub comes_before : Candidate → Candidate → Bool
unfolding parsed
comes_before a b = elim (Semver.compare (parsed a.version) (parsed b.version)) [
  | Ordering.gt ↦ true
  | Ordering.lt ↦ false
  | Ordering.eq ↦ text_lt a.source b.source
]

unfoldable pub order_candidates : Text → Metadata → List Candidate
unfolding offered comes_before
order_candidates source meta = sort comes_before (offered source meta.name meta.versions)

abbrev has_version : Text → Candidate → Bool
has_version v c = text_eq c.version v

module _ {N : Type 0} (platform : Platform) where
  -- 6. Only now are the bytes read.
  parse_stage : Dependency → Record → Resolution → Bytes → N → Attempt N
  parse_stage dep record_ res raw n = elim (PkgArchive.parse platform.reader raw) [
    | err _ ↦ stop res artifact_malformed artifact_parse n
    | ok pkg ↦
        if not (text_eq pkg.manifest.name dep.name)
          || not (text_eq pkg.manifest.version record_.version)
        then stop res manifest_mismatch artifact_parse n
        else record { resolution = record res { pkg = some pkg }; failure = none; network = n }
  ]

  -- 5. Size and digest are verified before the content is read.
  verify_stage : Dependency → Record → Resolution → Bytes → N → Attempt N
  verify_stage dep record_ res raw n = elim (LockFile.verify_bytes platform.sha256 record_ raw) [
    | err e ↦ stop res (bytes_class e) integrity n
    | ok _ ↦
        parse_stage dep record_
          (record res {
            size = pos (length raw);
            digest = digest platform.sha256 raw;
            integrity = verified;
          })
          raw n
  ]

  fetched : Dependency → Record → Resolution → Result FetchError Bytes × N → Attempt N
  fetched dep record_ res (err e, n) = stop res (fetch_class e) artifact_fetch n
  fetched dep record_ res (ok raw, n) = verify_stage dep record_ res raw n

  -- 4. The locked version is selected, and only it, and then fetched.
  select_stage : Dependency → Record → Fetcher N → Resolution → N → Attempt N
  select_stage dep record_ client res n =
      elim (find? (has_version record_.version) res.candidates) [
        | none ↦ stop res artifact_unavailable registry_query n
        | some c ↦
            fetched dep record_ (record res { selected = c })
              (client.artifact dep.name record_.version n)
      ]

  pub described :
      Dependency
      → Decision
      → Record
      → Fetcher N
      → Resolution
      → Result FetchError Metadata × N
      → Attempt N
  described dep decision record_ client res (err e, n) = stop res (fetch_class e) registry_query n
  described dep decision record_ client res (ok meta, n) =
      select_stage dep record_ client
        (record res { candidates = order_candidates decision.bound.id meta }) n

  module _ (cfg : Config N) where
    -- 3. Exactly one source is queried: the bound one.
    query_stage : Dependency → Decision → Record → Resolution → N → Attempt N
    query_stage dep decision record_ res n = elim (cfg.dial decision.bound) [
      | err _ ↦ stop res registry_unavailable registry_query n
      | ok client ↦
          described dep decision record_ client (record res { queried = decision.bound.id ∷ [] })
            (client.metadata dep.name n)
    ]

    range_stage : Dependency → Decision → Record → Resolution → N → Attempt N
    range_stage dep decision record_ res n = elim (Semver.parse_range dep.range) [
      | err _ ↦ stop res lock_range_conflict lock n
      | ok range ↦ elim (Semver.parse record_.version) [
        | err _ ↦ stop res lock_invalid lock n
        | ok v ↦
            if not (Semver.satisfies range v)
            then stop res lock_range_conflict lock n
            else query_stage dep decision record_ res n
      ]
    ]

    -- 2. The lock, before anything is fetched.
    agree_stage : Dependency → Decision → Record → Resolution → N → Attempt N
    agree_stage dep decision record_ res n =
        if not (text_eq record_.name dep.name)
        then stop res lock_name_mismatch lock n
        else if not (text_eq record_.source decision.bound.id)
        then stop res lock_source_mismatch lock n
        else range_stage dep decision record_ res n

    lock_stage : Dependency → Decision → Resolution → N → Attempt N
    lock_stage dep decision res n = elim (LockFile.record_of cfg.lock dep.alias) [
      | err e ↦ stop res (lock_class e) lock n
      | ok r ↦ agree_stage dep decision r (record res { locked = r }) n
    ]

    -- 1. Source policy, before anything is contacted.
    policy_stage : Dependency → Resolution → N → Attempt N
    policy_stage dep res n = elim (SourcePolicy.resolve cfg.policy dep.name) [
      | err e ↦ stop res (policy_class e) source_policy n
      | ok decision ↦
          if not (text_eq decision.mode mode_exclusive)
          then stop res source_policy_not_exclusive source_policy n
          else lock_stage dep decision
              (record res { policy = decision; excluded = map source_id decision.excluded }) n
    ]

    unfoldable pub resolve : Dependency → N → Attempt N
    unfolding parse_stage verify_stage fetched select_stage described query_stage range_stage
        agree_stage lock_stage policy_stage
    resolve dep n = elim (SourcePolicy.validate cfg.policy) [
      | err _ ↦ stop (started locked_version dep) source_policy_invalid source_policy n
      | ok _ ↦
          policy_stage dep
            (record (started locked_version dep) {
              display_order = SourcePolicy.display_order cfg.policy;
            })
            n
    ]
