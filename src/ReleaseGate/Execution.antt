-- ===== src/ReleaseGate/Execution.antt =====
-- internal/releasegate/releasegate.go: the function `Execute`, stage by stage.
pub mod Approval
pub mod Release
pub mod Answers
pub mod Decisions
pub mod Reports
pub mod Settled
pub mod Stages
pub mod Reached
use indexjack.Prelude.{
  if◌then◌else◌, Bool, true, false, not, List, [], ◌∷◌, ◌++◌, Option, none, some, Result, ok, err,
  ◌>>=◌, Text, text_eq, is_empty,
}
use indexjack.BuildManifest.{Dependency}
use indexjack.PkgArchive.{
  Package, policy_lookup, kind_release_policy, verdict_approve, verdict_reject,
}
use indexjack.Vulnerable.{gate}
use indexjack.Resolver
use indexjack.Resolver.{
  Resolution, Failure, policy_evaluation, policy_candidate_unknown, policy_kind_unexpected,
}
use indexjack.CombinedIndex
use indexjack.CombinedIndex.{Reply, refused, attempted}
use indexjack.Ledger
use indexjack.Ledger.{Disk}
use indexjack.Audit
use indexjack.Audit.{
  Sink, Event, emit, new_sink, event_build_failed, event_release_rejected, event_release_approved,
  event_release_duplicate,
}
use indexjack.Fixtures
use indexjack.Fixtures.{Scenario, classification_of, resolver_secure, resolver_combined_index}
use indexjack.ReleaseGate.{
  alias_release_policy, alias_report_format, ClientResult, undecided, build_ok, build_failed,
  untouched, approved, suppressed_duplicate, Platform, Faults, Options, Error, no_state_dir,
  unknown_resolver, no_release_policy, unvalidated_verdict, nil_package, not_acknowledged,
  ledger_error, audit_error, fixture_error, Outcome, World, left, Run, Documents, event_of,
  evaluation_event, reported,
}
use indexjack.ReleaseGate.Texts.{stage_text, class_text}

-- What the end of the loop's body notes of a resolved dependency.
pub noted : Dependency → Resolution → Outcome → Outcome
noted dep r out =
    let more = record out { resolutions = out.resolutions ++ r ∷ [] } in
    if text_eq dep.alias alias_release_policy
    then record more { release_policy = some r }
    else if text_eq dep.alias alias_report_format
    then record more { report_format = some r }
    else more

-- The ledger with the row of an approval.
abbrev pub appended : Text → Resolution → Ledger.Ledger → Ledger.Ledger
appended candidate r current = record current {
  entries =
      current.entries
      ++ record {
        candidate_id = candidate;
        policy_name = r.name;
        policy_source = r.selected.source;
        policy_version = r.selected.version;
        policy_digest = r.digest;
      }
        ∷ [];
}

abbrev pub emitted : Platform → Faults → Event → Sink → Result Audit.Error (Unit {0}) × Sink
emitted platform faults e sink = emit platform.audit faults.audit e sink

abbrev pub evaluation_failed : Resolver.Class → Outcome → Outcome
evaluation_failed class out = record out {
  client_result = build_failed;
  failure = some (record { class = class; stage = policy_evaluation });
}

abbrev pub resolution_failed : Failure → Resolution → Outcome → Outcome
resolution_failed f r out = record out {
  client_result = build_failed;
  failure = some f;
  attempted = some r;
}

abbrev pub failure_event : Dependency → Failure → Event
failure_event dep f =
    event_of event_build_failed (stage_text f.stage) dep.alias (class_text f.class) []

module _ {N : Type 0} (platform : Platform) (faults : Faults) (candidate : Text) where
  -- The end of `Execute`, behind the switch on the verdict.
  pub concluded : Outcome → Disk → N → Result Audit.Error (Unit {0}) × Sink → Run N
  concluded out disk n (err e, sink) = (err (audit_error e), left disk sink n)
  concluded out disk n (ok _, sink) = elim (Ledger.digest platform.audit.sha256 faults.after disk) [
    | err e ↦ (err (ledger_error e), left disk sink n)
    | ok after ↦
        (ok (record out { ledger_after = after; audit_events = sink.emitted }), left disk sink n)
  ]

  pub stored : Outcome → Sink → N → Result Ledger.Error (Unit {0}) × Disk → Run N
  stored out sink n (err e, disk) = (err (ledger_error e), left disk sink n)
  stored out sink n (ok _, disk) =
      concluded (record out { mutation = approved }) disk n
        (emitted platform faults (evaluation_event event_release_approved [] candidate) sink)

  -- The case of APPROVE.
  pub approve_stage : Resolution → Ledger.Ledger → Outcome → Disk → Sink → N → Run N
  approve_stage r current out disk sink n =
      if Ledger.approved current candidate
      then concluded (record out { mutation = suppressed_duplicate }) disk n
          (emitted platform faults (evaluation_event event_release_duplicate [] candidate) sink)
      else stored out sink n
          (Ledger.save platform.codec faults.save (appended candidate r current) disk)

  pub verdict_stage : Resolution → Ledger.Ledger → Text → Outcome → Disk → Sink → N → Run N
  verdict_stage r current verdict out disk sink n =
      if text_eq verdict verdict_reject
      then concluded out disk n
          (emitted platform faults (evaluation_event event_release_rejected [] candidate) sink)
      else if text_eq verdict verdict_approve
      then approve_stage r current out disk sink n
      else (err unvalidated_verdict, left disk sink n)

  pub evaluate_stage : Resolution → Package → Ledger.Ledger → Outcome → Disk → Sink → N → Run N
  evaluate_stage r pkg current out disk sink n =
      if not (text_eq pkg.policy.kind kind_release_policy)
      then reported (evaluation_failed policy_kind_unexpected out) disk n (
          emitted platform faults
            (evaluation_event event_build_failed (class_text policy_kind_unexpected) []) sink)
      else elim (policy_lookup pkg.policy candidate) [
        | none ↦ reported (evaluation_failed policy_candidate_unknown out) disk n (
            emitted platform faults
              (evaluation_event event_build_failed (class_text policy_candidate_unknown) candidate)
              sink)
        | some verdict ↦
            verdict_stage r current verdict (record out { verdict = verdict }) disk sink n
      ]

  -- Behind the loop over the dependencies.
  pub policy_stage : Ledger.Ledger → Outcome → Disk → Sink → N → Run N
  policy_stage current out disk sink n = elim out.release_policy [
    | none ↦ (err no_release_policy, left disk sink n)
    | some r ↦ elim r.pkg [
      | none ↦ (err nil_package, left disk sink n)
      | some pkg ↦
          evaluate_stage r pkg current (record out { client_result = build_ok }) disk sink n
    ]
  ]

  -- The loop over the dependencies, in declaration order; it stops at the first failure.
  pub build :
      (Dependency → N → Reply N)
      → List Dependency
      → Ledger.Ledger
      → Outcome
      → Disk
      → Sink
      → N
      → Run N
  build resolve [] current out disk sink n = policy_stage current out disk sink n
  build resolve (dep ∷ deps) current out disk sink n = elim (resolve dep n) [
    | refused r m ↦ (err (not_acknowledged r), left disk sink m)
    | attempted a ↦ elim a.failure [
      | some f ↦
          reported (resolution_failed f a.resolution out) disk a.network
            (emitted platform faults (failure_event dep f) sink)
      | none ↦ build resolve deps current (noted dep a.resolution out) disk sink a.network
    ]
  ]

module _ {N : Type 0} (platform : Platform) (faults : Faults) (opts : Options N) where
  -- The documents that a scenario names, in the order in which they are read.
  pub documents : Result Error Documents
  documents =
      let s = opts.scenario in
      elim (Fixtures.source_policy platform.embedded s.source_policy) [
        | err e ↦ err (fixture_error e)
        | ok policy ↦ elim (Fixtures.build_manifest platform.embedded s.manifest) [
          | err e ↦ err (fixture_error e)
          | ok manifest ↦ elim (Fixtures.lock_document platform.embedded s.lock) [
            | err e ↦ err (fixture_error e)
            | ok lock ↦ elim (Fixtures.classifications platform.embedded) [
              | err e ↦ err (fixture_error e)
              | ok table ↦ elim (Fixtures.load_candidate platform.embedded s.candidate) [
                | err e ↦ err (fixture_error e)
                | ok _ ↦
                    ok (record { policy = policy; manifest = manifest; lock = lock; table = table })
              ]
            ]
          ]
        ]
      ]

  secure : Documents → Dependency → N → Reply N
  secure d dep n = attempted (
      Resolver.resolve platform.resolver
        (record { policy = d.policy; lock = d.lock; dial = opts.dial }) dep n)

  combined : Documents → Dependency → N → Reply N
  combined d dep n =
      CombinedIndex.resolve platform.resolver (record { policy = d.policy; dial = opts.dial }) dep
        platform.environment n

  -- The resolver that the scenario names.
  pub entry_point : Documents → Result Error (Dependency → N → Reply N)
  unfolding secure combined
  entry_point d =
      if text_eq opts.scenario.resolver resolver_secure
      then ok (secure d)
      else if text_eq opts.scenario.resolver resolver_combined_index
      then elim (gate platform.environment) [
        | err r ↦ err (not_acknowledged r)
        | ok _ ↦ ok (combined d)
      ]
      else err unknown_resolver

  -- The outcome before any dependency is resolved.
  abbrev pub opening : Text → Documents → Outcome
  opening before d = record {
    scenario = opts.scenario;
    resolver = opts.scenario.resolver;
    lock_enforced = text_eq opts.scenario.resolver resolver_secure;
    client_result = undecided;
    project = d.manifest.project;
    resolutions = [];
    release_policy = none;
    report_format = none;
    attempted = none;
    verdict = [];
    classification = classification_of d.table opts.scenario.candidate;
    mutation = untouched;
    ledger_before = before;
    ledger_after = before;
    audit_events = [];
    failure = none;
  }

  -- With the ledger loaded and its digest taken.
  pub scenario_stage : Ledger.Ledger → Text → World N → Run N
  scenario_stage current before w = elim documents [
    | err e ↦ (err e, w)
    | ok d ↦ elim (entry_point d) [
      | err e ↦ (err e, w)
      | ok resolve ↦
          build platform faults opts.scenario.candidate resolve d.manifest.dependencies current
            (opening before d) w.disk (new_sink opts.scenario.id w.files) w.network
    ]
  ]

  pub digest_stage : World N → Result Ledger.Error Ledger.Ledger × Disk → Run N
  digest_stage w (err e, disk) = (err (ledger_error e), record w { disk = disk })
  digest_stage w (ok current, disk) =
      elim (Ledger.digest platform.audit.sha256 faults.before disk) [
        | err e ↦ (err (ledger_error e), record w { disk = disk })
        | ok before ↦ scenario_stage current before (record w { disk = disk })
      ]

  pub load_stage : World N → Run N
  load_stage w = digest_stage w (Ledger.load platform.codec faults.load w.disk)

  unfoldable pub execute : World N → Run N
  unfolding noted concluded stored approve_stage verdict_stage evaluate_stage policy_stage build
      documents entry_point scenario_stage digest_stage load_stage
  execute w =
      if is_empty opts.state_dir
      then (err no_state_dir, w)
      else if opts.scenario.vulnerable
      then elim (gate platform.environment) [
        | err r ↦ (err (not_acknowledged r), w)
        | ok _ ↦ load_stage w
      ]
      else load_stage w
