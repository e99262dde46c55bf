-- ===== src/ReleaseGate.antt =====
-- internal/releasegate/releasegate.go: one scenario end to end. The stages of `Execute` are functions,
-- and the ledger's disk, the audit files and the network are handed through them.
pub mod Texts
pub mod Execution
use indexjack.Prelude.{Bool, true, false, List, [], Option, Result, ok, err, Text, codes}
use indexjack.SourcePolicy.{Source, Policy}
use indexjack.BuildManifest.{Manifest}
use indexjack.LockFile.{Lock}
use indexjack.Registry.{FetchError}
use indexjack.Vulnerable.{Environment, Refusal}
use indexjack.Resolver
use indexjack.Resolver.{Resolution, Failure, Fetcher, policy_evaluation}
use indexjack.Ledger
use indexjack.Ledger.{Disk}
use indexjack.Audit
use indexjack.Audit.{Sink, Event, Files}
use indexjack.Fixtures
use indexjack.Fixtures.{Scenario, Embedded, Table}
use indexjack.ReleaseGate.Texts.{stage_text}

abbrev pub alias_release_policy : Text
alias_release_policy = codes "release-policy"

abbrev pub alias_report_format : Text
alias_report_format = codes "report-format"

pub data ClientResult : Type 0 where
  undecided build_ok build_failed : ClientResult

pub data Mutation : Type 0 where
  untouched approved suppressed_duplicate : Mutation

-- What the gate stands on besides the packages of the standard library that the resolver names.
pub record Platform : Type 0 where
  pub resolver : Resolver.Platform
  pub audit : Audit.Platform
  pub codec : Ledger.Codec
  pub embedded : Embedded
  pub environment : Environment

-- The failing calls of one run, for each of its visits to the disk.
pub record Faults : Type 0 where
  pub load : Ledger.Faults
  pub before : Ledger.Faults
  pub save : Ledger.Faults
  pub after : Ledger.Faults
  pub audit : Audit.Faults

pub record Options (N : Type 0) : Type 0 where
  pub scenario : Scenario
  pub state_dir : Text
  pub dial : Source → Result FetchError (Fetcher N)

-- The errors of `Execute` itself, in which no outcome is returned; `nil_package` is the panic that a
-- resolution without a package would cause.
pub data Error : Type 0 where
  no_state_dir unknown_resolver no_release_policy unvalidated_verdict nil_package : Error
  not_acknowledged : Refusal → Error
  ledger_error : Ledger.Error → Error
  audit_error : Audit.Error → Error
  fixture_error : Fixtures.Error → Error

pub record Outcome : Type 0 where
  pub scenario : Scenario
  pub resolver : Text
  pub lock_enforced : Bool
  pub client_result : ClientResult
  pub project : Text
  pub resolutions : List Resolution
  pub release_policy : Option Resolution
  pub report_format : Option Resolution
  pub attempted : Option Resolution
  pub verdict : Text
  pub classification : Text
  pub mutation : Mutation
  pub ledger_before : Text
  pub ledger_after : Text
  pub audit_events : List Event
  pub failure : Option Failure

-- What a run works on.
pub record World (N : Type 0) : Type 0 where
  pub disk : Disk
  pub files : Files
  pub network : N

-- The world as a stage leaves it.
abbrev pub left : {N : Type 0} → Disk → Sink → N → World N
left disk sink n = record { disk = disk; files = sink.files; network = n }

abbrev pub Run : Type 0 → Type 0
Run N = Result Error Outcome × World N

-- The documents of a scenario.
pub record Documents : Type 0 where
  pub policy : Policy
  pub manifest : Manifest
  pub lock : Lock
  pub table : Table

-- `out.Failed()`
abbrev pub failed : Outcome → Bool
failed o = elim o.client_result [ build_failed ↦ true | build_ok ↦ false | undecided ↦ false ]

abbrev pub client_response_format : Text
client_response_format = codes "indexjack-build-result/1"

abbrev pub result_text : ClientResult → Text
result_text undecided = []
result_text build_ok = codes "BUILD_OK"
result_text build_failed = codes "BUILD_FAILED"

pub record ClientResponse : Type 0 where
  pub format : Text
  pub result : Text

-- What `ClientResponse` marshals.
unfoldable pub client_response : Outcome → ClientResponse
client_response o = record { format = client_response_format; result = result_text o.client_result }

abbrev pub event_of : Text → Text → Text → Text → Text → Event
event_of name stage alias class candidate = record {
  format = [];
  event = name;
  correlation_id = [];
  scenario_id = [];
  stage = stage;
  dependency_alias = alias;
  failure_class = class;
  candidate_id = candidate;
}

-- The event of one branch of the policy evaluation.
abbrev pub evaluation_event : Text → Text → Text → Event
evaluation_event name class candidate =
    event_of name (stage_text policy_evaluation) alias_release_policy class candidate

-- What follows every emission: the error is returned, or the outcome takes the emitted events.
unfoldable pub reported :
    {N : Type 0} → Outcome → Disk → N → Result Audit.Error (Unit {0}) × Sink → Run N
reported out disk n (err e, sink) = (err (audit_error e), left disk sink n)
reported out disk n (ok _, sink) =
    (ok (record out { audit_events = sink.emitted }), left disk sink n)
