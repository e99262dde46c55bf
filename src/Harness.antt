-- ===== src/Harness.antt =====
-- internal/harness/harness.go: one enumerated scenario and the record of the whole chain behind its
-- outcome. The fixed sentences are the constructors of `Statement`, `Trust` and `Verdict`, and
-- `Harness.Wording` spells them; the sentence on lifecycle scripts is the same in every transcript, so
-- that it is spelled there and is no field here.
pub mod Wording
pub mod Recording
pub mod Reconciling
pub mod Running
pub mod Rendering
pub mod Matrix
use indexjack.Prelude.{ℕ, Bool, List, Option, Text, codes, ℤ}
use indexjack.Resolver
use indexjack.Registry.{Request}
use indexjack.ReleaseGate
use indexjack.ReleaseGate.{ClientResponse, Mutation}

abbrev pub format : Text
format = codes "indexjack-transcript/1"

pub data Outcome : Type 0 where
  pass fail : Outcome

-- The sentences of a reconciliation, in the order of the code.
pub data Statement : Type 0 where
  failed_but_changed failed_closed untrusted_approval rejected_but_changed : Statement
  unsafe_not_released approved_not_recorded released_once ready_rejected no_verdict : Statement

pub data Trust : Type 0 where
  bound pooled unstated : Trust

-- The integrity verdicts of a transcript.
pub data Verdict : Type 0 where
  not_reached rejected verified unverified : Verdict

pub data Enforcement : Type 0 where
  enforced unenforced : Enforcement

pub record Query : Type 0 where
  pub name : Text
  pub range : Text

pub record PolicyRecord : Type 0 where
  pub pattern : Text
  pub mode : Text
  pub trust : Trust
  pub bound : Text
  pub pool : List Text
  pub excluded : List Text

pub record Candidate : Type 0 where
  pub source : Text
  pub version : Text
  pub size : ℤ
  pub sha256 : Text

pub record Selected : Type 0 where
  pub source : Text
  pub role : Text
  pub version : Text
  pub size : ℤ
  pub sha256 : Text

pub record Dependency : Type 0 where
  pub alias : Text
  pub query : Query
  pub source_policy : PolicyRecord
  pub index_display_order : List Text
  pub queried_sources : List Text
  pub candidates : List Candidate
  pub selection_rule : Resolver.Rule
  pub selected : Selected
  pub integrity : Verdict

pub record Release : Type 0 where
  pub candidate : Text
  pub gate_classification : Text
  pub policy_verdict : Text
  pub mutation : Mutation

pub record LedgerRecord : Type 0 where
  pub before : Text
  pub after : Text
  pub changed : Bool
  pub entries : ℕ

pub record AuditRecord : Type 0 where
  pub event : Text
  pub stage : Text
  pub failure_class : Text
  pub candidate : Text
  pub alias : Text

pub record RegistryReceipt : Type 0 where
  pub source : Text
  pub role : Text
  pub revision : Text
  pub request_count : ℕ
  pub requests : List Request
  pub signature_verified : Bool

pub record Reconciliation : Type 0 where
  pub result : Outcome
  pub statement : Statement
  pub origin : Text
  pub digest : Text

pub record ScenarioRecord : Type 0 where
  pub id : Text
  pub summary : Text
  pub source_policy : Text
  pub manifest : Text
  pub lock : Text
  pub candidate : Text
  pub vulnerable : Bool

pub record Transcript : Type 0 where
  pub format : Text
  pub scenario : ScenarioRecord
  pub resolver : Text
  pub lock_enforcement : Enforcement
  pub warning : Text
  pub project : Text
  pub correlation_id : Text
  pub dependencies : List Dependency
  pub failure : Option Resolver.Failure
  pub release : Release
  pub ledger : LedgerRecord
  pub audit : List AuditRecord
  pub receipts : List RegistryReceipt
  pub client_response : ClientResponse
  pub reconciliation : Reconciliation
