-- ===== src/ReleaseGate/Execution/Answers.antt =====
-- internal/releasegate/releasegate.go: the outcomes that a run may report.
use indexjack.Prelude.{[], ◌∷◌, none, some, Result, ok, err, Text, ◌≡◌, ◌⊎◌, refl, ◌∙◌}
use indexjack.PkgArchive.{verdict_approve, verdict_reject}
use indexjack.Resolver.{Failure}
use indexjack.Ledger.{Disk}
use indexjack.Audit
use indexjack.Audit.{
  Sink, Event, stamped, emit, event_build_failed, event_release_rejected, event_release_approved,
  event_release_duplicate, new_sink,
}
use indexjack.Audit.Emitted.{emit-IsRecorded}
use indexjack.ReleaseGate.{
  Platform, Faults, Outcome, reported, build_ok, build_failed, Mutation, untouched, approved,
  suppressed_duplicate,
}
use indexjack.ReleaseGate.Texts.{stage_text, class_text}
use indexjack.ReleaseGate.Execution.{emitted}

-- A build that failed: the client gets BUILD_FAILED, the one event says where it failed, and nothing
-- was decided or changed.
pub record IsRefused (out : Outcome) : Type 0 where
  pub client : out.client_result ≡ build_failed
  pub undecided : out.verdict ≡ []
  pub unchanged : out.mutation ≡ untouched
  pub failure : Failure
  pub failed : out.failure ≡ some failure
  pub event : Event
  pub events : out.audit_events ≡ event ∷ []
  pub event_name : event.event ≡ event_build_failed
  pub event_stage : event.stage ≡ stage_text failure.stage
  pub event_class : event.failure_class ≡ class_text failure.class

-- A build that succeeded, with the policy's verdict, and one event of the given name.
pub record IsDecided (verdict : Text) (mutation : Mutation) (name : Text) (out : Outcome)
    : Type 0 where
  pub client : out.client_result ≡ build_ok
  pub decided : out.verdict ≡ verdict
  pub changed : out.mutation ≡ mutation
  pub clear : out.failure ≡ none
  pub event : Event
  pub events : out.audit_events ≡ event ∷ []
  pub event_name : event.event ≡ name

abbrev pub IsReported : Outcome → Type 0
IsReported out =
    IsRefused out
    ⊎ (IsDecided verdict_reject untouched event_release_rejected out
        ⊎ (IsDecided verdict_approve suppressed_duplicate event_release_duplicate out
            ⊎ IsDecided verdict_approve approved event_release_approved out))

-- The outcome before anything is decided.
pub record IsBlank (out : Outcome) : Type 0 where
  pub verdict : out.verdict ≡ []
  pub mutation : out.mutation ≡ untouched
  pub failure : out.failure ≡ none

pub reported-ok :
    {N : Type 0} (out : Outcome) (disk : Disk) (n : N)
    (answer : Result Audit.Error (Unit {0}) × Sink) (final : Outcome)
    → (reported out disk n answer).0 ≡ ok final
    → (answer.0 ≡ ok tt) × (record out { audit_events = answer.1.emitted } ≡ final)
unfolding reported
reported-ok out disk n (err e, sink) final h = absurd cc
reported-ok out disk n (ok _, sink) final h = (refl, cc)

-- The one event of a sink that was empty.
pub emitted-one :
    (platform : Platform) (faults : Faults) (e : Event) (sink : Sink)
    → sink.emitted ≡ []
    → (emitted platform faults e sink).0 ≡ ok tt
    → (emitted platform faults e sink).1.emitted
      ≡ stamped platform.audit.sha256 sink.scenario e ∷ []
emitted-one platform faults e sink empty h =
    (emit-IsRecorded platform.audit faults.audit e sink).succeeds h ∙ rw empty refl
