-- ===== src/ReleaseGate/Execution/Decisions.antt =====
-- What the evaluation of the release policy reports.
use indexjack.Prelude.{
  [], none, Option-cases, Result, Result-cases, ok, err, Text, text_eq, text_eq_iff, Bool-cases,
  ◌≡◌, inl, inr, refl, ◌∙◌, arith,
}
use indexjack.BuildManifest.{Dependency}
use indexjack.PkgArchive.{
  Package, policy_lookup, kind_release_policy, verdict_approve, verdict_reject,
}
use indexjack.Resolver.{
  Resolution, Failure, Class, policy_evaluation, policy_candidate_unknown, policy_kind_unexpected,
}
use indexjack.Ledger
use indexjack.Ledger.{Disk}
use indexjack.Audit
use indexjack.Audit.{
  Sink, Event, stamped, emit, event_build_failed, event_release_rejected, event_release_approved,
  event_release_duplicate, new_sink,
}
use indexjack.ReleaseGate.{
  Platform, Faults, Outcome, reported, build_ok, Mutation, untouched, approved,
  suppressed_duplicate, evaluation_event,
}
use indexjack.ReleaseGate.Texts.{class_text}
use indexjack.ReleaseGate.Execution.{
  emitted, evaluation_failed, resolution_failed, failure_event, concluded, stored, approve_stage,
  verdict_stage, evaluate_stage,
}
use indexjack.ReleaseGate.Execution.Answers.{
  IsRefused, IsDecided, IsReported, IsBlank, reported-ok, emitted-one,
}

module _ {N : Type 0} (platform : Platform) (faults : Faults) (candidate : Text) where
  concluded-ok :
      (out : Outcome) (disk : Disk) (n : N) (answer : Result Audit.Error (Unit {0}) × Sink)
      (final : Outcome)
      → (concluded platform faults candidate out disk n answer).0 ≡ ok final
      → (after : Text) × (answer.0 ≡ ok tt)
        × (record out { ledger_after = after; audit_events = answer.1.emitted } ≡ final)
  unfolding concluded
  concluded-ok out disk n (err e, sink) final h = absurd cc
  concluded-ok out disk n (ok _, sink) final h =
      elim (Result-cases (Ledger.digest platform.audit.sha256 faults.after disk)) [
        | inl (after, e) ↦ (after, refl, ground (arith, e, h))
        | inr (x, e) ↦ absurd (ground (arith, e, h))
      ]

  concluded-IsDecided :
      (verdict : Text) (mutation : Mutation) (name : Text) (out : Outcome) (disk : Disk)
      (sink : Sink) (n : N) (final : Outcome)
      → sink.emitted ≡ []
      → out.client_result ≡ build_ok
      → out.verdict ≡ verdict
      → out.mutation ≡ mutation
      → out.failure ≡ none
      → (concluded platform faults candidate out disk n
          (emitted platform faults (evaluation_event name [] candidate) sink)).0
        ≡ ok final
      → IsDecided verdict mutation name final
  unfolding stamped
  concluded-IsDecided verdict mutation name out disk sink n final empty c v m f h =
      let e = evaluation_event name [] candidate in
      let (after, sent, same) = concluded-ok out disk n (emitted platform faults e sink) final h in
      let one = emitted-one platform faults e sink empty sent in
      rw (← same) (record {
        client = c;
        decided = v;
        changed = m;
        clear = f;
        event = stamped platform.audit.sha256 sink.scenario e;
        events = one;
        event_name = refl;
      })

  stored-IsDecided :
      (out : Outcome) (sink : Sink) (n : N) (answer : Result Ledger.Error (Unit {0}) × Disk)
      (final : Outcome)
      → sink.emitted ≡ []
      → out.client_result ≡ build_ok
      → out.verdict ≡ verdict_approve
      → out.failure ≡ none
      → (stored platform faults candidate out sink n answer).0 ≡ ok final
      → IsDecided verdict_approve approved event_release_approved final
  unfolding stored
  stored-IsDecided out sink n (err e, disk) final empty c v f h = absurd cc
  stored-IsDecided out sink n (ok _, disk) final empty c v f h =
      concluded-IsDecided verdict_approve approved event_release_approved
        (record out { mutation = approved }) disk sink n final empty c v refl f h

  approve_stage-IsReported :
      (r : Resolution) (current : Ledger.Ledger) (out : Outcome) (disk : Disk) (sink : Sink) (n : N)
      (final : Outcome)
      → sink.emitted ≡ []
      → out.client_result ≡ build_ok
      → out.verdict ≡ verdict_approve
      → out.failure ≡ none
      → (approve_stage platform faults candidate r current out disk sink n).0 ≡ ok final
      → IsReported final
  unfolding approve_stage
  approve_stage-IsReported r current out disk sink n final empty c v f h =
      elim (Bool-cases (Ledger.approved current candidate)) [
        | inl e ↦ inr (
            inr (
              inl (
                concluded-IsDecided _ suppressed_duplicate _ _ disk sink n final empty c v refl f
                  (rw (e, approve_stage) at h))))
        | inr e ↦ inr (
            inr
              (inr (stored-IsDecided out sink n _ final empty c v f (rw (e, approve_stage) at h))))
      ]

  verdict_stage-IsReported :
      (r : Resolution) (current : Ledger.Ledger) (verdict : Text) (out : Outcome) (disk : Disk)
      (sink : Sink) (n : N) (final : Outcome)
      → sink.emitted ≡ []
      → out.client_result ≡ build_ok
      → out.verdict ≡ verdict
      → out.mutation ≡ untouched
      → out.failure ≡ none
      → (verdict_stage platform faults candidate r current verdict out disk sink n).0 ≡ ok final
      → IsReported final
  unfolding verdict_stage
  verdict_stage-IsReported r current verdict out disk sink n final empty c v m f h =
      elim (Bool-cases (text_eq verdict verdict_reject)) [
        | inl e ↦
            let rejected = v ∙ (text_eq_iff verdict verdict_reject).0 e in
            inr (
              inl (
                concluded-IsDecided verdict_reject untouched event_release_rejected out disk sink n
                  final empty c rejected m f (rw (e, verdict_stage) at h)))
        | inr e ↦ elim (Bool-cases (text_eq verdict verdict_approve)) [
          | inl g ↦
              approve_stage-IsReported r current out disk sink n final empty c
                (v ∙ (text_eq_iff verdict verdict_approve).0 g) f (rw (e, g, verdict_stage) at h)
          | inr g ↦ absurd (ground (arith, e, g, h))
        ]
      ]

  evaluation_failed-IsRefused :
      (class : Class) (id : Text) (out : Outcome) (disk : Disk) (sink : Sink) (n : N)
      (final : Outcome)
      → sink.emitted ≡ []
      → out.verdict ≡ []
      → out.mutation ≡ untouched
      → (reported (evaluation_failed class out) disk n (
          emitted platform faults
            (evaluation_event event_build_failed (class_text class) id)
            sink)).0
        ≡ ok final
      → IsRefused final
  unfolding stamped
  evaluation_failed-IsRefused class id out disk sink n final empty v m h =
      let e = evaluation_event event_build_failed (class_text class) id in
      let (sent, same) =
        reported-ok (evaluation_failed class out) disk n (emitted platform faults e sink) final h in
      rw (← same) (record {
        client = refl;
        undecided = v;
        unchanged = m;
        failure = record { class = class; stage = policy_evaluation };
        failed = refl;
        event = stamped platform.audit.sha256 sink.scenario e;
        events = emitted-one platform faults e sink empty sent;
        event_name = refl;
        event_stage = refl;
        event_class = refl;
      })

  pub resolution_failed-IsRefused :
      (dep : Dependency) (f : Failure) (r : Resolution) (out : Outcome) (disk : Disk) (sink : Sink)
      (n : N) (final : Outcome)
      → sink.emitted ≡ []
      → IsBlank out
      → (reported
          (resolution_failed f r out)
          disk
          n
          (emitted platform faults (failure_event dep f) sink)).0
        ≡ ok final
      → IsRefused final
  unfolding stamped
  resolution_failed-IsRefused dep f r out disk sink n final empty blank h =
      let e = failure_event dep f in
      let (sent, same) =
        reported-ok (resolution_failed f r out) disk n (emitted platform faults e sink) final h in
      rw (← same) (record {
        client = refl;
        undecided = blank.verdict;
        unchanged = blank.mutation;
        failure = f;
        failed = refl;
        event = stamped platform.audit.sha256 sink.scenario e;
        events = emitted-one platform faults e sink empty sent;
        event_name = refl;
        event_stage = refl;
        event_class = refl;
      })

  pub evaluate_stage-IsReported :
      (r : Resolution) (pkg : Package) (current : Ledger.Ledger) (out : Outcome) (disk : Disk)
      (sink : Sink) (n : N) (final : Outcome)
      → sink.emitted ≡ []
      → out.client_result ≡ build_ok
      → IsBlank out
      → (evaluate_stage platform faults candidate r pkg current out disk sink n).0 ≡ ok final
      → IsReported final
  unfolding evaluate_stage
  evaluate_stage-IsReported r pkg current out disk sink n final empty c blank h =
      elim (Bool-cases (text_eq pkg.policy.kind kind_release_policy)) [
        | inr e ↦ inl (
            evaluation_failed-IsRefused policy_kind_unexpected [] out disk sink n final empty
              blank.verdict blank.mutation (rw (e, evaluate_stage) at h))
        | inl e ↦ elim (Option-cases (policy_lookup pkg.policy candidate)) [
          | inl f ↦ inl (
              evaluation_failed-IsRefused policy_candidate_unknown candidate out disk sink n final
                empty blank.verdict blank.mutation (rw (e, f, evaluate_stage) at h))
          | inr (verdict, f) ↦
              verdict_stage-IsReported r current verdict (record out { verdict = verdict }) disk
                sink n final empty c refl blank.mutation blank.failure
                (rw (e, f, evaluate_stage) at h)
        ]
      ]
