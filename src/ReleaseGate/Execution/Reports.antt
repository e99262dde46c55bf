-- ===== src/ReleaseGate/Execution/Reports.antt =====
-- What a whole run reports.
use indexjack.Prelude.{
  List, [], ◌∷◌, Option-cases, Result, Result-cases, ok, err, Text, ◌≡◌, inl, inr, refl, arith,
}
use indexjack.BuildManifest.{Dependency}
use indexjack.Resolver.{Resolution}
use indexjack.CombinedIndex.{Reply}
use indexjack.Ledger
use indexjack.Ledger.{Disk}
use indexjack.Audit.{Sink, new_sink}
use indexjack.ReleaseGate.{Platform, Faults, Options, Outcome, World, build_ok}
use indexjack.ReleaseGate.Execution.{
  noted, policy_stage, build, documents, entry_point, opening, scenario_stage, digest_stage,
  load_stage, execute,
}
use indexjack.ReleaseGate.Execution.Decisions.{
  evaluate_stage-IsReported, resolution_failed-IsRefused,
}
use indexjack.ReleaseGate.Execution.Answers.{IsReported, IsBlank}
use indexjack.ReleaseGate.Execution.Release.{execute-starts}
use indexjack.ReleaseGate.Execution.Approval.{Reply-cases}

noted-IsBlank :
    (dep : Dependency) (r : Resolution) (out : Outcome) → IsBlank out → IsBlank (noted dep r out)
unfolding noted
noted-IsBlank dep r out blank = record {
  verdict = ground (arith, blank.verdict);
  mutation = ground (arith, blank.mutation);
  failure = ground (arith, blank.failure);
}

module _ {N : Type 0} (platform : Platform) (faults : Faults) (candidate : Text) where
  policy_stage-IsReported :
      (current : Ledger.Ledger) (out : Outcome) (disk : Disk) (sink : Sink) (n : N)
      (final : Outcome)
      → sink.emitted ≡ []
      → IsBlank out
      → (policy_stage platform faults candidate current out disk sink n).0 ≡ ok final
      → IsReported final
  unfolding policy_stage
  policy_stage-IsReported current out disk sink n final empty blank h =
      elim (Option-cases out.release_policy) [
        | inl e ↦ absurd (ground (arith, e, h))
        | inr (r, e) ↦ elim (Option-cases r.pkg) [
          | inl f ↦ absurd (ground (arith, e, f, h))
          | inr (pkg, f) ↦
              evaluate_stage-IsReported platform faults candidate r pkg current
                (record out { client_result = build_ok }) disk sink n final empty refl
                (record {
                  verdict = blank.verdict;
                  mutation = blank.mutation;
                  failure = blank.failure;
                })
                (ground (arith, e, f, h))
        ]
      ]

  build-IsReported :
      (resolve : Dependency → N → Reply N) (deps : List Dependency) (current : Ledger.Ledger)
      (out : Outcome) (disk : Disk) (sink : Sink) (n : N) (final : Outcome)
      → sink.emitted ≡ []
      → IsBlank out
      → (build platform faults candidate resolve deps current out disk sink n).0 ≡ ok final
      → IsReported final
  unfolding build
  build-IsReported resolve [] current out disk sink n final empty blank h =
      policy_stage-IsReported current out disk sink n final empty blank h
  build-IsReported resolve (dep ∷ deps) current out disk sink n final empty blank h =
      elim (Reply-cases (resolve dep n)) [
        | inl (x, m, e) ↦ absurd (ground (arith, e, h))
        | inr (a, e) ↦ elim (Option-cases a.failure) [
          | inl f ↦
              build-IsReported resolve deps current (noted dep a.resolution out) disk sink a.network
                final empty (noted-IsBlank dep a.resolution out blank) (rw (e, f, build) at h)
          | inr (x, f) ↦ inl (
              resolution_failed-IsRefused platform faults candidate dep x a.resolution out disk sink
                a.network final empty blank (rw (e, f, build) at h))
        ]
      ]

module _ {N : Type 0} (platform : Platform) (faults : Faults) (opts : Options N) where
  scenario_stage-IsReported :
      (current : Ledger.Ledger) (before : Text) (w : World N) (final : Outcome)
      → (scenario_stage platform faults opts current before w).0 ≡ ok final
      → IsReported final
  unfolding scenario_stage new_sink
  scenario_stage-IsReported current before w final h =
      elim (Result-cases (documents platform faults opts)) [
        | inr (x, e) ↦ absurd (ground (arith, e, h))
        | inl (d, e) ↦ elim (Result-cases (entry_point platform faults opts d)) [
          | inr (x, f) ↦ absurd (ground (arith, e, f, h))
          | inl (resolve, f) ↦
              build-IsReported platform faults opts.scenario.candidate resolve
                d.manifest.dependencies current (opening platform faults opts before d) w.disk
                (new_sink opts.scenario.id w.files) w.network final refl
                (record { verdict = refl; mutation = refl; failure = refl })
                (rw (e, f, scenario_stage) at h)
        ]
      ]

  digest_stage-IsReported :
      (w : World N) (answer : Result Ledger.Error Ledger.Ledger × Disk) (final : Outcome)
      → (digest_stage platform faults opts w answer).0 ≡ ok final
      → IsReported final
  unfolding digest_stage
  digest_stage-IsReported w (err e, disk) final h = absurd cc
  digest_stage-IsReported w (ok current, disk) final h =
      elim (Result-cases (Ledger.digest platform.audit.sha256 faults.before disk)) [
        | inr (x, e) ↦ absurd (ground (arith, e, h))
        | inl (before, e) ↦
            scenario_stage-IsReported current before (record w { disk = disk }) final
              (rw (e, digest_stage) at h)
      ]

  pub execute-IsReported :
      (w : World N) (final : Outcome)
      → (execute platform faults opts w).0 ≡ ok final
      → IsReported final
  unfolding load_stage
  execute-IsReported w final h = elim (execute-starts platform faults opts w) [
    | inl (x, _, e) ↦ absurd (ground (arith, e, h))
    | inr e ↦ digest_stage-IsReported w _ final (rw e at h)
  ]
