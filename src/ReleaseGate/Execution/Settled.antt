-- ===== src/ReleaseGate/Execution/Settled.antt =====
-- Which ledger digests a run reports.
use indexjack.Prelude.{
  Bool-cases, List, [], ◌∷◌, Option-cases, Result, Result-cases, ok, err, Text, Bytes, text_eq, ◌≡◌,
  ◌⊎◌, inl, inr, refl, sym, ap, ok-injective, ◌∙◌, arith,
}
use indexjack.BuildManifest.{Dependency}
use indexjack.PkgArchive.{
  Package, policy_lookup, kind_release_policy, verdict_approve, verdict_reject,
}
use indexjack.Resolver.{Resolution}
use indexjack.CombinedIndex.{Reply}
use indexjack.Ledger
use indexjack.Ledger.{Disk}
use indexjack.Audit
use indexjack.Audit.{Sink, new_sink}
use indexjack.ReleaseGate.{Platform, Faults, Options, Outcome, World, reported, approved, build_ok}
use indexjack.ReleaseGate.Execution.{
  noted, concluded, stored, approve_stage, verdict_stage, evaluate_stage, policy_stage, build,
  documents, entry_point, opening, scenario_stage, digest_stage, load_stage, execute,
}
use indexjack.ReleaseGate.Execution.Release.{execute-starts}
use indexjack.ReleaseGate.Execution.Approval.{Reply-cases}

-- The digest of a ledger file depends on its bytes alone.
digest_same :
    (sha256 : Bytes → Bytes) (f g : Ledger.Faults) (disk : Disk) (a b : Text)
    → Ledger.digest sha256 f disk ≡ ok a
    → Ledger.digest sha256 g disk ≡ ok b
    → a ≡ b
unfolding Ledger.digest
digest_same sha256 f g disk a b p q = elim (Option-cases disk.ledger) [
  | inl e ↦ absurd (ground (arith, e, p))
  | inr (raw, e) ↦ ground (arith, e, p, q)
]

-- An outcome that no stage has changed the ledger of yet.
abbrev Fresh : (Bytes → Bytes) → Ledger.Faults → Disk → Outcome → Type 0
Fresh sha256 f disk out =
    (Ledger.digest sha256 f disk ≡ ok out.ledger_before) × (out.ledger_after ≡ out.ledger_before)

abbrev pub IsSettled : Outcome → Type 0
IsSettled out = (out.mutation ≡ approved) ⊎ (out.ledger_before ≡ out.ledger_after)

reported-IsSettled :
    {N : Type 0} (out : Outcome) (disk : Disk) (n : N)
    (answer : Result Audit.Error (Unit {0}) × Sink) (final : Outcome)
    → out.ledger_after ≡ out.ledger_before
    → (reported out disk n answer).0 ≡ ok final
    → IsSettled final
unfolding reported
reported-IsSettled out disk n (err e, sink) final same h = absurd cc
reported-IsSettled out disk n (ok _, sink) final same h =
    let is : record out { audit_events = sink.emitted } ≡ final = ok-injective h in
    rw (← is) (inr (sym same))

noted_ledger :
    (dep : Dependency) (r : Resolution) (out : Outcome)
    → ((noted dep r out).ledger_before ≡ out.ledger_before)
      × ((noted dep r out).ledger_after ≡ out.ledger_after)
unfolding noted
noted_ledger dep r out = ground arith

module _ {N : Type 0} (platform : Platform) (faults : Faults) (candidate : Text) where
  concluded-IsSettled :
      (out : Outcome) (disk : Disk) (n : N) (answer : Result Audit.Error (Unit {0}) × Sink)
      (final : Outcome)
      → (out.mutation ≡ approved) ⊎ Fresh platform.audit.sha256 faults.before disk out
      → (concluded platform faults candidate out disk n answer).0 ≡ ok final
      → IsSettled final
  unfolding concluded
  concluded-IsSettled out disk n (err e, sink) final fresh h = absurd cc
  concluded-IsSettled out disk n (ok _, sink) final fresh h =
      elim (Result-cases (Ledger.digest platform.audit.sha256 faults.after disk)) [
        | inr (x, e) ↦ absurd (ground (arith, e, h))
        | inl (after, e) ↦
            let is : record out { ledger_after = after; audit_events = sink.emitted } ≡ final =
              ok-injective (rw (e, concluded) at h) in
            rw (← is) (elim fresh [
              | inl m ↦ inl m
              | inr (d, _) ↦
                  inr
                    (digest_same platform.audit.sha256 faults.before faults.after disk _ after d e)
            ])
      ]

  stored-IsSettled :
      (out : Outcome) (sink : Sink) (n : N) (answer : Result Ledger.Error (Unit {0}) × Disk)
      (final : Outcome)
      → (stored platform faults candidate out sink n answer).0 ≡ ok final
      → IsSettled final
  unfolding stored
  stored-IsSettled out sink n (err e, disk) final h = absurd cc
  stored-IsSettled out sink n (ok _, disk) final h =
      concluded-IsSettled (record out { mutation = approved }) disk n _ final (inl refl) h

  approve_stage-IsSettled :
      (r : Resolution) (current : Ledger.Ledger) (out : Outcome) (disk : Disk) (sink : Sink) (n : N)
      (final : Outcome)
      → Fresh platform.audit.sha256 faults.before disk out
      → (approve_stage platform faults candidate r current out disk sink n).0 ≡ ok final
      → IsSettled final
  unfolding approve_stage
  approve_stage-IsSettled r current out disk sink n final fresh h =
      elim (Bool-cases (Ledger.approved current candidate)) [
        | inl e ↦ concluded-IsSettled _ disk n _ final (inr fresh) (rw (e, approve_stage) at h)
        | inr e ↦ stored-IsSettled out sink n _ final (rw (e, approve_stage) at h)
      ]

  verdict_stage-IsSettled :
      (r : Resolution) (current : Ledger.Ledger) (verdict : Text) (out : Outcome) (disk : Disk)
      (sink : Sink) (n : N) (final : Outcome)
      → Fresh platform.audit.sha256 faults.before disk out
      → (verdict_stage platform faults candidate r current verdict out disk sink n).0 ≡ ok final
      → IsSettled final
  unfolding verdict_stage
  verdict_stage-IsSettled r current verdict out disk sink n final fresh h =
      elim (Bool-cases (text_eq verdict verdict_reject)) [
        | inl e ↦ concluded-IsSettled out disk n _ final (inr fresh) (rw (e, verdict_stage) at h)
        | inr e ↦ elim (Bool-cases (text_eq verdict verdict_approve)) [
          | inl g ↦
              approve_stage-IsSettled r current out disk sink n final fresh
                (rw (e, g, verdict_stage) at h)
          | inr g ↦ absurd (ground (arith, e, g, h))
        ]
      ]

  evaluate_stage-IsSettled :
      (r : Resolution) (pkg : Package) (current : Ledger.Ledger) (out : Outcome) (disk : Disk)
      (sink : Sink) (n : N) (final : Outcome)
      → Fresh platform.audit.sha256 faults.before disk out
      → (evaluate_stage platform faults candidate r pkg current out disk sink n).0 ≡ ok final
      → IsSettled final
  unfolding evaluate_stage
  evaluate_stage-IsSettled r pkg current out disk sink n final fresh h =
      elim (Bool-cases (text_eq pkg.policy.kind kind_release_policy)) [
        | inr e ↦ reported-IsSettled _ disk n _ final fresh.1 (rw (e, evaluate_stage) at h)
        | inl e ↦ elim (Option-cases (policy_lookup pkg.policy candidate)) [
          | inl f ↦ reported-IsSettled _ disk n _ final fresh.1 (rw (e, f, evaluate_stage) at h)
          | inr (verdict, f) ↦
              verdict_stage-IsSettled r current verdict _ disk sink n final fresh
                (rw (e, f, evaluate_stage) at h)
        ]
      ]

  policy_stage-IsSettled :
      (current : Ledger.Ledger) (out : Outcome) (disk : Disk) (sink : Sink) (n : N)
      (final : Outcome)
      → Fresh platform.audit.sha256 faults.before disk out
      → (policy_stage platform faults candidate current out disk sink n).0 ≡ ok final
      → IsSettled final
  unfolding policy_stage
  policy_stage-IsSettled current out disk sink n final fresh h =
      elim (Option-cases out.release_policy) [
        | inl e ↦ absurd (ground (arith, e, h))
        | inr (r, e) ↦ elim (Option-cases r.pkg) [
          | inl f ↦ absurd (ground (arith, e, f, h))
          | inr (pkg, f) ↦
              evaluate_stage-IsSettled r pkg current (record out { client_result = build_ok }) disk
                sink n final fresh (ground (arith, e, f, h))
        ]
      ]

  build-IsSettled :
      (resolve : Dependency → N → Reply N) (deps : List Dependency) (current : Ledger.Ledger)
      (out : Outcome) (disk : Disk) (sink : Sink) (n : N) (final : Outcome)
      → Fresh platform.audit.sha256 faults.before disk out
      → (build platform faults candidate resolve deps current out disk sink n).0 ≡ ok final
      → IsSettled final
  unfolding build
  build-IsSettled resolve [] current out disk sink n final fresh h =
      policy_stage-IsSettled current out disk sink n final fresh h
  build-IsSettled resolve (dep ∷ deps) current out disk sink n final fresh h =
      elim (Reply-cases (resolve dep n)) [
        | inl (x, m, e) ↦ absurd (ground (arith, e, h))
        | inr (a, e) ↦ elim (Option-cases a.failure) [
          | inl f ↦
              let (before, after) = noted_ledger dep a.resolution out in
              build-IsSettled resolve deps current (noted dep a.resolution out) disk sink a.network
                final
                (fresh.0 ∙ ap (λ (t : Text). ok t) (sym before), after ∙ (fresh.1 ∙ sym before))
                (rw (e, f, build) at h)
          | inr (x, f) ↦ reported-IsSettled _ disk a.network _ final fresh.1 (rw (e, f, build) at h)
        ]
      ]

module _ {N : Type 0} (platform : Platform) (faults : Faults) (opts : Options N) where
  scenario_stage-IsSettled :
      (current : Ledger.Ledger) (before : Text) (w : World N) (final : Outcome)
      → Ledger.digest platform.audit.sha256 faults.before w.disk ≡ ok before
      → (scenario_stage platform faults opts current before w).0 ≡ ok final
      → IsSettled final
  unfolding scenario_stage
  scenario_stage-IsSettled current before w final digested h =
      elim (Result-cases (documents platform faults opts)) [
        | inr (x, e) ↦ absurd (ground (arith, e, h))
        | inl (d, e) ↦ elim (Result-cases (entry_point platform faults opts d)) [
          | inr (x, f) ↦ absurd (ground (arith, e, f, h))
          | inl (resolve, f) ↦
              build-IsSettled platform faults opts.scenario.candidate resolve
                d.manifest.dependencies current (opening platform faults opts before d) w.disk
                (new_sink opts.scenario.id w.files) w.network final (digested, refl)
                (rw (e, f, scenario_stage) at h)
        ]
      ]

  digest_stage-IsSettled :
      (w : World N) (answer : Result Ledger.Error Ledger.Ledger × Disk) (final : Outcome)
      → (digest_stage platform faults opts w answer).0 ≡ ok final
      → IsSettled final
  unfolding digest_stage
  digest_stage-IsSettled w (err e, disk) final h = absurd cc
  digest_stage-IsSettled w (ok current, disk) final h =
      elim (Result-cases (Ledger.digest platform.audit.sha256 faults.before disk)) [
        | inr (x, e) ↦ absurd (ground (arith, e, h))
        | inl (before, e) ↦
            scenario_stage-IsSettled current before (record w { disk = disk }) final e
              (rw (e, digest_stage) at h)
      ]

  -- Where a run reports another mutation than an approval, it reports one digest of the ledger twice.
  pub execute-IsSettled :
      (w : World N) (final : Outcome)
      → (execute platform faults opts w).0 ≡ ok final
      → IsSettled final
  unfolding load_stage
  execute-IsSettled w final h = elim (execute-starts platform faults opts w) [
    | inl (x, _, e) ↦ absurd (ground (arith, e, h))
    | inr e ↦ digest_stage-IsSettled w _ final (rw e at h)
  ]
