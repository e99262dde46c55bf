-- ===== src/ReleaseGate/Execution/Stages.antt =====
-- internal/releasegate/releasegate.go: the errors of the stages behind a resolved dependency.
use indexjack.Prelude.{
  some, Option-cases, Result, ok, err, Text, text_eq, text_eq_iff, Bool-cases, ◌≡◌, ◌⊎◌, inl, inr,
  arith,
}
use indexjack.PkgArchive.{
  Package, validate_policy, policy_lookup, kind_release_policy, verdict_approve, verdict_reject,
}
use indexjack.PkgArchive.Policies.{validate_policy-IsAccepted, policy_lookup_verdict}
use indexjack.Resolver.{Resolution}
use indexjack.Ledger
use indexjack.Ledger.{Disk}
use indexjack.Audit
use indexjack.Audit.{Sink, new_sink}
use indexjack.ReleaseGate.{
  Platform, Faults, Error, nil_package, unvalidated_verdict, Outcome, Run, reported, build_ok,
}
use indexjack.ReleaseGate.Execution.{
  concluded, stored, approve_stage, verdict_stage, evaluate_stage, policy_stage,
}

-- An error that is none of the two.
abbrev pub Possible : Error → Type 0
Possible e = ¬ (e ≡ nil_package) × ¬ (e ≡ unvalidated_verdict)

abbrev pub Reached : {N : Type 0} → Run N → Type 0
Reached run = (e : Error) → run.0 ≡ err e → Possible e

abbrev pub HasPackage : Resolution → Type 0
HasPackage r = (pkg : Package) × (r.pkg ≡ some pkg) × (validate_policy pkg.policy ≡ ok tt)

abbrev pub HasPolicy : Outcome → Type 0
HasPolicy out = (r : Resolution) → out.release_policy ≡ some r → HasPackage r

pub reported-Reached :
    {N : Type 0} (out : Outcome) (disk : Disk) (n : N)
    (answer : Result Audit.Error (Unit {0}) × Sink)
    → Reached (reported out disk n answer)
unfolding reported
reported-Reached out disk n (err e, sink) x h = (λ p. cc, λ p. cc)
reported-Reached out disk n (ok _, sink) x h = absurd cc

module _ {N : Type 0} (platform : Platform) (faults : Faults) (candidate : Text) where
  concluded-Reached :
      (out : Outcome) (disk : Disk) (n : N) (answer : Result Audit.Error (Unit {0}) × Sink)
      → Reached (concluded platform faults candidate out disk n answer)
  unfolding concluded
  concluded-Reached out disk n (err e, sink) x h = (λ p. cc, λ p. cc)
  concluded-Reached out disk n (ok _, sink) x h =
      (λ p. ground (arith, h, p), λ p. ground (arith, h, p))

  stored-Reached :
      (out : Outcome) (sink : Sink) (n : N) (answer : Result Ledger.Error (Unit {0}) × Disk)
      → Reached (stored platform faults candidate out sink n answer)
  unfolding stored
  stored-Reached out sink n (err e, disk) x h = (λ p. cc, λ p. cc)
  stored-Reached out sink n (ok _, disk) x h = concluded-Reached _ disk n _ x h

  approve_stage-Reached :
      (r : Resolution) (current : Ledger.Ledger) (out : Outcome) (disk : Disk) (sink : Sink) (n : N)
      → Reached (approve_stage platform faults candidate r current out disk sink n)
  unfolding approve_stage
  approve_stage-Reached r current out disk sink n x h =
      elim (Bool-cases (Ledger.approved current candidate)) [
        | inl e ↦ concluded-Reached _ disk n _ x (rw (e, approve_stage) at h)
        | inr e ↦ stored-Reached out sink n _ x (rw (e, approve_stage) at h)
      ]

  verdict_stage-Reached :
      (r : Resolution) (current : Ledger.Ledger) (verdict : Text) (out : Outcome) (disk : Disk)
      (sink : Sink) (n : N)
      → (verdict ≡ verdict_approve) ⊎ (verdict ≡ verdict_reject)
      → Reached (verdict_stage platform faults candidate r current verdict out disk sink n)
  unfolding verdict_stage
  verdict_stage-Reached r current verdict out disk sink n known x h =
      elim (Bool-cases (text_eq verdict verdict_reject)) [
        | inl e ↦ concluded-Reached out disk n _ x (rw (e, verdict_stage) at h)
        | inr e ↦ elim (Bool-cases (text_eq verdict verdict_approve)) [
          | inl g ↦
              approve_stage-Reached r current out disk sink n x (rw (e, g, verdict_stage) at h)
          | inr g ↦ absurd (
              ground (
                arith,
                e,
                g,
                known,
                text_eq_iff verdict verdict_reject,
                text_eq_iff verdict verdict_approve,
              ))
        ]
      ]

  evaluate_stage-Reached :
      (r : Resolution) (pkg : Package) (current : Ledger.Ledger) (out : Outcome) (disk : Disk)
      (sink : Sink) (n : N)
      → validate_policy pkg.policy ≡ ok tt
      → Reached (evaluate_stage platform faults candidate r pkg current out disk sink n)
  unfolding evaluate_stage
  evaluate_stage-Reached r pkg current out disk sink n valid x h =
      elim (Bool-cases (text_eq pkg.policy.kind kind_release_policy)) [
        | inr e ↦ reported-Reached _ disk n _ x (rw (e, evaluate_stage) at h)
        | inl e ↦ elim (Option-cases (policy_lookup pkg.policy candidate)) [
          | inl f ↦ reported-Reached _ disk n _ x (rw (e, f, evaluate_stage) at h)
          | inr (verdict, f) ↦
              let known =
                policy_lookup_verdict pkg.policy candidate verdict
                  (validate_policy-IsAccepted pkg.policy valid)
                  ((text_eq_iff pkg.policy.kind kind_release_policy).0 e) f in
              verdict_stage-Reached r current verdict _ disk sink n known x
                (rw (e, f, evaluate_stage) at h)
        ]
      ]

  pub policy_stage-Reached :
      (current : Ledger.Ledger) (out : Outcome) (disk : Disk) (sink : Sink) (n : N)
      → HasPolicy out
      → Reached (policy_stage platform faults candidate current out disk sink n)
  unfolding policy_stage
  policy_stage-Reached current out disk sink n has x h = elim (Option-cases out.release_policy) [
    | inl e ↦ (λ p. ground (arith, e, h, p), λ p. ground (arith, e, h, p))
    | inr (r, e) ↦
        let (pkg, f, valid) = has r e in
        evaluate_stage-Reached r pkg current (record out { client_result = build_ok }) disk sink n
          valid x (ground (arith, e, f, h))
  ]
