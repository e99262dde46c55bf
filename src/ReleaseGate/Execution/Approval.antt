-- ===== src/ReleaseGate/Execution/Approval.antt =====
-- internal/releasegate/releasegate.go: what the stages of a run do to the ledger file.
use indexjack.Prelude.{
  false, List, [], ◌∷◌, some, Option-cases, Result, Result-cases, ok, err, Text, Bytes, text_eq,
  text_eq_iff, Bool-cases, ◌≡◌, ◌⊎◌, inl, inr, refl, ap, ◌∙◌, arith,
}
use indexjack.BuildManifest.{Dependency}
use indexjack.PkgArchive.{
  Package, policy_lookup, kind_release_policy, verdict_approve, verdict_reject,
}
use indexjack.Vulnerable.{Refusal}
use indexjack.Resolver.{Resolution, Attempt}
use indexjack.CombinedIndex.{Reply, refused, attempted}
use indexjack.Ledger
use indexjack.Ledger.{Disk}
use indexjack.Ledger.Atomic.{save-IsAtomic}
use indexjack.Audit
use indexjack.Audit.{Sink, new_sink}
use indexjack.ReleaseGate.{Platform, Faults, Outcome, reported}
use indexjack.ReleaseGate.Execution.{
  appended, concluded, stored, approve_stage, verdict_stage, evaluate_stage, policy_stage, build,
}

-- An approval that permits a new row: the release policy names the candidate with APPROVE, the ledger
-- has no row of it yet, and `body` is the ledger with that row.
pub record IsApproval (codec : Ledger.Codec) (candidate : Text) (current : Ledger.Ledger)
    (body : Bytes) : Type 0 where
  pub resolution : Resolution
  pub pkg : Package
  pub delivered : resolution.pkg ≡ some pkg
  pub kind : pkg.policy.kind ≡ kind_release_policy
  pub verdict : policy_lookup pkg.policy candidate ≡ some verdict_approve
  pub unreleased : Ledger.approved current candidate ≡ false
  pub encoded : Ledger.bytes codec (appended candidate resolution current) ≡ ok body

pub Reply-cases :
    {N : Type 0} (r : Reply N)
    → ((x : Refusal) × (n : N) × (r ≡ refused x n)) ⊎ ((a : Attempt N) × (r ≡ attempted a))
Reply-cases (refused x n) = inl (x, n, refl)
Reply-cases (attempted a) = inr (a, refl)

-- Where a stage leaves the ledger file.
abbrev pub Released : Ledger.Codec → Text → Ledger.Ledger → Disk → Disk → Type 0
Released codec candidate current disk final =
    (final.ledger ≡ disk.ledger)
    ⊎ ((body : Bytes) × IsApproval codec candidate current body × (final.ledger ≡ some body))

reported_disk :
    {N : Type 0} (out : Outcome) (disk : Disk) (n : N)
    (answer : Result Audit.Error (Unit {0}) × Sink)
    → (reported out disk n answer).1.disk ≡ disk
unfolding reported
reported_disk out disk n (err e, sink) = refl
reported_disk out disk n (ok _, sink) = refl

save-Released :
    (platform : Platform) (faults : Faults) (candidate : Text) (r : Resolution) (pkg : Package)
    (current : Ledger.Ledger) (disk : Disk)
    → r.pkg ≡ some pkg
    → pkg.policy.kind ≡ kind_release_policy
    → policy_lookup pkg.policy candidate ≡ some verdict_approve
    → Ledger.approved current candidate ≡ false
    → Released platform.codec candidate current disk
        (Ledger.save platform.codec faults.save (appended candidate r current) disk).1
save-Released platform faults candidate r pkg current disk delivered kind verdict new =
    let l = appended candidate r current in
    let atomic = save-IsAtomic platform.codec l faults.save disk in
    elim (Result-cases (Ledger.save platform.codec faults.save l disk).0) [
      | inl (_, e) ↦
          let (body, encoded, put) = atomic.succeeds e in
          inr (
            body,
            record {
              resolution = r;
              pkg = pkg;
              delivered = delivered;
              kind = kind;
              verdict = verdict;
              unreleased = new;
              encoded = encoded;
            },
            put,
          )
      | inr (x, e) ↦ inl (atomic.fails x e)
    ]

module _ {N : Type 0} (platform : Platform) (faults : Faults) (candidate : Text) where
  concluded_disk :
      (out : Outcome) (disk : Disk) (n : N) (answer : Result Audit.Error (Unit {0}) × Sink)
      → (concluded platform faults candidate out disk n answer).1.disk ≡ disk
  unfolding concluded
  concluded_disk out disk n (err e, sink) = refl
  concluded_disk out disk n (ok _, sink) = ground arith

  stored_disk :
      (out : Outcome) (sink : Sink) (n : N) (answer : Result Ledger.Error (Unit {0}) × Disk)
      → (stored platform faults candidate out sink n answer).1.disk ≡ answer.1
  unfolding stored
  stored_disk out sink n (err e, disk) = refl
  stored_disk out sink n (ok _, disk) = concluded_disk _ disk n _

  approve_stage-Released :
      (r : Resolution) (pkg : Package) (current : Ledger.Ledger) (out : Outcome) (disk : Disk)
      (sink : Sink) (n : N)
      → r.pkg ≡ some pkg
      → pkg.policy.kind ≡ kind_release_policy
      → policy_lookup pkg.policy candidate ≡ some verdict_approve
      → Released platform.codec candidate current disk
          (approve_stage platform faults candidate r current out disk sink n).1.disk
  unfolding approve_stage
  approve_stage-Released r pkg current out disk sink n delivered kind verdict =
      elim (Bool-cases (Ledger.approved current candidate)) [
        | inl e ↦
            rw (e, approve_stage) (inl (ap (λ (d : Disk). d.ledger) (concluded_disk _ disk n _)))
        | inr e ↦
            rw
              (
                e,
                approve_stage,
                stored_disk out sink n
                    (Ledger.save platform.codec faults.save (appended candidate r current) disk),
              )
              (save-Released platform faults candidate r pkg current disk delivered kind verdict e)
      ]

  verdict_stage-Released :
      (r : Resolution) (pkg : Package) (current : Ledger.Ledger) (verdict : Text) (out : Outcome)
      (disk : Disk) (sink : Sink) (n : N)
      → r.pkg ≡ some pkg
      → pkg.policy.kind ≡ kind_release_policy
      → policy_lookup pkg.policy candidate ≡ some verdict
      → Released platform.codec candidate current disk
          (verdict_stage platform faults candidate r current verdict out disk sink n).1.disk
  unfolding verdict_stage
  verdict_stage-Released r pkg current verdict out disk sink n delivered kind found =
      elim (Bool-cases (text_eq verdict verdict_reject)) [
        | inl e ↦
            rw (e, verdict_stage) (inl (ap (λ (d : Disk). d.ledger) (concluded_disk _ disk n _)))
        | inr e ↦ elim (Bool-cases (text_eq verdict verdict_approve)) [
          | inr f ↦ rw (e, f, verdict_stage) (inl refl)
          | inl f ↦
              rw (e, f, verdict_stage)
                (approve_stage-Released r pkg current out disk sink n delivered kind
                  (found ∙ ap some ((text_eq_iff verdict verdict_approve).0 f)))
        ]
      ]

  evaluate_stage-Released :
      (r : Resolution) (pkg : Package) (current : Ledger.Ledger) (out : Outcome) (disk : Disk)
      (sink : Sink) (n : N)
      → r.pkg ≡ some pkg
      → Released platform.codec candidate current disk
          (evaluate_stage platform faults candidate r pkg current out disk sink n).1.disk
  unfolding evaluate_stage
  evaluate_stage-Released r pkg current out disk sink n delivered =
      elim (Bool-cases (text_eq pkg.policy.kind kind_release_policy)) [
        | inr e ↦
            rw (e, evaluate_stage) (inl (ap (λ (d : Disk). d.ledger) (reported_disk _ disk n _)))
        | inl e ↦ elim (Option-cases (policy_lookup pkg.policy candidate)) [
          | inl f ↦
              rw (e, f, evaluate_stage)
                (inl (ap (λ (d : Disk). d.ledger) (reported_disk _ disk n _)))
          | inr (verdict, f) ↦
              rw (e, f, evaluate_stage)
                (verdict_stage-Released r pkg current verdict _ disk sink n delivered
                  ((text_eq_iff pkg.policy.kind kind_release_policy).0 e) f)
        ]
      ]

  policy_stage-Released :
      (current : Ledger.Ledger) (out : Outcome) (disk : Disk) (sink : Sink) (n : N)
      → Released platform.codec candidate current disk
          (policy_stage platform faults candidate current out disk sink n).1.disk
  unfolding policy_stage
  policy_stage-Released current out disk sink n = elim (Option-cases out.release_policy) [
    | inl e ↦ rw (e, policy_stage) (inl refl)
    | inr (r, e) ↦ elim (Option-cases r.pkg) [
      | inl f ↦ rw (e, f, policy_stage) (inl refl)
      | inr (pkg, f) ↦
          rw (e, f, policy_stage) (evaluate_stage-Released r pkg current _ disk sink n f)
    ]
  ]

  pub build-Released :
      (resolve : Dependency → N → Reply N) (deps : List Dependency) (current : Ledger.Ledger)
      (out : Outcome) (disk : Disk) (sink : Sink) (n : N)
      → Released platform.codec candidate current disk
          (build platform faults candidate resolve deps current out disk sink n).1.disk
  unfolding build
  build-Released resolve [] current out disk sink n = policy_stage-Released current out disk sink n
  build-Released resolve (dep ∷ deps) current out disk sink n = elim (Reply-cases (resolve dep n)) [
    | inl (r, m, e) ↦ rw (e, build) (inl refl)
    | inr (a, e) ↦ elim (Option-cases a.failure) [
      | inl f ↦ rw (e, f, build) (build-Released resolve deps current _ disk sink a.network)
      | inr (x, f) ↦
          rw (e, f, build) (inl (ap (λ (d : Disk). d.ledger) (reported_disk _ disk a.network _)))
    ]
  ]
