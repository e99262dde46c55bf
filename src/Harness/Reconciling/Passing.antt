-- ===== src/Harness/Reconciling/Passing.antt =====
-- Which runs a reconciliation passes.
use indexjack.Prelude.{
  Bool, true, false, Bool-cases, text_eq, text_eq_iff, ◌≡◌, ◌⊎◌, ◌↔◌, inl, inr, refl, arith,
}
use indexjack.PkgArchive.{verdict_approve, verdict_reject}
use indexjack.Fixtures.{known_unsafe}
use indexjack.ReleaseGate
use indexjack.ReleaseGate.{failed, Mutation, untouched, approved, suppressed_duplicate}
use indexjack.Harness.{pass}
use indexjack.Harness.Reconciling.{is_changed, is_suppressed, compared, reconcile}

-- What the gate's own record, the verdict and the ledger say, where they agree.
pub data Agrees (o : ReleaseGate.Outcome) : Type 0 where
  failed_closed : failed o ≡ true → o.ledger_before ≡ o.ledger_after → Agrees o
  unsafe_rejected :
      failed o ≡ false
      → o.classification ≡ known_unsafe
      → o.verdict ≡ verdict_reject
      → o.ledger_before ≡ o.ledger_after
      → Agrees o
  ready_released :
      failed o ≡ false
      → ¬ (o.classification ≡ known_unsafe)
      → o.verdict ≡ verdict_approve
      → ¬ (o.ledger_before ≡ o.ledger_after) ⊎ (o.mutation ≡ suppressed_duplicate)
      → Agrees o

changed_iff :
    (o : ReleaseGate.Outcome) → (is_changed o ≡ false) ↔ (o.ledger_before ≡ o.ledger_after)
changed_iff o = ground (arith, text_eq_iff o.ledger_before o.ledger_after)

suppressed_iff : (m : Mutation) → (is_suppressed m ≡ true) ↔ (m ≡ suppressed_duplicate)
suppressed_iff untouched = ground arith
suppressed_iff approved = ground arith
suppressed_iff suppressed_duplicate = ground arith

verdicts_differ : text_eq verdict_approve verdict_reject ≡ false
unfolding text_eq
verdicts_differ = refl

-- The tests of the switch that lead to a pass.
abbrev Passed : Bool → ReleaseGate.Outcome → Type 0
Passed true o =
    (text_eq o.verdict verdict_reject ≡ true)
    × (text_eq o.verdict verdict_approve ≡ false)
    × (is_changed o ≡ false)
Passed false o =
    (text_eq o.verdict verdict_approve ≡ true)
    × ((is_changed o ≡ true) ⊎ (is_suppressed o.mutation ≡ true))

compared-Passed : (u : Bool) (o : ReleaseGate.Outcome) → (compared u o).result ≡ pass → Passed u o
unfolding compared
compared-Passed true o h = elim (Bool-cases (text_eq o.verdict verdict_approve)) [
  | inl a ↦ absurd (ground (arith, a, h))
  | inr a ↦ elim (Bool-cases (text_eq o.verdict verdict_reject)) [
    | inr r ↦ absurd (ground (arith, a, r, h))
    | inl r ↦ (r, a, ground (arith, a, r, h))
  ]
]
compared-Passed false o h = elim (Bool-cases (text_eq o.verdict verdict_approve)) [
  | inr a ↦ absurd (ground (arith, a, h))
  | inl a ↦ elim (Bool-cases (is_changed o)) [
    | inl c ↦ (a, inl c)
    | inr c ↦ (a, inr (ground (arith, a, c, h)))
  ]
]

Passed-compared : (u : Bool) (o : ReleaseGate.Outcome) → Passed u o → (compared u o).result ≡ pass
unfolding compared
Passed-compared true o h = ground (arith, h)
Passed-compared false o h = ground (arith, h)

reject-is-not-approve :
    (o : ReleaseGate.Outcome)
    → o.verdict ≡ verdict_reject
    → text_eq o.verdict verdict_approve ≡ false
unfolding text_eq
reject-is-not-approve o h = rw h refl

-- The two halves of `reconcile`.
reconcile_failed :
    (o : ReleaseGate.Outcome)
    → failed o ≡ true
    → (((reconcile o).result ≡ pass) ↔ (is_changed o ≡ false))
unfolding reconcile
reconcile_failed o f = ground (arith, f)

reconcile_ran :
    (o : ReleaseGate.Outcome)
    → failed o ≡ false
    → reconcile o ≡ compared (text_eq o.classification known_unsafe) o
unfolding reconcile
reconcile_ran o f = ground (arith, f)

Passed-Agrees :
    (o : ReleaseGate.Outcome) (u : Bool)
    → failed o ≡ false
    → text_eq o.classification known_unsafe ≡ u
    → Passed u o
    → Agrees o
Passed-Agrees o true f u (r, _, c) =
    unsafe_rejected f ((text_eq_iff o.classification known_unsafe).0 u)
      ((text_eq_iff o.verdict verdict_reject).0 r) ((changed_iff o).0 c)
Passed-Agrees o false f u (a, c) =
    ready_released f (λ same. cc (u, (text_eq_iff o.classification known_unsafe).1 same))
      ((text_eq_iff o.verdict verdict_approve).0 a)
      (elim c [
        | inl x ↦ inl (λ same. cc (x, (changed_iff o).1 same))
        | inr x ↦ inr ((suppressed_iff o.mutation).0 x)
      ])

not-changed : (o : ReleaseGate.Outcome) → ¬ (o.ledger_before ≡ o.ledger_after) → is_changed o ≡ true
not-changed o h = ground (arith, text_eq_iff o.ledger_before o.ledger_after, h)

Agrees-passes : (o : ReleaseGate.Outcome) → Agrees o → (reconcile o).result ≡ pass
Agrees-passes o (failed_closed f same) = (reconcile_failed o f).1 ((changed_iff o).1 same)
Agrees-passes o (unsafe_rejected f unsafe r same) =
    rw (reconcile_ran o f, (text_eq_iff o.classification known_unsafe).1 unsafe)
      (Passed-compared true o (
        (text_eq_iff o.verdict verdict_reject).1 r,
        reject-is-not-approve o r,
        (changed_iff o).1 same,
      ))
Agrees-passes o (ready_released f ready a c) =
    let known : text_eq o.classification known_unsafe ≡ false =
      ground (arith, text_eq_iff o.classification known_unsafe, ready) in
    rw (reconcile_ran o f, known)
      (Passed-compared false o (
        (text_eq_iff o.verdict verdict_approve).1 a,
        elim c [ inl x ↦ inl (not-changed o x) | inr x ↦ inr ((suppressed_iff o.mutation).1 x) ],
      ))

-- The reconciliation of any outcome at all is PASS exactly where the build has failed and the
-- ledger's digest is the same before and after, or the candidate is known to be unsafe, was
-- rejected and the digests are the same, or the candidate is not known to be unsafe, was approved,
-- and the digests differ or the approval was suppressed as a duplicate.
pub reconcile_iff : (o : ReleaseGate.Outcome) → ((reconcile o).result ≡ pass) ↔ Agrees o
reconcile_iff o = (
  λ h. elim (Bool-cases (failed o)) [
    | inl f ↦ failed_closed f ((changed_iff o).0 ((reconcile_failed o f).0 h))
    | inr f ↦
        let u = text_eq o.classification known_unsafe in
        Passed-Agrees o u f refl (compared-Passed u o (rw (reconcile_ran o f) at h))
  ],
  Agrees-passes o,
)
