-- ===== src/Harness/Running/Judged.antt =====
-- internal/harness/harness.go: the verdict of `reconcile` on what the release gate hands over.
use indexjack.Prelude.{true, false, ok, Text, ◌≡◌, ◌⊎◌, ◌↔◌, inl, inr, arith}
use indexjack.PkgArchive.{verdict_approve, verdict_reject}
use indexjack.Fixtures.{known_unsafe}
use indexjack.ReleaseGate
use indexjack.ReleaseGate.{
  failed, build_ok, build_failed, untouched, approved, suppressed_duplicate,
}
use indexjack.ReleaseGate.Execution.{execute}
use indexjack.ReleaseGate.Execution.Answers.{IsReported}
use indexjack.ReleaseGate.Execution.Reports.{execute-IsReported}
use indexjack.ReleaseGate.Execution.Settled.{IsSettled, execute-IsSettled}
use indexjack.Harness.{pass}
use indexjack.Harness.Reconciling.{reconcile}
use indexjack.Harness.Reconciling.Passing.{
  Agrees, failed_closed, unsafe_rejected, ready_released, reconcile_iff,
}

-- What a run is expected to do, without a word on the ledger where nothing was approved.
pub data Expected (o : ReleaseGate.Outcome) : Type 0 where
  build_stopped : failed o ≡ true → Expected o
  unsafe_stopped :
      failed o ≡ false → o.classification ≡ known_unsafe → o.verdict ≡ verdict_reject → Expected o
  ready_passed :
      failed o ≡ false
      → ¬ (o.classification ≡ known_unsafe)
      → o.verdict ≡ verdict_approve
      → ¬ (o.ledger_before ≡ o.ledger_after) ⊎ (o.mutation ≡ suppressed_duplicate)
      → Expected o

settles :
    (o : ReleaseGate.Outcome)
    → IsSettled o
    → o.mutation ≡ untouched
    → o.ledger_before ≡ o.ledger_after
settles o (inl m) u = absurd cc
settles o (inr same) u = same

verdict_clash : (t : Text) → t ≡ verdict_approve → t ≡ verdict_reject → ⊥
verdict_clash t p q = cc

Agrees-Expected : (o : ReleaseGate.Outcome) → Agrees o → Expected o
Agrees-Expected o (failed_closed f same) = build_stopped f
Agrees-Expected o (unsafe_rejected f u r same) = unsafe_stopped f u r
Agrees-Expected o (ready_released f u a c) = ready_passed f u a c

-- A failed build and a rejection change nothing.
unchanged_when_failed :
    (o : ReleaseGate.Outcome) → IsReported o → failed o ≡ true → o.mutation ≡ untouched
unchanged_when_failed o (inl r) f = r.unchanged
unchanged_when_failed o (inr (inl d)) f = d.changed
unchanged_when_failed o (inr (inr (inl d))) f = absurd (ground (arith, d.client, f))
unchanged_when_failed o (inr (inr (inr d))) f = absurd (ground (arith, d.client, f))

unchanged_when_rejected :
    (o : ReleaseGate.Outcome) → IsReported o → o.verdict ≡ verdict_reject → o.mutation ≡ untouched
unchanged_when_rejected o (inl r) v = r.unchanged
unchanged_when_rejected o (inr (inl d)) v = d.changed
unchanged_when_rejected o (inr (inr (inl d))) v = absurd (verdict_clash o.verdict d.decided v)
unchanged_when_rejected o (inr (inr (inr d))) v = absurd (verdict_clash o.verdict d.decided v)

Expected-Agrees : (o : ReleaseGate.Outcome) → IsReported o → IsSettled o → Expected o → Agrees o
Expected-Agrees o reported settled (build_stopped f) =
    failed_closed f (settles o settled (unchanged_when_failed o reported f))
Expected-Agrees o reported settled (unsafe_stopped f u r) =
    unsafe_rejected f u r (settles o settled (unchanged_when_rejected o reported r))
Expected-Agrees o reported settled (ready_passed f u a c) = ready_released f u a c

-- The reconciliation of an outcome that the release gate has returned is PASS exactly where the
-- build has failed, or the candidate is known to be unsafe and was rejected, or the candidate is
-- not known to be unsafe, was approved, and the ledger's digest has changed or the approval was
-- suppressed as a duplicate.
pub executed-Expected :
    {N : Type 0} (platform : ReleaseGate.Platform) (faults : ReleaseGate.Faults)
    (opts : ReleaseGate.Options N) (w : ReleaseGate.World N) (o : ReleaseGate.Outcome)
    → (execute platform faults opts w).0 ≡ ok o
    → ((reconcile o).result ≡ pass) ↔ Expected o
executed-Expected platform faults opts w o h =
    let reported = execute-IsReported platform faults opts w o h in
    let settled = execute-IsSettled platform faults opts w o h in
    let (to, from) = reconcile_iff o in
    (λ x. Agrees-Expected o (to x), λ x. from (Expected-Agrees o reported settled x))
