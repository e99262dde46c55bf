-- ===== src/Harness/Reconciling.antt =====
-- internal/harness/harness.go: the function `reconcile`.
pub mod Passing
use indexjack.Prelude.{if◌then◌else◌, Bool, ◌&&◌, not, [], Option, none, some, Text, text_eq}
use indexjack.PkgArchive.{verdict_approve, verdict_reject}
use indexjack.Fixtures.{known_unsafe}
use indexjack.ReleaseGate
use indexjack.ReleaseGate.{failed, Mutation, untouched, approved, suppressed_duplicate}
use indexjack.Harness.{
  Reconciliation, pass, fail, Statement, failed_but_changed, failed_closed, untrusted_approval,
  rejected_but_changed, unsafe_not_released, approved_not_recorded, released_once, ready_rejected,
  no_verdict,
}

-- The origin and the digest of the package that decided.
abbrev pub origin_of : ReleaseGate.Outcome → Text
origin_of o = elim o.release_policy [ none ↦ [] | some r ↦ r.selected.source ]

abbrev pub digest_of : ReleaseGate.Outcome → Text
digest_of o = elim o.release_policy [ none ↦ [] | some r ↦ r.digest ]

abbrev pub is_changed : ReleaseGate.Outcome → Bool
is_changed o = not (text_eq o.ledger_before o.ledger_after)

abbrev pub is_suppressed : Mutation → Bool
is_suppressed suppressed_duplicate = Bool.true
is_suppressed approved = Bool.false
is_suppressed untouched = Bool.false

abbrev pub failing : Statement → ReleaseGate.Outcome → Reconciliation
failing s o = record { result = fail; statement = s; origin = origin_of o; digest = digest_of o }

abbrev pub passing : Statement → ReleaseGate.Outcome → Reconciliation
passing s o = record { result = pass; statement = s; origin = origin_of o; digest = digest_of o }

-- The switch over the verdict and what the gate knew.
pub compared : Bool → ReleaseGate.Outcome → Reconciliation
compared unsafe o =
    if text_eq o.verdict verdict_approve && unsafe
    then failing untrusted_approval o
    else if text_eq o.verdict verdict_reject && unsafe
    then (if is_changed o then failing rejected_but_changed o else passing unsafe_not_released o)
    else if text_eq o.verdict verdict_approve && not unsafe
    then (if not (is_changed o) && not (is_suppressed o.mutation)
        then failing approved_not_recorded o
        else passing released_once o)
    else if text_eq o.verdict verdict_reject && not unsafe
    then failing ready_rejected o
    else failing no_verdict o

unfoldable pub reconcile : ReleaseGate.Outcome → Reconciliation
unfolding compared
reconcile o =
    if failed o
    then (if is_changed o
        then failing failed_but_changed o
        else record { result = pass; statement = failed_closed; origin = []; digest = [] })
    else compared (text_eq o.classification known_unsafe) o
