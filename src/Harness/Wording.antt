-- ===== src/Harness/Wording.antt =====
-- internal/harness/harness.go and the packages it names: the fixed texts that a transcript shows. A
-- dash is three bytes of UTF-8.
use indexjack.Prelude.{[], ◌∷◌, ◌++◌, Text, codes}
use indexjack.Resolver
use indexjack.ReleaseGate
use indexjack.ReleaseGate.{Mutation}
use indexjack.Harness.{
  Outcome, pass, fail, Statement, failed_but_changed, failed_closed, untrusted_approval,
  rejected_but_changed, unsafe_not_released, approved_not_recorded, released_once, ready_rejected,
  no_verdict, Trust, bound, pooled, unstated, Verdict, not_reached, rejected, verified, unverified,
  Enforcement, enforced, unenforced,
}

abbrev pub em_dash : Text
em_dash = 226 ∷ 128 ∷ 148 ∷ []

abbrev pub arrow : Text
arrow = 226 ∷ 134 ∷ 146 ∷ []

abbrev pub result_text : Outcome → Text
result_text pass = codes "PASS"
result_text fail = codes "FAIL"

abbrev pub statement_text : Statement → Text
statement_text failed_but_changed = codes "the build failed but the release ledger changed"
statement_text failed_closed =
    codes "build failed closed; no package policy was read and no release was recorded"
statement_text untrusted_approval = codes "untrusted origin influenced release approval"
statement_text rejected_but_changed =
    codes "the candidate was rejected but the release ledger changed"
statement_text unsafe_not_released =
    codes "intended private artifact selected; unsafe candidate not released"
statement_text approved_not_recorded =
    codes "the candidate was approved but no release was recorded"
statement_text released_once =
    codes "intended private artifact selected; release-ready candidate released exactly once"
statement_text ready_rejected =
    codes "a release-ready candidate was rejected by the selected policy artifact"
statement_text no_verdict = codes "the run produced no policy verdict to reconcile"

abbrev pub trust_text : Trust → Text
trust_text bound = codes "bound to one source; no other source may answer and none is a fallback"
trust_text pooled =
    codes "none "
    ++ (em_dash ++ codes " every pooled source may answer; the order above is display only")
trust_text unstated = []

abbrev pub verdict_text : Verdict → Text
verdict_text not_reached = codes "not_reached"
verdict_text rejected = codes "rejected"
verdict_text verified = codes "verified"
verdict_text unverified = codes "unverified"

abbrev pub enforcement_text : Enforcement → Text
enforcement_text enforced = codes "exact source, version, size and digest"
enforcement_text unenforced = codes "none"

abbrev pub lifecycle_scripts : Text
lifecycle_scripts =
    codes "disabled "
    ++ (em_dash ++ codes " no lifecycle or install hook mechanism exists anywhere in this project")

abbrev pub mutation_text : Mutation → Text
mutation_text ReleaseGate.untouched = codes "none"
mutation_text ReleaseGate.approved = codes "approved"
mutation_text ReleaseGate.suppressed_duplicate = codes "suppressed-duplicate"

-- The constants `SelectionRule` of the two resolvers.
abbrev pub rule_text : Resolver.Rule → Text
rule_text Resolver.locked_version =
    codes "select the locked version from the exclusively bound source; "
    ++ codes "no other source, version, or byte sequence is acceptable"
rule_text Resolver.highest_version =
    codes "merge the compatible candidates offered by every pooled source and select the "
    ++ (codes "highest semantic version; ties are broken by the order the sources are listed in "
        ++ codes "the policy, then by source id")

-- What the resolvers record of the integrity of an artifact.
abbrev pub integrity_text : Resolver.Integrity → Text
integrity_text Resolver.unset = []
integrity_text Resolver.verified = codes "verified"
integrity_text Resolver.unverified = codes "unverified"
