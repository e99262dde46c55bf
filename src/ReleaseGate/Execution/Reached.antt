-- ===== src/ReleaseGate/Execution/Reached.antt =====
-- The branches of `Execute` that the resolvers rule out.
use indexjack.Prelude.{
  List, [], ◌∷◌, none, some, Option, Option-cases, Result, Result-cases, ok, err, Text, text_eq,
  Bool-cases, ◌≡◌, ◌⊎◌, inl, inr, sym, ap, ok-injective, ◌∙◌, arith,
}
use mathlib.Core.Path.{subst}
use indexjack.Fixtures.{resolver_secure, resolver_combined_index}
use indexjack.BuildManifest.{Dependency}
use indexjack.PkgArchive.Loader.{parse-IsLoaded}
use indexjack.Vulnerable.{gate}
use indexjack.Resolver
use indexjack.Resolver.{Resolution, Attempt}
use indexjack.Resolver.Accepted.{resolve-IsAccepted}
use indexjack.CombinedIndex
use indexjack.CombinedIndex.{Reply, refused, attempted}
use indexjack.CombinedIndex.Loaded.{resolve-IsParsed}
use indexjack.Ledger
use indexjack.Ledger.{Disk}
use indexjack.Audit.{Sink, new_sink}
use indexjack.ReleaseGate.{
  Platform, Faults, Options, Error, nil_package, unvalidated_verdict, Outcome, World, Documents,
}
use indexjack.ReleaseGate.Execution.{
  noted, build, documents, secure, combined, entry_point, opening, scenario_stage, digest_stage,
  load_stage, execute,
}
use indexjack.ReleaseGate.Execution.Release.{execute-starts, IsRefusal}
use indexjack.ReleaseGate.Execution.Approval.{Reply-cases}
use indexjack.ReleaseGate.Execution.Stages.{
  Possible, Reached, HasPackage, HasPolicy, reported-Reached,
}
use indexjack.ReleaseGate.Execution.Stages.{policy_stage-Reached}

noted-cases :
    (dep : Dependency) (r : Resolution) (out : Outcome)
    → ((noted dep r out).release_policy ≡ some r)
      ⊎ ((noted dep r out).release_policy ≡ out.release_policy)
unfolding noted
noted-cases dep r out = ground arith

noted-HasPolicy :
    (dep : Dependency) (r : Resolution) (out : Outcome)
    → HasPackage r
    → HasPolicy out
    → HasPolicy (noted dep r out)
noted-HasPolicy dep r out fresh has x h = elim (noted-cases dep r out) [
  | inl e ↦
      let both : ◌≡◌ {A = Option Resolution} (some r) (some x) = sym e ∙ h in
      let same : r ≡ x = cc in rw same at fresh
  | inr e ↦ has x (sym e ∙ h)
]

-- A resolver whose successes bring a package.
abbrev Delivers : {N : Type 0} → (Dependency → N → Reply N) → Type 0
Delivers {N} resolve =
    (dep : Dependency) (n : N) (a : Attempt N)
    → resolve dep n ≡ attempted a
    → a.failure ≡ none
    → HasPackage a.resolution

module _ {N : Type 0} (platform : Platform) (faults : Faults) (opts : Options N) where
  build-Reached :
      (candidate : Text) (resolve : Dependency → N → Reply N) (deps : List Dependency)
      (current : Ledger.Ledger) (out : Outcome) (disk : Disk) (sink : Sink) (n : N)
      → Delivers resolve
      → HasPolicy out
      → Reached (build platform faults candidate resolve deps current out disk sink n)
  unfolding build
  build-Reached candidate resolve [] current out disk sink n delivers has x h =
      policy_stage-Reached platform faults candidate current out disk sink n has x h
  build-Reached candidate resolve (dep ∷ deps) current out disk sink n delivers has x h =
      elim (Reply-cases (resolve dep n)) [
        | inl (y, m, e) ↦ (λ p. ground (arith, e, h, p), λ p. ground (arith, e, h, p))
        | inr (a, e) ↦ elim (Option-cases a.failure) [
          | inl f ↦
              build-Reached candidate resolve deps current (noted dep a.resolution out) disk sink
                a.network delivers (noted-HasPolicy dep a.resolution out (delivers dep n a e f) has)
                x (rw (e, f, build) at h)
          | inr (y, f) ↦ reported-Reached _ disk a.network _ x (rw (e, f, build) at h)
        ]
      ]

  secure-Delivers : (d : Documents) → Delivers (secure platform faults opts d)
  unfolding secure
  secure-Delivers d dep n a e f =
      let cfg : Resolver.Config N = record { policy = d.policy; lock = d.lock; dial = opts.dial } in
      let same : Resolver.resolve platform.resolver cfg dep n ≡ a = cc in
      let (x, out, _, _) = resolve-IsAccepted platform.resolver cfg dep n (rw same f) in
      let read =
        parse-IsLoaded platform.resolver.reader x.delivered.raw x.delivered.pkg
          x.delivered.parsed in
      (
        x.delivered.pkg,
        sym (ap (λ (b : Attempt N). b.resolution.pkg) same)
            ∙ ap (λ (res : Resolution). res.pkg) out,
        read.valid_policy,
      )

  combined-Delivers : (d : Documents) → Delivers (combined platform faults opts d)
  unfolding combined
  combined-Delivers d dep n a e f =
      let cfg : CombinedIndex.Config N = record { policy = d.policy; dial = opts.dial } in
      let x = resolve-IsParsed platform.resolver cfg dep platform.environment n a e f in
      (
        x.pkg,
        x.delivered,
        (parse-IsLoaded platform.resolver.reader x.raw x.pkg x.parsed).valid_policy,
      )

  entry_point-Delivers :
      (d : Documents) (resolve : Dependency → N → Reply N)
      → entry_point platform faults opts d ≡ ok resolve
      → Delivers resolve
  unfolding entry_point
  entry_point-Delivers d resolve h =
      elim (Bool-cases (text_eq opts.scenario.resolver resolver_secure)) [
        | inl e ↦
            let same : secure platform faults opts d ≡ resolve =
              ok-injective (rw (e, entry_point) at h) in
            subst (λ (r : Dependency → N → Reply N). Delivers r) same (secure-Delivers d)
        | inr e ↦ elim (Bool-cases (text_eq opts.scenario.resolver resolver_combined_index)) [
          | inr f ↦ absurd (ground (arith, e, f, h))
          | inl f ↦ elim (Result-cases (gate platform.environment)) [
            | inr (x, g) ↦ absurd (ground (arith, e, f, g, h))
            | inl (_, g) ↦
                let same : combined platform faults opts d ≡ resolve =
                  ok-injective (rw (e, f, g, entry_point) at h) in
                subst (λ (r : Dependency → N → Reply N). Delivers r) same (combined-Delivers d)
          ]
        ]
      ]

  documents-Possible : (e : Error) → documents platform faults opts ≡ err e → Possible e
  unfolding documents
  documents-Possible e h = (λ p. ground (arith, h, p), λ p. ground (arith, h, p))

  entry_point-Possible :
      (d : Documents) (e : Error) → entry_point platform faults opts d ≡ err e → Possible e
  unfolding entry_point
  entry_point-Possible d e h = (λ p. ground (arith, h, p), λ p. ground (arith, h, p))

  scenario_stage-Reached :
      (current : Ledger.Ledger) (before : Text) (w : World N)
      → Reached (scenario_stage platform faults opts current before w)
  unfolding scenario_stage new_sink
  scenario_stage-Reached current before w x h =
      elim (Result-cases (documents platform faults opts)) [
        | inr (y, e) ↦ documents-Possible x (e ∙ cc)
        | inl (d, e) ↦ elim (Result-cases (entry_point platform faults opts d)) [
          | inr (y, f) ↦ entry_point-Possible d x (f ∙ cc)
          | inl (resolve, f) ↦
              build-Reached opts.scenario.candidate resolve d.manifest.dependencies current
                (opening platform faults opts before d) w.disk (new_sink opts.scenario.id w.files)
                w.network (entry_point-Delivers d resolve f) (λ r p. absurd cc) x
                (rw (e, f, scenario_stage) at h)
        ]
      ]

  digest_stage-Reached :
      (w : World N) (answer : Result Ledger.Error Ledger.Ledger × Disk)
      → Reached (digest_stage platform faults opts w answer)
  unfolding digest_stage
  digest_stage-Reached w (err e, disk) x h = (λ p. cc, λ p. cc)
  digest_stage-Reached w (ok current, disk) x h =
      elim (Result-cases (Ledger.digest platform.audit.sha256 faults.before disk)) [
        | inr (y, e) ↦ (λ p. ground (arith, e, h, p), λ p. ground (arith, e, h, p))
        | inl (before, e) ↦
            scenario_stage-Reached current before (record w { disk = disk }) x
              (rw (e, digest_stage) at h)
      ]

  refusal_lem : (y x : Error) → IsRefusal y → y ≡ x → Possible x
  refusal_lem y x (inl e) same = (λ p. cc, λ p. cc)
  refusal_lem y x (inr (r, e)) same = (λ p. cc, λ p. cc)

  -- No run of the release gate ends in the branch of an unvalidated verdict, or in the panic on a
  -- resolution without a package, under either resolver.
  pub execute-Reached :
      (w : World N) (x : Error)
      → (execute platform faults opts w).0 ≡ err x
      → ¬ (x ≡ nil_package) × ¬ (x ≡ unvalidated_verdict)
  unfolding load_stage
  execute-Reached w x h = elim (execute-starts platform faults opts w) [
    | inl (y, refusal, e) ↦ refusal_lem y x refusal (ground (arith, e, h))
    | inr e ↦ digest_stage-Reached w _ x (rw e at h)
  ]
