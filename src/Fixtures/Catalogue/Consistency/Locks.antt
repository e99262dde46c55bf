-- ===== src/Fixtures/Catalogue/Consistency/Locks.antt =====
-- `ValidateConsistency`: the loop over the dependencies of a scenario.
use indexjack.Prelude.{
  Bool, true, Bool-cases, ◌&&◌, not, List, [], ◌∷◌, ok, >>=-eq-ok, >>-eq-ok, if-eq-ok, text_eq,
  text_eq_iff, any, Within, int_eq_iff, ◌≡◌, ◌⊎◌, inl, inr, refl, arith,
}
use indexjack.SourcePolicy
use indexjack.SourcePolicy.{Source, Policy, mode_exclusive}
use indexjack.BuildManifest.{Dependency}
use indexjack.LockFile
use indexjack.LockFile.{Lock, Record}
use indexjack.Fixtures.{Scenario, resolver_secure, resolver_combined_index}
use indexjack.Fixtures.Catalogue.{wrapped, unknown, ArtifactInfo}
use indexjack.Fixtures.Catalogue.Consistency.{
  is_pinned, check_resolver, check_decision, check_dependency, check_dependencies,
}
use indexjack.Fixtures.Catalogue.Published.{wrapped-eq-ok}

-- A lock record that the policy and the package sources agree with.
pub record IsAgreed (built : List ArtifactInfo) (p : Policy) (l : Lock) (dep : Dependency)
    : Type 0 where
  pub locked : Record
  pub found : LockFile.record_of l dep.alias ≡ ok locked
  pub name : locked.name ≡ dep.name
  pub decision : SourcePolicy.Decision
  pub resolved : SourcePolicy.resolve p dep.name ≡ ok decision
  pub bound : decision.mode ≡ mode_exclusive → decision.bound.id ≡ locked.source
  pub artifact : ArtifactInfo
  pub reproducible : Within artifact built
  pub pinned :
      (artifact.name ≡ locked.name)
      × (artifact.version ≡ locked.version)
      × (artifact.size ≡ locked.size)
      × (artifact.sha256 ≡ locked.sha256)

any-find :
    {A : Type 0} (p : A → Bool) (xs : List A)
    → any p xs ≡ true
    → (a : A) × Within a xs × (p a ≡ true)
unfolding any
any-find p [] h = cc
any-find p (x ∷ xs) h = elim (Bool-cases (p x)) [
  | inl e ↦ (x, inl refl, e)
  | inr e ↦ let (a, w, q) = any-find p xs (rw (e, any) at h) in (a, inr w, q)
]

pinned_iff :
    (r : Record) (a : ArtifactInfo)
    → is_pinned r a ≡ true
    → (a.name ≡ r.name) × (a.version ≡ r.version) × (a.size ≡ r.size) × (a.sha256 ≡ r.sha256)
pinned_iff r a h = ground (
  arith,
  h,
  text_eq_iff a.name r.name,
  text_eq_iff a.version r.version,
  int_eq_iff a.size r.size,
  text_eq_iff a.sha256 r.sha256,
)

pub check_resolver-inv :
    (s : Scenario)
    → check_resolver s ≡ ok tt
    → (s.resolver ≡ resolver_secure)
      ⊎ ((s.resolver ≡ resolver_combined_index) × (s.vulnerable ≡ true))
unfolding check_resolver
check_resolver-inv s h =
    ground (
      arith,
      text_eq_iff s.resolver resolver_secure,
      text_eq_iff s.resolver resolver_combined_index,
    )

check_decision-inv :
    (built : List ArtifactInfo) (r : Record) (d : SourcePolicy.Decision)
    → check_decision built r d ≡ ok tt
    → (d.mode ≡ mode_exclusive → d.bound.id ≡ r.source) × (any (is_pinned r) built ≡ true)
unfolding check_decision
check_decision-inv built r d h =
    let (a, h1) =
      if-eq-ok (text_eq d.mode mode_exclusive && not (text_eq d.bound.id r.source)) unknown _ h in
    let (b, h2) = if-eq-ok (not (any (is_pinned r) built)) unknown (ok tt) h1 in
    (
      λ m. ground (arith, a, m, text_eq_iff d.mode mode_exclusive, text_eq_iff d.bound.id r.source),
      ground (arith, b),
    )

check_dependency-IsAgreed :
    (built : List ArtifactInfo) (p : Policy) (l : Lock) (dep : Dependency)
    → check_dependency built p l dep ≡ ok tt
    → IsAgreed built p l dep
unfolding check_dependency
check_dependency-IsAgreed built p l dep h =
    let (r, e, h1) = >>=-eq-ok (wrapped _ (LockFile.record_of l dep.alias)) _ h in
    let (named, h2) = if-eq-ok (not (text_eq r.name dep.name)) unknown _ h1 in
    let (d, f, h3) = >>=-eq-ok (wrapped _ (SourcePolicy.resolve p dep.name)) _ h2 in
    let (bound, pinned) = check_decision-inv built r d h3 in
    let (a, w, q) = any-find (is_pinned r) built pinned in
    record {
      locked = r;
      found = wrapped-eq-ok _ (LockFile.record_of l dep.alias) r e;
      name = ground (arith, named, text_eq_iff r.name dep.name);
      decision = d;
      resolved = wrapped-eq-ok _ (SourcePolicy.resolve p dep.name) d f;
      bound = bound;
      artifact = a;
      reproducible = w;
      pinned = pinned_iff r a q;
    }

pub check_dependencies-IsAgreed :
    (built : List ArtifactInfo) (p : Policy) (l : Lock) (deps : List Dependency)
    → check_dependencies built p l deps ≡ ok tt
    → (d : Dependency) → Within d deps
    → IsAgreed built p l d
unfolding check_dependencies
check_dependencies-IsAgreed built p l [] h d w = elim w [ ]
check_dependencies-IsAgreed built p l (dep ∷ deps) h d w =
    let (first, rest) = >>-eq-ok (check_dependency built p l dep) _ h in
    elim w [
      | inl here ↦ rw here (check_dependency-IsAgreed built p l dep first)
      | inr there ↦ check_dependencies-IsAgreed built p l deps rest d there
    ]
