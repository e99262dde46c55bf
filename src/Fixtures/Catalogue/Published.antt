-- ===== src/Fixtures/Catalogue/Published.antt =====
-- What a registry publishes is what the artifacts declare.
use indexjack.Prelude.{
  not, ◌||◌, ◌&&◌, List, [], ◌∷◌, Result, ok, err, >>=-eq-ok, if-eq-ok, ok-injective, Text, text_eq,
  text_eq_iff, Within, ◌≡◌, ◌⊎◌, inl, inr, ◌∙◌, arith,
}
use indexjack.SourcePolicy.{role_private, role_public}
use indexjack.PkgArchive
use indexjack.Registry.{Artifact, Package, FixtureSet}
use indexjack.Registry.Sorting.{sort_set}
use indexjack.Registry.Sorting.Ascending.{sort_set-IsAscending, sort_set-keeps}
use indexjack.Fixtures.Catalogue.{
  Catalogue, Error, wrapped, unknown, VersionRef, PackageRef, RegistryDoc, build_package,
  published_version, published_versions, published_packages, registry_document, filled_set,
  registry_format, version_error, registry_set,
}

-- What is wrapped without an error was without one.
pub wrapped-eq-ok :
    {E A : Type 0} (f : E → Error) (r : Result E A) (a : A) → wrapped f r ≡ ok a → r ≡ ok a
wrapped-eq-ok f (ok x) a h = cc
wrapped-eq-ok f (err e) a h = cc

module _ {T : Type 0} (cat : Catalogue T) where
  -- An artifact that a package source builds, with the name and version that its manifest declares.
  pub record IsDeclared (label : Text) (a : Artifact) : Type 0 where
    pub package_dir : Text
    pub manifest : PkgArchive.Manifest
    pub built : build_package cat package_dir ≡ ok (a.bytes, manifest)
    pub name : manifest.name ≡ label
    pub version : manifest.version ≡ a.version

  published_version-IsDeclared :
      (name : Text) (ref : VersionRef) (a : Artifact)
      → published_version cat name ref ≡ ok a
      → IsDeclared name a
  unfolding published_version
  published_version-IsDeclared name ref a h =
      let ((raw, m), e, h1) = >>=-eq-ok (build_package cat ref.package_dir) _ h in
      let (same, h2) =
        if-eq-ok (not (text_eq m.name name) || not (text_eq m.version ref.version)) unknown _ h1 in
      let is : record { version = ref.version; bytes = raw } ≡ a = ok-injective h2 in
      rw (← is) (record {
        package_dir = ref.package_dir;
        manifest = m;
        built = e;
        name = ground (arith, same, text_eq_iff m.name name);
        version = ground (arith, same, text_eq_iff m.version ref.version);
      })

  published_versions-IsDeclared :
      (name : Text) (refs : List VersionRef) (vs : List Artifact)
      → published_versions cat name refs ≡ ok vs
      → (a : Artifact) → Within a vs
      → IsDeclared name a
  unfolding published_versions
  published_versions-IsDeclared name [] vs h a w =
      let e : [] ≡ vs = ok-injective h in elim (rw (← e) at w) [ ]
  published_versions-IsDeclared name (ref ∷ refs) vs h a w =
      let (x, e, h1) = >>=-eq-ok (published_version cat name ref) _ h in
      let (rest, f, h2) = >>=-eq-ok (published_versions cat name refs) _ h1 in
      let is : x ∷ rest ≡ vs = ok-injective h2 in
      let v : Within a (x ∷ rest) = rw (← is) at w in
      elim v [
        | inl here ↦ rw here (published_version-IsDeclared name ref x e)
        | inr there ↦ published_versions-IsDeclared name refs rest f a there
      ]

  published_packages-IsDeclared :
      (refs : List PackageRef) (ps : List Package)
      → published_packages cat refs ≡ ok ps
      → (p : Package) → Within p ps
      → (a : Artifact) → Within a p.versions
      → IsDeclared p.name a
  unfolding published_packages
  published_packages-IsDeclared [] ps h p w =
      let e : [] ≡ ps = ok-injective h in elim (rw (← e) at w) [ ]
  published_packages-IsDeclared (ref ∷ refs) ps h p w =
      let (vs, e, h1) = >>=-eq-ok (published_versions cat ref.name ref.versions) _ h in
      let (rest, f, h2) = >>=-eq-ok (published_packages cat refs) _ h1 in
      let is : record { name = ref.name; versions = vs } ∷ rest ≡ ps = ok-injective h2 in
      let v : Within p (record { name = ref.name; versions = vs } ∷ rest) = rw (← is) at w in
      elim v [
        | inl here ↦ rw here (published_versions-IsDeclared ref.name ref.versions vs e)
        | inr there ↦ published_packages-IsDeclared refs rest f p there
      ]

  set_of : RegistryDoc → List Package → FixtureSet
  set_of doc ps = record {
    id = doc.id;
    role = doc.role;
    revision = doc.revision;
    vulnerable = doc.vulnerable;
    packages = ps;
  }

  filled_set_head :
      (doc : RegistryDoc) (set : FixtureSet)
      → filled_set cat doc ≡ ok set
      → (set.id ≡ doc.id) × (set.role ≡ doc.role)
  unfolding filled_set set_of
  filled_set_head doc set h =
      let (ps, e, h1) = >>=-eq-ok (published_packages cat doc.packages) _ h in
      let h2 = wrapped-eq-ok version_error (sort_set (set_of doc ps)) set h1 in
      let (i, r, _, _) = sort_set-keeps (set_of doc ps) set h2 in (i, r)

  filled_set-IsDeclared :
      (doc : RegistryDoc) (set : FixtureSet)
      → filled_set cat doc ≡ ok set
      → (p : Package) → Within p set.packages
      → (a : Artifact) → Within a p.versions
      → IsDeclared p.name a
  unfolding filled_set set_of
  filled_set-IsDeclared doc set h p w a v =
      let (ps, e, h1) = >>=-eq-ok (published_packages cat doc.packages) _ h in
      let (t, f) =
        sort_set-IsAscending (set_of doc ps) set
          (wrapped-eq-ok version_error (sort_set (set_of doc ps)) set h1) in
      let (q, u, is) = f p w in
      let d = published_packages-IsDeclared doc.packages ps e q u a ((is.same a).0 v) in
      rw is.name d

  -- The contents of a registry that the fixtures build have the id that was asked for and a known
  -- role, and each artifact in them is built from a package source whose manifest declares the
  -- published name and version.
  pub registry_set-IsDeclared :
      (id : Text) (set : FixtureSet)
      → registry_set cat id ≡ ok set
      → (set.id ≡ id)
        × ((set.role ≡ role_private) ⊎ (set.role ≡ role_public))
        × ((p : Package)
            → Within p set.packages
            → (a : Artifact) → Within a p.versions
            → IsDeclared p.name a)
  unfolding registry_set
  registry_set-IsDeclared id set h =
      let (doc, e, h1) = >>=-eq-ok (registry_document cat id) _ h in
      let (f, h2) = if-eq-ok (not (text_eq doc.format registry_format)) unknown _ h1 in
      let (named, h3) = if-eq-ok (not (text_eq doc.id id)) unknown _ h2 in
      let (known, h4) =
        if-eq-ok (not (text_eq doc.role role_private) && not (text_eq doc.role role_public)) unknown
          _ h3 in
      let (i, r) = filled_set_head doc set h4 in
      (
        i ∙ ground (arith, named, text_eq_iff doc.id id),
        ground
            (arith, r, known, text_eq_iff doc.role role_private, text_eq_iff doc.role role_public),
        filled_set-IsDeclared doc set h4,
      )
