-- ===== src/PkgArchive/Loader.antt =====
-- `Parse`: what the bytes of an accepted archive hold.
use indexjack.Prelude.{
  ◌≤◌, ltb, false, [], ok, >>=-eq-ok, >>-eq-ok, if-eq-ok, ok-injective, Bytes, length, ◌≡◌, ap, ◌∙◌,
  arith,
}
use indexjack.PkgArchive.{
  Reader, Package, archive_too_large, manifest_entry, policy_entry, max_archive_size, read_entries,
  body_of, decoded, validate_manifest, validate_policy, load, parse,
}
use indexjack.PkgArchive.Entries.{IsCanonical}
use indexjack.PkgArchive.Rounds.{two_entries}

-- What a package that `parse` returned was read from.
pub record IsLoaded (r : Reader) (raw : Bytes) (pkg : Package) : Type 0 where
  pub bounded : length raw ≤ max_archive_size
  pub manifest_body : Bytes
  pub policy_body : Bytes
  pub canonical : IsCanonical (r.listing raw) manifest_body policy_body
  pub manifest : decoded r.manifest_decoder manifest_body ≡ ok pkg.manifest
  pub policy : decoded r.policy_decoder policy_body ≡ ok pkg.policy
  pub valid_manifest : validate_manifest pkg.manifest ≡ ok tt
  pub valid_policy : validate_policy pkg.policy ≡ ok tt

load-IsLoaded :
    (r : Reader) (raw : Bytes) (pkg : Package)
    → length raw ≤ max_archive_size
    → load r raw ≡ ok pkg
    → IsLoaded r raw pkg
unfolding load
load-IsLoaded r raw pkg small h =
    let (bodies, e, h1) = >>=-eq-ok (read_entries 0 [] (r.listing raw)) _ h in
    let (mb, em, h2) = >>=-eq-ok (body_of manifest_entry bodies) _ h1 in
    let (pb, ep, h3) = >>=-eq-ok (body_of policy_entry bodies) _ h2 in
    let (m, dm, h4) = >>=-eq-ok (decoded r.manifest_decoder mb) _ h3 in
    let (p, dp, h5) = >>=-eq-ok (decoded r.policy_decoder pb) _ h4 in
    let (vm, h6) = >>-eq-ok (validate_manifest m) _ h5 in
    let (vp, h7) = >>-eq-ok (validate_policy p) _ h6 in
    record {
      bounded = small;
      manifest_body = mb;
      policy_body = pb;
      canonical = two_entries (r.listing raw) bodies mb pb e em ep;
      manifest = dm ∙ ground (arith, h7);
      policy = dp ∙ ground (arith, h7);
      valid_manifest = rw (← ap (λ (k : Package). k.manifest) (ok-injective h7)) vm;
      valid_policy = rw (← ap (λ (k : Package). k.policy) (ok-injective h7)) vp;
    }

parse-inv :
    (r : Reader) (raw : Bytes) (pkg : Package)
    → parse r raw ≡ ok pkg
    → (ltb max_archive_size (length raw) ≡ false) × (load r raw ≡ ok pkg)
unfolding parse
parse-inv r raw pkg h =
    if-eq-ok (ltb max_archive_size (length raw)) archive_too_large (load r raw) h

-- What `parse` accepts is at most 256 KiB long and holds exactly two entries, the manifest and then
-- the policy, each a regular read-only file of the declared size, at most 64 KiB, without links,
-- owners, times or extended records; the package is what the two bodies decode to, and both
-- documents pass their checks.
pub parse-IsLoaded :
    (r : Reader) (raw : Bytes) (pkg : Package) → parse r raw ≡ ok pkg → IsLoaded r raw pkg
parse-IsLoaded r raw pkg e =
    let (small, h) = parse-inv r raw pkg e in load-IsLoaded r raw pkg (ground (arith, small)) h
