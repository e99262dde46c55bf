-- ===== src/PkgArchive/Building/RoundTrip.antt =====
-- `Build` and `Parse`: what is built is read back.
use indexjack.Prelude.{some, Option-cases, Result-cases, ok, Bytes, ◌≡◌, ◌∙◌, inl, inr, arith}
use indexjack.CanonicalJson.{unmarshal}
use indexjack.PkgArchive.{
  Manifest, Policy, entry, end_of_archive, Reader, manifest_entry, policy_entry, validate_manifest,
  validate_policy,
}
use indexjack.PkgArchive.Building.{Writer, header_of, archive, build}

-- What the two packages of the standard library promise each other, for the documents that are built:
-- an archive that tar has written is read as the entries written, and what json has encoded is
-- decoded as it was.
pub record AreInverse {T : Type 0} (w : Writer T) (r : Reader) (m : Manifest) (p : Policy)
    : Type 0 where
  pub entries :
      (manifest policy raw : Bytes)
      → w.encode_manifest m ≡ some manifest
      → w.encode_policy p ≡ some policy
      → archive w manifest policy ≡ some raw
      → r.listing raw
        ≡ entry
            (header_of manifest_entry manifest)
            (some manifest)
            (entry (header_of policy_entry policy) (some policy) end_of_archive)
  pub manifest :
      (body : Bytes) → w.encode_manifest m ≡ some body → unmarshal r.manifest_decoder body ≡ ok m
  pub policy :
      (body : Bytes) → w.encode_policy p ≡ some body → unmarshal r.policy_decoder body ≡ ok p

-- The steps of a build that succeeded.
pub record IsBuilt {T : Type 0} (w : Writer T) (m : Manifest) (p : Policy) (raw : Bytes)
    : Type 0 where
  pub valid_manifest : validate_manifest m ≡ ok tt
  pub valid_policy : validate_policy p ≡ ok tt
  pub manifest_body : Bytes
  pub policy_body : Bytes
  pub manifest_encoded : w.encode_manifest m ≡ some manifest_body
  pub policy_encoded : w.encode_policy p ≡ some policy_body
  pub written : archive w manifest_body policy_body ≡ some raw

pub build-IsBuilt :
    {T : Type 0} (w : Writer T) (m : Manifest) (p : Policy) (raw : Bytes)
    → build w m p ≡ ok raw
    → IsBuilt w m p raw
unfolding build
build-IsBuilt w m p raw h = elim (Result-cases (validate_manifest m)) [
  | inr (x, e) ↦ absurd (ground (arith, e, h))
  | inl (u, e) ↦ elim (Result-cases (validate_policy p)) [
    | inr (x, f) ↦ absurd (ground (arith, e, f, h))
    | inl (u, f) ↦ elim (Option-cases (w.encode_manifest m)) [
      | inl g ↦ absurd (ground (arith, e, f, g, h))
      | inr (mb, g) ↦ elim (Option-cases (w.encode_policy p)) [
        | inl k ↦ absurd (ground (arith, e, f, g, k, h))
        | inr (pb, k) ↦ elim (Option-cases (archive w mb pb)) [
          | inl a ↦ absurd (ground (arith, e, f, g, k, a, h))
          | inr (out, a) ↦ record {
            valid_manifest = e;
            valid_policy = f;
            manifest_body = mb;
            policy_body = pb;
            manifest_encoded = g;
            policy_encoded = k;
            written = a ∙ ground (arith, e, f, g, k, a, h);
          }
        ]
      ]
    ]
  ]
]
