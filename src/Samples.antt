-- ===== src/Samples.antt =====
-- A small world for tests: two registries, a project with one dependency, and its lock.
pub mod Documents
pub mod Policies
pub mod Versions
pub mod Resolutions
pub mod Releases
pub mod Registries
pub mod Clients
pub mod Catalogues
pub mod Harnesses
pub mod Renderings
pub mod Audits
use indexjack.Prelude.{
  Bool, true, List, [], ◌∷◌, Option, none, some, Result, ok, err, Text, Bytes, codes, text_eq,
  if◌then◌else◌, ℕ, suc, pos,
}
use indexjack.CanonicalJson.{Decoder, other}
use indexjack.SourcePolicy
use indexjack.SourcePolicy.{
  Policy, Source, Mapping, role_private, role_public, mode_exclusive, mode_combined,
}
use indexjack.LockFile
use indexjack.LockFile.{Lock, Record}
use indexjack.BuildManifest.{Dependency}
use indexjack.PkgArchive
use indexjack.PkgArchive.{
  Header, Listing, entry, end_of_archive, Reader, manifest_entry, policy_entry, policy_format,
  kind_release_policy, verdict_approve,
}
use indexjack.PkgArchive.Identity.{manifest_format}
use indexjack.Registry.{FetchError, Metadata, VersionInfo, unavailable}
use indexjack.Resolver.{Fetcher, Config, Platform}
use indexjack.CombinedIndex
use indexjack.Vulnerable.{Environment, acknowledgement_value, profile_value}

abbrev pub corporate : Source
corporate = record { id = codes "corp"; role = role_private; url = codes "http://corp" }

abbrev pub mirror_source : Source
mirror_source = record { id = codes "pub"; role = role_public; url = codes "http://pub" }

abbrev pub policy_name : Text
policy_name = codes "acme-policy"

abbrev pub exclusive_mapping : Mapping
exclusive_mapping = record {
  pattern = codes "acme-*";
  mode = mode_exclusive;
  source = codes "corp";
  sources = [];
}

abbrev pub pooled_mapping : Mapping
pooled_mapping = record {
  pattern = codes "acme-*";
  mode = mode_combined;
  source = [];
  sources = codes "corp" ∷ codes "pub" ∷ [];
}

abbrev pub exclusive_policy : Policy
exclusive_policy = record {
  format = SourcePolicy.format;
  sources = corporate ∷ mirror_source ∷ [];
  mappings = exclusive_mapping ∷ [];
}

-- The sources in the other order.
abbrev pub reversed_policy : Policy
reversed_policy = record exclusive_policy { sources = mirror_source ∷ corporate ∷ [] }

abbrev pub pooled_policy : Policy
pooled_policy = record exclusive_policy { mappings = pooled_mapping ∷ [] }

abbrev pub dependency : Dependency
dependency = record { alias = codes "release-policy"; name = policy_name; range = codes "^1.2.0" }

abbrev pub artifact_bytes : Bytes
artifact_bytes = 7 ∷ []

abbrev pub locked : Record
locked = record {
  alias = codes "release-policy";
  name = policy_name;
  version = codes "1.4.0";
  source = codes "corp";
  size = pos 1;
  sha256 = codes "sha256:07";
  artifact_format = manifest_format;
}

abbrev pub lock_file : Lock
lock_file = record { format = LockFile.format; records = locked ∷ [] }

abbrev pub offer_of : Text → VersionInfo
offer_of v = record { version = v; size = pos 1; sha256 = codes "sha256:07" }

abbrev pub metadata_of : Text → List VersionInfo → Metadata
metadata_of source versions = record {
  format = [];
  source = source;
  role = [];
  name = policy_name;
  versions = versions;
}

-- A client that answers every question, over a network that counts them.
abbrev pub client_of : Text → List VersionInfo → Fetcher ℕ
client_of source versions = record {
  metadata = λ _ n. (ok (metadata_of source versions), suc n);
  artifact = λ _ _ n. (ok artifact_bytes, suc n);
}

abbrev pub corporate_versions : List VersionInfo
corporate_versions =
    offer_of (codes "1.2.0") ∷ offer_of (codes "1.4.0") ∷ offer_of (codes "junk") ∷ []

abbrev pub mirror_versions : List VersionInfo
mirror_versions = offer_of (codes "1.9.0") ∷ []

abbrev pub dial : Source → Result FetchError (Fetcher ℕ)
dial s =
    if text_eq s.id (codes "corp")
    then ok (client_of (codes "corp") corporate_versions)
    else ok (client_of (codes "pub") mirror_versions)

-- Only the corporate registry can be reached.
abbrev pub dial_corporate : Source → Result FetchError (Fetcher ℕ)
dial_corporate s =
    if text_eq s.id (codes "corp")
    then ok (client_of (codes "corp") corporate_versions)
    else err unavailable

abbrev pub header_of : Text → Header
header_of name = record {
  name = name;
  typeflag = b'0';
  mode = pos 0o444;
  linkname = [];
  uid = pos 0;
  gid = pos 0;
  uname = [];
  gname = [];
  mod_seconds = pos 0;
  mod_nanoseconds = 0;
  pax_records = 0;
  size = pos 1;
}

abbrev pub release_policy : PkgArchive.Policy
release_policy = record {
  format = policy_format;
  kind = kind_release_policy;
  entries = record { key = codes "MODEL-CANDIDATE-17"; value = verdict_approve } ∷ [];
}

-- Whatever the bytes are, they hold this value.
abbrev pub always {ℓ} : {A : Type ℓ} → A → Decoder A
always v = record { tokens = λ _. other ∷ []; decode = λ _. some (v, true) }

abbrev pub reader : Reader
reader = record {
  listing = λ _.
      entry (header_of manifest_entry) (some (1 ∷ []))
        (entry (header_of policy_entry) (some (2 ∷ [])) end_of_archive);
  manifest_decoder =
      always (record { format = manifest_format; name = policy_name; version = codes "1.4.0" });
  policy_decoder = always release_policy;
}

abbrev pub platform : Platform
platform = record { sha256 = λ raw. raw; reader = reader }

abbrev pub config : Config ℕ
config = record { policy = exclusive_policy; lock = lock_file; dial = dial }

abbrev pub pooled_config : CombinedIndex.Config ℕ
pooled_config = record { policy = pooled_policy; dial = dial }

abbrev pub acknowledging : Environment
acknowledging = record { acknowledgement = acknowledgement_value; profile = profile_value }
