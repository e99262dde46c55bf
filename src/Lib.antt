-- ===== src/Lib.antt =====
-- indexjack: a demonstration of dependency confusion, with a secure resolver, an intentionally
-- vulnerable one, and a release gate that trusts what they resolve.
--
-- The parts and how they interact. A source policy (SourcePolicy, for
-- internal/sourcepolicy/sourcepolicy.go) says which registry a dependency name may come from. A
-- project declares dependencies (BuildManifest, internal/buildmanifest/buildmanifest.go) with
-- version ranges (Semver, internal/semver/semver.go), and a lock (LockFile,
-- internal/lockfile/lockfile.go) pins each of them to a version, a source, a size and a digest.
-- The secure resolver (Resolver, internal/resolver/resolver.go) goes from policy to lock to the
-- one bound registry, verifies the bytes and parses them as a package (PkgArchive,
-- internal/pkgarchive/pkgarchive.go, with strict JSON in CanonicalJson,
-- internal/canonicaljson/canonicaljson.go). The combined index (CombinedIndex,
-- internal/combinedindex/combinedindex.go) asks a pool of registries and takes the newest version;
-- it is shut unless both opt-in controls are given (Vulnerable,
-- internal/vulnerable/vulnerable.go). The release gate (ReleaseGate,
-- internal/releasegate/releasegate.go) resolves a scenario's dependencies (Fixtures,
-- internal/fixtures/fixtures.go), asks the release-policy package about one candidate, adds a row
-- to the ledger (Ledger, internal/ledger/ledger.go) on APPROVE, and emits an audit event (Audit,
-- internal/audit/audit.go). A registry (Registry, internal/registry/registry.go) serves a fixture
-- set read-only, records each request with the run that it names, and signs receipts of these
-- records; its client (Registry.Client) checks what such a service answers. What a registry
-- serves, and what every package source builds to (PkgArchive.Building), comes from the embedded
-- documents (Fixtures.Catalogue), whose agreement with each other ValidateConsistency checks
-- (Fixtures.Catalogue.Consistency). The harness (Harness, internal/harness/harness.go and
-- internal/harness/render.go) runs one scenario through the gate (Harness.Running), collects the
-- registries' receipts, records all of it (Harness.Recording) and judges it (Harness.Reconciling);
-- it runs all scenarios (Harness.Matrix.Runs) for a table (Harness.Matrix) and prints either
-- (Harness.Rendering, with the sentences in Harness.Wording). The trace (Trace,
-- internal/trace/trace.go) prints what the gate hands over, in a style that a package asks for;
-- both print through Printing. The containment checks (Containment,
-- internal/containment/containment.go) look at the container around the program. Prelude has the
-- shared types and lemmas, and Samples the tests.
--
-- How state is modelled. Go texts and byte slices are lists of bytes over the native numbers,
-- int64 and int are integers, since no arithmetic on them can overflow, and uint64 components of a
-- version keep the bound of strconv.ParseUint. A long function is a chain of stages, each of which
-- calls the next. The state of the network is a type N that every request of a `Fetcher` takes and
-- returns, so that a theorem about the network holds for every registry, hostile ones included.
-- The ledger's disk and the audit files are records; which system calls fail, and how much a
-- failing write has written, is an argument (`Faults`), so that every error path is a value. An
-- error is the sentinel that it wraps; its message is left out.
--
-- Parameters. The hash function, archive/tar (`PkgArchive.Reader`, `PkgArchive.Building.Writer`),
-- encoding/json (`Decoder`, `Codec`, `Encoder`, `Audit.Platform.encode`,
-- `Harness.Running.Platform.encode`), crypto/hmac, crypto/rand, net/url and net/http
-- (`Registry.Client.Transport`), what strings, unicode/utf8 and fmt compute of a text
-- (`Printing.Unicode`), an io.Writer (`Printing.Writer`), path.Join and the embedded files
-- (`Fixtures.Embedded`, `Fixtures.Catalogue.Catalogue`) and the operating system around the
-- container (`Containment.Machine`) are arguments of the definitions that use them. The theorems
-- assume of them only this: the one that reads a ledger back, the round trip of its encoding; the
-- one that reads an audit file, that an event is encoded as an object on its own line, which is
-- decoded as that event, and that TrimSpace leaves objects alone (`IsLine`, `IsTrimming`); the one
-- that loads a built package, that reading an archive and decoding its documents gives back what
-- was written (`AreInverse`); the one on the table, that a text has no more characters than bytes.
-- sort.SliceStable is the insertion sort of Prelude, and so is sort.Slice, which may leave equal
-- elements in any order: the insertion sort leaves them in the order in which they came.
--
-- Fuel and recursion. The token walk of CanonicalJson takes two steps of fuel for each token and
-- two more; a step either consumes a token or passes one to the walk that follows it. All else is
-- structural recursion.
--
-- Not modelled: the timeouts and the redirect refusal of the HTTP client; the locks, since one
-- request is handled after the other; the messages of errors; marshalling, which is a call of
-- encoding/json; the acceptance suite (internal/verify), which is a program of tests over a
-- running stack; and the flags and exit codes of cmd/indexjack. A nil dialler, which stands for
-- the ordinary HTTP client, is not modelled: the dialler is always given.
pub mod Prelude
pub mod Semver
pub mod SourcePolicy
pub mod Vulnerable
pub mod BuildManifest
pub mod CanonicalJson
pub mod LockFile
pub mod PkgArchive
pub mod Registry
pub mod Resolver
pub mod CombinedIndex
pub mod Fixtures
pub mod Ledger
pub mod Audit
pub mod ReleaseGate
pub mod Printing
pub mod Harness
pub mod Trace
pub mod Containment
pub mod Samples
