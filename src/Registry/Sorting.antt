-- ===== src/Registry/Sorting.antt =====
-- internal/registry/registry.go: the method `Sort` of a fixture set. `sort.Slice` leaves open in
-- which order packages of one name stand; here they keep theirs.
pub mod Ascending
use indexjack.Prelude.{
  Bool, true, false, List, [], ◌∷◌, map, Result, ok, err, ◌>>=◌, Text, text_lt, sort, Ordering,
}
use indexjack.Semver
use indexjack.Semver.{Version}
use indexjack.Registry.{Artifact, Package, FixtureSet}

abbrev pub by_name : Package → Package → Bool
by_name p q = text_lt p.name q.name

-- An artifact beside the version that its text stands for, which the map `parsed` holds.
abbrev pub Dated : Type 0
Dated = Version × Artifact

abbrev pub is_less : Ordering → Bool
is_less Ordering.lt = true
is_less _ = false

abbrev pub by_version : Dated → Dated → Bool
by_version (v, a) (w, b) = is_less (Semver.compare v w)

pub dated : List Artifact → Result Semver.Error (List Dated)
dated [] = ok []
dated (a ∷ as_) = Semver.parse a.version >>= λ v. dated as_ >>= λ rest. ok ((v, a) ∷ rest)

abbrev pub undated : Dated → Artifact
undated (v, a) = a

pub sort_versions : Package → Result Semver.Error Package
sort_versions p =
    dated p.versions >>= λ found. ok (record p { versions = map undated (sort by_version found) })

pub sort_each : List Package → Result Semver.Error (List Package)
sort_each [] = ok []
sort_each (p ∷ ps) = sort_versions p >>= λ q. sort_each ps >>= λ rest. ok (q ∷ rest)

unfoldable pub sort_set : FixtureSet → Result Semver.Error FixtureSet
unfolding dated sort_versions sort_each
sort_set s = sort_each (sort by_name s.packages) >>= λ ps. ok (record s { packages = ps })
