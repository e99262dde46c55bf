-- ===== src/BuildManifest.antt =====
-- internal/buildmanifest/buildmanifest.go: what a project declares that it depends on.
use indexjack.Prelude.{
  ◌==◌, if◌then◌else◌, ◌||◌, not, List, [], ◌∷◌, none, some, Result, ok, err, Text, codes, text_eq,
  member, is_empty, find?, length,
}
use indexjack.Semver.{parse_range}

abbrev pub format : Text
format = codes "indexjack-manifest/1"

pub data Error : Type 0 where
  invalid_manifest : Error

pub record Dependency : Type 0 where
  pub alias : Text
  pub name : Text
  pub range : Text

pub record Manifest : Type 0 where
  pub format : Text
  pub project : Text
  pub dependencies : List Dependency

-- The loop in `Validate`.
check_dependencies : List Text → List Dependency → Result Error (Unit {0})
check_dependencies seen [] = ok tt
check_dependencies seen (d ∷ ds) =
    let rest = check_dependencies (d.alias ∷ seen) ds in
    if is_empty d.alias || is_empty d.name
    then err invalid_manifest
    else if member d.alias seen
    then err invalid_manifest
    else elim (parse_range d.range) [ err _ ↦ err invalid_manifest | ok _ ↦ rest ]

unfoldable pub validate : Manifest → Result Error (Unit {0})
unfolding check_dependencies
validate m =
    if not (text_eq m.format format)
    then err invalid_manifest
    else if is_empty m.project || (length m.dependencies == 0)
    then err invalid_manifest
    else check_dependencies [] m.dependencies

unfoldable pub dependency : Manifest → Text → Result Error Dependency
dependency m alias = elim (find? (λ d. text_eq d.alias alias) m.dependencies) [
  | none ↦ err invalid_manifest
  | some d ↦ ok d
]
