-- ===== src/Harness/Matrix.antt =====
-- internal/harness/render.go: the table of all scenarios, one row for each.
pub mod Queried
pub mod Aligned
pub mod Runs
use indexjack.Prelude.{
  ℕ, zero, suc, ◌-◌, ◌==◌, ltb, if◌then◌else◌, Bool, List, [], ◌∷◌, ◌++◌, map, Option, none, some,
  Result, ok, err, Text, codes, text_eq, member, is_empty, find?, select, length, pos,
}
use indexjack.Registry.Service.{Table, entry_of}
use indexjack.Fixtures.Catalogue
use indexjack.Harness.Running
use indexjack.Vulnerable.{acknowledged}
use indexjack.Fixtures.{scenario_ids}
use indexjack.ReleaseGate
use indexjack.Printing.{
  Unicode, Writer, Printer, repeat, join, trim_right, int_text, value_or, print,
}
use indexjack.Harness.{Selected, Dependency, RegistryReceipt, Transcript}
use indexjack.Harness.Wording.{em_dash, arrow, result_text, verdict_text, mutation_text}
use indexjack.Harness.Rendering.{digest_prefix, policy_target}
use indexjack.Harness.Running.{Platform, Options, Faults, Error, World, Answer, run}

abbrev is_release_policy : Dependency → Bool
is_release_policy d = text_eq d.alias (codes "release-policy")

-- `releasePolicyDependency`
pub release_policy_dependency : Transcript → Option Dependency
release_policy_dependency t = find? is_release_policy t.dependencies

pub policy_column : Transcript → Text
policy_column t = elim (release_policy_dependency t) [
  | some d ↦ d.source_policy.pattern ++ (arrow ++ policy_target d.source_policy)
  | none ↦ em_dash
]

pub selected_of : Transcript → Selected
selected_of t = elim (release_policy_dependency t) [
  | some d ↦ d.selected
  | none ↦ record { source = []; role = []; version = []; size = pos 0; sha256 = [] }
]

pub integrity_of : Transcript → Text
integrity_of t = elim (release_policy_dependency t) [
  | some d ↦ verdict_text d.integrity
  | none ↦ []
]

-- The map `counts`; the last receipt of a source counts.
tally : Table ℕ → List RegistryReceipt → Table ℕ
tally counts [] = counts
tally counts (r ∷ rs) = tally ((r.source, r.request_count) ∷ counts) rs

-- `counts[source]`, zero on a missing key.
pub count_of : List RegistryReceipt → Text → ℕ
unfolding tally
count_of receipts source = elim (entry_of source (tally [] receipts)) [ some n ↦ n | none ↦ 0 ]

-- The loops that list sources not seen yet. What is seen is what is listed.
pub add_unseen : List Text → List Text → List Text
add_unseen ordered [] = ordered
add_unseen ordered (s ∷ ss) =
    add_unseen (if member s ordered then ordered else ordered ++ s ∷ []) ss

pub add_queried : List Text → List Dependency → List Text
add_queried ordered [] = ordered
add_queried ordered (d ∷ ds) = add_queried (add_unseen ordered d.queried_sources) ds

abbrev pub has_requests : RegistryReceipt → Bool
has_requests r = ltb 0 r.request_count

abbrev pub receipt_source : RegistryReceipt → Text
receipt_source r = r.source

pub ordered_sources : Transcript → List Text
ordered_sources t =
    add_unseen (add_queried [] t.dependencies) (map receipt_source (select has_requests t.receipts))

abbrev pub is_counted : Transcript → Text → Bool
is_counted t source = ltb 0 (count_of t.receipts source)

-- The sources that the column shows.
unfoldable pub queried_sources : Transcript → List Text
unfolding add_unseen add_queried ordered_sources
queried_sources t = select (is_counted t) (ordered_sources t)

abbrev part_of : Transcript → Text → Text
part_of t source =
    source ++ (codes "(" ++ (int_text (pos (count_of t.receipts source)) ++ codes ")"))

-- `queriedColumn`
pub queried_column : Transcript → Text
queried_column t = elim (queried_sources t) [
  | [] ↦ codes "none"
  | s ∷ ss ↦ join (codes " ") (map (part_of t) (s ∷ ss))
]

abbrev pub columns : List Text
columns =
    codes "scenario"
    ∷ codes "source policy"
    ∷ codes "queried (observed)"
    ∷ codes "selected origin"
    ∷ codes "version"
    ∷ codes "digest"
    ∷ codes "integrity"
    ∷ codes "verdict"
    ∷ codes "mutation"
    ∷ codes "ledger"
    ∷ codes "reconciliation"
    ∷ []

-- `renderRow`, without the cells behind the last width. `none` is a panic: an index out of range, or
-- a negative count for `strings.Repeat`.
pub padded : Unicode → List Text → List ℕ → Option (List Text)
padded u [] widths = some []
padded u (cell ∷ cells) [] = none
padded u (cell ∷ cells) (width ∷ widths) =
    if ltb width (u.rune_count cell) then none else elim (padded u cells widths) [
      | none ↦ none
      | some rest ↦ some ((cell ++ repeat (width - u.rune_count cell) (codes " ")) ∷ rest)
    ]

pub render_row : Unicode → List Text → List ℕ → Option Text
render_row u cells widths = elim (padded u cells widths) [
  | none ↦ none
  | some parts ↦ some (trim_right (join (codes "  ") parts))
]

-- The loop over the cells of a row; `none` is an index out of range.
pub widened : Unicode → List ℕ → List Text → Option (List ℕ)
widened u widths [] = some widths
widened u [] (cell ∷ cells) = none
widened u (width ∷ widths) (cell ∷ cells) = elim (widened u widths cells) [
  | none ↦ none
  | some rest ↦ let n = u.rune_count cell in some ((if ltb width n then n else width) ∷ rest)
]

pub widened_all : Unicode → List ℕ → List (List Text) → Option (List ℕ)
widened_all u widths [] = some widths
widened_all u widths (row ∷ rows) = elim (widened u widths row) [
  | none ↦ none
  | some wider ↦ widened_all u wider rows
]

pub render_rows : Unicode → List (List Text) → List ℕ → Option (List Text)
render_rows u [] widths = some []
render_rows u (row ∷ rows) widths = elim (render_row u row widths) [
  | none ↦ none
  | some line ↦ elim (render_rows u rows widths) [ none ↦ none | some lines ↦ some (line ∷ lines) ]
]

abbrev dashes : ℕ → Text
dashes n = repeat n (codes "-")

module _ (u : Unicode) where
  pub row_of : Transcript → List Text
  row_of t =
      t.scenario.id
      ∷ policy_column t
      ∷ queried_column t
      ∷ value_or u (selected_of t).source em_dash
      ∷ value_or u (selected_of t).version em_dash
      ∷ digest_prefix (selected_of t).sha256
      ∷ value_or u (integrity_of t) em_dash
      ∷ value_or u t.release.policy_verdict em_dash
      ∷ mutation_text t.release.mutation
      ∷ (digest_prefix t.ledger.before ++ (arrow ++ digest_prefix t.ledger.after))
      ∷ result_text t.reconciliation.result
      ∷ []

  -- The lines of the table from its widths on.
  pub table_lines : List (List Text) → List ℕ → Option (List Text)
  table_lines rows widths = render_rows u (columns ∷ map dashes widths ∷ rows) widths

  unfoldable pub matrix_lines : List Transcript → Option (List Text)
  unfolding padded render_row widened widened_all render_rows row_of table_lines policy_column
      queried_column selected_of integrity_of release_policy_dependency count_of
  matrix_lines ts =
      let rows = map row_of ts in
      elim (widened_all u (map u.rune_count columns) rows) [
        | none ↦ none
        | some widths ↦ table_lines rows widths
      ]

  -- `RenderMatrix`
  unfoldable pub render_matrix : {W : Type 0} → Writer W → List Transcript → W → Option (Printer W)
  render_matrix w ts state = elim (matrix_lines ts) [
    | none ↦ none
    | some lines ↦ some (print w lines state)
  ]
