-- ===== src/Trace.antt =====
-- internal/trace/trace.go: the transcript of one outcome for a learner. `detail` is the text of a
-- failure's error.
pub mod Styled
use indexjack.Prelude.{
  ℕ, suc, ◌==◌, if◌then◌else◌, Bool, not, List, [], ◌∷◌, ◌++◌, map, Option, none, some, Text, codes,
  text_eq, is_empty, ℤ,
}
use indexjack.SourcePolicy
use indexjack.PkgArchive.{Package, policy_lookup, kind_report_format}
use indexjack.Resolver
use indexjack.Resolver.{Resolution, Failure}
use indexjack.Audit.{Event}
use indexjack.ReleaseGate
use indexjack.ReleaseGate.{Outcome, untouched, approved, suppressed_duplicate}
use indexjack.ReleaseGate.Texts.{stage_text, class_text}
use indexjack.Printing.{
  Unicode, Writer, Printer, repeat, join, pad_right, int_text, value_or, print,
}
use indexjack.Harness.Wording.{em_dash, arrow, rule_text, integrity_text}

abbrev label_width : ℕ
label_width = 22

pub record Style : Type 0 where
  pub title : Text
  pub divider : Text
  pub field_case : Text
  pub source : Text

-- `fallbackStyle`
abbrev pub fallback_style : Style
fallback_style = record {
  title = codes "plain";
  divider = codes "dash";
  field_case = codes "lower";
  source = codes "built-in fallback";
}

abbrev found_or : Text → Option Text → Text
found_or fallback found = elim found [ some v ↦ v | none ↦ fallback ]

-- The style of a report-format package.
pub style_of : Resolution → Package → Style
style_of res pkg =
    let p = pkg.policy in
    record {
      title = found_or (codes "plain") (policy_lookup p (codes "title_style"));
      divider = found_or (codes "dash") (policy_lookup p (codes "divider"));
      field_case = found_or (codes "lower") (policy_lookup p (codes "field_case"));
      source =
          res.name
          ++ (codes "@" ++ (res.selected.version ++ (codes " from " ++ res.selected.source)));
    }

-- `StyleFrom`
unfoldable pub style_from : Option Resolution → Style
unfolding style_of
style_from none = fallback_style
style_from (some res) = elim res.pkg [
  | none ↦ fallback_style
  | some pkg ↦
      if not (text_eq pkg.policy.kind kind_report_format) then fallback_style else style_of res pkg
]

-- `dividerRune`
abbrev pub divider_rune : Style → Text
divider_rune s = if text_eq s.divider (codes "equals") then codes "=" else codes "-"

-- `colonIf`
abbrev colon_if : Text → Text
colon_if label = if is_empty label then codes " " else codes ":"

abbrev comma : Text
comma = codes ", "

module _ (u : Unicode) (detail : Failure → Text) (style : Style) where
  -- The method `title` of a style.
  pub title : Text → Text
  title text = if text_eq style.title (codes "upper") then u.to_upper text else text

  -- The method `field` of a style.
  pub label_of : Text → Text
  label_of label =
      if text_eq style.field_case (codes "upper") then u.to_upper label else u.to_lower label

  -- The method `field` of the printer.
  pub field : Text → Text → Text
  field label value = pad_right u label_width (label_of label ++ codes ":") ++ (codes " " ++ value)

  -- The method `rule`.
  pub rule : Text
  rule = repeat 72 (divider_rune style)

  candidate_line : Text → Resolver.Candidate → Text
  candidate_line label c =
      pad_right u label_width (label_of label ++ colon_if label)
      ++ (codes " "
          ++ (c.source
              ++ (codes " "
                  ++ (c.version
                      ++ (codes " (source-reported "
                          ++ (int_text c.size ++ (codes " bytes, " ++ (c.sha256 ++ codes ")"))))))))

  candidate_lines : List Resolver.Candidate → List Text
  candidate_lines [] = field (codes "candidates") (codes "none") ∷ []
  candidate_lines (c ∷ cs) = candidate_line (codes "candidates") c ∷ map (candidate_line []) cs

  -- What stands behind the selection rule.
  selected_lines : Resolution → List Text
  selected_lines res =
      if is_empty res.selected.source
      then (field (codes "selected origin")
            (codes "none " ++ (em_dash ++ codes " nothing was accepted"))
          ∷ field (codes "integrity verdict")
              (codes "not reached " ++ (em_dash ++ codes " no artifact content was read"))
          ∷ []
          ∷ [])
      else (field (codes "selected origin")
            (res.selected.source ++ (codes " (" ++ (res.policy.bound.role ++ codes ")")))
          ∷ field (codes "selected version") res.selected.version
          ∷ field (codes "selected size") (int_text res.size ++ codes " bytes")
          ∷ field (codes "selected digest") res.digest
          ∷ field (codes "integrity verdict") (
              integrity_text res.integrity
              ++ (codes " "
                  ++ (em_dash
                      ++ codes " locked size and digest matched before any content was read")))
          ∷ []
          ∷ [])

  -- `renderResolution`
  pub resolution_lines : Resolution → List Text
  resolution_lines res =
      title (codes "dependency " ++ u.quote res.alias)
      ∷ field (codes "request") (res.name ++ (codes " " ++ res.range))
      ∷ field (codes "source policy") (
          res.policy.pattern
          ++ (codes " "
              ++ (arrow
                  ++ (codes " "
                      ++ (res.policy.bound.id ++ (codes " (" ++ (res.policy.mode ++ codes ")")))))))
      ∷ field (codes "index display order") (join comma res.display_order)
      ∷ field (codes "queried sources") (join comma res.queried)
      ∷ field (codes "excluded sources") (value_or u (join comma res.excluded) (codes "none"))
      ∷ field (codes "lock record") (
          res.locked.name
          ++ (codes "@"
              ++ (res.locked.version
                  ++ (codes " from "
                      ++ (res.locked.source
                          ++ (codes ", "
                              ++ (int_text res.locked.size
                                  ++ (codes " bytes, " ++ res.locked.sha256))))))))
      ∷ (candidate_lines res.candidates
          ++ (field (codes "selection rule") (rule_text Resolver.locked_version)
              ∷ selected_lines res))

  each_resolution : List Resolution → List Text
  each_resolution [] = []
  each_resolution (res ∷ more) = resolution_lines res ++ each_resolution more

  heading_lines : Outcome → List Text
  heading_lines o =
      rule
      ∷ title (codes "indexjack " ++ (em_dash ++ codes " local dependency-confusion demonstration"))
      ∷ rule
      ∷ field (codes "scenario") o.scenario.id
      ∷ field (codes "summary") o.scenario.summary
      ∷ field (codes "project") o.project
      ∷ field (codes "report format") style.source
      ∷ []
      ∷ []

  attempted_lines : Outcome → List Text
  attempted_lines o = elim o.attempted [ none ↦ [] | some res ↦ resolution_lines res ]

  mutation_line : Outcome → Text
  mutation_line o = field (codes "release mutation") (elim o.mutation [
    | approved ↦ codes "one release row added for " ++ o.scenario.candidate
    | suppressed_duplicate ↦
        codes "none "
        ++ (em_dash
            ++ (codes " " ++ (o.scenario.candidate ++ codes " was already released exactly once")))
    | untouched ↦ codes "none"
  ])

  decision_lines : Outcome → List Text
  decision_lines o =
      title (codes "release decision")
      ∷ field (codes "policy verdict") (
          if is_empty o.verdict
          then codes "not reached"
          else o.verdict ++ (codes " for " ++ o.scenario.candidate))
      ∷ field (codes "gate classification") (
          o.scenario.candidate
          ++ (codes " is "
              ++ (value_or u o.classification (codes "unclassified")
                  ++ codes " in the gate's own record")))
      ∷ mutation_line o
      ∷ field (codes "release ledger") (
          if text_eq o.ledger_before o.ledger_after
          then codes "byte-for-byte unchanged"
          else codes "changed")
      ∷ []
      ∷ []

  event_line : Event → Text
  event_line e = field (codes "audit event") (
      if is_empty e.failure_class
      then e.event ++ (codes " correlation " ++ e.correlation_id)
      else e.event
        ++ (codes " (" ++ (e.failure_class ++ (codes ") correlation " ++ e.correlation_id))))

  failure_lines : Option Failure → List Text
  failure_lines none = []
  failure_lines (some f) =
      field (codes "failure class")
        (class_text f.class ++ (codes " at stage " ++ stage_text f.stage))
      ∷ field (codes "failure detail") (detail f)
      ∷ []

  evidence_lines : Outcome → List Text
  evidence_lines o =
      title (codes "local operator evidence (never returned to the build's consumer)")
      ∷ (failure_lines o.failure ++ (map event_line o.audit_events ++ ([] ∷ [])))

  -- The lines in front of the client's response.
  pub outcome_lines : Outcome → List Text
  outcome_lines o =
      heading_lines o
      ++ (each_resolution o.resolutions
          ++ (attempted_lines o ++ (decision_lines o ++ evidence_lines o)))

  response_lines : Text → List Text
  response_lines response =
      title (codes "returned to the build's consumer")
      ∷ field (codes "client response") (u.trim_space response)
      ∷ rule
      ∷ []

module _ (u : Unicode) (detail : Failure → Text) where
  -- `Render`: `response` is what encoding/json makes of the client's response. Where it fails, that
  -- error is returned, whatever became of the lines before it.
  unfoldable pub render : {W : Type 0} → Writer W → (Outcome → Option Text) → Outcome → W → Bool × W
  unfolding title label_of field rule candidate_line candidate_lines selected_lines resolution_lines
      each_resolution heading_lines attempted_lines mutation_line decision_lines event_line
      failure_lines evidence_lines outcome_lines response_lines
  render w response o state =
      let style = style_from o.report_format in
      elim (response o) [
        | none ↦ (Bool.true, (print w (outcome_lines u detail style o) state).state)
        | some body ↦
            let lines = outcome_lines u detail style o ++ response_lines u detail style body in
            ((print w lines state).failed, (print w lines state).state)
      ]
