-- ===== src/Harness/Rendering.antt =====
-- internal/harness/render.go: the transcript for a reader.
use indexjack.Prelude.{
  ℕ, ◌==◌, if◌then◌else◌, Bool, List, [], ◌∷◌, ◌++◌, map, none, some, Text, codes, trim_prefix,
  is_empty, ltb, length, take, pos,
}
use indexjack.Registry.{Request}
use indexjack.ReleaseGate.{ClientResponse}
use indexjack.ReleaseGate.Texts.{stage_text, class_text}
use indexjack.Printing.{
  Unicode, Writer, Printer, repeat, join, pad_right, int_text, value_or, print,
}
use indexjack.Harness.{
  PolicyRecord, Candidate, Dependency, AuditRecord, RegistryReceipt, Transcript,
}
use indexjack.Harness.Wording.{
  em_dash, arrow, result_text, statement_text, trust_text, verdict_text, enforcement_text,
  lifecycle_scripts, mutation_text, rule_text,
}

abbrev label_width : ℕ
label_width = 24

-- `digestPrefix`
unfoldable pub digest_prefix : Text → Text
digest_prefix digest =
    let body = trim_prefix digest (codes "sha256:") in
    if is_empty body then em_dash else if ltb 12 (length body) then take 12 body else body

-- `labelOrPad`
abbrev pub label_or_pad : Text → Text
label_or_pad label = if is_empty label then [] else label ++ codes ":"

-- `atVersion`
abbrev pub at_version : Text → Text
at_version version = if is_empty version then [] else codes "@" ++ version

-- `verified`
abbrev pub verified_text : Bool → Text
verified_text ok = if ok then codes "verified" else codes "NOT VERIFIED"

-- `plural`
abbrev pub plural : ℕ → Text
plural n = if n == 1 then codes "y" else codes "ies"

-- `bracket`
abbrev pub bracket : Text → Text
bracket value = if is_empty value then [] else codes " (" ++ (value ++ codes ")")

-- `policyTarget`
unfoldable pub policy_target : PolicyRecord → Text
policy_target p =
    if is_empty p.bound
    then elim p.pool [ [] ↦ codes "nothing" | s ∷ ss ↦ join (codes " + ") (s ∷ ss) ]
    else p.bound

-- `%t`
abbrev bool_text : Bool → Text
bool_text b = if b then codes "true" else codes "false"

abbrev comma : Text
comma = codes ", "

abbrev double_rule : Text
double_rule = repeat 78 (codes "=")

-- The text of a natural number.
abbrev nat_text : ℕ → Text
nat_text n = int_text (pos n)

module _ (u : Unicode) where
  -- The method `field`.
  field : Text → Text → Text
  field label value = pad_right u label_width (label ++ codes ":") ++ (codes " " ++ value)

  candidate_line : Text → Candidate → Text
  candidate_line label c =
      pad_right u label_width (label_or_pad label)
      ++ (codes " "
          ++ (c.source
              ++ (codes " "
                  ++ (c.version
                      ++ (codes " (source-reported "
                          ++ (int_text c.size ++ (codes " bytes, " ++ (c.sha256 ++ codes ")"))))))))

  -- The label stands beside the first candidate only.
  candidate_lines : List Candidate → List Text
  candidate_lines [] = []
  candidate_lines (c ∷ cs) = candidate_line (codes "candidates") c ∷ map (candidate_line []) cs

  dependency_lines : Dependency → List Text
  dependency_lines d =
      (codes "DEPENDENCY " ++ u.quote d.alias)
      ∷ field (codes "request") (d.query.name ++ (codes " " ++ d.query.range))
      ∷ field (codes "source policy") (
          d.source_policy.pattern
          ++ (codes " "
              ++ (arrow
                  ++ (codes " "
                      ++ (policy_target d.source_policy
                          ++ (codes " (" ++ (d.source_policy.mode ++ codes ")")))))))
      ∷ field (codes "trust") (value_or u (trust_text d.source_policy.trust) (codes "not reached"))
      ∷ field (codes "index display order") (join comma d.index_display_order)
      ∷ field (codes "query order (actual)")
          (value_or u (join comma d.queried_sources) (codes "none"))
      ∷ field (codes "excluded sources")
          (value_or u (join comma d.source_policy.excluded) (codes "none"))
      ∷ (candidate_lines d.candidates
          ++ (field (codes "selection rule") (rule_text d.selection_rule)
              ∷ field (codes "selected origin")
                  (d.selected.source ++ (codes " (" ++ (d.selected.role ++ codes ")")))
              ∷ field (codes "selected version") d.selected.version
              ∷ field (codes "selected size") (int_text d.selected.size ++ codes " bytes")
              ∷ field (codes "selected digest") d.selected.sha256
              ∷ field (codes "integrity verdict") (verdict_text d.integrity)
              ∷ []
              ∷ []))

  request_line : Request → Text
  request_line r =
      pad_right u label_width []
      ++ (codes " "
          ++ (r.path
              ++ (codes " "
                  ++ (value_or u (r.name ++ at_version r.version) em_dash
                      ++ (codes " " ++ (arrow ++ (codes " " ++ nat_text r.status)))))))

  receipt_lines : RegistryReceipt → List Text
  receipt_lines r =
      field r.source (
        nat_text r.request_count
        ++ (codes " request(s), role="
            ++ (r.role
                ++ (codes " revision="
                    ++ (r.revision
                        ++ (codes ", signature " ++ verified_text r.signature_verified))))))
      ∷ map request_line r.requests

  audit_line : AuditRecord → Text
  audit_line a = field (codes "audit event") (a.event ++ bracket a.failure_class)

  -- A loop that prints several lines for each element.
  abbrev each : {A : Type 0} → (A → List Text) → List A → List Text
  each f [] = []
  each f (x ∷ xs) = f x ++ each f xs

  heading_lines : Transcript → List Text
  heading_lines t =
      double_rule
      ∷ (codes "SCENARIO " ++ u.to_upper t.scenario.id)
      ∷ ((if is_empty t.warning then [] else (codes "!! " ++ u.to_upper t.warning) ∷ [])
          ++ (double_rule
              ∷ field (codes "summary") t.scenario.summary
              ∷ field (codes "resolver") t.resolver
              ∷ field (codes "lock enforcement") (enforcement_text t.lock_enforcement)
              ∷ field (codes "lifecycle scripts") lifecycle_scripts
              ∷ field (codes "project") t.project
              ∷ field (codes "fixtures") (
                  codes "policy="
                  ++ (t.scenario.source_policy
                      ++ (codes " manifest="
                          ++ (t.scenario.manifest ++ (codes " lock=" ++ t.scenario.lock)))))
              ∷ field (codes "correlation") t.correlation_id
              ∷ []
              ∷ []))

  resolution_lines : Transcript → List Text
  resolution_lines t = elim t.dependencies [
    | [] ↦
        codes "DEPENDENCY RESOLUTION"
        ∷ field (codes "resolved")
            (codes "none " ++ (em_dash ++ codes " the build failed closed on its first dependency"))
        ∷ []
        ∷ []
    | d ∷ ds ↦ each dependency_lines (d ∷ ds)
  ]

  decision_lines : Transcript → List Text
  decision_lines t =
      codes "RELEASE DECISION"
      ∷ field (codes "policy verdict") (value_or u t.release.policy_verdict (codes "not reached"))
      ∷ field (codes "gate classification") (
          t.release.candidate
          ++ (codes " is " ++ value_or u t.release.gate_classification (codes "unclassified")))
      ∷ field (codes "release mutation") (mutation_text t.release.mutation)
      ∷ field (codes "ledger before") t.ledger.before
      ∷ field (codes "ledger after") t.ledger.after
      ∷ field (codes "ledger changed") (
          bool_text t.ledger.changed
          ++ (codes " ("
              ++ (nat_text t.ledger.entries
                  ++ (codes " entr" ++ (plural t.ledger.entries ++ codes ")")))))
      ∷ []
      ∷ []

  evidence_lines : Transcript → List Text
  evidence_lines t =
      codes "LOCAL OPERATOR EVIDENCE (never returned to the build's consumer)"
      ∷ (elim t.failure [
        | none ↦ []
        | some f ↦
            field (codes "failure")
              (class_text f.class ++ (codes " at stage " ++ stage_text f.stage))
            ∷ []
      ]
          ++ (map audit_line t.audit ++ ([] ∷ [])))

  response_text : ClientResponse → Text
  response_text r =
      codes "{\"format\":"
      ++ (u.quote r.format ++ (codes ",\"result\":" ++ (u.quote r.result ++ codes "}")))

  closing_lines : Transcript → List Text
  closing_lines t =
      codes "RECONCILIATION"
      ∷ field (codes "result") (
          result_text t.reconciliation.result
          ++ (codes " " ++ (em_dash ++ (codes " " ++ statement_text t.reconciliation.statement))))
      ∷ ((if is_empty t.reconciliation.origin
            then []
            else field (codes "selected origin") t.reconciliation.origin
              ∷ field (codes "selected digest") t.reconciliation.digest
              ∷ [])
          ++ (field (codes "client response") (response_text t.client_response) ∷ double_rule ∷ []))

  -- All lines, in order.
  unfoldable pub transcript_lines : Transcript → List Text
  unfolding field candidate_line candidate_lines dependency_lines request_line receipt_lines
      audit_line heading_lines resolution_lines decision_lines evidence_lines response_text
      closing_lines
  transcript_lines t =
      heading_lines t
      ++ (resolution_lines t
          ++ (codes "REGISTRY-OBSERVED REQUESTS (each registry's own signed account)"
              ∷ (each receipt_lines t.receipts
                  ++ ([] ∷ (decision_lines t ++ (evidence_lines t ++ closing_lines t))))))

  -- `Render`
  unfoldable pub render : {W : Type 0} → Writer W → Transcript → W → Printer W
  unfolding transcript_lines
  render w t state = print w (transcript_lines t) state
