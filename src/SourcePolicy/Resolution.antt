-- ===== src/SourcePolicy/Resolution.antt =====
-- Which source decides: never the position of one in the list.
use indexjack.Prelude.{[], Result, ok, err, Within, ◌≡◌, ◌↔◌}
use indexjack.SourcePolicy.{Error, Source, Policy, Decision}

-- The same sources in any order, and the same mappings.
pub record SameSources (p q : Policy) : Type 0 where
  pub mappings : p.mappings ≡ q.mappings
  pub sources : (s : Source) → Within s p.sources ↔ Within s q.sources

-- A decision without the list of what it excludes.
abbrev pub trusted : Result Error Decision → Result Error Decision
trusted (ok d) = ok (record d { excluded = [] })
trusted (err e) = err e
