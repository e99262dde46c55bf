-- ===== src/Harness/Matrix/Runs/Listed.antt =====
-- Which scenarios the table has.
use indexjack.Prelude.{true, List, Text, ◌≡◌}
use indexjack.Vulnerable.{acknowledged}
use indexjack.Harness.{Transcript}
use indexjack.Harness.Running.{Platform}

abbrev pub transcript_id : Transcript → Text
transcript_id t = t.scenario.id

module _ {T N : Type 0} (p : Platform T N) (endpoints : List (Text × Text))
    (dir_of : Text → Text) where
  -- A transcript of the intentionally vulnerable half stands in an acknowledged workflow only.
  abbrev pub IsReachable : Transcript → Type 0
  IsReachable t = t.scenario.vulnerable ≡ true → acknowledged p.gate.environment ≡ true
