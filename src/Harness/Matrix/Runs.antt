-- ===== src/Harness/Matrix/Runs.antt =====
-- internal/harness/render.go: the function `Matrix`, a run for each scenario.
pub mod Listed
use indexjack.Prelude.{
  Bytes, ℕ, zero, suc, ◌-◌, ◌==◌, ltb, if◌then◌else◌, Bool, List, [], ◌∷◌, ◌++◌, map, Option, none,
  some, Result, ok, err, Text, codes, text_eq, member, is_empty, find?, select, length, pos,
}
use indexjack.Registry.Service.{Table, entry_of}
use indexjack.Fixtures.Catalogue
use indexjack.Harness.Running
use indexjack.Vulnerable.{acknowledged}
use indexjack.Fixtures.{scenario_ids}
use indexjack.ReleaseGate
use indexjack.Printing.{
  Unicode, Writer, Printer, repeat, join, trim_right, int_text, value_or, print,
}
use indexjack.Harness.{Selected, Dependency, RegistryReceipt, Transcript}
use indexjack.Harness.Wording.{em_dash, arrow, result_text, verdict_text, mutation_text}
use indexjack.Harness.Rendering.{digest_prefix, policy_target}
use indexjack.Harness.Running.{Platform, Options, Faults, Error, World, Answer, run}

-- What the operating system does in one turn of `Matrix`: whether the removal of the run's directory
-- fails, what crypto/rand reads, and the faults of the run.
pub record Turn : Type 0 where
  pub remove_all : Bool
  pub random : Option Bytes
  pub faults : Faults

module _ {T N : Type 0} (p : Platform T N) (endpoints : List (Text × Text))
    (dir_of : Text → Text) where
  -- A run from fresh state.
  abbrev pub fresh_world : N → World N
  fresh_world n = record {
    gate = record {
      disk = record { ledger = none; temp = none };
      files = record { log = []; mirror = none };
      network = n;
    };
    transcript = none;
  }

  pub run_fresh : Turn → Text → N → Answer N
  run_fresh turn id n =
      run (record p { random = turn.random })
        (record { scenario_id = id; state_dir = dir_of id; endpoints = endpoints }) turn.faults
        (fresh_world n)

  -- The loop of `Matrix`, with a turn for each id.
  pub run_each : (Text → Turn) → List Text → N → Result Error (List Transcript) × N
  run_each turns [] n = (ok [], n)
  run_each turns (id ∷ ids) n = elim (turns id).remove_all [
    | Bool.true ↦ (err Running.os_error, n)
    | Bool.false ↦
        let (answer, w) = run_fresh (turns id) id n in
        elim answer [
          | err e ↦ (err e, w.gate.network)
          | ok t ↦
              let (rest, m) = run_each turns ids w.gate.network in
              elim rest [ err e ↦ (err e, m) | ok ts ↦ (ok (t ∷ ts), m) ]
        ]
  ]

  -- `Matrix`
  unfoldable pub matrix : (Text → Turn) → N → Result Error (List Transcript) × N
  unfolding run_fresh run_each
  matrix turns n = elim (scenario_ids p.catalogue.embedded (acknowledged p.gate.environment)) [
    | err e ↦ (err (Running.catalogue_error (Catalogue.fixture_error e)), n)
    | ok ids ↦ run_each turns ids n
  ]
