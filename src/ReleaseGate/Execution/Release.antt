-- ===== src/ReleaseGate/Execution/Release.antt =====
-- When a run changes the ledger.
use indexjack.Prelude.{
  if◌then◌else◌, Bool, true, false, some, Result, ok, err, Text, Bytes, is_empty, ◌≡◌, ◌⊎◌, inl,
  inr, refl,
}
use indexjack.Vulnerable.{Refusal, gate}
use indexjack.Ledger
use indexjack.Ledger.{Disk}
use indexjack.ReleaseGate.{
  Platform, Faults, Options, Error, no_state_dir, not_acknowledged, World, Run,
}
use indexjack.ReleaseGate.Execution.{load_stage, execute}
use indexjack.ReleaseGate.Execution.Approval.{IsApproval}

-- The errors of a run that touches nothing.
abbrev pub IsRefusal : Error → Type 0
IsRefusal e = (e ≡ no_state_dir) ⊎ ((r : Refusal) × (e ≡ not_acknowledged r))

-- Where a whole run leaves the ledger file: as it was, as `Load` left it, or with one approval more.
pub data IsJustified (platform : Platform) (faults : Faults) (candidate : Text) (start final : Disk)
    : Type 0 where
  kept : final.ledger ≡ start.ledger → IsJustified platform faults candidate start final
  loaded :
      final.ledger ≡ (Ledger.load platform.codec faults.load start).1.ledger
      → IsJustified platform faults candidate start final
  released :
      (current : Ledger.Ledger) (body : Bytes)
      → (Ledger.load platform.codec faults.load start).0 ≡ ok current
      → IsApproval platform.codec candidate current body
      → final.ledger ≡ some body
      → IsJustified platform faults candidate start final

module _ {N : Type 0} (platform : Platform) (faults : Faults) (opts : Options N) where
  starts_lem :
      (empty vulnerable : Bool) (opened : Result Refusal (Unit {0})) (w : World N) (run : Run N)
      → let answer : Run N =
          if empty
          then (err no_state_dir, w)
          else if vulnerable
          then elim opened [ err r ↦ (err (not_acknowledged r), w) | ok _ ↦ run ]
          else run in
        ((e : Error) × IsRefusal e × (answer ≡ (err e, w))) ⊎ (answer ≡ run)
  starts_lem true vulnerable opened w run = inl (no_state_dir, inl refl, refl)
  starts_lem false false opened w run = inr refl
  starts_lem false true (ok _) w run = inr refl
  starts_lem false true (err r) w run = inl (not_acknowledged r, inr (r, refl), refl)

  -- A run refuses before it touches anything, or it loads the ledger.
  pub execute-starts :
      (w : World N)
      → ((e : Error) × IsRefusal e × (execute platform faults opts w ≡ (err e, w)))
        ⊎ (execute platform faults opts w ≡ load_stage platform faults opts w)
  unfolding execute
  execute-starts w =
      starts_lem (is_empty opts.state_dir) opts.scenario.vulnerable (gate platform.environment) w
        (load_stage platform faults opts w)
