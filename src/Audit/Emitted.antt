-- ===== src/Audit/Emitted.antt =====
-- What a sink has emitted.
use indexjack.Prelude.{
  false, [], ◌∷◌, ◌++◌, Option-cases, Result, Result-cases, ok, err, Text, Bytes, any, any-Within,
  Within, is_empty, ◌≡◌, ◌⊎◌, inl, inr, refl, arith,
}
use indexjack.Audit.{
  Error, not_encoded, Event, Platform, Sink, Faults, forbidden, fields, holds, is_dirty, validate,
  stamped, mirrored, write, emit,
}

-- A complete event without forbidden content.
pub record IsClean (lower : Text → Text) (e : Event) : Type 0 where
  pub named : is_empty e.event ≡ false
  pub staged : is_empty e.stage ≡ false
  pub clean :
      (field : Text)
      → Within field (fields e)
      → (bad : Text) → Within bad forbidden
      → holds lower field bad ≡ false

validate-parts :
    (lower : Text → Text) (e : Event)
    → validate lower e ≡ ok tt
    → (is_empty e.event ≡ false)
      × (is_empty e.stage ≡ false)
      × (any (is_dirty lower) (fields e) ≡ false)
unfolding validate
validate-parts lower e h = ground (arith, h)

-- `validate` passes only clean events.
pub validate-IsClean :
    (lower : Text → Text) (e : Event) → validate lower e ≡ ok tt → IsClean lower e
validate-IsClean lower e h =
    let (named, staged, dirt) = validate-parts lower e h in
    record {
      named = named;
      staged = staged;
      clean = λ field w bad v.
          any-Within (holds lower field) forbidden bad
            (any-Within (is_dirty lower) (fields e) field dirt w) v;
    }

-- What one call of `Emit` does to the record.
pub record IsRecorded (platform : Platform) (e : Event) (s : Sink)
    (answer : Result Error (Unit {0}) × Sink) : Type 0 where
  pub scenario : answer.1.scenario ≡ s.scenario
  pub succeeds :
      answer.0 ≡ ok tt → answer.1.emitted ≡ s.emitted ++ stamped platform.sha256 s.scenario e ∷ []
  pub at_most_one :
      (answer.1.emitted ≡ s.emitted)
      ⊎ ((answer.1.emitted ≡ s.emitted ++ stamped platform.sha256 s.scenario e ∷ [])
          × IsClean platform.lower (stamped platform.sha256 s.scenario e))

write-cases :
    (faults : Faults) (line : Bytes) (e : Event) (s : Sink)
    → ((write faults line e s).1.scenario ≡ s.scenario)
      × ((write faults line e s).0 ≡ ok tt
          → (write faults line e s).1.emitted ≡ s.emitted ++ e ∷ [])
      × (((write faults line e s).1.emitted ≡ s.emitted)
          ⊎ ((write faults line e s).1.emitted ≡ s.emitted ++ e ∷ []))
unfolding write mirrored
write-cases faults line e s = (ground arith, λ h. ground (arith, h), ground arith)

nothing :
    {platform : Platform} (e : Event) (s : Sink) (x : Error) → IsRecorded platform e s (err x, s)
nothing e s x = record { scenario = refl; succeeds = λ h. absurd cc; at_most_one = inl refl }

-- `emit` keeps the scenario of its sink; where it succeeds it has added exactly the stamped event
-- to the emitted ones; and in every case it has added nothing, or the stamped event, which then has
-- an event and a stage and none of the forbidden texts in any of the checked fields.
pub emit-IsRecorded :
    (platform : Platform) (faults : Faults) (e : Event) (s : Sink)
    → IsRecorded platform e s (emit platform faults e s)
unfolding emit
emit-IsRecorded platform faults e s =
    let e2 = stamped platform.sha256 s.scenario e in
    elim (Result-cases (validate platform.lower e2)) [
      | inr (x, p) ↦ rw (p, emit) (nothing e s x)
      | inl (_, p) ↦ elim (Option-cases (platform.encode e2)) [
        | inl q ↦ rw (p, q, emit) (nothing e s not_encoded)
        | inr (line, q) ↦
            let (kept, one, most) = write-cases faults line e2 s in
            rw (p, q, emit)
              (record {
                scenario = kept;
                succeeds = one;
                at_most_one = elim most [
                  | inl u ↦ inl u
                  | inr u ↦ inr (u, validate-IsClean platform.lower e2 p)
                ];
              })
      ]
    ]
