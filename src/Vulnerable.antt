-- ===== src/Vulnerable.antt =====
-- internal/vulnerable/vulnerable.go: the two opt-in controls.
use indexjack.Prelude.{
  if◌then◌else◌, Bool, true, false, ◌&&◌, not, Result, ok, err, Text, codes, text_eq, text_eq_iff,
  ◌≡◌, ◌↔◌, arith,
}

abbrev pub acknowledgement_value : Text
acknowledgement_value = codes "true"

abbrev pub profile_value : Text
profile_value = codes "vulnerable"

-- The three texts of `ErrNotAcknowledged`.
pub data Refusal : Type 0 where
  needs_both needs_profile needs_acknowledgement : Refusal

unfoldable pub check : Text → Text → Result Refusal (Unit {0})
check acknowledgement profile =
    let missing_profile = not (text_eq profile profile_value) in
    let missing_ack = not (text_eq acknowledgement acknowledgement_value) in
    if missing_profile && missing_ack
    then err needs_both
    else if missing_profile
    then err needs_profile
    else if missing_ack
    then err needs_acknowledgement
    else ok tt

-- The values of the two environment variables.
pub record Environment : Type 0 where
  pub acknowledgement : Text
  pub profile : Text

unfoldable pub gate : Environment → Result Refusal (Unit {0})
unfolding check
gate e = check e.acknowledgement e.profile

unfoldable pub acknowledged : Environment → Bool
unfolding gate
acknowledged e = elim (gate e) [ ok _ ↦ true | err _ ↦ false ]

-- The gate opens exactly where the acknowledgement is `true` and the profile is `vulnerable`.
pub gate_iff :
    (e : Environment)
    → (gate e ≡ ok tt) ↔ ((e.acknowledgement ≡ acknowledgement_value) × (e.profile ≡ profile_value))
unfolding gate
gate_iff e = ground (
  arith,
  text_eq_iff e.profile profile_value,
  text_eq_iff e.acknowledgement acknowledgement_value,
)

pub acknowledged_iff : (e : Environment) → (acknowledged e ≡ true) ↔ (gate e ≡ ok tt)
unfolding acknowledged
acknowledged_iff e = ground arith
