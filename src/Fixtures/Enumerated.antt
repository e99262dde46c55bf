-- ===== src/Fixtures/Enumerated.antt =====
-- A run takes enumerated scenarios only.
use indexjack.Prelude.{
  Bool, true, false, List, map, some, ok, Text, text_eq_iff, find?, Within-find?, find?-Within,
  select, Within-select, select-Within, Within, Within-map, map-Within, ◌≡◌, ◌↔◌, ◌⊎◌, arith,
}
use indexjack.Fixtures.{
  Scenario, Embedded, scenarios, is_listed, scenario_id, scenario_ids, is_named, load_scenario,
}

is_listed_iff :
    (include : Bool) (s : Scenario)
    → (is_listed include s ≡ true) ↔ ((include ≡ true) ⊎ (s.vulnerable ≡ false))
is_listed_iff include s = ground arith

module _ (data_ : Embedded) where
  -- Where the scenarios can be read, `load_scenario` answers only checked-in scenarios of the asked
  -- id, and it answers one for every id that a checked-in scenario has.
  pub load_scenario-Within :
      (all : List Scenario) (id : Text)
      → scenarios data_ ≡ ok all
      → ((s : Scenario) → load_scenario data_ id ≡ ok s → Within s all × (s.id ≡ id))
        × ((s : Scenario)
            → Within s all
            → s.id ≡ id
            → (t : Scenario) × (load_scenario data_ id ≡ ok t))
  unfolding load_scenario
  load_scenario-Within all id e = (
    λ s h.
        let found : find? (is_named id) all ≡ some s = ground (arith, e, h) in
        let (w, named) = Within-find? (is_named id) all s found in
        (w, (text_eq_iff s.id id).0 named),
    λ s w named.
        let (t, found) = find?-Within (is_named id) all s w ((text_eq_iff s.id id).1 named) in
        (t, ground (arith, e, found)),
  )

  -- Where the scenarios can be read, the listed ids are exactly those of the scenarios that are not
  -- marked vulnerable, or of all where the list is to include these.
  pub scenario_ids-Within :
      (all : List Scenario) (include : Bool) (ids : List Text)
      → scenarios data_ ≡ ok all
      → scenario_ids data_ include ≡ ok ids
      → (id : Text)
      → Within id ids ↔ (
          (s : Scenario) × Within s all × ((include ≡ true) ⊎ (s.vulnerable ≡ false)) × (id ≡ s.id))
  unfolding scenario_ids
  scenario_ids-Within all include ids e h id =
      let listed = select (is_listed include) all in
      let same : ids ≡ map scenario_id listed = ground (arith, e, h) in
      (
        λ w.
            let (s, v, named) = map-Within scenario_id listed id (rw same at w) in
            let (u, q) = Within-select (is_listed include) all s v in
            (s, u, (is_listed_iff include s).0 q, named),
        λ (s, u, q, named).
            let v = select-Within (is_listed include) all s u ((is_listed_iff include s).1 q) in
            rw (same, named) (Within-map scenario_id listed s v),
      )
