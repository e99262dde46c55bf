-- ===== src/Containment/Confined.antt =====
-- What the checks establish of the machine.
use indexjack.Prelude.{
  true, false, none, Result, ok, err, Text, codes, is_empty, split_on, All, pos, int_lt, ◌≡◌,
}
use indexjack.Printing.{line_feed}
use indexjack.Containment.{
  Machine, interpreters, external_probe, external_name, proc_status_value, default_device,
  routes_of,
}

abbrev pub Fails : {A : Type 0} → Result Text A → Type 0
Fails r = (e : Text) × (r ≡ err e)

-- An unprivileged process on a read-only file system without a way out of its network.
pub record IsConfined (m : Machine) (dir : Text) : Type 0 where
  pub user : int_lt (pos 0) m.euid ≡ true
  pub group : int_lt (pos 0) m.egid ≡ true
  pub privileges : proc_status_value m (codes "NoNewPrivs") ≡ ok (codes "1")
  pub capabilities : Text
  pub has_capabilities : proc_status_value m (codes "CapEff") ≡ ok capabilities
  pub dropped : All (λ c. c ≡ b'0') capabilities
  pub read_only : Fails m.create_probe
  pub no_interpreter : All (λ path. m.stat path ≡ false) interpreters
  pub state_dir : is_empty dir ≡ false
  pub writable : m.write_file (m.join_path dir (codes ".containment-probe")) ≡ ok tt
  pub routes : Text
  pub has_routes : m.route ≡ ok routes
  pub no_way_out :
      All (λ line. default_device m line ≡ none) (routes_of m (split_on line_feed routes))
  pub unconnected : Fails (m.dial external_probe)
  pub unresolved : Fails (m.lookup_host external_name)
