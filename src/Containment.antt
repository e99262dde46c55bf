-- ===== src/Containment.antt =====
-- internal/containment/containment.go: the boundary of the running process, check by check. `Machine` is
-- what the operating system answers; an error stands for its text, since that is all that is kept
-- of it.
pub mod Confined
use indexjack.Prelude.{
  ℕ, zero, suc, ◌==◌, if◌then◌else◌, Bool, true, false, ◌&&◌, List, [], ◌∷◌, ◌++◌, map, Option,
  none, some, Result, ok, err, Text, codes, text_eq, is_empty, split_on, select, find?, ltb, ℤ, pos,
  int_lt,
}
use indexjack.Printing.{join, int_text, line_feed}

-- An answer, or the text of an error.
abbrev pub Answer : Type 0 → Type 0
Answer A = Result Text A

pub record Machine : Type 0 where
  pub goos : Text
  pub runtime_image : Text
  pub euid : ℤ
  pub egid : ℤ
  pub status : Answer Text
  pub route : Answer Text
  pub create_probe : Answer (Unit {0})
  pub stat : Text → Bool
  pub mkdir_all : Text → Answer (Unit {0})
  pub write_file : Text → Answer (Unit {0})
  pub remove : Text → Answer (Unit {0})
  pub join_path : Text → Text → Text
  pub dial : Text → Answer (Unit {0})
  pub lookup_host : Text → Answer (List Text)
  pub trim_space : Text → Text
  pub fields : Text → List Text
  pub missing_key : Text → Text

pub record Check : Type 0 where
  pub name : Text
  pub detail : Text
  pub pass : Bool

-- `Supported`
unfoldable pub supported : Machine → Bool
supported m = text_eq m.goos (codes "linux")

-- `InRuntimeImage`
unfoldable pub in_runtime_image : Machine → Bool
in_runtime_image m = if is_empty m.runtime_image then false else true

abbrev external_probe : Text
external_probe = codes "1.1.1.1:443"

abbrev external_name : Text
external_name = codes "example.com"

-- `AllPassed`
unfoldable pub all_passed : List Check → Bool
all_passed [] = true
all_passed (c ∷ cs) = let rest = all_passed cs in if c.pass then rest else false

-- `strings.Cut(line, ":")`
pub cut_colon : Text → Option (Text × Text)
cut_colon [] = none
cut_colon (c ∷ s) =
    let rest = cut_colon s in
    if c == b':' then some ([], s) else elim rest [ none ↦ none | some (a, b) ↦ some (c ∷ a, b) ]

-- `strings.Trim(value, "0") == ""`
pub only_zeros : Text → Bool
only_zeros [] = true
only_zeros (c ∷ s) = let rest = only_zeros s in if c == b'0' then rest else false

abbrev interpreters : List Text
interpreters =
    codes "/bin/sh"
    ∷ codes "/bin/bash"
    ∷ codes "/bin/dash"
    ∷ codes "/usr/bin/env"
    ∷ codes "/usr/bin/python3"
    ∷ codes "/bin/busybox"
    ∷ []

abbrev comma : Text
comma = codes ", "

-- A check that failed without a reason of its own.
abbrev pub failing : Text → Text → Check
failing name detail = record { name = name; detail = detail; pass = false }

abbrev pub passing : Text → Text → Check
passing name detail = record { name = name; detail = detail; pass = true }

module _ (m : Machine) where
  pub non_root_user : Check
  non_root_user = record {
    name = codes "non_root_user";
    detail = codes "euid=" ++ (int_text m.euid ++ (codes " egid=" ++ int_text m.egid));
    pass = int_lt (pos 0) m.euid && int_lt (pos 0) m.egid;
  }

  -- The loop over the lines of /proc/self/status.
  pub status_line : Text → List Text → Answer Text
  status_line key [] = err (m.missing_key key)
  status_line key (line ∷ lines) =
      let rest = status_line key lines in
      elim (cut_colon line) [
        | none ↦ rest
        | some (name, value) ↦ if text_eq name key then ok (m.trim_space value) else rest
      ]

  -- `procStatusValue`
  pub proc_status_value : Text → Answer Text
  proc_status_value key = elim m.status [
    | err e ↦ err e
    | ok raw ↦ status_line key (split_on line_feed raw)
  ]

  pub no_new_privileges : Check
  no_new_privileges = elim (proc_status_value (codes "NoNewPrivs")) [
    | err e ↦ failing (codes "no_new_privileges") e
    | ok value ↦ record {
      name = codes "no_new_privileges";
      detail = codes "NoNewPrivs=" ++ value;
      pass = text_eq value (codes "1");
    }
  ]

  pub capabilities_dropped : Check
  capabilities_dropped = elim (proc_status_value (codes "CapEff")) [
    | err e ↦ failing (codes "capabilities_dropped") e
    | ok value ↦ record {
      name = codes "capabilities_dropped";
      detail = codes "CapEff=" ++ value;
      pass = only_zeros value;
    }
  ]

  pub read_only_root_filesystem : Check
  read_only_root_filesystem = elim m.create_probe [
    | ok _ ↦ failing (codes "read_only_root_filesystem") (codes "root filesystem accepted a write")
    | err e ↦ passing (codes "read_only_root_filesystem") e
  ]

  pub present : List Text
  present = select m.stat interpreters

  pub no_interpreter_in_image : Check
  no_interpreter_in_image = elim present [
    | [] ↦
        passing (codes "no_interpreter_in_image")
          (codes "none of " ++ (join comma interpreters ++ codes " exists"))
    | s ∷ ss ↦ failing (codes "no_interpreter_in_image") (codes "found " ++ join comma (s ∷ ss))
  ]

  pub state_dir_writable : Text → Check
  state_dir_writable dir =
      let name = codes "disposable_state_writable" in
      let probe = m.join_path dir (codes ".containment-probe") in
      if is_empty dir
      then failing name (codes "no state directory given")
      else elim (m.mkdir_all dir) [
        | err e ↦ failing name e
        | ok _ ↦ elim (m.write_file probe) [
          | err e ↦ failing name e
          | ok _ ↦ elim (m.remove probe) [
            | err e ↦ failing name e
            | ok _ ↦ passing name (dir ++ codes " is writable")
          ]
        ]
      ]

  -- The device of a default route that a line shows.
  pub default_device : Text → Option Text
  default_device line = if is_empty (m.trim_space line) then none else elim (m.fields line) [
    | [] ↦ none
    | device ∷ more ↦ elim more [
      | [] ↦ none
      | destination ∷ _ ↦ if text_eq destination (codes "00000000") then some device else none
    ]
  ]

  -- The loop over the lines behind the first.
  pub default_route : List Text → Option Text
  default_route [] = none
  default_route (line ∷ lines) =
      let rest = default_route lines in
      elim (default_device line) [ some device ↦ some device | none ↦ rest ]

  abbrev pub routes_of : List Text → List Text
  routes_of [] = []
  routes_of (head ∷ lines) = lines

  pub no_default_route : Check
  no_default_route = elim m.route [
    | err e ↦ failing (codes "no_default_route") e
    | ok raw ↦ elim (default_route (routes_of (split_on line_feed raw))) [
      | some device ↦ failing (codes "no_default_route") (codes "default route via " ++ device)
      | none ↦ passing (codes "no_default_route") (codes "no default route in /proc/net/route")
    ]
  ]

  pub external_connection_refused : Check
  external_connection_refused = elim (m.dial external_probe) [
    | ok _ ↦ failing (codes "external_connection_refused") (codes "connected to " ++ external_probe)
    | err e ↦ passing (codes "external_connection_refused") e
  ]

  pub external_name_unresolvable : Check
  external_name_unresolvable = elim (m.lookup_host external_name) [
    | ok addrs ↦
        failing (codes "external_name_unresolvable")
          (external_name ++ (codes " resolved to " ++ join comma addrs))
    | err e ↦ passing (codes "external_name_unresolvable") e
  ]

  -- `Run`
  unfoldable pub run : Text → List Check
  unfolding cut_colon only_zeros non_root_user status_line proc_status_value no_new_privileges
      capabilities_dropped read_only_root_filesystem present no_interpreter_in_image
      state_dir_writable default_device default_route no_default_route external_connection_refused
      external_name_unresolvable
  run dir =
      non_root_user
      ∷ no_new_privileges
      ∷ capabilities_dropped
      ∷ read_only_root_filesystem
      ∷ no_interpreter_in_image
      ∷ state_dir_writable dir
      ∷ no_default_route
      ∷ external_connection_refused
      ∷ external_name_unresolvable
      ∷ []
