-- ===== src/Samples/Renderings.antt =====
-- Tests of the renderings and of the containment checks.
use indexjack.Prelude
use indexjack.Prelude.{
  ℕ, suc, ◌++◌, ltb, Bool, true, false, not, List, [], ◌∷◌, Option, none, some, Result, ok, err,
  Text, codes, length, pos, text_eq, ◌≡◌, ◌≤◌, refl,
}
use indexjack.PkgArchive
use indexjack.PkgArchive.{Package, Policy, policy_format, kind_report_format, validate_policy}
use indexjack.PkgArchive.Identity.{manifest_format}
use indexjack.Resolver
use indexjack.Resolver.{Resolution, started}
use indexjack.Printing.{Unicode, Writer, print}
use indexjack.Printing.Prefix.{Written, print-Written}
use indexjack.Trace.{style_from}
use indexjack.Trace.Styled.{IsEnumerated, style_from-IsEnumerated}
use indexjack.Containment
use indexjack.Containment.{Machine}
use indexjack.Samples.{dependency}

-- Texts of ASCII characters without surrounding spaces.
abbrev ascii : Unicode
ascii = record {
  to_upper = λ s. s;
  to_lower = λ s. s;
  trim_space = λ s. s;
  rune_count = length;
  quote = λ s. s;
}

-- A file that takes one line.
abbrev short_file : Writer (List Text)
short_file = record {
  write = λ s lines. elim lines [ [] ↦ (false, s ∷ []) | t ∷ ts ↦ (true, t ∷ ts) ];
}

abbrev two_lines : List Text
two_lines = codes "a" ∷ codes "b" ∷ []

print-Written_example :
    Written short_file two_lines []
      (print short_file two_lines []).failed
      (print short_file two_lines []).state
print-Written_example = print-Written short_file two_lines []

abbrev report_policy : Policy
report_policy = record {
  format = policy_format;
  kind = kind_report_format;
  entries =
      record { key = codes "divider"; value = codes "equals" }
      ∷ record { key = codes "title_style"; value = codes "upper" }
      ∷ [];
}

abbrev report_package : Package
report_package = record {
  manifest = record {
    format = manifest_format;
    name = codes "acme-format";
    version = codes "1.0.0";
  };
  policy = report_policy;
}

abbrev resolution : Resolution
resolution = record (started Resolver.locked_version dependency) { pkg = some report_package }

is_valid : validate_policy report_policy ≡ ok tt
unfolding validate_policy text_eq PkgArchive.lookup Prelude.member Prelude.text_lt
is_valid = refl

is_loaded :
    (res : Resolution) (pkg : Package)
    → some resolution ≡ some res
    → res.pkg ≡ some pkg
    → validate_policy pkg.policy ≡ ok tt
is_loaded res pkg e f =
    let h : resolution ≡ res = cc in
    let g : some report_package ≡ some pkg = rw (← h) at f in
    let k : report_package ≡ pkg = cc in rw (← k) is_valid

style_from-IsEnumerated_example : IsEnumerated (style_from (some resolution))
style_from-IsEnumerated_example = style_from-IsEnumerated (some resolution) is_loaded

-- A container without capabilities, network or interpreters.
abbrev container : Machine
container = record {
  goos = codes "linux";
  runtime_image = codes "1";
  euid = pos 65532;
  egid = pos 65532;
  status = ok (codes "NoNewPrivs:1\nCapEff:0000");
  route = ok (codes "Iface");
  create_probe = err (codes "read-only");
  stat = λ _. false;
  mkdir_all = λ _. ok tt;
  write_file = λ _. ok tt;
  remove = λ _. ok tt;
  join_path = λ dir file. dir ++ file;
  dial = λ _. err (codes "unreachable");
  lookup_host = λ _. err (codes "no such host");
  trim_space = λ s. s;
  fields = λ s. s ∷ [];
  missing_key = λ key. key;
}
