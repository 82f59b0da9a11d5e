-- ===== src/Show/Tests.antt =====
-- A definition that states one argument, as src/show.rs prints it.
use climate.Common.{
  Text, codes, text_eq, is_empty, none, [], ◌∷◌, ◌++◌, true, ℕ, inl, inr, retain, ◌≡◌, refl,
}
use climate.Config.{AppConfig, no_network}
use climate.Config.Merge.{Table, plain, table, nil, entry, get}
use climate.Show.{
  Display, newline, defaulted, key, limit, absent, header, script_value, app_lines, image_lines,
  run_lines, limit_lines, shown,
}
use climate.Show.Headed.{IsReadFrom, header-run_lines}
use climate.Show.Greyed.{is_stated, plain_printer, full_printer, is_stated-lines}

abbrev quoted : Text → Text
quoted s = codes "\"" ++ (s ++ codes "\"")

abbrev display : Display ℕ ℕ
display = record {
  string = quoted;
  strings = λ ss. codes "[..]";
  boolean = λ b. codes "true";
  float = λ f. codes "1.5";
  integer = λ n. codes "7";
  capability = λ k. codes "KILL";
}

abbrev raw : Table ℕ
raw = entry (codes "run") (table (entry (codes "args") (plain 0) nil)) nil

abbrev config : AppConfig ℕ ℕ
config = record {
  app = record { name = codes "xh"; description = codes "A client"; license = codes "MIT" };
  image = record { reference = codes "a/xh:1"; pull = true; install = none };
  run = record {
    entrypoint = none;
    args = codes "-v" ∷ [];
    env = [];
    mount_cwd = true;
    mount = [];
    network = no_network;
    capabilities = [];
    seccomp_allow = [];
    seccomp_deny = [];
  };
  limits = record {
    memory = none;
    swap = none;
    memory_high = none;
    cpu = none;
    cpu_shares = none;
    pids = none;
  };
}

shown_plain :
    shown display plain_printer raw config
    ≡ codes "[app]"
      ∷ codes "name = \"xh\""
      ∷ codes "description = \"A client\""
      ∷ codes "license = \"MIT\""
      ∷ (newline ++ codes "[image]")
      ∷ codes "reference = \"a/xh:1\""
      ∷ (newline ++ codes "[run]")
      ∷ codes "args = [..]"
      ∷ []
unfolding shown app_lines image_lines run_lines limit_lines header key limit defaulted absent get
    text_eq
shown_plain = refl

script_literal :
    script_value display (codes "a" ++ (newline ++ codes "b"))
    ≡ codes "'''" ++ (newline ++ (codes "a" ++ (newline ++ codes "b'''")))
unfolding script_value
script_literal = refl

read_config : IsReadFrom raw config
unfolding absent get text_eq
read_config = record {
  run_known = (inr (inl refl), tt);
  limits_known = tt;
  entrypoint = refl;
  memory = refl;
  swap = refl;
  memory_high = refl;
  cpu = refl;
  cpu_shares = refl;
  pids = refl;
}

header-run_lines_example :
    (is_empty (header plain_printer raw (codes "run"))
      ≡ is_empty (run_lines display plain_printer raw config.run))
    × (is_empty (header plain_printer raw (codes "limits"))
        ≡ is_empty (limit_lines display plain_printer raw config.limits))
header-run_lines_example = header-run_lines display plain_printer raw config read_config

is_stated-lines_example :
    (retain is_stated (image_lines display full_printer raw config.image)
      ≡ image_lines display plain_printer raw config.image)
    × ((retain is_stated (run_lines display full_printer raw config.run)
          ≡ run_lines display plain_printer raw config.run)
        × (retain is_stated (limit_lines display full_printer raw config.limits)
            ≡ limit_lines display plain_printer raw config.limits))
is_stated-lines_example = is_stated-lines display raw config
