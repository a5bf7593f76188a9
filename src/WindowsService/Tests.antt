-- ===== src/WindowsService/Tests.antt =====
-- A service whose file for the standard error cannot be opened.
use jec.Prelude.{◌≡◌, ◌⊎◌, true, false, [], str_eq, total}
use jec.WindowsService.{Config, Chance, Kernel, ended, run, stop, panics}
use jec.WindowsService.Laws.{stops, runs_in, blocks, run_ends}

abbrev service : Config
service = record {
  name = "jec";
  display_name = "JEC";
  description = "";
  jec_path = "C:\\jec.exe";
  args = [];
  env = [];
  stderr = "err.log";
  stdout = "out.log";
}

abbrev no_errors : Chance
no_errors = record { open_fails = λ file. str_eq file "err.log"; outcome = ended }

abbrev kernel : Kernel
kernel = record { load_fails = false; missing = λ p. false; call_fails = λ p. false }

run_ends_example :
    (total stops (run no_errors service).1 ≡ 1)
    × (((blocks no_errors service.stderr ≡ false)
          × (blocks no_errors service.stdout ≡ false)
          × (total runs_in (run no_errors service).1 ≡ 1)
          × ((run no_errors service).0 ≡ no_errors.outcome))
        ⊎ (((blocks no_errors service.stderr ≡ true) ⊎ (blocks no_errors service.stdout ≡ true))
            × (total runs_in (run no_errors service).1 ≡ 0)
            × (stop kernel (run no_errors service).0 ≡ panics)))
run_ends_example = run_ends no_errors service kernel
