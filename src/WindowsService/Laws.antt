-- ===== src/WindowsService/Laws.antt =====
-- How the service of windows_service/main/jecService.go starts, ends and stops.
use jec.Prelude.{ℕ, ◌≡◌, ◌⊎◌, Bool, true, false, not, ◌&&◌, String, total, str_eq, arith}
use jec.WindowsService.{Config, Effect, runs, asks_stop, Chance, run, stop, panics, Kernel}

abbrev pub stops : Effect → ℕ
stops asks_stop = 1
stops _ = 0

abbrev pub runs_in : Effect → ℕ
runs_in runs = 1
runs_in _ = 0

-- The file is named, and cannot be opened.
abbrev pub blocks : Chance → String → Bool
blocks c file = not (str_eq file "") && c.open_fails file

-- `run` asks the service to stop exactly once, whatever fails. If a file for the output cannot be opened
-- the connector is not run, and the stop that is asked for then panics, as there is no process; else it
-- is run once.
pub run_ends :
    (c : Chance) (conf : Config) (k : Kernel)
    → (total stops (run c conf).1 ≡ 1)
      × (((blocks c conf.stderr ≡ false)
            × (blocks c conf.stdout ≡ false)
            × (total runs_in (run c conf).1 ≡ 1)
            × ((run c conf).0 ≡ c.outcome))
          ⊎ (((blocks c conf.stderr ≡ true) ⊎ (blocks c conf.stdout ≡ true))
              × (total runs_in (run c conf).1 ≡ 0)
              × (stop k (run c conf).0 ≡ panics)))
unfolding run stop
run_ends c conf k = ground arith
