-- ===== src/Runbook/Tests.antt =====
-- A named pipe on Windows that cannot be made.
use jec.Prelude.{◌≡◌, err, not, ◌&&◌, ◌||◌, false}
use jec.Runbook.Windows.{Winio, life, is_none, is_ok, life_panics}

-- ListenPipe fails, and the script ends without a pipe.
abbrev unheard : Winio
unheard = record { listens = false; accepted = err "no listener"; dials = false }

life_panics_example :
    is_none (life unheard false "1")
    ≡ (not unheard.listens || (not (false && is_ok unheard.accepted) && not unheard.dials))
life_panics_example = life_panics unheard false "1"
