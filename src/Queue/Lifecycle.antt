-- ===== src/Queue/Lifecycle.antt =====
-- Start, Stop, run and startPullingRepositories of queue/processor.go: the processor with its
-- goroutines, its repositories and its pollers.
--
-- `loops` and `pulls` are the goroutines of run and of startPullingRepositories that have not ended,
-- and `running_wg` is the wait group isRunningWg that counts them. What the world answers to Start (the
-- token, the clones) and to a tick (the token) is an argument. Of the worker pool only whether it is
-- started is kept: the module WorkerPool is about the rest.
pub mod Step
pub mod Live
pub mod Invariant
pub mod Calm
pub mod Staff
pub mod Cleanup
pub mod Safety
pub mod Samples
mod Tests
use jec.Prelude.{
  ℕ, zero, suc, ◌-◌, ◌==◌, ℤ, ltb_ℤ, pos, Bool, true, false, not, ◌||◌, String, List, [], ◌∷◌, ◌++◌,
  Option, none, some, Result, ok, err, if◌then◌else◌,
}
use jec.Config.Types.{Options, ActionMappings, Configuration}
use jec.Config.Validate.{git_actions, add_repository_path_to_git_action_filepaths}
use jec.Git.Repositories.{
  Repository, Repositories, Disk, Effect, removed, not_empty, new_repositories, download_all,
}
use jec.Queue.Token.{Token}
use jec.Queue.Sqs.{Client}
use jec.Queue.Poller
use jec.Queue.Poller.{Poller}
use jec.Queue.Processor.{Pollers, Processor, new_poller_conf, good_periods, refresh_pollers}

pub record System : Type 0 where
  pub processor : Processor
  pub repositories : Repositories
  pub action_mappings : ActionMappings
  pub pool_running : Bool
  pub is_running : Bool
  pub quit_closed : Bool
  pub running_wg : ℕ
  pub loops : ℕ
  pub pulls : ℕ
  -- Stop waits for the wait group, holding startStopMu
  pub stopping : Bool
  -- a channel is closed twice, the wait group falls below zero, a nil token is read, or a ticker is
  -- made of a period that is not positive
  pub panicked : Bool
  -- the history: whether a token was nil or set a period that is not positive, calls of Start that
  -- succeeded, directories made and removed
  pub ill_given : Bool
  pub starts : ℕ
  pub disk : List Effect

pub data Error : Type 0 where
  already_running not_running : Error
  no_token no_clone : String → Error

-- What the world answers to one call of Start. `join` is filepath.Join.
pub record Answers : Type 0 where
  pub token : Result (Option Token)
  pub disk_of : ℕ → Disk
  pub connects : Client → Bool
  pub join : String → String → String

abbrev minute : ℕ
minute = 60000000000

-- NewProcessor
unfoldable pub new : Configuration → System
unfolding new_poller_conf
new c = record {
  processor = record {
    pollers = [];
    poller_conf = new_poller_conf c.poller_conf;
    success_refresh_period = pos minute;
    error_refresh_period = pos minute;
  };
  repositories = new_repositories;
  action_mappings = c.action_specifications.action_mappings;
  pool_running = false;
  is_running = false;
  quit_closed = false;
  running_wg = 0;
  loops = 0;
  pulls = 0;
  stopping = false;
  panicked = false;
  ill_given = false;
  starts = 0;
  disk = [];
}

-- The clones of DownloadAll, each with the disk of its time.
abbrev pub with_disks : (ℕ → Disk) → ℕ → List Options → List (Disk × Options)
with_disks d i [] = []
with_disks d i (o ∷ os) = (d i, o) ∷ with_disks d (suc i) os

abbrev pub any_panicked : List Poller → Bool
any_panicked [] = false
any_panicked (p ∷ ps) = p.panicked || any_panicked ps

abbrev pub is_ill : Option Token → Bool
is_ill none = true
is_ill (some t) = not (good_periods t.queue_properties_list)

-- A token is noted before it is used.
abbrev pub given : Option Token → System → System
given t s = record s { ill_given = s.ill_given || is_ill t }

-- refreshPollers, with what becomes of the pollers that it stops. A nil token is dereferenced: what
-- this model does after a panic is of no account, as it ends the process.
unfoldable pub refresh : (Client → Bool) → Option Token → System → System
unfolding refresh_pollers
refresh connects none s = record s { panicked = true }
refresh connects (some t) s =
    let (p, stopped) = refresh_pollers connects t s.processor in
    record s { processor = p; panicked = s.panicked || any_panicked stopped }

-- The goroutine that pulls the repositories is started if there are any.
unfoldable pub begin_pulling : Answers → System → System
begin_pulling a s =
    if not_empty s.repositories
    then record s {
      running_wg = suc s.running_wg;
      pulls = suc s.pulls;
      action_mappings =
          add_repository_path_to_git_action_filepaths a.join s.repositories s.action_mappings;
    }
    else s

-- time.NewTicker panics unless the period is positive.
unfoldable pub make_ticker : ℤ → System → System
make_ticker period s = if ltb_ℤ (pos 0) period then s else record s { panicked = true }

-- The end of a Start that has got its token and its repositories, and the first ticker of run.
unfoldable pub begin_running : System → System
unfolding make_ticker
begin_running s = make_ticker s.processor.success_refresh_period (record s {
  running_wg = suc s.running_wg;
  loops = suc s.loops;
  is_running = true;
  starts = suc s.starts;
})

unfoldable pub start_pool : System → System
start_pool s = record s { pool_running = true }

unfoldable pub downloaded : Repositories → List Effect → System → System
downloaded r fx s = record s { repositories = r; disk = s.disk ++ fx }

unfoldable pub start_with :
    Answers
    → Option Token
    → System
    → Repositories × Option String × List Effect
    → System × Option Error
unfolding downloaded begin_pulling start_pool refresh begin_running
start_with a t s (r, some e, fx) = (downloaded r fx s, some (no_clone e))
start_with a t s (r, none, fx) =
    (begin_running (refresh a.connects t (start_pool (begin_pulling a (downloaded r fx s)))), none)

unfoldable pub downloads : Answers → System → Repositories × Option String × List Effect
unfolding download_all git_actions
downloads a s = download_all (with_disks a.disk_of 0 (git_actions s.action_mappings)) s.repositories

unfoldable pub start_token : Answers → Result (Option Token) → System → System × Option Error
unfolding start_with downloads
start_token a (err e) s = (s, some (no_token e))
start_token a (ok t) s = start_with a t (given t s) (downloads a s)

unfoldable pub start : Answers → System → System × Option Error
unfolding start_token
start a s = if s.is_running then (s, some already_running) else start_token a a.token s

-- Stop up to its wait for the goroutines; closing quit a second time panics.
unfoldable pub stop : System → System × Option Error
stop s =
    if not s.is_running
    then (s, some not_running)
    else if s.quit_closed
    then (record s { panicked = true }, none)
    else (record s { quit_closed = true; stopping = true }, none)

-- RemoveAll: a directory that cannot be removed is only logged.
unfoldable pub remove_all : (String → Bool) → Repositories → List Effect
remove_all fails [] = []
remove_all fails ((url, r) ∷ rs) =
    let rest = remove_all fails rs in if fails r.path then rest else removed r.path ∷ rest

-- Stop once the goroutines are done. The map of the repositories is left as it is.
unfoldable pub finish : (String → Bool) → System → System
unfolding remove_all
finish fails s = record s {
  pool_running = false;
  disk = s.disk ++ remove_all fails s.repositories;
  is_running = false;
  stopping = false;
}

-- isRunningWg.Done()
unfoldable pub done : System → System
done s =
    if s.running_wg == 0
    then record s { panicked = true }
    else record s { running_wg = s.running_wg - 1 }

unfoldable pub stop_pollers : Pollers → Pollers
unfolding Poller.stop
stop_pollers [] = []
stop_pollers ((k, p) ∷ ps) = (k, (Poller.stop p).0) ∷ stop_pollers ps

abbrev pub pollers_panicked : Pollers → Bool
pollers_panicked [] = false
pollers_panicked ((k, p) ∷ ps) = p.panicked || pollers_panicked ps

unfoldable pub set_pollers : Pollers → System → System
set_pollers ps s = record s { processor = record s.processor { pollers = ps } }

-- The end of run: every poller is stopped.
unfoldable pub end_loop : System → System
unfolding stop_pollers set_pollers done
end_loop s =
    let ps = stop_pollers s.processor.pollers in
    done (
      set_pollers ps
        (record s { loops = s.loops - 1; panicked = s.panicked || pollers_panicked ps }))

-- The end of startPullingRepositories.
unfoldable pub end_pulling : System → System
unfolding done
end_pulling s = done (record s { pulls = s.pulls - 1 })

abbrev renew_ticker : System → System
renew_ticker s = make_ticker s.processor.success_refresh_period s

-- A tick of run: a token that cannot be received changes nothing but the time of the next tick.
unfoldable pub tick : (Client → Bool) → Result (Option Token) → System → System
unfolding refresh make_ticker
tick connects (err e) s = make_ticker s.processor.error_refresh_period s
tick connects (ok t) s = renew_ticker (refresh connects t (given t s))
