-- ===== src/Queue/Poller/Goroutine.antt =====
-- The goroutine of `run` in queue/poller.go beside the callers of Start and Stop, step by step.
--
-- startStopMu is held by Start, which has no wait inside, and by Stop until it returns. A call of poll
-- is one step, when it returns.
pub mod Laws
mod Tests
use jec.Prelude.{
  String, ℕ, suc, ◌-◌, ◌==◌, ◌≡◌, Bool, true, false, List, [], ◌∷◌, ◌++◌, Option, none, some,
  if◌then◌else◌,
}
use jec.Queue.Sqs.{Provider}
use jec.Config.Types.{PollerConf}
use jec.Queue.Poller
use jec.Queue.Poller.{Poller, Chance, poll, new_poller}

-- Where a goroutine of run stands: at its `select`, inside poll, or at the `select` of wait.
pub data At : Type 0 where
  selecting polling waiting : At

pub record Machine : Type 0 where
  pub poller : Poller
  pub running_wg : ℕ
  pub goroutines : List At
  -- Stop waits for the wait group
  pub stopping : Bool

unfoldable pub new_machine : Provider → PollerConf → String → Machine
unfolding new_poller
new_machine p conf owner = record {
  poller = new_poller p conf owner;
  running_wg = 0;
  goroutines = [];
  stopping = false;
}

unfoldable pub start : Machine → Machine
start m = if m.poller.is_running then m else record m {
  poller = record m.poller { is_running = true };
  running_wg = suc m.running_wg;
  goroutines = selecting ∷ m.goroutines;
}

-- Stop up to its wait; closing quit a second time panics.
unfoldable pub stop : Machine → Machine
stop m =
    if m.poller.is_running
    then if m.poller.quit_closed
      then record m { poller = record m.poller { panicked = true } }
      else record m {
        poller = record m.poller { quit_closed = true; wake_up_closed = true };
        stopping = true;
      }
    else m

-- isRunningWg.Done() of a goroutine that returns.
unfoldable pub done : List At → Machine → Machine
done ws m =
    if m.running_wg == 0
    then record m { goroutines = ws; poller = record m.poller { panicked = true } }
    else record m { goroutines = ws; running_wg = m.running_wg - 1 }

-- After poll: wait is called if poll says so.
abbrev pub after_poll : Bool → At
after_poll true = waiting
after_poll false = selecting

pub data Step (m : Machine) : Machine → Type 0 where
  starts : m.stopping ≡ false → Step m (start m)
  stops : m.stopping ≡ false → Step m (stop m)
  stop_returns :
      m.stopping ≡ true
      → m.running_wg ≡ 0
      → Step m (record m { poller = record m.poller { is_running = false }; stopping = false })
  -- the `select` of run takes its default only if quit is open
  sees_quit :
      (us vs : List At)
      → m.goroutines ≡ us ++ selecting ∷ vs
      → m.poller.quit_closed ≡ true
      → Step m (done (us ++ vs) m)
  skips :
      (us vs : List At)
      → m.goroutines ≡ us ++ selecting ∷ vs
      → m.poller.quit_closed ≡ false
      → m.poller.provider.is_token_expired ≡ true
      → Step m (record m { goroutines = us ++ waiting ∷ vs })
  polls :
      (us vs : List At)
      → m.goroutines ≡ us ++ selecting ∷ vs
      → m.poller.quit_closed ≡ false
      → m.poller.provider.is_token_expired ≡ false
      → Step m (record m { goroutines = us ++ polling ∷ vs })
  poll_returns :
      (us vs : List At) (c : Chance)
      → m.goroutines ≡ us ++ polling ∷ vs
      → Step m (record m {
        poller = record m.poller { provider = (poll m.poller.poller_conf c m.poller.provider).1 };
        goroutines = us ++ after_poll (poll m.poller.poller_conf c m.poller.provider).0 ∷ vs;
      })
  -- the two cases of the `select` of wait
  wakes :
      (us vs : List At)
      → m.goroutines ≡ us ++ waiting ∷ vs
      → m.poller.wake_up_closed ≡ true
      → Step m (record m { goroutines = us ++ selecting ∷ vs })
  ticks :
      (us vs : List At)
      → m.goroutines ≡ us ++ waiting ∷ vs
      → Step m (record m { goroutines = us ++ selecting ∷ vs })

-- What a poller made by NewPoller may come to. A panic ends the process.
pub data Reach (p : Provider) (conf : PollerConf) (owner : String) : Machine → Type 0 where
  fresh : Reach p conf owner (new_machine p conf owner)
  later :
      {m n : Machine}
      → Reach p conf owner m
      → m.poller.panicked ≡ false
      → Step m n
      → Reach p conf owner n

abbrev pub is_tick : {m n : Machine} → Step m n → Bool
is_tick (ticks us vs e) = true
is_tick _ = false

-- Steps that no timer makes and no caller of Start or Stop begins, at most so many.
pub data Promptly (m : Machine) : ℕ → Machine → Type 0 where
  stays : Promptly m 0 m
  goes :
      {n o : Machine} {k : ℕ}
      → Promptly m k n
      → n.poller.panicked ≡ false
      → (st : Step n o) → is_tick st ≡ false
      → Promptly m (suc k) o
