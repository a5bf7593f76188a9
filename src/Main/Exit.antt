-- ===== src/Main/Exit.antt =====
-- How the process of main/main.go ends.
use jec.Prelude.{ℕ, ◌≡◌, Bool, true, false, String, Option, none, some, Result, total, arith}
use jec.Config.Types.{Configuration}
use jec.Git.Leftovers.{left_by}
use jec.Git.Laws.{made_by, removed_by}
use jec.Queue.Lifecycle.{Error, finish}
use jec.Queue.Lifecycle.Live.{IsStopped, Each}
use jec.Queue.Lifecycle.Safety.{Reach-Inv, stop_cleans}
use jec.Main.{
  Process, exit_on, call_start, call_stop, return_stop, Moves, calls_start, receives_signal,
  calls_stop, stop_returns, works, Reach, booted, later,
}
use jec.Main.Leftovers.{Reach-tidy}
use jec.Main.Sound.{Sound, Reach-Sound, boot_lem, exit_on_lem}

-- What is left behind when main has returned from Stop.
abbrev pub Clean : (String → ℕ) → Process → Type 0
Clean k p =
    (p.system.starts ≡ 1)
    × (p.system.loops ≡ 0)
    × (p.system.pulls ≡ 0)
    × Each IsStopped p.system.processor.pollers
    × (p.system.pool_running ≡ false)
    × (total (made_by k) p.system.disk ≡ total (removed_by k) p.system.disk)

return_stop-Clean :
    (fails : String → Bool) {p : Process} (k : String → ℕ)
    → ((path : String) → fails path ≡ false)
    → Sound p
    → total (left_by k) p.system.disk ≡ 0
    → p.system.stopping ≡ true
    → p.system.running_wg ≡ 0
    → Clean k (return_stop fails p)
unfolding return_stop finish
return_stop-Clean fails {p} k removes v tidy waits none_left =
    let l = (Reach-Inv v.reached v.once).0 in
    let begun : p.system.starts ≡ 1 = ground (arith, l.unstarted, v.once) in
    let (loops, pulls, stopped, pool, disk) =
      stop_cleans k fails v.reached begun waits none_left removes in
    (begun, loops, pulls, stopped, pool, omega (arith, disk, tidy))

pub call_exit : (e : Option Error) (p : Process) → p.exit ≡ none → (exit_on e p).exit ≡ some 0 → ⊥
call_exit e p runs z =
    let (same, called, stop_called, ran, ends) = exit_on_lem e p in
    absurd (ground (arith, runs, ends z))

Moves-Clean :
    {fails : String → Bool} {p q : Process} (k : String → ℕ)
    → ((path : String) → fails path ≡ false)
    → Sound p
    → total (left_by k) p.system.disk ≡ 0
    → p.exit ≡ none
    → Moves fails p q
    → q.exit ≡ some 0
    → Clean k q
unfolding call_start call_stop
Moves-Clean k removes v tidy runs (calls_start a first free) z = absurd (call_exit _ _ runs z)
Moves-Clean k removes v tidy runs (receives_signal first) z = absurd (ground (arith, runs, z))
Moves-Clean k removes v tidy runs (calls_stop signal first free) z = absurd (call_exit _ _ runs z)
Moves-Clean {fails} k removes v tidy runs (stop_returns waits none_left) z =
    return_stop-Clean fails k removes v tidy waits none_left
Moves-Clean k removes v tidy runs (works st g) z = absurd (ground (arith, runs, z))

module _ {fails : String → Bool} {r : Result Configuration} where
  -- If every directory can be removed, then a process that exits with status 0 has started its processor
  -- once, no goroutine of it runs, all its pollers and its worker pool are stopped, and all
  -- directories made for repositories are removed (their counts agree under every weight of paths).
  pub exits-Clean :
      {p : Process} (k : String → ℕ)
      → ((path : String) → fails path ≡ false)
      → Reach fails r p
      → p.exit ≡ some 0
      → Clean k p
  exits-Clean k removes (booted {p} e) z =
      let (c, same, first, no_stop, runs) = boot_lem r p e in absurd (ground (arith, z, runs))
  exits-Clean k removes (later rp runs alive m) z =
      Moves-Clean k removes (Reach-Sound rp) (Reach-tidy k rp runs) runs m z
