-- ===== src/Queue/Lifecycle/Safety.antt =====
-- What holds of every processor of queue/processor.go that NewProcessor makes, whatever its callers,
-- its goroutines, its pollers and the world do.
use jec.Prelude.{
  ◌+◌, ap, ℕ, ◌-◌, ◌≤◌, ◌≡◌, ◌⊎◌, refl, inl, inr, true, false, Bool, String, List, Option, none,
  some, ok, total, total-append, arith, Bool-cases, lookup, ltb,
}
use jec.Config.Types.{Configuration}
use jec.Git.Repositories.{Repositories, Effect}
use jec.Git.Leftovers.{left_by}
use jec.Git.Laws.{made_by, removed_by}
use jec.Queue.Token.{Token}
use jec.Queue.Lifecycle.{
  System, given, Answers, start, start_token, start_with, downloads, stop, finish, end_pulling,
  done, set_pollers, remove_all, new,
}
use jec.Queue.Lifecycle.Live.{IsStopped, Each, Each-lookup}
use jec.Queue.Lifecycle.Step.{
  Step, starts, stops, stop_returns, loop_ends, loop_ticks, pulling_ends, polls, Reach, fresh,
  later,
}
use jec.Queue.Poller.{Poller}
use jec.Queue.Processor.{Processor}
use jec.Queue.Lifecycle.Cleanup.{Keeps, Step-Keeps, remove_all_lem}
use jec.Queue.Lifecycle.Invariant.{Life, Step-Life, starts_mono}
use jec.Queue.Lifecycle.Calm.{IsCalm, IsCalm-same}
use jec.Queue.Lifecycle.Staff.{
  Staff, start-Staff, tick-Staff, polls-Staff, end_loop-Staff, done_lem, done_calm, Staff-same,
}

stop_lem :
    (s : System)
    → s.stopping ≡ false
    → s.starts ≤ 1
    → Life s
    → ((stop s).0.processor ≡ s.processor)
      × ((stop s).0.loops ≡ s.loops)
      × ((stop s).0.starts ≡ s.starts)
      × ((stop s).0.panicked ≡ s.panicked)
      × ((stop s).0.ill_given ≡ s.ill_given)
unfolding stop
stop_lem s free few l = ground arith

Step-Staff :
    {s t : System} → Step s t → t.starts ≤ 1 → Life s → Staff s → IsCalm s → Staff t × IsCalm t
unfolding finish end_pulling set_pollers
Step-Staff (starts a free) few l f calm = start-Staff a _ few f calm
Step-Staff {s} (stops free) few l f calm =
    let (p, n, e, same, ill) =
      stop_lem s free (omega (arith, starts_mono {s = s} (stops free))) l in
    (
      Staff-same p n e f,
      IsCalm-same s (stop s).0 ill same (ap (λ (q : Processor). q.success_refresh_period) p)
          (ap (λ (q : Processor). q.error_refresh_period) p) calm,
    )
Step-Staff (stop_returns fails waits done) few l f calm = (Staff-same refl refl refl f, calm)
Step-Staff {s} (loop_ends some_loop quit) few l f calm =
    end_loop-Staff s some_loop (omega (arith, starts_mono {s = s} (loop_ends some_loop quit))) l f
      calm
Step-Staff {s} (loop_ticks connects r some_loop) few l f calm =
    tick-Staff connects r s some_loop l f calm
Step-Staff {s} (pulling_ends some_pull quit) few l f calm =
    let (same, gone, begun, ill) = done_lem (record s { pulls = s.pulls - 1 }) in
    (
      Staff-same same gone begun f,
      IsCalm-same s (end_pulling s) ill
          (done_calm (record s { pulls = s.pulls - 1 }) (omega (arith, l.counted)))
          (ap (λ (q : Processor). q.success_refresh_period) same)
          (ap (λ (q : Processor). q.error_refresh_period) same) calm,
    )
Step-Staff {s} (polls u p c there) few l f calm = (polls-Staff u p c s there f, calm)

new-Life : (c : Configuration) → Life (new c)
unfolding new
new-Life c = ground arith

new-Staff : (c : Configuration) → Staff (new c)
unfolding new
new-Staff c = record { none_yet = λ e. refl; live = λ h. absurd (omega arith); stopped = λ e. tt }

new-Keeps : (k : String → ℕ) (c : Configuration) → Keeps k (new c)
unfolding new
new-Keeps k c = λ when. refl

abbrev pub Inv : System → Type 0
Inv s = Life s × Staff s × IsCalm s

pub Reach-Inv : {c : Configuration} {s : System} → Reach c s → s.starts ≤ 1 → Inv s
unfolding new
Reach-Inv {c} fresh few = (new-Life c, new-Staff c, λ well. (refl, (refl, refl)))
Reach-Inv (later r alive st) few =
    let (l, f, calm) = Reach-Inv r (omega (arith, starts_mono st)) in
    let (f', calm') = Step-Staff st few l f calm in (Step-Life st few l, f', calm')

Reach-Keeps :
    (k : String → ℕ) {c : Configuration} {s : System} → Reach c s → s.starts ≤ 1 → Keeps k s
Reach-Keeps k {c} fresh few = new-Keeps k c
Reach-Keeps k (later r alive st) few =
    let less : _ ≤ 1 = omega (arith, starts_mono st) in
    Step-Keeps k st few (Reach-Inv r less).0 (Reach-Keeps k r less)

-- A processor that is started at most once, and whose tokens were not null and set only positive
-- refresh periods (in nanoseconds, as int64 holds them), does not panic: it closes no channel twice, no
-- poller does, its wait group stays at or above zero, and it makes no ticker that panics.
pub processor-no_panic :
    {c : Configuration} {s : System}
    → Reach c s
    → s.starts ≤ 1
    → s.ill_given ≡ false
    → s.panicked ≡ false
processor-no_panic r few well = ((Reach-Inv r few).2 well).0

-- When Stop returns, in a processor that was started once and whose directories can all be removed: its
-- two goroutines have ended, every poller has been stopped, the worker pool is stopped, and all
-- directories that were made for repositories are removed, but for those of failed clones that could not
-- be (their counts agree under every weight of paths).
pub stop_cleans :
    {c : Configuration} {s : System} (k : String → ℕ) (fails : String → Bool)
    → Reach c s
    → s.starts ≡ 1
    → s.stopping ≡ true
    → s.running_wg ≡ 0
    → ((path : String) → fails path ≡ false)
    → ((finish fails s).loops ≡ 0)
      × ((finish fails s).pulls ≡ 0)
      × Each IsStopped (finish fails s).processor.pollers
      × ((finish fails s).pool_running ≡ false)
      × (total (made_by k) (finish fails s).disk
          ≡ total (removed_by k) (finish fails s).disk + total (left_by k) s.disk)
unfolding finish
stop_cleans {s} k fails r one waits done works =
    let (l, f, calm) = Reach-Inv r (omega (arith, one)) in
    let (none_made, all_removed) = remove_all_lem k fails s.repositories works in
    let ended : s.loops ≡ 0 = omega (arith, l.counted) in
    (
      ended,
      omega (arith, l.counted),
      f.stopped ended,
      refl,
      omega (
        arith,
        Reach-Keeps k r (omega (arith, one)) (inr (l.waits waits).0),
        none_made,
        all_removed,
        total-append (made_by k) s.disk (remove_all fails s.repositories),
        total-append (removed_by k) s.disk (remove_all fails s.repositories),
      ),
    )

-- In every state that a processor started at most once can reach, each poller is stopped or the worker
-- pool is running.
pub polls_while_pool_runs :
    {c : Configuration} {s : System} (url : String) (p : Poller)
    → Reach c s
    → s.starts ≤ 1
    → lookup url s.processor.pollers ≡ some p
    → (s.pool_running ≡ true) ⊎ IsStopped p
polls_while_pool_runs {s} url p r few there =
    let (l, f, calm) = Reach-Inv r few in
    elim (Bool-cases (ltb 0 s.loops)) [
      | inl some_loop ↦ inl (ground (arith, l.pool_runs, l.idle, l.counted))
      | inr ended ↦
          inr (Each-lookup IsStopped url p s.processor.pollers (f.stopped (ground arith)) there)
    ]

start_found :
    (a : Answers) (t : Option Token) (s : System)
    → s.is_running ≡ false
    → a.token ≡ ok t
    → start a s ≡ start_with a t (given t s) (downloads a s)
unfolding start start_token
start_found a t s down token = rw (down, start, token, start_token)

begun_lem :
    (a : Answers) (t : Option Token) (s : System) (x : Repositories × Option String × List Effect)
    → x.1 ≡ none
    → s.quit_closed ≡ true
    → ((start_with a t s x).1 ≡ none) × ((stop (start_with a t s x).0).0.panicked ≡ true)
unfolding start_with stop
begun_lem a t s (r, some e, fx) cloned shut = ground arith
begun_lem a t s (r, none, fx) cloned shut = ground arith

-- After Stop has closed quit, a call of Start that finds its token and its repositories succeeds, and
-- the next Stop panics, as it closes quit again.
pub processor_restart_panics :
    (a : Answers) (t : Token) (s : System)
    → s.is_running ≡ false
    → s.quit_closed ≡ true
    → a.token ≡ ok (some t)
    → (downloads a s).1 ≡ none
    → ((start a s).1 ≡ none) × ((stop (start a s).0).0.panicked ≡ true)
processor_restart_panics a t s down shut token cloned =
    rw (start_found a (some t) s down token)
      (begun_lem a (some t) (given (some t) s) (downloads a s) cloned shut)
