-- ===== src/Queue/Lifecycle/Invariant.antt =====
-- The order of Start, Stop and the ends of the goroutines of queue/processor.go.
use jec.Prelude.{
  ◌+◌, ◌<◌, ◌≤◌, ◌≡◌, ◌⊎◌, inl, inr, true, false, String, List, Option, none, some, Result, ok, err,
  arith, Bool-cases,
}
use jec.Git.Repositories.{Repositories, Effect}
use jec.Queue.Token.{Token}
use jec.Queue.Lifecycle.{
  System, Answers, start, start_token, start_with, downloads, refresh, stop, finish, end_loop,
  end_pulling, done, tick, given, set_pollers,
}
use jec.Queue.Lifecycle.Step.{
  Step, starts, stops, stop_returns, loop_ends, loop_ticks, pulling_ends, polls,
}

pub record Life (s : System) : Type 0 where
  pub counted : s.running_wg ≡ s.loops + s.pulls
  pub loops_le : s.loops ≤ s.starts
  pub unstarted :
      s.starts ≡ 0
      → (s.is_running ≡ false) × (s.quit_closed ≡ false) × (s.stopping ≡ false) × (s.pulls ≡ 0)
  pub pool_runs : s.pool_running ≡ s.is_running
  pub idle : s.is_running ≡ false → s.running_wg ≡ 0
  pub waits : s.stopping ≡ true → (s.is_running ≡ true) × (s.quit_closed ≡ true)
  pub open_yet : s.starts ≤ 1 → s.is_running ≡ true → s.stopping ≡ false → s.quit_closed ≡ false
  pub ended : s.starts ≤ 1 → 0 < s.starts → s.loops ≡ 0 → s.quit_closed ≡ true

start_with-Life :
    (a : Answers) (t : Option Token) (s : System) (x : Repositories × Option String × List Effect)
    → s.is_running ≡ false
    → s.stopping ≡ false
    → (start_with a t s x).0.starts ≤ 1
    → Life s
    → Life (start_with a t s x).0
unfolding start_with
start_with-Life a t s (r, some e, fx) down free few l = ground arith
start_with-Life a t s (r, none, fx) down free few l = ground arith

given-Life : (t : Option Token) (s : System) → Life s → Life (given t s)
given-Life t s l = ground arith

start_token-Life :
    (a : Answers) (r : Result (Option Token)) (s : System)
    → s.is_running ≡ false
    → s.stopping ≡ false
    → (start_token a r s).0.starts ≤ 1
    → Life s
    → Life (start_token a r s).0
unfolding start_token
start_token-Life a (err e) s down free few l = l
start_token-Life a (ok t) s down free few l =
    start_with-Life a t (given t s) (downloads a s) down free few (given-Life t s l)

-- A call of Start changes nothing, or it goes on to the token.
pub start-cases :
    (a : Answers) (s : System)
    → ((start a s).0 ≡ s) ⊎ ((s.is_running ≡ false) × ((start a s).0 ≡ (start_token a a.token s).0))
unfolding start
start-cases a s = elim (Bool-cases s.is_running) [
  | inl running ↦ inl (rw (running, start))
  | inr down ↦ inr (down, rw (down, start))
]

start-Life :
    (a : Answers) (s : System)
    → s.stopping ≡ false
    → (start a s).0.starts ≤ 1
    → Life s
    → Life (start a s).0
start-Life a s free few l = elim (start-cases a s) [
  | inl same ↦ rw same l
  | inr (down, e) ↦ rw e (start_token-Life a a.token s down free (rw (← e) few) l)
]

pub Step-Life : {s t : System} → Step s t → t.starts ≤ 1 → Life s → Life t
unfolding stop finish end_loop end_pulling tick refresh set_pollers
Step-Life (starts a free) few l = start-Life a _ free few l
Step-Life (stops free) few l = ground arith
Step-Life (stop_returns fails waits done) few l = ground arith
Step-Life (loop_ends some_loop quit) few l = ground arith
Step-Life (loop_ticks connects (err e) some_loop) few l = ground arith
Step-Life (loop_ticks connects (ok none) some_loop) few l = ground arith
Step-Life (loop_ticks connects (ok (some t)) some_loop) few l = ground arith
Step-Life (pulling_ends some_pull quit) few l = ground arith
Step-Life (polls u p c there) few l = ground arith

pub starts_mono : {s t : System} → Step s t → s.starts ≤ t.starts
unfolding stop finish end_loop end_pulling tick refresh set_pollers start start_token start_with
starts_mono (starts a free) = ground arith
starts_mono (stops free) = ground arith
starts_mono (stop_returns fails waits done) = omega arith
starts_mono (loop_ends some_loop quit) = ground arith
starts_mono (loop_ticks connects (err e) some_loop) = ground arith
starts_mono (loop_ticks connects (ok none) some_loop) = ground arith
starts_mono (loop_ticks connects (ok (some t)) some_loop) = ground arith
starts_mono (pulling_ends some_pull quit) = ground arith
starts_mono (polls u p c there) = omega arith
