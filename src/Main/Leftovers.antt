-- ===== src/Main/Leftovers.antt =====
-- While the process of main/main.go runs, no directory of a failed clone is left: a Start whose clone
-- fails ends it.
use jec.Prelude.{
  ℕ, ◌≡◌, ◌≢◌, ◌⊎◌, ◌∙◌, refl, sym, ap, inl, inr, true, false, Bool, String, List, Option, none,
  some, Result, ok, err, total, total-append, arith, Bool-cases,
}
use jec.Config.Types.{Configuration}
use jec.Config.Validate.{git_actions}
use jec.Git.Repositories.{Repositories, Effect}
use jec.Git.Leftovers.{left_by}
use jec.Git.Laws.{download_all-Balanced}
use jec.Queue.Token.{Token}
use jec.Queue.Lifecycle
use jec.Queue.Lifecycle.{
  System, Error, Answers, given, start, start_token, start_with, downloads, with_disks, stop,
  end_loop, end_pulling, done, tick, refresh, set_pollers,
}
use jec.Queue.Lifecycle.Step
use jec.Queue.Lifecycle.Cleanup.{start_with_disk}
use jec.Main.{
  Process, by_goroutine, call_start, call_stop, return_stop, Moves, calls_start, receives_signal,
  calls_stop, stop_returns, works, Reach, booted, later,
}
use jec.Main.Sound.{boot_lem, exit_on_lem}

start_with_fine :
    (a : Answers) (t : Option Token) (s : System) (x : Repositories × Option String × List Effect)
    → (start_with a t s x).1 ≡ none
    → x.1 ≡ none
unfolding start_with
start_with_fine a t s (r, some e, fx) fine = absurd (ground (arith, fine))
start_with_fine a t s (r, none, fx) fine = refl

start_up : (a : Answers) (s : System) → s.is_running ≡ true → (start a s).1 ≢ none
unfolding start
start_up a s up = rw up (ground arith)

start_down : (a : Answers) (s : System) → s.is_running ≡ false → start a s ≡ start_token a a.token s
unfolding start
start_down a s down = simp down

module _ (k : String → ℕ) where
  abbrev left_in : System → ℕ
  left_in s = total (left_by k) s.disk

  start_with_left :
      (a : Answers) (t : Option Token) (s : System) (x : Repositories × Option String × List Effect)
      → (x.1 ≢ none) ⊎ (total (left_by k) x.2 ≡ 0)
      → (start_with a t s x).1 ≡ none
      → left_in (start_with a t s x).0 ≡ left_in s
  start_with_left a t s x (inr clean) fine = omega (
    arith,
    clean,
    ap (total (left_by k)) (start_with_disk k a t s x).0,
    total-append (left_by k) s.disk x.2,
  )
  start_with_left a t s x (inl bad) fine = absurd (bad (start_with_fine a t s x fine))

  start_token_left :
      (a : Answers) (r : Result (Option Token)) (s : System)
      → (start_token a r s).1 ≡ none
      → left_in (start_token a r s).0 ≡ left_in s
  unfolding start_token downloads
  start_token_left a (err e) s fine = refl
  start_token_left a (ok t) s fine =
      start_with_left a t (given t s) (downloads a s)
        (download_all-Balanced k (with_disks a.disk_of 0 (git_actions s.action_mappings))
          s.repositories).1
        fine

  start_left : (a : Answers) (s : System) → (start a s).1 ≡ none → left_in (start a s).0 ≡ left_in s
  start_left a s fine = elim (Bool-cases s.is_running) [
    | inl up ↦ absurd (start_up a s up fine)
    | inr down ↦
        ap (λ (x : System × Option Error). left_in x.0) (start_down a s down)
        ∙ start_token_left a a.token s
            (sym (ap (λ (x : System × Option Error). x.1) (start_down a s down)) ∙ fine)
  ]

  stop_left : (s : System) → left_in (stop s).0 ≡ left_in s
  unfolding stop
  stop_left s = ground arith

  work_left : {s t : System} (st : Step.Step s t) → by_goroutine st ≡ true → left_in t ≡ left_in s
  unfolding end_loop end_pulling done tick refresh set_pollers
  work_left (Step.starts a free) g = absurd (ground (arith, g))
  work_left (Step.stops free) g = absurd (ground (arith, g))
  work_left (Step.stop_returns fails waits left) g = absurd (ground (arith, g))
  work_left (Step.loop_ends some_loop quit) g = ground arith
  work_left (Step.loop_ticks connects (err e) some_loop) g = ground arith
  work_left (Step.loop_ticks connects (ok none) some_loop) g = ground arith
  work_left (Step.loop_ticks connects (ok (some t)) some_loop) g = ground arith
  work_left (Step.pulling_ends some_pull quit) g = ground arith
  work_left (Step.polls u p c there) g = refl

  Moves-tidy :
      {fails : String → Bool} {p q : Process}
      → Moves fails p q
      → left_in p.system ≡ 0
      → q.exit ≡ none
      → left_in q.system ≡ 0
  unfolding call_start call_stop return_stop
  Moves-tidy {p} (calls_start a first free) tidy runs =
      let (same, called, stop_called, ran, z) =
        exit_on_lem (start a p.system).1
          (record p { system = (start a p.system).0; start_called = true }) in
      ap left_in same ∙ start_left a p.system (ran runs).1 ∙ tidy
  Moves-tidy (receives_signal first) tidy runs = tidy
  Moves-tidy {p} (calls_stop signal first free) tidy runs =
      let (same, called, stop_called, ran, z) =
        exit_on_lem (stop p.system).1
          (record p { system = (stop p.system).0; stop_called = true }) in
      ap left_in same ∙ stop_left p.system ∙ tidy
  Moves-tidy (stop_returns waits left) tidy runs = absurd (ground (arith, runs))
  Moves-tidy (works st g) tidy runs = work_left st g ∙ tidy

  module _ {fails : String → Bool} {r : Result Configuration} where
    pub Reach-tidy : {p : Process} → Reach fails r p → p.exit ≡ none → left_in p.system ≡ 0
    unfolding Lifecycle.new
    Reach-tidy (booted {p} e) runs =
        let (c, same, first, no_stop, going) = boot_lem r p e in rw same refl
    Reach-tidy (later rp before alive m) runs = Moves-tidy m (Reach-tidy rp before) runs
