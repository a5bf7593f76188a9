-- ===== src/Main/Liveness.antt =====
-- The process of main/main.go is not left waiting: from any state in which it runs and has got its
-- signal there is a schedule after which it exits.
use jec.Prelude.{
  ℕ, zero, suc, ◌≡◌, ◌∙◌, refl, true, false, String, Bool, none, some, Result, arith, Bool-cases,
  ltb, inl, inr,
}
use jec.Config.Types.{Configuration}
use jec.Queue.Lifecycle.{System, end_loop, end_pulling, done, set_pollers, stop}
use jec.Queue.Lifecycle.Step
use jec.Queue.Lifecycle.Safety.{Reach-Inv}
use jec.Main.{
  Process, exit_on, call_stop, return_stop, Moves, calls_stop, stop_returns, works, Reach,
}
use jec.Main.Sound.{Sound, Reach-Sound, Moves-Sound, stop_lem, work_lem}

-- `q` follows `p` by moves before any of which the process has not ended.
pub data Runs (fails : String → Bool) (q : Process) : Process → Type 0 where
  here : Runs fails q q
  next :
      {p u : Process}
      → p.exit ≡ none
      → p.system.panicked ≡ false
      → Moves fails p u
      → Runs fails q u
      → Runs fails q p

module _ (fails : String → Bool) where
  abbrev Exits : Process → Type 0
  Exits p = (q : Process) × Runs fails q p × (q.exit ≡ some 0)

  -- The process waits in Stop for `n` goroutines.
  abbrev WaitsFor : ℕ → Process → Type 0
  WaitsFor n p =
      (p.exit ≡ none)
      × (p.system.stopping ≡ true)
      × (p.system.running_wg ≡ n)
      × (p.system.ill_given ≡ false)

  end_loop_lem :
      (n : ℕ) (s : System)
      → s.running_wg ≡ suc n
      → ((end_loop s).running_wg ≡ n) × ((end_loop s).ill_given ≡ s.ill_given)
  unfolding end_loop done set_pollers
  end_loop_lem n s h = ground arith

  end_pulling_lem :
      (n : ℕ) (s : System)
      → s.running_wg ≡ suc n
      → ((end_pulling s).running_wg ≡ n) × ((end_pulling s).ill_given ≡ s.ill_given)
  unfolding end_pulling done
  end_pulling_lem n s h = ground arith

  waiting-Exits : (n : ℕ) (p : Process) → Sound p → WaitsFor n p → Exits p
  unfolding return_stop
  waiting-Exits zero p v (runs, waits, left, well) =
      let calm = ((Reach-Inv v.reached v.once).2 well).0 in
      (return_stop fails p, next runs calm (stop_returns waits left) here, refl)
  waiting-Exits (suc n) p v (runs, waits, left, well) =
      let (l, f, still) = Reach-Inv v.reached v.once in
      let calm = (still well).0 in
      elim (Bool-cases (ltb 0 p.system.loops)) [
        | inl some_loop ↦
            let st : Step.Step p.system (end_loop p.system) =
              Step.loop_ends (ground (arith, some_loop)) (l.waits waits).1 in
            let m : Moves fails p (record p { system = end_loop p.system }) = works st refl in
            let (q, rest, z) =
              waiting-Exits n (record p { system = end_loop p.system }) (Moves-Sound runs calm m v)
                (
                  runs,
                  (work_lem st refl).1 ∙ waits,
                  (end_loop_lem n p.system left).0,
                  (end_loop_lem n p.system left).1 ∙ well,
                ) in
            (q, next runs calm m rest, z)
        | inr no_loop ↦
            let st : Step.Step p.system (end_pulling p.system) =
              Step.pulling_ends (ground (arith, no_loop, l.counted, left)) (l.waits waits).1 in
            let m : Moves fails p (record p { system = end_pulling p.system }) = works st refl in
            let (q, rest, z) =
              waiting-Exits n (record p { system = end_pulling p.system })
                (Moves-Sound runs calm m v)
                (
                  runs,
                  (work_lem st refl).1 ∙ waits,
                  (end_pulling_lem n p.system left).0,
                  (end_pulling_lem n p.system left).1 ∙ well,
                ) in
            (q, next runs calm m rest, z)
      ]

  stop_ill : (s : System) → (stop s).0.ill_given ≡ s.ill_given
  unfolding stop
  stop_ill s = ground arith

  call_stop_lem :
      (p : Process)
      → p.exit ≡ none
      → (stop p.system).1 ≡ none
      → ((call_stop p).exit ≡ none) × ((call_stop p).system ≡ (stop p.system).0)
  unfolding call_stop exit_on
  call_stop_lem p runs fine = rw fine (runs, refl)

  module _ {r : Result Configuration} where
    -- A process that has got its signal while its processor runs, and whose tokens were not null and set
    -- only positive refresh periods (in nanoseconds, as int64 holds them), can go on to exit with status
    -- 0, by moves of main and of the goroutines.
    pub can_exit :
        (p : Process)
        → Reach fails r p
        → p.exit ≡ none
        → p.signalled ≡ true
        → p.system.is_running ≡ true
        → p.system.ill_given ≡ false
        → (q : Process) × Runs fails q p × (q.exit ≡ some 0)
    can_exit p rp runs signal up well =
        let v = Reach-Sound rp in
        let (l, f, still) = Reach-Inv v.reached v.once in
        let calm = (still well).0 in
        elim (Bool-cases p.stop_called) [
          | inl called ↦
              waiting-Exits p.system.running_wg p v (runs, v.waits runs ∙ called, refl, well)
          | inr first ↦
              let free = v.waits runs ∙ first in
              let (kept, waiting, fine) = stop_lem p.system free v.once l in
              let m : Moves fails p (call_stop p) = calls_stop signal first free in
              let (going, same) = call_stop_lem p runs (fine up) in
              let (q, rest, z) =
                waiting-Exits (call_stop p).system.running_wg (call_stop p)
                  (Moves-Sound runs calm m v)
                  (going, rw same (waiting (fine up)), refl, rw same (stop_ill p.system ∙ well)) in
              (q, next runs calm m rest, z)
        ]
