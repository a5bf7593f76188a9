-- ===== src/Main/Sound.antt =====
-- The processor inside the process of main/main.go: it is started at most once.
use jec.Prelude.{
  suc, ◌≤◌, ◌≡◌, ◌∙◌, refl, sym, Bool, true, false, String, List, Option, none, some, Result, ok,
  err, arith, inl, inr,
}
use jec.Config.Types.{Configuration}
use jec.Git.Repositories.{Repositories, Effect}
use jec.Queue.Token.{Token}
use jec.Queue.Lifecycle
use jec.Queue.Lifecycle.{
  System, given, Answers, Error, start, start_token, start_with, downloads, stop, finish, end_loop,
  end_pulling, done, tick, refresh, set_pollers,
}
use jec.Queue.Lifecycle.Step
use jec.Queue.Lifecycle.Invariant.{Life, start-cases}
use jec.Queue.Lifecycle.Safety.{Reach-Inv}
use jec.Main.{
  Process, boot, exit_on, call_start, call_stop, return_stop, by_goroutine, Moves, calls_start,
  receives_signal, calls_stop, stop_returns, works, Reach, booted, later,
}

-- How often Start succeeded, and whether Stop waits, after a call of Start.
abbrev StartKeeps : System → System → Type 0
StartKeeps s t = (t.starts ≤ suc s.starts) × (t.stopping ≡ s.stopping)

start_with_lem :
    (a : Answers) (t : Option Token) (s : System) (x : Repositories × Option String × List Effect)
    → StartKeeps s (start_with a t s x).0
unfolding start_with
start_with_lem a t s (r, some e, fx) = ground arith
start_with_lem a t s (r, none, fx) = ground arith

start_token_lem :
    (a : Answers) (r : Result (Option Token)) (s : System) → StartKeeps s (start_token a r s).0
unfolding start_token
start_token_lem a (err e) s = ground arith
start_token_lem a (ok t) s = start_with_lem a t (given t s) (downloads a s)

start_lem : (a : Answers) (s : System) → StartKeeps s (start a s).0
start_lem a s = elim (start-cases a s) [
  | inl same ↦ rw same (omega arith, refl)
  | inr (down, e) ↦ rw e (start_token_lem a a.token s)
]

pub work_lem :
    {s t : System} (st : Step.Step s t)
    → by_goroutine st ≡ true
    → (t.starts ≡ s.starts) × (t.stopping ≡ s.stopping)
unfolding end_loop end_pulling tick refresh set_pollers
work_lem (Step.starts a free) g = absurd (ground (arith, g))
work_lem (Step.stops free) g = absurd (ground (arith, g))
work_lem (Step.stop_returns fails waits done) g = absurd (ground (arith, g))
work_lem (Step.loop_ends some_loop quit) g = ground arith
work_lem (Step.loop_ticks connects (err e) some_loop) g = ground arith
work_lem (Step.loop_ticks connects (ok none) some_loop) g = ground arith
work_lem (Step.loop_ticks connects (ok (some t)) some_loop) g = ground arith
work_lem (Step.pulling_ends some_pull quit) g = ground arith
work_lem (Step.polls u p c there) g = ground arith

pub boot_lem :
    (r : Result Configuration) (p : Process)
    → boot r ≡ some p
    → (c : Configuration) × (p.system ≡ Lifecycle.new c)
      × (p.start_called ≡ false)
      × (p.stop_called ≡ false)
      × (p.exit ≡ none)
unfolding boot Lifecycle.new
boot_lem (err e) p h = absurd (ground arith)
boot_lem (ok c) p h = (c, ground arith, ground arith, ground arith, ground arith)

pub exit_on_lem :
    (e : Option Error) (p : Process)
    → ((exit_on e p).system ≡ p.system)
      × ((exit_on e p).start_called ≡ p.start_called)
      × ((exit_on e p).stop_called ≡ p.stop_called)
      × ((exit_on e p).exit ≡ none → (p.exit ≡ none) × (e ≡ none))
      × ((exit_on e p).exit ≡ some 0 → p.exit ≡ some 0)
unfolding exit_on
exit_on_lem none p = (refl, refl, refl, λ h. (h, refl), λ h. h)
exit_on_lem (some e) p =
    (refl, refl, refl, λ h. absurd (ground (arith, h)), λ h. absurd (ground (arith, h)))

-- The system is one that a processor can reach with one call of Start at most, and it waits exactly if
-- main has called Stop.
pub record Sound (p : Process) : Type 0 where
  pub configuration : Configuration
  pub reached : Step.Reach configuration p.system
  pub once : p.system.starts ≤ 1
  pub none_yet : p.start_called ≡ false → p.system.starts ≡ 0
  pub waits : p.exit ≡ none → p.system.stopping ≡ p.stop_called

pub stop_lem :
    (s : System)
    → s.stopping ≡ false
    → s.starts ≤ 1
    → Life s
    → ((stop s).0.starts ≡ s.starts)
      × ((stop s).1 ≡ none → (stop s).0.stopping ≡ true)
      × (s.is_running ≡ true → (stop s).1 ≡ none)
unfolding stop
stop_lem s free few l = ground arith

call_start-Sound :
    (a : Answers) (p : Process)
    → p.exit ≡ none
    → p.system.panicked ≡ false
    → p.start_called ≡ false
    → p.system.stopping ≡ false
    → Sound p
    → Sound (call_start a p)
unfolding call_start
call_start-Sound a p runs alive first free v =
    let (same, called, stop_called, ran, z) =
      exit_on_lem (start a p.system).1
        (record p { system = (start a p.system).0; start_called = true }) in
    let (few, keeps) = start_lem a p.system in
    record {
      configuration = v.configuration;
      reached = rw same (Step.later v.reached alive (Step.starts a free));
      once = rw same (omega (arith, few, v.none_yet first));
      none_yet = λ h. absurd (ground (arith, h, called));
      waits = λ h. rw (same, stop_called, keeps) (v.waits runs);
    }

call_stop-Sound :
    (p : Process)
    → p.system.panicked ≡ false
    → p.system.stopping ≡ false
    → Sound p
    → Sound (call_stop p)
unfolding call_stop
call_stop-Sound p alive free v =
    let (same, called, stop_called, ran, z) =
      exit_on_lem (stop p.system).1 (record p { system = (stop p.system).0; stop_called = true }) in
    let (kept, waiting, fine) = stop_lem p.system free v.once (Reach-Inv v.reached v.once).0 in
    record {
      configuration = v.configuration;
      reached = rw same (Step.later v.reached alive (Step.stops free));
      once = rw same (omega (arith, kept, v.once));
      none_yet = λ h. rw same (kept ∙ v.none_yet (sym called ∙ h));
      waits = λ h. rw (same, stop_called) (waiting (ran h).1);
    }

pub Moves-Sound :
    {fails : String → Bool} {p q : Process}
    → p.exit ≡ none
    → p.system.panicked ≡ false
    → Moves fails p q
    → Sound p
    → Sound q
unfolding return_stop finish
Moves-Sound runs alive (calls_start a first free) v = call_start-Sound a _ runs alive first free v
Moves-Sound runs alive (receives_signal first) v = record {
  configuration = v.configuration;
  reached = v.reached;
  once = v.once;
  none_yet = v.none_yet;
  waits = v.waits;
}
Moves-Sound runs alive (calls_stop signal first free) v = call_stop-Sound _ alive free v
Moves-Sound {fails} runs alive (stop_returns waits done) v = record {
  configuration = v.configuration;
  reached = Step.later v.reached alive (Step.stop_returns fails waits done);
  once = v.once;
  none_yet = v.none_yet;
  waits = λ h. absurd (ground (arith, h));
}
Moves-Sound runs alive (works st g) v =
    let (same, keeps) = work_lem st g in
    record {
      configuration = v.configuration;
      reached = Step.later v.reached alive st;
      once = omega (arith, same, v.once);
      none_yet = λ h. same ∙ v.none_yet h;
      waits = λ h. keeps ∙ v.waits h;
    }

module _ {fails : String → Bool} {r : Result Configuration} where
  pub Reach-Sound : {p : Process} → Reach fails r p → Sound p
  unfolding Lifecycle.new
  Reach-Sound (booted {p} e) =
      let (c, same, first, no_stop, runs) = boot_lem r p e in
      record {
        configuration = c;
        reached = rw same Step.fresh;
        once = rw same (omega arith);
        none_yet = λ h. rw same refl;
        waits = λ h. rw (same, no_stop) refl;
      }
  Reach-Sound (later rp runs alive m) = Moves-Sound runs alive m (Reach-Sound rp)
