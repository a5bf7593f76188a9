-- ===== src/Queue/Lifecycle/Staff.antt =====
-- What becomes of the pollers of queue/processor.go between Start and the end of run.
use jec.Prelude.{
  false, ◌<◌, ◌≤◌, ◌≡◌, ◌-◌, ◌||◌, ◌∙◌, refl, sym, ap, inl, inr, String, List, [], ◌∷◌, Option,
  none, some, Result, ok, err, arith, Bool, lookup, insert,
}
use jec.Git.Repositories.{Repositories, Effect}
use jec.Queue.Token.{Token}
use jec.Queue.Lifecycle.{
  System, Answers, start, start_token, start_with, downloads, downloaded, begin_pulling, refresh,
  begin_running, start_pool, is_ill, given, stop_pollers, pollers_panicked, end_loop, done, tick,
  set_pollers,
}
use jec.Queue.Sqs.{Client}
use jec.Queue.Poller
use jec.Queue.Poller.{Poller, turn}
use jec.Queue.Processor.{Pollers, Processor}
use jec.Queue.Lifecycle.Calm.{
  IsCalm, IsCalm-same, refresh_lem, begin_pulling-IsCalm, begin_running_lem, make_ticker_lem,
  make_ticker-IsCalm,
}
use jec.Queue.Lifecycle.Live.{
  IsLive, IsStopped, Each, stop_pollers-IsStopped, pollers_panicked_lem, polls-IsLive,
  polls-IsStopped,
}
use jec.Queue.Lifecycle.Invariant.{Life, start-cases}

-- The pollers live as long as run, and are stopped once it has ended.
pub record Staff (s : System) : Type 0 where
  pub none_yet : s.starts ≡ 0 → s.processor.pollers ≡ []
  pub live : 0 < s.loops → Each IsLive s.processor.pollers
  pub stopped : s.loops ≡ 0 → Each IsStopped s.processor.pollers

-- Only the pollers, the loops and the starts matter to it.
pub Staff-same :
    {s t : System}
    → t.processor ≡ s.processor
    → t.loops ≡ s.loops
    → t.starts ≡ s.starts
    → Staff s
    → Staff t
Staff-same p n e f = record {
  none_yet = λ h. ap (λ (q : Processor). q.pollers) p ∙ f.none_yet (sym e ∙ h);
  live = λ h. rw p (f.live (omega (arith, n)));
  stopped = λ h. rw p (f.stopped (sym n ∙ h));
}

begin_pulling_lem :
    (a : Answers) (s : System)
    → ((begin_pulling a s).processor ≡ s.processor)
      × ((begin_pulling a s).starts ≡ s.starts)
      × ((begin_pulling a s).panicked ≡ s.panicked)
unfolding begin_pulling
begin_pulling_lem a s = ground arith

start_with_unstarted :
    (a : Answers) (t : Option Token) (s : System) (r : Repositories) (fx : List Effect)
    → (start_with a t s (r, none, fx)).0.starts ≤ 1
    → s.starts ≡ 0
unfolding start_with refresh begin_running begin_pulling
start_with_unstarted a none s r fx few = ground arith
start_with_unstarted a (some t) s r fx few = ground arith

start_with-Staff :
    (a : Answers) (t : Option Token) (s : System) (x : Repositories × Option String × List Effect)
    → (s.ill_given ≡ false → is_ill t ≡ false)
    → (start_with a t s x).0.starts ≤ 1
    → Staff s
    → IsCalm s
    → Staff (start_with a t s x).0 × IsCalm (start_with a t s x).0
unfolding start_with
start_with-Staff a t s (r, some e, fx) known few f calm =
    (record { none_yet = f.none_yet; live = f.live; stopped = f.stopped }, calm)
start_with-Staff a t s (r, none, fx) known few f calm =
    let pulling = begin_pulling a (downloaded r fx s) in
    let (same, begun, quiet) = begin_pulling_lem a (downloaded r fx s) in
    let pulling_calm = begin_pulling-IsCalm a (downloaded r fx s) calm in
    let refreshed = refresh a.connects t (start_pool pulling) in
    let (unchanged, more, loops, still) = begin_running_lem refreshed in
    let empty = f.none_yet (start_with_unstarted a t s r fx few) in
    let (alive, calmed) =
      refresh_lem a.connects t (start_pool pulling) (λ well. known (ground (arith, well)))
        (rw (ap (λ (p : Processor). p.pollers) same ∙ empty) tt) pulling_calm in
    (
      record {
        none_yet = λ e. absurd (omega (arith, e, more));
        live = λ h. rw unchanged alive;
        stopped = λ e. absurd (omega (arith, e, loops));
      },
      still calmed,
    )

start_token-Staff :
    (a : Answers) (r : Result (Option Token)) (s : System)
    → (start_token a r s).0.starts ≤ 1
    → Staff s
    → IsCalm s
    → Staff (start_token a r s).0 × IsCalm (start_token a r s).0
unfolding start_token
start_token-Staff a (err e) s few f calm = (f, calm)
start_token-Staff a (ok t) s few f calm =
    start_with-Staff a t (given t s) (downloads a s) (λ well. ground arith) few
      (Staff-same refl refl refl f) (λ well. calm (ground arith))

pub start-Staff :
    (a : Answers) (s : System)
    → (start a s).0.starts ≤ 1
    → Staff s
    → IsCalm s
    → Staff (start a s).0 × IsCalm (start a s).0
start-Staff a s few f calm = elim (start-cases a s) [
  | inl same ↦ rw same (f, calm)
  | inr (down, e) ↦ rw e (start_token-Staff a a.token s (rw (← e) few) f calm)
]

refresh_same :
    (connects : Client → Bool) (t : Option Token) (s : System)
    → ((refresh connects t s).starts ≡ s.starts) × ((refresh connects t s).loops ≡ s.loops)
unfolding refresh
refresh_same connects none s = (refl, refl)
refresh_same connects (some t) s = (refl, refl)

pub tick-Staff :
    (connects : Client → Bool) (r : Result (Option Token)) (s : System)
    → 0 < s.loops
    → Life s
    → Staff s
    → IsCalm s
    → Staff (tick connects r s) × IsCalm (tick connects r s)
unfolding tick
tick-Staff connects (err e) s some_loop l f calm =
    let (same, begun, loops, ill, rest) = make_ticker_lem s.processor.error_refresh_period s in
    (
      Staff-same same loops begun f,
      make_ticker-IsCalm s.processor.error_refresh_period s (λ ticks. ticks.1) calm,
    )
tick-Staff connects (ok t) s some_loop l f calm =
    let u = refresh connects t (given t s) in
    let (alive, calmed) =
      refresh_lem connects t (given t s) (λ well. ground arith) (f.live some_loop)
        (λ well. calm (ground arith)) in
    let (begun, loops) = refresh_same connects t (given t s) in
    let (same, begun', loops', ill, rest) = make_ticker_lem u.processor.success_refresh_period u in
    let least = l.loops_le in
    (
      record {
        none_yet = λ e. absurd (omega (arith, e, begun, begun'));
        live = λ h. rw same alive;
        stopped = λ e. absurd (omega (arith, e, loops, loops'));
      },
      make_ticker-IsCalm u.processor.success_refresh_period u (λ ticks. ticks.0) calmed,
    )

lookup-none : (u : String) (p : Poller) (ps : Pollers) → ps ≡ [] → lookup u ps ≡ some p → ⊥
unfolding lookup
lookup-none u p [] e found = ground arith
lookup-none u p (q ∷ ps) e found = ground arith

pub polls-Staff :
    (u : String) (p : Poller) (c : Poller.Chance) (s : System)
    → lookup u s.processor.pollers ≡ some p
    → Staff s
    → Staff (set_pollers (insert u (turn p c).0 s.processor.pollers) s)
unfolding set_pollers
polls-Staff u p c s there f = record {
  none_yet = λ e. absurd (lookup-none u p s.processor.pollers (f.none_yet e) there);
  live = λ h. polls-IsLive u p c s.processor.pollers (f.live h) there;
  stopped = λ e. polls-IsStopped u p c s.processor.pollers (f.stopped e) there;
}

pub done_lem :
    (s : System)
    → ((done s).processor ≡ s.processor)
      × ((done s).loops ≡ s.loops)
      × ((done s).starts ≡ s.starts)
      × ((done s).ill_given ≡ s.ill_given)
unfolding done
done_lem s = ground arith

pub done_calm : (s : System) → 0 < s.running_wg → (done s).panicked ≡ s.panicked
unfolding done
done_calm s counted = ground arith

-- The state in which run has stopped its pollers and has yet to call Done.
abbrev halting : System → System
halting s =
    let ps = stop_pollers s.processor.pollers in
    set_pollers ps (record s { loops = s.loops - 1; panicked = s.panicked || pollers_panicked ps })

pub end_loop-Staff :
    (s : System)
    → 0 < s.loops
    → s.starts ≤ 1
    → Life s
    → Staff s
    → IsCalm s
    → Staff (end_loop s) × IsCalm (end_loop s)
unfolding end_loop set_pollers
end_loop-Staff s some_loop few l f calm =
    let halted = stop_pollers-IsStopped s.processor.pollers (f.live some_loop) in
    let (same, gone, begun, ill) = done_lem (halting s) in
    let less = l.loops_le in
    (
      record {
        none_yet = λ e. absurd (omega (arith, e, begun));
        live = λ h. absurd (omega (arith, h, gone));
        stopped = λ e. rw same halted;
      },
      IsCalm-same s (end_loop s) ill
          (ground (
            arith,
            pollers_panicked_lem (stop_pollers s.processor.pollers) halted,
            done_calm (halting s),
            l.counted,
          ))
          (ap (λ (p : Processor). p.success_refresh_period) same)
          (ap (λ (p : Processor). p.error_refresh_period) same) calm,
    )
