-- ===== src/Queue/Lifecycle/Calm.antt =====
-- Whether the processor of queue/processor.go can panic on what its tokens say.
use jec.Prelude.{
  suc, true, false, ℤ, pos, ltb_ℤ, ◌≡◌, ◌∙◌, refl, sym, List, [], ◌∷◌, Option, none, some, arith,
  Bool,
}
use jec.Queue.Token.{Properties, Token}
use jec.Queue.Lifecycle.{
  System, Answers, begin_pulling, refresh, begin_running, is_ill, make_ticker,
}
use jec.Queue.Sqs.{Client}
use jec.Queue.Processor.{Processor, good_periods, set_periods, refresh_pollers}
use jec.Queue.Lifecycle.Live.{IsLive, Each, refresh_pollers-IsLive}

-- The periods of run's tickers are positive.
abbrev pub Ticks : Processor → Type 0
Ticks p =
    (ltb_ℤ (pos 0) p.success_refresh_period ≡ true) × (ltb_ℤ (pos 0) p.error_refresh_period ≡ true)

-- Nothing has panicked, and no ticker will, unless a token was nil or set a period that is not positive.
abbrev pub IsCalm : System → Type 0
IsCalm s = s.ill_given ≡ false → (s.panicked ≡ false) × Ticks s.processor

-- Only these fields matter to it.
pub IsCalm-same :
    (s t : System)
    → t.ill_given ≡ s.ill_given
    → t.panicked ≡ s.panicked
    → t.processor.success_refresh_period ≡ s.processor.success_refresh_period
    → t.processor.error_refresh_period ≡ s.processor.error_refresh_period
    → IsCalm s
    → IsCalm t
IsCalm-same s t ill same success error calm well =
    let (still, ticks) = calm (sym ill ∙ well) in rw (same, success, error) (still, ticks)

set_periods-Ticks :
    (qs : List Properties) (p : Processor)
    → good_periods qs ≡ true
    → Ticks p
    → Ticks (set_periods qs p)
unfolding set_periods good_periods
set_periods-Ticks [] p good ticks = ticks
set_periods-Ticks (q ∷ qs) p good ticks = ground arith

refresh_pollers-Ticks :
    (connects : Client → Bool) (t : Token) (p : Processor)
    → good_periods t.queue_properties_list ≡ true
    → Ticks p
    → Ticks (refresh_pollers connects t p).0
unfolding refresh_pollers
refresh_pollers-Ticks connects t p good ticks =
    set_periods-Ticks t.queue_properties_list _ good ticks

-- A refresh keeps live pollers, and is calm if its token is noted.
pub refresh_lem :
    (connects : Client → Bool) (t : Option Token) (s : System)
    → (s.ill_given ≡ false → is_ill t ≡ false)
    → Each IsLive s.processor.pollers
    → IsCalm s
    → Each IsLive (refresh connects t s).processor.pollers × IsCalm (refresh connects t s)
unfolding refresh
refresh_lem connects none s known live calm = (live, λ well. absurd (ground (arith, known well)))
refresh_lem connects (some t) s known live calm =
    let (alive, quiet) = refresh_pollers-IsLive connects t s.processor live in
    (
      alive,
      λ well.
          let (still, ticks) = calm well in
          let good : good_periods t.queue_properties_list ≡ true = ground (arith, known well) in
          (ground (arith, quiet, still), refresh_pollers-Ticks connects t s.processor good ticks),
    )

-- Neither pulling nor a ticker touches a poller; a ticker of a good period is made without a panic.
pub begin_pulling-IsCalm : (a : Answers) (s : System) → IsCalm s → IsCalm (begin_pulling a s)
unfolding begin_pulling
begin_pulling-IsCalm a s calm well =
    let was : s.ill_given ≡ false = ground arith in ground (arith, calm was)

pub begin_running_lem :
    (s : System)
    → ((begin_running s).processor ≡ s.processor)
      × ((begin_running s).starts ≡ suc s.starts)
      × ((begin_running s).loops ≡ suc s.loops)
      × (IsCalm s → IsCalm (begin_running s))
unfolding begin_running
begin_running_lem s = (
  ground arith,
  ground arith,
  ground arith,
  λ calm well. let was : s.ill_given ≡ false = ground arith in ground (arith, calm was),
)

pub make_ticker_lem :
    (period : ℤ) (s : System)
    → ((make_ticker period s).processor ≡ s.processor)
      × ((make_ticker period s).starts ≡ s.starts)
      × ((make_ticker period s).loops ≡ s.loops)
      × ((make_ticker period s).ill_given ≡ s.ill_given)
      × (ltb_ℤ (pos 0) period ≡ true → make_ticker period s ≡ s)
unfolding make_ticker
make_ticker_lem period s =
    (ground arith, ground arith, ground arith, ground arith, λ good. rw good refl)

-- A ticker of one of the two periods.
pub make_ticker-IsCalm :
    (period : ℤ) (s : System)
    → (Ticks s.processor → ltb_ℤ (pos 0) period ≡ true)
    → IsCalm s
    → IsCalm (make_ticker period s)
make_ticker-IsCalm period s good calm well =
    let (same, begun, loops, ill, made) = make_ticker_lem period s in
    let (still, ticks) = calm (sym ill ∙ well) in rw (made (good ticks)) (still, ticks)
