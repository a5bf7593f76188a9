-- ===== src/Queue/Lifecycle/Live.antt =====
-- Which pollers of queue/processor.go run, and that a refresh, a turn and a stop keep it so.
use jec.Prelude.{
  ◌≡◌, refl, inl, inr, Bool, true, false, String, List, [], ◌∷◌, some, lookup, insert, delete, All,
  arith, Bool-cases, Option-cases, str_eq,
}
use jec.Config.Types.{PollerConf}
use jec.Queue.Token.{Properties, Token, url}
use jec.Queue.Sqs.{Client, Provider, new_sqs_provider}
use jec.Queue.Poller
use jec.Queue.Poller.{Poller, turn, new_poller}
use jec.Queue.Processor.{
  Pollers, Processor, keys, refresh, add, refresh_one, refresh_each, remove_each, refresh_pollers,
}
use jec.Queue.Processor.Laws.{set_periods_pollers}
use jec.Queue.Lifecycle.{any_panicked, pollers_panicked, stop_pollers}

-- Between Start and Stop.
abbrev pub IsLive : Poller → Type 0
IsLive p = (p.is_running ≡ true) × (p.quit_closed ≡ false) × (p.panicked ≡ false)

-- After Stop.
abbrev pub IsStopped : Poller → Type 0
IsStopped p = (p.is_running ≡ false) × (p.quit_closed ≡ true) × (p.panicked ≡ false)

abbrev pub Each : (Poller → Type 0) → Pollers → Type 0
Each P = All (λ (e : String × Poller). P e.1)

module _ (P : Poller → Type 0) where
  Each-insert : (u : String) (p : Poller) (ps : Pollers) → P p → Each P ps → Each P (insert u p ps)
  unfolding insert
  Each-insert u p [] new all = (new, tt)
  Each-insert u p ((k, q) ∷ ps) new (old, all) = elim (Bool-cases (str_eq k u)) [
    | inl same ↦ rw (same, insert) (new, all)
    | inr other ↦ rw (other, insert) (old, Each-insert u p ps new all)
  ]

  Each-delete : (u : String) (ps : Pollers) → Each P ps → Each P (delete u ps)
  unfolding delete
  Each-delete u [] all = tt
  Each-delete u ((k, q) ∷ ps) (old, all) = elim (Bool-cases (str_eq k u)) [
    | inl same ↦ rw (same, delete) (Each-delete u ps all)
    | inr other ↦ rw (other, delete) (old, Each-delete u ps all)
  ]

  pub Each-lookup :
      (u : String) (p : Poller) (ps : Pollers) → Each P ps → lookup u ps ≡ some p → P p
  unfolding lookup
  Each-lookup u p [] all found = absurd (ground arith)
  Each-lookup u p ((k, q) ∷ ps) (old, all) found = elim (Bool-cases (str_eq k u)) [
    | inl same ↦ let e : p ≡ q = ground arith in rw e old
    | inr other ↦ Each-lookup u p ps all (ground arith)
  ]

turn-IsLive : (p : Poller) (c : Poller.Chance) → IsLive p → IsLive (turn p c).0
unfolding turn
turn-IsLive p c live = ground arith

turn-IsStopped : (p : Poller) (c : Poller.Chance) → IsStopped p → IsStopped (turn p c).0
unfolding turn
turn-IsStopped p c stopped = ground arith

stop-IsStopped : (p : Poller) → IsLive p → IsStopped (Poller.stop p).0
unfolding Poller.stop
stop-IsStopped p live = ground arith

pub stop_pollers-IsStopped : (ps : Pollers) → Each IsLive ps → Each IsStopped (stop_pollers ps)
unfolding stop_pollers
stop_pollers-IsStopped [] live = tt
stop_pollers-IsStopped ((k, p) ∷ ps) (first, live) =
    (stop-IsStopped p first, stop_pollers-IsStopped ps live)

pub pollers_panicked_lem : (ps : Pollers) → Each IsStopped ps → pollers_panicked ps ≡ false
pollers_panicked_lem [] all = refl
pollers_panicked_lem ((k, p) ∷ ps) (first, all) = ground (arith, pollers_panicked_lem ps all)

module _ (connects : Client → Bool) (conf : PollerConf) (owner : String) where
  refresh-IsLive :
      (q : Properties) (p : Poller) → IsLive p → IsLive (refresh connects conf owner q p)
  unfolding refresh
  refresh-IsLive q p live = ground arith

  start_new-IsLive : (p : Provider) → IsLive (Poller.start (new_poller p conf owner)).0
  unfolding Poller.start new_poller
  start_new-IsLive p = (refl, refl, refl)

  add-IsLive :
      (q : Properties) (ps : Pollers) → Each IsLive ps → Each IsLive (add connects conf owner q ps)
  unfolding add
  add-IsLive q ps live = elim (Option-cases (new_sqs_provider connects q)) [
    | inl missed ↦ rw (missed, add) live
    | inr (p, made) ↦
        rw (made, add) (Each-insert IsLive (url p.queue_properties) _ ps (start_new-IsLive p) live)
  ]

  refresh_one-IsLive :
      (q : Properties) (s : Pollers × List String)
      → Each IsLive s.0
      → Each IsLive (refresh_one connects conf owner q s).0
  unfolding refresh_one
  refresh_one-IsLive q (ps, ks) live = elim (Option-cases (lookup (url q) ps)) [
    | inl absent ↦ rw (absent, refresh_one) (add-IsLive q ps live)
    | inr (p, there) ↦
        rw (there, refresh_one)
          (Each-insert IsLive (url q) _ ps
            (refresh-IsLive q p (Each-lookup IsLive (url q) p ps live there)) live)
  ]

  refresh_each-IsLive :
      (qs : List Properties) (s : Pollers × List String)
      → Each IsLive s.0
      → Each IsLive (refresh_each connects conf owner qs s).0
  unfolding refresh_each
  refresh_each-IsLive [] s live = live
  refresh_each-IsLive (q ∷ qs) s live =
      refresh_each-IsLive qs (refresh_one connects conf owner q s) (refresh_one-IsLive q s live)

abbrev Removed : Pollers × List Poller → Type 0
Removed x = Each IsLive x.0 × (any_panicked x.1 ≡ false)

remove_each-IsLive :
    (ks : List String) (ps : Pollers) → Each IsLive ps → Removed (remove_each ks ps)
unfolding remove_each
remove_each-IsLive [] ps live = (live, refl)
remove_each-IsLive (k ∷ ks) ps live =
    let (left, calm) = remove_each-IsLive ks (delete k ps) (Each-delete IsLive k ps live) in
    elim (Option-cases (lookup k ps)) [
      | inl absent ↦ rw (absent, remove_each) (left, calm)
      | inr (p, there) ↦
          rw (there, remove_each)
            (left, ground (arith, stop-IsStopped p (Each-lookup IsLive k p ps live there), calm))
    ]

-- A refresh of live pollers leaves live pollers, and stops without a panic those that it removes.
pub refresh_pollers-IsLive :
    (connects : Client → Bool) (t : Token) (s : Processor)
    → Each IsLive s.pollers
    → Each IsLive (refresh_pollers connects t s).0.pollers
      × (any_panicked (refresh_pollers connects t s).1 ≡ false)
unfolding refresh_pollers
refresh_pollers-IsLive connects t s live =
    let qs = t.queue_properties_list in
    let loop = refresh_each connects s.poller_conf t.owner_id qs (s.pollers, keys s.pollers) in
    let (left, calm) =
      remove_each-IsLive loop.1 loop.0 (
        refresh_each-IsLive connects s.poller_conf t.owner_id qs (s.pollers, keys s.pollers)
          live) in
    (rw (set_periods_pollers qs (record s { pollers = (remove_each loop.1 loop.0).0 })) left, calm)

pub polls-IsLive :
    (u : String) (p : Poller) (c : Poller.Chance) (ps : Pollers)
    → Each IsLive ps
    → lookup u ps ≡ some p
    → Each IsLive (insert u (turn p c).0 ps)
polls-IsLive u p c ps live there =
    Each-insert IsLive u (turn p c).0 ps (turn-IsLive p c (Each-lookup IsLive u p ps live there))
      live

pub polls-IsStopped :
    (u : String) (p : Poller) (c : Poller.Chance) (ps : Pollers)
    → Each IsStopped ps
    → lookup u ps ≡ some p
    → Each IsStopped (insert u (turn p c).0 ps)
polls-IsStopped u p c ps stopped there =
    Each-insert IsStopped u (turn p c).0 ps
      (turn-IsStopped p c (Each-lookup IsStopped u p ps stopped there)) stopped
