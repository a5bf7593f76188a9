-- ===== src/Queue/Poller/Goroutine/Laws.antt =====
-- Stop of queue/poller.go returns, and leaves no goroutine.
use jec.Prelude.{
  ℕ, suc, ◌+◌, ◌*◌, ◌≤◌, ◌≡◌, ◌∙◌, refl, sym, ap, String, true, false, List, [], ◌∷◌, ◌++◌, length,
  length-append, arith, Bool-cases, inl, inr,
}
use jec.Queue.Sqs.{Provider}
use jec.Config.Types.{PollerConf}
use jec.Queue.Poller.{Poller, Chance, poll, new_poller}
use jec.Queue.Poller.Goroutine.{
  At, selecting, polling, waiting, Machine, new_machine, start, stop, done, after_poll, Step,
  starts, stops, stop_returns, sees_quit, skips, polls, poll_returns, wakes, ticks, Reach, fresh,
  later, Promptly, stays, goes,
}

pub record Sound (m : Machine) : Type 0 where
  pub counted : m.running_wg ≡ length m.goroutines
  pub down : m.poller.is_running ≡ false → (m.running_wg ≡ 0) × (m.stopping ≡ false)
  pub quit : m.stopping ≡ true → (m.poller.quit_closed ≡ true) × (m.poller.wake_up_closed ≡ true)

-- A goroutine that goes on.
moved :
    {m : Machine} (us vs : List At) (a b : At) (p : Poller)
    → m.goroutines ≡ us ++ a ∷ vs
    → p.is_running ≡ m.poller.is_running
    → p.quit_closed ≡ m.poller.quit_closed
    → p.wake_up_closed ≡ m.poller.wake_up_closed
    → Sound m
    → Sound (record m { poller = p; goroutines = us ++ b ∷ vs })
moved {m} us vs a b p e run quit wake v = record {
  counted =
      omega (arith, v.counted, ap length e, length-append us (a ∷ vs), length-append us (b ∷ vs));
  down = λ h. v.down (sym run ∙ h);
  quit = λ h. (quit ∙ (v.quit h).0, wake ∙ (v.quit h).1);
}

Step-Sound : {m n : Machine} → Step m n → Sound m → Sound n
unfolding start stop done
Step-Sound {m} (starts free) v = record {
  counted = ground (arith, v.counted);
  down = ground (arith, v.down);
  quit = ground (arith, v.quit);
}
Step-Sound {m} (stops free) v = record {
  counted = ground (arith, v.counted);
  down = ground (arith, v.down);
  quit = ground (arith, v.quit);
}
Step-Sound (stop_returns waits none_left) v = record {
  counted = v.counted;
  down = λ h. (none_left, refl);
  quit = λ h. absurd (ground (arith, h));
}
Step-Sound {m} (sees_quit us vs e closed) v =
    let l = ap length e ∙ length-append us (selecting ∷ vs) in
    let l' = length-append us vs in
    record {
      counted = ground (arith, v.counted);
      down = ground (arith, v.down);
      quit = ground (arith, v.quit);
    }
Step-Sound {m} (skips us vs e open_yet expired) v = moved us vs _ _ m.poller e refl refl refl v
Step-Sound {m} (polls us vs e open_yet fresh_yet) v = moved us vs _ _ m.poller e refl refl refl v
Step-Sound (poll_returns us vs c e) v = moved us vs _ _ _ e refl refl refl v
Step-Sound {m} (wakes us vs e woken) v = moved us vs _ _ m.poller e refl refl refl v
Step-Sound {m} (ticks us vs e) v = moved us vs _ _ m.poller e refl refl refl v

module _ {p : Provider} {conf : PollerConf} {owner : String} where
  pub Reach-Sound : {m : Machine} → Reach p conf owner m → Sound m
  unfolding new_machine new_poller
  Reach-Sound fresh = record {
    counted = refl;
    down = λ h. (refl, refl);
    quit = λ h. absurd (ground (arith, h));
  }
  Reach-Sound (later r alive st) = Step-Sound st (Reach-Sound r)

-- Where Stop waits.
abbrev Stops : Machine → Type 0
Stops m = Sound m × (m.stopping ≡ true) × (m.poller.panicked ≡ false)

-- The goroutines come down to `ws` in so many steps.
abbrev ComesTo : Machine → ℕ → List At → Type 0
ComesTo m j ws = (k : ℕ) × (n : Machine) × Promptly m k n × (k ≤ j) × (n.goroutines ≡ ws) × Stops n

module _ {m n : Machine} {k : ℕ} (r : Promptly m k n) (vs : List At) where
  from_selecting : n.goroutines ≡ selecting ∷ vs → Stops n → ComesTo m (suc k) vs
  unfolding done
  from_selecting e (v, waits, alive) =
      let st : Step n (done vs n) = sees_quit [] vs e (v.quit waits).0 in
      (
        suc k,
        done vs n,
        goes r alive st refl,
        omega arith,
        ground arith,
        (Step-Sound st v, ground (arith, waits), ground (arith, alive, v.counted, ap length e)),
      )

module _ {m n : Machine} {k : ℕ} (r : Promptly m k n) (vs : List At) where
  from_waiting : n.goroutines ≡ waiting ∷ vs → Stops n → ComesTo m (suc (suc k)) vs
  from_waiting e (v, waits, alive) =
      let st : Step n (record n { goroutines = selecting ∷ vs }) = wakes [] vs e (v.quit waits).1 in
      from_selecting (goes r alive st refl) vs refl (Step-Sound st v, waits, alive)

comes_sooner : {m : Machine} {j : ℕ} {ws : List At} → ComesTo m j ws → ComesTo m (suc j) ws
comes_sooner (k, n, r, few, e, so) = (k, n, r, omega (arith, few), e, so)

module _ {m n : Machine} {k : ℕ} (r : Promptly m k n) (vs : List At) where
  from_polling : Chance → n.goroutines ≡ polling ∷ vs → Stops n → ComesTo m (suc (suc (suc k))) vs
  from_polling c e (v, waits, alive) =
      let p = n.poller in
      let (should_wait, provider, fx) = poll p.poller_conf c p.provider in
      let st : Step n (record n {
        poller = record p { provider = provider };
        goroutines = after_poll should_wait ∷ vs;
      }) =
        poll_returns [] vs c e in
      let so : Stops (record n {
        poller = record p { provider = provider };
        goroutines = after_poll should_wait ∷ vs;
      }) =
        (Step-Sound st v, waits, alive) in
      elim (Bool-cases should_wait) [
        | inl idle ↦ from_waiting (goes r alive st refl) vs (ap (λ b. after_poll b ∷ vs) idle) so
        | inr busy ↦
            comes_sooner
              (from_selecting (goes r alive st refl) vs (ap (λ b. after_poll b ∷ vs) busy) so)
      ]

-- What is left of the first goroutine, in three steps at most.
ends_one :
    {m n : Machine} {k : ℕ} (w : At) (vs : List At)
    → Chance
    → Promptly m k n
    → n.goroutines ≡ w ∷ vs
    → Stops n
    → ComesTo m (suc (suc (suc k))) vs
ends_one selecting vs c r e so = comes_sooner (comes_sooner (from_selecting r vs e so))
ends_one waiting vs c r e so = comes_sooner (from_waiting r vs e so)
ends_one polling vs c r e so = from_polling r vs c e so

end_all :
    {m : Machine} (ws : List At) {n : Machine} {k : ℕ}
    → Chance
    → Promptly m k n
    → n.goroutines ≡ ws
    → Stops n
    → ComesTo m (3 * length ws + k) []
end_all [] {n} {k} c r e so = (k, n, r, omega arith, e, so)
end_all (w ∷ ws) c r e so =
    let (j, n, r', few, e', so') = ends_one w ws c r e so in
    let (i, o, r'', few', e'', so'') = end_all ws c r' e' so' in
    (i, o, r'', omega (arith, few, few'), e'', so'')

-- While Stop waits for the goroutine of run, whatever poll does when it returns, the poller can come
-- to the end of Stop by at most three steps for each goroutine and one more, none of which is a tick
-- of a timer: then no goroutine of run is left, and the poller counts as stopped.
pub stop_can_return_soon :
    {p : Provider} {conf : PollerConf} {owner : String} {m : Machine}
    → Chance
    → Reach p conf owner m
    → m.stopping ≡ true
    → m.poller.panicked ≡ false
    → (k : ℕ) × (n : Machine) × Promptly m k n
      × (k ≤ 3 * length m.goroutines + 1)
      × (n.stopping ≡ false)
      × (n.poller.is_running ≡ false)
      × (n.goroutines ≡ [])
stop_can_return_soon {m} c r waits alive =
    let (k, n, run, few, none_left, (v, stops_yet, lives)) =
      end_all m.goroutines c stays refl (Reach-Sound r, waits, alive) in
    let st : Step n
        (record n { poller = record n.poller { is_running = false }; stopping = false }) =
      stop_returns stops_yet (v.counted ∙ ap length none_left) in
    (suc k, _, goes run lives st refl, omega (arith, few), refl, refl, none_left)
