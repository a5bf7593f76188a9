-- ===== src/Connector/Laws.antt =====
-- What the exit of the connector means for the messages that it has received.
use jec.Prelude.{
  ℕ, ◌+◌, ◌<◌, ◌≡◌, ◌∙◌, pos_part, half32, true, false, Bool, String, none, some, ok, total, length,
  [], arith,
}
use jec.Config.Types.{Configuration}
use jec.WorkerPool.New.{new_conf}
use jec.Queue.Lifecycle.Safety.{Reach-Inv}
use jec.Queue.Poller.Laws.{shows}
use jec.Queue.Delivery.Sound.{by_handle, deletes}
use jec.Queue.Delivery.Laws.{delivered, unmanned}
use jec.Main.{call_start, call_stop}
use jec.Main.Exit.{call_exit}
use jec.Main.Sound.{boot_lem}
use jec.Connector.{
  Connector, Steps, starts, receives_signal, stops, stops_pool, exits, loop_ends, loop_ticks,
  pulling_ends, skips, polls, flows, Reach, booted, later, fresh_connector,
}
use jec.Connector.Callers.{InStep}
use jec.Connector.Sound.{Reach-InStep}

-- For every received message its deletion or its visibility has been requested, and no worker and no poll is left.
abbrev Delivered : (String → String → ℕ) → Connector → Type 0
Delivered k x =
    (total (by_handle k) x.flow.arrived
      ≡ total (deletes k) x.flow.effects + total (shows k) x.flow.returned)
    × (length x.flow.pool.workers ≡ 0)
    × (x.flow.pending ≡ [])

-- Where Stop of the processor returns.
return_delivers :
    {c : Configuration} (k : String → String → ℕ) {x : Connector}
    → pos_part c.pool_conf.max_number_of_worker < half32
    → 0 < pos_part (new_conf c.pool_conf).min_number_of_worker
    → InStep c x
    → x.process.system.stopping ≡ true
    → x.process.system.running_wg ≡ 0
    → x.pool_stopped ≡ true
    → x.flow.pool.stopping ≡ false
    → Delivered k x
return_delivers k {x} h some_worker v waits left called free =
    let p = v.process_sound in
    let l = (Reach-Inv p.reached p.once).0 in
    let begun : x.process.system.starts ≡ 1 = ground (arith, l.unstarted, p.once) in
    let least : 0 < pos_part x.flow.pool.pool_conf.min_number_of_worker =
      rw v.same_conf some_worker in
    let once = v.same_starts ∙ begun in
    let none_left = v.unpolled (omega (arith, l.counted, left)) in
    (
      delivered k h least v.flow_reached once (v.pool_down called) free none_left,
      unmanned h least v.flow_reached once (v.pool_down called) free,
      none_left,
    )

Steps-Delivered :
    {c : Configuration} {fails : String → Bool} (k : String → String → ℕ) {x y : Connector}
    → pos_part c.pool_conf.max_number_of_worker < half32
    → 0 < pos_part (new_conf c.pool_conf).min_number_of_worker
    → InStep c x
    → x.process.exit ≡ none
    → Steps fails x y
    → y.process.exit ≡ some 0
    → Delivered k y
unfolding call_start call_stop
Steps-Delivered k h w v runs (starts a f1 f2 f3 f4) z = absurd (call_exit _ _ runs z)
Steps-Delivered k h w v runs (receives_signal f) z = absurd (ground (arith, runs, z))
Steps-Delivered k h w v runs (stops s f1 f2) z = absurd (call_exit _ _ runs z)
Steps-Delivered k h w v runs (stops_pool f1 f2 f3 f4 f5) z = absurd (ground (arith, runs, z))
Steps-Delivered k h w v runs (exits waits left called free) z =
    return_delivers k h w v waits left called free
Steps-Delivered k h w v runs (loop_ends f1 f2 f3) z = absurd (ground (arith, runs, z))
Steps-Delivered k h w v runs (loop_ticks cn r f1 f2) z = absurd (ground (arith, runs, z))
Steps-Delivered k h w v runs (pulling_ends f1 f2) z = absurd (ground (arith, runs, z))
Steps-Delivered k h w v runs (skips u p ch f1 f2) z = absurd (ground (arith, runs, z))
Steps-Delivered k h w v runs (polls u p ch f1 f2 f3 f4 f5) z = absurd (ground (arith, runs, z))
Steps-Delivered k h w v runs (flows st f) z = absurd (ground (arith, runs, z))

-- If the worker pool is configured with a maximum that fits an int32 and, with its defaults filled in,
-- a minimum of one worker or more, then a connector that exits with status 0 has sent for each message
-- that its polls received one request that names its queue and its receipt handle: to delete it, or
-- to make it visible at once (timeout zero), and not both (the counts agree under every weight of urls
-- and receipt handles); and no worker is left, and no poll is in progress.
pub exit_delivers :
    {fails : String → Bool} {c : Configuration} {x : Connector} (k : String → String → ℕ)
    → pos_part c.pool_conf.max_number_of_worker < half32
    → 0 < pos_part (new_conf c.pool_conf).min_number_of_worker
    → Reach fails c x
    → x.process.exit ≡ some 0
    → (total (by_handle k) x.flow.arrived
        ≡ total (deletes k) x.flow.effects + total (shows k) x.flow.returned)
      × (length x.flow.pool.workers ≡ 0)
      × (x.flow.pending ≡ [])
unfolding fresh_connector
exit_delivers {c} k h w (booted {p} e) z =
    let (c', same, first, no_stop, runs) = boot_lem (ok c) p e in absurd (ground (arith, z, runs))
exit_delivers k h w (later r runs alive pool_alive st) z =
    Steps-Delivered k h w (Reach-InStep h r) runs st z
