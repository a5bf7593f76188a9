-- ===== src/Queue/Delivery/Laws.antt =====
-- What becomes of the messages that the polls of queue/poller.go receive.
use jec.Prelude.{ℕ, ◌+◌, ◌<◌, ◌≡◌, ap, [], pos_part, half32, false, String, total, length, arith}
use jec.Config.Types.{PoolConf}
use jec.WorkerPool.Safety.{stopped-all_executed}
use jec.Queue.Poller.Laws.{shows}
use jec.Queue.Delivery.{Flow, Reach}
use jec.Queue.Delivery.Sound.{by_job, by_handle, carried, deletes, Reach-Sound}

-- Once the pool, started once with a minimum of one worker or more and a maximum that fits an int32,
-- has been stopped, and no poll is in progress: for each message that a poll received,
-- one request to delete it from its queue has been sent, or one to make it visible in it at once, and
-- not both (the counts agree under every weight of urls and receipt handles).
pub delivered :
    {c : PoolConf} {s : Flow} (k : String → String → ℕ)
    → pos_part c.max_number_of_worker < half32
    → 0 < pos_part s.pool.pool_conf.min_number_of_worker
    → Reach c s
    → s.pool.starts ≡ 1
    → s.pool.is_running ≡ false
    → s.pool.stopping ≡ false
    → s.pending ≡ []
    → total (by_handle k) s.arrived ≡ total (deletes k) s.effects + total (shows k) s.returned
delivered k h some_worker r one down free ended =
    let v = Reach-Sound h r in
    let (all_done, unmanned) =
      stopped-all_executed (by_job k) h v.reached one down free some_worker in
    omega (arith, v.balanced k, v.deleted k, all_done, ap (total (carried k)) ended)

-- No worker is left in such a pool, so nothing executes a job.
pub unmanned :
    {c : PoolConf} {s : Flow}
    → pos_part c.max_number_of_worker < half32
    → 0 < pos_part s.pool.pool_conf.min_number_of_worker
    → Reach c s
    → s.pool.starts ≡ 1
    → s.pool.is_running ≡ false
    → s.pool.stopping ≡ false
    → length s.pool.workers ≡ 0
unmanned h some_worker r one down free =
    let v = Reach-Sound h r in
    (stopped-all_executed (λ j. 0) h v.reached one down free some_worker).1
