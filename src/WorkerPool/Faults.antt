-- ===== src/WorkerPool/Faults.antt =====
-- Two ways in which the pool of worker_pool/worker_pool.go fails its callers.
use jec.Prelude.{
  ◌<◌, ◌≡◌, refl, ap, pos, ◌<ℤ◌, pos_part, true, false, [], ◌∷◌, none, length, length-append,
  length-replicate, replicate, arith,
}
use jec.Config.Types.{PoolConf}
use jec.WorkerPool.New.{new_conf}
use jec.WorkerPool.State.{
  Pool, Worker, spawned, start, stop, close_queue, add_initial_workers, admit, new,
}
use jec.WorkerPool.Step.{
  Step, Reach, fresh, later, starts, stops, stop_returns, submits, returns, send_buffered, closes,
}

new_conf-min :
    (c : PoolConf) → c.min_number_of_worker ≡ pos 0 → (new_conf c).min_number_of_worker ≡ pos 0
unfolding new_conf
new_conf-min c h = ground arith

new_conf-queue : (c : PoolConf) → pos 0 <ℤ c.queue_size → 0 < pos_part (new_conf c).queue_size
unfolding new_conf
new_conf-queue c h = ground arith

module _ {J : Type 0} where
  -- With a minimum of no worker and room in the job queue, which New both allows, a pool may accept a
  -- job, be stopped, and have its Stop return, with the job never executed.
  pub accepted_job_lost :
      (c : PoolConf) (j : J)
      → c.min_number_of_worker ≡ pos 0
      → pos 0 <ℤ c.queue_size
      → (s : Pool J) × Reach c s
        × (s.starts ≡ 1)
        × (s.accepted ≡ j ∷ [])
        × (s.executions ≡ [])
        × (s.is_running ≡ false)
        × (s.stopping ≡ false)
        × (length s.workers ≡ 0)
  unfolding new start stop add_initial_workers admit
  accepted_job_lost c j none_needed room =
      let start_worker : Worker J = spawned none in
      let zero_workers = new_conf-min c none_needed in
      let capacity_pos = new_conf-queue c room in
      let started : Reach c (start (new c)).0 = later fresh refl (starts refl refl) in
      let sent =
        later (later started refl (submits j refl refl)) refl
          (returns [] [] refl (send_buffered refl (omega arith))) in
      let stopped = later sent refl (stops refl refl) in
      let no_worker = ap pos_part zero_workers in
      (
        _,
        later stopped refl (stop_returns refl (omega arith)),
        refl,
        refl,
        refl,
        refl,
        refl,
        omega (
          arith,
          length-append (replicate (pos_part (new_conf c).min_number_of_worker) start_worker) [],
          length-replicate (pos_part (new_conf c).min_number_of_worker) start_worker,
        ),
      )

  -- Once Stop has returned and the job queue is closed, with no Submit under way, Start succeeds again, and the pool that it
  -- starts has a step that panics: its run goroutine closes the job queue again.
  pub restart_panics :
      (s : Pool J)
      → s.is_running ≡ false
      → s.stopping ≡ false
      → s.submitters ≡ []
      → s.quit_closed ≡ true
      → s.job_queue_closed ≡ true
      → Step s (start s).0
        × ((start s).1 ≡ none)
        × ((t : Pool J) × Step (start s).0 t × (t.panicked ≡ true))
  unfolding start close_queue add_initial_workers
  restart_panics s down free quiet quit shut = (
    starts free quiet,
    ground arith,
    (close_queue (start s).0, closes (ground arith) (ground arith), ground arith),
  )
