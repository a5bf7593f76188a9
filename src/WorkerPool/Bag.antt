-- ===== src/WorkerPool/Bag.antt =====
-- What worker_pool/worker_pool.go is to its callers: a bag of jobs, into which Submit puts a job and out
-- of which the workers take one to execute it. The order of the jobs, the channel, the workers and the
-- counters are forgotten.
pub mod Laws
use mathlib.Mathlib.Data.Multiset.Defs.{Multiset, of_list}
use mathlib.Mathlib.Data.Multiset.ZeroCons as Multiset
use mathlib.Mathlib.Data.Multiset.ZeroCons.{cons}
use mathlib.Mathlib.Data.Multiset.AddSub.{add, add-cons, cons-add, add_comm}
use mathlib.Core.Quot.{sound}
use mathlib.Core.List.{perm_middle, append_assoc, perm_append_singleton}
use jec.Prelude.{
  ◌≡◌, refl, sym, ap, ◌∙◌, subst, zero, Bool-cases, inl, inr, false, List, [], ◌∷◌, ◌++◌, none,
  some, replicate, ℕ, suc, pos_part, arith,
}
use jec.Config.Types.{PoolConf}
use jec.WorkerPool.State.{
  Pool, Submitter, Worker, spawned, selecting, received, executing, executed, closing, leaving,
  start, stop, close_queue, add_initial_workers, new,
}
use jec.WorkerPool.Step.{
  Step, starts, stops, stop_returns, submits, advances, returns, moves, leaves, closes, done, Move,
  begin_job, begin_idle, take_idle, execute, put_idle, receive, see_closed, tick_stay, tick_leave,
  count_out, Advance, default, claim, Return, send_buffered, send_handover, send_panics,
  refuse_fixed, refuse_full, spawn,
}
use jec.WorkerPool.Refinement.{job_of, jobs_of}

-- What a caller can see.
pub data Shown (J : Type 0) : Type 0 where
  accepts executes : J → Shown J

module _ {J : Type 0} where
  abbrev pub shown_by_move : {s t : Pool J} {w x : Worker J} → Move s w x t → List (Shown J)
  shown_by_move (execute {j}) = executes j ∷ []
  shown_by_move _ = []

  -- The job of a Submit that returns true.
  abbrev pub shown_by_return : {s t : Pool J} {p : Submitter J} → Return s p t → List (Shown J)
  shown_by_return (send_buffered {j} d g) = accepts j ∷ []
  shown_by_return (send_handover {j} xs ys d g k) = accepts j ∷ []
  shown_by_return (spawn {j}) = accepts j ∷ []
  shown_by_return _ = []

  abbrev pub shown_by : {s t : Pool J} → Step s t → List (Shown J)
  shown_by (returns us vs e r) = shown_by_return r
  shown_by (moves us vs e m) = shown_by_move m
  shown_by _ = []

  -- The jobs that are accepted and not executed.
  unfoldable pub bag_of : List J → List (Worker J) → Multiset J
  bag_of q ws = add (of_list q) (of_list (jobs_of ws))

  abbrev pub waiting : Pool J → Multiset J
  waiting s = bag_of s.job_queue s.workers

  -- What a bag shows, the last event first, and what is in it then.
  pub data Behaves : List (Shown J) → Multiset J → Type 0 where
    empty : {b : Multiset J} → b ≡ Multiset.zero → Behaves [] b
    puts :
        {es : List (Shown J)} {b b' : Multiset J} (j : J)
        → Behaves es b
        → b' ≡ cons j b
        → Behaves (accepts j ∷ es) b'
    takes :
        {es : List (Shown J)} {b b' : Multiset J} (j : J)
        → Behaves es b
        → b ≡ cons j b'
        → Behaves (executes j ∷ es) b'

  -- What the pool shows on its way to a state.
  pub data Trace (c : PoolConf) : List (Shown J) → Pool J → Type 0 where
    fresh : Trace c [] (new c)
    later :
        {es : List (Shown J)} {s t : Pool J}
        → Trace c es s
        → s.panicked ≡ false
        → (st : Step s t) → Trace c (shown_by st ++ es) t
