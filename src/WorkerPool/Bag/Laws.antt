-- ===== src/WorkerPool/Bag/Laws.antt =====
-- Every step of worker_pool/worker_pool.go, seen as a step of a bag of jobs.
use mathlib.Mathlib.Data.Multiset.Defs.{Multiset, of_list}
use mathlib.Mathlib.Data.Multiset.ZeroCons.{cons}
use mathlib.Mathlib.Data.Multiset.AddSub.{add, add-cons, cons-add}
use mathlib.Core.Quot.{sound}
use mathlib.Core.List.{perm_middle, append_assoc, perm_append_singleton}
use jec.Prelude.{
  ◌≡◌, refl, sym, ap, ◌∙◌, subst, zero, Bool-cases, inl, inr, List, [], ◌∷◌, ◌++◌, none, some,
  replicate, ℕ, suc, pos_part, arith,
}
use jec.Config.Types.{PoolConf}
use jec.WorkerPool.State.{
  Pool, Submitter, Worker, spawned, selecting, received, executing, executed, leaving, start, stop,
  close_queue, add_initial_workers, new,
}
use jec.WorkerPool.Step.{
  Step, starts, stops, stop_returns, submits, advances, returns, moves, leaves, closes, done, Move,
  begin_job, begin_idle, take_idle, execute, put_idle, receive, see_closed, tick_stay, tick_leave,
  count_out, Advance, default, claim, Return, send_buffered, send_handover, send_panics,
  refuse_fixed, refuse_full, spawn,
}
use jec.WorkerPool.Refinement.{job_of, jobs_of}
use jec.WorkerPool.Bag.{
  Shown, shown_by_move, shown_by_return, shown_by, bag_of, waiting, Behaves, empty, puts, takes,
  Trace, fresh, later,
}

module _ {J : Type 0} where
  jobs-append : (ws vs : List (Worker J)) → jobs_of (ws ++ vs) ≡ jobs_of ws ++ jobs_of vs
  jobs-append [] vs = refl
  jobs-append (w ∷ ws) vs =
      ap (λ js. job_of w ++ js) (jobs-append ws vs)
      ∙ sym (append_assoc (job_of w) (jobs_of ws) (jobs_of vs))

  jobs-replicate : (n : ℕ) → jobs_of {J = J} (replicate n (spawned none)) ≡ []
  jobs-replicate zero = refl
  jobs-replicate (suc n) = jobs-replicate n

  -- A worker among the others: only its job counts.
  jobs_same :
      (us vs : List (Worker J)) (w x : Worker J)
      → job_of w ≡ job_of x
      → jobs_of (us ++ w ∷ vs) ≡ jobs_of (us ++ x ∷ vs)
  jobs_same us vs w x e =
      rw (jobs-append us (w ∷ vs), jobs-append us (x ∷ vs))
        (ap (λ js. jobs_of us ++ (js ++ jobs_of vs)) e)

  jobs_with :
      (us vs : List (Worker J)) (w x : Worker J) (j : J)
      → job_of w ≡ j ∷ []
      → job_of x ≡ []
      → ◌≡◌ {A = Multiset J}
          (of_list (jobs_of (us ++ w ∷ vs)))
          (cons j (of_list (jobs_of (us ++ x ∷ vs))))
  jobs_with us vs w x j e f =
      rw (jobs-append us (w ∷ vs), jobs-append us (x ∷ vs), e, f)
        (sound (perm_middle (jobs_of us) (jobs_of vs)))

  jobs_without :
      (us vs : List (Worker J)) (w : Worker J)
      → job_of w ≡ []
      → jobs_of (us ++ w ∷ vs) ≡ jobs_of (us ++ vs)
  jobs_without us vs w e = rw (jobs-append us (w ∷ vs), jobs-append us vs, e) refl

  -- A worker that has finished a job, or has got one, in the bag.
  bag_with :
      (q : List J) (us vs : List (Worker J)) (w x : Worker J) (j : J)
      → job_of w ≡ j ∷ []
      → job_of x ≡ []
      → bag_of q (us ++ w ∷ vs) ≡ cons j (bag_of q (us ++ x ∷ vs))
  unfolding bag_of
  bag_with q us vs w x j e f =
      ap (add (of_list q)) (jobs_with us vs w x j e f)
      ∙ add-cons j (of_list q) (of_list (jobs_of (us ++ x ∷ vs)))

  bag_same :
      {q q' : List J} (ws vs : List (Worker J))
      → q' ≡ q
      → jobs_of vs ≡ jobs_of ws
      → bag_of q' vs ≡ bag_of q ws
  unfolding bag_of
  bag_same {q} ws vs e f = ap (λ q. bag_of q vs) e ∙ ap (λ js. add (of_list q) (of_list js)) f

  bag_queue : (q : List J) (ws : List (Worker J)) (j : J) → bag_of (j ∷ q) ws ≡ cons j (bag_of q ws)
  unfolding bag_of
  bag_queue q ws j = cons-add j (of_list q) (of_list (jobs_of ws))

  bag_last :
      (q : List J) (ws : List (Worker J)) (j : J) → bag_of (q ++ j ∷ []) ws ≡ cons j (bag_of q ws)
  unfolding bag_of
  bag_last q ws j =
      ap (λ b. add b (of_list (jobs_of ws))) (sound (perm_append_singleton j q)) ∙ bag_queue q ws j

  same_bag :
      (s t : Pool J) → t.job_queue ≡ s.job_queue → t.workers ≡ s.workers → waiting t ≡ waiting s
  same_bag s t e f = bag_same s.workers t.workers e (ap jobs_of f)

  Behaves-eq : {es : List (Shown J)} {b b' : Multiset J} → b' ≡ b → Behaves es b → Behaves es b'
  Behaves-eq {es} e v = subst (Behaves es) (sym e) v

  -- A worker goes on, and holds the job that it held.
  stays :
      (s : Pool J) {es : List (Shown J)} (us vs : List (Worker J)) (w x : Worker J)
      → s.workers ≡ us ++ w ∷ vs
      → job_of w ≡ job_of x
      → Behaves es (waiting s)
      → Behaves es (bag_of s.job_queue (us ++ x ∷ vs))
  stays s us vs w x e same v =
      Behaves-eq (bag_same _ _ refl (sym (jobs_same us vs w x same) ∙ sym (ap jobs_of e))) v

  Move-Behaves :
      {s t : Pool J} {es : List (Shown J)} (us vs : List (Worker J)) {w x : Worker J}
      → s.workers ≡ us ++ w ∷ vs
      → (m : Move s w x t) → Behaves es (waiting s)
      → Behaves (shown_by_move m ++ es) (waiting (record t { workers = us ++ x ∷ vs }))
  Move-Behaves {s} us vs e begin_job v = stays s us vs _ _ e refl v
  Move-Behaves {s} us vs e begin_idle v = stays s us vs _ _ e refl v
  Move-Behaves {s} us vs e take_idle v = stays s us vs _ _ e refl v
  Move-Behaves {s} us vs e (execute {j}) v =
      takes j v
        (ap (bag_of s.job_queue) e ∙ bag_with s.job_queue us vs (executing j) executed j refl refl)
  Move-Behaves {s} us vs e put_idle v = stays s us vs _ _ e refl v
  Move-Behaves {s} us vs e (receive {j} {q} d) v =
      Behaves-eq
        (bag_with q us vs (received j) selecting j refl refl
          ∙ sym (bag_queue q (us ++ selecting ∷ vs) j)
          ∙ bag_same s.workers (us ++ selecting ∷ vs) (sym d) (sym (ap jobs_of e)))
        v
  Move-Behaves {s} us vs e (see_closed d g) v = stays s us vs _ _ e refl v
  Move-Behaves {s} us vs e (tick_stay f g) v = stays s us vs _ _ e refl v
  Move-Behaves {s} us vs e (tick_leave f g) v = stays s us vs _ _ e refl v
  Move-Behaves {s} us vs e count_out v = stays s us vs _ _ e refl v

  Return-Behaves :
      {s t : Pool J} {es : List (Shown J)} {p : Submitter J}
      → (r : Return s p t) → Behaves es (waiting s)
      → Behaves (shown_by_return r ++ es) (waiting t)
  unfolding bag_of
  Return-Behaves {s} (send_buffered {j} d g) v = puts j v (bag_last s.job_queue s.workers j)
  Return-Behaves {s} (send_handover {j} xs ys d g k) v = puts j v (
      bag_with s.job_queue xs ys (received j) selecting j refl refl
      ∙ ap (λ ws. cons j (bag_of s.job_queue ws)) (sym k))
  Return-Behaves (send_panics d) v = v
  Return-Behaves (refuse_fixed d) v = v
  Return-Behaves (refuse_full d g) v = v
  Return-Behaves {s} (spawn {j}) v =
      puts j v (bag_with s.job_queue [] s.workers (spawned (some j)) (spawned none) j refl refl)

  Advance-Behaves :
      {s t : Pool J} {es : List (Shown J)} {p q : Submitter J}
      → Advance s p q t
      → Behaves es (waiting s)
      → Behaves es (waiting t)
  Advance-Behaves (default d) v = v
  Advance-Behaves (claim d g) v = v

  waiting-start : (s : Pool J) → waiting (start s).0 ≡ waiting s
  unfolding start add_initial_workers
  waiting-start s =
      let m = pos_part s.pool_conf.min_number_of_worker in
      elim (Bool-cases s.is_running) [
        | inl up ↦ simp up refl
        | inr down ↦ simp down (
            bag_same _ _ refl (
              jobs-append (replicate m (spawned none)) s.workers
              ∙ ap (λ js. js ++ jobs_of s.workers) (jobs-replicate m)))
      ]

  waiting-stop : (s : Pool J) → waiting (stop s).0 ≡ waiting s
  unfolding stop
  waiting-stop s = same_bag s (stop s).0 (ground arith) (ground arith)

  waiting-close_queue : (s : Pool J) → waiting (close_queue s) ≡ waiting s
  unfolding close_queue
  waiting-close_queue s = same_bag s (close_queue s) (ground arith) (ground arith)

  waiting-done :
      (s : Pool J) (us vs : List (Worker J))
      → s.workers ≡ us ++ leaving ∷ vs
      → waiting (done s (us ++ vs)) ≡ waiting s
  unfolding done
  waiting-done s us vs e = bag_same s.workers (done s (us ++ vs)).workers (ground arith) (
      ap jobs_of {x = (done s (us ++ vs)).workers} {y = us ++ vs} (ground arith)
      ∙ sym (jobs_without us vs leaving refl)
      ∙ sym (ap jobs_of e))

  Step-Behaves :
      {s t : Pool J} {es : List (Shown J)}
      → (st : Step s t) → Behaves es (waiting s)
      → Behaves (shown_by st ++ es) (waiting t)
  Step-Behaves {s} (starts f e) v = Behaves-eq (waiting-start s) v
  Step-Behaves {s} (stops f e) v = Behaves-eq (waiting-stop s) v
  Step-Behaves (stop_returns e f) v = v
  Step-Behaves (submits j f e) v = v
  Step-Behaves (advances us vs e a) v = Advance-Behaves a v
  Step-Behaves (returns us vs e r) v = Return-Behaves r v
  Step-Behaves (moves us vs e m) v = Move-Behaves us vs e m v
  Step-Behaves {s} (leaves us vs e) v = Behaves-eq (waiting-done s us vs e) v
  Step-Behaves {s} (closes d e) v = Behaves-eq (waiting-close_queue s) v

  -- Whatever a pool made by New shows on its way to a state, in any order of the steps of its callers,
  -- its workers and its goroutine run, a bag of jobs shows too, and what is in the bag then is the
  -- multiset of the jobs in the pool's channel and in the hands of its workers: a Submit that returns
  -- true puts its job into the bag, and a job is executed by taking it out.
  pub Trace-Behaves :
      {c : PoolConf} {es : List (Shown J)} {s : Pool J} → Trace c es s → Behaves es (waiting s)
  unfolding new bag_of
  Trace-Behaves fresh = empty refl
  Trace-Behaves (later r alive st) = Step-Behaves st (Trace-Behaves r)
