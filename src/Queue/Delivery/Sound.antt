-- ===== src/Queue/Delivery/Sound.antt =====
-- Where the messages are that the polls of queue/poller.go receive.
use jec.Prelude.{
  ℕ, ◌+◌, ◌<◌, ◌≡◌, ◌∙◌, refl, sym, ap, pos, pos_part, half32, ltb_ℤ, ◌<ℤ◌, Bool-cases, true, false,
  String, List, [], ◌∷◌, ◌++◌, length, total, total-append, if◌then◌else◌, inl, inr, arith,
}
use jec.Config.Types.{PollerConf, PoolConf}
use jec.Queue.Sqs.{Message, Provider, delete_message, send_delete}
use jec.Queue.Token.{url}
use jec.Queue.Poller
use jec.Queue.Poller.{poll, requests, accepts, terminates}
use jec.Queue.Poller.Laws.{weigh, accepted, shows, asked_back, received, poll_accounts}
use jec.Queue.Job
use jec.Queue.Job.{Job, new_job, execute, is_initial, initial, requested}
use jec.Queue.Message.{World, Handler}
use jec.WorkerPool.State.{Pool}
use jec.WorkerPool.State
use jec.WorkerPool.Step
use jec.WorkerPool.Refinement.{Promise, same, accept, run, Step-Promise}
use jec.Queue.Delivery.{
  Pending, Flow, fresh_flow, from_queue, taken, Flows, begins, asks, submits, returns, finishes,
  executes, works, Reach, fresh, later,
}

-- A job counts by its queue and the receipt handle of its message.
abbrev pub by_job : (String → String → ℕ) → Job → ℕ
by_job k j = weigh k j.queue_url j.message

abbrev not_new : Job → ℕ
not_new j = if is_initial j.state then 0 else 1

-- The messages that a poll has yet to hand on.
abbrev pub carried : (String → String → ℕ) → Pending → ℕ
carried k x = total (accepted (weigh k x.queue)) x.left + total (asked_back k) x.left

-- The requests that delete a message, by the queue and the receipt handle that they name.
abbrev pub deletes : (String → String → ℕ) → Job.Effect → ℕ
deletes k (requested (delete_message url handle)) = k url handle
deletes k _ = 0

-- A received message, by its queue and its receipt handle.
abbrev pub by_handle : (String → String → ℕ) → String × Message → ℕ
by_handle k (u, m) = k u m.receipt_handle

from_queue-by_handle :
    (k : String → String → ℕ) (u : String) (ms : List Message)
    → total (by_handle k) (from_queue u ms) ≡ total (weigh k u) ms
unfolding from_queue
from_queue-by_handle k u [] = refl
from_queue-by_handle k u (m ∷ ms) = omega (arith, from_queue-by_handle k u ms)

taken_room :
    (u : String) (c : Poller.Chance)
    → pos 0 <ℤ c.available
    → taken u c ≡ from_queue u (received c.answer)
unfolding taken
taken_room u c room = ground arith

taken_full : (u : String) (c : Poller.Chance) → ltb_ℤ (pos 0) c.available ≡ false → taken u c ≡ []
unfolding taken
taken_full u c full = rw full refl

poll_full :
    (conf : PollerConf) (c : Poller.Chance) (p : Provider)
    → ltb_ℤ (pos 0) c.available ≡ false
    → poll conf c p ≡ (true, p, [])
unfolding poll
poll_full conf c p full = rw full refl

taken-carried :
    (k : String → String → ℕ) (key owner : String) (conf : PollerConf) (c : Poller.Chance)
    (p : Provider)
    → carried k (record {
      url = key;
      owner = owner;
      queue = url p.queue_properties;
      left = (poll conf c p).2;
    })
      ≡ total (by_handle k) (taken (url p.queue_properties) c)
taken-carried k key owner conf c p = elim (Bool-cases (ltb_ℤ (pos 0) c.available)) [
  | inl room ↦
      let h : pos 0 <ℤ c.available = ground arith in
      poll_accounts k conf c p h
      ∙ sym (
          ap (total (by_handle k)) (taken_room (url p.queue_properties) c h)
          ∙ from_queue-by_handle k (url p.queue_properties) (received c.answer))
  | inr full ↦ rw (taken_full (url p.queue_properties) c full, poll_full conf c p full) refl
]

execute-deletes :
    (k : String → String → ℕ) (w : World) (h : Handler) (j : Job) (p : Provider) (c : Job.Chance)
    → url p.queue_properties ≡ j.queue_url
    → not_new j ≡ 0
    → total (deletes k) (execute w h j p c).3 ≡ by_job k j
unfolding execute send_delete
execute-deletes k w h j p c e new =
    let same = ap (λ u. k u j.message.receipt_handle) e in ground arith

executed_new :
    {a d b e : List Job} (j : Job)
    → Promise a d b e
    → e ≡ j ∷ d
    → total not_new a ≡ 0
    → not_new j ≡ 0
executed_new {d} j (same _ i) x z = absurd (omega (arith, ap length (sym i ∙ x)))
executed_new {d} j (accept k _ i) x z = absurd (omega (arith, ap length (sym i ∙ x)))
executed_new j (run k pending conserved _ i) x z =
    let e : k ≡ j = cc (sym i ∙ x) in omega (arith, conserved not_new, ap not_new e, z)

-- Where the messages are, in every state that the flow can reach.
pub record Sound (c : PoolConf) (s : Flow) : Type 0 where
  pub reached : Step.Reach c s.pool
  pub all_new : total not_new s.pool.accepted ≡ 0
  pub balanced :
      (k : String → String → ℕ)
      → total (by_handle k) s.arrived
        ≡ total (by_job k) s.pool.accepted
          + total (shows k) s.returned
          + total (carried k) s.pending
  pub deleted :
      (k : String → String → ℕ) → total (deletes k) s.effects ≡ total (by_job k) s.pool.executions

-- One effect of one poll is played.
played :
    (k : String → String → ℕ) (x y : Pending) (us vs ps : List Pending) (n : ℕ)
    → ps ≡ us ++ x ∷ vs
    → carried k x ≡ n + carried k y
    → total (carried k) ps ≡ n + total (carried k) (us ++ y ∷ vs)
played k x y us vs ps n e h = omega (
  arith,
  h,
  ap (total (carried k)) e,
  total-append (carried k) us (x ∷ vs),
  total-append (carried k) us (y ∷ vs),
)

Flows-Sound :
    {c : PoolConf} {s t : Flow}
    → pos_part c.max_number_of_worker < half32
    → s.pool.panicked ≡ false
    → Flows s t
    → Sound c s
    → Sound c t
unfolding new_job
Flows-Sound {s} h alive (begins key owner conf ch p free) v = record {
  reached = v.reached;
  all_new = v.all_new;
  balanced = λ k. omega (
    arith,
    v.balanced k,
    total-append (by_handle k) (taken (url p.queue_properties) ch) s.arrived,
    taken-carried k key owner conf ch p,
  );
  deleted = v.deleted;
}
Flows-Sound {s} h alive (asks x r fx us vs e i) v = record {
  reached = v.reached;
  all_new = v.all_new;
  balanced = λ k. omega (
    arith,
    v.balanced k,
    played k x (record x { left = fx }) us vs s.pending 0 e
        (omega (arith, ap (total (accepted (weigh k x.queue))) i, ap (total (asked_back k)) i)),
  );
  deleted = v.deleted;
}
Flows-Sound {s} h alive (submits x m fx us vs e i st more as_before) v = record {
  reached = Step.later v.reached alive st;
  all_new = omega (arith, ap (total not_new) more, v.all_new);
  balanced = λ k. omega (
    arith,
    v.balanced k,
    ap (total (by_job k)) more,
    played k x (record x { left = fx }) us vs s.pending (weigh k x.queue m) e
        (omega (arith, ap (total (accepted (weigh k x.queue))) i, ap (total (asked_back k)) i)),
  );
  deleted = λ k. v.deleted k ∙ sym (ap (total (by_job k)) as_before);
}
Flows-Sound {s} h alive (returns x m r fx us vs e i) v = record {
  reached = v.reached;
  all_new = v.all_new;
  balanced = λ k. omega (
    arith,
    v.balanced k,
    played k x (record x { left = fx }) us vs s.pending (shows k r) e
        (omega (arith, ap (total (accepted (weigh k x.queue))) i, ap (total (asked_back k)) i)),
  );
  deleted = v.deleted;
}
Flows-Sound {s} h alive (finishes x us vs e i) v = record {
  reached = v.reached;
  all_new = v.all_new;
  balanced = λ k. omega (
    arith,
    v.balanced k,
    ap (total (carried k)) e,
    total-append (carried k) us (x ∷ vs),
    total-append (carried k) us vs,
    ap (total (accepted (weigh k x.queue))) i,
    ap (total (asked_back k)) i,
  );
  deleted = v.deleted;
}
Flows-Sound {s} h alive (executes j w hd p ch own st as_before more) v =
    let new = executed_new j (Step-Promise h v.reached alive st) more v.all_new in
    record {
      reached = Step.later v.reached alive st;
      all_new = ap (total not_new) as_before ∙ v.all_new;
      balanced = λ k. omega (arith, v.balanced k, ap (total (by_job k)) as_before);
      deleted = λ k. omega (
        arith,
        v.deleted k,
        total-append (deletes k) (execute w hd j p ch).3 s.effects,
        execute-deletes k w hd j p ch own new,
        ap (total (by_job k)) more,
      );
    }
Flows-Sound h alive (works st as_before none_done) v = record {
  reached = Step.later v.reached alive st;
  all_new = ap (total not_new) as_before ∙ v.all_new;
  balanced = λ k. omega (arith, v.balanced k, ap (total (by_job k)) as_before);
  deleted = λ k. v.deleted k ∙ sym (ap (total (by_job k)) none_done);
}

pub Reach-Sound :
    {c : PoolConf} {s : Flow} → pos_part c.max_number_of_worker < half32 → Reach c s → Sound c s
unfolding fresh_flow State.new
Reach-Sound h fresh = record {
  reached = Step.fresh;
  all_new = refl;
  balanced = λ k. refl;
  deleted = λ k. refl;
}
Reach-Sound h (later r alive st) = Flows-Sound h alive st (Reach-Sound h r)
