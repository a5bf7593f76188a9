-- ===== src/WorkerPool/Counters.antt =====
-- The counters of worker_pool/worker_pool.go, each method one atomic step under numberOfWorkerMu.
-- They are int32 fields, so every sum is taken modulo 2^32.
use jec.Prelude.{ℤ, pos, negsuc, add32, neg32, ltb_ℤ, if◌then◌else◌, Bool, true, false}
use jec.Config.Types.{PoolConf}

pub record Counters : Type 0 where
  pub number_of_current_worker : ℤ
  pub number_of_idle_worker : ℤ

unfoldable pub number_of_available_worker : PoolConf → Counters → ℤ
number_of_available_worker p c =
    add32 (add32 p.max_number_of_worker (neg32 c.number_of_current_worker)) c.number_of_idle_worker

unfoldable pub add_number_of_current_and_idle_worker : ℤ → Counters → Counters
add_number_of_current_and_idle_worker num c = record {
  number_of_current_worker = add32 c.number_of_current_worker num;
  number_of_idle_worker = add32 c.number_of_idle_worker num;
}

unfoldable pub add_number_of_idle_worker : ℤ → Counters → Counters
add_number_of_idle_worker num c = record c {
  number_of_idle_worker = add32 c.number_of_idle_worker num;
}

unfoldable pub compare_and_increment_current_worker : PoolConf → Counters → Counters × Bool
compare_and_increment_current_worker p c =
    if ltb_ℤ c.number_of_current_worker p.max_number_of_worker
    then (
      record {
        number_of_current_worker = add32 c.number_of_current_worker (pos 1);
        number_of_idle_worker = add32 c.number_of_idle_worker (pos 1);
      },
      true,
    )
    else (c, false)

unfoldable pub compare_and_decrement_current_worker : PoolConf → Counters → Counters × Bool
compare_and_decrement_current_worker p c =
    if ltb_ℤ p.min_number_of_worker c.number_of_current_worker
    then (
      record {
        number_of_current_worker = add32 c.number_of_current_worker (negsuc 0);
        number_of_idle_worker = add32 c.number_of_idle_worker (negsuc 0);
      },
      true,
    )
    else (c, false)
