-- ===== src/WorkerPool/New.antt =====
-- `New` of worker_pool/worker_pool.go: the defaults of the pool's configuration.
use jec.Prelude.{◌≡◌, ℤ, pos, ◌≤ℤ◌, ◌<ℤ◌, ltb_ℤ, leb_ℤ, if◌then◌else◌, arith}
use jec.Config.Types.{PoolConf}

abbrev max_number_of_worker : ℤ
max_number_of_worker = pos 12

abbrev min_number_of_worker : ℤ
min_number_of_worker = pos 4

abbrev queue_size : ℤ
queue_size = pos 0

abbrev keep_alive_time_in_millis : ℤ
keep_alive_time_in_millis = pos 6000

abbrev monitoring_period_in_millis : ℤ
monitoring_period_in_millis = pos 15000

set_max : PoolConf → PoolConf
set_max c =
    if leb_ℤ c.max_number_of_worker (pos 0)
    then record c { max_number_of_worker = max_number_of_worker }
    else c

set_min : PoolConf → PoolConf
set_min c =
    if ltb_ℤ c.min_number_of_worker (pos 0)
    then record c { min_number_of_worker = min_number_of_worker }
    else c

lower_min : PoolConf → PoolConf
lower_min c =
    if ltb_ℤ c.max_number_of_worker c.min_number_of_worker
    then record c { min_number_of_worker = c.max_number_of_worker }
    else c

set_queue : PoolConf → PoolConf
set_queue c = if ltb_ℤ c.queue_size (pos 0) then record c { queue_size = queue_size } else c

set_keep_alive : PoolConf → PoolConf
set_keep_alive c =
    if leb_ℤ c.keep_alive_time_in_millis (pos 0)
    then record c { keep_alive_time_in_millis = keep_alive_time_in_millis }
    else c

set_monitoring : PoolConf → PoolConf
set_monitoring c =
    if leb_ℤ c.monitoring_period_in_millis (pos 0)
    then record c { monitoring_period_in_millis = monitoring_period_in_millis }
    else c

-- The tests of `New` in their order, each on what the earlier ones left.
unfoldable pub new_conf : PoolConf → PoolConf
unfolding set_max set_min lower_min set_queue set_keep_alive set_monitoring
new_conf c = set_monitoring (set_keep_alive (set_queue (lower_min (set_min (set_max c)))))

-- What the pool relies on.
pub record IsValid (c : PoolConf) : Type 0 where
  pub some_worker : pos 0 <ℤ c.max_number_of_worker
  pub min_nonneg : pos 0 ≤ℤ c.min_number_of_worker
  pub min_le_max : c.min_number_of_worker ≤ℤ c.max_number_of_worker
  pub queue_nonneg : pos 0 ≤ℤ c.queue_size
  pub keep_alive_pos : pos 0 <ℤ c.keep_alive_time_in_millis
  pub monitoring_pos : pos 0 <ℤ c.monitoring_period_in_millis

-- Whatever the configuration says, the pool gets numbers that it can work with: a worker at least, a
-- minimum between zero and the maximum, a queue size that is not negative, and positive periods.
pub new_conf-IsValid : (c : PoolConf) → IsValid (new_conf c)
unfolding new_conf
new_conf-IsValid c = ground arith

-- A configuration that the pool can work with is kept as it is.
pub new_conf_valid : (c : PoolConf) → IsValid c → new_conf c ≡ c
unfolding new_conf
new_conf_valid c v = ground arith
