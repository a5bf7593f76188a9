-- ===== src/Queue/Processor.antt =====
-- queue/processor.go: the defaults of NewProcessor, the map of pollers and its refresh by a token.
--
-- A map of pollers is an association list keyed by queue url. `connects` says whether the AWS session
-- can be made for a client; the pollers' goroutines are those of the module Queue.Poller. The set
-- pollerKeys is the list of its keys.
pub mod Laws
use jec.Prelude.{
  ℕ, ℤ, pos, leb_ℤ, ltb_ℤ, mul64, String, ◌&&◌, Bool, true, false, not, List, [], ◌∷◌, ◌++◌, Option,
  none, some, if◌then◌else◌, lookup, insert, delete, str_eq,
}
use jec.Config.Types.{PollerConf}
use jec.Queue.Token.{AssumeRoleResult, Properties, Token, is_zero, url}
use jec.Queue.Sqs.{Client, Provider, refresh_client, new_sqs_provider}
use jec.Queue.Poller.{Poller, new_poller, start, stop}

set_messages : PollerConf → PollerConf
set_messages c =
    if leb_ℤ c.max_number_of_messages (pos 0)
    then record c { max_number_of_messages = pos 10 }
    else c

set_interval : PollerConf → PollerConf
set_interval c =
    if leb_ℤ c.polling_wait_interval_in_millis (pos 0)
    then record c { polling_wait_interval_in_millis = pos 100 }
    else c

set_visibility : PollerConf → PollerConf
set_visibility c =
    if ltb_ℤ c.visibility_timeout_in_seconds (pos 15)
    then record c { visibility_timeout_in_seconds = pos 30 }
    else c

-- The tests of NewProcessor in their order.
unfoldable pub new_poller_conf : PollerConf → PollerConf
unfolding set_messages set_interval set_visibility
new_poller_conf c = set_visibility (set_interval (set_messages c))

abbrev pub Pollers : Type 0
Pollers = List (String × Poller)

pub record Processor : Type 0 where
  pub pollers : Pollers
  pub poller_conf : PollerConf
  pub success_refresh_period : ℤ
  pub error_refresh_period : ℤ

abbrev second : ℤ
second = pos 1000000000

abbrev pub keys : Pollers → List String
keys [] = []
keys ((k, p) ∷ ps) = k ∷ keys ps

abbrev pub mem : String → List String → Bool
mem k [] = false
mem k (j ∷ js) = if str_eq j k then true else mem k js

-- `delete(pollerKeys, queueUrl)`
abbrev pub without : String → List String → List String
without k [] = []
without k (j ∷ js) = let rest = without k js in if str_eq j k then rest else j ∷ rest

module _ (connects : Client → Bool) (conf : PollerConf) (owner : String) where
  -- RefreshClient, unless the role is the zero value; an error is only logged.
  unfoldable pub refresh : Properties → Poller → Poller
  refresh q p =
      if is_zero q.assume_role_result
      then p
      else record p { provider = (refresh_client connects p.provider q.assume_role_result).0 }

  -- addPoller, and Start of the new poller; a provider that cannot be made adds nothing.
  unfoldable pub add : Properties → Pollers → Pollers
  add q ps = elim (new_sqs_provider connects q) [
    | none ↦ ps
    | some provider ↦
        insert (url provider.queue_properties) (start (new_poller provider conf owner)).0 ps
  ]

  -- One turn of the loop over the token's queues, with the keys that are still to be removed.
  unfoldable pub refresh_one : Properties → Pollers × List String → Pollers × List String
  unfolding refresh add
  refresh_one q (ps, ks) = elim (lookup (url q) ps) [
    | some p ↦ (insert (url q) (refresh q p) ps, without (url q) ks)
    | none ↦ (add q ps, ks)
  ]

  unfoldable pub refresh_each : List Properties → Pollers × List String → Pollers × List String
  unfolding refresh_one
  refresh_each [] s = s
  refresh_each (q ∷ qs) s = refresh_each qs (refresh_one q s)

-- removePoller and Stop of each: the pollers that are left, and those that were stopped.
unfoldable pub remove_each : List String → Pollers → Pollers × List Poller
remove_each [] ps = (ps, [])
remove_each (k ∷ ks) ps =
    let (left, stopped) = remove_each ks (delete k ps) in
    (left, elim (lookup k ps) [ none ↦ stopped | some p ↦ (stop p).0 ∷ stopped ])

unfoldable pub set_periods : List Properties → Processor → Processor
set_periods [] s = s
set_periods (q ∷ qs) s = record s {
  success_refresh_period = mul64 second (q.configuration).success_refresh_period_in_seconds;
  error_refresh_period = mul64 second (q.configuration).error_refresh_period_in_seconds;
}

-- The periods that set_periods sets are positive: the tickers of run can be made of them.
unfoldable pub good_periods : List Properties → Bool
good_periods [] = true
good_periods (q ∷ qs) =
    ltb_ℤ (pos 0) (mul64 second (q.configuration).success_refresh_period_in_seconds)
    && ltb_ℤ (pos 0) (mul64 second (q.configuration).error_refresh_period_in_seconds)

-- refreshPollers: the processor, and the pollers that were stopped.
unfoldable pub refresh_pollers : (Client → Bool) → Token → Processor → Processor × List Poller
unfolding refresh_each remove_each set_periods
refresh_pollers connects t s =
    let (ps, ks) =
      refresh_each connects s.poller_conf t.owner_id t.queue_properties_list
        (s.pollers, keys s.pollers) in
    let (left, stopped) = remove_each ks ps in
    (set_periods t.queue_properties_list (record s { pollers = left }), stopped)
