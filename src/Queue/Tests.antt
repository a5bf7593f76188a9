-- ===== src/Queue/Tests.antt =====
-- Messages, polls and refreshes of the package queue at concrete values.
use Prim.Native.String.{String}
use jec.Prelude.{
  ℕ, ◌≢◌, zero, suc, ◌+◌, ◌≡◌, ◌↔◌, ◌⊎◌, ◌≤ℤ◌, ◌<ℤ◌, refl, ℤ, pos, true, false, ◌&&◌, ◌||◌, List,
  [], ◌∷◌, none, some, lookup, is_some, total, arith,
}
use jec.Config.Types.{PollerConf}
use jec.Queue.Token.{Token, region, url}
use jec.Queue.Sqs.{aws_error, messages, send_delete, owner_id, channel_id, receive_message}
use jec.Queue.Expiry.{Call, delete, refresh, run, expired_after, run-expired}
use jec.Runbook.Types.{ActionResultPayload}
use jec.Queue.Message.{handle}
use jec.Queue.Message.Laws.{Reports, handle-Reports}
use jec.Queue.Job.{
  Job, initial, Chance, requested, done, panics, already_executing, not_processed, address, execute,
}
use jec.Queue.Job.Laws.{handles, execute-handles, execute_twice, channel_only_panics, race_decides}
use jec.Queue.Poller
use jec.Queue.Poller.{
  Poller, submitted, rejected, refused, requests, poll, turn, ends, start, stop, new_poller,
}
use jec.Queue.Poller.Laws.{
  inquiries, weigh, accepted, asked_back, received, poll_accounts, poll_asks,
}
use jec.Queue.Processor.{Processor, refresh_pollers}
use jec.Queue.Processor.Laws.{listed, connectable, refresh_pollers-exact}
use jec.Queue.Samples.{message, role, queue, provider, handler, payload, world}

create_result :
    (r : ActionResultPayload) × ((handle (world "Create") handler (message [])).result ≡ some r)
unfolding handle
create_result = (
  record {
    request_id = "1";
    is_successful = true;
    entity_id = "e";
    entity_type = "alert";
    action = "Create";
    action_type = "custom";
    failure_message = "";
    callback_context = "";
    http_response = none;
  },
  refl,
)

handle-Reports_example :
    Reports (payload "Create") create_result.0 (handle (world "Create") handler (message []))
handle-Reports_example = handle-Reports (world "Create") handler (message []) refl create_result.1

abbrev owned : Job
owned = record {
  queue_url = "q";
  message = message ((owner_id, "me") ∷ []);
  owner = "me";
  state = initial;
}

abbrev calm : Chance
calm = record { deletion = none; raced = none }

execute-handles_example :
    (total handles (execute (world "Create") handler owned provider calm).3 ≡ 1) ↔ (
      (owned.state ≡ initial)
      × (calm.deletion ≡ none)
      × ((attrs : List (String × String)) × (owned.message.attributes ≡ some attrs)
          × ((lookup owner_id attrs ≡ some owned.owner)
              ⊎ ((lookup owner_id attrs ≢ none) × (lookup channel_id attrs ≡ some owned.owner)))))
execute-handles_example = execute-handles (world "Create") handler owned provider calm

execute_twice_example :
    execute
      (world "Create")
      handler
      (execute (world "Create") handler owned provider calm).0
      provider
      calm
    ≡ (
      (execute (world "Create") handler owned provider calm).0,
      provider,
      done (some already_executing),
      [],
    )
execute_twice_example = execute_twice (world "Create") handler owned provider provider calm calm

-- The message names the channel alone.
abbrev channelled : Job
channelled = record {
  queue_url = "q";
  message = message ((channel_id, "me") ∷ []);
  owner = "me";
  state = initial;
}

channel_only_panics_example :
    ((execute (world "Create") handler channelled provider calm).2 ≡ panics)
    × ((execute (world "Create") handler channelled provider calm).3
        ≡ requested (send_delete provider channelled.message none).0 ∷ [])
unfolding lookup
channel_only_panics_example =
    channel_only_panics (world "Create") handler channelled provider calm ((channel_id, "me") ∷ [])
      refl refl refl refl refl

race_decides_example :
    ((execute
        (world "Close")
        handler
        owned
        provider
        (record { deletion = none; raced = some none })).2
      ≡ done none)
    × ((execute (world "Close") handler owned provider (record { deletion = none; raced = none })).2
        ≡ done (
            some (
              not_processed
                "No mapped action is configured for requested action[Close]. The request will be ignored.")))
unfolding address handle
race_decides_example =
    race_decides (world "Close") handler owned provider none refl refl refl (λ e. cc) refl

abbrev conf : PollerConf
conf = record {
  polling_wait_interval_in_millis = pos 100;
  visibility_timeout_in_seconds = pos 30;
  max_number_of_messages = pos 10;
}

-- Two workers; one message goes to the pool, and the pool refuses the next.
abbrev half_full : Poller.Chance
half_full = record {
  available = pos 2;
  answer = messages (message [] ∷ message [] ∷ []);
  submits = λ i. elim i [ zero ↦ submitted | suc j ↦ refused ];
  terminations = λ i. some (aws_error true);
}

abbrev one_each : String → String → ℕ
one_each queue_url handle = 1

poll_accounts_example :
    total
        (accepted (weigh one_each (url provider.queue_properties)))
        (poll conf half_full provider).2
      + total (asked_back one_each) (poll conf half_full provider).2
    ≡ total (weigh one_each (url provider.queue_properties)) (received half_full.answer)
poll_accounts_example = poll_accounts one_each conf half_full provider (omega arith)

poll_asks_example :
    ((half_full.available ≤ℤ pos 0) × (poll conf half_full provider ≡ (true, provider, [])))
    ⊎ ((pos 0 <ℤ half_full.available)
        × ((n : ℤ) × (names : List String) × (queue_url : String) × (rest : List Poller.Effect)
            × ((poll conf half_full provider).2
                ≡ requests (receive_message names queue_url n (pos 30) (pos 20)) ∷ rest)
            × (total inquiries rest ≡ 0)
            × (n ≤ℤ half_full.available)
            × (n ≤ℤ conf.max_number_of_messages)))
poll_asks_example = poll_asks conf half_full provider

abbrev running : Poller
running = record {
  provider = provider;
  poller_conf = conf;
  owner = "me";
  is_running = true;
  quit_closed = false;
  wake_up_closed = false;
  panicked = false;
}

abbrev processor : Processor
processor = record {
  pollers = ("q1", running) ∷ [];
  poller_conf = conf;
  success_refresh_period = pos 60;
  error_refresh_period = pos 60;
}

abbrev token : Token
token = record { owner_id = "me"; queue_properties_list = queue "q2" ∷ [] }

refresh_pollers-exact_example :
    is_some (lookup "q2" (refresh_pollers (λ c. true) token processor).0.pollers) ≡ (
      listed "q2" token.queue_properties_list
      && (is_some (lookup "q2" processor.pollers)
          || connectable (λ c. true) "q2" token.queue_properties_list))
refresh_pollers-exact_example = refresh_pollers-exact (λ c. true) token processor "q2"

abbrev calls : List Call
calls = delete (message []) (some (aws_error true)) ∷ refresh (role "k2") ∷ []

run-expired_example :
    (run (λ c. true) provider calls).is_token_expired
    ≡ expired_after (λ c. true) (region provider.queue_properties) false calls
run-expired_example = run-expired (λ c. true) provider calls
