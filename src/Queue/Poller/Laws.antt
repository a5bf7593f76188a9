-- ===== src/Queue/Poller/Laws.antt =====
-- What queue/poller.go does with the messages that it receives.
use jec.Prelude.{
  ℕ, suc, ◌+◌, ◌≡◌, ◌⊎◌, inl, inr, refl, String, Bool-cases, ltb_ℤ, ℤ, pos, ◌≤ℤ◌, ◌<ℤ◌, true, false,
  List, [], ◌∷◌, Option, none, ap, ◌∙◌, eqb_ℤ, if◌then◌else◌, total, arith,
}
use jec.Util.{min}
use jec.Config.Types.{PollerConf}
use jec.Queue.Sqs.{
  Message, Provider, receive_message, Received, messages, failed, send_receive,
  change_message_visibility, owner_id, channel_id, check_expiration, error_of, SqsError, Request,
  change_visibility,
}
use jec.Queue.Token.{url}
use jec.Queue.Poller.{
  Chance, Effect, requests, accepts, terminates, terminate_one, terminate_from, submit_from,
  take_in, poll, Poller, start, stop, turn, ends,
}

-- The requests for messages.
abbrev pub inquiries : Effect → ℕ
inquiries (requests r) = 1
inquiries _ = 0

abbrev pub received : Received → List Message
received (messages ms) = ms
received (failed e) = []

-- The weight of a message of the queue `u`, by the url and the receipt handle.
abbrev pub weigh : (String → String → ℕ) → String → Message → ℕ
weigh k u m = k u m.receipt_handle

-- The messages that went to the pool, by a weight.
abbrev pub accepted : (Message → ℕ) → Effect → ℕ
accepted k (accepts m) = k m
accepted k _ = 0

-- A request to make a message visible at once, by its queue and its receipt handle.
abbrev pub shows : (String → String → ℕ) → Request → ℕ
shows k (change_visibility u h timeout) = if eqb_ℤ timeout (pos 0) then k u h else 0
shows k _ = 0

abbrev pub asked_back : (String → String → ℕ) → Effect → ℕ
asked_back k (terminates m r) = shows k r
asked_back k _ = 0

-- The queue of a provider stays the same, whatever the client answers.
same_queue :
    (e : Option SqsError) (p : Provider)
    → url (check_expiration p e).queue_properties ≡ url p.queue_properties
unfolding check_expiration
same_queue e p = ground arith

module _ (c : Chance) where
  terminate_asks :
      (i : ℕ) (ms : List Message) (p : Provider) → total inquiries (terminate_from c i ms p).1 ≡ 0
  unfolding terminate_from change_message_visibility
  terminate_asks i [] p = refl
  terminate_asks i (m ∷ ms) p = omega (arith, terminate_asks (suc i) ms (terminate_one c i m p).0)

  submit_asks :
      (i : ℕ) (ms : List Message) (p : Provider) → total inquiries (submit_from c i ms p).2 ≡ 0
  unfolding submit_from change_message_visibility
  submit_asks i [] p = refl
  submit_asks i (m ∷ ms) p = ground (
    arith,
    submit_asks (suc i) ms p,
    submit_asks (suc i) ms (terminate_one c i m p).0,
    terminate_asks i (m ∷ ms) p,
  )

  take_in_asks : (a : Received) (p : Provider) → total inquiries (take_in c a p).2 ≡ 0
  unfolding take_in
  take_in_asks (failed e) p = refl
  take_in_asks (messages []) p = refl
  take_in_asks (messages (m ∷ ms)) p = submit_asks 0 (m ∷ ms) p

-- For a provider of the queue `u`.
module _ (k : String → String → ℕ) (u : String) (c : Chance) where
  one_asked :
      (i : ℕ) (m : Message) (p : Provider)
      → url p.queue_properties ≡ u
      → (asked_back k (terminate_one c i m p).1 ≡ weigh k u m)
        × (url (terminate_one c i m p).0.queue_properties ≡ u)
  unfolding terminate_one change_message_visibility
  one_asked i m p e = (ap (λ v. k v m.receipt_handle) e, same_queue (c.terminations i) p ∙ e)

  terminate_all :
      (i : ℕ) (ms : List Message) (p : Provider)
      → url p.queue_properties ≡ u
      → (total (asked_back k) (terminate_from c i ms p).1 ≡ total (weigh k u) ms)
        × (total (accepted (weigh k u)) (terminate_from c i ms p).1 ≡ 0)
  unfolding terminate_from
  terminate_all i [] p e = (refl, refl)
  terminate_all i (m ∷ ms) p e =
      let (here, e') = one_asked i m p e in
      let (a, b) = terminate_all (suc i) ms (terminate_one c i m p).0 e' in
      (omega arith, omega arith)

  submit_all :
      (i : ℕ) (ms : List Message) (p : Provider)
      → url p.queue_properties ≡ u
      → total (accepted (weigh k u)) (submit_from c i ms p).2
          + total (asked_back k) (submit_from c i ms p).2
        ≡ total (weigh k u) ms
  unfolding submit_from
  submit_all i [] p e = omega arith
  submit_all i (m ∷ ms) p e =
      let (here, e') = one_asked i m p e in
      let next = submit_all (suc i) ms p e in
      let after = submit_all (suc i) ms (terminate_one c i m p).0 e' in
      let (a, b) = terminate_all i (m ∷ ms) p e in ground arith

  take_in_accounts :
      (a : Received) (p : Provider)
      → url p.queue_properties ≡ u
      → total (accepted (weigh k u)) (take_in c a p).2 + total (asked_back k) (take_in c a p).2
        ≡ total (weigh k u) (received a)
  unfolding take_in
  take_in_accounts (failed e) p h = omega arith
  take_in_accounts (messages []) p h = omega arith
  take_in_accounts (messages (m ∷ ms)) p h = submit_all 0 (m ∷ ms) p h

-- While a worker is available, for every message that poll receives either a job is in the pool, or one
-- request is sent that names its queue and its receipt handle and asks that it be visible at once
-- (timeout zero), and not both: the counts agree under every weight of urls and handles.
pub poll_accounts :
    (k : String → String → ℕ) (conf : PollerConf) (c : Chance) (p : Provider)
    → pos 0 <ℤ c.available
    → total (accepted (weigh k (url p.queue_properties))) (poll conf c p).2
        + total (asked_back k) (poll conf c p).2
      ≡ total (weigh k (url p.queue_properties)) (received c.answer)
unfolding poll send_receive
poll_accounts k conf c p room =
    let asking =
      send_receive p (min conf.max_number_of_messages c.available)
        conf.visibility_timeout_in_seconds c.answer in
    ground (
      arith,
      take_in_accounts k (url p.queue_properties) c c.answer asking.1
          (same_queue (error_of c.answer) p),
    )

-- A poll asks the queue for messages exactly once if a worker is available, and never else; it asks for no
-- more than there are available workers, and for no more than the configuration allows.
pub poll_asks :
    (conf : PollerConf) (c : Chance) (p : Provider)
    → ((c.available ≤ℤ pos 0) × (poll conf c p ≡ (true, p, [])))
      ⊎ ((pos 0 <ℤ c.available)
          × ((n : ℤ) × (names : List String) × (queue : String) × (rest : List Effect) × ((poll conf
                  c p).2
                ≡ requests
                    (receive_message names queue n conf.visibility_timeout_in_seconds (pos 20))
                  ∷ rest)
              × (total inquiries rest ≡ 0)
              × (n ≤ℤ c.available)
              × (n ≤ℤ conf.max_number_of_messages)))
unfolding poll send_receive min
poll_asks conf c p = elim (Bool-cases (ltb_ℤ (pos 0) c.available)) [
  | inl room ↦ inr (
    ground arith,
    (
      min conf.max_number_of_messages c.available,
      owner_id ∷ channel_id ∷ [],
      url p.queue_properties,
      (take_in c c.answer
          (send_receive p (min conf.max_number_of_messages c.available)
            conf.visibility_timeout_in_seconds c.answer).1).2,
      rw (room, poll) refl,
      take_in_asks c c.answer
          (send_receive p (min conf.max_number_of_messages c.available)
            conf.visibility_timeout_in_seconds c.answer).1,
      ground arith,
      ground arith,
    ),
  )
  | inr full ↦ inl (ground arith, rw (full, poll))
]

-- A running poller that is stopped can be started again without an error, but it polls no more, and
-- stopping it again panics: its channels are closed already.
pub restart_useless :
    (p : Poller) (c : Chance)
    → p.is_running ≡ true
    → p.quit_closed ≡ false
    → ((start (stop p).0).1 ≡ none)
      × (turn (start (stop p).0).0 c ≡ ((start (stop p).0).0, ends))
      × ((stop (start (stop p).0).0).0.panicked ≡ true)
unfolding start stop turn
restart_useless p c running open_yet = ground arith
