-- ===== src/Queue/Expiry.antt =====
-- What the fields of queue/sqs_provider.go mean after any sequence of calls.
use jec.Prelude.{
  ◌≡◌, refl, ℤ, String, Bool, ◌∙◌, true, false, List, [], ◌∷◌, Option, none, some, if◌then◌else◌,
  arith, Bool-cases, inl, inr,
}
use jec.Queue.Token.{AssumeRoleResult, Properties, url, region}
use jec.Queue.Sqs.{
  Message, SqsError, aws_error, other_error, Client, Provider, new_config, refresh_client,
  new_sqs_provider, change_message_visibility, send_delete, send_receive, Received, messages,
  failed, check_expiration,
}

-- A call of the provider's interface that changes its state, with the world's answer.
pub data Call : Type 0 where
  visibility : Message → ℤ → Option SqsError → Call
  delete : Message → Option SqsError → Call
  receive : ℤ → ℤ → Received → Call
  refresh : AssumeRoleResult → Call

module _ (connects : Client → Bool) where
  unfoldable pub step : Provider → Call → Provider
  unfolding change_message_visibility send_delete send_receive refresh_client
  step p (visibility m t e) = (change_message_visibility p m t e).1
  step p (delete m e) = (send_delete p m e).1
  step p (receive n t r) = (send_receive p n t r).1
  step p (refresh r) = (refresh_client connects p r).0

  unfoldable pub run : Provider → List Call → Provider
  unfolding step
  run p [] = p
  run p (c ∷ cs) = run (step p c) cs

  abbrev is_expiry : Option SqsError → Bool
  is_expiry (some (aws_error true)) = true
  is_expiry _ = false

  abbrev answer_of : Received → Option SqsError
  answer_of (messages ms) = none
  answer_of (failed e) = some e

  -- Independent of the provider's own flag: whether the last of the answers that say something of
  -- the token says that it has expired, where a refresh counts if the session for `region` is made.
  abbrev pub expired_after : String → Bool → List Call → Bool
  expired_after q b [] = b
  expired_after q b (visibility m t e ∷ cs) = expired_after q (if is_expiry e then true else b) cs
  expired_after q b (delete m e ∷ cs) = expired_after q (if is_expiry e then true else b) cs
  expired_after q b (receive n t r ∷ cs) =
      expired_after q (if is_expiry (answer_of r) then true else b) cs
  expired_after q b (refresh r ∷ cs) =
      expired_after q
        (if connects (record { client_region = q; client_credentials = r.credentials })
          then false
          else b)
        cs

  refresh_made :
      (p : Provider) (r : AssumeRoleResult)
      → connects (new_config p r) ≡ true
      → step p (refresh r) ≡ record {
        queue_properties = record p.queue_properties { assume_role_result = r };
        client = some (new_config p r);
        is_token_expired = false;
      }
  unfolding step
  refresh_made p r e = rw (e, step)

  refresh_missed :
      (p : Provider) (r : AssumeRoleResult)
      → connects (new_config p r) ≡ false
      → step p (refresh r) ≡ p
  unfolding step
  refresh_missed p r e = rw (e, step)

  step_expired :
      (p : Provider) (c : Call) (cs : List Call)
      → expired_after (region (step p c).queue_properties) (step p c).is_token_expired cs
        ≡ expired_after (region p.queue_properties) p.is_token_expired (c ∷ cs)
  unfolding step check_expiration new_config
  step_expired p (visibility m t none) cs = refl
  step_expired p (visibility m t (some (aws_error true))) cs = refl
  step_expired p (visibility m t (some (aws_error false))) cs = refl
  step_expired p (visibility m t (some other_error)) cs = refl
  step_expired p (delete m none) cs = refl
  step_expired p (delete m (some (aws_error true))) cs = refl
  step_expired p (delete m (some (aws_error false))) cs = refl
  step_expired p (delete m (some other_error)) cs = refl
  step_expired p (receive n t (messages ms)) cs = refl
  step_expired p (receive n t (failed (aws_error true))) cs = refl
  step_expired p (receive n t (failed (aws_error false))) cs = refl
  step_expired p (receive n t (failed other_error)) cs = refl
  step_expired p (refresh r) cs = elim (Bool-cases (connects (new_config p r))) [
    | inl made ↦ rw (refresh_made p r made, made)
    | inr missed ↦ rw (refresh_missed p r missed, missed)
  ]

  -- The flag that the poller reads tells whether the token has expired since the last refresh.
  pub run-expired :
      (p : Provider) (cs : List Call)
      → (run p cs).is_token_expired
        ≡ expired_after (region p.queue_properties) p.is_token_expired cs
  unfolding run
  run-expired p [] = refl
  run-expired p (c ∷ cs) = run-expired (step p c) cs ∙ step_expired p c cs

  -- The client sends with the credentials that the properties hold.
  abbrev pub IsConnected : Provider → Type 0
  IsConnected p =
      p.client
      ≡ some (record {
        client_region = region p.queue_properties;
        client_credentials = p.queue_properties.assume_role_result.credentials;
      })

  abbrev SameQueue : Properties → Provider → Type 0
  SameQueue q p =
      IsConnected p × (url p.queue_properties ≡ url q) × (region p.queue_properties ≡ region q)

  step-SameQueue :
      (q : Properties) (p : Provider) (c : Call) → SameQueue q p → SameQueue q (step p c)
  unfolding step check_expiration new_config
  step-SameQueue q p (visibility m t e) h = ground arith
  step-SameQueue q p (delete m e) h = ground arith
  step-SameQueue q p (receive n t r) h = ground arith
  step-SameQueue q p (refresh r) h = ground arith

  run-SameQueue :
      (q : Properties) (p : Provider) (cs : List Call) → SameQueue q p → SameQueue q (run p cs)
  unfolding run
  run-SameQueue q p [] h = h
  run-SameQueue q p (c ∷ cs) h = run-SameQueue q (step p c) cs (step-SameQueue q p c h)

  new-SameQueue :
      (q : Properties) (p : Provider) → new_sqs_provider connects q ≡ some p → SameQueue q p
  unfolding new_sqs_provider new_config
  new-SameQueue q p made = ground arith

  -- A provider that NewSqsProvider makes keeps, over any calls, its queue and its region, and its
  -- client uses the credentials that its properties hold.
  pub run-IsConnected :
      (q : Properties) (p : Provider) (cs : List Call)
      → new_sqs_provider connects q ≡ some p
      → IsConnected (run p cs)
        × (url (run p cs).queue_properties ≡ url q)
        × (region (run p cs).queue_properties ≡ region q)
  run-IsConnected q p cs made = run-SameQueue q p cs (new-SameQueue q p made)
