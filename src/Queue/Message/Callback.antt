-- ===== src/Queue/Message/Callback.antt =====
-- The handler of queue/message.go with Execute of runbook/executor.go as its ExecuteFunc.
--
-- The program that exec.Cmd runs stands outside: `Program` says what it answers to a command. The
-- other parameters are those of the executor; `text_of` reads bytes as a text.
use jec.Prelude.{
  ℕ, ◌≡◌, ◌≤◌, ◌∙◌, ap, Bool-cases, refl, inl, inr, String, true, false, List, Option, none, some,
  Result, ok, str_eq, length, arith,
}
use text.Mathlib.TextEquality.{eq_iff}
use jec.Config.Types.{MappedAction}
use jec.Runbook.Types.{ActionResultPayload, HttpResponse, Invocation, Execution}
use jec.Runbook.Callback.{new_on_unix, buffer_size}
use jec.Runbook.Executor
use jec.Runbook.Executor.{Command, Moment, copied, command}
use jec.Runbook.Executor.Laws.{callback_roundtrip}
use jec.Queue.Token.{Payload, http_action_type}
use jec.Queue.Sqs.{Message}
use jec.Queue.Message.{
  World, Handler, Handled, requested_action, handle, execute, run_action, run_git, handle_payload,
  perform, finish, succeed, blank_result, resolve_mapped_action,
}
use jec.Runbook.Callback.Laws.{NoZero}
use jec.Queue.Message.Laws.{IsConfigured, IsRunOf}

-- What a program has done when it ends: its output, its error, and how far the reader of its pipe is.
pub record Ran : Type 0 where
  pub output : String
  pub stderr : String
  pub error : Option String
  pub moment : Moment

abbrev pub Program : Type 0
Program = Command → Ran

module _ (program : Program) (clean ext : String → String) (environ : List String)
    (text_of : List ℕ → String) where
  -- The program of this run.
  abbrev pub ran_by : Invocation → Ran
  ran_by i = program (command ext environ (new_on_unix clean i.execution_id) i)

  unfoldable pub run : Invocation → Execution
  run i =
      let r = ran_by i in
      let (bytes, failure) =
        Executor.execute (new_on_unix clean i.execution_id) r.moment r.error r.stderr in
      record { output = r.output; callback_context = text_of bytes; failure = failure }

  abbrev pub world : (String → Result Payload) → (String → Result HttpResponse) → World
  world parse_payload parse_http = record {
    parse_payload = parse_payload;
    parse_http = parse_http;
    run = run;
  }

  run_lem :
      (i : Invocation) (text : List ℕ)
      → (ran_by i).error ≡ none
      → (ran_by i).moment ≡ copied text
      → NoZero text
      → length text ≤ buffer_size
      → run i
        ≡ record { output = (ran_by i).output; callback_context = text_of text; failure = none }
  unfolding run
  run_lem i text fine there no_zero fits =
      rw (fine, there, callback_roundtrip clean i.execution_id (ran_by i).stderr text no_zero fits)
        refl

module _ (w : World) (h : Handler) (m : Message) (a : MappedAction) where
  run_of_lem : (i : Invocation) → IsRunOf h m a i → execute w h a m ≡ run_action w a i
  unfolding execute run_git
  run_of_lem i (inl (here, e)) = rw (here, e) refl
  run_of_lem i (inr (there, e, (rs, r, has, got))) = rw (there, e, has, run_git, got) refl

  resolved :
      (p : Payload)
      → IsConfigured h p a
      → resolve_mapped_action h (requested_action p) p.action_type ≡ ok a
  unfolding resolve_mapped_action
  resolved p (found, type) =
      rw (found, resolve_mapped_action) (ground (arith, eq_iff a.type p.action_type, type))

  performed :
      (p : Payload)
      → w.parse_payload m.body ≡ ok p
      → str_eq (requested_action p) "" ≡ false
      → IsConfigured h p a
      → handle w h m
        ≡ finish w p (blank_result p (requested_action p)) (execute w h a m) (execute w h a m).error
  unfolding handle handle_payload perform
  performed p parsed named configured =
      rw (parsed, handle, named, handle_payload, resolved p configured, perform) refl

  -- A run that succeeds is a result that succeeds.
  finished :
      (p : Payload) (r : ActionResultPayload) (i : Invocation)
      → str_eq p.action_type http_action_type ≡ false
      → (w.run i).failure ≡ none
      → (finish w p r (run_action w a i) (run_action w a i).error).result
        ≡ some (record r { callback_context = (w.run i).callback_context; is_successful = true })
  unfolding finish succeed run_action
  finished p r i plain fine = elim (Bool-cases p.discard_script_response) [
    | inl drop ↦ rw (fine, finish, plain, drop) refl
    | inr keep ↦ rw (fine, finish, plain, keep) refl
  ]

module _ (program : Program) (clean ext : String → String) (environ : List String)
    (text_of : List ℕ → String) (parse_payload : String → Result Payload)
    (parse_http : String → Result HttpResponse) where
  abbrev w : World
  w = world program clean ext environ text_of parse_payload parse_http

  -- For a message that asks for a configured action, not of type http, whose program ends without an
  -- error after it has written a text to its pipe, without the byte 0 and no longer than the buffer,
  -- which the reader has copied in time: the handler returns a result that succeeds, repeats the ids
  -- of the request, and has this text as its callback context.
  pub text_comes_back :
      (h : Handler) (m : Message) (p : Payload) (a : MappedAction) (i : Invocation) (text : List ℕ)
      → parse_payload m.body ≡ ok p
      → str_eq (requested_action p) "" ≡ false
      → IsConfigured h p a
      → str_eq p.action_type http_action_type ≡ false
      → IsRunOf h m a i
      → (ran_by program clean ext environ text_of i).error ≡ none
      → (ran_by program clean ext environ text_of i).moment ≡ copied text
      → NoZero text
      → length text ≤ buffer_size
      → (r : ActionResultPayload) × ((handle w h m).result ≡ some r)
        × (r.is_successful ≡ true)
        × (r.callback_context ≡ text_of text)
        × (r.request_id ≡ p.request_id)
        × (r.entity_id ≡ p.entity.id)
  text_comes_back h m p a i text parsed named configured plain run_of fine there no_zero fits =
      let ran = run_lem program clean ext environ text_of i text fine there no_zero fits in
      let r0 = blank_result p (requested_action p) in
      let done = performed w h m a p parsed named configured in
      let e = run_of_lem w h m a i run_of in
      let f = finished w h m a p r0 i plain (ap (λ (x : Execution). x.failure) ran) in
      (
        record r0 { callback_context = (w.run i).callback_context; is_successful = true },
        ap (λ (x : Handled). x.result) (done ∙ ap (λ o. finish w p r0 o o.error) e) ∙ f,
        refl,
        ap (λ (x : Execution). x.callback_context) ran,
        refl,
        refl,
      )
