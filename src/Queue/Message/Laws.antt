-- ===== src/Queue/Message/Laws.antt =====
-- What the handler of queue/message.go runs, and what it reports.
use jec.Prelude.{
  ◌∷◌, ◌++◌, cat, ◌≤◌, ◌≡◌, ◌⊎◌, inl, inr, String, false, List, [], none, some, ok, lookup, str_eq,
  All, length, arith, Bool-cases, Option-cases, Result-cases,
}
use text.Mathlib.TextEquality.{eq_iff}
use jec.Config.Types.{Flags, ActionSpecifications, MappedAction}
use jec.Git.Repositories.{Repositories, Repository, get}
use jec.Runbook.Types.{ActionResultPayload, Invocation}
use jec.Queue.Token.{Payload}
use jec.Queue.Sqs.{Message}
use jec.Queue.Message.{
  Handler, World, resolve_mapped_action, invocation, Outcome, execute, run_git, run_action, Handled,
  requested_action, handle, handle_payload, perform, finish, blank_result, succeed,
}

-- An action that the configuration holds under the requested name, with the requested type.
abbrev pub IsConfigured : Handler → Payload → MappedAction → Type 0
IsConfigured h p a =
    (lookup (requested_action p) h.action_specs.action_mappings ≡ some a) × (a.type ≡ p.action_type)

-- A run of that action as it is configured; a git action's with its known repository locked.
abbrev pub IsRunOf : Handler → Message → MappedAction → Invocation → Type 0
IsRunOf h m a i =
    ((a.source_type ≡ "local") × (i ≡ invocation h a m none))
    ⊎ ((a.source_type ≡ "git")
        × (i ≡ invocation h a m (some a.git_options.url))
        × ((rs : Repositories) × (r : Repository) × (h.repositories ≡ some rs)
            × (get a.git_options.url rs ≡ ok r)))

-- The command line of flags: for each a dash with its name, and its value.
abbrev pub spelled : Flags → List String
spelled [] = []
spelled ((name, value) ∷ f) = cat "-" name ∷ value ∷ spelled f

-- The program of the action, with its global flags, its own flags, the message and its arguments in
-- this order, and with the environment that is configured.
abbrev pub IsAsConfigured : ActionSpecifications → MappedAction → Message → Invocation → Type 0
IsAsConfigured specs a m i =
    (i.executable_path ≡ a.filepath)
    × (i.args
        ≡ spelled specs.global_flags
          ++ (spelled a.flags ++ ("-payload" ∷ m.body ∷ (specs.global_args ++ a.args))))
    × (i.environment_vars ≡ specs.global_env ++ a.env)

pub resolve_lem :
    (h : Handler) (action type : String) {a : MappedAction}
    → resolve_mapped_action h action type ≡ ok a
    → (lookup action h.action_specs.action_mappings ≡ some a) × (a.type ≡ type)
unfolding resolve_mapped_action
resolve_lem h action type {a} e =
    elim (Option-cases (lookup action h.action_specs.action_mappings)) [
      | inl missing ↦ ground arith
      | inr (b, found) ↦ ground (arith, eq_iff b.type type)
    ]

abbrev Runs : Handler → Message → MappedAction → List Invocation → Type 0
Runs h m a is = All (IsRunOf h m a) is × (length is ≤ 1)

-- What a message may run: nothing, or an action that the configuration holds for its request.
abbrev pub MayRun : World → Handler → Message → List Invocation → Type 0
MayRun w h m is =
    (is ≡ [])
    ⊎ ((p : Payload) × (a : MappedAction) × (w.parse_payload m.body ≡ ok p)
        × IsConfigured h p a
        × All (IsRunOf h m a) is
        × All (IsAsConfigured h.action_specs a m) is
        × (length is ≤ 1))

-- What a result says of the request: it repeats the request's ids, and is a failure unless one
-- program ran and no error is returned beside the result.
abbrev pub Reports : Payload → ActionResultPayload → Handled → Type 0
Reports p r x =
    (r.request_id ≡ p.request_id)
    × (r.entity_id ≡ p.entity.id)
    × (r.entity_type ≡ p.entity.type)
    × (r.action ≡ requested_action p)
    × (r.action_type ≡ p.action_type)
    × ((r.is_successful ≡ false) ⊎ ((x.error ≡ none) × (length x.invocations ≡ 1)))

-- Every result beside which `x` comes.
abbrev Reported : Payload → Handled → Type 0
Reported p x = (r : ActionResultPayload) → x.result ≡ some r → Reports p r x

finish_lem :
    (w : World) (p : Payload) (o : Outcome)
    → (o.error ≡ none → length o.invocations ≡ 1)
    → Reported p (finish w p (blank_result p (requested_action p)) o o.error)
unfolding finish succeed
finish_lem w p o one r e = elim (Option-cases o.error) [
  | inl fine ↦ ground (arith, one fine)
  | inr (x, bad) ↦ ground arith
]

execute_success :
    (w : World) (h : Handler) (a : MappedAction) (m : Message)
    → (execute w h a m).error ≡ none
    → length (execute w h a m).invocations ≡ 1
unfolding execute run_git run_action
execute_success w h a m e = ground arith

perform_lem :
    (w : World) (h : Handler) (m : Message) (p : Payload)
    → Reported p (perform w h m p (requested_action p))
unfolding perform
perform_lem w h m p =
    elim (Result-cases (resolve_mapped_action h (requested_action p) p.action_type)) [
      | inl (a, e) ↦ rw (e, perform) (finish_lem w p (execute w h a m) (execute_success w h a m))
      | inr (msg, e) ↦ rw (e, perform) (λ r k. ground arith)
    ]

handle-Reported :
    (w : World) (h : Handler) (m : Message) {p : Payload}
    → w.parse_payload m.body ≡ ok p
    → Reported p (handle w h m)
unfolding handle handle_payload
handle-Reported w h m {p} parsed = elim (Bool-cases (str_eq (requested_action p) "")) [
  | inl empty ↦ rw (parsed, handle, empty, handle_payload) (λ r k. cc)
  | inr named ↦ rw (parsed, handle, named, handle_payload) (perform_lem w h m p)
]

-- A result that the handler returns for a message it can decode repeats the ids of the request, and is a failure unless one
-- program ran and no error is returned beside it.
pub handle-Reports :
    (w : World) (h : Handler) (m : Message) {p : Payload} {r : ActionResultPayload}
    → w.parse_payload m.body ≡ ok p
    → (handle w h m).result ≡ some r
    → Reports p r (handle w h m)
handle-Reports w h m {p} {r} parsed sent = handle-Reported w h m parsed r sent
