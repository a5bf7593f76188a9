-- ===== src/Queue/Job/Laws.antt =====
-- What a call of Execute in queue/job.go does, in every state and on every answer.
use jec.Prelude.{
  ℕ, refl, inl, inr, ap, ◌∙◌, Option-cases, ◌≡◌, ◌≢◌, ◌↔◌, ◌⊎◌, String, List, [], ◌∷◌, Option, none,
  some, lookup, total, arith,
}
use text.Mathlib.TextEquality.{eq_iff}
use jec.Queue.Sqs.{SqsError, Provider, send_delete, owner_id, channel_id}
use jec.Queue.Message.{World, Handler, handle}
use jec.Queue.Job.{
  initial, finished, failed, Job, already_executing, not_processed, done, panics, Effect, requested,
  ran, Chance, addressed, address, execute, read_err,
}

-- Execute leaves no job in its initial state.
execute_leaves_initial :
    (w : World) (h : Handler) (j : Job) (p : Provider) (c : Chance)
    → (execute w h j p c).0.state ≢ initial
unfolding execute
execute_leaves_initial w h j p c = ground arith

execute_refused :
    (w : World) (h : Handler) (j : Job) (p : Provider) (c : Chance)
    → j.state ≢ initial
    → execute w h j p c ≡ (j, p, done (some already_executing), [])
unfolding execute
execute_refused w h j p c old = ground arith

-- A job is executed at most once: a second call does nothing and is refused, also after a failure.
pub execute_twice :
    (w : World) (h : Handler) (j : Job) (p q : Provider) (c d : Chance)
    → execute w h (execute w h j p c).0 q d
      ≡ ((execute w h j p c).0, q, done (some already_executing), [])
execute_twice w h j p q c d = execute_refused w h _ q d (execute_leaves_initial w h j p c)

abbrev pub handles : Effect → ℕ
handles (ran is) = 1
handles _ = 0

-- An attribute that is this connector's, where the message has an ownerId.
abbrev Names : String → List (String × String) → Type 0
Names owner attrs =
    (lookup owner_id attrs ≡ some owner)
    ⊎ ((lookup owner_id attrs ≢ none) × (lookup channel_id attrs ≡ some owner))

address-Names :
    (attributes : Option (List (String × String))) (owner : String)
    → address attributes owner ≡ addressed
    → (attrs : List (String × String)) × (attributes ≡ some attrs) × Names owner attrs
unfolding address
address-Names none owner e = absurd (ground arith)
address-Names (some attrs) owner e = (
  attrs,
  refl,
  elim (Option-cases (lookup owner_id attrs)) [
    | inl missing ↦ absurd (ground (arith, e))
    | inr (v, found) ↦ elim (Option-cases (lookup channel_id attrs)) [
      | inl unchannelled ↦ ground (arith, e, eq_iff v owner)
      | inr (w, there) ↦ ground (arith, e, eq_iff v owner, eq_iff w owner)
    ]
  ],
)

Names-address :
    (attrs : List (String × String)) (owner : String)
    → Names owner attrs
    → address (some attrs) owner ≡ addressed
unfolding address
Names-address attrs owner (inl e) = ground (arith, eq_iff owner owner)
Names-address attrs owner (inr (has, e)) = elim (Option-cases (lookup owner_id attrs)) [
  | inl missing ↦ absurd (has missing)
  | inr (v, found) ↦ ground (arith, eq_iff owner owner)
]

-- What `execute` tests before it handles the message.
execute_handled :
    (w : World) (h : Handler) (j : Job) (p : Provider) (c : Chance)
    → (total handles (execute w h j p c).3 ≡ 1) ↔ (
        (j.state ≡ initial)
        × (c.deletion ≡ none)
        × (address j.message.attributes j.owner ≡ addressed))
unfolding execute send_delete
execute_handled w h j p c = ground arith

-- The message is given to the handler, once, exactly when the job is new, the queue has deleted the
-- message, and the message has an ownerId attribute that is this connector's, or has an ownerId
-- attribute and a channelId attribute that is this connector's.
pub execute-handles :
    (w : World) (h : Handler) (j : Job) (p : Provider) (c : Chance)
    → (total handles (execute w h j p c).3 ≡ 1) ↔ (
        (j.state ≡ initial)
        × (c.deletion ≡ none)
        × ((attrs : List (String × String)) × (j.message.attributes ≡ some attrs)
            × ((lookup owner_id attrs ≡ some j.owner)
                ⊎ ((lookup owner_id attrs ≢ none) × (lookup channel_id attrs ≡ some j.owner)))))
execute-handles w h j p c = (
  λ once.
      let (new, deleted, named) = (execute_handled w h j p c).0 once in
      (new, deleted, address-Names j.message.attributes j.owner named),
  λ (new, deleted, (attrs, has, named)).
      (execute_handled w h j p c).1
        (new, deleted, ap (λ a. address a j.owner) has ∙ Names-address attrs j.owner named),
)

-- The message of a new job that names its channel but has no owner attribute is deleted from the queue, and then
-- ends the process, even if the channel is this connector.
pub channel_only_panics :
    (w : World) (h : Handler) (j : Job) (p : Provider) (c : Chance) (attrs : List (String × String))
    → j.state ≡ initial
    → c.deletion ≡ none
    → j.message.attributes ≡ some attrs
    → lookup owner_id attrs ≡ none
    → lookup channel_id attrs ≡ some j.owner
    → ((execute w h j p c).2 ≡ panics)
      × ((execute w h j p c).3 ≡ requested (send_delete p j.message none).0 ∷ [])
unfolding execute send_delete
channel_only_panics w h j p c attrs new ok has_attrs no_owner channel =
    ground (arith, eq_iff j.owner j.owner)

-- A new job whose message names this connector ends by the error that Execute reads last: the
-- handler's, unless the goroutine that sends the result has assigned to the same variable before.
pub execute_ends :
    (w : World) (h : Handler) (j : Job) (p : Provider) (c : Chance)
    → j.state ≡ initial
    → c.deletion ≡ none
    → address j.message.attributes j.owner ≡ addressed
    → ((read_err (handle w h j.message) c.raced ≡ none)
        × ((execute w h j p c).0.state ≡ finished)
        × ((execute w h j p c).2 ≡ done none))
      ⊎ ((e : String) × (read_err (handle w h j.message) c.raced ≡ some e)
          × ((execute w h j p c).0.state ≡ failed)
          × ((execute w h j p c).2 ≡ done (some (not_processed e))))
unfolding execute send_delete
execute_ends w h j p c new ok named = ground arith

-- For a new job whose message is deleted and names this connector: when the handler returns a result together with an error, as it does for an action that is not
-- configured, the end of Execute depends on the goroutine that sends the result: sent in time, the
-- error is lost and the job is finished; otherwise the job fails with the handler's error.
pub race_decides :
    (w : World) (h : Handler) (j : Job) (p : Provider) (answer : Option SqsError) {e : String}
    → j.state ≡ initial
    → answer ≡ none
    → address j.message.attributes j.owner ≡ addressed
    → (handle w h j.message).result ≢ none
    → (handle w h j.message).error ≡ some e
    → ((execute w h j p (record { deletion = answer; raced = some none })).2 ≡ done none)
      × ((execute w h j p (record { deletion = answer; raced = none })).2
          ≡ done (some (not_processed e)))
unfolding execute send_delete
race_decides w h j p answer new ok named has_result has_error = ground arith
