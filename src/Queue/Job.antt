-- ===== src/Queue/Job.antt =====
-- queue/job.go: the life of one message. executeMutex is held through Execute, so a call of it is one
-- step of the job; what runs beside it is the goroutine that sends the result, which shares the
-- variable `err` with it.
pub mod Laws
pub mod Reply
use jec.Prelude.{
  String, Bool, true, false, List, [], ◌∷◌, Option, none, some, if◌then◌else◌, lookup, str_eq,
}
use jec.Runbook.Types.{ActionResultPayload, Invocation}
use jec.Queue.Sqs.{Message, SqsError, Provider, send_delete, Request, owner_id, channel_id}
use jec.Queue.Message.{World, Handler, Handled, handle}

pub data State : Type 0 where
  initial executing finished failed : State

pub record Job : Type 0 where
  -- the url of its queueProvider, which is the one of the poller that made the job; what else the
  -- provider holds changes with the token, and is an argument of execute
  pub queue_url : String
  pub message : Message
  pub owner : String
  pub state : State

pub data JobError : Type 0 where
  already_executing : JobError
  not_deleted : SqsError → JobError
  invalid_message : JobError
  -- the text is that of `err` when it is read
  not_processed : String → JobError

-- `panics`: a nil attribute is dereferenced, and the process ends.
pub data Result : Type 0 where
  done : Option JobError → Result
  panics : Result

pub data Effect : Type 0 where
  requested : Request → Effect
  ran : List Invocation → Effect
  -- the goroutine that sends this result is started
  sends : ActionResultPayload → Effect

-- What the world decides in one call: the answer to DeleteMessage, and, if the sending goroutine
-- assigns its error before Execute reads `err`, what it assigns.
pub record Chance : Type 0 where
  pub deletion : Option SqsError
  pub raced : Option (Option String)

unfoldable pub new_job : String → Message → String → Job
new_job queue m owner = record { queue_url = queue; message = m; owner = owner; state = initial }

pub data Address : Type 0 where
  addressed misaddressed unreadable : Address

-- `*messageAttr[name].StringValue != j.ownerId`, which reads a nil pointer if there is no such value
differs : String → Option String → Address → Address
differs owner none next = unreadable
differs owner (some v) next = if str_eq v owner then addressed else next

unfoldable pub address : Option (List (String × String)) → String → Address
unfolding differs lookup
address none owner = misaddressed
address (some attrs) owner =
    differs owner (lookup owner_id attrs) (differs owner (lookup channel_id attrs) misaddressed)

abbrev pub Executed : Type 0
Executed = Job × Provider × Result × List Effect

-- `err` as the last test of Execute reads it.
unfoldable pub read_err : Handled → Option (Option String) → Option String
read_err x none = x.error
read_err x (some sent) = elim x.result [ none ↦ x.error | some r ↦ sent ]

abbrev pub sending : Option ActionResultPayload → List Effect
sending none = []
sending (some r) = sends r ∷ []

conclude : Job → Option String → Job × Result
conclude j none = (record j { state = finished }, done none)
conclude j (some e) = (record j { state = failed }, done (some (not_processed e)))

-- Past the address: Handle, the sending goroutine, the last test.
process : World → Handler → Job → Provider → Chance → Request → Executed
unfolding conclude read_err handle
process w h j p c request =
    let x = handle w h j.message in
    let (j', r) = conclude j (read_err x c.raced) in
    (j', p, r, requested request ∷ ran x.invocations ∷ sending x.result)

reach : World → Handler → Job → Provider → Chance → Request → Address → Executed
unfolding process
reach w h j p c request addressed = process w h j p c request
reach w h j p c request misaddressed =
    (record j { state = failed }, p, done (some invalid_message), requested request ∷ [])
reach w h j p c request unreadable =
    (record j { state = executing }, p, panics, requested request ∷ [])

delete_first : World → Handler → Job → Chance → Request × Provider × Option SqsError → Executed
unfolding reach address
delete_first w h j c (request, p, some e) =
    (record j { state = failed }, p, done (some (not_deleted e)), requested request ∷ [])
delete_first w h j c (request, p, none) =
    reach w h j p c request (address j.message.attributes j.owner)

abbrev pub is_initial : State → Bool
is_initial initial = true
is_initial _ = false

unfoldable pub execute : World → Handler → Job → Provider → Chance → Executed
unfolding delete_first
execute w h j p c =
    if is_initial j.state
    then delete_first w h (record j { state = executing }) c (send_delete p j.message c.deletion)
    else (j, p, done (some already_executing), [])
