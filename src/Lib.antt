-- ===== src/Lib.antt =====
-- The verification library of Jira Edge Connector (JEC): a connector that takes messages from
-- queues and runs the configured script for each of them.
--
-- The parts, in the order in which a message passes through them:
--   Main             main/main.go            the process: its start, its signal and its exit
--   Connector        main/main.go, queue/processor.go, queue/poller.go   all parts at work together
--   Queue.Lifecycle  queue/processor.go      the start, the goroutines and the stop of the processor
--   Queue.Credentials  queue/processor.go    the request for a token
--   Queue.Processor  queue/processor.go      one poller for each queue that the token lists
--   Queue.Poller     queue/poller.go         asks its queue for messages and submits them as jobs
--   Queue.Sqs        queue/sqs_provider.go   the queue's client and whether its token has expired
--   Queue.Token      queue/token.go, queue/payload.go   the records that arrive as JSON
--   WorkerPool       worker_pool/worker_pool.go, worker_pool/worker.go   executes the jobs
--   Queue.Job        queue/job.go            deletes a message, has it handled, sends the result
--   Queue.Message    queue/message.go        finds the configured action and runs its script
--   Retryer          retryer/retryer.go, retryer/request.go   repeats an HTTP request that failed
--   Config.Types     conf/configuration.go   the configuration
--   Config.Reader    conf/reader.go, conf/util.go, conf/git_reader.go, conf/local_reader.go
--                                            where the configuration is read from
--   Config.Http      conf/configuration.go   the decoding of a mapped action
--   Config.Validate  conf/reader.go, conf/util.go   its tests and defaults, the paths of its actions
--   Git              git/repository.go, git/clone.go, git/pull.go   the repositories that hold scripts
--   Runbook.Executor runbook/executor.go     the command that runs a script, and what comes back of it
--   Runbook.Callback runbook/callback_context_handler_unix.go and _windows.go   the callback context
--   Runbook.Windows  runbook/callback_context_handler_windows.go   its pipe from its start to its end
--   Runbook.Sender   runbook/sender.go       sends the result of a run
--   WindowsService   windows_service/main/jecService.go   the service around the connector
--   Config.Startup   conf/util.go            the log format, and the modes of local scripts
--   Main.Startup     main/main.go, queue/poller.go, queue/processor.go   the loggers, and main up to its processor
--   Util             util/util.go            Min, ChmodRecursively, CheckLogFile, CreateTempTestFile
--   Prelude          the native numbers as integers, machine integers, texts, association lists
--
-- A method of the source has its name here, in snake case, and takes and returns the state of its
-- receiver. Helpers are named for a stretch of the source's function. Fields keep their names.
--
-- WorkerPool is a machine of atomic steps (WorkerPool.Step): a step of a caller of Start or Stop, of a
-- call of Submit, of a worker, or of the goroutine `run`. WorkerPool.State says where each of them
-- stands; WorkerPool.Counters are the counters under their mutex, in int32; WorkerPool.Safety is about
-- the states that any order of steps can reach from New. Its invariants are in WorkerPool.Invariant:
-- Defs states them, and each other file is about one kind of step or of invariant.
-- WorkerPool.Liveness runs a waiting Stop on, by the measure of the work that is left.
-- WorkerPool.Refinement says what the pool promises about jobs, without its workers and channels, and
-- WorkerPool.Bag what a caller can see of it, as the multiset of the jobs that wait.
--
-- Queue.Lifecycle is a machine of the same kind (Queue.Lifecycle.Step): a step of a caller of Start or
-- Stop, of the goroutines run and startPullingRepositories, or of a poller. The token and the clones
-- are arguments of a step; Queue.Credentials and Git are about them. A token that is null, or a refresh
-- period that no ticker can be made of, ends the process (Queue.Lifecycle.Calm); the first ticker of run
-- is made in the step of the Start that begins it. Main puts this machine into the
-- process, whose main calls Start once, and Stop after a signal.
--
-- Queue.Job and Queue.Poller take what the world decides in one call (the queue's answers, whether the
-- pool accepts a job, whether the sending goroutine is faster) as an argument named Chance, and return
-- what they did as a list of effects. Queue.Expiry runs any sequence of calls on a provider.
--
-- Queue.Job.Reply runs a job together with the goroutine that sends its result, and thereby puts
-- Queue.Job, Queue.Message, Runbook.Sender and Retryer together. Of the sender it takes the interface
-- Runbook.Sender.Interface only, which SendResultToJsm fills. Queue.Job.Reply.Chain adds the executor.
--
-- Queue.Poller.Goroutine is the goroutine of a poller, with its waits, beside the callers of its Start and
-- Stop; elsewhere a turn of that goroutine is one step.
--
-- Queue.Delivery puts polls, the worker pool and the jobs together, as a machine over the steps of the
-- pool: the effects of a poll are played one by one beside it. A job keeps the url of its poller's queue,
-- and is executed with a provider of that queue; what else the provider and the handler hold at that time
-- is left open.
--
-- Connector puts the two machines together: the process of Main, and the polls, pool and jobs of
-- Queue.Delivery. A step of one that waits for the other has a premise on the other's state: Start of
-- the processor starts the pool, the end of run waits for all polls, and Stop waits for the end of run
-- and then for the pool. Connector.Callers and Connector.Sound are about what the two have in common.
--
-- Git.Lock is a machine of one repository: the callers of Pull and Remove, which play the calls of
-- Git.Sync one by one while they hold its lock, and the runs of its scripts. Its files, and what a
-- call makes of them, are parameters.
--
-- Queue.Message.Callback gives the handler the executor of Runbook for the runs of its scripts.
-- Queue.Message.Ready puts three parts together: the tests of Config.Validate, the downloads of
-- Git.Repositories and the handler of Queue.Message. Queue.Message.Loggers is how the processor makes the
-- handler's loggers.
--
-- Runbook.Executor takes how far the reader of the pipe is as an argument named Moment.
--
-- The loop of the retryer runs on fuel: `do_with_exponential_backoff` gives five rounds, the
-- maxRetryCount of the source, at which the fifth round ends by itself. Retryer.Reference is the loop
-- without its counter and effects.
--
-- Not modelled: log lines, metrics (monitorMetrics of worker_pool/worker_pool.go with its ticker) and time
-- measured for them, since nothing reads them; the panic of a ticker of a keep-alive period that overflows
-- an int64 of nanoseconds (worker_pool/worker.go); the array that append may share between the
-- environments of two runs (queue/message.go); the AWS
-- client, the HTTP client, the JSON and YAML decoders, the file system and git, which stand outside
-- the repository and are parameters.
mod Prelude
pub mod Git
pub mod Runbook
pub mod Retryer
pub mod Queue
pub mod Util
pub mod Config
pub mod WorkerPool
pub mod Main
pub mod Connector
pub mod WindowsService
