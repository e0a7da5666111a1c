-- ===== src/Lib.antt =====
-- aline-engine: a master hands the jobs of a pipeline to worker nodes, and each worker executes the
-- stages and steps of its jobs.
--
-- Parts, and the files that model them:
--
-- model/job.go, model/stage.go, model/step.go, model/message.go, model/artifictory.go,
-- model/error.go, model/node.go and the messages of grpc/api: Model/Job, Model/Message,
-- Model/ActionResult, Model/Status. Records and enums keep their fields and constructors; a status
-- is an integer. `StageSort` is `stage_sort` of Model/StageSort; Fuel, Places, Order and Complete
-- under it hold its theorems.
-- dispatcher/dispatcher.go: Dispatcher. The state `Dispatcher` is `GrpcDispatcher`: the map
-- `nodes`, the `poller` with its index and key list, and the map from jobs to nodes. Each method is
-- one function of the same name that returns a result, an error or a panic, and the new state.
-- Invariant, Run, Robin, Removal and Jobs under it hold its theorems.
-- executor/executor.go: Executor. Executor/Action chooses the action of a step, Executor/Run is the
-- closure `executeAction` with the stack of handlers, Executor/Loop the loops of `Execute` over
-- stages and steps, Executor/Jobs the whole of `Execute`, `Cancel`, `GetJobStatus`, the step
-- timers, and the queue of executor/client.go. Cleanup, Failure, Verdict and Jobs/Laws hold the
-- theorems.
-- grpc/server/aline_grpc_server.go and engine_master.go: Master. Master/Server sends messages to
-- the connected workers, Master/Engine is `masterEngine`; Retry and Answers beside it hold the
-- theorems.
-- engine_worker.go: Worker, with its theorems in Worker/Reports.
-- output/output.go: Output, the log of a job, with its theorems in Output/Writes, Output/Closed,
-- Output/Log and Output/Readers; Output/Parse reads a log back into stages and steps, with theorems
-- in Stages, Timed and Steps under it.
-- job/job.go and job/util.go: Storage. Storage/Os is what they use of the operating system and of
-- the packages yaml and copier, Storage/Files the paths and the functions on files, and Jobs,
-- Details, Lists, Logs and Shared the functions on jobs, runs, lists, logs and the files that a
-- worker sends. Storage/Contract is the map that a folder of jobs stands for; Locations, Effects,
-- Refinement, Stopping, Pages and Transfer hold the theorems.
-- engine.go: Engine, with the calls of job/job.go in Engine/Calls, the constructors in Engine/Start
-- and theorems in Engine/Launch and Engine/Mirror. grpc/client/aline_grpc_client.go: Client.
-- action/action_metascan_check.go: MetaScan. Types and Requests are what the service is sent and
-- answers, Analyzer, Quality and Prover the reports, Methods and Run the methods with `Hook`;
-- Counts, Tokens and Polls hold the theorems.
-- action/action_solhint.go, action_sol_profiler.go, action_mythril.go, action_move_prover.go,
-- action_slither.go, action_eslint.go, action_check_aggregation.go and action_eth_gas_reporter.go:
-- Checks, one module for each. Checks/Types is model/contract_check.go with the names of
-- consts/contract_check_enum.go, Checks/Machine the host that a hook runs on, Checks/Lines how a
-- file is read line by line, Checks/Walk is utils/file_utils.go, and Checks/Gather what the methods
-- `Post` share. The modules below a check hold its theorems.
-- pipeline/state.go and pipeline/state_machine.go: Pipeline, with its theorem in Pipeline/Reach.
-- utils/util.go, utils/stack.go, utils/template.go and utils/aptos.go: Utils. Keys prints and reads node and job
-- keys, Page is `SlicePage`, Stack the stack, Template replaces parameters, Aptos reads and prints
-- named addresses. Strings, Texts, Decimal and Paths are what these use of Go's packages `strings`, `strconv` and `filepath`.
-- Base: lists, integers, texts and maps that all parts share. A text is its list of bytes, a Go map
-- or `sync.Map` an association list. Examples: concrete runs of the theorems.
--
-- The master asks the dispatcher for a node and sends it a message by the server; the worker puts
-- the job into the queue of its executor; the executor sorts the stages, runs them, and reports the
-- status through its channel. Job storage keeps the jobs, their runs and their logs as files below
-- one folder, on the master and on each worker; a worker sends what a run has written to the master.
--
-- Arguments of the model: the clock, the order in which Go's `range` visits a map, the outcome of
-- an action's `Pre` and `Hook`, the outcome of sending on a stream, the operations of the operating
-- system on files, the packages yaml, json, gjson and copier, the service MetaTrust behind resty,
-- how Go prints and reads times, its `sort`, the commands that the checks run, and the regular
-- expressions of their output. A method of the dispatcher, the execution of a job and a call on the log
-- are one step each: interleavings within them are not modelled. A round of the log's writer has
-- three steps, between which other calls may come.
-- Integers are unbounded, except for what `strconv.Atoi` accepts. A file that a check opens is taken
-- to be readable to its end, and the white space that it trims is that of ASCII.
--
-- Fuel: `rounds` of Model/StageSort gets one unit for each stage, since each round places a stage
-- or gives up; `pop_all` gets the height of the stack, `digits` a number above that of the digits.
-- `await_task` of MetaScan/Run asks the service until it says that a task is finished, so no bound
-- is enough for every service; the fuel has to be above the number of its answers before that.
--
-- Not modelled: the actions that deploy, build, upload or fetch, which run programs and network
-- services, the creation of connections and log files, the programs, the logger, and the goroutine
-- that saves durations. In job/job.go, opening a folder in a window.
pub mod Base
pub mod Utils
pub mod Model
pub mod Dispatcher
pub mod Executor
pub mod Master
pub mod Worker
pub mod Output
pub mod Pipeline
pub mod Storage
pub mod Checks
pub mod Client
pub mod MetaScan
pub mod Engine
pub mod Examples
