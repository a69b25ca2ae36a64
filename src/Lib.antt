-- ===== src/Lib.antt =====
-- A model of the platform's task life cycle: the state machine of a task, its stores, the worker service
-- that queues tasks, makes their sandboxes and runs their commands, the gRPC ends of a command and of a
-- registration, the schedulers that choose a node, the manager that sends the tasks to the workers, and the
-- docker host below them.
--
-- How the parts interact. A task (internal/core/domain/task) goes from Pending by Creating, Scheduled,
-- Starting and Running to Completed or Failed. The worker service (internal/adapters/worker) takes it into
-- a queue (AddTask, dispatchLoop), asks a sandbox service for a container (runTask, createContainer), waits
-- for the worker in it to register (RegisterWorker), starts the command there by gRPC (StartTask) and reads
-- its outputs (processTaskOutput, updateTaskStatus), all on a store of tasks (internal/adapters/store). The
-- manager (internal/adapters/manager) takes an event off its queue (AddTask, SendWork), asks a scheduler for
-- a node (SelectWorker), posts the event to the worker there, and later asks the workers for their tasks
-- (updateTasks) and checks their health (doHealthChecks). A pool (internal/adapters/resource/docker)
-- runs a manager and its workers as docker containers.
--
-- Which file models which part:
--   Base            numbers, words of 64 bits, maps, lists, and the outcomes of a Go function: `ok`, `err`,
--                   `panic`. `Exec S A` is a method on a state S: what it wrote before an error stays.
--   Task            State: state_machine.go; Defs: task.go and sandbox_config.go; Graph: its table as a
--                   relation; Paths: sequences of states; Updates: runs of UpdateStatus.
--   Store           Port: ports/store.go, with the laws of a task store as an interface; Memory and Bolt: the
--                   stores of internal/adapters/store/store.go; Factory: factory.go; Replay, Refines and Agree:
--                   runs of writes, seen as writes to a table.
--   Sandbox         Port: the interface of a sandbox service; Factory: internal/adapters/sandbox/factory.go;
--                   Kubernetes and HyperV: the services of kubernetes_sandbox.go and hyperv.go; Builder: the
--                   builder of sandbox_config.go.
--   Worker          Defs, Create, Running, Stopping: the methods of worker_service.go, by the source's names;
--                   Results, Registered: what they return and write; LifeCycle: a task from its container to
--                   its end; Observers; Follows: what they may do to a store; Dispatch: the queue and the
--                   dispatcher as moves that may interleave; Output: the channel of a command.
--   Grpc            Server: worker_process_server.go; Client: worker_client.go; Registration: worker/main.go,
--                   manager_client.go and manager_registry_server.go; Words: the words for a state;
--                   Readers: what a process writes, as lines; Streams: the health and metrics streams of
--                   both ends; Late: a late health check.
--   Process         internal/core/usecase/process_store.go.
--   Scheduler       Stats, Reading and Node: internal/adapters/stats and internal/adapters/node; RoundRobin, Costs and
--                   Pick: internal/adapters/scheduler/scheduler.go, over an interface of floating-point
--                   numbers (Floats); Rotation, Candidates, Names, Minimal and Usage are about them.
--   Manager         Defs, Selection, Sending, Polling, Health: the parts of internal/adapters/manager/manager.go;
--                   Assigned, Orderly, Spares, Runs: its books in runs of its operations; Named, Known, Talks:
--                   its workers; Queue, Requeued: its queue; Outcomes, Sharing, Turns, Reports, Restarts: its
--                   operations one by one.
--   Docker          Client: the docker client, as an interface; Texts, Amounts, Addresses, Sandbox:
--                   internal/adapters/sandbox/docker_sandbox.go; Ports, Creates: what it makes; Service: it
--                   behind the worker service; Pool: internal/adapters/resource/docker/docker_pool.go;
--                   Statistics, Tasks: its GetStats, its methods on tasks, and
--                   internal/core/domain/resource/resource.go; Books, SetUp, Health: the containers of a pool.
--   Tests           runs on concrete inputs.
--
-- Names keep the source's words (createContainer is `create_container`). A method's receiver is its last
-- argument, and its new state the second component of its result. Clocks, fresh identifiers, answers of
-- gRPC, HTTP, bolt, JSON and the sandbox runtimes are arguments; what is relied on of bolt and JSON is in
-- Store.Bolt.Driver, of docker in Docker.Client, of a kubernetes cluster in Sandbox.Kubernetes, of float64 in
-- Scheduler.Floats. A node is known by its name; a manager is modelled with both of its stores there, and
-- its endless loops are runs of operations.
--
-- Bounds. Functions recurse over a list, a number of attempts (five, as in worker/main.go) or a sequence of
-- moves; only the digits of a number run on fuel, which is the number itself: it has no more digits than
-- that. Stores and counters have no bound of their own; the 64-bit
-- arithmetic of the statistics and of the disk space wraps as in Go.
--
-- What is not modelled. ExecuteTask of a pool, which uses fields that the struct Task does not have; logging;
-- the start of the programs; a stream of ExecuteCommand that refuses a message. A stored task is its value at
-- the last Put. The in-memory store keeps the pointer that it is given: what createContainer, StopTask and
-- restartTask write to a task is put there next, and what SendWork writes after its Put is the field `mutate`
-- of a store. Observers are numbers; the calls of Notify have goroutines of their own, so they are counted and
-- have no order. A range over a map takes any order. The manager's pointer to a worker service is nil: New
-- leaves it so and nothing sets it.
pub mod Base
pub mod Task
pub mod Store
pub mod Sandbox
pub mod Worker
pub mod Grpc
pub mod Process
pub mod Scheduler
pub mod Manager
pub mod Docker
mod Tests
