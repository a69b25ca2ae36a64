-- ===== src/Tests/Managers.antt =====
-- The manager on two workers.
use devops_platform.Base.{
  ◌≤◌, ◌≡◌, All, refl, true, String, [], ◌∷◌, Map, List, lookup, insert, string_eq, ok, panic,
  arith,
}
use devops_platform.Task.State.{pending, scheduled, running, failed, state_eq}
use devops_platform.Task.Defs.{Task, TaskEvent}
use devops_platform.Store.Port.{Store}
use devops_platform.Store.Memory.Tasks as Memory
use devops_platform.Store.Memory.Tasks.{in_memory_task_store}
use devops_platform.Store.Memory.Events as Events
use devops_platform.Store.Memory.Events.{in_memory_event_store}
use devops_platform.Store.Memory.Laws.{memory_laws}
use devops_platform.Scheduler.Node.{new_node}
use devops_platform.Scheduler.Pick.{round_robin_pick, pick_from}
use devops_platform.Scheduler.RoundRobin.{score, turn_scores, next_worker}
use devops_platform.Manager.Defs.{Manager, event, Request, manager_on, worker_node, get_tasks}
use devops_platform.Manager.Selection.{select_worker, choose, write_nodes, write_node}
use devops_platform.Manager.Sending.{Answer, unreachable, created, send_work, in_scheduled}
use devops_platform.Manager.Polling.{Poll, update_tasks}
use devops_platform.Manager.Polling as Polling
use devops_platform.Manager.Health.{do_health_checks, rescheduled}
use devops_platform.Manager.Assigned.{posts}
use devops_platform.Manager.Runs.{Operation, run, posts-run}
use devops_platform.Manager.Runs as Runs
use devops_platform.Manager.Restarts.{do_health_checks_first}
use devops_platform.Manager.Turns.{select_worker_turns, turned, after}
use devops_platform.Manager.Requeued.{sends, send_work_requeued}
use mathlib.Core.List.{Memᴰ}
use devops_platform.Store.Memory.Tasks.{get}
use devops_platform.Store.Port.{task}
use devops_platform.Manager.Queue.{HoldsEvents, queue-HoldsEvents}
use devops_platform.Manager.Talks.{requests_known}
use devops_platform.Manager.Known.{target}
use devops_platform.Manager.Sharing.{send_work_overwrites}
use devops_platform.Manager.Reports.{update_tasks-Reports, IsKeyed}
use devops_platform.Tests.Fixtures.{
  task_in, id_string, store, numbers, numbers-IsOrdered, node_named, answers, demand,
}

abbrev Two : Type 0
Two = Manager (Map String Task) (Map String TaskEvent)

abbrev events : Store (Map String TaskEvent)
events = in_memory_event_store λ m. m

abbrev started : TaskEvent
started = record { id = 1; state = scheduled; timestamp = 0; task = task_in pending }

abbrev two : Two
two = manager_on [] [] ("a" ∷ "b" ∷ []) "roundrobin"

abbrev silent : Request → Answer
silent r = unreachable "no route"

abbrev accepting : Request → Answer
accepting r = created true (task_in pending)

abbrev twice : List Operation
twice =
    Runs.add started
    ∷ Runs.send accepting (λ n. answers)
    ∷ Runs.add started
    ∷ Runs.send silent (λ n. answers)
    ∷ []

posts-run_example :
    posts 1
      (run numbers
        (λ t. demand)
        id_string
        store
        events
        twice
        (manager_on [] [] ("a" ∷ "b" ∷ []) "roundrobin")).1.requests
    ≤ 1
posts-run_example =
    posts-run numbers (λ t. demand) id_string store events [] [] ("a" ∷ "b" ∷ []) "roundrobin" twice
      1

select_worker_turns_example :
    (select_worker numbers
      (λ t. demand)
      (λ n. answers)
      id_string
      (task_in pending)
      (after numbers numbers-IsOrdered
        (λ t. demand)
        (λ n. answers)
        id_string
        (task_in pending ∷ [])
        (turned numbers numbers-IsOrdered
          (λ t. demand)
          (λ n. answers)
          id_string
          (node_named "a" ∷ node_named "b" ∷ [])
          0
          two))).0
    ≡ ok (node_named "a")
select_worker_turns_example =
    select_worker_turns numbers numbers-IsOrdered (λ t. demand) (λ n. answers) id_string
      (task_in pending ∷ []) (task_in pending) two (node_named "a" ∷ node_named "b" ∷ []) 0
      (node_named "a") ((refl, tt), (tt, tt)) (omega arith) refl

-- A manager whose store has the failed task.
abbrev failing : Two
failing = record two { task_db = ("1", task_in failed) ∷ [] }

-- The failed task is stored as scheduled with one restart, and then the nil pointer is used.
do_health_checks_first_example :
    do_health_checks id_string store failing
    ≡ (panic, record failing { task_db = ("1", rescheduled (task_in failed)) ∷ [] })
unfolding get_tasks manager_on Memory.list Memory.put insert
do_health_checks_first_example =
    do_health_checks_first id_string store failing (task_in failed ∷ []) refl

-- The manager with the event in its queue, and after it selected a node.
abbrev waiting : Two
waiting = record two { pending = event started ∷ [] }

abbrev stored_events : Map String TaskEvent
stored_events = ("1", started) ∷ []

abbrev chosen_b : Two
chosen_b =
    (select_worker numbers (λ t. demand) (λ n. answers) id_string (task_in pending)
      (record two { event_db = stored_events })).1

abbrev stored_task : Map String Task
stored_task = ("1", in_scheduled (task_in pending)) ∷ []

-- Another event stands behind it, and the worker answers that one.
send_work_requeued_example :
    let queued = record two { pending = event started ∷ event started ∷ [] } in
    let m =
      (send_work numbers (λ t. demand) (λ n. answers) id_string store events silent queued).1 in
    (sends numbers
      (λ t. demand)
      id_string
      store
      events
      ((accepting, λ n. answers) ∷ (accepting, λ n. answers) ∷ [])
      m).0
    ≡ panic
unfolding manager_on select_worker choose score turn_scores next_worker round_robin_pick pick_from
    new_node write_nodes write_node Memory.put Events.put lookup insert
send_work_requeued_example =
    (send_work_requeued numbers (λ t. demand) id_string store events (λ n. answers) silent
      (record two { pending = event started ∷ event started ∷ [] })
      (record chosen_b { pending = event started ∷ [] }) started (event started ∷ []) stored_events
      (worker_node "b") stored_task "no route"
      ((accepting, λ n. answers) ∷ (accepting, λ n. answers) ∷ []) refl refl refl refl refl refl
      (omega arith)).1

-- The report of a worker that its task runs.
abbrev reporting : String → Poll
reporting w = Polling.answered 200 (task_in running ∷ [])

failing-IsKeyed : IsKeyed (memory_laws λ m. m) id_string failing.task_db
unfolding Memory.get lookup manager_on
failing-IsKeyed k t e = ground (arith, string_eq.equal_iff "1" k)

update_tasks-Reports_example :
    IsKeyed
      (memory_laws λ m. m)
      id_string
      (update_tasks id_string store reporting failing).1.task_db
unfolding manager_on
update_tasks-Reports_example =
    (update_tasks-Reports (memory_laws λ m. m) id_string reporting failing (tt, tt)
      failing-IsKeyed).1

-- Both events are sent, and the worker answers each POST.
abbrev two_sent : List Operation
two_sent = Runs.add started ∷ Runs.add started ∷ Runs.send accepting (λ n. answers) ∷ []

queue-HoldsEvents_example :
    HoldsEvents
      (run numbers
        (λ t. demand)
        id_string
        store
        events
        two_sent
        (manager_on [] [] ("a" ∷ "b" ∷ []) "roundrobin")).1
queue-HoldsEvents_example =
    queue-HoldsEvents numbers (λ t. demand) id_string store events [] [] ("a" ∷ "b" ∷ [])
      "roundrobin" two_sent (tt, (tt, ((λ r. tt), tt)))

requests_known_example :
    All
      (λ r. Memᴰ (target r) ("a" ∷ "b" ∷ []))
      (run numbers
        (λ t. demand)
        id_string
        store
        events
        twice
        (manager_on [] [] ("a" ∷ "b" ∷ []) "roundrobin")).1.requests
requests_known_example =
    requests_known numbers (λ t. demand) id_string store events [] [] ("a" ∷ "b" ∷ []) "roundrobin"
      twice

send_work_overwrites_example :
    get "1"
      (send_work numbers
        (λ t. demand)
        (λ n. answers)
        id_string
        store
        events
        accepting
        waiting).1.task_db
    ≡ ok (task (task_in pending))
unfolding manager_on select_worker choose score turn_scores next_worker round_robin_pick pick_from
    new_node write_nodes write_node Memory.put Events.put lookup insert
send_work_overwrites_example =
    send_work_overwrites numbers (λ t. demand) (λ n. answers) id_string (λ m. m) events accepting
      waiting chosen_b started [] stored_events (worker_node "b") true (task_in pending) refl refl
      refl refl refl
