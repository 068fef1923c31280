-- ===== src/Tasks.antt =====
-- The scheduler of src/scheduler.cpp and the dispatcher of src/tasks.cpp. Each turn of a thread is
-- a call of its handler; waiting, locks and signals are left out. A task's function is its number.
pub mod Once
pub mod Stopped
pub mod Drain
pub mod Tests
use asca_ci.Base.Counts.{elem, erase}
use asca_ci.Base.{
  ℕ, ◌+◌, Bool, true, false, not, List, [], ◌∷◌, ◌++◌, Option, none, some, ltb, leb, ◌==◌,
  if◌then◌else◌, ◌||◌, ◌&&◌,
}
use asca_ci.Base.Bits.{u32, u64}

-- `expiration` in milliseconds; 0 is `SYSTEM_TIME_ZERO`.
pub record Task : Type 0 where
  pub func : ℕ
  pub expiration : ℕ
  pub event_id : ℕ

abbrev pub set_dont_expire : Task → Task
set_dont_expire t = record t { expiration = 0 }

unfoldable pub has_expired : ℕ → Task → Bool
has_expired now t = if t.expiration == 0 then false else ltb t.expiration now

pub data ThreadState : Type 0 where
  running closing terminated : ThreadState

abbrev pub is_running : ThreadState → Bool
is_running running = true
is_running _ = false

pub record Dispatcher : Type 0 where
  pub state : ThreadState
  pub task_list : List Task
  pub dispatcher_cycle : ℕ
  -- The tasks run so far, oldest first.
  pub executed : List Task

unfoldable pub add_task : Task → Bool → Dispatcher → Dispatcher
add_task t push_front d =
    if is_running d.state
    then record d { task_list = if push_front then t ∷ d.task_list else d.task_list ++ t ∷ [] }
    else d

-- One turn of the dispatcher's thread, at a time.
abbrev run_task : ℕ → List Task → Dispatcher → Dispatcher
run_task now [] d = d
run_task now (t ∷ ts) d = if has_expired now t then record d { task_list = ts } else record d {
  task_list = ts;
  dispatcher_cycle = u64 (d.dispatcher_cycle + 1);
  executed = d.executed ++ t ∷ [];
}

unfoldable pub dispatch : ℕ → Dispatcher → Dispatcher
unfolding has_expired
dispatch now d = run_task now d.task_list d

-- `eventIds` is a set, given as a list without duplicates.
pub record Scheduler : Type 0 where
  pub state : ThreadState
  pub last_event_id : ℕ
  pub event_list : List Task
  pub event_ids : List ℕ

unfoldable pub next_event_id : ℕ → ℕ
next_event_id last = let id = u32 (last + 1) in if id == 0 then 1 else id

abbrev insert_event : Task → Scheduler → ℕ × Scheduler
insert_event t s = (
  t.event_id,
  record s {
    event_ids = if elem t.event_id s.event_ids then s.event_ids else t.event_id ∷ s.event_ids;
    event_list = s.event_list ++ t ∷ [];
  },
)

unfoldable pub add_event : Task → Scheduler → ℕ × Scheduler
unfolding next_event_id
add_event t s =
    if not (is_running s.state)
    then (0, s)
    else if t.event_id == 0
    then (let id = next_event_id s.last_event_id in
        insert_event (record t { event_id = id }) (record s { last_event_id = id }))
    else insert_event t s

unfoldable pub stop_event : ℕ → Scheduler → Bool × Scheduler
stop_event id s =
    if id == 0
    then (false, s)
    else if elem id s.event_ids
    then (true, record s { event_ids = erase id s.event_ids })
    else (false, s)

-- The top of the queue, a task that is due first, and the other tasks. Among those that are due
-- together the library may choose.
unfoldable pub pop : Task → List Task → Task × List Task
pop t [] = (t, [])
pop t (u ∷ us) =
    let earlier = ltb u.expiration t.expiration in
    let (top, rest) = pop (if earlier then u else t) us in (top, (if earlier then t else u) ∷ rest)

pub record System : Type 0 where
  pub scheduler : Scheduler
  pub dispatcher : Dispatcher

-- The task that has been taken off the queue is dropped where it was stopped.
abbrev pub fire : Task → Scheduler → Dispatcher → System
fire t s d =
    if elem t.event_id s.event_ids
    then record {
      scheduler = record s { event_ids = erase t.event_id s.event_ids };
      dispatcher = add_task (set_dont_expire t) true d;
    }
    else record { scheduler = s; dispatcher = d }

abbrev pub time_out : ℕ → List Task → Scheduler → Dispatcher → System
time_out now [] s d = record { scheduler = s; dispatcher = d }
time_out now (t ∷ ts) s d =
    let (top, rest) = pop t ts in
    if leb top.expiration now
    then fire top (record s { event_list = rest }) d
    else record { scheduler = s; dispatcher = d }

-- One turn of the scheduler's thread, which ends at a time: it waits until the top is due.
unfoldable pub schedule : ℕ → System → System
unfolding pop add_task
schedule now y = time_out now y.scheduler.event_list y.scheduler y.dispatcher

unfoldable pub shutdown_scheduler : Scheduler → Scheduler
shutdown_scheduler s = record s { state = terminated; event_list = []; event_ids = [] }

-- What may happen, in any order: a new scheduler task with a function and a time, a stop, a task
-- for the dispatcher, and the turns of the two threads.
pub data Event : Type 0 where
  adds : ℕ → ℕ → Event
  stops : ℕ → Event
  submits : ℕ → ℕ → Event
  wakes : ℕ → Event
  runs : ℕ → Event

unfoldable pub step : Event → System → System
step (adds func expiration) y = record y {
  scheduler =
      (add_event (record { func = func; expiration = expiration; event_id = 0 }) y.scheduler).1;
}
step (stops id) y = record y { scheduler = (stop_event id y.scheduler).1 }
step (submits func expiration) y = record y {
  dispatcher =
      add_task (record { func = func; expiration = expiration; event_id = 0 }) false y.dispatcher;
}
step (wakes now) y = schedule now y
step (runs now) y = record y { dispatcher = dispatch now y.dispatcher }

unfoldable pub steps : List Event → System → System
steps [] y = y
steps (e ∷ es) y = steps es (step e y)
