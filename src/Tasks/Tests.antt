-- ===== src/Tasks/Tests.antt =====
-- A system with two scheduled events.
use asca_ci.Base.{◌≡◌, refl, ◌+◌, List, [], ◌∷◌, arith}
use asca_ci.Base.Counts.{count, elem}
use asca_ci.Tasks.Drain.{schedule_drains}
use asca_ci.Tasks.Once.{IsOnce, delivered, queued}
use asca_ci.Tasks.Stopped.{steps-IsOnce, stop_event_never_delivered}
use asca_ci.Tasks.{
  System, Event, adds, stops, submits, wakes, runs, running, steps, step, add_event, next_event_id,
  stop_event,
}
use asca_ci.Base.{replicate}

abbrev idle : System
idle = record {
  scheduler = record { state = running; last_event_id = 0; event_list = []; event_ids = [] };
  dispatcher = record { state = running; task_list = []; dispatcher_cycle = 0; executed = [] };
}

idle-IsOnce : IsOnce idle
idle-IsOnce = record {
  once = λ id pos. omega arith;
  unused = λ id later. refl;
  backed = λ id. omega arith;
}

abbrev events : List Event
events =
    adds 7 100 ∷ adds 8 50 ∷ submits 9 0 ∷ wakes 60 ∷ stops 1 ∷ runs 60 ∷ runs 60 ∷ wakes 200 ∷ []

steps-IsOnce_example : IsOnce (steps events idle)
unfolding steps
steps-IsOnce_example = steps-IsOnce events idle (omega arith) idle-IsOnce

-- Both events are delivered: the one that is due first comes before the other task.
abbrev two : List Event
two = adds 7 100 ∷ adds 8 50 ∷ []

two-IsOnce : IsOnce (steps two idle)
two-IsOnce = steps-IsOnce two idle (omega arith) idle-IsOnce

stop_event_never_delivered_example :
    delivered 1
      (steps (wakes 60 ∷ wakes 200 ∷ runs 200 ∷ []) (step (stops 1) (steps two idle))).dispatcher
    ≡ 0
unfolding steps
stop_event_never_delivered_example =
    stop_event_never_delivered 1 (wakes 60 ∷ wakes 200 ∷ runs 200 ∷ []) (steps two idle)
      (unfold steps step add_event next_event_id in omega arith) two-IsOnce
      (unfold steps step add_event next_event_id stop_event elem in refl)

schedule_drains_example :
    queued 2 (steps (replicate 2 (wakes 200)) (steps two idle)).dispatcher.task_list
    ≡ queued 2 (steps two idle).dispatcher.task_list + count 2 (steps two idle).scheduler.event_ids
schedule_drains_example =
    schedule_drains 2 200 (steps two idle).scheduler.event_list (steps two idle) refl
      (unfold steps step add_event next_event_id in omega arith)
      (unfold steps step add_event next_event_id in (omega arith, (omega arith, tt)))
      (unfold steps step add_event next_event_id in refl) two-IsOnce.backed 2
