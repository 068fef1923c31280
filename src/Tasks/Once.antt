-- ===== src/Tasks/Once.antt =====
-- A scheduled event is run at most once, and never after it was stopped.
use asca_ci.Base.{
  ℕ, suc, ◌+◌, ◌≤◌, ◌<◌, ◌≡◌, refl, sym, ap, ◌∙◌, Bool, true, false, List, [], ◌∷◌, ◌++◌, ◌==◌,
  ◌&&◌, arith, ltb, leb, Bool-cases, inl, inr,
}
use asca_ci.Base.Counts.{one, count, count-erase, elem-count, count-elem, elem}
use asca_ci.Tasks.{
  Task, Dispatcher, System, Event, adds, stops, submits, wakes, runs, step, is_running,
  set_dont_expire, add_event, stop_event, add_task, schedule, time_out, fire, dispatch, run_task,
  pop, has_expired, next_event_id,
}

-- How many tasks of a list have an event's id.
abbrev pub queued : ℕ → List Task → ℕ
queued id [] = 0
queued id (t ∷ ts) = one (t.event_id == id) + queued id ts

pub queued-snoc :
    (id : ℕ) (ts : List Task) (t : Task)
    → queued id (ts ++ t ∷ []) ≡ queued id ts + one (t.event_id == id)
queued-snoc id [] t = ground arith
queued-snoc id (u ∷ ts) t = ground (arith, queued-snoc id ts t)

pub queued-pop :
    (id : ℕ) (t : Task) (ts : List Task)
    → one ((pop t ts).0.event_id == id) + queued id (pop t ts).1 ≡ queued id (t ∷ ts)
unfolding pop
queued-pop id t [] = ground arith
queued-pop id t (u ∷ us) = elim (Bool-cases (ltb u.expiration t.expiration)) [
  | inl earlier ↦ rw earlier (ground (arith, queued-pop id u us))
  | inr later ↦ rw later (ground (arith, queued-pop id t us))
]

-- The tasks of an event that the dispatcher has, or has run.
abbrev pub delivered : ℕ → Dispatcher → ℕ
delivered id d = queued id d.task_list + queued id d.executed

-- An event is active, or it is with the dispatcher.
abbrev pub uses : ℕ → System → ℕ
uses id y = count id y.scheduler.event_ids + delivered id y.dispatcher

-- An active event has a task in the queue.
abbrev pub IsBacked : System → Type 0
IsBacked y = (id : ℕ) → count id y.scheduler.event_ids ≤ queued id y.scheduler.event_list

-- An event is used once at most, and an id that was not given yet is not used.
pub record IsOnce (y : System) : Type 0 where
  pub once : (id : ℕ) → 0 < id → uses id y ≤ 1
  pub unused : (id : ℕ) → y.scheduler.last_event_id < id → uses id y ≡ 0
  pub backed : IsBacked y

-- From `y` to `y'` no event is used more often than before, but for those whose ids are given, of
-- which there are at most `n`.
pub record Keeps (n : ℕ) (y y' : System) : Type 0 where
  pub last : y.scheduler.last_event_id ≤ y'.scheduler.last_event_id
  pub few : y'.scheduler.last_event_id ≤ y.scheduler.last_event_id + n
  pub used :
      (id : ℕ)
      → 0 < id
      → uses id y'
        ≤ uses id y + one (ltb y.scheduler.last_event_id id && leb id y'.scheduler.last_event_id)
  pub backed : IsBacked y'

pub Keeps-IsOnce : {n : ℕ} {y y' : System} → IsOnce y → Keeps n y y' → IsOnce y'
Keeps-IsOnce i k = record {
  once = λ id pos. ground (arith, i.once id, i.unused id, k.used id);
  unused = λ id later. ground (arith, i.unused id, k.used id, k.last);
  backed = k.backed;
}

same-Keeps : {n : ℕ} (y : System) → IsBacked y → Keeps n y y
same-Keeps y b = record {
  last = omega arith;
  few = omega arith;
  used = λ id pos. omega arith;
  backed = b;
}

abbrev pub additions : List Event → ℕ
additions [] = 0
additions (adds func expiration ∷ es) = suc (additions es)
additions (e ∷ es) = additions es

add_task-delivered :
    (id : ℕ) (t : Task) (front : Bool) (d : Dispatcher)
    → delivered id (add_task t front d) ≤ delivered id d + one (t.event_id == id)
unfolding add_task
add_task-delivered id t true d = ground arith
add_task-delivered id t false d = ground (arith, queued-snoc id d.task_list t)

run_task-delivered :
    (id now : ℕ) (ts : List Task) (d : Dispatcher)
    → d.task_list ≡ ts
    → delivered id (run_task now ts d) ≤ delivered id d
run_task-delivered id now [] d e = omega arith
run_task-delivered id now (t ∷ ts) d e = elim (Bool-cases (has_expired now t)) [
  | inl late ↦ rw late (rw e (ground arith))
  | inr due ↦ rw due (rw e (ground (arith, queued-snoc id d.executed t)))
]

adds-Keeps :
    (func expiration : ℕ) (y : System)
    → y.scheduler.last_event_id + 1 < 0x1_0000_0000
    → IsOnce y
    → Keeps 1 y (step (adds func expiration) y)
unfolding step add_event next_event_id
adds-Keeps func expiration y small i = elim (Bool-cases (is_running y.scheduler.state)) [
  | inr halted ↦ rw halted (same-Keeps y i.backed)
  | inl on ↦
      let s = y.scheduler in
      let id' = s.last_event_id + 1 in
      let next : next_event_id s.last_event_id ≡ id' = ground arith in
      let new : elem id' s.event_ids ≡ false =
        ground (arith, i.unused id', count-elem id' s.event_ids) in
      rw (on, next, new)
        (record {
          used = λ id pos. ground (arith, i.once id, i.unused id);
          last = omega arith;
          few = omega arith;
          backed = λ id. ground (
            arith,
            i.backed id,
            queued-snoc id s.event_list
                (record { func = func; expiration = expiration; event_id = id' }),
          );
        })
]

submits-Keeps :
    (func expiration : ℕ) (y : System) → IsOnce y → Keeps 0 y (step (submits func expiration) y)
unfolding step
submits-Keeps func expiration y i =
    let t : Task = record { func = func; expiration = expiration; event_id = 0 } in
    record {
      used = λ id pos. ground (arith, i.once id, add_task-delivered id t false y.dispatcher);
      last = omega arith;
      few = omega arith;
      backed = i.backed;
    }

runs-Keeps : (now : ℕ) (y : System) → IsOnce y → Keeps 0 y (step (runs now) y)
unfolding step dispatch
runs-Keeps now y i =
    let less = λ (id : ℕ). run_task-delivered id now y.dispatcher.task_list y.dispatcher refl in
    record {
      used = λ id pos. ground (arith, i.once id, less id);
      last = omega arith;
      few = omega arith;
      backed = i.backed;
    }

stops-Keeps : (id : ℕ) (y : System) → IsOnce y → Keeps 0 y (step (stops id) y)
unfolding step stop_event
stops-Keeps id y i = elim (Bool-cases (id == 0)) [
  | inl no_id ↦ rw no_id (same-Keeps y i.backed)
  | inr real ↦ elim (Bool-cases (elem id y.scheduler.event_ids)) [
    | inr gone ↦ rw (real, gone) (same-Keeps y i.backed)
    | inl active ↦
        rw (real, active)
          (record {
            used = λ k pos. ground (arith, i.once k, count-erase k id y.scheduler.event_ids);
            last = omega arith;
            few = omega arith;
            backed = λ k. ground (arith, i.backed k, count-erase k id y.scheduler.event_ids);
          })
  ]
]

-- The top of the queue is fired or dropped.
fire-Keeps :
    (t : Task) (rest : List Task) (y : System)
    → IsOnce y
    → ((id : ℕ) → one (t.event_id == id) + queued id rest ≡ queued id y.scheduler.event_list)
    → Keeps 0 y (fire t (record (y.scheduler) { event_list = rest }) y.dispatcher)
fire-Keeps t rest y i split = elim (Bool-cases (elem t.event_id y.scheduler.event_ids)) [
  | inl active ↦
      let more = λ (id : ℕ). add_task-delivered id (set_dont_expire t) true y.dispatcher in
      let less = λ (id : ℕ). count-erase id t.event_id y.scheduler.event_ids in
      let there = count-elem t.event_id y.scheduler.event_ids active in
      rw active (record {
        used = λ id pos. ground (arith, i.once id, more id, less id, there);
        last = omega arith;
        few = omega arith;
        backed = λ id. ground (arith, i.backed id, less id, split id);
      })
  | inr stopped ↦ rw stopped (record {
    used = λ id pos. omega arith;
    last = omega arith;
    few = omega arith;
    backed = λ id.
        ground (arith, i.backed id, split id, elem-count t.event_id y.scheduler.event_ids stopped);
  })
]

time_out-Keeps :
    (now : ℕ) (ts : List Task) (y : System)
    → y.scheduler.event_list ≡ ts
    → IsOnce y
    → Keeps 0 y (time_out now ts y.scheduler y.dispatcher)
time_out-Keeps now [] y e i = same-Keeps y i.backed
time_out-Keeps now (t ∷ ts) y e i = elim (Bool-cases (leb (pop t ts).0.expiration now)) [
  | inl due ↦
      rw due (
        fire-Keeps (pop t ts).0 (pop t ts).1 y i
          (λ id. queued-pop id t ts ∙ ap (queued id) (sym e)))
  | inr early ↦ rw early (same-Keeps y i.backed)
]

pub step-Keeps :
    (e : Event) (y : System)
    → y.scheduler.last_event_id + additions (e ∷ []) < 0x1_0000_0000
    → IsOnce y
    → Keeps (additions (e ∷ [])) y (step e y)
step-Keeps (adds func expiration) y small i = adds-Keeps func expiration y (omega arith) i
step-Keeps (stops id) y small i = stops-Keeps id y i
step-Keeps (submits func expiration) y small i = submits-Keeps func expiration y i
step-Keeps (wakes now) y small i =
    unfold step schedule in time_out-Keeps now y.scheduler.event_list y refl i
step-Keeps (runs now) y small i = runs-Keeps now y i
