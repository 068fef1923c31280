-- ===== src/Tasks/Stopped.antt =====
-- What holds of every event, however the calls and the turns of the threads fall.
use asca_ci.Base.{ℕ, ◌+◌, ◌≤◌, ◌<◌, ◌≡◌, true, List, [], ◌∷◌, ◌==◌, arith, Bool-cases, inl, inr}
use asca_ci.Base.Counts.{count-erase, count-elem, elem}
use asca_ci.Tasks.Once.{delivered, uses, IsOnce, Keeps, Keeps-IsOnce, step-Keeps, additions}
use asca_ci.Tasks.{System, Event, adds, stops, submits, wakes, runs, step, steps, stop_event}

additions-cons :
    (e : Event) (es : List Event) → additions (e ∷ es) ≡ additions (e ∷ []) + additions es
additions-cons (adds func expiration) es = omega arith
additions-cons (stops id) es = omega arith
additions-cons (submits func expiration) es = omega arith
additions-cons (wakes now) es = omega arith
additions-cons (runs now) es = omega arith

steps-room :
    (e : Event) (es : List Event) (y : System)
    → y.scheduler.last_event_id + additions (e ∷ es) < 0x1_0000_0000
    → Keeps (additions (e ∷ [])) y (step e y)
    → (step e y).scheduler.last_event_id + additions es < 0x1_0000_0000
steps-room e es y room k = omega (arith, k.few, additions-cons e es)

step-room :
    (e : Event) (es : List Event) (y : System)
    → y.scheduler.last_event_id + additions (e ∷ es) < 0x1_0000_0000
    → y.scheduler.last_event_id + additions (e ∷ []) < 0x1_0000_0000
step-room e es y room = omega (arith, additions-cons e es)

-- Until 32 bits of ids are given out, and whatever happens in whatever order: an event's task has
-- been handed to the dispatcher at most once, and not while the event is active; and an active
-- event has a task in the scheduler's queue.
pub steps-IsOnce :
    (es : List Event) (y : System)
    → y.scheduler.last_event_id + additions es < 0x1_0000_0000
    → IsOnce y
    → IsOnce (steps es y)
unfolding steps
steps-IsOnce [] y room i = i
steps-IsOnce (e ∷ es) y room i =
    let k = step-Keeps e y (step-room e es y room) i in
    steps-IsOnce es (step e y) (steps-room e es y room k) (Keeps-IsOnce i k)

-- An event that was given its id and is used no more stays so.
unused_stays :
    (id : ℕ) (es : List Event) (y : System)
    → 0 < id
    → id ≤ y.scheduler.last_event_id
    → y.scheduler.last_event_id + additions es < 0x1_0000_0000
    → IsOnce y
    → uses id y ≡ 0
    → uses id (steps es y) ≡ 0
unfolding steps
unused_stays id [] y pos given room i none_left = none_left
unused_stays id (e ∷ es) y pos given room i none_left =
    let k = step-Keeps e y (step-room e es y room) i in
    unused_stays id es (step e y) pos (omega (arith, k.last)) (steps-room e es y room k)
      (Keeps-IsOnce i k) (ground (arith, k.used id, none_left))

delivered_unused : (id : ℕ) (y : System) → uses id y ≡ 0 → delivered id y.dispatcher ≡ 0
delivered_unused id y h = omega (arith, h)

-- Once `stopEvent` has said that it stopped an event, and until 32 bits of ids are given out, the
-- event's task is never handed to the dispatcher, whatever happens in whatever order.
pub stop_event_never_delivered :
    (id : ℕ) (es : List Event) (y : System)
    → y.scheduler.last_event_id + additions es < 0x1_0000_0000
    → IsOnce y
    → (stop_event id y.scheduler).0 ≡ true
    → delivered id (steps es (step (stops id) y)).dispatcher ≡ 0
unfolding stop_event step
stop_event_never_delivered id es y room i stopped = elim (Bool-cases (id == 0)) [
  | inl no_id ↦ absurd (ground (arith, stopped, no_id))
  | inr real ↦ elim (Bool-cases (elem id y.scheduler.event_ids)) [
    | inr gone ↦ absurd (ground (arith, stopped, real, gone))
    | inl active ↦
        let there = count-elem id y.scheduler.event_ids active in
        let given : id ≤ y.scheduler.last_event_id = ground (arith, i.unused id, there) in
        let k = step-Keeps (stops id) y (omega arith) i in
        let none_left : uses id (step (stops id) y) ≡ 0 =
          rw (real, active)
            (ground (arith, i.once id, there, real, count-erase id id y.scheduler.event_ids)) in
        let after =
          unused_stays id es (step (stops id) y) (ground (arith, real)) (omega (arith, k.last))
            (omega (arith, k.few)) (Keeps-IsOnce i k) none_left in
        delivered_unused id (steps es (step (stops id) y)) after
  ]
]
