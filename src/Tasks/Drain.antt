-- ===== src/Tasks/Drain.antt =====
-- Every event that is not stopped comes to the dispatcher.
use asca_ci.Base.{
  ℕ, zero, suc, ◌+◌, ◌≤◌, ◌≡◌, refl, sym, ap, ◌∙◌, true, List, [], ◌∷◌, ◌==◌, ltb, leb, arith, All,
  length, Bool-cases, inl, inr, replicate,
}
use asca_ci.Base.Counts.{one, count, count-erase, elem-count, count-elem, elem}
use asca_ci.Tasks.Once.{queued, queued-pop, IsBacked}
use asca_ci.Tasks.{
  Task, System, wakes, steps, step, schedule, time_out, fire, pop, is_running, add_task,
}

abbrev pub IsDue : ℕ → Task → Type 0
IsDue now t = t.expiration ≤ now

pop-IsDue :
    (now : ℕ) (t : Task) (ts : List Task)
    → IsDue now t
    → All (IsDue now) ts
    → IsDue now (pop t ts).0 × All (IsDue now) (pop t ts).1
unfolding pop
pop-IsDue now t [] h hs = (h, tt)
pop-IsDue now t (u ∷ us) h hs = elim (Bool-cases (ltb u.expiration t.expiration)) [
  | inl earlier ↦ let (d, ds) = pop-IsDue now u us hs.0 hs.1 in rw earlier (d, (h, ds))
  | inr later ↦ let (d, ds) = pop-IsDue now t us h hs.1 in rw later (d, (hs.0, ds))
]

length-pop : (t : Task) (ts : List Task) → length (pop t ts).1 ≡ length ts
unfolding pop
length-pop t [] = refl
length-pop t (u ∷ us) = elim (Bool-cases (ltb u.expiration t.expiration)) [
  | inl earlier ↦ rw earlier (ap suc (length-pop u us))
  | inr later ↦ rw later (ap suc (length-pop t us))
]

-- One turn that takes a task off the queue.
record Fires (now : ℕ) (ts : List Task) (y y' : System) : Type 0 where
  queue : y'.scheduler.event_list ≡ ts
  on : is_running y'.dispatcher.state ≡ is_running y.dispatcher.state
  backed : IsBacked y'
  total :
      (id : ℕ)
      → count id y'.scheduler.event_ids + queued id y'.dispatcher.task_list
        ≡ count id y.scheduler.event_ids + queued id y.dispatcher.task_list

fire-Fires :
    (now : ℕ) (t : Task) (rest : List Task) (y : System)
    → is_running y.dispatcher.state ≡ true
    → IsBacked y
    → ((id : ℕ) → one (t.event_id == id) + queued id rest ≡ queued id y.scheduler.event_list)
    → Fires now rest y (fire t (record (y.scheduler) { event_list = rest }) y.dispatcher)
unfolding add_task
fire-Fires now t rest y on b split = elim (Bool-cases (elem t.event_id y.scheduler.event_ids)) [
  | inl active ↦
      let less = λ (id : ℕ). count-erase id t.event_id y.scheduler.event_ids in
      let there = count-elem t.event_id y.scheduler.event_ids active in
      rw (active, on)
        (record {
          queue = refl;
          on = refl;
          backed = λ id. ground (arith, b id, less id, split id);
          total = λ id. ground (arith, less id, there);
        })
  | inr stopped ↦ rw stopped (record {
    queue = refl;
    on = refl;
    backed =
        λ id. ground (arith, b id, split id, elem-count t.event_id y.scheduler.event_ids stopped);
    total = λ id. refl;
  })
]

-- Where the dispatcher runs and every task of the queue is due, as many turns of the scheduler as
-- there are tasks hand every active event's task to the dispatcher, once, and no other.
pub schedule_drains :
    (n now : ℕ) (ts : List Task) (y : System)
    → y.scheduler.event_list ≡ ts
    → length ts ≤ n
    → All (IsDue now) ts
    → is_running y.dispatcher.state ≡ true
    → IsBacked y
    → (id : ℕ)
    → queued id (steps (replicate n (wakes now)) y).dispatcher.task_list
      ≡ queued id y.dispatcher.task_list + count id y.scheduler.event_ids
unfolding steps step schedule
schedule_drains zero now [] y e enough due on b id = ground (arith, b id, e)
schedule_drains zero now (t ∷ ts) y e enough due on b id = absurd (omega arith)
schedule_drains (suc n) now [] y e enough due on b id =
    ap (λ z. queued id (steps (replicate n (wakes now)) z).dispatcher.task_list)
      (ap (λ ts. time_out now ts y.scheduler y.dispatcher) e)
    ∙ schedule_drains n now [] y e (omega arith) tt on b id
schedule_drains (suc n) now (t ∷ ts) y e enough due on b id =
    let (d, ds) = pop-IsDue now t ts due.0 due.1 in
    let is_due : leb (pop t ts).0.expiration now ≡ true = ground (arith, d) in
    let f =
      fire-Fires now (pop t ts).0 (pop t ts).1 y on b
        (λ k. queued-pop k t ts ∙ ap (queued k) (sym e)) in
    let y' = fire (pop t ts).0 (record (y.scheduler) { event_list = (pop t ts).1 }) y.dispatcher in
    let fires : time_out now (t ∷ ts) y.scheduler y.dispatcher ≡ y' = rw is_due refl in
    ap (λ z. queued id (steps (replicate n (wakes now)) z).dispatcher.task_list)
      (ap (λ us. time_out now us y.scheduler y.dispatcher) e ∙ fires)
    ∙ schedule_drains n now (pop t ts).1 y' f.queue (omega (arith, length-pop t ts)) ds (f.on ∙ on)
        f.backed id
    ∙ omega (arith, f.total id)
