-- ===== src/Task/Cap/Runs.antt =====
-- The admission counts of src/task/runtime.rs, along the steps of the drivers.
use file_peeker.Base.{
  ℕ, ◌≡◌, refl, sym, ap, ◌∙◌, Bool, Option, none, some, List, [], ◌∷◌, arith, get_elem?, Bool-cases,
  Option-cases, inl, inr,
}
use file_peeker.Task.{TaskError, cap, Config, running, cancelling, state_of, task_cancelled}
use file_peeker.Task.Registry.{Scope}
use file_peeker.Task.Runtime.{Runtime, or_zero, leave_queue, new}
use file_peeker.Task.Start.{Submission, start, finish_children}
use file_peeker.Task.Driver.{
  BodyEnd, Phase, admitting, told_to_wait, waiting, placed, refused, left, body, body_cancelling,
  joined, finishing, finished, done, Driver, World, move, Action, go_on, wake, see_cancelled,
  end_body, submit, step, submits, goes_on, wakes, sees_cancelled, ends, reports, flushes,
  adds_resource, moves_resource, readies_resource, init, run, on_driver, if_queued, after_finish,
  new_driver, end_state, outcome,
}
use file_peeker.Task.Unchanged.{
  set_queued_same, set_state_same, settle_same, report_progress_same, flush_progress_same,
  add_resource_same, set_resource_state_same, set_resource_ready_same,
}
use file_peeker.Task.Places.{
  in_place, held, holders, PlacesInv, runtime_PlacesInv, counted_move, same_move, stay,
  unqueued_move, holders-snoc,
}
use file_peeker.Task.Cap.{
  admitted_in-dequeue, admit_PlacesInv, give_back-PlacesInv, if_queued-true, if_queued-false,
}

module _ (w : World) (v : PlacesInv w) (i : ℕ) (d : Driver)
    (here : get_elem? w.drivers i ≡ some d) where
  leave_PlacesInv :
      (e : TaskError)
      → d.phase ≡ refused e
      → PlacesInv
          (move w i d (if_queued d.ticket w.runtime (leave_queue w.runtime d.ticket)) (left e))
  unfolding leave_queue in_place held
  leave_PlacesInv e p = elim (Bool-cases d.ticket.queued) [
    | inl q ↦ rw (if_queued-true d.ticket w.runtime (leave_queue w.runtime d.ticket) q) (
        counted_move w v i d here (leave_queue w.runtime d.ticket) (left e) refl
          (λ s. ground (arith, admitted_in-dequeue w.runtime.registry d.ticket s))
          (λ s n h.
            ground (arith, admitted_in-dequeue w.runtime.registry d.ticket s, v.capped s n)))
    | inr q ↦
        rw (if_queued-false d.ticket w.runtime (leave_queue w.runtime d.ticket) q)
          (unqueued_move w v i d here (left e) q)
  ]

  after_finish-PlacesInv :
      (b : BodyEnd) (r : Option (List ℕ))
      → d.phase ≡ finishing b
      → PlacesInv (after_finish w i d b r)
  unfolding after_finish in_place
  after_finish-PlacesInv b none e = stay w v i d here (finished b) (rw e)
  after_finish-PlacesInv b (some tokens) e = v

  go_on-PlacesInv :
      (p : Phase) (c : Bool) (wall : ℕ) → d.phase ≡ p → PlacesInv (go_on p w i d c wall)
  unfolding go_on in_place
  go_on-PlacesInv admitting c wall e = admit_PlacesInv w v i d here e
  go_on-PlacesInv (told_to_wait on) c wall e =
      same_move w v i d here _ waiting (set_queued_same w.runtime d.id on) (rw e)
  go_on-PlacesInv waiting c wall e = v
  go_on-PlacesInv placed c wall e =
      same_move w v i d here _ body (set_state_same w.runtime d.id running) (rw e)
  go_on-PlacesInv (refused error) c wall e = leave_PlacesInv error e
  go_on-PlacesInv (left error) c wall e =
      same_move w v i d here _ done (settle_same w.runtime d.id (state_of error) wall) (rw e)
  go_on-PlacesInv body c wall e = v
  go_on-PlacesInv body_cancelling c wall e = v
  go_on-PlacesInv (joined b) c wall e = give_back-PlacesInv w v i d here b e
  go_on-PlacesInv (finishing b) c wall e =
      after_finish-PlacesInv b (finish_children w.runtime d.id) e
  go_on-PlacesInv (finished b) c wall e =
      same_move w v i d here _ done (settle_same w.runtime d.id (end_state (outcome b c)) wall)
        (rw e)
  go_on-PlacesInv done c wall e = v

  wake-PlacesInv : (p : Phase) → d.phase ≡ p → PlacesInv (wake p w i d)
  unfolding wake in_place
  wake-PlacesInv waiting e = stay w v i d here admitting (rw e)
  wake-PlacesInv _ e = v

  see_cancelled-PlacesInv : (p : Phase) → d.phase ≡ p → PlacesInv (see_cancelled p w i d)
  unfolding see_cancelled in_place
  see_cancelled-PlacesInv waiting e = stay w v i d here (refused task_cancelled) (rw e)
  see_cancelled-PlacesInv body e =
      same_move w v i d here _ body_cancelling (set_state_same w.runtime d.id cancelling) (rw e)
  see_cancelled-PlacesInv _ e = v

  end_body-PlacesInv : (p : Phase) (b : BodyEnd) → d.phase ≡ p → PlacesInv (end_body p w i d b)
  unfolding end_body in_place
  end_body-PlacesInv body b e = stay w v i d here (joined b) (rw e)
  end_body-PlacesInv body_cancelling b e = stay w v i d here (joined b) (rw e)
  end_body-PlacesInv _ b e = v

start_admitted :
    (rt : Runtime) (s : Submission)
    → ((start rt s).0.admitted ≡ rt.admitted) × ((start rt s).0.config ≡ rt.config)
unfolding start
start_admitted rt s = ground arith

held_admitting : (s : Scope) (d : Driver) → d.phase ≡ admitting → held s d ≡ 0
unfolding held in_place
held_admitting s d e = ground arith

submit-PlacesInv : (w : World) (s : Submission) → PlacesInv w → PlacesInv (submit w s)
unfolding submit new_driver
submit-PlacesInv w s v = record {
  counted = λ sc. omega (
    arith,
    ap (λ f. or_zero (f sc)) (start_admitted w.runtime s).0,
    v.counted sc,
    holders-snoc sc w.drivers (new_driver s (start w.runtime s).1),
    held_admitting sc (new_driver s (start w.runtime s).1) refl,
  );
  capped = λ sc n h. omega (
    arith,
    ap (λ f. or_zero (f sc)) (start_admitted w.runtime s).0,
    v.capped sc n (ap (λ k. cap k sc.class) (sym (start_admitted w.runtime s).1) ∙ h),
  );
}

on_driver-PlacesInv :
    (w : World) (v : PlacesInv w) (i : ℕ) (f : Driver → World)
    → ((d : Driver) → get_elem? w.drivers i ≡ some d → PlacesInv (f d))
    → PlacesInv (on_driver w i f)
on_driver-PlacesInv w v i f h = elim (Option-cases (get_elem? w.drivers i)) [
  | inl e ↦ rw (e, on_driver) v
  | inr (d, e) ↦ rw (e, on_driver) (h d e)
]

pub step-PlacesInv : (w : World) (a : Action) → PlacesInv w → PlacesInv (step w a)
unfolding step
step-PlacesInv w (submits s) v = submit-PlacesInv w s v
step-PlacesInv w (goes_on i c wall) v =
    on_driver-PlacesInv w v i _ (λ d e. go_on-PlacesInv w v i d e d.phase c wall refl)
step-PlacesInv w (wakes i) v =
    on_driver-PlacesInv w v i _ (λ d e. wake-PlacesInv w v i d e d.phase refl)
step-PlacesInv w (sees_cancelled i) v =
    on_driver-PlacesInv w v i _ (λ d e. see_cancelled-PlacesInv w v i d e d.phase refl)
step-PlacesInv w (ends i b) v =
    on_driver-PlacesInv w v i _ (λ d e. end_body-PlacesInv w v i d e d.phase b refl)
step-PlacesInv w (reports id p now) v =
    runtime_PlacesInv w v _ (report_progress_same w.runtime id p now)
step-PlacesInv w (flushes id now) v = runtime_PlacesInv w v _ (flush_progress_same w.runtime id now)
step-PlacesInv w (adds_resource id s) v = runtime_PlacesInv w v _ (add_resource_same w.runtime id s)
step-PlacesInv w (moves_resource id s) v =
    runtime_PlacesInv w v _ (set_resource_state_same w.runtime id s)
step-PlacesInv w (readies_resource id value) v =
    runtime_PlacesInv w v _ (set_resource_ready_same w.runtime id value)

pub run-PlacesInv : (actions : List Action) (w : World) → PlacesInv w → PlacesInv (run w actions)
unfolding run
run-PlacesInv [] w v = v
run-PlacesInv (a ∷ rest) w v = run-PlacesInv rest (step w a) (step-PlacesInv w a v)

pub init-PlacesInv : (c : Config) → PlacesInv (init c)
unfolding init holders new
init-PlacesInv c = record { counted = λ s. refl; capped = λ s n h. omega arith }
