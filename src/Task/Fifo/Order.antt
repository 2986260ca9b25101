-- ===== src/Task/Fifo/Order.antt =====
-- The queues of src/task/runtime.rs, along the steps of all drivers.
use file_peeker.Base.{
  ℕ, suc, ◌≡◌, refl, sym, ap, ◌∙◌, true, ◌&&◌, some, List, [], ◌∷◌, arith, if◌then◌else◌, get_elem?,
  Bool-cases, Option-cases, inl, inr, ◌==◌, get_elem?-snoc_cases, length, length-append,
  get_elem?-length,
}
use file_peeker.Task.{cap, Config}
use file_peeker.Task.Registry.{Scope, scope_eq, scope_eq_iff, Ticket, Registry}
use file_peeker.Task.Runtime.{Runtime, new, set_insert}
use file_peeker.Task.Start.{Submission, start, is_some, enqueue, ticket_of}
use file_peeker.Task.Driver.{
  Driver, World, Action, submit, step, submits, goes_on, wakes, sees_cancelled, ends, reports,
  flushes, adds_resource, moves_resource, readies_resource, init, run, on_driver, new_driver,
}
use file_peeker.Task.Unchanged.{
  report_progress_same, flush_progress_same, add_resource_same, set_resource_state_same,
  set_resource_ready_same,
}
use file_peeker.Task.Queue.{contains, set_insert-IsIncreasing, contains-set_insert}
use file_peeker.Task.Fifo.{
  awaits_place, queue_of, is_waiting_in, waits_in, found_waiting_in, waits_in-snoc, QueueInv,
  runtime_QueueInv,
}
use file_peeker.Task.Fifo.Runs.{
  go_on_QueueInv, wake_QueueInv, see_cancelled_QueueInv, end_body_QueueInv,
}

-- What `start` does to the queues, and the ticket that it hands out.
start_config : (rt : Runtime) (s : Submission) → (start rt s).0.config ≡ rt.config
unfolding start
start_config rt s = ground arith

start_next_seq : (rt : Runtime) (s : Submission) → (start rt s).0.next_seq ≡ suc rt.next_seq
unfolding start
start_next_seq rt s = ground arith

start_ticket : (rt : Runtime) (s : Submission) → (start rt s).1 ≡ ticket_of rt s
unfolding start
start_ticket rt s = refl

queue_of-enqueue :
    (reg : Registry) (t : Ticket) (sc : Scope)
    → queue_of (enqueue reg t) sc ≡ (
        if t.queued && scope_eq t.scope sc
        then set_insert t.seq (queue_of reg sc)
        else queue_of reg sc)
queue_of-enqueue reg t sc = elim (Bool-cases (scope_eq t.scope sc)) [
  | inl e ↦ ground (arith, ap (queue_of reg) ((scope_eq_iff t.scope sc).0 e))
  | inr e ↦ ground arith
]

start_queue :
    (rt : Runtime) (s : Submission) (sc : Scope)
    → queue_of (start rt s).0.registry sc ≡ (
        if (start rt s).1.queued && scope_eq (start rt s).1.scope sc
        then set_insert rt.next_seq (queue_of rt.registry sc)
        else queue_of rt.registry sc)
unfolding start
start_queue rt s sc =
    queue_of-enqueue (record (rt.registry) { next_seq = suc rt.next_seq }) (ticket_of rt s) sc

start_capped :
    (rt : Runtime) (s : Submission)
    → (start rt s).1.queued ≡ true
    → is_some (cap rt.config (start rt s).1.scope.class) ≡ true
unfolding start ticket_of
start_capped rt s q = ground arith

start_seq : (rt : Runtime) (s : Submission) → (start rt s).1.seq ≡ rt.next_seq
unfolding start ticket_of
start_seq rt s = refl

module _ (c : Config) (w : World) (v : QueueInv c w) (s : Submission) where
  fresh : Driver
  unfolding new_driver
  fresh = new_driver s (start w.runtime s).1

  submitted_exact :
      (sc : Scope) (k : ℕ)
      → contains k (
          if (start w.runtime s).1.queued && scope_eq (start w.runtime s).1.scope sc
          then set_insert w.runtime.next_seq (queue_of w.runtime.registry sc)
          else queue_of w.runtime.registry sc)
        ≡ (if length w.drivers == k then is_waiting_in sc fresh else waits_in w.drivers sc k)
  unfolding fresh awaits_place
  submitted_exact sc k = ground (
    arith,
    v.exact sc k,
    v.counted,
    contains-set_insert k w.runtime.next_seq (queue_of w.runtime.registry sc),
    ap (found_waiting_in sc) (get_elem?-length w.drivers),
  )

  fresh_seq : (new_driver s (start w.runtime s).1).ticket.seq ≡ length w.drivers
  unfolding new_driver
  fresh_seq = start_seq w.runtime s ∙ v.counted

  fresh_capped :
      (d : Driver)
      → d ≡ new_driver s (start w.runtime s).1
      → d.ticket.queued ≡ true
      → is_some (cap c d.ticket.scope.class) ≡ true
  unfolding new_driver
  fresh_capped d eq q =
      ap (λ (x : Driver). is_some (cap c x.ticket.scope.class)) eq
      ∙ ap (λ k. is_some (cap k (start w.runtime s).1.scope.class)) (sym v.configured)
      ∙ start_capped w.runtime s (sym (ap (λ (x : Driver). x.ticket.queued) eq) ∙ q)

  submit_QueueInv : QueueInv c (submit w s)
  unfolding submit
  submit_QueueInv = record {
    configured = start_config w.runtime s ∙ v.configured;
    counted = omega (
      arith,
      start_next_seq w.runtime s,
      v.counted,
      length-append w.drivers (new_driver s (start w.runtime s).1 ∷ []),
    );
    numbered = λ i d h.
        elim (get_elem?-snoc_cases w.drivers i (new_driver s (start w.runtime s).1) d h) [
          | inl (last, eq) ↦ ap (λ (x : Driver). x.ticket.seq) eq ∙ fresh_seq ∙ last
          | inr before ↦ v.numbered i d before
        ];
    capped = λ i d h q.
        elim (get_elem?-snoc_cases w.drivers i (new_driver s (start w.runtime s).1) d h) [
          | inl (last, eq) ↦ fresh_capped d eq q
          | inr before ↦ v.capped i d before q
        ];
    increasing = λ sc. rw (start_queue w.runtime s sc) (
        ground (
          arith,
          v.increasing sc,
          set_insert-IsIncreasing w.runtime.next_seq (queue_of w.runtime.registry sc),
        ));
    exact = λ sc k.
        rw
          (
            start_queue w.runtime s sc,
            waits_in-snoc w.drivers k (new_driver s (start w.runtime s).1) sc,
          )
          (unfold fresh in submitted_exact sc k);
  }

on_driver_QueueInv :
    (c : Config) (w : World) (v : QueueInv c w) (i : ℕ) (f : Driver → World)
    → ((d : Driver) → get_elem? w.drivers i ≡ some d → QueueInv c (f d))
    → QueueInv c (on_driver w i f)
on_driver_QueueInv c w v i f h = elim (Option-cases (get_elem? w.drivers i)) [
  | inl e ↦ rw (e, on_driver) v
  | inr (d, e) ↦ rw (e, on_driver) (h d e)
]

step_QueueInv : (c : Config) (w : World) (a : Action) → QueueInv c w → QueueInv c (step w a)
unfolding step
step_QueueInv c w (submits s) v = submit_QueueInv c w v s
step_QueueInv c w (goes_on i cancelled wall) v =
    on_driver_QueueInv c w v i _ (λ d e. go_on_QueueInv c w v i d e d.phase cancelled wall refl)
step_QueueInv c w (wakes i) v =
    on_driver_QueueInv c w v i _ (λ d e. wake_QueueInv c w v i d e d.phase refl)
step_QueueInv c w (sees_cancelled i) v =
    on_driver_QueueInv c w v i _ (λ d e. see_cancelled_QueueInv c w v i d e d.phase refl)
step_QueueInv c w (ends i b) v =
    on_driver_QueueInv c w v i _ (λ d e. end_body_QueueInv c w v i d e d.phase b refl)
step_QueueInv c w (reports id p now) v =
    runtime_QueueInv c w v _ (report_progress_same w.runtime id p now)
step_QueueInv c w (flushes id now) v =
    runtime_QueueInv c w v _ (flush_progress_same w.runtime id now)
step_QueueInv c w (adds_resource id s) v =
    runtime_QueueInv c w v _ (add_resource_same w.runtime id s)
step_QueueInv c w (moves_resource id s) v =
    runtime_QueueInv c w v _ (set_resource_state_same w.runtime id s)
step_QueueInv c w (readies_resource id value) v =
    runtime_QueueInv c w v _ (set_resource_ready_same w.runtime id value)

init_QueueInv : (c : Config) → QueueInv c (init c)
unfolding init new contains
init_QueueInv c = record {
  configured = refl;
  counted = refl;
  numbered = λ i d h. cc;
  capped = λ i d h q. cc;
  increasing = λ s. tt;
  exact = λ s k. refl;
}

run_from :
    (c : Config) (actions : List Action) (w : World) → QueueInv c w → QueueInv c (run w actions)
unfolding run
run_from c [] w v = v
run_from c (a ∷ rest) w v = run_from c rest (step w a) (step_QueueInv c w a v)

pub run_QueueInv : (c : Config) (actions : List Action) → QueueInv c (run (init c) actions)
run_QueueInv c actions = run_from c actions (init c) (init_QueueInv c)
