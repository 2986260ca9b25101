-- ===== src/Task/Cap.antt =====
-- The admission counts of src/task/runtime.rs, critical section by critical section.
pub mod Runs
use Prim.Native.String.{String}
use file_peeker.Base.{
  ℕ, zero, suc, ◌+◌, ◌-◌, ◌≤◌, ◌<◌, ◌≡◌, refl, sym, ap, ◌∙◌, Bool, true, false, ◌&&◌, Option, none,
  some, List, [], ◌∷◌, ◌++◌, ltb, arith, if◌then◌else◌, get_elem?, set, Bool-cases, Option-cases,
  inl, inr, ◌⊎◌,
}
use file_peeker.Task.{
  IoError, TaskError, task_failed, task_cancelled, TaskState, cap, Config, default_config, running,
  cancelling, state_of,
}
use file_peeker.Task.Registry.{Scope, scope_eq, scope_eq_iff, Ticket, Registry, at_scope}
use file_peeker.Task.Runtime.{
  Runtime, Admission, admit, wait, fail, admission, admission_by_cap, admitted_in, dequeue,
  take_place, decide, admit_round, apply_decision, notify, with_registry, cap_of, leave_queue,
  give_back,
}
use file_peeker.Task.Lifecycle.{set_queued, set_state, settle, report_progress, flush_progress}
use file_peeker.Task.Start.{Submission, start, finish_children}
use file_peeker.Task.Driver.{
  BodyEnd, returned, Phase, admitting, told_to_wait, waiting, placed, refused, left, body,
  body_cancelling, joined, finishing, finished, done, Driver, World, move, Action, go_on, wake,
  see_cancelled, end_body, submit, step, submits, goes_on, wakes, sees_cancelled, ends, reports,
  flushes, adds_resource, moves_resource, readies_resource, init, run, on_driver, with_runtime,
  if_queued, after_admit, after_finish, new_driver, end_state, outcome,
}
use file_peeker.Task.Unchanged.{
  SameAdmission, set_queued_same, set_state_same, settle_same, report_progress_same,
  flush_progress_same, add_resource_same, set_resource_state_same, set_resource_ready_same,
}
use file_peeker.Task.Places.{
  in_place, held, holders, PlacesInv, unchanged, runtime_PlacesInv, counted_move, same_move, stay,
  unqueued_move, take_move, holders-snoc, held-le-holders,
}

pub admitted_in-dequeue :
    (reg : Registry) (t : Ticket) (s : Scope) → admitted_in (dequeue reg t) s ≡ admitted_in reg s
unfolding dequeue
admitted_in-dequeue reg t s = ground arith

pub admitted_in-take_place :
    (reg : Registry) (t : Ticket) (s : Scope)
    → admitted_in (take_place reg t) s
      ≡ (if scope_eq t.scope s then suc (admitted_in reg s) else admitted_in reg s)
unfolding take_place
admitted_in-take_place reg t s = elim (Bool-cases (scope_eq t.scope s)) [
  | inl e ↦ ground (arith, (scope_eq_iff t.scope s).0 e)
  | inr e ↦ ground arith
]

-- A capped scope admits only where a place is free.
pub admission_room :
    (reg : Registry) (requires : List ℕ) (t : Ticket) (n : ℕ)
    → admission reg requires t (some n) ≡ admit
    → admitted_in reg t.scope < n
unfolding admission
admission_room reg [] t n h = ground arith
admission_room reg (r ∷ requires) t n h = ground (arith, admission_room reg requires t n)

pub Admission-cases :
    (a : Admission)
    → (a ≡ admit) ⊎ (((on : Option ℕ) × (a ≡ wait on)) ⊎ ((e : IoError) × (a ≡ fail e)))
Admission-cases admit = inl refl
Admission-cases (wait on) = inr (inl (on, refl))
Admission-cases (fail e) = inr (inr (e, refl))

pub apply_decision-queued :
    (rt : Runtime) (t : Ticket)
    → t.queued ≡ true
    → apply_decision rt t admit ≡ notify (with_registry rt (take_place rt.registry t))
unfolding apply_decision
apply_decision-queued rt t q = simp q

pub apply_decision-unqueued :
    (rt : Runtime) (t : Ticket) → t.queued ≡ false → apply_decision rt t admit ≡ rt
unfolding apply_decision
apply_decision-unqueued rt t q = simp q

pub admit_round_lem :
    (rt : Runtime) (requires : List ℕ) (t : Ticket) (a : Admission)
    → decide rt requires t ≡ a
    → admit_round rt requires t ≡ (apply_decision rt t a, a)
unfolding admit_round
admit_round_lem rt requires t a h = ap (λ x. (apply_decision rt t x, x)) h

pub decide-queued :
    (rt : Runtime) (requires : List ℕ) (t : Ticket) (n : ℕ)
    → t.queued ≡ true
    → cap rt.config t.scope.class ≡ some n
    → decide rt requires t ≡ admission rt.registry requires t (some n)
unfolding decide
decide-queued rt requires t n q c = ap (admission rt.registry requires t) (cap_of_queued q)
  where
    cap_of_queued : t.queued ≡ true → cap_of rt.config t ≡ some n
    cap_of_queued q = simp q c

admitted_in-give_back :
    (rt : Runtime) (sc s : Scope)
    → admitted_in (give_back rt sc).registry s
      ≡ (if scope_eq sc s then admitted_in rt.registry s - 1 else admitted_in rt.registry s)
unfolding give_back
admitted_in-give_back rt sc s = elim (Bool-cases (scope_eq sc s)) [
  | inl e ↦ ground (arith, (scope_eq_iff sc s).0 e)
  | inr e ↦ ground arith
]

config-give_back : (rt : Runtime) (sc : Scope) → (give_back rt sc).config ≡ rt.config
unfolding give_back
config-give_back rt sc = ground arith

pub if_queued-true : (t : Ticket) (rt rt' : Runtime) → t.queued ≡ true → if_queued t rt rt' ≡ rt'
if_queued-true t rt rt' q = simp q

pub if_queued-false : (t : Ticket) (rt rt' : Runtime) → t.queued ≡ false → if_queued t rt rt' ≡ rt
if_queued-false t rt rt' q = simp q

module _ (w : World) (v : PlacesInv w) (i : ℕ) (d : Driver)
    (here : get_elem? w.drivers i ≡ some d) where
  admitted_move :
      in_place d.phase ≡ false
      → decide w.runtime d.requires d.ticket ≡ admit
      → PlacesInv (move w i d (apply_decision w.runtime d.ticket admit) placed)
  admitted_move e h = elim (Bool-cases d.ticket.queued) [
    | inl q ↦ rw (apply_decision-queued w.runtime d.ticket q) (
        take_move w v i d here _ q e refl (admitted_in-take_place w.runtime.registry d.ticket)
          (λ n c.
            admission_room w.runtime.registry d.requires d.ticket n
              (sym (decide-queued w.runtime d.requires d.ticket n q c) ∙ h)))
    | inr q ↦
        rw (apply_decision-unqueued w.runtime d.ticket q) (unqueued_move w v i d here placed q)
  ]

  pub admit_PlacesInv :
      d.phase ≡ admitting
      → PlacesInv (after_admit w i d (admit_round w.runtime d.requires d.ticket))
  unfolding after_admit apply_decision in_place
  admit_PlacesInv e = elim (Admission-cases (decide w.runtime d.requires d.ticket)) [
    | inl h ↦ rw (admit_round_lem w.runtime d.requires d.ticket admit h) (admitted_move (rw e) h)
    | inr (inl (on, h)) ↦
        rw (admit_round_lem w.runtime d.requires d.ticket (wait on) h)
          (stay w v i d here (told_to_wait on) (rw e))
    | inr (inr (err, h)) ↦
        rw (admit_round_lem w.runtime d.requires d.ticket (fail err) h)
          (stay w v i d here (refused (task_failed err)) (rw e))
  ]

  given_back :
      (b : BodyEnd)
      → d.phase ≡ joined b
      → d.ticket.queued ≡ true
      → PlacesInv (move w i d (give_back w.runtime d.ticket.scope) (finishing b))
  unfolding held in_place
  given_back b e q =
      counted_move w v i d here _ (finishing b) (config-give_back w.runtime d.ticket.scope)
        (λ s. ground (
          arith,
          admitted_in-give_back w.runtime d.ticket.scope s,
          v.counted s,
          held-le-holders s w.drivers i d here,
        ))
        (λ s n h. ground (arith, admitted_in-give_back w.runtime d.ticket.scope s, v.capped s n h))

  pub give_back-PlacesInv :
      (b : BodyEnd)
      → d.phase ≡ joined b
      → PlacesInv (
          move w i d
            (if_queued d.ticket w.runtime (give_back w.runtime d.ticket.scope))
            (finishing b))
  unfolding in_place
  give_back-PlacesInv b e = elim (Bool-cases d.ticket.queued) [
    | inl q ↦
        rw (if_queued-true d.ticket w.runtime (give_back w.runtime d.ticket.scope) q)
          (given_back b e q)
    | inr q ↦
        rw (if_queued-false d.ticket w.runtime (give_back w.runtime d.ticket.scope) q)
          (unqueued_move w v i d here (finishing b) q)
  ]
