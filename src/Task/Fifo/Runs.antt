-- ===== src/Task/Fifo/Runs.antt =====
-- The queues of src/task/runtime.rs, along the phases of one driver.
use file_peeker.Base.{
  ℕ, suc, ◌≡◌, refl, ap, Bool, false, ◌&&◌, Option, none, some, List, [], ◌∷◌, arith, if◌then◌else◌,
  get_elem?, Bool-cases, inl, inr,
}
use file_peeker.Task.{TaskError, task_failed, Config, running, cancelling, state_of, task_cancelled}
use file_peeker.Task.Registry.{Scope, scope_eq, scope_eq_iff, Ticket, Registry, at_scope}
use file_peeker.Task.Runtime.{
  Runtime, admit, wait, fail, admitted_in, leave_queue, give_back, admit_round, decide, dequeue,
  take_place, set_remove, none_if_empty, apply_decision,
}
use file_peeker.Task.Start.{finish_children, or_empty}
use file_peeker.Task.Driver.{
  BodyEnd, Phase, admitting, told_to_wait, waiting, placed, refused, left, body, body_cancelling,
  joined, finishing, finished, done, Driver, World, move, go_on, wake, see_cancelled, end_body,
  if_queued, after_admit, after_finish, end_state, outcome,
}
use file_peeker.Task.Unchanged.{SameAdmission, set_queued_same, set_state_same, settle_same}
use file_peeker.Task.Places.{unchanged}
use file_peeker.Task.Cap.{
  Admission-cases, apply_decision-queued, apply_decision-unqueued, admit_round_lem, if_queued-true,
  if_queued-false,
}
use file_peeker.Task.Fifo.{
  awaits_place, queue_of, QueueInv, SameQueues, admission_keeps_queues, keep_move, leave_move,
}

or_empty-none_if_empty : (q : List ℕ) → or_empty (none_if_empty q) ≡ q
or_empty-none_if_empty [] = refl
or_empty-none_if_empty (x ∷ q) = refl

set_remove-nil : (x : ℕ) → set_remove x [] ≡ []
unfolding set_remove
set_remove-nil x = refl

queue_of-dequeue :
    (reg : Registry) (t : Ticket) (s : Scope)
    → queue_of (dequeue reg t) s
      ≡ (if scope_eq t.scope s then set_remove t.seq (queue_of reg s) else queue_of reg s)
unfolding dequeue
queue_of-dequeue reg t s = elim (Bool-cases (scope_eq t.scope s)) [
  | inl e ↦ ground (
    arith,
    ap (queue_of reg) ((scope_eq_iff t.scope s).0 e),
    or_empty-none_if_empty (set_remove t.seq (queue_of reg t.scope)),
    set_remove-nil t.seq,
  )
  | inr e ↦ ground arith
]

queue_of-take_place :
    (reg : Registry) (t : Ticket) (s : Scope)
    → queue_of (take_place reg t) s
      ≡ (if scope_eq t.scope s then set_remove t.seq (queue_of reg s) else queue_of reg s)
unfolding take_place
queue_of-take_place reg t s =
    queue_of-dequeue
      (record reg {
        admitted = at_scope t.scope (some (suc (admitted_in reg t.scope))) reg.admitted;
      })
      t s

next_seq-dequeue : (reg : Registry) (t : Ticket) → (dequeue reg t).next_seq ≡ reg.next_seq
unfolding dequeue
next_seq-dequeue reg t = ground arith

next_seq-take_place : (reg : Registry) (t : Ticket) → (take_place reg t).next_seq ≡ reg.next_seq
unfolding take_place dequeue
next_seq-take_place reg t = ground arith

give_back_same : (rt : Runtime) (sc : Scope) → SameQueues rt (give_back rt sc)
unfolding give_back
give_back_same rt sc = ground arith

module _ (c : Config) (w : World) (v : QueueInv c w) (i : ℕ) (d : Driver)
    (here : get_elem? w.drivers i ≡ some d) where
  keep :
      (rt : Runtime) (p : Phase)
      → SameAdmission w.runtime rt
      → awaits_place p ≡ awaits_place d.phase
      → QueueInv c (move w i d rt p)
  keep rt p same e =
      keep_move c w v i d here rt p (admission_keeps_queues same) (ap (λ b. d.ticket.queued && b) e)

  stay : (p : Phase) → awaits_place p ≡ awaits_place d.phase → QueueInv c (move w i d w.runtime p)
  stay p e = keep w.runtime p (unchanged w.runtime) e

  -- A driver that waits in no queue may go anywhere.
  unqueued_move : (p : Phase) → d.ticket.queued ≡ false → QueueInv c (move w i d w.runtime p)
  unqueued_move p q =
      keep_move c w v i d here w.runtime p (admission_keeps_queues (unchanged w.runtime)) (simp q)

  admitted_move : QueueInv c (move w i d (apply_decision w.runtime d.ticket admit) placed)
  unfolding awaits_place
  admitted_move = elim (Bool-cases d.ticket.queued) [
    | inl q ↦ rw (apply_decision-queued w.runtime d.ticket q) (
        leave_move c w v i d here _ placed refl (next_seq-take_place w.runtime.registry d.ticket)
          (queue_of-take_place w.runtime.registry d.ticket) refl)
    | inr q ↦ rw (apply_decision-unqueued w.runtime d.ticket q) (unqueued_move placed q)
  ]

  admit_QueueInv :
      d.phase ≡ admitting
      → QueueInv c (after_admit w i d (admit_round w.runtime d.requires d.ticket))
  unfolding after_admit apply_decision awaits_place
  admit_QueueInv e = elim (Admission-cases (decide w.runtime d.requires d.ticket)) [
    | inl h ↦ rw (admit_round_lem w.runtime d.requires d.ticket admit h) admitted_move
    | inr (inl (on, h)) ↦
        rw (admit_round_lem w.runtime d.requires d.ticket (wait on) h)
          (stay (told_to_wait on) (rw e))
    | inr (inr (err, h)) ↦
        rw (admit_round_lem w.runtime d.requires d.ticket (fail err) h)
          (stay (refused (task_failed err)) (rw e))
  ]

  leave_QueueInv :
      (e : TaskError)
      → QueueInv c
          (move w i d (if_queued d.ticket w.runtime (leave_queue w.runtime d.ticket)) (left e))
  unfolding leave_queue awaits_place
  leave_QueueInv e = elim (Bool-cases d.ticket.queued) [
    | inl q ↦ rw (if_queued-true d.ticket w.runtime (leave_queue w.runtime d.ticket) q) (
        leave_move c w v i d here (leave_queue w.runtime d.ticket) (left e) refl
          (next_seq-dequeue w.runtime.registry d.ticket)
          (queue_of-dequeue w.runtime.registry d.ticket) refl)
    | inr q ↦
        rw (if_queued-false d.ticket w.runtime (leave_queue w.runtime d.ticket) q)
          (unqueued_move (left e) q)
  ]

  give_back_QueueInv :
      (b : BodyEnd)
      → d.phase ≡ joined b
      → QueueInv c (
          move w i d
            (if_queued d.ticket w.runtime (give_back w.runtime d.ticket.scope))
            (finishing b))
  unfolding awaits_place
  give_back_QueueInv b e = elim (Bool-cases d.ticket.queued) [
    | inl q ↦ rw (if_queued-true d.ticket w.runtime (give_back w.runtime d.ticket.scope) q) (
        keep_move c w v i d here _ (finishing b) (give_back_same w.runtime d.ticket.scope)
          (ap (λ b. d.ticket.queued && b) (rw e)))
    | inr q ↦
        rw (if_queued-false d.ticket w.runtime (give_back w.runtime d.ticket.scope) q)
          (unqueued_move (finishing b) q)
  ]

  after_finish_QueueInv :
      (b : BodyEnd) (r : Option (List ℕ))
      → d.phase ≡ finishing b
      → QueueInv c (after_finish w i d b r)
  unfolding after_finish awaits_place
  after_finish_QueueInv b none e = stay (finished b) (rw e)
  after_finish_QueueInv b (some tokens) e = v

  pub go_on_QueueInv :
      (p : Phase) (cancelled : Bool) (wall : ℕ)
      → d.phase ≡ p
      → QueueInv c (go_on p w i d cancelled wall)
  unfolding go_on awaits_place
  go_on_QueueInv admitting _ wall e = admit_QueueInv e
  go_on_QueueInv (told_to_wait on) _ wall e =
      keep _ waiting (set_queued_same w.runtime d.id on) (rw e)
  go_on_QueueInv waiting _ wall e = v
  go_on_QueueInv placed _ wall e = keep _ body (set_state_same w.runtime d.id running) (rw e)
  go_on_QueueInv (refused error) _ wall e = leave_QueueInv error
  go_on_QueueInv (left error) _ wall e =
      keep _ done (settle_same w.runtime d.id (state_of error) wall) (rw e)
  go_on_QueueInv body _ wall e = v
  go_on_QueueInv body_cancelling _ wall e = v
  go_on_QueueInv (joined b) _ wall e = give_back_QueueInv b e
  go_on_QueueInv (finishing b) _ wall e = after_finish_QueueInv b (finish_children w.runtime d.id) e
  go_on_QueueInv (finished b) cancelled wall e =
      keep _ done (settle_same w.runtime d.id (end_state (outcome b cancelled)) wall) (rw e)
  go_on_QueueInv done _ wall e = v

  pub wake_QueueInv : (p : Phase) → d.phase ≡ p → QueueInv c (wake p w i d)
  unfolding wake awaits_place
  wake_QueueInv waiting e = stay admitting (rw e)
  wake_QueueInv _ e = v

  pub see_cancelled_QueueInv : (p : Phase) → d.phase ≡ p → QueueInv c (see_cancelled p w i d)
  unfolding see_cancelled awaits_place
  see_cancelled_QueueInv waiting e = stay (refused task_cancelled) (rw e)
  see_cancelled_QueueInv body e =
      keep _ body_cancelling (set_state_same w.runtime d.id cancelling) (rw e)
  see_cancelled_QueueInv _ e = v

  pub end_body_QueueInv : (p : Phase) (b : BodyEnd) → d.phase ≡ p → QueueInv c (end_body p w i d b)
  unfolding end_body awaits_place
  end_body_QueueInv body b e = stay (joined b) (rw e)
  end_body_QueueInv body_cancelling b e = stay (joined b) (rw e)
  end_body_QueueInv _ b e = v
