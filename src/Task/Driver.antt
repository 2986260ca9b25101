-- ===== src/Task/Driver.antt =====
-- The drivers: `drive`, `admit` and the end of `finish_children` of src/task/runtime.rs, as the
-- program counters of the tokio tasks that run them. A step of the world is what one driver does
-- between two points at which others may run: one critical section, or one answer of a `select!`.
-- Which step comes next, when a body returns and with what, and when a driver sees its token
-- cancelled are the schedule's choice, so a run is any interleaving.
use file_peeker.Base.{
  ℕ, Bool, true, false, ◌&&◌, Option, none, some, List, [], ◌∷◌, ◌++◌, if◌then◌else◌, get_elem?,
  set,
}
use file_peeker.Task.{
  Progress, IoError, ErrorKind, interrupted, other, TaskState, running, cancelling, succeeded,
  TaskError, task_failed, task_cancelled, state_of, ResourceState, Config,
}
use file_peeker.Task.Registry.{Ticket}
use file_peeker.Task.Runtime
use file_peeker.Task.Runtime.{
  Runtime, Admission, admit, wait, fail, admit_round, leave_queue, give_back, set_resource_state,
  add_resource, set_resource_ready,
}
use file_peeker.Task.Lifecycle.{set_queued, set_state, settle, report_progress, flush_progress}
use file_peeker.Task.Start.{Submission, start, finish_children}

-- What a body's join handle gives.
pub data BodyEnd : Type 0 where
  returned : BodyEnd
  returned_error : IoError → BodyEnd
  panicked : BodyEnd

pub data Phase : Type 0 where
  -- In `admit`: at the head of the loop, told to wait, and in its `select!`.
  admitting : Phase
  told_to_wait : (waiting_on : Option ℕ) → Phase
  waiting : Phase
  -- `admit` returned: a place, or an error before and after `leave_queue`.
  placed : Phase
  refused : TaskError → Phase
  left : TaskError → Phase
  -- The body runs, or runs with its cancellation seen.
  body : Phase
  body_cancelling : Phase
  -- The body has ended: before `drop(slot)`, in `finish_children`, and behind it.
  joined : BodyEnd → Phase
  finishing : BodyEnd → Phase
  finished : BodyEnd → Phase
  done : Phase

pub record Driver : Type 0 where
  pub id : ℕ
  pub requires : List ℕ
  pub ticket : Ticket
  pub phase : Phase

pub record World : Type 0 where
  pub runtime : Runtime
  pub drivers : List Driver

abbrev pub move : World → ℕ → Driver → Runtime → Phase → World
move w i d rt phase = record {
  runtime = rt;
  drivers = set w.drivers i (record d { phase = phase });
}

is_interrupted : ErrorKind → Bool
is_interrupted interrupted = true
is_interrupted _ = false

-- How a task ends, by what its body gave and whether its token is cancelled by then.
unfoldable pub outcome : BodyEnd → Bool → Option TaskError
unfolding is_interrupted
outcome returned cancelled = none
outcome (returned_error error) cancelled =
    if cancelled && is_interrupted error.kind then some task_cancelled else some (task_failed error)
outcome panicked cancelled =
    some (task_failed (record { kind = other; message = "the task panicked" }))

unfoldable pub end_state : Option TaskError → TaskState
end_state none = succeeded
end_state (some error) = state_of error

pub data Action : Type 0 where
  -- `submit`, or a body's `spawn`.
  submits : Submission → Action
  -- The driver at this index goes on; `cancelled` is what it reads from its token where it does,
  -- and the number is the time.
  goes_on : (i : ℕ) (cancelled : Bool) (wall : ℕ) → Action
  -- Its `select!` answers with a notification, or with the token's cancellation.
  wakes : (i : ℕ) → Action
  sees_cancelled : (i : ℕ) → Action
  -- Its body ends.
  ends : (i : ℕ) → BodyEnd → Action
  -- A body reports progress, or a flush that was spawned for a task runs.
  reports : (id : ℕ) → Progress → (now : ℕ) → Action
  flushes : (id : ℕ) (now : ℕ) → Action
  adds_resource : (id : ℕ) → ResourceState → Action
  moves_resource : (id : ℕ) → ResourceState → Action
  readies_resource : (id : ℕ) (value : ℕ) → Action

unfoldable pub after_admit : World → ℕ → Driver → Runtime × Admission → World
after_admit w i d (rt, admit) = move w i d rt placed
after_admit w i d (rt, wait on) = move w i d rt (told_to_wait on)
after_admit w i d (rt, fail error) = move w i d rt (refused (task_failed error))

unfoldable pub after_finish : World → ℕ → Driver → BodyEnd → Option (List ℕ) → World
after_finish w i d e none = move w i d w.runtime (finished e)
after_finish w i d e (some tokens) = w

abbrev pub if_queued : Ticket → Runtime → Runtime → Runtime
if_queued ticket rt rt' = if ticket.queued then rt' else rt

unfoldable pub go_on : Phase → World → ℕ → Driver → Bool → ℕ → World
unfolding after_admit after_finish outcome end_state
go_on admitting w i d c wall = after_admit w i d (admit_round w.runtime d.requires d.ticket)
go_on (told_to_wait on) w i d c wall = move w i d (set_queued w.runtime d.id on) waiting
go_on waiting w i d c wall = w
go_on placed w i d c wall = move w i d (set_state w.runtime d.id running) body
go_on (refused error) w i d c wall =
    move w i d (if_queued d.ticket w.runtime (leave_queue w.runtime d.ticket)) (left error)
go_on (left error) w i d c wall = move w i d (settle w.runtime d.id (state_of error) wall) done
go_on body w i d c wall = w
go_on body_cancelling w i d c wall = w
go_on (joined e) w i d c wall =
    move w i d (if_queued d.ticket w.runtime (give_back w.runtime d.ticket.scope)) (finishing e)
go_on (finishing e) w i d c wall = after_finish w i d e (finish_children w.runtime d.id)
go_on (finished e) w i d c wall =
    move w i d (settle w.runtime d.id (end_state (outcome e c)) wall) done
go_on done w i d c wall = w

unfoldable pub wake : Phase → World → ℕ → Driver → World
wake waiting w i d = move w i d w.runtime admitting
wake _ w i d = w

unfoldable pub see_cancelled : Phase → World → ℕ → Driver → World
see_cancelled waiting w i d = move w i d w.runtime (refused task_cancelled)
see_cancelled body w i d = move w i d (set_state w.runtime d.id cancelling) body_cancelling
see_cancelled _ w i d = w

unfoldable pub end_body : Phase → World → ℕ → Driver → BodyEnd → World
end_body body w i d e = move w i d w.runtime (joined e)
end_body body_cancelling w i d e = move w i d w.runtime (joined e)
end_body _ w i d e = w

unfoldable pub new_driver : Submission → Ticket → Driver
new_driver s ticket = record {
  id = s.id;
  requires = s.requires;
  ticket = ticket;
  phase = admitting;
}

unfoldable pub submit : World → Submission → World
unfolding new_driver
submit w s =
    let (rt, ticket) = start w.runtime s in
    record { runtime = rt; drivers = w.drivers ++ new_driver s ticket ∷ [] }

abbrev pub with_runtime : World → Runtime → World
with_runtime w rt = record w { runtime = rt }

abbrev pub on_driver : World → ℕ → (Driver → World) → World
on_driver w i f = elim (get_elem? w.drivers i) [ none ↦ w | some d ↦ f d ]

unfoldable pub step : World → Action → World
unfolding go_on wake see_cancelled end_body submit
step w (submits s) = submit w s
step w (goes_on i c wall) = on_driver w i (λ d. go_on d.phase w i d c wall)
step w (wakes i) = on_driver w i (λ d. wake d.phase w i d)
step w (sees_cancelled i) = on_driver w i (λ d. see_cancelled d.phase w i d)
step w (ends i e) = on_driver w i (λ d. end_body d.phase w i d e)
step w (reports id progress now) = with_runtime w (report_progress w.runtime id progress now).0
step w (flushes id now) = with_runtime w (flush_progress w.runtime id now)
step w (adds_resource id s) = with_runtime w (add_resource w.runtime id s)
step w (moves_resource id s) = with_runtime w (set_resource_state w.runtime id s)
step w (readies_resource id v) = with_runtime w (set_resource_ready w.runtime id v)

unfoldable pub init : Config → World
init c = record { runtime = Runtime.new c; drivers = [] }

unfoldable pub run : World → List Action → World
run w [] = w
run w (a ∷ rest) = run (step w a) rest
