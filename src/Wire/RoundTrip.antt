-- ===== src/Wire/RoundTrip.antt =====
-- A task's way from src/server/tasks.rs to src/client/tasks.rs.
use Prim.Native.String.{String}
use text.Mathlib.Text.{◌==◌ as str_eq}
use text.Mathlib.TextEquality.{eq_iff}
use file_peeker.Base.{
  ℕ, ◌≡◌, ◌≢◌, refl, ap, ◌∙◌, Option, none, some, map, arith, Bool-cases, inl, inr,
}
use file_peeker.Task
use file_peeker.Task.{
  TaskInfo, TaskState, queued, running, cancelling, succeeded, failed, cancelled, Measure, Operand,
  Progress,
}
use file_peeker.Wire.{
  task_message, task_view, TaskView, TaskStatus, status_queued, status_running, status_cancelling,
  status_succeeded, status_failed, status_cancelled, is_terminal, view_status, view_measure,
  wire_state, wire_measure, non_empty, is_some, or_default, parent_text, UnixTime, unix_millis,
}

-- What a client is to see of a state.
pub status_of : TaskState → TaskStatus
status_of (queued waiting_on) = status_queued (is_some waiting_on)
status_of running = status_running
status_of cancelling = status_cancelling
status_of succeeded = status_succeeded
status_of (failed error) = status_failed error.message
status_of cancelled = status_cancelled

abbrev map_text : (ℕ → String) → Option ℕ → Option String
map_text f none = none
map_text f (some n) = some (f n)

-- What a client is to see of a task.
pub view_of : (ℕ → String) → (ℕ → UnixTime) → TaskInfo → TaskView
unfolding status_of
view_of uuid_text at_time info = record {
  id = uuid_text info.id;
  parent = map_text uuid_text info.parent;
  kind = info.descriptor.kind;
  subject = map (λ (o : Operand). (o.name, o.value)) info.descriptor.subject;
  status = status_of info.state;
  phase = info.progress.phase;
  measure = info.progress.measure;
  submitted_unix_millis = unix_millis (at_time info.submitted);
}

view_status-wire_state :
    (s : TaskState) → view_status (wire_state s).0 (wire_state s).2 (wire_state s).1 ≡ status_of s
unfolding view_status wire_state status_of
view_status-wire_state s = ground arith

view_measure-wire_measure : (m : Measure) → view_measure (wire_measure m) ≡ m
unfolding view_measure wire_measure
view_measure-wire_measure m = ground arith

-- An empty text is absent on the wire.
non_empty_lem : (s : String) → s ≢ "" → non_empty s ≡ some s
non_empty_lem s h = elim (Bool-cases (str_eq s "")) [
  | inl e ↦ absurd (h ((eq_iff s "").0 e))
  | inr e ↦ rw (e) refl
]

non_empty-or_default :
    (phase : Option String) → phase ≢ some "" → non_empty (or_default phase) ≡ phase
non_empty-or_default none h = refl
non_empty-or_default (some s) h = non_empty_lem s (λ e. h (ap some e))

non_empty-parent :
    (uuid_text : ℕ → String) (at_time : ℕ → UnixTime)
    → ((n : ℕ) → uuid_text n ≢ "")
    → (parent : Option ℕ)
    → non_empty (parent_text uuid_text at_time parent) ≡ map_text uuid_text parent
non_empty-parent uuid_text at_time h none = refl
non_empty-parent uuid_text at_time h (some n) = non_empty_lem (uuid_text n) (h n)

-- A client sees a task's state, progress, operands and parent as the runtime has them, if the text of
-- a UUID is never empty and the task does not report an empty phase.
pub task_view-task_message :
    (uuid_text : ℕ → String) (at_time : ℕ → UnixTime) (info : TaskInfo)
    → ((n : ℕ) → uuid_text n ≢ "")
    → info.progress.phase ≢ some ""
    → task_view (task_message uuid_text at_time info) ≡ view_of uuid_text at_time info
unfolding task_view task_message view_of
task_view-task_message uuid_text at_time info h p =
    rw
      (
        non_empty-parent uuid_text at_time h info.parent,
        view_status-wire_state info.state,
        view_measure-wire_measure info.progress.measure,
        non_empty-or_default info.progress.phase p,
      )
      refl

settled_state : (s : TaskState) → is_terminal (status_of s) ≡ Task.is_terminal s
unfolding is_terminal status_of Task.is_terminal
settled_state s = ground arith

-- From the message that it is sent, a client takes a task for settled exactly when the runtime does.
pub is_terminal-task_message :
    (uuid_text : ℕ → String) (at_time : ℕ → UnixTime) (info : TaskInfo)
    → is_terminal (task_view (task_message uuid_text at_time info)).status
      ≡ Task.is_terminal info.state
unfolding task_view task_message
is_terminal-task_message uuid_text at_time info =
    ap is_terminal (view_status-wire_state info.state) ∙ settled_state info.state
