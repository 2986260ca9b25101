-- ===== src/Wire.antt =====
-- Tasks on the wire: src/server/tasks.rs turns a runtime's `TaskInfo` into the protocol's `Task`, and
-- src/client/tasks.rs turns that into the client's `TaskView`. The protocol's messages are those of
-- proto/file_peeker/client/v1/client.proto, whose Rust types the build generates.
pub mod Tests
pub mod RoundTrip
use Prim.Native.String.{String}
use text.Mathlib.Text.{◌==◌ as str_eq}
use file_peeker.Base.{
  ℕ, ◌-◌, ℤ, pos, negsuc, neg, Bool, true, false, not, Option, none, some, List, [], ◌∷◌, map,
  if◌then◌else◌, leb, ltb,
}
use file_peeker.Task.{
  TaskInfo, TaskState, queued, running, cancelling, succeeded, failed, cancelled, Measure,
  indeterminate, items, bytes, Operand, IoError,
}

-- The protocol's `TaskState`; an enum field may also hold a number that no case has.
pub data WireState : Type 0 where
  unspecified wire_queued wire_running wire_cancelling wire_succeeded wire_failed wire_cancelled :
      WireState
  unknown : ℕ → WireState

pub record Count : Type 0 where
  pub done : ℕ
  pub total : Option ℕ

pub data WireMeasure : Type 0 where
  wire_items : Count → WireMeasure
  wire_bytes : Count → WireMeasure

pub record WireProgress : Type 0 where
  pub phase : String
  pub measure : Option WireMeasure

pub record WireTask : Type 0 where
  pub id : String
  pub parent : String
  pub kind : String
  pub subject : List (String × String)
  pub state : WireState
  pub error : String
  pub waiting_on_resource : Bool
  pub progress : Option WireProgress
  pub submitted_unix_millis : ℤ
  pub settled_unix_millis : Option ℤ

abbrev pub or_default : Option String → String
or_default none = ""
or_default (some s) = s

abbrev pub is_some {ℓ} : {A : Type ℓ} → Option A → Bool
is_some none = false
is_some (some a) = true

unfoldable pub wire_measure : Measure → Option WireMeasure
wire_measure indeterminate = none
wire_measure (items d t) = some (wire_items (record { done = d; total = t }))
wire_measure (bytes d t) = some (wire_bytes (record { done = d; total = t }))

unfoldable pub wire_state : TaskState → WireState × String × Bool
wire_state (queued waiting_on) = (wire_queued, "", is_some waiting_on)
wire_state running = (wire_running, "", false)
wire_state cancelling = (wire_cancelling, "", false)
wire_state succeeded = (wire_succeeded, "", false)
wire_state (failed error) = (wire_failed, error.message, false)
wire_state cancelled = (wire_cancelled, "", false)

-- A `SystemTime` as the milliseconds after or before the epoch.
pub data UnixTime : Type 0 where
  after_epoch : ℕ → UnixTime
  before_epoch : ℕ → UnixTime

abbrev pub i64_max : ℕ
i64_max = 0x7fff_ffff_ffff_ffff

abbrev to_i64 : ℕ → ℕ
to_i64 n = if leb n i64_max then n else i64_max

unfoldable pub unix_millis : UnixTime → ℤ
unix_millis (after_epoch n) = pos (to_i64 n)
unix_millis (before_epoch n) = neg (to_i64 n)

module _ (uuid_text : ℕ → String) (at_time : ℕ → UnixTime) where
  abbrev parent_text : Option ℕ → String
  parent_text none = ""
  parent_text (some p) = uuid_text p

  abbrev settled_millis : Option ℕ → Option ℤ
  settled_millis none = none
  settled_millis (some t) = some (unix_millis (at_time t))

  -- `task_message`; `uuid_text` is the text of a UUID, and `at_time` places the clock's reading.
  unfoldable pub task_message : TaskInfo → WireTask
  unfolding wire_measure wire_state unix_millis
  task_message info = record {
    id = uuid_text info.id;
    parent = parent_text info.parent;
    kind = info.descriptor.kind;
    subject = map (λ (o : Operand). (o.name, o.value)) info.descriptor.subject;
    state = (wire_state info.state).0;
    error = (wire_state info.state).1;
    waiting_on_resource = (wire_state info.state).2;
    progress = some (record {
      phase = or_default info.progress.phase;
      measure = wire_measure info.progress.measure;
    });
    submitted_unix_millis = unix_millis (at_time info.submitted);
    settled_unix_millis = settled_millis info.settled;
  }

-- The client's own types.
pub data TaskStatus : Type 0 where
  status_queued : (on_resource : Bool) → TaskStatus
  status_running status_cancelling status_succeeded : TaskStatus
  status_failed : String → TaskStatus
  status_cancelled : TaskStatus

unfoldable pub is_terminal : TaskStatus → Bool
is_terminal status_succeeded = true
is_terminal (status_failed _) = true
is_terminal status_cancelled = true
is_terminal _ = false

pub record TaskView : Type 0 where
  pub id : String
  pub parent : Option String
  pub kind : String
  pub subject : List (String × String)
  pub status : TaskStatus
  pub phase : Option String
  pub measure : Measure
  pub submitted_unix_millis : ℤ

pub data TaskUpdate : Type 0 where
  snapshot : List TaskView → TaskUpdate
  changed : TaskView → TaskUpdate

view_status : WireState → Bool → String → TaskStatus
view_status wire_queued waiting error = status_queued waiting
view_status wire_running waiting error = status_running
view_status wire_cancelling waiting error = status_cancelling
view_status wire_succeeded waiting error = status_succeeded
view_status wire_failed waiting error = status_failed error
view_status wire_cancelled waiting error = status_cancelled
view_status unspecified waiting error = status_queued false
view_status (unknown n) waiting error = status_queued false

view_measure : Option WireMeasure → Measure
view_measure none = indeterminate
view_measure (some (wire_items c)) = items c.done c.total
view_measure (some (wire_bytes c)) = bytes c.done c.total

-- `Some(text).filter(|text| !text.is_empty())`.
abbrev pub non_empty : String → Option String
non_empty s = if str_eq s "" then none else some s

abbrev progress_or_default : Option WireProgress → WireProgress
progress_or_default none = record { phase = ""; measure = none }
progress_or_default (some p) = p

-- `TaskView::from`.
unfoldable pub task_view : WireTask → TaskView
unfolding view_status view_measure
task_view task = record {
  id = task.id;
  parent = non_empty task.parent;
  kind = task.kind;
  subject = task.subject;
  status = view_status task.state task.waiting_on_resource task.error;
  phase = non_empty (progress_or_default task.progress).phase;
  measure = view_measure (progress_or_default task.progress).measure;
  submitted_unix_millis = task.submitted_unix_millis;
}
