-- ===== src/Task.antt =====
-- The task runtime's types: src/task/mod.rs, and `Config` of src/task/runtime.rs. A `Uuid` is a
-- number, and a time or a duration is its milliseconds.
pub mod Tests
pub mod Registry
pub mod Runtime
pub mod Lifecycle
pub mod Start
pub mod Driver
pub mod Unchanged
pub mod Places
pub mod Cap
pub mod Queue
pub mod Fifo
pub mod Scheduling
use Prim.Native.String.{String}
use file_peeker.Base.{ℕ, Bool, true, false, Option, none, some, List, [], ◌∷◌, ◌++◌}

-- The kinds of `io::Error` that the runtime makes or tells apart.
pub data ErrorKind : Type 0 where
  not_connected not_found interrupted already_exists permission_denied : ErrorKind
  not_a_directory is_a_directory other : ErrorKind

pub record IoError : Type 0 where
  pub kind : ErrorKind
  pub message : String

pub data AdmissionClass : Type 0 where
  interactive transfer background : AdmissionClass

pub data TaskState : Type 0 where
  queued : (waiting_on : Option ℕ) → TaskState
  running cancelling succeeded : TaskState
  failed : IoError → TaskState
  cancelled : TaskState

unfoldable pub is_terminal : TaskState → Bool
is_terminal succeeded = true
is_terminal (failed _) = true
is_terminal cancelled = true
is_terminal _ = false

pub data Measure : Type 0 where
  indeterminate : Measure
  items : (done : ℕ) (total : Option ℕ) → Measure
  bytes : (done : ℕ) (total : Option ℕ) → Measure

pub record Progress : Type 0 where
  pub phase : Option String
  pub measure : Measure

abbrev pub default_progress : Progress
default_progress = record { phase = none; measure = indeterminate }

pub record Operand : Type 0 where
  pub name : String
  pub value : String

pub record TaskDescriptor : Type 0 where
  pub kind : String
  pub subject : List Operand
  pub admission : AdmissionClass

-- `TaskDescriptor::new` and `with`.
unfoldable pub descriptor : String → AdmissionClass → TaskDescriptor
descriptor kind admission = record { kind = kind; subject = []; admission = admission }

unfoldable pub with_operand : TaskDescriptor → String → String → TaskDescriptor
with_operand d name value = record d {
  subject = d.subject ++ record { name = name; value = value } ∷ [];
}

pub record TaskInfo : Type 0 where
  pub id : ℕ
  pub parent : Option ℕ
  pub descriptor : TaskDescriptor
  pub submitted : ℕ
  pub settled : Option ℕ
  pub state : TaskState
  pub progress : Progress

pub data TaskEvent : Type 0 where
  submitted : TaskInfo → TaskEvent
  state_changed : (id : ℕ) (state : TaskState) → TaskEvent
  progressed : (id : ℕ) (progress : Progress) → TaskEvent

pub data ResourceState : Type 0 where
  pending ready closing gone : ResourceState

-- How a task that did not succeed ended: `TaskError` of src/task/handle.rs.
pub data TaskError : Type 0 where
  task_failed : IoError → TaskError
  task_cancelled : TaskError

unfoldable pub state_of : TaskError → TaskState
state_of (task_failed e) = failed e
state_of task_cancelled = cancelled

pub record Config : Type 0 where
  pub interactive_cap : Option ℕ
  pub transfer_cap : Option ℕ
  pub background_cap : Option ℕ
  pub retained_roots : ℕ
  pub progress_interval : ℕ
  pub item_buffer : ℕ
  pub event_buffer : ℕ

abbrev pub default_config : Config
default_config = record {
  interactive_cap = none;
  transfer_cap = some 2;
  background_cap = some 1;
  retained_roots = 256;
  progress_interval = 100;
  item_buffer = 16;
  event_buffer = 1024;
}

abbrev pub cap : Config → AdmissionClass → Option ℕ
cap c interactive = c.interactive_cap
cap c transfer = c.transfer_cap
cap c background = c.background_cap
