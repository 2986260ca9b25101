-- ===== src/Tui/Machine.antt =====
-- One machine in the terminal client: `Machine`, `ConnectionEvent` and their types in src/tui/app.rs. An
-- `Instant` is a number of milliseconds, and `duration_since` stops at 0 as Rust's does.
pub mod Expiry
pub mod Order
use Prim.Native.String.{String}
use text.Mathlib.Text.{◌==◌ as str_eq}
use file_peeker.Base.{
  ℕ, ◌-◌, Bool, true, false, ◌||◌, Option, none, some, List, [], ◌∷◌, ◌++◌, if◌then◌else◌, ltb,
  leb_ℤ,
}
use file_peeker.Wire.{TaskView, TaskUpdate, snapshot, changed, is_terminal}

-- How long a settled task stays in the pane, in milliseconds.
abbrev pub settled_linger : ℕ
settled_linger = 5000

pub data Attention : Type 0 where
  not_installed : Attention
  incompatible : (found : String) → Attention
  needs_login : Attention

pub data ConnectionEvent : Type 0 where
  attaching starting : ConnectionEvent
  attached : (server_version : String) (pid : ℕ) → ConnectionEvent
  disconnected : (retry_at : ℕ) (reason : Option String) → ConnectionEvent
  needs_attention : Attention → (retry_at : ℕ) → ConnectionEvent
  tasks_event : TaskUpdate → ConnectionEvent

pub data MachineState : Type 0 where
  is_attaching is_starting : MachineState
  is_attached : (server_version : String) (pid : ℕ) → MachineState
  is_disconnected : (retry_at : ℕ) (reason : Option String) → MachineState
  in_need : Attention → (retry_at : ℕ) → MachineState

pub record Machine : Type 0 where
  pub label : String
  pub ssh : Option String
  pub state : MachineState
  pub tasks : List TaskView
  pub settled_at : String → Option ℕ

-- The map from task ids to times.
abbrev pub at_id : String → Option ℕ → (String → Option ℕ) → String → Option ℕ
at_id id v m j = if str_eq id j then v else m j

-- `tasks.iter().find(|held| held.id == id)`.
abbrev pub find : String → List TaskView → Option TaskView
find id [] = none
find id (t ∷ ts) = let rest = find id ts in if str_eq t.id id then some t else rest

-- `tasks.iter().any(|task| task.id == id)`.
abbrev pub any_task : String → List TaskView → Bool
any_task id [] = false
any_task id (t ∷ ts) = str_eq t.id id || any_task id ts

-- Since when a settled task of a snapshot has been seen settled; `none` is past its while.
abbrev pub since : Option TaskView → Option ℕ → ℕ → Option ℕ
since (some known) (some time) now = some time
since (some known) none now = if is_terminal known.status then none else some now
since none time now = none

abbrev pub or_insert : ℕ → Option ℕ → Option ℕ
or_insert now none = some now
or_insert now (some time) = some time

-- `match self.tasks.iter_mut().find(..)`: the first task of that id is replaced, or it is pushed.
unfoldable pub replace_task : TaskView → List TaskView → List TaskView
replace_task task [] = task ∷ []
replace_task task (t ∷ ts) =
    let rest = replace_task task ts in if str_eq t.id task.id then task ∷ ts else t ∷ rest

-- `sort_by_key`, a stable sort.
unfoldable pub sort_in : TaskView → List TaskView → List TaskView
sort_in t [] = t ∷ []
sort_in t (u ∷ us) =
    let rest = sort_in t us in
    if leb_ℤ t.submitted_unix_millis u.submitted_unix_millis then t ∷ u ∷ us else u ∷ rest

unfoldable pub sort_by_submitted : List TaskView → List TaskView
unfolding sort_in
sort_by_submitted [] = []
sort_by_submitted (t ∷ ts) = sort_in t (sort_by_submitted ts)

-- Whether a task has not lingered its while.
abbrev pub stays : ℕ → Option ℕ → Bool
stays now none = true
stays now (some time) = ltb (now - time) settled_linger

unfoldable pub retain : (String → Option ℕ) → ℕ → List TaskView → List TaskView
retain settled now [] = []
retain settled now (t ∷ ts) =
    let rest = retain settled now ts in if stays now (settled t.id) then t ∷ rest else rest

unfoldable pub expire : ℕ → Machine → Machine
unfolding retain
expire now m =
    let tasks = retain m.settled_at now m.tasks in
    record m {
      tasks = tasks;
      settled_at = λ id. if any_task id tasks then m.settled_at id else none;
    }

-- The loop over a snapshot, with the new map and the new list.
unfoldable pub take_snapshot :
    Machine
    → ℕ
    → List TaskView
    → (String → Option ℕ)
    → List TaskView
    → (String → Option ℕ) × List TaskView
take_snapshot m now [] settled shown = (settled, shown)
take_snapshot m now (t ∷ ts) settled shown = elim (is_terminal t.status) [
  | true ↦ elim (since (find t.id m.tasks) (m.settled_at t.id) now) [
    | none ↦ take_snapshot m now ts settled shown
    | some time ↦ take_snapshot m now ts (at_id t.id (some time) settled) (shown ++ t ∷ [])
  ]
  | false ↦ take_snapshot m now ts settled (shown ++ t ∷ [])
]

unfoldable pub updated : TaskUpdate → ℕ → Machine → Machine
unfolding take_snapshot replace_task
updated (snapshot tasks) now m =
    let result = take_snapshot m now tasks (λ id. none) [] in
    record m { tasks = result.1; settled_at = result.0 }
updated (changed task) now m = record m {
  tasks = replace_task task m.tasks;
  settled_at =
      if is_terminal task.status
      then at_id task.id (or_insert now (m.settled_at task.id)) m.settled_at
      else at_id task.id none m.settled_at;
}

unfoldable pub apply : TaskUpdate → ℕ → Machine → Machine
unfolding sort_by_submitted expire updated
apply update now m =
    let next = updated update now m in
    expire now (record next { tasks = sort_by_submitted next.tasks })

-- What an event other than a task update makes of the state.
abbrev pub state_after : ConnectionEvent → MachineState → MachineState
state_after attaching s = is_attaching
state_after starting s = is_starting
state_after (attached v p) s = is_attached v p
state_after (disconnected t r) s = is_disconnected t r
state_after (needs_attention a t) s = in_need a t
state_after (tasks_event u) s = s

unfoldable pub on_event : ConnectionEvent → ℕ → Machine → Machine
unfolding apply
on_event (tasks_event update) now m = apply update now m
on_event event now m = record m { state = state_after event m.state }
