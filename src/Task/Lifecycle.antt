-- ===== src/Task/Lifecycle.antt =====
-- The rest of `Runtime` of src/task/runtime.rs: how a task enters the registry, changes its state,
-- reports progress, settles and is evicted. `now` is the clock of `Instant`, `wall` that of
-- `SystemTime`. `remove_subtree` takes as fuel one more than there are tasks.
use mathlib.Core.List.{foldl}
use file_peeker.Base.{
  ℕ, zero, suc, ◌-◌, Bool, true, false, ◌&&◌, not, Option, none, some, List, [], ◌∷◌, ◌++◌, ◌==◌,
  ltb, leb, if◌then◌else◌, lookup, modify, remove, length,
}
use file_peeker.Task.{state_changed, progressed, TaskState, queued, is_terminal, Progress}
use file_peeker.Task.Registry.{Entry}
use file_peeker.Task.Runtime.{Runtime, notify, send, with_registry}

abbrev pub with_tasks : Runtime → List (ℕ × Entry) → Runtime
with_tasks rt tasks = with_registry rt (record (rt.registry) { tasks = tasks })

abbrev pub set_entry_state : TaskState → Entry → Entry
set_entry_state state entry = record entry { info = record (entry.info) { state = state } }

abbrev queued_on : TaskState → Option ℕ → Bool
queued_on (queued none) none = true
queued_on (queued none) (some w) = false
queued_on (queued (some r)) none = false
queued_on (queued (some r)) (some w) = r == w
queued_on _ w = false

unfoldable pub set_queued : Runtime → ℕ → Option ℕ → Runtime
set_queued rt id waiting_on = elim (lookup id rt.tasks) [
  | none ↦ rt
  | some entry ↦
      if queued_on entry.info.state waiting_on
      then rt
      else send (state_changed id (queued waiting_on))
          (with_tasks rt (modify id (set_entry_state (queued waiting_on)) rt.tasks))
]

unfoldable pub set_state : Runtime → ℕ → TaskState → Runtime
set_state rt id state = elim (lookup id rt.tasks) [
  | none ↦ rt
  | some entry ↦
      send (state_changed id state) (with_tasks rt (modify id (set_entry_state state) rt.tasks))
]

-- Removes a task and its children, and theirs.
unfoldable pub remove_subtree_from : ℕ → List (ℕ × Entry) → ℕ → List (ℕ × Entry)
remove_subtree_from zero tasks id = tasks
remove_subtree_from (suc fuel) tasks id = elim (lookup id tasks) [
  | none ↦ tasks
  | some entry ↦ foldl (remove_subtree_from fuel) (remove id tasks) entry.children
]

unfoldable pub remove_subtree : List (ℕ × Entry) → ℕ → List (ℕ × Entry)
remove_subtree tasks id = remove_subtree_from (suc (length tasks)) tasks id

-- `while settled_roots.len() > retained_roots`.
unfoldable pub evict : ℕ → List ℕ → List (ℕ × Entry) → List ℕ × List (ℕ × Entry)
evict retained [] tasks = ([], tasks)
evict retained (oldest ∷ roots) tasks =
    let rest = evict retained roots (remove_subtree tasks oldest) in
    if ltb retained (length (oldest ∷ roots)) then rest else (oldest ∷ roots, tasks)

abbrev clear_pending : Entry → Entry
clear_pending entry = record entry { throttle = record (entry.throttle) { pending = false } }

abbrev settle_entry : TaskState → ℕ → Entry → Entry
settle_entry state wall entry = record entry {
  info = record (entry.info) { state = state; settled = some wall };
}

-- `saturating_sub(1)`.
abbrev pub child_settled : Entry → Entry
child_settled entry = record entry { live_children = entry.live_children - 1 }

-- The latest progress is sent before the end.
unfoldable pub flush_pending : Runtime → ℕ → Entry → Runtime
flush_pending rt id entry =
    if entry.throttle.pending
    then send (progressed id entry.info.progress) (with_tasks rt (modify id clear_pending rt.tasks))
    else rt

unfoldable pub settle_root : Runtime → ℕ → Runtime
unfolding evict
settle_root rt id =
    let (roots, tasks) = evict rt.config.retained_roots (rt.settled_roots ++ id ∷ []) rt.tasks in
    with_registry rt (record (rt.registry) { settled_roots = roots; tasks = tasks })

unfoldable pub leave_parent : Runtime → ℕ → Option ℕ → Runtime
unfolding settle_root
leave_parent rt id none = settle_root rt id
leave_parent rt id (some parent) = with_tasks rt (modify parent child_settled rt.tasks)

unfoldable pub settle : Runtime → ℕ → TaskState → ℕ → Runtime
unfolding flush_pending leave_parent
settle rt id state wall = elim (lookup id rt.tasks) [
  | none ↦ rt
  | some entry ↦
      let flushed = flush_pending rt id entry in
      let ended =
        send (state_changed id state)
          (with_tasks flushed (modify id (settle_entry state wall) flushed.tasks)) in
      notify (leave_parent ended id entry.info.parent)
]

-- How long after `last_sent` it is.
abbrev since : Option ℕ → ℕ → ℕ
since none now = 0
since (some last) now = now - last

abbrev is_due : Option ℕ → ℕ → ℕ → Bool
is_due none now interval = true
is_due (some last) now interval = leb interval (now - last)

abbrev sent_at : ℕ → Progress → Entry → Entry
sent_at now progress entry = record entry {
  info = record (entry.info) { progress = progress };
  throttle = record (entry.throttle) { last_sent = some now; pending = false };
}

abbrev held_back : Progress → Entry → Entry
held_back progress entry = record entry {
  info = record (entry.info) { progress = progress };
  throttle = record (entry.throttle) { pending = true; flush_scheduled = true };
}

-- The runtime, and how long a flush that this call spawns is to wait.
unfoldable pub report_progress : Runtime → ℕ → Progress → ℕ → Runtime × Option ℕ
report_progress rt id progress now = elim (lookup id rt.tasks) [
  | none ↦ (rt, none)
  | some entry ↦
      if is_terminal entry.info.state
      then (rt, none)
      else if is_due entry.throttle.last_sent now rt.config.progress_interval
      then (
        send (progressed id progress) (with_tasks rt (modify id (sent_at now progress) rt.tasks)),
        none,
      )
      else (
        with_tasks rt (modify id (held_back progress) rt.tasks),
        (if entry.throttle.flush_scheduled
            then none
            else some (rt.config.progress_interval - since entry.throttle.last_sent now)),
      )
]

abbrev flush_done : Entry → Entry
flush_done entry = record entry { throttle = record (entry.throttle) { flush_scheduled = false } }

abbrev flush_sent : ℕ → Entry → Entry
flush_sent now entry = record entry {
  throttle = record { last_sent = some now; pending = false; flush_scheduled = false };
}

unfoldable pub flush_progress : Runtime → ℕ → ℕ → Runtime
flush_progress rt id now = elim (lookup id rt.tasks) [
  | none ↦ rt
  | some entry ↦
      if entry.throttle.pending && not (is_terminal entry.info.state)
      then send (progressed id entry.info.progress)
          (with_tasks rt (modify id (flush_sent now) rt.tasks))
      else with_tasks rt (modify id flush_done rt.tasks)
]
