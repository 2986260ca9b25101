-- ===== src/Task/Unchanged.antt =====
-- The critical sections of src/task/runtime.rs that are no part of admission.
use file_peeker.Base.{ℕ, ◌≡◌, Option, none, some, arith, Option}
use file_peeker.Task.{TaskState, Progress, ResourceState}
use file_peeker.Task.Registry.{Entry}
use file_peeker.Task.Runtime.{Runtime, add_resource, set_resource_state, set_resource_ready}
use file_peeker.Task.Lifecycle.{
  set_queued, set_state, settle, flush_pending, leave_parent, settle_root, report_progress,
  flush_progress,
}

pub record SameAdmission (rt rt' : Runtime) : Type 0 where
  pub same_config : rt'.config ≡ rt.config
  pub same_admitted : rt'.admitted ≡ rt.admitted
  pub same_queues : rt'.queues ≡ rt.queues
  pub same_seq : rt'.next_seq ≡ rt.next_seq

pub set_queued_same :
    (rt : Runtime) (id : ℕ) (on : Option ℕ) → SameAdmission rt (set_queued rt id on)
unfolding set_queued
set_queued_same rt id on = ground arith

pub set_state_same : (rt : Runtime) (id : ℕ) (s : TaskState) → SameAdmission rt (set_state rt id s)
unfolding set_state
set_state_same rt id s = ground arith

flush_pending_same : (rt : Runtime) (id : ℕ) (e : Entry) → SameAdmission rt (flush_pending rt id e)
unfolding flush_pending
flush_pending_same rt id e = ground arith

leave_parent_same : (rt : Runtime) (id : ℕ) (p : Option ℕ) → SameAdmission rt (leave_parent rt id p)
unfolding leave_parent settle_root
leave_parent_same rt id none = ground arith
leave_parent_same rt id (some p) = ground arith

pub settle_same :
    (rt : Runtime) (id : ℕ) (s : TaskState) (wall : ℕ) → SameAdmission rt (settle rt id s wall)
unfolding settle
settle_same rt id s wall = ground arith

pub report_progress_same :
    (rt : Runtime) (id : ℕ) (p : Progress) (now : ℕ)
    → SameAdmission rt (report_progress rt id p now).0
unfolding report_progress
report_progress_same rt id p now = ground arith

pub flush_progress_same : (rt : Runtime) (id now : ℕ) → SameAdmission rt (flush_progress rt id now)
unfolding flush_progress
flush_progress_same rt id now = ground arith

pub add_resource_same :
    (rt : Runtime) (id : ℕ) (s : ResourceState) → SameAdmission rt (add_resource rt id s)
unfolding add_resource
add_resource_same rt id s = ground arith

pub set_resource_state_same :
    (rt : Runtime) (id : ℕ) (s : ResourceState) → SameAdmission rt (set_resource_state rt id s)
unfolding set_resource_state
set_resource_state_same rt id s = ground arith

pub set_resource_ready_same :
    (rt : Runtime) (id value : ℕ) → SameAdmission rt (set_resource_ready rt id value)
unfolding set_resource_ready
set_resource_ready_same rt id value = ground arith
