-- ===== src/Task/Runtime.antt =====
-- `Runtime` of src/task/runtime.rs: its resources, its admission, and its queues. Each function here
-- is one critical section of the registry's lock, with the events that it sends and the calls of
-- `notify_waiters` that it makes. What `sent` holds is the broadcast channel's history.
use file_peeker.Base.{
  ℕ, suc, ◌-◌, Bool, false, ◌&&◌, Option, none, some, List, [], ◌∷◌, ◌++◌, ◌==◌, ltb, if◌then◌else◌,
}
use file_peeker.Task.{
  TaskEvent, Config, cap, IoError, not_connected, not_found, ResourceState, pending, ready, closing,
  gone,
}
use file_peeker.Task.Registry.{Scope, Resource, Registry, empty_registry, at_scope, Ticket}

pub record Runtime : Type 0 where
  pub config : Config
  pub registry : Registry
  pub open registry use *
  pub sent : List TaskEvent
  pub notified : ℕ

unfoldable pub new : Config → Runtime
new c = record { config = c; registry = empty_registry; sent = []; notified = 0 }

abbrev pub notify : Runtime → Runtime
notify rt = record rt { notified = suc rt.notified }

abbrev pub send : TaskEvent → Runtime → Runtime
send event rt = record rt { sent = rt.sent ++ event ∷ [] }

abbrev pub with_registry : Runtime → Registry → Runtime
with_registry rt reg = record rt { registry = reg }

abbrev at_resource : ℕ → Option Resource → (ℕ → Option Resource) → ℕ → Option Resource
at_resource r v f q = if r == q then v else f q

-- `id` is the new resource's UUID.
unfoldable pub add_resource : Runtime → ℕ → ResourceState → Runtime
add_resource rt id state = notify (
    with_registry rt (record (rt.registry) {
      resources = at_resource id (some (record { state = state; value = none })) rt.resources;
    }))

-- Leaving `Ready` drops the value.
change_state : ResourceState → Resource → Resource
change_state ready r = record r { state = ready }
change_state s r = record { state = s; value = none }

unfoldable pub set_resource_state : Runtime → ℕ → ResourceState → Runtime
unfolding change_state
set_resource_state rt id state = notify (elim (rt.resources id) [
  | none ↦ rt
  | some r ↦ with_registry rt (record (rt.registry) {
    resources = at_resource id (some (change_state state r)) rt.resources;
  })
])

unfoldable pub set_resource_ready : Runtime → ℕ → ℕ → Runtime
set_resource_ready rt id value = notify (elim (rt.resources id) [
  | none ↦ rt
  | some r ↦ with_registry rt (record (rt.registry) {
    resources = at_resource id (some (record { state = ready; value = some value })) rt.resources;
  })
])

value_if_ready : ResourceState → Option ℕ → Option ℕ
value_if_ready ready value = value
value_if_ready _ value = none

unfoldable pub resource_value : Runtime → ℕ → Option ℕ
unfolding value_if_ready
resource_value rt id = elim (rt.resources id) [
  | none ↦ none
  | some r ↦ value_if_ready r.state r.value
]

-- A `BTreeSet<u64>` is its members in increasing order.
unfoldable pub set_insert : ℕ → List ℕ → List ℕ
set_insert x [] = x ∷ []
set_insert x (y ∷ ys) =
    let rest = set_insert x ys in
    if ltb x y then x ∷ y ∷ ys else if x == y then y ∷ ys else y ∷ rest

unfoldable pub set_remove : ℕ → List ℕ → List ℕ
set_remove x [] = []
set_remove x (y ∷ ys) = let rest = set_remove x ys in if x == y then ys else y ∷ rest

abbrev pub first : Option (List ℕ) → Option ℕ
first none = none
first (some []) = none
first (some (x ∷ xs)) = some x

pub data Admission : Type 0 where
  admit : Admission
  wait : Option ℕ → Admission
  fail : IoError → Admission

abbrev pub or_zero : Option ℕ → ℕ
or_zero none = 0
or_zero (some n) = n

abbrev pub admitted_in : Registry → Scope → ℕ
admitted_in reg scope = or_zero (reg.admitted scope)

abbrev is_first : Option ℕ → ℕ → Bool
is_first none seq = false
is_first (some x) seq = x == seq

unfoldable pub admission_by_cap : Registry → Ticket → Option ℕ → Admission
admission_by_cap reg ticket none = admit
admission_by_cap reg ticket (some cap) =
    if ltb (admitted_in reg ticket.scope) cap
      && is_first (first (reg.queues ticket.scope)) ticket.seq
    then admit
    else wait none

unfoldable pub admission : Registry → List ℕ → Ticket → Option ℕ → Admission
unfolding admission_by_cap
admission reg [] ticket cap = admission_by_cap reg ticket cap
admission reg (resource ∷ requires) ticket cap = elim (reg.resources resource) [
  | none ↦
      fail (record { kind = not_found; message = "a resource this task requires does not exist" })
  | some r ↦ elim r.state [
    | ready ↦ admission reg requires ticket cap
    | pending ↦ wait (some resource)
    | closing ↦ wait (some resource)
    | gone ↦
        fail (record { kind = not_connected; message = "a resource this task requires is gone" })
  ]
]

-- An empty queue is taken out of the map.
abbrev pub none_if_empty : List ℕ → Option (List ℕ)
none_if_empty [] = none
none_if_empty (x ∷ xs) = some (x ∷ xs)

unfoldable pub dequeue : Registry → Ticket → Registry
dequeue reg ticket = elim (reg.queues ticket.scope) [
  | none ↦ reg
  | some queue ↦ record reg {
    queues = at_scope ticket.scope (none_if_empty (set_remove ticket.seq queue)) reg.queues;
  }
]

abbrev pub cap_of : Config → Ticket → Option ℕ
cap_of config ticket = if ticket.queued then cap config ticket.scope.class else none

-- Takes a place in the scope, and leaves its queue.
unfoldable pub take_place : Registry → Ticket → Registry
unfolding dequeue
take_place reg ticket =
    dequeue
      (record reg {
        admitted = at_scope ticket.scope (some (suc (admitted_in reg ticket.scope))) reg.admitted;
      })
      ticket

unfoldable pub apply_decision : Runtime → Ticket → Admission → Runtime
unfolding take_place
apply_decision rt ticket admit =
    if ticket.queued then notify (with_registry rt (take_place rt.registry ticket)) else rt
apply_decision rt ticket _ = rt

unfoldable pub decide : Runtime → List ℕ → Ticket → Admission
unfolding admission
decide rt requires ticket = admission rt.registry requires ticket (cap_of rt.config ticket)

-- One round of the loop of `admit`: the check under the lock, and the notification behind it.
unfoldable pub admit_round : Runtime → List ℕ → Ticket → Runtime × Admission
unfolding decide apply_decision
admit_round rt requires ticket =
    let decision = decide rt requires ticket in (apply_decision rt ticket decision, decision)

unfoldable pub leave_queue : Runtime → Ticket → Runtime
unfolding dequeue
leave_queue rt ticket = notify (with_registry rt (dequeue rt.registry ticket))

-- `Slot::drop`: gives the place back.
unfoldable pub give_back : Runtime → Scope → Runtime
give_back rt scope = notify (elim (rt.admitted scope) [
  | none ↦ rt
  | some n ↦
      with_registry rt
        (record (rt.registry) { admitted = at_scope scope (some (n - 1)) rt.admitted })
])
