-- ===== src/Task/Start.antt =====
-- `submit`, `submit_child`, `cancel`, `cancel_all`, `finish_children`, `idle` and the snapshot of
-- src/task/runtime.rs.
use file_peeker.Base.{
  ℕ, suc, Bool, true, false, ◌&&◌, ◌||◌, not, Option, none, some, List, [], ◌∷◌, ◌++◌, ◌==◌, leb,
  if◌then◌else◌, lookup, modify, insert, map,
}
use file_peeker.Task.{
  TaskInfo, TaskDescriptor, submitted, queued, is_terminal, default_progress, cap,
}
use file_peeker.Task.Registry.{Entry, default_throttle, Registry, at_scope, Ticket}
use file_peeker.Task.Runtime.{Runtime, send, with_registry, set_insert}

abbrev pub or_empty : Option (List ℕ) → List ℕ
or_empty none = []
or_empty (some queue) = queue

abbrev head : List ℕ → Option ℕ
head [] = none
head (r ∷ rs) = some r

abbrev pub is_some : Option ℕ → Bool
is_some none = false
is_some (some n) = true

abbrev is_none : Option ℕ → Bool
is_none none = true
is_none (some n) = false

abbrev add_child : ℕ → Entry → Entry
add_child id entry = record entry {
  children = entry.children ++ id ∷ [];
  live_children = suc entry.live_children;
}

abbrev pub enqueue : Registry → Ticket → Registry
enqueue reg ticket =
    if ticket.queued
    then record reg {
      queues =
          at_scope ticket.scope (some (set_insert ticket.seq (or_empty (reg.queues ticket.scope))))
            reg.queues;
    }
    else reg

abbrev with_child : List (ℕ × Entry) → Option ℕ → ℕ → List (ℕ × Entry)
with_child tasks none id = tasks
with_child tasks (some parent) id = modify parent (add_child id) tasks

-- What `start` is given, and what it makes: the new task's UUID, its token and the time.
pub record Submission : Type 0 where
  pub id : ℕ
  pub parent : Option ℕ
  pub descriptor : TaskDescriptor
  pub requires : List ℕ
  pub token : ℕ
  pub wall : ℕ

unfoldable pub info_of : Submission → TaskInfo
info_of s = record {
  id = s.id;
  parent = s.parent;
  descriptor = s.descriptor;
  submitted = s.wall;
  settled = none;
  state = queued none;
  progress = default_progress;
}

unfoldable pub ticket_of : Runtime → Submission → Ticket
ticket_of rt s = record {
  seq = rt.next_seq;
  scope = record { class = s.descriptor.admission; resource = head s.requires };
  queued = is_none s.parent && is_some (cap rt.config s.descriptor.admission);
}

unfoldable pub entry_of : Runtime → Submission → Entry
unfolding info_of
entry_of rt s = record {
  seq = rt.next_seq;
  info = info_of s;
  children = [];
  live_children = 0;
  token = s.token;
  throttle = default_throttle;
}

-- The critical section of `start`, and the ticket that its driver is given.
unfoldable pub start : Runtime → Submission → Runtime × Ticket
unfolding ticket_of entry_of
start rt s =
    let ticket = ticket_of rt s in
    let reg = enqueue (record (rt.registry) { next_seq = suc rt.next_seq }) ticket in
    (
      send (submitted (info_of s)) (
          with_registry rt (record reg {
            tasks = insert s.id (entry_of rt s) (with_child rt.tasks s.parent s.id);
          })),
      ticket,
    )

abbrev unsettled : Entry → Bool
unsettled entry = not (is_terminal entry.info.state)

-- The tokens that a call of `cancel` cancels.
unfoldable pub cancel : Runtime → ℕ → List ℕ
cancel rt id = elim (lookup id rt.tasks) [
  | none ↦ []
  | some entry ↦ if unsettled entry then entry.token ∷ [] else []
]

unsettled_tokens : List (ℕ × Entry) → List ℕ
unsettled_tokens [] = []
unsettled_tokens ((id, entry) ∷ tasks) =
    let rest = unsettled_tokens tasks in if unsettled entry then entry.token ∷ rest else rest

unfoldable pub cancel_all : Runtime → List ℕ
unfolding unsettled_tokens
cancel_all rt = unsettled_tokens rt.tasks

any_unsettled : List (ℕ × Entry) → Bool
any_unsettled [] = false
any_unsettled ((id, entry) ∷ tasks) = unsettled entry || any_unsettled tasks

-- The check of the loop of `idle`: whether it returns.
unfoldable pub is_idle : Runtime → Bool
unfolding any_unsettled
is_idle rt = not (any_unsettled rt.tasks)

children_tokens : List (ℕ × Entry) → List ℕ → List ℕ
children_tokens tasks [] = []
children_tokens tasks (child ∷ children) =
    let rest = children_tokens tasks children in
    elim (lookup child tasks) [
      | none ↦ rest
      | some entry ↦ if unsettled entry then entry.token ∷ rest else rest
    ]

-- One round of the loop of `finish_children`: `none` when it returns, and otherwise the tokens that
-- it cancels before it waits.
unfoldable pub finish_children : Runtime → ℕ → Option (List ℕ)
unfolding children_tokens
finish_children rt id = elim (lookup id rt.tasks) [
  | none ↦ none
  | some entry ↦
      if entry.live_children == 0 then none else some (children_tokens rt.tasks entry.children)
]

-- `sort_by_key(seq)`: a stable sort.
insert_by_seq : Entry → List Entry → List Entry
insert_by_seq e [] = e ∷ []
insert_by_seq e (f ∷ es) =
    let rest = insert_by_seq e es in if leb e.seq f.seq then e ∷ f ∷ es else f ∷ rest

sort_by_seq : List Entry → List Entry
unfolding insert_by_seq
sort_by_seq [] = []
sort_by_seq (e ∷ es) = insert_by_seq e (sort_by_seq es)

-- Every retained task, in submission order.
unfoldable pub snapshot : Runtime → List TaskInfo
unfolding sort_by_seq
snapshot rt = map (λ e. e.info) (sort_by_seq (map (λ (e : ℕ × Entry). e.1) rt.tasks))

unfoldable pub task : Runtime → ℕ → Option TaskInfo
task rt id = elim (lookup id rt.tasks) [ none ↦ none | some entry ↦ some entry.info ]
