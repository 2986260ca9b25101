-- ===== src/Browser/Context/Tasks.antt =====
-- The listing tasks of old/src/tui/browser_context.rs and the expansions of its tree.
use file_peeker.Base.{
  ℕ, suc, ◌-◌, take, drop, ◌≡◌, refl, sym, ap, ◌∙◌, Bool, true, false, ◌||◌, Option, none, some,
  List, [], ◌∷◌, arith, ◌==◌, if◌then◌else◌, inl, inr, Bool-cases, lookup, insert, remove,
  lookup-insert, lookup-remove, get_elem?,
}
use file_peeker.Browser.{Row, Expansion, collapsed, loading, expanded, failed, deeper}
use file_peeker.Browser.Tree.{
  Tree, Placement, map_values, drop_requests, begin_at, begin_expansion, collapse_at, collapse,
  subtree_end, request_ids, after_removal, underflows, reroot, restart,
}
use file_peeker.Browser.Context.{Context}
use file_peeker.Browser.Context.Listing.{
  without, aborted_all, started, start_directory_listing, closed, collapse_directory, toggle_as,
  toggle_row, toggle_directory, activate_row, activate_at, enter_row, change_root_path,
  start_root_listing, abort_tree_listings, wrapping_next,
}

abbrev pub is_some : Option Placement → Bool
is_some none = false
is_some (some p) = true

abbrev pub running : ℕ → List ℕ → Bool
running id [] = false
running id (task ∷ tasks) = task == id || running id tasks

-- The requests in flight are those that have a task.
abbrev pub Answered : List (ℕ × Placement) → List ℕ → Type 0
Answered m tasks = (id : ℕ) → is_some (lookup id m) ≡ running id tasks

running-without :
    (id k : ℕ) (tasks : List ℕ)
    → running k (without id tasks) ≡ (if id == k then false else running k tasks)
running-without id k [] = ground arith
running-without id k (task ∷ tasks) = ground (arith, running-without id k tasks)

insert-Answered :
    (id : ℕ) (p : Placement) (m : List (ℕ × Placement)) (tasks : List ℕ)
    → Answered m tasks
    → Answered (insert id p m) (id ∷ without id tasks)
insert-Answered id p m tasks a k =
    ground (arith, lookup-insert id k p m, running-without id k tasks, a k)

pub remove-Answered :
    (id : ℕ) (m : List (ℕ × Placement)) (tasks : List ℕ)
    → Answered m tasks
    → Answered (remove id m) (without id tasks)
remove-Answered id m tasks a k =
    ground (arith, lookup-remove id k m, running-without id k tasks, a k)

absent-Answered :
    (id : ℕ) (m : List (ℕ × Placement)) (tasks : List ℕ)
    → Answered m tasks
    → lookup id m ≡ none
    → Answered (remove id m) tasks
absent-Answered id m tasks a h k = elim (Bool-cases (id == k)) [
  | inl u ↦
      let same : id ≡ k = ground arith in
      let none_left : is_some (lookup k m) ≡ false =
        ap (λ j. is_some (lookup j m)) (sym same) ∙ ap is_some h in
      ground (arith, lookup-remove id k m, a k)
  | inr u ↦ ground (arith, lookup-remove id k m, a k)
]

pub map_values-Answered :
    (f : Placement → Placement) (m : List (ℕ × Placement)) (tasks : List ℕ)
    → Answered m tasks
    → Answered (map_values f m) tasks
map_values-Answered f m tasks a k = mapped m ∙ a k
  where
    mapped : (m : List (ℕ × Placement)) → is_some (lookup k (map_values f m)) ≡ is_some (lookup k m)
    mapped [] = refl
    mapped ((j, p) ∷ m) = ground (arith, mapped m)

dropping :
    (id : ℕ) (m : List (ℕ × Placement)) (tasks : List ℕ) (rest : List (ℕ × Placement) × List ℕ)
    (o : Option Placement)
    → lookup id m ≡ o
    → Answered m tasks
    → ((left : List ℕ) → Answered (remove id m) left → Answered rest.0 (aborted_all rest.1 left))
    → Answered
        (elim o as (λ x. List (ℕ × Placement) × List ℕ) [
          | none ↦ rest
          | some p ↦ (rest.0, id ∷ rest.1)
        ]).0
        (aborted_all
          (elim o as (λ x. List (ℕ × Placement) × List ℕ) [
            | none ↦ rest
            | some p ↦ (rest.0, id ∷ rest.1)
          ]).1
          tasks)
dropping id m tasks rest none h a f = f tasks (absent-Answered id m tasks a h)
dropping id m tasks rest (some p) h a f = f (without id tasks) (remove-Answered id m tasks a)

drop_requests-Answered :
    (ids : List ℕ) (m : List (ℕ × Placement)) (tasks : List ℕ)
    → Answered m tasks
    → Answered (drop_requests ids m).0 (aborted_all (drop_requests ids m).1 tasks)
unfolding drop_requests
drop_requests-Answered [] m tasks a = a
drop_requests-Answered (id ∷ ids) m tasks a =
    dropping id m tasks (drop_requests ids (remove id m)) (lookup id m) refl a
      (λ left b. drop_requests-Answered ids (remove id m) left b)

abbrev pub HasTasks : Context → Type 0
HasTasks c = Answered c.tree.placements c.listing_tasks

-- Of a result, if there is one.
abbrev pub Kept : Option Context → Type 0
Kept none = Unit
Kept (some c) = HasTasks c

pub empty-Answered : Answered [] []
empty-Answered id = refl

pub root-HasTasks : (c : Context) → HasTasks (start_root_listing c)
unfolding start_root_listing restart abort_tree_listings
root-HasTasks c = empty-Answered

begin-Kept :
    (c : Context) (index id : ℕ) (o : Option Row)
    → HasTasks c
    → Kept (started c id (begin_at c.tree index id o))
unfolding started begin_at
begin-Kept c index id none a = tt
begin-Kept c index id (some row) a =
    insert-Answered id (record { parent = index; depth = deeper row.depth; insertion = suc index })
      c.tree.placements c.listing_tasks a

-- A collapse that does not panic.
unless-Kept :
    (c : Context) (panics : Bool) (t : Tree) (ids : List ℕ)
    → Answered t.placements (aborted_all ids c.listing_tasks)
    → Kept (closed c (if panics then none else some (t, ids)))
unfolding closed
unless-Kept c true t ids a = tt
unless-Kept c false t ids a = a

collapse-Kept :
    (c : Context) (index : ℕ) (o : Option Row)
    → HasTasks c
    → Kept (closed c (collapse_at c.tree index o))
unfolding closed collapse_at
collapse-Kept c index none a = tt
collapse-Kept c index (some row) a =
    let end = subtree_end c.tree.rows index row.depth in
    let ids = request_ids (take (end - index) (drop index c.tree.rows)) in
    let dropped = drop_requests ids c.tree.placements in
    unless-Kept c (underflows (suc index) end dropped.0 dropped.0) _ dropped.1 (
      map_values-Answered (after_removal (suc index) end) dropped.0
        (aborted_all dropped.1 c.listing_tasks)
        (drop_requests-Answered ids c.tree.placements c.listing_tasks a))

toggle_as-Kept : (c : Context) (index : ℕ) (e : Expansion) → HasTasks c → Kept (toggle_as c index e)
unfolding toggle_as start_directory_listing collapse_directory begin_expansion collapse
toggle_as-Kept c index collapsed a =
    begin-Kept c index (wrapping_next c.next_request_id) (get_elem? c.tree.rows index) a
toggle_as-Kept c index (loading id) a = collapse-Kept c index (get_elem? c.tree.rows index) a
toggle_as-Kept c index (expanded id) a = collapse-Kept c index (get_elem? c.tree.rows index) a
toggle_as-Kept c index (failed id error) a = collapse-Kept c index (get_elem? c.tree.rows index) a

pub toggle_row-Kept :
    (c : Context) (index : ℕ) (o : Option Row) → HasTasks c → Kept (toggle_row c index o)
unfolding toggle_row
toggle_row-Kept c index none a = tt
toggle_row-Kept c index (some row) a = toggle_as-Kept c index row.expansion a

activate_row-Kept :
    (c : Context) (index : ℕ) (o : Option Row) → HasTasks c → Kept (activate_row c index o)
unfolding activate_row toggle_directory
activate_row-Kept c index none a = tt
activate_row-Kept c index (some row) a = elim (Bool-cases row.entry.navigable) [
  | inl u ↦ rw (u) (toggle_row-Kept c index (get_elem? c.tree.rows index) a)
  | inr u ↦ rw (u) a
]

pub activate_at-Kept : (c : Context) (o : Option ℕ) → HasTasks c → Kept (activate_at c o)
unfolding activate_at
activate_at-Kept c none a = a
activate_at-Kept c (some index) a = activate_row-Kept c index (get_elem? c.tree.rows index) a

pub enter_row-Kept : (c : Context) (o : Option Row) → HasTasks c → HasTasks (enter_row c o)
unfolding enter_row change_root_path
enter_row-Kept c none a = a
enter_row-Kept c (some row) a = elim (Bool-cases row.entry.navigable) [
  | inl u ↦ rw (u) (root-HasTasks (record c { tree = reroot c.tree row.path; viewport_offset = 0 }))
  | inr u ↦ rw (u) a
]
