-- ===== src/Browser/Context/Listing.antt =====
-- The listings of old/src/tui/browser_context.rs: which are running, and what their results do to the tree.
use Prim.Native.String.{String}
use file_peeker.Base.{
  ℕ, suc, ◌%◌, ◌^◌, true, false, ◌&&◌, Option, none, some, List, [], ◌∷◌, if◌then◌else◌, ◌==◌,
  get_elem?, ok, err,
}
use file_peeker.PathString.{PathString}
use file_peeker.Browser.{Row, DirectoryEntry, Expansion, collapsed, loading, expanded, failed}
use file_peeker.Browser.Tree.{
  Tree, new, reroot, restart, extend_root, finish_root, extend_child, finish_child, expanding_path,
  effective_selection, selected_row, begin_expansion, collapse,
}
use file_peeker.Browser.Context.{Context}

pub data ListingTarget : Type 0 where
  root : ListingTarget
  directory : (parent_path : PathString) (request_id : ℕ) → ListingTarget

pub data ListingResult : Type 0 where
  entries : (group : List DirectoryEntry) → ListingResult
  finished : ListingResult
  refused : (error : String) → ListingResult

pub record ContextEvent : Type 0 where
  pub context_id : ℕ
  pub generation : ℕ
  pub target : ListingTarget
  pub result : ListingResult

-- `wrapping_add(1)` of a `u64`.
abbrev pub wrapping_next : ℕ → ℕ
wrapping_next n = suc n % 2 ^ 64

abbrev pub without : ℕ → List ℕ → List ℕ
without id [] = []
without id (task ∷ tasks) = let rest = without id tasks in if task == id then rest else task ∷ rest

unfoldable pub abort_tree_listings : Context → Context
abort_tree_listings c = record c { root_listing_task = false; listing_tasks = [] }

unfoldable pub start_root_listing : Context → Context
unfolding abort_tree_listings restart
start_root_listing c =
    let aborted = abort_tree_listings c in
    record aborted {
      tree = restart aborted.tree;
      generation = wrapping_next aborted.generation;
      root_listing_task = true;
    }

unfoldable pub new_context : ℕ → PathString → Context
unfolding start_root_listing new
new_context id root_path = start_root_listing (record {
  id = id;
  tree = new root_path;
  filter = none;
  viewport_offset = 0;
  viewport_height = 0;
  root_listing_task = false;
  listing_tasks = [];
  generation = 0;
  next_request_id = 0;
})

unfoldable pub refresh : Context → Context
unfolding start_root_listing
refresh c = start_root_listing c

unfoldable pub change_root_path : Context → PathString → Context
unfolding reroot start_root_listing
change_root_path c root_path =
    start_root_listing (record c { tree = reroot c.tree root_path; viewport_offset = 0 })

unfoldable pub cancel : Context → Context
unfolding abort_tree_listings
cancel c = abort_tree_listings (record c { generation = wrapping_next c.generation })

-- A new task answers the request, in place of one that has its number.
unfoldable pub started : Context → ℕ → Option (Tree × PathString) → Option Context
started c id none = none
started c id (some (t, path)) =
    some
      (record c { tree = t; next_request_id = id; listing_tasks = id ∷ without id c.listing_tasks })

unfoldable pub start_directory_listing : Context → ℕ → Option Context
unfolding started begin_expansion
start_directory_listing c index =
    let id = wrapping_next c.next_request_id in started c id (begin_expansion c.tree index id)

abbrev pub aborted_all : List ℕ → List ℕ → List ℕ
aborted_all [] tasks = tasks
aborted_all (id ∷ ids) tasks = aborted_all ids (without id tasks)

unfoldable pub closed : Context → Option (Tree × List ℕ) → Option Context
closed c none = none
closed c (some (t, ids)) =
    some (record c { tree = t; listing_tasks = aborted_all ids c.listing_tasks })

unfoldable pub collapse_directory : Context → ℕ → Option Context
unfolding closed collapse
collapse_directory c index = closed c (collapse c.tree index)

unfoldable pub toggle_as : Context → ℕ → Expansion → Option Context
unfolding start_directory_listing collapse_directory
toggle_as c index collapsed = start_directory_listing c index
toggle_as c index (loading id) = collapse_directory c index
toggle_as c index (expanded id) = collapse_directory c index
toggle_as c index (failed id error) = collapse_directory c index

unfoldable pub toggle_row : Context → ℕ → Option Row → Option Context
unfolding toggle_as
toggle_row c index none = none
toggle_row c index (some row) = toggle_as c index row.expansion

unfoldable pub toggle_directory : Context → ℕ → Option Context
unfolding toggle_row
toggle_directory c index = toggle_row c index (get_elem? c.tree.rows index)

unfoldable pub activate_row : Context → ℕ → Option Row → Option Context
unfolding toggle_directory
activate_row c index none = none
activate_row c index (some row) = if row.entry.navigable then toggle_directory c index else some c

unfoldable pub activate_at : Context → Option ℕ → Option Context
unfolding activate_row
activate_at c none = some c
activate_at c (some index) = activate_row c index (get_elem? c.tree.rows index)

unfoldable pub activate_selected : Context → Option Context
unfolding activate_at effective_selection
activate_selected c = activate_at c (effective_selection c.tree)

unfoldable pub enter_row : Context → Option Row → Context
unfolding change_root_path
enter_row c none = c
enter_row c (some row) = if row.entry.navigable then change_root_path c row.path else c

unfoldable pub enter_selected : Context → Context
unfolding enter_row selected_row
enter_selected c = enter_row c (selected_row c.tree)

unfoldable pub apply_root_listing : Context → ListingResult → Context
unfolding extend_root finish_root
apply_root_listing c (entries group) = record c { tree = extend_root c.tree group }
apply_root_listing c finished = record c {
  tree = finish_root c.tree (ok tt);
  root_listing_task = false;
}
apply_root_listing c (refused error) = record c {
  tree = finish_root c.tree (err error);
  root_listing_task = false;
}

abbrev pub with_tree : Context → List ℕ → Option Tree → Option Context
with_tree c tasks none = none
with_tree c tasks (some t) = some (record c { tree = t; listing_tasks = tasks })

unfoldable pub apply_expanding : Context → ℕ → ListingResult → Option PathString → Option Context
unfolding extend_child finish_child
apply_expanding c id result none = some c
apply_expanding c id (entries group) (some path) =
    with_tree c c.listing_tasks (extend_child c.tree id group)
apply_expanding c id finished (some path) =
    with_tree c (without id c.listing_tasks) (finish_child c.tree id (ok tt))
apply_expanding c id (refused error) (some path) =
    with_tree c (without id c.listing_tasks) (finish_child c.tree id (err error))

unfoldable pub apply_directory_listing : Context → ℕ → ListingResult → Option Context
unfolding apply_expanding expanding_path
apply_directory_listing c id result = apply_expanding c id result (expanding_path c.tree id)

unfoldable pub apply_listing : Context → ListingTarget → ListingResult → Option Context
unfolding apply_root_listing apply_directory_listing
apply_listing c root result = some (apply_root_listing c result)
apply_listing c (directory parent_path id) result = apply_directory_listing c id result

unfoldable pub apply : Context → ContextEvent → Option Context
unfolding apply_listing
apply c event =
    let applied = apply_listing c event.target event.result in
    if event.context_id == c.id && event.generation == c.generation then applied else some c
