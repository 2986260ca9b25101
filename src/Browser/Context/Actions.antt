-- ===== src/Browser/Context/Actions.antt =====
-- What happens to a browser of old/src/tui/browser_context.rs, one action after the other.
use mathlib.Core.Path.{subst}
use Prim.Native.String.{String}
use file_peeker.Base.{
  ℕ, ◌≡◌, refl, Bool, true, false, ◌&&◌, Option, none, some, List, [], ◌∷◌, arith, ◌==◌, ltb,
  if◌then◌else◌, lookup, remove, get_elem?, length, Result, ok, err,
}
use file_peeker.PathString.{PathString}
use file_peeker.Browser.{Row, DirectoryEntry, Expansion}
use file_peeker.Browser.Tree.{
  Tree, Placement, extend_root, finish_root, extend_child, extend_placed, place, finish_child,
  finish_placed, write_expansion, with_rows, clamp_in, clamp_selection, expanding_path,
  effective_selection, selected_row, after_insertion, ending, reroot, restart,
}
use file_peeker.Browser.Context.{Context}
use file_peeker.Browser.Context.Listing.{
  without, ContextEvent, ListingTarget, ListingResult, toggle_directory, activate_selected,
  enter_selected, refresh, change_root_path, start_root_listing, abort_tree_listings, apply,
  apply_listing, apply_root_listing, apply_directory_listing, apply_expanding, with_tree, root,
  directory, entries, finished, refused, new_context,
}
use file_peeker.Browser.Context.Tasks.{
  HasTasks, Kept, Answered, is_some, running, remove-Answered, map_values-Answered, root-HasTasks,
  toggle_row-Kept, activate_at-Kept, enter_row-Kept,
}

-- What is done to a browser, and by the listings that arrive. The end of a browser (`cancel`) and the descents of a
-- filter are not among them.
pub data Action : Type 0 where
  toggle : (index : ℕ) → Action
  activate restart_listing enter : Action
  change_root : (path : PathString) → Action
  arrive : (event : ContextEvent) → Action

unfoldable pub perform : Context → Action → Option Context
unfolding toggle_directory activate_selected refresh enter_selected change_root_path apply
perform c (toggle index) = toggle_directory c index
perform c activate = activate_selected c
perform c restart_listing = some (refresh c)
perform c enter = some (enter_selected c)
perform c (change_root path) = some (change_root_path c path)
perform c (arrive event) = apply c event

unfoldable pub perform_all : Context → List Action → Option Context
unfolding perform
perform_all c [] = some c
perform_all c (action ∷ actions) = elim (perform c action) [
  | none ↦ none
  | some next ↦ perform_all next actions
]

-- The placements of a tree that is there.
abbrev AnsweredIn : Option Tree → List ℕ → Type 0
AnsweredIn none tasks = Unit
AnsweredIn (some t) tasks = Answered t.placements tasks

with_tree-Kept :
    (c : Context) (tasks : List ℕ) (o : Option Tree)
    → AnsweredIn o tasks
    → Kept (with_tree c tasks o)
with_tree-Kept c tasks none a = tt
with_tree-Kept c tasks (some t) a = a

guarded :
    (b : Bool) (t : Tree) (tasks : List ℕ)
    → Answered t.placements tasks
    → AnsweredIn (if b then none else some t) tasks
guarded true t tasks a = tt
guarded false t tasks a = a

place-AnsweredIn :
    (t : Tree) (p : Placement) (es : List DirectoryEntry) (o : Option Row) (tasks : List ℕ)
    → Answered t.placements tasks
    → AnsweredIn (place t p es o) tasks
unfolding place
place-AnsweredIn t p es none tasks a = tt
place-AnsweredIn t p es (some row) tasks a =
    guarded (ltb (length t.rows) p.insertion) _ tasks
      (map_values-Answered (after_insertion p.insertion (length es) p.depth) t.placements tasks a)

extend_placed-AnsweredIn :
    (t : Tree) (o : Option Placement) (es : List DirectoryEntry) (tasks : List ℕ)
    → Answered t.placements tasks
    → AnsweredIn (extend_placed t o es) tasks
unfolding extend_placed
extend_placed-AnsweredIn t none es tasks a = a
extend_placed-AnsweredIn t (some p) es tasks a =
    place-AnsweredIn t p es (get_elem? t.rows p.parent) tasks a

written-AnsweredIn :
    (next : Tree) (rows : List Row) (k : ℕ) (e : Expansion) (o : Option Row) (tasks : List ℕ)
    → Answered next.placements tasks
    → AnsweredIn (clamp_in (with_rows next (write_expansion rows k e o))) tasks
unfolding write_expansion clamp_in clamp_selection
written-AnsweredIn next rows k e none tasks a = tt
written-AnsweredIn next rows k e (some row) tasks a = a

-- A request that is expanding a row has a placement.
expanding-placed :
    (t : Tree) (id : ℕ) (o : Option Placement) (path : PathString)
    → lookup id t.placements ≡ o
    → expanding_path t id ≡ some path
    → (p : Placement) × (o ≡ some p)
unfolding expanding_path
expanding-placed t id none path h e = absurd (ground arith)
expanding-placed t id (some p) path h e = (p, refl)

finish_placed-AnsweredIn :
    (t : Tree) (id : ℕ) (r : Result String (Unit {0})) (o : Option Placement) (p : Placement)
    (tasks : List ℕ)
    → o ≡ some p
    → Answered t.placements tasks
    → AnsweredIn (finish_placed t id r o) (without id tasks)
unfolding finish_placed
finish_placed-AnsweredIn t id r none p tasks h a = absurd (ground arith)
finish_placed-AnsweredIn t id r (some q) p tasks h a =
    written-AnsweredIn (record t { placements = remove id t.placements }) t.rows q.parent
      (ending r id) (get_elem? t.rows q.parent) (without id tasks)
      (remove-Answered id t.placements tasks a)

finished-Kept :
    (c : Context) (id : ℕ) (r : Result String (Unit {0})) (path : PathString)
    → expanding_path c.tree id ≡ some path
    → HasTasks c
    → Kept (with_tree c (without id c.listing_tasks) (finish_child c.tree id r))
unfolding finish_child
finished-Kept c id r path e a =
    let p = expanding-placed c.tree id (lookup id c.tree.placements) path refl e in
    with_tree-Kept c (without id c.listing_tasks)
      (finish_placed c.tree id r (lookup id c.tree.placements))
      (finish_placed-AnsweredIn c.tree id r (lookup id c.tree.placements) p.0 c.listing_tasks p.1 a)

apply_expanding-Kept :
    (c : Context) (id : ℕ) (result : ListingResult) (o : Option PathString)
    → expanding_path c.tree id ≡ o
    → HasTasks c
    → Kept (apply_expanding c id result o)
unfolding apply_expanding extend_child
apply_expanding-Kept c id result none e a = a
apply_expanding-Kept c id (entries group) (some path) e a =
    with_tree-Kept c c.listing_tasks (extend_placed c.tree (lookup id c.tree.placements) group)
      (extend_placed-AnsweredIn c.tree (lookup id c.tree.placements) group c.listing_tasks a)
apply_expanding-Kept c id finished (some path) e a = finished-Kept c id (ok tt) path e a
apply_expanding-Kept c id (refused error) (some path) e a = finished-Kept c id (err error) path e a

apply_root-HasTasks :
    (c : Context) (result : ListingResult) → HasTasks c → HasTasks (apply_root_listing c result)
unfolding apply_root_listing extend_root finish_root clamp_selection
apply_root-HasTasks c (entries group) a =
    map_values-Answered (after_insertion (length c.tree.rows) (length group) 0) c.tree.placements
      c.listing_tasks a
apply_root-HasTasks c finished a = a
apply_root-HasTasks c (refused error) a = a

apply_listing-Kept :
    (c : Context) (target : ListingTarget) (result : ListingResult)
    → HasTasks c
    → Kept (apply_listing c target result)
unfolding apply_listing apply_directory_listing
apply_listing-Kept c root result a = apply_root-HasTasks c result a
apply_listing-Kept c (directory path id) result a =
    apply_expanding-Kept c id result (expanding_path c.tree id) refl a

either-Kept :
    (b : Bool) (o : Option Context) (c : Context)
    → Kept o
    → HasTasks c
    → Kept (if b then o else some c)
either-Kept true o c k a = k
either-Kept false o c k a = a

perform-Kept : (c : Context) (action : Action) → HasTasks c → Kept (perform c action)
unfolding perform toggle_directory activate_selected refresh enter_selected change_root_path apply
perform-Kept c (toggle index) a = toggle_row-Kept c index (get_elem? c.tree.rows index) a
perform-Kept c activate a = activate_at-Kept c (effective_selection c.tree) a
perform-Kept c restart_listing a = root-HasTasks c
perform-Kept c enter a = enter_row-Kept c (selected_row c.tree) a
perform-Kept c (change_root path) a =
    root-HasTasks (record c { tree = reroot c.tree path; viewport_offset = 0 })
perform-Kept c (arrive event) a =
    either-Kept (event.context_id == c.id && event.generation == c.generation)
      (apply_listing c event.target event.result) c
      (apply_listing-Kept c event.target event.result a) a

perform_all-HasTasks :
    (c d : Context) (actions : List Action)
    → HasTasks c
    → perform_all c actions ≡ some d
    → HasTasks d
unfolding perform_all
perform_all-HasTasks c d [] a h = let same : c ≡ d = ground arith in subst HasTasks same a
perform_all-HasTasks c d (action ∷ actions) a h =
    from_next (perform c action) (perform-Kept c action a)
      (λ next k. perform_all-HasTasks next d actions k) h
  where
    from_next :
        (o : Option Context)
        → Kept o
        → ((next : Context) → HasTasks next → perform_all next actions ≡ some d → HasTasks d)
        → elim o as (λ x. Option Context) [ none ↦ none | some next ↦ perform_all next actions ]
          ≡ some d
        → HasTasks d
    from_next none k f e = absurd (ground arith)
    from_next (some next) k f e = f next k e

new-HasTasks : (id : ℕ) (path : PathString) → HasTasks (new_context id path)
unfolding new_context start_root_listing abort_tree_listings restart
new-HasTasks id path k = refl

-- As long as a browser is not cancelled, no task outlives its expansion and no expansion is without its task: after any
-- sequence of toggles, activations, refreshes, entries of the selected row, changes of root and listings that
-- arrive, in time or late, a new browser that has not panicked has a listing task for a request exactly when the
-- tree has a placement for it.
pub tasks_match_placements :
    (id : ℕ) (path : PathString) (actions : List Action) (c : Context)
    → perform_all (new_context id path) actions ≡ some c
    → (request : ℕ) → is_some (lookup request c.tree.placements) ≡ running request c.listing_tasks
tasks_match_placements id path actions c h =
    perform_all-HasTasks (new_context id path) c actions (new-HasTasks id path) h
