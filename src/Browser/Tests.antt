-- ===== src/Browser/Tests.antt =====
-- A small browsed directory: two directories, one inside the other, and a file.
use file_peeker.Base.{
  ℕ, suc, ◌<◌, ◌≡◌, ◌↔◌, ◌<◌, refl, Bool, true, false, Option, none, some, List, [], ◌∷◌, ◌++◌,
  ◌==◌, ◌&&◌, arith, length, get_elem?, lookup, err,
}
use file_peeker.Utf8.{Bytes}
use file_peeker.PathString.{PathString, join}
use file_peeker.Browser.{DirectoryEntry, file, directory, Row, loading}
use file_peeker.Browser.Tree.{
  Tree, Placement, new, restart, extend_child, subtree_end, begin_expansion, extend_root,
}
use file_peeker.Browser.Events.{
  apply as apply_event, toggle as toggle_tree, toggle_row, toggle_as, opened, tree_of,
}
use file_peeker.Browser.Tree.{
  extend_placed, place, begin_at, splice, shifted, after_insertion, effective_selection,
}
use file_peeker.Browser.Tree.Chunks.{extend_again, groups_join}
use file_peeker.Browser.Events.{root, child, Event, entries, finished, toggled, run}
use file_peeker.Browser.Events.Reachable.{
  Reached, tree_never_panics, insertion_is_subtree_end, reached_tree,
}
use file_peeker.Browser.Window.{
  Matching, window_by, scan, unemitted, emitted, in_scope, matches_needle, matches_any, display,
  window, row_at, position_of, position_from, len, unfiltered, matched, is_hit,
}
use file_peeker.Browser.Window.Order.{position_of-row_at}
use file_peeker.Browser.Window.Matched.{matched_iff, IsBelow, HasQuery}
use file_peeker.Browser.Context.{
  Context, viewport, viewport_at, visible_by, settled, settled_with, position_in, selected_position,
  visible_rows,
}
use file_peeker.Browser.Context.Frames.{frame_shows_selection}
use file_peeker.Browser.Context.Listing.{
  new_context, ContextEvent, directory as below, change_root_path, refresh, cancel, apply,
  start_root_listing, abort_tree_listings, apply_listing, apply_root_listing, toggle_directory,
  toggle_row as context_row, toggle_as as context_as, start_directory_listing, started,
}
use file_peeker.Browser.Context.Listing
use file_peeker.Browser.Context.Stale.{stale_ignored}
use file_peeker.Browser.Context.Tasks.{is_some, running}
use file_peeker.Browser.Context.Actions.{
  Action, toggle, arrive, perform, perform_all, tasks_match_placements,
}

abbrev home : PathString
home = record { text = 47 ∷ [] }

abbrev folder : ℕ → DirectoryEntry
folder letter = record {
  name = record { text = letter ∷ [] };
  kind = directory;
  navigable = true;
  metadata = none;
  defect = none;
}

abbrev note : ℕ → DirectoryEntry
note letter = record {
  name = record { text = letter ∷ [] };
  kind = file;
  navigable = false;
  metadata = none;
  defect = none;
}

abbrev opening : List Event
opening =
    entries root (folder 97 ∷ note 98 ∷ [])
    ∷ toggled 0 7
    ∷ entries (child 7) (folder 99 ∷ [])
    ∷ toggled 1 8
    ∷ entries (child 7) (note 100 ∷ [])
    ∷ entries (child 8) (note 101 ∷ [])
    ∷ []

abbrev or_empty : Option Tree → Tree
or_empty none = new home
or_empty (some t) = t

unfoldable opened_tree : Tree
opened_tree = or_empty (run (new home) opening)

tree_never_panics_example :
    Reached home (opening ++ (finished (child 8) (err "gone") ∷ toggled 0 9 ∷ []))
tree_never_panics_example =
    tree_never_panics home (opening ++ (finished (child 8) (err "gone") ∷ toggled 0 9 ∷ []))
      (omega arith)

abbrev outer : Placement
outer = record { parent = 0; depth = 1; insertion = 4 }

opened_tree-run : run (new home) opening ≡ some opened_tree
unfolding opened_tree run apply_event toggle_tree toggle_row toggle_as opened tree_of extend_root
    extend_child extend_placed place begin_expansion begin_at splice shifted after_insertion new
opened_tree-run = refl

outer-placed : lookup 7 opened_tree.placements ≡ some outer
unfolding opened_tree run apply_event toggle_tree toggle_row toggle_as opened tree_of extend_root
    extend_child extend_placed place begin_expansion begin_at splice shifted after_insertion new
outer-placed = refl

insertion_is_subtree_end_example :
    (row : Row) × (get_elem? opened_tree.rows 0 ≡ some row)
    × (row.expansion ≡ loading 7)
    × (4 ≡ subtree_end opened_tree.rows 0 row.depth)
    × (1 ≡ suc row.depth)
insertion_is_subtree_end_example =
    insertion_is_subtree_end home opening opened_tree 7 outer (omega arith) opened_tree-run
      outer-placed

groups_join_example :
    extend_again (extend_child opened_tree 8 (note 102 ∷ [])) 8 (note 103 ∷ [])
    ≡ extend_child opened_tree 8 (note 102 ∷ note 103 ∷ [])
groups_join_example =
    groups_join opened_tree 8 (note 102 ∷ []) (note 103 ∷ [])
      (reached_tree home opening opened_tree (omega arith) opened_tree-run)

-- Names are their bytes, in lower case already, and one has another in it when it starts with it.
abbrev begins : Bytes → Bytes → Bool
begins text [] = true
begins [] (b ∷ needle) = false
begins (a ∷ text) (b ∷ needle) = a == b && begins text needle

abbrev plain : Matching
plain = record { lossy = λ b. b; lower = λ b. b; contains = begins; starts_with = begins }

position_of-row_at_example :
    (position_of (window plain opened_tree (101 ∷ []) none) 2 ≡ some 2)
    × (2 < length opened_tree.rows)
unfolding opened_tree run apply_event toggle_tree toggle_row toggle_as opened tree_of extend_root
    extend_child extend_placed place begin_expansion begin_at splice shifted after_insertion new
    window window_by scan unemitted emitted is_hit in_scope matches_needle display row_at
    matches_any
position_of-row_at_example = position_of-row_at plain opened_tree (101 ∷ []) none 2 2 refl

abbrev second_row : Row
second_row = record {
  path = join (join home (record { text = 97 ∷ [] })) (record { text = 99 ∷ [] });
  depth = 1;
  entry = folder 99;
  expansion = loading 8;
}

matched_iff_example :
    (matched (window plain opened_tree (101 ∷ []) none) 1 ≡ true)
    ↔ (IsBelow plain none second_row × HasQuery plain (101 ∷ []) second_row)
unfolding opened_tree run apply_event toggle_tree toggle_row toggle_as opened tree_of extend_root
    extend_child extend_placed place begin_expansion begin_at splice shifted after_insertion new
matched_iff_example = matched_iff plain opened_tree (101 ∷ []) none 1 second_row refl

abbrev low_down : Context
low_down = record (new_context 1 home) { tree = record opened_tree { selected_index = some 3 } }

frame_shows_selection_example :
    (s : ℕ) × (row : Row) × (s < 2)
    × (get_elem? low_down.tree.rows 3 ≡ some row)
    × ((viewport plain low_down 2).1.selected ≡ some s)
    × (get_elem? (viewport plain low_down 2).1.rows s ≡ some row)
unfolding opened_tree run apply_event toggle_tree toggle_row toggle_as opened tree_of extend_root
    extend_child extend_placed place begin_expansion begin_at splice shifted after_insertion new
    new_context start_root_listing abort_tree_listings viewport viewport_at selected_position
    visible_rows visible_by effective_selection unfiltered settled settled_with len position_in
    position_of position_from row_at
frame_shows_selection_example = frame_shows_selection plain low_down 2 3 3 (omega arith) refl refl

abbrev late : ContextEvent
late = record {
  context_id = 1;
  generation = 1;
  target = Listing.root;
  result = Listing.entries (note 98 ∷ []);
}

stale_ignored_example :
    (apply (change_root_path (new_context 1 home) home) late
      ≡ some (change_root_path (new_context 1 home) home))
    × (apply (refresh (new_context 1 home)) late ≡ some (refresh (new_context 1 home)))
    × (apply (cancel (new_context 1 home)) late ≡ some (cancel (new_context 1 home)))
unfolding new_context start_root_listing
stale_ignored_example = stale_ignored (new_context 1 home) home late (omega arith) refl

abbrev using : List Action
using =
    arrive (record {
      context_id = 1;
      generation = 1;
      target = Listing.root;
      result = Listing.entries (folder 97 ∷ []);
    })
    ∷ toggle 0
    ∷ []

abbrev or_new : Option Context → Context
or_new none = new_context 1 home
or_new (some c) = c

tasks_match_placements_example :
    is_some (lookup 1 (or_new (perform_all (new_context 1 home) using)).tree.placements)
    ≡ running 1 (or_new (perform_all (new_context 1 home) using)).listing_tasks
unfolding perform_all perform new_context start_root_listing abort_tree_listings restart new apply
    apply_listing apply_root_listing toggle_directory context_row context_as start_directory_listing
    started begin_expansion begin_at extend_root after_insertion
tasks_match_placements_example =
    tasks_match_placements 1 home using (or_new (perform_all (new_context 1 home) using)) refl 1
