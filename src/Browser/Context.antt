-- ===== src/Browser/Context.antt =====
-- One browser of the terminal: `BrowserContext` of old/src/tui/browser_context.rs, its viewport, its filter
-- and the listings that fill its tree. A task is known by the request that it answers; spawning and aborting it
-- is outside.
pub mod Frames
pub mod Listing
pub mod Stale
pub mod Tasks
pub mod Actions
use Prim.Native.String.{String}
use file_peeker.Base.{
  ℕ, zero, suc, ◌+◌, ◌-◌, ◌/◌, ◌%◌, ◌^◌, min, max, Bool, true, false, ◌&&◌, ◌||◌, not, Option, none,
  some, List, [], ◌∷◌, ◌++◌, if◌then◌else◌, ltb, leb, ◌==◌, length, get_elem?, Result, ok, err,
}
use file_peeker.Utf8.{Bytes}
use file_peeker.PathString.{PathString}
use file_peeker.Browser.{Row, DirectoryEntry, Expansion, collapsed, loading, expanded, failed}
use file_peeker.Browser.Tree.{
  Tree, reroot, restart, extend_root, finish_root, extend_child, finish_child, expanding_path,
  effective_selection, selected_row, begin_expansion, collapse, or_first,
}
use file_peeker.Browser.Window.{
  Matching, VisibleRows, window, unfiltered, len, matches, row_at, position_of, matched,
  match_position_of, display, same_text,
}

pub record Descent : Type 0 where
  pub path : PathString
  pub query : Bytes
  pub opened : Bool

pub record Filter : Type 0 where
  pub query : Bytes
  pub filled : Option Bytes
  pub warning : Option String
  pub descents : List Descent
  pub restore_path : Option PathString

pub record Context : Type 0 where
  pub id : ℕ
  pub tree : Tree
  pub filter : Option Filter
  pub viewport_offset : ℕ
  pub viewport_height : ℕ
  pub root_listing_task : Bool
  pub listing_tasks : List ℕ
  pub generation : ℕ
  pub next_request_id : ℕ

abbrev pub scroll_padding : ℕ
scroll_padding = 1

-- `descents.last()`.
abbrev pub scope_of : List Descent → Option PathString
scope_of [] = none
scope_of (descent ∷ []) = some descent.path
scope_of (descent ∷ next ∷ descents) = scope_of (next ∷ descents)

unfoldable pub visible_by : Matching → Tree → Option Filter → VisibleRows
unfolding window unfiltered
visible_by m t none = unfiltered t
visible_by m t (some filter) = window m t filter.query (scope_of filter.descents)

unfoldable pub visible_rows : Matching → Context → VisibleRows
unfolding visible_by
visible_rows m c = visible_by m c.tree c.filter

-- `effective_selection().and_then(|row| visible.position_of(row))`.
unfoldable pub position_in : VisibleRows → Option ℕ → Option ℕ
unfolding position_of
position_in visible none = none
position_in visible (some row) = position_of visible row

unfoldable pub selected_position : Matching → Context → Option ℕ
unfolding visible_rows effective_selection position_in
selected_position m c = position_in (visible_rows m c) (effective_selection c.tree)

-- The offset that a frame of `height` rows settles on for a list of `count` rows.
unfoldable pub settled_with : (padding offset height selected count : ℕ) → ℕ
settled_with padding offset height selected count =
    let start = min (min offset (count - height)) (selected - padding) in
    let bottom = min (selected + padding) (count - 1) in
    if leb (start + height) bottom then suc bottom - height else start

unfoldable pub settled : (offset height selected count : ℕ) → ℕ
unfolding settled_with
settled offset height selected count =
    settled_with (min scroll_padding ((height - 1) / 2)) offset height selected count

pub record Viewport : Type 0 where
  pub rows : List Row
  pub selected : Option ℕ
  pub matches : Option ℕ

abbrev pub row_of : List Row → Option ℕ → List Row
row_of rows none = []
row_of rows (some index) = elim (get_elem? rows index) [ none ↦ [] | some row ↦ row ∷ [] ]

-- The rows at `count` positions from `position` on.
unfoldable pub rows_from : VisibleRows → List Row → (position count : ℕ) → List Row
unfolding row_at
rows_from visible rows position zero = []
rows_from visible rows position (suc count) =
    row_of rows (row_at visible position) ++ rows_from visible rows (suc position) count

unfoldable pub viewport_at : Context → VisibleRows → ℕ → Option ℕ → Context × Viewport
unfolding settled len matches rows_from
viewport_at c visible height none =
    (c, record { rows = []; selected = none; matches = matches visible })
viewport_at c visible height (some selected) =
    let offset = settled c.viewport_offset height selected (len visible) in
    (
      record c { viewport_offset = offset },
      record {
        rows = rows_from visible c.tree.rows offset (min (offset + height) (len visible) - offset);
        selected = some (selected - offset);
        matches = matches visible;
      },
    )

unfoldable pub viewport : Matching → Context → ℕ → Context × Viewport
unfolding viewport_at selected_position visible_rows
viewport m c height =
    viewport_at (record c { viewport_height = height }) (visible_rows m c) height
      (if ltb 0 height then selected_position m c else none)

-- The selected row's name, when the query is what put it on screen.
unfoldable pub name_of : Matching → Option Row → Option Bytes
unfolding display
name_of m none = none
name_of m (some row) = some (display m row.entry.name)

unfoldable pub candidate_at : Matching → VisibleRows → List Row → Option ℕ → Option Bytes
unfolding matched name_of
candidate_at m visible rows none = none
candidate_at m visible rows (some index) =
    if matched visible index then name_of m (get_elem? rows index) else none

unfoldable pub selected_candidate : Matching → Context → Option Bytes
unfolding candidate_at visible_rows effective_selection
selected_candidate m c = candidate_at m (visible_rows m c) c.tree.rows (effective_selection c.tree)

abbrev pub filled_with : Option Bytes → Option Filter → Option Filter
filled_with candidate none = none
filled_with candidate (some filter) = some (record filter { filled = candidate; warning = none })

unfoldable pub fill_from_selection : Matching → Context → Context
unfolding selected_candidate
fill_from_selection m c = record c { filter = filled_with (selected_candidate m c) c.filter }

abbrev pub select : Tree → Option ℕ → Tree
select t index = record t { selected_index = index }

unfoldable pub moved : Matching → Context → VisibleRows → Bool → Option ℕ → Context
unfolding fill_from_selection row_at len
moved m c visible down none = c
moved m c visible down (some current) =
    let position = if down then min (suc current) (len visible - 1) else current - 1 in
    fill_from_selection m (record c { tree = select c.tree (row_at visible position) })

unfoldable pub move_selection : Matching → Context → Bool → Context
unfolding moved visible_rows selected_position
move_selection m c down =
    if length c.tree.rows == 0
    then record c { tree = select c.tree none }
    else moved m c (visible_rows m c) down (selected_position m c)

-- `saturating_add` of a `usize`.
abbrev pub saturating_add : ℕ → ℕ → ℕ
saturating_add a b = min (a + b) (2 ^ 64 - 1)

unfoldable pub scrolled : Matching → Context → VisibleRows → Bool → Option ℕ → Context
unfolding fill_from_selection row_at len
scrolled m c visible down none = c
scrolled m c visible down (some current) =
    let distance = max (c.viewport_height / 2) 1 in
    let last = len visible - 1 in
    let offset =
      if down
      then min (saturating_add c.viewport_offset distance) (len visible - c.viewport_height)
      else c.viewport_offset - distance in
    let position =
      if down then min (saturating_add current distance) last else current - distance in
    if c.viewport_height == 0
    then c
    else fill_from_selection m
        (record c { viewport_offset = offset; tree = select c.tree (row_at visible position) })

unfoldable pub scroll_half_page : Matching → Context → Bool → Context
unfolding scrolled visible_rows selected_position
scroll_half_page m c down = scrolled m c (visible_rows m c) down (selected_position m c)

unfoldable pub begin_filter : Context → Context
unfolding selected_row
begin_filter c = record c {
  filter = some (record {
    query = [];
    filled = none;
    warning = none;
    descents = [];
    restore_path = elim (selected_row c.tree) [ none ↦ none | some row ↦ some row.path ];
  });
}

unfoldable pub commit_filter : Context → Context
commit_filter c = record c { filter = none }

unfoldable pub followed : Context → VisibleRows → Option ℕ → Context
unfolding row_at
followed c visible none = c
followed c visible (some position) = record c { tree = select c.tree (row_at visible position) }

unfoldable pub follow_filter : Matching → Context → Context
unfolding followed visible_rows match_position_of
follow_filter m c =
    followed c (visible_rows m c)
      (match_position_of (visible_rows m c) (or_first c.tree.selected_index))
