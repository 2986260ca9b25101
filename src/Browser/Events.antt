-- ===== src/Browser/Events.antt =====
-- What happens to the tree of one browser tab in old/src/gui/app.rs: listings that arrive, rows that are
-- toggled and directories that are entered.
pub mod Reachable
use Prim.Native.String.{String}
use file_peeker.Base.{
  ℕ, Bool, true, false, Option, none, some, List, [], ◌∷◌, if◌then◌else◌, get_elem?, Result,
}
use file_peeker.PathString.{PathString}
use file_peeker.Browser.{Row, DirectoryEntry, Expansion, collapsed, loading, expanded, failed}
use file_peeker.Browser.Tree.{
  Tree, extend_root, finish_root, extend_child, finish_child, begin_expansion, collapse, reroot,
}

pub data Request : Type 0 where
  root : Request
  child : (id : ℕ) → Request

pub data Event : Type 0 where
  entries : (request : Request) (group : List DirectoryEntry) → Event
  finished : (request : Request) (result : Result String (Unit {0})) → Event
  toggled : (row request : ℕ) → Event
  entered : (path : PathString) → Event

-- The path to list, when the row opens.
unfoldable pub opened : Option (Tree × PathString) → Option (Tree × Option PathString)
opened none = none
opened (some (t, path)) = some (t, some path)

unfoldable pub reopened : Option (Tree × List ℕ) → ℕ → ℕ → Option (Tree × Option PathString)
unfolding opened
reopened none index request = none
reopened (some (t, dropped)) index request = opened (begin_expansion t index request)

unfoldable pub closed : Option (Tree × List ℕ) → Option (Tree × Option PathString)
closed none = none
closed (some (t, dropped)) = some (t, none)

unfoldable pub toggle_as : Tree → ℕ → ℕ → Expansion → Option (Tree × Option PathString)
unfolding opened reopened closed
toggle_as t index request collapsed = opened (begin_expansion t index request)
toggle_as t index request (failed id error) = reopened (collapse t index) index request
toggle_as t index request (loading id) = closed (collapse t index)
toggle_as t index request (expanded id) = closed (collapse t index)

unfoldable pub toggle_row : Tree → ℕ → ℕ → Option Row → Option (Tree × Option PathString)
unfolding toggle_as
toggle_row t index request none = some (t, none)
toggle_row t index request (some row) =
    if row.entry.navigable then toggle_as t index request row.expansion else some (t, none)

unfoldable pub toggle : Tree → ℕ → ℕ → Option (Tree × Option PathString)
unfolding toggle_row
toggle t index request = toggle_row t index request (get_elem? t.rows index)

unfoldable pub tree_of : Option (Tree × Option PathString) → Option Tree
tree_of none = none
tree_of (some (t, path)) = some t

unfoldable pub apply : Tree → Event → Option Tree
unfolding toggle tree_of
apply t (entries root group) = some (extend_root t group)
apply t (entries (child id) group) = extend_child t id group
apply t (finished root result) = some (finish_root t result)
apply t (finished (child id) result) = finish_child t id result
apply t (toggled row request) = tree_of (toggle t row request)
apply t (entered path) = some (reroot t path)

unfoldable pub run : Tree → List Event → Option Tree
unfolding apply
run t [] = some t
run t (event ∷ events) = elim (apply t event) [ none ↦ none | some next ↦ run next events ]
