-- ===== src/Browser/Tree.antt =====
-- `Tree` of old/src/browser/tree.rs: rows in pre-order, and the expansions still streaming into them. Where
-- the code would panic, on a row that is not there, the result is `none`.
pub mod Shape
pub mod Rows
pub mod Invariant
pub mod Operations
pub mod Endings
pub mod Begin
pub mod Dropped
pub mod Collapse
pub mod Removal
pub mod Depths
pub mod Chunks
use Prim.Native.String.{String}
use file_peeker.Base.{
  ℕ, zero, suc, ◌+◌, ◌-◌, min, Bool, true, false, ◌&&◌, ◌||◌, Option, none, some, List, [], ◌∷◌,
  ◌++◌, map, if◌then◌else◌, ltb, leb, ◌==◌, length, get_elem?, set, take, drop, lookup, insert,
  remove, Result, ok, err,
}
use file_peeker.PathString.{PathString}
use file_peeker.Browser.{
  DirectoryEntry, Status, loading_root, complete, failed_root, Expansion, collapsed, loading,
  expanded, failed, request_id, Row, new_row, child_path, deeper,
}

-- Where the next group of an expansion's children lands.
pub record Placement : Type 0 where
  pub parent : ℕ
  pub depth : ℕ
  pub insertion : ℕ

pub record Tree : Type 0 where
  pub root_path : PathString
  pub rows : List Row
  pub placements : List (ℕ × Placement)
  pub selected_index : Option ℕ
  pub status : Status

unfoldable pub new : PathString → Tree
new root_path = record {
  root_path = root_path;
  rows = [];
  placements = [];
  selected_index = none;
  status = loading_root;
}

unfoldable pub restart : Tree → Tree
restart t = record t { rows = []; placements = []; status = loading_root }

unfoldable pub reroot : Tree → PathString → Tree
unfolding restart
reroot t root_path = restart (record t { root_path = root_path; selected_index = none })

-- The selection.
abbrev pub or_first : Option ℕ → ℕ
or_first none = 0
or_first (some index) = index

unfoldable pub effective_selection : Tree → Option ℕ
effective_selection t =
    if length t.rows == 0 then none else some (min (or_first t.selected_index) (length t.rows - 1))

unfoldable pub selected_row : Tree → Option Row
unfolding effective_selection
selected_row t = elim (effective_selection t) [ none ↦ none | some index ↦ get_elem? t.rows index ]

unfoldable pub clamped : Option ℕ → ℕ → Option ℕ
clamped selected zero = none
clamped (some index) (suc n) = some (min index n)
clamped none (suc n) = some 0

unfoldable pub clamp_selection : Tree → Tree
unfolding clamped
clamp_selection t = record t { selected_index = clamped t.selected_index (length t.rows) }

-- The shifts of the placements.
unfoldable pub after_insertion : ℕ → ℕ → ℕ → Placement → Placement
after_insertion i count depth p =
    if leb i p.parent
    then record p { parent = p.parent + count; insertion = p.insertion + count }
    else if ltb i p.insertion || (i == p.insertion && leb p.depth depth)
    then record p { insertion = p.insertion + count }
    else p

-- `end - start` rows go.
unfoldable pub after_removal : ℕ → ℕ → Placement → Placement
after_removal start end p =
    let count = end - start in
    if leb end p.parent
    then record p { parent = p.parent - count; insertion = p.insertion - count }
    else if leb end p.insertion
    then record p { insertion = p.insertion - count }
    else if ltb start p.insertion
    then record p { insertion = start }
    else p

abbrev pub map_values {ℓ} : {V : Type ℓ} → (V → V) → List (ℕ × V) → List (ℕ × V)
map_values f [] = []
map_values f ((k, v) ∷ m) = (k, f v) ∷ map_values f m

-- The rows of a group of entries.
abbrev pub group : PathString → ℕ → List DirectoryEntry → List Row
group parent depth [] = []
group parent depth (entry ∷ entries) =
    new_row (child_path parent entry.name) depth entry ∷ group parent depth entries

abbrev pub first_selected : Option ℕ → List Row → Option ℕ
first_selected (some index) rows = some index
first_selected none [] = none
first_selected none (r ∷ rows) = some 0

unfoldable pub extend_root : Tree → List DirectoryEntry → Tree
unfolding after_insertion
extend_root t entries =
    let rows = t.rows ++ group t.root_path 0 entries in
    record t {
      rows = rows;
      placements = map_values (after_insertion (length t.rows) (length entries) 0) t.placements;
      selected_index = first_selected t.selected_index rows;
    }

abbrev pub status_of : Result String (Unit {0}) → Status
status_of (ok u) = complete
status_of (err error) = failed_root error

unfoldable pub finish_root : Tree → Result String (Unit {0}) → Tree
unfolding clamp_selection
finish_root t result = clamp_selection (record t { status = status_of result })

unfoldable pub expanding_path : Tree → ℕ → Option PathString
expanding_path t id = elim (lookup id t.placements) [
  | none ↦ none
  | some p ↦ elim (get_elem? t.rows p.parent) [ none ↦ none | some row ↦ some row.path ]
]

-- `splice(i..i, new)`.
unfoldable pub splice : ℕ → List Row → List Row → List Row
splice i new rows = take i rows ++ (new ++ drop i rows)

-- A selection behind the insertion stays on its row.
unfoldable pub shifted : Option ℕ → ℕ → ℕ → Option ℕ
shifted none i count = none
shifted (some selected) i count = if leb i selected then some (selected + count) else some selected

unfoldable pub place : Tree → Placement → List DirectoryEntry → Option Row → Option Tree
unfolding splice shifted after_insertion
place t p entries none = none
place t p entries (some row) =
    if ltb (length t.rows) p.insertion
    then none
    else some (record t {
      rows = splice p.insertion (group row.path p.depth entries) t.rows;
      placements = map_values (after_insertion p.insertion (length entries) p.depth) t.placements;
      selected_index = shifted t.selected_index p.insertion (length entries);
    })

unfoldable pub extend_placed : Tree → Option Placement → List DirectoryEntry → Option Tree
unfolding place
extend_placed t none entries = some t
extend_placed t (some p) entries = place t p entries (get_elem? t.rows p.parent)

unfoldable pub extend_child : Tree → ℕ → List DirectoryEntry → Option Tree
unfolding extend_placed
extend_child t id entries = extend_placed t (lookup id t.placements) entries

abbrev pub ending : Result String (Unit {0}) → ℕ → Expansion
ending (ok u) id = expanded id
ending (err error) id = failed id error

-- A write of one row's expansion; `none` where the row is not there.
unfoldable pub write_expansion : List Row → ℕ → Expansion → Option Row → Option (List Row)
write_expansion rows index e none = none
write_expansion rows index e (some row) = some (set rows index (record row { expansion = e }))

abbrev pub with_rows : Tree → Option (List Row) → Option Tree
with_rows t none = none
with_rows t (some rows) = some (record t { rows = rows })

unfoldable pub clamp_in : Option Tree → Option Tree
unfolding clamp_selection
clamp_in none = none
clamp_in (some t) = some (clamp_selection t)

unfoldable pub finish_placed : Tree → ℕ → Result String (Unit {0}) → Option Placement → Option Tree
unfolding write_expansion
finish_placed t id result none = some t
finish_placed t id result (some p) =
    let next = record t { placements = remove id t.placements } in
    clamp_in (
      with_rows next
        (write_expansion t.rows p.parent (ending result id) (get_elem? t.rows p.parent)))

unfoldable pub finish_child : Tree → ℕ → Result String (Unit {0}) → Option Tree
unfolding finish_placed
finish_child t id result = finish_placed t id result (lookup id t.placements)

unfoldable pub begin_at : Tree → ℕ → ℕ → Option Row → Option (Tree × PathString)
begin_at t index id none = none
begin_at t index id (some row) = some (
  record t {
    rows = set t.rows index (record row { expansion = loading id });
    placements =
        insert id (record { parent = index; depth = deeper row.depth; insertion = suc index })
          t.placements;
  },
  row.path,
)

unfoldable pub begin_expansion : Tree → ℕ → ℕ → Option (Tree × PathString)
unfolding begin_at
begin_expansion t index id = begin_at t index id (get_elem? t.rows index)

-- `position(|row| row.depth() <= depth)`.
unfoldable pub position : ℕ → List Row → Option ℕ
position depth [] = none
position depth (row ∷ rows) =
    let rest = position depth rows in
    if leb row.depth depth
    then some 0
    else elim rest [ none ↦ none | some offset ↦ some (suc offset) ]

abbrev pub end_at : List Row → ℕ → Option ℕ → ℕ
end_at rows index none = length rows
end_at rows index (some offset) = suc index + offset

unfoldable pub subtree_end : List Row → ℕ → ℕ → ℕ
unfolding position
subtree_end rows index depth = end_at rows index (position depth (drop (suc index) rows))

abbrev pub cons_some : Option ℕ → List ℕ → List ℕ
cons_some none ids = ids
cons_some (some id) ids = id ∷ ids

unfoldable pub request_ids : List Row → List ℕ
request_ids [] = []
request_ids (row ∷ rows) = cons_some (request_id row.expansion) (request_ids rows)

-- Takes the requests' placements out, and keeps the requests that had one.
unfoldable pub drop_requests : List ℕ → List (ℕ × Placement) → List (ℕ × Placement) × List ℕ
drop_requests [] m = (m, [])
drop_requests (id ∷ ids) m =
    let rest = drop_requests ids (remove id m) in
    elim (lookup id m) [ none ↦ rest | some p ↦ (rest.0, id ∷ rest.1) ]

-- Whether a subtraction for the placement of a request goes below 0: of those in `after_removal`, only that from the
-- insertion point of a row behind the removed ones can.
abbrev pub underflow_at : ℕ → ℕ → Option Placement → Bool
underflow_at start end none = false
underflow_at start end (some p) = leb end p.parent && ltb p.insertion (end - start)

abbrev pub underflows : ℕ → ℕ → (keys placements : List (ℕ × Placement)) → Bool
underflows start end [] placements = false
underflows start end ((id, p) ∷ keys) placements =
    underflow_at start end (lookup id placements) || underflows start end keys placements

unfoldable pub collapse_at : Tree → ℕ → Option Row → Option (Tree × List ℕ)
unfolding subtree_end request_ids drop_requests after_removal
collapse_at t index none = none
collapse_at t index (some row) =
    let end = subtree_end t.rows index row.depth in
    let dropped =
      drop_requests (request_ids (take (end - index) (drop index t.rows))) t.placements in
    if underflows (suc index) end dropped.0 dropped.0
    then none
    else some (
      record t {
        rows =
            set (take (suc index) t.rows ++ drop end t.rows) index
              (record row { expansion = collapsed });
        placements = map_values (after_removal (suc index) end) dropped.0;
        selected_index = some index;
      },
      dropped.1,
    )

unfoldable pub collapse : Tree → ℕ → Option (Tree × List ℕ)
unfolding collapse_at
collapse t index = collapse_at t index (get_elem? t.rows index)
