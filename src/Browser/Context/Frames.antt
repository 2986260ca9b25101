-- ===== src/Browser/Context/Frames.antt =====
-- What a frame of old/src/tui/browser_context.rs shows.
use file_peeker.Base.{
  ℕ, zero, suc, ◌==◌, ◌+◌, ◌-◌, ◌/◌, ◌≤◌, ◌<◌, ◌≡◌, refl, ap, ◌∙◌, min, true, false, Option, none,
  some, List, [], ◌∷◌, ◌++◌, arith, ltb, leb, inl, inr, Bool-cases, length, get_elem?,
}
use file_peeker.Browser.{Row}
use file_peeker.Browser.Tree.{Tree, effective_selection}
use file_peeker.Browser.Window.{
  Matching, VisibleRows, VisibleRow, all, filtered, window, unfiltered, len, row_at, row_number,
  position_of, position_from,
}
use file_peeker.Browser.Window.Order.{position_of-row_at}
use file_peeker.Browser.Context.{
  Context, Filter, scope_of, visible_by, visible_rows, selected_position, position_in, settled,
  settled_with, scroll_padding, viewport, viewport_at, rows_from, row_of,
}

half_below : (height : ℕ) → 0 < height → min scroll_padding ((height - 1) / 2) < height
half_below height h = omega arith

-- The offset keeps the selection in the frame, and the frame inside the list.
settled_with-bounds :
    (padding offset height selected count : ℕ)
    → padding < height
    → selected < count
    → (settled_with padding offset height selected count ≤ selected)
      × (selected < settled_with padding offset height selected count + height)
      × (settled_with padding offset height selected count ≤ count - height)
unfolding settled_with
settled_with-bounds padding offset height selected count b s =
    let start = min (min offset (count - height)) (selected - padding) in
    let bottom = min (selected + padding) (count - 1) in
    elim (Bool-cases (leb (start + height) bottom)) [
      | inl u ↦
          let far : start + height ≤ bottom = ground arith in
          rw (u) (omega arith, omega arith, omega arith)
      | inr u ↦
          let near : bottom < start + height = ground arith in
          rw (u) (omega arith, omega arith, omega arith)
    ]

settled-bounds :
    (offset height selected count : ℕ)
    → 0 < height
    → selected < count
    → (settled offset height selected count ≤ selected)
      × (selected < settled offset height selected count + height)
      × (settled offset height selected count ≤ count - height)
unfolding settled
settled-bounds offset height selected count h s =
    settled_with-bounds (min scroll_padding ((height - 1) / 2)) offset height selected count
      (half_below height h) s

position_from-below :
    (n : ℕ) (visible : VisibleRows) (row p : ℕ) → position_from n visible row ≡ some p → p < n
unfolding position_from
position_from-below zero visible row p h = absurd (ground arith)
position_from-below (suc last) (all count) row p h = ground arith
position_from-below (suc last) (filtered rows n) row p h = ground arith

position_in-below :
    (visible : VisibleRows) (o : Option ℕ) (p : ℕ)
    → position_in visible o ≡ some p
    → p < len visible
unfolding position_in position_of
position_in-below visible none p h = absurd (ground arith)
position_in-below visible (some row) p h = position_from-below (len visible) visible row p h

row_at-below :
    (visible : VisibleRows) (p : ℕ) → p < len visible → (r : ℕ) × (row_at visible p ≡ some r)
unfolding row_at len
row_at-below (all count) p h = let u : ltb p count ≡ true = ground arith in (p, rw (u) refl)
row_at-below (filtered rows n) p h = numbered rows p h
  where
    numbered :
        (rows : List VisibleRow) (p : ℕ)
        → p < length rows
        → (r : ℕ) × (row_number (get_elem? rows p) ≡ some r)
    numbered [] p h = absurd (omega arith)
    numbered (v ∷ rows) zero h = (v.row, refl)
    numbered (v ∷ rows) (suc p) h = numbered rows p (omega arith)

get_elem?-in :
    (rows : List Row) (k : ℕ) → k < length rows → (row : Row) × (get_elem? rows k ≡ some row)
get_elem?-in [] k h = absurd (omega arith)
get_elem?-in (r ∷ rows) zero h = (r, refl)
get_elem?-in (r ∷ rows) (suc k) h = get_elem?-in rows k (omega arith)

-- Every position of the list shows a row of the tree.
abbrev IsShown : VisibleRows → List Row → ℕ → Type 0
IsShown visible rows p =
    (r : ℕ) × (row : Row) × (row_at visible p ≡ some r) × (get_elem? rows r ≡ some row)

visible_by-IsShown :
    (m : Matching) (t : Tree) (filter : Option Filter) (p : ℕ)
    → p < len (visible_by m t filter)
    → IsShown (visible_by m t filter) t.rows p
unfolding visible_by unfiltered len row_at
visible_by-IsShown m t none p h =
    let r = row_at-below (all (length t.rows)) p h in
    let u : ltb p (length t.rows) ≡ true = ground arith in
    let row = get_elem?-in t.rows p h in (p, row.0, rw (u) refl, row.1)
visible_by-IsShown m t (some filter) p h =
    let r = row_at-below (window m t filter.query (scope_of filter.descents)) p h in
    let s = position_of-row_at m t filter.query (scope_of filter.descents) p r.0 r.1 in
    let row = get_elem?-in t.rows r.0 s.1 in (r.0, row.0, r.1, row.1)

row_of-some :
    (rows : List Row) (o : Option ℕ) (r : ℕ) (row : Row)
    → o ≡ some r
    → get_elem? rows r ≡ some row
    → row_of rows o ≡ row ∷ []
row_of-some rows o r row e h =
    ap (row_of rows) e
    ∙ ap (λ found. elim found as (λ x. List Row) [ none ↦ [] | some x ↦ x ∷ [] ]) h

-- A frame of positions that are all shown has the row of each of them.
get_elem?-rows_from :
    (visible : VisibleRows) (rows : List Row) (from count k : ℕ)
    → ((p : ℕ) → p < from + count → IsShown visible rows p)
    → k < count
    → (s : IsShown visible rows (from + k))
    → get_elem? (rows_from visible rows from count) k ≡ some s.1
unfolding rows_from
get_elem?-rows_from visible rows from zero k f h s = absurd (omega arith)
get_elem?-rows_from visible rows from (suc count) zero f h (r, row, a, b) =
    let sum : from ≡ from + 0 = omega arith in
    ap (λ front. get_elem? (front ++ rows_from visible rows (suc from) count) 0)
      (row_of-some rows (row_at visible from) r row (ap (row_at visible) sum ∙ a) b)
get_elem?-rows_from visible rows from (suc count) (suc k) f h (r, row, a, b) =
    let w = f from (omega arith) in
    let sum : suc from + k ≡ from + suc k = omega arith in
    ap (λ front. get_elem? (front ++ rows_from visible rows (suc from) count) (suc k))
      (row_of-some rows (row_at visible from) w.0 w.1 w.2 w.3)
    ∙ get_elem?-rows_from visible rows (suc from) count k (λ p l. f p (omega arith)) (omega arith)
        (r, row, ap (row_at visible) sum ∙ a, b)

-- A frame of some height that has a selection.
framed :
    (m : Matching) (c : Context) (height s : ℕ) (o : Option ℕ)
    → 0 < height
    → selected_position m c ≡ o
    → (viewport_at (record c { viewport_height = height }) (visible_rows m c) height o).1.selected
      ≡ some s
    → (p r : ℕ) × (row : Row) × (o ≡ some p)
      × (row_at (visible_rows m c) p ≡ some r)
      × (get_elem? c.tree.rows r ≡ some row)
      × (get_elem?
            (viewport_at (record c { viewport_height = height }) (visible_rows m c) height o).1.rows
            s
          ≡ some row)
      × (s < height)
unfolding viewport_at visible_rows selected_position
framed m c height s none h e f = absurd (ground arith)
framed m c height s (some p) h e f =
    let visible = visible_rows m c in
    let below = position_in-below visible (effective_selection c.tree) p e in
    let offset = settled c.viewport_offset height p (len visible) in
    let b = settled-bounds c.viewport_offset height p (len visible) h below in
    let shown = visible_by-IsShown m c.tree c.filter in
    let at : s ≡ p - offset = ground arith in
    let sum : p ≡ offset + s = omega (arith, at, b.0) in
    let w = shown (offset + s) (omega (arith, at, b.0)) in
    (
      p,
      w.0,
      w.1,
      refl,
      ap (row_at visible) sum ∙ w.2,
      w.3,
      get_elem?-rows_from visible c.tree.rows offset (min (offset + height) (len visible) - offset)
          s (λ q l. shown q (omega (arith, l, b.2))) (omega (arith, at, b.0, b.1)) w,
      omega (arith, at, b.0, b.1),
    )

all-position : (n p r : ℕ) → p < n → p ≡ r → position_from n (all n) r ≡ some p
unfolding position_from
all-position zero p r l e = absurd (omega arith)
all-position (suc n) p r l e = ap some (omega arith)

-- A row that the list shows has its position there.
visible_by-position :
    (m : Matching) (t : Tree) (filter : Option Filter) (p r : ℕ)
    → row_at (visible_by m t filter) p ≡ some r
    → (position_of (visible_by m t filter) r ≡ some p) × (r < length t.rows)
unfolding visible_by unfiltered row_at position_of len
visible_by-position m t none p r h = elim (Bool-cases (ltb p (length t.rows))) [
  | inl u ↦ (all-position (length t.rows) p r (ground arith) (ground arith), ground arith)
  | inr u ↦ absurd (ground arith)
]
visible_by-position m t (some filter) p r h =
    position_of-row_at m t filter.query (scope_of filter.descents) p r h

effective_selection-some :
    (t : Tree) (r : ℕ)
    → t.selected_index ≡ some r
    → r < length t.rows
    → effective_selection t ≡ some r
unfolding effective_selection
effective_selection-some t r h l =
    let filled : (length t.rows == 0) ≡ false = ground arith in
    rw (filled, h) (ap some (omega (arith, l)))

selected_position-some :
    (m : Matching) (c : Context) (r p : ℕ)
    → c.tree.selected_index ≡ some r
    → row_at (visible_rows m c) p ≡ some r
    → selected_position m c ≡ some p
unfolding selected_position visible_rows position_in
selected_position-some m c r p h v =
    let found = visible_by-position m c.tree c.filter p r v in
    rw (effective_selection-some c.tree r h found.1) found.0

-- A frame of some height shows the selected row where it says, if the list shows that row at all: the row at the
-- index that the frame calls selected, which is less than the frame's height, is the selected row of the tree.
-- The list shows every row where there is no filter, and with one the matches and the ancestors that lead to them.
pub frame_shows_selection :
    (m : Matching) (c : Context) (height r p : ℕ)
    → 0 < height
    → c.tree.selected_index ≡ some r
    → row_at (visible_rows m c) p ≡ some r
    → (s : ℕ) × (row : Row) × (s < height)
      × (get_elem? c.tree.rows r ≡ some row)
      × ((viewport m c height).1.selected ≡ some s)
      × (get_elem? (viewport m c height).1.rows s ≡ some row)
unfolding viewport viewport_at
frame_shows_selection m c height r p h e v =
    let found = selected_position-some m c r p e v in
    let tall : ltb 0 height ≡ true = ground arith in
    let s = p - settled c.viewport_offset height p (len (visible_rows m c)) in
    let (p', r', row, at, shown, there, framed_row, low) =
      framed m c height s (some p) h found refl in
    let same_p : p ≡ p' = ground (arith, at) in
    let same_r : r ≡ r' = ground (arith, ap (row_at (visible_rows m c)) same_p, v, shown) in
    (
      s,
      row,
      low,
      ap (get_elem? c.tree.rows) same_r ∙ there,
      rw (tall, found) refl,
      rw (tall, found) framed_row,
    )
