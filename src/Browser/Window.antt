-- ===== src/Browser/Window.antt =====
-- Which rows a filter leaves on screen: old/src/browser/window.rs and `Tree::window` of
-- old/src/browser/tree.rs. The standard library's lossy decoding, lower case, substring test and test for a
-- path's leading components are parameters.
pub mod Order
pub mod Matched
use file_peeker.Base.{
  ℕ, zero, suc, ◌+◌, ◌-◌, min, Bool, true, false, ◌&&◌, ◌||◌, not, Option, none, some, List, [],
  ◌∷◌, ◌++◌, if◌then◌else◌, ltb, ◌==◌, length, get_elem?, take, drop, Result, ok, err,
}
use file_peeker.Utf8.{Bytes}
use file_peeker.PathString.{PathString, marker, unescape, EscapeError}
use file_peeker.Browser.{Row}
use file_peeker.Browser.Tree.{Tree}

pub record VisibleRow : Type 0 where
  pub row : ℕ
  pub matched : Bool

pub data VisibleRows : Type 0 where
  all : (count : ℕ) → VisibleRows
  filtered : (rows : List VisibleRow) (matches : ℕ) → VisibleRows

unfoldable pub len : VisibleRows → ℕ
len (all count) = count
len (filtered rows matches) = length rows

unfoldable pub matches : VisibleRows → Option ℕ
matches (all count) = none
matches (filtered rows n) = some n

abbrev pub row_number : Option VisibleRow → Option ℕ
row_number none = none
row_number (some visible) = some visible.row

unfoldable pub row_at : VisibleRows → ℕ → Option ℕ
row_at (all count) position = if ltb position count then some position else none
row_at (filtered rows n) position = row_number (get_elem? rows position)

-- `partition_point(|visible| visible.row < row)`.
unfoldable pub start_of : List VisibleRow → ℕ → ℕ
start_of [] row = 0
start_of (visible ∷ rows) row =
    let rest = start_of rows row in if ltb visible.row row then suc rest else 0

unfoldable pub position_from : ℕ → VisibleRows → ℕ → Option ℕ
unfolding start_of
position_from zero visible row = none
position_from (suc last) (all count) row = some (min row last)
position_from (suc last) (filtered rows n) row = some (min (start_of rows row) last)

unfoldable pub position_of : VisibleRows → ℕ → Option ℕ
unfolding len position_from
position_of visible row = position_from (len visible) visible row

abbrev pub is_match : Option VisibleRow → ℕ → Bool
is_match none row = false
is_match (some visible) row = visible.row == row && visible.matched

unfoldable pub matched : VisibleRows → ℕ → Bool
unfolding start_of
matched (all count) row = true
matched (filtered rows n) row = is_match (get_elem? rows (start_of rows row)) row

abbrev pub plus_some : ℕ → Option ℕ → Option ℕ
plus_some n none = none
plus_some n (some m) = some (n + m)

-- `position` and `rposition` of a row that is matched.
abbrev pub first_match : List VisibleRow → Option ℕ
first_match [] = none
first_match (visible ∷ rows) =
    let rest = first_match rows in if visible.matched then some 0 else plus_some 1 rest

abbrev pub last_match : List VisibleRow → Option ℕ
last_match [] = none
last_match (visible ∷ rows) = later_or visible.matched (last_match rows)
  where
    later_or : Bool → Option ℕ → Option ℕ
    later_or here (some k) = some (suc k)
    later_or true none = some 0
    later_or false none = none

abbrev pub or_last : Option ℕ → Option ℕ → Option ℕ
or_last (some k) last = some k
or_last none last = last

unfoldable pub match_position_of : VisibleRows → ℕ → Option ℕ
unfolding position_of start_of
match_position_of (all count) row = position_of (all count) row
match_position_of (filtered rows n) row =
    let start = start_of rows row in
    or_last (plus_some start (first_match (drop start rows))) (last_match rows)

-- What the standard library does to names.
pub record Matching : Type 0 where
  pub lossy : Bytes → Bytes
  pub lower : Bytes → Bytes
  pub contains : (text needle : Bytes) → Bool
  pub starts_with : (path scope : Bytes) → Bool

abbrev pub has_marker : Bytes → Bool
has_marker [] = false
has_marker (c ∷ s) = c == marker || has_marker s

abbrev pub decoded_or : Matching → Bytes → Result EscapeError Bytes → Bytes
decoded_or m text (ok bytes) = m.lossy bytes
decoded_or m text (err error) = text

unfoldable pub display : Matching → PathString → Bytes
unfolding unescape
display m path =
    if has_marker path.text then decoded_or m path.text (unescape path.text) else path.text

abbrev pub same_text : Bytes → Bytes → Bool
same_text [] [] = true
same_text [] (d ∷ t) = false
same_text (c ∷ s) [] = false
same_text (c ∷ s) (d ∷ t) = c == d && same_text s t

unfoldable pub matches_needle : Matching → Bytes → Bytes → Bool
matches_needle m name needle = m.contains (m.lower name) needle

unfoldable pub in_scope : Matching → Bytes → Option PathString → Bool
in_scope m path none = true
in_scope m path (some scope) = m.starts_with path scope.text

abbrev pub is_entered : Option PathString → Row → Bool
is_entered none row = false
is_entered (some scope) row = same_text scope.text row.path.text

unfoldable pub matches_any : Matching → Option Bytes → Row → Bool
unfolding matches_needle display
matches_any m none row = true
matches_any m (some needle) row = matches_needle m (display m row.entry.name) needle

unfoldable pub is_hit : Matching → Option Bytes → Option PathString → Row → Bool
unfolding in_scope
is_hit m needle scope row =
    not (is_entered scope row) && (in_scope m row.path.text scope && matches_any m needle row)

-- The ancestors that are not on screen yet, and the chain once they are.
unfoldable pub unemitted : List (ℕ × Bool) → List VisibleRow
unemitted [] = []
unemitted ((ancestor, true) ∷ ancestors) = unemitted ancestors
unemitted ((ancestor, false) ∷ ancestors) =
    record { row = ancestor; matched = false } ∷ unemitted ancestors

unfoldable pub emitted : List (ℕ × Bool) → List (ℕ × Bool)
emitted [] = []
emitted ((ancestor, e) ∷ ancestors) = (ancestor, true) ∷ emitted ancestors

abbrev pub count_of : Bool → ℕ
count_of true = 1
count_of false = 0

module _ (hit entered : Row → Bool) where
  -- The pass over the rows from `index` on, under a chain of ancestors.
  unfoldable pub scan : ℕ → List (ℕ × Bool) → List Row → List VisibleRow × ℕ
  unfolding unemitted emitted
  scan index ancestors [] = ([], 0)
  scan index ancestors (row ∷ rows) =
      let chain = take row.depth ancestors in
      let shown = hit row || entered row in
      let rest =
        scan (suc index) ((if shown then emitted chain else chain) ++ ((index, shown) ∷ [])) rows in
      if shown
      then (
        unemitted chain ++ (record { row = index; matched = hit row } ∷ rest.0),
        count_of (hit row) + rest.1,
      )
      else rest

abbrev pub needle_of : Matching → Bytes → Option Bytes
needle_of m [] = none
needle_of m (c ∷ query) = some (m.lower (c ∷ query))

abbrev pub filtered_by : List VisibleRow × ℕ → VisibleRows
filtered_by (rows, n) = filtered rows n

unfoldable pub window_by : Matching → Tree → Option Bytes → Option PathString → VisibleRows
unfolding scan is_hit
window_by m t none none = all (length t.rows)
window_by m t (some needle) scope =
    filtered_by (scan (is_hit m (some needle) scope) (is_entered scope) 0 [] t.rows)
window_by m t none (some scope) =
    filtered_by (scan (is_hit m none (some scope)) (is_entered (some scope)) 0 [] t.rows)

unfoldable pub window : Matching → Tree → Bytes → Option PathString → VisibleRows
unfolding window_by
window m t query scope = window_by m t (needle_of m query) scope

unfoldable pub unfiltered : Tree → VisibleRows
unfiltered t = all (length t.rows)
