-- ===== src/Browser/Window/Order.antt =====
-- The order of the rows on screen of old/src/browser/window.rs.
use file_peeker.Base.{
  ℕ, zero, suc, ◌+◌, ◌≤◌, ◌<◌, ◌≡◌, refl, sym, ap, ◌∙◌, Bool, true, false, ◌||◌, Option, none, some,
  List, [], ◌∷◌, ◌++◌, arith, if◌then◌else◌, ltb, length, get_elem?, take, inl, inr, Bool-cases,
  min,
}
use mathlib.Core.Path.{subst}
use file_peeker.Browser.{Row}
use file_peeker.Utf8.{Bytes}
use file_peeker.PathString.{PathString}
use file_peeker.Browser.Tree.{Tree}
use file_peeker.Browser.Window.{
  Matching, window, window_by, needle_of, is_hit, is_entered, VisibleRow, VisibleRows, all,
  filtered, len, row_at, row_number, position_of, position_from, start_of, scan, unemitted, emitted,
}

-- The rows are in strict order, from `from` on and before `n`.
abbrev pub Increasing : ℕ → ℕ → List VisibleRow → Type 0
Increasing from n [] = from ≤ n
Increasing from n (visible ∷ rows) = (from ≤ visible.row) × Increasing (suc visible.row) n rows

-- The ancestors that are not on screen yet are in order, from `from` on and before `index`.
abbrev pub Chain : ℕ → ℕ → List (ℕ × Bool) → Type 0
Chain from index [] = from ≤ index
Chain from index ((ancestor, true) ∷ ancestors) = Chain from index ancestors
Chain from index ((ancestor, false) ∷ ancestors) =
    (from ≤ ancestor) × Chain (suc ancestor) index ancestors

pub Chain-le :
    (from index : ℕ) (ancestors : List (ℕ × Bool)) → Chain from index ancestors → from ≤ index
Chain-le from index [] c = c
Chain-le from index ((a, true) ∷ ancestors) c = Chain-le from index ancestors c
Chain-le from index ((a, false) ∷ ancestors) c =
    omega (arith, c.0, Chain-le (suc a) index ancestors c.1)

pub take-Chain :
    (k from index : ℕ) (ancestors : List (ℕ × Bool))
    → Chain from index ancestors
    → Chain from index (take k ancestors)
take-Chain zero from index ancestors c = Chain-le from index ancestors c
take-Chain (suc k) from index [] c = c
take-Chain (suc k) from index ((a, true) ∷ ancestors) c = take-Chain k from index ancestors c
take-Chain (suc k) from index ((a, false) ∷ ancestors) c =
    (c.0, take-Chain k (suc a) index ancestors c.1)

push-Chain :
    (from index : ℕ) (ancestors : List (ℕ × Bool))
    → Chain from index ancestors
    → Chain from (suc index) (ancestors ++ ((index, false) ∷ []))
push-Chain from index [] c = (c, omega arith)
push-Chain from index ((a, true) ∷ ancestors) c = push-Chain from index ancestors c
push-Chain from index ((a, false) ∷ ancestors) c = (c.0, push-Chain (suc a) index ancestors c.1)

emitted-Chain :
    (from index k : ℕ) (ancestors : List (ℕ × Bool))
    → from ≤ index
    → Chain from index (emitted ancestors ++ ((k, true) ∷ []))
unfolding emitted
emitted-Chain from index k [] h = h
emitted-Chain from index k ((a, e) ∷ ancestors) h = emitted-Chain from index k ancestors h

-- The chain before the next row.
pub next-Chain :
    (shown : Bool) (from index : ℕ) (chain : List (ℕ × Bool))
    → Chain from index chain
    → Chain
        (if shown then suc index else from)
        (suc index)
        ((if shown then emitted chain else chain) ++ ((index, shown) ∷ []))
next-Chain true from index chain c = emitted-Chain (suc index) (suc index) index chain (omega arith)
next-Chain false from index chain c = push-Chain from index chain c

unemitted-Increasing :
    (from index n : ℕ) (b : Bool) (chain : List (ℕ × Bool)) (rows : List VisibleRow)
    → Chain from index chain
    → Increasing (suc index) n rows
    → Increasing from n (unemitted chain ++ (record { row = index; matched = b } ∷ rows))
unfolding unemitted
unemitted-Increasing from index n b [] rows c s = (c, s)
unemitted-Increasing from index n b ((a, true) ∷ chain) rows c s =
    unemitted-Increasing from index n b chain rows c s
unemitted-Increasing from index n b ((a, false) ∷ chain) rows c s =
    (c.0, unemitted-Increasing (suc a) index n b chain rows c.1 s)

shown-Increasing :
    (shown b : Bool) (m from index n : ℕ) (chain : List (ℕ × Bool)) (rest : List VisibleRow × ℕ)
    → Chain from index chain
    → Increasing (if shown then suc index else from) n rest.0
    → Increasing from n
        (if shown
          then (unemitted chain ++ (record { row = index; matched = b } ∷ rest.0), m)
          else rest).0
shown-Increasing true b m from index n chain rest c s =
    unemitted-Increasing from index n b chain rest.0 c s
shown-Increasing false b m from index n chain rest c s = s

pub scan-Increasing :
    (hit entered : Row → Bool) (from index : ℕ) (ancestors : List (ℕ × Bool)) (rows : List Row)
    → Chain from index ancestors
    → Increasing from (index + length rows) (scan hit entered index ancestors rows).0
unfolding scan
scan-Increasing hit entered from index ancestors [] c =
    omega (arith, Chain-le from index ancestors c)
scan-Increasing hit entered from index ancestors (row ∷ rows) c =
    let chain = take row.depth ancestors in
    let shown = hit row || entered row in
    let b = take-Chain row.depth from index ancestors c in
    let end : suc index + length rows ≡ index + suc (length rows) = omega arith in
    let s =
      scan-Increasing hit entered (if shown then suc index else from) (suc index)
        ((if shown then emitted chain else chain) ++ ((index, shown) ∷ [])) rows
        (next-Chain shown from index chain b) in
    shown-Increasing shown (hit row) _ from index (index + suc (length rows)) chain _ b (
      subst
        (λ n.
          Increasing (if shown then suc index else from) n
            (scan hit entered (suc index)
              ((if shown then emitted chain else chain) ++ ((index, shown) ∷ [])) rows).0)
        end s)

Increasing-le : (from n : ℕ) (rows : List VisibleRow) → Increasing from n rows → from ≤ n
Increasing-le from n [] s = s
Increasing-le from n (v ∷ rows) s = omega (arith, s.0, Increasing-le (suc v.row) n rows s.1)

-- Where a row on screen is found.
start_of-get :
    (from n : ℕ) (rows : List VisibleRow) (k : ℕ) (visible : VisibleRow)
    → Increasing from n rows
    → get_elem? rows k ≡ some visible
    → (from ≤ visible.row) × (start_of rows visible.row ≡ k) × (k < length rows) × (visible.row < n)
unfolding start_of
start_of-get from n [] k visible s h = absurd (ground arith)
start_of-get from n (v ∷ rows) zero visible s h =
    let same : v.row ≡ visible.row = ground arith in
    let here : ltb v.row visible.row ≡ false = ground arith in
    (
      omega (arith, s.0),
      rw (here) refl,
      omega arith,
      omega (arith, same, Increasing-le (suc v.row) n rows s.1),
    )
start_of-get from n (v ∷ rows) (suc k) visible s h =
    let r = start_of-get (suc v.row) n rows k visible s.1 h in
    let before : ltb v.row visible.row ≡ true = ground (arith, r.0) in
    (omega (arith, s.0, r.0), rw (before) (ap suc r.1), omega (arith, r.2), r.3)

row_number-some :
    (o : Option VisibleRow) (row : ℕ)
    → row_number o ≡ some row
    → (visible : VisibleRow) × (o ≡ some visible) × (visible.row ≡ row)
row_number-some none row h = absurd (ground arith)
row_number-some (some visible) row h = (visible, refl, ground arith)

-- On screen in strict order, a row is found at its position.
IsOrdered : ℕ → VisibleRows → Type 0
IsOrdered n (all count) = count ≡ n
IsOrdered n (filtered rows matches) = Increasing 0 n rows

found_at : (last k row : ℕ) → k < suc last → row ≡ k → some (min row last) ≡ some k
found_at last k row h e = ap some (omega arith)

position_from-all :
    (count k row : ℕ)
    → row_at (all count) k ≡ some row
    → (position_from count (all count) row ≡ some k) × (row < count)
unfolding row_at position_from
position_from-all zero k row h = absurd (ground arith)
position_from-all (suc last) k row h = elim (Bool-cases (ltb k (suc last))) [
  | inl u ↦
      let same : row ≡ k = ground arith in (found_at last k row (ground arith) same, ground arith)
  | inr u ↦ absurd (ground arith)
]

position_from-filtered :
    (size k : ℕ) (rows : List VisibleRow) (matches row : ℕ)
    → k < size
    → start_of rows row ≡ k
    → position_from size (filtered rows matches) row ≡ some k
unfolding position_from
position_from-filtered zero k rows matches row h e = absurd (omega arith)
position_from-filtered (suc last) k rows matches row h e = found_at last k (start_of rows row) h e

position_of-ordered :
    (n : ℕ) (visible : VisibleRows) (position row : ℕ)
    → IsOrdered n visible
    → row_at visible position ≡ some row
    → (position_of visible row ≡ some position) × (row < n)
unfolding position_of len IsOrdered row_at
position_of-ordered n (all count) position row o h =
    let r = position_from-all count position row h in (r.0, omega (arith, r.1))
position_of-ordered n (filtered rows matches) position row o h =
    let v = row_number-some (get_elem? rows position) row h in
    let r = start_of-get 0 n rows position v.0 o v.1 in
    let found : start_of rows row ≡ position = ap (start_of rows) (sym v.2) ∙ r.1 in
    (
      position_from-filtered (length rows) position rows matches row r.2 found,
      omega (arith, v.2, r.3),
    )

scan-IsOrdered :
    (hit entered : Row → Bool) (rows : List Row)
    → Increasing 0 (length rows) (scan hit entered 0 [] rows).0
scan-IsOrdered hit entered rows =
    let sum : 0 + length rows ≡ length rows = omega arith in
    subst (λ n. Increasing 0 n (scan hit entered 0 [] rows).0) sum
      (scan-Increasing hit entered 0 0 [] rows (omega arith))

window-IsOrdered :
    (m : Matching) (t : Tree) (needle : Option Bytes) (scope : Option PathString)
    → IsOrdered (length t.rows) (window_by m t needle scope)
unfolding window_by IsOrdered
window-IsOrdered m t none none = refl
window-IsOrdered m t (some needle) scope =
    scan-IsOrdered (is_hit m (some needle) scope) (is_entered scope) t.rows
window-IsOrdered m t none (some scope) =
    scan-IsOrdered (is_hit m none (some scope)) (is_entered (some scope)) t.rows

-- A window shows each row at one position: whatever the query and the scope, the row that it shows at a position is a
-- row of the tree, and `position_of` takes that row back to that position.
pub position_of-row_at :
    (m : Matching) (t : Tree) (query : Bytes) (scope : Option PathString) (position row : ℕ)
    → row_at (window m t query scope) position ≡ some row
    → (position_of (window m t query scope) row ≡ some position) × (row < length t.rows)
unfolding window
position_of-row_at m t query scope position row h =
    position_of-ordered (length t.rows) (window_by m t (needle_of m query) scope) position row
      (window-IsOrdered m t (needle_of m query) scope) h
