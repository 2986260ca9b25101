-- ===== src/Browser/Tree/Depths.antt =====
-- How deep the rows of old/src/browser/tree.rs get.
use Prim.Native.String.{String}
use file_peeker.Base.{
  ℕ, zero, suc, ◌≤◌, ◌≡◌, refl, ap, Bool, true, false, Option, none, some, List, [], ◌∷◌, ◌++◌,
  arith, All, All-append, All-take, All-drop, length, get_elem?, set, take, drop, ltb, lookup,
  remove, Result, if◌then◌else◌,
}
use mathlib.Core.Path.{subst}
use file_peeker.PathString.{PathString}
use file_peeker.Browser.{Row, Expansion, loading, DirectoryEntry}
use file_peeker.Browser.Tree.{
  Tree, Placement, extend_root, extend_child, extend_placed, place, finish_child, finish_placed,
  begin_at, splice, group, write_expansion, clamp_in, with_rows, ending,
}
use file_peeker.Browser.Tree.Rows.{depth_at}
use file_peeker.Browser.Tree.Invariant.{IsTree}

-- No row is deeper than `n`.
abbrev pub IsShallow : ℕ → List Row → Type 0
IsShallow n rows = All (λ row. row.depth ≤ n) rows

pub weaken : (n m : ℕ) (rows : List Row) → n ≤ m → IsShallow n rows → IsShallow m rows
weaken n m [] h s = tt
weaken n m (row ∷ rows) h s = (omega (arith, s.0), weaken n m rows h s.1)

pub shallow_row :
    (n : ℕ) (rows : List Row) (k : ℕ) (row : Row)
    → get_elem? rows k ≡ some row
    → IsShallow n rows
    → row.depth ≤ n
shallow_row n [] k row h s = absurd (ground arith)
shallow_row n (x ∷ rows) zero row h s = ground (arith, s.0)
shallow_row n (x ∷ rows) (suc k) row h s = shallow_row n rows k row h s.1

group-IsShallow :
    (n d : ℕ) (parent : PathString) (es : List DirectoryEntry)
    → d ≤ n
    → IsShallow n (group parent d es)
group-IsShallow n d parent [] h = tt
group-IsShallow n d parent (e ∷ es) h = (h, group-IsShallow n d parent es h)

pub set-IsShallow :
    (n : ℕ) (rows : List Row) (k : ℕ) (row : Row)
    → row.depth ≤ n
    → IsShallow n rows
    → IsShallow n (set rows k row)
set-IsShallow n [] k row h s = tt
set-IsShallow n (x ∷ rows) zero row h s = (h, s.1)
set-IsShallow n (x ∷ rows) (suc k) row h s = (s.0, set-IsShallow n rows k row h s.1)

splice-IsShallow :
    (n i : ℕ) (new rows : List Row)
    → IsShallow n new
    → IsShallow n rows
    → IsShallow n (splice i new rows)
unfolding splice
splice-IsShallow n i new rows f s =
    All-append (λ row. row.depth ≤ n) (take i rows) (new ++ drop i rows)
      (All-take (λ row. row.depth ≤ n) i rows s)
      (All-append (λ row. row.depth ≤ n) new (drop i rows) f
        (All-drop (λ row. row.depth ≤ n) i rows s))

pub extend_root-IsShallow :
    (n : ℕ) (t : Tree) (es : List DirectoryEntry)
    → IsShallow n t.rows
    → IsShallow n (extend_root t es).rows
unfolding extend_root
extend_root-IsShallow n t es s =
    All-append (λ row. row.depth ≤ n) t.rows (group t.root_path 0 es) s
      (group-IsShallow n 0 t.root_path es (omega arith))

-- The rows of a tree that is there.
abbrev pub rows_of : Option Tree → List Row
rows_of none = []
rows_of (some t) = t.rows

guarded-IsShallow :
    (n : ℕ) (c : Bool) (t : Tree)
    → IsShallow n t.rows
    → IsShallow n (rows_of (if c then none else some t))
guarded-IsShallow n true t s = tt
guarded-IsShallow n false t s = s

place-IsShallow :
    (n : ℕ) (t : Tree) (p : Placement) (es : List DirectoryEntry) (o : Option Row)
    → p.depth ≤ suc n
    → IsShallow n t.rows
    → IsShallow (suc n) (rows_of (place t p es o))
unfolding place
place-IsShallow n t p es none d s = tt
place-IsShallow n t p es (some row) d s =
    guarded-IsShallow (suc n) (ltb (length t.rows) p.insertion) _ (
      splice-IsShallow (suc n) p.insertion (group row.path p.depth es) t.rows
        (group-IsShallow (suc n) p.depth row.path es d) (weaken n (suc n) t.rows (omega arith) s))

pub depth_at-shallow : (n : ℕ) (rows : List Row) (k : ℕ) → IsShallow n rows → depth_at rows k ≤ n
depth_at-shallow n [] k s = omega arith
depth_at-shallow n (row ∷ rows) zero s = s.0
depth_at-shallow n (row ∷ rows) (suc k) s = depth_at-shallow n rows k s.1

extend_placed-IsShallow :
    (n : ℕ) (t : Tree) (id : ℕ) (es : List DirectoryEntry) (o : Option Placement)
    → IsTree t
    → lookup id t.placements ≡ o
    → IsShallow n t.rows
    → IsShallow (suc n) (rows_of (extend_placed t o es))
unfolding extend_placed
extend_placed-IsShallow n t id es none v l s = weaken n (suc n) t.rows (omega arith) s
extend_placed-IsShallow n t id es (some p) v l s =
    place-IsShallow n t p es (get_elem? t.rows p.parent)
      (omega (arith, (v.placed id p l).child_depth, depth_at-shallow n t.rows p.parent s)) s

pub extend_child-IsShallow :
    (n : ℕ) (t : Tree) (id : ℕ) (es : List DirectoryEntry)
    → IsTree t
    → IsShallow n t.rows
    → IsShallow (suc n) (rows_of (extend_child t id es))
unfolding extend_child
extend_child-IsShallow n t id es v s =
    extend_placed-IsShallow n t id es (lookup id t.placements) v refl s

finish_at-IsShallow :
    (n : ℕ) (t next : Tree) (k : ℕ) (e : Expansion) (o : Option Row)
    → get_elem? t.rows k ≡ o
    → IsShallow n t.rows
    → IsShallow n (rows_of (clamp_in (with_rows next (write_expansion t.rows k e o))))
unfolding write_expansion clamp_in
finish_at-IsShallow n t next k e none h s = tt
finish_at-IsShallow n t next k e (some row) h s =
    set-IsShallow n t.rows k (record row { expansion = e }) (shallow_row n t.rows k row h s) s

finish_placed-IsShallow :
    (n : ℕ) (t : Tree) (id : ℕ) (r : Result String (Unit {0})) (o : Option Placement)
    → IsShallow n t.rows
    → IsShallow n (rows_of (finish_placed t id r o))
unfolding finish_placed
finish_placed-IsShallow n t id r none s = s
finish_placed-IsShallow n t id r (some p) s =
    finish_at-IsShallow n t (record t { placements = remove id t.placements }) p.parent
      (ending r id) (get_elem? t.rows p.parent) refl s

pub finish_child-IsShallow :
    (n : ℕ) (t : Tree) (id : ℕ) (r : Result String (Unit {0}))
    → IsShallow n t.rows
    → IsShallow n (rows_of (finish_child t id r))
unfolding finish_child
finish_child-IsShallow n t id r s = finish_placed-IsShallow n t id r (lookup id t.placements) s

pub begin_at-IsShallow :
    (n : ℕ) (t : Tree) (index id : ℕ) (o : Option Row)
    → get_elem? t.rows index ≡ o
    → IsShallow n t.rows
    → (t' : Tree) (path : PathString) → begin_at t index id o ≡ some (t', path)
    → IsShallow n t'.rows
unfolding begin_at
begin_at-IsShallow n t index id none h s t' path e = absurd (ground arith)
begin_at-IsShallow n t index id (some row) h s t' path e = subst (IsShallow n) (ap started e) (
    set-IsShallow n t.rows index (record row { expansion = loading id })
      (shallow_row n t.rows index row h s) s)
  where
    started : Option (Tree × PathString) → List Row
    started none = []
    started (some (t, path)) = t.rows
