-- ===== src/Browser/Tree/Operations.antt =====
-- Listings that arrive in old/src/browser/tree.rs.
use Prim.Native.String.{String}
use file_peeker.Base.{
  ℕ, ◌<◌, ◌≡◌, ◌≢◌, refl, sym, ap, ◌∙◌, false, Option, none, some, List, [], ◌∷◌, ◌++◌, arith, ltb,
  ◌==◌, inl, inr, Bool-cases, Option-cases, length, get_elem?, take, drop, lookup, Result,
  get_elem?-past, append-nil,
}
use mathlib.Core.Path.{subst}
use file_peeker.PathString.{PathString}
use file_peeker.Browser.{Row, Expansion, collapsed, loading, DirectoryEntry}
use file_peeker.Browser.Tree.{
  Tree, Placement, new, extend_root, finish_root, extend_child, extend_placed, place,
  clamp_selection, splice, group, map_values, after_insertion, restart, shifted, first_selected,
}
use file_peeker.Browser.Tree.Shape.{IsPlaced}
use file_peeker.Browser.Tree.Rows.{depth_at, expansion_at, depth_of, expansion_of}
use file_peeker.Browser.Tree.Invariant.{IsTree, insert-IsTree}

take_all : (xs : List Row) → take (length xs) xs ≡ xs
take_all [] = refl
take_all (x ∷ xs) = ap (λ ys. x ∷ ys) (take_all xs)

drop_all : (xs : List Row) → drop (length xs) xs ≡ []
drop_all [] = refl
drop_all (x ∷ xs) = drop_all xs

splice_end : (new rows : List Row) → splice (length rows) new rows ≡ rows ++ new
unfolding splice
splice_end new rows = rw (take_all rows, drop_all rows, append-nil new) refl

depth_past : (rows : List Row) → depth_at rows (length rows) ≡ 0
depth_past rows = ap depth_of (get_elem?-past rows (length rows) (omega arith))

pub new-IsTree : (root : PathString) → IsTree (new root)
unfolding new
new-IsTree root = record { placed = λ id p h. absurd (ground arith); closed = λ k h. omega arith }

pub restart-IsTree : (t : Tree) → IsTree (restart t)
unfolding restart
restart-IsTree t = record { placed = λ id p h. absurd (ground arith); closed = λ k h. omega arith }

pub extend_root-IsTree :
    (t : Tree) (es : List DirectoryEntry) → IsTree t → IsTree (extend_root t es)
unfolding extend_root
extend_root-IsTree t es v =
    let rows = t.rows in
    subst
      (λ rs. IsTree (record {
        root_path = t.root_path;
        rows = rs;
        placements = map_values (after_insertion (length rows) (length es) 0) t.placements;
        selected_index = first_selected t.selected_index (rows ++ group t.root_path 0 es);
        status = t.status;
      }))
      (splice_end (group t.root_path 0 es) rows)
      (insert-IsTree t v (length rows) 0 t.root_path es (omega arith)
        (λ id q h a b. absurd (omega (arith, (v.placed id q h).within))) (λ k a b. omega arith)
        (omega (arith, depth_past rows)) t.root_path
        (first_selected t.selected_index (rows ++ group t.root_path 0 es)) t.status)

pub clamp-IsTree : (t : Tree) → IsTree t → IsTree (clamp_selection t)
unfolding clamp_selection
clamp-IsTree t v = record { placed = v.placed; closed = v.closed }

pub finish_root-IsTree :
    (t : Tree) (r : Result String (Unit {0})) → IsTree t → IsTree (finish_root t r)
unfolding finish_root clamp_selection
finish_root-IsTree t r v = record { placed = v.placed; closed = v.closed }

-- Two loading rows and where their subtrees end.
nested_depth :
    (n : ℕ) (d : ℕ → ℕ) (x : ℕ → Expansion) (id jd : ℕ) (p q : Placement)
    → IsPlaced n d x id p
    → IsPlaced n d x jd q
    → q.parent < p.insertion
    → p.insertion < q.insertion
    → d q.parent < p.depth
nested_depth n d x id jd p q v w a b = elim (Bool-cases (ltb p.parent q.parent)) [
  | inl u ↦
      absurd (omega (arith, v.inside q.parent (ground arith) a, w.inside p.insertion a b, v.stop))
  | inr u ↦ elim (Bool-cases (ltb q.parent p.parent)) [
    | inl z ↦
        omega (arith, w.inside p.parent (ground arith) (omega (arith, v.after)), v.child_depth)
    | inr z ↦
        let same : p.parent ≡ q.parent = ground arith in omega (arith, ap d same, v.child_depth)
  ]
]

collapsed-ne-loading : (id : ℕ) → collapsed ≢ loading id
collapsed-ne-loading id e = ground arith

-- A loading row is there.
pub loading_row :
    (rows : List Row) (k id : ℕ)
    → expansion_at rows k ≡ loading id
    → (row : Row) × (get_elem? rows k ≡ some row)
loading_row rows k id h = elim (Option-cases (get_elem? rows k)) [
  | inl e ↦ absurd (collapsed-ne-loading id (sym (ap expansion_of e) ∙ h))
  | inr r ↦ r
]

place-IsTree :
    (t : Tree) (id : ℕ) (p : Placement) (es : List DirectoryEntry) (row : Row)
    → IsTree t
    → lookup id t.placements ≡ some p
    → (t' : Tree) × (place t p es (some row) ≡ some t') × IsTree t'
unfolding place
place-IsTree t id p es row v l =
    let w = v.placed id p l in
    let fits : ltb (length t.rows) p.insertion ≡ false = ground (arith, w.within) in
    (
      _,
      rw (fits) refl,
      insert-IsTree t v p.insertion p.depth row.path es w.within
          (λ jd q g a b.
            nested_depth (length t.rows) (depth_at t.rows) (expansion_at t.rows) id jd p q w
              (v.placed jd q g) a b)
          (λ k a b. elim (Bool-cases (k == p.parent)) [
            | inl u ↦
                let same : k ≡ p.parent = ground arith in
                absurd
                  (collapsed-ne-loading id (sym b ∙ ap (expansion_at t.rows) same ∙ w.is_loading))
            | inr u ↦
                omega (arith, w.child_depth, w.inside k (ground (arith, w.after)) (omega arith))
          ])
          (omega (arith, w.stop, w.child_depth)) t.root_path
          (shifted t.selected_index p.insertion (length es)) t.status,
    )

extend_placed-IsTree :
    (t : Tree) (id : ℕ) (es : List DirectoryEntry) (p : Option Placement)
    → IsTree t
    → lookup id t.placements ≡ p
    → (t' : Tree) × (extend_placed t p es ≡ some t') × IsTree t'
unfolding extend_placed
extend_placed-IsTree t id es none v l = (t, refl, v)
extend_placed-IsTree t id es (some p) v l =
    let r = loading_row t.rows p.parent id (v.placed id p l).is_loading in
    rw (r.1) (place-IsTree t id p es r.0 v l)

pub extend_child-IsTree :
    (t : Tree) (id : ℕ) (es : List DirectoryEntry)
    → IsTree t
    → (t' : Tree) × (extend_child t id es ≡ some t') × IsTree t'
unfolding extend_child
extend_child-IsTree t id es v = extend_placed-IsTree t id es (lookup id t.placements) v refl
