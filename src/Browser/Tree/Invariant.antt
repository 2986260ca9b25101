-- ===== src/Browser/Tree/Invariant.antt =====
-- The operations of old/src/browser/tree.rs on a tree whose placements are in place.
use file_peeker.Base.{
  ℕ, suc, ◌+◌, ◌-◌, ◌≤◌, ◌<◌, ◌≡◌, refl, sym, ap, ◌∙◌, Option, some, List, [], ◌∷◌, arith, ltb,
  ◌==◌, inl, inr, Bool-cases, length, lookup,
}
use mathlib.Core.Path.{subst}
use file_peeker.PathString.{PathString}
use file_peeker.Browser
use file_peeker.Browser.{
  Row, Expansion, collapsed, loading, expanded, failed, DirectoryEntry, deeper, max_depth,
}
use file_peeker.Browser.Tree.{Tree, Placement, splice, group, map_values, after_insertion}
use file_peeker.Browser.Tree.Shape.{IsPlaced, IsClosed, Inserted, after_insertion-IsPlaced}
use file_peeker.Browser.Tree.Rows.{
  depth_at, expansion_at, length-splice, length-group, splice-Inserted,
}

pub record IsTree (t : Tree) : Type 0 where
  pub placed :
      (id : ℕ) (p : Placement)
      → lookup id t.placements ≡ some p
      → IsPlaced (length t.rows) (depth_at t.rows) (expansion_at t.rows) id p
  pub closed : IsClosed (depth_at t.rows) (expansion_at t.rows)

pub lookup-map_values :
    (f : Placement → Placement) (id : ℕ) (m : List (ℕ × Placement)) (q : Placement)
    → lookup id (map_values f m) ≡ some q
    → (p : Placement) × (lookup id m ≡ some p) × (q ≡ f p)
lookup-map_values f id [] q h = cc
lookup-map_values f id ((k, v) ∷ m) q h = elim (Bool-cases (k == id)) [
  | inl u ↦ (v, rw (u) refl, ground arith)
  | inr u ↦ let r = lookup-map_values f id m q (ground arith) in (r.0, rw (u) r.1, r.2)
]

-- A collapsed row has none below it after an insertion either, if the row before the new ones is not
-- shallower when it is collapsed, and the row behind them not deeper.
closed-Inserted :
    (i c e : ℕ) (d d' : ℕ → ℕ) (x x' : ℕ → Expansion)
    → Inserted i c e d d' x x'
    → IsClosed d x
    → ((k : ℕ) → suc k ≡ i → x k ≡ collapsed → e ≤ d k)
    → d i ≤ e
    → IsClosed d' x'
closed-Inserted i c e d d' x x' s v a b k h = elim (Bool-cases (ltb k i)) [
  | inl u ↦
      let own = sym (s.x_front k (ground arith)) ∙ h in
      elim (Bool-cases (ltb (suc k) i)) [
        | inl w ↦ omega (arith, s.front k (ground arith), s.front (suc k) (ground arith), v k own)
        | inr w ↦
            let last : suc k ≡ i = ground arith in
            elim (Bool-cases (0 == c)) [
              | inl z ↦
                  let none_new : i ≡ i + c = ground arith in
                  omega (
                    arith,
                    s.front k (ground arith),
                    ap d' (last ∙ none_new),
                    s.back i (omega arith),
                    ap d last,
                    v k own,
                  )
              | inr z ↦ omega (
                arith,
                s.front k (ground arith),
                s.new (suc k) (ground arith) (ground arith),
                a k last own,
              )
            ]
      ]
  | inr u ↦ elim (Bool-cases (ltb k (i + c))) [
    | inl w ↦ elim (Bool-cases (ltb (suc k) (i + c))) [
      | inl z ↦ omega (
        arith,
        s.new k (ground arith) (ground arith),
        s.new (suc k) (ground arith) (ground arith),
      )
      | inr z ↦
          let last : suc k ≡ i + c = ground arith in
          omega
            (arith, s.new k (ground arith) (ground arith), ap d' last, s.back i (omega arith), b)
    ]
    | inr w ↦
        let old : k ≡ (k - c) + c = ground arith in
        let old_next : suc k ≡ suc (k - c) + c = ground arith in
        let own = sym (s.x_back (k - c) (ground arith)) ∙ ap x' (sym old) ∙ h in
        omega (
          arith,
          ap d' old,
          ap d' old_next,
          s.back (k - c) (ground arith),
          s.back (suc (k - c)) (ground arith),
          v (k - c) own,
        )
  ]
]

-- A group of rows that lands behind the subtree of a loading row, or at the end of all rows.
module _ (t : Tree) (v : IsTree t) (i e : ℕ) (parent : PathString) (es : List DirectoryEntry)
    (within : i ≤ length t.rows)
    (deep : (id : ℕ) (q : Placement)
      → lookup id t.placements ≡ some q
      → q.parent < i
      → i < q.insertion
      → depth_at t.rows q.parent < e)
    (open_before : (k : ℕ) → suc k ≡ i → expansion_at t.rows k ≡ collapsed → e ≤ depth_at t.rows k)
    (not_deeper : depth_at t.rows i ≤ e) where
  rows' : List Row
  rows' = splice i (group parent e es) t.rows

  longer : length rows' ≡ length t.rows + length es
  unfolding rows'
  longer =
      omega (arith, length-splice i (group parent e es) t.rows within, length-group parent e es)

  placed' :
      (id : ℕ) (q : Placement)
      → lookup id (map_values (after_insertion i (length es) e) t.placements) ≡ some q
      → IsPlaced (length rows') (depth_at rows') (expansion_at rows') id q
  unfolding rows'
  placed' id q h =
      let r = lookup-map_values (after_insertion i (length es) e) id t.placements q h in
      subst (λ n. IsPlaced n (depth_at rows') (expansion_at rows') id q) (sym longer)
        (subst (IsPlaced (length t.rows + length es) (depth_at rows') (expansion_at rows') id)
          (sym r.2)
          (after_insertion-IsPlaced (length t.rows) i (length es) e (depth_at t.rows)
            (depth_at rows') (expansion_at t.rows) (expansion_at rows')
            (splice-Inserted i e parent es t.rows within) id r.0 (v.placed id r.0 r.1)
            (deep id r.0 r.1) within))

  pub insert-IsTree :
      (root : PathString) (selected : Option ℕ) (s : Browser.Status)
      → IsTree (record {
        root_path = root;
        rows = splice i (group parent e es) t.rows;
        placements = map_values (after_insertion i (length es) e) t.placements;
        selected_index = selected;
        status = s;
      })
  unfolding rows'
  insert-IsTree root selected s = record {
    placed = placed';
    closed =
        closed-Inserted i (length es) e (depth_at t.rows) (depth_at rows') (expansion_at t.rows)
          (expansion_at rows') (splice-Inserted i e parent es t.rows within) v.closed open_before
          not_deeper;
  }
