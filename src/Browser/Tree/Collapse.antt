-- ===== src/Browser/Tree/Collapse.antt =====
-- Rows of old/src/browser/tree.rs that collapse.
use file_peeker.Base.{
  Bool, Option, none, some, [], ◌∷◌, true, false, if◌then◌else◌, ℕ, suc, ◌+◌, ◌-◌, ◌≤◌, ◌<◌, ◌≡◌,
  refl, sym, ap, ◌∙◌, List, ◌++◌, arith, ltb, leb, ◌==◌, inl, inr, ◌⊎◌, Bool-cases, length,
  get_elem?, set, take, drop, lookup, length-set, get_elem?-take, get_elem?-drop,
  get_elem?-set_self, All-append, All-take, All-drop,
}
use mathlib.Core.Path.{subst}
use file_peeker.Browser.{Row, collapsed, loading}
use file_peeker.Browser.Tree.Shape.{IsPlaced, IsClosed}
use file_peeker.Browser.Tree.Removal.{Removed, IsSubtree, after_removal-IsPlaced}
use file_peeker.Browser.Tree.Rows.{
  depth_at, expansion_at, depth_of, expansion_of, set-depth_at, set-expansion_ne,
  subtree_end-IsSubtree, get_elem?-drain_front, get_elem?-drain_back, length-drain,
}
use file_peeker.Browser.Tree.Depths.{IsShallow, set-IsShallow, shallow_row}
use file_peeker.Browser.Tree.Invariant.{IsTree, lookup-map_values}
use file_peeker.Browser.Tree.{
  Tree, Placement, collapse, collapse_at, subtree_end, request_ids, drop_requests, map_values,
  after_removal, underflows, underflow_at,
}
use file_peeker.Browser.Tree.Dropped.{drop_requests-left, drop_requests-loading}

-- The tree without the rows of a subtree.
module _ (t : Tree) (index : ℕ) (row : Row) (v : IsTree t)
    (h : get_elem? t.rows index ≡ some row) where
  stop_at : ℕ
  stop_at = subtree_end t.rows index row.depth

  kept_rows : List Row
  kept_rows = take (suc index) t.rows ++ drop stop_at t.rows

  rows' : List Row
  unfolding kept_rows
  rows' = set kept_rows index (record row { expansion = collapsed })

  below : IsSubtree (length t.rows) (depth_at t.rows) index stop_at
  unfolding stop_at
  below = subtree_end-IsSubtree t.rows index row h

  here : get_elem? kept_rows index ≡ some row
  unfolding kept_rows
  here =
      get_elem?-drain_front (suc index) stop_at t.rows (omega (arith, below.after, below.within))
        below.after index (omega arith)
      ∙ h

  removed :
      Removed
        (suc index)
        stop_at
        (depth_at t.rows)
        (depth_at rows')
        (expansion_at t.rows)
        (expansion_at rows')
  unfolding kept_rows rows'
  removed =
      let room : suc index ≤ length t.rows = omega (arith, below.after, below.within) in
      let same = set-depth_at kept_rows index row collapsed here in
      let other = set-expansion_ne kept_rows index row collapsed here in
      record {
        front = λ k a.
            same k
            ∙ ap depth_of (get_elem?-drain_front (suc index) stop_at t.rows room below.after k a);
        back = λ k a.
            same _
            ∙ ap depth_of (get_elem?-drain_back (suc index) stop_at t.rows room below.after k a);
        x_front = λ k a.
            other k (ground arith)
            ∙ ap expansion_of
                (get_elem?-drain_front (suc index) stop_at t.rows room below.after k (omega arith));
        x_back = λ k a.
            other (k - (stop_at - suc index)) (ground (arith, below.after))
            ∙ ap expansion_of
                (get_elem?-drain_back (suc index) stop_at t.rows room below.after k a);
      }

  shorter : length rows' ≡ length t.rows - (stop_at - suc index)
  unfolding rows' kept_rows
  shorter =
      length-set kept_rows index (record row { expansion = collapsed })
      ∙ length-drain (suc index) stop_at t.rows (omega (arith, below.after, below.within))
          below.after below.within

  removed_closed : IsClosed (depth_at rows') (expansion_at rows')
  removed_closed k c = elim (Bool-cases (ltb k index)) [
    | inl u ↦ omega (
      arith,
      removed.front k (ground arith),
      removed.front (suc k) (ground arith),
      v.closed k (sym (removed.x_front k (ground arith)) ∙ c),
    )
    | inr u ↦
        let gap = stop_at - suc index in
        let back : suc k ≡ (suc k + gap) - gap = omega arith in
        elim (Bool-cases (k == index)) [
          | inl w ↦
              let same : k ≡ index = ground arith in
              let old : suc k + gap ≡ stop_at = ground (arith, below.after) in
              omega (
                arith,
                ap (depth_at rows') same,
                removed.front index (omega arith),
                ap (depth_at rows') back,
                removed.back (suc k + gap) (omega arith),
                ap (depth_at t.rows) old,
                below.stop,
              )
          | inr w ↦
              let far : stop_at ≤ k + gap = ground (arith, below.after) in
              let next : suc k + gap ≡ suc (k + gap) = omega arith in
              let back_k : k ≡ (k + gap) - gap = omega arith in
              omega (
                arith,
                ap (depth_at rows') back_k,
                removed.back (k + gap) far,
                ap (depth_at rows') back,
                removed.back (suc k + gap) (omega arith),
                ap (depth_at t.rows) next,
                v.closed (k + gap)
                    (sym (removed.x_back (k + gap) far) ∙ ap (expansion_at rows') (sym back_k) ∙ c),
              )
        ]
  ]

  left : List (ℕ × Placement)
  left = (drop_requests (request_ids (take (stop_at - index) (drop index t.rows))) t.placements).0

  -- The row of a placement that is left is not in the subtree.
  outside :
      (id : ℕ) (p : Placement) → lookup id left ≡ some p → (p.parent < index) ⊎ (stop_at ≤ p.parent)
  unfolding left
  outside id p g = elim (Bool-cases (ltb p.parent index)) [
    | inl u ↦ inl (ground arith)
    | inr u ↦ elim (Bool-cases (leb stop_at p.parent)) [
      | inl w ↦ inr (ground arith)
      | inr w ↦
          let l =
            drop_requests-left (request_ids (take (stop_at - index) (drop index t.rows)))
              t.placements id p g in
          let old : index + (p.parent - index) ≡ p.parent = ground arith in
          let loads : expansion_at (take (stop_at - index) (drop index t.rows)) (p.parent - index)
              ≡ loading id =
            ap expansion_of (
              get_elem?-take (stop_at - index) (drop index t.rows) (p.parent - index)
                (ground arith))
            ∙ ap expansion_of (get_elem?-drop index t.rows (p.parent - index))
            ∙ ap (expansion_at t.rows) old
            ∙ (v.placed id p l).is_loading in
          let gone =
            drop_requests-loading (take (stop_at - index) (drop index t.rows)) (p.parent - index) id
              t.placements loads in
          absurd (ground arith)
    ]
  ]

  removed-IsPlaced :
      (id : ℕ) (q : Placement)
      → lookup id (map_values (after_removal (suc index) stop_at) left) ≡ some q
      → IsPlaced (length rows') (depth_at rows') (expansion_at rows') id q
  unfolding left
  removed-IsPlaced id q g =
      let r = lookup-map_values (after_removal (suc index) stop_at) id left q g in
      subst (λ n. IsPlaced n (depth_at rows') (expansion_at rows') id q) (sym shorter)
        (subst
          (IsPlaced (length t.rows - (stop_at - suc index)) (depth_at rows') (expansion_at rows')
            id)
          (sym r.2)
          (after_removal-IsPlaced (length t.rows) index stop_at (depth_at t.rows) (depth_at rows')
            (expansion_at t.rows) (expansion_at rows') removed below id r.0
            (v.placed id r.0 (
              drop_requests-left (request_ids (take (stop_at - index) (drop index t.rows)))
                t.placements id r.0 r.1))
            (outside id r.0 r.1)))

  fits :
      (id : ℕ) (o : Option Placement)
      → lookup id left ≡ o
      → underflow_at (suc index) stop_at o ≡ false
  unfolding left
  fits id none g = refl
  fits id (some p) g =
      let placed = v.placed id p (
        drop_requests-left (request_ids (take (stop_at - index) (drop index t.rows))) t.placements
          id p g) in
      elim (Bool-cases (leb stop_at p.parent)) [
        | inr u ↦ rw (u) refl
        | inl u ↦ elim (Bool-cases (ltb p.insertion (stop_at - suc index))) [
          | inr w ↦ rw (u, w) refl
          | inl w ↦
              let far : stop_at ≤ p.parent = ground arith in
              let low : p.insertion < stop_at - suc index = ground arith in
              absurd (omega (arith, far, low, placed.after))
        ]
      ]

  no_underflow : (keys : List (ℕ × Placement)) → underflows (suc index) stop_at keys left ≡ false
  no_underflow [] = refl
  no_underflow ((id, p) ∷ keys) = rw (fits id (lookup id left) refl, no_underflow keys) refl

  -- The row is still at its index, collapsed.
  collapsed_here : get_elem? rows' index ≡ some (record row { expansion = collapsed })
  unfolding rows'
  collapsed_here =
      get_elem?-set_self kept_rows index (record row { expansion = collapsed }) row here

  rows'-IsShallow : (n : ℕ) → IsShallow n t.rows → IsShallow n rows'
  unfolding rows' kept_rows
  rows'-IsShallow n s =
      set-IsShallow n kept_rows index (record row { expansion = collapsed })
        (shallow_row n t.rows index row h s)
        (All-append (λ r. r.depth ≤ n) (take (suc index) t.rows) (drop stop_at t.rows)
          (All-take (λ r. r.depth ≤ n) (suc index) t.rows s)
          (All-drop (λ r. r.depth ≤ n) stop_at t.rows s))

  goes_on :
      (panics : Bool) (x : Tree × List ℕ)
      → panics ≡ false
      → (if panics then none else some x) ≡ some x
  goes_on true x e = absurd (ground arith)
  goes_on false x e = refl

  pub collapse_at-IsTree :
      (t' : Tree) × (ids : List ℕ) × (collapse_at t index (some row) ≡ some (t', ids))
      × IsTree t'
      × (get_elem? t'.rows index ≡ some (record row { expansion = collapsed }))
      × ((n : ℕ) → IsShallow n t.rows → IsShallow n t'.rows)
  unfolding collapse_at rows' kept_rows stop_at left
  collapse_at-IsTree = (
    _,
    _,
    goes_on (underflows (suc index) stop_at left left) _ (no_underflow left),
    record { placed = removed-IsPlaced; closed = removed_closed },
    collapsed_here,
    rows'-IsShallow,
  )

pub collapse-IsTree :
    (t : Tree) (index : ℕ) (row : Row)
    → IsTree t
    → get_elem? t.rows index ≡ some row
    → (t' : Tree) × (ids : List ℕ) × (collapse t index ≡ some (t', ids))
      × IsTree t'
      × (get_elem? t'.rows index ≡ some (record row { expansion = collapsed }))
      × ((n : ℕ) → IsShallow n t.rows → IsShallow n t'.rows)
unfolding collapse
collapse-IsTree t index row v h = rw (h) (collapse_at-IsTree t index row v h)
