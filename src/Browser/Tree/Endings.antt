-- ===== src/Browser/Tree/Endings.antt =====
-- Expansions of old/src/browser/tree.rs that end.
use Prim.Native.String.{String}
use file_peeker.Base.{
  ℕ, suc, ◌≡◌, ◌≢◌, refl, sym, ap, ◌∙◌, Option, none, some, List, arith, ◌==◌, inl, inr, Bool-cases,
  length, get_elem?, set, lookup, remove, lookup-remove, Result, ok, err, length-set,
}
use file_peeker.Browser.{Row, Expansion, collapsed, loading}
use file_peeker.Browser.Tree.{
  Tree, Placement, finish_child, finish_placed, write_expansion, clamp_in, ending,
}
use file_peeker.Browser.Tree.Shape.{IsPlaced, IsClosed}
use file_peeker.Browser.Tree.Rows.{
  depth_at, expansion_at, set-depth_at, set-expansion_self, set-expansion_ne,
}
use file_peeker.Browser.Tree.Invariant.{IsTree}
use file_peeker.Browser.Tree.Operations.{loading_row, clamp-IsTree}

-- A placement on rows with the same depths, and the same expansion of its row.
IsPlaced-agrees :
    (n n' : ℕ) (d d' : ℕ → ℕ) (x x' : ℕ → Expansion) (id : ℕ) (p : Placement)
    → n' ≡ n
    → ((k : ℕ) → d' k ≡ d k)
    → x' p.parent ≡ x p.parent
    → IsPlaced n d x id p
    → IsPlaced n' d' x' id p
IsPlaced-agrees n n' d d' x x' id p a f g v = record {
  parent_in = omega (arith, v.parent_in);
  is_loading = g ∙ v.is_loading;
  child_depth = omega (arith, v.child_depth, f p.parent);
  after = v.after;
  within = omega (arith, v.within);
  inside = λ k b c. omega (arith, f p.parent, f k, v.inside k b c);
  stop = omega (arith, f p.parent, f p.insertion, v.stop);
}

-- The expansion of one row is written, and it is not closed by that.
module _ (t : Tree) (index : ℕ) (row : Row) (e : Expansion) (h : get_elem? t.rows index ≡ some row)
    (v : IsTree t) where
  unfoldable pub written : List Row
  written = set t.rows index (record row { expansion = e })

  pub kept-IsPlaced :
      (id : ℕ) (q : Placement)
      → lookup id t.placements ≡ some q
      → index ≢ q.parent
      → IsPlaced (length written) (depth_at written) (expansion_at written) id q
  unfolding written
  kept-IsPlaced id q l ne =
      IsPlaced-agrees (length t.rows) (length written) (depth_at t.rows) (depth_at written)
        (expansion_at t.rows) (expansion_at written) id q (length-set t.rows index _)
        (set-depth_at t.rows index row e h) (set-expansion_ne t.rows index row e h q.parent ne)
        (v.placed id q l)

  pub written-closed : e ≢ collapsed → IsClosed (depth_at written) (expansion_at written)
  unfolding written
  written-closed ne k c = elim (Bool-cases (index == k)) [
    | inl u ↦
        let same : k ≡ index = ground arith in
        absurd (
          ne (
            sym (set-expansion_self t.rows index row e h)
            ∙ ap (expansion_at written) (sym same)
            ∙ c))
    | inr u ↦
        let own = sym (set-expansion_ne t.rows index row e h k (ground arith)) ∙ c in
        omega (
          arith,
          set-depth_at t.rows index row e h k,
          set-depth_at t.rows index row e h (suc k),
          v.closed k own,
        )
  ]

pub loading-id : (id jd : ℕ) → loading id ≡ loading jd → id ≡ jd
loading-id id jd h = ground arith

ending-ne : (r : Result String (Unit {0})) (id : ℕ) → ending r id ≢ collapsed
ending-ne (ok u) id h = ground arith
ending-ne (err e) id h = ground arith

finish_placed-IsTree :
    (t : Tree) (id : ℕ) (r : Result String (Unit {0})) (p : Option Placement)
    → IsTree t
    → lookup id t.placements ≡ p
    → (t' : Tree) × (finish_placed t id r p ≡ some t') × IsTree t'
unfolding finish_placed write_expansion clamp_in written
finish_placed-IsTree t id r none v l = (t, refl, v)
finish_placed-IsTree t id r (some p) v l =
    let w = v.placed id p l in
    let row = loading_row t.rows p.parent id w.is_loading in
    let e = ending r id in
    rw (row.1) (
      _,
      refl,
      clamp-IsTree _ (record {
        placed = λ jd q g.
            let both = kept jd q g in
            kept-IsPlaced t p.parent row.0 e row.1 v jd q both.1 (λ same. both.0 (
              loading-id id jd (
                sym w.is_loading
                ∙ ap (expansion_at t.rows) same
                ∙ (v.placed jd q both.1).is_loading)));
        closed = written-closed t p.parent row.0 e row.1 v (ending-ne r id);
      }),
    )
  where
    kept :
        (jd : ℕ) (q : Placement)
        → lookup jd (remove id t.placements) ≡ some q
        → (id ≢ jd) × (lookup jd t.placements ≡ some q)
    kept jd q g = elim (Bool-cases (id == jd)) [
      | inl u ↦ absurd (ground (arith, lookup-remove id jd t.placements))
      | inr u ↦ (ground arith, ground (arith, lookup-remove id jd t.placements))
    ]

pub finish_child-IsTree :
    (t : Tree) (id : ℕ) (r : Result String (Unit {0}))
    → IsTree t
    → (t' : Tree) × (finish_child t id r ≡ some t') × IsTree t'
unfolding finish_child
finish_child-IsTree t id r v = finish_placed-IsTree t id r (lookup id t.placements) v refl
