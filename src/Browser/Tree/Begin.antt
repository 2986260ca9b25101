-- ===== src/Browser/Tree/Begin.antt =====
-- Expansions of old/src/browser/tree.rs that begin.
use file_peeker.Base.{
  ℕ, suc, ◌<◌, ◌≡◌, ◌≢◌, refl, sym, ap, ◌∙◌, some, List, arith, ◌==◌, inl, inr, ◌⊎◌, Bool-cases,
  length, get_elem?, lookup, insert, lookup-insert, length-set,
}
use mathlib.Core.Path.{subst}
use file_peeker.Browser.{Row, collapsed, loading, deeper, max_depth}
use file_peeker.Browser.Tree.Shape.{IsPlaced}
use file_peeker.Browser.Tree.Rows.{
  depth_at, expansion_at, depth_of, expansion_of, set-depth_at, set-expansion_self, get_elem?-below,
}
use file_peeker.Browser.Tree.Depths.{IsShallow, begin_at-IsShallow}
use file_peeker.Browser.Tree.Invariant.{IsTree}
use file_peeker.Browser.Tree.Endings.{written, kept-IsPlaced, written-closed}
use file_peeker.Browser.Tree.{Tree, Placement, begin_expansion, begin_at}

loading-ne : (id : ℕ) → loading id ≢ collapsed
loading-ne id h = ground arith

-- A key of a map with one key written.
insert-cases :
    (id jd : ℕ) (p q : Placement) (m : List (ℕ × Placement))
    → lookup jd (insert id p m) ≡ some q
    → ((id ≡ jd) × (p ≡ q)) ⊎ (lookup jd m ≡ some q)
insert-cases id jd p q m g = elim (Bool-cases (id == jd)) [
  | inl u ↦ inl (ground arith, ground (arith, lookup-insert id jd p m))
  | inr u ↦ inr (ground (arith, lookup-insert id jd p m))
]

-- A collapsed row begins to load: its subtree is empty, and every other placement stays in place.
module _ (t : Tree) (index id : ℕ) (row : Row) (v : IsTree t)
    (h : get_elem? t.rows index ≡ some row) (c : row.expansion ≡ collapsed) where
  abbrev own : Placement
  own = record { parent = index; depth = deeper row.depth; insertion = suc index }

  own-IsPlaced :
      row.depth < max_depth
      → IsPlaced
          (length (written t index row (loading id) h v))
          (depth_at (written t index row (loading id) h v))
          (expansion_at (written t index row (loading id) h v))
          id
          own
  unfolding written
  own-IsPlaced b =
      let same = set-depth_at t.rows index row (loading id) h in
      let here = get_elem?-below t.rows index row h in
      let size = length-set t.rows index (record row { expansion = loading id }) in
      record {
        parent_in = omega (arith, size, here);
        is_loading = set-expansion_self t.rows index row (loading id) h;
        child_depth = omega (arith, same index, ap depth_of h, b);
        after = omega arith;
        within = omega (arith, size, here);
        inside = λ k x y. absurd (omega arith);
        stop = omega (arith, same index, same (suc index), v.closed index (ap expansion_of h ∙ c));
      }

  others-IsPlaced :
      (jd : ℕ) (q : Placement)
      → lookup jd t.placements ≡ some q
      → IsPlaced
          (length (written t index row (loading id) h v))
          (depth_at (written t index row (loading id) h v))
          (expansion_at (written t index row (loading id) h v))
          jd
          q
  others-IsPlaced jd q g = kept-IsPlaced t index row (loading id) h v jd q g (λ same.
      loading-ne jd (
        sym (v.placed jd q g).is_loading
        ∙ ap (expansion_at t.rows) (sym same)
        ∙ ap expansion_of h
        ∙ c))

  pub begin_at-IsTree :
      row.depth < max_depth
      → (t' : Tree) × (begin_at t index id (some row) ≡ some (t', row.path)) × IsTree t'
  unfolding begin_at written
  begin_at-IsTree b = (
    _,
    refl,
    record {
      placed = λ jd q g. elim (insert-cases id jd own q t.placements g) [
        | inl e ↦
            subst
              (λ k.
                IsPlaced (length (written t index row (loading id) h v))
                  (depth_at (written t index row (loading id) h v))
                  (expansion_at (written t index row (loading id) h v)) k q)
              e.0
              (subst
                (IsPlaced (length (written t index row (loading id) h v))
                  (depth_at (written t index row (loading id) h v))
                  (expansion_at (written t index row (loading id) h v)) id)
                e.1 (own-IsPlaced b))
        | inr e ↦ others-IsPlaced jd q e
      ];
      closed = written-closed t index row (loading id) h v (loading-ne id);
    },
  )

pub begin_expansion-IsTree :
    (t : Tree) (index id : ℕ) (row : Row)
    → IsTree t
    → get_elem? t.rows index ≡ some row
    → row.expansion ≡ collapsed
    → row.depth < max_depth
    → (t' : Tree) × (begin_expansion t index id ≡ some (t', row.path))
      × IsTree t'
      × ((n : ℕ) → IsShallow n t.rows → IsShallow n t'.rows)
unfolding begin_expansion
begin_expansion-IsTree t index id row v h c b =
    let r = begin_at-IsTree t index id row v h c b in
    rw (h) (r.0, r.1, r.2, λ n s. begin_at-IsShallow n t index id (some row) h s r.0 row.path r.1)
