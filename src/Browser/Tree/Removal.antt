-- ===== src/Browser/Tree/Removal.antt =====
-- Rows removed from a tree of old/src/browser/tree.rs, and where the placements are then.
use file_peeker.Base.{
  ℕ, suc, ◌+◌, ◌-◌, ◌≤◌, ◌<◌, ◌≡◌, sym, ap, ◌∙◌, true, false, arith, ltb, leb, inl, inr, ◌⊎◌,
  Bool-cases,
}
use file_peeker.Browser.{Expansion}
use file_peeker.Browser.Tree.{Placement, after_removal}
use file_peeker.Browser.Tree.Shape.{IsPlaced}

-- What a removal of the rows from `start` up to `end` makes of them.
pub record Removed (start end : ℕ) (d d' : ℕ → ℕ) (x x' : ℕ → Expansion) : Type 0 where
  pub front : (k : ℕ) → k < start → d' k ≡ d k
  pub back : (k : ℕ) → end ≤ k → d' (k - (end - start)) ≡ d k
  pub x_front : (k : ℕ) → suc k < start → x' k ≡ x k
  pub x_back : (k : ℕ) → end ≤ k → x' (k - (end - start)) ≡ x k

-- The rows below a row, up to the end of its subtree.
pub record IsSubtree (n : ℕ) (d : ℕ → ℕ) (index end : ℕ) : Type 0 where
  pub after : index < end
  pub within : end ≤ n
  pub inside : (k : ℕ) → index < k → k < end → d index < d k
  pub stop : d end ≤ d index

module _ (n index end : ℕ) (d d' : ℕ → ℕ) (x x' : ℕ → Expansion)
    (s : Removed (suc index) end d d' x x') (t : IsSubtree n d index end) (id : ℕ) (p : Placement)
    (v : IsPlaced n d x id p) where
  removed_at : (k : ℕ) → suc index ≤ k → d' k ≡ d (k + (end - suc index))
  removed_at k h =
      let c = end - suc index in
      let e : (k + c) - c ≡ k = omega arith in
      ap d' (sym e) ∙ s.back (k + c) (omega (arith, t.after))

  past-IsPlaced :
      end ≤ p.parent
      → IsPlaced (n - (end - suc index)) d' x' id (record p {
        parent = p.parent - (end - suc index);
        insertion = p.insertion - (end - suc index);
      })
  past-IsPlaced h = record {
    parent_in = omega (arith, v.parent_in, t.after);
    is_loading = s.x_back p.parent h ∙ v.is_loading;
    child_depth = omega (arith, v.child_depth, s.back p.parent h);
    after = omega (arith, v.after, t.after);
    within = omega (arith, v.within, t.after, v.after);
    inside = λ k a b. omega (
      arith,
      s.back p.parent h,
      t.after,
      removed_at k (omega (arith, t.after)),
      v.inside (k + (end - suc index)) (omega (arith, t.after)) (omega (arith, t.after)),
    );
    stop = omega (arith, s.back p.parent h, s.back p.insertion (omega (arith, v.after)), v.stop);
  }

  -- The removed rows were inside the placement's subtree.
  around-IsPlaced :
      p.parent < index
      → end ≤ p.insertion
      → IsPlaced
          (n - (end - suc index))
          d'
          x'
          id
          (record p { insertion = p.insertion - (end - suc index) })
  around-IsPlaced h g = record {
    parent_in = omega (arith, v.parent_in, t.after, t.within);
    is_loading = s.x_front p.parent (omega arith) ∙ v.is_loading;
    child_depth = omega (arith, v.child_depth, s.front p.parent (omega arith));
    after = omega (arith, t.after);
    within = omega (arith, v.within, t.after);
    inside = λ k a b. elim (Bool-cases (leb k index)) [
      | inl u ↦ omega (
        arith,
        s.front p.parent (omega arith),
        s.front k (ground arith),
        v.inside k a (ground (arith, t.after)),
      )
      | inr u ↦ omega (
        arith,
        s.front p.parent (omega arith),
        removed_at k (ground arith),
        v.inside (k + (end - suc index)) (omega arith) (omega (arith, t.after)),
      )
    ];
    stop = omega (arith, s.front p.parent (omega arith), s.back p.insertion g, v.stop);
  }

  ahead_of-IsPlaced : p.insertion ≤ index → IsPlaced (n - (end - suc index)) d' x' id p
  ahead_of-IsPlaced h = record {
    parent_in = omega (arith, v.after, t.after, t.within);
    is_loading = s.x_front p.parent (omega (arith, v.after)) ∙ v.is_loading;
    child_depth = omega (arith, v.child_depth, s.front p.parent (omega (arith, v.after)));
    after = v.after;
    within = omega (arith, t.after, t.within);
    inside = λ k a b.
        omega (
          arith,
          s.front p.parent (omega (arith, v.after)),
          s.front k (omega arith),
          v.inside k a b,
        );
    stop = omega (
      arith,
      s.front p.parent (omega (arith, v.after)),
      s.front p.insertion (omega arith),
      v.stop,
    );
  }

  -- Subtrees nest: a placement whose row is before `index` ends before it, or behind its subtree.
  nested : p.parent < index → index < p.insertion → end ≤ p.insertion
  nested h g = elim (Bool-cases (leb end p.insertion)) [
    | inl u ↦ ground arith
    | inr u ↦ omega (arith, v.inside index h g, v.stop, t.inside p.insertion g (ground arith))
  ]

  -- The shift keeps a placement whose row is not in the removed subtree in place.
  pub after_removal-IsPlaced :
      (p.parent < index) ⊎ (end ≤ p.parent)
      → IsPlaced (n - (end - suc index)) d' x' id (after_removal (suc index) end p)
  unfolding after_removal
  after_removal-IsPlaced (inr h) =
      let far : leb end p.parent ≡ true = ground arith in rw (far) (past-IsPlaced h)
  after_removal-IsPlaced (inl h) =
      let near : leb end p.parent ≡ false = ground (arith, t.after) in
      elim (Bool-cases (ltb index p.insertion)) [
        | inl u ↦
            let g = nested h (ground arith) in
            let around : leb end p.insertion ≡ true = ground arith in
            rw (near, around) (around-IsPlaced h g)
        | inr u ↦
            let short : leb end p.insertion ≡ false = ground (arith, t.after) in
            let kept : ltb (suc index) p.insertion ≡ false = ground arith in
            rw (near, short, kept) (ahead_of-IsPlaced (ground arith))
      ]
