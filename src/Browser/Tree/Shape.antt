-- ===== src/Browser/Tree/Shape.antt =====
-- When the rows of old/src/browser/tree.rs are a tree in pre-order for their placements: on the depths
-- and expansions of the rows as functions of their index.
use file_peeker.Base.{
  ℕ, suc, ◌+◌, ◌-◌, ◌≤◌, ◌<◌, ◌≡◌, sym, ap, ◌∙◌, ◌||◌, ◌&&◌, arith, ltb, leb, ◌==◌, inl, inr,
  Bool-cases,
}
use file_peeker.Browser.{Expansion, collapsed, loading}
use file_peeker.Browser.Tree.{Placement, after_insertion}

-- A placement fills the subtree of a row that is loading: the rows up to where its next group lands are
-- deeper than the row, and the row there is not.
pub record IsPlaced (n : ℕ) (d : ℕ → ℕ) (x : ℕ → Expansion) (id : ℕ) (p : Placement) : Type 0 where
  pub parent_in : p.parent < n
  pub is_loading : x p.parent ≡ loading id
  pub child_depth : p.depth ≡ suc (d p.parent)
  pub after : p.parent < p.insertion
  pub within : p.insertion ≤ n
  pub inside : (k : ℕ) → p.parent < k → k < p.insertion → d p.parent < d k
  pub stop : d p.insertion ≤ d p.parent

-- A collapsed row has no rows below it.
abbrev pub IsClosed : (ℕ → ℕ) → (ℕ → Expansion) → Type 0
IsClosed d x = (k : ℕ) → x k ≡ collapsed → d (suc k) ≤ d k

-- What an insertion of `c` rows of depth `e` at `i` makes of the depths and the expansions.
pub record Inserted (i c e : ℕ) (d d' : ℕ → ℕ) (x x' : ℕ → Expansion) : Type 0 where
  pub front : (k : ℕ) → k < i → d' k ≡ d k
  pub new : (k : ℕ) → i ≤ k → k < i + c → d' k ≡ e
  pub back : (k : ℕ) → i ≤ k → d' (k + c) ≡ d k
  pub x_front : (k : ℕ) → k < i → x' k ≡ x k
  pub x_back : (k : ℕ) → i ≤ k → x' (k + c) ≡ x k

module _ (n i c e : ℕ) (d d' : ℕ → ℕ) (x x' : ℕ → Expansion) (s : Inserted i c e d d' x x') (id : ℕ)
    (p : Placement) (v : IsPlaced n d x id p) where
  -- The depth at an index behind the inserted rows.
  back_at : (k : ℕ) → i + c ≤ k → d' k ≡ d (k - c)
  back_at k h =
      let e : (k - c) + c ≡ k = omega arith in ap d' (sym e) ∙ s.back (k - c) (omega arith)

  -- The row and its subtree lie behind the insertion.
  behind-IsPlaced :
      i ≤ p.parent
      → IsPlaced (n + c) d' x' id (record p { parent = p.parent + c; insertion = p.insertion + c })
  behind-IsPlaced h = record {
    parent_in = omega (arith, v.parent_in);
    is_loading = s.x_back p.parent h ∙ v.is_loading;
    child_depth = omega (arith, v.child_depth, s.back p.parent h);
    after = omega (arith, v.after);
    within = omega (arith, v.within);
    inside = λ k a b. omega (
      arith,
      s.back p.parent h,
      back_at k (omega arith),
      v.inside (k - c) (omega arith) (omega arith),
    );
    stop = omega (arith, s.back p.parent h, s.back p.insertion (omega (arith, v.after)), v.stop);
  }

  -- The rows land inside the subtree, or right behind it and deeper than its row.
  inside-IsPlaced :
      p.parent < i
      → i ≤ p.insertion
      → d p.parent < e
      → IsPlaced (n + c) d' x' id (record p { insertion = p.insertion + c })
  inside-IsPlaced h g f = record {
    parent_in = omega (arith, v.parent_in);
    is_loading = s.x_front p.parent h ∙ v.is_loading;
    child_depth = omega (arith, v.child_depth, s.front p.parent h);
    after = omega (arith, v.after);
    within = omega (arith, v.within);
    inside = λ k a b. elim (Bool-cases (ltb k i)) [
      | inl u ↦
          omega (arith, s.front p.parent h, s.front k (ground arith), v.inside k a (ground arith))
      | inr u ↦ elim (Bool-cases (ltb k (i + c))) [
        | inl w ↦ omega (arith, s.front p.parent h, s.new k (ground arith) (ground arith))
        | inr w ↦ omega (
          arith,
          s.front p.parent h,
          back_at k (ground arith),
          v.inside (k - c) (ground arith) (ground arith),
        )
      ]
    ];
    stop = omega (arith, s.front p.parent h, s.back p.insertion g, v.stop);
  }

  -- The rows land behind the subtree.
  ahead-IsPlaced :
      p.insertion ≤ i → (p.insertion ≡ i → e ≤ d p.parent) → i ≤ n → IsPlaced (n + c) d' x' id p
  ahead-IsPlaced h f j = record {
    parent_in = omega (arith, v.parent_in);
    is_loading = s.x_front p.parent (omega (arith, v.after)) ∙ v.is_loading;
    child_depth = omega (arith, v.child_depth, s.front p.parent (omega (arith, v.after)));
    after = v.after;
    within = omega (arith, v.within);
    inside = λ k a b.
        omega (
          arith,
          s.front p.parent (omega (arith, v.after)),
          s.front k (omega arith),
          v.inside k a b,
        );
    stop = elim (Bool-cases (ltb p.insertion i)) [
      | inl u ↦ omega (
        arith,
        s.front p.parent (omega (arith, v.after)),
        s.front p.insertion (ground arith),
        v.stop,
      )
      | inr u ↦ elim (Bool-cases (0 == c)) [
        | inl w ↦
            let none_new : p.insertion ≡ p.insertion + c = ground arith in
            omega (
              arith,
              s.front p.parent (omega (arith, v.after)),
              ap d' none_new,
              s.back p.insertion (ground arith),
              v.stop,
            )
        | inr w ↦ omega (
          arith,
          s.front p.parent (omega (arith, v.after)),
          s.new p.insertion (ground arith) (ground arith),
          f (ground arith),
        )
      ]
    ];
  }

  -- The shift keeps a placement in place, if rows that land strictly inside its subtree are deeper than its row.
  pub after_insertion-IsPlaced :
      (p.parent < i → i < p.insertion → d p.parent < e)
      → i ≤ n
      → IsPlaced (n + c) d' x' id (after_insertion i c e p)
  unfolding after_insertion
  after_insertion-IsPlaced f j = elim (Bool-cases (leb i p.parent)) [
    | inl u ↦ rw (u) (behind-IsPlaced (ground arith))
    | inr u ↦ elim (Bool-cases (ltb i p.insertion || (i == p.insertion && leb p.depth e))) [
      | inl w ↦
          rw (u, w) (inside-IsPlaced (ground arith) (ground arith) (ground (arith, v.child_depth)))
      | inr w ↦ rw (u, w) (ahead-IsPlaced (ground arith) (ground (arith, v.child_depth)) j)
    ]
  ]
